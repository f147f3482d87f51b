-- ===== src/Detection/ServiceSilence/Stale.antt =====
-- What Reset of ServiceSilenceRule forgets: a service that has been quiet for three times the
-- configured time, with its count.
use log_analytics_and_anomal.Prelude.{
  ◌≡◌, refl, Bool, false, not, List, [], ◌∷◌, Option, none, some, Text, text_key, text_eq_iff, ℕ,
  if◌then◌else◌, arith, Option-cases, inl, inr,
}
use log_analytics_and_anomal.Assoc.{
  lookup, remove, IsDistinct, lookup-remove, retain-IsDistinct, lookup-retain, lookup-retain-none,
}
use log_analytics_and_anomal.Domain.{Time, LogEntry}
use log_analytics_and_anomal.Detection.Config.{ServiceSilenceConfig, Moment}
use log_analytics_and_anomal.Detection.ServiceSilence.{
  ServiceSilenceRule, new_service_silence_rule, evaluate_service_silence, check_silence,
  reset_service_silence, forget_stale, is_stale, stale_threshold, seen,
}
use log_analytics_and_anomal.Detection.ServiceSilence.Tracking.{
  IsConsistent, new_service_silence_rule-IsConsistent, evaluate_service_silence-IsConsistent,
}
use log_analytics_and_anomal.Detection.ServiceSilence.Reports.{check_silence-IsConsistent}

abbrev is_forgotten : (Text → Time → Bool) → Text → Option Time → Bool
is_forgotten stale s none = false
is_forgotten stale s (some t) = stale s t

lookup-forget_stale :
    (stale : Text → Time → Bool) (m : List (Text × Time)) (counts : List (Text × ℕ)) (s : Text)
    → IsDistinct m
    → lookup s (forget_stale stale m counts)
      ≡ (if is_forgotten stale s (lookup s m) then none else lookup s counts)
unfolding forget_stale lookup IsDistinct
lookup-forget_stale stale [] counts s d = refl
lookup-forget_stale stale ((k, t) ∷ m) counts s d = ground (
  arith,
  text_eq_iff k s,
  lookup-remove k s counts,
  lookup-forget_stale stale m counts s d.1,
  lookup-forget_stale stale m (remove k counts) s d.1,
)

-- Reset of a consistent rule forgets exactly the tracked services whose last log is older than
-- three times `silence_after`: neither tracked nor counted any more, they have to be seen
-- `min_log_count` times again; of every other service it keeps both the time and the count.
pub reset_service_silence_exact :
    (r : ServiceSilenceRule) (now : Text → Time) (s : Text)
    → IsConsistent r
    → let stale = is_forgotten (is_stale (stale_threshold r.cfg) now) s (lookup s r.last_seen) in
      (lookup s (reset_service_silence r now).last_seen
        ≡ (if stale then none else lookup s r.last_seen))
      × (seen (reset_service_silence r now) s ≡ (if stale then 0 else seen r s))
unfolding reset_service_silence
reset_service_silence_exact r now s c =
    let stale = is_stale (stale_threshold r.cfg) now in
    elim (Option-cases (lookup s r.last_seen)) [
      | inl e ↦ ground (
        arith,
        lookup-retain-none (λ s t. not (stale s t)) s r.last_seen e,
        lookup-forget_stale stale r.last_seen r.seen_count s c.distinct,
      )
      | inr (t, e) ↦ ground (
        arith,
        lookup-retain (λ s t. not (stale s t)) s t r.last_seen c.distinct e,
        lookup-forget_stale stale r.last_seen r.seen_count s c.distinct,
      )
    ]

-- Reset keeps the rule consistent.
reset_service_silence-IsConsistent :
    (r : ServiceSilenceRule) (now : Text → Time)
    → IsConsistent r
    → IsConsistent (reset_service_silence r now)
unfolding reset_service_silence
reset_service_silence-IsConsistent r now c = record {
  distinct = retain-IsDistinct _ r.last_seen c.distinct;
  counted = λ s t h. ground (arith, reset_service_silence_exact r now s c, c.counted s t);
}

-- The calls of the rule's three methods, each under its mutex.
pub data SilenceCall : Type 0 where
  evaluates : LogEntry → Moment → SilenceCall
  checks : (Text → Moment) → SilenceCall
  resets : (Text → Time) → SilenceCall

abbrev call_silence : ServiceSilenceRule → SilenceCall → ServiceSilenceRule
call_silence r (evaluates e at) = evaluate_service_silence r e at
call_silence r (checks at) = (check_silence r at).0
call_silence r (resets now) = reset_service_silence r now

abbrev pub call_all : ServiceSilenceRule → List SilenceCall → ServiceSilenceRule
call_all r [] = r
call_all r (c ∷ cs) = call_all (call_silence r c) cs

call-IsConsistent :
    (r : ServiceSilenceRule) (c : SilenceCall) → IsConsistent r → IsConsistent (call_silence r c)
call-IsConsistent r (evaluates e at) h = evaluate_service_silence-IsConsistent r e at h
call-IsConsistent r (checks at) h = check_silence-IsConsistent r at h
call-IsConsistent r (resets now) h = reset_service_silence-IsConsistent r now h

call_all-IsConsistent :
    (r : ServiceSilenceRule) (cs : List SilenceCall) → IsConsistent r → IsConsistent (call_all r cs)
call_all-IsConsistent r [] h = h
call_all-IsConsistent r (c ∷ cs) h =
    call_all-IsConsistent (call_silence r c) cs (call-IsConsistent r c h)

-- In whatever order the workers, the heartbeat and the eviction loop call Evaluate, CheckSilence and
-- Reset of a new rule, no service is tracked twice, and every tracked one is counted as seen at least
-- `min_log_count` times.
pub calls_keep-IsConsistent :
    (cfg : ServiceSilenceConfig) (cs : List SilenceCall)
    → IsConsistent (call_all (new_service_silence_rule cfg) cs)
calls_keep-IsConsistent cfg cs =
    call_all-IsConsistent (new_service_silence_rule cfg) cs
      (new_service_silence_rule-IsConsistent cfg)
