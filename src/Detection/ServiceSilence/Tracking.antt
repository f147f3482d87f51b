-- ===== src/Detection/ServiceSilence/Tracking.antt =====
-- Which services ServiceSilenceRule tracks, as a function of what it was given.
use log_analytics_and_anomal.Prelude.{
  ℕ, suc, ◌+◌, ◌≡◌, refl, sym, ap, ap₂, ◌∙◌, true, List, [], ◌∷◌, Option, none, some, Text,
  text_key, text_eq, text_eq_iff, ℤ, pos, leb_ℤ, if◌then◌else◌, arith,
}
use log_analytics_and_anomal.Assoc.{lookup, IsDistinct, lookup-insert, insert-IsDistinct}
use log_analytics_and_anomal.Domain.{Time, LogEntry}
use log_analytics_and_anomal.Detection.Config.{ServiceSilenceConfig, Moment}
use log_analytics_and_anomal.Detection.ServiceSilence.{
  ServiceSilenceRule, new_service_silence_rule, evaluate_service_silence, seen,
}

abbrev pub run_silence : ServiceSilenceRule → List (LogEntry × Moment) → ServiceSilenceRule
run_silence r [] = r
run_silence r ((e, at) ∷ es) = run_silence (evaluate_service_silence r e at) es

-- How often a service was seen, and when last.
abbrev pub times_seen : Text → List (LogEntry × Moment) → ℕ
times_seen s [] = 0
times_seen s ((e, at) ∷ es) = if text_eq e.service s then suc (times_seen s es) else times_seen s es

abbrev or_else : Option Time → Option Time → Option Time
or_else none b = b
or_else (some t) b = some t

abbrev pub last_time : Text → List (LogEntry × Moment) → Option Time
last_time s [] = none
last_time s ((e, at) ∷ es) =
    or_else (last_time s es) (if text_eq e.service s then some at.counted else none)

abbrev pub tracked : ℤ → ℕ → Option Time → Option Time
tracked min n t = if leb_ℤ min (pos n) then t else none

seen-evaluate :
    (r : ServiceSilenceRule) (e : LogEntry) (at : Moment) (s : Text)
    → seen (evaluate_service_silence r e at) s
      ≡ (if text_eq e.service s then suc (seen r s) else seen r s)
unfolding evaluate_service_silence
seen-evaluate r e at s =
    ground (
      arith,
      lookup-insert e.service s (seen r e.service + 1) r.seen_count,
      text_eq_iff e.service s,
    )

last_seen-evaluate :
    (r : ServiceSilenceRule) (e : LogEntry) (at : Moment) (s : Text) (before : Option Time)
    → lookup s r.last_seen ≡ tracked r.cfg.min_log_count (seen r s) before
    → lookup s (evaluate_service_silence r e at).last_seen
      ≡ tracked r.cfg.min_log_count
          (seen (evaluate_service_silence r e at) s)
          (if text_eq e.service s then some at.counted else before)
unfolding evaluate_service_silence
last_seen-evaluate r e at s before h = ground (
  arith,
  lookup-insert e.service s (seen r e.service + 1) r.seen_count,
  lookup-insert e.service s at.counted r.last_seen,
  text_eq_iff e.service s,
)

cfg-evaluate :
    (r : ServiceSilenceRule) (e : LogEntry) (at : Moment)
    → (evaluate_service_silence r e at).cfg ≡ r.cfg
unfolding evaluate_service_silence
cfg-evaluate r e at = refl

or_else-none : (a : Option Time) → or_else a none ≡ a
or_else-none none = refl
or_else-none (some t) = refl

or_else_assoc : (a b c : Option Time) → or_else a (or_else b c) ≡ or_else (or_else a b) c
or_else_assoc none b c = refl
or_else_assoc (some t) b c = refl

seen-run :
    (r : ServiceSilenceRule) (es : List (LogEntry × Moment)) (s : Text)
    → seen (run_silence r es) s ≡ seen r s + times_seen s es
seen-run r [] s = omega arith
seen-run r ((e, at) ∷ es) s =
    ground (arith, seen-run (evaluate_service_silence r e at) es s, seen-evaluate r e at s)

pub cfg-run :
    (r : ServiceSilenceRule) (es : List (LogEntry × Moment)) → (run_silence r es).cfg ≡ r.cfg
cfg-run r [] = refl
cfg-run r ((e, at) ∷ es) = cfg-run (evaluate_service_silence r e at) es ∙ cfg-evaluate r e at

last_seen-run :
    (r : ServiceSilenceRule) (es : List (LogEntry × Moment)) (s : Text) (before : Option Time)
    → lookup s r.last_seen ≡ tracked r.cfg.min_log_count (seen r s) before
    → lookup s (run_silence r es).last_seen
      ≡ tracked r.cfg.min_log_count (seen (run_silence r es) s) (or_else (last_time s es) before)
last_seen-run r [] s before h = h
last_seen-run r ((e, at) ∷ es) s before h =
    last_seen-run (evaluate_service_silence r e at) es s
      (if text_eq e.service s then some at.counted else before)
      (last_seen-evaluate r e at s before h
        ∙ ap
            (λ c.
              tracked c.min_log_count (seen (evaluate_service_silence r e at) s)
                (if text_eq e.service s then some at.counted else before))
            (sym (cfg-evaluate r e at)))
    ∙ ap₂
        (λ c t.
          tracked c.min_log_count (seen (run_silence (evaluate_service_silence r e at) es) s) t)
        (cfg-evaluate r e at)
        (ground (
          arith,
          or_else_assoc (last_time s es) (some at.counted) before,
          or_else-none (last_time s es),
        ))

-- After any sequence of Evaluate calls on a new rule a service is tracked exactly if it was seen,
-- and at least `min_log_count` times; it is tracked with the time of the last call for it.
pub last_seen-run_exact :
    (cfg : ServiceSilenceConfig) (es : List (LogEntry × Moment)) (s : Text)
    → lookup s (run_silence (new_service_silence_rule cfg) es).last_seen
      ≡ tracked cfg.min_log_count (times_seen s es) (last_time s es)
unfolding new_service_silence_rule lookup
last_seen-run_exact cfg es s =
    last_seen-run (new_service_silence_rule cfg) es s none (ground arith)
    ∙ ap₂ (tracked cfg.min_log_count) (seen-run (new_service_silence_rule cfg) es s ∙ omega arith)
        (or_else-none (last_time s es))

-- What the rule's methods keep: no service stands twice, and a tracked one was seen often enough.
pub record IsConsistent (r : ServiceSilenceRule) : Type 0 where
  pub distinct : IsDistinct r.last_seen
  pub counted :
      (s : Text) (t : Time)
      → lookup s r.last_seen ≡ some t
      → leb_ℤ r.cfg.min_log_count (pos (seen r s)) ≡ true

pub new_service_silence_rule-IsConsistent :
    (cfg : ServiceSilenceConfig) → IsConsistent (new_service_silence_rule cfg)
unfolding new_service_silence_rule lookup IsDistinct
new_service_silence_rule-IsConsistent cfg = record { distinct = tt; counted = λ s t h. cc }

-- Evaluate keeps the rule consistent.
pub evaluate_service_silence-IsConsistent :
    (r : ServiceSilenceRule) (e : LogEntry) (at : Moment)
    → IsConsistent r
    → IsConsistent (evaluate_service_silence r e at)
unfolding evaluate_service_silence
evaluate_service_silence-IsConsistent r e at c = record {
  distinct =
      ground (arith, insert-IsDistinct e.service at.counted r.last_seen c.distinct, c.distinct);
  counted = λ s t h. ground (
    arith,
    lookup-insert e.service s (seen r e.service + 1) r.seen_count,
    lookup-insert e.service s at.counted r.last_seen,
    text_eq_iff e.service s,
    c.counted s t,
  );
}

run_from-IsConsistent :
    (r : ServiceSilenceRule) (es : List (LogEntry × Moment))
    → IsConsistent r
    → IsConsistent (run_silence r es)
run_from-IsConsistent r [] c = c
run_from-IsConsistent r ((e, at) ∷ es) c =
    run_from-IsConsistent (evaluate_service_silence r e at) es
      (evaluate_service_silence-IsConsistent r e at c)

pub run-IsConsistent :
    (cfg : ServiceSilenceConfig) (es : List (LogEntry × Moment))
    → IsConsistent (run_silence (new_service_silence_rule cfg) es)
run-IsConsistent cfg es = run_from-IsConsistent _ es (new_service_silence_rule-IsConsistent cfg)
