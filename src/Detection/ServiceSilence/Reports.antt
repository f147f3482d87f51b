-- ===== src/Detection/ServiceSilence/Reports.antt =====
-- What CheckSilence of ServiceSilenceRule reports, and what it and Reset leave behind.
use log_analytics_and_anomal.Prelude.{
  ℕ, suc, ◌≡◌, refl, ap, ap₂, ◌∙◌, true, not, List, [], ◌∷◌, Option, none, some, Text, text_key,
  text_eq, text_eq_iff, if◌then◌else◌, arith, inl, inr, Option-cases,
}
use log_analytics_and_anomal.Assoc.{
  lookup, retain, IsDistinct, lookup-insert, retain-IsDistinct, lookup-retain, lookup-retain-none,
}
use log_analytics_and_anomal.Domain.{Time, Duration, LogEntry, Anomaly}
use log_analytics_and_anomal.Detection.Config.{ServiceSilenceConfig, Moment}
use log_analytics_and_anomal.Detection.ServiceSilence.{
  ServiceSilenceRule, new_service_silence_rule, evaluate_service_silence, check_silence, is_silent,
  silence_anomalies,
}
use log_analytics_and_anomal.Detection.ServiceSilence.Tracking.{
  IsConsistent, run_silence, tracked, times_seen, last_time, last_seen-run_exact, run-IsConsistent,
  cfg-run,
}

-- How many anomalies name the service.
abbrev pub reports : Text → List Anomaly → ℕ
reports s [] = 0
reports s (a ∷ rest) = if text_eq a.service s then suc (reports s rest) else reports s rest

-- One if the service is tracked and silent, else none.
abbrev report_of : Duration → (Text → Moment) → Text → Option Time → ℕ
report_of silence_after at s none = 0
report_of silence_after at s (some t) = if is_silent silence_after at s t then 1 else 0

reports-silence_anomalies :
    (cfg : ServiceSilenceConfig) (at : Text → Moment) (m : List (Text × Time)) (s : Text)
    → IsDistinct m
    → reports s (silence_anomalies cfg at m) ≡ report_of cfg.silence_after at s (lookup s m)
unfolding silence_anomalies lookup IsDistinct
reports-silence_anomalies cfg at [] s d = refl
reports-silence_anomalies cfg at ((j, t) ∷ m) s d =
    ground (arith, text_eq_iff j s, reports-silence_anomalies cfg at m s d.1)

-- CheckSilence after any sequence of Evaluate calls on a new rule: it reports a service at most
-- once, and exactly if it was seen at least `min_log_count` times, and once at all, and more than
-- `silence_after` has passed since the last call for it.
pub check_silence_exact :
    (cfg : ServiceSilenceConfig) (es : List (LogEntry × Moment)) (at : Text → Moment) (s : Text)
    → reports s (check_silence (run_silence (new_service_silence_rule cfg) es) at).1
      ≡ report_of cfg.silence_after at s
          (tracked cfg.min_log_count (times_seen s es) (last_time s es))
unfolding check_silence new_service_silence_rule
check_silence_exact cfg es at s =
    reports-silence_anomalies (run_silence (new_service_silence_rule cfg) es).cfg at
      (run_silence (new_service_silence_rule cfg) es).last_seen s (run-IsConsistent cfg es).distinct
    ∙ ap₂ (λ d t. report_of d at s t)
        (ap (λ c. c.silence_after) (cfg-run (new_service_silence_rule cfg) es))
        (last_seen-run_exact cfg es s)

lookup-check_silence :
    (r : ServiceSilenceRule) (at : Text → Moment) (s : Text) (t : Time)
    → IsDistinct r.last_seen
    → lookup s (check_silence r at).0.last_seen ≡ some t
    → lookup s r.last_seen ≡ some t
unfolding check_silence
lookup-check_silence r at s t d h = elim (Option-cases (lookup s r.last_seen)) [
  | inl e ↦
      cc (lookup-retain-none (λ s t. not (is_silent r.cfg.silence_after at s t)) s r.last_seen e)
  | inr (u, e) ↦
      ground (
        arith,
        lookup-retain (λ s t. not (is_silent r.cfg.silence_after at s t)) s u r.last_seen d e,
      )
]

-- CheckSilence keeps the rule consistent.
pub check_silence-IsConsistent :
    (r : ServiceSilenceRule) (at : Text → Moment)
    → IsConsistent r
    → IsConsistent (check_silence r at).0
unfolding check_silence
check_silence-IsConsistent r at c = record {
  distinct = retain-IsDistinct _ r.last_seen c.distinct;
  counted = λ s t h. c.counted s t (lookup-check_silence r at s t c.distinct h);
}

-- In a consistent rule, a tracked service that is silent is no longer tracked after CheckSilence,
-- and the next single log of the service puts it back: it does not have to be seen `min_log_count` times again.
pub check_silence-retracks :
    (r : ServiceSilenceRule) (at : Text → Moment) (e : LogEntry) (now : Moment) (t : Time)
    → IsConsistent r
    → lookup e.service r.last_seen ≡ some t
    → is_silent r.cfg.silence_after at e.service t ≡ true
    → (lookup e.service (check_silence r at).0.last_seen ≡ none)
      × (lookup e.service (evaluate_service_silence (check_silence r at).0 e now).last_seen
          ≡ some now.counted)
unfolding check_silence evaluate_service_silence
check_silence-retracks r at e now t c h silent =
    let enough = c.counted e.service t h in
    (
      ground (
        arith,
        lookup-retain (λ s u. not (is_silent r.cfg.silence_after at s u)) e.service t r.last_seen
            c.distinct h,
      ),
      ground (
        arith,
        lookup-insert e.service e.service now.counted
            (retain (λ s u. not (is_silent r.cfg.silence_after at s u)) r.last_seen),
        text_eq_iff e.service e.service,
      ),
    )
