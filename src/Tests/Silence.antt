-- ===== src/Tests/Silence.antt =====
-- The silence rule: a service is seen twice, falls silent, and is heard of again.
use log_analytics_and_anomal.Prelude.{
  [], ◌∷◌, ◌≡◌, refl, none, some, text_key, text, text_eq, pos, ◌-ℤ◌, ◌*ℤ◌, wrap64,
}
use log_analytics_and_anomal.Assoc.{lookup, insert}
use log_analytics_and_anomal.Detection.ServiceSilence.{
  ServiceSilenceRule, new_service_silence_rule, evaluate_service_silence, check_silence,
  reset_service_silence, seen,
}
use log_analytics_and_anomal.Detection.ServiceSilence.Tracking.{
  run_silence, run-IsConsistent, IsConsistent,
}
use log_analytics_and_anomal.Detection.ServiceSilence.Reports.{
  reports, check_silence_exact, check_silence-retracks,
}
use log_analytics_and_anomal.Detection.ServiceSilence.Stale.{
  reset_service_silence_exact, evaluates, checks, resets, call_all, calls_keep-IsConsistent,
}
use log_analytics_and_anomal.Tests.Samples.{failure_at, moment_at, past_failures, silence_cfg}

abbrev watched : ServiceSilenceRule
watched = run_silence (new_service_silence_rule silence_cfg) past_failures

check_silence_exact_example : reports (text "pay") (check_silence watched (λ s. moment_at 80)).1 ≡ 1
unfolding text_eq ◌-ℤ◌
check_silence_exact_example =
    check_silence_exact silence_cfg past_failures (λ s. moment_at 80) (text "pay")

check_silence-retracks_example :
    (lookup (text "pay") (check_silence watched (λ s. moment_at 80)).0.last_seen ≡ none)
    × (lookup
          (text "pay")
          (evaluate_service_silence
            (check_silence watched (λ s. moment_at 80)).0
            (failure_at 90)
            (moment_at 91)).last_seen
        ≡ some (pos 91))
unfolding text_eq ◌-ℤ◌ lookup evaluate_service_silence new_service_silence_rule insert
check_silence-retracks_example =
    check_silence-retracks watched (λ s. moment_at 80) (failure_at 90) (moment_at 91) (pos 21)
      (run-IsConsistent silence_cfg past_failures) refl refl

reset_service_silence_exact_example :
    (lookup (text "pay") (reset_service_silence watched (λ s. pos 200)).last_seen ≡ none)
    × (seen (reset_service_silence watched (λ s. pos 200)) (text "pay") ≡ 0)
unfolding text_eq ◌-ℤ◌ ◌*ℤ◌ wrap64 lookup evaluate_service_silence new_service_silence_rule insert
reset_service_silence_exact_example =
    reset_service_silence_exact watched (λ s. pos 200) (text "pay")
      (run-IsConsistent silence_cfg past_failures)

calls_keep-IsConsistent_example : IsConsistent (
    call_all (new_service_silence_rule silence_cfg) (
      evaluates (failure_at 10) (moment_at 11)
      ∷ evaluates (failure_at 20) (moment_at 21)
      ∷ checks (λ s. moment_at 80)
      ∷ resets (λ s. pos 90)
      ∷ []))
calls_keep-IsConsistent_example = calls_keep-IsConsistent silence_cfg (
    evaluates (failure_at 10) (moment_at 11)
    ∷ evaluates (failure_at 20) (moment_at 21)
    ∷ checks (λ s. moment_at 80)
    ∷ resets (λ s. pos 90)
    ∷ [])
