-- ===== src/Tools/TestData/Levels.antt =====
-- The generators of the phases of cmd/generate-testdata/main.go and the levels of their logs.
use log_analytics_and_anomal.Prelude.{
  ◌<◌, ◌==◌, refl, inl, inr, Bool, true, false, Text, text, arith, if◌then◌else◌,
}
use log_analytics_and_anomal.Domain.{Time}
use log_analytics_and_anomal.Tools.Random.{Rand, Always, All, intn_then, pick_then}
use log_analytics_and_anomal.Tools.Delivery.{IsWritten, IsKnown}
use log_analytics_and_anomal.Tools.TestData.{
  services, paths, normal_ip, error_messages, usernames, sensitive_paths, normal_log, warn_log,
  error_spike_log, auth_fail_log, high_latency_log, repeated_fail_log, off_hours_log,
}
use log_analytics_and_anomal.Tools.TestData.Phases.{WeightedGen, Phase, total_weight, build_phases}

level_if : (b : Bool) → IsWritten (if b then text "debug" else text "info")
level_if true = inr (inl refl)
level_if false = inl refl

abbrev as_warn : IsWritten (text "warn")
as_warn = inr (inr (inl refl))

abbrev as_error : IsWritten (text "error")
as_error = inr (inr (inr refl))

module _ {S : Type 0} (rnd : Rand S) (format : Time → Text) where
  normal_log-IsKnown : (ts : Time) → Always (normal_log rnd format ts) IsKnown
  unfolding normal_log
  normal_log-IsKnown ts = intn_then rnd IsKnown 5 _ (omega arith) (λ n ln.
      pick_then rnd IsKnown paths _ (omega arith) (λ path.
        pick_then rnd IsKnown _ _ (ground arith) (λ template.
          pick_then rnd IsKnown services _ (omega arith) (λ service.
            intn_then rnd IsKnown 200 _ (omega arith) (λ k lk.
              pick_then rnd IsKnown normal_ip _ (omega arith) (λ ip s. level_if (n == 0)))))))

  warn_log-IsKnown : (ts : Time) → Always (warn_log rnd format ts) IsKnown
  unfolding warn_log
  warn_log-IsKnown ts = pick_then rnd IsKnown paths _ (omega arith) (λ path.
      intn_then rnd IsKnown 300 _ (omega arith) (λ k lk.
        pick_then rnd IsKnown services _ (omega arith)
          (λ service. pick_then rnd IsKnown normal_ip _ (omega arith) (λ ip s. as_warn))))

  error_spike_log-IsKnown : (ts : Time) → Always (error_spike_log rnd format ts) IsKnown
  unfolding error_spike_log
  error_spike_log-IsKnown ts =
      pick_then rnd IsKnown error_messages _ (omega arith)
        (λ message. pick_then rnd IsKnown normal_ip _ (omega arith) (λ ip s. as_error))

  auth_fail_log-IsKnown : (ts : Time) → Always (auth_fail_log rnd format ts) IsKnown
  unfolding auth_fail_log
  auth_fail_log-IsKnown ts = pick_then rnd IsKnown usernames _ (omega arith) (λ user s. as_error)

  high_latency_log-IsKnown : (ts : Time) → Always (high_latency_log rnd format ts) IsKnown
  unfolding high_latency_log
  high_latency_log-IsKnown ts = intn_then rnd IsKnown 1500 _ (omega arith) (λ n ln.
      pick_then rnd IsKnown paths _ (omega arith)
        (λ path. pick_then rnd IsKnown normal_ip _ (omega arith) (λ ip s. as_warn)))

  repeated_fail_log-IsKnown : (ts : Time) → Always (repeated_fail_log rnd format ts) IsKnown
  unfolding repeated_fail_log
  repeated_fail_log-IsKnown ts = pick_then rnd IsKnown normal_ip _ (omega arith) (λ ip s. as_error)

  off_hours_log-IsKnown : (ts : Time) → Always (off_hours_log rnd format ts) IsKnown
  unfolding off_hours_log
  off_hours_log-IsKnown ts = intn_then rnd IsKnown 2 _ (omega arith) (λ h lh.
      intn_then rnd IsKnown 60 _ (omega arith) (λ m lm.
        pick_then rnd IsKnown sensitive_paths _ (omega arith) (λ path.
          pick_then rnd IsKnown services _ (omega arith)
            (λ service. intn_then rnd IsKnown 100 _ (omega arith) (λ n ln s. inl refl)))))

  -- A phase whose generators work at any time, and have some weight.
  pub record Works (p : Phase S) : Type 0 where
    pub weighty : 0 < total_weight rnd p.generators
    pub known : All (λ (w : WeightedGen S). (ts : Time) → Always (w.gen ts) IsKnown) p.generators

  pub build_phases-Works : All Works (build_phases rnd format)
  unfolding build_phases total_weight
  build_phases-Works =
      let normal = normal_log-IsKnown in
      let warn = warn_log-IsKnown in
      (
        record { weighty = omega arith; known = (normal, (warn, tt)) },
        (
          record { weighty = omega arith; known = (normal, (error_spike_log-IsKnown, (warn, tt))) },
          (
            record { weighty = omega arith; known = (normal, (auth_fail_log-IsKnown, (warn, tt))) },
            (
              record {
                weighty = omega arith;
                known = (normal, (high_latency_log-IsKnown, (warn, tt)));
              },
              (
                record {
                  weighty = omega arith;
                  known = (normal, (repeated_fail_log-IsKnown, (warn, tt)));
                },
                (
                  record {
                    weighty = omega arith;
                    known = (normal, (off_hours_log-IsKnown, (warn, tt)));
                  },
                  (record { weighty = omega arith; known = (normal, (warn, tt)) }, tt),
                ),
              ),
            ),
          ),
        ),
      )
