-- ===== src/Tools/LoadTest/Phases.antt =====
-- What the phases of cmd/loadtest/main.go generate, and which one is active.
use log_analytics_and_anomal.Prelude.{
  ℕ, ◌<◌, ◌==◌, ◌≡◌, refl, ap, subst, ◌∙◌, inl, inr, Bool, false, List, ◌∷◌, ◌++◌, some, Text, text,
  text_eq, ℤ, ◌≤ℤ◌, ◌<ℤ◌, arith,
}
use log_analytics_and_anomal.Domain.{Time, Duration, Float64}
use log_analytics_and_anomal.Tools.Random.{
  Rand, Gen, Always, All, bind-Always, choose-Always, Always-weaken, intn_then, pick_then,
  pick_where,
}
use log_analytics_and_anomal.Tools.Message.{LogMsg}
use log_analytics_and_anomal.Tools.Delivery.{IsWritten, IsKnown}
use log_analytics_and_anomal.Tools.Schedule.{Tiles, active, active_exact}
use log_analytics_and_anomal.Tools.Producer.{Event, Sent}
use log_analytics_and_anomal.Tools.Producer.Counting.{Counts, worker-Counts}
use log_analytics_and_anomal.Tools.LoadTest.{
  services, paths, sensitive_paths, source_ips, normal_levels, non_inventory, normal_log, error_log,
  auth_failure_log, high_latency_log, repeated_failure_log, off_hours_log,
}
use log_analytics_and_anomal.Tools.LoadTest.Run.{
  Phase, seconds, mostly, wind_down, build_phases, current_phase, load_worker,
}

normal_levels-IsWritten : All IsWritten normal_levels
normal_levels-IsWritten = (inl refl, (inl refl, (inl refl, (inr (inl refl), tt))))

module _ {S : Type 0} (rnd : Rand S) (format : Time → Text) where
  normal_log-IsKnown : (now : Time) → Always (normal_log rnd format now) IsKnown
  unfolding normal_log
  normal_log-IsKnown now = pick_then rnd IsKnown services _ (omega arith) (λ service.
      pick_then rnd IsKnown paths _ (omega arith) (λ path.
        intn_then rnd IsKnown 200 _ (omega arith) (λ n ln.
          pick_where rnd IsWritten IsKnown normal_levels _ (omega arith) normal_levels-IsWritten
            (λ level known. pick_then rnd IsKnown source_ips _ (omega arith) (λ ip s. known)))))

  error_log-IsKnown : (svc : Text) (now : Time) → Always (error_log rnd format svc now) IsKnown
  unfolding error_log
  error_log-IsKnown svc now =
      pick_then rnd IsKnown source_ips _ (omega arith) (λ ip s. inr (inr (inr refl)))

  auth_failure_log-IsKnown :
      (svc ip username : Text) (now : Time)
      → Always (auth_failure_log rnd format svc ip username now) IsKnown
  unfolding auth_failure_log
  auth_failure_log-IsKnown svc ip username now s = inr (inr (inr refl))

  high_latency_log-IsKnown :
      (svc : Text) (now : Time) → Always (high_latency_log rnd format svc now) IsKnown
  unfolding high_latency_log
  high_latency_log-IsKnown svc now = intn_then rnd IsKnown 1500 _ (omega arith) (λ n ln.
      pick_then rnd IsKnown paths _ (omega arith)
        (λ path. pick_then rnd IsKnown source_ips _ (omega arith) (λ ip s. inr (inr (inl refl)))))

  repeated_failure_log-IsKnown :
      (svc endpoint : Text) (now : Time)
      → Always (repeated_failure_log rnd format svc endpoint now) IsKnown
  unfolding repeated_failure_log
  repeated_failure_log-IsKnown svc endpoint now =
      pick_then rnd IsKnown source_ips _ (omega arith) (λ ip s. inr (inr (inr refl)))

  off_hours_log-IsKnown :
      (svc : Text) (now : Time) → Always (off_hours_log rnd format svc now) IsKnown
  unfolding off_hours_log
  off_hours_log-IsKnown svc now = pick_then rnd IsKnown sensitive_paths _ (omega arith) (λ said.
      pick_then rnd IsKnown sensitive_paths _ (omega arith)
        (λ path. pick_then rnd IsKnown source_ips _ (omega arith) (λ ip s. inl refl)))

  mostly-IsKnown :
      (n : ℕ) (other : Time → Gen S LogMsg) (now : Time)
      → 0 < n
      → ((t : Time) → Always (other t) IsKnown)
      → Always (mostly rnd format n other now) IsKnown
  unfolding mostly
  mostly-IsKnown n other now h k = intn_then rnd IsKnown n _ h (λ i li.
      choose-Always IsKnown (i == 0) (normal_log rnd format now) (other now)
        (normal_log-IsKnown now) (k now))

  -- The last phase never sends a log of inventory-service.
  abbrev IsElsewhere : Text → Type 0
  IsElsewhere service = text_eq service (text "inventory-service") ≡ false

  elsewhere : All IsElsewhere non_inventory
  unfolding text_eq
  elsewhere = (refl, (refl, (refl, (refl, (refl, tt)))))

  wind_down_excludes :
      (now : Time) → Always (wind_down rnd format now) (λ m. IsElsewhere m.service × IsKnown m)
  unfolding wind_down
  wind_down_excludes now =
      bind-Always IsKnown _ (normal_log rnd format now) _ (normal_log-IsKnown now) (λ m known.
        pick_where rnd IsElsewhere _ non_inventory _ (omega arith) elsewhere
          (λ service other s. (other, known)))

  abbrev pub Speaks : Phase S → Type 0
  Speaks p = (now : Time) → Always (p.generate now) IsKnown

  pub build_phases-Speaks : All Speaks (build_phases rnd format)
  unfolding build_phases
  build_phases-Speaks = (
    normal_log-IsKnown,
    (
      (λ t. mostly-IsKnown 3 _ t (omega arith) (error_log-IsKnown _)),
      (
        (λ t. mostly-IsKnown 4 _ t (omega arith) (auth_failure_log-IsKnown _ _ _)),
        (
          (λ t. mostly-IsKnown 4 _ t (omega arith) (high_latency_log-IsKnown _)),
          (
            (λ t. mostly-IsKnown 3 _ t (omega arith) (repeated_failure_log-IsKnown _ _)),
            (
              (λ t. mostly-IsKnown 3 _ t (omega arith) (off_hours_log-IsKnown _)),
              ((λ t. Always-weaken _ IsKnown _ (wind_down_excludes t) (λ m h. h.1)), tt),
            ),
          ),
        ),
      ),
    ),
  )

  build_phases-Tiles :
      Tiles (λ p. p.start) (λ p. p.finish) (seconds 0) (build_phases rnd format) (seconds 300)
  unfolding build_phases
  build_phases-Tiles = (
    refl,
    omega arith,
    (
      refl,
      omega arith,
      (
        refl,
        omega arith,
        (refl, omega arith, (refl, omega arith, (refl, omega arith, (refl, omega arith, refl)))),
      ),
    ),
  )

  -- In a run of the load test the active phase is the one whose interval has the elapsed time.
  current_phase_exact :
      (before : List (Phase S)) (p : Phase S) (rest : List (Phase S)) (elapsed : Duration)
      → build_phases rnd format ≡ before ++ p ∷ rest
      → p.start ≤ℤ elapsed
      → elapsed <ℤ p.finish
      → current_phase (build_phases rnd format) elapsed ≡ some p
  unfolding current_phase
  current_phase_exact before p rest elapsed split low high =
      ap (λ ps. active (λ q. q.start) (λ q. q.finish) ps elapsed) split
      ∙ active_exact (λ q. q.start) (λ q. q.finish) (seconds 0) before p rest (seconds 300) elapsed
          (subst (λ ps. Tiles (λ q. q.start) (λ q. q.finish) (seconds 0) ps (seconds 300)) split
            build_phases-Tiles)
          low high

  -- Whatever is drawn and however its ticks fall, a worker of the load test does not panic, it counts
  -- each message that it hands to the client once, as sent or as dropped, and each of them is at one
  -- of the four levels.
  load_worker-Counts :
      (outside : Float64 → ℤ) (fails : LogMsg → Bool) (rate : ℤ) (start_time deadline : Time)
      (events : List (Event × (ℕ → Time))) (out : Sent)
      → Counts out
      → Always
          (load_worker outside fails rate (build_phases rnd format) start_time deadline events out)
          Counts
  unfolding build_phases
  load_worker-Counts outside fails rate start_time deadline events out c =
      worker-Counts (λ p. p.start) (λ p. p.finish) (λ p. p.generate) (λ p. p.rate_multiplier)
        outside fails rate (build_phases rnd format) start_time deadline events out (omega arith)
        build_phases-Speaks c
