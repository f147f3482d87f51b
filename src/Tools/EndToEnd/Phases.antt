-- ===== src/Tools/EndToEnd/Phases.antt =====
-- What the phases of cmd/e2etest/main.go generate, which one is active, and what its workers send.
use log_analytics_and_anomal.Prelude.{
  ℕ, ◌+◌, ◌*◌, ◌/◌, ◌<◌, ◌==◌, ◌≡◌, refl, sym, ap, subst, ◌∙◌, inl, inr, Bool, List, ◌∷◌, ◌++◌,
  some, Text, ℤ, pos, ◌*ℤ◌, ◌≤ℤ◌, ◌<ℤ◌, int_mul_pos, arith,
}
use log_analytics_and_anomal.Domain.{Time, Duration, Float64}
use log_analytics_and_anomal.Tools.Random.{
  Rand, Gen, Always, All, choose-Always, intn_then, pick_then, pick_where,
}
use log_analytics_and_anomal.Tools.Message.{LogMsg}
use log_analytics_and_anomal.Tools.Delivery.{IsWritten, IsKnown}
use log_analytics_and_anomal.Tools.Schedule.{Tiles, active, active_exact}
use log_analytics_and_anomal.Tools.Producer.{Event, Sent}
use log_analytics_and_anomal.Tools.Producer.Counting.{Counts, worker-Counts}
use log_analytics_and_anomal.Tools.EndToEnd.{
  Phase, all_services, all_paths, all_ips, normal_levels, normal_log, error_log, auth_fail_log,
  high_latency_log, repeated_fail_log, mostly, build_phases, active_phase, test_worker,
}

normal_levels-IsWritten : All IsWritten normal_levels
normal_levels-IsWritten = (inl refl, (inl refl, (inl refl, (inr (inl refl), tt))))

module _ {S : Type 0} (rnd : Rand S) (format : Time → Text) where
  normal_log-IsKnown : (now : Time) → Always (normal_log rnd format now) IsKnown
  unfolding normal_log
  normal_log-IsKnown now =
      pick_where rnd IsWritten IsKnown normal_levels _ (omega arith) normal_levels-IsWritten
        (λ level known. pick_then rnd IsKnown all_services _ (omega arith) (λ service.
          pick_then rnd IsKnown all_paths _ (omega arith) (λ said.
            pick_then rnd IsKnown all_paths _ (omega arith) (λ path.
              intn_then rnd IsKnown 200 _ (omega arith)
                (λ n ln. pick_then rnd IsKnown all_ips _ (omega arith) (λ ip s. known))))))

  error_log-IsKnown : (now : Time) → Always (error_log rnd format now) IsKnown
  unfolding error_log
  error_log-IsKnown now =
      pick_then rnd IsKnown all_ips _ (omega arith) (λ ip s. inr (inr (inr refl)))

  auth_fail_log-IsKnown : (now : Time) → Always (auth_fail_log rnd format now) IsKnown
  unfolding auth_fail_log
  auth_fail_log-IsKnown now s = inr (inr (inr refl))

  high_latency_log-IsKnown : (now : Time) → Always (high_latency_log rnd format now) IsKnown
  unfolding high_latency_log
  high_latency_log-IsKnown now = intn_then rnd IsKnown 1500 _ (omega arith) (λ n ln.
      pick_then rnd IsKnown all_paths _ (omega arith)
        (λ path. pick_then rnd IsKnown all_ips _ (omega arith) (λ ip s. inr (inr (inl refl)))))

  repeated_fail_log-IsKnown : (now : Time) → Always (repeated_fail_log rnd format now) IsKnown
  unfolding repeated_fail_log
  repeated_fail_log-IsKnown now =
      pick_then rnd IsKnown all_ips _ (omega arith) (λ ip s. inr (inr (inr refl)))

  mostly-IsKnown :
      (n : ℕ) (other : Time → Gen S LogMsg) (now : Time)
      → 0 < n
      → ((t : Time) → Always (other t) IsKnown)
      → Always (mostly rnd format n other now) IsKnown
  unfolding mostly
  mostly-IsKnown n other now h k = intn_then rnd IsKnown n _ h (λ i li.
      choose-Always IsKnown (i == 0) (normal_log rnd format now) (other now)
        (normal_log-IsKnown now) (k now))

  abbrev Speaks : Phase S → Type 0
  Speaks p = (now : Time) → Always (p.generate now) IsKnown

  build_phases-Speaks : (d : Duration) → All Speaks (build_phases rnd format d)
  unfolding build_phases
  build_phases-Speaks d = (
    normal_log-IsKnown,
    (
      (λ t. mostly-IsKnown 3 _ t (omega arith) error_log-IsKnown),
      (
        (λ t. mostly-IsKnown 4 _ t (omega arith) auth_fail_log-IsKnown),
        (
          (λ t. mostly-IsKnown 4 _ t (omega arith) high_latency_log-IsKnown),
          (
            (λ t. mostly-IsKnown 3 _ t (omega arith) repeated_fail_log-IsKnown),
            (normal_log-IsKnown, tt),
          ),
        ),
      ),
    ),
  )

  zero_at : (n : ℕ) → pos 0 *ℤ pos n ≡ pos 0
  zero_at n = let none_left : 0 * n ≡ 0 = omega arith in int_mul_pos 0 n ∙ ap pos none_left

  at_mono : (k n : ℕ) → pos k *ℤ pos n ≤ℤ pos (k + 1) *ℤ pos n
  at_mono k n =
      let le : pos (k * n) ≤ℤ pos ((k + 1) * n) = omega arith in
      subst (λ a. a ≤ℤ pos (k + 1) *ℤ pos n) (sym (int_mul_pos k n))
        (subst (λ b. pos (k * n) ≤ℤ b) (sym (int_mul_pos (k + 1) n)) le)

  abbrev segments : ℕ → Duration
  segments d = pos 6 *ℤ pos (d / 6)

  build_phases-Tiles :
      (d : ℕ)
      → Tiles (λ p. p.start) (λ p. p.finish) (pos 0) (build_phases rnd format (pos d)) (segments d)
  unfolding build_phases
  build_phases-Tiles d =
      let n = d / 6 in
      (
        zero_at n,
        subst (λ t. t ≤ℤ pos 1 *ℤ pos n) (zero_at n) (at_mono 0 n),
        (
          refl,
          at_mono 1 n,
          (refl, at_mono 2 n, (refl, at_mono 3 n, (refl, at_mono 4 n, (refl, at_mono 5 n, refl)))),
        ),
      )

  -- In a run of `d` nanoseconds the active phase is the one whose sixth has the elapsed time, and
  -- the sixths follow one another from 0 on without a gap.
  active_phase_exact :
      (d : ℕ) (before : List (Phase S)) (p : Phase S) (rest : List (Phase S)) (elapsed : Duration)
      → build_phases rnd format (pos d) ≡ before ++ p ∷ rest
      → p.start ≤ℤ elapsed
      → elapsed <ℤ p.finish
      → (active_phase (build_phases rnd format (pos d)) elapsed ≡ some p)
        × Tiles
            (λ q. q.start)
            (λ q. q.finish)
            (pos 0)
            (build_phases rnd format (pos d))
            (pos 6 *ℤ pos (d / 6))
  unfolding active_phase
  active_phase_exact d before p rest elapsed split low high =
      let tiles = build_phases-Tiles d in
      let split_tiles =
        subst (λ ps. Tiles (λ q. q.start) (λ q. q.finish) (pos 0) ps (segments d)) split tiles in
      (
        ap (λ ps. active (λ q. q.start) (λ q. q.finish) ps elapsed) split
            ∙ active_exact (λ q. q.start) (λ q. q.finish) (pos 0) before p rest (segments d) elapsed
                split_tiles low high,
        tiles,
      )

  -- Whatever is drawn and however its ticks fall, a worker of the end-to-end test does not panic, it
  -- counts each message that it hands to the client once, as sent or as dropped, and each of them is
  -- at one of the four levels.
  test_worker-Counts :
      (outside : Float64 → ℤ) (fails : LogMsg → Bool) (rate : ℤ) (d : Duration)
      (start_time deadline : Time) (events : List (Event × (ℕ → Time))) (out : Sent)
      → Counts out
      → Always
          (test_worker outside fails rate
            (build_phases rnd format d)
            start_time
            deadline
            events
            out)
          Counts
  unfolding build_phases
  test_worker-Counts outside fails rate d start_time deadline events out c =
      worker-Counts (λ p. p.start) (λ p. p.finish) (λ p. p.generate) (λ p. p.rate_multiplier)
        outside fails rate (build_phases rnd format d) start_time deadline events out (omega arith)
        (build_phases-Speaks d) c
