-- ===== src/Tools/TestData/Complete.antt =====
-- How many logs a run of cmd/generate-testdata/main.go writes.
use log_analytics_and_anomal.Prelude.{
  ℕ, zero, suc, ◌+◌, ◌/◌, ◌^◌, ◌<◌, ◌≤◌, ◌≡◌, refl, sym, ap, subst, Bool, true, List, [], ◌∷◌, ◌++◌,
  Text, none, ℤ, pos, negsuc, ◌-ℤ◌, ◌<ℤ◌, ◌≤ℤ◌, arith, length, length-append,
}
use native.Mathlib.Nat.{le-div_iff_mul-le, div-eq_of_lt}
use log_analytics_and_anomal.Domain.{Time, Duration, Float64}
use log_analytics_and_anomal.Tools.Random.{
  Rand, Always, All, bind-Always, bind_none, Always-weaken, intn, intn-Always,
}
use log_analytics_and_anomal.Tools.Message.{LogMsg}
use log_analytics_and_anomal.Tools.Delivery.{IsKnown}
use log_analytics_and_anomal.Tools.TestData.Phases.{Phase, pick_generator, build_phases}
use log_analytics_and_anomal.Tools.TestData.Choice.{pick_generator-Always}
use log_analytics_and_anomal.Tools.TestData.Levels.{Works, build_phases-Works}
use log_analytics_and_anomal.Tools.TestData.Run.{
  Output, record_log, per, time_at, share_of, phase_counts, int63n, encode, write_log, write_logs,
  write_phase, write_phases, generate, no_output,
}
use log_analytics_and_anomal.Tools.TestData.Shares.{Allots, build_phases-Allots}

-- `n` logs, each of a known level.
pub record Wrote (n : ℕ) (out : Output) : Type 0 where
  pub counted : out.generated ≡ n
  pub length_lem : length out.written ≡ n
  pub known : All IsKnown out.written

All-append :
    (xs : List LogMsg) (m : LogMsg) → All IsKnown xs → IsKnown m → All IsKnown (xs ++ m ∷ [])
All-append [] m a k = (k, tt)
All-append (x ∷ xs) m (a, rest) k = (a, All-append xs m rest k)

record_log-Wrote :
    (n : ℕ) (m : LogMsg) (out : Output) → Wrote n out → IsKnown m → Wrote (suc n) (record_log m out)
record_log-Wrote n m out h k = record {
  counted = ap suc h.counted;
  length_lem = omega (arith, length-append out.written (m ∷ []), h.length_lem);
  known = All-append out.written m h.known k;
}

div_pos : (d k : ℕ) → 0 < k → k ≤ d → 1 ≤ d / k
div_pos d k h le = (le-div_iff_mul-le h).1 (omega (arith, le))

per_pos : (n : ℕ) (d : ℤ) → pos n <ℤ d → pos 0 <ℤ per d (suc n)
per_pos n (pos d) h =
    let quotient : 1 ≤ d / suc n = div_pos d (suc n) (omega arith) (omega arith) in omega arith
per_pos n (negsuc d) h = absurd (omega arith)

module _ {S : Type 0} (rnd : Rand S) (outside : Float64 → ℤ) (encodes : LogMsg → Bool)
    (format : Time → Text) (all_encode : (m : LogMsg) → encodes m ≡ true) where
  encode-Always :
      (n : ℕ) (m : LogMsg) (out : Output)
      → Wrote n out
      → IsKnown m
      → Always (encode rnd outside encodes m out) (Wrote (suc n))
  unfolding encode
  encode-Always n m out h k s = rw (all_encode m) (record_log-Wrote n m out h k)

  int63n-Always : (d : ℤ) → pos 0 <ℤ d → Always (int63n rnd outside encodes d) (λ i. Unit {0})
  unfolding int63n
  int63n-Always (pos n) h s =
      Always-weaken (λ i. i < n) (λ i. Unit {0}) (intn rnd n) (intn-Always rnd n (omega arith))
        (λ i u. tt) s
  int63n-Always (negsuc n) h s = absurd (omega arith)

  write_log-Always :
      (p : Phase S) (start : Time) (dur : Duration) (n j k : ℕ) (out : Output)
      → Works rnd format p
      → pos 0 <ℤ per dur (suc n)
      → Wrote k out
      → Always (write_log rnd outside encodes p start dur n j out) (Wrote (suc k))
  unfolding write_log
  write_log-Always p start dur n j k out works room h =
      bind-Always (λ i. Unit {0}) _ (int63n rnd outside encodes (per dur (suc n))) _
        (int63n-Always (per dur (suc n)) room)
        (λ jitter u.
          bind-Always (λ g. (ts : Time) → Always (g ts) IsKnown) _ (pick_generator rnd p.generators)
            _
            (pick_generator-Always rnd (λ g. (ts : Time) → Always (g ts) IsKnown) p.generators
              works.weighty works.known)
            (λ gen always.
              bind-Always IsKnown _ (gen _) _ (always _) (λ m k'. encode-Always k m out h k')))

  write_logs-Always :
      (p : Phase S) (start : Time) (dur : Duration) (n left j k : ℕ) (out : Output)
      → Works rnd format p
      → (0 < left → pos 0 <ℤ per dur (suc n))
      → Wrote k out
      → Always (write_logs rnd outside encodes p start dur n left j out) (Wrote (k + left))
  unfolding write_logs
  write_logs-Always p start dur n zero j k out works room h s =
      subst (λ i. Wrote i out) (omega arith) h
  write_logs-Always p start dur n (suc left) j k out works room h s =
      bind-Always (Wrote (suc k)) _ (write_log rnd outside encodes p start dur n j out) _
        (write_log-Always p start dur n j k out works (room (omega arith)) h)
        (λ next h'.
          Always-weaken (Wrote (suc k + left)) (Wrote (k + suc left)) _
            (write_logs-Always p start dur n left (suc j) (suc k) next works
              (λ u. room (omega arith)) h')
            (λ o. subst (λ i. Wrote i o) (omega arith)))
        s

  -- A phase with any log at all lasts a nanosecond longer than it has logs, or more.
  abbrev pub HasTime : Duration → List (Phase S × ℤ) → Type 0
  HasTime span [] = Unit {0}
  HasTime span ((p, n) ∷ rest) =
      (pos 0 <ℤ n
        → n <ℤ (
            time_at rnd outside encodes span p.end_pct
            -ℤ time_at rnd outside encodes span p.start_pct))
      × HasTime span rest

  write_phase-Always :
      (span : Duration) (p : Phase S) (n k : ℕ) (out : Output)
      → Works rnd format p
      → (pos 0 <ℤ pos n
          → pos n <ℤ (
              time_at rnd outside encodes span p.end_pct
              -ℤ time_at rnd outside encodes span p.start_pct))
      → Wrote k out
      → Always (write_phase rnd outside encodes span p (pos n) out) (Wrote (k + n))
  unfolding write_phase
  write_phase-Always span p n k out works room h =
      write_logs-Always p _ _ n n 0 k out works (λ u. per_pos n _ (room (omega (arith, u)))) h

  write_phases-Always :
      (span : Duration) (rest : List (Phase S × ℤ)) (total k : ℕ) (out : Output)
      → All (λ q. Works rnd format q.0) rest
      → Allots rest total
      → HasTime span rest
      → Wrote k out
      → Always (write_phases rnd outside encodes span rest out) (Wrote (k + total))
  unfolding write_phases
  write_phases-Always span [] total k out works allots room h s =
      subst (λ i. Wrote i out) (omega (arith, allots)) h
  write_phases-Always span ((p, n) ∷ rest) total k out works (v, u, eq, sum, allots) room h s =
      bind-Always (Wrote (k + v)) _ (write_phase rnd outside encodes span p n out) _
        (subst
          (λ i.
            (pos 0 <ℤ i
              → i <ℤ (
                  time_at rnd outside encodes span p.end_pct
                  -ℤ time_at rnd outside encodes span p.start_pct))
            → Always (write_phase rnd outside encodes span p i out) (Wrote (k + v)))
          (sym eq) (λ r. write_phase-Always span p v k out works.0 r h) room.0)
        (λ next h'.
          Always-weaken (Wrote (k + v + u)) (Wrote (k + total)) _
            (write_phases-Always span rest u (k + v) next works.1 allots room.1 h')
            (λ o. subst (λ i. Wrote i o) (omega (arith, sum))))
        s

  phase_counts-All :
      (P : Phase S → Type 0) (count remaining : ℤ) (phases : List (Phase S))
      → All P phases
      → All (λ q. P q.0) (phase_counts rnd outside encodes count remaining phases)
  unfolding phase_counts
  phase_counts-All P count remaining [] a = tt
  phase_counts-All P count remaining (p ∷ []) a = (a.0, tt)
  phase_counts-All P count remaining (p ∷ q ∷ phases) a = (
    a.0,
    phase_counts-All P count (remaining -ℤ share_of rnd outside encodes count p.weight_pct)
        (q ∷ phases) a.1,
  )

  -- Whatever is drawn, a run that is asked for `count` logs, fewer than 2 ^ 62, does not panic, and
  -- it writes `count` logs, each at one of the four levels, and counts as many: if the file is
  -- created, every log can be encoded, and each phase that gets any logs lasts longer, in
  -- nanoseconds, than it has logs.
  pub generate_complete :
      (count : ℕ) (span : Duration)
      → count < 2 ^ 62
      → HasTime span
          (phase_counts rnd outside encodes (pos count) (pos count) (build_phases rnd format))
      → Always (generate rnd format outside encodes true (pos count) span) (Wrote count)
  unfolding generate
  generate_complete count span h room s =
      let counts =
        phase_counts rnd outside encodes (pos count) (pos count) (build_phases rnd format) in
      Always-weaken (Wrote (0 + count)) (Wrote count)
        (write_phases rnd outside encodes span counts no_output)
        (write_phases-Always span counts count 0 no_output
          (phase_counts-All (Works rnd format) (pos count) (pos count) (build_phases rnd format)
            (build_phases-Works rnd format))
          (build_phases-Allots rnd outside encodes format count h) room
          (record { counted = refl; length_lem = refl; known = tt }))
        (λ o. subst (λ i. Wrote i o) (omega arith)) s

  int63n_panics : (d : ℤ) (s : S) → d ≤ℤ pos 0 → int63n rnd outside encodes d s ≡ none
  unfolding int63n intn
  int63n_panics (pos zero) s h = refl
  int63n_panics (pos (suc n)) s h = absurd (omega arith)
  int63n_panics (negsuc n) s h = refl

  per_short : (n : ℕ) (d : ℤ) → d <ℤ pos (suc n) → per d (suc n) ≤ℤ pos 0
  unfolding ◌-ℤ◌
  per_short n (pos d) h =
      let zero_quotient : d / suc n ≡ 0 = div-eq_of_lt (omega arith) in omega arith
  per_short n (negsuc d) h = ground arith

  -- A phase with at least one log that lasts no longer, in nanoseconds, than it has logs makes the
  -- program panic at its first log, whatever is drawn.
  short_phase_panics :
      (span : Duration) (p : Phase S) (n : ℕ) (out : Output) (s : S)
      → (time_at rnd outside encodes span p.end_pct -ℤ time_at rnd outside encodes span p.start_pct)
        ≤ℤ pos (suc n)
      → write_phase rnd outside encodes span p (pos (suc n)) out s ≡ none
  unfolding write_phase write_logs write_log
  short_phase_panics span p n out s h =
      bind_none (write_log rnd outside encodes p _ _ (suc n) 0 out) _ s (
        bind_none (int63n rnd outside encodes _) _ s
          (int63n_panics _ s (per_short (suc n) _ (omega (arith, h)))))
