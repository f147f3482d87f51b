-- ===== src/Tools/TestData/Run.antt =====
-- main of cmd/generate-testdata/main.go: the share of each phase, its times, and the loop that writes
-- the logs. Whether the file is created and whether a log is written are parameters.
use log_analytics_and_anomal.Prelude.{
  ℕ, zero, suc, ◌/◌, Bool, true, false, List, [], ◌∷◌, ◌++◌, Option, none, some, Text, text_key, ℤ,
  pos, negsuc, ◌+ℤ◌, ◌-ℤ◌, if◌then◌else◌,
}
use log_analytics_and_anomal.Assoc.{lookup, insert}
use log_analytics_and_anomal.Domain.{Time, Duration, Float64}
use log_analytics_and_anomal.Runtime.{float_of_int}
use log_analytics_and_anomal.Runtime.Floats.{float_mul, float_div, int_of_float}
use log_analytics_and_anomal.Tools.Random.{Rand, Gen, ◌>>=◌, return, intn}
use log_analytics_and_anomal.Tools.Message.{LogMsg}
use log_analytics_and_anomal.Tools.TestData.Phases.{Phase, pick_generator, build_phases}

-- The lines of the file, `stats` and `generated`.
pub record Output : Type 0 where
  pub written : List LogMsg
  pub stats : List (Text × ℕ)
  pub generated : ℕ

abbrev pub or_zero : Option ℕ → ℕ
or_zero none = 0
or_zero (some n) = n

abbrev pub record_log : LogMsg → Output → Output
record_log msg out = record {
  written = out.written ++ msg ∷ [];
  stats = insert msg.level (suc (or_zero (lookup msg.level out.stats))) out.stats;
  generated = suc out.generated;
}

-- time.Date(2026, 1, 15, 2, 0, 0, 0, time.UTC)
abbrev pub base_time : Time
base_time = pos 63904039200000000000

-- d / time.Duration(k), for a k that is positive: towards zero.
abbrev pub per : Duration → ℕ → Duration
per (pos d) k = pos (d / k)
per (negsuc d) k = pos 0 -ℤ pos (suc d / k)

module _ {S : Type 0} (rnd : Rand S) (outside : Float64 → ℤ) (encodes : LogMsg → Bool) where
  -- int(float64(count) * p.weightPct)
  unfoldable pub share_of : ℤ → Float64 → ℤ
  share_of count pct = int_of_float outside (float_mul (float_of_int count) pct)

  -- phaseCounts: the last phase gets what remains.
  unfoldable pub phase_counts : ℤ → ℤ → List (Phase S) → List (Phase S × ℤ)
  phase_counts count remaining [] = []
  phase_counts count remaining (p ∷ []) = (p, remaining) ∷ []
  phase_counts count remaining (p ∷ q ∷ phases) =
      let n = share_of count p.weight_pct in
      (p, n) ∷ phase_counts count (remaining -ℤ n) (q ∷ phases)

  -- baseTime.Add(time.Duration(float64(span) * pct))
  unfoldable pub time_at : Duration → Float64 → Time
  time_at span pct = base_time +ℤ int_of_float outside (float_mul (float_of_int span) pct)

  -- rng.Int63n, which panics where its argument is not positive.
  unfoldable pub int63n : ℤ → Gen S ℕ
  int63n (pos n) s = intn rnd n s
  int63n (negsuc n) s = none

  -- Encode: where it fails, the program exits.
  unfoldable pub encode : LogMsg → Output → Gen S Output
  encode msg out s = if encodes msg then some (record_log msg out, s) else none

  -- One round of the loop over `j`, in a phase of `n` logs.
  unfoldable pub write_log : Phase S → Time → Duration → ℕ → ℕ → Output → Gen S Output
  unfolding int63n encode
  write_log p phase_start phase_dur n j out =
      let progress = float_div (float_of_int (pos j)) (float_of_int (pos n)) in
      let ts = phase_start +ℤ int_of_float outside (float_mul (float_of_int phase_dur) progress) in
      do
        jitter ← int63n (per phase_dur (suc n))
        gen ← pick_generator rnd p.generators
        msg ← gen (ts +ℤ pos jitter)
        encode msg out

  -- The loop, with `left` rounds to go.
  unfoldable pub write_logs : Phase S → Time → Duration → ℕ → ℕ → ℕ → Output → Gen S Output
  unfolding write_log
  write_logs p phase_start phase_dur n zero j out = return out
  write_logs p phase_start phase_dur n (suc left) j out = do
    next ← write_log p phase_start phase_dur n j out
    write_logs p phase_start phase_dur n left (suc j) next

  -- One phase: no log at all where its number is not positive.
  unfoldable pub write_phase : Duration → Phase S → ℤ → Output → Gen S Output
  unfolding write_logs time_at
  write_phase span p (pos n) out =
      let phase_start = time_at span p.start_pct in
      write_logs p phase_start (time_at span p.end_pct -ℤ phase_start) n n 0 out
  write_phase span p (negsuc n) out = return out

  unfoldable pub write_phases : Duration → List (Phase S × ℤ) → Output → Gen S Output
  unfolding write_phase
  write_phases span [] out = return out
  write_phases span ((p, n) ∷ rest) out = do
    next ← write_phase span p n out
    write_phases span rest next

abbrev pub no_output : Output
no_output = record { written = []; stats = []; generated = 0 }

-- The run with a file that could be created or not: if not, the program exits.
unfoldable pub generate :
    {S : Type 0} (rnd : Rand S)
    → (Time → Text)
    → (Float64 → ℤ)
    → (LogMsg → Bool)
    → Bool
    → ℤ
    → Duration
    → Gen S Output
unfolding write_phases phase_counts
generate rnd format outside encodes false count span s = none
generate rnd format outside encodes true count span s =
    write_phases rnd outside encodes span
      (phase_counts rnd outside encodes count count (build_phases rnd format)) no_output s
