-- ===== src/Tools/TestData/Phases.antt =====
-- buildPhases and pickGenerator of cmd/generate-testdata/main.go.
use log_analytics_and_anomal.Prelude.{
  ℕ, ◌+◌, List, [], ◌∷◌, Option, none, some, Text, text, pos, ltb, if◌then◌else◌,
}
use log_analytics_and_anomal.Domain.{Time, Float64}
use log_analytics_and_anomal.Runtime.{float_of_int}
use log_analytics_and_anomal.Runtime.Floats.{float_div}
use log_analytics_and_anomal.Tools.Random.{Rand, Gen, ◌>>=◌, intn}
use log_analytics_and_anomal.Tools.Message.{LogMsg}
use log_analytics_and_anomal.Tools.TestData.{
  normal_log, warn_log, error_spike_log, auth_fail_log, high_latency_log, repeated_fail_log,
  off_hours_log,
}

-- A constant of two decimals: the nearest float.
unfoldable pub hundredths : ℕ → Float64
hundredths n = float_div (float_of_int (pos n)) (float_of_int (pos 100))

module _ (S : Type 0) where
  -- The weights are an int in the source, but constants, and none of them is negative.
  pub record WeightedGen : Type 0 where
    pub weight : ℕ
    pub gen : Time → Gen S LogMsg

  pub record Phase : Type 0 where
    pub name : Text
    pub start_pct : Float64
    pub end_pct : Float64
    pub weight_pct : Float64
    pub generators : List WeightedGen

module _ {S : Type 0} (rnd : Rand S) where
  -- The sum of the weights.
  unfoldable pub total_weight : List (WeightedGen S) → ℕ
  total_weight [] = 0
  total_weight (g ∷ gens) = g.weight + total_weight gens

  -- The loop that returns the first generator whose cumulated weight is above `r`; it ends in an
  -- index out of range where there is none at all, and else in the last one.
  unfoldable pub first_above : ℕ → ℕ → List (WeightedGen S) → Option (Time → Gen S LogMsg)
  first_above r cum [] = none
  first_above r cum (g ∷ []) = some g.gen
  first_above r cum (g ∷ h ∷ gens) =
      let rest = first_above r (cum + g.weight) (h ∷ gens) in
      if ltb r (cum + g.weight) then some g.gen else rest

  abbrev or_panic : {A : Type 0} → Option A → Gen S A
  or_panic none s = none
  or_panic (some a) s = some (a, s)

  unfoldable pub pick_generator : List (WeightedGen S) → Gen S (Time → Gen S LogMsg)
  unfolding total_weight first_above
  pick_generator gens = do r ← intn rnd (total_weight gens); or_panic (first_above r 0 gens)

module _ {S : Type 0} (rnd : Rand S) (format : Time → Text) where
  abbrev pub weighted : ℕ → (Time → Gen S LogMsg) → WeightedGen S
  weighted weight gen = record { weight = weight; gen = gen }

  unfoldable pub build_phases : List (Phase S)
  build_phases =
      record {
        name = text "warm-up";
        start_pct = hundredths 0;
        end_pct = hundredths 15;
        weight_pct = hundredths 15;
        generators = weighted 90 (normal_log rnd format) ∷ weighted 10 (warn_log rnd format) ∷ [];
      }
      ∷ record {
        name = text "error-spike";
        start_pct = hundredths 15;
        end_pct = hundredths 30;
        weight_pct = hundredths 18;
        generators =
            weighted 40 (normal_log rnd format)
            ∷ weighted 55 (error_spike_log rnd format)
            ∷ weighted 5 (warn_log rnd format)
            ∷ [];
      }
      ∷ record {
        name = text "auth-burst";
        start_pct = hundredths 30;
        end_pct = hundredths 45;
        weight_pct = hundredths 15;
        generators =
            weighted 30 (normal_log rnd format)
            ∷ weighted 65 (auth_fail_log rnd format)
            ∷ weighted 5 (warn_log rnd format)
            ∷ [];
      }
      ∷ record {
        name = text "high-latency";
        start_pct = hundredths 45;
        end_pct = hundredths 60;
        weight_pct = hundredths 15;
        generators =
            weighted 30 (normal_log rnd format)
            ∷ weighted 60 (high_latency_log rnd format)
            ∷ weighted 10 (warn_log rnd format)
            ∷ [];
      }
      ∷ record {
        name = text "repeated-fail";
        start_pct = hundredths 60;
        end_pct = hundredths 75;
        weight_pct = hundredths 15;
        generators =
            weighted 35 (normal_log rnd format)
            ∷ weighted 55 (repeated_fail_log rnd format)
            ∷ weighted 10 (warn_log rnd format)
            ∷ [];
      }
      ∷ record {
        name = text "off-hours-access";
        start_pct = hundredths 75;
        end_pct = hundredths 82;
        weight_pct = hundredths 7;
        generators =
            weighted 60 (normal_log rnd format)
            ∷ weighted 30 (off_hours_log rnd format)
            ∷ weighted 10 (warn_log rnd format)
            ∷ [];
      }
      ∷ record {
        name = text "wind-down";
        start_pct = hundredths 82;
        end_pct = hundredths 100;
        weight_pct = hundredths 15;
        generators = weighted 90 (normal_log rnd format) ∷ weighted 10 (warn_log rnd format) ∷ [];
      }
      ∷ []
