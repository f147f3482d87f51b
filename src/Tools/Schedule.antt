-- ===== src/Tools/Schedule.antt =====
-- The phases of cmd/loadtest/main.go and cmd/e2etest/main.go, which look for the active one and size
-- a batch in the same words.
use log_analytics_and_anomal.Prelude.{
  ◌<◌, ◌≡◌, refl, ◌∙◌, sym, subst, ap, inl, inr, Bool-cases, length, Bool, ◌&&◌, List, [], ◌∷◌,
  ◌++◌, Option, none, some, ℤ, pos, leb_ℤ, ltb_ℤ, ◌≤ℤ◌, ◌<ℤ◌, if◌then◌else◌, arith,
}
use log_analytics_and_anomal.Tools.Random.{All}
use log_analytics_and_anomal.Domain.{Duration, Float64}
use log_analytics_and_anomal.Runtime.{float_of_int}
use log_analytics_and_anomal.Runtime.Floats.{float_mul, float_div, int_of_float}

-- tickInterval.Seconds(), for the 100 ms of both tools
abbrev tick_seconds : Float64
tick_seconds = float_div (float_of_int (pos 100000000)) (float_of_int (pos 1000000000))

-- What one of the four workers sends at a tick.
unfoldable pub batch_size : (Float64 → ℤ) → ℤ → Float64 → ℤ
batch_size outside rate multiplier =
    let effective_rate = float_mul (float_of_int rate) multiplier in
    let batch =
      int_of_float outside
        (float_div (float_mul effective_rate tick_seconds) (float_of_int (pos 4))) in
    if ltb_ℤ batch (pos 1) then pos 1 else batch

module _ {P : Type 0} (start finish : P → Duration) where
  abbrev pub is_within : P → Duration → Bool
  is_within p elapsed = leb_ℤ (start p) elapsed && ltb_ℤ elapsed (finish p)

  -- phases[len(phases)-1]; none is a panic.
  abbrev pub last_of : List P → Option P
  last_of [] = none
  last_of (p ∷ []) = some p
  last_of (p ∷ q ∷ ps) = last_of (q ∷ ps)

  -- The loop, and what is returned behind it.
  unfoldable pub first_within : List P → Duration → Option P → Option P
  first_within [] elapsed fallback = fallback
  first_within (p ∷ ps) elapsed fallback =
      let rest = first_within ps elapsed fallback in if is_within p elapsed then some p else rest

  unfoldable pub active : List P → Duration → Option P
  unfolding first_within
  active phases elapsed = first_within phases elapsed (last_of phases)

  -- The phases follow one another from `t` to `u` without a gap.
  abbrev pub Tiles : Duration → List P → Duration → Type 0
  Tiles t [] u = t ≡ u
  Tiles t (p ∷ ps) u = (start p ≡ t) × (t ≤ℤ finish p) × Tiles (finish p) ps u

  Tiles-before :
      (t : Duration) (before : List P) (p : P) (after : List P) (u : Duration)
      → Tiles t (before ++ p ∷ after) u
      → t ≤ℤ start p
  Tiles-before t [] p after u (e, le, h) = subst (λ v. t ≤ℤ v) (sym e) (omega arith)
  Tiles-before t (b ∷ before) p after u (e, le, h) =
      omega (arith, le, Tiles-before (finish b) before p after u h)

  -- Where the phases follow one another without a gap, the phase whose interval has the elapsed time
  -- is the active one.
  first_within-tiled :
      (t : Duration) (before : List P) (p : P) (after : List P) (u elapsed : Duration)
      (fallback : Option P)
      → Tiles t (before ++ p ∷ after) u
      → start p ≤ℤ elapsed
      → elapsed <ℤ finish p
      → first_within (before ++ p ∷ after) elapsed fallback ≡ some p
  unfolding first_within
  first_within-tiled t [] p after u elapsed fallback h low high = ground arith
  first_within-tiled t (b ∷ before) p after u elapsed fallback (e, le, h) low high =
      let rest = first_within-tiled (finish b) before p after u elapsed fallback h low high in
      let passed = Tiles-before (finish b) before p after u h in ground (arith, rest, passed, low)

  pub active_exact :
      (t : Duration) (before : List P) (p : P) (after : List P) (u elapsed : Duration)
      → Tiles t (before ++ p ∷ after) u
      → start p ≤ℤ elapsed
      → elapsed <ℤ finish p
      → active (before ++ p ∷ after) elapsed ≡ some p
  unfolding active
  active_exact t before p after u elapsed h low high =
      first_within-tiled t before p after u elapsed _ h low high

  first_within-All :
      (Q : P → Type 0) (ps : List P) (elapsed : Duration) (f : P)
      → All Q ps
      → Q f
      → (p : P) × (first_within ps elapsed (some f) ≡ some p) × Q p
  unfolding first_within
  first_within-All Q [] elapsed f a h = (f, refl, h)
  first_within-All Q (p ∷ ps) elapsed f (b, a) h =
      let (q, eq, k) = first_within-All Q ps elapsed f a h in
      elim (Bool-cases (is_within p elapsed)) [
        | inl e ↦ (p, rw e refl, b)
        | inr e ↦ (q, rw (e, eq) refl, k)
      ]

  last_of-All :
      (Q : P → Type 0) (p : P) (ps : List P)
      → All Q (p ∷ ps)
      → (q : P) × (last_of (p ∷ ps) ≡ some q) × Q q
  last_of-All Q p [] a = (p, refl, a.0)
  last_of-All Q p (q ∷ ps) a = last_of-All Q q ps a.1

  -- There is always an active phase among phases of which there is one.
  pub active-All :
      (Q : P → Type 0) (ps : List P) (elapsed : Duration)
      → 0 < length ps
      → All Q ps
      → (q : P) × (active ps elapsed ≡ some q) × Q q
  unfolding active
  active-All Q [] elapsed h a = absurd (omega arith)
  active-All Q (p ∷ ps) elapsed h a =
      let (f, last, b) = last_of-All Q p ps a in
      let (q, eq, k) = first_within-All Q (p ∷ ps) elapsed f a b in
      (q, ap (first_within (p ∷ ps) elapsed) last ∙ eq, k)
