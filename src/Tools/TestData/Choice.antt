-- ===== src/Tools/TestData/Choice.antt =====
-- The choice of pickGenerator of cmd/generate-testdata/main.go.
use log_analytics_and_anomal.Prelude.{
  ℕ, ◌+◌, ◌≤◌, ◌<◌, ◌≡◌, refl, List, [], ◌∷◌, ◌++◌, some, arith, ltb, Bool-cases, ◌∙◌, sym, subst,
  inl, inr,
}
use log_analytics_and_anomal.Domain.{Time}
use log_analytics_and_anomal.Tools.Random.{Rand, Gen, intn, intn_lem, bind_some, Holds, Always, All}
use log_analytics_and_anomal.Tools.Message.{LogMsg}
use log_analytics_and_anomal.Tools.TestData.Phases.{
  WeightedGen, total_weight, first_above, pick_generator,
}

module _ {S : Type 0} (rnd : Rand S) where
  first_above-range :
      (before : List (WeightedGen S)) (g : WeightedGen S) (after : List (WeightedGen S)) (r cum : ℕ)
      → cum + total_weight rnd before ≤ r
      → r < cum + total_weight rnd before + g.weight
      → first_above rnd r cum (before ++ g ∷ after) ≡ some g.gen
  unfolding total_weight first_above
  first_above-range [] g [] r cum low high = refl
  first_above-range [] g (h ∷ after) r cum low high = ground arith
  first_above-range (b ∷ []) g after r cum low high =
      let ih = first_above-range [] g after r (cum + b.weight) (omega arith) (omega arith) in
      ground (arith, ih)
  first_above-range (b ∷ c ∷ before) g after r cum low high =
      let ih =
        first_above-range (c ∷ before) g after r (cum + b.weight) (omega arith) (omega arith) in
      ground (arith, ih)

  -- pick_generator draws one number below the sum of the weights, and returns a generator exactly
  -- for those that follow the weights before it and lie below these and its own.
  pub pick_generator_exact :
      (before : List (WeightedGen S)) (g : WeightedGen S) (after : List (WeightedGen S)) (s : S)
      → let total = total_weight rnd (before ++ g ∷ after) in
        let (r, next) = rnd.draw total s in
        0 < total
        → total_weight rnd before ≤ r
        → r < total_weight rnd before + g.weight
        → pick_generator rnd (before ++ g ∷ after) s ≡ some (g.gen, next)
  unfolding pick_generator
  pick_generator_exact before g after s h low high =
      let total = total_weight rnd (before ++ g ∷ after) in
      let r = (rnd.draw total s).0 in
      bind_some (intn rnd total) _ s (intn_lem rnd total s h)
      ∙ rw (first_above-range before g after r 0 (omega (arith, low)) (omega (arith, high))) refl

  first_above-Always :
      (P : (Time → Gen S LogMsg) → Type 0) (g : WeightedGen S) (gens : List (WeightedGen S))
      (r cum : ℕ)
      → All (λ w. P w.gen) (g ∷ gens)
      → (f : Time → Gen S LogMsg) × (first_above rnd r cum (g ∷ gens) ≡ some f) × P f
  unfolding first_above
  first_above-Always P g [] r cum (p, ps) = (g.gen, refl, p)
  first_above-Always P g (h ∷ gens) r cum (p, ps) =
      let (f, eq, q) = first_above-Always P h gens r (cum + g.weight) ps in
      elim (Bool-cases (ltb r (cum + g.weight))) [
        | inl e ↦ (g.gen, rw e refl, p)
        | inr e ↦ (f, rw (e, eq) refl, q)
      ]

  -- The generator that is picked has what all of the list have.
  pub pick_generator-Always :
      (P : (Time → Gen S LogMsg) → Type 0) (gens : List (WeightedGen S))
      → 0 < total_weight rnd gens
      → All (λ w. P w.gen) gens
      → Always (pick_generator rnd gens) P
  unfolding pick_generator total_weight
  pick_generator-Always P [] h a s = absurd (omega (arith, h))
  pick_generator-Always P (g ∷ gens) h a s =
      let total = total_weight rnd (g ∷ gens) in
      let (f, eq, q) = first_above-Always P g gens (rnd.draw total s).0 0 a in
      subst (Holds P) (sym (bind_some (intn rnd total) _ s (intn_lem rnd total s h))) (rw eq q)
