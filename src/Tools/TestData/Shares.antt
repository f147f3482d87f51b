-- ===== src/Tools/TestData/Shares.antt =====
-- The numbers of logs that cmd/generate-testdata/main.go gives to its phases.
use log_analytics_and_anomal.Prelude.{
  ℕ, ◌+◌, ◌-◌, ◌*◌, ◌^◌, ◌≤◌, ◌<◌, ◌≡◌, refl, sym, ap, subst, ◌∙◌, Bool, Text, List, [], ◌∷◌, ℤ,
  pos, negsuc, ◌+ℤ◌, ◌-ℤ◌, arith,
}
use log_analytics_and_anomal.Domain.{Time, Float64, finite}
use log_analytics_and_anomal.Runtime.{shift_for, round_shift, float_of_int}
use log_analytics_and_anomal.Runtime.Floats.{float_mul, float_div, int_of_float, round_to}
use log_analytics_and_anomal.Runtime.Rounding.{fraction-le}
use log_analytics_and_anomal.Tools.Random.{Rand}
use log_analytics_and_anomal.Tools.Message.{LogMsg}
use log_analytics_and_anomal.Tools.TestData.Phases.{Phase, hundredths, build_phases}
use log_analytics_and_anomal.Tools.TestData.Run.{share_of, phase_counts}

fifteen : hundredths 15 ≡ finite (pos 5404319552844595) (negsuc 54)
unfolding hundredths float_div round_to float_of_int shift_for round_shift ◌+ℤ◌ ◌-ℤ◌
fifteen = refl

eighteen : hundredths 18 ≡ finite (pos 6485183463413514) (negsuc 54)
unfolding hundredths float_div round_to float_of_int shift_for round_shift ◌+ℤ◌ ◌-ℤ◌
eighteen = refl

seven : hundredths 7 ≡ finite (pos 5044031582654956) (negsuc 55)
unfolding hundredths float_div round_to float_of_int shift_for round_shift ◌+ℤ◌ ◌-ℤ◌
seven = refl

-- The numbers are natural, and their sum is the second.
abbrev pub Allots : {S : Type 0} → List (Phase S × ℤ) → ℕ → Type 0
Allots [] total = total ≡ 0
Allots ((p, n) ∷ rest) total = (k : ℕ) × (u : ℕ) × (n ≡ pos k) × (total ≡ k + u) × Allots rest u

sub_pos : (n v : ℕ) → v ≤ n → pos n -ℤ pos v ≡ pos (n - v)
unfolding ◌-ℤ◌
sub_pos n v h = ground arith

module _ {S : Type 0} (rnd : Rand S) (outside : Float64 → ℤ) (encodes : LogMsg → Bool) where
  -- At most `limit` hundredths of the whole.
  abbrev IsShare : ℕ → Float64 → ℕ → Type 0
  IsShare count pct limit =
      (v : ℕ) × (share_of rnd outside encodes (pos count) pct ≡ pos v) × (v * 100 ≤ limit * count)

  fifteen-IsShare : (count : ℕ) → count < 2 ^ 62 → IsShare count (hundredths 15) 16
  unfolding share_of
  fifteen-IsShare count h =
      let (v, eq, le) = fraction-le outside count 5404319552844595 54 (omega arith) in
      (
        v,
        ap (λ f. int_of_float outside (float_mul (float_of_int (pos count)) f)) fifteen ∙ eq,
        omega (arith, le),
      )

  eighteen-IsShare : (count : ℕ) → count < 2 ^ 62 → IsShare count (hundredths 18) 20
  unfolding share_of
  eighteen-IsShare count h =
      let (v, eq, le) = fraction-le outside count 6485183463413514 54 (omega arith) in
      (
        v,
        ap (λ f. int_of_float outside (float_mul (float_of_int (pos count)) f)) eighteen ∙ eq,
        omega (arith, le),
      )

  seven-IsShare : (count : ℕ) → count < 2 ^ 62 → IsShare count (hundredths 7) 8
  unfolding share_of
  seven-IsShare count h =
      let (v, eq, le) = fraction-le outside count 5044031582654956 55 (omega arith) in
      (
        v,
        ap (λ f. int_of_float outside (float_mul (float_of_int (pos count)) f)) seven ∙ eq,
        omega (arith, le),
      )

  -- A phase that is not the last one takes its share, and the rest is for the others.
  phase_counts-Allots :
      (count remaining v : ℕ) (p q : Phase S) (phases : List (Phase S))
      → share_of rnd outside encodes (pos count) p.weight_pct ≡ pos v
      → v ≤ remaining
      → Allots
          (phase_counts rnd outside encodes (pos count) (pos (remaining - v)) (q ∷ phases))
          (remaining - v)
      → Allots
          (phase_counts rnd outside encodes (pos count) (pos remaining) (p ∷ q ∷ phases))
          remaining
  unfolding phase_counts
  phase_counts-Allots count remaining v p q phases eq le rest =
      let left : pos remaining -ℤ share_of rnd outside encodes (pos count) p.weight_pct
          ≡ pos (remaining - v) =
        ap (λ n. pos remaining -ℤ n) eq ∙ sub_pos remaining v le in
      (
        v,
        remaining - v,
        eq,
        omega arith,
        subst
            (λ n.
              Allots (phase_counts rnd outside encodes (pos count) n (q ∷ phases)) (remaining - v))
            (sym left) rest,
      )

  last-Allots :
      (count remaining : ℕ) (p : Phase S)
      → Allots (phase_counts rnd outside encodes (pos count) (pos remaining) (p ∷ [])) remaining
  unfolding phase_counts
  last-Allots count remaining p = (remaining, 0, refl, omega arith, refl)

  -- Each phase gets a number that is not negative, and together they get `count`.
  pub build_phases-Allots :
      (format : Time → Text) (count : ℕ)
      → count < 2 ^ 62
      → Allots
          (phase_counts rnd outside encodes (pos count) (pos count) (build_phases rnd format))
          count
  unfolding build_phases
  build_phases-Allots format count h =
      let (a, ea, la) = fifteen-IsShare count h in
      let (b, eb, lb) = eighteen-IsShare count h in
      let (c, ec, lc) = seven-IsShare count h in
      let step = phase_counts-Allots count in
      step count a _ _ _ ea (omega (arith, la)) (
        step (count - a) b _ _ _ eb (omega (arith, la, lb)) (
          step (count - a - b) a _ _ _ ea (omega (arith, la, lb)) (
            step (count - a - b - a) a _ _ _ ea (omega (arith, la, lb)) (
              step (count - a - b - a - a) a _ _ _ ea (omega (arith, la, lb)) (
                step (count - a - b - a - a - a) c _ _ _ ec (omega (arith, la, lb, lc))
                  (last-Allots count _ _))))))
