-- ===== src/Tools/Random.antt =====
-- math/rand as the three tools use it, and code that draws from it. The generator is not under src/:
-- it is a parameter, with the range that its documentation gives to Intn.
use log_analytics_and_anomal.Prelude.{
  ℕ, zero, suc, ◌<◌, ◌≡◌, refl, ap, Bool, true, false, List, [], ◌∷◌, Option, none, some, length,
  arith, if◌then◌else◌,
}

pub record Rand (S : Type 0) : Type 0 where
  -- Intn(n), or Int63n(n), for a positive n
  pub draw : ℕ → S → ℕ × S
  pub draw_lt : (n : ℕ) (s : S) → 0 < n → (draw n s).0 < n

-- Code that draws; none is a panic.
abbrev pub Gen : Type 0 → Type 0 → Type 0
Gen S A = S → Option (A × S)

infixl 5 ◌>>=◌
abbrev pub ◌>>=◌ : {S A B : Type 0} → Gen S A → (A → Gen S B) → Gen S B
◌>>=◌ m f s = elim (m s) [ none ↦ none | some (a, s') ↦ f a s' ]

abbrev pub return : {S A : Type 0} → A → Gen S A
return a s = some (a, s)

module _ {S : Type 0} (rnd : Rand S) where
  -- rng.Intn(n) panics where n is not positive.
  unfoldable pub intn : ℕ → Gen S ℕ
  intn zero s = none
  intn (suc n) s = some (rnd.draw (suc n) s)

  -- s[i] panics out of range.
  unfoldable pub index : {A : Type 0} → List A → ℕ → Gen S A
  index [] i s = none
  index (x ∷ xs) zero s = some (x, s)
  index (x ∷ xs) (suc i) s = index xs i s

  -- pick and randItem: s[rng.Intn(len(s))]
  unfoldable pub pick : {A : Type 0} → List A → Gen S A
  unfolding intn index
  pick xs = do i ← intn (length xs); index xs i

abbrev pub All : {A : Type 0} → (A → Type 0) → List A → Type 0
All P [] = Unit {0}
All P (x ∷ xs) = P x × All P xs

All-unit : {A : Type 0} (xs : List A) → All (λ a. Unit {0}) xs
All-unit [] = tt
All-unit (x ∷ xs) = (tt, All-unit xs)

-- What holds of the result, where a panic is none.
abbrev pub Holds : {S A : Type 0} → (A → Type 0) → Option (A × S) → Type 0
Holds P none = ⊥
Holds P (some (a, s)) = P a

-- The code behind a draw that is known.
pub bind_some :
    {S A B : Type 0} (m : Gen S A) (f : A → Gen S B) (s : S) {a : A} {s' : S}
    → m s ≡ some (a, s')
    → (m >>= f) s ≡ f a s'
bind_some m f s h = ap (λ r. elim r [ none ↦ none | some (a, s') ↦ f a s' ]) h

pub bind_none :
    {S A B : Type 0} (m : Gen S A) (f : A → Gen S B) (s : S) → m s ≡ none → (m >>= f) s ≡ none
bind_none m f s h = ap (λ r. elim r [ none ↦ none | some (a, s') ↦ f a s' ]) h

-- Whatever the source draws, the code does not panic and its result has the property.
abbrev pub Always : {S A : Type 0} → Gen S A → (A → Type 0) → Type 0
Always m P = (s : _) → Holds P (m s)

Option-bind-Holds :
    {S A B : Type 0} (P : A → Type 0) (Q : B → Type 0) (r : Option (A × S)) (f : A → Gen S B)
    → Holds P r
    → ((a : A) → P a → Always (f a) Q)
    → Holds Q (elim r [ none ↦ none | some (a, s') ↦ f a s' ])
Option-bind-Holds P Q none f h k = h
Option-bind-Holds P Q (some (a, s)) f h k = k a h s

pub bind-Always :
    {S A B : Type 0} (P : A → Type 0) (Q : B → Type 0) (m : Gen S A) (f : A → Gen S B)
    → Always m P
    → ((a : A) → P a → Always (f a) Q)
    → Always (m >>= f) Q
bind-Always P Q m f h k s = Option-bind-Holds P Q (m s) f (h s) k

pub choose-Always :
    {S A : Type 0} (P : A → Type 0) (b : Bool) (m n : Gen S A)
    → Always m P
    → Always n P
    → Always (if b then m else n) P
choose-Always P true m n h k = h
choose-Always P false m n h k = k

module _ {S : Type 0} (rnd : Rand S) where
  pub intn_lem : (n : ℕ) (s : S) → 0 < n → intn rnd n s ≡ some (rnd.draw n s)
  unfolding intn
  intn_lem zero s h = absurd (omega arith)
  intn_lem (suc n) s h = refl

  pub intn-Always : (n : ℕ) → 0 < n → Always (intn rnd n) (λ i. i < n)
  unfolding intn
  intn-Always zero h s = omega arith
  intn-Always (suc n) h s = rnd.draw_lt (suc n) s h

  index-Always :
      {A : Type 0} (P : A → Type 0) (xs : List A) (i : ℕ)
      → All P xs
      → i < length xs
      → Always (index rnd xs i) P
  unfolding index
  index-Always P [] i a h s = omega arith
  index-Always P (x ∷ xs) zero a h s = a.0
  index-Always P (x ∷ xs) (suc i) a h s = index-Always P xs i a.1 (omega arith) s

  -- An element that is picked from a list that is not empty has what all elements have.
  pick-Always :
      {A : Type 0} (P : A → Type 0) (xs : List A)
      → 0 < length xs
      → All P xs
      → Always (pick rnd xs) P
  unfolding pick
  pick-Always P xs h a =
      bind-Always (λ i. i < length xs) P (intn rnd (length xs)) (index rnd xs)
        (intn-Always (length xs) h) (λ i lt. index-Always P xs i a lt)

  pick_any : {A : Type 0} (xs : List A) → 0 < length xs → Always (pick rnd xs) (λ a. Unit {0})
  pick_any xs h = pick-Always (λ a. Unit {0}) xs h (All-unit xs)

module _ {S : Type 0} (rnd : Rand S) where
  -- What follows a draw, or a pick.
  pub intn_then :
      {B : Type 0} (Q : B → Type 0) (n : ℕ) (f : ℕ → Gen S B)
      → 0 < n
      → ((i : ℕ) → i < n → Always (f i) Q)
      → Always (intn rnd n >>= f) Q
  intn_then Q n f h k = bind-Always (λ i. i < n) Q (intn rnd n) f (intn-Always rnd n h) k

  pub pick_then :
      {A B : Type 0} (Q : B → Type 0) (xs : List A) (f : A → Gen S B)
      → 0 < length xs
      → ((a : A) → Always (f a) Q)
      → Always (pick rnd xs >>= f) Q
  pick_then Q xs f h k =
      bind-Always (λ a. Unit {0}) Q (pick rnd xs) f (pick_any rnd xs h) (λ a u. k a)

  pub pick_where :
      {A B : Type 0} (P : A → Type 0) (Q : B → Type 0) (xs : List A) (f : A → Gen S B)
      → 0 < length xs
      → All P xs
      → ((a : A) → P a → Always (f a) Q)
      → Always (pick rnd xs >>= f) Q
  pick_where P Q xs f h a k = bind-Always P Q (pick rnd xs) f (pick-Always rnd P xs h a) k

Holds-weaken :
    {S A : Type 0} (P Q : A → Type 0) (r : Option (A × S))
    → Holds P r
    → ((a : A) → P a → Q a)
    → Holds Q r
Holds-weaken P Q none h k = h
Holds-weaken P Q (some (a, s)) h k = k a h

pub Always-weaken :
    {S A : Type 0} (P Q : A → Type 0) (m : Gen S A)
    → Always m P
    → ((a : A) → P a → Q a)
    → Always m Q
Always-weaken P Q m h k s = Holds-weaken P Q (m s) (h s) k
