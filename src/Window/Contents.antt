-- ===== src/Window/Contents.antt =====
-- The entries that a buffer holds, oldest first, and what `Add` does to them.
use native.Mathlib.Nat.{add-zero}
use native.Mathlib.Decide.{dec_lt}
use log_analytics_and_anomal.Prelude.{
  ℕ, zero, suc, ◌+◌, ◌-◌, ◌%◌, ◌<◌, ◌≡◌, refl, sym, ap, ap₂, ◌∙◌, List, [], ◌∷◌, ◌++◌, set, get_or,
  length, drop, last_n, length-set, length-append, get_or-set_self, get_or-set_ne, drop-append,
  arith,
}
use log_analytics_and_anomal.Window.{Window, new_window, add}
use log_analytics_and_anomal.Window.Index.{mod-ne}
use log_analytics_and_anomal.Window.Valid.{IsValid}

module _ {ℓ} {A : Type ℓ} (blank : A) where
  -- The `n` entries from position `p` on.
  abbrev pub entries : List A → ℕ → ℕ → ℕ → List A
  entries slots capacity p zero = []
  entries slots capacity p (suc n) =
      get_or slots (p % capacity) blank ∷ entries slots capacity (p + 1) n

  abbrev pub contents : Window A → List A
  contents w = entries w.slots (length w.slots) (w.head - w.count) w.count

  length-entries : (slots : List A) (capacity p n : ℕ) → length (entries slots capacity p n) ≡ n
  length-entries slots capacity p zero = refl
  length-entries slots capacity p (suc n) = ap suc (length-entries slots capacity (p + 1) n)

  -- A write outside a stretch of positions leaves its entries.
  entries-set_ne :
      (slots : List A) (capacity p n q : ℕ) (a : A)
      → q ≡ p + n
      → n < capacity
      → entries (set slots (q % capacity) a) capacity p n ≡ entries slots capacity p n
  entries-set_ne slots capacity p zero q a e h = refl
  entries-set_ne slots capacity p (suc n) q a e h =
      ap₂ ◌∷◌
        (get_or-set_ne slots (q % capacity) (p % capacity) a blank
          (λ same. mod-ne capacity p q (omega arith) (omega arith) (sym same)))
        (entries-set_ne slots capacity (p + 1) n q a (omega arith) (omega arith))

  pub entries-snoc :
      (slots : List A) (capacity p n : ℕ)
      → entries slots capacity p (suc n)
        ≡ entries slots capacity p n ++ get_or slots ((p + n) % capacity) blank ∷ []
  entries-snoc slots capacity p zero =
      ap (λ q. get_or slots (q % capacity) blank ∷ []) (sym (add-zero p))
  entries-snoc slots capacity p (suc n) = ap (◌∷◌ (get_or slots (p % capacity) blank)) (
      entries-snoc slots capacity (p + 1) n
      ∙ ap (λ q. entries slots capacity (p + 1) n ++ get_or slots (q % capacity) blank ∷ [])
          (omega arith))

  entries-write :
      (slots : List A) (capacity p n q : ℕ) (a : A)
      → q ≡ p + n
      → n < capacity
      → length slots ≡ capacity
      → entries (set slots (q % capacity) a) capacity p (suc n)
        ≡ entries slots capacity p n ++ a ∷ []
  entries-write slots capacity p n q a e h size =
      entries-snoc (set slots (q % capacity) a) capacity p n
      ∙ ap₂ (λ xs x. xs ++ x ∷ []) (entries-set_ne slots capacity p n q a e h)
          (ap (λ k. get_or (set slots (q % capacity) a) (k % capacity) blank) (sym e)
            ∙ get_or-set_self slots (q % capacity) a blank (omega arith))

  entries-cong :
      (slots : List A) (c d p q m n : ℕ)
      → c ≡ d
      → p ≡ q
      → m ≡ n
      → entries slots c p m ≡ entries slots d q n
  entries-cong slots c d p q m n e f g = cc

  -- While there is room, `Add` appends the entry.
  pub contents-add_room :
      {capacity : ℕ} (w : Window A) (a : A)
      → IsValid capacity w
      → w.count < capacity
      → contents (add w a) ≡ contents w ++ a ∷ []
  unfolding add
  contents-add_room w a v h =
      entries-cong _ _ (length w.slots) _ (w.head - w.count) _ (suc w.count)
        (length-set w.slots (w.head % length w.slots) a) (ground arith) (ground arith)
      ∙ entries-write w.slots (length w.slots) (w.head - w.count) w.count w.head a (omega arith)
          (omega arith) refl

  -- A full buffer loses its oldest entry to the new one.
  contents-add_full :
      {capacity : ℕ} (w : Window A) (a : A)
      → IsValid capacity w
      → w.count ≡ capacity
      → contents (add w a) ≡ drop 1 (contents w) ++ a ∷ []
  unfolding add
  contents-add_full w a v h =
      entries-cong _ _ (length w.slots) _ (w.head - w.count + 1) _ (suc (w.count - 1))
        (length-set w.slots (w.head % length w.slots) a) (ground arith) (ground arith)
      ∙ entries-write w.slots (length w.slots) (w.head - w.count + 1) (w.count - 1) w.head a
          (omega arith) (omega arith) refl
      ∙ ap (λ xs. xs ++ a ∷ [])
          (ap (drop 1) (
            entries-cong w.slots (length w.slots) (length w.slots) (w.head - w.count)
              (w.head - w.count) (suc (w.count - 1)) w.count refl refl (omega arith)))

  pub length-contents : (w : Window A) → length (contents w) ≡ w.count
  length-contents w = length-entries w.slots (length w.slots) (w.head - w.count) w.count

  -- `Add` on a well-formed buffer keeps the newest `capacity` of the entries and the new one.
  pub contents-add :
      {capacity : ℕ} (w : Window A) (a : A)
      → IsValid capacity w
      → contents (add w a) ≡ last_n capacity (contents w ++ a ∷ [])
  contents-add {capacity} w a v = elim (dec_lt w.count capacity) [
    | yes h ↦
        contents-add_room w a v h
        ∙ ap (λ k. drop k (contents w ++ a ∷ []))
            (let e : 0 ≡ length (contents w ++ a ∷ []) - capacity =
                omega (arith, length-append (contents w) (a ∷ []), length-contents w) in
              e)
    | no h ↦
        contents-add_full w a v (omega (arith, v.within))
        ∙ sym (drop-append 1 (contents w) (a ∷ []) (omega (arith, length-contents w, v.room)))
        ∙ ap (λ k. drop k (contents w ++ a ∷ []))
            (let e : 1 ≡ length (contents w ++ a ∷ []) - capacity =
                omega (arith, length-append (contents w) (a ∷ []), length-contents w, v.within) in
              e)
  ]

  pub contents-new_window : (capacity : ℕ) → contents (new_window blank capacity) ≡ []
  unfolding new_window
  contents-new_window capacity = refl
