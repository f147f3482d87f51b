-- ===== src/Window/Evict.antt =====
-- `Evict` keeps exactly the live entries of a buffer whose oldest entry stands in slot 0, and can
-- lose entries of any other: it compacts in place while it still reads.
use native.Mathlib.Nat.{mod-eq_of_lt, mod-add-mod}
use log_analytics_and_anomal.Prelude.{
  ℕ, zero, suc, ◌+◌, ◌-◌, ◌%◌, ◌≤◌, ◌<◌, ◌≡◌, refl, sym, ap, ap₂, ◌∙◌, inl, inr, Bool, List, [],
  ◌∷◌, ◌++◌, set, get_or, length, take, drop, select, length-set, arith, if◌then◌else◌,
  append_assoc, append-nil, Bool-cases,
}
use log_analytics_and_anomal.Window.{Window, evict, evict_loop, oldest_index}
use log_analytics_and_anomal.Window.Index.{oldest_slot}
use log_analytics_and_anomal.Window.Valid.{IsValid}
use log_analytics_and_anomal.Window.Contents.{contents, entries}

module _ {ℓ} {A : Type ℓ} where
  -- The oldest entry stands in slot 0.
  abbrev pub IsAligned : Window A → Type 0
  IsAligned w = (w.head - w.count) % length w.slots ≡ 0

  take-set :
      (xs : List A) (k : ℕ) (a : A)
      → k < length xs
      → take (suc k) (set xs k a) ≡ take k xs ++ a ∷ []
  take-set [] k a h = elim h [ ]
  take-set (x ∷ xs) zero a h = refl
  take-set (x ∷ xs) (suc k) a h = ap (◌∷◌ x) (take-set xs k a (omega arith))

  drop-set : (xs : List A) (k i : ℕ) (a : A) → k < i → drop i (set xs k a) ≡ drop i xs
  drop-set [] k i a h = refl
  drop-set (x ∷ xs) k zero a h = elim h [ ]
  drop-set (x ∷ xs) zero (suc i) a h = refl
  drop-set (x ∷ xs) (suc k) (suc i) a h = drop-set xs k i a (omega arith)

  drop-get_or :
      (xs : List A) (i : ℕ) (d : A) → i < length xs → drop i xs ≡ get_or xs i d ∷ drop (suc i) xs
  drop-get_or [] i d h = elim h [ ]
  drop-get_or (x ∷ xs) zero d h = refl
  drop-get_or (x ∷ xs) (suc i) d h = drop-get_or xs i d (omega arith)

module _ {ℓ} {A : Type ℓ} (keep : A → Bool) (blank : A) where
  entries-take-drop :
      (slots : List A) (p n : ℕ)
      → p + n ≤ length slots
      → entries blank slots (length slots) p n ≡ take n (drop p slots)
  entries-take-drop slots p zero h = refl
  entries-take-drop slots p (suc n) h = rw (drop-get_or slots p blank (omega arith)) (
      ap₂ ◌∷◌ (ap (λ k. get_or slots k blank) (mod-eq_of_lt (omega arith))) (
        entries-take-drop slots (p + 1) n (omega arith)
        ∙ ap (λ k. take n (drop k slots)) {y = suc p} (omega arith)))

  contents-take :
      (slots : List A) (n : ℕ)
      → n ≤ length slots
      → contents blank (record { slots = slots; head = n; count = n }) ≡ take n slots
  contents-take slots n h =
      let e : n - n ≡ 0 = omega arith in rw e (entries-take-drop slots 0 n (omega arith))

  -- One round, with its index known.
  evict_round : Window A → ℕ → ℕ → List A → ℕ → A → Window A
  evict_round w rounds i slots kept entry =
      evict_loop keep blank w rounds (i + 1) (if keep entry then set slots kept entry else slots)
        (if keep entry then kept + 1 else kept)

  evict_loop-suc :
      (w : Window A) (rounds i : ℕ) (slots : List A) (kept : ℕ)
      → oldest_index w i ≡ i
      → evict_loop keep blank w (suc rounds) i slots kept
        ≡ evict_round w rounds i slots kept (get_or slots i blank)
  unfolding evict_loop evict_round
  evict_loop-suc w rounds i slots kept e =
      ap (λ k. evict_round w rounds i slots kept (get_or slots k blank)) e

  evict_loop_lem :
      (w : Window A) (rounds i : ℕ) (slots : List A) (kept : ℕ)
      → ((j : ℕ) → j < length w.slots → oldest_index w j ≡ j)
      → length slots ≡ length w.slots
      → i + rounds ≤ length slots
      → kept ≤ i
      → contents blank (evict_loop keep blank w rounds i slots kept)
        ≡ take kept slots ++ select keep (take rounds (drop i slots))
  unfolding evict_loop evict_round
  evict_loop_lem w zero i slots kept at size h k =
      contents-take slots kept (omega arith) ∙ sym (append-nil (take kept slots))
  evict_loop_lem w (suc rounds) i slots kept at size h k =
      elim (Bool-cases (keep (get_or slots i blank))) [
        | inl live ↦
            rw
              (
                evict_loop-suc w rounds i slots kept (at i (omega arith)),
                drop-get_or slots i blank (omega arith),
                evict_round,
                live,
              )
              (evict_loop_lem w rounds (i + 1) (set slots kept (get_or slots i blank)) (kept + 1) at
                  (omega (arith, length-set slots kept (get_or slots i blank)))
                  (omega (arith, length-set slots kept (get_or slots i blank))) (omega arith)
                ∙ ap₂ (λ xs ys. xs ++ select keep (take rounds ys))
                    (ap (λ n. take n (set slots kept (get_or slots i blank))) {y = suc kept}
                        (omega arith)
                      ∙ take-set slots kept (get_or slots i blank) (omega arith))
                    (ap (λ n. drop n (set slots kept (get_or slots i blank))) {y = suc i}
                        (omega arith)
                      ∙ drop-set slots kept (suc i) (get_or slots i blank) (omega arith))
                ∙ append_assoc (take kept slots) (get_or slots i blank ∷ []) _)
        | inr dead ↦
            rw
              (
                evict_loop-suc w rounds i slots kept (at i (omega arith)),
                drop-get_or slots i blank (omega arith),
                evict_round,
                dead,
              )
              (evict_loop_lem w rounds (i + 1) slots kept at size (omega arith) (omega arith)
                ∙ ap (λ n. take kept slots ++ select keep (take rounds (drop n slots))) {y = suc i}
                    (omega arith))
      ]

  aligned_index :
      {capacity : ℕ} (w : Window A)
      → IsValid capacity w
      → IsAligned w
      → (j : ℕ) → j < length w.slots
      → oldest_index w j ≡ j
  aligned_index w v al j h =
      oldest_slot (length w.slots) w.head w.count j (omega (arith, v.room, v.size)) v.reached
      ∙ sym (mod-add-mod (w.head - w.count) (length w.slots) j)
      ∙ ap (λ k. (k + j) % length w.slots) al
      ∙ ap (λ k. k % length w.slots) {y = j} (omega arith)
      ∙ mod-eq_of_lt h

  entries-aligned :
      (slots : List A) (p q n : ℕ)
      → p % length slots ≡ q % length slots
      → entries blank slots (length slots) p n ≡ entries blank slots (length slots) q n
  entries-aligned slots p q zero e = refl
  entries-aligned slots p q (suc n) e = ap₂ ◌∷◌ (ap (λ k. get_or slots k blank) e) (
      entries-aligned slots (p + 1) (q + 1) n (
        sym (mod-add-mod p (length slots) 1)
        ∙ ap (λ k. (k + 1) % length slots) e
        ∙ mod-add-mod q (length slots) 1))

  -- Evicting a well-formed buffer whose oldest entry stands in slot 0 leaves the entries to be kept,
  -- in order, and no others.
  pub contents-evict :
      {capacity : ℕ} (w : Window A)
      → IsValid capacity w
      → IsAligned w
      → contents blank (evict keep blank w) ≡ select keep (contents blank w)
  unfolding evict
  contents-evict w v al =
      evict_loop_lem w w.count 0 w.slots 0 (aligned_index w v al) refl
        (omega (arith, v.within, v.size)) (omega arith)
      ∙ ap (select keep) (
          sym (entries-take-drop w.slots 0 w.count (omega (arith, v.within, v.size)))
          ∙ entries-aligned w.slots 0 (w.head - w.count) w.count
              (mod-eq_of_lt {n = 0} (omega (arith, v.room, v.size)) ∙ sym al))

  -- What `Evict` leaves behind starts in slot 0 again, and has not wrapped.
  evict_loop-fresh :
      (w : Window A) (rounds i : ℕ) (slots : List A) (kept : ℕ)
      → (evict_loop keep blank w rounds i slots kept).count
        ≡ (evict_loop keep blank w rounds i slots kept).head
  unfolding evict_loop
  evict_loop-fresh w zero i slots kept = refl
  evict_loop-fresh w (suc rounds) i slots kept = evict_loop-fresh w rounds (i + 1) _ _

  pub evict-fresh : (w : Window A) → (evict keep blank w).count ≡ (evict keep blank w).head
  unfolding evict
  evict-fresh w = evict_loop-fresh w w.count 0 w.slots 0

  -- A buffer that has not wrapped is aligned.
  pub fresh-IsAligned :
      {capacity : ℕ} (w : Window A) → IsValid capacity w → w.count ≡ w.head → IsAligned w
  fresh-IsAligned w v e =
      ap (λ k. k % length w.slots) {y = 0} (omega arith)
      ∙ mod-eq_of_lt (omega (arith, v.room, v.size))
