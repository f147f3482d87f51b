-- ===== src/Window/Index.antt =====
-- Arithmetic of positions in a circular buffer.
use native.Mathlib.Nat.{mod-add-mod, mod-eq_of_lt, mod-eq-sub-mod}
use native.Mathlib.Decide.{dec_lt}
use log_analytics_and_anomal.Prelude.{
  ℕ, suc, ◌+◌, ◌-◌, ◌%◌, ◌≤◌, ◌<◌, ◌≡◌, sym, ap, ◌∙◌, ◌≢◌, arith,
}

-- One turn of the buffer leads back to the same slot.
mod-turn : (capacity p : ℕ) → 0 < capacity → (p + capacity) % capacity ≡ p % capacity
mod-turn capacity p h =
    mod-eq-sub-mod {n = p + capacity} {m = capacity} (omega arith)
    ∙ ap (λ k. k % capacity) (omega arith)

step-ne : (capacity r k : ℕ) → r < capacity → suc k < capacity → (r + suc k) % capacity ≢ r
step-ne capacity r k hr hk = elim (dec_lt (r + suc k) capacity) [
  | yes p ↦ omega (arith, mod-eq_of_lt p)
  | no p ↦ omega (
    arith,
    mod-eq-sub-mod {n = r + suc k} {m = capacity} (omega arith),
    mod-eq_of_lt {n = r + suc k - capacity} {m = capacity} (omega arith),
  )
]

-- Two positions less than a turn apart have different slots.
pub mod-ne : (capacity p q : ℕ) → p < q → q < p + capacity → p % capacity ≢ q % capacity
mod-ne capacity p q h k e =
    step-ne capacity (p % capacity) (q - p - 1) (omega arith) (omega arith)
      (mod-add-mod p capacity (suc (q - p - 1)) ∙ ap (λ n. n % capacity) (omega arith) ∙ sym e)

-- The slots that the loops of window.go compute.
pub newest_slot :
    (capacity head i : ℕ)
    → 0 < capacity
    → i < head
    → (head + capacity - 1 - i) % capacity ≡ (head - 1 - i) % capacity
newest_slot capacity head i h k =
    ap (λ n. n % capacity) (omega arith) ∙ mod-turn capacity (head - 1 - i) h

pub oldest_slot :
    (capacity head count i : ℕ)
    → 0 < capacity
    → count ≤ head
    → (head + capacity - count + i) % capacity ≡ (head - count + i) % capacity
oldest_slot capacity head count i h k =
    ap (λ n. n % capacity) (omega arith) ∙ mod-turn capacity (head - count + i) h
