-- ===== src/Window/Valid.antt =====
-- The well-formed buffers: what the operations of window.go keep, and why no index is out of range.
use log_analytics_and_anomal.Prelude.{
  ℕ, zero, suc, ◌+◌, ◌%◌, ◌≤◌, ◌<◌, ◌≡◌, refl, ◌⊎◌, inr, Bool, List, get_or, length, length-set,
  length-replicate, arith,
}
use log_analytics_and_anomal.Window.{
  Window, new_window, add, evict, evict_loop, newest_index, oldest_index,
}

module _ {ℓ} {A : Type ℓ} where
  pub record IsValid (capacity : ℕ) (w : Window A) : Type 0 where
    pub room : 0 < capacity
    pub size : length w.slots ≡ capacity
    pub within : w.count ≤ capacity
    pub reached : w.count ≤ w.head
    pub full_or_fresh : (w.count ≡ capacity) ⊎ (w.count ≡ w.head)

  pub new_window-IsValid :
      (blank : A) (capacity : ℕ) → 0 < capacity → IsValid capacity (new_window blank capacity)
  unfolding new_window
  new_window-IsValid blank capacity h = record {
    room = h;
    size = length-replicate capacity blank;
    within = omega arith;
    reached = omega arith;
    full_or_fresh = inr refl;
  }

  pub add-IsValid :
      {capacity : ℕ} (w : Window A) (a : A) → IsValid capacity w → IsValid capacity (add w a)
  unfolding add
  add-IsValid w a v = ground (arith, length-set w.slots (w.head % length w.slots) a)

  record Loop (capacity : ℕ) (w : Window A) : Type 0 where
    size : length w.slots ≡ capacity
    within : w.count ≤ capacity
    same : w.head ≡ w.count

  evict_loop-Loop :
      {capacity : ℕ} (keep : A → Bool) (blank : A) (w : Window A) (rounds i : ℕ) (slots : List A)
      (kept : ℕ)
      → length slots ≡ capacity
      → kept + rounds ≤ capacity
      → Loop capacity (evict_loop keep blank w rounds i slots kept)
  unfolding evict_loop
  evict_loop-Loop keep blank w zero i slots kept h k = ground arith
  evict_loop-Loop keep blank w (suc rounds) i slots kept h k =
      let entry = get_or slots (oldest_index w i) blank in
      evict_loop-Loop keep blank w rounds (i + 1) _ _ (ground (arith, length-set slots kept entry))
        (ground arith)

  pub evict-IsValid :
      {capacity : ℕ} (keep : A → Bool) (blank : A) (w : Window A)
      → IsValid capacity w
      → IsValid capacity (evict keep blank w)
  unfolding evict
  evict-IsValid keep blank w v =
      ground (arith, evict_loop-Loop keep blank w w.count 0 w.slots 0 v.size (omega arith))

  -- Every slot of a well-formed buffer that `Add` writes and that the loops read is inside it.
  index_in_range :
      {capacity : ℕ} (w : Window A) (i : ℕ)
      → IsValid capacity w
      → (w.head % length w.slots < length w.slots)
        × (newest_index w i < length w.slots)
        × (oldest_index w i < length w.slots)
  index_in_range w i v = omega arith
