-- ===== src/Window.antt =====
-- The circular buffers of internal/detection: `slidingWindow` of window.go and, over entries with
-- a breach flag, `latencyWindow` of latency.go. The two files hold the same code over two types of
-- slot, so it is written once over any type and used at both.
-- A buffer has a fixed number of slots; `head` is the next write position, not yet reduced, and
-- `count` the number of valid entries. Both are ints that never become negative; `head` grows by
-- one with each `Add` and is set back by each `Evict`, far below 2 ^ 63.
-- An index is computed with the addition of the capacity first, which gives the same number as the
-- source's order and keeps ℕ's subtraction exact. A read or write out of range, a panic in Go, is
-- ruled out by Window/Valid.antt.
pub mod Index
pub mod Valid
pub mod Contents
pub mod History
pub mod Scan
pub mod Evict
use log_analytics_and_anomal.Prelude.{
  ℕ, zero, suc, ◌+◌, ◌-◌, ◌%◌, Bool, List, length, set, get_or, replicate, if◌then◌else◌, ltb,
}

pub record Window {ℓ} (A : Type ℓ) : Type ℓ where
  pub slots : List A
  pub head : ℕ
  pub count : ℕ

module _ {ℓ} {A : Type ℓ} where
  -- `make([]T, capacity)` fills the slots with the type's zero value.
  unfoldable pub new_window : A → ℕ → Window A
  new_window blank capacity = record { slots = replicate capacity blank; head = 0; count = 0 }

  unfoldable pub add : Window A → A → Window A
  add w a = record {
    slots = set w.slots (w.head % length w.slots) a;
    head = w.head + 1;
    count = if ltb w.count (length w.slots) then w.count + 1 else w.count;
  }

  -- The slot of the i-th entry counted from the newest, as `CountWithin` and `StatsWithin` read it.
  abbrev pub newest_index : Window A → ℕ → ℕ
  newest_index w i = (w.head + length w.slots - 1 - i) % length w.slots

  -- The slot of the i-th entry counted from the oldest, as `Evict` reads it.
  abbrev pub oldest_index : Window A → ℕ → ℕ
  oldest_index w i = (w.head + length w.slots - w.count + i) % length w.slots

  -- `for i := 0; i < w.count; i++`, with the rounds left, over a state `S` of the loop's variables.
  unfoldable pub scan_loop {κ} : {S : Type κ} → (A → S → S) → A → Window A → ℕ → ℕ → S → S
  scan_loop step blank w zero i s = s
  scan_loop step blank w (suc rounds) i s =
      scan_loop step blank w rounds (i + 1) (step (get_or w.slots (newest_index w i) blank) s)

  unfoldable pub scan {κ} : {S : Type κ} → (A → S → S) → A → Window A → S → S
  unfolding scan_loop
  scan step blank w s = scan_loop step blank w w.count 0 s

  -- The loop of `Evict`. `newTs := w.timestamps[:0]` shares the buffer, and has its capacity: each
  -- `append` writes into the slots that later rounds read.
  unfoldable pub evict_loop : (A → Bool) → A → Window A → ℕ → ℕ → List A → ℕ → Window A
  evict_loop keep blank w zero i slots kept = record { slots = slots; head = kept; count = kept }
  evict_loop keep blank w (suc rounds) i slots kept =
      let entry = get_or slots (oldest_index w i) blank in
      evict_loop keep blank w rounds (i + 1) (if keep entry then set slots kept entry else slots)
        (if keep entry then kept + 1 else kept)

  -- `copy(w.timestamps, newTs)` copies a prefix of the buffer onto itself.
  unfoldable pub evict : (A → Bool) → A → Window A → Window A
  unfolding evict_loop
  evict keep blank w = evict_loop keep blank w w.count 0 w.slots 0
