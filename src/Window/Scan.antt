-- ===== src/Window/Scan.antt =====
-- `CountWithin` and `StatsWithin` see every entry of the buffer once, newest first.
use log_analytics_and_anomal.Prelude.{
  ℕ, zero, suc, ◌+◌, ◌-◌, ◌%◌, ◌≡◌, refl, sym, ap, ◌∙◌, List, [], ◌∷◌, ◌++◌, get_or, length, arith,
}
use log_analytics_and_anomal.Window.{Window, scan, scan_loop, newest_index}
use log_analytics_and_anomal.Window.Index.{newest_slot}
use log_analytics_and_anomal.Window.Valid.{IsValid}
use log_analytics_and_anomal.Window.Contents.{contents, entries, entries-snoc}

module _ {ℓ κ} {A : Type ℓ} {S : Type κ} (step : A → S → S) (blank : A) where
  -- The entries newest first: the last is read first.
  abbrev pub fold_newest : List A → S → S
  fold_newest [] s = s
  fold_newest (x ∷ xs) s = step x (fold_newest xs s)

  fold_newest-snoc :
      (xs : List A) (x : A) (s : S) → fold_newest (xs ++ x ∷ []) s ≡ fold_newest xs (step x s)
  fold_newest-snoc [] x s = refl
  fold_newest-snoc (y ∷ xs) x s = ap (step y) (fold_newest-snoc xs x s)

  scan_loop_lem :
      {capacity : ℕ} (w : Window A) (rounds i : ℕ) (s : S)
      → IsValid capacity w
      → i + rounds ≡ w.count
      → scan_loop step blank w rounds i s
        ≡ fold_newest (entries blank w.slots (length w.slots) (w.head - w.count) rounds) s
  unfolding scan_loop
  scan_loop_lem w zero i s v e = refl
  scan_loop_lem w (suc rounds) i s v e =
      scan_loop_lem w rounds (i + 1) (step (get_or w.slots (newest_index w i) blank) s) v
        (omega arith)
      ∙ sym (
          ap (λ xs. fold_newest xs s)
            (entries-snoc blank w.slots (length w.slots) (w.head - w.count) rounds)
          ∙ fold_newest-snoc (entries blank w.slots (length w.slots) (w.head - w.count) rounds) _ s
          ∙ ap
              (λ k.
                fold_newest (entries blank w.slots (length w.slots) (w.head - w.count) rounds)
                  (step (get_or w.slots k blank) s))
              (sym (
                newest_slot (length w.slots) w.head i (omega (arith, v.room, v.size))
                  (omega (arith, v.reached))
                ∙ ap (λ k. k % length w.slots) {y = w.head - w.count + rounds}
                    (omega (arith, v.reached)))))

  -- On a well-formed buffer the loop is a fold over its contents.
  pub scan_lem :
      {capacity : ℕ} (w : Window A) (s : S)
      → IsValid capacity w
      → scan step blank w s ≡ fold_newest (contents blank w) s
  unfolding scan
  scan_lem w s v = scan_loop_lem w w.count 0 s v (omega arith)
