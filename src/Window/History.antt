-- ===== src/Window/History.antt =====
-- A buffer against the history of what was added to it.
use log_analytics_and_anomal.Prelude.{
  ℕ, zero, suc, ◌+◌, ◌-◌, ◌≡◌, sym, ap, ◌∙◌, List, [], ◌∷◌, ◌++◌, length, drop, last_n,
  length-append, length-drop, drop-append, drop_all, arith,
}

module _ {ℓ} {A : Type ℓ} where
  drop-drop : (m n : ℕ) (xs : List A) → drop m (drop n xs) ≡ drop (n + m) xs
  drop-drop m zero xs = ap (λ k. drop k xs) {x = m} (omega arith)
  drop-drop zero (suc n) [] = sym (drop_all (suc n + 0) [] (omega arith))
  drop-drop (suc m) (suc n) [] = sym (drop_all (suc n + suc m) [] (omega arith))
  drop-drop m (suc n) (x ∷ xs) =
      drop-drop m n xs ∙ ap (λ k. drop k (x ∷ xs)) {x = suc (n + m)} (omega arith)

  -- To keep the newest `n` after each addition is to keep the newest `n` of all.
  pub last_n-snoc :
      (n : ℕ) (xs : List A) (x : A) → last_n n (last_n n xs ++ x ∷ []) ≡ last_n n (xs ++ x ∷ [])
  last_n-snoc n xs x =
      ap (λ ys. drop (length (last_n n xs ++ x ∷ []) - n) ys)
        (sym (drop-append (length xs - n) xs (x ∷ []) (omega arith)))
      ∙ drop-drop (length (last_n n xs ++ x ∷ []) - n) (length xs - n) (xs ++ x ∷ [])
      ∙ ap (λ k. drop k (xs ++ x ∷ []))
          (omega (
            arith,
            length-append (last_n n xs) (x ∷ []),
            length-append xs (x ∷ []),
            length-drop (length xs - n) xs,
          ))
