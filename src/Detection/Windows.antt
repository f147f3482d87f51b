-- ===== src/Detection/Windows.antt =====
-- The map[string]*slidingWindow (or *latencyWindow) that four of the rules keep: a buffer for each
-- key, made when the key is first seen. The map holds pointers: what Add does to the buffer is seen
-- in the map.
use log_analytics_and_anomal.Prelude.{
  ℕ, ◌-◌, ◌<◌, ◌≡◌, refl, sym, ap, ◌∙◌, inl, inr, List, [], ◌∷◌, ◌++◌, none, some, Text, text_key,
  text_eq, text_eq_iff, last_n, if◌then◌else◌, arith, Bool-cases, drop_all,
}
use log_analytics_and_anomal.Assoc.{lookup, insert, lookup-insert}
use log_analytics_and_anomal.Window.{Window, new_window, add}
use log_analytics_and_anomal.Window.Valid.{IsValid, new_window-IsValid, add-IsValid}
use log_analytics_and_anomal.Window.Contents.{contents, contents-new_window, contents-add}
use log_analytics_and_anomal.Window.History.{last_n-snoc}

module _ {ℓ} {A : Type ℓ} (blank : A) (capacity : ℕ) where
  -- `w, ok := r.windows[key]; if !ok { w = newSlidingWindow(r.capacity) … }`
  unfoldable pub window_at : List (Text × Window A) → Text → Window A
  window_at windows key = elim (lookup key windows) [
    | none ↦ new_window blank capacity
    | some w ↦ w
  ]

  -- `… r.windows[key] = w }`, then `w.Add(a)`
  unfoldable pub observe : Text → A → List (Text × Window A) → List (Text × Window A)
  unfolding window_at
  observe key a windows = insert key (add (window_at windows key) a) windows

  pub window_at-observe :
      (key j : Text) (a : A) (windows : List (Text × Window A))
      → window_at (observe key a windows) j
        ≡ (if text_eq key j then add (window_at windows key) a else window_at windows j)
  unfolding window_at observe
  window_at-observe key j a windows =
      ground (arith, lookup-insert key j (add (window_at windows key) a) windows)

-- What was observed under a key, in order.
abbrev pub observed {ℓ} : {A : Type ℓ} → Text → List (Text × A) → List A
observed k [] = []
observed k ((j, a) ∷ h) = if text_eq j k then a ∷ observed k h else observed k h

pub observed-snoc {ℓ} :
    {A : Type ℓ} (k j : Text) (a : A) (h : List (Text × A))
    → observed k (h ++ (j, a) ∷ []) ≡ (if text_eq j k then observed k h ++ a ∷ [] else observed k h)
observed-snoc k j a [] = refl
observed-snoc k j a ((i, b) ∷ h) = ground (arith, observed-snoc k j a h)

module _ {ℓ} {A : Type ℓ} (blank : A) (capacity : ℕ) where
  -- Each key's buffer is well formed and holds the newest of what was observed under the key.
  pub record Tracks (history : List (Text × A)) (windows : List (Text × Window A)) : Type ℓ where
    pub valid : (k : Text) → IsValid capacity (window_at blank capacity windows k)
    pub holds :
        (k : Text)
        → contents blank (window_at blank capacity windows k) ≡ last_n capacity (observed k history)

  pub empty-Tracks : 0 < capacity → Tracks [] []
  unfolding window_at lookup
  empty-Tracks h = record {
    valid = λ k. new_window-IsValid blank capacity h;
    holds =
        λ k. contents-new_window blank capacity ∙ sym (drop_all (0 - capacity) [] (omega arith));
  }

  observe-holds :
      (history : List (Text × A)) (windows : List (Text × Window A)) (key : Text) (a : A) (k : Text)
      → Tracks history windows
      → contents blank (window_at blank capacity (observe blank capacity key a windows) k)
        ≡ last_n capacity (observed k (history ++ (key, a) ∷ []))
  observe-holds history windows key a k t =
      rw (window_at-observe blank capacity key k a windows, observed-snoc k key a history)
        (elim (Bool-cases (text_eq key k)) [
          | inl same ↦ rw same (
              contents-add blank (window_at blank capacity windows key) a (t.valid key)
              ∙ ap
                  (λ j.
                    last_n capacity (contents blank (window_at blank capacity windows j) ++ a ∷ []))
                  ((text_eq_iff key k).0 same)
              ∙ ap (λ xs. last_n capacity (xs ++ a ∷ [])) (t.holds k)
              ∙ last_n-snoc capacity (observed k history) a)
          | inr other ↦ rw other (t.holds k)
        ])

  pub observe-Tracks :
      (history : List (Text × A)) (windows : List (Text × Window A)) (key : Text) (a : A)
      → Tracks history windows
      → Tracks (history ++ (key, a) ∷ []) (observe blank capacity key a windows)
  observe-Tracks history windows key a t = record {
    valid = λ k.
        rw (window_at-observe blank capacity key k a windows) (elim (Bool-cases (text_eq key k)) [
          | inl same ↦ rw same (add-IsValid (window_at blank capacity windows key) a (t.valid key))
          | inr other ↦ rw other (t.valid k)
        ]);
    holds = λ k. observe-holds history windows key a k t;
  }
