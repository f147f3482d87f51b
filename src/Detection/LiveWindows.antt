-- ===== src/Detection/LiveWindows.antt =====
-- The map of buffers that a recording rule keeps, between Evaluate and Reset calls: what it says of
-- the entries that are still live.
use log_analytics_and_anomal.Prelude.{
  ℕ, ◌<◌, ◌≡◌, refl, sym, ap, ◌∙◌, ◌⊎◌, inl, inr, Bool, false, true, List, [], ◌∷◌, ◌++◌, Text,
  text_key, text_eq, text_eq_iff, select, select-append, select-select, ◌≤ℤ◌, arith, Bool-cases,
  Option-cases,
}
use log_analytics_and_anomal.Assoc.{
  lookup, retain, update_all, IsDistinct, insert-IsDistinct, update_all-IsDistinct,
  lookup-update_all, lookup-update_all-none, lookup-retain, lookup-retain-none,
}
use log_analytics_and_anomal.Domain.{Time}
use log_analytics_and_anomal.Window.{Window, new_window, add, evict}
use log_analytics_and_anomal.Window.Valid.{IsValid, new_window-IsValid, add-IsValid, evict-IsValid}
use log_analytics_and_anomal.Window.Contents.{contents, contents-new_window, contents-add_room}
use log_analytics_and_anomal.Window.Evict.{contents-evict, evict-fresh, fresh-IsAligned}
use log_analytics_and_anomal.Detection.Windows.{
  window_at, observe, observed, observed-snoc, window_at-observe,
}

-- What `update_all` with an eviction makes of each key's buffer.
module _ {A : Type 0} (blank : A) (capacity : ℕ) (f : Text → Window A → Window A) where
  pub window_at-update_all :
      (ws : List (Text × Window A)) (k : Text)
      → f k (new_window blank capacity) ≡ new_window blank capacity
      → window_at blank capacity (update_all f ws) k ≡ f k (window_at blank capacity ws k)
  unfolding window_at
  window_at-update_all ws k h = elim (Option-cases (lookup k ws)) [
    | inl e ↦ ground (arith, lookup-update_all-none f k ws e, h)
    | inr (w, e) ↦ ground (arith, lookup-update_all f k w ws e)
  ]

  -- The same where the buffers that fail a test are then deleted.
  pub window_at-retain :
      (p : Text → Window A → Bool) (ws : List (Text × Window A)) (k : Text)
      → IsDistinct ws
      → f k (new_window blank capacity) ≡ new_window blank capacity
      → let w = f k (window_at blank capacity ws k) in
        (window_at blank capacity (retain p (update_all f ws)) k ≡ w)
        ⊎ ((window_at blank capacity (retain p (update_all f ws)) k ≡ new_window blank capacity)
            × (p k w ≡ false))
  unfolding window_at
  window_at-retain p ws k d h = elim (Option-cases (lookup k ws)) [
    | inl e ↦
        let none_left =
          lookup-retain-none p k (update_all f ws) (lookup-update_all-none f k ws e) in
        inl (ground (arith, none_left, h))
    | inr (w, e) ↦
        let found =
          lookup-retain p k (f k w) (update_all f ws) (update_all-IsDistinct f ws d)
            (lookup-update_all f k w ws e) in
        elim (Bool-cases (p k (f k w))) [
          | inl keep ↦ inl (ground (arith, found))
          | inr gone ↦ inr (ground (arith, found))
        ]
  ]

module _ {A : Type 0} (blank : A) (capacity : ℕ) (live : Time → A → Bool) where
  -- What a Reset that reads the clock at `now` and then at `later` makes of the buffer of one key:
  -- an evicted one, or, where nothing in it is live, none, which is as good as a new one.
  abbrev pub Swept : Time → Time → Window A → Window A → Type 0
  Swept now later w w' =
      (w' ≡ evict (live now) blank w)
      ⊎ ((w' ≡ new_window blank capacity)
          × (select (live later) (contents blank (evict (live now) blank w)) ≡ []))

  -- From the reading `t` on, each key's buffer says of live entries what the whole history does; no
  -- buffer has wrapped.
  pub record Sound (t : Time) (past : List (Text × A)) (ws : List (Text × Window A)) : Type 0 where
    pub distinct : IsDistinct ws
    pub valid : (k : Text) → IsValid capacity (window_at blank capacity ws k)
    pub fresh :
        (k : Text) → (window_at blank capacity ws k).count ≡ (window_at blank capacity ws k).head
    pub same :
        (k : Text) (u : Time)
        → t ≤ℤ u
        → select (live u) (contents blank (window_at blank capacity ws k))
          ≡ select (live u) (observed k past)

  pub empty-Sound : (t : Time) → 0 < capacity → Sound t [] []
  unfolding window_at IsDistinct new_window lookup
  empty-Sound t h = record {
    distinct = tt;
    valid = λ k. new_window-IsValid blank capacity h;
    fresh = λ k. refl;
    same = λ k u l. refl;
  }

  pub later-Sound :
      (t u : Time) (past : List (Text × A)) (ws : List (Text × Window A))
      → t ≤ℤ u
      → Sound t past ws
      → Sound u past ws
  later-Sound t u past ws h s = record {
    distinct = s.distinct;
    valid = s.valid;
    fresh = s.fresh;
    same = λ k v l. s.same k v (omega arith);
  }

  add-fresh :
      (w : Window A) (a : A)
      → IsValid capacity w
      → w.count < capacity
      → w.count ≡ w.head
      → (add w a).count ≡ (add w a).head
  unfolding add
  add-fresh w a v room e = ground (arith, v.size)

  pub observe-Sound :
      (t : Time) (past : List (Text × A)) (ws : List (Text × Window A)) (key : Text) (a : A)
      → (window_at blank capacity ws key).count < capacity
      → Sound t past ws
      → Sound t (past ++ (key, a) ∷ []) (observe blank capacity key a ws)
  unfolding observe
  observe-Sound t past ws key a room s =
      let w = window_at blank capacity ws key in
      record {
        distinct = insert-IsDistinct key (add w a) ws s.distinct;
        valid = λ k.
            rw (window_at-observe blank capacity key k a ws) (elim (Bool-cases (text_eq key k)) [
              | inl mine ↦ rw mine (add-IsValid w a (s.valid key))
              | inr other ↦ rw other (s.valid k)
            ]);
        fresh = λ k.
            rw (window_at-observe blank capacity key k a ws) (elim (Bool-cases (text_eq key k)) [
              | inl mine ↦ rw mine (add-fresh w a (s.valid key) room (s.fresh key))
              | inr other ↦ rw other (s.fresh k)
            ]);
        same = λ k u l.
            rw (window_at-observe blank capacity key k a ws, observed-snoc k key a past)
              (elim (Bool-cases (text_eq key k)) [
                | inl mine ↦ rw mine (
                    ap (select (live u)) (contents-add_room blank w a (s.valid key) room)
                    ∙ select-append (live u) (contents blank w) (a ∷ [])
                    ∙ ap (λ xs. xs ++ select (live u) (a ∷ []))
                        (ap (λ j. select (live u) (contents blank (window_at blank capacity ws j)))
                            ((text_eq_iff key k).0 mine)
                          ∙ s.same k u l)
                    ∙ sym (select-append (live u) (observed k past) (a ∷ [])))
                | inr other ↦ rw other (s.same k u l)
              ]);
      }

  module _ (fades : (t u : Time) (a : A) → t ≤ℤ u → live u a ≡ true → live t a ≡ true) where
    Swept-IsValid :
        (now later : Time) (w w' : Window A)
        → IsValid capacity w
        → Swept now later w w'
        → IsValid capacity w'
    Swept-IsValid now later w w' v (inl e) = rw e (evict-IsValid (live now) blank w v)
    Swept-IsValid now later w w' v (inr (e, gone)) = rw e (new_window-IsValid blank capacity v.room)

    Swept-fresh : (now later : Time) (w w' : Window A) → Swept now later w w' → w'.count ≡ w'.head
    unfolding new_window
    Swept-fresh now later w w' (inl e) = rw e (evict-fresh (live now) blank w)
    Swept-fresh now later w w' (inr (e, gone)) = rw e

    select-evict :
        (now u : Time) (w : Window A)
        → IsValid capacity w
        → w.count ≡ w.head
        → now ≤ℤ u
        → select (live u) (contents blank (evict (live now) blank w))
          ≡ select (live u) (contents blank w)
    select-evict now u w v e h =
        ap (select (live u))
          (contents-evict (live now) blank w v (fresh-IsAligned (live now) blank w v e))
        ∙ select-select (live u) (live now) (contents blank w) (λ a. fades now u a h)

    -- A Reset loses nothing that is live at its end or later.
    select-Swept :
        (now later u : Time) (w w' : Window A)
        → IsValid capacity w
        → w.count ≡ w.head
        → now ≤ℤ later
        → later ≤ℤ u
        → Swept now later w w'
        → select (live u) (contents blank w') ≡ select (live u) (contents blank w)
    select-Swept now later u w w' v e h l (inl s) =
        ap (λ x. select (live u) (contents blank x)) s ∙ select-evict now u w v e (omega arith)
    select-Swept now later u w w' v e h l (inr (s, gone)) =
        let w1 = evict (live now) blank w in
        ap (λ x. select (live u) (contents blank x)) s
        ∙ ap (select (live u)) (contents-new_window blank capacity ∙ sym gone)
        ∙ select-select (live u) (live later) (contents blank w1) (λ a. fades later u a l)
        ∙ select-evict now u w v e (omega arith)

    pub sweep-Sound :
        (t end : Time) (now later : Text → Time) (past : List (Text × A))
        (ws ws' : List (Text × Window A))
        → Sound t past ws
        → IsDistinct ws'
        → ((k : Text)
            → (t ≤ℤ now k)
              × (now k ≤ℤ later k)
              × (later k ≤ℤ end)
              × Swept
                  (now k)
                  (later k)
                  (window_at blank capacity ws k)
                  (window_at blank capacity ws' k))
        → Sound end past ws'
    sweep-Sound t end now later past ws ws' s d each = record {
      distinct = d;
      valid = λ k.
          Swept-IsValid (now k) (later k) (window_at blank capacity ws k)
            (window_at blank capacity ws' k) (s.valid k) (each k).3;
      fresh = λ k.
          Swept-fresh (now k) (later k) (window_at blank capacity ws k)
            (window_at blank capacity ws' k) (each k).3;
      same = λ k u l.
          let (h0, h1, h2, sw) = each k in
          select-Swept (now k) (later k) u (window_at blank capacity ws k)
            (window_at blank capacity ws' k) (s.valid k) (s.fresh k) h1 (omega arith) sw
          ∙ s.same k u (omega arith);
    }
