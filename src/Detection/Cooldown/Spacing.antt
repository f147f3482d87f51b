-- ===== src/Detection/Cooldown/Spacing.antt =====
-- What the cooldown promises, over any sequence of attempts and evictions in the order in which
-- they hold the lock, with clock readings that never go back.
use log_analytics_and_anomal.Prelude.{
  ℕ, ◌*◌, ◌^◌, ◌<◌, ◌≡◌, refl, sym, ap, ◌∙◌, ◌⊎◌, inl, inr, Bool, List, [], ◌∷◌, Option, none, some,
  pos, ◌-ℤ◌, ◌+ℤ◌, ◌≤ℤ◌, ltb_ℤ, wrap64_of_lt, int_mul_pos, -ℤ_parts, +ℤ_parts, if◌then◌else◌, arith,
  Bool-cases, Option-cases,
}
use log_analytics_and_anomal.Assoc.{
  lookup, insert, IsDistinct, lookup-insert, insert-IsDistinct, retain-IsDistinct, lookup-retain,
  lookup-retain-none,
}
use log_analytics_and_anomal.Domain.{Time, Duration}
use log_analytics_and_anomal.Detection.Cooldown.{
  CooldownKey, cooldown_key, Cooldowns, is_suppressed, admit, sweep, sweep_after,
}

pub data CooldownEvent : Type 0 where
  attempt : CooldownKey → Time → Time → CooldownEvent
  eviction : (CooldownKey → Time) → CooldownEvent

-- The clock readings of the events follow one another, from `t` on.
abbrev pub InOrder : Time → List CooldownEvent → Type 0
InOrder t [] = Unit {0}
InOrder t (attempt key now stamp ∷ es) = (t ≤ℤ now) × (now ≤ℤ stamp) × InOrder stamp es
InOrder t (eviction now ∷ es) =
    ((key : CooldownKey) → t ≤ℤ now key)
    × ((end : Time) × ((key : CooldownKey) → now key ≤ℤ end) × InOrder end es)

module _ (cooldown_dur : Duration) (k : CooldownKey) where
  note_admitted : CooldownKey → Time → Cooldowns × Bool → List Time → List Time
  note_admitted key stamp (c, admitted) rest =
      if cooldown_key.same key k then (if admitted then stamp ∷ rest else rest) else rest

  -- The stamps of the anomalies of `k` that pass.
  pub admitted : Cooldowns → List CooldownEvent → List Time
  unfolding note_admitted
  admitted c [] = []
  admitted c (attempt key now stamp ∷ es) =
      let r = admit cooldown_dur key now stamp c in note_admitted key stamp r (admitted r.0 es)
  admitted c (eviction now ∷ es) = admitted (sweep cooldown_dur now c) es

  -- The specification: no map and no eviction, only the stamp of the last one that passed.
  unfoldable pub admitted_spec : Option Time → List CooldownEvent → List Time
  admitted_spec last [] = []
  admitted_spec last (attempt key now stamp ∷ es) =
      let kept = admitted_spec last es in
      let next = stamp ∷ admitted_spec (some stamp) es in
      if cooldown_key.same key k
      then (if is_suppressed cooldown_dur now last then kept else next)
      else kept
  admitted_spec last (eviction now ∷ es) = admitted_spec last es

  -- Each stamp is at least the cooldown after the one before it.
  abbrev SpacedFrom : Time → List Time → Type 0
  SpacedFrom s [] = Unit {0}
  SpacedFrom s (t ∷ ts) = (s +ℤ cooldown_dur ≤ℤ t) × SpacedFrom t ts

  abbrev pub Spaced : List Time → Type 0
  Spaced [] = Unit {0}
  Spaced (t ∷ ts) = SpacedFrom t ts

  abbrev Agrees : Time → Cooldowns → Option Time → Type 0
  Agrees t c last =
      IsDistinct c
      × ((lookup k c ≡ last)
          ⊎ ((s : Time) × (last ≡ some s) × (lookup k c ≡ none) × (s +ℤ cooldown_dur ≤ℤ t)))

  Agrees-later :
      (t u : Time) (c : Cooldowns) (last : Option Time) → t ≤ℤ u → Agrees t c last → Agrees u c last
  Agrees-later t u c last h (d, inl e) = (d, inl e)
  Agrees-later t u c last h (d, inr (s, e, gone, old)) = (d, inr (s, e, gone, omega arith))

  -- The map and the specification suppress alike.
  same_verdict :
      (t now : Time) (c : Cooldowns) (last : Option Time)
      → t ≤ℤ now
      → Agrees t c last
      → is_suppressed cooldown_dur now (lookup k c) ≡ is_suppressed cooldown_dur now last
  same_verdict t now c last h (d, inl e) = ap (is_suppressed cooldown_dur now) e
  same_verdict t now c last h (d, inr (s, e, gone, old)) =
      rw (gone, e) (ground (arith, -ℤ_parts now s, +ℤ_parts s cooldown_dur))

  inserted-Agrees :
      (key : CooldownKey) (t stamp : Time) (c : Cooldowns) (last : Option Time)
      → t ≤ℤ stamp
      → Agrees t c last
      → Agrees stamp (insert key stamp c) (if cooldown_key.same key k then some stamp else last)
  inserted-Agrees key t stamp c last h a = elim (Bool-cases (cooldown_key.same key k)) [
    | inl mine ↦ rw mine (
      insert-IsDistinct key stamp c a.0,
      inl (lookup-insert key k stamp c ∙ ap (λ b. if b then some stamp else lookup k c) mine),
    )
    | inr other ↦ rw other (
      insert-IsDistinct key stamp c a.0,
      rw (lookup-insert key k stamp c, other) (Agrees-later t stamp c last h a).1,
    )
  ]

  module _ (long : cooldown_dur ≤ℤ sweep_after cooldown_dur) where
    sweep-Agrees :
        (t end : Time) (now : CooldownKey → Time) (c : Cooldowns) (last : Option Time)
        → t ≤ℤ now k
        → now k ≤ℤ end
        → Agrees t c last
        → Agrees end (sweep cooldown_dur now c) last
    unfolding sweep
    sweep-Agrees t end now c last h g (d, inr (s, e, gone, old)) =
        (retain-IsDistinct _ c d, inr (s, e, lookup-retain-none _ k c gone, omega arith))
    sweep-Agrees t end now c last h g (d, inl e) = (
      retain-IsDistinct _ c d,
      elim (Option-cases (lookup k c)) [
        | inl none_yet ↦ inl (lookup-retain-none _ k c none_yet ∙ sym none_yet ∙ e)
        | inr (s, here) ↦ elim (Bool-cases (ltb_ℤ (sweep_after cooldown_dur) (now k -ℤ s))) [
          | inl stale ↦ inr (
            s,
            sym e ∙ here,
            lookup-retain _ k s c d here ∙ rw stale,
            ground (arith, -ℤ_parts (now k) s, +ℤ_parts s cooldown_dur),
          )
          | inr fresh ↦ inl (lookup-retain _ k s c d here ∙ rw fresh (sym here ∙ e))
        ]
      ],
    )

    -- The map with its evictions admits exactly what the specification does.
    admitted_from :
        (t : Time) (c : Cooldowns) (last : Option Time) (es : List CooldownEvent)
        → Agrees t c last
        → InOrder t es
        → admitted c es ≡ admitted_spec last es
    unfolding admitted admitted_spec admit
    admitted_from t c last [] a o = refl
    admitted_from t c last (eviction now ∷ es) a (before, (end, after, o)) =
        admitted_from end (sweep cooldown_dur now c) last es
          (sweep-Agrees t end now c last (before k) (after k) a) o
    admitted_from t c last (attempt key now stamp ∷ es) a (o1, o2, o3) = ground (
      arith,
      cooldown_key.same_iff key k,
      same_verdict t now c last o1 a,
      admitted_from stamp c last es (Agrees-later t stamp c last (omega arith) a) o3,
      admitted_from stamp (insert key stamp c)
          (if cooldown_key.same key k then some stamp else last) es
          (inserted-Agrees key t stamp c last (omega arith) a) o3,
    )

    spec-SpacedFrom :
        (t s : Time) (es : List CooldownEvent)
        → InOrder t es
        → SpacedFrom s (admitted_spec (some s) es)
    unfolding admitted_spec
    spec-SpacedFrom t s [] o = tt
    spec-SpacedFrom t s (eviction now ∷ es) (before, (end, after, o)) = spec-SpacedFrom end s es o
    spec-SpacedFrom t s (attempt key now stamp ∷ es) (o1, o2, o3) = ground (
      arith,
      -ℤ_parts now s,
      +ℤ_parts s cooldown_dur,
      spec-SpacedFrom stamp s es o3,
      spec-SpacedFrom stamp stamp es o3,
    )

    spec-Spaced :
        (t : Time) (es : List CooldownEvent) → InOrder t es → Spaced (admitted_spec none es)
    unfolding admitted_spec
    spec-Spaced t [] o = tt
    spec-Spaced t (eviction now ∷ es) (before, (end, after, o)) = spec-Spaced end es o
    spec-Spaced t (attempt key now stamp ∷ es) (o1, o2, o3) =
        ground (arith, spec-Spaced stamp es o3, spec-SpacedFrom stamp stamp es o3)

-- The eviction threshold of a cooldown below 2 ^ 62 nanoseconds (146 years) is no shorter than it.
long_enough : (n : ℕ) → n < 2 ^ 62 → pos n ≤ℤ sweep_after (pos n)
long_enough n h = rw (int_mul_pos n 2, wrap64_of_lt (n * 2) (omega arith)) (omega arith)

-- For a cooldown below 2 ^ 62 nanoseconds (146 years) and an empty map at the start: over any
-- sequence of attempts and evictions whose clock readings never go back, the anomalies of a
-- (rule, service) pair that pass are those of the specification. There each one passes exactly if
-- none has passed or the last that did was stamped no less than the cooldown before: the evictions
-- and the other pairs change nothing.
pub admitted_exact :
    (n : ℕ) (k : CooldownKey) (t : Time) (es : List CooldownEvent)
    → n < 2 ^ 62
    → InOrder t es
    → admitted (pos n) k [] es ≡ admitted_spec (pos n) k none es
unfolding lookup IsDistinct
admitted_exact n k t es h o =
    admitted_from (pos n) k (long_enough n h) t [] none es (tt, inl refl) o

-- For a cooldown below 2 ^ 62 nanoseconds and an empty map at the start: over any sequence of
-- attempts and evictions whose clock readings never go back, any two successive anomalies of a
-- (rule, service) pair that pass are stamped at least the cooldown apart.
pub admitted-Spaced :
    (n : ℕ) (k : CooldownKey) (t : Time) (es : List CooldownEvent)
    → n < 2 ^ 62
    → InOrder t es
    → Spaced (pos n) k (admitted (pos n) k [] es)
admitted-Spaced n k t es h o =
    rw (admitted_exact n k t es h o) (spec-Spaced (pos n) k (long_enough n h) t es o)
