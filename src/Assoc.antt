-- ===== src/Assoc.antt =====
-- A Go map, as an association list without repeated keys. The order stands for the
-- unspecified order in which Go ranges over a map.
use log_analytics_and_anomal.Prelude.{
  Bool, List, [], ◌∷◌, Option, none, some, Key, if◌then◌else◌, ◌≡◌, refl, arith,
}

module _ {ℓ} {K : Type 0} {V : Type ℓ} where
  -- `for k, v := range m { if !p(k, v) { delete(m, k) } }`
  unfoldable pub retain : (K → V → Bool) → List (K × V) → List (K × V)
  retain p [] = []
  retain p ((j, w) ∷ m) = if p j w then (j, w) ∷ retain p m else retain p m

  -- `for k, v := range m`, where the body changes the object that v points to.
  unfoldable pub update_all : (K → V → V) → List (K × V) → List (K × V)
  update_all f [] = []
  update_all f ((j, w) ∷ m) = (j, f j w) ∷ update_all f m

module _ {ℓ} {K : Type 0} {V : Type ℓ} ⦃key : Key K⦄ where
  unfoldable pub lookup : K → List (K × V) → Option V
  lookup k [] = none
  lookup k ((j, v) ∷ m) = if key.same j k then some v else lookup k m

  -- m[k] = v
  unfoldable pub insert : K → V → List (K × V) → List (K × V)
  insert k v [] = (k, v) ∷ []
  insert k v ((j, w) ∷ m) = if key.same j k then (k, v) ∷ m else (j, w) ∷ insert k v m

  -- delete(m, k)
  unfoldable pub remove : K → List (K × V) → List (K × V)
  remove k [] = []
  remove k ((j, w) ∷ m) = if key.same j k then remove k m else (j, w) ∷ remove k m

  pub lookup-insert :
      (k j : K) (v : V) (m : List (K × V))
      → lookup j (insert k v m) ≡ (if key.same k j then some v else lookup j m)
  unfolding lookup insert
  lookup-insert k j v [] = refl
  lookup-insert k j v ((i, w) ∷ m) =
      ground (arith, key.same_iff k j, key.same_iff i k, key.same_iff i j, lookup-insert k j v m)

  pub lookup-remove :
      (k j : K) (m : List (K × V))
      → lookup j (remove k m) ≡ (if key.same k j then none else lookup j m)
  unfolding lookup remove
  lookup-remove k j [] = ground arith
  lookup-remove k j ((i, w) ∷ m) =
      ground (arith, key.same_iff k j, key.same_iff i k, key.same_iff i j, lookup-remove k j m)

  pub lookup-update_all :
      (f : K → V → V) (j : K) (v : V) (m : List (K × V))
      → lookup j m ≡ some v
      → lookup j (update_all f m) ≡ some (f j v)
  unfolding lookup update_all
  lookup-update_all f j v [] e = cc
  lookup-update_all f j v ((i, w) ∷ m) e =
      ground (arith, key.same_iff i j, lookup-update_all f j v m)

  pub lookup-update_all-none :
      (f : K → V → V) (j : K) (m : List (K × V))
      → lookup j m ≡ none
      → lookup j (update_all f m) ≡ none
  unfolding lookup update_all
  lookup-update_all-none f j [] e = refl
  lookup-update_all-none f j ((i, w) ∷ m) e =
      ground (arith, key.same_iff i j, lookup-update_all-none f j m)

  -- No key stands twice.
  unfoldable pub IsDistinct : List (K × V) → Type ℓ
  IsDistinct [] = Unit
  IsDistinct ((j, w) ∷ m) = (lookup j m ≡ none) × IsDistinct m

  pub insert-IsDistinct :
      (k : K) (v : V) (m : List (K × V)) → IsDistinct m → IsDistinct (insert k v m)
  unfolding insert IsDistinct lookup
  insert-IsDistinct k v [] d = (refl, tt)
  insert-IsDistinct k v ((j, w) ∷ m) d = ground (
    arith,
    key.same_iff j k,
    key.same_iff k j,
    insert-IsDistinct k v m d.1,
    lookup-insert k j v m,
  )

  pub lookup-retain-none :
      (p : K → V → Bool) (j : K) (m : List (K × V))
      → lookup j m ≡ none
      → lookup j (retain p m) ≡ none
  unfolding lookup retain
  lookup-retain-none p j [] e = refl
  lookup-retain-none p j ((i, w) ∷ m) e = ground (arith, key.same_iff i j, lookup-retain-none p j m)

  pub retain-IsDistinct :
      (p : K → V → Bool) (m : List (K × V)) → IsDistinct m → IsDistinct (retain p m)
  unfolding retain IsDistinct
  retain-IsDistinct p [] d = tt
  retain-IsDistinct p ((j, w) ∷ m) d =
      ground (arith, lookup-retain-none p j m d.0, retain-IsDistinct p m d.1)

  pub lookup-retain :
      (p : K → V → Bool) (j : K) (v : V) (m : List (K × V))
      → IsDistinct m
      → lookup j m ≡ some v
      → lookup j (retain p m) ≡ (if p j v then some v else none)
  unfolding lookup retain IsDistinct
  lookup-retain p j v [] d e = cc
  lookup-retain p j v ((i, w) ∷ m) d e =
      ground (arith, key.same_iff i j, lookup-retain p j v m d.1, lookup-retain-none p j m)

  pub update_all-IsDistinct :
      (f : K → V → V) (m : List (K × V)) → IsDistinct m → IsDistinct (update_all f m)
  unfolding update_all IsDistinct
  update_all-IsDistinct f [] d = tt
  update_all-IsDistinct f ((j, w) ∷ m) d =
      (lookup-update_all-none f j m d.0, update_all-IsDistinct f m d.1)
