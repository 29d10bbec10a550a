-- ===== src/Common/Map.antt =====
-- A Go map as an association list. The functions below do not depend on the order of the entries;
-- where Go ranges over a map, the model takes the order as an argument.
use Prim.Native.Nat.{ℕ, suc, ◌+◌, ◌≤◌}
use mathlib.Core.Path.{◌≡◌, refl, subst₂}
use mathlib.Core.Logic.{inl, inr}
use mathlib.Core.Bool.{Bool}
use mathlib.Core.Option.{Option, none, some, some-injective}
use mathlib.Core.List.{List, [], ◌∷◌}
use native.Mathlib.Omega.{arith}
use lanos.Common.Lists.{length}
use lanos.Common.Tests.{Eq, ◌==◌, if◌then◌else◌, Bool-cases, beq_refl}

abbrev pub Map : Type 0 → Type 0 → Type 0
Map K V = List (K × V)

-- The weight of an entry that may be absent.
abbrev pub weight : {V : Type 0} → (V → ℕ) → Option V → ℕ
weight f none = 0
weight f (some v) = f v

-- What is left of an entry that has to pass a test.
abbrev pub kept : {V : Type 0} → (V → Bool) → Option V → Option V
kept p none = none
kept p (some v) = if p v then some v else none

module _ {K V : Type 0} where
  abbrev pub sum_by : (V → ℕ) → Map K V → ℕ
  sum_by f [] = 0
  sum_by f ((k, v) ∷ m) = f v + sum_by f m

  abbrev pub count_by : (V → Bool) → Map K V → ℕ
  count_by p = sum_by (λ v. if p v then 1 else 0)

  abbrev pub map_values : (V → V) → Map K V → Map K V
  map_values f [] = []
  map_values f ((k, v) ∷ m) = (k, f v) ∷ map_values f m

  unfoldable pub values : Map K V → List V
  values [] = []
  values ((k, v) ∷ m) = v ∷ values m

  -- The values that pass the test.
  unfoldable pub filter_values : (V → Bool) → Map K V → List V
  filter_values p [] = []
  filter_values p ((k, v) ∷ m) = let rest = filter_values p m in if p v then v ∷ rest else rest

  -- The map without the entries that fail the test.
  unfoldable pub keep_by : (V → Bool) → Map K V → Map K V
  keep_by p [] = []
  keep_by p ((k, v) ∷ m) = let rest = keep_by p m in if p v then (k, v) ∷ rest else rest

module _ {K V : Type 0} ⦃e : Eq K⦄ where
  unfoldable pub insert : K → V → Map K V → Map K V
  insert new v [] = (new, v) ∷ []
  insert new v ((j, w) ∷ m) = if j == new then (new, v) ∷ m else (j, w) ∷ insert new v m

  unfoldable pub delete : K → Map K V → Map K V
  delete k [] = []
  delete k ((j, v) ∷ m) = let rest = delete k m in if j == k then rest else (j, v) ∷ rest

  unfoldable pub lookup : K → Map K V → Option V
  lookup k [] = none
  lookup k ((i, w) ∷ rest) = if i == k then some w else lookup k rest

  -- No key stands twice.
  abbrev pub Distinct : Map K V → Type 0
  Distinct [] = Unit
  Distinct ((k, v) ∷ m) = (lookup k m ≡ none) × Distinct m

  pub lookup-insert :
      (new j : K) (v : V) (m : Map K V)
      → lookup j (insert new v m) ≡ (if new == j then some v else lookup j m)
  unfolding lookup insert
  lookup-insert new j v [] = refl
  lookup-insert new j v ((i, w) ∷ m) =
      ground (arith, lookup-insert new j v m, e.beq_iff i j, e.beq_iff i new, e.beq_iff new j)

  pub lookup-delete :
      (k j : K) (m : Map K V) → lookup j (delete k m) ≡ (if k == j then none else lookup j m)
  unfolding lookup delete
  lookup-delete k j [] = ground arith
  lookup-delete k j ((i, w) ∷ m) =
      ground (arith, e.beq_iff k j, e.beq_iff i k, e.beq_iff i j, lookup-delete k j m)

  pub sum_by-insert :
      (f : V → ℕ) (k : K) (v : V) (m : Map K V)
      → sum_by f (insert k v m) + weight f (lookup k m) ≡ sum_by f m + f v
  unfolding lookup insert
  sum_by-insert f k v [] = omega arith
  sum_by-insert f k v ((i, w) ∷ m) = ground (arith, sum_by-insert f k v m)

  delete_absent : (k : K) (m : Map K V) → lookup k m ≡ none → delete k m ≡ m
  unfolding lookup delete
  delete_absent k [] h = refl
  delete_absent k ((i, w) ∷ m) h = ground (arith, delete_absent k m)

  pub sum_by-delete :
      (f : V → ℕ) (k : K) (m : Map K V)
      → Distinct m
      → sum_by f (delete k m) + weight f (lookup k m) ≡ sum_by f m
  unfolding lookup delete
  sum_by-delete f k [] d = omega arith
  sum_by-delete f k ((i, w) ∷ m) d =
      ground (arith, e.beq_iff i k, delete_absent k m, sum_by-delete f k m d.1)

  pub insert-Distinct : (k : K) (v : V) (m : Map K V) → Distinct m → Distinct (insert k v m)
  unfolding lookup insert
  insert-Distinct k v [] d = (refl, tt)
  insert-Distinct k v ((i, w) ∷ m) d =
      ground (arith, e.beq_iff i k, e.beq_iff k i, lookup-insert k i v m, insert-Distinct k v m d.1)

  pub delete-Distinct : (k : K) (m : Map K V) → Distinct m → Distinct (delete k m)
  unfolding lookup delete
  delete-Distinct k [] d = tt
  delete-Distinct k ((i, w) ∷ m) d = ground (arith, lookup-delete k i m, delete-Distinct k m d.1)

  -- Every entry that a lookup finds satisfies `P`.
  abbrev pub Each : (K → V → Type 0) → Map K V → Type 0
  Each P m = (k : K) (v : V) → lookup k m ≡ some v → P k v

  pub Each-insert :
      (P : K → V → Type 0) (k : K) (v : V) (m : Map K V) → Each P m → P k v → Each P (insert k v m)
  Each-insert P k v m h p j w found = elim (Bool-cases (k == j)) [
    | inl e' ↦
        subst₂ P ((e.beq_iff k j).0 e') (some-injective _ _ (rw (lookup-insert, e') at found)) p
    | inr e ↦ h j w (rw (lookup-insert, e) at found)
  ]

  pub Each-delete : (P : K → V → Type 0) (k : K) (m : Map K V) → Each P m → Each P (delete k m)
  Each-delete P k m h j w found = elim (Bool-cases (k == j)) [
    | inl e ↦ absurd (cc (rw (lookup-delete, e) at found))
    | inr e ↦ h j w (rw (lookup-delete, e) at found)
  ]

  pub Each-head : (P : K → V → Type 0) (k : K) (v : V) (m : Map K V) → Each P ((k, v) ∷ m) → P k v
  unfolding lookup
  Each-head P k v m h = h k v (rw (beq_refl k))

  pub Each-tail :
      (P : K → V → Type 0) (k : K) (v : V) (m : Map K V)
      → lookup k m ≡ none
      → Each P ((k, v) ∷ m)
      → Each P m
  unfolding lookup
  Each-tail P k v m fresh h j w found = h j w (ground (arith, e.beq_iff k j))

  pub lookup-map_values :
      (f : V → V) (k : K) (m : Map K V)
      → lookup k (map_values f m) ≡ elim (lookup k m) [ none ↦ none | some v ↦ some (f v) ]
  unfolding lookup
  lookup-map_values f k [] = refl
  lookup-map_values f k ((i, w) ∷ m) = ground (arith, lookup-map_values f k m)

  pub map_values-Distinct : (f : V → V) (m : Map K V) → Distinct m → Distinct (map_values f m)
  map_values-Distinct f [] d = tt
  map_values-Distinct f ((i, w) ∷ m) d =
      (ground (arith, lookup-map_values f i m), map_values-Distinct f m d.1)

  pub weight-le-sum_by : (f : V → ℕ) (k : K) (m : Map K V) → weight f (lookup k m) ≤ sum_by f m
  unfolding lookup
  weight-le-sum_by f k [] = omega arith
  weight-le-sum_by f k ((i, w) ∷ m) = ground (arith, weight-le-sum_by f k m)

  pub length-insert : (k : K) (v : V) (m : Map K V) → length (insert k v m) ≤ suc (length m)
  unfolding insert
  length-insert k v [] = omega arith
  length-insert k v ((j, w) ∷ m) = ground (arith, length-insert k v m)

  pub length-insert_present :
      (k : K) (v w : V) (m : Map K V) → lookup k m ≡ some w → length (insert k v m) ≡ length m
  unfolding insert lookup
  length-insert_present k v w [] h = absurd (cc h)
  length-insert_present k v w ((j, u) ∷ m) h = ground (arith, length-insert_present k v w m)

  pub length-delete : (k : K) (m : Map K V) → length (delete k m) ≤ length m
  unfolding delete
  length-delete k [] = omega arith
  length-delete k ((j, w) ∷ m) = ground (arith, length-delete k m)

  pub length-keep_by : (p : V → Bool) (m : Map K V) → length (keep_by p m) ≤ length m
  unfolding keep_by
  length-keep_by p [] = omega arith
  length-keep_by p ((j, w) ∷ m) = ground (arith, length-keep_by p m)

  pub lookup-keep_by :
      (p : V → Bool) (k : K) (m : Map K V)
      → Distinct m
      → lookup k (keep_by p m) ≡ kept p (lookup k m)
  unfolding lookup keep_by
  lookup-keep_by p k [] d = refl
  lookup-keep_by p k ((j, w) ∷ m) d = ground (arith, lookup-keep_by p k m d.1, e.beq_iff j k)

  pub keep_by-Distinct : (p : V → Bool) (m : Map K V) → Distinct m → Distinct (keep_by p m)
  unfolding lookup keep_by
  keep_by-Distinct p [] d = tt
  keep_by-Distinct p ((j, w) ∷ m) d =
      ground (arith, lookup-keep_by p j m d.1, keep_by-Distinct p m d.1)

  pub Each-keep_by :
      (P : K → V → Type 0) (p : V → Bool) (m : Map K V)
      → Distinct m
      → Each P m
      → Each P (keep_by p m)
  Each-keep_by P p m d h k v found = h k v (ground (arith, lookup-keep_by p k m d))
