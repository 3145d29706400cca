-- ===== src/Base/Maps.antt =====
-- A Go map as an association list, each key once. Its order of iteration is no part of the model.
use Prim.Native.Nat.{ℕ, suc, ◌+◌, ◌≤◌}
use mathlib.Core.Path.{◌≡◌, refl, sym, ◌∙◌}
use mathlib.Core.Logic.{◌≢◌, ◌⊎◌, inl, inr}
use mathlib.Core.Bool.{Bool, false≢true}
use mathlib.Core.Option.{Option, none, some, some-injective}
use mathlib.Core.List.{List, [], ◌∷◌}
use native.Mathlib.Omega.{arith}
use trpc_agent_service_platf.Base.Tests.{if◌then◌else◌, length, Bool-cases}
use trpc_agent_service_platf.Base.Keys.{Eq, ◌==◌, ==_refl, ==_ne, ==_iff}

abbrev pub Map {ℓ κ} : Type ℓ → Type κ → Type (ℓ ⊔ κ)
Map K V = List (K × V)

module _ {ℓ κ} {K : Type ℓ} {V : Type κ} ⦃e : Eq K⦄ where
  unfoldable pub lookup : K → Map K V → Option V
  lookup k [] = none
  lookup k ((i, v) ∷ m) = if i == k then some v else lookup k m

  -- `m[k] = v`
  unfoldable pub insert : K → V → Map K V → Map K V
  insert k v [] = (k, v) ∷ []
  insert k v ((i, w) ∷ m) = if i == k then (k, v) ∷ m else (i, w) ∷ insert k v m

  -- `delete(m, k)`
  unfoldable pub erase : K → Map K V → Map K V
  erase k [] = []
  erase k ((j, w) ∷ m) = let rest = erase k m in if j == k then rest else (j, w) ∷ rest

  -- A loop over the map that deletes what fails the test.
  unfoldable pub keep : (K → V → Bool) → Map K V → Map K V
  keep p [] = []
  keep p ((j, w) ∷ m) = let rest = keep p m in if p j w then (j, w) ∷ rest else rest

  abbrev pub size : Map K V → ℕ
  size = length

  abbrev pub HasDistinctKeys : Map K V → Type κ
  HasDistinctKeys [] = Unit
  HasDistinctKeys ((k, v) ∷ m) = (lookup k m ≡ none) × HasDistinctKeys m

  pub lookup-insert :
      (k j : K) (v : V) (m : Map K V)
      → lookup j (insert k v m) ≡ (if k == j then some v else lookup j m)
  unfolding lookup insert
  lookup-insert k j v [] = refl
  lookup-insert k j v ((h, u) ∷ rest) =
      ground (arith, lookup-insert k j v rest, e.beq_iff h j, e.beq_iff h k, e.beq_iff k j)

  pub lookup-insert_self : (k : K) (v : V) (m : Map K V) → lookup k (insert k v m) ≡ some v
  lookup-insert_self k v m = ground (arith, lookup-insert k k v m, ==_refl k)

  pub lookup-insert_ne :
      (k j : K) (v : V) (m : Map K V) → k ≢ j → lookup j (insert k v m) ≡ lookup j m
  lookup-insert_ne k j v m h = ground (arith, lookup-insert k j v m, ==_ne k j h)

  -- What a lookup finds after an insertion is new or was there.
  pub lookup-insert-cases :
      (k j : K) (v w : V) (m : Map K V)
      → lookup j (insert k v m) ≡ some w
      → ((k ≡ j) × (v ≡ w)) ⊎ ((k ≢ j) × (lookup j m ≡ some w))
  lookup-insert-cases k j v w m h = elim (Bool-cases (k == j)) [
    | inl same ↦
        inl
          ((==_iff k j).0 same, some-injective v w (sym (lookup-insert k j v m ∙ rw same refl) ∙ h))
    | inr other ↦
        let ne : k ≢ j = λ e. false≢true (sym other ∙ (==_iff k j).1 e) in
        inr (ne, sym (lookup-insert_ne k j v m ne) ∙ h)
  ]

  pub lookup-erase :
      (k j : K) (m : Map K V) → lookup j (erase k m) ≡ (if k == j then none else lookup j m)
  unfolding lookup erase
  lookup-erase k j [] = ground arith
  lookup-erase k j ((i, w) ∷ m) =
      ground (arith, e.beq_iff k j, e.beq_iff i k, e.beq_iff i j, lookup-erase k j m)

  abbrev pub kept : (K → V → Bool) → K → Option V → Option V
  kept p k none = none
  kept p k (some v) = if p k v then some v else none

  lookup-keep-none :
      (p : K → V → Bool) (k : K) (m : Map K V) → lookup k m ≡ none → lookup k (keep p m) ≡ none
  unfolding lookup keep
  lookup-keep-none p k [] h = refl
  lookup-keep-none p k ((i, w) ∷ m) h = ground (arith, lookup-keep-none p k m)

  pub lookup-keep :
      (p : K → V → Bool) (k : K) (m : Map K V)
      → HasDistinctKeys m
      → lookup k (keep p m) ≡ kept p k (lookup k m)
  unfolding lookup keep
  lookup-keep p k [] d = refl
  lookup-keep p k ((i, w) ∷ m) (fresh, d) = ground (
    arith,
    e.beq_iff i k,
    lookup-keep p k m d,
    lookup-keep-none p i m fresh,
    lookup-keep-none p k m,
  )

  pub insert-HasDistinctKeys :
      (k : K) (v : V) (m : Map K V) → HasDistinctKeys m → HasDistinctKeys (insert k v m)
  unfolding lookup insert
  insert-HasDistinctKeys k v [] d = (refl, tt)
  insert-HasDistinctKeys k v ((i, w) ∷ m) (fresh, d) =
      ground
        (arith, e.beq_iff i k, e.beq_iff k i, lookup-insert k i v m, insert-HasDistinctKeys k v m d)

  pub erase-HasDistinctKeys :
      (k : K) (m : Map K V) → HasDistinctKeys m → HasDistinctKeys (erase k m)
  unfolding erase
  erase-HasDistinctKeys k [] d = tt
  erase-HasDistinctKeys k ((i, w) ∷ m) (fresh, d) =
      ground (arith, lookup-erase k i m, erase-HasDistinctKeys k m d)

  pub keep-HasDistinctKeys :
      (p : K → V → Bool) (m : Map K V) → HasDistinctKeys m → HasDistinctKeys (keep p m)
  unfolding keep
  keep-HasDistinctKeys p [] d = tt
  keep-HasDistinctKeys p ((i, w) ∷ m) (fresh, d) =
      ground (arith, lookup-keep-none p i m fresh, keep-HasDistinctKeys p m d)

  pub size-insert :
      (k : K) (v : V) (m : Map K V)
      → size (insert k v m) ≡ elim (lookup k m) [ none ↦ suc (size m) | some w ↦ size m ]
  unfolding lookup insert
  size-insert k v [] = refl
  size-insert k v ((i, w) ∷ m) = ground (arith, size-insert k v m)

  pub size-insert-le : (k : K) (v : V) (m : Map K V) → size (insert k v m) ≤ size m + 1
  size-insert-le k v m = ground (arith, size-insert k v m)

  pub size-erase-le : (k : K) (m : Map K V) → size (erase k m) ≤ size m
  unfolding erase
  size-erase-le k [] = omega arith
  size-erase-le k ((i, w) ∷ m) = ground (arith, size-erase-le k m)

  pub size-keep-le : (p : K → V → Bool) (m : Map K V) → size (keep p m) ≤ size m
  unfolding keep
  size-keep-le p [] = omega arith
  size-keep-le p ((i, w) ∷ m) = ground (arith, size-keep-le p m)

  -- Every entry of the second list is what the first map holds at its key.
  abbrev pub Holds : Map K V → Map K V → Type (ℓ ⊔ κ)
  Holds m₀ [] = Unit
  Holds m₀ ((k, v) ∷ m) = (lookup k m₀ ≡ some v) × Holds m₀ m

  Holds-cons :
      (k : K) (v : V) (m₀ m : Map K V) → lookup k m₀ ≡ none → Holds m₀ m → Holds ((k, v) ∷ m₀) m
  unfolding lookup
  Holds-cons k v m₀ [] fresh h = tt
  Holds-cons k v m₀ ((j, w) ∷ m) fresh (here, h) =
      (ground (arith, e.beq_iff k j), Holds-cons k v m₀ m fresh h)

  -- A loop over a map meets each key with its value.
  pub Holds-self : (m : Map K V) → HasDistinctKeys m → Holds m m
  unfolding lookup
  Holds-self [] d = tt
  Holds-self ((k, v) ∷ m) (fresh, d) =
      (ground (arith, ==_refl k), Holds-cons k v m m fresh (Holds-self m d))
