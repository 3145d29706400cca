-- ===== src/Base/Sorting.antt =====
-- sort.Slice, whose result the code's orders determine, as an insertion sort.
use mathlib.Core.Path.{◌≡◌, refl, sym, subst}
use mathlib.Core.Logic.{◌≢◌, inl, inr}
use mathlib.Core.Bool.{Bool, true, false}
use mathlib.Core.Option.{some, some-injective}
use mathlib.Core.List.{List, [], ◌∷◌, head?}
use native.Mathlib.Omega.{arith}
use trpc_agent_service_platf.Base.Tests.{if◌then◌else◌, Bool-cases}

abbrev pub All {ℓ κ} : {A : Type ℓ} → (A → Type κ) → List A → Type κ
All P [] = Unit
All P (x ∷ xs) = P x × All P xs

-- What a comparison function has to satisfy for a sorted slice to make sense.
pub record IsOrder {ℓ} {A : Type ℓ} (less : A → A → Bool) : Type ℓ where
  pub asymm : (a b : A) → less a b ≡ true → less b a ≡ false
  pub trans : (a b c : A) → less b a ≡ false → less c b ≡ false → less c a ≡ false
  pub irrefl : (a : A) → less a a ≡ false

module _ {ℓ} {A : Type ℓ} (less : A → A → Bool) where
  unfoldable pub insert_sorted : A → List A → List A
  insert_sorted x [] = x ∷ []
  insert_sorted x (y ∷ ys) = if less y x then y ∷ insert_sorted x ys else x ∷ y ∷ ys

  unfoldable pub sort : List A → List A
  unfolding insert_sorted
  sort [] = []
  sort (x ∷ xs) = insert_sorted x (sort xs)

  -- No element is before `m`.
  abbrev pub Minimal : A → List A → Type 0
  Minimal m = All λ z. less z m ≡ false

  Minimal-mono :
      IsOrder less → (a m : A) (zs : List A) → less m a ≡ false → Minimal m zs → Minimal a zs
  Minimal-mono o a m [] h all = tt
  Minimal-mono o a m (z ∷ zs) h all = (o.trans a m z h all.0, Minimal-mono o a m zs h all.1)

module _ {ℓ} {A : Type ℓ} (less : A → A → Bool) where
  insert_sorted-Minimal :
      IsOrder less
      → (x m : A) (sorted zs : List A) → ((l : A) → head? sorted ≡ some l → Minimal less l zs)
      → (sorted ≡ [] → zs ≡ [])
      → head? (insert_sorted less x sorted) ≡ some m
      → Minimal less m (x ∷ zs)
  unfolding insert_sorted
  insert_sorted-Minimal o x m [] zs least nil e =
      subst (λ a. Minimal less a (x ∷ zs)) (some-injective x m e)
        (o.irrefl x, subst (Minimal less x) (sym (nil refl)) tt)
  insert_sorted-Minimal o x m (y ∷ ys) zs least nil e = elim (Bool-cases (less y x)) [
    | inl b ↦
        subst (λ a. Minimal less a (x ∷ zs)) (some-injective y m (rw b at e))
          (o.asymm y x b, least y refl)
    | inr b ↦
        subst (λ a. Minimal less a (x ∷ zs)) (some-injective x m (rw b at e))
          (o.irrefl x, Minimal-mono less o x y zs b (least y refl))
  ]

  insert_sorted-ne-nil : (x : A) (ys : List A) → insert_sorted less x ys ≢ []
  unfolding insert_sorted
  insert_sorted-ne-nil x [] h = cc
  insert_sorted-ne-nil x (y ∷ ys) h = ground arith

  pub sort-eq-nil : (zs : List A) → sort less zs ≡ [] → zs ≡ []
  unfolding sort
  sort-eq-nil [] h = refl
  sort-eq-nil (x ∷ xs) h = absurd (insert_sorted-ne-nil x (sort less xs) h)

  -- The first element of the sorted list is least.
  pub sort-Minimal :
      IsOrder less → (zs : List A) (m : A) → head? (sort less zs) ≡ some m → Minimal less m zs
  unfolding sort
  sort-Minimal o [] m e = tt
  sort-Minimal o (x ∷ xs) m e =
      insert_sorted-Minimal o x m (sort less xs) xs (sort-Minimal o xs) (sort-eq-nil xs) e

module _ {ℓ κ} {A : Type ℓ} (less : A → A → Bool) (P : A → Type κ) where
  insert_sorted-All : (x : A) (ys : List A) → P x → All P ys → All P (insert_sorted less x ys)
  unfolding insert_sorted
  insert_sorted-All x [] p all = (p, tt)
  insert_sorted-All x (y ∷ ys) p all = elim (Bool-cases (less y x)) [
    | inl e ↦ rw (e, insert_sorted) (all.0, insert_sorted-All x ys p all.1)
    | inr e ↦ rw (e, insert_sorted) (p, all)
  ]

  -- The sorted list holds nothing else.
  pub sort-All : (zs : List A) → All P zs → All P (sort less zs)
  unfolding sort
  sort-All [] all = tt
  sort-All (x ∷ xs) all = insert_sorted-All x (sort less xs) all.0 (sort-All xs all.1)
