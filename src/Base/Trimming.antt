-- ===== src/Base/Trimming.antt =====
-- Laws of strings.TrimSpace.
use mathlib.Core.List.{reverse-cons, reverse, reverse-append, reverse-reverse}
use trpc_agent_service_platf.Base.Text.{is_space, trim_space, trim_left, Text}
use trpc_agent_service_platf.Base.{
  subst, ℕ, inr, ap, ◌∙◌, refl, inl, false, sym, [], Bool-cases, ◌∷◌, ◌≡◌, ◌++◌,
}
use trpc_agent_service_platf.Base.Sorting.{All}

-- The text does not begin with a space.
abbrev StartsSolid : Text → Type 0
StartsSolid [] = Unit
StartsSolid (c ∷ s) = is_space c ≡ false

trim_left-solid : (s : Text) → StartsSolid s → trim_left s ≡ s
unfolding trim_left
trim_left-solid [] h = refl
trim_left-solid (c ∷ s) h = rw h refl

trim_left-StartsSolid : (s : Text) → StartsSolid (trim_left s)
unfolding trim_left
trim_left-StartsSolid [] = tt
trim_left-StartsSolid (c ∷ s) = elim (Bool-cases (is_space c)) [
  | inl space ↦ rw space (trim_left-StartsSolid s)
  | inr solid ↦ rw solid solid
]

-- What is cut off stands before.
trim_left-suffix : (s : Text) → (p : Text) × (s ≡ p ++ trim_left s)
unfolding trim_left
trim_left-suffix [] = ([], refl)
trim_left-suffix (c ∷ s) = elim (Bool-cases (is_space c)) [
  | inl space ↦ let (p, cut) = trim_left-suffix s in (c ∷ p, rw space (ap (λ t. c ∷ t) cut))
  | inr solid ↦ ([], rw solid refl)
]

StartsSolid-prefix : (s t : Text) → StartsSolid (s ++ t) → StartsSolid s
StartsSolid-prefix [] t h = tt
StartsSolid-prefix (c ∷ s) t h = h

-- Trimming is done once.
pub trim_space-trim_space : (s : Text) → trim_space (trim_space s) ≡ trim_space s
unfolding trim_space
trim_space-trim_space s =
    let u = trim_left s in
    let w = trim_left (reverse u) in
    let (p, cut) = trim_left-suffix (reverse u) in
    let back : u ≡ reverse w ++ reverse p =
      sym (reverse-reverse u) ∙ ap reverse cut ∙ reverse-append p w in
    let solid : StartsSolid (reverse w) =
      StartsSolid-prefix (reverse w) (reverse p)
        (subst StartsSolid back (trim_left-StartsSolid s)) in
    ap (λ x. reverse (trim_left (reverse x))) (trim_left-solid (reverse w) solid)
    ∙ ap (λ x. reverse (trim_left x)) (reverse-reverse w)
    ∙ ap reverse (trim_left-solid w (trim_left-StartsSolid (reverse u)))

-- A text whose first and last rune are no spaces stays as it is.
pub trim_space-solid : (s : Text) → All (λ c. is_space c ≡ false) s → trim_space s ≡ s
unfolding trim_space
trim_space-solid s h =
    ap (λ x. reverse (trim_left (reverse x))) (trim_left-solid s (All-StartsSolid s h))
    ∙ ap reverse (trim_left-solid (reverse s) (All-StartsSolid (reverse s) (All-reverse s h)))
    ∙ reverse-reverse s
  where
    All-StartsSolid : (t : Text) → All (λ c. is_space c ≡ false) t → StartsSolid t
    All-StartsSolid [] k = tt
    All-StartsSolid (c ∷ t) k = k.0

    All-snoc :
        (t : Text) (c : ℕ)
        → All (λ d. is_space d ≡ false) t
        → is_space c ≡ false
        → All (λ d. is_space d ≡ false) (t ++ c ∷ [])
    All-snoc [] c k l = (l, tt)
    All-snoc (d ∷ t) c k l = (k.0, All-snoc t c k.1 l)

    All-reverse :
        (t : Text) → All (λ c. is_space c ≡ false) t → All (λ c. is_space c ≡ false) (reverse t)
    All-reverse [] k = tt
    All-reverse (c ∷ t) k =
        subst (All λ d. is_space d ≡ false) (sym (reverse-cons c t))
          (All-snoc (reverse t) c (All-reverse t k.1) k.0)
