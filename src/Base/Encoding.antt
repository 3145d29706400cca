-- ===== src/Base/Encoding.antt =====
-- Decimal numbers and length-prefixed texts, with the laws that make them unambiguous.
use trpc_agent_service_platf.Base.{
  zero, inr, inl, ◌-◌, ◌%◌, ◌∙◌, true, refl, if◌then◌else◌, ap, Bool-cases, ◌+◌, ◌≢◌, sym, ltb,
  arith, ◌/◌, ◌*◌, ◌∷◌, ◌≡◌, suc, [], ◌<◌, ◌++◌, ℕ, List,
}
use trpc_agent_service_platf.Base.Text.{rune_len, byte_len, Text}
use trpc_agent_service_platf.Base.Sorting.{All}
use mathlib.Core.Path.{ap₂}

-- strconv.Itoa (and `%d`) of a number that is not negative, by fuel for its digits.
unfoldable pub digits_fuel : ℕ → ℕ → Text
digits_fuel zero n = []
digits_fuel (suc f) n =
    let rest = digits_fuel f (n / 10) in
    if ltb n 10 then (b'0' + n) ∷ [] else rest ++ (b'0' + n % 10) ∷ []

unfoldable pub itoa : ℕ → Text
unfolding digits_fuel
itoa n = digits_fuel (suc n) n

-- The number that the digits read so far stand for.
value_from : ℕ → Text → ℕ
value_from acc [] = acc
value_from acc (c ∷ s) = value_from (acc * 10 + (c - b'0')) s

value_from-append :
    (acc : ℕ) (s : Text) (c : ℕ) → value_from acc (s ++ c ∷ []) ≡ value_from acc s * 10 + (c - b'0')
unfolding value_from
value_from-append acc [] c = refl
value_from-append acc (d ∷ s) c = value_from-append (acc * 10 + (d - b'0')) s c

value_from-digits : (f n : ℕ) → n < f → value_from 0 (digits_fuel f n) ≡ n
unfolding value_from digits_fuel
value_from-digits zero n h = absurd (omega arith)
value_from-digits (suc f) n h = elim (Bool-cases (ltb n 10)) [
  | inl small ↦ rw small (omega arith)
  | inr large ↦ rw large (
      value_from-append 0 (digits_fuel f (n / 10)) (b'0' + n % 10)
      ∙ rw (value_from-digits f (n / 10) (ground arith)) (omega arith))
]

-- Two numbers with the same digits are the same.
pub itoa-injective : (m n : ℕ) → itoa m ≡ itoa n → m ≡ n
unfolding itoa
itoa-injective m n e =
    sym (value_from-digits (suc m) m (omega arith))
    ∙ ap (value_from 0) e
    ∙ value_from-digits (suc n) n (omega arith)

-- No character of the text is `c`.
abbrev pub Lacks : ℕ → Text → Type 0
Lacks c = All λ d. d ≢ c

Lacks-append : (c : ℕ) (s t : Text) → Lacks c s → Lacks c t → Lacks c (s ++ t)
Lacks-append c [] t h k = k
Lacks-append c (d ∷ s) t h k = (h.0, Lacks-append c s t h.1 k)

Lacks-digits : (f n : ℕ) → Lacks b':' (digits_fuel f n)
unfolding digits_fuel
Lacks-digits zero n = tt
Lacks-digits (suc f) n = elim (Bool-cases (ltb n 10)) [
  | inl small ↦ rw small ((λ e. absurd (small_digit n small e)), tt)
  | inr large ↦ rw large (
      Lacks-append b':' (digits_fuel f (n / 10)) _ (Lacks-digits f (n / 10))
        ((λ e. absurd (ground (arith, e))), tt))
]
  where
    small_digit : (k : ℕ) → ltb k 10 ≡ true → b'0' + k ≢ b':'
    small_digit k h e = ground (arith, e)

pub Lacks-itoa : (n : ℕ) → Lacks b':' (itoa n)
unfolding itoa
Lacks-itoa n = Lacks-digits (suc n) n

-- What stands before the first separator determines the two sides.
pub separated_injective :
    (c : ℕ) (s s' t t' : Text)
    → Lacks c s
    → Lacks c s'
    → s ++ c ∷ t ≡ s' ++ c ∷ t'
    → (s ≡ s') × (t ≡ t')
separated_injective c [] [] t t' h h' e = (refl, cc)
separated_injective c [] (d ∷ s') t t' h h' e = absurd (h'.0 (cc))
separated_injective c (d ∷ s) [] t t' h h' e = absurd (h.0 (cc))
separated_injective c (d ∷ s) (d' ∷ s') t t' h h' e =
    let rest = separated_injective c s s' t t' h.1 h'.1 (cc) in (ap₂ ◌∷◌ (cc) rest.0, rest.1)

-- Texts of one length in bytes that begin the same text are the same.
pub same_length_injective :
    (s s' t t' : Text) → byte_len s ≡ byte_len s' → s ++ t ≡ s' ++ t' → (s ≡ s') × (t ≡ t')
unfolding byte_len
same_length_injective [] [] t t' l e = (refl, e)
same_length_injective [] (d ∷ s') t t' l e = absurd (ground arith)
same_length_injective (d ∷ s) [] t t' l e = absurd (ground arith)
same_length_injective (d ∷ s) (d' ∷ s') t t' l e =
    let head : d ≡ d' = cc in
    let rest = same_length_injective s s' t t' (ground (arith, ap rune_len head)) (cc) in
    (ap₂ ◌∷◌ head rest.0, rest.1)

-- `<length in bytes>:<text>` for each part.
unfoldable pub encode_parts : List Text → Text
encode_parts [] = []
encode_parts (p ∷ ps) = itoa (byte_len p) ++ b':' ∷ (p ++ encode_parts ps)

-- A length-prefixed part can be split off in one way only.
pub prefixed_injective :
    (p q s t : Text)
    → itoa (byte_len p) ++ b':' ∷ (p ++ s) ≡ itoa (byte_len q) ++ b':' ∷ (q ++ t)
    → (p ≡ q) × (s ≡ t)
prefixed_injective p q s t e =
    let cut =
      separated_injective b':' (itoa (byte_len p)) (itoa (byte_len q)) (p ++ s) (q ++ t)
        (Lacks-itoa (byte_len p)) (Lacks-itoa (byte_len q)) e in
    same_length_injective p q s t (itoa-injective (byte_len p) (byte_len q) cut.0) cut.1

append-cons-ne-nil : (s : Text) (c : ℕ) (t : Text) → s ++ c ∷ t ≢ []
append-cons-ne-nil [] c t h = cc
append-cons-ne-nil (d ∷ s) c t h = cc

-- The encoding is injective: the list of parts can be read back.
pub encode_parts-injective : (ps qs : List Text) → encode_parts ps ≡ encode_parts qs → ps ≡ qs
unfolding encode_parts
encode_parts-injective [] [] e = refl
encode_parts-injective [] (q ∷ qs) e = absurd (append-cons-ne-nil _ _ _ (sym e))
encode_parts-injective (p ∷ ps) [] e = absurd (append-cons-ne-nil _ _ _ e)
encode_parts-injective (p ∷ ps) (q ∷ qs) e =
    let cut = prefixed_injective p q (encode_parts ps) (encode_parts qs) e in
    ap₂ ◌∷◌ cut.0 (encode_parts-injective ps qs cut.1)
