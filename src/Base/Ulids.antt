-- ===== src/Base/Ulids.antt =====
-- Identifiers of 26 Crockford characters, as every package makes them: six bytes of the time in
-- milliseconds and ten random bytes, read as one number and written in base 32.
use trpc_agent_service_platf.Base.{
  leb, ◌∙◌, false, ltb, ap, inr, refl, inl, zero, eqb, Bool-cases, ◌+◌, eqb_iff, arith, ◌/◌, ◌*◌,
  ◌&&◌, ◌∷◌, ◌≡◌, true, suc, ◌^◌, [], Bool, ◌<◌, ◌%◌, ℕ,
}
use trpc_agent_service_platf.Base.Text.{
  starts_above, rune_len, contains_rune, byte_len, all_in, position, crockford, nth, Text,
}
use native.Mathlib.Nat.{pow-suc}

-- `value.Uint64()&31` as an index of the alphabet
unfoldable pub crockford_digit : ℕ → ℕ
crockford_digit n = nth n crockford

-- The loop from the last character to the first; `n` characters are left.
unfoldable pub encode_from : ℕ → ℕ → Text → Text
encode_from zero v s = s
encode_from (suc n) v s = encode_from n (v / 32) (crockford_digit (v % 32) ∷ s)

-- `data`, read as a big-endian number; `ms` and `random` are cut to the bytes that are there.
unfoldable pub ulid_value : ℕ → ℕ → ℕ
ulid_value ms random = ms % 2 ^ 48 * 2 ^ 80 + random % 2 ^ 80

unfoldable pub ulid : ℕ → ℕ → Text
ulid ms random = encode_from 26 (ulid_value ms random) []

-- What the characters read so far stand for, and the rest.
unfoldable pub decode_from : ℕ → Text → ℕ
decode_from acc [] = acc
decode_from acc (c ∷ s) = decode_from (acc * 32 + position c crockford) s

-- Every number below the bound passes the test.
all_below : (ℕ → Bool) → ℕ → Bool
all_below p zero = true
all_below p (suc n) = p n && all_below p n

all_below-at : (p : ℕ → Bool) (n i : ℕ) → all_below p n ≡ true → i < n → p i ≡ true
unfolding all_below
all_below-at p zero i h lt = absurd (omega (arith, lt))
all_below-at p (suc n) i h lt = elim (Bool-cases (eqb i n)) [
  | inl same ↦ ap p ((eqb_iff i n).0 same) ∙ ground (arith, h)
  | inr other ↦ all_below-at p n i (ground (arith, h)) (ground arith)
]

module _ (i : ℕ) (lt : i < 32) where
  digit-position : position (crockford_digit i) crockford ≡ i
  unfolding all_below crockford_digit
  digit-position =
      (eqb_iff _ i).0
        (all_below-at (λ k. eqb (position (crockford_digit k) crockford) k) 32 i refl lt)

  digit-contains_rune : contains_rune crockford (crockford_digit i) ≡ true
  unfolding all_below crockford_digit contains_rune
  digit-contains_rune = all_below-at (λ k. contains_rune crockford (crockford_digit k)) 32 i refl lt

  digit-rune_len : rune_len (crockford_digit i) ≡ 1
  unfolding all_below crockford_digit rune_len
  digit-rune_len =
      (eqb_iff _ 1).0 (all_below-at (λ k. eqb (rune_len (crockford_digit k)) 1) 32 i refl lt)

small_digit : (i : ℕ) → i < 8 → ltb b'7' (crockford_digit i) ≡ false
unfolding all_below crockford_digit
small_digit i lt =
    let holds = all_below-at (λ k. leb (crockford_digit k) b'7') 8 i refl lt in
    ground (arith, holds)

-- Reading what was written.
decode-encode :
    (n v : ℕ) (s : Text) → v < 32 ^ n → decode_from 0 (encode_from n v s) ≡ decode_from v s
unfolding encode_from decode_from
decode-encode zero v s lt = ap (λ k. decode_from k s) (omega (arith, lt))
decode-encode (suc n) v s lt =
    let here : v / 32 < 32 ^ n = omega (arith, lt, pow-suc 32 n) in
    decode-encode n (v / 32) (crockford_digit (v % 32) ∷ s) here
    ∙ ap (λ k. decode_from k s) (omega (arith, digit-position (v % 32) (omega arith)))

encode_from-byte_len : (n v : ℕ) (s : Text) → byte_len (encode_from n v s) ≡ n + byte_len s
unfolding encode_from byte_len
encode_from-byte_len zero v s = omega arith
encode_from-byte_len (suc n) v s =
    encode_from-byte_len n (v / 32) (crockford_digit (v % 32) ∷ s)
    ∙ omega (arith, digit-rune_len (v % 32) (omega arith))

encode_from-all_in :
    (n v : ℕ) (s : Text) → all_in crockford s ≡ true → all_in crockford (encode_from n v s) ≡ true
unfolding encode_from all_in
encode_from-all_in zero v s h = h
encode_from-all_in (suc n) v s h =
    encode_from-all_in n (v / 32) (crockford_digit (v % 32) ∷ s)
      (rw (digit-contains_rune (v % 32) (omega arith)) h)

encode_from-starts_above :
    (n v : ℕ) (s : Text) → v < 8 * 32 ^ n → starts_above b'7' (encode_from (suc n) v s) ≡ false
unfolding encode_from
encode_from-starts_above zero v s lt = small_digit (v % 32) (omega (arith, lt))
encode_from-starts_above (suc n) v s lt =
    encode_from-starts_above n (v / 32) (crockford_digit (v % 32) ∷ s)
      (omega (arith, lt, pow-suc 32 n))

pub ulid_value-lt : (ms random : ℕ) → ulid_value ms random < 2 ^ 128
unfolding ulid_value
ulid_value-lt ms random = omega arith

-- Both parts of an identifier can be read back: the number that its characters stand for has the
-- low 48 bits of the time in milliseconds above 80 bits, which are the low 80 bits of the random
-- number.
pub ulid-decodes :
    (ms random : ℕ)
    → (decode_from 0 (ulid ms random) / 2 ^ 80 ≡ ms % 2 ^ 48)
      × (decode_from 0 (ulid ms random) % 2 ^ 80 ≡ random % 2 ^ 80)
unfolding ulid decode_from ulid_value
ulid-decodes ms random =
    let read =
      decode-encode 26 (ulid_value ms random) [] (omega (arith, ulid_value-lt ms random)) in
    (omega (arith, read), omega (arith, read))

pub ulid-byte_len : (ms random : ℕ) → byte_len (ulid ms random) ≡ 26
unfolding ulid byte_len
ulid-byte_len ms random = encode_from-byte_len 26 (ulid_value ms random) []

pub ulid-all_in : (ms random : ℕ) → all_in crockford (ulid ms random) ≡ true
unfolding ulid all_in
ulid-all_in ms random = encode_from-all_in 26 (ulid_value ms random) [] refl

-- Two bits of the first character are padding.
pub ulid-starts_above : (ms random : ℕ) → starts_above b'7' (ulid ms random) ≡ false
unfolding ulid
ulid-starts_above ms random =
    encode_from-starts_above 25 (ulid_value ms random) [] (omega (arith, ulid_value-lt ms random))
