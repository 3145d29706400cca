-- ===== src/Base/Text.antt =====
-- Go strings as lists of code points (runes). Texts that are not valid UTF-8 are outside the model.
use Prim.Native.Nat.{ℕ, ◌+◌}
use Prim.Native.Char.{code}
use Prim.Native.String.{String}
use mathlib.Core.Bool.{Bool, true, false, ◌&&◌, ◌||◌}
use mathlib.Core.List.{List, [], ◌∷◌, reverse, map}
use trpc_agent_service_platf.Base.Tests.{ltb, leb, eqb, if◌then◌else◌}
use trpc_agent_service_platf.Base.Keys.{list_eq, nat_eq}
use trpc_agent_service_platf.Base.{zero, suc}

abbrev pub Text : Type 0
Text = List ℕ

abbrev pub codes : String → Text
codes String.[] = []
codes (String.◌∷◌ c s) = code c ∷ codes s

-- `s == ""`
abbrev pub is_empty : Text → Bool
is_empty [] = true
is_empty (c ∷ s) = false

-- unicode.IsSpace
abbrev pub is_space : ℕ → Bool
is_space c =
    (leb 0x09 c && leb c 0x0d)
    || eqb c 0x20
    || eqb c 0x85
    || eqb c 0xa0
    || eqb c 0x1680
    || (leb 0x2000 c && leb c 0x200a)
    || eqb c 0x2028
    || eqb c 0x2029
    || eqb c 0x202f
    || eqb c 0x205f
    || eqb c 0x3000

unfoldable pub trim_left : Text → Text
trim_left [] = []
trim_left (c ∷ s) = if is_space c then trim_left s else c ∷ s

-- strings.TrimSpace
unfoldable pub trim_space : Text → Text
unfolding trim_left
trim_space s = reverse (trim_left (reverse (trim_left s)))

-- unicode.ToLower, exact where the result is ASCII (U+0130 and U+212A are the only other runes
-- whose lower case is): any other rune stays what it is, outside ASCII.
unfoldable pub lower_rune : ℕ → ℕ
lower_rune c =
    if leb b'A' c && leb c b'Z'
    then c + 32
    else if eqb c 0x130
    then b'i'
    else if eqb c 0x212a
    then b'k'
    else c

-- strings.ToLower
abbrev pub to_lower : Text → Text
to_lower = map lower_rune

-- The bytes of one rune in UTF-8.
unfoldable pub rune_len : ℕ → ℕ
rune_len c = if ltb c 0x80 then 1 else if ltb c 0x800 then 2 else if ltb c 0x10000 then 3 else 4

-- `len(s)`: bytes.
unfoldable pub byte_len : Text → ℕ
unfolding rune_len
byte_len [] = 0
byte_len (c ∷ s) = rune_len c + byte_len s

-- strings.ContainsRune
unfoldable pub contains_rune : Text → ℕ → Bool
contains_rune [] c = false
contains_rune (d ∷ s) c = eqb d c || contains_rune s c

-- strings.HasPrefix
unfoldable pub has_prefix : Text → Text → Bool
has_prefix s [] = true
has_prefix [] (p ∷ ps) = false
has_prefix (c ∷ s) (p ∷ ps) = eqb c p && has_prefix s ps

abbrev drop_prefix : Text → Text → Text
drop_prefix s [] = s
drop_prefix [] (p ∷ ps) = []
drop_prefix (c ∷ s) (p ∷ ps) = drop_prefix s ps

-- strings.TrimPrefix
unfoldable pub trim_prefix : Text → Text → Text
unfolding has_prefix
trim_prefix s p = if has_prefix s p then drop_prefix s p else s

-- `s < t`, by bytes; on valid UTF-8 that is the order of the code points.
unfoldable pub text_ltb : Text → Text → Bool
text_ltb s [] = false
text_ltb [] (d ∷ t) = true
text_ltb (c ∷ s) (d ∷ t) = ltb c d || (eqb c d && text_ltb s t)

-- Every rune of the second text occurs in the first.
unfoldable pub all_in : Text → Text → Bool
unfolding contains_rune
all_in alphabet [] = true
all_in alphabet (c ∷ s) = contains_rune alphabet c && all_in alphabet s

abbrev pub crockford : Text
crockford = codes "0123456789ABCDEFGHJKMNPQRSTVWXYZ"

-- `s[n:]` after n bytes that are ASCII.
unfoldable pub drop : ℕ → Text → Text
drop zero s = s
drop (suc n) [] = []
drop (suc n) (c ∷ s) = drop n s

-- `s[0] > limit`, as bytes, where the limit is ASCII.
abbrev pub starts_above : ℕ → Text → Bool
starts_above limit [] = false
starts_above limit (c ∷ s) = ltb limit c

-- `s[n]`, zero where the index is out of range.
abbrev pub nth : ℕ → Text → ℕ
nth n [] = 0
nth zero (c ∷ s) = c
nth (suc n) (c ∷ s) = nth n s

-- The index of the first such rune.
abbrev pub position : ℕ → Text → ℕ
position c [] = 0
position c (d ∷ s) = let rest = position c s in if eqb d c then 0 else suc rest
