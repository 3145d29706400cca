-- ===== src/Base/Slugs.antt =====
-- Keys that match [a-z][a-z0-9-]{1,63}, as the packages tenant, agent and channels normalise them.
use trpc_agent_service_platf.Base.Text.{is_space, byte_len, trim_space, to_lower, lower_rune, Text}
use trpc_agent_service_platf.Base.{
  ◌∙◌, refl, eqb, ap, [], ◌∷◌, arith, ◌&&◌, ◌||◌, true, leb, false, ◌≡◌, Bool, ℕ,
}
use trpc_agent_service_platf.Base.Sorting.{All}
use mathlib.Core.Path.{ap₂}
use trpc_agent_service_platf.Base.Trimming.{trim_space-solid}

abbrev pub is_letter : ℕ → Bool
is_letter c = leb b'a' c && leb c b'z'

abbrev is_slug_rune : ℕ → Bool
is_slug_rune c = is_letter c || (leb b'0' c && leb c b'9') || eqb c b'-'

unfoldable pub are_slug_runes : Text → Bool
are_slug_runes [] = true
are_slug_runes (c ∷ s) = is_slug_rune c && are_slug_runes s

abbrev starts_with_letter : Text → Bool
starts_with_letter [] = false
starts_with_letter (c ∷ s) = is_letter c

-- The tests on the key that is trimmed and in lower case.
unfoldable pub is_slug : Text → Bool
is_slug key =
    leb 2 (byte_len key) && leb (byte_len key) 64 && starts_with_letter key && are_slug_runes key

unfoldable pub lowered : Text → Text
lowered key = to_lower (trim_space key)

slug-All : (s : Text) → are_slug_runes s ≡ true → All (λ c. is_space c ≡ false) s
unfolding are_slug_runes
slug-All [] h = tt
slug-All (c ∷ s) h = (ground (arith, h), slug-All s (ground (arith, h)))

slug-lower : (s : Text) → are_slug_runes s ≡ true → to_lower s ≡ s
unfolding are_slug_runes lower_rune
slug-lower [] h = refl
slug-lower (c ∷ s) h = ap₂ ◌∷◌ (ground (arith, h)) (slug-lower s (ground (arith, h)))

-- A key that is a slug is its own normal form.
pub lowered-slug : (key : Text) → is_slug key ≡ true → lowered key ≡ key
unfolding lowered is_slug
lowered-slug key h =
    let runes : are_slug_runes key ≡ true = ground (arith, h) in
    ap to_lower (trim_space-solid key (slug-All key runes)) ∙ slug-lower key runes
