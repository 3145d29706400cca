-- ===== src/Base/TextOrder.antt =====
-- The order of texts is a strict total order.
use mathlib.Core.Path.{◌≡◌, refl}
use mathlib.Core.Bool.{true, false}
use mathlib.Core.List.{[], ◌∷◌}
use native.Mathlib.Omega.{arith}
use trpc_agent_service_platf.Base.Text.{Text, text_ltb}
use trpc_agent_service_platf.Base.Sorting.{IsOrder}

text_ltb_irrefl : (s : Text) → text_ltb s s ≡ false
unfolding text_ltb
text_ltb_irrefl [] = refl
text_ltb_irrefl (c ∷ s) = ground (arith, text_ltb_irrefl s)

text_ltb_asymm : (s t : Text) → text_ltb s t ≡ true → text_ltb t s ≡ false
unfolding text_ltb
text_ltb_asymm s [] h = cc
text_ltb_asymm [] (d ∷ t) h = refl
text_ltb_asymm (c ∷ s) (d ∷ t) h = ground (arith, text_ltb_asymm s t)

-- If t is not before s and u is not before t, u is not before s.
text_ltb_trans : (s t u : Text) → text_ltb t s ≡ false → text_ltb u t ≡ false → text_ltb u s ≡ false
unfolding text_ltb
text_ltb_trans [] t u h k = refl
text_ltb_trans (c ∷ s) [] u h k = cc
text_ltb_trans (c ∷ s) (d ∷ t) [] h k = cc
text_ltb_trans (c ∷ s) (d ∷ t) (e ∷ u) h k = ground (arith, text_ltb_trans s t u)

pub text_ltb-IsOrder : IsOrder text_ltb
text_ltb-IsOrder = record {
  asymm = text_ltb_asymm;
  trans = text_ltb_trans;
  irrefl = text_ltb_irrefl;
}
