-- ===== src/Base/Floats.antt =====
-- A float64 that is only compared: NaN, an infinity, or a sign, a mantissa and a power of two.
use trpc_agent_service_platf.Base.{
  ◌||◌, bool_eqb, ◌+◌, ◌^◌, ◌*◌, ltb, true, not, eqb, ◌&&◌, false, ℕ, Bool,
}
use trpc_agent_service_platf.Base.Ints.{negsuc, pos, ℤ}

pub data Float64 : Type 0 where
  nan : Float64
  infinite : Bool → Float64
  finite : Bool → ℕ → ℤ → Float64

-- `m * 2 ^ e > k`
abbrev above : ℕ → ℤ → ℕ → Bool
above m (pos e) k = ltb k (m * 2 ^ e)
above m (negsuc e) k = ltb (k * 2 ^ (e + 1)) m

abbrev pub is_finite : Float64 → Bool
is_finite nan = false
is_finite (infinite negative) = false
is_finite (finite negative m e) = true

-- `x < 0`; minus zero is not.
abbrev pub float_is_neg : Float64 → Bool
float_is_neg nan = false
float_is_neg (infinite negative) = negative
float_is_neg (finite negative m e) = negative && ltb 0 m

-- `x > k`
abbrev pub float_above : Float64 → ℕ → Bool
float_above nan k = false
float_above (infinite negative) k = not negative
float_above (finite negative m e) k = not negative && above m e k

-- `x == 0`
abbrev pub float_is_zero : Float64 → Bool
float_is_zero nan = false
float_is_zero (infinite negative) = false
float_is_zero (finite negative m e) = eqb m 0

-- The values at the common power of two.
abbrev scaled_eq : ℕ → ℤ → ℕ → ℤ → Bool
scaled_eq m (pos d) n (pos e) = eqb (m * 2 ^ d) (n * 2 ^ e)
scaled_eq m (pos d) n (negsuc e) = eqb (m * 2 ^ d * 2 ^ (e + 1)) n
scaled_eq m (negsuc d) n (pos e) = eqb m (n * 2 ^ e * 2 ^ (d + 1))
scaled_eq m (negsuc d) n (negsuc e) = eqb (m * 2 ^ (e + 1)) (n * 2 ^ (d + 1))

-- `x == y`; NaN differs from itself, and the zeros are equal.
abbrev pub float_eq : Float64 → Float64 → Bool
float_eq nan y = false
float_eq (infinite s) nan = false
float_eq (infinite s) (infinite t) = bool_eqb s t
float_eq (infinite s) (finite t n e) = false
float_eq (finite s m d) nan = false
float_eq (finite s m d) (infinite t) = false
float_eq (finite s m d) (finite t n e) = (eqb m 0 && eqb n 0) || (bool_eqb s t && scaled_eq m d n e)
