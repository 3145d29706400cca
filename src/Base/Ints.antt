-- ===== src/Base/Ints.antt =====
-- Go's signed 64-bit integers. `negsuc n` is -(n + 1); a sum leaves the range by wrapping round.
use Prim.Native.Nat.{◌≤◌, ℕ, ◌+◌, ◌-◌}
use mathlib.Core.Path.{◌≡◌}
use mathlib.Core.Logic.{◌↔◌}
use mathlib.Core.Bool.{Bool, true, false}
use native.Mathlib.Omega.{arith}
use trpc_agent_service_platf.Base.Tests.{ltb, leb, eqb, if◌then◌else◌}
use trpc_agent_service_platf.Base.Keys.{Eq}

pub data ℤ : Type 0 where
  pos : ℕ → ℤ
  negsuc : ℕ → ℤ

-- 2 ^ 63 - 1
abbrev pub max_int64 : ℕ
max_int64 = 9223372036854775807

-- `x + 1` on int64 (and on int, which has 64 bits on the platforms that the service is built for).
abbrev pub incr : ℤ → ℤ
incr (pos n) = if eqb n max_int64 then negsuc max_int64 else pos (n + 1)
incr (negsuc n) = if eqb n 0 then pos 0 else negsuc (n - 1)

abbrev pub int_eqb : ℤ → ℤ → Bool
int_eqb (pos m) (pos n) = eqb m n
int_eqb (negsuc m) (negsuc n) = eqb m n
int_eqb (pos m) (negsuc n) = false
int_eqb (negsuc m) (pos n) = false

pub int_eqb_iff : (a b : ℤ) → (int_eqb a b ≡ true) ↔ (a ≡ b)
int_eqb_iff (pos m) (pos n) = ground arith
int_eqb_iff (negsuc m) (negsuc n) = ground arith
int_eqb_iff (pos m) (negsuc n) = (λ h. cc, λ h. cc)
int_eqb_iff (negsuc m) (pos n) = (λ h. cc, λ h. cc)

instance abbrev pub int_eq : Eq ℤ
int_eq = record { beq = int_eqb; beq_iff = int_eqb_iff }

abbrev pub int_ltb : ℤ → ℤ → Bool
int_ltb (pos m) (pos n) = ltb m n
int_ltb (negsuc m) (negsuc n) = ltb n m
int_ltb (pos m) (negsuc n) = false
int_ltb (negsuc m) (pos n) = true

abbrev pub int_leb : ℤ → ℤ → Bool
int_leb (pos m) (pos n) = leb m n
int_leb (negsuc m) (negsuc n) = leb n m
int_leb (pos m) (negsuc n) = false
int_leb (negsuc m) (pos n) = true

-- `x < 0`
abbrev pub is_neg : ℤ → Bool
is_neg (pos n) = false
is_neg (negsuc n) = true

-- The values that fit into 64 bits.
abbrev pub IsInt64 : ℤ → Type 0
IsInt64 (pos n) = n ≤ max_int64
IsInt64 (negsuc n) = n ≤ max_int64

-- A time is a count of nanoseconds since Go's zero time, which is 0; a duration has a sign.
abbrev pub add_duration : ℕ → ℤ → ℕ
add_duration t (pos d) = t + d
add_duration t (negsuc d) = t - (d + 1)

pub pos-injective : {a b : ℕ} → pos a ≡ pos b → a ≡ b
pos-injective h = cc
