-- ===== src/Tenant/Roots.antt =====
-- trpcservice/tenant/tenant.go and runtime.go: the tenant, its creation and its validation.
pub mod Soundness
pub mod Creation
use trpc_agent_service_platf.Tenant.Identity.{validate_tenant_id, Error, invalid, random_failed}
use trpc_agent_service_platf.Base.{
  refl, ap, subst, ok-injective, require-holds, >>=-eq-ok, ◌≡◌, nat_eq, list_eq, ◌&&◌, ◌++◌, none,
  ok, not, ◌==◌, true, some, require, ◌>>◌, ◌>>=◌, false, err, ◌<◌, ℕ, Result, Option, Bool,
}
use trpc_agent_service_platf.Base.Text.{rune_len, codes, drop, has_prefix, byte_len, Text}
use trpc_agent_service_platf.Tenant.Settings.{
  trimmed, with_defaults, validate_configuration, Configuration,
}
use trpc_agent_service_platf.Base.Ints.{pos, int_leb, ℤ}
use trpc_agent_service_platf.Base.Slugs.{lowered, is_slug}
use trpc_agent_service_platf.Base.Ulids.{ulid}

-- The zero value of the string, the named constants, and any other string.
pub data Status : Type 0 where
  unset active suspended disabled : Status
  unknown : Text → Status

pub record Tenant : Type 0 where
  pub tenant_id : Text
  pub tenant_key : Text
  pub status : Status
  pub configuration : Configuration
  pub version : ℤ
  pub created_at : ℕ
  pub updated_at : ℕ

pub record CreateInput : Type 0 where
  pub tenant_key : Text
  pub status : Status
  pub configuration : Configuration

abbrev pub normalize_tenant_key : Text → Result Error Text
normalize_tenant_key key = do require (is_slug (lowered key)) invalid; ok (lowered key)

abbrev pub is_status : Status → Bool
is_status unset = false
is_status active = true
is_status suspended = true
is_status disabled = true
is_status (unknown s) = false

unfoldable pub validate : Tenant → Result Error Unit
validate t = do
  validate_tenant_id t.tenant_id
  key ← normalize_tenant_key t.tenant_key
  require (key == t.tenant_key) invalid
  require (is_status t.status) invalid
  validate_configuration t.configuration
  require (int_leb (pos 1) t.version && not (t.created_at == 0) && not (t.updated_at == 0)) invalid

-- The time in milliseconds and what the source of random bytes gives, if it does not fail.
unfoldable pub new_tenant_id : ℕ → Option ℕ → Result Error Text
new_tenant_id ms none = err random_failed
new_tenant_id ms (some random) = ok (codes "t_" ++ ulid ms random)

abbrev default_status : Status → Status
default_status unset = active
default_status active = active
default_status suspended = suspended
default_status disabled = disabled
default_status (unknown s) = unknown s

abbrev pub is_disabled : Status → Bool
is_disabled unset = false
is_disabled active = false
is_disabled suspended = false
is_disabled disabled = true
is_disabled (unknown s) = false

-- The identifier's clock and random bytes, then the clock of the timestamps.
unfoldable pub new_tenant : ℕ → Option ℕ → ℕ → CreateInput → Result Error Tenant
new_tenant ms random now input = do
  key ← normalize_tenant_key input.tenant_key
  id ← new_tenant_id ms random
  let status = default_status input.status
  require (is_status status) invalid
  require (not (is_disabled status)) invalid
  let configuration = with_defaults input.configuration
  validate_configuration configuration
  ok (record {
    tenant_id = id;
    tenant_key = key;
    status = status;
    configuration = trimmed configuration;
    version = pos 1;
    created_at = now;
    updated_at = now;
  })

abbrev pub can_accept_execution : Tenant → Bool
can_accept_execution t = is_active t.status
  where
    is_active : Status → Bool
    is_active unset = false
    is_active active = true
    is_active suspended = false
    is_active disabled = false
    is_active (unknown s) = false

-- A nil tenant is none; the snapshot holds a copy.
unfoldable pub new_configuration_snapshot : Option Tenant → Result Error Tenant
unfolding validate
new_configuration_snapshot none = err invalid
new_configuration_snapshot (some t) = do validate t; require (can_accept_execution t) invalid; ok t

-- The value that is put into a context; the zero snapshot has no tenant.
unfoldable pub with_configuration_snapshot : Option Tenant → Option Tenant
with_configuration_snapshot none = none
with_configuration_snapshot (some t) = some t

-- The snapshot that is read back from the context's value, if there is one.
unfoldable pub configuration_snapshot_from_context : Option (Option Tenant) → Option Tenant
configuration_snapshot_from_context none = none
configuration_snapshot_from_context (some none) = none
configuration_snapshot_from_context (some (some t)) = some t

-- The snapshot of a tenant that is read back passes Validate and can accept executions, and it is
-- the one that was made.
pub new_configuration_snapshot-from_context :
    (o : Option Tenant) (t : Tenant)
    → new_configuration_snapshot o ≡ ok t
    → (o ≡ some t)
      × (validate t ≡ ok tt)
      × (can_accept_execution t ≡ true)
      × (configuration_snapshot_from_context (some (with_configuration_snapshot (some t))) ≡ some t)
unfolding new_configuration_snapshot with_configuration_snapshot configuration_snapshot_from_context
new_configuration_snapshot-from_context none t h = cc
new_configuration_snapshot-from_context (some u) t h =
    let (_, valid, h₁) = >>=-eq-ok (validate u) _ h in
    let (_, open_now, last) = >>=-eq-ok (require (can_accept_execution u) invalid) _ h₁ in
    let same : u ≡ t = ok-injective last in
    (
      ap some same,
      subst (λ x. validate x ≡ ok tt) same valid,
      subst (λ x. can_accept_execution x ≡ true) same (require-holds _ invalid open_now),
      refl,
    )
