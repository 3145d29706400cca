-- ===== src/Agents/Apps.antt =====
-- trpcservice/agent/app.go: the application, its creation, validation and life cycle.
pub mod Creation
use trpc_agent_service_platf.Base.{
  nat_eq, list_eq, ◌++◌, ok, not, none, leb, ◌==◌, ◌>>=◌, ◌||◌, some, require, ◌>>◌, true, length,
  false, err, ◌&&◌, ℕ, Result, Option, Bool,
}
use trpc_agent_service_platf.Base.Contexts.{ContextError}
use trpc_agent_service_platf.Base.Text.{
  crockford, all_in, starts_above, byte_len, trim_space, trim_prefix, codes, Text,
}
use trpc_agent_service_platf.Base.Ints.{int_eq, pos, int_leb, ℤ}
use trpc_agent_service_platf.Base.Slugs.{lowered, is_slug}
use trpc_agent_service_platf.Base.Ulids.{ulid}

pub data Error : Type 0 where
  invalid not_found conflict duplicate_key app_disabled invalid_transition : Error
  immutable_revision random_failed encode_failed panicked : Error
  context_error : ContextError → Error

-- The named constants, and any other string.
pub data Status : Type 0 where
  draft active suspended disabled : Status
  unknown : Text → Status

pub record App : Type 0 where
  pub tenant_id : Text
  pub app_id : Text
  pub app_key : Text
  pub display_name : Text
  pub description : Text
  pub status : Status
  pub current_revision : Option ℤ
  pub canary_revision : Option ℤ
  pub version : ℤ
  pub created_at : ℕ
  pub updated_at : ℕ

pub record CreateInput : Type 0 where
  pub tenant_id : Text
  pub app_key : Text
  pub display_name : Text
  pub description : Text

unfoldable pub validate_crockford_id : Text → Text → Result Error Unit
validate_crockford_id id p = do
  let payload = trim_prefix id p
  require (not (payload == id) && byte_len payload == 26) invalid
  require (not (starts_above b'7' payload)) invalid
  require (all_in crockford payload) invalid

abbrev pub validate_tenant_id : Text → Result Error Unit
validate_tenant_id id = validate_crockford_id id (codes "t_")

abbrev pub validate_app_id : Text → Result Error Unit
validate_app_id id = validate_crockford_id id (codes "app_")

abbrev pub normalize_app_key : Text → Result Error Text
normalize_app_key key = do require (is_slug (lowered key)) invalid; ok (lowered key)

unfoldable pub validate_app_metadata : Text → Text → Result Error Unit
validate_app_metadata name description = do
  let n = length (trim_space name)
  require (leb 1 n && leb n 200) invalid
  require (leb (length (trim_space description)) 2000) invalid

-- The time in milliseconds and what the source of random bytes gives, if it does not fail.
unfoldable pub new_app_id : ℕ → Option ℕ → Result Error Text
new_app_id ms none = err random_failed
new_app_id ms (some random) = ok (codes "app_" ++ ulid ms random)

unfoldable pub new_app : ℕ → Option ℕ → ℕ → CreateInput → Result Error App
new_app ms random now input = do
  validate_tenant_id input.tenant_id
  key ← normalize_app_key input.app_key
  validate_app_metadata input.display_name input.description
  id ← new_app_id ms random
  ok (record {
    tenant_id = input.tenant_id;
    app_id = id;
    app_key = key;
    display_name = trim_space input.display_name;
    description = trim_space input.description;
    status = draft;
    current_revision = none;
    canary_revision = none;
    version = pos 1;
    created_at = now;
    updated_at = now;
  })

unfoldable pub validate_identity : App → Result Error Unit
validate_identity a = do
  validate_tenant_id a.tenant_id
  validate_app_id a.app_id
  key ← normalize_app_key a.app_key
  require (key == a.app_key) invalid
  validate_app_metadata a.display_name a.description
  require (a.display_name == trim_space a.display_name && a.description == trim_space a.description)
      invalid

abbrev pub is_none : Option ℤ → Bool
is_none none = true
is_none (some v) = false

-- The revision is set and at least one.
abbrev pub is_positive : Option ℤ → Bool
is_positive none = false
is_positive (some v) = int_leb (pos 1) v

-- The status against the current revision; validStatus is the last clause.
unfoldable pub status_allows : Status → Option ℤ → Bool
status_allows draft current = is_none current
status_allows active current = is_positive current
status_allows suspended current = is_positive current
status_allows disabled current = is_none current || is_positive current
status_allows (unknown s) current = false

unfoldable pub canary_allows : Option ℤ → Option ℤ → Bool
canary_allows none current = true
canary_allows (some c) none = false
canary_allows (some c) (some v) = int_leb (pos 1) c && not (c == v)

unfoldable pub validate_lifecycle : App → Result Error Unit
unfolding status_allows canary_allows
validate_lifecycle a = do
  require (status_allows a.status a.current_revision) invalid
  require (canary_allows a.canary_revision a.current_revision) invalid

unfoldable pub validate_app : App → Result Error Unit
unfolding validate_identity validate_lifecycle
validate_app a = do
  validate_identity a
  validate_lifecycle a
  require
      (int_leb (pos 1) a.version
        && not (a.created_at == 0)
        && not (a.updated_at == 0)
        && leb a.created_at a.updated_at)
      invalid

abbrev pub is_active : Status → Bool
is_active draft = false
is_active active = true
is_active suspended = false
is_active disabled = false
is_active (unknown s) = false

abbrev pub is_disabled : Status → Bool
is_disabled draft = false
is_disabled active = false
is_disabled suspended = false
is_disabled disabled = true
is_disabled (unknown s) = false

unfoldable pub can_accept_execution : App → Bool
can_accept_execution a = is_active a.status && is_positive a.current_revision

unfoldable pub can_transition_to : Status → Status → Bool
can_transition_to draft disabled = true
can_transition_to active suspended = true
can_transition_to active disabled = true
can_transition_to suspended active = true
can_transition_to suspended disabled = true
can_transition_to from next = false
