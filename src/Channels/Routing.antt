-- ===== src/Channels/Routing.antt =====
-- trpcservice/channels/routing.go and channels.go: the sealed routing target and the identity that
-- a Runner gets from it. A pointer to a proof that only the package can make is an Option.
use trpc_agent_service_platf.Tenant.Identity.{
  new_runner_identity, RunnerIdentity, Error as TenantError,
}
use trpc_agent_service_platf.Base.{
  ok, length, wrap_err, nat_eq, list_eq, leb, [], ◌>>=◌, ◌∷◌, ◌||◌, not, err, ◌&&◌, ◌>>◌, require,
  ltb, if◌then◌else◌, false, ◌==◌, ℕ, Result, Option, Bool, none, some,
}
use trpc_agent_service_platf.Base.Text.{
  crockford, all_in, to_lower, starts_above, is_empty, trim_prefix, codes, byte_len, trim_space,
  Text,
}
use trpc_agent_service_platf.Base.Encoding.{encode_parts}
use trpc_agent_service_platf.Base.Ints.{int_eq, pos, int_leb, ℤ}
pub mod Isolation
pub mod Examples

pub data Error : Type 0 where
  invalid verification_failed : Error
  tenant_error : TenantError → Error

abbrev pub wecom : Text
wecom = codes "wecom"

abbrev pub telegram : Text
telegram = codes "telegram"

abbrev pub validate_channel : Text → Result Error Unit
validate_channel c = require (c == wecom || c == telegram) invalid

-- unicode.IsControl
abbrev pub is_control : ℕ → Bool
is_control c = ltb c 0x20 || (leb 0x7f c && leb c 0x9f)

unfoldable pub has_control : Text → Bool
has_control [] = false
has_control (c ∷ s) = is_control c || has_control s

unfoldable pub validate_crockford_id : Text → Text → Result Error Unit
validate_crockford_id id p = do
  let payload = trim_prefix id p
  require (not (payload == id) && byte_len payload == 26) invalid
  require (not (starts_above b'7' payload)) invalid
  require (all_in crockford payload) invalid

abbrev pub validate_tenant_id : Text → Result Error Unit
validate_tenant_id id = validate_crockford_id id (codes "t_")

abbrev pub validate_app_id : Text → Result Error Unit
validate_app_id id = validate_crockford_id id (codes "app_")

abbrev pub validate_binding_id : Text → Result Error Unit
validate_binding_id id = validate_crockford_id id (codes "cb_")

unfoldable pub normalize_required_value : Text → ℕ → Result Error Text
unfolding trim_space has_control
normalize_required_value value limit = do
  let trimmed = trim_space value
  require (not (is_empty trimmed) && leb (length trimmed) limit && not (has_control trimmed))
      invalid
  ok trimmed

unfoldable pub valid_hex_digest : Text → Bool
valid_hex_digest value =
    byte_len value == 64 && to_lower value == value && all_in (codes "0123456789abcdef") value

-- The public fields that VerifiedBinding and RoutingTarget share.
pub record Route : Type 0 where
  pub tenant_id : Text
  pub binding_id : Text
  pub binding_version : ℤ
  pub app_id : Text
  pub channel : Text
  pub provider_account_id : Text
  pub config_digest : Text

-- `proof` retains the fields as they were verified.
pub record VerifiedBinding : Type 0 where
  pub fields : Route
  pub proof : Option Route

pub record RoutingTarget : Type 0 where
  pub fields : Route
  pub capability : Option VerifiedBinding

unfoldable pub same_verified_binding_fields : Route → Route → Bool
same_verified_binding_fields l r =
    l.tenant_id == r.tenant_id
    && l.binding_id == r.binding_id
    && l.binding_version == r.binding_version
    && l.app_id == r.app_id
    && l.channel == r.channel
    && l.provider_account_id == r.provider_account_id
    && l.config_digest == r.config_digest

-- The checks of VerifiedBinding.Validate after those of the proof.
unfoldable pub validate_route : Route → Result Error Unit
validate_route v = do
  validate_tenant_id v.tenant_id
  validate_binding_id v.binding_id
  require (int_leb (pos 1) v.binding_version) invalid
  validate_app_id v.app_id
  validate_channel v.channel
  account ← normalize_required_value v.provider_account_id 256
  require (account == v.provider_account_id && valid_hex_digest v.config_digest) invalid

-- The check of a proof against the public fields.
unfoldable pub validate_proof : Option Route → Route → Result Error Unit
validate_proof none fields = err verification_failed
validate_proof (some sealed) fields = do
  require (same_verified_binding_fields sealed fields) invalid
  validate_route fields

abbrev pub validate_verified : VerifiedBinding → Result Error Unit
validate_verified v = validate_proof v.proof v.fields

-- The check of a capability against the public fields.
unfoldable pub validate_capability : Option VerifiedBinding → Route → Result Error Unit
validate_capability none fields = err verification_failed
validate_capability (some verified) fields = do
  require (same_verified_binding_fields fields verified.fields) verification_failed
  validate_verified verified

abbrev pub validate_target : RoutingTarget → Result Error Unit
validate_target target = validate_capability target.capability target.fields

abbrev pub direct : Text
direct = codes "direct"

abbrev pub group : Text
group = codes "group"

pub record IdentityInput : Type 0 where
  pub external_user_id : Text
  pub kind : Text
  pub external_peer_id : Text
  pub external_chat_id : Text
  pub external_thread_id : Text

unfoldable pub required_external_id : Text → Result Error Text
unfolding has_control
required_external_id value = do
  require (not (is_empty value) && not (has_control value) && leb (length value) 1024) invalid
  ok value

-- The switch over the conversation kind.
unfoldable pub conversation : IdentityInput → Result Error Text
unfolding required_external_id
conversation input =
    if input.kind == direct
    then required_external_id input.external_peer_id
    else if input.kind == group
    then required_external_id input.external_chat_id
    else err invalid

unfoldable pub scoped_user : Route → Text → Text
scoped_user target user = encode_parts (target.channel ∷ target.binding_id ∷ user ∷ [])

unfoldable pub scoped_session : Route → IdentityInput → Text → Text
scoped_session target input c =
    encode_parts
      (target.channel ∷ target.binding_id ∷ input.kind ∷ c ∷ input.external_thread_id ∷ [])

unfoldable pub runner_identity : RoutingTarget → IdentityInput → Result Error RunnerIdentity
unfolding conversation scoped_user scoped_session
runner_identity target input = do
  validate_target target
  user ← required_external_id input.external_user_id
  c ← conversation input
  require (not (has_control input.external_thread_id)) invalid
  let route = target.fields
  wrap_err tenant_error
      (new_runner_identity route.tenant_id (scoped_user route user) (scoped_session route input c))
