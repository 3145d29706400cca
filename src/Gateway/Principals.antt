-- ===== src/Gateway/Principals.antt =====
-- trpcservice/gateway/gateway.go and auth.go: who a request comes from. A proof that only the
-- package can make is an Option.
pub mod Validity
pub mod Examples
use trpc_agent_service_platf.Gateway.Messages.{
  validate_scoped_id, validate_external_id, Error, invalid, unauthenticated,
}
use trpc_agent_service_platf.Base.{
  require, none, some, ok, nat_eq, list_eq, ◌&&◌, ◌>>◌, wrap_err, if◌then◌else◌, err, [], ◌==◌,
  Result, Option, Bool,
}
use trpc_agent_service_platf.Channels.Routing.{validate_target, RoutingTarget}
use trpc_agent_service_platf.Base.Text.{codes, Text}
use trpc_agent_service_platf.Base.Ints.{pos}

pub record ApiIdentity : Type 0 where
  pub tenant_id : Text
  pub app_id : Text
  pub subject_id : Text

pub record AuthenticatedApi : Type 0 where
  pub identity : ApiIdentity
  pub proof : Option ApiIdentity

abbrev pub same_identity : ApiIdentity → ApiIdentity → Bool
same_identity l r =
    l.tenant_id == r.tenant_id && l.app_id == r.app_id && l.subject_id == r.subject_id

unfoldable pub validate_api_proof : ApiIdentity → Result Error Unit
unfolding validate_external_id
validate_api_proof proof = do
  validate_scoped_id proof.tenant_id (codes "t_")
  validate_scoped_id proof.app_id (codes "app_")
  validate_external_id proof.subject_id

unfoldable pub new_authenticated_api : ApiIdentity → Result Error AuthenticatedApi
new_authenticated_api identity = do
  validate_api_proof identity
  ok (record { identity = identity; proof = some identity })

-- AuthenticatedAPI.Validate, by its proof
unfoldable pub validate_api : Option ApiIdentity → ApiIdentity → Result Error Unit
validate_api none identity = err unauthenticated
validate_api (some proof) identity = do
  require (same_identity identity proof) unauthenticated
  validate_api_proof proof

abbrev pub principal_api : Text
principal_api = codes "api"

abbrev pub principal_channel : Text
principal_channel = codes "channel"

pub record Principal : Type 0 where
  pub kind : Text
  pub tenant_id : Text
  pub app_id : Text
  pub subject_id : Text
  pub api_proof : Option ApiIdentity
  pub routing_target : RoutingTarget

-- The zero RoutingTarget
abbrev pub zero_target : RoutingTarget
zero_target = record {
  fields = record {
    tenant_id = [];
    binding_id = [];
    binding_version = pos 0;
    app_id = [];
    channel = [];
    provider_account_id = [];
    config_digest = [];
  };
  capability = none;
}

-- An error of another kind, wrapped in a sentinel of this package.
abbrev pub wrapped_in : {E : Type 0} {A : Type 0} → Error → Result E A → Result Error A
wrapped_in e = wrap_err (λ _. e)

abbrev pub api_principal : AuthenticatedApi → Principal
api_principal authenticated = record {
  kind = principal_api;
  tenant_id = authenticated.identity.tenant_id;
  app_id = authenticated.identity.app_id;
  subject_id = authenticated.identity.subject_id;
  api_proof = authenticated.proof;
  routing_target = zero_target;
}

unfoldable pub new_api_principal : AuthenticatedApi → Result Error Principal
unfolding validate_api
new_api_principal authenticated = do
  wrapped_in unauthenticated (validate_api authenticated.proof authenticated.identity)
  ok (api_principal authenticated)

abbrev pub channel_principal : RoutingTarget → Principal
channel_principal target = record {
  kind = principal_channel;
  tenant_id = target.fields.tenant_id;
  app_id = target.fields.app_id;
  subject_id = [];
  api_proof = none;
  routing_target = target;
}

unfoldable pub new_channel_principal : RoutingTarget → Result Error Principal
new_channel_principal target = do
  wrapped_in invalid (validate_target target)
  ok (channel_principal target)

-- The case of an API principal, by its proof.
unfoldable pub validate_api_principal : Option ApiIdentity → Principal → Result Error Unit
validate_api_principal none p = err invalid
validate_api_principal (some proof) p = do
  require
      (proof.tenant_id == p.tenant_id
        && proof.app_id == p.app_id
        && proof.subject_id == p.subject_id)
      invalid
  validate_api_proof proof

unfoldable pub validate_channel_principal : Principal → Result Error Unit
validate_channel_principal p = do
  wrapped_in invalid (validate_target p.routing_target)
  require
      (p.tenant_id == p.routing_target.fields.tenant_id
        && p.app_id == p.routing_target.fields.app_id)
      invalid

unfoldable pub validate_principal : Principal → Result Error Unit
unfolding validate_api_principal validate_channel_principal
validate_principal p =
    if p.kind == principal_api
    then validate_api_principal p.api_proof p
    else if p.kind == principal_channel
    then validate_channel_principal p
    else err invalid
