-- ===== src/Gateway/Principals/Examples.antt =====
-- trpcservice/gateway/gateway.go: an API caller and a channel, as principals.
use trpc_agent_service_platf.Gateway.Principals.{
  validate_api_proof, validate_api, channel_principal, api_principal, validate_principal,
  new_channel_principal, new_api_principal, AuthenticatedApi, ApiIdentity,
}
use trpc_agent_service_platf.Channels.Routing.{
  valid_hex_digest, normalize_required_value, validate_crockford_id, has_control,
  same_verified_binding_fields, validate_route, telegram, validate_proof, validate_capability,
  RoutingTarget, Route,
}
use trpc_agent_service_platf.Base.Text.{
  lower_rune, contains_rune, has_prefix, all_in, trim_prefix, rune_len, byte_len, trim_left,
  trim_space, codes,
}
use trpc_agent_service_platf.Base.{refl, list_beq, ok, ◌≡◌, some}
use trpc_agent_service_platf.Base.Ints.{pos}
use trpc_agent_service_platf.Gateway.Messages.{validate_external_id, validate_scoped_id}
use trpc_agent_service_platf.Gateway.Principals.Validity.{
  new_channel_principal-validates, new_api_principal-validates,
}

abbrev identity : ApiIdentity
identity = record {
  tenant_id = codes "t_01ARZ3NDEKTSV4RRFFQ69G5FAV";
  app_id = codes "app_01ARZ3NDEKTSV4RRFFQ69G5FAX";
  subject_id = codes "ann";
}

abbrev caller : AuthenticatedApi
caller = record { identity = identity; proof = some identity }

caller-accepted : new_api_principal caller ≡ ok (api_principal caller)
unfolding new_api_principal validate_api validate_api_proof validate_scoped_id validate_external_id
    has_control trim_space trim_left byte_len rune_len has_prefix trim_prefix all_in contains_rune
    list_beq
caller-accepted = refl

new_api_principal-validates_example :
    (validate_principal (api_principal caller) ≡ ok tt)
    × (identity.tenant_id ≡ identity.tenant_id)
    × (identity.app_id ≡ identity.app_id)
    × (identity.subject_id ≡ identity.subject_id)
new_api_principal-validates_example =
    new_api_principal-validates caller (api_principal caller) caller-accepted

abbrev route : Route
route = record {
  tenant_id = identity.tenant_id;
  binding_id = codes "cb_01ARZ3NDEKTSV4RRFFQ69G5FAW";
  binding_version = pos 1;
  app_id = identity.app_id;
  channel = telegram;
  provider_account_id = codes "bot-1";
  config_digest = codes "00112233445566778899aabbccddeeff00112233445566778899aabbccddeeff";
}

abbrev target : RoutingTarget
target = record {
  fields = route;
  capability = some (record { fields = route; proof = some route });
}

target-accepted : new_channel_principal target ≡ ok (channel_principal target)
unfolding new_channel_principal validate_capability validate_proof validate_route
    same_verified_binding_fields validate_crockford_id normalize_required_value valid_hex_digest
    list_beq trim_prefix byte_len all_in lower_rune
target-accepted = refl

new_channel_principal-validates_example :
    (validate_principal (channel_principal target) ≡ ok tt)
    × (route.tenant_id ≡ route.tenant_id)
    × (route.app_id ≡ route.app_id)
    × (target ≡ target)
new_channel_principal-validates_example =
    new_channel_principal-validates target (channel_principal target) target-accepted
