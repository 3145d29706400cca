-- ===== src/Channels/Routing/Examples.antt =====
-- trpcservice/channels/routing.go: two members of one WeCom group, routed.
use trpc_agent_service_platf.Tenant.Identity.{validate_tenant_id}
use trpc_agent_service_platf.Channels.Routing.{
  verification_failed, required_external_id, has_control, conversation, validate_target,
  valid_hex_digest, normalize_required_value, validate_crockford_id, scoped_session, wecom,
  scoped_user, same_verified_binding_fields, validate_route, group, validate_proof, IdentityInput,
  validate_capability, runner_identity, VerifiedBinding, RoutingTarget, Route,
}
use trpc_agent_service_platf.Channels.Routing.Isolation.{
  runner_identity-tampered, validate_target-sealed, user_id-separates, session_id-separates,
  SameUser, SameSession,
}
use trpc_agent_service_platf.Base.Text.{
  rune_len, has_prefix, contains_rune, drop, lower_rune, all_in, byte_len, trim_prefix, codes, Text,
}
use trpc_agent_service_platf.Tenant.Identity.{
  namespaced_id, new_runner_identity, namespaced, RunnerIdentity,
}
use trpc_agent_service_platf.Base.{ap, arith, ◌≢◌, err, list_beq, refl, [], ok, ◌≡◌, some}
use trpc_agent_service_platf.Base.Ints.{pos-injective, pos}
use trpc_agent_service_platf.Base.Encoding.{itoa, digits_fuel, encode_parts}

abbrev route : Route
route = record {
  tenant_id = codes "t_01ARZ3NDEKTSV4RRFFQ69G5FAV";
  binding_id = codes "cb_01ARZ3NDEKTSV4RRFFQ69G5FAW";
  binding_version = pos 2;
  app_id = codes "app_01ARZ3NDEKTSV4RRFFQ69G5FAX";
  channel = wecom;
  provider_account_id = codes "corp-7";
  config_digest = codes "00112233445566778899aabbccddeeff00112233445566778899aabbccddeeff";
}

abbrev target : RoutingTarget
target = record {
  fields = route;
  capability = some (record { fields = route; proof = some route });
}

abbrev message_of : Text → IdentityInput
message_of user = record {
  external_user_id = user;
  kind = group;
  external_peer_id = [];
  external_chat_id = codes "chat:9";
  external_thread_id = [];
}

abbrev identity_of : Text → RunnerIdentity
identity_of user = record {
  user_id = namespaced route.tenant_id (scoped_user route user);
  session_id = namespaced route.tenant_id (scoped_session route (message_of user) (codes "chat:9"));
}

target-validates : validate_target target ≡ ok tt
unfolding validate_capability validate_proof validate_route same_verified_binding_fields
    validate_crockford_id normalize_required_value valid_hex_digest list_beq trim_prefix byte_len
    all_in lower_rune
target-validates = refl

identity_of-ann : runner_identity target (message_of (codes "ann")) ≡ ok (identity_of (codes "ann"))
unfolding runner_identity validate_capability validate_proof validate_route
    same_verified_binding_fields validate_crockford_id normalize_required_value valid_hex_digest
    list_beq trim_prefix byte_len all_in lower_rune new_runner_identity validate_tenant_id drop
    namespaced_id encode_parts digits_fuel itoa contains_rune has_prefix rune_len conversation
    has_control required_external_id scoped_session scoped_user namespaced
identity_of-ann = refl

identity_of-bob : runner_identity target (message_of (codes "bob")) ≡ ok (identity_of (codes "bob"))
unfolding runner_identity validate_capability validate_proof validate_route
    same_verified_binding_fields validate_crockford_id normalize_required_value valid_hex_digest
    list_beq trim_prefix byte_len all_in lower_rune new_runner_identity validate_tenant_id drop
    namespaced_id encode_parts digits_fuel itoa contains_rune has_prefix rune_len conversation
    has_control required_external_id scoped_session scoped_user namespaced
identity_of-bob = refl

session_id-separates_example :
    SameSession target (message_of (codes "ann")) target (message_of (codes "bob"))
unfolding scoped_session
session_id-separates_example =
    session_id-separates target target (message_of (codes "ann")) (message_of (codes "bob"))
      (identity_of (codes "ann")) (identity_of (codes "bob")) identity_of-ann identity_of-bob refl

user_id-separates_example :
    SameUser target (message_of (codes "ann")) target (message_of (codes "ann"))
user_id-separates_example =
    user_id-separates target target (message_of (codes "ann")) (message_of (codes "ann"))
      (identity_of (codes "ann")) (identity_of (codes "ann")) identity_of-ann identity_of-ann refl

validate_target-sealed_example :
    (v : VerifiedBinding) × (target.capability ≡ some v)
    × (v.proof ≡ some route)
    × (v.fields ≡ route)
    × (validate_route route ≡ ok tt)
validate_target-sealed_example = validate_target-sealed target target-validates

-- The target with the version of another binding.
abbrev tampered : RoutingTarget
tampered = record target { fields = record route { binding_version = pos 3 } }

version_differs : route ≢ record route { binding_version = pos 3 }
version_differs e = absurd (omega (arith, pos-injective (ap (λ r. r.binding_version) e)))

runner_identity-tampered_example :
    (validate_target tampered ≡ err verification_failed)
    × (runner_identity tampered (message_of (codes "ann")) ≡ err verification_failed)
runner_identity-tampered_example =
    runner_identity-tampered tampered (record { fields = route; proof = some route })
      (message_of (codes "ann")) refl version_differs
