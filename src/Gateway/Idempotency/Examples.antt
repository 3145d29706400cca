-- ===== src/Gateway/Idempotency/Examples.antt =====
-- trpcservice/gateway/idempotency.go: one message that arrives twice.
use trpc_agent_service_platf.Gateway.Messages.{duplicate_message}
use trpc_agent_service_platf.Gateway.Principals.{
  zero_target, validate_api_proof, validate_api_principal, validate_principal, validate_api,
  principal_api, new_api_principal, new_authenticated_api, Principal, ApiIdentity,
}
use trpc_agent_service_platf.Gateway.Idempotency.{
  replayed, claimed, new_idempotency_store, reserve, complete, closes, new_heap, key_parts, enter,
  begins, run, make_idempotency_key, begin_locked, claim_at, begin_key, begin_at, begin,
  IdempotencyStore, IdempotencyEntry, IdempotencyConfig, Heap,
}
use trpc_agent_service_platf.Gateway.Messages.{
  validate_peer, validate_message, normalize, validate_external_id, validate_scoped_id,
  InboundMessage,
}
use trpc_agent_service_platf.Gateway.Idempotency.Capacity.{run-IsBounded, IsBounded}
use trpc_agent_service_platf.Gateway.Idempotency.Keys.{begin_key-separates, IsSameMessage}
use trpc_agent_service_platf.Base.Text.{
  contains_rune, all_in, trim_prefix, has_prefix, rune_len, byte_len, trim_left, trim_space, codes,
  Text,
}
use trpc_agent_service_platf.Base.Maps.{keep, lookup}
use trpc_agent_service_platf.Gateway.Idempotency.Exclusion.{IsHeld}
use trpc_agent_service_platf.Base.Contexts.{background}
use trpc_agent_service_platf.Base.Encoding.{encode_parts}
use trpc_agent_service_platf.Base.Ints.{pos}
use trpc_agent_service_platf.Gateway.Idempotency.Duplicates.{begin_excludes, taken}
use trpc_agent_service_platf.Base.{
  ◌>>=◌, list_beq, ap, refl, ok, nat_eq, list_eq, err, ◌≡◌, false, ==_refl, some, arith, [], ◌∷◌,
}
use trpc_agent_service_platf.Channels.Routing.{has_control, direct}
use trpc_agent_service_platf.Gateway.Idempotency.Replays.{complete_replays}

abbrev config : IdempotencyConfig
config = record { ttl = pos 100; max_entries = pos 2 }

abbrev store : IdempotencyStore
store = record { ttl = pos 100; max_entries = 2; entries = []; closed = false }

abbrev identity : ApiIdentity
identity = record {
  tenant_id = codes "t_01ARZ3NDEKTSV4RRFFQ69G5FAV";
  app_id = codes "app_01ARZ3NDEKTSV4RRFFQ69G5FAX";
  subject_id = codes "ann";
}

abbrev principal : Principal
principal = record {
  kind = principal_api;
  tenant_id = identity.tenant_id;
  app_id = identity.app_id;
  subject_id = identity.subject_id;
  api_proof = some identity;
  routing_target = zero_target;
}

abbrev message : InboundMessage
message = record {
  content = codes " hi ";
  content_type = [];
  external_message_id = codes "m1";
  external_user_id = codes "ann";
  conversation_kind = direct;
  external_peer_id = codes "bot";
  external_chat_id = [];
  external_thread_id = [];
}

abbrev key : Text
key = encode_parts (key_parts principal message)

principal-made : (new_authenticated_api identity >>= new_api_principal) ≡ ok principal
unfolding new_authenticated_api new_api_principal validate_api validate_api_proof validate_scoped_id
    validate_external_id has_control trim_space trim_left byte_len rune_len has_prefix trim_prefix
    all_in contains_rune list_beq
principal-made = refl

key-made : begin_key background principal message ≡ ok key
unfolding begin_key make_idempotency_key validate_principal validate_api_principal
    validate_api_proof validate_scoped_id validate_external_id has_control trim_space trim_left
    byte_len rune_len has_prefix trim_prefix all_in contains_rune list_beq normalize
    validate_message validate_peer
key-made = refl

abbrev begun : Heap
begun = (begin background principal message 10 10 (new_heap store)).1

claim-made : (begin background principal message 10 10 (new_heap store)).0 ≡ ok (claimed 0)
unfolding begin_at begin_locked enter reserve lookup keep
claim-made = ap (λ r. (begin_at r 10 (new_heap store)).0) key-made

run-IsBounded_example :
    IsBounded (run (begins background principal message 10 10 ∷ closes ∷ []) (new_heap store)).store
unfolding new_idempotency_store
run-IsBounded_example =
    run-IsBounded config store (begins background principal message 10 10 ∷ closes ∷ []) config-made
  where
    config-made : new_idempotency_store config ≡ ok store
    config-made = refl

begin_key-separates_example : IsSameMessage principal message principal message
begin_key-separates_example =
    begin_key-separates background background principal principal message message key key-made
      key-made

begin_excludes_example :
    (begin background principal message 60 60
      (run (begins background principal message 50 50 ∷ []) begun)).0
    ≡ err duplicate_message
begin_excludes_example =
    begin_excludes background background principal principal message message key 10 10 60 60 0
      (new_heap store) (begins background principal message 50 50 ∷ []) tt key-made key-made
      claim-made (omega arith, tt) (omega arith)

abbrev entry : IdempotencyEntry
entry = taken 10 store

abbrev pending_heap : Heap
pending_heap = record {
  store = record store { entries = (key, entry) ∷ [] };
  claims = record { key = key; used = false } ∷ [];
}

pending_heap-IsHeld : IsHeld key entry pending_heap
unfolding lookup
pending_heap-IsHeld = record {
  opened = refl;
  distinct = (refl, tt);
  held = ground (arith, ==_refl key);
}

complete_replays_example :
    (begin background principal message 70 70 (run [] (complete [] 0 20 20 pending_heap))).0
    ≡ ok (replayed [])
unfolding claim_at
complete_replays_example =
    complete_replays background principal message key [] entry 20 20 70 70 0 pending_heap []
      key-made refl refl pending_heap-IsHeld tt (omega arith)
