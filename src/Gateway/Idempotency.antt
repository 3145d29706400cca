-- ===== src/Gateway/Idempotency.antt =====
-- trpcservice/gateway/idempotency.go: one execution for one message of one caller. The store and
-- the claims that it hands out are one heap; a claim is named by its place in the list of claims.
use trpc_agent_service_platf.Gateway.Messages.{
  not_ready, normalize, natural, context_err, or_default, clock, InboundMessage, Error, invalid,
  unauthenticated, closed, capacity, duplicate_message,
}
use trpc_agent_service_platf.Base.{
  not, ◌>>=◌, ◌++◌, length, zero, wrap_err, require, ◌>>◌, suc, ok, nat_eq, list_eq, leb, false,
  ◌==◌, ◌∷◌, true, some, none, ltb, if◌then◌else◌, err, ℕ, [], Result, Option, List, Bool,
}
use trpc_agent_service_platf.Base.Contexts.{Context}
use trpc_agent_service_platf.Gateway.Principals.{validate_principal, principal_channel, Principal}
use trpc_agent_service_platf.Channels.Routing.{Route}
use trpc_agent_service_platf.Base.Text.{is_empty, Text}
use trpc_agent_service_platf.Base.Ints.{int_leb, negsuc, add_duration, pos, ℤ}
use trpc_agent_service_platf.Base.Maps.{size, erase, lookup, insert, keep, Map}
use trpc_agent_service_platf.Base.Encoding.{encode_parts, itoa}
pub mod Keys
pub mod Capacity
pub mod Exclusion
pub mod Duplicates
pub mod Replays
pub mod Examples

pub record DispatchEvent : Type 0 where
  pub type_ : Text
  pub request_id : Text
  pub trace_id : Text
  pub text : Text
  pub status : Text
  pub error : Text
  pub done : Bool

pub data IdempotencyState : Type 0 where
  pending completed failed : IdempotencyState

pub record IdempotencyConfig : Type 0 where
  pub ttl : ℤ
  pub max_entries : ℤ

pub record IdempotencyEntry : Type 0 where
  pub state : IdempotencyState
  pub events : List DispatchEvent
  pub expires_at : ℕ

pub record IdempotencyStore : Type 0 where
  pub ttl : ℤ
  pub max_entries : ℕ
  pub entries : Map Text IdempotencyEntry
  pub closed : Bool

-- `once` has run when `used` holds.
pub record IdempotencyClaim : Type 0 where
  pub key : Text
  pub used : Bool

pub record Heap : Type 0 where
  pub store : IdempotencyStore
  pub claims : List IdempotencyClaim

unfoldable pub new_idempotency_store : IdempotencyConfig → Result Error IdempotencyStore
new_idempotency_store config = do
  let ttl = or_default config.ttl (pos 600000000000)
  require (int_leb (pos 0) ttl) invalid
  let capacity_ = or_default config.max_entries (pos 4096)
  require (int_leb (pos 1) capacity_) invalid
  ok (record { ttl = ttl; max_entries = natural capacity_; entries = []; closed = false })

abbrev pub new_heap : IdempotencyStore → Heap
new_heap store = record { store = store; claims = [] }

-- fmt's `%d`
abbrev pub show_int : ℤ → Text
show_int (pos n) = itoa n
show_int (negsuc n) = b'-' ∷ itoa (suc n)

abbrev pub route_parts : Route → List Text
route_parts route = route.channel ∷ route.binding_id ∷ show_int route.binding_version ∷ []

-- What the key of a channel's message adds.
unfoldable pub channel_parts : Principal → List Text
channel_parts p = if p.kind == principal_channel then route_parts p.routing_target.fields else []

unfoldable pub key_parts : Principal → InboundMessage → List Text
key_parts p m =
    p.kind
    ∷ p.tenant_id
    ∷ p.app_id
    ∷ p.subject_id
    ∷ m.conversation_kind
    ∷ m.external_user_id
    ∷ m.external_peer_id
    ∷ m.external_chat_id
    ∷ m.external_thread_id
    ∷ m.external_message_id
    ∷ channel_parts p

unfoldable pub make_idempotency_key : Principal → InboundMessage → Result Error Text
unfolding key_parts
make_idempotency_key p m = do
  wrap_err (λ _. unauthenticated) (validate_principal p)
  ok (encode_parts (key_parts p m))

-- What Begin hands out: a new claim, or the events of an execution that is complete.
pub data Begun : Type 0 where
  claimed : ℕ → Begun
  replayed : List DispatchEvent → Begun

abbrev pub is_live : ℕ → Text → IdempotencyEntry → Bool
is_live now key entry = ltb now entry.expires_at

abbrev pub prune : ℕ → IdempotencyStore → IdempotencyStore
prune now store = record store { entries = keep (is_live now) store.entries }

-- The capacity test and the new pending entry.
unfoldable pub reserve : Text → ℕ → Heap → Result Error Begun × Heap
reserve key now heap =
    let store = heap.store in
    if leb store.max_entries (size store.entries) then (err capacity, heap) else (
      ok (claimed (length heap.claims)),
      record {
        store = record store {
          entries =
              insert key
                (record { state = pending; events = []; expires_at = add_duration now store.ttl })
                store.entries;
        };
        claims = heap.claims ++ record { key = key; used = false } ∷ [];
      },
    )

-- The switch over the state of an entry that is there.
unfoldable pub decide :
    IdempotencyState → List DispatchEvent → Text → ℕ → Heap → Result Error Begun × Heap
unfolding reserve
decide pending events key now heap = (err duplicate_message, heap)
decide completed events key now heap = (ok (replayed events), heap)
decide failed events key now heap =
    reserve key now
      (record heap { store = record heap.store { entries = erase key heap.store.entries } })

unfoldable pub enter : Option IdempotencyEntry → Text → ℕ → Heap → Result Error Begun × Heap
unfolding decide
enter none key now heap = reserve key now heap
enter (some entry) key now heap = decide entry.state entry.events key now heap

-- What Begin does under the mutex.
unfoldable pub begin_locked : Text → ℕ → Heap → Result Error Begun × Heap
unfolding enter
begin_locked key now heap =
    if heap.store.closed
    then (err closed, heap)
    else let store = prune now heap.store in
      enter (lookup key store.entries) key now (record heap { store = store })

-- The tests before the mutex, with the key that they make.
unfoldable pub begin_key : Context → Principal → InboundMessage → Result Error Text
unfolding make_idempotency_key
begin_key ctx principal message = do
  context_err ctx
  wrap_err (λ _. unauthenticated) (validate_principal principal)
  normalized ← normalize message
  require (not (is_empty normalized.external_message_id)) invalid
  make_idempotency_key principal normalized

unfoldable pub begin_at : Result Error Text → ℕ → Heap → Result Error Begun × Heap
begin_at (err e) now heap = (err e, heap)
begin_at (ok key) now heap = begin_locked key now heap

abbrev pub begin : Context → Principal → InboundMessage → ℕ → ℕ → Heap → Result Error Begun × Heap
begin ctx principal message sampled wall heap =
    begin_at (begin_key ctx principal message) (clock sampled wall) heap

-- A nil store accepts nothing.
abbrev pub begin_pointer :
    Context → Principal → InboundMessage → ℕ → ℕ → Option Heap → Result Error Begun × Option Heap
begin_pointer ctx principal message sampled wall none = (err not_ready, none)
begin_pointer ctx principal message sampled wall (some heap) =
    let r = begin ctx principal message sampled wall heap in (r.0, some r.1)

abbrev pub ready : Option IdempotencyStore → Bool
ready none = false
ready (some store) = not store.closed

-- The claim at a place; none stands for a nil claim.
unfoldable pub claim_at : ℕ → List IdempotencyClaim → Option IdempotencyClaim
claim_at n [] = none
claim_at zero (c ∷ cs) = some c
claim_at (suc n) (c ∷ cs) = claim_at n cs

unfoldable pub mark_used : ℕ → List IdempotencyClaim → List IdempotencyClaim
mark_used n [] = []
mark_used zero (c ∷ cs) = record c { used = true } ∷ cs
mark_used (suc n) (c ∷ cs) = c ∷ mark_used n cs

abbrev pub is_pending : IdempotencyState → Bool
is_pending pending = true
is_pending completed = false
is_pending failed = false

-- The body of the `once` of Complete and Fail, which differ in the state and the events.
unfoldable pub finish_entry :
    IdempotencyState
    → List DispatchEvent
    → ℕ
    → Text
    → Option IdempotencyEntry
    → IdempotencyStore
    → IdempotencyStore
finish_entry state events now key none store = store
finish_entry state events now key (some entry) store =
    if is_pending entry.state
    then record store {
      entries =
          insert key
            (record { state = state; events = events; expires_at = add_duration now store.ttl })
            store.entries;
    }
    else store

unfoldable pub finish_claim :
    IdempotencyState → List DispatchEvent → ℕ → Option IdempotencyClaim → ℕ → Heap → Heap
unfolding finish_entry mark_used
finish_claim state events now none n heap = heap
finish_claim state events now (some c) n heap = if c.used then heap else record {
  store = finish_entry state events now c.key (lookup c.key heap.store.entries) heap.store;
  claims = mark_used n heap.claims;
}

unfoldable pub complete : List DispatchEvent → ℕ → ℕ → ℕ → Heap → Heap
unfolding finish_claim claim_at
complete events n sampled wall heap =
    finish_claim completed events (clock sampled wall) (claim_at n heap.claims) n heap

unfoldable pub fail : ℕ → ℕ → ℕ → Heap → Heap
unfolding finish_claim claim_at
fail n sampled wall heap =
    finish_claim failed [] (clock sampled wall) (claim_at n heap.claims) n heap

unfoldable pub close : Heap → Heap
close heap = record heap { store = record heap.store { entries = []; closed = true } }

-- A call by any caller.
pub data Call : Type 0 where
  begins : Context → Principal → InboundMessage → ℕ → ℕ → Call
  completes : List DispatchEvent → ℕ → ℕ → ℕ → Call
  fails : ℕ → ℕ → ℕ → Call
  closes : Call

unfoldable pub step : Call → Heap → Heap
step (begins ctx p m sampled wall) heap = (begin ctx p m sampled wall heap).1
step (completes events n sampled wall) heap = complete events n sampled wall heap
step (fails n sampled wall) heap = fail n sampled wall heap
step closes heap = close heap

unfoldable pub run : List Call → Heap → Heap
unfolding step
run [] heap = heap
run (c ∷ cs) heap = run cs (step c heap)
