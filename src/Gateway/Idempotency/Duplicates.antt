-- ===== src/Gateway/Idempotency/Duplicates.antt =====
-- trpcservice/gateway/idempotency.go: what Begin answers to a message that is being executed.
use trpc_agent_service_platf.Gateway.Messages.{
  clock, InboundMessage, Error, duplicate_message, closed,
}
use trpc_agent_service_platf.Base.Text.{Text}
use trpc_agent_service_platf.Gateway.Idempotency.{
  is_live, prune, run, failed, completed, Begun, begin, claimed, begin_key, Call, begin_locked,
  DispatchEvent, pending, IdempotencyStore, IdempotencyState, IdempotencyEntry, Heap, reserve,
  enter, decide, begin_at,
}
use trpc_agent_service_platf.Base.{
  ◌≢◌, refl, sym, subst, inr, ◌∙◌, arith, none, inl, nat_eq, list_eq, leb, ap, some, Result,
  Bool-cases, err, ok, false, [], ◌<◌, ◌≡◌, List, Option, ℕ,
}
use trpc_agent_service_platf.Base.Contexts.{Context}
use trpc_agent_service_platf.Base.Maps.{
  lookup-insert_self, keep-HasDistinctKeys, lookup, insert-HasDistinctKeys, size,
  erase-HasDistinctKeys, erase, HasDistinctKeys,
}
use trpc_agent_service_platf.Gateway.Principals.{Principal}
use trpc_agent_service_platf.Gateway.Idempotency.Exclusion.{
  run-IsHeld, AreAside, prune-IsHeld, IsHeld,
}
use trpc_agent_service_platf.Base.Ints.{add_duration}
use trpc_agent_service_platf.Gateway.Idempotency.Capacity.{begin_locked-closed, begin_locked-opened}

-- The entry of a claim that is taken now.
abbrev pub taken : ℕ → IdempotencyStore → IdempotencyEntry
taken now store = record { state = pending; events = []; expires_at = add_duration now store.ttl }

reserve-taken :
    (key : Text) (now n : ℕ) (heap : Heap)
    → heap.store.closed ≡ false
    → HasDistinctKeys heap.store.entries
    → (reserve key now heap).0 ≡ ok (claimed n)
    → IsHeld key (taken now heap.store) (reserve key now heap).1
unfolding reserve
reserve-taken key now n heap opened d e =
    let store = heap.store in
    elim (Bool-cases (leb store.max_entries (size store.entries))) [
      | inl full ↦ absurd (ground (arith, e, full))
      | inr free ↦ rw free (record {
        opened = opened;
        distinct = insert-HasDistinctKeys key (taken now store) store.entries d;
        held = lookup-insert_self key (taken now store) store.entries;
      })
    ]

decide-taken :
    (state : IdempotencyState) (events : List DispatchEvent) (key : Text) (now n : ℕ) (heap : Heap)
    → heap.store.closed ≡ false
    → HasDistinctKeys heap.store.entries
    → (decide state events key now heap).0 ≡ ok (claimed n)
    → IsHeld key (taken now heap.store) (decide state events key now heap).1
unfolding decide
decide-taken pending events key now n heap opened d e = absurd (cc)
decide-taken completed events key now n heap opened d e = absurd (cc)
decide-taken failed events key now n heap opened d e =
    let store = record heap.store { entries = erase key heap.store.entries } in
    reserve-taken key now n (record heap { store = store }) opened
      (erase-HasDistinctKeys key heap.store.entries d) e

enter-taken :
    (o : Option IdempotencyEntry) (key : Text) (now n : ℕ) (heap : Heap)
    → heap.store.closed ≡ false
    → HasDistinctKeys heap.store.entries
    → (enter o key now heap).0 ≡ ok (claimed n)
    → IsHeld key (taken now heap.store) (enter o key now heap).1
unfolding enter
enter-taken none key now n heap opened d e = reserve-taken key now n heap opened d e
enter-taken (some x) key now n heap opened d e =
    decide-taken x.state x.events key now n heap opened d e

begin_locked-taken :
    (key : Text) (now n : ℕ) (heap : Heap)
    → HasDistinctKeys heap.store.entries
    → (begin_locked key now heap).0 ≡ ok (claimed n)
    → IsHeld key (taken now heap.store) (begin_locked key now heap).1
begin_locked-taken key now n heap d e = elim (Bool-cases heap.store.closed) [
  | inl shut ↦
      let refused = ap (λ r. r.0) (begin_locked-closed key now heap shut) in
      absurd (error_is_no_claim (sym refused ∙ e))
  | inr opened ↦
      let same = begin_locked-opened key now heap opened in
      rw same (
        enter-taken (lookup key (prune now heap.store).entries) key now n
          (record heap { store = prune now heap.store }) opened
          (keep-HasDistinctKeys (is_live now) heap.store.entries d) (sym (ap (λ r. r.0) same) ∙ e))
]
  where
    error_is_no_claim : Path (Result Error Begun) (err closed) (ok (claimed n)) → ⊥
    error_is_no_claim k = cc

pub pending_is_not_failed : pending ≢ failed
pending_is_not_failed k = cc

-- A pending entry refuses a second execution.
held-duplicate :
    (key : Text) (entry : IdempotencyEntry) (now : ℕ) (heap : Heap)
    → entry.state ≡ pending
    → now < entry.expires_at
    → IsHeld key entry heap
    → (begin_locked key now heap).0 ≡ err duplicate_message
unfolding enter decide
held-duplicate key entry now heap is early h =
    let still = prune-IsHeld key entry now heap early h in
    ap (λ r. r.0) (begin_locked-opened key now heap h.opened)
    ∙ ap (λ o. (enter o key now (record heap { store = prune now heap.store })).0) still.held
    ∙ ap (λ s. (decide s entry.events key now (record heap { store = prune now heap.store })).0) is

-- Once Begin has handed out a claim for a message, then until the claim's time to live is over, and
-- as long as nobody settles a claim of that key or closes the store, every Begin for the same key
-- is refused with ErrDuplicateMessage, whatever other calls come in between.
pub begin_excludes :
    (ctx ctx' : Context) (p p' : Principal) (m m' : InboundMessage) (key : Text)
    (sampled wall sampled' wall' n : ℕ) (heap : Heap) (cs : List Call)
    → HasDistinctKeys heap.store.entries
    → begin_key ctx p m ≡ ok key
    → begin_key ctx' p' m' ≡ ok key
    → (begin ctx p m sampled wall heap).0 ≡ ok (claimed n)
    → AreAside key
        (add_duration (clock sampled wall) heap.store.ttl)
        cs
        (begin ctx p m sampled wall heap).1
    → clock sampled' wall' < add_duration (clock sampled wall) heap.store.ttl
    → (begin ctx' p' m' sampled' wall' (run cs (begin ctx p m sampled wall heap).1)).0
      ≡ err duplicate_message
unfolding begin_at
begin_excludes ctx ctx' p p' m m' key sampled wall sampled' wall' n heap cs d k k' e aside early =
    let now = clock sampled wall in
    let begun = ap (λ r. begin_at r now heap) k in
    let heap' = (begin ctx p m sampled wall heap).1 in
    let entry = taken now heap.store in
    let held : IsHeld key entry heap' =
      subst (λ r. IsHeld key entry r.1) (sym begun)
        (begin_locked-taken key now n heap d (sym (ap (λ r. r.0) begun) ∙ e)) in
    ap (λ r. (begin_at r (clock sampled' wall') (run cs heap')).0) k'
    ∙ held-duplicate key entry (clock sampled' wall') (run cs heap') refl early
        (run-IsHeld cs key entry heap' (λ k. absurd (pending_is_not_failed k)) aside held)
