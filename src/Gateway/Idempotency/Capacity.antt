-- ===== src/Gateway/Idempotency/Capacity.antt =====
-- trpcservice/gateway/idempotency.go: the store never holds more entries than its capacity.
use trpc_agent_service_platf.Gateway.Messages.{clock, Error, closed}
use trpc_agent_service_platf.Gateway.Idempotency.{
  closes, fails, claim_at, completes, failed, completed, begin_key, new_heap, is_live, begins,
  pending, close, IdempotencyClaim, fail, IdempotencyEntry, DispatchEvent, Call, prune, complete,
  IdempotencyState, IdempotencyConfig, Heap, step, run, reserve, new_idempotency_store,
  finish_entry, finish_claim, enter, decide, begin_locked, begin_at, IdempotencyStore,
}
use trpc_agent_service_platf.Base.Text.{Text}
use trpc_agent_service_platf.Base.{
  ◌∙◌, refl, if◌then◌else◌, none, inr, ap, [], ◌∷◌, true, some, ok, nat_eq, list_eq, inl, false,
  ◌≤◌, ◌≡◌, err, arith, Bool-cases, Result, Option, List, ℕ,
}
use trpc_agent_service_platf.Base.Maps.{
  size-insert, size-insert-le, insert, size-erase-le, size-keep-le, lookup, erase, size,
}
use trpc_agent_service_platf.Base.Ints.{add_duration}

abbrev pub IsBounded : IdempotencyStore → Type 0
IsBounded store = size store.entries ≤ store.max_entries

reserve-IsBounded :
    (key : Text) (now : ℕ) (heap : Heap)
    → IsBounded heap.store
    → IsBounded (reserve key now heap).1.store
unfolding reserve
reserve-IsBounded key now heap h =
    let entry : IdempotencyEntry = record {
      state = pending;
      events = [];
      expires_at = add_duration now heap.store.ttl;
    } in
    ground (arith, h, size-insert-le key entry heap.store.entries)

decide-IsBounded :
    (state : IdempotencyState) (events : List DispatchEvent) (key : Text) (now : ℕ) (heap : Heap)
    → IsBounded heap.store
    → IsBounded (decide state events key now heap).1.store
unfolding decide
decide-IsBounded pending events key now heap h = h
decide-IsBounded completed events key now heap h = h
decide-IsBounded failed events key now heap h =
    let store = record heap.store { entries = erase key heap.store.entries } in
    reserve-IsBounded key now (record heap { store = store })
      (omega (arith, h, size-erase-le key heap.store.entries))

enter-IsBounded :
    (o : Option IdempotencyEntry) (key : Text) (now : ℕ) (heap : Heap)
    → IsBounded heap.store
    → IsBounded (enter o key now heap).1.store
unfolding enter
enter-IsBounded none key now heap h = reserve-IsBounded key now heap h
enter-IsBounded (some e) key now heap h = decide-IsBounded e.state e.events key now heap h

prune-IsBounded :
    (now : ℕ) (store : IdempotencyStore) → IsBounded store → IsBounded (prune now store)
prune-IsBounded now store h = omega (arith, h, size-keep-le (is_live now) store.entries)

pub begin_locked-opened :
    (key : Text) (now : ℕ) (heap : Heap)
    → heap.store.closed ≡ false
    → begin_locked key now heap
      ≡ enter
          (lookup key (prune now heap.store).entries)
          key
          now
          (record heap { store = prune now heap.store })
unfolding begin_locked
begin_locked-opened key now heap opened =
    let store = prune now heap.store in
    ap
      (λ b.
        if b
        then (err closed, heap)
        else enter (lookup key store.entries) key now (record heap { store = store }))
      opened

pub begin_locked-closed :
    (key : Text) (now : ℕ) (heap : Heap)
    → heap.store.closed ≡ true
    → begin_locked key now heap ≡ (err closed, heap)
unfolding begin_locked
begin_locked-closed key now heap shut =
    let store = prune now heap.store in
    ap
      (λ b.
        if b
        then (err closed, heap)
        else enter (lookup key store.entries) key now (record heap { store = store }))
      shut

begin_locked-IsBounded :
    (key : Text) (now : ℕ) (heap : Heap)
    → IsBounded heap.store
    → IsBounded (begin_locked key now heap).1.store
begin_locked-IsBounded key now heap h = elim (Bool-cases heap.store.closed) [
  | inl shut ↦ rw (begin_locked-closed key now heap shut) h
  | inr opened ↦ rw (begin_locked-opened key now heap opened) (
      enter-IsBounded (lookup key (prune now heap.store).entries) key now
        (record heap { store = prune now heap.store }) (prune-IsBounded now heap.store h))
]

begin_at-IsBounded :
    (r : Result Error Text) (now : ℕ) (heap : Heap)
    → IsBounded heap.store
    → IsBounded (begin_at r now heap).1.store
unfolding begin_at
begin_at-IsBounded (err e) now heap h = h
begin_at-IsBounded (ok key) now heap h = begin_locked-IsBounded key now heap h

finish_entry-IsBounded :
    (state : IdempotencyState) (events : List DispatchEvent) (now : ℕ) (key : Text)
    (o : Option IdempotencyEntry) (store : IdempotencyStore)
    → lookup key store.entries ≡ o
    → IsBounded store
    → IsBounded (finish_entry state events now key o store)
unfolding finish_entry
finish_entry-IsBounded state events now key none store at h = h
finish_entry-IsBounded state events now key (some e) store at h =
    let entry : IdempotencyEntry = record {
      state = state;
      events = events;
      expires_at = add_duration now store.ttl;
    } in
    let same : size (insert key entry store.entries) ≡ size store.entries =
      size-insert key entry store.entries ∙ rw at refl in
    ground (arith, h, same)

finish_claim-IsBounded :
    (state : IdempotencyState) (events : List DispatchEvent) (now : ℕ) (o : Option IdempotencyClaim)
    (n : ℕ) (heap : Heap)
    → IsBounded heap.store
    → IsBounded (finish_claim state events now o n heap).store
unfolding finish_claim
finish_claim-IsBounded state events now none n heap h = h
finish_claim-IsBounded state events now (some c) n heap h =
    let entry = lookup c.key heap.store.entries in
    ground (arith, h, finish_entry-IsBounded state events now c.key entry heap.store refl h)

step-IsBounded : (c : Call) (heap : Heap) → IsBounded heap.store → IsBounded (step c heap).store
unfolding step complete fail close
step-IsBounded (begins ctx p m sampled wall) heap h =
    begin_at-IsBounded (begin_key ctx p m) (clock sampled wall) heap h
step-IsBounded (completes events n sampled wall) heap h =
    finish_claim-IsBounded completed events (clock sampled wall) (claim_at n heap.claims) n heap h
step-IsBounded (fails n sampled wall) heap h =
    finish_claim-IsBounded failed [] (clock sampled wall) (claim_at n heap.claims) n heap h
step-IsBounded closes heap h = omega arith

run_from-IsBounded :
    (cs : List Call) (heap : Heap) → IsBounded heap.store → IsBounded (run cs heap).store
unfolding run
run_from-IsBounded [] heap h = h
run_from-IsBounded (c ∷ cs) heap h = run_from-IsBounded cs (step c heap) (step-IsBounded c heap h)

-- From a store that NewIdempotencyStore returns, after any calls in any order, the number of
-- entries is at most the capacity.
pub run-IsBounded :
    (config : IdempotencyConfig) (store : IdempotencyStore) (cs : List Call)
    → new_idempotency_store config ≡ ok store
    → IsBounded (run cs (new_heap store)).store
unfolding new_idempotency_store
run-IsBounded config store cs made =
    let empty : store.entries ≡ [] = ground arith in
    run_from-IsBounded cs (new_heap store) (rw empty (omega arith))
