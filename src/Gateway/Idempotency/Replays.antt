-- ===== src/Gateway/Idempotency/Replays.antt =====
-- trpcservice/gateway/idempotency.go: what Begin answers to a message that has been executed.
use trpc_agent_service_platf.Gateway.Messages.{clock, InboundMessage}
use trpc_agent_service_platf.Base.{
  ◌∙◌, ap, nat_eq, list_eq, ◌<◌, ok, false, some, ◌≡◌, ℕ, ◌≢◌, List,
}
use trpc_agent_service_platf.Gateway.Idempotency.{
  prune, replayed, run, begin, pending, begin_key, Call, claim_at, Heap, decide, IdempotencyStore,
  IdempotencyEntry, failed, enter, finish_entry, complete, DispatchEvent, finish_claim, completed,
  begin_at,
}
use trpc_agent_service_platf.Base.Text.{Text}
use trpc_agent_service_platf.Base.Contexts.{Context}
use trpc_agent_service_platf.Base.Ints.{add_duration}
use trpc_agent_service_platf.Gateway.Principals.{Principal}
use trpc_agent_service_platf.Gateway.Idempotency.Exclusion.{
  prune-IsHeld, run-IsHeld, AreAside, IsHeld,
}
use trpc_agent_service_platf.Base.Maps.{lookup-insert_self, insert-HasDistinctKeys, insert}
use trpc_agent_service_platf.Gateway.Idempotency.Capacity.{begin_locked-opened}

-- The entry of an execution that is completed now.
abbrev pub finished : List DispatchEvent → ℕ → IdempotencyStore → IdempotencyEntry
finished events now store = record {
  state = completed;
  events = events;
  expires_at = add_duration now store.ttl;
}

completed_is_not_failed : completed ≢ failed
completed_is_not_failed k = cc

complete-IsHeld :
    (events : List DispatchEvent) (key : Text) (entry : IdempotencyEntry) (now n : ℕ) (heap : Heap)
    → claim_at n heap.claims ≡ some (record { key = key; used = false })
    → entry.state ≡ pending
    → IsHeld key entry heap
    → IsHeld key
        (finished events now heap.store)
        (finish_claim completed events now (claim_at n heap.claims) n heap)
unfolding finish_claim finish_entry
complete-IsHeld events key entry now n heap at is h =
    let done = finished events now heap.store in
    let stored = insert key done heap.store.entries in
    rw (at, h.held, is)
      (record {
        opened = h.opened;
        distinct = insert-HasDistinctKeys key done heap.store.entries h.distinct;
        held = lookup-insert_self key done heap.store.entries;
      })

-- When the claim of a pending message is completed, then until the time to live that starts there
-- is over, and as long as nobody settles a claim of that key or closes the store, every Begin for
-- the same key returns the events that Complete was given, whatever other calls come in between.
pub complete_replays :
    (ctx : Context) (p : Principal) (m : InboundMessage) (key : Text) (events : List DispatchEvent)
    (entry : IdempotencyEntry) (sampled wall sampled' wall' n : ℕ) (heap : Heap) (cs : List Call)
    → begin_key ctx p m ≡ ok key
    → claim_at n heap.claims ≡ some (record { key = key; used = false })
    → entry.state ≡ pending
    → IsHeld key entry heap
    → AreAside key
        (add_duration (clock sampled wall) heap.store.ttl)
        cs
        (complete events n sampled wall heap)
    → clock sampled' wall' < add_duration (clock sampled wall) heap.store.ttl
    → (begin ctx p m sampled' wall' (run cs (complete events n sampled wall heap))).0
      ≡ ok (replayed events)
unfolding begin_at complete enter decide
complete_replays ctx p m key events entry sampled wall sampled' wall' n heap cs k at is h aside
      early =
    let now' = clock sampled' wall' in
    let done = finished events (clock sampled wall) heap.store in
    let heap' = complete events n sampled wall heap in
    let held : IsHeld key done (run cs heap') =
      run-IsHeld cs key done heap' (λ e. absurd (completed_is_not_failed e)) aside
        (complete-IsHeld events key entry (clock sampled wall) n heap at is h) in
    let still = prune-IsHeld key done now' (run cs heap') early held in
    ap (λ r. (begin_at r now' (run cs heap')).0) k
    ∙ ap (λ r. r.0) (begin_locked-opened key now' (run cs heap') held.opened)
    ∙ ap
        (λ o.
          (enter o key now' (record (run cs heap') { store = prune now' (run cs heap').store })).0)
        still.held
