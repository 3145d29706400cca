-- ===== src/Gateway/Idempotency/Exclusion.antt =====
-- trpcservice/gateway/idempotency.go: an entry stays as it is while others call.
use trpc_agent_service_platf.Gateway.Messages.{clock, Error}
use trpc_agent_service_platf.Base.{
  arith, ap, ==_ne, ◌∙◌, refl, sym, ok, inr, nat_eq, list_eq, leb, inl, err, false, [], Bool-cases,
  ◌∷◌, ◌≢◌, ◌≡◌, none, ◌<◌, some, ℕ, Result, List, Option,
}
use trpc_agent_service_platf.Base.Text.{Text}
use trpc_agent_service_platf.Gateway.Idempotency.{
  closes, mark_used, fails, is_live, completed, claim_at, is_pending, completes, begin_key, prune,
  pending, failed, begins, fail, Heap, DispatchEvent, Call, complete, IdempotencyState,
  IdempotencyEntry, IdempotencyClaim, step, run, reserve, finish_entry, finish_claim, enter, decide,
  begin_at,
}
use trpc_agent_service_platf.Base.Maps.{
  lookup-keep, lookup-insert_ne, size, lookup-erase, insert-HasDistinctKeys, keep-HasDistinctKeys,
  insert, erase-HasDistinctKeys, erase, HasDistinctKeys, lookup,
}
use trpc_agent_service_platf.Base.Ints.{add_duration}
use mathlib.Core.Option.{some-injective, none-ne-some}
use trpc_agent_service_platf.Gateway.Idempotency.Capacity.{begin_locked-opened}

-- The open store holds this entry under the key.
pub record IsHeld (key : Text) (entry : IdempotencyEntry) (heap : Heap) : Type 0 where
  pub opened : heap.store.closed ≡ false
  pub distinct : HasDistinctKeys heap.store.entries
  pub held : lookup key heap.store.entries ≡ some entry

abbrev key_of : Option IdempotencyClaim → Option Text
key_of none = none
key_of (some c) = some c.key

-- A call before the deadline that does not settle the key and does not close the store.
abbrev pub IsAside : Text → ℕ → Call → Heap → Type 0
IsAside key deadline (begins ctx p m sampled wall) heap = clock sampled wall < deadline
IsAside key deadline (completes events n sampled wall) heap =
    key_of (claim_at n heap.claims) ≢ some key
IsAside key deadline (fails n sampled wall) heap = key_of (claim_at n heap.claims) ≢ some key
IsAside key deadline closes heap = ⊥

abbrev pub AreAside : Text → ℕ → List Call → Heap → Type 0
AreAside key deadline [] heap = Unit
AreAside key deadline (c ∷ cs) heap =
    IsAside key deadline c heap × AreAside key deadline cs (step c heap)

pub prune-IsHeld :
    (key : Text) (entry : IdempotencyEntry) (now : ℕ) (heap : Heap)
    → now < entry.expires_at
    → IsHeld key entry heap
    → IsHeld key entry (record heap { store = prune now heap.store })
prune-IsHeld key entry now heap early h = record {
  opened = h.opened;
  distinct = keep-HasDistinctKeys (is_live now) heap.store.entries h.distinct;
  held = lookup-keep (is_live now) key heap.store.entries h.distinct ∙ rw h.held (ground arith);
}

put-IsHeld :
    (key other : Text) (entry new : IdempotencyEntry) (heap : Heap)
    → other ≢ key
    → IsHeld key entry heap
    → (HasDistinctKeys (insert other new heap.store.entries))
      × (lookup key (insert other new heap.store.entries) ≡ some entry)
put-IsHeld key other entry new heap ne h = (
  insert-HasDistinctKeys other new heap.store.entries h.distinct,
  lookup-insert_ne other key new heap.store.entries ne ∙ h.held,
)

reserve-IsHeld :
    (key other : Text) (entry : IdempotencyEntry) (now : ℕ) (heap : Heap)
    → other ≢ key
    → IsHeld key entry heap
    → IsHeld key entry (reserve other now heap).1
unfolding reserve
reserve-IsHeld key other entry now heap ne h =
    let store = heap.store in
    let new : IdempotencyEntry = record {
      state = pending;
      events = [];
      expires_at = add_duration now store.ttl;
    } in
    let put = put-IsHeld key other entry new heap ne h in
    elim (Bool-cases (leb store.max_entries (size store.entries))) [
      | inl full ↦ rw full h
      | inr free ↦ rw free (record { opened = h.opened; distinct = put.0; held = put.1 })
    ]

erase-IsHeld :
    (key other : Text) (entry : IdempotencyEntry) (heap : Heap)
    → other ≢ key
    → IsHeld key entry heap
    → IsHeld key entry
        (record heap { store = record heap.store { entries = erase other heap.store.entries } })
erase-IsHeld key other entry heap ne h = record {
  opened = h.opened;
  distinct = erase-HasDistinctKeys other heap.store.entries h.distinct;
  held = lookup-erase other key heap.store.entries ∙ rw (==_ne other key ne) h.held;
}

decide-IsHeld :
    (state : IdempotencyState) (events : List DispatchEvent) (key other : Text)
    (entry : IdempotencyEntry) (now : ℕ) (heap : Heap)
    → (state ≡ failed → other ≢ key)
    → IsHeld key entry heap
    → IsHeld key entry (decide state events other now heap).1
unfolding decide
decide-IsHeld pending events key other entry now heap ne h = h
decide-IsHeld completed events key other entry now heap ne h = h
decide-IsHeld failed events key other entry now heap ne h =
    let store = record heap.store { entries = erase other heap.store.entries } in
    reserve-IsHeld key other entry now (record heap { store = store }) (ne refl)
      (erase-IsHeld key other entry heap (ne refl) h)

enter-IsHeld :
    (o : Option IdempotencyEntry) (key other : Text) (entry : IdempotencyEntry) (now : ℕ)
    (heap : Heap)
    → lookup other heap.store.entries ≡ o
    → entry.state ≢ failed
    → IsHeld key entry heap
    → IsHeld key entry (enter o other now heap).1
unfolding enter
enter-IsHeld none key other entry now heap at is h =
    reserve-IsHeld key other entry now heap
      (λ same.
        absurd (none-ne-some _ (sym at ∙ ap (λ k. lookup k heap.store.entries) same ∙ h.held)))
      h
enter-IsHeld (some e) key other entry now heap at is h =
    decide-IsHeld e.state e.events key other entry now heap
      (λ is_failed same.
        let one =
          some-injective _ _ (sym at ∙ ap (λ k. lookup k heap.store.entries) same ∙ h.held) in
        absurd (is (sym (ap (λ x. x.state) one) ∙ is_failed)))
      h

begin_at-IsHeld :
    (r : Result Error Text) (key : Text) (entry : IdempotencyEntry) (now : ℕ) (heap : Heap)
    → now < entry.expires_at
    → entry.state ≢ failed
    → IsHeld key entry heap
    → IsHeld key entry (begin_at r now heap).1
unfolding begin_at
begin_at-IsHeld (err e) key entry now heap early is h = h
begin_at-IsHeld (ok other) key entry now heap early is h =
    rw (begin_locked-opened other now heap h.opened) (
      enter-IsHeld (lookup other (prune now heap.store).entries) key other entry now
        (record heap { store = prune now heap.store }) refl is
        (prune-IsHeld key entry now heap early h))

finish_entry-IsHeld :
    (state : IdempotencyState) (events : List DispatchEvent) (now : ℕ) (key other : Text)
    (entry : IdempotencyEntry) (o : Option IdempotencyEntry) (heap : Heap)
    (claims : List IdempotencyClaim)
    → other ≢ key
    → IsHeld key entry heap
    → IsHeld key entry
        (record { store = finish_entry state events now other o heap.store; claims = claims })
unfolding finish_entry
finish_entry-IsHeld state events now key other entry none heap claims ne h = record {
  opened = h.opened;
  distinct = h.distinct;
  held = h.held;
}
finish_entry-IsHeld state events now key other entry (some e) heap claims ne h =
    let new : IdempotencyEntry = record {
      state = state;
      events = events;
      expires_at = add_duration now heap.store.ttl;
    } in
    let put = put-IsHeld key other entry new heap ne h in
    elim (Bool-cases (is_pending e.state)) [
      | inl open_ ↦ rw open_ (record { opened = h.opened; distinct = put.0; held = put.1 })
      | inr done ↦ rw done (record { opened = h.opened; distinct = h.distinct; held = h.held })
    ]

finish_claim-IsHeld :
    (state : IdempotencyState) (events : List DispatchEvent) (now : ℕ) (key : Text)
    (entry : IdempotencyEntry) (o : Option IdempotencyClaim) (n : ℕ) (heap : Heap)
    → key_of o ≢ some key
    → IsHeld key entry heap
    → IsHeld key entry (finish_claim state events now o n heap)
unfolding finish_claim
finish_claim-IsHeld state events now key entry none n heap ne h = h
finish_claim-IsHeld state events now key entry (some c) n heap ne h = elim (Bool-cases c.used) [
  | inl used_ ↦ rw used_ h
  | inr fresh ↦ rw fresh (
      finish_entry-IsHeld state events now key c.key entry (lookup c.key heap.store.entries) heap
        (mark_used n heap.claims) (λ same. ne (ap some same)) h)
]

step-IsHeld :
    (c : Call) (key : Text) (entry : IdempotencyEntry) (heap : Heap)
    → entry.state ≢ failed
    → IsAside key entry.expires_at c heap
    → IsHeld key entry heap
    → IsHeld key entry (step c heap)
unfolding step complete fail
step-IsHeld (begins ctx p m sampled wall) key entry heap is aside h =
    begin_at-IsHeld (begin_key ctx p m) key entry (clock sampled wall) heap aside is h
step-IsHeld (completes events n sampled wall) key entry heap is aside h =
    finish_claim-IsHeld completed events (clock sampled wall) key entry (claim_at n heap.claims) n
      heap aside h
step-IsHeld (fails n sampled wall) key entry heap is aside h =
    finish_claim-IsHeld failed [] (clock sampled wall) key entry (claim_at n heap.claims) n heap
      aside h
step-IsHeld closes key entry heap is aside h = absurd aside

pub run-IsHeld :
    (cs : List Call) (key : Text) (entry : IdempotencyEntry) (heap : Heap)
    → entry.state ≢ failed
    → AreAside key entry.expires_at cs heap
    → IsHeld key entry heap
    → IsHeld key entry (run cs heap)
unfolding run
run-IsHeld [] key entry heap is aside h = h
run-IsHeld (c ∷ cs) key entry heap is aside h =
    run-IsHeld cs key entry (step c heap) is aside.1 (step-IsHeld c key entry heap is aside.0 h)
