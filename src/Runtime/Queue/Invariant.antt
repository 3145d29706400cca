-- ===== src/Runtime/Queue/Invariant.antt =====
-- trpcservice/runtime/queue/queue.go: what holds of every task in the store.
use trpc_agent_service_platf.Runtime.Queue.{
  outcome, settled, lease, after_move, settle, claim, after_enqueue, enqueue, Settlement, Error,
  close_view, run, new_view, new_backend, enqueue_at, new_task, content, closes, opens,
  validate_input, settles, claims, enqueues, TaskInput, task_key, is_leased, Call, step, Task,
  Backend,
}
use trpc_agent_service_platf.Base.Text.{Text}
use trpc_agent_service_platf.Runtime.Queue.Keys.{step-HasKeys, HasKeys}
use trpc_agent_service_platf.Base.Maps.{lookup-insert_ne, lookup-insert, Map, lookup}
use trpc_agent_service_platf.Base.{
  Option-cases, ==_iff, subst, ◌==◌, err, arith, Bool-cases, ◌∷◌, inr, Option, ◌≢◌, inl, Result,
  List, Bool, ◌⊎◌, refl, ◌∙◌, sym, ok, [], false, ap, ℕ, true, nat_eq, list_eq, some, none, ◌≡◌,
}
use trpc_agent_service_platf.Runtime.Queue.Steps.{step-Moves, Moves, release, take, stay, TaskStep}
use trpc_agent_service_platf.Base.Ints.{add_duration, ℤ, incr}
use mathlib.Core.Bool.{false≢true}
use trpc_agent_service_platf.Runtime.Queue.Fences.{settle-IsSettlement, outcome-unleased}
use trpc_agent_service_platf.Base.Contexts.{Context}
use trpc_agent_service_platf.Runtime.Queue.Enqueuing.{enqueue-enqueue_at, TaskStep-SameContent}
use mathlib.Core.Option.{some-injective, none-ne-some}
use trpc_agent_service_platf.Runtime.Queue.Claiming.{claim-IsClaim}

-- A task has a lease exactly while it is leased, and has been leased as often as its fence says.
pub record IsValid (t : Task) : Type 0 where
  pub fenced : t.attempts ≡ t.fencing_token
  pub leased_until : is_leased t.status ≡ true → (e : ℕ) × (t.lease_expires_at ≡ some e)
  pub released : is_leased t.status ≡ false → (t.lease_expires_at ≡ none) × (t.lease_owner ≡ [])
  pub named : validate_input (content t) ≡ ok tt

pub TaskStep-IsValid : (k : Text) (c : Call) (t u : Task) → TaskStep k c t u → IsValid t → IsValid u
TaskStep-IsValid k c t u (stay e) v = rw e v
TaskStep-IsValid k c t u (take ctx tenant owner duration now call g e) v = rw e (record {
  fenced = ap incr v.fenced;
  leased_until = λ _. (add_duration now duration, refl);
  released = λ h. cc;
  named = v.named;
})
TaskStep-IsValid k c t u (release ctx tenant task owner fence s now later call at g e) v =
    rw e (record {
      fenced = v.fenced;
      leased_until = λ h. absurd (false≢true (sym (outcome-unleased s) ∙ h));
      released = λ h. (refl, refl);
      named = v.named;
    })

-- Every task stands under the key of its own tenant and task ID, and is valid.
pub record IsStored (k : Text) (t : Task) : Type 0 where
  pub keyed : k ≡ task_key t.tenant_id t.task_id
  pub valid : IsValid t

pub record IsWellFormed (b : Backend) : Type 0 where
  pub keys : HasKeys b
  pub stored : (k : Text) (t : Task) → lookup k b.tasks ≡ some t → IsStored k t

-- What a call can put at a key that held nothing: the new task of an enqueue.
abbrev IsNew : Text → Backend → Type 0
IsNew k b =
    (u : Task)
    → lookup k b.tasks ≡ some u
    → (v : TaskInput) × (now : ℕ) × (validate_input v ≡ ok tt)
      × (k ≡ task_key v.tenant_id v.task_id)
      × (u ≡ new_task v now)

ne_of_lookup :
    (j k : Text) (t : Task) (m : Map Text Task) → lookup j m ≡ some t → lookup k m ≡ none → j ≢ k
ne_of_lookup j k t m found missing same =
    none-ne-some t (sym missing ∙ ap (λ i. lookup i m) (sym same) ∙ found)

module _ (k : Text) (b : Backend) (d : HasKeys b) (missing : lookup k b.tasks ≡ none) where
  claim-missing :
      (ctx : Context) (tenant owner : Text) (duration : ℤ) (now : ℕ)
      (r : Result Error (Task × Backend))
      → claim ctx tenant owner duration now b ≡ r
      → lookup k (after_move b r).tasks ≡ none
  claim-missing ctx tenant owner duration now (err e) h = missing
  claim-missing ctx tenant owner duration now (ok (u, b')) h =
      let c = claim-IsClaim ctx tenant owner duration now b b' u d h in
      rw c.stored (
        lookup-insert_ne c.key k (lease owner duration now c.before) b.tasks
          (ne_of_lookup c.key k c.before b.tasks c.found missing)
        ∙ missing)

  settle-missing :
      (ctx : Context) (tenant task owner : Text) (fence : ℤ) (s : Settlement) (now later : ℕ)
      (r : Result Error (Task × Backend))
      → settle ctx tenant task owner fence s now later b ≡ r
      → lookup k (after_move b r).tasks ≡ none
  settle-missing ctx tenant task owner fence s now later (err e) h = missing
  settle-missing ctx tenant task owner fence s now later (ok (u, b')) h =
      let c = settle-IsSettlement ctx tenant task owner fence s now later b b' u h in
      let j = task_key tenant task in
      rw c.stored (
        lookup-insert_ne j k (settled (outcome s) later c.before) b.tasks
          (ne_of_lookup j k c.before b.tasks c.found missing)
        ∙ missing)

  enqueue_at-IsNew :
      (v : TaskInput) (now : ℕ) (b' : Backend) (t : Task) (old : Bool) (o : Option Task)
      → validate_input v ≡ ok tt
      → lookup (task_key v.tenant_id v.task_id) b.tasks ≡ o
      → enqueue_at v now b o ≡ ok (t, old, b')
      → IsNew k b'
  unfolding enqueue_at
  enqueue_at-IsNew v now b' t old none valid e h u there =
      let j = task_key v.tenant_id v.task_id in
      let at = lookup-insert j k (new_task v now) b.tasks in
      elim (Bool-cases (j == k)) [
        | inl same ↦ (v, now, valid, sym ((==_iff j k).0 same), ground (arith, at))
        | inr other ↦ absurd (none-ne-some u (ground (arith, at)))
      ]
  enqueue_at-IsNew v now b' t old (some t₀) valid e h u there =
      absurd (none-ne-some u (ground arith))

  enqueue-IsNew :
      (ctx : Context) (v : TaskInput) (now : ℕ) (r : Result Error (Task × Bool × Backend))
      → enqueue ctx v now b ≡ r
      → IsNew k (after_enqueue b r)
  enqueue-IsNew ctx v now (err e) h u there = absurd (none-ne-some u (sym missing ∙ there))
  enqueue-IsNew ctx v now (ok (t, old, b')) h u there =
      let (valid, at) = enqueue-enqueue_at ctx v now b b' t old h in
      enqueue_at-IsNew v now b' t old (lookup (task_key v.tenant_id v.task_id) b.tasks) valid refl
        at u there

  IsNew-of_missing : (b' : Backend) → lookup k b'.tasks ≡ none → IsNew k b'
  IsNew-of_missing b' e u there = absurd (none-ne-some u (sym e ∙ there))

  step-IsNew : (c : Call) → IsNew k (step b c)
  unfolding step new_view close_view
  step-IsNew (enqueues ctx v now) = enqueue-IsNew ctx v now (enqueue ctx v now b) refl
  step-IsNew (claims ctx tenant owner duration now) =
      IsNew-of_missing (step b (claims ctx tenant owner duration now))
        (claim-missing ctx tenant owner duration now (claim ctx tenant owner duration now b) refl)
  step-IsNew (settles ctx tenant task owner fence s now later) =
      IsNew-of_missing (step b (settles ctx tenant task owner fence s now later)) (
        settle-missing ctx tenant task owner fence s now later
          (settle ctx tenant task owner fence s now later b) refl)
  step-IsNew opens = IsNew-of_missing (new_view b) (ground arith)
  step-IsNew closes = IsNew-of_missing (close_view b) (ground arith)

new_task-IsStored :
    (k : Text) (v : TaskInput) (now : ℕ) (u : Task)
    → validate_input v ≡ ok tt
    → k ≡ task_key v.tenant_id v.task_id
    → u ≡ new_task v now
    → IsStored k u
new_task-IsStored k v now u valid key e = rw e (record {
  keyed = key;
  valid = record {
    fenced = refl;
    leased_until = λ h. absurd (false≢true h);
    released = λ _. (refl, refl);
    named = valid;
  };
})

pub TaskStep-IsStored :
    (k : Text) (c : Call) (t u : Task) → TaskStep k c t u → IsStored k t → IsStored k u
TaskStep-IsStored k c t u s i =
    let same = TaskStep-SameContent k c t u s in
    record { keyed = rw (same.0, same.1) i.keyed; valid = TaskStep-IsValid k c t u s i.valid }

-- Every call keeps the store well formed: each task stands once, under the key of its own tenant
-- and task ID, its input is valid, it has a lease exactly while its status is leased, and it has
-- been leased as often as its fencing token says.
pub step-IsWellFormed : (b : Backend) (c : Call) → IsWellFormed b → IsWellFormed (step b c)
step-IsWellFormed b c w = record {
  keys = step-HasKeys b c w.keys;
  stored = λ k. stored k (Option-cases (lookup k b.tasks));
}
  where
    stored :
        (k : Text)
        → (lookup k b.tasks ≡ none) ⊎ ((t : Task) × (lookup k b.tasks ≡ some t))
        → (u : Task) → lookup k (step b c).tasks ≡ some u
        → IsStored k u
    stored k (inl missing) u there =
        let (v, now, valid, key, e) = step-IsNew k b w.keys missing c u there in
        new_task-IsStored k v now u valid key e
    stored k (inr (t, here)) u there =
        let m : Moves k c t (step b c) = step-Moves k t b w.keys here c in
        subst (IsStored k) (some-injective m.task u (sym m.found ∙ there))
          (TaskStep-IsStored k c t m.task m.moved (w.stored k t here))

-- So it is after any history of a new backend.
pub run-IsWellFormed : (b : Backend) (cs : List Call) → IsWellFormed b → IsWellFormed (run b cs)
unfolding run
run-IsWellFormed b [] w = w
run-IsWellFormed b (c ∷ cs) w = run-IsWellFormed (step b c) cs (step-IsWellFormed b c w)

pub new_backend-IsWellFormed : IsWellFormed new_backend
unfolding new_backend lookup
new_backend-IsWellFormed = record { keys = tt; stored = λ k t h. absurd (none-ne-some t h) }
