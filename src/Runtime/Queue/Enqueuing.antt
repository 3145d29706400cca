-- ===== src/Runtime/Queue/Enqueuing.antt =====
-- trpcservice/runtime/queue/queue.go: a task is recorded once, and its content never changes.
use trpc_agent_service_platf.Runtime.Queue.{
  conflict, new_task, step, validate_input, task_key, TaskInput, enqueue_at, Call, Backend, run,
  enqueue, Task,
}
use trpc_agent_service_platf.Base.Text.{Text}
use trpc_agent_service_platf.Base.Contexts.{background, Context}
use trpc_agent_service_platf.Base.{
  inr, sym, inl, err, ◌⊎◌, ◌≢◌, none, list_beq_iff, arith, [], Option, refl, true, nat_eq, list_eq,
  ◌∷◌, false, some, ok, Bool, ℕ, List, ◌≡◌, ◌∙◌,
}
use trpc_agent_service_platf.Runtime.Queue.Steps.{release, take, step-Moves, stay, Moves, TaskStep}
use trpc_agent_service_platf.Runtime.Queue.Keys.{step-HasKeys, HasKeys}
use trpc_agent_service_platf.Base.Maps.{insert-HasDistinctKeys, lookup-insert_self, lookup}

-- The fields of a task that no later call changes.
abbrev pub SameContent : Task → Task → Type 0
SameContent t u =
    (u.tenant_id ≡ t.tenant_id)
    × (u.task_id ≡ t.task_id)
    × (u.kind ≡ t.kind)
    × (u.payload ≡ t.payload)
    × (u.created_at ≡ t.created_at)

pub TaskStep-SameContent : (k : Text) (c : Call) (t u : Task) → TaskStep k c t u → SameContent t u
TaskStep-SameContent k c t u (stay e) = rw e (refl, refl, refl, refl, refl)
TaskStep-SameContent k c t u (take ctx tenant owner duration now call g e) =
    rw e (refl, refl, refl, refl, refl)
TaskStep-SameContent k c t u (release ctx tenant task owner fence s now later call at g e) =
    rw e (refl, refl, refl, refl, refl)

SameContent-trans : (t u v : Task) → SameContent t u → SameContent u v → SameContent t v
SameContent-trans t u v h g = (g.0 ∙ h.0, g.1 ∙ h.1, g.2 ∙ h.2, g.3 ∙ h.3, g.4 ∙ h.4)

-- No call removes a task or changes its identity, kind, payload or creation time.
pub run-SameContent :
    (k : Text) (t : Task) (b : Backend) (cs : List Call)
    → HasKeys b
    → lookup k b.tasks ≡ some t
    → (u : Task) × (lookup k (run b cs).tasks ≡ some u) × SameContent t u
unfolding run
run-SameContent k t b [] d here = (t, here, (refl, refl, refl, refl, refl))
run-SameContent k t b (c ∷ cs) d here =
    let m : Moves k c t (step b c) = step-Moves k t b d here c in
    let (u, found, same) = run-SameContent k m.task (step b c) cs (step-HasKeys b c d) m.found in
    (u, found, SameContent-trans t m.task u (TaskStep-SameContent k c t m.task m.moved) same)

-- What an enqueue that succeeds leaves at its key: the task, new or old, with the input's content.
enqueue_at-found :
    (v : TaskInput) (now : ℕ) (b b' : Backend) (t : Task) (old : Bool) (o : Option Task)
    → lookup (task_key v.tenant_id v.task_id) b.tasks ≡ o
    → enqueue_at v now b o ≡ ok (t, old, b')
    → (lookup (task_key v.tenant_id v.task_id) b'.tasks ≡ some t)
      × (t.kind ≡ v.kind)
      × (t.payload ≡ v.payload)
      × (HasKeys b → HasKeys b')
unfolding enqueue_at
enqueue_at-found v now b b' t old none missing e = (
  ground (arith, lookup-insert_self (task_key v.tenant_id v.task_id) (new_task v now) b.tasks),
  ground arith,
  ground arith,
  λ d.
      ground
        (arith, insert-HasDistinctKeys (task_key v.tenant_id v.task_id) (new_task v now) b.tasks d),
)
enqueue_at-found v now b b' t old (some t₀) found e = (
  ground arith,
  ground (arith, list_beq_iff t₀.kind v.kind),
  ground (arith, list_beq_iff t₀.payload v.payload),
  λ d. ground arith,
)

pub enqueue-enqueue_at :
    (ctx : Context) (v : TaskInput) (now : ℕ) (b b' : Backend) (t : Task) (old : Bool)
    → enqueue ctx v now b ≡ ok (t, old, b')
    → (validate_input v ≡ ok tt)
      × (enqueue_at v now b (lookup (task_key v.tenant_id v.task_id) b.tasks) ≡ ok (t, old, b'))
unfolding enqueue
enqueue-enqueue_at ctx v now b b' t old e = (ground arith, ground arith)

module _ (v : TaskInput) (later : ℕ) (b : Backend) (u : Task) (valid : validate_input v ≡ ok tt)
    (open_store : b.closed ≡ false)
    (there : lookup (task_key v.tenant_id v.task_id) b.tasks ≡ some u) where
  enqueue_known :
      u.kind ≡ v.kind → u.payload ≡ v.payload → enqueue background v later b ≡ ok (u, true, b)
  unfolding enqueue enqueue_at
  enqueue_known k p =
      rw (valid, open_store, there)
        (ground (arith, list_beq_iff u.kind v.kind, list_beq_iff u.payload v.payload))

  enqueue_other :
      (u.kind ≢ v.kind) ⊎ (u.payload ≢ v.payload) → enqueue background v later b ≡ err conflict
  unfolding enqueue enqueue_at
  enqueue_other h =
      rw (valid, open_store, there)
        (ground (arith, h, list_beq_iff u.kind v.kind, list_beq_iff u.payload v.payload))

-- Enqueuing is idempotent: after an enqueue that succeeded and any further calls, the same input
-- on a store that is open finds the task as it is then, with the content that it got at first, and
-- changes nothing.
pub enqueue_idempotent :
    (ctx : Context) (v : TaskInput) (now later : ℕ) (b b' : Backend) (t : Task) (old : Bool)
    (cs : List Call)
    → HasKeys b
    → enqueue ctx v now b ≡ ok (t, old, b')
    → (run b' cs).closed ≡ false
    → (u : Task) × (enqueue background v later (run b' cs) ≡ ok (u, true, run b' cs))
      × SameContent t u
unfolding enqueue enqueue_at
enqueue_idempotent ctx v now later b b' t old cs d e o =
    let (valid, at) = enqueue-enqueue_at ctx v now b b' t old e in
    let k = task_key v.tenant_id v.task_id in
    let (found, kind, payload, keeps) =
      enqueue_at-found v now b b' t old (lookup k b.tasks) refl at in
    let (u, there, same) = run-SameContent k t b' cs (keeps d) found in
    (u, enqueue_known v later (run b' cs) u valid o there (same.2 ∙ kind) (same.3 ∙ payload), same)

-- After an enqueue that succeeded and any further calls, on a store that is still open and with a
-- context that is not done, a valid input under the same tenant and task ID with another kind or
-- payload is refused with ErrConflict.
pub enqueue_conflict :
    (ctx : Context) (v w : TaskInput) (now later : ℕ) (b b' : Backend) (t : Task) (old : Bool)
    (cs : List Call)
    → HasKeys b
    → enqueue ctx v now b ≡ ok (t, old, b')
    → (run b' cs).closed ≡ false
    → w.tenant_id ≡ v.tenant_id
    → w.task_id ≡ v.task_id
    → validate_input w ≡ ok tt
    → (w.kind ≢ v.kind) ⊎ (w.payload ≢ v.payload)
    → enqueue background w later (run b' cs) ≡ err conflict
enqueue_conflict ctx v w now later b b' t old cs d e o same_tenant same_task valid differs =
    let (_, at) = enqueue-enqueue_at ctx v now b b' t old e in
    let k = task_key v.tenant_id v.task_id in
    let (found, kind, payload, keeps) =
      enqueue_at-found v now b b' t old (lookup k b.tasks) refl at in
    let (u, there, same) = run-SameContent k t b' cs (keeps d) found in
    enqueue_other w later (run b' cs) u valid o (rw (same_tenant, same_task) there)
      (differ u (same.2 ∙ kind) (same.3 ∙ payload) differs)
  where
    differ :
        (u : Task)
        → u.kind ≡ v.kind
        → u.payload ≡ v.payload
        → (w.kind ≢ v.kind) ⊎ (w.payload ≢ v.payload)
        → (u.kind ≢ w.kind) ⊎ (u.payload ≢ w.payload)
    differ u k p (inl h) = inl (λ q. h (sym q ∙ k))
    differ u k p (inr h) = inr (λ q. h (sym q ∙ p))
