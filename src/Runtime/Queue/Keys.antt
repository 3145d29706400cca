-- ===== src/Runtime/Queue/Keys.antt =====
-- trpcservice/runtime/queue/queue.go: the keys of the task map.
use mathlib.Core.Path.{ap₂}
use trpc_agent_service_platf.Base.{
  ℕ, ◌≡◌, refl, ◌≢◌, Option, none, some, [], ◌∷◌, require, arith, not, nat_eq, list_eq,
}
use trpc_agent_service_platf.Base.Text.{Text}
use trpc_agent_service_platf.Base.Ints.{ℤ, int_eq}
use trpc_agent_service_platf.Base.Maps.{lookup, HasDistinctKeys, insert-HasDistinctKeys}
use trpc_agent_service_platf.Base.Sorting.{All}
use trpc_agent_service_platf.Runtime.Queue.{
  Backend, Task, TaskInput, Call, invalid, conflict, closed, enqueues, claims, settles, opens,
  closes, holds_lease, enqueue, enqueue_at, claim, claim_first, transition, new_view, close_view,
  step, task_key, are_lease_arguments, are_claim_arguments, context_err, after_move, after_enqueue,
  validate_input, or_missing,
}
use trpc_agent_service_platf.Runtime.Queue.Steps.{
  after_move-bind, after_enqueue-bind, settle-transition,
}

abbrev pub HasKeys : Backend → Type 0
HasKeys b = HasDistinctKeys b.tasks

claim_first-HasKeys :
    (owner : Text) (duration : ℤ) (now : ℕ) (b : Backend) (o : Option Text)
    → HasKeys b
    → HasKeys (after_move b (claim_first owner duration now b o))
unfolding claim_first
claim_first-HasKeys owner duration now b none d = d
claim_first-HasKeys owner duration now b (some k) d = insert-HasDistinctKeys k _ b.tasks d

enqueue_at-HasKeys :
    (v : TaskInput) (now : ℕ) (b : Backend) (o : Option Task)
    → HasKeys b
    → HasKeys (after_enqueue b (enqueue_at v now b o))
unfolding enqueue_at
enqueue_at-HasKeys v now b none d = insert-HasDistinctKeys _ _ b.tasks d
enqueue_at-HasKeys v now b (some t) d = ground arith

-- Each key stays unique in the map, whatever call is made.
pub step-HasKeys : (b : Backend) (c : Call) → HasKeys b → HasKeys (step b c)
unfolding step enqueue claim transition new_view close_view
step-HasKeys b (enqueues ctx v now) d = after_enqueue-bind HasKeys b d (context_err ctx) _ λ _ _.
    after_enqueue-bind HasKeys b d (validate_input v) _ λ _ _.
      after_enqueue-bind HasKeys b d (require (not b.closed) closed) _
        λ _ _. enqueue_at-HasKeys v now b _ d
step-HasKeys b (claims ctx tenant owner duration now) d =
    after_move-bind HasKeys b d (context_err ctx) _ λ _ _.
      after_move-bind HasKeys b d (require (are_claim_arguments owner duration) invalid) _ λ _ _.
        after_move-bind HasKeys b d (require (not b.closed) closed) _
          λ _ _. claim_first-HasKeys owner duration now b _ d
step-HasKeys b (settles ctx tenant task owner fence s now later) d =
    rw (settle-transition ctx tenant task owner fence s now later b) (
      after_move-bind HasKeys b d (context_err ctx) _ λ _ _.
        after_move-bind HasKeys b d (require (are_lease_arguments tenant task owner fence) invalid)
          _
          λ _ _.
            after_move-bind HasKeys b d (or_missing (lookup (task_key tenant task) b.tasks)) _
              λ t _.
                after_move-bind HasKeys b d (require (holds_lease owner fence now t) conflict) _
                  λ _ _. insert-HasDistinctKeys _ _ b.tasks d)
step-HasKeys b opens d = ground arith
step-HasKeys b closes d = ground arith

-- Keys of tenants whose IDs hold no NUL are different for different tasks.
abbrev HasNoNul : Text → Type 0
HasNoNul = All λ c. c ≢ 0

-- `tenantID + "\x00" + taskID` tells tasks apart, also those of two tenants, where the tenant IDs
-- hold no NUL character.
pub task_key-injective :
    (tenant tenant' task task' : Text)
    → HasNoNul tenant
    → HasNoNul tenant'
    → task_key tenant task ≡ task_key tenant' task'
    → (tenant ≡ tenant') × (task ≡ task')
unfolding task_key
task_key-injective [] [] task task' h h' e = (refl, cc)
task_key-injective [] (c ∷ tenant') task task' h h' e = absurd (h'.0 (cc))
task_key-injective (c ∷ tenant) [] task task' h h' e = absurd (h.0 (cc))
task_key-injective (c ∷ tenant) (c' ∷ tenant') task task' h h' e =
    let rest = task_key-injective tenant tenant' task task' h.1 h'.1 (cc) in
    (ap₂ ◌∷◌ (cc) rest.0, rest.1)
