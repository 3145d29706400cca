-- ===== src/Runtime/Queue/Examples.antt =====
-- trpcservice/runtime/queue/queue.go: the theorems at concrete stores.
use trpc_agent_service_platf.Base.{
  ltb, if◌then◌else◌, nat_eq, list_eq, inr, ◌*◌, ◌⊎◌, some, refl, ok, none, false, err, arith, ap,
  ◌≤◌, ◌≢◌, ◌≡◌, ◌∷◌, true, subst, list_beq, [], Option, ℕ, List, ◌<◌,
}
use trpc_agent_service_platf.Runtime.Queue.{
  is_before, not_found, conflict, after_enqueue, settles, fails, enqueues, eligible_keys,
  completion, completes, transition, step, settled, new_task, new_backend, lease, claims, Call,
  task_key, settle, run, enqueue, claim, TaskInput, Task, Backend,
}
use trpc_agent_service_platf.Runtime.Queue.Worker.{
  HandlerError, run_once, new_worker, backoff, Worker, Times, Config,
}
use trpc_agent_service_platf.Runtime.Queue.Claiming.{
  claim_total, NoneEligible, claim-IsClaim, IsClaim,
}
use trpc_agent_service_platf.Runtime.Queue.Invariant.{
  new_backend-IsWellFormed, step-IsWellFormed, IsWellFormed,
}
use trpc_agent_service_platf.Base.Text.{codes, Text}
use trpc_agent_service_platf.Base.Maps.{insert, lookup}
use trpc_agent_service_platf.Runtime.Queue.Keys.{task_key-injective, HasKeys}
use trpc_agent_service_platf.Base.Contexts.{background}
use trpc_agent_service_platf.Base.Ints.{pos}
use trpc_agent_service_platf.Runtime.Queue.Worker.Outcomes.{run_once_settles, IsHandled}
use trpc_agent_service_platf.Runtime.Queue.Enqueuing.{
  enqueue_idempotent, enqueue_conflict, SameContent,
}
use trpc_agent_service_platf.Runtime.Queue.Leases.{lease_excludes}
use trpc_agent_service_platf.Base.Sorting.{sort}
use trpc_agent_service_platf.Runtime.Queue.Worker.Backoff.{backoff_doubles}
use trpc_agent_service_platf.Runtime.Queue.Fences.{fence_settles_once}

abbrev input : TaskInput
input = record { tenant_id = codes "t1"; task_id = codes "a"; kind = codes "run"; payload = 7 ∷ [] }

abbrev other_input : TaskInput
other_input = record input { payload = 8 ∷ [] }

-- One task, queued at time 10.
abbrev waiting_task : Task
waiting_task = new_task input 10

abbrev key : Text
key = 116 ∷ 49 ∷ 0 ∷ 97 ∷ []

abbrev waiting : Backend
waiting = record { tasks = (key, waiting_task) ∷ []; refs = 1; closed = false }

abbrev owner : Text
owner = codes "w1"

-- The task leased at time 20 for 30.
abbrev running_task : Task
running_task = lease owner (pos 30) 20 waiting_task

abbrev running : Backend
running = record { tasks = (key, running_task) ∷ []; refs = 1; closed = false }

abbrev done_task : Task
done_task = settled completion 31 running_task

abbrev done : Backend
done = record { tasks = (key, done_task) ∷ []; refs = 1; closed = false }

enqueued : enqueue background input 10 new_backend ≡ ok (waiting_task, false, waiting)
unfolding enqueue new_backend lookup insert task_key
enqueued = refl

claimed : claim background (codes "t1") owner (pos 30) 20 waiting ≡ ok (running_task, running)
unfolding claim lookup insert eligible_keys sort is_before list_beq
claimed = refl

completed_it :
    settle background (codes "t1") (codes "a") owner (pos 1) completes 30 31 running
    ≡ ok (done_task, done)
unfolding settle transition lookup insert task_key list_beq
completed_it = refl

waiting-HasKeys : HasKeys waiting
unfolding lookup
waiting-HasKeys = (refl, tt)

running-HasKeys : HasKeys running
unfolding lookup
running-HasKeys = (refl, tt)

running-found : lookup key running.tasks ≡ some running_task
unfolding lookup list_beq
running-found = refl

waiting-IsWellFormed : IsWellFormed waiting
waiting-IsWellFormed = subst IsWellFormed (ap (after_enqueue new_backend) enqueued) (
    unfold step in
    step-IsWellFormed new_backend (enqueues background input 10) new_backend-IsWellFormed)

step-IsWellFormed_example : IsWellFormed (step waiting (claims background [] owner (pos 30) 20))
step-IsWellFormed_example =
    step-IsWellFormed waiting (claims background [] owner (pos 30) 20) waiting-IsWellFormed

claim-IsClaim_example : IsClaim (codes "t1") owner (pos 30) 20 waiting running_task running
claim-IsClaim_example =
    claim-IsClaim background (codes "t1") owner (pos 30) 20 waiting running running_task
      waiting-HasKeys claimed

claim_total_example :
    ((claim background [] owner (pos 30) 5 waiting ≡ err not_found) × NoneEligible [] 5 waiting)
    ⊎ ((u : Task) × (b' : Backend) × (claim background [] owner (pos 30) 5 waiting ≡ ok (u, b'))
        × (¬ NoneEligible [] 5 waiting))
claim_total_example = claim_total [] owner (pos 30) 5 waiting waiting-HasKeys refl refl

-- Another claim and an attempt at a second completion, after the first.
abbrev later_calls : List Call
later_calls =
    claims background [] (codes "w2") (pos 5) 60
    ∷ settles background (codes "t1") (codes "a") owner (pos 1) completes 61 62
    ∷ []

fence_settles_once_example :
    settle background (codes "t1") (codes "a") owner (pos 1) (fails []) 70 71 (run done later_calls)
    ≡ err conflict
fence_settles_once_example =
    fence_settles_once background (codes "t1") (codes "a") owner 1 completes 30 31 running done
      done_task later_calls owner (fails []) 70 71 running-HasKeys (omega arith) refl completed_it

-- Another worker claims, and enqueues again, while the lease runs.
abbrev others : List Call
others = claims background [] (codes "w2") (pos 5) 25 ∷ enqueues background input 26 ∷ []

lease_excludes_example : lookup key (run running others).tasks ≡ some running_task
lease_excludes_example =
    lease_excludes key running_task 50 running others running-HasKeys running-found
      (record { status = refl; expires = refl }) (omega arith, (tt, tt))

open_after : (run waiting later_calls).closed ≡ false
unfolding run step claim settle transition lookup insert eligible_keys sort is_before task_key
    list_beq
open_after = refl

enqueue_idempotent_example :
    (u : Task) × (enqueue background input 90 (run waiting later_calls)
      ≡ ok (u, true, run waiting later_calls))
    × SameContent waiting_task u
unfolding new_backend
enqueue_idempotent_example =
    enqueue_idempotent background input 10 90 new_backend waiting waiting_task false later_calls tt
      enqueued open_after

payload_differs : (codes "run" ≢ codes "run") ⊎ (other_input.payload ≢ input.payload)
payload_differs = inr (λ e. ground (arith, e))

enqueue_conflict_example :
    enqueue background other_input 90 (run waiting later_calls) ≡ err conflict
unfolding new_backend
enqueue_conflict_example =
    enqueue_conflict background input other_input 10 90 new_backend waiting waiting_task false
      later_calls tt enqueued open_after refl refl refl payload_differs

abbrev config : Config
config = record {
  has_store = true;
  has_handler = true;
  tenant_id = [];
  owner = owner;
  lease_duration = pos 30;
  poll_interval = pos 0;
  max_attempts = pos 0;
  backoff_base = pos 3;
  backoff_max = pos 20;
}

abbrev worker : Worker
worker = record {
  tenant_id = [];
  owner = owner;
  lease_duration = pos 30;
  poll_interval = pos 100000000;
  max_attempts = pos 3;
  backoff_base = 3;
  backoff_max = 20;
  started = false;
  closed = false;
}

worker_made : new_worker config ≡ ok worker
unfolding new_worker
worker_made = refl

backoff_doubles_example :
    (0 < 3)
    × (3 ≤ backoff worker (pos 4))
    × (backoff worker (pos 4) ≤ 20)
    × (backoff worker (pos 1) ≡ 3)
    × (backoff worker (pos 6)
        ≡ (if ltb (backoff worker (pos 5)) 10 then 2 * backoff worker (pos 5) else 20))
backoff_doubles_example = backoff_doubles config worker 4 (omega arith) worker_made

backoff_values : (backoff worker (pos 2) ≡ 6) × (backoff worker (pos 3) ≡ 12)
unfolding backoff
backoff_values = (refl, refl)

abbrev handler : Task → Option HandlerError
handler t = some (record { is_canceled = false; is_deadline = false; is_retryable = true })

abbrev times : Times
times = record { claimed = 20; due_from = 40; checked = 41; updated = 42 }

run_once_settles_example :
    (b₂ : Backend) × (u : Task) × (run_once worker background
        (codes "t1")
        times
        handler
        (λ x. run x others)
        waiting
      ≡ (true, none, b₂))
    × (lookup (task_key (codes "t1") (codes "a")) b₂.tasks ≡ some u)
    × IsHandled worker 40 running_task (handler running_task) u
unfolding task_key
run_once_settles_example =
    run_once_settles worker (λ _. none) (codes "t1") times handler others waiting running
      running_task 0 waiting-IsWellFormed refl refl refl claimed refl (omega arith)
      (omega arith, (tt, tt))

no_nul : (c : ℕ) → 0 < c → c ≢ 0
no_nul c h = omega arith

task_key-injective_example : (codes "t1" ≡ codes "t1") × (codes "a" ≡ codes "a")
task_key-injective_example =
    task_key-injective (codes "t1") (codes "t1") (codes "a") (codes "a")
      (no_nul _ (omega arith), (no_nul _ (omega arith), tt))
      (no_nul _ (omega arith), (no_nul _ (omega arith), tt)) refl
