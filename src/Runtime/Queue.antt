-- ===== src/Runtime/Queue.antt =====
-- trpcservice/runtime/queue/queue.go: the in-memory queue store. A method takes the times that it
-- reads from the clock as arguments and returns the backend that it leaves; one that fails leaves
-- the backend as it was. The copies that cloneTask makes are values here. `\x00` is the rune 0.
pub mod Keys
pub mod Steps
pub mod Fences
pub mod Leases
pub mod Claiming
pub mod Enqueuing
pub mod Invariant
pub mod Worker
pub mod Examples
use mathlib.Core.List.{head?}
use trpc_agent_service_platf.Base.{
  ℕ, ◌+◌, ◌-◌, Bool, true, false, ◌&&◌, ◌||◌, not, Option, none, some, List, [], ◌∷◌, ◌++◌, Result,
  ok, err, ◌>>=◌, ◌>>◌, require, ltb, leb, ◌==◌, nat_eq, list_eq, if◌then◌else◌,
}
use trpc_agent_service_platf.Base.Text.{Text, is_empty, codes, text_ltb}
use trpc_agent_service_platf.Base.Ints.{add_duration, ℤ, pos, negsuc, incr, int_eq, int_leb}
use trpc_agent_service_platf.Base.Maps.{Map, lookup, insert}
use trpc_agent_service_platf.Base.Contexts.{Context, nil_context, context, ContextError}
use trpc_agent_service_platf.Base.Sorting.{sort}

pub data Error : Type 0 where
  invalid not_found conflict closed : Error
  context_error : ContextError → Error

pub data Status : Type 0 where
  queued leased retryable completed failed : Status

pub record Task : Type 0 where
  pub tenant_id : Text
  pub task_id : Text
  pub kind : Text
  pub payload : List ℕ
  pub status : Status
  pub attempts : ℤ
  pub fencing_token : ℤ
  pub lease_owner : Text
  pub lease_expires_at : Option ℕ
  pub next_attempt_at : ℕ
  pub last_error_class : Text
  pub created_at : ℕ
  pub updated_at : ℕ

pub record TaskInput : Type 0 where
  pub tenant_id : Text
  pub task_id : Text
  pub kind : Text
  pub payload : List ℕ

-- Backend, without its mutex: each method runs alone.
pub record Backend : Type 0 where
  pub tasks : Map Text Task
  pub refs : ℕ
  pub closed : Bool

unfoldable pub new_backend : Backend
new_backend = record { tasks = []; refs = 1; closed = false }

-- NewMemoryWithBackend on a backend that is there
unfoldable pub new_view : Backend → Backend
new_view b = if b.closed then b else record b { refs = b.refs + 1 }

-- A store view's Close; its sync.Once lets each view call it once.
unfoldable pub close_view : Backend → Backend
close_view b =
    let refs = b.refs - 1 in
    if refs == 0 then record b { refs = refs; closed = true } else record b { refs = refs }

abbrev pub context_err : Context → Result Error Unit
context_err nil_context = err invalid
context_err (context errs) = elim (errs 0) [ none ↦ ok tt | some e ↦ err (context_error e) ]

unfoldable pub task_key : Text → Text → Text
task_key tenant task = tenant ++ 0 ∷ task

abbrev pub validate_input : TaskInput → Result Error Unit
validate_input v =
    require
      (not (is_empty v.tenant_id || is_empty v.task_id || is_empty v.kind || is_empty v.payload))
      invalid

abbrev pub new_task : TaskInput → ℕ → Task
new_task v now = record {
  tenant_id = v.tenant_id;
  task_id = v.task_id;
  kind = v.kind;
  payload = v.payload;
  status = queued;
  attempts = pos 0;
  fencing_token = pos 0;
  lease_owner = [];
  lease_expires_at = none;
  next_attempt_at = now;
  last_error_class = [];
  created_at = now;
  updated_at = now;
}

-- The branches of Enqueue under the lock, by what the map holds at the key. The Boolean result
-- says that the task was there before.
unfoldable pub enqueue_at :
    TaskInput → ℕ → Backend → Option Task → Result Error (Task × Bool × Backend)
enqueue_at v now b none =
    let task = new_task v now in
    ok (task, false, record b { tasks = insert (task_key v.tenant_id v.task_id) task b.tasks })
enqueue_at v now b (some existing) =
    if not (existing.kind == v.kind) || not (existing.payload == v.payload)
    then err conflict
    else ok (existing, true, b)

unfoldable pub enqueue : Context → TaskInput → ℕ → Backend → Result Error (Task × Bool × Backend)
unfolding enqueue_at
enqueue ctx v now b = do
  context_err ctx
  validate_input v
  require (not b.closed) closed
  enqueue_at v now b (lookup (task_key v.tenant_id v.task_id) b.tasks)

abbrev pub or_missing : Option Task → Result Error Task
or_missing none = err not_found
or_missing (some t) = ok t

unfoldable pub get : Context → Text → Text → Backend → Result Error Task
get ctx tenant task b = do
  context_err ctx
  require (not (is_empty tenant || is_empty task)) invalid
  or_missing (lookup (task_key tenant task) b.tasks)

-- The input that would make this task.
abbrev pub content : Task → TaskInput
content t = record {
  tenant_id = t.tenant_id;
  task_id = t.task_id;
  kind = t.kind;
  payload = t.payload;
}

-- The zero Task, which a Go map yields at a missing key.
abbrev pub zero_task : Task
zero_task = record {
  tenant_id = [];
  task_id = [];
  kind = [];
  payload = [];
  status = queued;
  attempts = pos 0;
  fencing_token = pos 0;
  lease_owner = [];
  lease_expires_at = none;
  next_attempt_at = 0;
  last_error_class = [];
  created_at = 0;
  updated_at = 0;
}

abbrev pub or_zero : Option Task → Task
or_zero none = zero_task
or_zero (some t) = t

abbrev pub task_at : Map Text Task → Text → Task
task_at m k = or_zero (lookup k m)

abbrev pub is_waiting : Status → Bool
is_waiting queued = true
is_waiting retryable = true
is_waiting _ = false

abbrev pub is_leased : Status → Bool
is_leased leased = true
is_leased _ = false

-- `LeaseExpiresAt != nil && !LeaseExpiresAt.After(now)`
abbrev pub has_expired : Option ℕ → ℕ → Bool
has_expired none now = false
has_expired (some t) now = leb t now

-- The test of Claim's loop; an empty tenant claims any tenant's task.
unfoldable pub is_eligible : Text → ℕ → Task → Bool
is_eligible tenant now t =
    (is_empty tenant || t.tenant_id == tenant)
    && ((is_waiting t.status && leb t.next_attempt_at now)
        || (is_leased t.status && has_expired t.lease_expires_at now))

unfoldable pub eligible_keys : Text → ℕ → Map Text Task → List Text
unfolding is_eligible
eligible_keys tenant now [] = []
eligible_keys tenant now ((k, t) ∷ m) =
    let rest = eligible_keys tenant now m in if is_eligible tenant now t then k ∷ rest else rest

-- Older tasks first, and keys in order among tasks of one age.
unfoldable pub is_before : Map Text Task → Text → Text → Bool
is_before m j k =
    let a = (task_at m j).created_at in
    let b = (task_at m k).created_at in if a == b then text_ltb j k else ltb a b

abbrev pub lease : Text → ℤ → ℕ → Task → Task
lease owner duration now t = record t {
  status = leased;
  attempts = incr t.attempts;
  fencing_token = incr t.fencing_token;
  lease_owner = owner;
  lease_expires_at = some (add_duration now duration);
  updated_at = now;
}

unfoldable pub claim_first : Text → ℤ → ℕ → Backend → Option Text → Result Error (Task × Backend)
claim_first owner duration now b none = err not_found
claim_first owner duration now b (some k) =
    let task = lease owner duration now (task_at b.tasks k) in
    ok (task, record b { tasks = insert k task b.tasks })

abbrev pub are_claim_arguments : Text → ℤ → Bool
are_claim_arguments owner duration = not (is_empty owner || int_leb duration (pos 0))

unfoldable pub claim : Context → Text → Text → ℤ → ℕ → Backend → Result Error (Task × Backend)
unfolding claim_first
claim ctx tenant owner duration now b = do
  context_err ctx
  require (are_claim_arguments owner duration) invalid
  require (not b.closed) closed
  claim_first owner duration now b
      (head? (sort (is_before b.tasks) (eligible_keys tenant now b.tasks)))

-- The lease test of `transition`.
unfoldable pub holds_lease : Text → ℤ → ℕ → Task → Bool
holds_lease owner fence now t =
    is_leased t.status
    && t.lease_owner == owner
    && t.fencing_token == fence
    && not (has_expired t.lease_expires_at now)

-- Where `transition` moves a task: its new status, the error's class and the next attempt's time.
pub record Outcome : Type 0 where
  pub status : Status
  pub class : Text
  pub next : ℕ

abbrev pub settled : Outcome → ℕ → Task → Task
settled o now t = record t {
  status = o.status;
  last_error_class = o.class;
  updated_at = now;
  next_attempt_at = o.next;
  lease_owner = [];
  lease_expires_at = none;
}

abbrev pub are_lease_arguments : Text → Text → Text → ℤ → Bool
are_lease_arguments tenant task owner fence =
    not (is_empty tenant || is_empty task || is_empty owner || int_leb fence (pos 0))

-- `now` is read for the lease test, `later` for the update.
unfoldable pub transition :
    Context → Text → Text → Text → ℤ → Outcome → ℕ → ℕ → Backend → Result Error (Task × Backend)
unfolding holds_lease
transition ctx tenant task owner fence o now later b = do
  context_err ctx
  require (are_lease_arguments tenant task owner fence) invalid
  t ← or_missing (lookup (task_key tenant task) b.tasks)
  require (holds_lease owner fence now t) conflict
  ok (
    settled o later t,
    record b { tasks = insert (task_key tenant task) (settled o later t) b.tasks },
  )

abbrev pub completion : Outcome
completion = record { status = completed; class = []; next = 0 }

abbrev pub retrial : ℕ → Text → Outcome
retrial next class = record { status = retryable; class = class; next = next }

abbrev pub failure : Text → Outcome
failure class = record { status = failed; class = class; next = 0 }

-- MemoryStore.Complete, Retry and Fail
unfoldable pub complete :
    Context → Text → Text → Text → ℤ → ℕ → ℕ → Backend → Result Error (Task × Backend)
complete ctx tenant task owner fence now later b =
    transition ctx tenant task owner fence completion now later b

unfoldable pub retry :
    Context → Text → Text → Text → ℤ → ℕ → Text → ℕ → ℕ → Backend → Result Error (Task × Backend)
retry ctx tenant task owner fence next class now later b =
    transition ctx tenant task owner fence (retrial next class) now later b

unfoldable pub fail :
    Context → Text → Text → Text → ℤ → Text → ℕ → ℕ → Backend → Result Error (Task × Backend)
fail ctx tenant task owner fence class now later b =
    transition ctx tenant task owner fence (failure class) now later b

-- The three ways to end a lease.
pub data Settlement : Type 0 where
  completes : Settlement
  retries : ℕ → Text → Settlement
  fails : Text → Settlement

abbrev pub outcome : Settlement → Outcome
outcome completes = completion
outcome (retries next class) = retrial next class
outcome (fails class) = failure class

unfoldable pub settle :
    Context → Text → Text → Text → ℤ → Settlement → ℕ → ℕ → Backend → Result Error (Task × Backend)
unfolding complete retry fail
settle ctx tenant task owner fence completes now later b =
    complete ctx tenant task owner fence now later b
settle ctx tenant task owner fence (retries next class) now later b =
    retry ctx tenant task owner fence next class now later b
settle ctx tenant task owner fence (fails class) now later b =
    fail ctx tenant task owner fence class now later b

-- One call on the shared backend, by any of its views.
pub data Call : Type 0 where
  enqueues : Context → TaskInput → ℕ → Call
  claims : Context → Text → Text → ℤ → ℕ → Call
  settles : Context → Text → Text → Text → ℤ → Settlement → ℕ → ℕ → Call
  opens closes : Call

-- A call that fails leaves the backend as it was.
abbrev pub after_enqueue : Backend → Result Error (Task × Bool × Backend) → Backend
after_enqueue b (ok (t, found, b')) = b'
after_enqueue b (err e) = b

abbrev pub after_move : Backend → Result Error (Task × Backend) → Backend
after_move b (ok (t, b')) = b'
after_move b (err e) = b

unfoldable pub step : Backend → Call → Backend
step b (enqueues ctx v now) = after_enqueue b (enqueue ctx v now b)
step b (claims ctx tenant owner duration now) = after_move b (claim ctx tenant owner duration now b)
step b (settles ctx tenant task owner fence s now later) =
    after_move b (settle ctx tenant task owner fence s now later b)
step b opens = new_view b
step b closes = close_view b

unfoldable pub run : Backend → List Call → Backend
run b [] = b
run b (c ∷ cs) = run (step b c) cs
