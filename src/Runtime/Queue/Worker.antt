-- ===== src/Runtime/Queue/Worker.antt =====
-- trpcservice/runtime/queue/queue.go: the worker. What happens outside a worker while it runs is an
-- argument: the handler, the calls that others make on the store meanwhile, and the clock. The
-- ticker and the goroutine of `loop` are left out; `loop` calls RunOnce until its context ends.
pub mod Backoff
pub mod Outcomes
use trpc_agent_service_platf.Runtime.Queue.{
  claim, context_error, closed, not_found, settle, fails, invalid, completes, retries, Task,
  Settlement, Error, Backend,
}
use trpc_agent_service_platf.Base.{
  not, ◌/◌, leb, ◌&&◌, ◌||◌, require, ltb, ◌>>◌, if◌then◌else◌, zero, some, none, ok, false, ◌^◌,
  suc, err, Option, ◌-◌, ◌+◌, ◌%◌, ◌*◌, ℕ, true, Result, Bool,
}
use trpc_agent_service_platf.Base.Contexts.{nil_context, background, context, Context}
use trpc_agent_service_platf.Base.Text.{is_empty, codes, Text}
use trpc_agent_service_platf.Base.Ints.{int_leb, int_ltb, negsuc, pos, ℤ}

-- Config, with nil checks as Booleans: does it have a store and a handler?
pub record Config : Type 0 where
  pub has_store : Bool
  pub has_handler : Bool
  pub tenant_id : Text
  pub owner : Text
  pub lease_duration : ℤ
  pub poll_interval : ℤ
  pub max_attempts : ℤ
  pub backoff_base : ℤ
  pub backoff_max : ℤ

pub record Worker : Type 0 where
  pub tenant_id : Text
  pub owner : Text
  pub lease_duration : ℤ
  pub poll_interval : ℤ
  pub max_attempts : ℤ
  pub backoff_base : ℕ
  pub backoff_max : ℕ
  pub started : Bool
  pub closed : Bool

-- A value that is positive, or else the default.
abbrev pub or_default : ℤ → ℕ → ℕ
or_default (pos zero) d = d
or_default (pos (suc n)) d = suc n
or_default (negsuc n) d = d

abbrev pub millisecond : ℕ
millisecond = 1000000

unfoldable pub new_worker : Config → Result Error Worker
new_worker c = do
  require
      (c.has_store
        && c.has_handler
        && not (is_empty c.owner)
        && not (int_leb c.lease_duration (pos 0)))
      invalid
  let base = or_default c.backoff_base (100 * millisecond)
  let limit = or_default c.backoff_max (10000 * millisecond)
  require (not (ltb limit base)) invalid
  ok (record {
    tenant_id = c.tenant_id;
    owner = c.owner;
    lease_duration = c.lease_duration;
    poll_interval = pos (or_default c.poll_interval (100 * millisecond));
    max_attempts = pos (or_default c.max_attempts 3);
    backoff_base = base;
    backoff_max = limit;
    started = false;
    closed = false;
  })

-- `d *= 2` on int64, as a bit pattern of 64 bits.
abbrev pub double : ℕ → ℕ
double d = d * 2 % 2 ^ 64

-- The loop of `backoff`, by the rounds that are left.
unfoldable pub backoff_loop : ℕ → ℕ → ℕ → ℕ
backoff_loop limit zero d = if ltb limit d then limit else d
backoff_loop limit (suc rounds) d =
    let rest = backoff_loop limit rounds (double d) in if leb (limit / 2) d then limit else rest

-- `for i := 1; i < attempt; i++`
abbrev pub rounds : ℤ → ℕ
rounds (pos n) = n - 1
rounds (negsuc n) = 0

unfoldable pub backoff : Worker → ℤ → ℕ
unfolding backoff_loop
backoff w attempt = backoff_loop w.backoff_max (rounds attempt) w.backoff_base

-- What `errors.Is` and `errors.As` say of the handler's error.
pub record HandlerError : Type 0 where
  pub is_canceled : Bool
  pub is_deadline : Bool
  pub is_retryable : Bool

unfoldable pub error_class : HandlerError → Text
error_class e =
    if e.is_canceled
    then codes "canceled"
    else if e.is_deadline
    then codes "deadline_exceeded"
    else codes "handler_error"

-- The context after some looks at it.
abbrev pub later : ℕ → Context → Context
later n nil_context = nil_context
later n (context errs) = context λ i. errs (n + i)

-- The times that one RunOnce reads: for the claim, for the retry's due time, and the two of the
-- settlement.
pub record Times : Type 0 where
  pub claimed : ℕ
  pub due_from : ℕ
  pub checked : ℕ
  pub updated : ℕ

-- How RunOnce settles the task, by what the handler returned.
unfoldable pub verdict : Worker → ℕ → Task → Option HandlerError → Settlement
unfolding error_class backoff
verdict w due_from t none = completes
verdict w due_from t (some e) =
    if (e.is_canceled || e.is_deadline || e.is_retryable) && int_ltb t.attempts w.max_attempts
    then retries (due_from + backoff w t.attempts) (error_class e)
    else fails (error_class e)

-- Complete is called with the caller's context, Retry and Fail with context.Background().
abbrev pub settle_context : Context → Settlement → Context
settle_context ctx completes = ctx
settle_context ctx (retries next class) = background
settle_context ctx (fails class) = background

-- A result `(done, err)` and the store.
abbrev pub settle_result : Backend → Result Error (Task × Backend) → Bool × Option Error × Backend
settle_result b (ok (t, b')) = (true, none, b')
settle_result b (err e) = (true, some e, b)

unfoldable pub process :
    Worker
    → Context
    → Times
    → (Task → Option HandlerError)
    → (Backend → Backend)
    → Result Error (Task × Backend)
    → Backend
    → Bool × Option Error × Backend
unfolding verdict
process w ctx times handler others (ok (t, b')) b =
    let s = verdict w times.due_from t (handler t) in
    let b'' = others b' in
    settle_result b'' (
      settle (settle_context ctx s) t.tenant_id t.task_id w.owner t.fencing_token s times.checked
        times.updated b'')
process w ctx times handler others (err not_found) b = (false, none, b)
process w ctx times handler others (err e) b = (false, some e, b)

-- RunOnce; `hint` is the tenant that WithTenant put into the context.
unfoldable pub run_once :
    Worker
    → Context
    → Text
    → Times
    → (Task → Option HandlerError)
    → (Backend → Backend)
    → Backend
    → Bool × Option Error × Backend
unfolding process
run_once w nil_context hint times handler others b = (false, some invalid, b)
run_once w (context errs) hint times handler others b =
    if w.closed then (false, some closed, b) else elim (errs 0) [
      | some e ↦ (false, some (context_error e), b)
      | none ↦
          process w (later 2 (context errs)) times handler others
            (claim (later 1 (context errs)) (if is_empty w.tenant_id then hint else w.tenant_id)
              w.owner w.lease_duration times.claimed b)
            b
    ]

-- Start and Close, without the goroutine.
unfoldable pub start : Context → Worker → Result Error Worker
start nil_context w = err invalid
start (context errs) w =
    if w.closed || w.started then err closed else ok (record w { started = true })

unfoldable pub close : Worker → Worker
close w = record w { closed = true }
