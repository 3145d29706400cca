-- ===== src/Runtime/Queue/Worker/Outcomes.antt =====
-- trpcservice/runtime/queue/queue.go: what RunOnce does to the task that it claims.
use trpc_agent_service_platf.Runtime.Queue.Worker.{
  later, run_once, settle_context, settle_result, Times, process, error_class, backoff, verdict,
  Worker, HandlerError,
}
use trpc_agent_service_platf.Runtime.Queue.{
  claims, completes, failure, retrial, completion, settle, Settlement, run, fails, Call, retries,
  failed, holds_lease, task_key, retryable, are_lease_arguments, outcome, completed,
  are_claim_arguments, Outcome, settled, Backend, transition, claim, Task,
}
use trpc_agent_service_platf.Base.{
  ◌∙◌, ap, list_beq_iff, List, ◌<◌, ◌&&◌, if◌then◌else◌, nat_eq, list_eq, ◌⊎◌, false, suc, ◌+◌,
  refl, arith, true, some, none, ok, ◌≡◌, ◌||◌, Option, ℕ, Bool,
}
use trpc_agent_service_platf.Base.Contexts.{background, context, ContextError, Context}
use trpc_agent_service_platf.Base.Text.{is_empty, Text}
use trpc_agent_service_platf.Base.Ints.{add_duration, int_eqb_iff, pos, int_ltb, ℤ}
use trpc_agent_service_platf.Runtime.Queue.Invariant.{TaskStep-IsValid, IsWellFormed, IsValid}
use trpc_agent_service_platf.Base.Maps.{lookup-insert_self, insert-HasDistinctKeys, insert, lookup}
use mathlib.Core.Bool.{false≢true}
use trpc_agent_service_platf.Runtime.Queue.Leases.{lease_excludes, Respects, IsLeased}
use trpc_agent_service_platf.Runtime.Queue.Steps.{take, settle-transition}
use trpc_agent_service_platf.Runtime.Queue.Keys.{HasKeys}
use trpc_agent_service_platf.Runtime.Queue.Claiming.{claim-IsClaim}
use trpc_agent_service_platf.Base.Sorting.{All}

-- The error makes the worker try again while attempts are left: it is marked by Retry, or it is a
-- cancellation or a deadline that has passed. (The comment of the type Handler names the first only.)
abbrev pub is_temporary : HandlerError → Bool
is_temporary e = e.is_canceled || e.is_deadline || e.is_retryable

-- How a task `u` should stand after `t` was handled: completed if the handler returned no error;
-- retryable, and due after the backoff, for a temporary error with attempts left; or else failed.
abbrev pub IsHandled : Worker → ℕ → Task → Option HandlerError → Task → Type 0
IsHandled w due_from t none u = u.status ≡ completed
IsHandled w due_from t (some e) u =
    (is_temporary e ≡ true
      → int_ltb t.attempts w.max_attempts ≡ true
      → (u.status ≡ retryable) × (u.next_attempt_at ≡ due_from + backoff w t.attempts))
    × ((is_temporary e ≡ false) ⊎ (int_ltb t.attempts w.max_attempts ≡ false) → u.status ≡ failed)

retry_or_fail :
    (p q : Bool) (due : ℕ) (class : Text)
    → let o = outcome (if p && q then retries due class else fails class) in
      (p ≡ true → q ≡ true → (o.status ≡ retryable) × (o.next ≡ due))
      × ((p ≡ false) ⊎ (q ≡ false) → o.status ≡ failed)
retry_or_fail true true due class = (λ _ _. (refl, refl), λ h. absurd (ground arith))
retry_or_fail true false due class = (λ _ h. absurd (false≢true h), λ _. refl)
retry_or_fail false q due class = (λ h _. absurd (false≢true h), λ _. refl)

verdict-IsHandled :
    (w : Worker) (due_from updated : ℕ) (t : Task) (r : Option HandlerError)
    → IsHandled w due_from t r (settled (outcome (verdict w due_from t r)) updated t)
unfolding verdict
verdict-IsHandled w due_from updated t none = refl
verdict-IsHandled w due_from updated t (some e) =
    retry_or_fail (is_temporary e) (int_ltb t.attempts w.max_attempts)
      (due_from + backoff w t.attempts) (error_class e)

claim-arguments :
    (ctx : Context) (tenant owner : Text) (duration : ℤ) (now : ℕ) (b b' : Backend) (u : Task)
    → claim ctx tenant owner duration now b ≡ ok (u, b')
    → are_claim_arguments owner duration ≡ true
unfolding claim
claim-arguments ctx tenant owner duration now b b' u e = ground arith

-- A settlement by the holder of a lease that runs succeeds.
transition_held :
    (errs : ℕ → Option ContextError) (tenant task owner : Text) (fence : ℤ) (o : Outcome)
    (now later : ℕ) (b : Backend) (t : Task)
    → errs 0 ≡ none
    → are_lease_arguments tenant task owner fence ≡ true
    → lookup (task_key tenant task) b.tasks ≡ some t
    → holds_lease owner fence now t ≡ true
    → transition (context errs) tenant task owner fence o now later b
      ≡ ok (
        settled o later t,
        record b { tasks = insert (task_key tenant task) (settled o later t) b.tasks },
      )
unfolding transition
transition_held errs tenant task owner fence o now later b t live a found h = rw (live, a, found, h)

lease_arguments :
    (t : Task) (owner : Text) (duration : ℤ) (n : ℕ)
    → IsValid t
    → are_claim_arguments owner duration ≡ true
    → are_lease_arguments t.tenant_id t.task_id owner (pos (suc n)) ≡ true
lease_arguments t owner duration n v a = ground (arith, v.named)

holder_holds :
    (owner : Text) (checked expiry : ℕ) (u : Task)
    → IsLeased u expiry
    → u.lease_owner ≡ owner
    → checked < expiry
    → holds_lease owner u.fencing_token checked u ≡ true
unfolding holds_lease
holder_holds owner checked expiry u l o h =
    rw (l.status, l.expires)
      (ground
        (arith, list_beq_iff u.lease_owner owner, int_eqb_iff u.fencing_token u.fencing_token))

-- Each of the three settlements by the holder succeeds.
settle_settles :
    (s : Settlement) (errs : ℕ → Option ContextError) (owner : Text) (t : Task)
    (checked updated : ℕ) (b : Backend)
    → errs 0 ≡ none
    → are_lease_arguments t.tenant_id t.task_id owner t.fencing_token ≡ true
    → lookup (task_key t.tenant_id t.task_id) b.tasks ≡ some t
    → holds_lease owner t.fencing_token checked t ≡ true
    → let u = settled (outcome s) updated t in
      settle_result b (
        settle
          (settle_context (context errs) s)
          t.tenant_id
          t.task_id
          owner
          t.fencing_token
          s
          checked
          updated
          b)
      ≡ (true, none, record b { tasks = insert (task_key t.tenant_id t.task_id) u b.tasks })
settle_settles completes errs owner t checked updated b live a there held =
    rw
      (settle-transition (context errs) t.tenant_id t.task_id owner t.fencing_token completes
        checked updated b)
      (ap (settle_result b) (
        transition_held errs t.tenant_id t.task_id owner t.fencing_token completion checked updated
          b t live a there held))
settle_settles (retries due class) errs owner t checked updated b live a there held =
    rw
      (settle-transition background t.tenant_id t.task_id owner t.fencing_token (retries due class)
        checked updated b)
      (ap (settle_result b) (
        transition_held (λ _. none) t.tenant_id t.task_id owner t.fencing_token (retrial due class)
          checked updated b t refl a there held))
settle_settles (fails class) errs owner t checked updated b live a there held =
    rw
      (settle-transition background t.tenant_id t.task_id owner t.fencing_token (fails class)
        checked updated b)
      (ap (settle_result b) (
        transition_held (λ _. none) t.tenant_id t.task_id owner t.fencing_token (failure class)
          checked updated b t refl a there held))

-- What RunOnce has claimed: a task that stands under its own key, leased to the worker.
record IsOwned (w : Worker) (times : Times) (b₁ : Backend) (t : Task) : Type 0 where
  keys : HasKeys b₁
  there : lookup (task_key t.tenant_id t.task_id) b₁.tasks ≡ some t
  valid : IsValid t
  lease : IsLeased t (add_duration times.claimed w.lease_duration)
  owner : t.lease_owner ≡ w.owner
  arguments : are_claim_arguments w.owner w.lease_duration ≡ true

claim-IsOwned :
    (w : Worker) (ctx : Context) (tenant : Text) (times : Times) (b b₁ : Backend) (t : Task)
    → IsWellFormed b
    → claim ctx tenant w.owner w.lease_duration times.claimed b ≡ ok (t, b₁)
    → IsOwned w times b₁ t
claim-IsOwned w ctx tenant times b b₁ t f e =
    let c = claim-IsClaim ctx tenant w.owner w.lease_duration times.claimed b b₁ t f.keys e in
    let i = f.stored c.key c.before c.found in
    record {
      keys = rw c.stored (insert-HasDistinctKeys c.key _ b.tasks f.keys);
      there = rw c.result (rw (c.stored, ← i.keyed) (lookup-insert_self c.key _ b.tasks));
      valid = rw c.result (
          TaskStep-IsValid c.key (claims ctx tenant w.owner w.lease_duration times.claimed) c.before
            _ (take ctx tenant w.owner w.lease_duration times.claimed refl c.eligible refl)
            i.valid);
      lease = rw c.result (record { status = refl; expires = refl });
      owner = rw c.result refl;
      arguments = claim-arguments ctx tenant w.owner w.lease_duration times.claimed b b₁ t e;
    }

run_once-process :
    (w : Worker) (errs : ℕ → Option ContextError) (hint : Text) (times : Times)
    (handler : Task → Option HandlerError) (others : Backend → Backend) (b : Backend)
    → w.closed ≡ false
    → errs 0 ≡ none
    → run_once w (context errs) hint times handler others b
      ≡ process w
          (later 2 (context errs))
          times
          handler
          others
          (claim
            (later 1 (context errs))
            (if is_empty w.tenant_id then hint else w.tenant_id)
            w.owner
            w.lease_duration
            times.claimed
            b)
          b
unfolding run_once
run_once-process w errs hint times handler others b o live = ground arith

-- One round of a worker, when it claims a task `t` and the calls that others make while the handler
-- runs respect the lease, the lease has not run out when the worker settles, the fence has not
-- wrapped and the context lives on: the round reports success. The task is completed when the
-- handler returned no error; it is retryable, and due after the backoff, when the error is a
-- RetryableError, a cancellation or a passed deadline and attempts are left; else it is failed.
pub run_once_settles :
    (w : Worker) (errs : ℕ → Option ContextError) (hint : Text) (times : Times)
    (handler : Task → Option HandlerError) (cs : List Call) (b b₁ : Backend) (t : Task) (n : ℕ)
    → IsWellFormed b
    → w.closed ≡ false
    → errs 0 ≡ none
    → errs 2 ≡ none
    → claim
        (later 1 (context errs))
        (if is_empty w.tenant_id then hint else w.tenant_id)
        w.owner
        w.lease_duration
        times.claimed
        b
      ≡ ok (t, b₁)
    → t.fencing_token ≡ pos (suc n)
    → times.checked < add_duration times.claimed w.lease_duration
    → All
        (Respects (task_key t.tenant_id t.task_id) t (add_duration times.claimed w.lease_duration))
        cs
    → (b₂ : Backend) × (u : Task) × (run_once w (context errs) hint times handler (λ x. run x cs) b
        ≡ (true, none, b₂))
      × (lookup (task_key t.tenant_id t.task_id) b₂.tasks ≡ some u)
      × IsHandled w times.due_from t (handler t) u
unfolding process
run_once_settles w errs hint times handler cs b b₁ t n f o live₀ live₂ e fence running respect =
    let g = claim-IsOwned w (later 1 (context errs)) _ times b b₁ t f e in
    let k = task_key t.tenant_id t.task_id in
    let s = verdict w times.due_from t (handler t) in
    let u = settled (outcome s) times.updated t in
    let b₁' = run b₁ cs in
    let expiry = add_duration times.claimed w.lease_duration in
    (
      record b₁' { tasks = insert k u b₁'.tasks },
      u,
      run_once-process w errs hint times handler (λ x. run x cs) b o live₀
          ∙ ap (λ r. process w (later 2 (context errs)) times handler (λ x. run x cs) r b) e
          ∙ settle_settles s (λ i. errs (2 + i)) w.owner t times.checked times.updated b₁' live₂
              (rw fence (lease_arguments t w.owner w.lease_duration n g.valid g.arguments))
              (lease_excludes k t expiry b₁ cs g.keys g.there g.lease respect)
              (holder_holds w.owner times.checked expiry t g.lease g.owner running),
      lookup-insert_self k u b₁'.tasks,
      verdict-IsHandled w times.due_from times.updated t (handler t),
    )
