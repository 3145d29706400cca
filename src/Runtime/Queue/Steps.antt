-- ===== src/Runtime/Queue/Steps.antt =====
-- trpcservice/runtime/queue/queue.go: what the calls do to one task, and the lease fence.
use mathlib.Core.List.{head?}
use mathlib.Core.Option.{none-ne-some, some-injective}
use trpc_agent_service_platf.Base.{
  ℕ, sym, ap, subst, ◌∙◌, not, require, ◌>>=◌, ◌≡◌, refl, ◌||◌, inl, inr, Bool, true, false, Option,
  none, some, Result, ok, err, arith, ◌==◌, nat_eq, list_eq, if◌then◌else◌, Bool-cases, ==_iff,
}
use trpc_agent_service_platf.Base.Text.{Text}
use trpc_agent_service_platf.Base.Ints.{ℤ}
use trpc_agent_service_platf.Base.Maps.{HasDistinctKeys, lookup, insert, lookup-insert}
use trpc_agent_service_platf.Base.Contexts.{Context}
use trpc_agent_service_platf.Base.Sorting.{sort}
use trpc_agent_service_platf.Runtime.Queue.{
  Backend, Task, are_claim_arguments, are_lease_arguments, or_missing, invalid, TaskInput,
  context_err, validate_input, closed, Call, Settlement, Error, conflict, outcome, settled, lease,
  enqueues, claims, settles, opens, closes, completes, retries, fails, is_eligible, holds_lease,
  enqueue, enqueue_at, claim, claim_first, transition, settle, new_view, close_view, step, task_key,
  task_at, is_before, eligible_keys, after_move, after_enqueue,
}
use trpc_agent_service_platf.Runtime.Queue.Claiming.{first-is_eligible}

-- What the call `c` can do to the task `t` at the key `k`: a lease needs an eligible task, and a
-- settlement a live lease.
pub data TaskStep (k : Text) (c : Call) (t u : Task) : Type 0 where
  stay : u ≡ t → TaskStep k c t u
  take :
      (ctx : Context) (tenant owner : Text) (duration : ℤ) (now : ℕ)
      → c ≡ claims ctx tenant owner duration now
      → is_eligible tenant now t ≡ true
      → u ≡ lease owner duration now t
      → TaskStep k c t u
  release :
      (ctx : Context) (tenant task owner : Text) (fence : ℤ) (s : Settlement) (now later : ℕ)
      → c ≡ settles ctx tenant task owner fence s now later
      → k ≡ task_key tenant task
      → holds_lease owner fence now t ≡ true
      → u ≡ settled (outcome s) later t
      → TaskStep k c t u

-- What the backend holds at a key comes from `t` by one such step.
pub record Moves (k : Text) (c : Call) (t : Task) (b : Backend) : Type 0 where
  pub task : Task
  pub found : lookup k b.tasks ≡ some task
  pub moved : TaskStep k c t task

module _ (P : Backend → Type 0) (b : Backend) (base : P b) where
  pub after_move-bind :
      {A : Type 0} (m : Result Error A) (f : A → Result Error (Task × Backend))
      → ((a : A) → m ≡ ok a → P (after_move b (f a)))
      → P (after_move b (m >>= f))
  after_move-bind (ok a) f h = h a refl
  after_move-bind (err e) f h = base

  pub after_enqueue-bind :
      {A : Type 0} (m : Result Error A) (f : A → Result Error (Task × Bool × Backend))
      → ((a : A) → m ≡ ok a → P (after_enqueue b (f a)))
      → P (after_enqueue b (m >>= f))
  after_enqueue-bind (ok a) f h = h a refl
  after_enqueue-bind (err e) f h = base

pub require-ok : (b : Bool) (e : Error) {u : Unit} → require b e ≡ ok u → b ≡ true
require-ok true e h = refl
require-ok false e h = cc

pub or_missing-ok : (o : Option Task) {u : Task} → or_missing o ≡ ok u → o ≡ some u
or_missing-ok none h = cc
or_missing-ok (some t) h = cc

module _ (k : Text) (c : Call) (t : Task) (b : Backend) (here : lookup k b.tasks ≡ some t) where
  stays : Moves k c t b
  stays = record { task = t; found = here; moved = stay refl }

  insert-Moves :
      (j : Text) (u : Task)
      → (j ≡ k → TaskStep k c t u)
      → Moves k c t (record b { tasks = insert j u b.tasks })
  insert-Moves j u s = elim (Bool-cases (j == k)) [
    | inl same ↦ record {
      task = u;
      found = rw (lookup-insert j k u b.tasks, same);
      moved = s ((==_iff j k).0 same);
    }
    | inr other ↦ record {
      task = t;
      found = rw (lookup-insert j k u b.tasks, other) here;
      moved = stay refl;
    }
  ]

  enqueue_at-Moves :
      (v : TaskInput) (now : ℕ) (o : Option Task)
      → lookup (task_key v.tenant_id v.task_id) b.tasks ≡ o
      → Moves k c t (after_enqueue b (enqueue_at v now b o))
  unfolding enqueue_at
  enqueue_at-Moves v now none e =
      insert-Moves _ _ λ same. absurd (none-ne-some t (sym e ∙ rw same here))
  enqueue_at-Moves v now (some u) e =
      elim (not (u.kind == v.kind) || not (u.payload == v.payload))
        as (λ x. Moves k c t (after_enqueue b (if x then err conflict else ok (u, true, b)))) [
          | true ↦ stays
          | false ↦ stays
        ]

  claim_first-Moves :
      (ctx : Context) (tenant owner : Text) (duration : ℤ) (now : ℕ) (found : Option Text)
      → c ≡ claims ctx tenant owner duration now
      → ((j : Text) → found ≡ some j → is_eligible tenant now (task_at b.tasks j) ≡ true)
      → Moves k c t (after_move b (claim_first owner duration now b found))
  unfolding claim_first
  claim_first-Moves ctx tenant owner duration now none call e = stays
  claim_first-Moves ctx tenant owner duration now (some j) call e = insert-Moves j _ λ same.
      take ctx tenant owner duration now call (rw (same, here) at (e j refl)) (rw (same, here) refl)

  enqueue-Moves :
      (ctx : Context) (v : TaskInput) (now : ℕ)
      → Moves k c t (after_enqueue b (enqueue ctx v now b))
  unfolding enqueue
  enqueue-Moves ctx v now = after_enqueue-bind (Moves k c t) b stays (context_err ctx) _ λ _ _.
      after_enqueue-bind (Moves k c t) b stays (validate_input v) _ λ _ _.
        after_enqueue-bind (Moves k c t) b stays (require (not b.closed) closed) _
          λ _ _. enqueue_at-Moves v now _ refl

  transition-Moves :
      (ctx : Context) (tenant task owner : Text) (fence : ℤ) (s : Settlement) (now later : ℕ)
      → c ≡ settles ctx tenant task owner fence s now later
      → Moves k c t (after_move b (transition ctx tenant task owner fence (outcome s) now later b))
  unfolding transition
  transition-Moves ctx tenant task owner fence s now later call =
      after_move-bind (Moves k c t) b stays (context_err ctx) _ λ _ _.
        after_move-bind (Moves k c t) b stays
          (require (are_lease_arguments tenant task owner fence) invalid) _
          λ _ _.
            after_move-bind (Moves k c t) b stays
              (or_missing (lookup (task_key tenant task) b.tasks)) _
              λ u found.
                after_move-bind (Moves k c t) b stays
                  (require (holds_lease owner fence now u) conflict) _
                  λ _ held. insert-Moves (task_key tenant task) _ λ same.
                    let e : u ≡ t = some-injective u t (
                      sym (or_missing-ok (lookup (task_key tenant task) b.tasks) found)
                      ∙ ap (λ j. lookup j b.tasks) same
                      ∙ here) in
                    release ctx tenant task owner fence s now later call (sym same)
                      (subst (λ x. holds_lease owner fence now x ≡ true) e
                        (require-ok (holds_lease owner fence now u) conflict held))
                      (ap (settled (outcome s) later) e)

pub settle-transition :
    (ctx : Context) (tenant task owner : Text) (fence : ℤ) (s : Settlement) (now later : ℕ)
    (b : Backend)
    → settle ctx tenant task owner fence s now later b
      ≡ transition ctx tenant task owner fence (outcome s) now later b
unfolding settle
settle-transition ctx tenant task owner fence completes now later b = refl
settle-transition ctx tenant task owner fence (retries next class) now later b = refl
settle-transition ctx tenant task owner fence (fails class) now later b = refl

module _ (k : Text) (t : Task) (b : Backend) (d : HasDistinctKeys b.tasks)
    (here : lookup k b.tasks ≡ some t) where
  claim-Moves :
      (ctx : Context) (tenant owner : Text) (duration : ℤ) (now : ℕ)
      → let c = claims ctx tenant owner duration now in
        Moves k c t (after_move b (claim ctx tenant owner duration now b))
  unfolding claim
  claim-Moves ctx tenant owner duration now =
      let c = claims ctx tenant owner duration now in
      let same : Moves k c t b = stays k c t b here in
      after_move-bind (Moves k c t) b same (context_err ctx) _ λ _ _.
        after_move-bind (Moves k c t) b same (require (are_claim_arguments owner duration) invalid)
          _
          λ _ _. after_move-bind (Moves k c t) b same (require (not b.closed) closed) _ λ _ _.
            claim_first-Moves k c t b here ctx tenant owner duration now
              (head? (sort (is_before b.tasks) (eligible_keys tenant now b.tasks))) refl
              (λ j. first-is_eligible tenant now b j d)

  pub step-Moves : (c : Call) → Moves k c t (step b c)
  unfolding step new_view close_view
  step-Moves (enqueues ctx v now) = enqueue-Moves k (enqueues ctx v now) t b here ctx v now
  step-Moves (claims ctx tenant owner duration now) = claim-Moves ctx tenant owner duration now
  step-Moves (settles ctx tenant task owner fence s now later) =
      rw (settle-transition ctx tenant task owner fence s now later b) (
        transition-Moves k (settles ctx tenant task owner fence s now later) t b here ctx tenant
          task owner fence s now later refl)
  step-Moves opens = record { task = t; found = ground arith; moved = stay refl }
  step-Moves closes = record { task = t; found = ground arith; moved = stay refl }
