-- ===== src/Runtime/Queue/Fences.antt =====
-- trpcservice/runtime/queue/queue.go: a fence is good for one settlement, and a lease that runs
-- belongs to its holder.
use mathlib.Core.Bool.{false≢true}
use trpc_agent_service_platf.Base.{
  ℕ, suc, ◌+◌, ◌≤◌, ◌<◌, ◌≡◌, refl, ◌∙◌, sym, subst, inl, inr, true, false, some, List, [], ◌∷◌, ok,
  err, arith, length, Bool-cases, Option-cases, nat_eq, list_eq,
}
use trpc_agent_service_platf.Base.Text.{Text, is_empty}
use trpc_agent_service_platf.Base.Ints.{ℤ, pos, max_int64, int_eq, int_eqb_iff}
use trpc_agent_service_platf.Base.Maps.{
  insert, lookup, lookup-insert_self, HasDistinctKeys, insert-HasDistinctKeys,
}
use trpc_agent_service_platf.Base.Contexts.{Context, background}
use trpc_agent_service_platf.Runtime.Queue.{
  Backend, Task, Call, Settlement, conflict, outcome, settled, completes, retries, fails, is_leased,
  holds_lease, transition, settle, step, run, task_key, are_lease_arguments, Outcome,
}
use trpc_agent_service_platf.Runtime.Queue.Steps.{
  TaskStep, stay, take, release, Moves, step-Moves, settle-transition,
}
use trpc_agent_service_platf.Runtime.Queue.Keys.{HasKeys, step-HasKeys}

-- What a settlement that succeeds has found and done.
pub record IsSettlement (tenant task owner : Text) (fence : ℤ) (o : Outcome) (now later : ℕ)
    (b : Backend) (u : Task) (b' : Backend) : Type 0 where
  pub before : Task
  pub arguments : are_lease_arguments tenant task owner fence ≡ true
  pub found : lookup (task_key tenant task) b.tasks ≡ some before
  pub held : holds_lease owner fence now before ≡ true
  pub result : u ≡ settled o later before
  pub stored : b'.tasks ≡ insert (task_key tenant task) (settled o later before) b.tasks

transition-IsSettlement :
    (ctx : Context) (tenant task owner : Text) (fence : ℤ) (o : Outcome) (now later : ℕ)
    (b b' : Backend) (u : Task)
    → transition ctx tenant task owner fence o now later b ≡ ok (u, b')
    → IsSettlement tenant task owner fence o now later b u b'
unfolding transition
transition-IsSettlement ctx tenant task owner fence o now later b b' u e =
    elim (Option-cases (lookup (task_key tenant task) b.tasks)) [
      | inl missing ↦ absurd (ground arith)
      | inr (t, found) ↦ record {
        before = t;
        arguments = ground arith;
        found = found;
        held = ground arith;
        result = ground arith;
        stored = ground arith;
      }
    ]

pub settle-IsSettlement :
    (ctx : Context) (tenant task owner : Text) (fence : ℤ) (s : Settlement) (now later : ℕ)
    (b b' : Backend) (u : Task)
    → settle ctx tenant task owner fence s now later b ≡ ok (u, b')
    → IsSettlement tenant task owner fence (outcome s) now later b u b'
settle-IsSettlement ctx tenant task owner fence s now later b b' u e =
    transition-IsSettlement ctx tenant task owner fence (outcome s) now later b b' u
      (rw (settle-transition ctx tenant task owner fence s now later b) at e)

-- The fence `f` has been settled or overtaken, and `slack` more leases cannot wrap the token.
record IsSpent (f slack : ℕ) (t : Task) : Type 0 where
  token : ℕ
  token_is : t.fencing_token ≡ pos token
  reached : f ≤ token
  room : token + slack ≤ max_int64
  passed : is_leased t.status ≡ true → f < token

pub outcome-unleased : (s : Settlement) → is_leased (outcome s).status ≡ false
outcome-unleased completes = refl
outcome-unleased (retries next class) = refl
outcome-unleased (fails class) = refl

TaskStep-IsSpent :
    (f slack : ℕ) (k : Text) (c : Call) (t u : Task)
    → TaskStep k c t u
    → IsSpent f (suc slack) t
    → IsSpent f slack u
TaskStep-IsSpent f slack k c t u (stay e) h = rw e (record {
  token = h.token;
  token_is = h.token_is;
  reached = h.reached;
  room = omega arith;
  passed = h.passed;
})
TaskStep-IsSpent f slack k c t u (take ctx tenant owner duration now call g e) h = record {
  token = h.token + 1;
  token_is = rw e (rw h.token_is (ground arith));
  reached = omega arith;
  room = omega arith;
  passed = λ _. omega arith;
}
TaskStep-IsSpent f slack k c t u (release ctx tenant task owner fence s now later call at g e) h =
    record {
      token = h.token;
      token_is = rw e h.token_is;
      reached = h.reached;
      room = omega arith;
      passed = λ l. absurd (false≢true (sym (outcome-unleased s) ∙ rw e at l));
    }

-- What a run leaves at a key whose fence `f` is spent.
record KeepsSpent (f : ℕ) (k : Text) (b : Backend) : Type 0 where
  task : Task
  found : lookup k b.tasks ≡ some task
  spent : IsSpent f 0 task

run-KeepsSpent :
    (f : ℕ) (k : Text) (t : Task) (b : Backend) (cs : List Call)
    → HasKeys b
    → lookup k b.tasks ≡ some t
    → IsSpent f (length cs) t
    → KeepsSpent f k (run b cs)
unfolding run
run-KeepsSpent f k t b [] d here h = record { task = t; found = here; spent = h }
run-KeepsSpent f k t b (c ∷ cs) d here h =
    let m : Moves k c t (step b c) = step-Moves k t b d here c in
    run-KeepsSpent f k m.task (step b c) cs (step-HasKeys b c d) m.found
      (TaskStep-IsSpent f (length cs) k c t m.task m.moved h)

IsSpent-not_held :
    (f slack : ℕ) (owner : Text) (now : ℕ) (t : Task)
    → IsSpent f slack t
    → holds_lease owner (pos f) now t ≡ false
unfolding holds_lease
IsSpent-not_held f slack owner now t h = elim (Bool-cases (is_leased t.status)) [
  | inl l ↦ rw h.token_is (ground (arith, h.passed l))
  | inr n ↦ rw n
]

transition_not_held :
    (tenant task owner : Text) (fence : ℤ) (o : Outcome) (now later : ℕ) (b : Backend) (t : Task)
    → are_lease_arguments tenant task owner fence ≡ true
    → lookup (task_key tenant task) b.tasks ≡ some t
    → holds_lease owner fence now t ≡ false
    → transition background tenant task owner fence o now later b ≡ err conflict
unfolding transition
transition_not_held tenant task owner fence o now later b t a found n = ground arith

holds_lease-fence :
    (owner : Text) (fence : ℤ) (now : ℕ) (t : Task)
    → holds_lease owner fence now t ≡ true
    → t.fencing_token ≡ fence
unfolding holds_lease
holds_lease-fence owner fence now t h = ground (arith, int_eqb_iff t.fencing_token fence)

-- A settlement that succeeded has spent its fence.
IsSettlement-IsSpent :
    (tenant task owner : Text) (f slack : ℕ) (s : Settlement) (now later : ℕ) (b : Backend)
    (u : Task) (b' : Backend)
    → f + slack ≤ max_int64
    → IsSettlement tenant task owner (pos f) (outcome s) now later b u b'
    → IsSpent f slack u
IsSettlement-IsSpent tenant task owner f slack s now later b u b' r d = record {
  token = f;
  token_is = rw d.result (holds_lease-fence owner (pos f) now d.before d.held);
  reached = omega arith;
  room = r;
  passed = λ l. absurd (false≢true (sym (outcome-unleased s) ∙ rw d.result at l));
}

-- A fence settles once: after a settlement that succeeded, no other one under the same fence does,
-- by any owner, whatever calls came in between, as long as these are too few to wrap the token.
pub fence_settles_once :
    (ctx : Context) (tenant task owner : Text) (f : ℕ) (s : Settlement) (now later : ℕ)
    (b b' : Backend) (u : Task) (cs : List Call) (owner' : Text) (s' : Settlement) (now' later' : ℕ)
    → HasKeys b
    → f + length cs ≤ max_int64
    → is_empty owner' ≡ false
    → settle ctx tenant task owner (pos f) s now later b ≡ ok (u, b')
    → settle background tenant task owner' (pos f) s' now' later' (run b' cs) ≡ err conflict
fence_settles_once ctx tenant task owner f s now later b b' u cs owner' s' now' later' d r o e =
    rw (settle-transition background tenant task owner' (pos f) s' now' later' (run b' cs)) (
      transition_not_held tenant task owner' (pos f) (outcome s') now' later' (run b' cs) after.task
        (ground (arith, done.arguments)) after.found
        (IsSpent-not_held f 0 owner' now' after.task after.spent))
  where
    done : IsSettlement tenant task owner (pos f) (outcome s) now later b u b'
    done = settle-IsSettlement ctx tenant task owner (pos f) s now later b b' u e

    after : KeepsSpent f (task_key tenant task) (run b' cs)
    after =
        run-KeepsSpent f (task_key tenant task) u b' cs
          (subst HasDistinctKeys (sym done.stored) (insert-HasDistinctKeys _ _ b.tasks d))
          (rw (done.stored, done.result) (lookup-insert_self _ _ b.tasks))
          (IsSettlement-IsSpent tenant task owner f (length cs) s now later b u b' r done)
