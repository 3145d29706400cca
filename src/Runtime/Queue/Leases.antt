-- ===== src/Runtime/Queue/Leases.antt =====
-- trpcservice/runtime/queue/queue.go: a lease that runs belongs to its holder.
use mathlib.Core.Bool.{false≢true}
use trpc_agent_service_platf.Base.{
  ℕ, ◌<◌, ◌≡◌, sym, ◌∙◌, ◌⊎◌, inl, inr, ◌≢◌, false, some, List, [], ◌∷◌, arith, ==_iff, nat_eq,
  list_eq,
}
use trpc_agent_service_platf.Base.Text.{Text}
use trpc_agent_service_platf.Base.Ints.{ℤ, int_eqb_iff}
use trpc_agent_service_platf.Base.Maps.{lookup}
use trpc_agent_service_platf.Base.Sorting.{All}
use trpc_agent_service_platf.Runtime.Queue.{
  Backend, Task, Call, leased, enqueues, claims, settles, opens, closes, is_eligible, holds_lease,
  step, run, task_key,
}
use trpc_agent_service_platf.Runtime.Queue.Steps.{TaskStep, stay, take, release, Moves, step-Moves}
use trpc_agent_service_platf.Runtime.Queue.Keys.{HasKeys, step-HasKeys}

-- A lease up to the time `expiry`.
pub record IsLeased (t : Task) (expiry : ℕ) : Type 0 where
  pub status : t.status ≡ leased
  pub expires : t.lease_expires_at ≡ some expiry

-- What another worker may do while the task at `k` is leased: any claim before the lease runs out,
-- and any settlement of another task, or under another owner or fence.
abbrev pub Respects : Text → Task → ℕ → Call → Type 0
Respects k t expiry (enqueues ctx v now) = Unit
Respects k t expiry (claims ctx tenant owner duration now) = now < expiry
Respects k t expiry (settles ctx tenant task owner fence s now later) =
    (task_key tenant task ≢ k) ⊎ ((owner ≢ t.lease_owner) ⊎ (fence ≢ t.fencing_token))
Respects k t expiry opens = Unit
Respects k t expiry closes = Unit

IsLeased-not_eligible :
    (tenant : Text) (now expiry : ℕ) (t : Task)
    → IsLeased t expiry
    → now < expiry
    → is_eligible tenant now t ≡ false
unfolding is_eligible
IsLeased-not_eligible tenant now expiry t l h = rw (l.status, l.expires) (ground arith)

not_holder :
    (owner : Text) (fence : ℤ) (now : ℕ) (t : Task)
    → (owner ≢ t.lease_owner) ⊎ (fence ≢ t.fencing_token)
    → holds_lease owner fence now t ≡ false
unfolding holds_lease
not_holder owner fence now t (inl h) = ground (arith, ==_iff t.lease_owner owner, h)
not_holder owner fence now t (inr h) = ground (arith, int_eqb_iff t.fencing_token fence, h)

TaskStep-Respects :
    (k : Text) (c : Call) (t u : Task) (expiry : ℕ)
    → IsLeased t expiry
    → Respects k t expiry c
    → TaskStep k c t u
    → u ≡ t
TaskStep-Respects k c t u expiry l r (stay e) = e
TaskStep-Respects k c t u expiry l r (take ctx tenant owner duration now call g e) =
    absurd (false≢true (sym (IsLeased-not_eligible tenant now expiry t l (rw call at r)) ∙ g))
TaskStep-Respects k c t u expiry l r (release ctx tenant task owner fence s now later call at g e) =
    refuse (rw call at r)
  where
    refuse :
        (task_key tenant task ≢ k) ⊎ ((owner ≢ t.lease_owner) ⊎ (fence ≢ t.fencing_token)) → u ≡ t
    refuse (inl other) = absurd (other (sym at))
    refuse (inr h) = absurd (false≢true (sym (not_holder owner fence now t h) ∙ g))

-- A lease excludes the other workers: as long as it has not run out, no sequence of enqueues,
-- claims and settlements by others changes the leased task in any field.
pub lease_excludes :
    (k : Text) (t : Task) (expiry : ℕ) (b : Backend) (cs : List Call)
    → HasKeys b
    → lookup k b.tasks ≡ some t
    → IsLeased t expiry
    → All (Respects k t expiry) cs
    → lookup k (run b cs).tasks ≡ some t
unfolding run
lease_excludes k t expiry b [] d here l r = here
lease_excludes k t expiry b (c ∷ cs) d here l r =
    let m : Moves k c t (step b c) = step-Moves k t b d here c in
    lease_excludes k t expiry (step b c) cs (step-HasKeys b c d)
      (rw (← TaskStep-Respects k c t m.task expiry l r.0 m.moved) m.found) l r.1
