-- ===== src/Agents/Life/Calls.antt =====
-- trpcservice/agent/inmemory/inmemory.go: what any call does.
use trpc_agent_service_platf.Base.{pair_eq, nat_eq, list_eq}
use trpc_agent_service_platf.Base.Ints.{int_eq}
use trpc_agent_service_platf.Agents.Operations.{
  Call, update_draft, publish, rollback, set_canary, transition_status, step, after, transitions,
  rolls_back, publishes, sets_canary, describes, drafts, redrafts, creates,
}
use trpc_agent_service_platf.Agents.Revisions.{Revision, Hashing}
use trpc_agent_service_platf.Agents.Repository.{create_draft, update_metadata, create, Repository}
use trpc_agent_service_platf.Agents.Life.Stores.{IsWellFormed}
use trpc_agent_service_platf.Base.{refl, err, ok, ◌≡◌, Result}
use trpc_agent_service_platf.Agents.Life.{IsTimely, nothing, Effect}
use trpc_agent_service_platf.Agents.Apps.{App, Error}
use trpc_agent_service_platf.Agents.Life.Effects.{
  update_draft-Effect, create_draft-Effect, update_metadata-Effect, create-Effect,
}
use trpc_agent_service_platf.Agents.Changes.{ChangeEvent}
use trpc_agent_service_platf.Agents.Life.Pointers.{rollback-Effect, publish-Effect}
use trpc_agent_service_platf.Agents.Life.Statuses.{transition_status-Effect, set_canary-Effect}

after-Effect :
    (hashing : Hashing) (A : Type 0) (r : Repository) (result : Result Error (A × Repository))
    → ((a : A) (r' : Repository) → result ≡ ok (a, r') → Effect hashing r r')
    → Effect hashing r (after r result)
after-Effect hashing A r (ok (a, r')) effect = effect a r' refl
after-Effect hashing A r (err e) effect = nothing refl

-- On a well-formed repository, and with no creation at Go's zero time, whatever call is made either changes nothing, or makes an application
-- at a scope that had none, or takes one step of the life of the application at one scope and
-- leaves every other scope as it was.
pub step-Effect :
    (hashing : Hashing) (c : Call) (r : Repository)
    → IsTimely c
    → IsWellFormed hashing r
    → Effect hashing r (step hashing c r)
unfolding step
step-Effect hashing (creates ctx ms random now input) r timely w =
    after-Effect hashing App r (create ctx ms random now input r)
      (λ a r'. create-Effect hashing r w ctx ms random now input r' a timely)
step-Effect hashing (describes ctx now input) r timely w =
    after-Effect hashing App r (update_metadata ctx now input r)
      (λ a r'. update_metadata-Effect hashing r w ctx now input r' a)
step-Effect hashing (drafts ctx now input) r timely w =
    after-Effect hashing Revision r (create_draft ctx now input r)
      (λ a r'. create_draft-Effect hashing r w ctx now input r' a)
step-Effect hashing (redrafts ctx now input) r timely w =
    after-Effect hashing Revision r (update_draft hashing ctx now input r)
      (λ a r'. update_draft-Effect hashing r w ctx now input r' a)
step-Effect hashing (publishes ctx now input) r timely w =
    after-Effect hashing (App × Revision × ChangeEvent) r (publish hashing ctx now input r)
      (λ a r'. publish-Effect hashing r w ctx now input r' a)
step-Effect hashing (rolls_back ctx now input) r timely w =
    after-Effect hashing (App × ChangeEvent) r (rollback ctx now input r)
      (λ a r'. rollback-Effect hashing r w ctx now input r' a)
step-Effect hashing (sets_canary ctx now input) r timely w =
    after-Effect hashing (App × ChangeEvent) r (set_canary ctx now input r)
      (λ a r'. set_canary-Effect hashing r w ctx now input r' a)
step-Effect hashing (transitions ctx now input) r timely w =
    after-Effect hashing (App × ChangeEvent) r (transition_status ctx now input r)
      (λ a r'. transition_status-Effect hashing r w ctx now input r' a)
