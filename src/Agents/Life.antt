-- ===== src/Agents/Life.antt =====
-- trpcservice/agent: the life of one application, as the repository promises it: its root, its
-- revisions by number, and the last number that was given out.
pub mod Soundness
pub mod Finality
pub mod Stores
pub mod Effects
pub mod Pointers
pub mod Statuses
pub mod Calls
pub mod Steps
pub mod Runs
pub mod Samples
pub mod Examples
use trpc_agent_service_platf.Agents.Repository.{store_new, or_zero, scope_of, Scope, Repository}
use trpc_agent_service_platf.Agents.Operations.{Call}
use trpc_agent_service_platf.Agents.Operations
use trpc_agent_service_platf.Agents.Apps.{
  can_transition_to, is_active, new_app, CreateInput, validate_app, is_disabled, App,
}
use trpc_agent_service_platf.Agents.Revisions.{
  publish_revision, validate_revision, is_published, is_draft, Revision, Hashing,
}
use trpc_agent_service_platf.Base.Ints.{pos, int_leb, int_eq, incr, ℤ}
use trpc_agent_service_platf.Base.Maps.{insert, lookup, Map}
use trpc_agent_service_platf.Base.{
  ◌<◌, pair_eq, nat_eq, list_eq, ◌≢◌, none, true, ok, ℕ, some, false, Option, ◌≡◌,
}
use trpc_agent_service_platf.Agents.Changes.{activated}

pub record Hosted : Type 0 where
  pub app : App
  pub revisions : Map ℤ Revision
  pub latest : Option ℤ

-- What the repository holds at a scope.
pub record Holds (scope : Scope) (r : Repository) (s : Hosted) : Type 0 where
  pub app_at : lookup scope r.apps ≡ some s.app
  pub revisions_at : lookup scope r.revisions ≡ some s.revisions
  pub latest_at : lookup scope r.next ≡ s.latest

-- A root that replaces one: it is not disabled, keeps its identity, has the next version, and
-- passes Validate.
pub record IsNext (a b : App) : Type 0 where
  pub enabled : is_disabled a.status ≡ false
  pub same_scope : scope_of b ≡ scope_of a
  pub next_version : b.version ≡ incr a.version
  pub valid : validate_app b ≡ ok tt

abbrev pub HasPublished : ℤ → Map ℤ Revision → Type 0
HasPublished n m = (v : Revision) × (lookup n m ≡ some v) × (is_published v.state ≡ true)

abbrev pub IsDraftAt : ℤ → Revision → Map ℤ Revision → Type 0
IsDraftAt n v m = (lookup n m ≡ some v) × (is_draft v.state ≡ true)

-- The revision belongs to the application and knows its number.
abbrev pub IsOf : App → ℤ → Revision → Type 0
IsOf a n v = (v.tenant_id ≡ a.tenant_id) × (v.app_id ≡ a.app_id) × (v.revision ≡ n)

-- The pointers of a root are those of another one.
abbrev pub HasSamePointers : App → App → Type 0
HasSamePointers a b =
    (b.current_revision ≡ a.current_revision) × (b.canary_revision ≡ a.canary_revision)

-- What one call may do to an application.
pub data AppStep (hashing : Hashing) (s s' : Hosted) : Type 0 where
  stays : s' ≡ s → AppStep hashing s s'
  describes :
      (b : App)
      → IsNext s.app b
      → b.status ≡ s.app.status
      → HasSamePointers s.app b
      → s' ≡ record s { app = b }
      → AppStep hashing s s'
  drafts :
      (n : ℤ) (v : Revision)
      → is_disabled s.app.status ≡ false
      → n ≡ incr (or_zero s.latest)
      → int_leb (pos 1) n ≡ true
      → is_draft v.state ≡ true
      → IsOf s.app n v
      → s' ≡ record s { revisions = insert n v s.revisions; latest = some n }
      → AppStep hashing s s'
  redrafts :
      (n : ℤ) (old v : Revision)
      → is_disabled s.app.status ≡ false
      → IsDraftAt n old s.revisions
      → is_draft v.state ≡ true
      → IsOf s.app n v
      → s' ≡ record s { revisions = insert n v s.revisions }
      → AppStep hashing s s'
  publishes :
      (b : App) (n : ℤ) (at : ℕ) (old v : Revision)
      → IsNext s.app b
      → b.status ≡ activated s.app.status
      → (b.current_revision ≡ some n) × (b.canary_revision ≡ none)
      → IsDraftAt n old s.revisions
      → publish_revision hashing at old ≡ ok v
      → s' ≡ record s { app = b; revisions = insert n v s.revisions }
      → AppStep hashing s s'
  rolls_back :
      (b : App) (n : ℤ)
      → IsNext s.app b
      → b.status ≡ s.app.status
      → (b.current_revision ≡ some n) × (b.canary_revision ≡ none)
      → HasPublished n s.revisions
      → s' ≡ record s { app = b }
      → AppStep hashing s s'
  sets_canary :
      (b : App)
      → IsNext s.app b
      → (b.status ≡ s.app.status) × (is_active s.app.status ≡ true)
      → b.current_revision ≡ s.app.current_revision
      → ((n : ℤ) → b.canary_revision ≡ some n → HasPublished n s.revisions)
      → s' ≡ record s { app = b }
      → AppStep hashing s s'
  moves :
      (b : App)
      → IsNext s.app b
      → can_transition_to s.app.status b.status ≡ true
      → HasSamePointers s.app b
      → s' ≡ record s { app = b }
      → AppStep hashing s s'

-- What holds of every application: it is stored under its own scope and passes Validate; its
-- revisions have numbers that were given out, each with the application's identity and the number
-- that it is stored at; every published revision passes Validate, its digest included; and the
-- current and the canary revision are published.
pub record IsSound (hashing : Hashing) (scope : Scope) (s : Hosted) : Type 0 where
  pub owned : scope_of s.app ≡ scope
  pub valid : validate_app s.app ≡ ok tt
  pub counted : (k : ℕ) × (or_zero s.latest ≡ pos k)
  pub numbered :
      (n : ℤ) (v : Revision) → lookup n s.revisions ≡ some v → int_leb n (or_zero s.latest) ≡ true
  pub identified : (n : ℤ) (v : Revision) → lookup n s.revisions ≡ some v → IsOf s.app n v
  pub published :
      (n : ℤ) (v : Revision)
      → lookup n s.revisions ≡ some v
      → is_published v.state ≡ true
      → validate_revision hashing v ≡ ok tt
  pub current : (n : ℤ) → s.app.current_revision ≡ some n → HasPublished n s.revisions
  pub canary : (n : ℤ) → s.app.canary_revision ≡ some n → HasPublished n s.revisions

-- Both repositories have the same at a scope.
pub record IsSameAt (scope : Scope) (r r' : Repository) : Type 0 where
  pub same_app : lookup scope r'.apps ≡ lookup scope r.apps
  pub same_revisions : lookup scope r'.revisions ≡ lookup scope r.revisions
  pub same_next : lookup scope r'.next ≡ lookup scope r.next

-- What a call that succeeds does to the repository: it makes an application at a scope that had
-- none, or it takes one step of the application at one scope and leaves the other scopes.
pub data Effect (hashing : Hashing) (r r' : Repository) : Type 0 where
  nothing : r' ≡ r → Effect hashing r r'
  made :
      (ms : ℕ) (random : Option ℕ) (now : ℕ) (input : CreateInput) (a : App)
      → 0 < now
      → new_app ms random now input ≡ ok a
      → lookup (scope_of a) r.apps ≡ none
      → r' ≡ store_new a r
      → Effect hashing r r'
  steps :
      (scope : Scope) (s s' : Hosted)
      → Holds scope r s
      → AppStep hashing s s'
      → Holds scope r' s'
      → ((other : Scope) → scope ≢ other → IsSameAt other r r')
      → Effect hashing r r'

-- The clock of a creation is not at Go's zero time.
abbrev pub IsTimely : Call → Type 0
IsTimely (Operations.creates ctx ms random now input) = 0 < now
IsTimely (Operations.describes ctx now input) = Unit
IsTimely (Operations.drafts ctx now input) = Unit
IsTimely (Operations.redrafts ctx now input) = Unit
IsTimely (Operations.publishes ctx now input) = Unit
IsTimely (Operations.rolls_back ctx now input) = Unit
IsTimely (Operations.sets_canary ctx now input) = Unit
IsTimely (Operations.transitions ctx now input) = Unit
