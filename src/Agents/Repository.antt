-- ===== src/Agents/Repository.antt =====
-- trpcservice/agent/inmemory/inmemory.go: the repository of applications of one process. A method
-- takes the time that it reads and returns the repository that it leaves; one that fails leaves it
-- as it was. A context is looked at on entry, while waiting for the lock (as one look), and under it.
use trpc_agent_service_platf.Agents.Apps.{
  is_disabled, validate_app, new_app, CreateInput, App, Error, not_found, conflict, duplicate_key,
  app_disabled, panicked, context_error,
}
use trpc_agent_service_platf.Base.Contexts.{nil_context, context, ContextError, Context}
use trpc_agent_service_platf.Base.Maps.{lookup, insert, Map}
use trpc_agent_service_platf.Base.{
  pair_eq, nat_eq, list_eq, ◌==◌, not, require, false, ◌>>◌, ◌>>=◌, true, ok, none, ltb, err, some,
  if◌then◌else◌, Result, Bool, ℕ, [], Option,
}
use trpc_agent_service_platf.Agents.Revisions.{new_revision, CreateRevisionInput, Revision}
use trpc_agent_service_platf.Base.Text.{trim_space, Text}
use trpc_agent_service_platf.Base.Ints.{int_eq, pos, incr, ℤ}
use trpc_agent_service_platf.Agents.Drafts.{Kind, DraftConfiguration}

abbrev pub Scope : Type 0
Scope = Text × Text

pub record Repository : Type 0 where
  pub apps : Map Scope App
  pub by_key : Map Scope Text
  pub revisions : Map Scope (Map ℤ Revision)
  pub next : Map Scope ℤ

abbrev pub new_repository : Repository
new_repository = record { apps = []; by_key = []; revisions = []; next = [] }

abbrev at_look : Option ContextError → Result Error Unit
at_look none = ok tt
at_look (some e) = err (context_error e)

-- The nil context has no Done.
abbrev pub check_context : ℕ → Context → Result Error Unit
check_context look nil_context = err panicked
check_context look (context errs) = at_look (errs look)

-- The looks from the one in the lock to the one under it.
abbrev pub lock : Context → Result Error Unit
lock ctx = do check_context 1 ctx; check_context 2 ctx

abbrev pub is_absent {ℓ} : {A : Type ℓ} → Option A → Bool
is_absent none = true
is_absent (some a) = false

abbrev pub scope_of : App → Scope
scope_of a = (a.tenant_id, a.app_id)

unfoldable pub store_new : App → Repository → Repository
store_new a r = record {
  apps = insert (scope_of a) a r.apps;
  by_key = insert (a.tenant_id, a.app_key) a.app_id r.by_key;
  revisions = insert (scope_of a) [] r.revisions;
  next = r.next;
}

-- The clock in milliseconds and the random bytes of the identifier, and the clock.
unfoldable pub create :
    Context → ℕ → Option ℕ → ℕ → CreateInput → Repository → Result Error (App × Repository)
create ctx ms random now input r = do
  check_context 0 ctx
  a ← new_app ms random now input
  lock ctx
  require (is_absent (lookup (scope_of a) r.apps)) duplicate_key
  require (is_absent (lookup (a.tenant_id, a.app_key) r.by_key)) duplicate_key
  ok (a, store_new a r)

abbrev pub or_missing : {A : Type 0} → Option A → Result Error A
or_missing none = err not_found
or_missing (some a) = ok a

unfoldable pub get : Context → Scope → Repository → Result Error App
get ctx scope r = do check_context 0 ctx; lock ctx; or_missing (lookup scope r.apps)

-- The application that a change may start from.
unfoldable pub mutable_app : Scope → ℤ → Repository → Result Error App
mutable_app scope expected r = do
  a ← or_missing (lookup scope r.apps)
  require (not (is_disabled a.status)) app_disabled
  require (expected == a.version) conflict
  ok a

-- `r.revisions[scope]`, which is empty when it is not there.
abbrev pub inner : Option (Map ℤ Revision) → Map ℤ Revision
inner none = []
inner (some m) = m

unfoldable pub revision_locked : Scope → ℤ → Repository → Result Error Revision
revision_locked scope n r = do
  a ← or_missing (lookup scope r.apps)
  or_missing (lookup n (inner (lookup scope r.revisions)))

unfoldable pub get_revision : Context → Scope → ℤ → Repository → Result Error Revision
get_revision ctx scope n r = do check_context 0 ctx; lock ctx; revision_locked scope n r

abbrev pub store_app : App → Repository → Repository
store_app a r = record r { apps = insert (scope_of a) a r.apps }

abbrev pub written :
    Scope → ℤ → Revision → Repository → Option (Map ℤ Revision) → Result Error Repository
written scope n v r none = err panicked
written scope n v r (some m) = ok (record r { revisions = insert scope (insert n v m) r.revisions })

-- `r.revisions[scope][n] = value`, which panics on a nil map.
unfoldable pub put_revision : Scope → ℤ → Revision → Repository → Result Error Repository
put_revision scope n v r = written scope n v r (lookup scope r.revisions)

abbrev pub max_time : ℕ → ℕ → ℕ
max_time left right = if ltb left right then right else left

-- The time now, or the previous one when the clock went back.
abbrev pub next_time : ℕ → ℕ → ℕ
next_time now previous = if ltb now previous then previous else now

pub record UpdateMetadataInput : Type 0 where
  pub scope : Scope
  pub expected_version : ℤ
  pub display_name : Text
  pub description : Text

abbrev pub described : UpdateMetadataInput → ℕ → App → App
described input now a = record a {
  display_name = trim_space input.display_name;
  description = trim_space input.description;
  version = incr a.version;
  updated_at = next_time now a.updated_at;
}

unfoldable pub update_metadata :
    Context → ℕ → UpdateMetadataInput → Repository → Result Error (App × Repository)
update_metadata ctx now input r = do
  check_context 0 ctx
  lock ctx
  a ← mutable_app input.scope input.expected_version r
  validate_app (described input now a)
  ok (described input now a, store_app (described input now a) r)

pub record CreateDraftInput : Type 0 where
  pub scope : Scope
  pub expected_app_version : ℤ
  pub kind : Kind
  pub schema_version : ℤ
  pub configuration : DraftConfiguration

abbrev pub or_zero : Option ℤ → ℤ
or_zero none = pos 0
or_zero (some n) = n

abbrev pub draft_input : CreateDraftInput → ℤ → CreateRevisionInput
draft_input input n = record {
  tenant_id = input.scope.0;
  app_id = input.scope.1;
  revision = n;
  kind = input.kind;
  schema_version = input.schema_version;
  configuration = input.configuration;
}

unfoldable pub create_draft :
    Context → ℕ → CreateDraftInput → Repository → Result Error (Revision × Repository)
create_draft ctx now input r = do
  check_context 0 ctx
  lock ctx
  a ← mutable_app input.scope input.expected_app_version r
  let n = incr (or_zero (lookup input.scope r.next))
  draft ← new_revision now (draft_input input n)
  check_context 3 ctx
  r' ← put_revision input.scope n draft r
  ok (draft, record r' { next = insert input.scope n r.next })

pub record UpdateDraftInput : Type 0 where
  pub scope : Scope
  pub revision : ℤ
  pub expected_app_version : ℤ
  pub expected_draft_version : ℤ
  pub configuration : DraftConfiguration

abbrev pub redraft_input : UpdateDraftInput → Revision → CreateRevisionInput
redraft_input input v = record {
  tenant_id = input.scope.0;
  app_id = input.scope.1;
  revision = input.revision;
  kind = v.kind;
  schema_version = v.schema_version;
  configuration = input.configuration;
}

abbrev pub succeeding : ℕ → Revision → Revision → Revision
succeeding now v c = record c {
  draft_version = incr v.draft_version;
  created_at = v.created_at;
  updated_at = next_time now v.updated_at;
}
