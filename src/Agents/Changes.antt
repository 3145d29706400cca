-- ===== src/Agents/Changes.antt =====
-- trpcservice/agent/repository.go and trpcservice/agent/inmemory/inmemory.go: the inputs and events of
-- the changes that are reported, and the parts that their operations share.
use trpc_agent_service_platf.Agents.Apps.{
  is_none, App, Error, invalid, Status, draft, active, suspended, disabled, unknown,
}
use trpc_agent_service_platf.Agents.Repository.{revision_locked, scope_of, Scope, Repository}
use trpc_agent_service_platf.Base.{
  pair_eq, nat_eq, list_eq, length, ◌&&◌, leb, ◌||◌, ◌>>=◌, true, not, ◌==◌, require, none, false,
  [], ◌>>◌, some, ok, Bool, ℕ, Result, Option,
}
use trpc_agent_service_platf.Base.Text.{is_empty, trim_space, Text}
use trpc_agent_service_platf.Base.Ints.{pos, int_eq, int_leb, incr, ℤ}
use trpc_agent_service_platf.Agents.Revisions.{is_published}

pub record ChangeMetadata : Type 0 where
  pub actor_type : Text
  pub actor_id : Text
  pub reason : Text
  pub correlation_id : Text

pub data ChangeEventType : Type 0 where
  change_published change_rolled_back change_suspended change_resumed change_disabled :
      ChangeEventType
  change_canary_started change_canary_stopped : ChangeEventType

pub record ChangeEvent : Type 0 where
  pub event_type : ChangeEventType
  pub scope : Scope
  pub previous_revision : Option ℤ
  pub current_revision : Option ℤ
  pub content_digest : Text
  pub previous_status : Status
  pub current_status : Status
  pub metadata : ChangeMetadata
  pub previous_version : ℤ
  pub next_version : ℤ
  pub occurred_at : ℕ

abbrev pub normalized_metadata : ChangeMetadata → ChangeMetadata
normalized_metadata m = record {
  actor_type = trim_space m.actor_type;
  actor_id = trim_space m.actor_id;
  reason = trim_space m.reason;
  correlation_id = trim_space m.correlation_id;
}

unfoldable pub validate_change : ChangeMetadata → Result Error Unit
validate_change metadata = do
  let m = normalized_metadata metadata
  require
      (not (
        is_empty m.actor_type
        || is_empty m.actor_id
        || is_empty m.reason
        || is_empty m.correlation_id))
      invalid
  require (leb (length m.reason) 1000) invalid

-- The application before and after the change.
abbrev pub new_event :
    ChangeEventType → App → Status → Option ℤ → Text → ChangeMetadata → ℤ → ℕ → ChangeEvent
new_event kind a status previous digest metadata version at = record {
  event_type = kind;
  scope = scope_of a;
  previous_revision = previous;
  current_revision = a.current_revision;
  content_digest = digest;
  previous_status = status;
  current_status = a.status;
  metadata = normalized_metadata metadata;
  previous_version = version;
  next_version = a.version;
  occurred_at = at;
}

abbrev pub new_canary_event :
    ChangeEventType → App → Option ℤ → Text → ChangeMetadata → ℤ → ℕ → ChangeEvent
new_canary_event kind a previous digest metadata version at =
    record (new_event kind a a.status previous digest metadata version at) {
      current_revision = a.canary_revision;
    }

unfoldable pub status_event_type : Status → ChangeEventType
status_event_type draft = change_disabled
status_event_type active = change_resumed
status_event_type suspended = change_suspended
status_event_type disabled = change_disabled
status_event_type (unknown s) = change_disabled

pub record PublishInput : Type 0 where
  pub scope : Scope
  pub revision : ℤ
  pub expected_app_version : ℤ
  pub expected_draft_version : ℤ
  pub tenant_active : Bool
  pub metadata : ChangeMetadata

pub record RollbackInput : Type 0 where
  pub scope : Scope
  pub target_revision : ℤ
  pub expected_app_version : ℤ
  pub metadata : ChangeMetadata

pub record SetCanaryInput : Type 0 where
  pub scope : Scope
  pub candidate_revision : Option ℤ
  pub expected_app_version : ℤ
  pub tenant_active : Bool
  pub metadata : ChangeMetadata

pub record TransitionStatusInput : Type 0 where
  pub scope : Scope
  pub expected_version : ℤ
  pub next_status : Status
  pub metadata : ChangeMetadata

abbrev pub activated : Status → Status
activated draft = active
activated active = active
activated suspended = suspended
activated disabled = disabled
activated (unknown s) = unknown s

abbrev pub pointing : ℤ → Status → ℕ → App → App
pointing n status now a = record a {
  current_revision = some n;
  canary_revision = none;
  status = status;
  version = incr a.version;
  updated_at = now;
}

abbrev pub with_canary : Option ℤ → ℕ → App → App
with_canary n now a = record a { canary_revision = n; version = incr a.version; updated_at = now }

abbrev pub moved : Status → ℕ → App → App
moved next now a = record a { status = next; version = incr a.version; updated_at = now }

abbrev pub is_current : Option ℤ → ℤ → Bool
is_current none n = false
is_current (some c) n = c == n

-- The application points at a revision, and not at this one.
abbrev pub can_point : Option ℤ → ℤ → Bool
can_point current n = not (is_none current) && not (is_current current n)

abbrev pub same_revision : Option ℤ → Option ℤ → Bool
same_revision none none = true
same_revision none (some n) = false
same_revision (some m) none = false
same_revision (some m) (some n) = m == n

-- The candidate's digest, when there is a candidate.
unfoldable pub candidate_digest : Scope → Option ℤ → App → Repository → Result Error Text
candidate_digest scope none a r = ok []
candidate_digest scope (some n) a r = do
  require (int_leb (pos 1) n) invalid
  v ← revision_locked scope n r
  require (is_published v.state) invalid
  require (can_point a.current_revision n) invalid
  ok v.content_digest

abbrev pub canary_event_type : Option ℤ → ChangeEventType
canary_event_type none = change_canary_stopped
canary_event_type (some n) = change_canary_started

-- The digest of the current revision, when there is one.
unfoldable pub current_digest : Scope → Option ℤ → Repository → Result Error Text
current_digest scope none r = ok []
current_digest scope (some n) r = do v ← revision_locked scope n r; ok v.content_digest
