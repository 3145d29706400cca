-- ===== src/Tenant/Repository.antt =====
-- trpcservice/tenant/inmemory/inmemory.go: the tenant repository of one process. A method takes the
-- times that it reads and returns the repository that it leaves; one that fails leaves it as it
-- was. A context is looked at on entry, while waiting for the lock (as one look), and under it.
pub mod Invariant
pub mod Steps
pub mod Runs
pub mod Versions
pub mod Changes
pub mod Lifecycle
pub mod Examples
use trpc_agent_service_platf.Tenant.Identity.{
  Error, invalid, not_found, conflict, duplicate_key, invalid_transition, context_error,
}
use trpc_agent_service_platf.Tenant.Identity.{disabled as tenant_disabled}
use trpc_agent_service_platf.Tenant.Roots.{
  is_disabled, new_tenant, CreateInput, Tenant, Status, active, suspended, disabled,
}
use trpc_agent_service_platf.Base.{
  length, leb, ◌||◌, ◌==◌, not, none, ◌>>=◌, some, require, nat_eq, list_eq, false, ◌∷◌, ◌>>◌, true,
  ok, err, ℕ, [], Result, Option, List, Bool,
}
use trpc_agent_service_platf.Tenant.Settings.{
  validate_configuration, with_defaults, trimmed, Configuration,
}
use trpc_agent_service_platf.Base.Contexts.{nil_context, context, ContextError, Context}
use trpc_agent_service_platf.Base.Maps.{size, lookup, insert, Map}
use trpc_agent_service_platf.Base.Text.{is_empty, trim_space, Text}
use trpc_agent_service_platf.Base.Ints.{int_eq, ℤ, incr}

pub record Repository : Type 0 where
  pub by_id : Map Text Tenant
  pub by_key : Map Text Text

abbrev pub new_repository : Repository
new_repository = record { by_id = []; by_key = [] }

abbrev at_look : Option ContextError → Result Error Unit
at_look none = ok tt
at_look (some e) = err (context_error e)

-- The nil context is never done.
abbrev pub check_context : ℕ → Context → Result Error Unit
check_context look nil_context = ok tt
check_context look (context errs) = at_look (errs look)

-- The looks from the one on entry to the last one under the lock.
abbrev pub lock : Context → Result Error Unit
lock ctx = do check_context 1 ctx; check_context 2 ctx

abbrev pub is_absent {ℓ} : {A : Type ℓ} → Option A → Bool
is_absent none = true
is_absent (some a) = false

unfoldable pub store_new : Tenant → Repository → Repository
store_new t r = record {
  by_id = insert t.tenant_id t r.by_id;
  by_key = insert t.tenant_key t.tenant_id r.by_key;
}

-- The clock in milliseconds and the random bytes of the identifier, and the clock.
unfoldable pub create :
    Context → ℕ → Option ℕ → ℕ → CreateInput → Repository → Result Error (Tenant × Repository)
create ctx ms random now input r = do
  check_context 0 ctx
  t ← new_tenant ms random now input
  lock ctx
  require (is_absent (lookup t.tenant_id r.by_id)) duplicate_key
  require (is_absent (lookup t.tenant_key r.by_key)) duplicate_key
  ok (t, store_new t r)

abbrev pub or_missing : Option Tenant → Result Error Tenant
or_missing none = err not_found
or_missing (some t) = ok t

unfoldable pub get : Context → Text → Repository → Result Error Tenant
get ctx id r = do check_context 0 ctx; lock ctx; or_missing (lookup id r.by_id)

unfoldable pub count : Context → Repository → Result Error ℕ
count ctx r = do check_context 0 ctx; ok (size r.by_id)

pub record UpdateConfigurationInput : Type 0 where
  pub tenant_id : Text
  pub expected_version : ℤ
  pub configuration : Configuration

-- The tenant that a change may start from.
unfoldable pub mutable : Text → ℤ → Repository → Result Error Tenant
mutable id expected r = do
  t ← or_missing (lookup id r.by_id)
  require (not (is_disabled t.status)) tenant_disabled
  require (expected == t.version) conflict
  ok t

abbrev pub put : Tenant → Text → Repository → Repository
put t id r = record r { by_id = insert id t r.by_id }

abbrev pub configured : Configuration → ℕ → Tenant → Tenant
configured c now t = record t {
  configuration = trimmed c;
  version = incr t.version;
  updated_at = now;
}

unfoldable pub update_configuration :
    Context → ℕ → UpdateConfigurationInput → Repository → Result Error (Tenant × Repository)
update_configuration ctx now input r = do
  check_context 0 ctx
  let c = with_defaults input.configuration
  validate_configuration c
  lock ctx
  t ← mutable input.tenant_id input.expected_version r
  ok (configured c now t, put (configured c now t) input.tenant_id r)

pub record TransitionMetadata : Type 0 where
  pub actor_type : Text
  pub actor_id : Text
  pub reason : Text
  pub correlation_id : Text

pub record StatusChangeEvent : Type 0 where
  pub tenant_id : Text
  pub previous_status : Status
  pub next_status : Status
  pub metadata : TransitionMetadata
  pub previous_version : ℤ
  pub next_version : ℤ
  pub occurred_at : ℕ

pub record TransitionStatusInput : Type 0 where
  pub tenant_id : Text
  pub expected_version : ℤ
  pub next_status : Status
  pub metadata : TransitionMetadata

abbrev pub normalized_metadata : TransitionMetadata → TransitionMetadata
normalized_metadata m = record {
  actor_type = trim_space m.actor_type;
  actor_id = trim_space m.actor_id;
  reason = trim_space m.reason;
  correlation_id = trim_space m.correlation_id;
}

unfoldable pub validate_metadata : TransitionMetadata → Result Error Unit
validate_metadata metadata = do
  let m = normalized_metadata metadata
  require
      (not (
        is_empty m.actor_type
        || is_empty m.actor_id
        || is_empty m.reason
        || is_empty m.correlation_id))
      invalid
  require (leb (length m.reason) 1000) invalid

unfoldable pub valid_transition : Status → Status → Bool
valid_transition active suspended = true
valid_transition active disabled = true
valid_transition suspended active = true
valid_transition suspended disabled = true
valid_transition from to = false

abbrev pub moved : Status → ℕ → Tenant → Tenant
moved next now t = record t { status = next; version = incr t.version; updated_at = now }

abbrev pub status_change : TransitionStatusInput → ℕ → Tenant → StatusChangeEvent
status_change input now t = record {
  tenant_id = t.tenant_id;
  previous_status = t.status;
  next_status = input.next_status;
  metadata = normalized_metadata input.metadata;
  previous_version = t.version;
  next_version = incr t.version;
  occurred_at = now;
}

unfoldable pub transition_status :
    Context
    → ℕ
    → TransitionStatusInput
    → Repository
    → Result Error ((Tenant × StatusChangeEvent) × Repository)
unfolding validate_metadata
transition_status ctx now input r = do
  check_context 0 ctx
  validate_metadata input.metadata
  lock ctx
  t ← mutable input.tenant_id input.expected_version r
  require (valid_transition t.status input.next_status) invalid_transition
  ok (
    (moved input.next_status now t, status_change input now t),
    put (moved input.next_status now t) input.tenant_id r,
  )

-- A call by any caller; reads change nothing.
pub data Call : Type 0 where
  creates : Context → ℕ → Option ℕ → ℕ → CreateInput → Call
  updates : Context → ℕ → UpdateConfigurationInput → Call
  transitions : Context → ℕ → TransitionStatusInput → Call

abbrev pub after : {A : Type 0} → Repository → Result Error (A × Repository) → Repository
after r (ok (a, r')) = r'
after r (err e) = r

unfoldable pub step : Call → Repository → Repository
step (creates ctx ms random now input) r = after r (create ctx ms random now input r)
step (updates ctx now input) r = after r (update_configuration ctx now input r)
step (transitions ctx now input) r = after r (transition_status ctx now input r)

unfoldable pub run : List Call → Repository → Repository
unfolding step
run [] r = r
run (c ∷ cs) r = run cs (step c r)
