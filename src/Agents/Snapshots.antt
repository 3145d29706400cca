-- ===== src/Agents/Snapshots.antt =====
-- trpcservice/agent/runtime.go: what one execution runs on. The value of a context under the key of
-- the package is an Option.
pub mod Execution
pub mod Examples
use trpc_agent_service_platf.Base.{pair_eq}
use trpc_agent_service_platf.Base.Ints.{int_eq}
use trpc_agent_service_platf.Tenant.Roots.{Tenant}
use trpc_agent_service_platf.Agents.Apps.{
  validate_app, is_none, App, Error, invalid, can_accept_execution,
}
use trpc_agent_service_platf.Agents.Repository.{is_absent}
use trpc_agent_service_platf.Tenant.Roots
use trpc_agent_service_platf.Agents.Revisions.{is_published, validate_revision, Revision, Hashing}
use trpc_agent_service_platf.Base.{
  nat_eq, list_eq, ◌||◌, ◌==◌, require, ◌&&◌, wrap_err, ◌>>◌, ◌>>=◌, ok, not, none, err, some,
  Result, Bool, Option,
}
use trpc_agent_service_platf.Base.Text.{Text}
use trpc_agent_service_platf.Base.Ints.{ℤ}
use trpc_agent_service_platf.Agents.Drafts.{DraftConfiguration, Kind}
use trpc_agent_service_platf.Agents.Changes.{is_current}

pub record Snapshot : Type 0 where
  pub tenant : Option Tenant
  pub app : Option App
  pub revision : Option Revision

pub record FactoryCacheKey : Type 0 where
  pub tenant_id : Text
  pub tenant_version : ℤ
  pub app_id : Text
  pub app_version : ℤ
  pub revision : ℤ
  pub content_digest : Text

-- The configuration is that of the revision.
pub record LlmAgentFactoryInput : Type 0 where
  pub key : FactoryCacheKey
  pub app_key : Text
  pub display_name : Text
  pub name : Text
  pub kind : Kind
  pub schema_version : ℤ
  pub configuration : DraftConfiguration

-- The revision is the current one or, beside a current one, the canary.
abbrev pub selects : App → ℤ → Bool
selects a n =
    not (is_none a.current_revision)
    && (is_current a.current_revision n || is_current a.canary_revision n)

abbrev or_invalid : {A : Type 0} → Option A → Result Error A
or_invalid none = err invalid
or_invalid (some a) = ok a

module _ (hashing : Hashing) where
  unfoldable pub validate_revision_state : Tenant → App → Option Revision → Result Error Unit
  validate_revision_state t a none = err invalid
  validate_revision_state t a (some v) = do
    wrap_err (λ e. invalid) (validate_revision hashing v)
    require (is_published v.state) invalid
    require (t.tenant_id == a.tenant_id && t.tenant_id == v.tenant_id && a.app_id == v.app_id)
        invalid
    require (selects a v.revision) invalid

  unfoldable pub validate_app_state : Tenant → Option App → Option Revision → Result Error Unit
  unfolding validate_revision_state
  validate_app_state t none v = err invalid
  validate_app_state t (some a) v = do
    wrap_err (λ e. invalid) (validate_app a)
    require (can_accept_execution a) invalid
    validate_revision_state t a v

  unfoldable pub validate_execution_state :
      Tenant → Option App → Option Revision → Result Error Unit
  unfolding validate_app_state
  validate_execution_state t a v = do
    wrap_err (λ e. invalid) (Roots.validate t)
    require (Roots.can_accept_execution t) invalid
    validate_app_state t a v

  -- The tenant is the one that the configuration snapshot holds.
  unfoldable pub new_snapshot : Tenant → Option App → Option Revision → Result Error Snapshot
  unfolding validate_execution_state
  new_snapshot t a v = do
    validate_execution_state t a v
    ok (record { tenant = some t; app = a; revision = v })

  -- What a snapshot holds, when it is initialized.
  abbrev pub parts : Snapshot → Result Error (Tenant × App × Revision)
  parts s = do
    t ← or_invalid s.tenant
    a ← or_invalid s.app
    v ← or_invalid s.revision
    ok (t, a, v)

  unfoldable pub validated : Snapshot → Result Error (Tenant × App × Revision)
  unfolding validate_execution_state
  validated s = do p ← parts s; validate_execution_state p.0 (some p.1) (some p.2); ok p

  abbrev pub key_of : Tenant × App × Revision → FactoryCacheKey
  key_of (t, a, v) = record {
    tenant_id = t.tenant_id;
    tenant_version = t.version;
    app_id = a.app_id;
    app_version = a.version;
    revision = v.revision;
    content_digest = v.content_digest;
  }

  unfoldable pub cache_key : Snapshot → Result Error FactoryCacheKey
  unfolding validated
  cache_key s = do p ← validated s; ok (key_of p)

  abbrev pub input_of : Tenant × App × Revision → LlmAgentFactoryInput
  input_of (t, a, v) = record {
    key = key_of (t, a, v);
    app_key = a.app_key;
    display_name = a.display_name;
    name = a.app_key;
    kind = v.kind;
    schema_version = v.schema_version;
    configuration = v.configuration;
  }

  unfoldable pub factory_input : Snapshot → Result Error LlmAgentFactoryInput
  unfolding validated
  factory_input s = do p ← validated s; ok (input_of p)

  abbrev pub kept_value : Snapshot → Result Error (Tenant × App × Revision) → Snapshot
  kept_value s (ok p) = s
  kept_value s (err e) = record { tenant = none; app = none; revision = none }

  -- The value that is put into the context.
  unfoldable pub with_snapshot : Snapshot → Snapshot
  unfolding validated
  with_snapshot s = kept_value s (validated s)

  abbrev pub found_value : Snapshot → Result Error (Tenant × App × Revision) → Option Snapshot
  found_value s (ok p) = some s
  found_value s (err e) = none

  -- The snapshot that is read back from the context's value.
  unfoldable pub from_context : Option Snapshot → Option Snapshot
  unfolding validated
  from_context none = none
  from_context (some s) = found_value s (validated s)
