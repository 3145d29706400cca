-- ===== src/Tenant/Repository/Changes.antt =====
-- trpcservice/tenant/inmemory/inmemory.go: what a change of a tenant keeps and changes.
use trpc_agent_service_platf.Tenant.Roots.{
  unset, disabled, suspended, unknown, active, Status, is_disabled, Tenant,
}
use trpc_agent_service_platf.Base.Text.{trim_space, Text}
use trpc_agent_service_platf.Tenant.Repository.{
  StatusChangeEvent, UpdateConfigurationInput, TransitionStatusInput, transitions, updates, moved,
  valid_transition, configured, Call, Repository,
}
use trpc_agent_service_platf.Tenant.Settings.{
  masking_strict, masking_none, masking_unknown, masking_basic, masking_unset, default_masking,
  LogMaskingLevel, validate_configuration, trimmed-validate_configuration, with_defaults,
  Configuration,
}
use trpc_agent_service_platf.Base.{
  if◌then◌else◌, ◌≢◌, ok, ◌⊎◌, refl, inr, inl, ◌==◌, nat_eq, list_eq, true, false, ◌≡◌, ℕ,
}
use trpc_agent_service_platf.Tenant.Repository.Steps.{IsTransition, IsUpdate}
use trpc_agent_service_platf.Base.Contexts.{Context}
use trpc_agent_service_platf.Base.Ints.{int_eq, pos, incr, ℤ}

-- What every change of a tenant keeps and changes: it starts from the version that the caller
-- expects, of a tenant that is not disabled, and leaves the next version at the time of the call.
pub record IsChanged (expected : ℤ) (now : ℕ) (t t' : Tenant) : Type 0 where
  pub enabled : is_disabled t.status ≡ false
  pub current : expected ≡ t.version
  pub next_version : t'.version ≡ incr t.version
  pub same_id : t'.tenant_id ≡ t.tenant_id
  pub same_key : t'.tenant_key ≡ t.tenant_key
  pub same_created : t'.created_at ≡ t.created_at
  pub stamped : t'.updated_at ≡ now

-- The fields of a configuration that are stored as the caller gives them.
abbrev pub HasSameLimits : Configuration → Configuration → Type 0
HasSameLimits c d =
    (d.rate_limit_rpm ≡ c.rate_limit_rpm)
    × (d.max_concurrent_executions ≡ c.max_concurrent_executions)
    × (d.monthly_token_budget ≡ c.monthly_token_budget)
    × (d.monthly_spend_limit_minor ≡ c.monthly_spend_limit_minor)
    × (d.billing_currency ≡ c.billing_currency)
    × (d.trace_sampling_rate ≡ c.trace_sampling_rate)
    × (d.default_agent_app_id ≡ c.default_agent_app_id)
    × (d.default_backend_profile_id ≡ c.default_backend_profile_id)

-- The masking level that is given, or the basic one for none.
abbrev pub IsMasked : LogMaskingLevel → LogMaskingLevel → Type 0
IsMasked given stored =
    ((given ≡ masking_unset) × (stored ≡ masking_basic))
    ⊎ ((given ≢ masking_unset) × (stored ≡ given))

default_masking-IsMasked : (m : LogMaskingLevel) → IsMasked m (default_masking m)
default_masking-IsMasked masking_none = inr ((λ e. cc), refl)
default_masking-IsMasked masking_basic = inr ((λ e. cc), refl)
default_masking-IsMasked masking_strict = inr ((λ e. cc), refl)
default_masking-IsMasked masking_unset = inl (refl, refl)
default_masking-IsMasked (masking_unknown s) = inr ((λ e. cc), refl)

-- A new configuration: the caller's, with a trimmed name and the two defaults, which is accepted;
-- the status stays.
pub record IsConfigured (id : Text) (now : ℕ) (input : UpdateConfigurationInput) (t t' : Tenant)
    : Type 0 where
  pub addressed : input.tenant_id ≡ id
  pub changed : IsChanged input.expected_version now t t'
  pub same_status : t'.status ≡ t.status
  pub named : t'.configuration.display_name ≡ trim_space input.configuration.display_name
  pub limits : HasSameLimits input.configuration t'.configuration
  pub retained : t'.configuration.audit_retention_days ≡ (
      if input.configuration.audit_retention_days == pos 0
      then pos 90
      else input.configuration.audit_retention_days)
  pub masked : IsMasked input.configuration.log_masking_level t'.configuration.log_masking_level
  pub accepted : validate_configuration t'.configuration ≡ ok tt

-- From active or suspended to another status that is known.
abbrev pub IsAllowed : Status → Status → Type 0
IsAllowed from to =
    ((from ≡ active) ⊎ (from ≡ suspended))
    × ((to ≡ active) ⊎ ((to ≡ suspended) ⊎ (to ≡ disabled)))
    × (from ≢ to)

-- A new status: the caller's, which is allowed; the configuration stays.
pub record IsMoved (id : Text) (now : ℕ) (input : TransitionStatusInput) (t t' : Tenant)
    : Type 0 where
  pub addressed : input.tenant_id ≡ id
  pub changed : IsChanged input.expected_version now t t'
  pub status_is : t'.status ≡ input.next_status
  pub allowed : IsAllowed t.status t'.status
  pub same_configuration : t'.configuration ≡ t.configuration

-- What one call may do to the tenant that is stored under an ID.
pub data TenantStep (id : Text) (c : Call) (t t' : Tenant) : Type 0 where
  stays : t' ≡ t → TenantStep id c t t'
  configures :
      (ctx : Context) (now : ℕ) (input : UpdateConfigurationInput)
      → c ≡ updates ctx now input
      → IsConfigured id now input t t'
      → TenantStep id c t t'
  moves :
      (ctx : Context) (now : ℕ) (input : TransitionStatusInput)
      → c ≡ transitions ctx now input
      → IsMoved id now input t t'
      → TenantStep id c t t'

valid_transition-IsAllowed :
    (from to : Status) → valid_transition from to ≡ true → IsAllowed from to
unfolding valid_transition
valid_transition-IsAllowed active suspended h = (inl refl, inr (inl refl), λ e. cc)
valid_transition-IsAllowed active disabled h = (inl refl, inr (inr refl), λ e. cc)
valid_transition-IsAllowed suspended active h = (inr refl, inl refl, λ e. cc)
valid_transition-IsAllowed suspended disabled h = (inr refl, inr (inr refl), λ e. cc)
valid_transition-IsAllowed unset to h = cc
valid_transition-IsAllowed active unset h = cc
valid_transition-IsAllowed active active h = cc
valid_transition-IsAllowed active (unknown s) h = cc
valid_transition-IsAllowed suspended unset h = cc
valid_transition-IsAllowed suspended suspended h = cc
valid_transition-IsAllowed suspended (unknown s) h = cc
valid_transition-IsAllowed disabled to h = cc
valid_transition-IsAllowed (unknown s) to h = cc

pub IsUpdate-IsConfigured :
    (now : ℕ) (input : UpdateConfigurationInput) (r r' : Repository) (t' : Tenant)
    (u : IsUpdate now input r t' r')
    → IsConfigured input.tenant_id now input u.t
        (configured (with_defaults input.configuration) now u.t)
unfolding with_defaults
IsUpdate-IsConfigured now input r r' t' u = record {
  addressed = refl;
  changed = record {
    enabled = u.before.enabled;
    current = u.before.current;
    next_version = refl;
    same_id = refl;
    same_key = refl;
    same_created = refl;
    stamped = refl;
  };
  same_status = refl;
  named = refl;
  limits = (refl, refl, refl, refl, refl, refl, refl, refl);
  retained = refl;
  masked = default_masking-IsMasked input.configuration.log_masking_level;
  accepted = trimmed-validate_configuration (with_defaults input.configuration) u.accepted;
}

pub IsTransition-IsMoved :
    (now : ℕ) (input : TransitionStatusInput) (r r' : Repository) (t' : Tenant)
    (event : StatusChangeEvent) (m : IsTransition now input r t' event r')
    → IsMoved input.tenant_id now input m.t (moved input.next_status now m.t)
IsTransition-IsMoved now input r r' t' event m = record {
  addressed = refl;
  changed = record {
    enabled = m.before.enabled;
    current = m.before.current;
    next_version = refl;
    same_id = refl;
    same_key = refl;
    same_created = refl;
    stamped = refl;
  };
  status_is = refl;
  allowed = valid_transition-IsAllowed m.t.status input.next_status m.allowed;
  same_configuration = refl;
}
