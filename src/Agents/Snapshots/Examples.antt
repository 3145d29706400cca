-- ===== src/Agents/Snapshots/Examples.antt =====
-- trpcservice/agent/runtime.go: a snapshot of a tenant, an application and its published revision.
use trpc_agent_service_platf.Tenant.Identity.{validate_tenant_id}
use trpc_agent_service_platf.Base.{list_beq, refl, pair_eq, nat_eq, list_eq}
use trpc_agent_service_platf.Base.Ints.{int_eq}
use trpc_agent_service_platf.Tenant.Roots.{Tenant, active, validate}
use trpc_agent_service_platf.Tenant.Settings.{validate_configuration, Configuration, masking_basic}
use trpc_agent_service_platf.Agents.Life.Samples.{
  first-validates, scope, root, first, only, hosted, only-Holds, root-validates, hosted-IsSound,
  only-IsWellFormed, sample_hashing,
}
use trpc_agent_service_platf.Agents.Revisions.{Revision}
use trpc_agent_service_platf.Agents.Snapshots.{
  factory_input, FactoryCacheKey, cache_key, with_snapshot, new_snapshot, from_context, Snapshot,
}
use trpc_agent_service_platf.Base.Text.{
  lower_rune, trim_space, all_in, drop, has_prefix, byte_len, codes,
}
use trpc_agent_service_platf.Base.{false, inl, [], some, ok, none, ◌≡◌}
use trpc_agent_service_platf.Base.Ints.{pos}
use trpc_agent_service_platf.Agents.Repository.{revision_locked}
use trpc_agent_service_platf.Agents.Snapshots.Execution.{
  executable, new_snapshot-from_context, selected_is_executable,
}
use trpc_agent_service_platf.Base.Floats.{finite}
use trpc_agent_service_platf.Agents.Apps.{can_accept_execution}
use trpc_agent_service_platf.Base.Slugs.{are_slug_runes, lowered, is_slug}
use trpc_agent_service_platf.Agents.Drafts.{llm}

abbrev settings : Configuration
settings = record {
  display_name = codes "Acme";
  rate_limit_rpm = none;
  max_concurrent_executions = none;
  monthly_token_budget = none;
  monthly_spend_limit_minor = none;
  billing_currency = [];
  audit_retention_days = pos 90;
  log_masking_level = masking_basic;
  trace_sampling_rate = finite false 1 (pos 0);
  default_agent_app_id = none;
  default_backend_profile_id = none;
}

abbrev owner : Tenant
owner = record {
  tenant_id = scope.0;
  tenant_key = codes "acme";
  status = active;
  configuration = settings;
  version = pos 1;
  created_at = 5;
  updated_at = 5;
}

owner-validates : validate owner ≡ ok tt
unfolding validate validate_tenant_id byte_len has_prefix drop all_in is_slug lowered trim_space
    lower_rune are_slug_runes list_beq validate_configuration
owner-validates = refl

selected_is_executable_example :
    (v : Revision) × (revision_locked scope (pos 1) (only (hosted root)) ≡ ok v)
    × (new_snapshot sample_hashing owner (some root) (some v)
        ≡ ok (record { tenant = some owner; app = some root; revision = some v }))
selected_is_executable_example =
    selected_is_executable sample_hashing owner scope (hosted root) (only (hosted root)) (pos 1)
      (only-IsWellFormed root (hosted-IsSound root refl root-validates refl refl)) (only-Holds root)
      owner-validates refl refl refl (inl refl)

abbrev snapshot : Snapshot
snapshot = record { tenant = some owner; app = some root; revision = some first }

snapshot-made : new_snapshot sample_hashing owner (some root) (some first) ≡ ok snapshot
unfolding can_accept_execution
snapshot-made =
    executable sample_hashing owner root first owner-validates refl root-validates refl
      first-validates refl (refl, refl, refl) refl

abbrev key : FactoryCacheKey
key = record {
  tenant_id = codes "t_00000000000000000000000000";
  tenant_version = pos 1;
  app_id = codes "app_00000000000000000000000000";
  app_version = pos 2;
  revision = pos 1;
  content_digest = codes "00";
}

new_snapshot-from_context_example :
    (from_context sample_hashing (some (with_snapshot sample_hashing snapshot)) ≡ some snapshot)
    × (cache_key sample_hashing snapshot ≡ ok key)
    × (factory_input sample_hashing snapshot
        ≡ ok (record {
          key = key;
          app_key = codes "helper";
          display_name = codes "Helper";
          name = codes "helper";
          kind = llm;
          schema_version = pos 1;
          configuration = first.configuration;
        }))
new_snapshot-from_context_example =
    new_snapshot-from_context sample_hashing owner root first snapshot snapshot-made
