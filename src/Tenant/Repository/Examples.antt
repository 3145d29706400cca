-- ===== src/Tenant/Repository/Examples.antt =====
-- trpcservice/tenant/inmemory/inmemory.go: one tenant that is created, changed and disabled.
use trpc_agent_service_platf.Tenant.Identity.{conflict, invalid_transition}
use trpc_agent_service_platf.Tenant.Identity.{disabled as tenant_disabled}
use trpc_agent_service_platf.Tenant.Roots.{
  is_disabled, new_tenant_id, validate, new_tenant, Tenant, CreateInput, active, disabled,
  suspended, unset,
}
use trpc_agent_service_platf.Tenant.Settings.{
  validate_telemetry_configuration, validate_currency_limits, validate_limits,
  validate_display_name, validate_configuration, with_defaults, trimmed, masking_unset,
  iso4217_non_monetary_codes, iso4217_currencies, is_listed, valid_currency, Configuration,
}
use trpc_agent_service_platf.Tenant.Repository.Invariant.{IsWellFormed}
use trpc_agent_service_platf.Base.{
  ◌%◌, ◌^◌, ◌/◌, ◌==◌, not, subst, nat_eq, list_eq, refl, require, false, ◌>>◌, true, [], ◌>>=◌,
  list_beq, arith, ◌∷◌, none, ap, some, ok, ◌++◌, ◌≡◌, List,
}
use trpc_agent_service_platf.Tenant.Repository.{
  or_missing, valid_transition, put, validate_metadata, status_change, after, mutable, moved,
  transition_status, step, StatusChangeEvent, is_absent, transitions, new_repository, creates,
  store_new, run, Call, create, TransitionStatusInput, Repository,
}
use trpc_agent_service_platf.Base.Text.{
  trim_left, trim_space, lower_rune, rune_len, byte_len, codes,
}
use trpc_agent_service_platf.Base.Maps.{lookup-insert_self, lookup}
use trpc_agent_service_platf.Base.Ints.{int_eq, negsuc, pos}
use trpc_agent_service_platf.Base.Contexts.{background}
use trpc_agent_service_platf.Base.Slugs.{lowered, are_slug_runes, is_slug}
use trpc_agent_service_platf.Tenant.Roots.Creation.{new_tenant-validates}
use trpc_agent_service_platf.Tenant.Repository.Runs.{run-IsWellFormed}
use trpc_agent_service_platf.Base.Ulids.{ulid-decodes, decode_from, ulid}
use trpc_agent_service_platf.Base.Floats.{finite}
use trpc_agent_service_platf.Tenant.Identity.{duplicate_key}
use trpc_agent_service_platf.Tenant.Repository.Lifecycle.{call-Moves, disabled_is_final, Moves}
use trpc_agent_service_platf.Tenant.Repository.Versions.{version_used_once, Succeeds}

abbrev configuration : Configuration
configuration = record {
  display_name = codes " Acme ";
  rate_limit_rpm = some (pos 60);
  max_concurrent_executions = none;
  monthly_token_budget = none;
  monthly_spend_limit_minor = some (pos 500);
  billing_currency = codes "EUR";
  audit_retention_days = pos 0;
  log_masking_level = masking_unset;
  trace_sampling_rate = finite false 1 (negsuc 0);
  default_agent_app_id = none;
  default_backend_profile_id = none;
}

abbrev input : CreateInput
input = record { tenant_key = codes " Acme-1"; status = unset; configuration = configuration }

abbrev acme : Tenant
acme = record {
  tenant_id = codes "t_" ++ ulid 7 9;
  tenant_key = codes "acme-1";
  status = active;
  configuration = trimmed (with_defaults configuration);
  version = pos 1;
  created_at = 20;
  updated_at = 20;
}

currency_checks :
    (valid_currency (codes "EUR") ≡ true)
    × (valid_currency (codes "XAU") ≡ false)
    × (valid_currency (codes "EURO") ≡ false)
unfolding valid_currency is_listed iso4217_currencies iso4217_non_monetary_codes list_beq
currency_checks = (refl, refl, refl)

acme-made : new_tenant 7 (some 9) 20 input ≡ ok acme
unfolding new_tenant new_tenant_id is_slug are_slug_runes lowered byte_len rune_len lower_rune
    trim_space trim_left validate_configuration validate_display_name validate_limits
    validate_currency_limits validate_telemetry_configuration with_defaults valid_currency is_listed
    iso4217_currencies iso4217_non_monetary_codes list_beq
acme-made = refl

new_tenant-validates_example : validate acme ≡ ok tt
new_tenant-validates_example = new_tenant-validates 7 (some 9) 20 input acme (omega arith) acme-made

abbrev start : Repository
start = store_new acme new_repository

acme-created : create background 7 (some 9) 20 input new_repository ≡ ok (acme, start)
unfolding create lookup
acme-created =
    ap
      (λ m. do
        t ← m
        require (is_absent (lookup t.tenant_id new_repository.by_id)) duplicate_key
        require (is_absent (lookup t.tenant_key new_repository.by_key)) duplicate_key
        ok (t, store_new t new_repository))
      acme-made

abbrev suspend : TransitionStatusInput
suspend = record {
  tenant_id = acme.tenant_id;
  expected_version = pos 1;
  next_status = suspended;
  metadata = record {
    actor_type = codes "user";
    actor_id = codes "u1";
    reason = codes "unpaid";
    correlation_id = codes "c1";
  };
}

abbrev calls : List Call
calls = creates background 7 (some 9) 20 input ∷ transitions background 30 suspend ∷ []

run-IsWellFormed_example : IsWellFormed 2 (run calls new_repository)
run-IsWellFormed_example = run-IsWellFormed calls (omega arith) (omega arith, (omega arith, tt))

start-found : lookup acme.tenant_id start.by_id ≡ some acme
unfolding store_new
start-found = lookup-insert_self acme.tenant_id acme new_repository.by_id

start-IsWellFormed : IsWellFormed 1 start
unfolding run step
start-IsWellFormed =
    subst (λ o. IsWellFormed 1 (after new_repository o)) acme-created
      (run-IsWellFormed (creates background 7 (some 9) 20 input ∷ []) (omega arith)
        (omega arith, tt))

call-Moves_example :
    Moves acme.tenant_id
      (transitions background 30 suspend)
      acme
      (step (transitions background 30 suspend) start)
call-Moves_example =
    call-Moves (transitions background 30 suspend) acme.tenant_id acme start start-found

abbrev gone : Tenant
gone = record acme { status = disabled }

disabled_is_final_example :
    lookup gone.tenant_id
      (run (transitions background 30 suspend ∷ []) (store_new gone new_repository)).by_id
    ≡ some gone
unfolding store_new
disabled_is_final_example =
    disabled_is_final (transitions background 30 suspend ∷ []) gone.tenant_id gone
      (store_new gone new_repository) (lookup-insert_self gone.tenant_id gone new_repository.by_id)
      refl

abbrev suspension_done : (Tenant × StatusChangeEvent) × Repository
suspension_done = (
  (moved suspended 30 acme, status_change suspend 30 acme),
  put (moved suspended 30 acme) acme.tenant_id start,
)

acme-suspended : transition_status background 30 suspend start ≡ ok suspension_done
unfolding transition_status mutable validate_metadata valid_transition trim_space trim_left
    store_new
acme-suspended =
    ap
      (λ o. do
        t ← (do
          u ← or_missing o
          require (not (is_disabled u.status)) tenant_disabled
          require (pos 1 == u.version) conflict
          ok u)
        require (valid_transition t.status suspended) invalid_transition
        ok (
          (moved suspended 30 t, status_change suspend 30 t),
          put (moved suspended 30 t) acme.tenant_id start,
        ))
      start-found

version_used_once_example :
    ¬ Succeeds acme.tenant_id
      (pos 1)
      (transitions background 40 suspend)
      (run [] (step (transitions background 30 suspend) start))
version_used_once_example =
    version_used_once acme.tenant_id (pos 1) (transitions background 30 suspend)
      (transitions background 40 suspend) [] 1 start (omega arith) (omega arith, tt)
      start-IsWellFormed (refl, refl, suspension_done, acme-suspended)

ulid-decodes_example :
    (decode_from 0 (ulid 7 9) / 2 ^ 80 ≡ 7) × (decode_from 0 (ulid 7 9) % 2 ^ 80 ≡ 9)
ulid-decodes_example = ulid-decodes 7 9
