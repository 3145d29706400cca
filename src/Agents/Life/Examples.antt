-- ===== src/Agents/Life/Examples.antt =====
-- trpcservice/agent: calls on one application with a published revision.
use trpc_agent_service_platf.Base.{list_beq, pair_eq, nat_eq, list_eq}
use trpc_agent_service_platf.Agents.Operations.{Call, creates, step, run}
use trpc_agent_service_platf.Agents.Apps.{
  new_app_id, validate_app_metadata, validate_crockford_id, validate_app, new_app, App, CreateInput,
  draft, disabled,
}
use trpc_agent_service_platf.Agents.Drafts.{
  validate_revision_definition, normalize_draft_configuration,
}
use trpc_agent_service_platf.Agents.Life.{IsSound, Holds, Effect}
use trpc_agent_service_platf.Agents.Revisions.{
  published_copy, publish_revision, draft_state, same_tools, same_draft_configuration,
  validate_configuration, validate_revision, Revision,
}
use trpc_agent_service_platf.Agents.Life.Stores.{IsWellFormed}
use trpc_agent_service_platf.Base.{refl, ◌∷◌, ok, none, arith, ◌≡◌, some, [], ◌++◌, List}
use trpc_agent_service_platf.Agents.Repository.{new_repository}
use trpc_agent_service_platf.Base.Text.{
  Text, lower_rune, trim_space, all_in, byte_len, trim_prefix, codes,
}
use trpc_agent_service_platf.Base.Maps.{lookup}
use trpc_agent_service_platf.Agents.Life.Runs.{
  published_is_final, apps_stay_sound, disabled_app_is_final, HasRevision,
}
use trpc_agent_service_platf.Base.Contexts.{background}
use trpc_agent_service_platf.Base.Ints.{int_eq, pos}
use trpc_agent_service_platf.Agents.Life.Calls.{step-Effect}
use trpc_agent_service_platf.Base.Ulids.{ulid}
use trpc_agent_service_platf.Agents.Apps.Creation.{new_app-validates}
use trpc_agent_service_platf.Base.Slugs.{are_slug_runes, lowered, is_slug}
use trpc_agent_service_platf.Base.Sorting.{sort}
use trpc_agent_service_platf.Agents.Revisions.Completion.{publish_revision-succeeds}
use trpc_agent_service_platf.Agents.Life.Samples.{
  root-validates, gone-validates, only-Holds, hosted-IsSound, only, hosted, scope, sample_hashing,
  root, first, only-IsWellFormed,
}

abbrev input : CreateInput
input = record {
  tenant_id = scope.0;
  app_key = codes " Helper";
  display_name = codes "Helper ";
  description = [];
}

abbrev calls : List Call
calls = creates background 7 (some 9) 10 input ∷ []

root-IsSound : IsSound sample_hashing scope (hosted root)
root-IsSound = hosted-IsSound root refl root-validates refl refl

apps_stay_sound_example : IsWellFormed sample_hashing (run sample_hashing calls new_repository)
apps_stay_sound_example = apps_stay_sound sample_hashing calls (omega arith, tt)

step-Effect_example :
    Effect sample_hashing
      (only (hosted root))
      (step sample_hashing (creates background 7 (some 9) 10 input) (only (hosted root)))
step-Effect_example =
    step-Effect sample_hashing (creates background 7 (some 9) 10 input) (only (hosted root))
      (omega arith) (only-IsWellFormed root root-IsSound)

published_is_final_example :
    HasRevision scope (pos 1) first (run sample_hashing calls (only (hosted root)))
unfolding lookup
published_is_final_example =
    published_is_final sample_hashing calls scope (pos 1) first (only (hosted root))
      (omega arith, tt) (only-IsWellFormed root root-IsSound) (hosted root, only-Holds root, refl)
      refl

abbrev gone : App
gone = record root { status = disabled }

disabled_app_is_final_example :
    Holds scope (run sample_hashing calls (only (hosted gone))) (hosted gone)
disabled_app_is_final_example =
    disabled_app_is_final sample_hashing calls scope (hosted gone) (only (hosted gone))
      (omega arith, tt) (only-IsWellFormed gone (hosted-IsSound gone refl gone-validates refl refl))
      (only-Holds gone) refl

abbrev made_app : App
made_app = record {
  tenant_id = scope.0;
  app_id = codes "app_" ++ ulid 7 9;
  app_key = codes "helper";
  display_name = codes "Helper";
  description = [];
  status = draft;
  current_revision = none;
  canary_revision = none;
  version = pos 1;
  created_at = 10;
  updated_at = 10;
}

made_app-made : new_app 7 (some 9) 10 input ≡ ok made_app
unfolding new_app validate_crockford_id list_beq trim_prefix byte_len all_in is_slug lowered
    trim_space lower_rune are_slug_runes validate_app_metadata new_app_id
made_app-made = refl

new_app-validates_example : validate_app made_app ≡ ok tt
new_app-validates_example =
    new_app-validates 7 (some 9) 10 input made_app (omega arith) made_app-made

abbrev unpublished : Revision
unpublished = record first {
  state = draft_state;
  content_digest = [];
  published_at = none;
  updated_at = 20;
}

unpublished-validates : validate_revision sample_hashing unpublished ≡ ok tt
unfolding validate_revision validate_crockford_id list_beq trim_prefix byte_len all_in
    validate_configuration normalize_draft_configuration same_draft_configuration trim_space
    same_tools sort validate_revision_definition
unpublished-validates = refl

publish_revision-succeeds_example :
    (digest : Text) × (publish_revision sample_hashing 30 unpublished
      ≡ ok (published_copy sample_hashing unpublished 30 digest))
publish_revision-succeeds_example =
    publish_revision-succeeds sample_hashing 30 unpublished (λ p accepted. ([], refl)) refl
      unpublished-validates (omega arith) (omega arith)
