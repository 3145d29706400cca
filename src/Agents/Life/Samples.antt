-- ===== src/Agents/Life/Samples.antt =====
-- trpcservice/agent: one application with a published revision, as test data.
use trpc_agent_service_platf.Base.{ap, list_beq, pair_eq, nat_eq, list_eq}
use trpc_agent_service_platf.Agents.Apps.{
  validate_app_metadata, validate_crockford_id, validate_app, App, active, disabled,
}
use trpc_agent_service_platf.Agents.Drafts.{
  validate_revision_definition, normalize_draft_configuration, llm, default_runtime_policy,
  DraftConfiguration,
}
use trpc_agent_service_platf.Agents.Life.{IsOf, HasPublished, IsSound, Hosted, Holds}
use trpc_agent_service_platf.Agents.Revisions.{
  compute_content_digest, same_tools, same_draft_configuration, validate_configuration,
  published_state, validate_revision, Revision, Hashing,
}
use trpc_agent_service_platf.Agents.Life.Stores.{IsWellFormed}
use trpc_agent_service_platf.Base.{
  ◌∙◌, true, inr, sym, ==_iff, subst, refl, inl, ◌∷◌, ok, none, ◌==◌, ◌≡◌, some, [], Bool-cases,
  ==_refl,
}
use trpc_agent_service_platf.Agents.Repository.{scope_of, Repository, Scope}
use trpc_agent_service_platf.Base.Text.{
  lower_rune, trim_space, all_in, byte_len, trim_prefix, codes,
}
use trpc_agent_service_platf.Base.Maps.{lookup}
use trpc_agent_service_platf.Base.Ints.{int_eq, int_leb, ℤ, pos}
use mathlib.Core.Option.{none-ne-some, some-injective}
use trpc_agent_service_platf.Base.Slugs.{are_slug_runes, lowered, is_slug}
use trpc_agent_service_platf.Base.Sorting.{sort}

abbrev pub sample_hashing : Hashing
sample_hashing = record { marshal = λ p. some []; sha256_hex = λ bytes. codes "00" }

abbrev pub scope : Scope
scope = (codes "t_00000000000000000000000000", codes "app_00000000000000000000000000")

abbrev pub root : App
root = record {
  tenant_id = scope.0;
  app_id = scope.1;
  app_key = codes "helper";
  display_name = codes "Helper";
  description = [];
  status = active;
  current_revision = some (pos 1);
  canary_revision = none;
  version = pos 2;
  created_at = 10;
  updated_at = 30;
}

abbrev pub configuration : DraftConfiguration
configuration = record {
  description = [];
  instruction = codes "Help.";
  global_instruction = [];
  model_profile_id = codes "m1";
  generation = record { temperature = none; top_p = none; max_output_tokens = none };
  runtime = default_runtime_policy;
  tools = [];
}

abbrev pub first : Revision
first = record {
  tenant_id = scope.0;
  app_id = scope.1;
  revision = pos 1;
  state = published_state;
  draft_version = pos 1;
  kind = llm;
  schema_version = pos 1;
  configuration = configuration;
  content_digest = codes "00";
  published_at = some 30;
  created_at = 20;
  updated_at = 30;
}

pub first-validates : validate_revision sample_hashing first ≡ ok tt
unfolding validate_revision validate_crockford_id list_beq trim_prefix byte_len all_in
    validate_configuration normalize_draft_configuration same_draft_configuration trim_space
    same_tools sort validate_revision_definition compute_content_digest
first-validates = refl

pub root-validates : validate_app root ≡ ok tt
unfolding validate_app validate_crockford_id list_beq trim_prefix byte_len all_in is_slug lowered
    trim_space lower_rune are_slug_runes validate_app_metadata
root-validates = refl

pub gone-validates : validate_app (record root { status = disabled }) ≡ ok tt
unfolding validate_app validate_crockford_id list_beq trim_prefix byte_len all_in is_slug lowered
    trim_space lower_rune are_slug_runes validate_app_metadata
gone-validates = refl

abbrev pub hosted : App → Hosted
hosted a = record { app = a; revisions = (pos 1, first) ∷ []; latest = some (pos 1) }

abbrev pub only : Hosted → Repository
only s = record {
  apps = (scope, s.app) ∷ [];
  by_key = [];
  revisions = (scope, s.revisions) ∷ [];
  next = (scope, pos 1) ∷ [];
}

pub only-Holds : (a : App) → Holds scope (only (hosted a)) (hosted a)
unfolding lookup
only-Holds a = record {
  app_at = rw (==_refl scope) refl;
  revisions_at = rw (==_refl scope) refl;
  latest_at = rw (==_refl scope) refl;
}

found-first :
    (n : ℤ) (v : Revision) → lookup n ((pos 1, first) ∷ []) ≡ some v → (n ≡ pos 1) × (first ≡ v)
unfolding lookup
found-first n v at = elim (Bool-cases (pos 1 == n)) [
  | inl same ↦ (sym ((==_iff (pos 1) n).0 same), some-injective first v (sym (rw same refl) ∙ at))
  | inr other ↦ absurd (none-ne-some v (sym (rw other refl) ∙ at))
]

pub hosted-IsSound :
    (a : App)
    → scope_of a ≡ scope
    → validate_app a ≡ ok tt
    → a.current_revision ≡ some (pos 1)
    → a.canary_revision ≡ none
    → IsSound sample_hashing scope (hosted a)
unfolding lookup
hosted-IsSound a own valid current canary = record {
  owned = own;
  valid = valid;
  counted = (1, refl);
  numbered = λ n v at. subst (λ x. int_leb x (pos 1) ≡ true) (sym (found-first n v at).0) refl;
  identified = λ n v at.
      let (here, same) = found-first n v at in
      subst (λ x. IsOf a n x) same (sym (ap (λ p. p.0) own), sym (ap (λ p. p.1) own), sym here);
  published = λ n v at is.
      subst (λ x. validate_revision sample_hashing x ≡ ok tt) (found-first n v at).1
        first-validates;
  current = λ n at.
      subst (λ j. HasPublished j ((pos 1, first) ∷ []))
        (some-injective (pos 1) n (sym current ∙ at)) (first, refl, refl);
  canary = λ n at. absurd (none-ne-some n (sym canary ∙ at));
}

pub only-IsWellFormed :
    (a : App)
    → IsSound sample_hashing scope (hosted a)
    → IsWellFormed sample_hashing (only (hosted a))
unfolding lookup
only-IsWellFormed a sound other = elim (Bool-cases (scope == other)) [
  | inl same ↦
      let here = (==_iff scope other).0 same in
      inr (
        hosted a,
        subst (λ x. Holds x (only (hosted a)) (hosted a)) here (only-Holds a),
        subst (λ x. IsSound sample_hashing x (hosted a)) here sound,
      )
  | inr ne ↦ inl (record { no_app = rw ne refl; no_revisions = rw ne refl; no_next = rw ne refl })
]
