-- ===== src/Agents/Revisions/Publishing.antt =====
-- trpcservice/agent/revision.go: what Revision.Publish leaves, and when it succeeds.
use trpc_agent_service_platf.Agents.Revisions.{
  new_revision, CreateRevisionInput, published_copy, is_published, is_draft, compute_content_digest,
  Revision, validate_revision, publish_revision, Hashing,
}
use trpc_agent_service_platf.Base.{
  nat_eq, ◌∙◌, sym, require-holds, ok-injective, leb, ◌&&◌, ◌==◌, not, require, ap, >>=-eq-ok, true,
  ok, ◌≡◌, ℕ,
}
use trpc_agent_service_platf.Base.Text.{Text}
use trpc_agent_service_platf.Agents.Apps.{
  validate_app_id, validate_tenant_id, invalid, immutable_revision,
}
use trpc_agent_service_platf.Base.Ints.{pos, int_leb}
use trpc_agent_service_platf.Agents.Drafts.{
  validate_revision_definition, normalize_draft_configuration,
}

-- What a publication that succeeds has checked and made.
pub record IsPublication (hashing : Hashing) (at : ℕ) (r p : Revision) : Type 0 where
  pub was_draft : is_draft r.state ≡ true
  pub was_valid : validate_revision hashing r ≡ ok tt
  pub digest : Text
  pub hashed : compute_content_digest hashing r ≡ ok digest
  pub copied : p ≡ published_copy hashing r at digest
  pub valid : validate_revision hashing p ≡ ok tt

pub publish_revision-IsPublication :
    (hashing : Hashing) (at : ℕ) (r p : Revision)
    → publish_revision hashing at r ≡ ok p
    → IsPublication hashing at r p
unfolding publish_revision
publish_revision-IsPublication hashing at r p h =
    let (_, was, h₁) = >>=-eq-ok (require (is_draft r.state) immutable_revision) _ h in
    let (_, valid, h₂) = >>=-eq-ok (validate_revision hashing r) _ h₁ in
    let (_, _, h₃) = >>=-eq-ok (require (not (at == 0) && leb r.updated_at at) invalid) _ h₂ in
    let (digest, hashed, h₄) = >>=-eq-ok (compute_content_digest hashing r) _ h₃ in
    let (_, checked, last) =
      >>=-eq-ok (validate_revision hashing (published_copy hashing r at digest)) _ h₄ in
    let same : published_copy hashing r at digest ≡ p = ok-injective last in
    record {
      was_draft = require-holds _ immutable_revision was;
      was_valid = valid;
      digest = digest;
      hashed = hashed;
      copied = sym same;
      valid = ap (validate_revision hashing) (sym same) ∙ checked;
    }

pub publish_revision-published :
    (hashing : Hashing) (at : ℕ) (r p : Revision)
    → publish_revision hashing at r ≡ ok p
    → is_published p.state ≡ true
publish_revision-published hashing at r p h =
    ap (λ x. is_published x.state) (publish_revision-IsPublication hashing at r p h).copied

-- A revision that NewRevision makes is a draft with a positive number.
pub record IsFresh (input : CreateRevisionInput) (v : Revision) : Type 0 where
  pub positive : int_leb (pos 1) input.revision ≡ true
  pub draft : is_draft v.state ≡ true
  pub same_tenant : v.tenant_id ≡ input.tenant_id
  pub same_app : v.app_id ≡ input.app_id
  pub same_number : v.revision ≡ input.revision

pub new_revision-IsFresh :
    (now : ℕ) (input : CreateRevisionInput) (v : Revision)
    → new_revision now input ≡ ok v
    → IsFresh input v
unfolding new_revision
new_revision-IsFresh now input v h =
    let (_, _, h₁) = >>=-eq-ok (validate_tenant_id input.tenant_id) _ h in
    let (_, _, h₂) = >>=-eq-ok (validate_app_id input.app_id) _ h₁ in
    let (_, positive, h₃) = >>=-eq-ok (require (int_leb (pos 1) input.revision) invalid) _ h₂ in
    let (c, _, h₄) = >>=-eq-ok (normalize_draft_configuration input.configuration) _ h₃ in
    let (_, _, last) = >>=-eq-ok (validate_revision_definition _ _ c) _ h₄ in
    record {
      positive = require-holds _ invalid positive;
      draft = ap (λ x. is_draft x.state) (sym (ok-injective last));
      same_tenant = ap (λ x. x.tenant_id) (sym (ok-injective last));
      same_app = ap (λ x. x.app_id) (sym (ok-injective last));
      same_number = ap (λ x. x.revision) (sym (ok-injective last));
    }
