-- ===== src/Agents/Life/Effects.antt =====
-- trpcservice/agent/inmemory/inmemory.go: an operation that succeeds takes one step of one
-- application.
use trpc_agent_service_platf.Base.{◌<◌, some, false, ◌==◌, pair_eq, nat_eq, list_eq}
use trpc_agent_service_platf.Base.Ints.{int_eq}
use trpc_agent_service_platf.Agents.Operations.{redraft, update_draft}
use trpc_agent_service_platf.Agents.Revisions.{
  validate_revision, is_draft, new_revision, Revision, Hashing,
}
use trpc_agent_service_platf.Agents.Repository.{
  succeeding, redraft_input, revision_locked, UpdateDraftInput, put_revision, draft_input, or_zero,
  is_absent, described, mutable_app, lock, check_context, store_app, UpdateMetadataInput,
  CreateDraftInput, scope_of, update_metadata, create_draft, create, Repository, Scope,
}
use trpc_agent_service_platf.Base.Ints.{incr, ℤ}
use trpc_agent_service_platf.Agents.Apps.{
  conflict, immutable_revision, is_disabled, duplicate_key, new_app, validate_app, CreateInput, App,
}
use trpc_agent_service_platf.Agents.Life.Stores.{
  revision_locked-found, put_revision-is, Becomes-trans, put_next-Becomes, put_revision-Becomes,
  is_absent-none, found-Hosted, mutable_app-IsMutable, store_app-Becomes, IsMutable, IsWellFormed,
}
use trpc_agent_service_platf.Agents.Life.{
  redrafts, drafts, describes, made, steps, Effect, AppStep, IsNext, IsSound, Holds, Hosted,
}
use trpc_agent_service_platf.Base.Contexts.{Context}
use trpc_agent_service_platf.Base.{
  refl, ok-injective, require-holds, ap, sym, subst, require, ◌∙◌, >>=-eq-ok, ok, Option, ◌≡◌, ℕ,
}
use trpc_agent_service_platf.Base.Maps.{insert, lookup}
use trpc_agent_service_platf.Agents.Revisions.Publishing.{new_revision-IsFresh}

-- A root that is changed and accepted is a next one.
pub incr_root :
    (scope : Scope) (expected : ℤ) (r : Repository) (a b : App)
    → IsMutable scope expected r a
    → scope_of b ≡ scope_of a
    → b.version ≡ incr a.version
    → validate_app b ≡ ok tt
    → IsNext a b
incr_root scope expected r a b m own version valid = record {
  enabled = m.enabled;
  same_scope = own;
  next_version = version;
  valid = valid;
}

module _ (hashing : Hashing) (r : Repository) (w : IsWellFormed hashing r) where
  -- A new root is stored.
  pub store_app-Effect :
      (scope : Scope) (s : Hosted) (b : App)
      → Holds scope r s
      → IsSound hashing scope s
      → IsNext s.app b
      → AppStep hashing s (record s { app = b })
      → Effect hashing r (store_app b r)
  store_app-Effect scope s b holds sound next step =
      let (there, elsewhere) =
        store_app-Becomes scope r s holds b (next.same_scope ∙ sound.owned) in
      steps scope s (record s { app = b }) holds step there elsewhere

  pub create-Effect :
      (ctx : Context) (ms : ℕ) (random : Option ℕ) (now : ℕ) (input : CreateInput) (r' : Repository)
      (a : App)
      → 0 < now
      → create ctx ms random now input r ≡ ok (a, r')
      → Effect hashing r r'
  unfolding create
  create-Effect ctx ms random now input r' a later h =
      let (_, _, h₁) = >>=-eq-ok (check_context 0 ctx) _ h in
      let (u, new, h₂) = >>=-eq-ok (new_app ms random now input) _ h₁ in
      let (_, _, h₃) = >>=-eq-ok (lock ctx) _ h₂ in
      let (_, free, h₄) =
        >>=-eq-ok (require (is_absent (lookup (scope_of u) r.apps)) duplicate_key) _ h₃ in
      let (_, _, last) =
        >>=-eq-ok (require (is_absent (lookup (u.tenant_id, u.app_key) r.by_key)) duplicate_key) _
          h₄ in
      made ms random now input u later new (is_absent-none _ (require-holds _ duplicate_key free))
        (sym (ap (λ p. p.1) (ok-injective last)))

  pub update_metadata-Effect :
      (ctx : Context) (now : ℕ) (input : UpdateMetadataInput) (r' : Repository) (b : App)
      → update_metadata ctx now input r ≡ ok (b, r')
      → Effect hashing r r'
  unfolding update_metadata
  update_metadata-Effect ctx now input r' b h =
      let (_, _, h₁) = >>=-eq-ok (check_context 0 ctx) _ h in
      let (_, _, h₂) = >>=-eq-ok (lock ctx) _ h₁ in
      let (a, is, h₃) = >>=-eq-ok (mutable_app input.scope input.expected_version r) _ h₂ in
      let (_, valid, last) = >>=-eq-ok (validate_app (described input now a)) _ h₃ in
      let m = mutable_app-IsMutable input.scope input.expected_version r a is in
      let (s, holds, sound, same) = found-Hosted hashing input.scope a r w m.found in
      let c = described input now a in
      let next : IsNext s.app c =
        subst (λ x. IsNext x c) (sym same) (incr_root _ _ r a c m refl refl valid) in
      subst (Effect hashing r) (ap (λ p. p.1) (ok-injective last)) (
        store_app-Effect input.scope s c holds sound next (
          describes c next (ap (λ x. x.status) (sym same))
            (ap (λ x. x.current_revision) (sym same), ap (λ x. x.canary_revision) (sym same)) refl))

  pub create_draft-Effect :
      (ctx : Context) (now : ℕ) (input : CreateDraftInput) (r' : Repository) (v : Revision)
      → create_draft ctx now input r ≡ ok (v, r')
      → Effect hashing r r'
  unfolding create_draft
  create_draft-Effect ctx now input r' v h =
      let (_, _, h₁) = >>=-eq-ok (check_context 0 ctx) _ h in
      let (_, _, h₂) = >>=-eq-ok (lock ctx) _ h₁ in
      let (a, is, h₃) = >>=-eq-ok (mutable_app input.scope input.expected_app_version r) _ h₂ in
      let n = incr (or_zero (lookup input.scope r.next)) in
      let (d, new, h₄) = >>=-eq-ok (new_revision now (draft_input input n)) _ h₃ in
      let (_, _, h₅) = >>=-eq-ok (check_context 3 ctx) _ h₄ in
      let (r₁, put, last) = >>=-eq-ok (put_revision input.scope n d r) _ h₅ in
      let m = mutable_app-IsMutable input.scope input.expected_app_version r a is in
      let (s, holds, sound, same) = found-Hosted hashing input.scope a r w m.found in
      let fresh = new_revision-IsFresh now (draft_input input n) d new in
      let stored = put_revision-Becomes input.scope r s holds n d in
      let s₁ = record s { revisions = insert n d s.revisions } in
      let r₂ = record r { revisions = insert input.scope (insert n d s.revisions) r.revisions } in
      let counted = put_next-Becomes input.scope r₂ s₁ stored.0 n in
      let both = Becomes-trans input.scope r r₂ _ s s₁ _ holds stored.0 stored counted in
      subst (Effect hashing r)
        (ap {A = Repository} (λ x. record x { next = insert input.scope n r.next })
            (sym (put_revision-is input.scope r s holds n d r₁ put))
          ∙ ap (λ p. p.1) (ok-injective last))
        (steps input.scope s _ holds
          (drafts n d (ap (λ x. is_disabled x.status) same ∙ m.enabled)
            (ap (λ o. incr (or_zero o)) holds.latest_at) fresh.positive fresh.draft
            (
              fresh.same_tenant ∙ sym (ap (λ p. p.0) sound.owned),
              fresh.same_app ∙ sym (ap (λ p. p.1) sound.owned),
              fresh.same_number,
            )
            refl)
          both.0 both.1)

  redraft-Effect :
      (ctx : Context) (now : ℕ) (input : UpdateDraftInput) (r' : Repository) (s : Hosted)
      (v c : Revision)
      → Holds input.scope r s
      → IsSound hashing input.scope s
      → is_disabled s.app.status ≡ false
      → lookup input.revision s.revisions ≡ some v
      → redraft hashing ctx now input r v ≡ ok (c, r')
      → Effect hashing r r'
  unfolding redraft
  redraft-Effect ctx now input r' s v c holds sound on at h =
      let (_, was, h₁) = >>=-eq-ok (require (is_draft v.state) immutable_revision) _ h in
      let (_, _, h₂) =
        >>=-eq-ok (require (input.expected_draft_version == v.draft_version) conflict) _ h₁ in
      let (d, new, h₃) = >>=-eq-ok (new_revision now (redraft_input input v)) _ h₂ in
      let fresh = new_revision-IsFresh now (redraft_input input v) d new in
      let e = succeeding now v d in
      let (_, _, h₄) = >>=-eq-ok (validate_revision hashing e) _ h₃ in
      let (_, _, h₅) = >>=-eq-ok (check_context 3 ctx) _ h₄ in
      let (r₁, put, last) = >>=-eq-ok (put_revision input.scope input.revision e r) _ h₅ in
      let stored = put_revision-Becomes input.scope r s holds input.revision e in
      subst (Effect hashing r)
        (sym (put_revision-is input.scope r s holds input.revision e r₁ put)
          ∙ ap (λ p. p.1) (ok-injective last))
        (steps input.scope s _ holds
          (redrafts input.revision v e on (at, require-holds _ immutable_revision was) fresh.draft
            (
              fresh.same_tenant ∙ sym (ap (λ p. p.0) sound.owned),
              fresh.same_app ∙ sym (ap (λ p. p.1) sound.owned),
              fresh.same_number,
            )
            refl)
          stored.0 stored.1)

  pub update_draft-Effect :
      (ctx : Context) (now : ℕ) (input : UpdateDraftInput) (r' : Repository) (c : Revision)
      → update_draft hashing ctx now input r ≡ ok (c, r')
      → Effect hashing r r'
  unfolding update_draft
  update_draft-Effect ctx now input r' c h =
      let (_, _, h₁) = >>=-eq-ok (check_context 0 ctx) _ h in
      let (_, _, h₂) = >>=-eq-ok (lock ctx) _ h₁ in
      let (a, is, h₃) = >>=-eq-ok (mutable_app input.scope input.expected_app_version r) _ h₂ in
      let (v, at, last) = >>=-eq-ok (revision_locked input.scope input.revision r) _ h₃ in
      let m = mutable_app-IsMutable input.scope input.expected_app_version r a is in
      let (s, holds, sound, same) = found-Hosted hashing input.scope a r w m.found in
      redraft-Effect ctx now input r' s v c holds sound
        (ap (λ x. is_disabled x.status) same ∙ m.enabled)
        (revision_locked-found input.scope r s holds input.revision v at) last
