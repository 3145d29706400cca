-- ===== src/Agents/Life/Pointers.antt =====
-- trpcservice/agent/inmemory/inmemory.go: the operations that move the current or the canary revision
-- or the status take one step of one application.
use trpc_agent_service_platf.Base.{pair_eq, nat_eq, list_eq}
use trpc_agent_service_platf.Agents.Operations.{roll_back_to, publish_draft, publish, rollback}
use trpc_agent_service_platf.Agents.Changes.{
  can_point, activated, pointing, ChangeEvent, RollbackInput, PublishInput, validate_change,
}
use trpc_agent_service_platf.Agents.Revisions.{
  publish_revision, is_published, is_draft, Revision, Hashing,
}
use trpc_agent_service_platf.Agents.Repository.{
  scope_of, store_app, put_revision, max_time, next_time, revision_locked, mutable_app, lock,
  check_context, Scope, Repository,
}
use trpc_agent_service_platf.Agents.Life.Stores.{
  IsMutable, put_revision-is, Becomes-trans, put_revision-Becomes, store_app-Becomes, found-Hosted,
  revision_locked-found, mutable_app-IsMutable, IsWellFormed,
}
use trpc_agent_service_platf.Base.Contexts.{Context}
use trpc_agent_service_platf.Base.{
  refl, ◌∙◌, ok-injective, ap, sym, none, require-holds, ◌==◌, subst, require, some, >>=-eq-ok, ok,
  ◌≡◌, ℕ,
}
use trpc_agent_service_platf.Agents.Apps.{conflict, validate_app, immutable_revision, invalid, App}
use trpc_agent_service_platf.Base.Ints.{incr, int_eq, ℤ}
use trpc_agent_service_platf.Agents.Life.{
  IsDraftAt, IsSound, publishes, steps, rolls_back, IsNext, Holds, Effect, Hosted,
}
use trpc_agent_service_platf.Agents.Life.Effects.{store_app-Effect, incr_root}
use trpc_agent_service_platf.Base.Maps.{lookup}

module _ (hashing : Hashing) (r : Repository) (w : IsWellFormed hashing r) where
  module _ (scope : Scope) (s : Hosted) (holds : Holds scope r s)
      (sound : IsSound hashing scope s) where
    -- The application found is the one that is held.
    pub IsMutable-IsNext :
        (expected : ℤ) (a b : App)
        → IsMutable scope expected r a
        → s.app ≡ a
        → scope_of b ≡ scope_of a
        → b.version ≡ incr a.version
        → validate_app b ≡ ok tt
        → IsNext s.app b
    IsMutable-IsNext expected a b m same own version valid =
        subst (λ x. IsNext x b) (sym same) (incr_root scope expected r a b m own version valid)

    published-Effect :
        (b : App) (n : ℤ) (time : ℕ) (v p : Revision) (r' : Repository)
        → IsNext s.app b
        → b.status ≡ activated s.app.status
        → (b.current_revision ≡ some n) × (b.canary_revision ≡ none)
        → IsDraftAt n v s.revisions
        → publish_revision hashing time v ≡ ok p
        → put_revision scope n p (store_app b r) ≡ ok r'
        → Effect hashing r r'
    published-Effect b n time v p r' next status pointers was done put =
        let rooted = store_app-Becomes scope r s holds b (next.same_scope ∙ sound.owned) in
        let s₁ = record s { app = b } in
        let stored = put_revision-Becomes scope (store_app b r) s₁ rooted.0 n p in
        let both = Becomes-trans scope r (store_app b r) _ s s₁ _ holds rooted.0 rooted stored in
        subst (Effect hashing r)
          (sym (put_revision-is scope (store_app b r) s₁ rooted.0 n p r' put))
          (steps scope s _ holds (publishes b n time v p next status pointers was done refl) both.0
            both.1)

  publish_draft-Effect :
      (ctx : Context) (now : ℕ) (input : PublishInput) (r' : Repository) (a : App) (v : Revision)
      (s : Hosted) (reply : App × Revision × ChangeEvent)
      → IsMutable input.scope input.expected_app_version r a
      → Holds input.scope r s
      → IsSound hashing input.scope s
      → s.app ≡ a
      → lookup input.revision s.revisions ≡ some v
      → publish_draft hashing ctx now input r a v ≡ ok (reply, r')
      → Effect hashing r r'
  unfolding publish_draft
  publish_draft-Effect ctx now input r' a v s reply m holds sound same at h =
      let (_, was, h₁) = >>=-eq-ok (require (is_draft v.state) immutable_revision) _ h in
      let (_, _, h₂) =
        >>=-eq-ok (require (input.expected_draft_version == v.draft_version) conflict) _ h₁ in
      let time = next_time now (max_time a.updated_at v.updated_at) in
      let (p, done, h₃) = >>=-eq-ok (publish_revision hashing time v) _ h₂ in
      let b = pointing input.revision (activated a.status) time a in
      let (_, valid, h₄) = >>=-eq-ok (validate_app b) _ h₃ in
      let (_, _, h₅) = >>=-eq-ok (check_context 3 ctx) _ h₄ in
      let (r₁, put, last) =
        >>=-eq-ok (put_revision input.scope input.revision p (store_app b r)) _ h₅ in
      subst (Effect hashing r) (ap (λ q. q.1) (ok-injective last)) (
        published-Effect input.scope s holds sound b input.revision time v p r₁
          (IsMutable-IsNext input.scope s holds sound input.expected_app_version a b m same refl
            refl valid)
          (ap (λ x. activated x.status) (sym same)) (refl, refl)
          (at, require-holds _ immutable_revision was) done put)

  pub publish-Effect :
      (ctx : Context) (now : ℕ) (input : PublishInput) (r' : Repository)
      (reply : App × Revision × ChangeEvent)
      → publish hashing ctx now input r ≡ ok (reply, r')
      → Effect hashing r r'
  unfolding publish
  publish-Effect ctx now input r' reply h =
      let (_, _, h₁) = >>=-eq-ok (check_context 0 ctx) _ h in
      let (_, _, h₂) = >>=-eq-ok (validate_change input.metadata) _ h₁ in
      let (_, _, h₃) = >>=-eq-ok (require input.tenant_active invalid) _ h₂ in
      let (_, _, h₄) = >>=-eq-ok (lock ctx) _ h₃ in
      let (a, is, h₅) = >>=-eq-ok (mutable_app input.scope input.expected_app_version r) _ h₄ in
      let (v, at, last) = >>=-eq-ok (revision_locked input.scope input.revision r) _ h₅ in
      let m = mutable_app-IsMutable input.scope input.expected_app_version r a is in
      let (s, holds, sound, same) = found-Hosted hashing input.scope a r w m.found in
      publish_draft-Effect ctx now input r' a v s reply m holds sound same
        (revision_locked-found input.scope r s holds input.revision v at) last

  roll_back_to-Effect :
      (ctx : Context) (now : ℕ) (input : RollbackInput) (r' : Repository) (a : App) (v : Revision)
      (s : Hosted) (reply : App × ChangeEvent)
      → IsMutable input.scope input.expected_app_version r a
      → Holds input.scope r s
      → IsSound hashing input.scope s
      → s.app ≡ a
      → lookup input.target_revision s.revisions ≡ some v
      → roll_back_to ctx now input r a v ≡ ok (reply, r')
      → Effect hashing r r'
  unfolding roll_back_to
  roll_back_to-Effect ctx now input r' a v s reply m holds sound same at h =
      let (_, published, h₁) = >>=-eq-ok (require (is_published v.state) invalid) _ h in
      let (_, _, h₂) =
        >>=-eq-ok (require (can_point a.current_revision input.target_revision) invalid) _ h₁ in
      let b = pointing input.target_revision a.status (next_time now a.updated_at) a in
      let (_, valid, h₃) = >>=-eq-ok (validate_app b) _ h₂ in
      let (_, _, last) = >>=-eq-ok (check_context 3 ctx) _ h₃ in
      let next =
        IsMutable-IsNext input.scope s holds sound input.expected_app_version a b m same refl refl
          valid in
      subst (Effect hashing r) (ap (λ p. p.1) (ok-injective last)) (
        store_app-Effect hashing r w input.scope s b holds sound next (
          rolls_back b input.target_revision next (ap (λ x. x.status) (sym same)) (refl, refl)
            (v, at, require-holds _ invalid published) refl))

  pub rollback-Effect :
      (ctx : Context) (now : ℕ) (input : RollbackInput) (r' : Repository)
      (reply : App × ChangeEvent)
      → rollback ctx now input r ≡ ok (reply, r')
      → Effect hashing r r'
  unfolding rollback
  rollback-Effect ctx now input r' reply h =
      let (_, _, h₁) = >>=-eq-ok (check_context 0 ctx) _ h in
      let (_, _, h₂) = >>=-eq-ok (validate_change input.metadata) _ h₁ in
      let (_, _, h₃) = >>=-eq-ok (lock ctx) _ h₂ in
      let (a, is, h₄) = >>=-eq-ok (mutable_app input.scope input.expected_app_version r) _ h₃ in
      let (v, at, last) = >>=-eq-ok (revision_locked input.scope input.target_revision r) _ h₄ in
      let m = mutable_app-IsMutable input.scope input.expected_app_version r a is in
      let (s, holds, sound, same) = found-Hosted hashing input.scope a r w m.found in
      roll_back_to-Effect ctx now input r' a v s reply m holds sound same
        (revision_locked-found input.scope r s holds input.target_revision v at) last
