-- ===== src/Agents/Life/Statuses.antt =====
-- trpcservice/agent/inmemory/inmemory.go: SetCanary and TransitionStatus take one step of one
-- application.
use trpc_agent_service_platf.Base.{pair_eq, nat_eq, list_eq}
use trpc_agent_service_platf.Base.Ints.{int_eq}
use trpc_agent_service_platf.Agents.Operations.{
  transition_of, set_canary_of, set_canary, transition_status,
}
use trpc_agent_service_platf.Agents.Changes.{
  current_digest, with_canary, same_revision, ChangeEvent, SetCanaryInput, candidate_digest, moved,
  validate_change, TransitionStatusInput,
}
use trpc_agent_service_platf.Agents.Revisions.{is_published, Hashing}
use trpc_agent_service_platf.Agents.Repository.{
  revision_locked, next_time, mutable_app, lock, check_context, Scope, Repository,
}
use trpc_agent_service_platf.Agents.Life.Stores.{
  revision_locked-found, found-Hosted, mutable_app-IsMutable, IsMutable, IsWellFormed,
}
use trpc_agent_service_platf.Base.Contexts.{Context}
use trpc_agent_service_platf.Base.{
  refl, ◌∙◌, sym, none, require-holds, ok-injective, ap, subst, not, require, >>=-eq-ok, some, ok,
  ◌≡◌, Option, ℕ,
}
use trpc_agent_service_platf.Agents.Apps.{
  validate_app, invalid_transition, is_active, invalid, can_transition_to, App,
}
use trpc_agent_service_platf.Agents.Life.{
  sets_canary, moves, HasPublished, IsSound, Effect, Holds, Hosted,
}
use trpc_agent_service_platf.Base.Ints.{pos, int_leb, ℤ}
use trpc_agent_service_platf.Base.Text.{Text}
use mathlib.Core.Option.{some-injective, none-ne-some}
use trpc_agent_service_platf.Agents.Life.Pointers.{IsMutable-IsNext}
use trpc_agent_service_platf.Agents.Life.Effects.{store_app-Effect}

module _ (hashing : Hashing) (r : Repository) (w : IsWellFormed hashing r) where
  candidate-HasPublished :
      (scope : Scope) (candidate : Option ℤ) (a : App) (s : Hosted) (digest : Text)
      → Holds scope r s
      → candidate_digest scope candidate a r ≡ ok digest
      → (n : ℤ) → candidate ≡ some n
      → HasPublished n s.revisions
  unfolding candidate_digest
  candidate-HasPublished scope none a s digest holds h n is = absurd (none-ne-some n is)
  candidate-HasPublished scope (some c) a s digest holds h n is =
      let (_, _, h₁) = >>=-eq-ok (require (int_leb (pos 1) c) invalid) _ h in
      let (v, at, h₂) = >>=-eq-ok (revision_locked scope c r) _ h₁ in
      let (_, published, _) = >>=-eq-ok (require (is_published v.state) invalid) _ h₂ in
      subst (λ j. HasPublished j s.revisions) (some-injective c n is)
        (v, revision_locked-found scope r s holds c v at, require-holds _ invalid published)

  set_canary_of-Effect :
      (now : ℕ) (input : SetCanaryInput) (r' : Repository) (a : App) (s : Hosted)
      (reply : App × ChangeEvent)
      → IsMutable input.scope input.expected_app_version r a
      → Holds input.scope r s
      → IsSound hashing input.scope s
      → s.app ≡ a
      → set_canary_of now input r a ≡ ok (reply, r')
      → Effect hashing r r'
  unfolding set_canary_of
  set_canary_of-Effect now input r' a s reply m holds sound same h =
      let (_, active, h₁) = >>=-eq-ok (require (is_active a.status) invalid) _ h in
      let (digest, chosen, h₂) =
        >>=-eq-ok (candidate_digest input.scope input.candidate_revision a r) _ h₁ in
      let (_, _, h₃) =
        >>=-eq-ok (require (not (same_revision a.canary_revision input.candidate_revision)) invalid)
          _ h₂ in
      let b = with_canary input.candidate_revision (next_time now a.updated_at) a in
      let (_, valid, last) = >>=-eq-ok (validate_app b) _ h₃ in
      let next =
        IsMutable-IsNext hashing r w input.scope s holds sound input.expected_app_version a b m same
          refl refl valid in
      subst (Effect hashing r) (ap (λ p. p.1) (ok-injective last)) (
        store_app-Effect hashing r w input.scope s b holds sound next (
          sets_canary b next
            (
              ap (λ x. x.status) (sym same),
              ap (λ x. is_active x.status) same ∙ require-holds _ invalid active,
            )
            (ap (λ x. x.current_revision) (sym same))
            (candidate-HasPublished input.scope input.candidate_revision a s digest holds chosen)
            refl))

  pub set_canary-Effect :
      (ctx : Context) (now : ℕ) (input : SetCanaryInput) (r' : Repository)
      (reply : App × ChangeEvent)
      → set_canary ctx now input r ≡ ok (reply, r')
      → Effect hashing r r'
  unfolding set_canary
  set_canary-Effect ctx now input r' reply h =
      let (_, _, h₁) = >>=-eq-ok (check_context 0 ctx) _ h in
      let (_, _, h₂) = >>=-eq-ok (validate_change input.metadata) _ h₁ in
      let (_, _, h₃) = >>=-eq-ok (require input.tenant_active invalid) _ h₂ in
      let (_, _, h₄) = >>=-eq-ok (lock ctx) _ h₃ in
      let (a, is, last) = >>=-eq-ok (mutable_app input.scope input.expected_app_version r) _ h₄ in
      let m = mutable_app-IsMutable input.scope input.expected_app_version r a is in
      let (s, holds, sound, same) = found-Hosted hashing input.scope a r w m.found in
      set_canary_of-Effect now input r' a s reply m holds sound same last

  transition_of-Effect :
      (ctx : Context) (now : ℕ) (input : TransitionStatusInput) (r' : Repository) (a : App)
      (s : Hosted) (reply : App × ChangeEvent)
      → IsMutable input.scope input.expected_version r a
      → Holds input.scope r s
      → IsSound hashing input.scope s
      → s.app ≡ a
      → transition_of ctx now input r a ≡ ok (reply, r')
      → Effect hashing r r'
  unfolding transition_of
  transition_of-Effect ctx now input r' a s reply m holds sound same h =
      let (_, allowed, h₁) =
        >>=-eq-ok (require (can_transition_to a.status input.next_status) invalid_transition) _ h in
      let b = moved input.next_status (next_time now a.updated_at) a in
      let (_, valid, h₂) = >>=-eq-ok (validate_app b) _ h₁ in
      let (_, _, h₃) = >>=-eq-ok (current_digest input.scope b.current_revision r) _ h₂ in
      let (_, _, last) = >>=-eq-ok (check_context 3 ctx) _ h₃ in
      let next =
        IsMutable-IsNext hashing r w input.scope s holds sound input.expected_version a b m same
          refl refl valid in
      subst (Effect hashing r) (ap (λ p. p.1) (ok-injective last)) (
        store_app-Effect hashing r w input.scope s b holds sound next (
          moves b next
            (ap (λ x. can_transition_to x.status input.next_status) same
              ∙ require-holds _ invalid_transition allowed)
            (ap (λ x. x.current_revision) (sym same), ap (λ x. x.canary_revision) (sym same)) refl))

  pub transition_status-Effect :
      (ctx : Context) (now : ℕ) (input : TransitionStatusInput) (r' : Repository)
      (reply : App × ChangeEvent)
      → transition_status ctx now input r ≡ ok (reply, r')
      → Effect hashing r r'
  unfolding transition_status
  transition_status-Effect ctx now input r' reply h =
      let (_, _, h₁) = >>=-eq-ok (check_context 0 ctx) _ h in
      let (_, _, h₂) = >>=-eq-ok (validate_change input.metadata) _ h₁ in
      let (_, _, h₃) = >>=-eq-ok (lock ctx) _ h₂ in
      let (a, is, last) = >>=-eq-ok (mutable_app input.scope input.expected_version r) _ h₃ in
      let m = mutable_app-IsMutable input.scope input.expected_version r a is in
      let (s, holds, sound, same) = found-Hosted hashing input.scope a r w m.found in
      transition_of-Effect ctx now input r' a s reply m holds sound same last
