-- ===== src/Channels/Routing/Isolation.antt =====
-- trpcservice/channels/routing.go: what a Runner identity says of the route and the conversation.
use trpc_agent_service_platf.Base.{
  inr, inl, Bool-cases, ◌≢◌, nat_eq, list_eq, refl, ==_iff, false, ◌==◌, true, none, Option, Bool,
  [], ◌∷◌, sym, some, List, ap, ◌∙◌, not, require, err, arith, >>=-eq-ok, ok, ◌≡◌, wrap_err, Result,
}
use trpc_agent_service_platf.Channels.Routing.{
  verification_failed, Route, Error, validate_proof, validate_capability,
  same_verified_binding_fields, validate_route, VerifiedBinding, tenant_error, invalid, has_control,
  scoped_session, validate_target, scoped_user, conversation, IdentityInput, runner_identity,
  required_external_id, RoutingTarget,
}
use trpc_agent_service_platf.Base.Text.{Text}
use trpc_agent_service_platf.Tenant.Identity.{
  namespaced-injective, new_runner_identity-namespaced, namespaced, RunnerIdentity,
}
use trpc_agent_service_platf.Base.Encoding.{encode_parts-injective}
use trpc_agent_service_platf.Base.Ints.{int_eq}

wrap_err-eq-ok :
    {E F A : Type 0} (f : E → F) (r : Result E A) {a : A} → wrap_err f r ≡ ok a → r ≡ ok a
wrap_err-eq-ok f (ok b) h = cc
wrap_err-eq-ok f (err e) h = cc

required-returns : (v u : Text) → required_external_id v ≡ ok u → u ≡ v
unfolding required_external_id
required-returns v u h = ground arith

-- The user and session that an identity encodes.
abbrev pub IsIdentityOf : RoutingTarget → IdentityInput → RunnerIdentity → Text → Type 0
IsIdentityOf target input r c =
    (conversation input ≡ ok c)
    × (r.user_id
        ≡ namespaced target.fields.tenant_id (scoped_user target.fields input.external_user_id))
    × (r.session_id ≡ namespaced target.fields.tenant_id (scoped_session target.fields input c))

pub runner_identity-IsIdentityOf :
    (target : RoutingTarget) (input : IdentityInput) (r : RunnerIdentity)
    → runner_identity target input ≡ ok r
    → (c : Text) × IsIdentityOf target input r c
unfolding runner_identity
runner_identity-IsIdentityOf target input r h =
    let (_, _, h₁) = >>=-eq-ok (validate_target target) _ h in
    let (user, is_user, h₂) = >>=-eq-ok (required_external_id input.external_user_id) _ h₁ in
    let (c, is_c, h₃) = >>=-eq-ok (conversation input) _ h₂ in
    let (_, _, h₄) =
      >>=-eq-ok (require (not (has_control input.external_thread_id)) invalid) _ h₃ in
    let made = new_runner_identity-namespaced _ _ _ r (wrap_err-eq-ok tenant_error _ h₄) in
    let same = required-returns _ _ is_user in
    (
      c,
      (
        is_c,
        made.0 ∙ ap (λ u. namespaced target.fields.tenant_id (scoped_user target.fields u)) same,
        made.1,
      ),
    )

abbrev head : List Text → Text
head [] = []
head (p ∷ ps) = p

abbrev tail : List Text → List Text
tail [] = []
tail (p ∷ ps) = ps

-- Two sessions are the same conversation of the same bound account.
abbrev pub SameSession : RoutingTarget → IdentityInput → RoutingTarget → IdentityInput → Type 0
SameSession t i t' i' =
    (t.fields.tenant_id ≡ t'.fields.tenant_id)
    × (t.fields.channel ≡ t'.fields.channel)
    × (t.fields.binding_id ≡ t'.fields.binding_id)
    × (i.kind ≡ i'.kind)
    × (conversation i ≡ conversation i')
    × (i.external_thread_id ≡ i'.external_thread_id)

-- Two users are the same user of the same bound account.
abbrev pub SameUser : RoutingTarget → IdentityInput → RoutingTarget → IdentityInput → Type 0
SameUser t i t' i' =
    (t.fields.tenant_id ≡ t'.fields.tenant_id)
    × (t.fields.channel ≡ t'.fields.channel)
    × (t.fields.binding_id ≡ t'.fields.binding_id)
    × (i.external_user_id ≡ i'.external_user_id)

-- When two routed messages get Runner identities with one session ID, they come from one tenant,
-- channel, binding, conversation kind, conversation and thread, whatever text the external IDs hold.
pub session_id-separates :
    (t t' : RoutingTarget) (i i' : IdentityInput) (r r' : RunnerIdentity)
    → runner_identity t i ≡ ok r
    → runner_identity t' i' ≡ ok r'
    → r.session_id ≡ r'.session_id
    → SameSession t i t' i'
unfolding scoped_session
session_id-separates t t' i i' r r' h h' e =
    let (c, is) = runner_identity-IsIdentityOf t i r h in
    let (c', is') = runner_identity-IsIdentityOf t' i' r' h' in
    let (tenant, scoped) = namespaced-injective _ _ _ _ (sym is.2 ∙ e ∙ is'.2) in
    let parts = encode_parts-injective _ _ scoped in
    let at = λ (n : List Text → List Text). ap (λ ps. head (n ps)) parts in
    let same_c : c ≡ c' = at (λ ps. tail (tail (tail ps))) in
    (
      tenant,
      at (λ ps. ps),
      at tail,
      at (λ ps. tail (tail ps)),
      is.0 ∙ ap ok same_c ∙ sym is'.0,
      at (λ ps. tail (tail (tail (tail ps)))),
    )

-- When two routed messages get Runner identities with one user ID, they come from one tenant,
-- channel, binding and external user.
pub user_id-separates :
    (t t' : RoutingTarget) (i i' : IdentityInput) (r r' : RunnerIdentity)
    → runner_identity t i ≡ ok r
    → runner_identity t' i' ≡ ok r'
    → r.user_id ≡ r'.user_id
    → SameUser t i t' i'
unfolding scoped_user
user_id-separates t t' i i' r r' h h' e =
    let (c, is) = runner_identity-IsIdentityOf t i r h in
    let (c', is') = runner_identity-IsIdentityOf t' i' r' h' in
    let (tenant, scoped) = namespaced-injective _ _ _ _ (sym is.1 ∙ e ∙ is'.1) in
    let parts = encode_parts-injective _ _ scoped in
    let at = λ (n : List Text → List Text). ap (λ ps. head (n ps)) parts in
    (tenant, at (λ ps. ps), at tail, at λ ps. tail (tail ps))

same-fields : (l r : Route) → same_verified_binding_fields l r ≡ true → l ≡ r
unfolding same_verified_binding_fields
same-fields l r h =
    let same = λ (a b : Text) (k : (a == b) ≡ true). (==_iff a b).0 k in
    let p₁ : l.tenant_id ≡ r.tenant_id = same _ _ (ground arith) in
    let p₂ : l.binding_id ≡ r.binding_id = same _ _ (ground arith) in
    let p₃ : l.binding_version ≡ r.binding_version = (==_iff _ _).0 (ground arith) in
    let p₄ : l.app_id ≡ r.app_id = same _ _ (ground arith) in
    let p₅ : l.channel ≡ r.channel = same _ _ (ground arith) in
    let p₆ : l.provider_account_id ≡ r.provider_account_id = same _ _ (ground arith) in
    let p₇ : l.config_digest ≡ r.config_digest = same _ _ (ground arith) in
    λ i. record {
      tenant_id = p₁ i;
      binding_id = p₂ i;
      binding_version = p₃ i;
      app_id = p₄ i;
      channel = p₅ i;
      provider_account_id = p₆ i;
      config_digest = p₇ i;
    }

require-holds : (b : Bool) (e : Error) {u : Unit} → require b e ≡ ok u → b ≡ true
require-holds true e h = refl
require-holds false e h = cc

validate_proof-sealed :
    (p : Option Route) (fields : Route)
    → validate_proof p fields ≡ ok tt
    → (p ≡ some fields) × (validate_route fields ≡ ok tt)
unfolding validate_proof
validate_proof-sealed none fields h = cc
validate_proof-sealed (some sealed) fields h =
    let (_, same, rest) =
      >>=-eq-ok (require (same_verified_binding_fields sealed fields) invalid) _ h in
    (ap some (same-fields sealed fields (require-holds _ invalid same)), rest)

-- A target that validates is the one that the trusted boundary sealed: its public fields are those
-- of the capability, and those are the fields of the proof that the verifier made.
pub validate_target-sealed :
    (t : RoutingTarget)
    → validate_target t ≡ ok tt
    → (v : VerifiedBinding) × (t.capability ≡ some v)
      × (v.proof ≡ some t.fields)
      × (v.fields ≡ t.fields)
      × (validate_route t.fields ≡ ok tt)
unfolding validate_capability
validate_target-sealed t h = sealed_by t.capability h
  where
    sealed_by :
        (c : Option VerifiedBinding)
        → validate_capability c t.fields ≡ ok tt
        → (v : VerifiedBinding) × (c ≡ some v)
          × (v.proof ≡ some t.fields)
          × (v.fields ≡ t.fields)
          × (validate_route t.fields ≡ ok tt)
    sealed_by none k = cc
    sealed_by (some v) k =
        let (_, same, rest) =
          >>=-eq-ok (require (same_verified_binding_fields t.fields v.fields) verification_failed) _
            k in
        let is_same = same-fields t.fields v.fields (require-holds _ verification_failed same) in
        let proof = validate_proof-sealed v.proof v.fields rest in
        (v, refl, proof.0 ∙ ap some (sym is_same), sym is_same, ap validate_route is_same ∙ proof.1)

-- A target whose public fields are not those of its capability is refused with
-- ErrVerificationFailed, by Validate and by RunnerIdentity, whatever the message and whichever
-- field was changed.
pub runner_identity-tampered :
    (t : RoutingTarget) (v : VerifiedBinding) (input : IdentityInput)
    → t.capability ≡ some v
    → v.fields ≢ t.fields
    → (validate_target t ≡ err verification_failed)
      × (runner_identity t input ≡ err verification_failed)
unfolding validate_capability runner_identity
runner_identity-tampered t v input held changed =
    let refused : validate_target t ≡ err verification_failed =
      ap (λ c. validate_capability c t.fields) held
      ∙ elim (Bool-cases (same_verified_binding_fields t.fields v.fields)) [
        | inl same ↦ absurd (changed (sym (same-fields t.fields v.fields same)))
        | inr other ↦ rw other refl
      ] in
    (refused, rw refused refl)
