-- ===== src/Gateway/Principals/Validity.antt =====
-- trpcservice/gateway/gateway.go: the constructors of a principal make what Validate accepts.
use trpc_agent_service_platf.Gateway.Messages.{Error, invalid, unauthenticated}
use trpc_agent_service_platf.Base.{
  none, nat_eq, list_eq, arith, sym, ==_iff, ◌==◌, some, ap, Option, ◌&&◌, subst, ◌>>◌, >>=-eq-ok,
  refl, false, true, err, ok, list_beq, ◌≡◌, require, Result, Bool,
}
use trpc_agent_service_platf.Gateway.Principals.{
  channel_principal, api_principal, same_identity, validate_api_proof, AuthenticatedApi,
  ApiIdentity, validate_api_principal, validate_api, new_api_principal, Principal,
  validate_channel_principal, wrapped_in, validate_principal, new_channel_principal,
}
use trpc_agent_service_platf.Channels.Routing.{validate_target, RoutingTarget}

wrapped_in-eq-ok :
    {E : Type 0} (e : Error) (r : Result E Unit) {u : Unit} → wrapped_in e r ≡ ok u → r ≡ ok tt
wrapped_in-eq-ok e (ok v) h = refl
wrapped_in-eq-ok e (err why) h = absurd (cc)

require-holds : (b : Bool) (e : Error) {u : Unit} → require b e ≡ ok u → b ≡ true
require-holds true e h = refl
require-holds false e h = absurd (cc)

principal-injective : {p q : Principal} → Path (Result Error Principal) (ok p) (ok q) → p ≡ q
principal-injective h = cc

channel-validates :
    (p : Principal)
    → validate_target p.routing_target ≡ ok tt
    → p.tenant_id ≡ p.routing_target.fields.tenant_id
    → p.app_id ≡ p.routing_target.fields.app_id
    → validate_channel_principal p ≡ ok tt
unfolding validate_channel_principal
channel-validates p valid tenant app =
    let target_ok : wrapped_in invalid (validate_target p.routing_target) ≡ ok tt =
      ap (wrapped_in invalid) valid in
    target_ok_then (p.tenant_id == p.routing_target.fields.tenant_id)
      (p.app_id == p.routing_target.fields.app_id) target_ok ((==_iff _ _).1 tenant)
      ((==_iff _ _).1 app)
  where
    target_ok_then :
        (b c : Bool)
        → wrapped_in invalid (validate_target p.routing_target) ≡ ok tt
        → b ≡ true
        → c ≡ true
        → (wrapped_in invalid (validate_target p.routing_target) >> require (b && c) invalid)
          ≡ ok tt
    target_ok_then b c h k l = rw (h, k, l) refl

-- A principal of a routing target validates, and its scope is that of the target.
pub new_channel_principal-validates :
    (target : RoutingTarget) (p : Principal)
    → new_channel_principal target ≡ ok p
    → (validate_principal p ≡ ok tt)
      × (p.tenant_id ≡ target.fields.tenant_id)
      × (p.app_id ≡ target.fields.app_id)
      × (p.routing_target ≡ target)
unfolding new_channel_principal validate_principal list_beq
new_channel_principal-validates target p h =
    let (_, valid, made) = >>=-eq-ok (wrapped_in invalid (validate_target target)) _ h in
    subst
      (λ q.
        (validate_principal q ≡ ok tt)
        × (q.tenant_id ≡ target.fields.tenant_id)
        × (q.app_id ≡ target.fields.app_id)
        × (q.routing_target ≡ target))
      (principal-injective made)
      (
        channel-validates (channel_principal target) (wrapped_in-eq-ok invalid _ valid) refl refl,
        refl,
        refl,
        refl,
      )

api-validates :
    (p : Principal) (proof : ApiIdentity)
    → validate_api_proof proof ≡ ok tt
    → proof.tenant_id ≡ p.tenant_id
    → proof.app_id ≡ p.app_id
    → proof.subject_id ≡ p.subject_id
    → validate_api_principal (some proof) p ≡ ok tt
unfolding validate_api_principal
api-validates p proof valid tenant app subject =
    checked (proof.tenant_id == p.tenant_id) (proof.app_id == p.app_id)
      (proof.subject_id == p.subject_id) ((==_iff _ _).1 tenant) ((==_iff _ _).1 app)
      ((==_iff _ _).1 subject)
  where
    checked :
        (a b c : Bool)
        → a ≡ true
        → b ≡ true
        → c ≡ true
        → (require (a && b && c) invalid >> validate_api_proof proof) ≡ ok tt
    checked a b c h k l = rw (h, k, l) valid

-- The proof of an authenticated caller is the identity, and it is valid.
validate_api-proves :
    (o : Option ApiIdentity) (identity : ApiIdentity)
    → validate_api o identity ≡ ok tt
    → (proof : ApiIdentity) × (o ≡ some proof)
      × (validate_api_proof proof ≡ ok tt)
      × (proof.tenant_id ≡ identity.tenant_id)
      × (proof.app_id ≡ identity.app_id)
      × (proof.subject_id ≡ identity.subject_id)
unfolding validate_api
validate_api-proves none identity h = absurd (cc)
validate_api-proves (some proof) identity h =
    let (_, same, valid) = >>=-eq-ok (require (same_identity identity proof) unauthenticated) _ h in
    let all = require-holds (same_identity identity proof) unauthenticated same in
    (
      proof,
      refl,
      valid,
      sym ((==_iff identity.tenant_id proof.tenant_id).0 (ground arith)),
      sym ((==_iff identity.app_id proof.app_id).0 (ground arith)),
      sym ((==_iff identity.subject_id proof.subject_id).0 (ground arith)),
    )

-- A principal of an authenticated caller validates, and its scope is that of the identity.
pub new_api_principal-validates :
    (caller : AuthenticatedApi) (p : Principal)
    → new_api_principal caller ≡ ok p
    → (validate_principal p ≡ ok tt)
      × (p.tenant_id ≡ caller.identity.tenant_id)
      × (p.app_id ≡ caller.identity.app_id)
      × (p.subject_id ≡ caller.identity.subject_id)
unfolding new_api_principal validate_principal list_beq
new_api_principal-validates caller p h =
    let (_, valid, made) =
      >>=-eq-ok (wrapped_in unauthenticated (validate_api caller.proof caller.identity)) _ h in
    let (proof, is, proved, tenant, app, subject) =
      validate_api-proves caller.proof caller.identity (wrapped_in-eq-ok unauthenticated _ valid) in
    subst
      (λ q.
        (validate_principal q ≡ ok tt)
        × (q.tenant_id ≡ caller.identity.tenant_id)
        × (q.app_id ≡ caller.identity.app_id)
        × (q.subject_id ≡ caller.identity.subject_id))
      (principal-injective made)
      (
        rw is (api-validates (api_principal caller) proof proved tenant app subject),
        refl,
        refl,
        refl,
      )
