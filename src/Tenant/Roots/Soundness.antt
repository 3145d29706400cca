-- ===== src/Tenant/Roots/Soundness.antt =====
-- trpcservice/tenant/tenant.go: what Validate demands, part by part.
use trpc_agent_service_platf.Tenant.Identity.{validate_tenant_id, invalid}
use trpc_agent_service_platf.Tenant.Roots.{is_status, normalize_tenant_key, validate, Tenant}
use trpc_agent_service_platf.Base.{
  nat_eq, list_eq, sym, refl, require-holds, arith, ◌≢◌, ==_iff, ◌∙◌, ok-injective, ap,
  require-true, ◌==◌, require, >>=-ok, true, >>=-eq-ok, ok, ◌≡◌,
}
use trpc_agent_service_platf.Base.Slugs.{lowered-slug, lowered, is_slug}
use trpc_agent_service_platf.Tenant.Settings.{validate_configuration}
use trpc_agent_service_platf.Base.Ints.{pos, int_leb}

pub record IsSound (t : Tenant) : Type 0 where
  pub identified : validate_tenant_id t.tenant_id ≡ ok tt
  pub slug : is_slug t.tenant_key ≡ true
  pub status_known : is_status t.status ≡ true
  pub accepted : validate_configuration t.configuration ≡ ok tt
  pub versioned : int_leb (pos 1) t.version ≡ true
  pub created : t.created_at ≢ 0
  pub updated : t.updated_at ≢ 0

pub IsSound-validates : (t : Tenant) → IsSound t → validate t ≡ ok tt
unfolding validate
IsSound-validates t s =
    let same : lowered t.tenant_key ≡ t.tenant_key = lowered-slug t.tenant_key s.slug in
    >>=-ok _ _ s.identified (
      >>=-ok _ _ (>>=-ok _ _ (require-true _ invalid (ap is_slug same ∙ s.slug)) refl) (
        >>=-ok _ _ (require-true _ invalid ((==_iff (lowered t.tenant_key) t.tenant_key).1 same)) (
          >>=-ok _ _ (require-true _ invalid s.status_known) (
            >>=-ok _ _ s.accepted
              (require-true _ invalid (ground (arith, s.versioned, s.created, s.updated)))))))

pub validate-IsSound : (t : Tenant) → validate t ≡ ok tt → IsSound t
unfolding validate
validate-IsSound t h =
    let (_, id, h₁) = >>=-eq-ok (validate_tenant_id t.tenant_id) _ h in
    let (key, key_ok, h₂) = >>=-eq-ok (normalize_tenant_key t.tenant_key) _ h₁ in
    let (_, slug, made) = >>=-eq-ok (require (is_slug (lowered t.tenant_key)) invalid) _ key_ok in
    let (_, same, h₃) = >>=-eq-ok (require (key == t.tenant_key) invalid) _ h₂ in
    let (_, known, h₄) = >>=-eq-ok (require (is_status t.status) invalid) _ h₃ in
    let (_, accepted, last) = >>=-eq-ok (validate_configuration t.configuration) _ h₄ in
    let normal : lowered t.tenant_key ≡ t.tenant_key =
      ok-injective made ∙ (==_iff key t.tenant_key).0 (require-holds _ invalid same) in
    let stamps = require-holds _ invalid last in
    record {
      identified = id;
      slug = ap is_slug (sym normal) ∙ require-holds _ invalid slug;
      status_known = require-holds _ invalid known;
      accepted = accepted;
      versioned = ground (arith, stamps);
      created = λ e. ground (arith, stamps, e);
      updated = λ e. ground (arith, stamps, e);
    }
