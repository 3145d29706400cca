-- ===== src/Tenant/Roots/Creation.antt =====
-- trpcservice/tenant/tenant.go: what NewTenant makes passes Validate.
use trpc_agent_service_platf.Tenant.Identity.{validate_tenant_id, invalid}
use trpc_agent_service_platf.Tenant.Roots.{
  is_disabled, default_status, is_status, normalize_tenant_key, Tenant, CreateInput, validate,
  new_tenant_id, new_tenant,
}
use trpc_agent_service_platf.Base.{
  require-holds, sym, not, nat_eq, list_eq, arith, refl, none, ◌∙◌, ok-injective, subst, require,
  ap, true, some, >>=-eq-ok, ok, ◌≡◌, ◌<◌, Option, ℕ,
}
use trpc_agent_service_platf.Base.Text.{Text, rune_len, drop, has_prefix, byte_len}
use trpc_agent_service_platf.Base.Slugs.{lowered, is_slug}
use trpc_agent_service_platf.Tenant.Settings.{
  with_defaults, trimmed-validate_configuration, trimmed, validate_configuration, Configuration,
}
use trpc_agent_service_platf.Base.Ulids.{ulid-all_in, ulid-starts_above, ulid-byte_len}
use trpc_agent_service_platf.Base.Ints.{pos}
use trpc_agent_service_platf.Tenant.Roots.Soundness.{IsSound-validates}

-- An identifier that is made passes the test of identifiers.
pub new_tenant_id-validates :
    (ms : ℕ) (random : Option ℕ) (id : Text)
    → new_tenant_id ms random ≡ ok id
    → validate_tenant_id id ≡ ok tt
unfolding new_tenant_id validate_tenant_id byte_len has_prefix drop rune_len
new_tenant_id-validates ms none id h = cc
new_tenant_id-validates ms (some random) id h =
    subst (λ i. validate_tenant_id i ≡ ok tt) (ok-injective h)
      (rw (ulid-byte_len ms random, ulid-starts_above ms random, ulid-all_in ms random) refl)

-- The steps of NewTenant that succeeded.
pub record IsMade (ms : ℕ) (random : Option ℕ) (now : ℕ) (input : CreateInput) (t : Tenant)
    : Type 0 where
  pub id_made : new_tenant_id ms random ≡ ok t.tenant_id
  pub key_is : t.tenant_key ≡ lowered input.tenant_key
  pub key_slug : is_slug (lowered input.tenant_key) ≡ true
  pub status_known : is_status t.status ≡ true
  pub configured :
      (c : Configuration) × (validate_configuration c ≡ ok tt) × (t.configuration ≡ trimmed c)
  pub first : t.version ≡ pos 1
  pub created : t.created_at ≡ now
  pub updated : t.updated_at ≡ now

pub new_tenant-IsMade :
    (ms : ℕ) (random : Option ℕ) (now : ℕ) (input : CreateInput) (t : Tenant)
    → new_tenant ms random now input ≡ ok t
    → IsMade ms random now input t
unfolding new_tenant
new_tenant-IsMade ms random now input t h =
    let (key, key_ok, h₁) = >>=-eq-ok (normalize_tenant_key input.tenant_key) _ h in
    let (_, slug, key_same) =
      >>=-eq-ok (require (is_slug (lowered input.tenant_key)) invalid) _ key_ok in
    let (id, id_ok, h₂) = >>=-eq-ok (new_tenant_id ms random) _ h₁ in
    let status = default_status input.status in
    let (_, known, h₃) = >>=-eq-ok (require (is_status status) invalid) _ h₂ in
    let (_, _, h₄) = >>=-eq-ok (require (not (is_disabled status)) invalid) _ h₃ in
    let c = with_defaults input.configuration in
    let (_, accepted, h₅) = >>=-eq-ok (validate_configuration c) _ h₄ in
    let made = ok-injective h₅ in
    record {
      id_made = id_ok ∙ ap (λ x. ok x.tenant_id) made;
      key_is = sym (ap (λ x. x.tenant_key) made) ∙ sym (ok-injective key_same);
      key_slug = require-holds _ invalid slug;
      status_known = ap (λ x. is_status x.status) (sym made) ∙ require-holds _ invalid known;
      configured = (c, accepted, sym (ap (λ x. x.configuration) made));
      first = sym (ap (λ x. x.version) made);
      created = sym (ap (λ x. x.created_at) made);
      updated = sym (ap (λ x. x.updated_at) made);
    }

-- A tenant that NewTenant returns at a time that is not Go's zero time passes Validate.
pub new_tenant-validates :
    (ms : ℕ) (random : Option ℕ) (now : ℕ) (input : CreateInput) (t : Tenant)
    → 0 < now
    → new_tenant ms random now input ≡ ok t
    → validate t ≡ ok tt
new_tenant-validates ms random now input t later h =
    let m = new_tenant-IsMade ms random now input t h in
    let (c, accepted, is_c) = m.configured in
    IsSound-validates t (record {
      identified = new_tenant_id-validates ms random t.tenant_id m.id_made;
      slug = ap is_slug m.key_is ∙ m.key_slug;
      status_known = m.status_known;
      accepted = ap validate_configuration is_c ∙ trimmed-validate_configuration c accepted;
      versioned = ground (arith, m.first);
      created = λ e. ground (arith, m.created, later, e);
      updated = λ e. ground (arith, m.updated, later, e);
    })
