-- ===== src/Agents/Apps/Creation.antt =====
-- trpcservice/agent/app.go: what NewApp makes passes Validate.
use trpc_agent_service_platf.Base.{list_beq, pair_eq}
use trpc_agent_service_platf.Base.Ints.{int_eq}
use trpc_agent_service_platf.Base.Text.{
  trim_prefix, trim_space, codes, drop, has_prefix, rune_len, Text, byte_len,
}
use trpc_agent_service_platf.Agents.Apps.{
  invalid, normalize_app_key, validate_tenant_id, App, validate_app_id, CreateInput, canary_allows,
  status_allows, validate_lifecycle, validate_identity, validate_crockford_id, validate_app,
  validate_app_metadata, new_app_id, new_app,
}
use trpc_agent_service_platf.Base.{
  refl, ==_refl, ==_iff, require-true, >>=-ok, require-holds, ◌∙◌, sym, true, none, require,
  ok-injective, subst, nat_eq, list_eq, ap, >>=-eq-ok, arith, ◌<◌, some, ==_ne, false, Option, ◌++◌,
  ℕ, ok, ◌==◌, ◌≡◌,
}
use trpc_agent_service_platf.Base.Trimming.{trim_space-trim_space}
use trpc_agent_service_platf.Base.Ulids.{ulid-all_in, ulid-starts_above, ulid-byte_len, ulid}
use trpc_agent_service_platf.Base.Slugs.{lowered-slug, lowered, is_slug}

app_id-differs : (u : Text) → byte_len u ≡ 26 → (u == (codes "app_" ++ u)) ≡ false
unfolding byte_len rune_len
app_id-differs u size =
    ==_ne u (codes "app_" ++ u) (λ e. absurd (omega (arith, size, ap byte_len e)))

-- An identifier that is made passes the test of identifiers.
pub new_app_id-validates :
    (ms : ℕ) (random : Option ℕ) (id : Text)
    → new_app_id ms random ≡ ok id
    → validate_app_id id ≡ ok tt
unfolding new_app_id validate_crockford_id has_prefix drop trim_prefix list_beq
new_app_id-validates ms none id h = cc
new_app_id-validates ms (some random) id h =
    let u = ulid ms random in
    let size = ulid-byte_len ms random in
    subst (λ i. validate_app_id i ≡ ok tt) (ok-injective h)
      (rw (app_id-differs u size, size, ulid-starts_above ms random, ulid-all_in ms random) refl)

trimmed-validate_app_metadata :
    (name description : Text)
    → validate_app_metadata name description ≡ ok tt
    → validate_app_metadata (trim_space name) (trim_space description) ≡ ok tt
unfolding validate_app_metadata
trimmed-validate_app_metadata name description h =
    rw (trim_space-trim_space name, trim_space-trim_space description) h

-- An application that NewApp returns at a time that is not Go's zero time passes Validate.
pub new_app-validates :
    (ms : ℕ) (random : Option ℕ) (now : ℕ) (input : CreateInput) (a : App)
    → 0 < now
    → new_app ms random now input ≡ ok a
    → validate_app a ≡ ok tt
unfolding new_app validate_app validate_identity validate_lifecycle status_allows canary_allows
new_app-validates ms random now input a later h =
    let (_, tenant, h₁) = >>=-eq-ok (validate_tenant_id input.tenant_id) _ h in
    let (key, key_ok, h₂) = >>=-eq-ok (normalize_app_key input.app_key) _ h₁ in
    let (_, slug, made) = >>=-eq-ok (require (is_slug (lowered input.app_key)) invalid) _ key_ok in
    let (_, metadata, h₃) =
      >>=-eq-ok (validate_app_metadata input.display_name input.description) _ h₂ in
    let (id, id_ok, last) = >>=-eq-ok (new_app_id ms random) _ h₃ in
    let is_key : is_slug key ≡ true =
      ap is_slug (sym (ok-injective made)) ∙ require-holds _ invalid slug in
    let same = lowered-slug key is_key in
    subst (λ x. validate_app x ≡ ok tt) (ok-injective last)
      (>>=-ok _ _
        (>>=-ok _ _ tenant (
          >>=-ok _ _ (new_app_id-validates ms random id id_ok) (
            >>=-ok _ _ (>>=-ok _ _ (require-true _ invalid (ap is_slug same ∙ is_key)) refl) (
              >>=-ok _ _ (require-true _ invalid ((==_iff (lowered key) key).1 same)) (
                >>=-ok _ _
                  (trimmed-validate_app_metadata input.display_name input.description metadata)
                  (require-true _ invalid (
                    rw
                      (
                        trim_space-trim_space input.display_name,
                        trim_space-trim_space input.description,
                        ==_refl (trim_space input.display_name),
                        ==_refl (trim_space input.description),
                      )
                      refl)))))))
        (require-true _ invalid (ground (arith, later))))

-- A new application points at no revision.
pub new_app-unpointed :
    (ms : ℕ) (random : Option ℕ) (now : ℕ) (input : CreateInput) (a : App)
    → new_app ms random now input ≡ ok a
    → (a.current_revision ≡ none) × (a.canary_revision ≡ none)
unfolding new_app
new_app-unpointed ms random now input a h =
    let (_, _, h₁) = >>=-eq-ok (validate_tenant_id input.tenant_id) _ h in
    let (_, _, h₂) = >>=-eq-ok (normalize_app_key input.app_key) _ h₁ in
    let (_, _, h₃) = >>=-eq-ok (validate_app_metadata input.display_name input.description) _ h₂ in
    let (_, _, last) = >>=-eq-ok (new_app_id ms random) _ h₃ in
    (
      sym (ap (λ x. x.current_revision) (ok-injective last)),
      sym (ap (λ x. x.canary_revision) (ok-injective last)),
    )
