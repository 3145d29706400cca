-- ===== src/Agents/Snapshots/Execution.antt =====
-- trpcservice/agent/runtime.go: what the repository selects can be executed, and a snapshot that was
-- made stays the one that is used.
use trpc_agent_service_platf.Base.{
  not, Bool, ==_iff, ◌==◌, ◌&&◌, require-true, wrap_err, >>=-ok, sym, refl, subst, inr,
  ok-injective, ==_refl, ◌∙◌, ◌||◌, require-holds, require, none, ap, inl, false, ◌⊎◌, >>=-eq-ok,
  true, some, ok, ◌≡◌, Option, pair_eq, nat_eq, list_eq,
}
use trpc_agent_service_platf.Base.Ints.{ℤ, int_eq}
use trpc_agent_service_platf.Agents.Apps.{
  validate_identity, is_none, validate_lifecycle, is_positive, validate_app, status_allows, App,
  invalid, Status, draft, active, suspended, disabled, unknown, can_accept_execution, is_active,
}
use trpc_agent_service_platf.Agents.Repository.{
  inner, or_missing, revision_locked, Scope, Repository,
}
use trpc_agent_service_platf.Tenant.Roots.{Tenant}
use trpc_agent_service_platf.Tenant.Roots
use trpc_agent_service_platf.Agents.Snapshots.{
  input_of, factory_input, found_value, kept_value, key_of, Snapshot, validated,
  validate_revision_state, selects, cache_key, with_snapshot, validate_app_state,
  validate_execution_state, from_context, new_snapshot,
}
use trpc_agent_service_platf.Agents.Revisions.{is_published, validate_revision, Revision, Hashing}
use trpc_agent_service_platf.Agents.Life.{HasPublished, Holds, Hosted}
use trpc_agent_service_platf.Agents.Changes.{is_current}
use trpc_agent_service_platf.Agents.Life.Stores.{IsWellFormed}
use trpc_agent_service_platf.Agents.Life.Steps.{held-IsSound}
use trpc_agent_service_platf.Base.Maps.{lookup}

active-is_positive :
    (status : Status) (current : Option ℤ)
    → is_active status ≡ true
    → status_allows status current ≡ true
    → is_positive current ≡ true
unfolding status_allows
active-is_positive draft current on h = cc
active-is_positive active current on h = h
active-is_positive suspended current on h = cc
active-is_positive disabled current on h = cc
active-is_positive (unknown s) current on h = cc

-- An active application that passes Validate has a current revision.
validate_app-is_positive :
    (a : App)
    → validate_app a ≡ ok tt
    → is_active a.status ≡ true
    → is_positive a.current_revision ≡ true
unfolding validate_app validate_lifecycle
validate_app-is_positive a h on =
    let (_, _, h₁) = >>=-eq-ok (validate_identity a) _ h in
    let (_, lifecycle, _) = >>=-eq-ok (validate_lifecycle a) _ h₁ in
    let (_, allowed, _) =
      >>=-eq-ok (require (status_allows a.status a.current_revision) invalid) _ lifecycle in
    active-is_positive a.status a.current_revision on (require-holds _ invalid allowed)

is_positive-some : (o : Option ℤ) → is_positive o ≡ true → is_none o ≡ false
is_positive-some none h = cc
is_positive-some (some n) h = refl

-- The current revision, and the canary.
abbrev pub IsSelected : App → ℤ → Type 0
IsSelected a n = (a.current_revision ≡ some n) ⊎ (a.canary_revision ≡ some n)

or_true : (b : Bool) → (b || true) ≡ true
or_true true = refl
or_true false = refl

IsSelected-selects :
    (a : App) (n : ℤ) → is_positive a.current_revision ≡ true → IsSelected a n → selects a n ≡ true
IsSelected-selects a n positive (inl current) =
    ap (λ b. not b && (is_current a.current_revision n || is_current a.canary_revision n))
      (is_positive-some a.current_revision positive)
    ∙ ap (λ o. is_current o n || is_current a.canary_revision n) current
    ∙ ap (λ b. b || is_current a.canary_revision n) (==_refl n)
IsSelected-selects a n positive (inr canary) =
    ap (λ b. not b && (is_current a.current_revision n || is_current a.canary_revision n))
      (is_positive-some a.current_revision positive)
    ∙ ap (λ o. is_current a.current_revision n || is_current o n) canary
    ∙ ap (λ b. is_current a.current_revision n || b) (==_refl n)
    ∙ or_true (is_current a.current_revision n)

-- The tests that a snapshot has to pass.
pub executable :
    (hashing : Hashing) (t : Tenant) (a : App) (v : Revision)
    → Roots.validate t ≡ ok tt
    → Roots.can_accept_execution t ≡ true
    → validate_app a ≡ ok tt
    → can_accept_execution a ≡ true
    → validate_revision hashing v ≡ ok tt
    → is_published v.state ≡ true
    → (t.tenant_id ≡ a.tenant_id) × (t.tenant_id ≡ v.tenant_id) × (a.app_id ≡ v.app_id)
    → selects a v.revision ≡ true
    → new_snapshot hashing t (some a) (some v)
      ≡ ok (record { tenant = some t; app = some a; revision = some v })
unfolding new_snapshot validate_execution_state validate_app_state validate_revision_state
executable hashing t a v valid accepting root open_root revision published (own, tenant, app)
      selected =
    >>=-ok _ _
      (>>=-ok _ _ (ap (wrap_err (λ e. invalid)) valid) (
        >>=-ok _ _ (require-true _ invalid accepting) (
          >>=-ok _ _ (ap (wrap_err (λ e. invalid)) root) (
            >>=-ok _ _ (require-true _ invalid open_root) (
              >>=-ok _ _ (ap (wrap_err (λ e. invalid)) revision) (
                >>=-ok _ _ (require-true _ invalid published) (
                  >>=-ok _ _
                    (require-true
                      (t.tenant_id == a.tenant_id
                        && t.tenant_id == v.tenant_id
                        && a.app_id == v.app_id)
                      invalid
                      (rw
                        (
                          (==_iff t.tenant_id a.tenant_id).1 own,
                          (==_iff t.tenant_id v.tenant_id).1 tenant,
                          (==_iff a.app_id v.app_id).1 app,
                        )
                        refl))
                    (require-true _ invalid selected))))))))
      refl

-- What an application selects can be executed: for an active tenant that passes Validate, and an
-- active application of it on a well-formed repository, both the current revision and the canary
-- are found, and the execution snapshot of each is made.
pub selected_is_executable :
    (hashing : Hashing) (t : Tenant) (scope : Scope) (s : Hosted) (r : Repository) (n : ℤ)
    → IsWellFormed hashing r
    → Holds scope r s
    → Roots.validate t ≡ ok tt
    → Roots.can_accept_execution t ≡ true
    → t.tenant_id ≡ scope.0
    → is_active s.app.status ≡ true
    → IsSelected s.app n
    → (v : Revision) × (revision_locked scope n r ≡ ok v)
      × (new_snapshot hashing t (some s.app) (some v)
          ≡ ok (record { tenant = some t; app = some s.app; revision = some v }))
unfolding new_snapshot validate_execution_state validate_app_state validate_revision_state
    can_accept_execution revision_locked
selected_is_executable hashing t scope s r n w h valid accepting same on selected =
    let sound = held-IsSound hashing scope r s w h in
    let there : HasPublished n s.revisions = elim selected [
      | inl current ↦ sound.current n current
      | inr canary ↦ sound.canary n canary
    ] in
    let (v, found, published) = there in
    let positive = validate_app-is_positive s.app sound.valid on in
    let (tenant, app, number) = sound.identified n v found in
    let own : t.tenant_id ≡ s.app.tenant_id = same ∙ sym (ap (λ p. p.0) sound.owned) in
    (
      v,
      >>=-ok _ _ (ap or_missing h.app_at)
          (ap (λ o. or_missing (lookup n (inner o))) h.revisions_at ∙ ap or_missing found),
      executable hashing t s.app v valid accepting sound.valid (rw (on, positive) refl)
          (sound.published n v found published) published (own, own ∙ sym tenant, sym app)
          (ap (selects s.app) number ∙ IsSelected-selects s.app n positive selected),
    )

-- A snapshot that was made is the one that a context gives back. Its cache key holds the ID and the
-- version of the tenant and of the application, and the number and the digest of the revision; its
-- factory input has this key, the names of the application, and the kind, the schema version and
-- the configuration of the revision.
pub new_snapshot-from_context :
    (hashing : Hashing) (t : Tenant) (a : App) (v : Revision) (s : Snapshot)
    → new_snapshot hashing t (some a) (some v) ≡ ok s
    → (from_context hashing (some (with_snapshot hashing s)) ≡ some s)
      × (cache_key hashing s
          ≡ ok (record {
            tenant_id = t.tenant_id;
            tenant_version = t.version;
            app_id = a.app_id;
            app_version = a.version;
            revision = v.revision;
            content_digest = v.content_digest;
          }))
      × (factory_input hashing s
          ≡ ok (record {
            key = record {
              tenant_id = t.tenant_id;
              tenant_version = t.version;
              app_id = a.app_id;
              app_version = a.version;
              revision = v.revision;
              content_digest = v.content_digest;
            };
            app_key = a.app_key;
            display_name = a.display_name;
            name = a.app_key;
            kind = v.kind;
            schema_version = v.schema_version;
            configuration = v.configuration;
          }))
unfolding new_snapshot from_context with_snapshot cache_key factory_input validated
new_snapshot-from_context hashing t a v s h =
    let (_, valid, last) = >>=-eq-ok (validate_execution_state hashing t (some a) (some v)) _ h in
    let made : Snapshot = record { tenant = some t; app = some a; revision = some v } in
    let is : made ≡ s = ok-injective last in
    let again : validated hashing made ≡ ok (t, a, v) = >>=-ok _ _ valid refl in
    (
      subst (λ x. from_context hashing (some (with_snapshot hashing x)) ≡ some x) is
          (ap (λ x. from_context hashing (some x)) (ap (kept_value hashing made) again)
            ∙ ap (found_value hashing made) again),
      subst (λ x. cache_key hashing x ≡ ok (key_of hashing (t, a, v))) is (>>=-ok _ _ again refl),
      subst (λ x. factory_input hashing x ≡ ok (input_of hashing (t, a, v))) is
          (>>=-ok _ _ again refl),
    )
