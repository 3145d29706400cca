-- ===== src/Tenant/Repository/Steps.antt =====
-- trpcservice/tenant/inmemory/inmemory.go: every call keeps the repository well formed.
use trpc_agent_service_platf.Tenant.Identity.{duplicate_key, invalid_transition}
use trpc_agent_service_platf.Tenant.Roots.{
  new_tenant, is_status, Tenant, CreateInput, Status, active, suspended, disabled, unset, unknown,
}
use trpc_agent_service_platf.Tenant.Repository.{
  validate_metadata, put, mutable, store_new, status_change, configured, check_context, moved,
  StatusChangeEvent, Repository, is_absent, UpdateConfigurationInput, TransitionStatusInput,
  valid_transition, update_configuration, transition_status, create, lock,
}
use trpc_agent_service_platf.Base.{
  sym, require-holds, ◌∙◌, ok-injective, require, nat_eq, list_eq, ap, ◌≤◌, suc, arith, >>=-eq-ok,
  some, refl, ok, none, true, ◌≡◌, ◌<◌, ◌+◌, ℕ, Option,
}
use trpc_agent_service_platf.Base.Contexts.{Context}
use trpc_agent_service_platf.Base.Ints.{pos, incr, max_int64}
use trpc_agent_service_platf.Tenant.Repository.Invariant.{
  put-IsWellFormed, mutable-IsMutable, IsMutable, IsWellFormed,
}
use trpc_agent_service_platf.Base.Text.{Text}
use trpc_agent_service_platf.Tenant.Settings.{
  trimmed-validate_configuration, with_defaults, validate_configuration, Configuration,
}
use trpc_agent_service_platf.Base.Maps.{lookup}

pub incr-small : (k : ℕ) → k < max_int64 → incr (pos k) ≡ pos (k + 1)
incr-small k small = ground arith

module _ (n : ℕ) (small : n + 1 < max_int64) (r : Repository) (w : IsWellFormed n r) where
  -- The version after a change.
  bumped :
      (id : Text) (t : Tenant)
      → lookup id r.by_id ≡ some t
      → (k : ℕ) × (incr t.version ≡ pos k) × (1 ≤ k) × (k ≤ suc n + 1)
  bumped id t found =
      let (k, is, le) = w.reached id t found in
      (k + 1, ap incr is ∙ incr-small k (omega (arith, le, small)), omega arith, omega (arith, le))

  pub configured-IsWellFormed :
      (id : Text) (t : Tenant) (c : Configuration) (now : ℕ)
      → 0 < now
      → lookup id r.by_id ≡ some t
      → validate_configuration c ≡ ok tt
      → IsWellFormed (suc n) (put (configured c now t) id r)
  configured-IsWellFormed id t c now later found accepted =
      let (k, is, positive, le) = bumped id t found in
      let s = w.sound id t found in
      put-IsWellFormed n id t (configured c now t) k r found refl refl
        (record {
          identified = s.identified;
          slug = s.slug;
          status_known = s.status_known;
          accepted = trimmed-validate_configuration c accepted;
          versioned = ground (arith, is, positive);
          created = s.created;
          updated = λ e. ground (arith, later, e);
        })
        is le w

  pub moved-IsWellFormed :
      (id : Text) (t : Tenant) (next : Status) (now : ℕ)
      → 0 < now
      → lookup id r.by_id ≡ some t
      → is_status next ≡ true
      → IsWellFormed (suc n) (put (moved next now t) id r)
  moved-IsWellFormed id t next now later found known =
      let (k, is, positive, le) = bumped id t found in
      let s = w.sound id t found in
      put-IsWellFormed n id t (moved next now t) k r found refl refl
        (record {
          identified = s.identified;
          slug = s.slug;
          status_known = known;
          accepted = s.accepted;
          versioned = ground (arith, is, positive);
          created = s.created;
          updated = λ e. ground (arith, later, e);
        })
        is le w

pub valid_transition-is_status :
    (from to : Status) → valid_transition from to ≡ true → is_status to ≡ true
unfolding valid_transition
valid_transition-is_status active suspended h = refl
valid_transition-is_status active disabled h = refl
valid_transition-is_status suspended active h = refl
valid_transition-is_status suspended disabled h = refl
valid_transition-is_status unset to h = cc
valid_transition-is_status active unset h = cc
valid_transition-is_status active active h = refl
valid_transition-is_status active (unknown s) h = cc
valid_transition-is_status suspended unset h = cc
valid_transition-is_status suspended suspended h = refl
valid_transition-is_status suspended (unknown s) h = cc
valid_transition-is_status disabled to h = cc
valid_transition-is_status (unknown s) to h = cc

is_absent-none : {A : Type 0} (o : Option A) → is_absent o ≡ true → o ≡ none
is_absent-none none h = refl
is_absent-none (some a) h = cc

-- What a creation that succeeds has done.
pub record IsCreation (ms : ℕ) (random : Option ℕ) (now : ℕ) (input : CreateInput) (r : Repository)
    (t : Tenant) (r' : Repository) : Type 0 where
  pub made : new_tenant ms random now input ≡ ok t
  pub no_id : lookup t.tenant_id r.by_id ≡ none
  pub no_key : lookup t.tenant_key r.by_key ≡ none
  pub stored : r' ≡ store_new t r

pub create-IsCreation :
    (ctx : Context) (ms : ℕ) (random : Option ℕ) (now : ℕ) (input : CreateInput) (r r' : Repository)
    (t : Tenant)
    → create ctx ms random now input r ≡ ok (t, r')
    → IsCreation ms random now input r t r'
unfolding create
create-IsCreation ctx ms random now input r r' t h =
    let (_, _, h₁) = >>=-eq-ok (check_context 0 ctx) _ h in
    let (u, made, h₂) = >>=-eq-ok (new_tenant ms random now input) _ h₁ in
    let (_, _, h₃) = >>=-eq-ok (lock ctx) _ h₂ in
    let (_, no_id, h₄) =
      >>=-eq-ok (require (is_absent (lookup u.tenant_id r.by_id)) duplicate_key) _ h₃ in
    let (_, no_key, last) =
      >>=-eq-ok (require (is_absent (lookup u.tenant_key r.by_key)) duplicate_key) _ h₄ in
    let same : u ≡ t = ap (λ p. p.0) (ok-injective last) in
    record {
      made = made ∙ ap ok same;
      no_id =
          ap (λ x. lookup x.tenant_id r.by_id) (sym same)
          ∙ is_absent-none _ (require-holds _ duplicate_key no_id);
      no_key =
          ap (λ x. lookup x.tenant_key r.by_key) (sym same)
          ∙ is_absent-none _ (require-holds _ duplicate_key no_key);
      stored = sym (ap (λ p. p.1) (ok-injective last)) ∙ ap (λ x. store_new x r) same;
    }

-- What an update that succeeds has done.
pub record IsUpdate (now : ℕ) (input : UpdateConfigurationInput) (r : Repository) (t' : Tenant)
    (r' : Repository) : Type 0 where
  pub t : Tenant
  pub before : IsMutable input.tenant_id input.expected_version r t
  pub accepted : validate_configuration (with_defaults input.configuration) ≡ ok tt
  pub result : t' ≡ configured (with_defaults input.configuration) now t
  pub stored : r' ≡ put (configured (with_defaults input.configuration) now t) input.tenant_id r

pub update_configuration-IsUpdate :
    (ctx : Context) (now : ℕ) (input : UpdateConfigurationInput) (r r' : Repository) (t' : Tenant)
    → update_configuration ctx now input r ≡ ok (t', r')
    → IsUpdate now input r t' r'
unfolding update_configuration
update_configuration-IsUpdate ctx now input r r' t' h =
    let c = with_defaults input.configuration in
    let (_, _, h₁) = >>=-eq-ok (check_context 0 ctx) _ h in
    let (_, accepted, h₂) = >>=-eq-ok (validate_configuration c) _ h₁ in
    let (_, _, h₃) = >>=-eq-ok (lock ctx) _ h₂ in
    let (t, is, last) = >>=-eq-ok (mutable input.tenant_id input.expected_version r) _ h₃ in
    record {
      t = t;
      before = mutable-IsMutable input.tenant_id input.expected_version r t is;
      accepted = accepted;
      result = sym (ap (λ p. p.0) (ok-injective last));
      stored = sym (ap (λ p. p.1) (ok-injective last));
    }

-- What a transition that succeeds has done.
pub record IsTransition (now : ℕ) (input : TransitionStatusInput) (r : Repository) (t' : Tenant)
    (event : StatusChangeEvent) (r' : Repository) : Type 0 where
  pub t : Tenant
  pub before : IsMutable input.tenant_id input.expected_version r t
  pub allowed : valid_transition t.status input.next_status ≡ true
  pub result : t' ≡ moved input.next_status now t
  pub reported : event ≡ status_change input now t
  pub stored : r' ≡ put (moved input.next_status now t) input.tenant_id r

pub transition_status-IsTransition :
    (ctx : Context) (now : ℕ) (input : TransitionStatusInput) (r r' : Repository) (t' : Tenant)
    (event : StatusChangeEvent)
    → transition_status ctx now input r ≡ ok ((t', event), r')
    → IsTransition now input r t' event r'
unfolding transition_status
transition_status-IsTransition ctx now input r r' t' event h =
    let (_, _, h₁) = >>=-eq-ok (check_context 0 ctx) _ h in
    let (_, _, h₂) = >>=-eq-ok (validate_metadata input.metadata) _ h₁ in
    let (_, _, h₃) = >>=-eq-ok (lock ctx) _ h₂ in
    let (t, is, h₄) = >>=-eq-ok (mutable input.tenant_id input.expected_version r) _ h₃ in
    let (_, allowed, last) =
      >>=-eq-ok (require (valid_transition t.status input.next_status) invalid_transition) _ h₄ in
    record {
      t = t;
      before = mutable-IsMutable input.tenant_id input.expected_version r t is;
      allowed = require-holds _ invalid_transition allowed;
      result = sym (ap (λ p. p.0.0) (ok-injective last));
      reported = sym (ap (λ p. p.0.1) (ok-injective last));
      stored = sym (ap (λ p. p.1) (ok-injective last));
    }
