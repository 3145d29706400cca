-- ===== src/Tenant/Repository/Invariant.antt =====
-- trpcservice/tenant/inmemory/inmemory.go: the repository stays well formed.
use trpc_agent_service_platf.Tenant.Identity.{conflict}
use trpc_agent_service_platf.Tenant.Identity.{disabled as tenant_disabled}
use trpc_agent_service_platf.Base.{
  refl, subst, require-holds, inr, ◌∙◌, ==_iff, sym, ◌==◌, ◌+◌, ◌≤◌, not, nat_eq, list_eq, inl,
  Bool-cases, require, ok-injective, false, ap, >>=-eq-ok, some, ok, none, arith, ◌≡◌, suc, ℕ,
  Option,
}
use trpc_agent_service_platf.Base.Text.{Text}
use trpc_agent_service_platf.Tenant.Repository.{put, or_missing, Repository, store_new, mutable}
use trpc_agent_service_platf.Base.Maps.{
  lookup-insert-cases, lookup-insert_ne, lookup-insert, lookup-insert_self, insert, lookup,
}
use trpc_agent_service_platf.Tenant.Roots.{is_disabled, Tenant}
use trpc_agent_service_platf.Base.Ints.{int_eq, pos, ℤ}
use trpc_agent_service_platf.Tenant.Roots.Soundness.{IsSound}
use mathlib.Core.Option.{none-ne-some, some-injective}

-- After `n` calls: every tenant is stored under its ID and its key, is sound, and has a version that
-- the calls could reach; the index of keys names no tenant that is not there.
pub record IsWellFormed (n : ℕ) (r : Repository) : Type 0 where
  pub keyed :
      (id : Text) (t : Tenant)
      → lookup id r.by_id ≡ some t
      → (t.tenant_id ≡ id) × (lookup t.tenant_key r.by_key ≡ some id)
  pub sound : (id : Text) (t : Tenant) → lookup id r.by_id ≡ some t → IsSound t
  pub reached :
      (id : Text) (t : Tenant)
      → lookup id r.by_id ≡ some t
      → (k : ℕ) × (t.version ≡ pos k) × (k ≤ n + 1)
  pub indexed :
      (key id : Text)
      → lookup key r.by_key ≡ some id
      → (t : Tenant) × (lookup id r.by_id ≡ some t) × (t.tenant_key ≡ key)

-- The tenants that a change may start from.
pub record IsMutable (id : Text) (expected : ℤ) (r : Repository) (t : Tenant) : Type 0 where
  pub found : lookup id r.by_id ≡ some t
  pub enabled : is_disabled t.status ≡ false
  pub current : expected ≡ t.version

or_missing-found : (o : Option Tenant) (t : Tenant) → or_missing o ≡ ok t → o ≡ some t
or_missing-found none t h = cc
or_missing-found (some u) t h = ap some (ok-injective h)

pub mutable-IsMutable :
    (id : Text) (expected : ℤ) (r : Repository) (t : Tenant)
    → mutable id expected r ≡ ok t
    → IsMutable id expected r t
unfolding mutable
mutable-IsMutable id expected r t h =
    let (u, found, h₁) = >>=-eq-ok (or_missing (lookup id r.by_id)) _ h in
    let (_, enabled, h₂) = >>=-eq-ok (require (not (is_disabled u.status)) tenant_disabled) _ h₁ in
    let (_, current, last) = >>=-eq-ok (require (expected == u.version) conflict) _ h₂ in
    let same : u ≡ t = ok-injective last in
    record {
      found = or_missing-found _ t (found ∙ ap ok same);
      enabled =
          ground
            (arith, require-holds _ tenant_disabled enabled, ap (λ x. is_disabled x.status) same);
      current =
          (==_iff expected u.version).0 (require-holds _ conflict current)
          ∙ ap (λ x. x.version) same;
    }

-- A change of a tenant that keeps its ID and its key.
pub put-IsWellFormed :
    (n : ℕ) (id : Text) (t t' : Tenant) (k : ℕ) (r : Repository)
    → lookup id r.by_id ≡ some t
    → t'.tenant_id ≡ t.tenant_id
    → t'.tenant_key ≡ t.tenant_key
    → IsSound t'
    → t'.version ≡ pos k
    → k ≤ suc n + 1
    → IsWellFormed n r
    → IsWellFormed (suc n) (put t' id r)
put-IsWellFormed n id t t' k r found same_id same_key s version_is small w = record {
  keyed = λ j u at. elim (lookup-insert-cases id j t' u r.by_id at) [
    | inl (here, new) ↦
        let was = w.keyed id t found in
        (
          ap (λ x. x.tenant_id) (sym new) ∙ same_id ∙ was.0 ∙ here,
          ap (λ x. lookup x.tenant_key r.by_key) (sym new)
              ∙ ap (λ x. lookup x r.by_key) same_key
              ∙ was.1
              ∙ ap some here,
        )
    | inr (ne, old) ↦ w.keyed j u old
  ];
  sound = λ j u at. elim (lookup-insert-cases id j t' u r.by_id at) [
    | inl (here, new) ↦ subst IsSound new s
    | inr (ne, old) ↦ w.sound j u old
  ];
  reached = λ j u at. elim (lookup-insert-cases id j t' u r.by_id at) [
    | inl (here, new) ↦ (k, ap (λ x. x.version) (sym new) ∙ version_is, small)
    | inr (ne, old) ↦ let (l, is, le) = w.reached j u old in (l, is, omega (arith, le))
  ];
  indexed = λ key j at.
      let (u, there, its) = w.indexed key j at in
      elim (Bool-cases (id == j)) [
        | inl same ↦
            let here = (==_iff id j).0 same in
            let one = some-injective t u (sym found ∙ ap (λ x. lookup x r.by_id) here ∙ there) in
            (
              t',
              lookup-insert id j t' r.by_id ∙ rw same refl,
              same_key ∙ ap (λ x. x.tenant_key) one ∙ its,
            )
        | inr other ↦ (u, lookup-insert id j t' r.by_id ∙ rw other there, its)
      ];
}

pub weaken-IsWellFormed : (n : ℕ) (r : Repository) → IsWellFormed n r → IsWellFormed (suc n) r
weaken-IsWellFormed n r w = record {
  keyed = w.keyed;
  sound = w.sound;
  reached = λ j u at. let (l, is, le) = w.reached j u at in (l, is, omega (arith, le));
  indexed = w.indexed;
}

pub store_new-IsWellFormed :
    (n : ℕ) (t : Tenant) (r : Repository)
    → lookup t.tenant_id r.by_id ≡ none
    → lookup t.tenant_key r.by_key ≡ none
    → IsSound t
    → t.version ≡ pos 1
    → IsWellFormed n r
    → IsWellFormed (suc n) (store_new t r)
unfolding store_new
store_new-IsWellFormed n t r no_id no_key s first w = record {
  keyed = λ j u at. elim (lookup-insert-cases t.tenant_id j t u r.by_id at) [
    | inl (here, new) ↦ (
      ap (λ x. x.tenant_id) (sym new) ∙ here,
      ap (λ x. lookup x.tenant_key (insert t.tenant_key t.tenant_id r.by_key)) (sym new)
          ∙ lookup-insert_self t.tenant_key t.tenant_id r.by_key
          ∙ ap some here,
    )
    | inr (ne, old) ↦
        let was = w.keyed j u old in
        (
          was.0,
          lookup-insert_ne t.tenant_key u.tenant_key t.tenant_id r.by_key
                (λ e. none-ne-some j (sym no_key ∙ ap (λ x. lookup x r.by_key) e ∙ was.1))
              ∙ was.1,
        )
  ];
  sound = λ j u at. elim (lookup-insert-cases t.tenant_id j t u r.by_id at) [
    | inl (here, new) ↦ subst IsSound new s
    | inr (ne, old) ↦ w.sound j u old
  ];
  reached = λ j u at. elim (lookup-insert-cases t.tenant_id j t u r.by_id at) [
    | inl (here, new) ↦ (1, ap (λ x. x.version) (sym new) ∙ first, omega arith)
    | inr (ne, old) ↦ let (l, is, le) = w.reached j u old in (l, is, omega (arith, le))
  ];
  indexed = λ key j at. elim (lookup-insert-cases t.tenant_key key t.tenant_id j r.by_key at) [
    | inl (here, new) ↦ (
      t,
      ap (λ x. lookup x (insert t.tenant_id t r.by_id)) (sym new)
          ∙ lookup-insert_self t.tenant_id t r.by_id,
      here,
    )
    | inr (ne, old) ↦
        let (u, there, its) = w.indexed key j old in
        (
          u,
          lookup-insert_ne t.tenant_id j t r.by_id
                (λ e. none-ne-some u (sym no_id ∙ ap (λ x. lookup x r.by_id) e ∙ there))
              ∙ there,
          its,
        )
  ];
}
