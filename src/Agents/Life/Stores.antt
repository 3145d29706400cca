-- ===== src/Agents/Life/Stores.antt =====
-- trpcservice/agent/inmemory/inmemory.go: what a store into the maps of the repository changes.
use trpc_agent_service_platf.Base.{true, nat_eq, list_eq}
use trpc_agent_service_platf.Agents.Revisions.{Revision, Hashing}
use trpc_agent_service_platf.Base.{
  pair_eq, ==_iff, require-holds, arith, ◌==◌, refl, inr, not, sym, require, ok-injective, inl,
  false, ◌≢◌, ap, >>=-eq-ok, ◌∙◌, some, ok, none, ◌⊎◌, ◌≡◌, Option,
}
use trpc_agent_service_platf.Agents.Repository.{
  is_absent, written, store_app, inner, scope_of, revision_locked, put_revision, or_missing,
  Repository, mutable_app, Scope,
}
use trpc_agent_service_platf.Agents.Apps.{conflict, app_disabled, is_disabled, App}
use trpc_agent_service_platf.Base.Ints.{int_eq, ℤ}
use trpc_agent_service_platf.Agents.Life.{IsSound, Holds, IsSameAt, Hosted}
use trpc_agent_service_platf.Base.Maps.{lookup-insert_ne, lookup-insert_self, insert, lookup}
use mathlib.Core.Option.{some-injective, none-ne-some}

-- The repository where every application is sound and nothing is kept for any other scope.
pub record IsVacant (scope : Scope) (r : Repository) : Type 0 where
  pub no_app : lookup scope r.apps ≡ none
  pub no_revisions : lookup scope r.revisions ≡ none
  pub no_next : lookup scope r.next ≡ none

abbrev pub IsWellFormed : Hashing → Repository → Type 0
IsWellFormed hashing r =
    (scope : Scope) → IsVacant scope r ⊎ ((s : Hosted) × Holds scope r s × IsSound hashing scope s)

-- An application that is found is a sound one.
pub found-Hosted :
    (hashing : Hashing) (scope : Scope) (a : App) (r : Repository)
    → IsWellFormed hashing r
    → lookup scope r.apps ≡ some a
    → (s : Hosted) × Holds scope r s × IsSound hashing scope s × (s.app ≡ a)
found-Hosted hashing scope a r w found = elim (w scope) [
  | inl vacant ↦ absurd (none-ne-some a (sym vacant.no_app ∙ found))
  | inr (s, holds, sound) ↦ (s, holds, sound, some-injective s.app a (sym holds.app_at ∙ found))
]

-- The applications that a change may start from.
pub record IsMutable (scope : Scope) (expected : ℤ) (r : Repository) (a : App) : Type 0 where
  pub found : lookup scope r.apps ≡ some a
  pub enabled : is_disabled a.status ≡ false
  pub current : expected ≡ a.version

or_missing-found : {A : Type 0} (o : Option A) (a : A) → or_missing o ≡ ok a → o ≡ some a
or_missing-found none a h = cc
or_missing-found (some u) a h = ap some (ok-injective h)

pub mutable_app-IsMutable :
    (scope : Scope) (expected : ℤ) (r : Repository) (a : App)
    → mutable_app scope expected r ≡ ok a
    → IsMutable scope expected r a
unfolding mutable_app
mutable_app-IsMutable scope expected r a h =
    let (u, found, h₁) = >>=-eq-ok (or_missing (lookup scope r.apps)) _ h in
    let (_, enabled, h₂) = >>=-eq-ok (require (not (is_disabled u.status)) app_disabled) _ h₁ in
    let (_, current, last) = >>=-eq-ok (require (expected == u.version) conflict) _ h₂ in
    let same : u ≡ a = ok-injective last in
    record {
      found = or_missing-found _ a (found ∙ ap ok same);
      enabled =
          ground (arith, require-holds _ app_disabled enabled, ap (λ x. is_disabled x.status) same);
      current =
          (==_iff expected u.version).0 (require-holds _ conflict current)
          ∙ ap (λ x. x.version) same;
    }

module _ (scope : Scope) (r : Repository) (s : Hosted) (holds : Holds scope r s) where
  pub revision_locked-found :
      (n : ℤ) (v : Revision) → revision_locked scope n r ≡ ok v → lookup n s.revisions ≡ some v
  unfolding revision_locked
  revision_locked-found n v h =
      let (a, _, last) = >>=-eq-ok (or_missing (lookup scope r.apps)) _ h in
      ap (λ o. lookup n (inner o)) (sym holds.revisions_at) ∙ or_missing-found _ v last

  -- A change of the repository at this scope, that leaves the others.
  abbrev pub Becomes : Hosted → Repository → Type 0
  Becomes s' r' = Holds scope r' s' × ((other : Scope) → scope ≢ other → IsSameAt other r r')

  pub store_app-Becomes :
      (b : App) → scope_of b ≡ scope → Becomes (record s { app = b }) (store_app b r)
  store_app-Becomes b own = (
    record {
      app_at =
          ap (λ x. lookup x (insert (scope_of b) b r.apps)) (sym own)
          ∙ lookup-insert_self (scope_of b) b r.apps;
      revisions_at = holds.revisions_at;
      latest_at = holds.latest_at;
    },
    λ other ne. record {
      same_app = lookup-insert_ne (scope_of b) other b r.apps (λ e. ne (sym own ∙ e));
      same_revisions = refl;
      same_next = refl;
    },
  )

  pub put_revision-is :
      (n : ℤ) (v : Revision) (r' : Repository)
      → put_revision scope n v r ≡ ok r'
      → r' ≡ record r { revisions = insert scope (insert n v s.revisions) r.revisions }
  unfolding put_revision
  put_revision-is n v r' h =
      sym (ok-injective (sym (ap (written scope n v r) holds.revisions_at) ∙ h))

  pub put_revision-Becomes :
      (n : ℤ) (v : Revision)
      → Becomes
          (record s { revisions = insert n v s.revisions })
          (record r { revisions = insert scope (insert n v s.revisions) r.revisions })
  put_revision-Becomes n v = (
    record {
      app_at = holds.app_at;
      revisions_at = lookup-insert_self scope (insert n v s.revisions) r.revisions;
      latest_at = holds.latest_at;
    },
    λ other ne. record {
      same_app = refl;
      same_revisions = lookup-insert_ne scope other (insert n v s.revisions) r.revisions ne;
      same_next = refl;
    },
  )

  pub put_next-Becomes :
      (n : ℤ) → Becomes (record s { latest = some n }) (record r { next = insert scope n r.next })
  put_next-Becomes n = (
    record {
      app_at = holds.app_at;
      revisions_at = holds.revisions_at;
      latest_at = lookup-insert_self scope n r.next;
    },
    λ other ne. record {
      same_app = refl;
      same_revisions = refl;
      same_next = lookup-insert_ne scope other n r.next ne;
    },
  )

pub IsSameAt-trans :
    (scope : Scope) (r r' r'' : Repository)
    → IsSameAt scope r r'
    → IsSameAt scope r' r''
    → IsSameAt scope r r''
IsSameAt-trans scope r r' r'' a b = record {
  same_app = b.same_app ∙ a.same_app;
  same_revisions = b.same_revisions ∙ a.same_revisions;
  same_next = b.same_next ∙ a.same_next;
}

pub Becomes-trans :
    (scope : Scope) (r r' r'' : Repository) (s s' s'' : Hosted) (holds : Holds scope r s)
    (holds' : Holds scope r' s')
    → Becomes scope r s holds s' r'
    → Becomes scope r' s' holds' s'' r''
    → Becomes scope r s holds s'' r''
Becomes-trans scope r r' r'' s s' s'' holds holds' a b =
    (b.0, λ other ne. IsSameAt-trans other r r' r'' (a.1 other ne) (b.1 other ne))

pub is_absent-none : {A : Type 0} (o : Option A) → is_absent o ≡ true → o ≡ none
is_absent-none none h = refl
is_absent-none (some a) h = cc
