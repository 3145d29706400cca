-- ===== src/Tenant/Repository/Lifecycle.antt =====
-- trpcservice/tenant/inmemory/inmemory.go: the life of one tenant.
use trpc_agent_service_platf.Tenant.Roots.{is_disabled, Tenant}
use trpc_agent_service_platf.Base.Text.{Text}
use trpc_agent_service_platf.Tenant.Repository.{
  run, transition_status, transitions, update_configuration, updates, create, put, creates, Call,
  store_new, Repository, step,
}
use trpc_agent_service_platf.Base.Maps.{lookup-insert, lookup-insert_ne, lookup}
use trpc_agent_service_platf.Base.{
  [], ◌∷◌, List, refl, inr, ap, ◌∙◌, sym, subst, ==_iff, inl, ◌==◌, Result-cases, Bool-cases,
  nat_eq, list_eq, true, some, ◌≡◌,
}
use trpc_agent_service_platf.Tenant.Repository.Steps.{
  transition_status-IsTransition, update_configuration-IsUpdate, create-IsCreation,
}
use mathlib.Core.Option.{none-ne-some, some-injective}
use mathlib.Core.Bool.{false≢true}
use trpc_agent_service_platf.Base.Ints.{int_eq}
use trpc_agent_service_platf.Tenant.Repository.Changes.{
  TenantStep, stays, configures, moves, IsUpdate-IsConfigured, IsTransition-IsMoved,
}

abbrev pub Moves : Text → Call → Tenant → Repository → Type 0
Moves id c t r = (t' : Tenant) × (lookup id r.by_id ≡ some t') × TenantStep id c t t'

put-Moves :
    (id other : Text) (c : Call) (t u u' : Tenant) (r : Repository)
    → lookup id r.by_id ≡ some t
    → lookup other r.by_id ≡ some u
    → TenantStep other c u u'
    → Moves id c t (put u' other r)
put-Moves id other c t u u' r at found s = elim (Bool-cases (other == id)) [
  | inl same ↦
      let here = (==_iff other id).0 same in
      let one = some-injective u t (sym found ∙ ap (λ x. lookup x r.by_id) here ∙ at) in
      (
        u',
        lookup-insert other id u' r.by_id ∙ rw same refl,
        subst (λ i. TenantStep i c t u') here (subst (λ x. TenantStep other c x u') one s),
      )
  | inr ne ↦ (t, lookup-insert other id u' r.by_id ∙ rw ne at, stays refl)
]

-- Whatever call is made, a tenant that is stored stays stored and takes at most one step of its
-- life, while it is not disabled and from the version that the caller expects: UpdateConfiguration
-- gives it the caller's configuration, with its defaults, trimmed and accepted, and the same
-- status, or TransitionStatus gives it the caller's status, from active or suspended to another
-- known one, with the same configuration; either leaves the next version and the same ID, key and
-- creation time.
pub call-Moves :
    (c : Call) (id : Text) (t : Tenant) (r : Repository)
    → lookup id r.by_id ≡ some t
    → Moves id c t (step c r)
unfolding step store_new
call-Moves (creates ctx ms random now input) id t r at =
    let call = creates ctx ms random now input in
    elim (Result-cases (create ctx ms random now input r)) [
      | inl ((u, r'), done) ↦
          let c = create-IsCreation ctx ms random now input r r' u done in
          rw done (
            subst (Moves id call t) (sym c.stored) (
              t,
              lookup-insert_ne u.tenant_id id u r.by_id
                    (λ e. none-ne-some t (sym c.no_id ∙ ap (λ x. lookup x r.by_id) e ∙ at))
                  ∙ at,
              stays refl,
            ))
      | inr (e, failed) ↦ rw failed (t, at, stays refl)
    ]
call-Moves (updates ctx now input) id t r at =
    let call = updates ctx now input in
    elim (Result-cases (update_configuration ctx now input r)) [
      | inl ((t', r'), done) ↦
          let u = update_configuration-IsUpdate ctx now input r r' t' done in
          rw done (
            subst (Moves id call t) (sym u.stored) (
              put-Moves id input.tenant_id call t u.t _ r at u.before.found
                (configures ctx now input refl (IsUpdate-IsConfigured now input r r' t' u))))
      | inr (e, failed) ↦ rw failed (t, at, stays refl)
    ]
call-Moves (transitions ctx now input) id t r at =
    let call = transitions ctx now input in
    elim (Result-cases (transition_status ctx now input r)) [
      | inl (((t', event), r'), done) ↦
          let m = transition_status-IsTransition ctx now input r r' t' event done in
          rw done (
            subst (Moves id call t) (sym m.stored) (
              put-Moves id input.tenant_id call t m.t _ r at m.before.found
                (moves ctx now input refl (IsTransition-IsMoved now input r r' t' event m))))
      | inr (e, failed) ↦ rw failed (t, at, stays refl)
    ]

TenantStep-disabled :
    (id : Text) (c : Call) (t t' : Tenant)
    → is_disabled t.status ≡ true
    → TenantStep id c t t'
    → t' ≡ t
TenantStep-disabled id c t t' off (stays same) = same
TenantStep-disabled id c t t' off (configures ctx now input is new) =
    absurd (false≢true (sym new.changed.enabled ∙ off))
TenantStep-disabled id c t t' off (moves ctx now input is new) =
    absurd (false≢true (sym new.changed.enabled ∙ off))

-- A disabled tenant stays as it is, whatever calls follow: no configuration, status or version
-- changes, and it is not removed.
pub disabled_is_final :
    (cs : List Call) (id : Text) (t : Tenant) (r : Repository)
    → lookup id r.by_id ≡ some t
    → is_disabled t.status ≡ true
    → lookup id (run cs r).by_id ≡ some t
unfolding run
disabled_is_final [] id t r at off = at
disabled_is_final (c ∷ cs) id t r at off =
    let (t', at', s) = call-Moves c id t r at in
    disabled_is_final cs id t (step c r) (at' ∙ ap some (TenantStep-disabled id c t t' off s)) off
