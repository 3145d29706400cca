-- ===== src/Tenant/Repository/Runs.antt =====
-- trpcservice/tenant/inmemory/inmemory.go: the repository after any calls.
use trpc_agent_service_platf.Tenant.Repository.{
  transition_status, update_configuration, create, new_repository, transitions, updates, Repository,
  creates, step, run, Call,
}
use trpc_agent_service_platf.Base.Maps.{lookup}
use trpc_agent_service_platf.Base.{
  inr, sym, inl, [], ◌∷◌, arith, Result-cases, suc, subst, ◌+◌, length, ◌<◌, ℕ, List,
}
use trpc_agent_service_platf.Base.Ints.{max_int64}
use trpc_agent_service_platf.Base.Sorting.{All}
use trpc_agent_service_platf.Tenant.Repository.Invariant.{
  weaken-IsWellFormed, store_new-IsWellFormed, IsWellFormed,
}
use trpc_agent_service_platf.Tenant.Repository.Steps.{
  valid_transition-is_status, moved-IsWellFormed, transition_status-IsTransition,
  configured-IsWellFormed, update_configuration-IsUpdate, create-IsCreation,
}
use trpc_agent_service_platf.Tenant.Roots.Soundness.{validate-IsSound}
use trpc_agent_service_platf.Tenant.Roots.Creation.{new_tenant-IsMade, new_tenant-validates}
use trpc_agent_service_platf.Tenant.Settings.{with_defaults}

-- The clock of a call is not at Go's zero time.
abbrev pub IsTimely : Call → Type 0
IsTimely (creates ctx ms random now input) = 0 < now
IsTimely (updates ctx now input) = 0 < now
IsTimely (transitions ctx now input) = 0 < now

pub step-IsWellFormed :
    (n : ℕ) (c : Call) (r : Repository)
    → n + 1 < max_int64
    → IsTimely c
    → IsWellFormed n r
    → IsWellFormed (suc n) (step c r)
unfolding step
step-IsWellFormed n (creates ctx ms random now input) r small later w =
    elim (Result-cases (create ctx ms random now input r)) [
      | inl ((t, r'), done) ↦
          let c = create-IsCreation ctx ms random now input r r' t done in
          rw done (
            subst (IsWellFormed (suc n)) (sym c.stored) (
              store_new-IsWellFormed n t r c.no_id c.no_key
                (validate-IsSound t (new_tenant-validates ms random now input t later c.made))
                (new_tenant-IsMade ms random now input t c.made).first w))
      | inr (e, failed) ↦ rw failed (weaken-IsWellFormed n r w)
    ]
step-IsWellFormed n (updates ctx now input) r small later w =
    elim (Result-cases (update_configuration ctx now input r)) [
      | inl ((t', r'), done) ↦
          let u = update_configuration-IsUpdate ctx now input r r' t' done in
          rw done (
            subst (IsWellFormed (suc n)) (sym u.stored) (
              configured-IsWellFormed n small r w input.tenant_id u.t
                (with_defaults input.configuration) now later u.before.found u.accepted))
      | inr (e, failed) ↦ rw failed (weaken-IsWellFormed n r w)
    ]
step-IsWellFormed n (transitions ctx now input) r small later w =
    elim (Result-cases (transition_status ctx now input r)) [
      | inl (((t', event), r'), done) ↦
          let m = transition_status-IsTransition ctx now input r r' t' event done in
          rw done (
            subst (IsWellFormed (suc n)) (sym m.stored) (
              moved-IsWellFormed n small r w input.tenant_id m.t input.next_status now later
                m.before.found (valid_transition-is_status m.t.status input.next_status m.allowed)))
      | inr (e, failed) ↦ rw failed (weaken-IsWellFormed n r w)
    ]

pub run_from-IsWellFormed :
    (cs : List Call) (n : ℕ) (r : Repository)
    → n + length cs < max_int64
    → All IsTimely cs
    → IsWellFormed n r
    → IsWellFormed (n + length cs) (run cs r)
unfolding run
run_from-IsWellFormed [] n r small timely w = subst (λ k. IsWellFormed k r) (omega arith) w
run_from-IsWellFormed (c ∷ cs) n r small timely w =
    subst (λ k. IsWellFormed k (run cs (step c r))) (omega arith)
      (run_from-IsWellFormed cs (suc n) (step c r) (omega (arith, small)) timely.1
        (step-IsWellFormed n c r (omega (arith, small)) timely.0 w))

-- After any fewer than 2^63 - 1 calls on an empty repository, at times that are not Go's zero time:
-- every tenant is stored under its own ID, passes Validate, and is the one that the index of keys
-- names, so no two tenants share a key; and every indexed key is that of a stored tenant.
pub run-IsWellFormed :
    (cs : List Call)
    → length cs < max_int64
    → All IsTimely cs
    → IsWellFormed (length cs) (run cs new_repository)
unfolding lookup
run-IsWellFormed cs small timely =
    subst (λ k. IsWellFormed k (run cs new_repository)) (omega arith)
      (run_from-IsWellFormed cs 0 new_repository (omega (arith, small)) timely (record {
        keyed = λ id t at. absurd (cc);
        sound = λ id t at. absurd (cc);
        reached = λ id t at. absurd (cc);
        indexed = λ key id at. absurd (cc);
      }))
