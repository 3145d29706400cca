-- ===== src/Gateway/Limits/Budget.antt =====
-- trpcservice/gateway/limits.go: the requests that are admitted within one window.
use trpc_agent_service_platf.Gateway.Messages.{
  validate_scoped_id, context_err, clock, Error, closed,
}
use trpc_agent_service_platf.Base.Text.{codes, Text}
use trpc_agent_service_platf.Gateway.Limits.{
  closing, releasing, acquiring, acquire_locked, lease_at, close, admit, TenantLimitLease, step,
  release_lease, release, acquire, Heap, Call, TenantLimitEntry,
}
use trpc_agent_service_platf.Base.{
  ==_iff, ◌==◌, Bool-cases, sym, ap, ◌⊎◌, ◌∙◌, true, refl, inl, [], ◌>>◌, ◌∷◌, nat_eq, list_eq,
  false, inr, arith, Result-cases, ◌≤◌, subst, some, err, ◌<◌, ◌+◌, ◌≢◌, ◌≡◌, none, Option, Result,
  List, ℕ,
}
use trpc_agent_service_platf.Base.Ints.{add_duration, ℤ}
use trpc_agent_service_platf.Gateway.Limits.Windows.{
  give_back-keeps, give_back-settings, taken_self, admit-closed, admit-other, taken-other,
  admit_self, current-same, admit-settings, taken, IsBefore, admitted, InWindow, admissions,
}
use trpc_agent_service_platf.Base.Sorting.{All}
use trpc_agent_service_platf.Base.Contexts.{Context}
use trpc_agent_service_platf.Base.Maps.{lookup}
use mathlib.Core.Path.{ap₂}
use mathlib.Core.Bool.{false≢true}
use trpc_agent_service_platf.Gateway.Limits.Balance.{
  acquire_locked-opened, acquire_locked-closed, current,
}

module _ (tenant : Text) (most : ℕ) (window : ℤ) (start : ℕ) where
  Counts : ℕ → Result Error ℕ × Heap → Text → Type 0
  Counts used r other = InWindow tenant most window start (used + taken tenant other r.0) r.1

  refused-Counts :
      (used : ℕ) (e : Error) (heap : Heap) (other : Text)
      → InWindow tenant most window start used heap
      → Counts used (err e, heap) other
  unfolding Counts
  refused-Counts used e heap other h =
      subst (λ n. InWindow tenant most window start n heap) (omega arith) h

  self-Counts :
      (used now : ℕ) (heap : Heap) (e : TenantLimitEntry)
      → InWindow tenant most window start used heap
      → lookup tenant heap.limiter.entries ≡ some e
      → e.window_start ≡ start
      → e.requests ≡ used
      → now < add_duration start window
      → Counts used (admit tenant (current tenant now heap) heap) tenant
  unfolding Counts
  self-Counts used now heap e h at begins is_used early =
      let same = current-same tenant now heap e at (rw (begins, h.window_is) early) in
      let (e', at', begins', used', bound) = admit_self tenant (current tenant now heap) heap in
      let kept = admit-settings tenant (current tenant now heap) heap in
      let sum : e'.requests
          ≡ used + taken tenant tenant (admit tenant (current tenant now heap) heap).0 =
        used' ∙ ap₂ ◌+◌ (ap (λ x. x.requests) same ∙ is_used) (sym (taken_self tenant _)) in
      record {
        most_is = kept.0 ∙ h.most_is;
        window_is = kept.1 ∙ h.window_is;
        within = elim bound [
          | inl less ↦ omega (arith, less, sum, ap (λ x. x.requests) same, is_used, h.within)
          | inr less ↦ omega (arith, less, sum, h.most_is)
        ];
        counted = inr (e', at', begins' ∙ ap (λ x. x.window_start) same ∙ begins, sum);
      }

  other-Counts :
      (used now : ℕ) (heap : Heap) (other : Text)
      → other ≢ tenant
      → InWindow tenant most window start used heap
      → Counts used (admit other (current other now heap) heap) other
  unfolding Counts
  other-Counts used now heap other ne h =
      let r = admit other (current other now heap) heap in
      let kept = admit-settings other (current other now heap) heap in
      let none_taken = taken-other tenant other r.0 ne in
      let same = admit-other tenant other (current other now heap) heap ne in
      record {
        most_is = kept.0 ∙ h.most_is;
        window_is = kept.1 ∙ h.window_is;
        within = omega (arith, h.within, none_taken);
        counted = elim h.counted [
          | inl shut ↦ inl (admit-closed other (current other now heap) heap ∙ shut)
          | inr (e, at, begins, is_used) ↦
              inr (e, same ∙ at, begins, omega (arith, is_used, none_taken))
        ];
      }

  locked-Counts :
      (used now : ℕ) (heap : Heap) (other : Text)
      → (other ≡ tenant → now < add_duration start window)
      → InWindow tenant most window start used heap
      → Counts used (acquire_locked other now heap) other
  locked-Counts used now heap other early h = elim (Bool-cases heap.limiter.closed) [
    | inl shut ↦
        rw (acquire_locked-closed other now heap shut) (refused-Counts used closed heap other h)
    | inr opened ↦
        rw (acquire_locked-opened other now heap opened) (elim (Bool-cases (other == tenant)) [
          | inl same ↦ tenant_turn ((==_iff other tenant).0 same) opened h.counted
          | inr ne ↦
              other-Counts used now heap other
                (λ e. absurd (false≢true (sym ne ∙ (==_iff other tenant).1 e))) h
        ])
  ]
    where
      tenant_turn :
          other ≡ tenant
          → heap.limiter.closed ≡ false
          → ((heap.limiter.closed ≡ true)
              ⊎ ((e : TenantLimitEntry) × (lookup tenant heap.limiter.entries ≡ some e)
                  × (e.window_start ≡ start)
                  × (e.requests ≡ used)))
          → Counts used (admit other (current other now heap) heap) other
      tenant_turn same opened (inl shut) = absurd (false≢true (sym opened ∙ shut))
      tenant_turn same opened (inr (e, at, begins, is_used)) =
          subst (λ o. Counts used (admit o (current o now heap) heap) o) (sym same)
            (self-Counts used now heap e h at begins is_used (early same))

  release_lease-InWindow :
      (o : Option TenantLimitLease) (n used : ℕ) (heap : Heap)
      → InWindow tenant most window start used heap
      → InWindow tenant most window start used (release_lease o n heap)
  unfolding release_lease
  release_lease-InWindow none n used heap h = h
  release_lease-InWindow (some l) n used heap h =
      let limiter = heap.limiter in
      let entry = lookup l.tenant limiter.entries in
      let kept = give_back-settings l.tenant entry limiter in
      elim (Bool-cases l.released) [
        | inl done ↦ rw done h
        | inr out ↦ rw out (record {
          most_is = kept.0 ∙ h.most_is;
          window_is = kept.1 ∙ h.window_is;
          within = h.within;
          counted = elim h.counted [
            | inl shut ↦ inl (kept.2 ∙ shut)
            | inr (e, at, begins, is_used) ↦
                let (e', at', begins', used') =
                  give_back-keeps tenant l.tenant entry limiter e refl at in
                inr (e', at', begins' ∙ begins, used' ∙ is_used)
          ];
        })
      ]

  release-InWindow :
      (n used : ℕ) (heap : Heap)
      → InWindow tenant most window start used heap
      → InWindow tenant most window start used (release n heap)
  unfolding release
  release-InWindow n used heap h = release_lease-InWindow (lease_at n heap.leases) n used heap h

  acquire-Counts :
      (used : ℕ) (ctx : Context) (other : Text) (sampled wall : ℕ) (heap : Heap)
      → (other ≡ tenant → clock sampled wall < add_duration start window)
      → InWindow tenant most window start used heap
      → Counts used (acquire ctx other sampled wall heap) other
  unfolding acquire
  acquire-Counts used ctx other sampled wall heap early h =
      elim (Result-cases (context_err ctx >> validate_scoped_id other (codes "t_"))) [
        | inl (u, accepted) ↦
            rw accepted (locked-Counts used (clock sampled wall) heap other early h)
        | inr (e, refused) ↦ rw refused (refused-Counts used e heap other h)
      ]

  step-InWindow :
      (c : Call) (used : ℕ) (heap : Heap)
      → IsBefore tenant (add_duration start window) c
      → InWindow tenant most window start used heap
      → InWindow tenant most window start (used + admitted tenant c heap) (step c heap).1
  unfolding step admitted Counts close
  step-InWindow (acquiring ctx other sampled wall) used heap early h =
      acquire-Counts used ctx other sampled wall heap early h
  step-InWindow (releasing n) used heap early h =
      subst (λ k. InWindow tenant most window start k (release n heap)) (omega arith)
        (release-InWindow n used heap h)
  step-InWindow closing used heap early h = record {
    most_is = h.most_is;
    window_is = h.window_is;
    within = omega (arith, h.within);
    counted = inl refl;
  }

  run-InWindow :
      (cs : List Call) (used : ℕ) (heap : Heap)
      → All (IsBefore tenant (add_duration start window)) cs
      → InWindow tenant most window start used heap
      → used + admissions tenant cs heap ≤ most
  unfolding admissions
  run-InWindow [] used heap before h = omega (arith, h.within)
  run-InWindow (c ∷ cs) used heap before h = omega (
    arith,
    run-InWindow cs (used + admitted tenant c heap) (step c heap).1 before.1
        (step-InWindow c used heap before.0 h),
  )

-- Admissions within one window: as long as a tenant's acquisitions read a clock that is before the
-- end of the window of its entry, the limiter admits at most what is left of the request limit,
-- whatever other calls come in between, and also when that clock runs backwards.
pub window_budget :
    (tenant : Text) (e : TenantLimitEntry) (cs : List Call) (heap : Heap)
    → lookup tenant heap.limiter.entries ≡ some e
    → e.requests ≤ heap.limiter.max_requests
    → All (IsBefore tenant (add_duration e.window_start heap.limiter.window)) cs
    → e.requests + admissions tenant cs heap ≤ heap.limiter.max_requests
window_budget tenant e cs heap at small before =
    run-InWindow tenant heap.limiter.max_requests heap.limiter.window e.window_start cs e.requests
      heap before
      (record {
        most_is = refl;
        window_is = refl;
        within = small;
        counted = inr (e, at, refl, refl);
      })
