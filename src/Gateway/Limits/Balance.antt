-- ===== src/Gateway/Limits/Balance.antt =====
-- trpcservice/gateway/limits.go: the entries count the leases that are out, within the limits.
use trpc_agent_service_platf.Gateway.Messages.{clock, validate_scoped_id, context_err, closed}
use trpc_agent_service_platf.Base.Text.{codes, Text}
use trpc_agent_service_platf.Gateway.Limits.{
  closing, releasing, new_heap, renewed, acquiring, lease_at, TenantLimiter, TenantLimitEntry,
  TenantLimiterConfig, TenantLimitLease, Heap, Call, step, run, release_lease, release,
  new_tenant_limiter, give_back, close, admit, acquire_locked, acquire,
}
use trpc_agent_service_platf.Base.Maps.{lookup}
use trpc_agent_service_platf.Base.Contexts.{Context}
use trpc_agent_service_platf.Base.{
  ◌+◌, ◌∙◌, ==_iff, sym, ◌==◌, ◌||◌, refl, none, inr, if◌then◌else◌, ◌>>◌, nat_eq, ltb, list_eq,
  leb, inl, err, arith, ap, [], ◌-◌, ◌∷◌, true, some, ok, false, Result-cases, Option-cases,
  Bool-cases, ◌≡◌, ℕ, Option, List,
}
use trpc_agent_service_platf.Gateway.Limits.Entries.{
  outstanding-append, outstanding-mark_released, renewed-active, renewed-IsWithin, put-active,
  put-IsBounded, active_of, IsWithin, IsBounded, IsBalanced, outstanding,
}

admit-IsBalanced :
    (tenant : Text) (entry : TenantLimitEntry) (heap : Heap)
    → IsWithin heap.limiter entry
    → entry.active ≡ active_of (lookup tenant heap.limiter.entries)
    → IsBalanced heap
    → IsBalanced (admit tenant entry heap).1
unfolding admit outstanding
admit-IsBalanced tenant entry heap here same h =
    let limiter = heap.limiter in
    elim (Bool-cases
      (leb limiter.max_requests entry.requests || leb limiter.max_concurrent entry.active)) [
        | inl full ↦ rw full (
          put-IsBounded tenant entry limiter here h.0,
          λ t opened.
              ground
                (arith, put-active tenant t entry limiter, h.1 t opened, same, ==_iff tenant t),
        )
        | inr free ↦
            let taken = record entry { requests = entry.requests + 1; active = entry.active + 1 } in
            rw free (
              put-IsBounded tenant taken limiter (ground arith, ground arith) h.0,
              λ t opened. ground (
                arith,
                put-active tenant t taken limiter,
                h.1 t opened,
                same,
                ==_iff tenant t,
                outstanding-append t heap.leases (record { tenant = tenant; released = false }),
              ),
            )
      ]

-- The entry that the tests of an acquisition look at.
abbrev pub current : Text → ℕ → Heap → TenantLimitEntry
current tenant now heap = renewed heap.limiter.window now (lookup tenant heap.limiter.entries)

pub acquire_locked-closed :
    (tenant : Text) (now : ℕ) (heap : Heap)
    → heap.limiter.closed ≡ true
    → acquire_locked tenant now heap ≡ (err closed, heap)
unfolding acquire_locked
acquire_locked-closed tenant now heap shut =
    ap (λ b. if b then (err closed, heap) else admit tenant (current tenant now heap) heap) shut

pub acquire_locked-opened :
    (tenant : Text) (now : ℕ) (heap : Heap)
    → heap.limiter.closed ≡ false
    → acquire_locked tenant now heap ≡ admit tenant (current tenant now heap) heap
unfolding acquire_locked
acquire_locked-opened tenant now heap opened =
    ap (λ b. if b then (err closed, heap) else admit tenant (current tenant now heap) heap) opened

locked-IsBalanced :
    (tenant : Text) (now : ℕ) (heap : Heap)
    → IsBalanced heap
    → IsBalanced (acquire_locked tenant now heap).1
locked-IsBalanced tenant now heap h =
    let entry = lookup tenant heap.limiter.entries in
    elim (Bool-cases heap.limiter.closed) [
      | inl shut ↦ rw (acquire_locked-closed tenant now heap shut) h
      | inr opened ↦ rw (acquire_locked-opened tenant now heap opened) (
          admit-IsBalanced tenant (current tenant now heap) heap
            (renewed-IsWithin heap.limiter now entry (h.0 tenant))
            (renewed-active heap.limiter.window now entry) h)
    ]

acquire-IsBalanced :
    (ctx : Context) (tenant : Text) (sampled wall : ℕ) (heap : Heap)
    → IsBalanced heap
    → IsBalanced (acquire ctx tenant sampled wall heap).1
unfolding acquire
acquire-IsBalanced ctx tenant sampled wall heap h =
    elim (Result-cases (context_err ctx >> validate_scoped_id tenant (codes "t_"))) [
      | inl (u, accepted) ↦ rw accepted (locked-IsBalanced tenant (clock sampled wall) heap h)
      | inr (e, refused) ↦ rw refused h
    ]

give_back-active :
    (tenant other : Text) (o : Option TenantLimitEntry) (limiter : TenantLimiter)
    → lookup tenant limiter.entries ≡ o
    → active_of (lookup other (give_back tenant o limiter).entries)
      ≡ active_of (lookup other limiter.entries) - (if tenant == other then 1 else 0)
unfolding give_back
give_back-active tenant other none limiter at = ground (arith, ==_iff tenant other)
give_back-active tenant other (some entry) limiter at =
    let less = record entry { active = entry.active - 1 } in
    ground (arith, ==_iff tenant other, put-active tenant other less limiter)

give_back-IsBounded :
    (tenant : Text) (o : Option TenantLimitEntry) (limiter : TenantLimiter)
    → lookup tenant limiter.entries ≡ o
    → IsBounded limiter
    → IsBounded (give_back tenant o limiter)
unfolding give_back
give_back-IsBounded tenant none limiter at h = h
give_back-IsBounded tenant (some entry) limiter at h = elim (Bool-cases (ltb 0 entry.active)) [
  | inl held ↦
      let here = h tenant entry at in
      rw held (
        put-IsBounded tenant (record entry { active = entry.active - 1 }) limiter
          (omega (arith, here.0), here.1) h)
  | inr free ↦ rw free h
]

give_back-closed :
    (tenant : Text) (o : Option TenantLimitEntry) (limiter : TenantLimiter)
    → (give_back tenant o limiter).closed ≡ limiter.closed
unfolding give_back
give_back-closed tenant none limiter = refl
give_back-closed tenant (some entry) limiter = ground arith

release_lease-IsBalanced :
    (l : TenantLimitLease) (n : ℕ) (heap : Heap)
    → lease_at n heap.leases ≡ some l
    → IsBalanced heap
    → IsBalanced (release_lease (some l) n heap)
unfolding release_lease
release_lease-IsBalanced l n heap found h =
    let limiter = heap.limiter in
    let entry = lookup l.tenant limiter.entries in
    elim (Bool-cases l.released) [
      | inl done ↦ rw done h
      | inr out ↦ rw out (
        give_back-IsBounded l.tenant entry limiter refl h.0,
        λ t opened.
            let still = sym (give_back-closed l.tenant entry limiter) ∙ opened in
            ground (
              arith,
              give_back-active l.tenant t entry limiter refl,
              h.1 t still,
              outstanding-mark_released t n heap.leases l found out,
            ),
      )
    ]

release-IsBalanced : (n : ℕ) (heap : Heap) → IsBalanced heap → IsBalanced (release n heap)
unfolding release
release-IsBalanced n heap h = elim (Option-cases (lease_at n heap.leases)) [
  | inl missing ↦ rw missing h
  | inr (l, found) ↦ rw found (release_lease-IsBalanced l n heap found h)
]

close-IsBalanced : (heap : Heap) → IsBalanced (close heap)
unfolding close lookup
close-IsBalanced heap = (λ t e k. absurd (cc), λ t k. absurd (cc))

-- Every call keeps the limiter balanced.
pub step-IsBalanced : (c : Call) (heap : Heap) → IsBalanced heap → IsBalanced (step c heap).1
unfolding step
step-IsBalanced (acquiring ctx tenant sampled wall) heap h =
    acquire-IsBalanced ctx tenant sampled wall heap h
step-IsBalanced (releasing n) heap h = release-IsBalanced n heap h
step-IsBalanced closing heap h = close-IsBalanced heap

run_from-IsBalanced : (cs : List Call) (heap : Heap) → IsBalanced heap → IsBalanced (run cs heap)
unfolding run
run_from-IsBalanced [] heap h = h
run_from-IsBalanced (c ∷ cs) heap h =
    run_from-IsBalanced cs (step c heap).1 (step-IsBalanced c heap h)

new_tenant_limiter-empty :
    (config : TenantLimiterConfig) (limiter : TenantLimiter)
    → new_tenant_limiter config ≡ ok limiter
    → limiter.entries ≡ []
unfolding new_tenant_limiter
new_tenant_limiter-empty config limiter made = ground arith

-- From a limiter that NewTenantLimiter returns, after any calls in any order, no tenant has more
-- active requests than the concurrency limit or more requests in its window than the request limit,
-- and while the limiter is open the active count of a tenant is the number of its leases that are
-- not released; so a lease gives its slot back once, however often it is released.
pub run-IsBalanced :
    (config : TenantLimiterConfig) (limiter : TenantLimiter) (cs : List Call)
    → new_tenant_limiter config ≡ ok limiter
    → IsBalanced (run cs (new_heap limiter))
unfolding lookup outstanding
run-IsBalanced config limiter cs made =
    let empty = new_tenant_limiter-empty config limiter made in
    run_from-IsBalanced cs (new_heap limiter)
      (rw empty (λ t e at. absurd (cc)), rw empty (λ t opened. refl))
