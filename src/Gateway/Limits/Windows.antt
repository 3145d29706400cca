-- ===== src/Gateway/Limits/Windows.antt =====
-- trpcservice/gateway/limits.go: the admissions of a tenant, and what a call does to its entry.
use trpc_agent_service_platf.Gateway.Messages.{clock, Error}
use trpc_agent_service_platf.Base.{
  none, ==_iff, ap, sym, ◌∙◌, inl, ◌||◌, inr, ltb, leb, refl, false, [], Bool-cases, ◌⊎◌, nat_eq,
  list_eq, err, ◌-◌, true, some, ==_refl, ==_ne, ◌==◌, ◌<◌, ◌+◌, ◌∷◌, ◌≤◌, ok, arith, ◌&&◌, ◌≢◌,
  ◌≡◌, if◌then◌else◌, Bool, ℕ, Option, List, Result,
}
use trpc_agent_service_platf.Base.Text.{Text}
use trpc_agent_service_platf.Gateway.Limits.{
  step, closing, releasing, acquire, acquiring, TenantLimiter, Heap, TenantLimitEntry, Call,
  renewed, give_back, admit,
}
use trpc_agent_service_platf.Base.Ints.{add_duration, ℤ}
use trpc_agent_service_platf.Base.Maps.{lookup-insert_self, lookup-insert, lookup-insert_ne, lookup}
use mathlib.Core.Option.{some-injective}
use trpc_agent_service_platf.Gateway.Limits.Balance.{current}

abbrev pub is_admitted : Result Error ℕ → Bool
is_admitted (ok n) = true
is_admitted (err e) = false

abbrev pub taken : Text → Text → Result Error ℕ → ℕ
taken tenant other r = if is_admitted r && other == tenant then 1 else 0

-- One if the call is an acquisition of the tenant that succeeds.
unfoldable pub admitted : Text → Call → Heap → ℕ
admitted tenant (acquiring ctx other sampled wall) heap =
    taken tenant other (acquire ctx other sampled wall heap).0
admitted tenant (releasing n) heap = 0
admitted tenant closing heap = 0

unfoldable pub admissions : Text → List Call → Heap → ℕ
unfolding admitted
admissions tenant [] heap = 0
admissions tenant (c ∷ cs) heap = admitted tenant c heap + admissions tenant cs (step c heap).1

-- The tenant's acquisitions read a clock that is before the deadline.
abbrev pub IsBefore : Text → ℕ → Call → Type 0
IsBefore tenant deadline (acquiring ctx other sampled wall) =
    other ≡ tenant → clock sampled wall < deadline
IsBefore tenant deadline (releasing n) = Unit
IsBefore tenant deadline closing = Unit

-- The limiter is closed, or the tenant's window began then and has this many requests.
pub record InWindow (tenant : Text) (most : ℕ) (window : ℤ) (start used : ℕ) (heap : Heap)
    : Type 0 where
  pub most_is : heap.limiter.max_requests ≡ most
  pub window_is : heap.limiter.window ≡ window
  pub within : used ≤ most
  pub counted :
      (heap.limiter.closed ≡ true)
      ⊎ ((e : TenantLimitEntry) × (lookup tenant heap.limiter.entries ≡ some e)
          × (e.window_start ≡ start)
          × (e.requests ≡ used))

pub admit-other :
    (tenant other : Text) (entry : TenantLimitEntry) (heap : Heap)
    → other ≢ tenant
    → lookup tenant (admit other entry heap).1.limiter.entries ≡ lookup tenant heap.limiter.entries
unfolding admit
admit-other tenant other entry heap ne = ground (
  arith,
  lookup-insert_ne other tenant entry heap.limiter.entries ne,
  lookup-insert_ne other tenant
      (record entry { requests = entry.requests + 1; active = entry.active + 1 })
      heap.limiter.entries ne,
)

pub admit-settings :
    (tenant : Text) (entry : TenantLimitEntry) (heap : Heap)
    → ((admit tenant entry heap).1.limiter.max_requests ≡ heap.limiter.max_requests)
      × ((admit tenant entry heap).1.limiter.window ≡ heap.limiter.window)
unfolding admit
admit-settings tenant entry heap = (ground arith, ground arith)

pub admit-closed :
    (tenant : Text) (entry : TenantLimitEntry) (heap : Heap)
    → (admit tenant entry heap).1.limiter.closed ≡ heap.limiter.closed
unfolding admit
admit-closed tenant entry heap = ground arith

-- What an acquisition adds to the tenant's entry.
pub admit_self :
    (tenant : Text) (entry : TenantLimitEntry) (heap : Heap)
    → (e : TenantLimitEntry) × (lookup tenant (admit tenant entry heap).1.limiter.entries ≡ some e)
      × (e.window_start ≡ entry.window_start)
      × (e.requests ≡ entry.requests + (if is_admitted (admit tenant entry heap).0 then 1 else 0))
      × (e.requests ≤ entry.requests ⊎ e.requests ≤ heap.limiter.max_requests)
unfolding admit
admit_self tenant entry heap =
    let limiter = heap.limiter in
    let more = record entry { requests = entry.requests + 1; active = entry.active + 1 } in
    elim (Bool-cases
      (leb limiter.max_requests entry.requests || leb limiter.max_concurrent entry.active)) [
        | inl full ↦ rw full (
          entry,
          lookup-insert_self tenant entry limiter.entries,
          refl,
          omega arith,
          inl (omega arith),
        )
        | inr free ↦
            rw free
              (more, lookup-insert_self tenant more limiter.entries, refl, refl, inr (ground arith))
      ]

pub current-same :
    (tenant : Text) (now : ℕ) (heap : Heap) (e : TenantLimitEntry)
    → lookup tenant heap.limiter.entries ≡ some e
    → now < add_duration e.window_start heap.limiter.window
    → current tenant now heap ≡ e
unfolding renewed
current-same tenant now heap e at early = rw at (ground arith)

pub taken_self :
    (tenant : Text) (r : Result Error ℕ) → taken tenant tenant r ≡ (if is_admitted r then 1 else 0)
taken_self tenant (ok n) = rw (==_refl tenant) refl
taken_self tenant (err e) = refl

pub taken-other :
    (tenant other : Text) (r : Result Error ℕ) → other ≢ tenant → taken tenant other r ≡ 0
taken-other tenant other (ok n) ne = rw (==_ne other tenant ne) refl
taken-other tenant other (err e) ne = refl

pub give_back-settings :
    (other : Text) (o : Option TenantLimitEntry) (limiter : TenantLimiter)
    → ((give_back other o limiter).max_requests ≡ limiter.max_requests)
      × ((give_back other o limiter).window ≡ limiter.window)
      × ((give_back other o limiter).closed ≡ limiter.closed)
unfolding give_back
give_back-settings other none limiter = (refl, refl, refl)
give_back-settings other (some x) limiter = (ground arith, ground arith, ground arith)

-- A release leaves the window and the requests of every entry as they are.
pub give_back-keeps :
    (tenant other : Text) (o : Option TenantLimitEntry) (limiter : TenantLimiter)
    (e : TenantLimitEntry)
    → lookup other limiter.entries ≡ o
    → lookup tenant limiter.entries ≡ some e
    → (e' : TenantLimitEntry) × (lookup tenant (give_back other o limiter).entries ≡ some e')
      × (e'.window_start ≡ e.window_start)
      × (e'.requests ≡ e.requests)
unfolding give_back
give_back-keeps tenant other none limiter e at here = (e, here, refl, refl)
give_back-keeps tenant other (some x) limiter e at here =
    let less = record x { active = x.active - 1 } in
    elim (Bool-cases (ltb 0 x.active)) [
      | inr idle ↦ rw idle (e, here, refl, refl)
      | inl busy ↦ elim (Bool-cases (other == tenant)) [
        | inl same ↦
            let stored = lookup-insert other tenant less limiter.entries ∙ rw same refl in
            let is_e =
              some-injective x e (
                sym at
                ∙ ap (λ k. lookup k limiter.entries) ((==_iff other tenant).0 same)
                ∙ here) in
            rw busy (less, stored, ap (λ y. y.window_start) is_e, ap (λ y. y.requests) is_e)
        | inr ne ↦
            let stored = lookup-insert other tenant less limiter.entries ∙ rw ne here in
            rw busy (e, stored, refl, refl)
      ]
    ]
