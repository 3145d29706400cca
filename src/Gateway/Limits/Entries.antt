-- ===== src/Gateway/Limits/Entries.antt =====
-- trpcservice/gateway/limits.go: the entries of the limiter against the leases that are out.
use trpc_agent_service_platf.Base.{
  zero, true, ◌∙◌, suc, inr, ◌&&◌, refl, not, inl, ap, [], ◌∷◌, ◌⊎◌, sym, none, nat_eq, list_eq,
  arith, ◌==◌, ◌++◌, ◌+◌, ◌≤◌, some, if◌then◌else◌, false, ◌≡◌, ℕ, List, Option, Bool,
}
use trpc_agent_service_platf.Gateway.Limits.{
  put, TenantLimitLease, mark_released, TenantLimitEntry, renewed, lease_at, TenantLimiter, Heap,
}
use trpc_agent_service_platf.Base.Text.{Text}
use trpc_agent_service_platf.Base.Ints.{ℤ}
use trpc_agent_service_platf.Base.Maps.{lookup-insert, lookup}

-- The leases of a tenant that are not released.
unfoldable pub outstanding : Text → List TenantLimitLease → ℕ
outstanding tenant [] = 0
outstanding tenant (l ∷ ls) =
    let rest = outstanding tenant ls in
    if not l.released && l.tenant == tenant then suc rest else rest

abbrev pub active_of : Option TenantLimitEntry → ℕ
active_of none = 0
active_of (some entry) = entry.active

abbrev pub IsWithin : TenantLimiter → TenantLimitEntry → Type 0
IsWithin limiter entry =
    (entry.active ≤ limiter.max_concurrent) × (entry.requests ≤ limiter.max_requests)

abbrev pub IsBounded : TenantLimiter → Type 0
IsBounded limiter =
    (tenant : Text) (entry : TenantLimitEntry)
    → lookup tenant limiter.entries ≡ some entry
    → IsWithin limiter entry

abbrev pub IsCounted : Heap → Type 0
IsCounted heap =
    (tenant : Text)
    → heap.limiter.closed ≡ false
    → active_of (lookup tenant heap.limiter.entries) ≡ outstanding tenant heap.leases

-- No tenant is over its limits, and as long as the limiter is open, what an entry counts as active
-- are the leases that are out.
abbrev pub IsBalanced : Heap → Type 0
IsBalanced heap = IsBounded heap.limiter × IsCounted heap

pub outstanding-append :
    (tenant : Text) (ls : List TenantLimitLease) (l : TenantLimitLease)
    → outstanding tenant (ls ++ l ∷ []) ≡ outstanding tenant ls + outstanding tenant (l ∷ [])
unfolding outstanding
outstanding-append tenant [] l = ground arith
outstanding-append tenant (m ∷ ls) l = ground (arith, outstanding-append tenant ls l)

pub outstanding-mark_released :
    (tenant : Text) (n : ℕ) (ls : List TenantLimitLease) (l : TenantLimitLease)
    → lease_at n ls ≡ some l
    → l.released ≡ false
    → outstanding tenant ls
      ≡ outstanding tenant (mark_released n ls) + (if l.tenant == tenant then 1 else 0)
unfolding outstanding lease_at mark_released
outstanding-mark_released tenant n [] l at out = cc
outstanding-mark_released tenant zero (m ∷ ls) l at out =
    let same : m ≡ l = cc in ground (arith, ap (λ x. x.released) same, ap (λ x. x.tenant) same)
outstanding-mark_released tenant (suc n) (m ∷ ls) l at out =
    ground (arith, outstanding-mark_released tenant n ls l at out)

-- What a map holds after an insertion is the new entry or an old one.
chosen :
    (b : Bool) (entry e : TenantLimitEntry) (o : Option TenantLimitEntry)
    → (if b then some entry else o) ≡ some e
    → (entry ≡ e) ⊎ (o ≡ some e)
chosen true entry e o h = inl (cc)
chosen false entry e o h = inr h

pub put-IsBounded :
    (tenant : Text) (entry : TenantLimitEntry) (limiter : TenantLimiter)
    → IsWithin limiter entry
    → IsBounded limiter
    → IsBounded (put tenant entry limiter)
put-IsBounded tenant entry limiter here h other e at =
    let found = sym (lookup-insert tenant other entry limiter.entries) ∙ at in
    elim (chosen (tenant == other) entry e (lookup other limiter.entries) found) [
      | inl new ↦
          let same_active = ap (λ x. x.active) new in
          let same_requests = ap (λ x. x.requests) new in
          (omega (arith, same_active, here.0), omega (arith, same_requests, here.1))
      | inr old ↦ h other e old
    ]

pub renewed-IsWithin :
    (limiter : TenantLimiter) (now : ℕ) (o : Option TenantLimitEntry)
    → ((e : TenantLimitEntry) → o ≡ some e → IsWithin limiter e)
    → IsWithin limiter (renewed limiter.window now o)
unfolding renewed
renewed-IsWithin limiter now none h = (omega arith, omega arith)
renewed-IsWithin limiter now (some e) h = ground (arith, h e refl)

pub renewed-active :
    (window : ℤ) (now : ℕ) (o : Option TenantLimitEntry)
    → (renewed window now o).active ≡ active_of o
unfolding renewed
renewed-active window now none = refl
renewed-active window now (some entry) = ground arith

pub put-active :
    (tenant other : Text) (entry : TenantLimitEntry) (limiter : TenantLimiter)
    → active_of (lookup other (put tenant entry limiter).entries)
      ≡ (if tenant == other then entry.active else active_of (lookup other limiter.entries))
put-active tenant other entry limiter =
    ground (arith, lookup-insert tenant other entry limiter.entries)
