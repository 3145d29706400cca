-- ===== src/Gateway/Limits.antt =====
-- trpcservice/gateway/limits.go: the admission budget of a tenant. The limiter and the leases that
-- it hands out are one heap; a lease is named by its place in the list of leases. A method that
-- takes the mutex is one step. The counters stay below the limits, so they do not wrap.
use trpc_agent_service_platf.Gateway.Messages.{
  natural, or_default, invalid, clock, rate_limited, validate_scoped_id, not_ready, closed,
  context_err, Error,
}
use trpc_agent_service_platf.Base.Contexts.{Context}
use trpc_agent_service_platf.Base.{
  ◌++◌, ◌+◌, length, ◌||◌, zero, require, not, ◌-◌, suc, nat_eq, ltb, list_eq, leb, false, ◌>>◌,
  ◌==◌, ◌∷◌, true, some, ok, none, if◌then◌else◌, err, Bool, ℕ, [], Result, Option, List,
}
use trpc_agent_service_platf.Base.Text.{codes, Text}
use trpc_agent_service_platf.Base.Ints.{int_leb, int_eq, add_duration, negsuc, pos, ℤ}
use trpc_agent_service_platf.Base.Maps.{lookup, insert, Map}
pub mod Entries
pub mod Balance
pub mod Windows
pub mod Budget
pub mod Examples

pub record TenantLimiterConfig : Type 0 where
  pub max_concurrent : ℤ
  pub max_requests : ℤ
  pub window : ℤ

pub record TenantLimitEntry : Type 0 where
  pub window_start : ℕ
  pub requests : ℕ
  pub active : ℕ

pub record TenantLimiter : Type 0 where
  pub max_concurrent : ℕ
  pub max_requests : ℕ
  pub window : ℤ
  pub entries : Map Text TenantLimitEntry
  pub closed : Bool

-- `once` has run when `released` holds.
pub record TenantLimitLease : Type 0 where
  pub tenant : Text
  pub released : Bool

pub record Heap : Type 0 where
  pub limiter : TenantLimiter
  pub leases : List TenantLimitLease

unfoldable pub new_tenant_limiter : TenantLimiterConfig → Result Error TenantLimiter
new_tenant_limiter config = do
  let concurrent = or_default config.max_concurrent (pos 8)
  require (int_leb (pos 1) concurrent) invalid
  let requests = or_default config.max_requests (pos 60)
  require (int_leb (pos 1) requests) invalid
  let window = or_default config.window (pos 60000000000)
  require (int_leb (pos 0) window) invalid
  ok (record {
    max_concurrent = natural concurrent;
    max_requests = natural requests;
    window = window;
    entries = [];
    closed = false;
  })

abbrev pub new_heap : TenantLimiter → Heap
new_heap limiter = record { limiter = limiter; leases = [] }

-- A nil limiter is none.
abbrev pub ready : Option TenantLimiter → Bool
ready none = false
ready (some limiter) = not limiter.closed

-- The entry of the tenant, new or with its window moved on.
unfoldable pub renewed : ℤ → ℕ → Option TenantLimitEntry → TenantLimitEntry
renewed window now none = record { window_start = now; requests = 0; active = 0 }
renewed window now (some entry) =
    if ltb now (add_duration entry.window_start window)
    then entry
    else record entry { window_start = now; requests = 0 }

abbrev pub put : Text → TenantLimitEntry → TenantLimiter → TenantLimiter
put tenant entry limiter = record limiter { entries = insert tenant entry limiter.entries }

-- The tests on the entry, which is a pointer into the map.
unfoldable pub admit : Text → TenantLimitEntry → Heap → Result Error ℕ × Heap
admit tenant entry heap =
    let limiter = heap.limiter in
    if leb limiter.max_requests entry.requests || leb limiter.max_concurrent entry.active
    then (err rate_limited, record heap { limiter = put tenant entry limiter })
    else (
      ok (length heap.leases),
      record {
        limiter =
            put tenant (record entry { requests = entry.requests + 1; active = entry.active + 1 })
              limiter;
        leases = heap.leases ++ record { tenant = tenant; released = false } ∷ [];
      },
    )

-- What runs under the mutex.
unfoldable pub acquire_locked : Text → ℕ → Heap → Result Error ℕ × Heap
unfolding admit renewed
acquire_locked tenant now heap =
    let limiter = heap.limiter in
    if limiter.closed
    then (err closed, heap)
    else admit tenant (renewed limiter.window now (lookup tenant limiter.entries)) heap

abbrev if_ok : Result Error Unit → Heap → Result Error ℕ × Heap → Result Error ℕ × Heap
if_ok (ok u) heap r = r
if_ok (err e) heap r = (err e, heap)

-- The limiter's clock and the wall clock are read once each.
unfoldable pub acquire : Context → Text → ℕ → ℕ → Heap → Result Error ℕ × Heap
acquire ctx tenant sampled wall heap =
    if_ok (context_err ctx >> validate_scoped_id tenant (codes "t_")) heap
      (acquire_locked tenant (clock sampled wall) heap)

-- A nil limiter admits nothing.
abbrev pub acquire_pointer : Context → Text → ℕ → ℕ → Option Heap → Result Error ℕ × Option Heap
acquire_pointer ctx tenant sampled wall none = (err not_ready, none)
acquire_pointer ctx tenant sampled wall (some heap) =
    let r = acquire ctx tenant sampled wall heap in (r.0, some r.1)

-- The lease at a place; none stands for a nil lease.
unfoldable pub lease_at : ℕ → List TenantLimitLease → Option TenantLimitLease
lease_at n [] = none
lease_at zero (l ∷ ls) = some l
lease_at (suc n) (l ∷ ls) = lease_at n ls

unfoldable pub mark_released : ℕ → List TenantLimitLease → List TenantLimitLease
mark_released n [] = []
mark_released zero (l ∷ ls) = record l { released = true } ∷ ls
mark_released (suc n) (l ∷ ls) = l ∷ mark_released n ls

-- The body of the `once`.
unfoldable pub give_back : Text → Option TenantLimitEntry → TenantLimiter → TenantLimiter
give_back tenant none limiter = limiter
give_back tenant (some entry) limiter =
    if ltb 0 entry.active
    then put tenant (record entry { active = entry.active - 1 }) limiter
    else limiter

unfoldable pub release_lease : Option TenantLimitLease → ℕ → Heap → Heap
unfolding give_back mark_released
release_lease none n heap = heap
release_lease (some lease) n heap = if lease.released then heap else record {
  limiter = give_back lease.tenant (lookup lease.tenant heap.limiter.entries) heap.limiter;
  leases = mark_released n heap.leases;
}

unfoldable pub release : ℕ → Heap → Heap
unfolding release_lease lease_at
release n heap = release_lease (lease_at n heap.leases) n heap

unfoldable pub close : Heap → Heap
close heap = record heap { limiter = record heap.limiter { entries = []; closed = true } }

-- A call by any caller.
pub data Call : Type 0 where
  acquiring : Context → Text → ℕ → ℕ → Call
  releasing : ℕ → Call
  closing : Call

unfoldable pub step : Call → Heap → Result Error ℕ × Heap
step (acquiring ctx tenant sampled wall) heap = acquire ctx tenant sampled wall heap
step (releasing n) heap = (ok n, release n heap)
step closing heap = (ok 0, close heap)

unfoldable pub run : List Call → Heap → Heap
unfolding step
run [] heap = heap
run (c ∷ cs) heap = run cs (step c heap).1
