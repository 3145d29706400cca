-- ===== src/Gateway/Limits/Examples.antt =====
-- trpcservice/gateway/limits.go: a limiter of two concurrent and three requests per window.
use trpc_agent_service_platf.Base.{
  ==_refl, arith, ◌≤◌, ◌+◌, nat_eq, list_eq, some, list_beq, refl, false, ◌∷◌, ok, [], ◌≡◌, ℕ, List,
}
use trpc_agent_service_platf.Gateway.Limits.{
  TenantLimitEntry, Heap, lease_at, mark_released, give_back, release_lease, release, renewed,
  admit, releasing, acquire_locked, acquiring, acquire, step, new_heap, Call, run,
  new_tenant_limiter, TenantLimiterConfig, TenantLimiter,
}
use trpc_agent_service_platf.Base.Text.{
  contains_rune, all_in, has_prefix, trim_prefix, rune_len, byte_len, codes, Text,
}
use trpc_agent_service_platf.Base.Ints.{pos}
use trpc_agent_service_platf.Base.Contexts.{background}
use trpc_agent_service_platf.Base.Maps.{insert, lookup}
use trpc_agent_service_platf.Gateway.Messages.{validate_scoped_id}
use trpc_agent_service_platf.Gateway.Limits.Windows.{admissions}
use trpc_agent_service_platf.Gateway.Limits.Budget.{window_budget}
use trpc_agent_service_platf.Gateway.Limits.Entries.{IsBalanced}
use trpc_agent_service_platf.Gateway.Limits.Balance.{run-IsBalanced}

abbrev config : TenantLimiterConfig
config = record { max_concurrent = pos 2; max_requests = pos 3; window = pos 100 }

abbrev limiter : TenantLimiter
limiter = record {
  max_concurrent = 2;
  max_requests = 3;
  window = pos 100;
  entries = [];
  closed = false;
}

abbrev tenant_id : Text
tenant_id = codes "t_01ARZ3NDEKTSV4RRFFQ69G5FAV"

abbrev ask : ℕ → Call
ask now = acquiring background tenant_id now 1

-- Two leases are out, a third is refused, one lease is given back twice, and one more is admitted.
abbrev calls : List Call
calls = ask 10 ∷ ask 11 ∷ ask 12 ∷ releasing 0 ∷ releasing 0 ∷ ask 13 ∷ []

limiter-made : new_tenant_limiter config ≡ ok limiter
unfolding new_tenant_limiter
limiter-made = refl

calls-entry :
    lookup tenant_id (run calls (new_heap limiter)).limiter.entries
    ≡ some (record { window_start = 10; requests = 3; active = 2 })
unfolding run step acquire acquire_locked admit renewed release release_lease give_back
    mark_released lease_at lookup insert validate_scoped_id byte_len rune_len trim_prefix has_prefix
    all_in contains_rune list_beq
calls-entry = refl

run-IsBalanced_example : IsBalanced (run calls (new_heap limiter))
run-IsBalanced_example = run-IsBalanced config limiter calls limiter-made

abbrev entry : TenantLimitEntry
entry = record { window_start = 10; requests = 1; active = 1 }

abbrev running : Heap
running = record {
  limiter = record limiter { entries = (tenant_id, entry) ∷ [] };
  leases = record { tenant = tenant_id; released = false } ∷ [];
}

abbrev rush : List Call
rush = ask 20 ∷ releasing 0 ∷ ask 15 ∷ ask 30 ∷ []

window_budget_example : 1 + admissions tenant_id rush running ≤ 3
unfolding lookup
window_budget_example =
    window_budget tenant_id entry rush running found (omega arith)
      (λ _. omega arith, (tt, (λ _. omega arith, (λ _. omega arith, tt))))
  where
    found : lookup tenant_id running.limiter.entries ≡ some entry
    found = ground (arith, ==_refl tenant_id)
