-- ===== src/Runtime/Queue/Worker/Backoff.antt =====
-- trpcservice/runtime/queue/queue.go: the worker's retry delays.
use trpc_agent_service_platf.Runtime.Queue.Worker.{
  or_default, new_worker, backoff_loop, backoff, Worker, Config,
}
use trpc_agent_service_platf.Base.{
  if◌then◌else◌, ltb, ◌/◌, zero, ◌^◌, ◌-◌, ◌%◌, ◌*◌, arith, suc, ok, ◌≤◌, ◌≡◌, ℕ, ◌<◌,
}
use trpc_agent_service_platf.Base.Ints.{negsuc, ℤ, IsInt64, max_int64, pos}

-- What New makes sure of, with the durations in the range of int64.
pub record HasBackoff (w : Worker) : Type 0 where
  pub positive : 0 < w.backoff_base
  pub ordered : w.backoff_base ≤ w.backoff_max
  pub in_range : w.backoff_max ≤ max_int64

backoff_loop_bounds :
    (limit rounds d : ℕ)
    → limit ≤ max_int64
    → d ≤ limit
    → (d ≤ backoff_loop limit rounds d) × (backoff_loop limit rounds d ≤ limit)
unfolding backoff_loop
backoff_loop_bounds limit zero d r h = ground arith
backoff_loop_bounds limit (suc n) d r h =
    ground (arith, backoff_loop_bounds limit n (d * 2 % 2 ^ 64) r)

-- The delay after one more round.
abbrev grown : ℕ → ℕ → ℕ
grown limit d = if ltb d (limit / 2) then 2 * d else limit

backoff_loop_grows :
    (limit rounds d : ℕ)
    → limit ≤ max_int64
    → d ≤ limit
    → backoff_loop limit (suc rounds) d ≡ grown limit (backoff_loop limit rounds d)
unfolding backoff_loop
backoff_loop_grows limit zero d r h = ground arith
backoff_loop_grows limit (suc n) d r h =
    ground (arith, backoff_loop_grows limit n (d * 2 % 2 ^ 64) r)

or_default_in_range : (v : ℤ) (d : ℕ) → IsInt64 v → d ≤ max_int64 → or_default v d ≤ max_int64
or_default_in_range (pos zero) d h k = k
or_default_in_range (pos (suc n)) d h k = h
or_default_in_range (negsuc n) d h k = k

or_default_positive : (v : ℤ) (d : ℕ) → 0 < d → 0 < or_default v d
or_default_positive (pos zero) d h = h
or_default_positive (pos (suc n)) d h = omega arith
or_default_positive (negsuc n) d h = h

new_worker-HasBackoff :
    (c : Config) (w : Worker) → IsInt64 c.backoff_max → new_worker c ≡ ok w → HasBackoff w
unfolding new_worker
new_worker-HasBackoff c w r e = record {
  positive = ground (arith, or_default_positive c.backoff_base 100000000 (omega arith));
  ordered = ground arith;
  in_range = ground (arith, or_default_in_range c.backoff_max 10000000000 r (omega arith));
}

backoff_grows :
    (w : Worker) (n : ℕ)
    → HasBackoff w
    → backoff w (pos (suc (suc n))) ≡ grown w.backoff_max (backoff w (pos (suc n)))
unfolding backoff
backoff_grows w n h =
    let e : suc (suc n) - 1 ≡ suc n = omega arith in
    let e' : suc n - 1 ≡ n = omega arith in
    rw (e, e') (backoff_loop_grows w.backoff_max n w.backoff_base h.in_range h.ordered)

-- The delays of a worker that New has accepted: each lies between the base and the maximum, which
-- are positive; the first is the base; and each further one is exactly twice the one before while
-- that is below half of the maximum (rounded down), and the maximum from then on.
pub backoff_doubles :
    (c : Config) (w : Worker) (n : ℕ)
    → IsInt64 c.backoff_max
    → new_worker c ≡ ok w
    → (0 < w.backoff_base)
      × (w.backoff_base ≤ backoff w (pos n))
      × (backoff w (pos n) ≤ w.backoff_max)
      × (backoff w (pos 1) ≡ w.backoff_base)
      × (backoff w (pos (suc (suc n))) ≡ (
          if ltb (backoff w (pos (suc n))) (w.backoff_max / 2)
          then 2 * backoff w (pos (suc n))
          else w.backoff_max))
unfolding backoff
backoff_doubles c w n r e =
    let h = new_worker-HasBackoff c w r e in
    let b = backoff_loop_bounds w.backoff_max (n - 1) w.backoff_base h.in_range h.ordered in
    (h.positive, b.0, b.1, ground arith, backoff_grows w n h)
