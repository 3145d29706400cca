-- ===== src/Tenant/Repository/Versions.antt =====
-- trpcservice/tenant/inmemory/inmemory.go: a version can be changed from once.
use trpc_agent_service_platf.Tenant.Roots.{Tenant}
use trpc_agent_service_platf.Base.Text.{Text}
use trpc_agent_service_platf.Tenant.Repository.{
  transition_status, StatusChangeEvent, transitions, put, after, update_configuration, updates,
  creates, Repository, Call, step, run,
}
use trpc_agent_service_platf.Base.{
  refl, [], suc, ◌∷◌, arith, ◌∙◌, sym, subst, ap, ◌≤◌, ok, nat_eq, list_eq, some, length, ◌<◌, ◌+◌,
  ◌≡◌, ℕ, List,
}
use trpc_agent_service_platf.Base.Ints.{pos-injective, max_int64, incr, pos, ℤ}
use trpc_agent_service_platf.Tenant.Repository.Invariant.{IsWellFormed, IsMutable}
use trpc_agent_service_platf.Base.Maps.{lookup-insert_self, lookup}
use trpc_agent_service_platf.Tenant.Repository.Steps.{
  incr-small, transition_status-IsTransition, update_configuration-IsUpdate,
}
use trpc_agent_service_platf.Base.Sorting.{All}
use trpc_agent_service_platf.Tenant.Repository.Lifecycle.{call-Moves}
use trpc_agent_service_platf.Tenant.Repository.Changes.{moves, configures, stays, TenantStep}
use trpc_agent_service_platf.Tenant.Repository.Runs.{step-IsWellFormed, IsTimely}
use mathlib.Core.Option.{some-injective}

-- The call changes this tenant from this version, and succeeds.
abbrev pub Succeeds : Text → ℤ → Call → Repository → Type 0
Succeeds id v (creates ctx ms random now input) r = ⊥
Succeeds id v (updates ctx now input) r =
    (input.tenant_id ≡ id)
    × (input.expected_version ≡ v)
    × (done : Tenant × Repository) × (update_configuration ctx now input r ≡ ok done)
Succeeds id v (transitions ctx now input) r =
    (input.tenant_id ≡ id)
    × (input.expected_version ≡ v)
    × (done : (Tenant × StatusChangeEvent) × Repository) × (transition_status ctx now input r
        ≡ ok done)

-- The tenant's version is at least this one.
IsAt : Text → ℕ → Repository → Type 0
IsAt id k r = (t : Tenant) × (j : ℕ) × (lookup id r.by_id ≡ some t) × (t.version ≡ pos j) × (k ≤ j)

-- A change that succeeds starts from the version that it names, and leaves the next one.
record IsChange (id : Text) (v : ℤ) (r r' : Repository) : Type 0 where
  before : Tenant
  start : IsMutable id v r before
  result : Tenant
  stored : lookup id r'.by_id ≡ some result
  next : result.version ≡ incr before.version

put-IsChange :
    (id other : Text) (v w : ℤ) (t t' : Tenant) (r r' : Repository)
    → other ≡ id
    → w ≡ v
    → IsMutable other w r t
    → t'.version ≡ incr t.version
    → r' ≡ put t' other r
    → IsChange id v r r'
put-IsChange id other v w t t' r r' same expected start next stored = record {
  before = t;
  start = subst (λ x. IsMutable x v r t) same (subst (λ x. IsMutable other x r t) expected start);
  result = t';
  stored =
      ap (λ x. lookup x r'.by_id) (sym same)
      ∙ ap (λ x. lookup other x.by_id) stored
      ∙ lookup-insert_self other t' r.by_id;
  next = next;
}

Succeeds-IsChange :
    (id : Text) (v : ℤ) (c : Call) (r : Repository) → Succeeds id v c r → IsChange id v r (step c r)
unfolding step
Succeeds-IsChange id v (creates ctx ms random now input) r s = absurd s
Succeeds-IsChange id v (updates ctx now input) r (same, expected, (t', r'), done) =
    let u = update_configuration-IsUpdate ctx now input r r' t' done in
    put-IsChange id input.tenant_id v input.expected_version u.t _ r
      (after r (update_configuration ctx now input r)) same expected u.before refl
      (ap (after r) done ∙ u.stored)
Succeeds-IsChange id v (transitions ctx now input) r (same, expected, ((t', event), r'), done) =
    let m = transition_status-IsTransition ctx now input r r' t' event done in
    put-IsChange id input.tenant_id v input.expected_version m.t _ r
      (after r (transition_status ctx now input r)) same expected m.before refl
      (ap (after r) done ∙ m.stored)

TenantStep-IsAt :
    (id : Text) (c : Call) (t t' : Tenant) (j : ℕ)
    → t.version ≡ pos j
    → j < max_int64
    → TenantStep id c t t'
    → (l : ℕ) × (t'.version ≡ pos l) × (j ≤ l)
TenantStep-IsAt id c t t' j is small (stays same) = (j, ap (λ x. x.version) same ∙ is, omega arith)
TenantStep-IsAt id c t t' j is small (configures ctx now input call new) =
    (j + 1, new.changed.next_version ∙ ap incr is ∙ incr-small j small, omega arith)
TenantStep-IsAt id c t t' j is small (moves ctx now input call new) =
    (j + 1, new.changed.next_version ∙ ap incr is ∙ incr-small j small, omega arith)

run-IsAt :
    (cs : List Call) (id : Text) (k n : ℕ) (r : Repository)
    → n + length cs + 1 < max_int64
    → All IsTimely cs
    → IsWellFormed n r
    → IsAt id k r
    → IsAt id k (run cs r)
unfolding run IsAt
run-IsAt [] id k n r small timely w at = at
run-IsAt (c ∷ cs) id k n r small timely w (t, j, found, is, le) =
    let (t', found', s) = call-Moves c id t r found in
    let (m, is_m, bound) = w.reached id t found in
    let same : m ≡ j = pos-injective (sym is_m ∙ is) in
    let (l, is', le') = TenantStep-IsAt id c t t' j is (omega (arith, same, bound, small)) s in
    run-IsAt cs id k (suc n) (step c r) (omega (arith, small)) timely.1
      (step-IsWellFormed n c r (omega (arith, small)) timely.0 w)
      (t', l, found', is', omega (arith, le, le'))

-- A version is changed from once: when an update or a transition of a tenant from version `v` has
-- succeeded on a well-formed repository, then after any calls in between, fewer than would wrap a
-- version, no other update or transition of it from version `v` succeeds.
pub version_used_once :
    (id : Text) (v : ℤ) (c c' : Call) (cs : List Call) (n : ℕ) (r : Repository)
    → n + length cs + 3 < max_int64
    → All IsTimely (c ∷ cs)
    → IsWellFormed n r
    → Succeeds id v c r
    → ¬ Succeeds id v c' (run cs (step c r))
unfolding IsAt
version_used_once id v c c' cs n r small timely w s s' =
    let first = Succeeds-IsChange id v c r s in
    let (k, is, le) = w.reached id first.before first.start.found in
    let next = first.next ∙ ap incr is ∙ incr-small k (omega (arith, le, small)) in
    let w' = step-IsWellFormed n c r (omega (arith, small)) timely.0 w in
    let (t, j, found, is_j, ahead) =
      run-IsAt cs id (k + 1) (suc n) (step c r) (omega (arith, small)) timely.1 w'
        (first.result, k + 1, first.stored, next, omega arith) in
    let second = Succeeds-IsChange id v c' (run cs (step c r)) s' in
    let one = some-injective t second.before (sym found ∙ second.start.found) in
    let same : pos k ≡ pos j =
      sym is
      ∙ sym first.start.current
      ∙ second.start.current
      ∙ ap (λ x. x.version) (sym one)
      ∙ is_j in
    absurd (omega (arith, pos-injective same, ahead))
