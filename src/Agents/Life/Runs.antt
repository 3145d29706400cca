-- ===== src/Agents/Life/Runs.antt =====
-- trpcservice/agent/inmemory/inmemory.go: the repository after any calls.
use trpc_agent_service_platf.Base.{pair_eq, nat_eq, list_eq}
use trpc_agent_service_platf.Agents.Operations.{Call, run, step}
use trpc_agent_service_platf.Agents.Revisions.{is_published, Revision, Hashing}
use trpc_agent_service_platf.Agents.Repository.{new_repository, Repository, Scope}
use trpc_agent_service_platf.Base.Maps.{lookup}
use trpc_agent_service_platf.Base.{subst, refl, [], true, inl, ◌∷◌, some, ◌≡◌, List}
use trpc_agent_service_platf.Base.Ints.{int_eq, ℤ}
use trpc_agent_service_platf.Base.Sorting.{All}
use trpc_agent_service_platf.Agents.Life.{IsTimely, Holds, Hosted}
use trpc_agent_service_platf.Agents.Life.Stores.{IsWellFormed}
use trpc_agent_service_platf.Agents.Apps.{is_disabled}
use trpc_agent_service_platf.Agents.Life.Steps.{held-IsSound, step-Hosts, step-IsWellFormed}
use trpc_agent_service_platf.Agents.Life.Finality.{AppStep-disabled, AppStep-keeps}

run_from-IsWellFormed :
    (hashing : Hashing) (cs : List Call) (r : Repository)
    → All IsTimely cs
    → IsWellFormed hashing r
    → IsWellFormed hashing (run hashing cs r)
unfolding run
run_from-IsWellFormed hashing [] r timely w = w
run_from-IsWellFormed hashing (c ∷ cs) r timely w =
    run_from-IsWellFormed hashing cs (step hashing c r) timely.1
      (step-IsWellFormed hashing c r timely.0 w)

-- After any calls on an empty repository, where no application is created at Go's zero time: every
-- scope has nothing at all, or one application that is stored under its own scope and passes
-- Validate, whose revisions carry its identity and the number that they are stored at, one that was
-- given out, whose published revisions pass Validate with the digest of their content, and whose
-- current and canary revisions are published.
pub apps_stay_sound :
    (hashing : Hashing) (cs : List Call)
    → All IsTimely cs
    → IsWellFormed hashing (run hashing cs new_repository)
unfolding lookup
apps_stay_sound hashing cs timely =
    run_from-IsWellFormed hashing cs new_repository timely
      (λ scope. inl (record { no_app = refl; no_revisions = refl; no_next = refl }))

-- The revision at a scope and a number.
abbrev pub HasRevision : Scope → ℤ → Revision → Repository → Type 0
HasRevision scope n v r = (s : Hosted) × Holds scope r s × (lookup n s.revisions ≡ some v)

-- A published revision is final: on a well-formed repository it stays at its number, with every
-- field as it is, whatever calls follow, as long as none creates at Go's zero time.
pub published_is_final :
    (hashing : Hashing) (cs : List Call) (scope : Scope) (n : ℤ) (v : Revision) (r : Repository)
    → All IsTimely cs
    → IsWellFormed hashing r
    → HasRevision scope n v r
    → is_published v.state ≡ true
    → HasRevision scope n v (run hashing cs r)
unfolding run
published_is_final hashing [] scope n v r timely w at is = at
published_is_final hashing (c ∷ cs) scope n v r timely w (s, h, at) is =
    let (s', h', moved) = step-Hosts hashing c scope s r timely.0 w h in
    published_is_final hashing cs scope n v (step hashing c r) timely.1
      (step-IsWellFormed hashing c r timely.0 w)
      (
        s',
        h',
        AppStep-keeps hashing scope s s' n v (held-IsSound hashing scope r s w h) moved at is,
      )
      is

-- A disabled application is final: on a well-formed repository neither its root nor any of its
-- revisions changes, whatever calls follow, as long as none creates at Go's zero time.
pub disabled_app_is_final :
    (hashing : Hashing) (cs : List Call) (scope : Scope) (s : Hosted) (r : Repository)
    → All IsTimely cs
    → IsWellFormed hashing r
    → Holds scope r s
    → is_disabled s.app.status ≡ true
    → Holds scope (run hashing cs r) s
unfolding run
disabled_app_is_final hashing [] scope s r timely w h off = h
disabled_app_is_final hashing (c ∷ cs) scope s r timely w h off =
    let (s', h', moved) = step-Hosts hashing c scope s r timely.0 w h in
    disabled_app_is_final hashing cs scope s (step hashing c r) timely.1
      (step-IsWellFormed hashing c r timely.0 w)
      (subst (Holds scope (step hashing c r)) (AppStep-disabled hashing s s' off moved) h') off
