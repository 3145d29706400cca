-- ===== src/Agents/Life/Steps.antt =====
-- trpcservice/agent/inmemory/inmemory.go: every call keeps the repository well
-- formed.
use trpc_agent_service_platf.Base.{◌⊎◌, none, ok, Option, ℕ, pair_eq, nat_eq, list_eq}
use trpc_agent_service_platf.Base.Ints.{int_eq}
use trpc_agent_service_platf.Agents.Operations.{step, Call}
use trpc_agent_service_platf.Agents.Revisions.{Hashing}
use trpc_agent_service_platf.Agents.Repository.{scope_of, Repository, store_new, Scope}
use trpc_agent_service_platf.Agents.Apps.{new_app, CreateInput, App}
use trpc_agent_service_platf.Agents.Life.{
  IsTimely, IsSound, steps, made, stays, nothing, AppStep, IsSameAt, Holds, Hosted,
}
use trpc_agent_service_platf.Base.{
  inr, ==_iff, inl, ◌==◌, Bool-cases, ap, subst, refl, sym, [], ◌≢◌, ◌≡◌, ◌∙◌, ◌<◌,
}
use trpc_agent_service_platf.Agents.Life.Stores.{IsVacant, IsWellFormed}
use trpc_agent_service_platf.Base.Maps.{lookup-insert_self, lookup, lookup-insert_ne}
use mathlib.Core.Option.{none-ne-some, some-injective}
use trpc_agent_service_platf.Agents.Life.Calls.{step-Effect}
use mathlib.Core.Bool.{false≢true}
use trpc_agent_service_platf.Agents.Operations.{step}
use trpc_agent_service_platf.Agents.Apps.Creation.{new_app-unpointed, new_app-validates}
use trpc_agent_service_platf.Agents.Life.Soundness.{AppStep-IsSound}

-- What an application has after one step at its scope.
abbrev pub Hosts : Hashing → Scope → Hosted → Repository → Type 0
Hosts hashing scope s r = (s' : Hosted) × Holds scope r s' × AppStep hashing s s'

same-Holds :
    (scope : Scope) (r r' : Repository) (s : Hosted)
    → IsSameAt scope r r'
    → Holds scope r s
    → Holds scope r' s
same-Holds scope r r' s same h = record {
  app_at = same.same_app ∙ h.app_at;
  revisions_at = same.same_revisions ∙ h.revisions_at;
  latest_at = same.same_next ∙ h.latest_at;
}

same-IsVacant :
    (scope : Scope) (r r' : Repository) → IsSameAt scope r r' → IsVacant scope r → IsVacant scope r'
same-IsVacant scope r r' same v = record {
  no_app = same.same_app ∙ v.no_app;
  no_revisions = same.same_revisions ∙ v.no_revisions;
  no_next = same.same_next ∙ v.no_next;
}

Holds-unique :
    (scope : Scope) (r : Repository) (s s' : Hosted) → Holds scope r s → Holds scope r s' → s ≡ s'
Holds-unique scope r s s' h h' =
    let app = some-injective s.app s'.app (sym h.app_at ∙ h'.app_at) in
    let revisions =
      some-injective s.revisions s'.revisions (sym h.revisions_at ∙ h'.revisions_at) in
    let latest = sym h.latest_at ∙ h'.latest_at in cc

store_new-IsSameAt :
    (a : App) (r : Repository) (other : Scope)
    → scope_of a ≢ other
    → IsSameAt other r (store_new a r)
unfolding store_new
store_new-IsSameAt a r other ne = record {
  same_app = lookup-insert_ne (scope_of a) other a r.apps ne;
  same_revisions = lookup-insert_ne (scope_of a) other [] r.revisions ne;
  same_next = refl;
}

-- An application that is there takes at most one step in a call.
pub step-Hosts :
    (hashing : Hashing) (c : Call) (scope : Scope) (s : Hosted) (r : Repository)
    → IsTimely c
    → IsWellFormed hashing r
    → Holds scope r s
    → Hosts hashing scope s (step hashing c r)
step-Hosts hashing c scope s r timely w h = elim (step-Effect hashing c r timely w) [
  | nothing same ↦ (s, subst (λ x. Holds scope x s) (sym same) h, stays refl)
  | made ms random now input a later done free same ↦ (
    s,
    subst (λ x. Holds scope x s) (sym same)
        (same-Holds scope r (store_new a r) s
          (store_new-IsSameAt a r scope
            (λ e. none-ne-some s.app (sym free ∙ ap (λ x. lookup x r.apps) e ∙ h.app_at)))
          h),
    stays refl,
  )
  | steps at t t' was moved is elsewhere ↦ elim (Bool-cases (at == scope)) [
    | inl here ↦
        let same = (==_iff at scope).0 here in
        (
          t',
          subst (λ x. Holds x (step hashing c r) t') same is,
          subst (λ x. AppStep hashing x t')
              (Holds-unique scope r t s (subst (λ x. Holds x r t) same was) h) moved,
        )
    | inr there ↦ (
      s,
      same-Holds scope r (step hashing c r) s
          (elsewhere scope (λ e. false≢true (sym there ∙ (==_iff at scope).1 e))) h,
      stays refl,
    )
  ]
]

made-IsSound :
    (hashing : Hashing) (ms : ℕ) (random : Option ℕ) (now : ℕ) (input : CreateInput) (a : App)
    → 0 < now
    → new_app ms random now input ≡ ok a
    → IsSound hashing (scope_of a) (record { app = a; revisions = []; latest = none })
unfolding lookup
made-IsSound hashing ms random now input a later done = record {
  owned = refl;
  valid = new_app-validates ms random now input a later done;
  counted = (0, refl);
  numbered = λ n v at. absurd (cc);
  identified = λ n v at. absurd (cc);
  published = λ n v at is. absurd (cc);
  current =
      λ n at. absurd (none-ne-some n (sym (new_app-unpointed ms random now input a done).0 ∙ at));
  canary =
      λ n at. absurd (none-ne-some n (sym (new_app-unpointed ms random now input a done).1 ∙ at));
}

store_new-IsWellFormed :
    (hashing : Hashing) (ms : ℕ) (random : Option ℕ) (now : ℕ) (input : CreateInput) (a : App)
    (r : Repository)
    → 0 < now
    → new_app ms random now input ≡ ok a
    → lookup (scope_of a) r.apps ≡ none
    → IsWellFormed hashing r
    → IsWellFormed hashing (store_new a r)
unfolding store_new
store_new-IsWellFormed hashing ms random now input a r later done free w scope =
    elim (Bool-cases (scope_of a == scope)) [
      | inl same ↦
          let here = (==_iff (scope_of a) scope).0 same in
          let none_next : lookup (scope_of a) r.next ≡ none = elim (w (scope_of a)) [
            | inl vacant ↦ vacant.no_next
            | inr (s, h, sound) ↦ absurd (none-ne-some s.app (sym free ∙ h.app_at))
          ] in
          inr (
            record { app = a; revisions = []; latest = none },
            subst (λ x. Holds x (store_new a r) (record { app = a; revisions = []; latest = none }))
                here
                (record {
                  app_at = lookup-insert_self (scope_of a) a r.apps;
                  revisions_at = lookup-insert_self (scope_of a) [] r.revisions;
                  latest_at = none_next;
                }),
            subst (λ x. IsSound hashing x (record { app = a; revisions = []; latest = none })) here
                (made-IsSound hashing ms random now input a later done),
          )
      | inr other ↦
          let ne : scope_of a ≢ scope =
            λ e. false≢true (sym other ∙ (==_iff (scope_of a) scope).1 e) in
          let same = store_new-IsSameAt a r scope ne in
          elim (w scope) [
            | inl vacant ↦ inl (same-IsVacant scope r (store_new a r) same vacant)
            | inr (s, h, sound) ↦ inr (s, same-Holds scope r (store_new a r) s same h, sound)
          ]
    ]

pub held-IsSound :
    (hashing : Hashing) (scope : Scope) (r : Repository) (s : Hosted)
    → IsWellFormed hashing r
    → Holds scope r s
    → IsSound hashing scope s
held-IsSound hashing scope r s w h = elim (w scope) [
  | inl vacant ↦ absurd (none-ne-some s.app (sym vacant.no_app ∙ h.app_at))
  | inr (t, is, sound) ↦ subst (IsSound hashing scope) (Holds-unique scope r t s is h) sound
]

pub step-IsWellFormed :
    (hashing : Hashing) (c : Call) (r : Repository)
    → IsTimely c
    → IsWellFormed hashing r
    → IsWellFormed hashing (step hashing c r)
step-IsWellFormed hashing c r timely w = elim (step-Effect hashing c r timely w) [
  | nothing same ↦ subst (IsWellFormed hashing) (sym same) w
  | made ms random now input a later done free same ↦
      subst (IsWellFormed hashing) (sym same)
        (store_new-IsWellFormed hashing ms random now input a r later done free w)
  | steps at t t' was moved is elsewhere ↦ λ scope. elim (Bool-cases (at == scope)) [
    | inl here ↦
        let same = (==_iff at scope).0 here in
        subst
          (λ x.
            IsVacant x (step hashing c r)
            ⊎ ((s : Hosted) × Holds x (step hashing c r) s × IsSound hashing x s))
          same
          (inr (t', is, AppStep-IsSound hashing at t t' (held-IsSound hashing at r t w was) moved))
    | inr there ↦
        let same = elsewhere scope (λ e. false≢true (sym there ∙ (==_iff at scope).1 e)) in
        elim (w scope) [
          | inl vacant ↦ inl (same-IsVacant scope r (step hashing c r) same vacant)
          | inr (s, h, sound) ↦ inr (s, same-Holds scope r (step hashing c r) s same h, sound)
        ]
  ]
]
