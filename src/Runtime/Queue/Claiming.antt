-- ===== src/Runtime/Queue/Claiming.antt =====
-- trpcservice/runtime/queue/queue.go: which task Claim takes.
use mathlib.Core.List.{head?}
use mathlib.Core.Option.{none-ne-some, some-injective}
use trpc_agent_service_platf.Base.{
  ltb, ◌<◌, refl, ◌∙◌, ◌⊎◌, sym, none, err, ==_iff, Option-cases, ◌==◌, false, ok, arith, ℕ, subst,
  ◌≡◌, inl, inr, true, some, List, [], ◌∷◌, nat_eq, list_eq, Bool-cases,
}
use trpc_agent_service_platf.Base.Text.{text_ltb, Text}
use trpc_agent_service_platf.Base.Maps.{insert, lookup, Map, Holds, Holds-self, HasDistinctKeys}
use trpc_agent_service_platf.Base.Sorting.{sort-eq-nil, sort-Minimal, IsOrder, sort, sort-All, All}
use trpc_agent_service_platf.Base.TextOrder.{text_ltb-IsOrder}
use trpc_agent_service_platf.Runtime.Queue.{
  claim_first, not_found, are_claim_arguments, lease, claim, Backend, Task, is_eligible, task_at,
  is_before, eligible_keys,
}
use trpc_agent_service_platf.Base.Ints.{ℤ}
use trpc_agent_service_platf.Base.Contexts.{background, Context}
use mathlib.Core.Bool.{false≢true}

-- The key of an eligible task.
record IsEligibleKey (tenant : Text) (now : ℕ) (m : Map Text Task) (k : Text) : Type 0 where
  task : Task
  found : lookup k m ≡ some task
  eligible : is_eligible tenant now task ≡ true

eligible_keys-All :
    (tenant : Text) (now : ℕ) (m₀ m : Map Text Task)
    → Holds m₀ m
    → All (IsEligibleKey tenant now m₀) (eligible_keys tenant now m)
unfolding eligible_keys
eligible_keys-All tenant now m₀ [] h = tt
eligible_keys-All tenant now m₀ ((k, t) ∷ m) (here, h) =
    elim (Bool-cases (is_eligible tenant now t)) [
      | inl e ↦
          rw (e, eligible_keys)
            (record { task = t; found = here; eligible = e }, eligible_keys-All tenant now m₀ m h)
      | inr e ↦ rw (e, eligible_keys) (eligible_keys-All tenant now m₀ m h)
    ]

All-head? : (P : Text → Type 0) (ks : List Text) (k : Text) → All P ks → head? ks ≡ some k → P k
All-head? P [] k all e = absurd (none-ne-some k e)
All-head? P (j ∷ ks) k all e = subst P (some-injective j k e) all.0

first-IsEligibleKey :
    (tenant : Text) (now : ℕ) (b : Backend) (k : Text)
    → HasDistinctKeys b.tasks
    → head? (sort (is_before b.tasks) (eligible_keys tenant now b.tasks)) ≡ some k
    → IsEligibleKey tenant now b.tasks k
first-IsEligibleKey tenant now b k d e =
    All-head? (IsEligibleKey tenant now b.tasks)
      (sort (is_before b.tasks) (eligible_keys tenant now b.tasks)) k
      (sort-All (is_before b.tasks) (IsEligibleKey tenant now b.tasks)
        (eligible_keys tenant now b.tasks)
        (eligible_keys-All tenant now b.tasks b.tasks (Holds-self b.tasks d)))
      e

-- What Claim picks is eligible.
pub first-is_eligible :
    (tenant : Text) (now : ℕ) (b : Backend) (k : Text)
    → HasDistinctKeys b.tasks
    → head? (sort (is_before b.tasks) (eligible_keys tenant now b.tasks)) ≡ some k
    → is_eligible tenant now (task_at b.tasks k) ≡ true
first-is_eligible tenant now b k d e =
    let g : IsEligibleKey tenant now b.tasks k = first-IsEligibleKey tenant now b k d e in
    rw g.found g.eligible

is_before-IsOrder : (m : Map Text Task) → IsOrder (is_before m)
unfolding is_before
is_before-IsOrder m = record {
  asymm = λ j k h. ground (arith, text_ltb-IsOrder.asymm j k);
  trans = λ j k l h h'. ground (arith, text_ltb-IsOrder.trans j k l);
  irrefl = λ k. ground (arith, text_ltb-IsOrder.irrefl k);
}

-- What holds of all eligible keys holds of each.
eligible_keys-at :
    (P : Text → Type 0) (tenant : Text) (now : ℕ) (m : Map Text Task) (k : Text) (t : Task)
    → All P (eligible_keys tenant now m)
    → lookup k m ≡ some t
    → is_eligible tenant now t ≡ true
    → P k
unfolding eligible_keys lookup
eligible_keys-at P tenant now [] k t all here e = cc
eligible_keys-at P tenant now ((j, u) ∷ m) k t all here e = elim (Bool-cases (j == k)) [
  | inl same ↦
      subst P ((==_iff j k).0 same) (ground (arith, all, some-injective u t (rw same at here)))
  | inr other ↦ eligible_keys-at P tenant now m k t (ground (arith, all)) (rw other at here) e
]

-- The first task is older than the second, or of its age with a key that does not come after.
abbrev pub IsNoYounger : Text → Task → Text → Task → Type 0
IsNoYounger j t k u =
    (t.created_at < u.created_at) ⊎ ((t.created_at ≡ u.created_at) × (text_ltb k j ≡ false))

is_before-IsNoYounger :
    (m : Map Text Task) (j k : Text) (t u : Task)
    → lookup j m ≡ some t
    → lookup k m ≡ some u
    → is_before m k j ≡ false
    → IsNoYounger j t k u
unfolding is_before
is_before-IsNoYounger m j k t u at_j at_k h = elim (Bool-cases (ltb t.created_at u.created_at)) [
  | inl older ↦ inl (ground arith)
  | inr other ↦ inr (ground arith, ground arith)
]

-- What a claim that succeeds has found and done.
pub record IsClaim (tenant owner : Text) (duration : ℤ) (now : ℕ) (b : Backend) (u : Task)
    (b' : Backend) : Type 0 where
  pub key : Text
  pub before : Task
  pub found : lookup key b.tasks ≡ some before
  pub eligible : is_eligible tenant now before ≡ true
  pub result : u ≡ lease owner duration now before
  pub stored : b' ≡ record b { tasks = insert key (lease owner duration now before) b.tasks }
  pub oldest :
      (k : Text) (t : Task)
      → lookup k b.tasks ≡ some t
      → is_eligible tenant now t ≡ true
      → IsNoYounger key before k t

-- A claim that succeeds takes a task that is eligible, and than which no eligible task
-- is older, nor of the same age with a smaller key, and changes nothing but that task's lease.
pub claim-IsClaim :
    (ctx : Context) (tenant owner : Text) (duration : ℤ) (now : ℕ) (b b' : Backend) (u : Task)
    → HasDistinctKeys b.tasks
    → claim ctx tenant owner duration now b ≡ ok (u, b')
    → IsClaim tenant owner duration now b u b'
unfolding claim
claim-IsClaim ctx tenant owner duration now b b' u d e =
    elim (Option-cases (head? (sort (is_before b.tasks) (eligible_keys tenant now b.tasks)))) [
      | inl nothing ↦ absurd (ground arith)
      | inr (k, first) ↦
          let g : IsEligibleKey tenant now b.tasks k = first-IsEligibleKey tenant now b k d first in
          record {
            key = k;
            before = g.task;
            found = g.found;
            eligible = g.eligible;
            result = ground (arith, g.found);
            stored = ground (arith, g.found);
            oldest = λ j t here eligible. is_before-IsNoYounger b.tasks k j g.task t g.found here (
                eligible_keys-at (λ i. is_before b.tasks i k ≡ false) tenant now b.tasks j t
                  (sort-Minimal (is_before b.tasks) (is_before-IsOrder b.tasks)
                    (eligible_keys tenant now b.tasks) k first)
                  here eligible);
          }
    ]

head?-eq-none : (ks : List Text) → head? ks ≡ none → ks ≡ []
head?-eq-none [] h = refl
head?-eq-none (k ∷ ks) h = cc

no_first :
    (tenant : Text) (now : ℕ) (m : Map Text Task)
    → head? (sort (is_before m) (eligible_keys tenant now m)) ≡ none
    → (k : Text) (t : Task) → lookup k m ≡ some t
    → is_eligible tenant now t ≡ false
no_first tenant now m none_first k t here = elim (Bool-cases (is_eligible tenant now t)) [
  | inl e ↦ absurd (
      eligible_keys-at (λ _. ⊥) tenant now m k t
        (subst (All (λ _. ⊥)) (sym (sort-eq-nil (is_before m) _ (head?-eq-none _ none_first))) tt)
        here e)
  | inr e ↦ e
]

abbrev pub NoneEligible : Text → ℕ → Backend → Type 0
NoneEligible tenant now b =
    (k : Text) (t : Task) → lookup k b.tasks ≡ some t → is_eligible tenant now t ≡ false

-- With arguments in order, a claim on an open store fails exactly when no task is eligible, and
-- then with ErrNotFound; in every other case it succeeds.
pub claim_total :
    (tenant owner : Text) (duration : ℤ) (now : ℕ) (b : Backend)
    → HasDistinctKeys b.tasks
    → are_claim_arguments owner duration ≡ true
    → b.closed ≡ false
    → ((claim background tenant owner duration now b ≡ err not_found) × NoneEligible tenant now b)
      ⊎ ((u : Task) × (b' : Backend) × (claim background tenant owner duration now b ≡ ok (u, b'))
          × (¬ NoneEligible tenant now b))
unfolding claim claim_first
claim_total tenant owner duration now b d a o =
    elim (Option-cases (head? (sort (is_before b.tasks) (eligible_keys tenant now b.tasks)))) [
      | inl nothing ↦ inl (ground arith, no_first tenant now b.tasks nothing)
      | inr (k, first) ↦
          let g : IsEligibleKey tenant now b.tasks k = first-IsEligibleKey tenant now b k d first in
          inr (
            lease owner duration now (task_at b.tasks k),
            record b { tasks = insert k (lease owner duration now (task_at b.tasks k)) b.tasks },
            ground arith,
            λ no_task. absurd (false≢true (sym (no_task k g.task g.found) ∙ g.eligible)),
          )
    ]
