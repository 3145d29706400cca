-- ===== src/Agents/Life/Soundness.antt =====
-- trpcservice/agent: an application stays sound through the steps of its life.
use trpc_agent_service_platf.Agents.Revisions.{
  publish_revision, published_state, draft_state, validate_revision, unknown_state, is_published,
  is_draft, Revision, RevisionState, Hashing,
}
use trpc_agent_service_platf.Base.{
  subst, arith, inr, refl, inl, ok, ◌∙◌, ◌≤◌, sym, ◌+◌, false, Option, some, ap, true, ◌≡◌, ℕ,
}
use trpc_agent_service_platf.Base.Ints.{negsuc, int_leb, int_eq, incr, pos, ℤ}
use trpc_agent_service_platf.Base.Maps.{
  lookup-insert_self, lookup-insert-cases, lookup-insert_ne, insert, lookup, Map,
}
use trpc_agent_service_platf.Agents.Repository.{or_zero, Scope}
use trpc_agent_service_platf.Agents.Life.{
  IsOf, moves, sets_canary, rolls_back, publishes, redrafts, drafts, describes, stays, AppStep,
  IsNext, IsSound, IsDraftAt, Hosted, HasPublished,
}
use trpc_agent_service_platf.Agents.Apps.{App}
use mathlib.Core.Option.{none-ne-some, some-injective}
use mathlib.Core.Bool.{false≢true}
use trpc_agent_service_platf.Agents.Revisions.Publishing.{
  publish_revision-published, publish_revision-IsPublication,
}

-- A revision can be stored at the number: what is there is not published.
abbrev pub IsReplaceable : ℤ → Map ℤ Revision → Type 0
IsReplaceable n m = (w : Revision) → lookup n m ≡ some w → is_published w.state ≡ false

is_draft-unpublished : (s : RevisionState) → is_draft s ≡ true → is_published s ≡ false
is_draft-unpublished draft_state h = refl
is_draft-unpublished published_state h = sym h
is_draft-unpublished (unknown_state s) h = refl

pub IsDraftAt-IsReplaceable :
    (n : ℤ) (v : Revision) (m : Map ℤ Revision) → IsDraftAt n v m → IsReplaceable n m
IsDraftAt-IsReplaceable n v m (found, draft) w at =
    is_draft-unpublished w.state
      (ap (λ x. is_draft x.state) (some-injective w v (sym at ∙ found)) ∙ draft)

pub insert-keeps :
    (n j : ℤ) (v w : Revision) (m : Map ℤ Revision)
    → IsReplaceable n m
    → lookup j m ≡ some w
    → is_published w.state ≡ true
    → lookup j (insert n v m) ≡ some w
insert-keeps n j v w m free found published =
    lookup-insert_ne n j v m
      (λ e. false≢true (sym (free w (ap (λ x. lookup x m) e ∙ found)) ∙ published))
    ∙ found

insert-HasPublished :
    (n j : ℤ) (v : Revision) (m : Map ℤ Revision)
    → IsReplaceable n m
    → HasPublished j m
    → HasPublished j (insert n v m)
insert-HasPublished n j v m free (w, found, published) =
    (w, insert-keeps n j v w m free found published, published)

-- The number after the last one.
incr-new : (k : ℕ) (n l : ℤ) → l ≡ pos k → n ≡ incr l → int_leb (pos 1) n ≡ true → n ≡ pos (k + 1)
incr-new k (pos m) l is next positive = ground (arith, next ∙ ap incr is)
incr-new k (negsuc m) l is next positive = cc

int_leb_mono : (i : ℤ) (k j : ℕ) → k ≤ j → int_leb i (pos k) ≡ true → int_leb i (pos j) ≡ true
int_leb_mono (pos i) k j le h = ground arith
int_leb_mono (negsuc i) k j le h = refl

int_leb-above : (k : ℕ) → int_leb (pos (k + 1)) (pos k) ≡ false
int_leb-above k = ground arith

module _ (hashing : Hashing) (scope : Scope) (s : Hosted) (w : IsSound hashing scope s) where
  root-IsSound :
      (b : App)
      → IsNext s.app b
      → ((n : ℤ) → b.current_revision ≡ some n → HasPublished n s.revisions)
      → ((n : ℤ) → b.canary_revision ≡ some n → HasPublished n s.revisions)
      → IsSound hashing scope (record s { app = b })
  root-IsSound b next current canary = record {
    owned = next.same_scope ∙ w.owned;
    valid = next.valid;
    counted = w.counted;
    numbered = w.numbered;
    identified = λ n v at.
        let (tenant, app, number) = w.identified n v at in
        (
          tenant ∙ sym (ap (λ p. p.0) next.same_scope),
          app ∙ sym (ap (λ p. p.1) next.same_scope),
          number,
        );
    published = w.published;
    current = current;
    canary = canary;
  }

  insert-IsSound :
      (n : ℤ) (v : Revision) (latest : Option ℤ) (k j : ℕ)
      → IsReplaceable n s.revisions
      → or_zero s.latest ≡ pos k
      → or_zero latest ≡ pos j
      → k ≤ j
      → int_leb n (pos j) ≡ true
      → (is_published v.state ≡ true → validate_revision hashing v ≡ ok tt)
      → IsOf s.app n v
      → IsSound hashing scope (record s { revisions = insert n v s.revisions; latest = latest })
  insert-IsSound n v latest k j free was is le small valid own = record {
    owned = w.owned;
    valid = w.valid;
    counted = (j, is);
    numbered = λ i u at.
        subst (λ x. int_leb i x ≡ true) (sym is)
          (elim (lookup-insert-cases n i v u s.revisions at) [
            | inl (here, new) ↦ subst (λ x. int_leb x (pos j) ≡ true) here small
            | inr (ne, old) ↦
                int_leb_mono i k j le (subst (λ x. int_leb i x ≡ true) was (w.numbered i u old))
          ]);
    identified = λ i u at. elim (lookup-insert-cases n i v u s.revisions at) [
      | inl (here, new) ↦ subst (λ x. IsOf s.app i x) new (subst (λ x. IsOf s.app x v) here own)
      | inr (ne, old) ↦ w.identified i u old
    ];
    published = λ i u at is. elim (lookup-insert-cases n i v u s.revisions at) [
      | inl (here, new) ↦
          ap (validate_revision hashing) (sym new) ∙ valid (ap (λ x. is_published x.state) new ∙ is)
      | inr (ne, old) ↦ w.published i u old is
    ];
    current = λ i at. insert-HasPublished n i v s.revisions free (w.current i at);
    canary = λ i at. insert-HasPublished n i v s.revisions free (w.canary i at);
  }

  pub fresh-IsReplaceable :
      (n : ℤ) → n ≡ incr (or_zero s.latest) → int_leb (pos 1) n ≡ true → IsReplaceable n s.revisions
  fresh-IsReplaceable n next positive v at =
      let (k, is) = w.counted in
      let new = incr-new k n (or_zero s.latest) is next positive in
      absurd (
        false≢true (
          sym (int_leb-above k)
          ∙ subst (λ x. int_leb x (pos k) ≡ true) new
              (subst (λ x. int_leb n x ≡ true) is (w.numbered n v at))))

publish_revision-IsOf :
    (hashing : Hashing) (a : App) (n : ℤ) (at : ℕ) (old v : Revision)
    → publish_revision hashing at old ≡ ok v
    → IsOf a n old
    → IsOf a n v
publish_revision-IsOf hashing a n at old v done own =
    subst (IsOf a n) (sym (publish_revision-IsPublication hashing at old v done).copied) own

-- A step keeps an application sound.
pub AppStep-IsSound :
    (hashing : Hashing) (scope : Scope) (s s' : Hosted)
    → IsSound hashing scope s
    → AppStep hashing s s'
    → IsSound hashing scope s'
AppStep-IsSound hashing scope s s' w (stays same) = subst (IsSound hashing scope) (sym same) w
AppStep-IsSound hashing scope s s' w (describes b next status (current, canary) same) =
    subst (IsSound hashing scope) (sym same) (
      root-IsSound hashing scope s w b next (λ n at. w.current n (sym current ∙ at))
        (λ n at. w.canary n (sym canary ∙ at)))
AppStep-IsSound hashing scope s s' w (drafts n v on next positive draft own same) =
    let (k, is) = w.counted in
    let new = incr-new k n (or_zero s.latest) is next positive in
    subst (IsSound hashing scope) (sym same) (
      insert-IsSound hashing scope s w n v (some n) k (k + 1)
        (fresh-IsReplaceable hashing scope s w n next positive) is new (omega arith)
        (ap (λ x. int_leb x (pos (k + 1))) new ∙ ground arith)
        (λ p. absurd (false≢true (sym (is_draft-unpublished v.state draft) ∙ p))) own)
AppStep-IsSound hashing scope s s' w (redrafts n old v on was draft own same) =
    let (k, is) = w.counted in
    subst (IsSound hashing scope) (sym same) (
      insert-IsSound hashing scope s w n v s.latest k k
        (IsDraftAt-IsReplaceable n old s.revisions was) is is (omega arith)
        (subst (λ x. int_leb n x ≡ true) is (w.numbered n old was.0))
        (λ p. absurd (false≢true (sym (is_draft-unpublished v.state draft) ∙ p))) own)
AppStep-IsSound hashing scope s s' w
      (publishes b n at old v next status (current, canary) was done same) =
    let (k, is) = w.counted in
    let valid = (publish_revision-IsPublication hashing at old v done).valid in
    let inserted =
      insert-IsSound hashing scope s w n v s.latest k k
        (IsDraftAt-IsReplaceable n old s.revisions was) is is (omega arith)
        (subst (λ x. int_leb n x ≡ true) is (w.numbered n old was.0)) (λ p. valid)
        (publish_revision-IsOf hashing s.app n at old v done (w.identified n old was.0)) in
    subst (IsSound hashing scope) (sym same) (
      root-IsSound hashing scope _ inserted b next
        (λ i points.
          subst (λ j. HasPublished j (insert n v s.revisions))
            (some-injective n i (sym current ∙ points))
            (
              v,
              lookup-insert_self n v s.revisions,
              publish_revision-published hashing at old v done,
            ))
        (λ i points. absurd (none-ne-some i (sym canary ∙ points))))
AppStep-IsSound hashing scope s s' w (rolls_back b n next status (current, canary) there same) =
    subst (IsSound hashing scope) (sym same) (
      root-IsSound hashing scope s w b next
        (λ i points.
          subst (λ j. HasPublished j s.revisions) (some-injective n i (sym current ∙ points)) there)
        (λ i points. absurd (none-ne-some i (sym canary ∙ points))))
AppStep-IsSound hashing scope s s' w (sets_canary b next status current candidate same) =
    subst (IsSound hashing scope) (sym same)
      (root-IsSound hashing scope s w b next (λ n at. w.current n (sym current ∙ at)) candidate)
AppStep-IsSound hashing scope s s' w (moves b next allowed (current, canary) same) =
    subst (IsSound hashing scope) (sym same) (
      root-IsSound hashing scope s w b next (λ n at. w.current n (sym current ∙ at))
        (λ n at. w.canary n (sym canary ∙ at)))
