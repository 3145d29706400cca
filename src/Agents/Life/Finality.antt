-- ===== src/Agents/Life/Finality.antt =====
-- trpcservice/agent: what the steps of an application's life leave as it is: its published revisions,
-- and everything once it is disabled.
use trpc_agent_service_platf.Agents.Revisions.{is_published, Revision, Hashing}
use trpc_agent_service_platf.Base.{◌∙◌, sym, some, ap, true, ◌≡◌}
use trpc_agent_service_platf.Base.Ints.{int_eq, ℤ}
use trpc_agent_service_platf.Base.Maps.{lookup}
use trpc_agent_service_platf.Agents.Repository.{Scope}
use trpc_agent_service_platf.Agents.Life.{
  moves, sets_canary, rolls_back, publishes, redrafts, drafts, describes, stays, AppStep, IsSound,
  Hosted,
}
use trpc_agent_service_platf.Agents.Apps.{is_disabled}
use mathlib.Core.Bool.{false≢true}
use trpc_agent_service_platf.Agents.Life.Soundness.{
  IsDraftAt-IsReplaceable, fresh-IsReplaceable, insert-keeps,
}

-- A published revision stays where it is, as it is.
pub AppStep-keeps :
    (hashing : Hashing) (scope : Scope) (s s' : Hosted) (j : ℤ) (w : Revision)
    → IsSound hashing scope s
    → AppStep hashing s s'
    → lookup j s.revisions ≡ some w
    → is_published w.state ≡ true
    → lookup j s'.revisions ≡ some w
AppStep-keeps hashing scope s s' j w sound (stays same) at is =
    ap (λ x. lookup j x.revisions) same ∙ at
AppStep-keeps hashing scope s s' j w sound (describes b next status same_pointers same) at is =
    ap (λ x. lookup j x.revisions) same ∙ at
AppStep-keeps hashing scope s s' j w sound (drafts n v on next positive draft own same) at is =
    ap (λ x. lookup j x.revisions) same
    ∙ insert-keeps n j v w s.revisions (fresh-IsReplaceable hashing scope s sound n next positive)
        at is
AppStep-keeps hashing scope s s' j w sound (redrafts n old v on was draft own same) at is =
    ap (λ x. lookup j x.revisions) same
    ∙ insert-keeps n j v w s.revisions (IsDraftAt-IsReplaceable n old s.revisions was) at is
AppStep-keeps hashing scope s s' j w sound
      (publishes b n time old v next status pointers was done same) at is =
    ap (λ x. lookup j x.revisions) same
    ∙ insert-keeps n j v w s.revisions (IsDraftAt-IsReplaceable n old s.revisions was) at is
AppStep-keeps hashing scope s s' j w sound (rolls_back b n next status pointers there same) at is =
    ap (λ x. lookup j x.revisions) same ∙ at
AppStep-keeps hashing scope s s' j w sound (sets_canary b next status current candidate same) at
      is =
    ap (λ x. lookup j x.revisions) same ∙ at
AppStep-keeps hashing scope s s' j w sound (moves b next allowed same_pointers same) at is =
    ap (λ x. lookup j x.revisions) same ∙ at

-- A disabled application takes no step.
pub AppStep-disabled :
    (hashing : Hashing) (s s' : Hosted)
    → is_disabled s.app.status ≡ true
    → AppStep hashing s s'
    → s' ≡ s
AppStep-disabled hashing s s' off (stays same) = same
AppStep-disabled hashing s s' off (describes b next status pointers same) =
    absurd (false≢true (sym next.enabled ∙ off))
AppStep-disabled hashing s s' off (drafts n v on next positive draft own same) =
    absurd (false≢true (sym on ∙ off))
AppStep-disabled hashing s s' off (redrafts n old v on was draft own same) =
    absurd (false≢true (sym on ∙ off))
AppStep-disabled hashing s s' off (publishes b n time old v next status pointers was done same) =
    absurd (false≢true (sym next.enabled ∙ off))
AppStep-disabled hashing s s' off (rolls_back b n next status pointers there same) =
    absurd (false≢true (sym next.enabled ∙ off))
AppStep-disabled hashing s s' off (sets_canary b next status current candidate same) =
    absurd (false≢true (sym next.enabled ∙ off))
AppStep-disabled hashing s s' off (moves b next allowed pointers same) =
    absurd (false≢true (sym next.enabled ∙ off))
