-- ===== src/Agents/Operations.antt =====
-- trpcservice/agent/inmemory/inmemory.go: the operations that publish, roll back, set a canary or
-- change a status, and a call of any operation.
use trpc_agent_service_platf.Base.Ints.{int_eq}
use trpc_agent_service_platf.Agents.Apps.{
  validate_app, is_active, can_transition_to, App, Error, invalid, conflict, invalid_transition,
  immutable_revision, CreateInput,
}
use trpc_agent_service_platf.Agents.Repository.{
  succeeding, redraft_input, CreateDraftInput, UpdateMetadataInput, create_draft, UpdateDraftInput,
  update_metadata, Repository, lock, check_context, create, mutable_app, revision_locked,
  put_revision, store_app, next_time, max_time,
}
use trpc_agent_service_platf.Agents.Changes.{
  can_point, change_rolled_back, change_published, canary_event_type, new_canary_event, activated,
  with_canary, pointing, same_revision, new_event, ChangeEvent, SetCanaryInput, RollbackInput,
  PublishInput, status_event_type, current_digest, candidate_digest, moved, validate_change,
  TransitionStatusInput,
}
use trpc_agent_service_platf.Base.Contexts.{Context}
use trpc_agent_service_platf.Agents.Revisions.{
  validate_revision, publish_revision, new_revision, is_published, is_draft, Revision, Hashing,
}
use trpc_agent_service_platf.Base.{
  [], pair_eq, nat_eq, list_eq, not, ◌==◌, ◌>>=◌, require, ◌>>◌, ◌∷◌, err, Option, ℕ, ok, List,
  Result,
}

-- The rest of Rollback, on the application and the target that it found.
unfoldable pub roll_back_to :
    Context
    → ℕ
    → RollbackInput
    → Repository
    → App
    → Revision
    → Result Error ((App × ChangeEvent) × Repository)
roll_back_to ctx now input r a v = do
  require (is_published v.state) invalid
  require (can_point a.current_revision input.target_revision) invalid
  let at = next_time now a.updated_at
  let b = pointing input.target_revision a.status at a
  validate_app b
  check_context 3 ctx
  ok (
    (
      b,
      new_event change_rolled_back b a.status a.current_revision v.content_digest input.metadata
          a.version at,
    ),
    store_app b r,
  )

unfoldable pub rollback :
    Context → ℕ → RollbackInput → Repository → Result Error ((App × ChangeEvent) × Repository)
unfolding validate_change roll_back_to
rollback ctx now input r = do
  check_context 0 ctx
  validate_change input.metadata
  lock ctx
  a ← mutable_app input.scope input.expected_app_version r
  v ← revision_locked input.scope input.target_revision r
  roll_back_to ctx now input r a v

-- The rest of SetCanary, on the application that it found.
unfoldable pub set_canary_of :
    ℕ → SetCanaryInput → Repository → App → Result Error ((App × ChangeEvent) × Repository)
unfolding candidate_digest
set_canary_of now input r a = do
  require (is_active a.status) invalid
  digest ← candidate_digest input.scope input.candidate_revision a r
  require (not (same_revision a.canary_revision input.candidate_revision)) invalid
  let at = next_time now a.updated_at
  let b = with_canary input.candidate_revision at a
  validate_app b
  ok (
    (
      b,
      new_canary_event (canary_event_type b.canary_revision) b a.canary_revision digest
          input.metadata a.version at,
    ),
    store_app b r,
  )

unfoldable pub set_canary :
    Context → ℕ → SetCanaryInput → Repository → Result Error ((App × ChangeEvent) × Repository)
unfolding validate_change set_canary_of
set_canary ctx now input r = do
  check_context 0 ctx
  validate_change input.metadata
  require input.tenant_active invalid
  lock ctx
  a ← mutable_app input.scope input.expected_app_version r
  set_canary_of now input r a

-- The rest of TransitionStatus, on the application that it found.
unfoldable pub transition_of :
    Context
    → ℕ
    → TransitionStatusInput
    → Repository
    → App
    → Result Error ((App × ChangeEvent) × Repository)
unfolding current_digest status_event_type
transition_of ctx now input r a = do
  require (can_transition_to a.status input.next_status) invalid_transition
  let at = next_time now a.updated_at
  let b = moved input.next_status at a
  validate_app b
  digest ← current_digest input.scope b.current_revision r
  check_context 3 ctx
  ok (
    (
      b,
      new_event (status_event_type input.next_status) b a.status a.current_revision digest
          input.metadata a.version at,
    ),
    store_app b r,
  )

unfoldable pub transition_status :
    Context
    → ℕ
    → TransitionStatusInput
    → Repository
    → Result Error ((App × ChangeEvent) × Repository)
unfolding validate_change transition_of
transition_status ctx now input r = do
  check_context 0 ctx
  validate_change input.metadata
  lock ctx
  a ← mutable_app input.scope input.expected_version r
  transition_of ctx now input r a

module _ (hashing : Hashing) where
  -- The rest of Publish, on the application and the draft that it found. The application is stored
  -- first, but put_revision panics only without an inner map, which every stored application has.
  unfoldable pub publish_draft :
      Context
      → ℕ
      → PublishInput
      → Repository
      → App
      → Revision
      → Result Error ((App × Revision × ChangeEvent) × Repository)
  publish_draft ctx now input r a v = do
    require (is_draft v.state) immutable_revision
    require (input.expected_draft_version == v.draft_version) conflict
    let at = next_time now (max_time a.updated_at v.updated_at)
    p ← publish_revision hashing at v
    let b = pointing input.revision (activated a.status) at a
    validate_app b
    check_context 3 ctx
    r' ← put_revision input.scope input.revision p (store_app b r)
    ok (
      (
        b,
        p,
        new_event change_published b a.status a.current_revision p.content_digest input.metadata
            a.version at,
      ),
      r',
    )

  unfoldable pub publish :
      Context
      → ℕ
      → PublishInput
      → Repository
      → Result Error ((App × Revision × ChangeEvent) × Repository)
  unfolding validate_change publish_draft
  publish ctx now input r = do
    check_context 0 ctx
    validate_change input.metadata
    require input.tenant_active invalid
    lock ctx
    a ← mutable_app input.scope input.expected_app_version r
    v ← revision_locked input.scope input.revision r
    publish_draft ctx now input r a v

  -- The rest of UpdateDraft, on the revision that it found.
  unfoldable pub redraft :
      Context → ℕ → UpdateDraftInput → Repository → Revision → Result Error (Revision × Repository)
  redraft ctx now input r v = do
    require (is_draft v.state) immutable_revision
    require (input.expected_draft_version == v.draft_version) conflict
    fresh ← new_revision now (redraft_input input v)
    let c = succeeding now v fresh
    validate_revision hashing c
    check_context 3 ctx
    r' ← put_revision input.scope input.revision c r
    ok (c, r')

  unfoldable pub update_draft :
      Context → ℕ → UpdateDraftInput → Repository → Result Error (Revision × Repository)
  unfolding redraft
  update_draft ctx now input r = do
    check_context 0 ctx
    lock ctx
    a ← mutable_app input.scope input.expected_app_version r
    v ← revision_locked input.scope input.revision r
    redraft ctx now input r v

-- A call by any caller; reads change nothing.
pub data Call : Type 0 where
  creates : Context → ℕ → Option ℕ → ℕ → CreateInput → Call
  describes : Context → ℕ → UpdateMetadataInput → Call
  drafts : Context → ℕ → CreateDraftInput → Call
  redrafts : Context → ℕ → UpdateDraftInput → Call
  publishes : Context → ℕ → PublishInput → Call
  rolls_back : Context → ℕ → RollbackInput → Call
  sets_canary : Context → ℕ → SetCanaryInput → Call
  transitions : Context → ℕ → TransitionStatusInput → Call

abbrev pub after : {A : Type 0} → Repository → Result Error (A × Repository) → Repository
after r (ok (a, r')) = r'
after r (err e) = r

module _ (hashing : Hashing) where
  unfoldable pub step : Call → Repository → Repository
  step (creates ctx ms random now input) r = after r (create ctx ms random now input r)
  step (describes ctx now input) r = after r (update_metadata ctx now input r)
  step (drafts ctx now input) r = after r (create_draft ctx now input r)
  step (redrafts ctx now input) r = after r (update_draft hashing ctx now input r)
  step (publishes ctx now input) r = after r (publish hashing ctx now input r)
  step (rolls_back ctx now input) r = after r (rollback ctx now input r)
  step (sets_canary ctx now input) r = after r (set_canary ctx now input r)
  step (transitions ctx now input) r = after r (transition_status ctx now input r)

  unfoldable pub run : List Call → Repository → Repository
  unfolding step
  run [] r = r
  run (c ∷ cs) r = run cs (step c r)
