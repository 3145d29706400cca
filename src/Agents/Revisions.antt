-- ===== src/Agents/Revisions.antt =====
-- trpcservice/agent/revision.go: the revisions of an application. encoding/json and crypto/sha256
-- are parameters of the code that hashes a revision.
pub mod Publishing
pub mod Completion
use trpc_agent_service_platf.Agents.Apps.{
  validate_app_id, validate_tenant_id, Error, invalid, immutable_revision, encode_failed,
}
use trpc_agent_service_platf.Base.{
  ◌∷◌, [], if◌then◌else◌, leb, ok, not, none, nat_eq, list_eq, bool_eqb, ◌>>◌, ◌>>=◌, true, some,
  require, false, err, ◌==◌, ◌&&◌, ℕ, Result, Option, List, Bool,
}
use trpc_agent_service_platf.Agents.Drafts.{
  validate_revision_definition, unset_kind, unknown_kind, normalize_draft_configuration, llm,
  ToolAuthorization, RuntimePolicy, Kind, GenerationConfig, DraftConfiguration,
}
use trpc_agent_service_platf.Base.Text.{is_empty, Text}
use trpc_agent_service_platf.Base.Floats.{float_eq, Float64}
use trpc_agent_service_platf.Base.Ints.{pos, int_leb, int_eq, ℤ}

pub data RevisionState : Type 0 where
  draft_state published_state : RevisionState
  unknown_state : Text → RevisionState

-- The fields of the configuration are one record.
pub record Revision : Type 0 where
  pub tenant_id : Text
  pub app_id : Text
  pub revision : ℤ
  pub state : RevisionState
  pub draft_version : ℤ
  pub kind : Kind
  pub schema_version : ℤ
  pub configuration : DraftConfiguration
  pub content_digest : Text
  pub published_at : Option ℕ
  pub created_at : ℕ
  pub updated_at : ℕ

pub record CreateRevisionInput : Type 0 where
  pub tenant_id : Text
  pub app_id : Text
  pub revision : ℤ
  pub kind : Kind
  pub schema_version : ℤ
  pub configuration : DraftConfiguration

-- What is hashed.
pub record Payload : Type 0 where
  pub kind : Kind
  pub schema_version : ℤ
  pub configuration : DraftConfiguration

-- json.Marshal, which may fail, and hex of sha256.Sum256.
pub record Hashing : Type 0 where
  pub marshal : Payload → Option (List ℕ)
  pub sha256_hex : List ℕ → Text

abbrev default_kind : Kind → Kind
default_kind llm = llm
default_kind unset_kind = llm
default_kind (unknown_kind s) = unknown_kind s

unfoldable pub new_revision : ℕ → CreateRevisionInput → Result Error Revision
new_revision now input = do
  validate_tenant_id input.tenant_id
  validate_app_id input.app_id
  require (int_leb (pos 1) input.revision) invalid
  let kind = default_kind input.kind
  let schema = if input.schema_version == pos 0 then pos 1 else input.schema_version
  c ← normalize_draft_configuration input.configuration
  validate_revision_definition kind schema c
  ok (record {
    tenant_id = input.tenant_id;
    app_id = input.app_id;
    revision = input.revision;
    state = draft_state;
    draft_version = pos 1;
    kind = kind;
    schema_version = schema;
    configuration = c;
    content_digest = [];
    published_at = none;
    created_at = now;
    updated_at = now;
  })

-- `*left == *right` for pointers that may be nil; NaN differs from itself.
abbrev same_float64 : Option Float64 → Option Float64 → Bool
same_float64 none none = true
same_float64 none (some y) = false
same_float64 (some x) none = false
same_float64 (some x) (some y) = float_eq x y

abbrev same_int : Option ℤ → Option ℤ → Bool
same_int none none = true
same_int none (some y) = false
same_int (some x) none = false
same_int (some x) (some y) = x == y

abbrev pub same_generation_config : GenerationConfig → GenerationConfig → Bool
same_generation_config a b =
    same_float64 a.temperature b.temperature
    && same_float64 a.top_p b.top_p
    && same_int a.max_output_tokens b.max_output_tokens

abbrev pub same_runtime : RuntimePolicy → RuntimePolicy → Bool
same_runtime a b =
    a.max_llm_calls == b.max_llm_calls
    && a.max_tool_calls == b.max_tool_calls
    && bool_eqb a.enable_parallel_tools b.enable_parallel_tools
    && a.max_parallel_tools == b.max_parallel_tools
    && a.execution_timeout_seconds == b.execution_timeout_seconds

unfoldable pub same_tools : List ToolAuthorization → List ToolAuthorization → Bool
same_tools [] [] = true
same_tools [] (b ∷ bs) = false
same_tools (a ∷ rest) [] = false
same_tools (a ∷ rest) (b ∷ bs) =
    a.tool_id == b.tool_id && bool_eqb a.required b.required && same_tools rest bs

unfoldable pub same_draft_configuration : DraftConfiguration → DraftConfiguration → Bool
same_draft_configuration a b =
    a.description == b.description
    && a.instruction == b.instruction
    && a.global_instruction == b.global_instruction
    && a.model_profile_id == b.model_profile_id
    && same_runtime a.runtime b.runtime
    && same_generation_config a.generation b.generation
    && same_tools a.tools b.tools

abbrev pub validate_identity : Revision → Result Error Unit
validate_identity r = do
  validate_tenant_id r.tenant_id
  validate_app_id r.app_id
  require (int_leb (pos 1) r.revision && int_leb (pos 1) r.draft_version) invalid

unfoldable pub validate_configuration : Revision → Result Error Unit
validate_configuration r = do
  c ← normalize_draft_configuration r.configuration
  require (same_draft_configuration r.configuration c) invalid
  validate_revision_definition r.kind r.schema_version r.configuration

abbrev pub validate_timestamps : Revision → Result Error Unit
validate_timestamps r =
    require (not (r.created_at == 0) && not (r.updated_at == 0) && leb r.created_at r.updated_at)
      invalid

-- A publication time that is set, not Go's zero time, not before the creation, and the last update.
abbrev pub is_publication : Option ℕ → ℕ → ℕ → Bool
is_publication none created updated = false
is_publication (some at) created updated = not (at == 0) && leb created at && at == updated

abbrev is_unpublished : Option ℕ → Bool
is_unpublished none = true
is_unpublished (some at) = false

abbrev pub is_draft : RevisionState → Bool
is_draft draft_state = true
is_draft published_state = false
is_draft (unknown_state s) = false

abbrev pub is_published : RevisionState → Bool
is_published draft_state = false
is_published published_state = true
is_published (unknown_state s) = false

module _ (hashing : Hashing) where
  abbrev pub digest_of : Option (List ℕ) → Result Error Text
  digest_of none = err encode_failed
  digest_of (some bytes) = ok (hashing.sha256_hex bytes)

  unfoldable pub compute_content_digest : Revision → Result Error Text
  compute_content_digest r = do
    c ← normalize_draft_configuration r.configuration
    validate_revision_definition r.kind r.schema_version c
    digest_of (
        hashing.marshal
          (record { kind = r.kind; schema_version = r.schema_version; configuration = c }))

  unfoldable pub validate_publication : RevisionState → Revision → Result Error Unit
  validate_publication draft_state r =
      require (is_empty r.content_digest && is_unpublished r.published_at) invalid
  validate_publication published_state r = do
    require (is_publication r.published_at r.created_at r.updated_at) invalid
    digest ← compute_content_digest r
    require (r.content_digest == digest) invalid
  validate_publication (unknown_state s) r = err invalid

  unfoldable pub validate_revision : Revision → Result Error Unit
  unfolding validate_publication
  validate_revision r = do
    validate_identity r
    validate_configuration r
    validate_timestamps r
    validate_publication r.state r

  abbrev pub published_copy : Revision → ℕ → Text → Revision
  published_copy r at digest = record r {
    state = published_state;
    content_digest = digest;
    published_at = some at;
    updated_at = at;
  }

  unfoldable pub publish_revision : ℕ → Revision → Result Error Revision
  publish_revision at r = do
    require (is_draft r.state) immutable_revision
    validate_revision r
    require (not (at == 0) && leb r.updated_at at) invalid
    digest ← compute_content_digest r
    validate_revision (published_copy r at digest)
    ok (published_copy r at digest)
