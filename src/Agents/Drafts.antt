-- ===== src/Agents/Drafts.antt =====
-- trpcservice/agent/revision.go: the configuration of a draft, how it is normalized and what it
-- has to satisfy.
use trpc_agent_service_platf.Agents.Apps.{Error, invalid}
use trpc_agent_service_platf.Base.{
  nat_eq, list_eq, map, length, ◌||◌, not, none, leb, ◌∷◌, some, require, if◌then◌else◌, [], ◌&&◌,
  ◌>>◌, ◌>>=◌, true, ok, false, ◌==◌, ℕ, Result, Option, List, Bool,
}
use trpc_agent_service_platf.Base.Text.{text_ltb, trim_space, Text}
use trpc_agent_service_platf.Base.Ints.{int_eq, int_leb, ℤ, pos}
use trpc_agent_service_platf.Base.Floats.{
  float_above, float_is_neg, finite, is_finite, float_is_zero, Float64,
}
use trpc_agent_service_platf.Base.Sorting.{sort}

pub data Kind : Type 0 where
  llm unset_kind : Kind
  unknown_kind : Text → Kind

pub record GenerationConfig : Type 0 where
  pub temperature : Option Float64
  pub top_p : Option Float64
  pub max_output_tokens : Option ℤ

pub record RuntimePolicy : Type 0 where
  pub max_llm_calls : ℤ
  pub max_tool_calls : ℤ
  pub enable_parallel_tools : Bool
  pub max_parallel_tools : ℤ
  pub execution_timeout_seconds : ℤ

pub record ToolAuthorization : Type 0 where
  pub tool_id : Text
  pub required : Bool

pub record DraftConfiguration : Type 0 where
  pub description : Text
  pub instruction : Text
  pub global_instruction : Text
  pub model_profile_id : Text
  pub generation : GenerationConfig
  pub runtime : RuntimePolicy
  pub tools : List ToolAuthorization

abbrev pub default_runtime_policy : RuntimePolicy
default_runtime_policy = record {
  max_llm_calls = pos 16;
  max_tool_calls = pos 64;
  enable_parallel_tools = false;
  max_parallel_tools = pos 1;
  execution_timeout_seconds = pos 300;
}

abbrev is_zero_policy : RuntimePolicy → Bool
is_zero_policy p =
    p.max_llm_calls == pos 0
    && p.max_tool_calls == pos 0
    && not p.enable_parallel_tools
    && p.max_parallel_tools == pos 0
    && p.execution_timeout_seconds == pos 0

-- Minus zero becomes zero.
abbrev pub plain_zero : Option Float64 → Option Float64
plain_zero none = none
plain_zero (some x) = some (if float_is_zero x then finite false 0 (pos 0) else x)

abbrev pub normalize_generation_config : GenerationConfig → GenerationConfig
normalize_generation_config g = record g {
  temperature = plain_zero g.temperature;
  top_p = plain_zero g.top_p;
}

abbrev trim_tool : ToolAuthorization → ToolAuthorization
trim_tool t = record t { tool_id = trim_space t.tool_id }

-- The loop over the tools, with the IDs seen so far.
unfoldable pub check_tools : List Text → List ToolAuthorization → Result Error Unit
check_tools seen [] = ok tt
check_tools seen (t ∷ ts) = do
  let id = trim_space t.tool_id
  require (leb 1 (length id) && leb (length id) 256) invalid
  require (not (is_seen id seen)) invalid
  check_tools (id ∷ seen) ts
  where
    is_seen : Text → List Text → Bool
    is_seen id [] = false
    is_seen id (x ∷ xs) = let rest = is_seen id xs in x == id || rest

abbrev pub tool_before : ToolAuthorization → ToolAuthorization → Bool
tool_before a b = text_ltb a.tool_id b.tool_id

unfoldable pub normalize_tools : List ToolAuthorization → Result Error (List ToolAuthorization)
unfolding check_tools
normalize_tools tools = do check_tools [] tools; ok (sort tool_before (map trim_tool tools))

unfoldable pub normalize_draft_configuration : DraftConfiguration → Result Error DraftConfiguration
unfolding normalize_tools
normalize_draft_configuration c = do
  tools ← normalize_tools c.tools
  ok (record {
    description = trim_space c.description;
    instruction = c.instruction;
    global_instruction = c.global_instruction;
    model_profile_id = trim_space c.model_profile_id;
    generation = normalize_generation_config c.generation;
    runtime = if is_zero_policy c.runtime then default_runtime_policy else c.runtime;
    tools = tools;
  })

abbrev pub in_range : Option Float64 → ℕ → Bool → Bool
in_range none most zero_too = true
in_range (some x) most zero_too =
    is_finite x
    && not (float_is_neg x)
    && (zero_too || not (float_is_zero x))
    && not (float_above x most)

abbrev are_tokens : Option ℤ → Bool
are_tokens none = true
are_tokens (some n) = int_leb (pos 1) n && int_leb n (pos 1000000)

unfoldable pub validate_generation_config : GenerationConfig → Result Error Unit
validate_generation_config g = do
  require (in_range g.temperature 2 true) invalid
  require (in_range g.top_p 1 false) invalid
  require (are_tokens g.max_output_tokens) invalid

abbrev between : ℕ → ℤ → ℕ → Bool
between least v most = int_leb (pos least) v && int_leb v (pos most)

unfoldable pub validate_runtime_policy : RuntimePolicy → Result Error Unit
validate_runtime_policy p = do
  require (between 1 p.max_llm_calls 100) invalid
  require (between 0 p.max_tool_calls 1000) invalid
  require (between 1 p.max_parallel_tools 64) invalid
  require (p.enable_parallel_tools || p.max_parallel_tools == pos 1) invalid
  require (between 1 p.execution_timeout_seconds 3600) invalid

abbrev pub is_llm : Kind → Bool
is_llm llm = true
is_llm unset_kind = false
is_llm (unknown_kind s) = false

unfoldable pub validate_revision_definition : Kind → ℤ → DraftConfiguration → Result Error Unit
unfolding validate_generation_config validate_runtime_policy
validate_revision_definition kind schema c = do
  require (is_llm kind && schema == pos 1) invalid
  require (leb (length c.description) 2000) invalid
  let n = length (trim_space c.instruction)
  require (leb 1 n && leb n 65536) invalid
  require (leb (length c.global_instruction) 65536) invalid
  require (leb 1 (length c.model_profile_id) && leb (length c.model_profile_id) 256) invalid
  validate_generation_config c.generation
  validate_runtime_policy c.runtime
  sorted ← normalize_tools c.tools
  ok tt
