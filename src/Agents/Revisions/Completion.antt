-- ===== src/Agents/Revisions/Completion.antt =====
-- trpcservice/agent/revision.go: when Revision.Publish succeeds. The encoder is only asked to encode
-- configurations that were accepted, whose numbers are finite.
use trpc_agent_service_platf.Base.{
  leb, not, ◌∷◌, [], ==_refl, require-true, >>=-ok, ◌∙◌, require-holds, ◌≤◌, ok-injective, require,
  ◌<◌, >>=-eq-ok, ok, if◌then◌else◌, ap, ==_iff, bool_eqb, arith, ◌==◌, ◌&&◌, pair_eq, nat_eq,
  list_eq,
}
use trpc_agent_service_platf.Base.Ints.{ℤ, int_eq}
use trpc_agent_service_platf.Base.{
  [], none, inr, eqb_iff, sym, subst, inl, eqb, Bool-cases, some, refl, false, true, Bool, ◌≡◌, ℕ,
  List, Option,
}
use trpc_agent_service_platf.Agents.Drafts.{
  normalize_tools, DraftConfiguration, Kind, validate_revision_definition,
  normalize_draft_configuration, plain_zero, in_range, normalize_generation_config,
  ToolAuthorization, GenerationConfig, validate_generation_config, RuntimePolicy,
}
use trpc_agent_service_platf.Agents.Revisions.{
  digest_of, validate_timestamps, validate_identity, published_copy, same_generation_config,
  is_draft, validate_publication, Revision, validate_revision, compute_content_digest,
  validate_configuration, same_draft_configuration, publish_revision, Payload, Hashing,
  same_runtime, same_tools,
}
use trpc_agent_service_platf.Base.Floats.{nan, finite, infinite, Float64}
use trpc_agent_service_platf.Base.Ints.{negsuc, pos}
use trpc_agent_service_platf.Base.Text.{Text}
use trpc_agent_service_platf.Agents.Apps.{immutable_revision, invalid}

-- Normalizing zeros does not change what the ranges allow.
in_range-plain_zero :
    (x : Option Float64) (most : ℕ) (zero_too : Bool)
    → in_range (plain_zero x) most zero_too ≡ in_range x most zero_too
in_range-plain_zero none most zero_too = refl
in_range-plain_zero (some nan) most zero_too = refl
in_range-plain_zero (some (infinite s)) most zero_too = refl
in_range-plain_zero (some (finite s m (pos e))) most zero_too = elim (Bool-cases (eqb m 0)) [
  | inl zero ↦
      subst
        (λ k.
          in_range (plain_zero (some (finite s k (pos e)))) most zero_too
          ≡ in_range (some (finite s k (pos e))) most zero_too)
        (sym ((eqb_iff m 0).0 zero)) (ground arith)
  | inr other ↦
      ap
        (λ b.
          in_range (some (if b then finite false 0 (pos 0) else finite s m (pos e))) most zero_too)
        other
]
in_range-plain_zero (some (finite s m (negsuc e))) most zero_too = elim (Bool-cases (eqb m 0)) [
  | inl zero ↦
      subst
        (λ k.
          in_range (plain_zero (some (finite s k (negsuc e)))) most zero_too
          ≡ in_range (some (finite s k (negsuc e))) most zero_too)
        (sym ((eqb_iff m 0).0 zero)) (ground arith)
  | inr other ↦
      ap
        (λ b.
          in_range (some (if b then finite false 0 (pos 0) else finite s m (negsuc e))) most
            zero_too)
        other
]

normalized-validate_generation_config :
    (g : GenerationConfig)
    → validate_generation_config (normalize_generation_config g) ≡ validate_generation_config g
unfolding validate_generation_config
normalized-validate_generation_config g =
    rw (in_range-plain_zero g.temperature 2 true, in_range-plain_zero g.top_p 1 false) refl

&&-split : (a b : Bool) → (a && b) ≡ true → (a ≡ true) × (b ≡ true)
&&-split true b h = (refl, h)
&&-split false b h = cc

bool_eqb-eq : (a b : Bool) → bool_eqb a b ≡ true → a ≡ b
bool_eqb-eq true true h = refl
bool_eqb-eq false false h = refl
bool_eqb-eq true false h = cc
bool_eqb-eq false true h = cc

same_tools-eq : (a b : List ToolAuthorization) → same_tools a b ≡ true → a ≡ b
unfolding same_tools
same_tools-eq [] [] h = refl
same_tools-eq [] (b ∷ bs) h = cc
same_tools-eq (a ∷ xs) [] h = cc
same_tools-eq (a ∷ xs) (b ∷ bs) h =
    let (h₁, rest) = &&-split (a.tool_id == b.tool_id && bool_eqb a.required b.required) _ h in
    let (ids, required) = &&-split (a.tool_id == b.tool_id) _ h₁ in
    let e₁ = (==_iff a.tool_id b.tool_id).0 ids in
    let e₂ = bool_eqb-eq a.required b.required required in let e₃ = same_tools-eq xs bs rest in cc

same_runtime-eq : (a b : RuntimePolicy) → same_runtime a b ≡ true → a ≡ b
same_runtime-eq a b h =
    let (h₁, t) = &&-split _ (a.execution_timeout_seconds == b.execution_timeout_seconds) h in
    let (h₂, p) = &&-split _ (a.max_parallel_tools == b.max_parallel_tools) h₁ in
    let (h₃, e) = &&-split _ (bool_eqb a.enable_parallel_tools b.enable_parallel_tools) h₂ in
    let (l, m) =
      &&-split (a.max_llm_calls == b.max_llm_calls) (a.max_tool_calls == b.max_tool_calls) h₃ in
    let e₁ = (==_iff a.max_llm_calls b.max_llm_calls).0 l in
    let e₂ = (==_iff a.max_tool_calls b.max_tool_calls).0 m in
    let e₃ = bool_eqb-eq a.enable_parallel_tools b.enable_parallel_tools e in
    let e₄ = (==_iff a.max_parallel_tools b.max_parallel_tools).0 p in
    let e₅ = (==_iff a.execution_timeout_seconds b.execution_timeout_seconds).0 t in cc

-- A configuration that is the same as its normal form differs from it in the zeros only.
normalized-is :
    (c n : DraftConfiguration)
    → normalize_draft_configuration c ≡ ok n
    → same_draft_configuration c n ≡ true
    → n ≡ record c { generation = normalize_generation_config c.generation }
unfolding normalize_draft_configuration same_draft_configuration
normalized-is c n h same =
    let (ts, _, last) = >>=-eq-ok (normalize_tools c.tools) _ h in
    let (s₁, tools) = &&-split _ (same_tools c.tools n.tools) same in
    let (s₂, _) = &&-split _ (same_generation_config c.generation n.generation) s₁ in
    let (s₃, runtime) = &&-split _ (same_runtime c.runtime n.runtime) s₂ in
    let (s₄, profile) = &&-split _ (c.model_profile_id == n.model_profile_id) s₃ in
    let (s₅, global) = &&-split _ (c.global_instruction == n.global_instruction) s₄ in
    let (description, instruction) =
      &&-split (c.description == n.description) (c.instruction == n.instruction) s₅ in
    let e₁ = same_tools-eq c.tools n.tools tools in
    let e₂ = same_runtime-eq c.runtime n.runtime runtime in
    let e₃ = (==_iff c.model_profile_id n.model_profile_id).0 profile in
    let e₄ = (==_iff c.global_instruction n.global_instruction).0 global in
    let e₅ = (==_iff c.description n.description).0 description in
    let e₆ = (==_iff c.instruction n.instruction).0 instruction in
    let e₇ = ap (λ x. x.generation) (ok-injective last) in cc

normalized-validate_revision_definition :
    (kind : Kind) (schema : ℤ) (c : DraftConfiguration)
    → validate_revision_definition kind schema
        (record c { generation = normalize_generation_config c.generation })
      ≡ validate_revision_definition kind schema c
unfolding validate_revision_definition
normalized-validate_revision_definition kind schema c =
    rw (normalized-validate_generation_config c.generation) refl

module _ (hashing : Hashing) where
  -- The encoder encodes every payload that the code accepts.
  abbrev pub Encodes : Type 0
  Encodes =
      (p : Payload)
      → validate_revision_definition p.kind p.schema_version p.configuration ≡ ok tt
      → (bytes : List ℕ) × (hashing.marshal p ≡ some bytes)

  -- A configuration that is accepted can be hashed.
  validate_configuration-digest :
      (r : Revision)
      → Encodes
      → validate_configuration r ≡ ok tt
      → (digest : Text) × (compute_content_digest hashing r ≡ ok digest)
  unfolding validate_configuration compute_content_digest
  validate_configuration-digest r encodes h =
      let (n, normal, h₁) = >>=-eq-ok (normalize_draft_configuration r.configuration) _ h in
      let (_, same, valid) =
        >>=-eq-ok (require (same_draft_configuration r.configuration n) invalid) _ h₁ in
      let is = normalized-is r.configuration n normal (require-holds _ invalid same) in
      let accepted =
        ap (validate_revision_definition r.kind r.schema_version) is
        ∙ normalized-validate_revision_definition r.kind r.schema_version r.configuration
        ∙ valid in
      let (bytes, encoded) =
        encodes (record { kind = r.kind; schema_version = r.schema_version; configuration = n })
          accepted in
      (
        hashing.sha256_hex bytes,
        >>=-ok _ _ normal (>>=-ok _ _ accepted (ap (digest_of hashing) encoded)),
      )

  -- Publish succeeds on every draft that passes Validate, at every time that is not Go's zero time
  -- and not before its last update, when the encoder encodes the payloads that the code accepts.
  pub publish_revision-succeeds :
      (at : ℕ) (r : Revision)
      → Encodes
      → is_draft r.state ≡ true
      → validate_revision hashing r ≡ ok tt
      → 0 < at
      → r.updated_at ≤ at
      → (digest : Text) × (publish_revision hashing at r ≡ ok (published_copy hashing r at digest))
  unfolding publish_revision validate_revision validate_publication validate_configuration
      compute_content_digest
  publish_revision-succeeds at r encodes draft valid later after =
      let (_, identity, h₁) = >>=-eq-ok (validate_identity r) _ valid in
      let (_, configuration, h₂) = >>=-eq-ok (validate_configuration r) _ h₁ in
      let (_, stamps, _) = >>=-eq-ok (validate_timestamps r) _ h₂ in
      let ordered = require-holds _ invalid stamps in
      let (digest, hashed) = validate_configuration-digest r encodes configuration in
      (
        digest,
        >>=-ok _ _ (require-true _ immutable_revision draft) (
            >>=-ok _ _ valid (
              >>=-ok _ _
                (require-true (not (at == 0) && leb r.updated_at at) invalid
                  (ground (arith, later, after)))
                (>>=-ok _ _ hashed (
                  >>=-ok _ _
                    (>>=-ok _ _ identity (
                      >>=-ok _ _ configuration (
                        >>=-ok _ _
                          (require-true
                            (not (r.created_at == 0) && not (at == 0) && leb r.created_at at)
                            invalid (ground (arith, ordered, later, after)))
                          (>>=-ok _ _
                            (require-true (not (at == 0) && leb r.created_at at && at == at) invalid
                              (ground (arith, ordered, later, after)))
                            (>>=-ok _ _ hashed (require-true _ invalid (==_refl digest)))))))
                    refl)))),
      )
