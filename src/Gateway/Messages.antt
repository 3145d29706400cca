-- ===== src/Gateway/Messages.antt =====
-- trpcservice/gateway/gateway.go: errors, identifiers and the message that a request carries.
use trpc_agent_service_platf.Base.Contexts.{nil_context, context, ContextError, Context}
use trpc_agent_service_platf.Base.{
  none, some, list_eq, Option, [], length, eqb, ltb, leb, ◌∷◌, ◌||◌, nat_eq, ◌+◌, ◌&&◌, ok, not,
  false, ◌==◌, ◌>>◌, require, if◌then◌else◌, err, Bool, ℕ, Result,
}
use trpc_agent_service_platf.Base.Text.{
  trim_prefix, crockford, all_in, has_prefix, is_empty, byte_len, codes, trim_space, Text,
}
use trpc_agent_service_platf.Channels.Routing.{group, direct}
use trpc_agent_service_platf.Base.Ints.{negsuc, int_eq, pos, ℤ}

pub data Error : Type 0 where
  invalid unauthenticated plan_unavailable not_ready closed rate_limited duplicate_message
        capacity :
      Error
  context_error : ContextError → Error

abbrev first_error : Option ContextError → Result Error Unit
first_error none = ok tt
first_error (some e) = err (context_error e)

abbrev pub context_err : Context → Result Error Unit
context_err nil_context = err invalid
context_err (context errs) = first_error (errs 0)

-- A setting that is zero takes its default.
abbrev pub or_default : ℤ → ℤ → ℤ
or_default v d = if v == pos 0 then d else v

-- An int that is known not to be negative.
abbrev pub natural : ℤ → ℕ
natural (pos n) = n
natural (negsuc n) = 0

-- A clock that reads the zero time is replaced by the wall clock.
abbrev pub clock : ℕ → ℕ → ℕ
clock sampled wall = if sampled == 0 then wall else sampled

unfoldable pub validate_scoped_id : Text → Text → Result Error Unit
validate_scoped_id value p = do
  require (byte_len value == byte_len p + 26 && has_prefix value p) invalid
  require (all_in crockford (trim_prefix value p)) invalid

unfoldable pub has_control : Text → Bool
has_control [] = false
has_control (c ∷ s) = ltb c 0x20 || eqb c 0x7f || has_control s

unfoldable pub validate_external_id : Text → Result Error Unit
unfolding trim_space has_control
validate_external_id value =
    require
      (not (is_empty (trim_space value)) && not (has_control value) && leb (length value) 1024)
      invalid

pub record InboundMessage : Type 0 where
  pub content : Text
  pub content_type : Text
  pub external_message_id : Text
  pub external_user_id : Text
  pub conversation_kind : Text
  pub external_peer_id : Text
  pub external_chat_id : Text
  pub external_thread_id : Text

abbrev pub content_type_text : Text
content_type_text = codes "text"

-- A text that may be absent.
abbrev validate_optional : Text → Result Error Unit
validate_optional value = if is_empty value then ok tt else validate_external_id value

-- The switch over the conversation kind.
unfoldable pub validate_peer : InboundMessage → Result Error Unit
unfolding validate_external_id
validate_peer m =
    if m.conversation_kind == direct
    then validate_external_id m.external_peer_id
    else if m.conversation_kind == group
    then validate_external_id m.external_chat_id
    else err invalid

-- What Normalize requires of a message whose content is trimmed and whose type is filled in.
unfoldable pub validate_message : InboundMessage → Result Error Unit
unfolding validate_external_id validate_peer
validate_message m = do
  let type_ = m.content_type
  require (type_ == content_type_text || type_ == codes "media" || type_ == codes "rich") invalid
  require (leb 1 (length m.content) && leb (length m.content) 65536) invalid
  validate_optional m.external_message_id
  validate_external_id m.external_user_id
  validate_peer m
  validate_optional m.external_thread_id

abbrev pub cleaned : InboundMessage → InboundMessage
cleaned m = record m {
  content = trim_space m.content;
  content_type = if is_empty m.content_type then content_type_text else m.content_type;
}

unfoldable pub normalize : InboundMessage → Result Error InboundMessage
unfolding validate_message trim_space
normalize m = do let clone = cleaned m; validate_message clone; ok clone
