-- ===== src/Gateway/Idempotency/Keys.antt =====
-- trpcservice/gateway/idempotency.go: what one key of the store says of a caller and a message.
use trpc_agent_service_platf.Gateway.Messages.{
  Error, validate_message, context_err, cleaned, InboundMessage, normalize, invalid,
  unauthenticated,
}
use trpc_agent_service_platf.Base.{
  Result, not, require, nat_eq, list_eq, wrap_err, ==_iff, ◌∙◌, if◌then◌else◌, sym, ap, >>=-eq-ok,
  zero, [], ◌∷◌, suc, ok, ◌≡◌, ℕ, List,
}
use trpc_agent_service_platf.Gateway.Principals.{validate_principal, principal_channel, Principal}
use trpc_agent_service_platf.Gateway.Idempotency.{
  route_parts, make_idempotency_key, key_parts, channel_parts, begin_key,
}
use trpc_agent_service_platf.Base.Contexts.{Context}
use trpc_agent_service_platf.Base.Text.{is_empty, Text}
use trpc_agent_service_platf.Base.Encoding.{encode_parts-injective, encode_parts}

-- Two messages are one message of one caller.
pub record IsSameMessage (p : Principal) (m : InboundMessage) (p' : Principal) (m' : InboundMessage)
    : Type 0 where
  pub kind : p.kind ≡ p'.kind
  pub tenant : p.tenant_id ≡ p'.tenant_id
  pub app : p.app_id ≡ p'.app_id
  pub subject : p.subject_id ≡ p'.subject_id
  pub conversation : m.conversation_kind ≡ m'.conversation_kind
  pub user : m.external_user_id ≡ m'.external_user_id
  pub peer : m.external_peer_id ≡ m'.external_peer_id
  pub chat : m.external_chat_id ≡ m'.external_chat_id
  pub thread : m.external_thread_id ≡ m'.external_thread_id
  pub message : m.external_message_id ≡ m'.external_message_id
  pub binding :
      p.kind ≡ principal_channel
      → (p.routing_target.fields.channel ≡ p'.routing_target.fields.channel)
        × (p.routing_target.fields.binding_id ≡ p'.routing_target.fields.binding_id)

abbrev drop_parts : ℕ → List Text → List Text
drop_parts zero ps = ps
drop_parts (suc n) [] = []
drop_parts (suc n) (p ∷ ps) = drop_parts n ps

abbrev first_part : List Text → Text
first_part [] = []
first_part (p ∷ ps) = p

channel_parts-channel :
    (p : Principal)
    → p.kind ≡ principal_channel
    → channel_parts p ≡ route_parts p.routing_target.fields
unfolding channel_parts
channel_parts-channel p h =
    ap (λ b. if b then route_parts p.routing_target.fields else [])
      ((==_iff p.kind principal_channel).1 h)

ok-injective : {a b : Text} → Path (Result Error Text) (ok a) (ok b) → a ≡ b
ok-injective h = cc

normalize-cleaned : (m n : InboundMessage) → normalize m ≡ ok n → n ≡ cleaned m
unfolding normalize
normalize-cleaned m n h = let (_, _, last) = >>=-eq-ok (validate_message (cleaned m)) _ h in cc

begin_key-encodes :
    (ctx : Context) (p : Principal) (m : InboundMessage) (key : Text)
    → begin_key ctx p m ≡ ok key
    → key ≡ encode_parts (key_parts p m)
unfolding begin_key make_idempotency_key key_parts
begin_key-encodes ctx p m key h =
    let (_, _, h₁) = >>=-eq-ok (context_err ctx) _ h in
    let (_, _, h₂) = >>=-eq-ok (wrap_err (λ _. unauthenticated) (validate_principal p)) _ h₁ in
    let (n, is_n, h₃) = >>=-eq-ok (normalize m) _ h₂ in
    let (_, _, h₄) = >>=-eq-ok (require (not (is_empty n.external_message_id)) invalid) _ h₃ in
    let (_, _, h₅) = >>=-eq-ok (wrap_err (λ _. unauthenticated) (validate_principal p)) _ h₄ in
    sym (ok-injective h₅) ∙ ap (λ x. encode_parts (key_parts p x)) (normalize-cleaned m n is_n)

-- When two messages get one key in the store, they are one external message, of one external user
-- in one conversation and thread, that one caller of one tenant and application sent; for a channel
-- the callers are of one channel and binding.
pub begin_key-separates :
    (ctx ctx' : Context) (p p' : Principal) (m m' : InboundMessage) (key : Text)
    → begin_key ctx p m ≡ ok key
    → begin_key ctx' p' m' ≡ ok key
    → IsSameMessage p m p' m'
unfolding key_parts
begin_key-separates ctx ctx' p p' m m' key h h' =
    let parts =
      encode_parts-injective _ _
        (sym (begin_key-encodes ctx p m key h) ∙ begin_key-encodes ctx' p' m' key h') in
    let at = λ (n : ℕ). ap (λ ps. first_part (drop_parts n ps)) parts in
    record {
      kind = at 0;
      tenant = at 1;
      app = at 2;
      subject = at 3;
      conversation = at 4;
      user = at 5;
      peer = at 6;
      chat = at 7;
      thread = at 8;
      message = at 9;
      binding = λ is_channel.
          let same =
            sym (channel_parts-channel p is_channel)
            ∙ ap (drop_parts 10) parts
            ∙ channel_parts-channel p' (sym (at 0) ∙ is_channel) in
          (ap first_part same, ap (λ ps. first_part (drop_parts 1 ps)) same);
    }
