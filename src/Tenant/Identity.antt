-- ===== src/Tenant/Identity.antt =====
-- trpcservice/tenant/tenant.go and runtime.go: tenant IDs and the identities of a Runner.
use trpc_agent_service_platf.Base.Text.{
  crockford, all_in, drop, starts_above, codes, has_prefix, is_empty, byte_len, Text,
}
use trpc_agent_service_platf.Base.{
  nat_eq, [], ap, ◌&&◌, not, ◌==◌, ◌>>=◌, require, arith, ◌++◌, ◌∷◌, ◌>>◌, ok, ◌≡◌, Result,
}
use trpc_agent_service_platf.Base.Encoding.{
  Lacks-itoa, separated_injective, prefixed_injective, itoa,
}
use trpc_agent_service_platf.Base.Contexts.{ContextError}

pub data Error : Type 0 where
  invalid not_found conflict duplicate_key disabled invalid_transition random_failed : Error
  context_error : ContextError → Error

unfoldable pub validate_tenant_id : Text → Result Error Unit
validate_tenant_id id = do
  require (byte_len id == 28 && has_prefix id (codes "t_")) invalid
  require (not (starts_above b'7' (drop 2 id))) invalid
  require (all_in crockford (drop 2 id)) invalid

pub record RunnerIdentity : Type 0 where
  pub user_id : Text
  pub session_id : Text

-- The text that namespacedID builds.
unfoldable pub namespaced : Text → Text → Text
namespaced tenant external =
    itoa (byte_len tenant)
    ++ b':' ∷ (tenant ++ b':' ∷ (itoa (byte_len external) ++ b':' ∷ external))

unfoldable pub namespaced_id : Text → Text → Result Error Text
namespaced_id tenant external = do
  require (not (is_empty external)) invalid
  ok (namespaced tenant external)

unfoldable pub new_runner_identity : Text → Text → Text → Result Error RunnerIdentity
new_runner_identity tenant user session = do
  validate_tenant_id tenant
  user_id ← namespaced_id tenant user
  session_id ← namespaced_id tenant session
  ok (record { user_id = user_id; session_id = session_id })

-- Two namespaced texts that are equal come from one tenant and one external ID.
pub namespaced-injective :
    (t t' e e' : Text) → namespaced t e ≡ namespaced t' e' → (t ≡ t') × (e ≡ e')
unfolding namespaced
namespaced-injective t t' e e' h =
    let cut = prefixed_injective t t' _ _ h in
    let tail =
      separated_injective b':' (itoa (byte_len e)) (itoa (byte_len e')) e e'
        (Lacks-itoa (byte_len e)) (Lacks-itoa (byte_len e')) (ap tail_of cut.1) in
    (cut.0, tail.1)
  where
    tail_of : Text → Text
    tail_of [] = []
    tail_of (c ∷ s) = s

-- What an identity that was made looks like.
pub new_runner_identity-namespaced :
    (tenant user session : Text) (r : RunnerIdentity)
    → new_runner_identity tenant user session ≡ ok r
    → (r.user_id ≡ namespaced tenant user) × (r.session_id ≡ namespaced tenant session)
unfolding new_runner_identity namespaced_id
new_runner_identity-namespaced tenant user session r e = (ground arith, ground arith)
