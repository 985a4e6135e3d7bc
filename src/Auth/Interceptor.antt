-- ===== src/Auth/Interceptor.antt =====
-- internal/auth/grpc.go: the credential of the calls between the services. A server reads the values of the
-- "authorization" key, if there is metadata; a client appends one. A value is the list of its characters.
pub mod Agreement
use gearshare.Prelude.{
  ℕ, Bool, true, false, ◌&&◌, ◌||◌, Option, none, some, List, [], ◌∷◌, ◌++◌, String, leb, ◌==◌,
  if◌then◌else◌, same,
}
use gearshare.Prelude.Text.{codes}
use gearshare.Codec.Base64.{encode_std}
use gearshare.Codec.Scan.{is_space}

-- The answer of a gRPC call: what the handler returns, or an error status.
pub data Rpc (A : Type 0) : Type 0 where
  reply : A → Rpc A
  unauthenticated not_found unavailable : String → Rpc A

unfoldable pub trim_start : List ℕ → List ℕ
trim_start [] = []
trim_start (c ∷ s) = let rest = trim_start s in if is_space c then rest else c ∷ s

abbrev keep_before : ℕ → List ℕ → List ℕ
keep_before c [] = if is_space c then [] else c ∷ []
keep_before c (d ∷ s) = c ∷ d ∷ s

unfoldable pub trim_end : List ℕ → List ℕ
trim_end [] = []
trim_end (c ∷ s) = keep_before c (trim_end s)

-- `strings.TrimSpace`
unfoldable pub trim_space : List ℕ → List ℕ
trim_space s = trim_end (trim_start s)

-- `expected` of the server, and `value` of the client.
unfoldable pub credential : List ℕ → List ℕ → List ℕ
credential username password = codes "Basic " ++ encode_std (username ++ b':' ∷ password)

module _ (username password : List ℕ) where
  -- By the metadata, what a refusal is with its message, and what the handler answers.
  unfoldable pub intercept : {A : Type 0} → Option (List (List ℕ)) → (String → A) → A → A
  unfolding credential trim_space
  intercept none refused handled = refused "missing metadata"
  intercept (some []) refused handled = refused "invalid credentials"
  intercept (some (value ∷ _)) refused handled =
      if same (trim_space value) (credential username password)
      then handled
      else refused "invalid credentials"

  unfoldable pub client_intercept : List (List ℕ) → List (List ℕ)
  unfolding credential
  client_intercept outgoing = outgoing ++ credential username password ∷ []
