-- ===== src/Oidc/Ready.antt =====
-- internal/infra/oidc/auth.go: `Auth.Ready`. The HTTP client and encoding/json are parameters.
use apostas_api.Prelude.{
  ℕ, Bool, true, false, Option, none, some, List, [], ◌∷◌, String, if◌then◌else◌, eqb,
}

-- The answer of a GET: its status, and the texts of `keys` where the body decodes.
pub record KeysAnswer : Type 0 where
  pub status_code : ℕ
  pub raw_keys : Option (List String)

abbrev pub has_keys : Option (List String) → Bool
has_keys none = false
has_keys (some []) = false
has_keys (some (k ∷ ks)) = true

abbrev pub answered_ready : Option KeysAnswer → Bool
answered_ready none = false
answered_ready (some answer) =
    if eqb answer.status_code 200 then has_keys answer.raw_keys else false

-- Whether there is no error; `none` is an error of the request.
unfoldable pub ready : (String → Option KeysAnswer) → String → Bool
ready get jwks_url = answered_ready (get jwks_url)
