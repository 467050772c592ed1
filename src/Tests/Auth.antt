-- ===== src/Tests/Auth.antt =====
-- The theorem on authentication at a concrete choice.
use turul_a2a.Dict.{Dict, empty, find, get}
use turul_a2a.Middleware.{
  MiddlewareError, http_challenge, missing_credential, RequestContext, anonymous, authenticated,
  any_of,
}
use turul_a2a.Middleware.Selection.{AllFail}
use turul_a2a.Auth.{Claims, Authentication, api_key, bearer, static_lookup, authenticate}
use turul_a2a.Auth.Accepted.{Among, Answer, IsLetIn}
use turul_a2a.Auth.Choice.{any_of-authenticate}
use turul_a2a.Prelude.{
  ℕ, ◌≡◌, ◌⊎◌, refl, String, Option, none, some, List, [], ◌∷◌, map, ok, err, string_eq, str_eq,
  arith,
}

abbrev keys : Dict String String
keys = record { entries = ("key", "alice") ∷ ("blank", " ") ∷ [] }

abbrev first_header : List (String × String) → String → Option String
first_header headers name = find name headers

abbrev claims_of_bob : Claims
claims_of_bob = record { sub = "bob"; scope = some "read write"; extra = empty }

-- A bearer token with a scope, or a key.
abbrev either : List (Authentication ℕ)
either =
    bearer (record {
      validate = λ token. ok claims_of_bob;
      principal_claim = "sub";
      required_scopes = "write" ∷ [];
      to_value = λ claims. none;
    })
    ∷ api_key (record {
      lookup = static_lookup keys;
      header_name = "x-api-key";
      header_text = first_header;
    })
    ∷ []

abbrev with_key : String → RequestContext
with_key key = record {
  bearer_token = none;
  headers = ("x-api-key", key) ∷ [];
  identity = anonymous;
  extensions = empty;
}

any_of-authenticate_example :
    ((a : Authentication ℕ) × (answer : Answer) × Among a either
      × IsLetIn a (with_key "key") answer
      × (any_of (map authenticate either) (with_key "key") ≡ some answer))
    ⊎ ((errors : List MiddlewareError) × (e : MiddlewareError) × AllFail
          (with_key "key")
          (map authenticate either)
          errors
        × Among e errors
        × (any_of (map authenticate either) (with_key "key") ≡ some (err e, with_key "key")))
any_of-authenticate_example = any_of-authenticate either (with_key "key") (ground arith)

key_lets_in :
    any_of (map authenticate either) (with_key "key")
    ≡ some (ok tt, record (with_key "key") { identity = authenticated "alice" none })
unfolding any_of authenticate find str_eq static_lookup get
key_lets_in = refl

blank_owner :
    any_of (map authenticate either) (with_key "blank")
    ≡ some (err (http_challenge missing_credential), with_key "blank")
unfolding any_of authenticate find str_eq static_lookup get
blank_owner = refl
