-- ===== src/Auth.antt =====
-- The authentication middlewares (crates/turul-a2a-auth/src: api_key.rs, bearer.rs). The lookup of
-- keys and the JWT validator are parameters, as are the reading of a header and the JSON of the
-- claims.
pub mod Accepted
pub mod Choice
use Prim.Native.Char.{Char, code}
use turul_a2a.Message.{Json, string}
use turul_a2a.Dict.{Dict, get}
use turul_a2a.Middleware.{
  AuthFailureKind, MiddlewareError, unauthenticated, http_challenge, missing_credential,
  invalid_token, invalid_api_key, empty_principal, insufficient_scope, RequestContext, AuthIdentity,
  authenticated, Handler,
}
use turul_a2a.Prelude.{
  ℕ, String, Bool, true, false, Option, none, some, List, [], ◌∷◌, Result, ok, err, ltb, leb, ◌==◌,
  ◌&&◌, ◌||◌, not, if◌then◌else◌, str_eq, string_eq,
}

-- `char::is_whitespace`: the Unicode property White_Space
unfoldable pub is_whitespace : ℕ → Bool
is_whitespace c =
    (leb 9 c && leb c 13)
    || (c == 32)
    || (c == 133)
    || (c == 160)
    || (c == 5760)
    || (leb 8192 c && leb c 8202)
    || (c == 8232)
    || (c == 8233)
    || (c == 8239)
    || (c == 8287)
    || (c == 12288)

-- `owner.trim().is_empty()`
unfoldable pub is_blank : String → Bool
unfolding is_whitespace
is_blank String.[] = true
is_blank (String.◌∷◌ c s) = is_whitespace (code c) && is_blank s

-- `StaticApiKeyLookup` and `RedactedApiKeyLookup`
unfoldable pub static_lookup : Dict String String → String → Option String
static_lookup keys key = get keys key

-- `ApiKeyMiddleware`, with `headers.get(name).and_then(to_str)` of the header map
pub record ApiKeyMiddleware : Type 0 where
  pub lookup : String → Option String
  pub header_name : String
  pub header_text : List (String × String) → String → Option String

abbrev pub rejected :
    MiddlewareError → RequestContext → Result MiddlewareError (Unit {0}) × RequestContext
rejected e ctx = (err e, ctx)

-- The end of both methods: an owner that is blank is refused.
abbrev pub with_owner :
    String → Option Json → RequestContext → Result MiddlewareError (Unit {0}) × RequestContext
unfolding is_blank
with_owner owner claims ctx =
    if is_blank owner
    then rejected (unauthenticated empty_principal) ctx
    else (ok tt, record ctx { identity = authenticated owner claims })

-- `ApiKeyMiddleware::before_request`
unfoldable pub check_api_key : ApiKeyMiddleware → Handler
unfolding with_owner
check_api_key m ctx = elim (m.header_text ctx.headers m.header_name) [
  | none ↦ rejected (unauthenticated missing_credential) ctx
  | some key ↦
      if str_eq key ""
      then rejected (unauthenticated missing_credential) ctx
      else elim (m.lookup key) [
        | none ↦ rejected (unauthenticated invalid_api_key) ctx
        | some owner ↦ with_owner owner none ctx
      ]
]

-- Of what the validator gives for a token, the fields that the middleware reads; `to_value` makes
-- the JSON of all of it.
pub record Claims : Type 0 where
  pub sub : String
  pub scope : Option String
  pub extra : Dict String Json

-- `BearerMiddleware`, with `serde_json::to_value(..).ok()` of the claims
pub record BearerMiddleware (Error : Type 0) : Type 0 where
  pub validate : String → Result Error Claims
  pub principal_claim : String
  pub required_scopes : List String
  pub to_value : Claims → Option Json

-- `scope_str.split(' ')`
abbrev pub onto_token : Char → List String → List String
onto_token c [] = String.◌∷◌ c String.[] ∷ []
onto_token c (token ∷ tokens) = String.◌∷◌ c token ∷ tokens

unfoldable pub split_spaces : String → List String
split_spaces String.[] = String.[] ∷ []
split_spaces (String.◌∷◌ c s) =
    let tokens = split_spaces s in if code c == 32 then String.[] ∷ tokens else onto_token c tokens

-- `present.contains(s)`
unfoldable pub has_scope : String → List String → Bool
has_scope scope [] = false
has_scope scope (token ∷ tokens) = str_eq scope token || has_scope scope tokens

unfoldable pub has_scopes : List String → List String → Bool
unfolding has_scope
has_scopes [] present = true
has_scopes (scope ∷ scopes) present = has_scope scope present && has_scopes scopes present

abbrev pub or_empty_text : Option String → String
or_empty_text none = ""
or_empty_text (some s) = s

unfoldable pub enforce_required_scopes :
    List String → Option String → Result MiddlewareError (Unit {0})
unfolding split_spaces has_scopes
enforce_required_scopes [] claims_scope = ok tt
enforce_required_scopes (scope ∷ scopes) claims_scope =
    if has_scopes (scope ∷ scopes) (split_spaces (or_empty_text claims_scope))
    then ok tt
    else err (http_challenge insufficient_scope)

-- The claim that names the owner
abbrev pub text_of : Option Json → String
text_of (some (string s)) = s
text_of _ = ""

unfoldable pub principal : {Error : Type 0} → BearerMiddleware Error → Claims → String
principal m claims =
    if str_eq m.principal_claim "sub"
    then claims.sub
    else text_of (get claims.extra m.principal_claim)

-- `BearerMiddleware::before_request` behind the validator
unfoldable pub check_claims : {Error : Type 0} → BearerMiddleware Error → Claims → Handler
unfolding principal is_blank enforce_required_scopes
check_claims m claims ctx =
    if is_blank (principal m claims)
    then rejected (unauthenticated empty_principal) ctx
    else elim (enforce_required_scopes m.required_scopes claims.scope) [
      | err e ↦ rejected e ctx
      | ok _ ↦
          (ok tt, record ctx { identity = authenticated (principal m claims) (m.to_value claims) })
    ]

-- `BearerMiddleware::before_request`
unfoldable pub check_bearer : {Error : Type 0} → BearerMiddleware Error → Handler
unfolding check_claims
check_bearer m ctx = elim ctx.bearer_token [
  | none ↦ rejected (http_challenge missing_credential) ctx
  | some token ↦ elim (m.validate token) [
    | err _ ↦ rejected (http_challenge invalid_token) ctx
    | ok claims ↦ check_claims m claims ctx
  ]
]

-- A middleware of this crate.
pub data Authentication (Error : Type 0) : Type 0 where
  api_key : ApiKeyMiddleware → Authentication Error
  bearer : BearerMiddleware Error → Authentication Error

unfoldable pub authenticate : {Error : Type 0} → Authentication Error → Handler
unfolding check_api_key check_bearer
authenticate (api_key m) = check_api_key m
authenticate (bearer m) = check_bearer m
