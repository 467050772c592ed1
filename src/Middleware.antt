-- ===== src/Middleware.antt =====
-- The middleware of the server (crates/turul-a2a/src/middleware): the stack that every request
-- passes, the combinator that tries alternatives, and what a failure shows on the wire.
pub mod Selection
use turul_a2a.Message.{Json}
use turul_a2a.Dict.{Dict}
use turul_a2a.Prelude.{
  ℕ, ℤ, negsuc, String, Bool, true, false, Option, none, some, List, [], ◌∷◌, ◌++◌, Result, ok, err,
  ltb, if◌then◌else◌,
}

pub data AuthFailureKind : Type 0 where
  missing_credential invalid_token invalid_api_key : AuthFailureKind
  empty_principal insufficient_scope : AuthFailureKind

-- `AuthFailureKind::reason`
unfoldable pub kind_reason : AuthFailureKind → String
kind_reason missing_credential = "MISSING_CREDENTIAL"
kind_reason invalid_token = "INVALID_TOKEN"
kind_reason invalid_api_key = "INVALID_API_KEY"
kind_reason empty_principal = "EMPTY_PRINCIPAL"
kind_reason insufficient_scope = "INSUFFICIENT_SCOPE"

unfoldable pub bearer_rfc6750_code : AuthFailureKind → Option String
bearer_rfc6750_code invalid_token = some "invalid_token"
bearer_rfc6750_code empty_principal = some "invalid_token"
bearer_rfc6750_code insufficient_scope = some "insufficient_scope"
bearer_rfc6750_code missing_credential = none
bearer_rfc6750_code invalid_api_key = none

pub data MiddlewareError : Type 0 where
  unauthenticated : AuthFailureKind → MiddlewareError
  http_challenge : AuthFailureKind → MiddlewareError
  forbidden : AuthFailureKind → MiddlewareError
  internal : String → MiddlewareError

unfoldable pub precedence : MiddlewareError → ℕ
precedence (forbidden _) = 3
precedence (http_challenge _) = 2
precedence (unauthenticated _) = 1
precedence (internal _) = 0

-- `MiddlewareError::http_status`
unfoldable pub error_status : MiddlewareError → ℕ
error_status (http_challenge insufficient_scope) = 403
error_status (unauthenticated _) = 401
error_status (http_challenge _) = 401
error_status (forbidden _) = 403
error_status (internal _) = 500

-- `MiddlewareError::kind`
unfoldable pub error_kind : MiddlewareError → Option AuthFailureKind
error_kind (unauthenticated k) = some k
error_kind (http_challenge k) = some k
error_kind (forbidden k) = some k
error_kind (internal _) = none

-- `MiddlewareError::reason`
unfoldable pub wire_reason : MiddlewareError → String
unfolding error_kind kind_reason
wire_reason e = elim (error_kind e) [ none ↦ "INTERNAL_ERROR" | some k ↦ kind_reason k ]

-- `AuthIdentity`
pub data AuthIdentity : Type 0 where
  anonymous : AuthIdentity
  authenticated : String → Option Json → AuthIdentity

-- `AuthIdentity::owner`
unfoldable pub identity_owner : AuthIdentity → String
identity_owner anonymous = "anonymous"
identity_owner (authenticated owner _) = owner

pub record RequestContext : Type 0 where
  pub bearer_token : Option String
  pub headers : List (String × String)
  pub identity : AuthIdentity
  pub extensions : Dict String Json

-- `A2aMiddleware::before_request`: the result, and the context as the call leaves it.
abbrev pub Handler : Type 0
Handler = RequestContext → Result MiddlewareError (Unit {0}) × RequestContext

-- `MiddlewareStack::before_request`
unfoldable pub run_stack : List Handler → Handler
run_stack [] ctx = (ok tt, ctx)
run_stack (m ∷ ms) ctx =
    let first = m ctx in
    let rest = run_stack ms first.1 in elim first.0 [ err e ↦ (err e, first.1) | ok _ ↦ rest ]

-- How the loop of `AnyOfMiddleware` ends.
pub data Tried : Type 0 where
  passed : RequestContext → Tried
  fatal : String → Tried
  failed : List MiddlewareError → Tried

-- The loop, with the errors pushed so far; each child gets a copy of the context.
unfoldable pub try_children : List Handler → RequestContext → List MiddlewareError → Tried
try_children [] ctx errors = failed errors
try_children (child ∷ children) ctx errors =
    let attempt = child ctx in
    elim attempt.0 [
      | ok _ ↦ passed attempt.1
      | err (internal msg) ↦ fatal msg
      | err e ↦ try_children children ctx (errors ++ e ∷ [])
    ]

-- One step of the `reduce`: a challenger must exceed the champion.
unfoldable pub stronger : MiddlewareError → MiddlewareError → MiddlewareError
unfolding precedence
stronger champion challenger =
    if ltb (precedence champion) (precedence challenger) then challenger else champion

unfoldable pub select_from : MiddlewareError → List MiddlewareError → MiddlewareError
unfolding stronger
select_from champion [] = champion
select_from champion (e ∷ es) = select_from (stronger champion e) es

-- `errors.into_iter().reduce(..)`
unfoldable pub select : List MiddlewareError → Option MiddlewareError
unfolding select_from
select [] = none
select (e ∷ es) = some (select_from e es)

-- The answer of a choice: `none` where it would panic, with no child, which `new` rules out.
abbrev pub Answer : Type 0
Answer = Option (Result MiddlewareError (Unit {0}) × RequestContext)

abbrev pub answer_of : RequestContext → Tried → Answer
unfolding select
answer_of ctx (passed attempt) =
    some (ok tt, record ctx { identity = attempt.identity; extensions = attempt.extensions })
answer_of ctx (fatal msg) = some (err (internal msg), ctx)
answer_of ctx (failed errors) = elim (select errors) [ none ↦ none | some e ↦ some (err e, ctx) ]

-- `AnyOfMiddleware::before_request`
unfoldable pub any_of : List Handler → RequestContext → Answer
unfolding try_children answer_of
any_of children ctx = answer_of ctx (try_children children ctx [])
