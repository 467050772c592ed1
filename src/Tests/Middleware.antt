-- ===== src/Tests/Middleware.antt =====
-- The theorem on the choice of middleware at a concrete choice.
use turul_a2a.Prelude.{◌≡◌, ◌⊎◌, String, none, some, List, [], ◌∷◌, ok, err, arith}
use turul_a2a.Dict.{empty}
use turul_a2a.Middleware.{
  MiddlewareError, http_challenge, internal, missing_credential, RequestContext, Handler, anonymous,
  authenticated, any_of,
}
use turul_a2a.Middleware.Selection.{AllFail, IsFirstOf, IsStrongest, any_of_lem}

abbrev deny : Handler
deny ctx = (err (http_challenge missing_credential), ctx)

abbrev admit : Handler
admit ctx = (ok tt, record ctx { identity = authenticated "alice" none })

abbrev choice : List Handler
choice = deny ∷ admit ∷ []

abbrev context : RequestContext
context = record { bearer_token = none; headers = []; identity = anonymous; extensions = empty }

any_of_lem_example :
    ((child : Handler) × IsFirstOf context choice child
      × ((child context).0 ≡ ok tt)
      × (any_of choice context
          ≡ some (
            ok tt,
            record context {
              identity = ((child context).1).identity;
              extensions = ((child context).1).extensions;
            },
          )))
    ⊎ ((child : Handler) × (msg : String) × IsFirstOf context choice child
        × ((child context).0 ≡ err (internal msg))
        × (any_of choice context ≡ some (err (internal msg), context)))
    ⊎ ((errors : List MiddlewareError) × (e : MiddlewareError) × AllFail context choice errors
        × IsStrongest errors e
        × (any_of choice context ≡ some (err e, context)))
any_of_lem_example = any_of_lem choice context (ground arith)
