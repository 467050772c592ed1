-- ===== src/Auth/Accepted.antt =====
-- What a request shows that has passed an authentication middleware (crates/turul-a2a-auth/src).
use turul_a2a.Message.{Json}
use turul_a2a.Middleware.{
  MiddlewareError, unauthenticated, http_challenge, precedence, missing_credential, invalid_token,
  invalid_api_key, empty_principal, RequestContext, authenticated,
}
use turul_a2a.Auth.{
  ApiKeyMiddleware, BearerMiddleware, Claims, Authentication, api_key, bearer, is_blank, with_owner,
  check_api_key, has_scope, has_scopes, split_spaces, or_empty_text, enforce_required_scopes,
  principal, check_claims, check_bearer, authenticate,
}
use turul_a2a.Prelude.{
  ◌<◌, ◌≡◌, ◌≢◌, ◌⊎◌, refl, sym, subst, String, true, false, Option, none, some, List, [], ◌∷◌,
  Result, ok, err, str_eq, str_eq_iff, All, arith, Bool-cases, Option-cases, Result-cases, inl, inr,
}

abbrev pub Among : {A : Type 0} → A → List A → Type 0
Among x [] = ⊥
Among x (y ∷ ys) = (x ≡ y) ⊎ Among x ys

has_scope-Among : (s : String) (ts : List String) → has_scope s ts ≡ true → Among s ts
unfolding has_scope
has_scope-Among s [] h = absurd (ground arith)
has_scope-Among s (t ∷ ts) h = elim (Bool-cases (str_eq s t)) [
  | inl same ↦ inl ((str_eq_iff s t).0 same)
  | inr other ↦ inr (has_scope-Among s ts (ground (arith, other, h)))
]

has_scopes-All : (ss ts : List String) → has_scopes ss ts ≡ true → All (λ s. Among s ts) ss
unfolding has_scopes
has_scopes-All [] ts h = tt
has_scopes-All (s ∷ ss) ts h =
    (has_scope-Among s ts (ground (arith, h)), has_scopes-All ss ts (ground (arith, h)))

enforce-All :
    (ss : List String) (scope : Option String)
    → enforce_required_scopes ss scope ≡ ok tt
    → All (λ s. Among s (split_spaces (or_empty_text scope))) ss
unfolding enforce_required_scopes
enforce-All [] scope h = tt
enforce-All (s ∷ ss) scope h =
    elim (Bool-cases (has_scopes (s ∷ ss) (split_spaces (or_empty_text scope)))) [
      | inl all ↦ has_scopes-All (s ∷ ss) (split_spaces (or_empty_text scope)) all
      | inr missing ↦ absurd (ground (arith, missing, h))
    ]

enforce-refused :
    (ss : List String) (scope : Option String) (e : MiddlewareError)
    → enforce_required_scopes ss scope ≡ err e
    → 0 < precedence e
unfolding enforce_required_scopes precedence
enforce-refused [] scope e h = absurd (ground (arith, h))
enforce-refused (s ∷ ss) scope e h =
    elim (Bool-cases (has_scopes (s ∷ ss) (split_spaces (or_empty_text scope)))) [
      | inl all ↦ absurd (ground (arith, all, h))
      | inr missing ↦ ground (arith, missing, h)
    ]

-- A request is let in with an owner that is not blank, or refused as it is.
abbrev pub Answer : Type 0
Answer = Result MiddlewareError (Unit {0}) × RequestContext

abbrev pub IsRefused : RequestContext → Answer → Type 0
IsRefused ctx answer = (e : MiddlewareError) × (answer ≡ (err e, ctx)) × (0 < precedence e)

abbrev let_in : RequestContext → String → Option Json → Answer
let_in ctx owner claims = (ok tt, record ctx { identity = authenticated owner claims })

with_owner-cases :
    (owner : String) (claims : Option Json) (ctx : RequestContext)
    → ((is_blank owner ≡ false) × (with_owner owner claims ctx ≡ let_in ctx owner claims))
      ⊎ IsRefused ctx (with_owner owner claims ctx)
unfolding precedence with_owner
with_owner-cases owner claims ctx = elim (Bool-cases (is_blank owner)) [
  | inl blank ↦ inr (unauthenticated empty_principal, rw (blank) refl, omega arith)
  | inr full ↦ inl (full, rw (full) refl)
]

not_empty : (key : String) → str_eq key "" ≡ false → key ≢ ""
not_empty key full same = absurd (ground (arith, full, (str_eq_iff key "").1 same))

module _ {Error : Type 0} where
  -- The credential of a request that a middleware accepts, with the owner and the claims it stands
  -- for: a key that is not empty and that the lookup knows, or a token that the validator takes and
  -- whose claims hold every required scope.
  abbrev pub IsAccepted : Authentication Error → RequestContext → String → Option Json → Type 0
  IsAccepted (api_key m) ctx owner claims =
      (key : String) × (m.header_text ctx.headers m.header_name ≡ some key)
      × (key ≢ "")
      × (m.lookup key ≡ some owner)
      × (claims ≡ none)
  IsAccepted (bearer m) ctx owner claims =
      (token : String) × (c : Claims) × (ctx.bearer_token ≡ some token)
      × (m.validate token ≡ ok c)
      × (owner ≡ principal m c)
      × (claims ≡ m.to_value c)
      × All (λ s. Among s (split_spaces (or_empty_text c.scope))) m.required_scopes

  -- The request is let in for its credential, and only its identity has changed.
  abbrev pub IsLetIn : Authentication Error → RequestContext → Answer → Type 0
  IsLetIn a ctx answer =
      (owner : String) × (claims : Option Json) × IsAccepted a ctx owner claims
      × (is_blank owner ≡ false)
      × (answer ≡ (ok tt, record ctx { identity = authenticated owner claims }))

module _ (Error : Type 0) where
  api_key-cases :
      (m : ApiKeyMiddleware) (ctx : RequestContext)
      → IsLetIn {Error = Error} (api_key m) ctx (check_api_key m ctx)
        ⊎ IsRefused ctx (check_api_key m ctx)
  unfolding check_api_key precedence
  api_key-cases m ctx = elim (Option-cases (m.header_text ctx.headers m.header_name)) [
    | inl missing ↦
        inr (unauthenticated missing_credential, rw (missing, check_api_key) refl, omega arith)
    | inr (key, shown) ↦ elim (Bool-cases (str_eq key "")) [
      | inl empty_key ↦ inr (
        unauthenticated missing_credential,
        rw (shown, empty_key, check_api_key) refl,
        omega arith,
      )
      | inr full ↦ elim (Option-cases (m.lookup key)) [
        | inl unknown ↦ inr (
          unauthenticated invalid_api_key,
          rw (shown, full, unknown, check_api_key) refl,
          omega arith,
        )
        | inr (owner, known) ↦ elim (with_owner-cases owner none ctx) [
          | inl (named, done) ↦ inl (
            owner,
            none,
            (key, shown, not_empty key full, known, refl),
            named,
            rw (shown, full, known, check_api_key) done,
          )
          | inr (e, done, fails) ↦ inr (e, rw (shown, full, known, check_api_key) done, fails)
        ]
      ]
    ]
  ]

module _ {Error : Type 0} where
  check_claims-cases :
      (m : BearerMiddleware Error) (token : String) (c : Claims) (ctx : RequestContext)
      → ctx.bearer_token ≡ some token
      → m.validate token ≡ ok c
      → IsLetIn (bearer m) ctx (check_claims m c ctx) ⊎ IsRefused ctx (check_claims m c ctx)
  unfolding check_claims precedence
  check_claims-cases m token c ctx shown valid = elim (Bool-cases (is_blank (principal m c))) [
    | inl blank ↦ inr (unauthenticated empty_principal, rw (blank, check_claims) refl, omega arith)
    | inr named ↦ elim (Result-cases (enforce_required_scopes m.required_scopes c.scope)) [
      | inl (e, refused) ↦ inr (
        e,
        rw (named, refused, check_claims) refl,
        enforce-refused m.required_scopes c.scope e refused,
      )
      | inr (tt, allowed) ↦ inl (
        principal m c,
        m.to_value c,
        (token, c, shown, valid, refl, refl, enforce-All m.required_scopes c.scope allowed),
        named,
        rw (named, allowed, check_claims) refl,
      )
    ]
  ]

  bearer-cases :
      (m : BearerMiddleware Error) (ctx : RequestContext)
      → IsLetIn (bearer m) ctx (check_bearer m ctx) ⊎ IsRefused ctx (check_bearer m ctx)
  unfolding check_bearer precedence
  bearer-cases m ctx = elim (Option-cases ctx.bearer_token) [
    | inl missing ↦
        inr (http_challenge missing_credential, simp (missing, check_bearer) refl, omega arith)
    | inr (token, shown) ↦ elim (Result-cases (m.validate token)) [
      | inl (e, invalid) ↦
          inr (http_challenge invalid_token, simp (shown, invalid, check_bearer) refl, omega arith)
      | inr (c, valid) ↦
          subst (λ answer. IsLetIn (bearer m) ctx answer ⊎ IsRefused ctx answer)
            (sym (simp (shown, valid, check_bearer) refl))
            (check_claims-cases m token c ctx shown valid)
    ]
  ]

  pub authenticate-cases :
      (a : Authentication Error) (ctx : RequestContext)
      → IsLetIn a ctx (authenticate a ctx) ⊎ IsRefused ctx (authenticate a ctx)
  unfolding authenticate
  authenticate-cases (api_key m) ctx = api_key-cases Error m ctx
  authenticate-cases (bearer m) ctx = bearer-cases m ctx
