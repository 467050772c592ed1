-- ===== src/Auth/Choice.antt =====
-- A choice of authentication middlewares: AnyOfMiddleware (crates/turul-a2a/src/middleware/stack.rs)
-- over the middlewares of crates/turul-a2a-auth/src.
use mathlib.Core.List.{head-eq_of_cons-eq, tail-eq_of_cons-eq, nil≢cons}
use turul_a2a.Middleware.{MiddlewareError, internal, precedence, RequestContext, Handler, any_of}
use turul_a2a.Middleware.Selection.{AllFail, any_of_lem}
use turul_a2a.Auth.{Authentication, authenticate}
use turul_a2a.Auth.Accepted.{Among, Answer, IsLetIn, authenticate-cases}
use turul_a2a.Prelude.{
  String, ◌<◌, ◌≡◌, ◌≢◌, ◌⊎◌, refl, sym, ap, subst, ◌∙◌, some, List, [], ◌∷◌, ◌++◌, map, ok, err,
  arith, inl, inr,
}

Among-map :
    {A B : Type 0} (f : A → B) (xs : List A) (before after : List B) (b : B)
    → map f xs ≡ before ++ b ∷ after
    → (a : A) × Among a xs × (f a ≡ b)
Among-map f [] [] after b h = absurd (nil≢cons h)
Among-map f [] (c ∷ before) after b h = absurd (nil≢cons h)
Among-map f (a ∷ xs) [] after b h = (a, inl refl, head-eq_of_cons-eq h)
Among-map f (a ∷ xs) (c ∷ before) after b h =
    let found = Among-map f xs before after b (tail-eq_of_cons-eq h) in
    (found.0, inr found.1, found.2)

Among-middle : {A : Type 0} (before after : List A) (x : A) → Among x (before ++ x ∷ after)
Among-middle [] after x = inl refl
Among-middle (y ∷ before) after x = inr (Among-middle before after x)

map-nonempty : {A B : Type 0} (f : A → B) (xs : List A) → xs ≢ [] → map f xs ≢ []
map-nonempty f [] some_x h = some_x refl
map-nonempty f (x ∷ xs) some_x h = nil≢cons (sym h)

not_internal : (e : MiddlewareError) (msg : String) → 0 < precedence e → e ≢ internal msg
unfolding precedence
not_internal e msg above h = absurd (omega (arith, above, ap precedence h))

module _ {Error : Type 0} where
  -- The three ends of the choice, seen at the middleware that decides.
  passes :
      (a : Authentication Error) (ctx : RequestContext)
      → (authenticate a ctx).0 ≡ ok tt
      → IsLetIn a ctx (authenticate a ctx)
  passes a ctx h = elim (authenticate-cases a ctx) [
    | inl let_in ↦ let_in
    | inr (e, refused, _) ↦ absurd (ground (arith, sym (ap (λ (out : Answer). out.0) refused) ∙ h))
  ]

  never_internal :
      (a : Authentication Error) (ctx : RequestContext) (msg : String)
      → (authenticate a ctx).0 ≢ err (internal msg)
  never_internal a ctx msg h = elim (authenticate-cases a ctx) [
    | inl (owner, claims, accepted, named, done) ↦
        absurd (ground (arith, sym (ap (λ (out : Answer). out.0) done) ∙ h))
    | inr (e, refused, above) ↦
        absurd (
          not_internal e msg above (ground (arith, sym (ap (λ (out : Answer). out.0) refused) ∙ h)))
  ]

  kept_identity :
      (a : Authentication Error) (ctx : RequestContext)
      → IsLetIn a ctx (authenticate a ctx)
      → authenticate a ctx ≡ (
        ok tt,
        record ctx {
          identity = ((authenticate a ctx).1).identity;
          extensions = ((authenticate a ctx).1).extensions;
        },
      )
  kept_identity a ctx (owner, claims, accepted, named, done) =
      done
      ∙ ap
          (λ (out : Answer).
            (ok tt, record ctx { identity = (out.1).identity; extensions = (out.1).extensions }))
          (sym done)

  -- A choice of authentication middlewares, of which there is one at least, ends in one of two
  -- ways. One of them accepts the credential of the request, whose owner is not blank, and the
  -- request goes on with that identity and is as it was otherwise; or each of them fails, none
  -- with an internal error, and the request is refused as it is.
  pub any_of-authenticate :
      (children : List (Authentication Error)) (ctx : RequestContext)
      → children ≢ []
      → ((a : Authentication Error) × (answer : Answer) × Among a children
          × IsLetIn a ctx answer
          × (any_of (map authenticate children) ctx ≡ some answer))
        ⊎ ((errors : List MiddlewareError) × (e : MiddlewareError) × AllFail ctx
              (map authenticate children)
              errors
            × Among e errors
            × (any_of (map authenticate children) ctx ≡ some (err e, ctx)))
  any_of-authenticate children ctx some_child =
      elim (any_of_lem (map authenticate children) ctx
        (map-nonempty authenticate children some_child)) [
          | inl (child, there, h, e) ↦
              let (a, among, same) =
                Among-map authenticate children there.before there.after child there.splits in
              let through = passes a ctx (ap (λ (f : Handler). (f ctx).0) same ∙ h) in
              inl (
                a,
                authenticate a ctx,
                among,
                through,
                e
                    ∙ ap
                        (λ (f : Handler). some (
                          ok tt,
                          record ctx {
                            identity = ((f ctx).1).identity;
                            extensions = ((f ctx).1).extensions;
                          },
                        ))
                        (sym same)
                    ∙ ap some (sym (kept_identity a ctx through)),
              )
          | inr (inl (child, msg, there, h, e)) ↦
              let (a, among, same) =
                Among-map authenticate children there.before there.after child there.splits in
              absurd (never_internal a ctx msg (ap (λ (f : Handler). (f ctx).0) same ∙ h))
          | inr (inr (errors, e, fail, strongest, h)) ↦ inr (
            errors,
            e,
            fail,
            subst (Among e) (sym strongest.splits)
                (Among-middle strongest.before strongest.after e),
            h,
          )
        ]
