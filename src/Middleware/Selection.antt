-- ===== src/Middleware/Selection.antt =====
-- What a choice of middleware answers (crates/turul-a2a/src/middleware/stack.rs).
use turul_a2a.Prelude.{
  ℕ, ◌≡◌, ◌≢◌, ◌≤◌, ◌<◌, refl, Bool, true, false, String, none, some, List, [], ◌∷◌, ◌++◌, ok, err,
  All, ltb, arith, Bool-cases, Result-cases, Option-cases, inl, inr, ap, sym, subst, All-append,
  ltb→lt, ◌∙◌, ◌⊎◌,
}
use mathlib.Core.List.{append_assoc, append-nil}
use turul_a2a.Middleware.{
  MiddlewareError, internal, unauthenticated, http_challenge, forbidden, precedence, RequestContext,
  Handler, passed, fatal, failed, try_children, stronger, select_from, select, answer_of, any_of,
}

abbrev is_internal : MiddlewareError → Bool
is_internal (internal _) = true
is_internal _ = false

-- The middlewares all fail on the context, with these errors, none of them fatal.
abbrev pub AllFail : RequestContext → List Handler → List MiddlewareError → Type 0
AllFail ctx [] [] = Unit
AllFail ctx (c ∷ cs) (e ∷ es) = ((c ctx).0 ≡ err e) × (0 < precedence e) × AllFail ctx cs es
AllFail ctx _ _ = ⊥

-- The first child that does not just fail, with the errors of the children before it.
pub record IsFirstOf (ctx : RequestContext) (children : List Handler) (child : Handler)
    : Type 0 where
  pub before : List Handler
  pub after : List Handler
  pub errors : List MiddlewareError
  pub splits : children ≡ before ++ child ∷ after
  pub fail : AllFail ctx before errors

-- The first of the errors with the greatest precedence.
pub record IsStrongest (errors : List MiddlewareError) (e : MiddlewareError) : Type 0 where
  pub before : List MiddlewareError
  pub after : List MiddlewareError
  pub splits : errors ≡ before ++ e ∷ after
  pub above : All (λ x. precedence x < precedence e) before
  pub not_below : All (λ x. precedence x ≤ precedence e) after

below_more :
    (a b : ℕ) (es : List MiddlewareError)
    → a ≤ b
    → All (λ x. precedence x < a) es
    → All (λ x. precedence x < b) es
below_more a b [] h all = tt
below_more a b (e ∷ es) h all = (omega (arith, h, all.0), below_more a b es h all.1)

stronger-keeps :
    (c e : MiddlewareError) → ltb (precedence c) (precedence e) ≡ false → stronger c e ≡ c
unfolding stronger
stronger-keeps c e h = rw (h, stronger) refl

stronger-changes :
    (c e : MiddlewareError) → ltb (precedence c) (precedence e) ≡ true → stronger c e ≡ e
unfolding stronger
stronger-changes c e h = rw (h, stronger) refl

below_champion :
    (a b : ℕ) (es : List MiddlewareError)
    → a < b
    → All (λ x. precedence x ≤ a) es
    → All (λ x. precedence x < b) es
below_champion a b [] h all = tt
below_champion a b (e ∷ es) h all = (omega (arith, h, all.0), below_champion a b es h all.1)

-- The champion `c` of the errors `before ++ c ∷ after`, and the errors still to come.
select_from-IsStrongest :
    (c : MiddlewareError) (before after es : List MiddlewareError)
    → All (λ x. precedence x < precedence c) before
    → All (λ x. precedence x ≤ precedence c) after
    → IsStrongest (before ++ c ∷ (after ++ es)) (select_from c es)
unfolding select_from
select_from-IsStrongest c before after [] above below = record {
  before = before;
  after = after ++ [];
  splits = refl;
  above = above;
  not_below = rw (append-nil after) below;
}
select_from-IsStrongest c before after (e ∷ es) above below =
    elim (Bool-cases (ltb (precedence c) (precedence e))) [
      | inl up ↦
          let higher = ltb→lt (precedence c) (precedence e) up in
          let next =
            select_from-IsStrongest e (before ++ c ∷ after) [] es
              (All-append _ before (c ∷ after)
                (below_more (precedence c) (precedence e) before (omega (arith, higher)) above)
                (higher, below_champion (precedence c) (precedence e) after higher below))
              tt in
          subst (λ l. IsStrongest l (select_from (stronger c e) es))
            (append_assoc before (c ∷ after) (e ∷ es))
            (subst (λ x. IsStrongest ((before ++ c ∷ after) ++ e ∷ es) (select_from x es))
              (sym (stronger-changes c e up)) next)
      | inr same ↦
          let next =
            select_from-IsStrongest c before (after ++ e ∷ []) es above
              (All-append _ after (e ∷ []) below (ground (arith, same), tt)) in
          subst (λ l. IsStrongest (before ++ c ∷ l) (select_from (stronger c e) es))
            (append_assoc after (e ∷ []) es)
            (subst (λ x. IsStrongest (before ++ c ∷ ((after ++ e ∷ []) ++ es)) (select_from x es))
              (sym (stronger-keeps c e same)) next)
    ]

select-IsStrongest :
    (errors : List MiddlewareError) (e : MiddlewareError)
    → select errors ≡ some e
    → IsStrongest errors e
unfolding select
select-IsStrongest [] e h = absurd (ground arith)
select-IsStrongest (x ∷ xs) e h =
    subst (IsStrongest (x ∷ xs)) (ground (arith, h)) (select_from-IsStrongest x [] [] xs tt tt)

-- How the loop ends, from the errors pushed so far.
abbrev Ends : RequestContext → List Handler → List MiddlewareError → Type 0
Ends ctx children pushed =
    ((child : Handler) × IsFirstOf ctx children child
      × ((child ctx).0 ≡ ok tt)
      × (try_children children ctx pushed ≡ passed (child ctx).1))
    ⊎ ((child : Handler) × (msg : String) × IsFirstOf ctx children child
        × ((child ctx).0 ≡ err (internal msg))
        × (try_children children ctx pushed ≡ fatal msg))
    ⊎ ((errors : List MiddlewareError) × AllFail ctx children errors
        × (try_children children ctx pushed ≡ failed (pushed ++ errors)))

later :
    (ctx : RequestContext) (c : Handler) (cs : List Handler) (e : MiddlewareError) (child : Handler)
    → (c ctx).0 ≡ err e
    → 0 < precedence e
    → IsFirstOf ctx cs child
    → IsFirstOf ctx (c ∷ cs) child
later ctx c cs e child h p f = record {
  before = c ∷ f.before;
  after = f.after;
  errors = e ∷ f.errors;
  splits = ap (λ l. c ∷ l) f.splits;
  fail = (h, p, f.fail);
}

first : (ctx : RequestContext) (c : Handler) (cs : List Handler) → IsFirstOf ctx (c ∷ cs) c
first ctx c cs = record { before = []; after = cs; errors = []; splits = refl; fail = tt }

goes_on :
    (ctx : RequestContext) (c : Handler) (cs : List Handler) (pushed : List MiddlewareError)
    (e : MiddlewareError)
    → (c ctx).0 ≡ err e
    → 0 < precedence e
    → Ends ctx cs (pushed ++ e ∷ [])
    → try_children (c ∷ cs) ctx pushed ≡ try_children cs ctx (pushed ++ e ∷ [])
    → Ends ctx (c ∷ cs) pushed
goes_on ctx c cs pushed e h p (inl (child, f, k, q)) step =
    inl (child, later ctx c cs e child h p f, k, step ∙ q)
goes_on ctx c cs pushed e h p (inr (inl (child, msg, f, k, q))) step =
    inr (inl (child, msg, later ctx c cs e child h p f, k, step ∙ q))
goes_on ctx c cs pushed e h p (inr (inr (errors, all, q))) step =
    inr (inr (e ∷ errors, (h, p, all), step ∙ q ∙ ap failed (append_assoc pushed (e ∷ []) errors)))

select_some :
    (ctx : RequestContext) (children : List Handler) (errors : List MiddlewareError)
    → children ≢ []
    → AllFail ctx children errors
    → select errors ≢ none
unfolding select
select_some ctx [] [] nonempty all h = nonempty refl
select_some ctx (c ∷ cs) (e ∷ es) nonempty all h = ground arith
select_some ctx (c ∷ cs) [] nonempty all h = all
select_some ctx [] (e ∷ es) nonempty all h = all

try_children-Ends :
    (ctx : RequestContext) (children : List Handler) (pushed : List MiddlewareError)
    → Ends ctx children pushed
unfolding try_children
try_children-Ends ctx [] pushed = inr (inr ([], tt, ap failed (sym (append-nil pushed))))
try_children-Ends ctx (c ∷ cs) pushed = elim (Result-cases (c ctx).0) [
  | inr (tt, h) ↦ inl (c, first ctx c cs, h, rw (h, try_children) refl)
  | inl (internal msg, h) ↦ inr (inl (c, msg, first ctx c cs, h, rw (h, try_children) refl))
  | inl (unauthenticated k, h) ↦
      goes_on ctx c cs pushed (unauthenticated k) h (unfold precedence in ground arith)
        (try_children-Ends ctx cs _) (rw (h, try_children) refl)
  | inl (http_challenge k, h) ↦
      goes_on ctx c cs pushed (http_challenge k) h (unfold precedence in ground arith)
        (try_children-Ends ctx cs _) (rw (h, try_children) refl)
  | inl (forbidden k, h) ↦
      goes_on ctx c cs pushed (forbidden k) h (unfold precedence in ground arith)
        (try_children-Ends ctx cs _) (rw (h, try_children) refl)
]

answer_failed :
    (ctx : RequestContext) (errors : List MiddlewareError) (e : MiddlewareError)
    → select errors ≡ some e
    → answer_of ctx (failed errors) ≡ some (err e, ctx)
unfolding answer_of
answer_failed ctx errors e h = rw (h, answer_of) refl

-- What a choice answers. It takes the first child that succeeds, if no child before it fails
-- internally, and keeps of its context the identity and the extensions; an internal failure that
-- comes first ends the choice with that failure; and if every child fails otherwise, the answer is
-- the first of their errors with the greatest precedence (forbidden, then challenge, then
-- unauthenticated). In both failures the context is as it was.
pub any_of_lem :
    (children : List Handler) (ctx : RequestContext)
    → children ≢ []
    → ((child : Handler) × IsFirstOf ctx children child
        × ((child ctx).0 ≡ ok tt)
        × (any_of children ctx
            ≡ some (
              ok tt,
              record ctx {
                identity = ((child ctx).1).identity;
                extensions = ((child ctx).1).extensions;
              },
            )))
      ⊎ ((child : Handler) × (msg : String) × IsFirstOf ctx children child
          × ((child ctx).0 ≡ err (internal msg))
          × (any_of children ctx ≡ some (err (internal msg), ctx)))
      ⊎ ((errors : List MiddlewareError) × (e : MiddlewareError) × AllFail ctx children errors
          × IsStrongest errors e
          × (any_of children ctx ≡ some (err e, ctx)))
unfolding any_of
any_of_lem children ctx some_child = elim (try_children-Ends ctx children []) [
  | inl (child, there, h, e) ↦ inl (child, there, h, ap (answer_of ctx) e)
  | inr (inl (child, msg, there, h, e)) ↦ inr (inl (child, msg, there, h, ap (answer_of ctx) e))
  | inr (inr (errors, all, e)) ↦ elim (Option-cases (select errors)) [
    | inl no_error ↦ absurd (select_some ctx children errors some_child all no_error)
    | inr (strongest, s) ↦ inr (
        inr (
          errors,
          strongest,
          all,
          select-IsStrongest errors strongest s,
          ap (answer_of ctx) e ∙ answer_failed ctx errors strongest s,
        ))
  ]
]
