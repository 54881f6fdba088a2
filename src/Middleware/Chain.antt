-- ===== src/Middleware/Chain.antt =====
-- The order of a chain: the middleware that is listed last runs first.
use wish.Base.{List, [], ◌∷◌, ◌++◌, ◌≡◌, refl}
use wish.Session.{Handler, Middleware}
use wish.Middleware.{compose, no_handler, with_middleware}

module _ {S : Type 0} where
  pub compose-append :
      (mw more : List (Middleware S)) (h : Handler S)
      → compose (mw ++ more) h ≡ compose more (compose mw h)
  unfolding compose
  compose-append [] more h = refl
  compose-append (m ∷ mw) more h = compose-append mw more (m h)

  -- The middleware listed last is the outermost: it is handed the chain of those before it.
  pub with_middleware-concat :
      (mw : List (Middleware S)) (m : Middleware S)
      → with_middleware (mw ++ m ∷ []) ≡ m (with_middleware mw)
  unfolding with_middleware
  with_middleware-concat mw m = compose-append mw (m ∷ []) no_handler
