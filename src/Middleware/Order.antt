-- ===== src/Middleware/Order.antt =====
-- The order in which middleware runs.
use radio_chatter.Common.{ℕ, zero, suc, ◌≡◌, refl, ap, ◌∙◌, List, [], ◌∷◌, length}
use radio_chatter.Middleware.{apply_from, apply}

module _ {Handler : Type 0} where
  -- Each of the functions around what the later ones give.
  abbrev pub wrap_all : List (Handler → Handler) → Handler → Handler
  wrap_all [] handler = handler
  wrap_all (m ∷ middleware) handler = m (wrap_all middleware handler)

  apply_from_cons :
      (m : Handler → Handler) (middleware : List (Handler → Handler)) (i : ℕ) (handler : Handler)
      → apply_from (suc i) (m ∷ middleware) handler ≡ m (apply_from i middleware handler)
  unfolding apply_from
  apply_from_cons m middleware zero handler = refl
  apply_from_cons m middleware (suc i) handler = apply_from_cons m middleware i _

  -- The first middleware is the outermost: it gets the request first, and the last one is next to
  -- the handler.
  pub apply-wrap_all :
      (handler : Handler) (middleware : List (Handler → Handler))
      → apply handler middleware ≡ wrap_all middleware handler
  unfolding apply apply_from
  apply-wrap_all handler [] = refl
  apply-wrap_all handler (m ∷ middleware) =
      apply_from_cons m middleware (length middleware) handler
      ∙ ap m (apply-wrap_all handler middleware)
