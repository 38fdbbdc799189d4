-- ===== src/Errors/Chain.antt =====
-- libs/errors/try_catch_chain.go. A chain of calls builds up one TryHandler, to which all its
-- handler objects point: a method returns that TryHandler.
pub mod Dispatch
pub mod Finally
use top_lib.Prelude.{ℕ, Bool, true, false, Option, none, some, List, [], ◌∷◌, ◌++◌, if◌then◌else◌}
use top_lib.Errors.Value.{Error, Nilable, nil, error, is_target}
use top_lib.Errors.Effect.{raised, Action, pure, panic, call_if_set, deferring, ◌>>=◌, ◌>>◌}
use top_lib.Errors.TryCatch.{try_catch}

-- CatchHandler.match: errors.Is of an error that is not nil is false of a nil target.
abbrev pub matches : Nilable → Error → Bool
matches nil e = false
matches (error target) e = is_target e target

module _ (W : Type 0) where
  pub record CatchHandler : Type 0 where
    pub err : Nilable
    pub handler : Error → Action W (Unit {0})

  pub record TryHandler : Type 0 where
    pub handler : Action W (Unit {0})
    pub binding_catch_handler_slice : List CatchHandler
    pub binding_default_catch_handler : Option (Error → Action W (Unit {0}))
    pub binding_try_catch_else_handler : Option (Action W (Unit {0}))
    pub finally_handler : Option (Action W (Unit {0}))

module _ {W : Type 0} where
  unfoldable pub try_new : Action W (Unit {0}) → TryHandler W
  try_new f = record {
    handler = f;
    binding_catch_handler_slice = [];
    binding_default_catch_handler = none;
    binding_try_catch_else_handler = none;
    finally_handler = none;
  }

  unfoldable pub new_catch_handler :
      TryHandler W → Nilable → (Error → Action W (Unit {0})) → TryHandler W
  new_catch_handler x err handler = record x {
    binding_catch_handler_slice =
        x.binding_catch_handler_slice ++ (record { err = err; handler = handler }) ∷ [];
  }

  unfoldable pub new_default_catch_handler :
      TryHandler W → (Error → Action W (Unit {0})) → TryHandler W
  new_default_catch_handler x handler = record x { binding_default_catch_handler = some handler }

  unfoldable pub new_try_catch_else_handler : TryHandler W → Action W (Unit {0}) → TryHandler W
  new_try_catch_else_handler x handler = record x { binding_try_catch_else_handler = some handler }

  unfoldable pub new_finally_handler : TryHandler W → Action W (Unit {0}) → TryHandler W
  new_finally_handler x handler = record x { finally_handler = some handler }

  unfoldable pub match : CatchHandler W → Error → Bool
  unfolding is_target
  match h e = matches h.err e

  -- The loop over the catch handlers, with its `break`; it gives catchSuccess.
  catch_loop : Error → List (CatchHandler W) → Action W Bool
  catch_loop e [] = pure false
  catch_loop e (h ∷ hs) =
      let rest = catch_loop e hs in if match h e then (h.handler e >> pure true) else rest

  or_default : Option (Error → Action W (Unit {0})) → Error → Bool → Action W Bool
  or_default none e caught = pure caught
  or_default (some d) e true = pure true
  or_default (some d) e false = d e >> pure true

  or_rethrow : Error → Bool → Action W (Unit {0})
  or_rethrow e true = pure tt
  or_rethrow e false = panic (raised e)

  -- What `Do` goes on with when the body has panicked with `e`.
  dispatch : TryHandler W → Error → Action W (Unit {0})
  dispatch x e = do
    caught ← catch_loop e x.binding_catch_handler_slice
    caught' ← or_default x.binding_default_catch_handler e caught
    or_rethrow e caught'

  after_try : TryHandler W → Option Error → Action W (Unit {0})
  after_try x none = call_if_set x.binding_try_catch_else_handler
  after_try x (some e) = dispatch x e

  protected_part : ℕ → TryHandler W → Action W (Unit {0})
  protected_part p x w = let (err, w') = try_catch p x.handler w in after_try x err w'

  -- TryHandler.Do; the number is the address of the error made of a panic that is not one.
  unfoldable pub try_do : ℕ → TryHandler W → Action W (Unit {0})
  unfolding protected_part after_try dispatch catch_loop or_default or_rethrow match
  try_do p x = deferring (call_if_set x.finally_handler) (protected_part p x)
