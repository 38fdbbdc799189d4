-- ===== src/Errors/Chain/Dispatch.antt =====
-- Which handler of a chain deals with an error (TryHandler.Do of libs/errors/try_catch_chain.go).
use top_lib.Prelude.{
  ℕ, ◌≡◌, refl, ap, inl, inr, true, false, Option, none, some, List, [], ◌∷◌, ◌++◌, arith, All,
  Bool-cases, Option-cases,
}
use top_lib.Errors.Value.{Error}
use top_lib.Errors.Effect.{raised, Action, pure, panic, call_if_set, deferring, ◌>>=◌, ◌>>◌}
use top_lib.Errors.TryCatch.{try_catch}
use top_lib.Errors.Chain.{
  CatchHandler, TryHandler, match, catch_loop, or_default, or_rethrow, dispatch, after_try,
  protected_part, try_do,
}

module _ {W : Type 0} where
  abbrev pub Misses : Error → List (CatchHandler W) → Type 0
  Misses e = All λ h. match h e ≡ false

  -- The action that the chain owes an error: the first catch handler that matches, else the
  -- default one, else the error goes on as a panic.
  pub data Chosen (x : TryHandler W) (e : Error) (m : Action W (Unit {0})) : Type 0 where
    first_match :
        (before : List (CatchHandler W)) (h : CatchHandler W) (rest : List (CatchHandler W))
        → x.binding_catch_handler_slice ≡ before ++ (h ∷ rest)
        → Misses e before
        → match h e ≡ true
        → m ≡ h.handler e
        → Chosen x e m
    default :
        (d : Error → Action W (Unit {0}))
        → Misses e x.binding_catch_handler_slice
        → x.binding_default_catch_handler ≡ some d
        → m ≡ d e
        → Chosen x e m
    uncaught :
        Misses e x.binding_catch_handler_slice
        → x.binding_default_catch_handler ≡ none
        → m ≡ panic (raised e)
        → Chosen x e m

  catch_loop_miss :
      (e : Error) (hs : List (CatchHandler W)) → Misses e hs → catch_loop e hs ≡ pure false
  unfolding catch_loop
  catch_loop_miss e [] m = refl
  catch_loop_miss e (h ∷ hs) m = rw (m.0) (catch_loop_miss e hs m.1)

  catch_loop_skip :
      (e : Error) (before rest : List (CatchHandler W))
      → Misses e before
      → catch_loop e (before ++ rest) ≡ catch_loop e rest
  unfolding catch_loop
  catch_loop_skip e [] rest m = refl
  catch_loop_skip e (h ∷ hs) rest m = rw (m.0) (catch_loop_skip e hs rest m.1)

  -- What is left of `dispatch` once the loop has run the action `m` of a matching handler.
  dispatch_caught :
      (d : Option (Error → Action W (Unit {0}))) (e : Error) (m : Action W (Unit {0})) (w : W)
      → (m >> pure true >>= λ c. or_default d e c >>= λ c'. or_rethrow e c') w ≡ m w
  unfolding or_default or_rethrow
  dispatch_caught d e m w = ground arith

  dispatch-Chosen :
      (x : TryHandler W) (e : Error) (m : Action W (Unit {0})) (w : W)
      → Chosen x e m
      → dispatch x e w ≡ m w
  unfolding dispatch
  dispatch-Chosen x e m w (first_match before h rest eq miss hit em) =
      rw (eq, catch_loop_skip e before (h ∷ rest) miss, em)
        (unfold catch_loop in
          rw hit (dispatch_caught x.binding_default_catch_handler e (h.handler e) w))
  dispatch-Chosen x e m w (default d miss ed em) =
      rw (catch_loop_miss e x.binding_catch_handler_slice miss, ed, em)
        (unfold or_default or_rethrow in ground arith)
  dispatch-Chosen x e m w (uncaught miss ed em) =
      rw (catch_loop_miss e x.binding_catch_handler_slice miss, ed, em)
        (unfold or_default or_rethrow in refl)

  -- A split of the catch handlers at the first match.
  data Split (e : Error) (hs : List (CatchHandler W)) : Type 0 where
    all_miss : Misses e hs → Split e hs
    hit_at :
        (before : List (CatchHandler W)) (h : CatchHandler W) (rest : List (CatchHandler W))
        → hs ≡ before ++ (h ∷ rest)
        → Misses e before
        → match h e ≡ true
        → Split e hs

  split : (e : Error) (hs : List (CatchHandler W)) → Split e hs
  split e [] = all_miss tt
  split e (h ∷ hs) = elim (Bool-cases (match h e)) [
    | inl hit ↦ hit_at [] h hs refl tt hit
    | inr miss ↦ elim (split e hs) [
      | all_miss m ↦ all_miss (miss, m)
      | hit_at before g rest eq m hit ↦ hit_at (h ∷ before) g rest (ap (◌∷◌ h) eq) (miss, m) hit
    ]
  ]

  -- The chain owes every error exactly such an action.
  owes_one : (x : TryHandler W) (e : Error) → (m : Action W (Unit {0})) × Chosen x e m
  owes_one x e = elim (split e x.binding_catch_handler_slice) [
    | hit_at before h rest eq m hit ↦ (h.handler e, first_match before h rest eq m hit refl)
    | all_miss m ↦ elim (Option-cases x.binding_default_catch_handler) [
      | inl none_set ↦ (panic (raised e), uncaught m none_set refl)
      | inr (d, set) ↦ (d e, default d m set refl)
    ]
  ]

  -- When the body of a chain has panicked and left the state w', one action deals with
  -- its error: that of the first catch handler, in the order of the chain's calls, which matches,
  -- else that of the default handler, else the error panics on. No later handler runs, and the
  -- finally handler runs after that action, however the action ends.
  pub try_do-Chosen :
      (p : ℕ) (x : TryHandler W) (w w' : W) (e : Error)
      → try_catch p x.handler w ≡ (some e, w')
      → (m : Action W (Unit {0})) × Chosen x e m
        × (try_do p x w ≡ deferring (call_if_set x.finally_handler) m w')
  unfolding try_do
  try_do-Chosen p x w w' e failed =
      let (m, c) = owes_one x e in
      (m, c, rw (failed, protected_part, after_try, dispatch-Chosen x e m w' c))
