-- ===== src/Redis/Examples.antt =====
-- Examples of a client of a view, on a server that remembers which keys are there.
use top_lib.Prelude.{
  ◌⊎◌, ℕ, Bool, true, false, ◌&&◌, String, Option, none, List, [], ◌∷◌, ◌++◌, ◌==◌, ◌≡◌, ◌≢◌, refl,
  sym, ap, ◌∙◌, arith, if◌then◌else◌, All, Bool-cases, inl, inr,
}
use top_lib.Prelude.Int.{ℤ, pos}
use top_lib.Prelude.Split.{Text, colon}
use top_lib.Errors.Effect.{Action, returns}
use top_lib.Redis.Keys.{expand_key}
use top_lib.Redis.View.{of_other}
use top_lib.Redis.View.Isolation.{IsOutside}
use top_lib.Redis.Driver.{Client, Command, writes_of, in_string, View}
use top_lib.Redis.Geo.{Location, measure, geo_calculate_distance}
use top_lib.Redis.Geo.Cleanup.{geo_calculate_distance-clears}
use top_lib.Redis.Requests.{Request, run}
use top_lib.Redis.Requests.Isolation.{IsLocal, run-Leaves}

same_text : Text → Text → Bool
same_text [] [] = true
same_text [] (c ∷ cs) = false
same_text (b ∷ bs) [] = false
same_text (b ∷ bs) (c ∷ cs) = (b == c) && same_text bs cs

same_text_sound : (s t : Text) → same_text s t ≡ true → s ≡ t
unfolding same_text
same_text_sound [] [] e = refl
same_text_sound [] (c ∷ cs) e = ground (arith, e)
same_text_sound (b ∷ bs) [] e = ground (arith, e)
same_text_sound (b ∷ bs) (c ∷ cs) e = ground (arith, e, same_text_sound bs cs)

same_text_refl : (s : Text) → same_text s s ≡ true
unfolding same_text
same_text_refl [] = refl
same_text_refl (b ∷ bs) = ground (arith, same_text_refl bs)

-- Which keys are there.
abbrev Held : Type 0
Held = Text → Bool

touch : List Text → Bool → Held → Held
touch [] there s j = s j
touch (k ∷ ks) there s j = let rest = touch ks there s j in if same_text k j then there else rest

touch_other :
    (ks : List Text) (there : Bool) (s : Held) (j : Text)
    → All (λ k. k ≢ j) ks
    → touch ks there s j ≡ s j
unfolding touch
touch_other [] there s j h = refl
touch_other (k ∷ ks) there s j h = elim (Bool-cases (same_text k j)) [
  | inl hit ↦ absurd (h.0 (same_text_sound k j hit))
  | inr miss ↦ rw miss (touch_other ks there s j h.1)
]

abbrev stays : Command ℕ → Bool
stays (Command.del keys) = false
stays _ = true

abbrev apply : {A : Type 0} → A → Command ℕ → Action Held (A × Option String)
apply answer c s = (returns (answer, none), touch (writes_of c) (stays c) s)

abbrev client : Client ℕ Held String
client = record {
  int = apply (pos 1);
  bool = apply true;
  text = apply [];
  texts = apply [];
  values = apply (in_string (120 ∷ []) ∷ []);
  pairs = apply [];
  float = apply 3;
  any = apply of_other;
}

abbrev at : Held → Text → Bool
at s k = s k

client-IsLocal : IsLocal at client
client-IsLocal = record {
  any_local = λ c j h s. touch_other (writes_of c) (stays c) s j h;
  int_local = λ c j h s. touch_other (writes_of c) (stays c) s j h;
  bool_local = λ c j h s. touch_other (writes_of c) (stays c) s j h;
  text_local = λ c j h s. touch_other (writes_of c) (stays c) s j h;
  texts_local = λ c j h s. touch_other (writes_of c) (stays c) s j h;
  float_local = λ c j h s. touch_other (writes_of c) (stays c) s j h;
}

abbrev view : View ℕ Held String
view = record { prefix = 97 ∷ []; client = client }

abbrev empty : Held
empty k = false

-- A key with another first letter is not under the prefix.
elsewhere : IsOutside (97 ∷ []) (98 ∷ [])
unfolding expand_key
elsewhere k e = ground (arith, e)

abbrev session : List (Request ℕ)
session =
    Request.h_set (107 ∷ []) (102 ∷ []) (118 ∷ [])
    ∷ Request.s_diff_merge (100 ∷ []) ((107 ∷ []) ∷ [])
    ∷ Request.l_push (108 ∷ []) ((118 ∷ []) ∷ [])
    ∷ Request.set (110 ∷ []) (118 ∷ []) (49 ∷ 115 ∷ [])
    ∷ Request.x_add (115 ∷ []) ((107 ∷ [], 118 ∷ []) ∷ [])
    ∷ []

abbrev nanoseconds : Text → String ⊎ ℤ
nanoseconds t = inr (pos 1)

run-Leaves_example :
    at (run (λ n. n ∷ []) nanoseconds view session empty).1 (98 ∷ []) ≡ at empty (98 ∷ [])
run-Leaves_example =
    run-Leaves at (λ n. n ∷ []) nanoseconds view client-IsLocal (98 ∷ []) elsewhere session
      (tt, ((λ e. absurd (ground (arith, e))), (tt, (tt, ((λ e. absurd (ground (arith, e))), tt)))))
      empty

abbrev place : ℕ → Location ℕ
place n = record { longitude = n; latitude = n }

geo_calculate_distance-clears_example :
    let full = expand_key (97 ∷ []) ((100 ∷ []) ++ (colon ∷ 117 ∷ [])) in
    let after = (geo_calculate_distance view 0 (117 ∷ []) (100 ∷ []) (place 1) (place 2) empty).1 in
    let measured =
      (measure view 0 ((100 ∷ []) ++ (colon ∷ 117 ∷ [])) (place 1) (place 2) empty).1 in
    (at after (98 ∷ []) ≡ at empty (98 ∷ []))
    × (after ≡ (apply (pos 1) (Command.del (full ∷ [])) measured).1)
    × ((n : ℤ)
        → (apply (pos 1) (Command.del (full ∷ [])) measured).0 ≡ returns (n, none)
        → at after full ≡ false)
geo_calculate_distance-clears_example =
    geo_calculate_distance-clears at view client-IsLocal (98 ∷ []) 0 (117 ∷ []) (100 ∷ []) (place 1)
      (place 2) empty false removed (elsewhere ((100 ∷ []) ++ (colon ∷ 117 ∷ [])))
  where
    gone : (k : Text) (s : Held) → touch (k ∷ []) false s k ≡ false
    gone k s = unfold touch in rw (same_text_refl k) refl

    removed :
        (k : Text) (s' s'' : Held) (n : ℤ)
        → apply (pos 1) (Command.del (k ∷ [])) s' ≡ (returns (n, none), s'')
        → s'' k ≡ false
    removed k s' s'' n e = sym (ap (λ out. out.1 k) e) ∙ gone k s'
