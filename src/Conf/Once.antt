-- ===== src/Conf/Once.antt =====
-- How often the configuration is read (libs/conf/conf.go).
use top_lib.Prelude.{String, Option, none, some, List, ◌≡◌, refl, sym, ap, ◌∙◌}
use top_lib.Prelude.Assoc.{lookup}
use top_lib.Errors.Value.{Error}
use top_lib.Errors.Effect.{Action, Exit, returns, panics, pure, panic, other, continue, ◌>>=◌}
use top_lib.Conf.{
  Decoder, State, getenv, required, set_all, after_version, after_name, after_global,
  app_name_missing, app_version_missing, prefix_missing, global_missing, set_globals, decoded, init,
  init_unless, value_at, get,
}

module _ {V : Type 0} (decoder : Decoder V) where
  -- A call leaves config as it is.
  abbrev Keeps : {A : Type 0} → Action (State V) A → Type 0
  Keeps call = (s : State V) → (call s).1.config ≡ s.config

  -- An entry that is required, before a call that keeps config.
  required-Keeps :
      {A : Type 0} (as_type : V → Option A) (what : String) (found : Option V)
      (f : A → Action (State V) (Unit {0}))
      → ((a : A) → Keeps (f a))
      → Keeps (required decoder as_type what found >>= f)
  required-Keeps as_type what none f keeps s = refl
  required-Keeps {A} as_type what (some v) f keeps s = of_type (as_type v)
    where
      of_type :
          (got : Option A)
          → (((elim got as (λ _. Action (State V) A) [
            | none ↦ panic (other what)
            | some a ↦ pure a
          ])
                >>= f)
              s).1.config
            ≡ s.config
      of_type none = refl
      of_type (some a) = keeps a s

  set_globals-Keeps : (config : List (String × V)) → Keeps (set_globals decoder config)
  set_globals-Keeps config =
      required-Keeps decoder.as_map global_missing (lookup "global" config) (after_global decoder)
        (λ global_info.
          required-Keeps decoder.as_string app_name_missing (lookup "app_name" global_info)
            (after_name decoder global_info)
            (λ app_name.
              required-Keeps decoder.as_string app_version_missing
                (lookup "app_version" global_info) (after_version decoder global_info app_name)
                (λ app_version.
                  required-Keeps decoder.as_string prefix_missing
                    (lookup "redis_key_prefix" global_info) (set_all decoder app_name app_version)
                    (λ prefix. λ s. refl))))

  init-sets :
      (s : State V) → (config : List (String × V)) × ((init decoder s).1.config ≡ some config)
  unfolding init
  init-sets s = of_file (decoder.decode_file (getenv "runConfig" s.environment))
    where
      of_file :
          (file : List (String × V) × Option Error)
          → (config : List (String × V)) × ((decoded decoder file s).1.config ≡ some config)
      of_file (config, some e) = (config, refl)
      of_file (config, none) =
          (config, set_globals-Keeps config (record s { config = some config }))

  unless-sets :
      (before : Option (List (String × V))) (s : State V)
      → s.config ≡ before
      → (config : List (String × V)) × ((init_unless decoder before s).1.config ≡ some config)
  unless-sets none s same = init-sets s
  unless-sets (some config) s same = (config, same)

  -- Reading the value after a call leaves the state of the call.
  after_reading :
      (key : String) (call : Action (State V) (Unit {0})) (s : State V)
      → ((call >>= λ _. λ s'. (returns (value_at decoder key s'.config), s')) s).1 ≡ (call s).1
  after_reading key call s = of_exit (call s).0 (call s).1
    where
      of_exit :
          (out : Exit (Unit {0})) (s' : State V)
          → (continue out (λ _. λ s''. (returns (value_at decoder key s''.config), s'')) s').1 ≡ s'
      of_exit (returns a) s' = refl
      of_exit (panics v) s' = refl

  get-sets :
      (key : String) (s : State V)
      → (config : List (String × V)) × ((get decoder key s).1.config ≡ some config)
  unfolding get
  get-sets key s =
      let (config, set) = unless-sets s.config s refl in
      (config, ap (λ s'. s'.config) (after_reading key (init_unless decoder s.config) s) ∙ set)

  read-get :
      (key : String) (config : List (String × V)) (s : State V)
      → s.config ≡ some config
      → get decoder key s ≡ (returns (value_at decoder key (some config)), s)
  unfolding get
  read-get key config s read =
      ap
        (λ before.
          (init_unless decoder before >>= λ _. λ s'. (returns (value_at decoder key s'.config), s'))
            s)
        read
      ∙ ap (λ now. (returns (value_at decoder key now), s)) read

  -- The first Get is the only one that reads the file: after it, whether it returned or panicked, a
  -- Get of any key changes nothing and does not panic, and gives the bytes of the key's value in
  -- config as the first one left it, which is as far as the file was decoded.
  pub get-settles :
      (first key : String) (s : State V)
      → let s' = (get decoder first s).1 in
        get decoder key s' ≡ (returns (value_at decoder key s'.config), s')
  get-settles first key s =
      let s' = (get decoder first s).1 in
      let (config, set) = get-sets first s in
      read-get key config s' set ∙ ap (λ now. (returns (value_at decoder key now), s')) (sym set)
