-- ===== src/Nats/Manager/Clients.antt =====
-- Which connections the manager holds and starts (libs/nats/nats_connection_manager.go).
use top_lib.Prelude.{
  String, false, Option, none, some, List, [], ◌∷◌, ◌≡◌, refl, sym, ap, ◌∙◌, All, str_eq, eq_iff,
  if◌then◌else◌, Bool-cases, inl, inr, Option-cases,
}
use top_lib.Prelude.Assoc.{lookup, insert, lookup-insert}
use top_lib.Nats.Connection.{Server, NatsConfig, NatsConnection}
use top_lib.Nats.Starting.{Event, done, reconnected, disconnected, waiting, start, start_loop}
use top_lib.Nats.Manager.{add_client, add_clients, get_nats_manager, get_client, start_all}

-- The first config of a name.
abbrev pub first_named : String → List NatsConfig → Option NatsConfig
first_named key [] = none
first_named key (config ∷ configs) =
    let rest = first_named key configs in if str_eq config.name key then some config else rest

-- What is there, and else the connection of the config.
abbrev pub or_connected : {C : Type 0} → (NatsConfig → C) → Option C → Option NatsConfig → Option C
or_connected conn (some there) config = some there
or_connected conn none (some config) = some (conn config)
or_connected conn none none = none

module _ {C : Type 0} (connect : NatsConfig → Option C) (conn : NatsConfig → C) where
  -- What addClient puts under the name of a config where another lookup reads.
  insert-first :
      (key : String) (config : NatsConfig) (configs : List NatsConfig) (clients : List (String × C))
      → lookup config.name clients ≡ none
      → or_connected conn
          (lookup key (insert config.name (conn config) clients))
          (first_named key configs)
        ≡ or_connected conn (lookup key clients) (first_named key (config ∷ configs))
  insert-first key config configs clients free =
      rw (← lookup-insert config.name key (conn config) clients)
        elim (Bool-cases (str_eq config.name key)) [
          | inl hit ↦
              let same : lookup key clients ≡ none =
                ap (λ k. lookup k clients) (sym ((eq_iff config.name key).0 hit)) ∙ free in
              rw (hit, same) refl
          | inr miss ↦ rw miss refl
        ]

  -- Where addClient finds the name taken.
  taken-first :
      (key : String) (config : NatsConfig) (configs : List NatsConfig) (clients : List (String × C))
      (there : C)
      → lookup config.name clients ≡ some there
      → or_connected conn (lookup key clients) (first_named key configs)
        ≡ or_connected conn (lookup key clients) (first_named key (config ∷ configs))
  taken-first key config configs clients there taken = elim (Bool-cases (str_eq config.name key)) [
    | inl hit ↦
        let same : lookup key clients ≡ some there =
          ap (λ k. lookup k clients) (sym ((eq_iff config.name key).0 hit)) ∙ taken in
        rw same refl
    | inr miss ↦ rw miss refl
  ]

  add_client-free :
      (config : NatsConfig) (clients : List (String × C))
      → lookup config.name clients ≡ none
      → connect config ≡ some (conn config)
      → add_client connect config.name config clients
        ≡ some (insert config.name (conn config) clients)
  unfolding add_client
  add_client-free config clients free here = rw (free, here) refl

  add_client-taken :
      (config : NatsConfig) (clients : List (String × C)) (there : C)
      → lookup config.name clients ≡ some there
      → add_client connect config.name config clients ≡ some clients
  unfolding add_client
  add_client-taken config clients there taken = rw taken refl

  add_clients-step :
      (config : NatsConfig) (configs : List NatsConfig) (clients clients' : List (String × C))
      → add_client connect config.name config clients ≡ some clients'
      → add_clients connect (config ∷ configs) clients ≡ add_clients connect configs clients'
  unfolding add_clients
  add_clients-step config configs clients clients' e = rw (e, add_clients) refl

  add_clients-first :
      (key : String) (configs : List NatsConfig) (clients : List (String × C))
      → All (λ config. connect config ≡ some (conn config)) configs
      → (clients' : List (String × C)) × (add_clients connect configs clients ≡ (false, clients'))
        × (lookup key clients' ≡ or_connected conn (lookup key clients) (first_named key configs))
  unfolding add_clients
  add_clients-first key [] clients fine = (clients, refl, or_nothing (lookup key clients))
    where
      or_nothing : (there : Option C) → there ≡ or_connected conn there none
      or_nothing none = refl
      or_nothing (some c) = refl
  add_clients-first key (config ∷ configs) clients (here, rest) =
      let ih_kept = add_clients-first key configs clients rest in
      let ih_new = add_clients-first key configs (insert config.name (conn config) clients) rest in
      elim (Option-cases (lookup config.name clients)) [
        | inl free ↦ (
          ih_new.0,
          add_clients-step config configs clients _ (add_client-free config clients free here)
              ∙ ih_new.1,
          ih_new.2 ∙ insert-first key config configs clients free,
        )
        | inr (there, taken) ↦ (
          ih_kept.0,
          add_clients-step config configs clients _ (add_client-taken config clients there taken)
              ∙ ih_kept.1,
          ih_kept.2 ∙ taken-first key config configs clients there taken,
        )
      ]

  -- Where every connection succeeds, the manager holds under each name the connection of the first
  -- config with that name, and none under a name of no config; later calls give the same manager.
  pub get_nats_manager-first :
      (key : String) (configs later : List NatsConfig)
      → All (λ config. connect config ≡ some (conn config)) configs
      → (clients : List (String × C)) × (get_nats_manager connect configs none
          ≡ (some clients, some clients))
        × (get_nats_manager connect later (some clients) ≡ (some clients, some clients))
        × (get_client key clients ≡ or_connected conn none (first_named key configs))
  unfolding get_nats_manager get_client lookup
  get_nats_manager-first key configs later fine =
      let (clients, ran, found) = add_clients-first key configs [] fine in
      (clients, rw ran refl, refl, found)

module _ {W E Info : Type 0} (server : Server W E Info) where
  -- No event is the end of ctx.
  abbrev pub NeverDone : List Event → Type 0
  NeverDone [] = Unit
  NeverDone (done ∷ events) = ⊥
  NeverDone (reconnected js ∷ events) = NeverDone events
  NeverDone (disconnected ∷ events) = NeverDone events

  start_loop-waits :
      (events : List Event) (s : NatsConnection Info) (w : W)
      → NeverDone events
      → (start_loop server events s w).0 ≡ waiting
  unfolding start_loop
  start_loop-waits [] s w never = refl
  start_loop-waits (done ∷ events) s w never = absurd never
  start_loop-waits (reconnected js ∷ events) s w never = start_loop-waits events s _ never
  start_loop-waits (disconnected ∷ events) s w never = start_loop-waits events s w never

  start-waits :
      (events : List Event) (s : NatsConnection Info) (w : W)
      → s.use_stream ≡ false
      → NeverDone events
      → (start server events s w).0 ≡ waiting
  unfolding start
  start-waits events s w off never = rw off (start_loop-waits events _ w never)

  -- StartAll starts no connection after one without a stream whose context does not end: it waits
  -- in the Start of that one, and all it has done is what that one has.
  pub start_all-waits :
      (events : List Event) (s : NatsConnection Info)
      (clients : List (NatsConnection Info × List Event)) (w : W)
      → s.use_stream ≡ false
      → NeverDone events
      → start_all server ((s, events) ∷ clients) w ≡ (waiting, (start server events s w).1.1)
  unfolding start_all
  start_all-waits events s clients w off never =
      rw (start-waits events s w off never, start_all) refl
