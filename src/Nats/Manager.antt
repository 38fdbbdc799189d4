-- ===== src/Nats/Manager.antt =====
-- libs/nats/nats_connection_manager.go: the one manager and its connections. NewNatsConnect of a
-- config is an argument, with none for its panic.
pub mod Clients
use top_lib.Prelude.{
  Bool, true, false, String, Option, none, some, List, [], ◌∷◌, map, if◌then◌else◌,
}
use top_lib.Prelude.Assoc.{lookup, insert}
use top_lib.Nats.Connection.{Server, NatsConfig, NatsConnection}
use top_lib.Nats.Starting.{Event, Progress, returned, waiting, panicked, start}

module _ {C : Type 0} (connect : NatsConfig → Option C) where
  -- addClient: none where NewNatsConnect panics.
  abbrev connected : Option C → String → List (String × C) → Option (List (String × C))
  connected none key clients = none
  connected (some client) key clients = some (insert key client clients)

  abbrev pub add_client_unless :
      Option C → String → NatsConfig → List (String × C) → Option (List (String × C))
  add_client_unless (some there) key config clients = some clients
  add_client_unless none key config clients = connected (connect config) key clients

  unfoldable pub add_client : String → NatsConfig → List (String × C) → Option (List (String × C))
  add_client key config clients = add_client_unless (lookup key clients) key config clients

  -- The loop of GetNatsManager, with whether it panicked.
  unfoldable pub add_clients : List NatsConfig → List (String × C) → Bool × List (String × C)
  add_clients [] clients = (false, clients)
  add_clients (config ∷ configs) clients = elim (add_client config.name config clients) [
    | none ↦ (true, clients)
    | some clients' ↦ add_clients configs clients'
  ]

  -- managerOnce and manager: none before the first call.
  abbrev made : Bool × List (String × C) → Option (List (String × C)) × Option (List (String × C))
  made (true, clients) = (none, some clients)
  made (false, clients) = (some clients, some clients)

  -- What the call gives, none for a panic, and the manager after it. A panic inside managerOnce
  -- leaves it done, with the manager as far as it was filled.
  unfoldable pub get_nats_manager :
      List NatsConfig
      → Option (List (String × C))
      → Option (List (String × C)) × Option (List (String × C))
  get_nats_manager configs none = made (add_clients configs [])
  get_nats_manager configs (some clients) = (some clients, some clients)

-- GetClient, and CloseAll: Stop of each client, and none left.
unfoldable pub get_client : {C : Type 0} → String → List (String × C) → Option C
get_client key clients = lookup key clients

unfoldable pub close_all :
    {C W : Type 0} → (C → W → W) → List (String × C) → W → List (String × C) × W
close_all stop [] w = ([], w)
close_all stop ((key, client) ∷ clients) w = close_all stop clients (stop client w)

module _ {W E Info : Type 0} (server : Server W E Info) where
  -- StartAll: Start of each client, one after the other, with the events that come for it.
  unfoldable pub start_all : List (NatsConnection Info × List Event) → W → Progress E × W
  start_all [] w = (returned, w)
  start_all ((client, events) ∷ clients) w =
      let (progress, (client', w')) = start server events client w in
      let rest = start_all clients w' in
      elim progress [ returned ↦ rest | waiting ↦ (waiting, w') | panicked e ↦ (panicked e, w') ]
