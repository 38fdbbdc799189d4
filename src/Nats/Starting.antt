-- ===== src/Nats/Starting.antt =====
-- libs/nats/subscribe.go: Start, StartSubscription and Stop of a connection.
pub mod Stopped
use top_lib.Prelude.{
  Bool, true, false, String, Option, none, some, List, [], ◌∷◌, ◌++◌, ◌⊎◌, inl, inr, str_eq,
  if◌then◌else◌,
}
use top_lib.Prelude.Assoc.{insert}
use top_lib.Nats.Connection.{Server, NatsConnection, add_stream, ensure_stream, add_consumer}
use top_lib.Nats.Subscriptions.{Subscription}

-- What the loop of Start is woken by. A reconnection comes with whether conn.JetStream succeeds.
pub data Event : Type 0 where
  done : Event
  reconnected : (has_jet_stream : Bool) → Event
  disconnected : Event

-- How far Start has come after some events.
pub data Progress (E : Type 0) : Type 0 where
  returned : Progress E
  waiting : Progress E
  panicked : E → Progress E

module _ {W E Info : Type 0} (server : Server W E Info) where
  -- A new JetStream context, and EnsureStream, whose error is only logged.
  abbrev after_reconnect : Bool → NatsConnection Info → W → W
  after_reconnect has_jet_stream s w =
      if s.use_stream then if has_jet_stream then (ensure_stream server s w).1 else w else w

  unfoldable pub start_loop : List Event → NatsConnection Info → W → Progress E × W
  start_loop [] s w = (waiting, w)
  start_loop (done ∷ events) s w = (returned, w)
  start_loop (reconnected has_jet_stream ∷ events) s w =
      start_loop events s (after_reconnect has_jet_stream s w)
  start_loop (disconnected ∷ events) s w = start_loop events s w

  abbrev loop_unless_panic :
      Option E × (NatsConnection Info × W) → List Event → Progress E × (NatsConnection Info × W)
  loop_unless_panic (some e, (s, w)) events = (panicked e, (s, w))
  loop_unless_panic (none, (s, w)) events =
      let (progress, w') = start_loop events s w in (progress, (s, w'))

  -- AddStream where StreamInfo gives an error and no stream.
  abbrev add_stream_if_missing :
      Option Info × Option E → NatsConnection Info → W → Option E × (NatsConnection Info × W)
  add_stream_if_missing (none, some e) s w =
      add_stream server s.config.stream_name s.config.subjects s w
  add_stream_if_missing (info, err) s w = (none, (s, w))

  unfoldable pub start :
      List Event → NatsConnection Info → W → Progress E × (NatsConnection Info × W)
  start events s w =
      let ready : Option E × (NatsConnection Info × W) =
        if s.use_stream
        then add_stream_if_missing (server.stream_info s.config.stream_name w) s w
        else (none, (s, w)) in
      loop_unless_panic ready events

-- The fields that StartSubscription changes: s.subject and s.handlers.
pub record Subscriber (A H Info : Type 0) : Type 0 where
  pub connection : NatsConnection Info
  pub subject : List (Subscription A)
  pub handlers : List (String × H)

pub data Started (E : Type 0) : Type 0 where
  started : Started E
  invalid_parameters : Started E
  failed : E → Started E

module _ {A W E Info : Type 0} (server : Server W E Info)
    (pull_subscribe queue_subscribe : String → String → W → (E ⊎ Subscription A) × W) where
  abbrev subscribed :
      {H : Type 0}
      → (E ⊎ Subscription A) × W
      → Subscriber A H Info
      → Started E × (Subscriber A H Info × W)
  subscribed (inl e, w) s = (failed e, (s, w))
  subscribed (inr sub, w) s = (started, (record s { subject = s.subject ++ (sub ∷ []) }, w))

  abbrev pull_unless :
      {H : Type 0}
      → Option E × W
      → String
      → String
      → Subscriber A H Info
      → Started E × (Subscriber A H Info × W)
  pull_unless (some e, w) subject durable s = (failed e, (s, w))
  pull_unless (none, w) subject durable s = subscribed (pull_subscribe subject durable w) s

  -- With a handler and a subject: the handler is registered before anything can fail.
  abbrev subscribe :
      {H : Type 0}
      → String
      → String
      → Subscriber A H Info
      → W
      → Started E × (Subscriber A H Info × W)
  subscribe subject durable s w =
      if s.connection.use_stream
      then pull_unless
          (add_consumer server s.connection.config.stream_name durable (subject ∷ []) s.connection
            w)
          subject durable s
      else subscribed (queue_subscribe subject durable w) s

  unfoldable pub start_subscription :
      {H : Type 0}
      → String
      → String
      → Option H
      → Subscriber A H Info
      → W
      → Started E × (Subscriber A H Info × W)
  start_subscription subject durable none s w = (invalid_parameters, (s, w))
  start_subscription subject durable (some handler) s w =
      if str_eq subject ""
      then (invalid_parameters, (s, w))
      else subscribe subject durable (record s { handlers = insert subject handler s.handlers }) w
