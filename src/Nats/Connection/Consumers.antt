-- ===== src/Nats/Connection/Consumers.antt =====
-- Consumers and streams are made once (libs/nats/subscribe.go, nats.go).
use top_lib.Prelude.{
  String, Option, none, some, List, [], ◌∷◌, ◌≡◌, refl, arith, Bool-cases, inl, inr,
}
use top_lib.Nats.Connection.{
  Server, NatsConnection, NatsConfig, ConsumerConfig, consumer_config, is_not_found, add_consumer,
  ensure_stream, create_consumer_unless, create_stream_unless,
}

-- What a made consumer or stream answers.
pub record Remembers {W E Info : Type 0} (server : Server W E Info) : Type 0 where
  pub consumer_there :
      (stream : String) (config : ConsumerConfig) (w : W)
      → (server.add_consumer stream config w).0 ≡ none
      → (info : Info) × (server.consumer_info stream config.durable
            (server.add_consumer stream config w).1
          ≡ (some info, none))
  pub stream_there :
      (name : String) (subjects : List String) (w : W)
      → (server.add_stream name subjects w).0.1 ≡ none
      → (info : Info) × (server.stream_info name (server.add_stream name subjects w).1
          ≡ (some info, none))

consumer_config-durable :
    (durable : String) (subjects : List String)
    → (consumer_config durable subjects).durable ≡ durable
consumer_config-durable durable [] = refl
consumer_config-durable durable (s ∷ []) = refl
consumer_config-durable durable (s ∷ t ∷ subjects) = refl

module _ {W E Info : Type 0} (server : Server W E Info) (remembers : Remembers server) where
  consumer_made :
      (stream durable : String) (config : ConsumerConfig) (w : W)
      → config.durable ≡ durable
      → (server.add_consumer stream config w).0 ≡ none
      → (w' : W) → w' ≡ (server.add_consumer stream config w).1
      → create_consumer_unless server (server.consumer_info stream durable w') stream config w'
        ≡ (none, w')
  consumer_made stream durable config w same fine w' e =
      let (info, there) = remembers.consumer_there stream config w fine in
      rw (e, ← same, there) refl

  made_or_kept :
      (stream durable : String) (config : ConsumerConfig) (w : W) (found : Option Info × Option E)
      → config.durable ≡ durable
      → server.consumer_info stream durable w ≡ found
      → (create_consumer_unless server found stream config w).0 ≡ none
      → let w' = (create_consumer_unless server found stream config w).1 in
        create_consumer_unless server (server.consumer_info stream durable w') stream config w'
        ≡ (none, w')
  made_or_kept stream durable config w (some info, none) same e fine = rw e refl
  made_or_kept stream durable config w (none, none) same e fine =
      consumer_made stream durable config w same fine _ refl
  made_or_kept stream durable config w (info, some err) same e fine =
      elim (Bool-cases (is_not_found server err)) [
        | inl missing ↦
            rw missing (consumer_made stream durable config w same (rw missing at fine) _ refl)
        | inr broken ↦ absurd (ground (arith, broken, fine))
      ]

  -- AddConsumer that gives no error makes a second AddConsumer of the same stream, name and
  -- subjects give no error and do nothing.
  pub add_consumer_twice :
      (stream durable : String) (subjects : List String) (s : NatsConnection Info) (w : W)
      → (add_consumer server stream durable subjects s w).0 ≡ none
      → let w' = (add_consumer server stream durable subjects s w).1 in
        add_consumer server stream durable subjects s w' ≡ (none, w')
  unfolding add_consumer
  add_consumer_twice stream durable subjects s w fine = elim (Bool-cases s.use_stream) [
    | inl on ↦ rw on (
        made_or_kept stream durable (consumer_config durable subjects) w _
          (consumer_config-durable durable subjects) refl (rw on at fine))
    | inr off ↦ absurd (ground (arith, off, fine))
  ]

  ensured_or_kept :
      (config : NatsConfig) (w : W) (found : Option Info × Option E)
      → server.stream_info config.stream_name w ≡ found
      → (create_stream_unless server found config w).0 ≡ none
      → let w' = (create_stream_unless server found config w).1 in
        create_stream_unless server (server.stream_info config.stream_name w') config w'
        ≡ (none, w')
  ensured_or_kept config w (none, some err) e fine =
      let (info, there) = remembers.stream_there config.stream_name config.subjects w fine in
      rw there refl
  ensured_or_kept config w (none, none) e fine = rw e refl
  ensured_or_kept config w (some info, err) e fine = rw e refl

  -- The same of EnsureStream.
  pub ensure_stream_twice :
      (s : NatsConnection Info) (w : W)
      → (ensure_stream server s w).0 ≡ none
      → let w' = (ensure_stream server s w).1 in ensure_stream server s w' ≡ (none, w')
  unfolding ensure_stream
  ensure_stream_twice s w fine = elim (Bool-cases s.use_stream) [
    | inl on ↦ rw on (ensured_or_kept s.config w _ refl (rw on at fine))
    | inr off ↦ rw off refl
  ]
