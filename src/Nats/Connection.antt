-- ===== src/Nats/Connection.antt =====
-- libs/nats/nats.go, publisher.go, and AddStream and AddConsumer of subscribe.go. The calls of
-- nats.go are an argument, as functions of the server's state W, with its errors E.
pub mod Consumers
use top_lib.Prelude.{
  ℕ, Bool, true, false, not, ◌&&◌, ◌||◌, String, Option, none, some, List, [], ◌∷◌, ◌==◌, str_eq,
  if◌then◌else◌,
}
use top_lib.Prelude.Split.{Text, codes}

-- strings.HasPrefix and strings.Contains.
abbrev pub has_prefix : Text → Text → Bool
has_prefix s [] = true
has_prefix [] (p ∷ ps) = false
has_prefix (c ∷ cs) (p ∷ ps) = (c == p) && has_prefix cs ps

unfoldable pub contains : Text → Text → Bool
contains [] p = has_prefix [] p
contains (c ∷ cs) p = has_prefix (c ∷ cs) p || contains cs p

pub record NatsConfig : Type 0 where
  pub name : String
  pub url : String
  pub use_stream : Bool
  pub stream_name : String
  pub kind : String
  pub subjects : List String
  pub username : String
  pub password : String

-- The fields of nats.ConsumerConfig that AddConsumer sets by its arguments.
pub record ConsumerConfig : Type 0 where
  pub durable : String
  pub filter_subjects : List String
  pub filter_subject : String

-- consumerCfg: FilterSubject for one subject, FilterSubjects for several.
abbrev pub consumer_config : String → List String → ConsumerConfig
consumer_config durable [] = record { durable = durable; filter_subjects = []; filter_subject = "" }
consumer_config durable (subject ∷ []) = record {
  durable = durable;
  filter_subjects = [];
  filter_subject = subject;
}
consumer_config durable (subject ∷ other ∷ subjects) = record {
  durable = durable;
  filter_subjects = subject ∷ other ∷ subjects;
  filter_subject = "";
}

-- What nats.go answers: an error or none, and an info or nil.
pub record Server (W E Info : Type 0) : Type 0 where
  pub stream_info : String → W → Option Info × Option E
  pub add_stream : String → List String → W → (Option Info × Option E) × W
  pub consumer_info : String → String → W → Option Info × Option E
  pub add_consumer : String → ConsumerConfig → W → Option E × W
  pub js_publish : String → Text → W → Option E × W
  pub js_publish_async : String → Text → W → Option E × W
  pub publish : String → Text → W → Option E × W
  pub error_text : E → Text
  pub no_stream_response : E

-- NatsConnection: what its methods use of it.
pub record NatsConnection (Info : Type 0) : Type 0 where
  pub config : NatsConfig
  pub use_stream : Bool
  pub stream_info : Option Info

-- NewNatsConnect: a nil config, a failed connection and a failed JetStream context all panic.
pub data Connected (Info : Type 0) : Type 0 where
  connected : (with_user : Bool) → NatsConnection Info → Connected Info
  panicked : Connected Info

-- The option nats.UserInfo is given where neither text is empty.
abbrev pub has_user : NatsConfig → Bool
has_user config = not (str_eq config.username "") && not (str_eq config.password "")

abbrev connection_of : {Info : Type 0} → NatsConfig → NatsConnection Info
connection_of config = record {
  config = config;
  use_stream = config.use_stream;
  stream_info = none;
}

-- nats.Connect of a URL, with or without a user; and whether conn.JetStream succeeds.
unfoldable pub new_nats_connect :
    {Info : Type 0}
    → (connects : NatsConfig → Bool → Bool) (has_jet_stream : NatsConfig → Bool) → Option NatsConfig
    → Connected Info
new_nats_connect connects has_jet_stream none = panicked
new_nats_connect connects has_jet_stream (some config) =
    if connects config (has_user config)
    then if config.use_stream && not (has_jet_stream config)
      then panicked
      else connected (has_user config) (connection_of config)
    else panicked

module _ {W E Info : Type 0} (server : Server W E Info) where
  -- s.streamInfo, err = s.js.AddStream(…)
  abbrev stream_added :
      NatsConnection Info → (Option Info × Option E) × W → Option E × (NatsConnection Info × W)
  stream_added s ((info, err), w) = (err, (record s { stream_info = info }, w))

  abbrev add_stream_unless :
      Option Info × Option E
      → String
      → List String
      → NatsConnection Info
      → W
      → Option E × (NatsConnection Info × W)
  add_stream_unless (some info, some e) name subjects s w = (some e, (s, w))
  add_stream_unless (some info, none) name subjects s w = (none, (s, w))
  add_stream_unless (none, err) name subjects s w =
      stream_added s (server.add_stream name subjects w)

  unfoldable pub add_stream :
      String → List String → NatsConnection Info → W → Option E × (NatsConnection Info × W)
  add_stream name subjects s w =
      if s.use_stream
      then add_stream_unless (server.stream_info name w) name subjects s w
      else (some server.no_stream_response, (s, w))

  -- The error of s.js.AddStream, whose info EnsureStream drops.
  abbrev error_of : (Option Info × Option E) × W → Option E × W
  error_of ((info, err), w) = (err, w)

  abbrev pub create_stream_unless : Option Info × Option E → NatsConfig → W → Option E × W
  create_stream_unless (none, some e) config w =
      error_of (server.add_stream config.stream_name config.subjects w)
  create_stream_unless (info, err) config w = (none, w)

  unfoldable pub ensure_stream : NatsConnection Info → W → Option E × W
  ensure_stream s w =
      if s.use_stream
      then create_stream_unless (server.stream_info s.config.stream_name w) s.config w
      else (none, w)

  abbrev pub is_not_found : E → Bool
  is_not_found e = contains (server.error_text e) (codes "consumer not found")

  abbrev pub create_consumer_unless :
      Option Info × Option E → String → ConsumerConfig → W → Option E × W
  create_consumer_unless (some info, none) stream config w = (none, w)
  create_consumer_unless (none, none) stream config w = server.add_consumer stream config w
  create_consumer_unless (info, some e) stream config w =
      if is_not_found e then server.add_consumer stream config w else (some e, w)

  unfoldable pub add_consumer :
      String → String → List String → NatsConnection Info → W → Option E × W
  add_consumer stream durable subjects s w =
      if s.use_stream
      then create_consumer_unless (server.consumer_info stream durable w) stream
          (consumer_config durable subjects) w
      else (some server.no_stream_response, w)

  -- Publish and PublishAsync; with no stream PublishAsync is Publish.
  unfoldable pub publish : String → Text → NatsConnection Info → W → Option E × W
  publish subject payload s w =
      if s.use_stream then server.js_publish subject payload w else server.publish subject payload w

  unfoldable pub publish_async : String → Text → NatsConnection Info → W → Option E × W
  unfolding publish
  publish_async subject payload s w =
      if s.use_stream
      then server.js_publish_async subject payload w
      else publish subject payload s w
