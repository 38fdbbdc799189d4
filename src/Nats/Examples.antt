-- ===== src/Nats/Examples.antt =====
-- Examples of libs/nats: streams, fetching, and the manager.
use top_lib.Prelude.{
  ℕ, String, Bool, true, false, Option, none, some, List, [], ◌∷◌, ◌++◌, ◌⊎◌, inr, if◌then◌else◌,
  ◌≡◌, refl, arith, eq_iff,
}
use top_lib.Prelude.Split.{Text, codes}
use top_lib.Errors.Value.{foreign, end}
use top_lib.Errors.Effect.{Action, returns, ◌>>◌}
use top_lib.Nats.Connection.{contains, NatsConfig, Server, NatsConnection, add_stream, add_consumer}
use top_lib.Nats.Connection.Consumers.{Remembers, add_consumer_twice}
use top_lib.Nats.Subscriptions.{Subscription, Outcome, done, stop_subscription}
use top_lib.Nats.Fetching.{
  Msg, Round, fetched, timed_out, fetch_goroutine, process, fetch_loop, recovered,
}
use top_lib.Nats.Fetching.Handled.{each, wanted, messages, fetch_goroutine-each}
use top_lib.Nats.Starting.{Subscriber, started, start_subscription}
use top_lib.Nats.Starting.Stopped.{stop_subscription-start_subscription}
use top_lib.Nats.Manager.{get_nats_manager, get_client}
use top_lib.Nats.Manager.Clients.{get_nats_manager-first}

-- A server with at most one stream and one consumer: whether they are there.
abbrev Site : Type 0
Site = Bool × Bool

abbrev answer : Bool → String → Option ℕ × Option String
answer there missing = if there then (some 1, none) else (none, some missing)

abbrev server : Server Site String ℕ
server = record {
  stream_info = λ name w. answer w.0 "nats: stream not found";
  add_stream = λ name subjects w. ((some 1, none), (true, w.1));
  consumer_info = λ stream durable w. answer w.1 "nats: consumer not found";
  add_consumer = λ stream config w. (none, (w.0, true));
  js_publish = λ subject payload w. (none, w);
  js_publish_async = λ subject payload w. (none, w);
  publish = λ subject payload w. (none, w);
  error_text = codes;
  no_stream_response = "nats: no response from stream";
}

server-Remembers : Remembers server
server-Remembers = record {
  consumer_there = λ stream config w made. (1, refl);
  stream_there = λ name subjects w made. (1, refl);
}

abbrev config_of : String → String → Bool → NatsConfig
config_of name url use_stream = record {
  name = name;
  url = url;
  use_stream = use_stream;
  stream_name = "orders";
  kind = "";
  subjects = "orders.new" ∷ [];
  username = "";
  password = "";
}

abbrev connection : Bool → NatsConnection ℕ
connection use_stream = record {
  config = config_of "main" "nats://a" use_stream;
  use_stream = use_stream;
  stream_info = none;
}

not_found_test : contains (codes "nats: consumer not found") (codes "consumer not found") ≡ true
unfolding contains
not_found_test = refl

made_test :
    add_consumer server "orders" "d" ("orders.new" ∷ []) (connection true) (true, false)
    ≡ (none, (true, true))
unfolding add_consumer contains
made_test = refl

stream_test : (add_stream server "orders" [] (connection true) (false, false)).1.1 ≡ (true, false)
unfolding add_stream
stream_test = refl

add_consumer_twice_example :
    add_consumer server "orders" "d" ("orders.new" ∷ []) (connection true) (true, true)
    ≡ (none, (true, true))
unfolding add_consumer contains
add_consumer_twice_example =
    add_consumer_twice server server-Remembers "orders" "d" ("orders.new" ∷ []) (connection true)
      (true, false) refl

-- A handler that keeps what it is given.
abbrev keep : Msg → Action (List Text) (Unit {0})
keep msg seen = (returns tt, seen ++ (msg.payload ∷ []))

abbrev acknowledge : Msg → Action (List Text) (Unit {0})
acknowledge msg seen = (returns tt, seen)

abbrev message : String → ℕ → Msg
message subject n = record { subject = subject; payload = n ∷ [] }

abbrev rounds : List Round
rounds =
    fetched (message "a" 1 ∷ message "b" 2 ∷ []) ∷ timed_out ∷ fetched (message "a" 3 ∷ []) ∷ []

fetched_test :
    fetch_goroutine keep acknowledge "a" rounds [] ≡ (returns tt, (1 ∷ []) ∷ (3 ∷ []) ∷ [])
unfolding fetch_goroutine fetch_loop process
fetched_test = refl

fetch_goroutine-each_example :
    fetch_goroutine keep acknowledge "a" rounds []
    ≡ recovered (each (λ msg. keep msg >> acknowledge msg) (wanted "a" (messages rounds)) [])
fetch_goroutine-each_example = fetch_goroutine-each keep acknowledge "a" rounds []

abbrev subscription_of : String → String → Site → (String ⊎ Subscription ℕ) × Site
subscription_of subject durable w = (inr (record { subject = subject; object = 7 }), w)

abbrev subscriber : Subscriber ℕ ℕ ℕ
subscriber = record {
  connection = connection false;
  subject = record { subject = "a"; object = 1 } ∷ [];
  handlers = [];
}

abbrev lets_go : Subscription ℕ → ℕ → Outcome × ℕ
lets_go sub v = (done, v)

stop_subscription-start_subscription_example :
    ((start_subscription server subscription_of subscription_of "b" "d"
        (some 4)
        subscriber
        (true, true)).0
      ≡ started)
    × (stop_subscription
          (foreign 2 "subject not found" end)
          lets_go
          "b"
          (start_subscription server subscription_of subscription_of "b" "d"
            (some 4)
            subscriber
            (true, true)).1.0.subject
          0
        ≡ (done, (subscriber.subject, 0)))
stop_subscription-start_subscription_example =
    stop_subscription-start_subscription (foreign 2 "subject not found" end) lets_go server
      subscription_of subscription_of "b" "d" 4 subscriber (true, true)
      (record { subject = "b"; object = 7 }) 0 refl
      (λ e. absurd (ground (arith, (eq_iff "b" "").1 e)))
      ((λ e. absurd (ground (arith, (eq_iff "a" "b").1 e))), tt) refl refl refl

abbrev two_configs : List NatsConfig
two_configs = config_of "main" "nats://a" false ∷ config_of "main" "nats://b" false ∷ []

abbrev url_of : NatsConfig → String
url_of config = config.url

get_nats_manager-first_example :
    (clients : List (String × String)) × (get_nats_manager
        (λ config. some (url_of config))
        two_configs
        none
      ≡ (some clients, some clients))
    × (get_nats_manager (λ config. some (url_of config)) [] (some clients)
        ≡ (some clients, some clients))
    × (get_client "main" clients ≡ some "nats://a")
get_nats_manager-first_example =
    get_nats_manager-first (λ config. some (url_of config)) url_of "main" two_configs []
      (refl, (refl, tt))
