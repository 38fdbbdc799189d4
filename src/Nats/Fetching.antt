-- ===== src/Nats/Fetching.antt =====
-- libs/nats/subscribe.go: the two goroutines of StartSubscription, over what Fetch, the channel and
-- the context answer. The handler and Ack are arguments, as calls on the program's state.
pub mod Handled
use top_lib.Prelude.{
  Bool, true, false, String, Option, none, some, List, [], ◌∷◌, str_eq, if◌then◌else◌,
}
use top_lib.Prelude.Split.{Text}
use top_lib.Errors.Effect.{Action, Exit, returns, panics, pure, ◌>>=◌, ◌>>◌}

pub record Msg : Type 0 where
  pub subject : String
  pub payload : Text

-- One round of the loop: ctx is done, or Fetch gives messages, nats.ErrTimeout or another error.
pub data Round : Type 0 where
  done : Round
  fetched : List Msg → Round
  timed_out : Round
  fetch_failed : Round

-- A deferred recover: the panic ends the goroutine and no more.
abbrev pub recovered : {W : Type 0} → Exit (Unit {0}) × W → Exit (Unit {0}) × W
recovered (returns _, w) = (returns tt, w)
recovered (panics v, w) = (returns tt, w)

module _ {W : Type 0} (handler : Msg → Action W (Unit {0})) (ack : Msg → Action W (Unit {0}))
    (subject : String) where
  -- The loop over msgs.
  unfoldable pub process : List Msg → Action W (Unit {0})
  process [] = pure tt
  process (msg ∷ msgs) =
      let rest = process msgs in
      if str_eq msg.subject subject then (handler msg >> ack msg) >> rest else rest

  unfoldable pub fetch_loop : List Round → Action W (Unit {0})
  fetch_loop [] = pure tt
  fetch_loop (done ∷ rounds) = pure tt
  fetch_loop (fetched msgs ∷ rounds) = process msgs >> fetch_loop rounds
  fetch_loop (timed_out ∷ rounds) = fetch_loop rounds
  fetch_loop (fetch_failed ∷ rounds) = fetch_loop rounds

  unfoldable pub fetch_goroutine : List Round → Action W (Unit {0})
  fetch_goroutine rounds w = recovered (fetch_loop rounds w)

-- One round of the loop with no stream: ctx is done, or the channel gives a message or nil.
pub data Received : Type 0 where
  cancelled : Received
  got : Option Msg → Received

module _ {W : Type 0} (handler : Msg → Action W (Unit {0})) where
  abbrev handle_unless_nil : Option Msg → Action W (Unit {0})
  handle_unless_nil none = pure tt
  handle_unless_nil (some msg) = handler msg

  unfoldable pub chan_loop : List Received → Action W (Unit {0})
  chan_loop [] = pure tt
  chan_loop (cancelled ∷ more) = pure tt
  chan_loop (got msg ∷ more) = handle_unless_nil msg >> chan_loop more

  unfoldable pub chan_goroutine : List Received → Action W (Unit {0})
  chan_goroutine more w = recovered (chan_loop more w)
