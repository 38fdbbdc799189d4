-- ===== src/WsClient/Order.antt =====
-- The order of the messages that a client sends, and its pings (libs/ws_client/ws_client.go).
use top_lib.Prelude.{
  ◌≤◌, ◌≡◌, refl, Bool, true, not, String, Option, none, some, List, [], ◌∷◌, ◌++◌, map, length,
  arith,
}
use top_lib.WsClient.{
  WsClient, chan_capacity, new_ws_client, Reach, here, next, queued, writer_opened, pinged,
}

abbrev text_of : String × Bool → String
text_of (m, written) = m

abbrev listed : Option String → List String
listed none = []
listed (some m) = m ∷ []

-- The messages that SendMessage took are those that writePump was done with, then the one that it
-- has a writer open for, then those in the channel, in their order; and these are 256 at most.
abbrev pub InOrder : WsClient → Type 0
InOrder c =
    (c.accepted ≡ map text_of c.ended ++ (listed c.in_flight ++ c.send_chan))
    × (length c.send_chan ≤ chan_capacity)

-- The channel is closed only after ctx is cancelled; `done` is closed exactly where readPump has
-- ended; and a SendMessage or a Close panics only after Close has closed the channel.
abbrev pub IsGraceful : WsClient → Type 0
IsGraceful c =
    (c.chan_closed ≡ true → c.cancelled ≡ true)
    × (c.done_closed ≡ not c.reading)
    × (c.panicked ≡ true → c.chan_closed ≡ true)

-- For each message that SendMessage takes there is a run in which pingPump writes a ping while
-- writePump has a writer open for the message.
pub pinged_while_writing :
    (m : String)
    → (c : WsClient) × Reach new_ws_client c × (c.in_flight ≡ some m) × (c.overlapped ≡ true)
pinged_while_writing m =
    let queued_one = record new_ws_client { send_chan = m ∷ []; accepted = m ∷ [] } in
    let opened = record queued_one { send_chan = []; in_flight = some m } in
    (
      record opened { overlapped = true },
      next
          (next (next here (queued new_ws_client m refl (omega arith)))
            (writer_opened queued_one m [] refl refl refl))
          (pinged opened refl),
      refl,
      refl,
    )
