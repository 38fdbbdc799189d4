-- ===== src/WsClient/Tests.antt =====
-- Examples of libs/ws_client/ws_client.go.
use top_lib.Prelude.{true, some, none, [], ◌∷◌}
use top_lib.WsClient.{WsClient, new_ws_client}

abbrev queued_one : WsClient
queued_one = record new_ws_client { send_chan = "hi" ∷ []; accepted = "hi" ∷ [] }

abbrev opened : WsClient
opened = record queued_one { send_chan = []; in_flight = some "hi" }

abbrev written : WsClient
written = record opened { in_flight = none; ended = ("hi", true) ∷ [] }

abbrev closing : WsClient
closing = record written { cancelled = true }
