-- ===== src/Server/Client/Pumps.antt =====
-- libs/server/ws_client.go: SendMessage and ReceivedMessage, the loops of a client's two
-- goroutines. What the connection and the channels answer, turn by turn, is a list.
use top_lib.Prelude.{
  String, Option, none, some, List, [], ◌∷◌, ◌≡◌, ◌⊎◌, inl, inr, if◌then◌else◌, str_eq, ◌≢◌,
}
use top_lib.Errors.Value.{Error}

-- One turn of SendMessage's select, with the connection's answer to the call it makes.
pub data Wake : Type 0 where
  message_ready : String → Option Error → Wake
  send_closed : Option Error → Wake
  ticked : Option Error → Wake
  client_closed : Wake

-- The frames written, and what the loop returned, if it did.
pub data Frame : Type 0 where
  text_frame : String → Frame
  ping_frame : Frame
  close_frame : Frame

pub record Pumped : Type 0 where
  pub frames : List Frame
  pub returned : Option (Option Error)

abbrev after_frame : Frame → Pumped → Pumped
after_frame f p = record p { frames = f ∷ p.frames }

abbrev pub ends : Option Error → Pumped
ends e = record { frames = []; returned = some e }

unfoldable pub send_message : List Wake → Pumped
send_message [] = record { frames = []; returned = none }
send_message (message_ready m none ∷ wakes) = after_frame (text_frame m) (send_message wakes)
send_message (message_ready m (some e) ∷ wakes) = ends (some e)
send_message (send_closed none ∷ wakes) = after_frame close_frame (ends none)
send_message (send_closed (some e) ∷ wakes) = ends (some e)
send_message (ticked none ∷ wakes) = after_frame ping_frame (send_message wakes)
send_message (ticked (some e) ∷ wakes) = ends none
send_message (client_closed ∷ wakes) = ends none

-- What `c.send <- reply` comes to: the channel takes the reply, the goroutine waits at it with no
-- end in sight of the list, or it is closed.
pub data Sending : Type 0 where
  taken : Sending
  blocked : Sending
  closed : Sending

-- What c.conn.ReadMessage() gives, with what would come of sending a reply to it.
pub data Reading : Type 0 where
  message : String → Sending → Reading
  read_failed : Error → Reading

-- What the reading goroutine does: it puts a reply on c.send, leaves the manager and closes the
-- connection, or panics.
pub data Deed : Type 0 where
  replied : String → Deed
  unregistered : Deed
  panicked : Deed

-- A send on a closed channel runs the deferred function and then ends the program.
abbrev sending : String → Sending → List Deed → List Deed
sending reply taken rest = replied reply ∷ rest
sending reply blocked rest = []
sending reply closed rest = unregistered ∷ panicked ∷ []

abbrev replying : Error ⊎ String → Sending → List Deed → List Deed
replying (inl e) at rest = rest
replying (inr reply) at rest = sending reply at rest

module _ {M : Type 0} (decode : String → Error ⊎ M) (handler_message : M → Error ⊎ String) where
  abbrev handle : Error ⊎ M → Error ⊎ String
  handle (inl e) = inl e
  handle (inr m) = handler_message m

  unfoldable pub received_message : List Reading → List Deed
  received_message [] = []
  received_message (read_failed e ∷ readings) = unregistered ∷ []
  received_message (message m at ∷ readings) =
      let rest = received_message readings in
      if str_eq m "" then rest else replying (handle (decode m)) at rest

  -- The deeds that some readings call for.
  pub data Replies : List Reading → List Deed → Type 0 where
    none_yet : Replies [] []
    failed : (e : Error) (more : List Reading) → Replies (read_failed e ∷ more) (unregistered ∷ [])
    empty :
        (at : Sending) (more : List Reading) (deeds : List Deed)
        → Replies more deeds
        → Replies (message "" at ∷ more) deeds
    undecoded :
        (m : String) (at : Sending) (e : Error) (more : List Reading) (deeds : List Deed)
        → m ≢ ""
        → decode m ≡ inl e
        → Replies more deeds
        → Replies (message m at ∷ more) deeds
    refused :
        (m : String) (at : Sending) (x : M) (e : Error) (more : List Reading) (deeds : List Deed)
        → m ≢ ""
        → decode m ≡ inr x
        → handler_message x ≡ inl e
        → Replies more deeds
        → Replies (message m at ∷ more) deeds
    answered :
        (m : String) (x : M) (reply : String) (more : List Reading) (deeds : List Deed)
        → m ≢ ""
        → decode m ≡ inr x
        → handler_message x ≡ inr reply
        → Replies more deeds
        → Replies (message m taken ∷ more) (replied reply ∷ deeds)
    waited :
        (m : String) (x : M) (reply : String) (more : List Reading)
        → m ≢ ""
        → decode m ≡ inr x
        → handler_message x ≡ inr reply
        → Replies (message m blocked ∷ more) []
    crashed :
        (m : String) (x : M) (reply : String) (more : List Reading)
        → m ≢ ""
        → decode m ≡ inr x
        → handler_message x ≡ inr reply
        → Replies (message m closed ∷ more) (unregistered ∷ panicked ∷ [])
