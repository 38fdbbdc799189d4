-- ===== src/Queue/Receiver/Pump.antt =====
-- The goroutines that the receiver's pump starts, and the bound of its channel (queue/message_revice.go).
use top_lib.Prelude.{
  ℕ, ◌≤◌, Bool, true, false, String, Option, none, some, List, [], ◌∷◌, ◌++◌, ◌⊎◌, inl, inr, ◌≡◌,
  refl, sym, ap, ◌∙◌, arith, length, length-append, length-drop, drop, ltb, Bool-cases,
  Option-cases,
}
use mathlib.Core.List.{append-nil, append_assoc}
use top_lib.Errors.Value.{Error}
use top_lib.Queue.Receiver.{
  chan_capacity, MessageReceiver, Turn, cancel_if, offer, message_of, handle_raw_message,
  receive_pump,
}

reading-cases : (x : Error ⊎ String) → ((e : Error) × (x ≡ inl e)) ⊎ ((d : String) × (x ≡ inr d))
reading-cases (inl e) = inl (e, refl)
reading-cases (inr d) = inr (d, refl)

module _ {M : Type 0} where
  offer-fits :
      (picks_send : Bool) (m : M) (r : MessageReceiver M)
      → length r.message_chan ≤ chan_capacity
      → length (offer picks_send m r).message_chan ≤ chan_capacity
  unfolding offer
  offer-fits picks_send m r h = ground (arith, length-append r.message_chan (m ∷ []), h)

  -- A message offered while ctx is not cancelled starts a goroutine, in the channel or not.
  offer-spawned :
      (picks_send : Bool) (m : M) (r : MessageReceiver M)
      → r.cancelled ≡ false
      → r.has_processor ≡ true
      → let r' = offer picks_send m r in
        (r'.spawned ≡ r.spawned ++ (m ∷ [])) × (r'.cancelled ≡ false) × (r'.has_processor ≡ true)
  unfolding offer
  offer-spawned picks_send m r on set =
      elim (Bool-cases (ltb (length r.message_chan) chan_capacity)) [
        | inl room ↦ rw (room, on, set) (refl, refl, refl)
        | inr full ↦ rw (full, on, set) (refl, refl, refl)
      ]

  -- The receiver as a turn's loop checks ctx, and as its read ends.
  abbrev checked : Turn → MessageReceiver M → MessageReceiver M
  checked t r = cancel_if t.stops_before (record r { message_chan = drop t.taken r.message_chan })

  abbrev read : Turn → MessageReceiver M → MessageReceiver M
  read t r = cancel_if t.stops_during (checked t r)

  drop-fits : (n : ℕ) (xs : List M) → length xs ≤ chan_capacity → length (drop n xs) ≤ chan_capacity
  drop-fits n xs h = omega (arith, length-drop n xs, h)

  module _ (decode : String → Error ⊎ Option M) where
    pump-stopped :
        (t : Turn) (turns : List Turn) (r : MessageReceiver M)
        → (checked t r).cancelled ≡ true
        → receive_pump decode (t ∷ turns) r ≡ (true, checked t r)
    unfolding receive_pump
    pump-stopped t turns r off = rw off refl

    pump-failed :
        (t : Turn) (turns : List Turn) (r : MessageReceiver M) (e : Error)
        → (checked t r).cancelled ≡ false
        → t.reading ≡ inl e
        → receive_pump decode (t ∷ turns) r ≡ (true, read t r)
    unfolding receive_pump
    pump-failed t turns r e on failed = ground (arith, on, failed)

    pump-read :
        (t : Turn) (turns : List Turn) (r : MessageReceiver M) (d : String)
        → (checked t r).cancelled ≡ false
        → t.reading ≡ inr d
        → receive_pump decode (t ∷ turns) r
          ≡ receive_pump decode turns (handle_raw_message decode t.picks_send d (read t r))
    unfolding receive_pump
    pump-read t turns r d on got = ground (arith, on, got)

    handle-fits :
        (picks_send : Bool) (d : String) (r : MessageReceiver M)
        → length r.message_chan ≤ chan_capacity
        → length (handle_raw_message decode picks_send d r).message_chan ≤ chan_capacity
    unfolding handle_raw_message
    handle-fits picks_send d r h = elim (Option-cases (message_of decode d)) [
      | inl nothing ↦ rw nothing h
      | inr (m, something) ↦ rw something (offer-fits picks_send m r h)
    ]

    -- The channel holds 100 messages at most, whatever the turns are.
    pub receive_pump-fits :
        (turns : List Turn) (r : MessageReceiver M)
        → length r.message_chan ≤ chan_capacity
        → length (receive_pump decode turns r).1.message_chan ≤ chan_capacity
    receive_pump-fits [] r h = unfold receive_pump in h
    receive_pump-fits (t ∷ turns) r h =
        let less = drop-fits t.taken r.message_chan h in
        elim (Bool-cases (checked t r).cancelled) [
          | inl off ↦ rw (pump-stopped t turns r off) less
          | inr on ↦ elim (reading-cases t.reading) [
            | inl (e, failed) ↦ rw (pump-failed t turns r e on failed) less
            | inr (d, got) ↦ rw (pump-read t turns r d on got) (
                receive_pump-fits turns (handle_raw_message decode t.picks_send d (read t r))
                  (handle-fits t.picks_send d (read t r) less))
          ]
        ]

    abbrev listed : Option M → List M
    listed none = []
    listed (some m) = m ∷ []

    -- The messages that the texts decode to.
    abbrev pub messages : List String → List M
    messages [] = []
    messages (d ∷ ds) = listed (message_of decode d) ++ messages ds

    -- A turn with no Stop in it that reads the text.
    abbrev pub Reads : String → Turn → Type 0
    Reads d t = (t.stops_before ≡ false) × (t.stops_during ≡ false) × (t.reading ≡ inr d)

    -- Turns with no Stop that read the texts.
    abbrev pub AllRead : List String → List Turn → Type 0
    AllRead [] [] = Unit
    AllRead (d ∷ ds) (t ∷ ts) = Reads d t × AllRead ds ts
    AllRead _ _ = ⊥

    -- Stop came before the turn's check, or its read fails.
    abbrev pub EndsPump : Turn → Type 0
    EndsPump t = (t.stops_before ≡ true) ⊎ ((e : Error) × (t.reading ≡ inl e))

    -- A text read while ctx is not cancelled: its message, if it has one, starts a goroutine.
    handle-spawned :
        (picks_send : Bool) (d : String) (r : MessageReceiver M)
        → r.cancelled ≡ false
        → r.has_processor ≡ true
        → let r' = handle_raw_message decode picks_send d r in
          (r'.spawned ≡ r.spawned ++ listed (message_of decode d))
          × (r'.cancelled ≡ false)
          × (r'.has_processor ≡ true)
    unfolding handle_raw_message
    handle-spawned picks_send d r on set = elim (Option-cases (message_of decode d)) [
      | inl nothing ↦ rw nothing (sym (append-nil r.spawned), on, set)
      | inr (m, something) ↦ rw something (offer-spawned picks_send m r on set)
    ]

    pub receive_pump-spawned :
        (ds : List String) (turns : List Turn) (t : Turn) (later : List Turn)
        (r : MessageReceiver M)
        → r.cancelled ≡ false
        → r.has_processor ≡ true
        → AllRead ds turns
        → EndsPump t
        → let (returned, r') = receive_pump decode (turns ++ (t ∷ later)) r in
          (returned ≡ true) × (r'.spawned ≡ r.spawned ++ messages ds)
    receive_pump-spawned [] [] t later r on set reads (inl stops) =
        let off : (checked t r).cancelled ≡ true = rw stops refl in
        rw (pump-stopped t later r off) (refl, sym (append-nil r.spawned))
    receive_pump-spawned [] [] t later r on set reads (inr (e, failed)) =
        elim (Bool-cases (checked t r).cancelled) [
          | inl off ↦ rw (pump-stopped t later r off) (refl, sym (append-nil r.spawned))
          | inr still ↦ rw (pump-failed t later r e still failed) (refl, sym (append-nil r.spawned))
        ]
    receive_pump-spawned [] (u ∷ turns) t later r on set reads ends = absurd reads
    receive_pump-spawned (d ∷ ds) [] t later r on set reads ends = absurd reads
    receive_pump-spawned (d ∷ ds) (u ∷ turns) t later r on set ((before, during, got), reads) ends =
        let still : (checked u r).cancelled ≡ false = rw before on in
        let open_ : (read u r).cancelled ≡ false = rw (during, before) on in
        let (more, on', set') = handle-spawned u.picks_send d (read u r) open_ set in
        let (returned, all) =
          receive_pump-spawned ds turns t later
            (handle_raw_message decode u.picks_send d (read u r)) on' set' reads ends in
        rw (pump-read u (turns ++ (t ∷ later)) r d still got) (
          returned,
          all
              ∙ ap (λ xs. xs ++ messages ds) more
              ∙ append_assoc r.spawned (listed (message_of decode d)) (messages ds),
        )
