-- ===== src/Queue/Sender/Order.antt =====
-- The order of the messages that a sender takes, and what Stop leaves (queue/message_sender.go).
use top_lib.Prelude.{
  ◌≤◌, ◌≡◌, refl, ap, ◌∙◌, true, false, [], ◌∷◌, ◌++◌, length, length-append, arith,
}
use mathlib.Core.List.{append_assoc}
use top_lib.Queue.Sender.{
  MessageSender, chan_capacity, new_message_sender, Step, Reach, here, next, queued, send_refused,
  send_timed_out, send_panicked, pump_wrote, pump_failed, pump_drained, pump_pinged, ping_failed,
  pump_cancelled, stop_cancelled, stop_closed, stop_panicked,
}

-- The messages that SendRawBytes took are those written, then those the pump failed on, then those
-- in the channel, in their order; the pump fails on one at most, and runs on after none.
pub record InOrder (s : MessageSender) : Type 0 where
  pub order : s.accepted ≡ s.written ++ (s.lost ++ s.send_chan)
  pub fits : length s.send_chan ≤ chan_capacity
  pub few : length s.lost ≤ 1
  pub running : s.pumping ≡ true → s.lost ≡ []
  pub graceful : s.chan_closed ≡ true → s.cancelled ≡ true
  pub calm : s.panicked ≡ true → s.chan_closed ≡ true

Step-InOrder : {s t : MessageSender} → Step s t → InOrder s → InOrder t
Step-InOrder (queued s m opened room) h = record {
  order =
      ap (λ xs. xs ++ (m ∷ [])) h.order
      ∙ append_assoc s.written (s.lost ++ s.send_chan) (m ∷ [])
      ∙ ap (λ xs. s.written ++ xs) (append_assoc s.lost s.send_chan (m ∷ []));
  fits = omega (arith, length-append s.send_chan (m ∷ []), room);
  few = h.few;
  running = h.running;
  graceful = h.graceful;
  calm = h.calm;
}
Step-InOrder (send_refused s e) h = h
Step-InOrder (send_timed_out s) h = h
Step-InOrder (send_panicked s e) h = record {
  order = h.order;
  fits = h.fits;
  few = h.few;
  running = h.running;
  graceful = h.graceful;
  calm = λ _. e;
}
Step-InOrder (pump_wrote s m rest on holds) h = record {
  order =
      rw (h.running on, append_assoc s.written (m ∷ []) rest) (rw (h.running on, holds) at h.order);
  fits = omega (arith, h.fits, ap length holds);
  few = h.few;
  running = h.running;
  graceful = h.graceful;
  calm = h.calm;
}
Step-InOrder (pump_failed s m rest on holds) h = record {
  order = rw (h.running on) (rw (h.running on, holds) at h.order);
  fits = omega (arith, h.fits, ap length holds);
  few = rw (h.running on) (omega arith);
  running = λ e. absurd (ground (arith, e));
  graceful = h.graceful;
  calm = h.calm;
}
Step-InOrder (pump_drained s on holds off) h = record {
  order = h.order;
  fits = h.fits;
  few = h.few;
  running = λ e. absurd (ground (arith, e));
  graceful = h.graceful;
  calm = h.calm;
}
Step-InOrder (pump_pinged s on) h = h
Step-InOrder (ping_failed s on) h = record {
  order = h.order;
  fits = h.fits;
  few = h.few;
  running = λ e. absurd (ground (arith, e));
  graceful = h.graceful;
  calm = h.calm;
}
Step-InOrder (pump_cancelled s on off) h = record {
  order = h.order;
  fits = h.fits;
  few = h.few;
  running = λ e. absurd (ground (arith, e));
  graceful = h.graceful;
  calm = h.calm;
}
Step-InOrder (stop_cancelled s) h = record {
  order = h.order;
  fits = h.fits;
  few = h.few;
  running = h.running;
  graceful = λ _. refl;
  calm = h.calm;
}
Step-InOrder (stop_closed s off opened) h = record {
  order = h.order;
  fits = h.fits;
  few = h.few;
  running = h.running;
  graceful = λ _. off;
  calm = λ _. refl;
}
Step-InOrder (stop_panicked s e) h = record {
  order = h.order;
  fits = h.fits;
  few = h.few;
  running = h.running;
  graceful = h.graceful;
  calm = λ _. e;
}

-- However its callers, the pump and Stop take turns, the messages that SendRawBytes took are those
-- written to the connection, then the one at most that the pump could not write, then those in the
-- channel, 256 at most, in the order they were taken; the pump goes on after no failed write; the
-- channel is closed only when the context is cancelled, and a panic comes only after that.
pub Reach-InOrder : {s t : MessageSender} → InOrder s → Reach s t → InOrder t
Reach-InOrder h here = h
Reach-InOrder h (next r step) = Step-InOrder step (Reach-InOrder h r)

pub new_message_sender-InOrder : InOrder new_message_sender
new_message_sender-InOrder = record {
  order = refl;
  fits = omega arith;
  few = omega arith;
  running = λ _. refl;
  graceful = λ e. absurd (ground (arith, e));
  calm = λ e. absurd (ground (arith, e));
}

-- A graceful Stop may lose messages that SendRawBytes took without an error: once the context is
-- cancelled, the pump may end with every one of them still in the channel.
pub stop_drops :
    (s : MessageSender)
    → s.pumping ≡ true
    → s.chan_closed ≡ false
    → (t : MessageSender) × Reach s t
      × (t.chan_closed ≡ true)
      × (t.pumping ≡ false)
      × (t.send_chan ≡ s.send_chan)
      × (t.written ≡ s.written)
stop_drops s on opened = (
  record s { cancelled = true; chan_closed = true; pumping = false },
  next
      (next (next here (stop_cancelled s))
        (stop_closed (record s { cancelled = true }) refl opened))
      (pump_cancelled (record s { cancelled = true; chan_closed = true }) on refl),
  refl,
  refl,
  refl,
  refl,
)
