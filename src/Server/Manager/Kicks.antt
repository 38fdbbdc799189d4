-- ===== src/Server/Manager/Kicks.antt =====
-- Stopping the manager, and kicking one of a user's two sessions
-- (libs/server/ws_client_manager.go).
use top_lib.Prelude.{
  ℕ, String, ◌≡◌, ◌≢◌, refl, sym, ◌∙◌, subst, true, false, some, List, [], ◌∷◌, All, arith,
}
use top_lib.Prelude.Assoc.{
  lookup, insert, erase, lookup-insert_same, lookup-insert_other, lookup-erase_same,
  lookup-erase_other,
}
use top_lib.Prelude.Entries.{IsDistinct, erase-head}
use top_lib.Server.Client.{done, waiting}
use top_lib.Server.Manager.{
  ClientManager, put, register, kick_client_by_user_id, kick_client_by_session_id, kick_all, stop,
  stop_signal,
}
use top_lib.Server.Manager.Steps.{
  IsServed, closed, put-same, dropped, kick_session-held, kick_user-unknown, kick_all-next,
}
use top_lib.Server.Manager.Serving.{Serves, drop-Serves}

abbrev IsClosedIn : ClientManager → ℕ → Type 0
IsClosedIn m a = (m.objects a).is_closed ≡ true

-- What the loop of Stop leaves, from the entries it has yet to see.
record Stops (entries : List (String × ℕ)) (m : ClientManager) : Type 0 where
  last : ClientManager
  runs : kick_all entries m ≡ done last
  emptied : last.clients ≡ []
  all_closed : All (λ e. IsClosedIn last e.1) entries
  still_closed : (b : ℕ) → IsClosedIn m b → IsClosedIn last b

closed-dropped :
    (a b : ℕ) (session_id : String) (users : List (String × String)) (m : ClientManager)
    → IsClosedIn m b
    → IsClosedIn (dropped a session_id users m) b
unfolding put
closed-dropped a b session_id users m h = ground (arith, h)

kick_all-Stops :
    (entries : List (String × ℕ)) (m : ClientManager)
    → m.clients ≡ entries
    → Serves m
    → Stops entries m
kick_all-Stops [] m all h = record {
  last = m;
  runs = unfold kick_all in refl;
  emptied = all;
  all_closed = tt;
  still_closed = λ b c. c;
}
kick_all-Stops ((session_id, a) ∷ entries) m all h =
    let here : IsServed m.objects (session_id, a) =
      (subst (All (IsServed m.objects)) all h.served).0 in
    let users = erase (m.objects a).user_id m.user_ids in
    let m' : ClientManager = dropped a session_id users m in
    let left : m'.clients ≡ entries =
      rw all (erase-head session_id a entries (subst IsDistinct all h.distinct)) in
    let r = kick_all-Stops entries m' left (drop-Serves a m session_id users h (here.0)) in
    record {
      last = r.last;
      runs = kick_all-next session_id a entries m here ∙ r.runs;
      emptied = r.emptied;
      all_closed =
          (r.still_closed a (rw (put-same a (closed (m.objects a)) m.objects) refl), r.all_closed);
      still_closed = λ b c. r.still_closed b (closed-dropped a b session_id users m c);
    }

-- When the loop of Start takes a stop signal it closes every client of the map and empties the
-- map, before it sends the second signal, where stop_signal says that it waits.
stop_signal-waits :
    (m : ClientManager)
    → Serves m
    → (last : ClientManager) × (stop_signal m ≡ waiting last)
      × (last.clients ≡ [])
      × All (λ e. IsClosedIn last e.1) m.clients
unfolding stop_signal stop
stop_signal-waits m h =
    let r = kick_all-Stops m.clients m refl h in (r.last, rw r.runs refl, r.emptied, r.all_closed)

-- Two clients of one user register under two sessions. Kicking the first session forgets the user,
-- so kicking the user then changes nothing, and the second client stays in the map.
pub kick_user-forgotten :
    (a b : ℕ) (m : ClientManager)
    → (m.objects a).session_id ≢ (m.objects b).session_id
    → (m.objects a).user_id ≡ (m.objects b).user_id
    → (m.objects a).is_closed ≡ false
    → let both = register b (register a m) in
      (m' : ClientManager) × (kick_client_by_session_id (m.objects a).session_id both ≡ done m')
      × (kick_client_by_user_id (m.objects b).user_id m' ≡ done m')
      × (lookup (m.objects b).session_id m'.clients ≡ some b)
unfolding register
kick_user-forgotten a b m other same opened =
    let both : ClientManager = register b (register a m) in
    let s_a = (m.objects a).session_id in
    let s_b = (m.objects b).session_id in
    let held : lookup s_a both.clients ≡ some a =
      lookup-insert_other s_b s_a b (insert s_a a m.clients) (λ e. other (sym e))
      ∙ lookup-insert_same s_a a m.clients in
    let users = erase (m.objects a).user_id both.user_ids in
    let m' : ClientManager = dropped a s_a users both in
    (
      m',
      kick_session-held s_a a both held opened,
      kick_user-unknown (m.objects b).user_id m'
          (rw same (lookup-erase_same (m.objects b).user_id _)),
      lookup-erase_other s_a s_b both.clients other
          ∙ lookup-insert_same s_b b (insert s_a a m.clients),
    )
