-- ===== src/Server/Manager/Serving.antt =====
-- The manager's invariant, and that the kicks keep it (libs/server/ws_client_manager.go).
use top_lib.Prelude.{
  ℕ, String, ◌≡◌, ◌≢◌, refl, sym, subst, inl, inr, Option-cases, false, List, [], ◌∷◌, All,
}
use top_lib.Prelude.Assoc.{lookup, erase}
use top_lib.Prelude.Entries.{
  All-weaken, All-pair, IsDistinct, All-insert, All-lookup, All-erase, IsDistinct-insert,
  IsDistinct-erase,
}
use top_lib.Server.Client.{Outcome, done, crashed, waiting, and_then, Client}
use top_lib.Server.Manager.Steps.{
  IsServed, put-other, closed, dropped, kick_session-held, kick_session-absent, kick_user-held,
  kick_user-unknown, kick_user-absent, kick_all-next,
}
use top_lib.Server.Manager.{
  ClientManager, put, register, kick_client_by_user_id, kick_client_by_session_id, kick_all,
}

pub record Serves (m : ClientManager) : Type 0 where
  pub served : All (IsServed m.objects) m.clients
  pub distinct : IsDistinct m.clients

-- The outcome is no panic, and its state keeps the invariant.
abbrev pub Keeps : Outcome ClientManager → Type 0
Keeps (done m) = Serves m
Keeps (crashed why) = ⊥
Keeps (waiting m) = Serves m

pub and_then-Keeps :
    (o : Outcome ClientManager) (f : ClientManager → Outcome ClientManager)
    → Keeps o
    → ((m : ClientManager) → Serves m → Keeps (f m))
    → Keeps (and_then o f)
and_then-Keeps (done m) f h k = k m h
and_then-Keeps (crashed why) f h k = absurd h
and_then-Keeps (waiting m) f h k = h

-- Entries of other sessions than the one of the object that changes.
IsServed-put :
    (a : ℕ) (c : Client) (objects : ℕ → Client) (entries : List (String × ℕ))
    → All (λ e. IsServed objects e × (e.0 ≢ (objects a).session_id)) entries
    → All (IsServed (put a c objects)) entries
IsServed-put a c objects entries =
    All-weaken
      (λ (session_id, b) (h, other).
        let apart : a ≢ b = λ same. other (rw same (sym (h.0))) in
        rw (put-other a b c objects apart) h)
      entries

-- A client is closed and its session leaves the map, whatever becomes of the users.
pub drop-Serves :
    (a : ℕ) (m : ClientManager) (session_id : String) (users : List (String × String))
    → Serves m
    → (m.objects a).session_id ≡ session_id
    → Serves (record {
      clients = erase session_id m.clients;
      user_ids = users;
      objects = put a (closed (m.objects a)) m.objects;
    })
drop-Serves a m session_id users h own = record {
  served =
      IsServed-put a (closed (m.objects a)) m.objects (erase session_id m.clients)
        (rw own (All-erase (IsServed m.objects) session_id m.clients h.served));
  distinct = IsDistinct-erase session_id m.clients h.distinct;
}

pub register-Serves :
    (a : ℕ) (m : ClientManager) → (m.objects a).is_closed ≡ false → Serves m → Serves (register a m)
unfolding register
register-Serves a m opened h = record {
  served =
      All-insert (IsServed m.objects) (m.objects a).session_id a m.clients h.served (refl, opened);
  distinct = IsDistinct-insert (m.objects a).session_id a m.clients h.distinct;
}

pub as_step : {o o' : Outcome ClientManager} → o ≡ o' → Keeps o' → Keeps o
as_step e h = subst Keeps (sym e) h

kick_session-Keeps :
    (session_id : String) (m : ClientManager)
    → Serves m
    → Keeps (kick_client_by_session_id session_id m)
kick_session-Keeps session_id m h = elim (Option-cases (lookup session_id m.clients)) [
  | inl absent ↦ as_step (kick_session-absent session_id m absent) h
  | inr (a, found) ↦
      let (own, opened) = All-lookup (IsServed m.objects) session_id a m.clients h.served found in
      as_step (kick_session-held session_id a m found opened)
        (drop-Serves a m session_id (erase (m.objects a).user_id m.user_ids) h own)
]

kick_user-Keeps :
    (user_id : String) (m : ClientManager) → Serves m → Keeps (kick_client_by_user_id user_id m)
kick_user-Keeps user_id m h = elim (Option-cases (lookup user_id m.user_ids)) [
  | inl unknown ↦ as_step (kick_user-unknown user_id m unknown) h
  | inr (session_id, known) ↦ elim (Option-cases (lookup session_id m.clients)) [
    | inl absent ↦ as_step (kick_user-absent user_id session_id m known absent) h
    | inr (a, found) ↦
        let (own, opened) = All-lookup (IsServed m.objects) session_id a m.clients h.served found in
        as_step (kick_user-held user_id session_id a m known found opened)
          (drop-Serves a m session_id (erase user_id m.user_ids) h own)
  ]
]

pub kick_all-Keeps :
    (entries : List (String × ℕ)) (m : ClientManager)
    → Serves m
    → All (IsServed m.objects) entries
    → IsDistinct entries
    → Keeps (kick_all entries m)
kick_all-Keeps [] m h served distinct = unfold kick_all in h
kick_all-Keeps ((session_id, a) ∷ entries) m h ((own, opened), served) (apart, distinct) =
    let users = erase (m.objects a).user_id m.user_ids in
    let others = All-pair (IsServed m.objects) (λ e. e.0 ≢ session_id) entries served apart in
    as_step (kick_all-next session_id a entries m (own, opened)) (
      kick_all-Keeps entries (dropped a session_id users m) (drop-Serves a m session_id users h own)
        (IsServed-put a (closed (m.objects a)) m.objects entries (rw own others)) distinct)

-- The two kicks, whatever user or session they name, panic in no state of the invariant and keep
-- it.
pub kicks-Keep :
    (user_id session_id : String) (m : ClientManager)
    → Serves m
    → Keeps (kick_client_by_user_id user_id m) × Keeps (kick_client_by_session_id session_id m)
kicks-Keep user_id session_id m h = (kick_user-Keeps user_id m h, kick_session-Keeps session_id m h)
