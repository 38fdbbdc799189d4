-- ===== src/Databases/Tests.antt =====
-- Examples of libs/databases, over a state that counts what is written.
use top_lib.Prelude.{
  ℕ, ◌+◌, true, String, Option, none, some, List, [], ◌∷◌, map, length, ◌≡◌, ◌≢◌, refl,
}
use mathlib.Core.List.{zip}
use top_lib.Prelude.Int.{ℤ, pos}
use top_lib.Errors.Effect.{returns, Action, pure, ◌>>=◌}
use top_lib.Databases.Session.{DbError, driver, XormSession, warp_session, transaction}
use top_lib.Databases.Session.Traced.{at, unlogged, traced, IsCalm}
use top_lib.Databases.Session.Transactions.{Ends, transaction-Ends}
use top_lib.Databases.Session.Warp.{WarpEnds, warp_session-WarpEnds}
use top_lib.Databases.Dao.{Statements, OrmBaseDao, upsert_many}
use top_lib.Databases.Dao.Upserts.{upsert_each, total_of, upsert_many-upsert_each}

abbrev Row : Type 0
Row = Option ℕ × ℕ

abbrev session : XormSession ℕ String
session = record {
  begin = pure none;
  commit = pure none;
  rollback = λ n. (returns none, 0);
  close = pure tt;
}

session-IsCalm : IsCalm session
session-IsCalm = record {
  begin = λ s. (none, s, refl);
  commit = λ s. (none, s, refl);
  rollback = λ s. (none, 0, refl);
  close = λ s. (s, refl);
}

abbrev writes : Action ℕ (Option (DbError String))
writes n = (returns none, n + 1)

abbrev fails : Action ℕ (Option (DbError String))
fails n = (returns (some (driver "duplicate")), n)

transaction-Ends_example :
    Ends session
      (writes ∷ fails ∷ writes ∷ [])
      0
      (transaction (traced session) (map unlogged (writes ∷ fails ∷ writes ∷ [])) (at [] 0))
transaction-Ends_example = transaction-Ends session (writes ∷ fails ∷ writes ∷ []) 0 session-IsCalm

abbrev handler : Action ℕ (Option String × ℤ × Option (DbError String))
handler n = (returns (some "saved", pos 0, none), n + 1)

warp_session-WarpEnds_example :
    WarpEnds session handler 0 (warp_session (traced session) (unlogged handler) (at [] 0))
warp_session-WarpEnds_example = warp_session-WarpEnds session handler 0 session-IsCalm

-- One row of a database and one bean: the state is what the row and the bean hold.
abbrev one_row : Statements (ℕ × ℕ) (Unit {0}) (Unit {0}) String
one_row = record {
  insert_one = λ b s. (returns (1, none), (s.1, s.1));
  insert = λ bs s. (returns (0, none), s);
  update = λ b ws s. (returns (1, none), (s.1, s.1));
  id_update = λ i b s. (returns (1, none), (s.1, s.1));
  delete = λ b s. (returns (0, none), s);
  id_delete = λ i b s. (returns (0, none), s);
  sql_find = λ q args b s. (returns none, s);
  id_get = λ i b s. (returns (true, none), (s.0, s.0));
  get = λ b s. (returns (true, none), (s.0, s.0));
  count = λ b s. (returns (1, none), s);
  exist = λ b s. (returns (true, none), s);
  order_by_find = λ o b bs s. (returns none, s);
  limit_order_by_find_and_count = λ l k o b bs s. (returns (1, none), s);
}

abbrev dao : OrmBaseDao (ℕ × ℕ) (Unit {0}) (Unit {0}) String
dao = record { conn = one_row; session = none }

upsert_many-upsert_each_example :
    (length (tt {0} ∷ []) ≡ length (tt {0} ∷ [])
      → upsert_many "mismatch" dao (tt ∷ []) (tt ∷ []) (3, 4)
        ≡ (upsert_each dao (zip (tt ∷ []) (tt ∷ [])) >>= λ r. pure (total_of 0 r)) (3, 4))
    × (length (tt {0} ∷ []) ≢ length (tt {0} ∷ [])
        → upsert_many "mismatch" dao (tt ∷ []) (tt ∷ []) (3, 4)
          ≡ (returns (0, some "mismatch"), (3, 4)))
upsert_many-upsert_each_example = upsert_many-upsert_each "mismatch" dao (tt ∷ []) (tt ∷ []) (3, 4)

abbrev two_args : List String
two_args = "a" ∷ "b" ∷ []
