-- ===== src/Databases/Connect/Slaves.antt =====
-- What becomes of the slaves of a configuration (libs/databases/mysql.go).
use top_lib.Prelude.{
  Bool, true, false, String, Option, some, List, [], ◌∷◌, ◌≡◌, ◌≢◌, refl, sym, ap, ◌∙◌, All, str_eq,
  eq_iff, arith, if◌then◌else◌,
}
use top_lib.Errors.Effect.{Exit, continue, ◌>>=◌}
use top_lib.Databases.Connect.{
  Config, Xorm, Db, ConnError, some_empty, new_single_conn, new_ms_conn, init,
}

none_empty : (slaves : List String) → All (λ slave. slave ≢ "") slaves → some_empty slaves ≡ false
none_empty [] named = refl
none_empty (slave ∷ slaves) (here, named) =
    let other : str_eq "" slave ≡ false =
      ground (arith, eq_iff "" slave, λ (e : "" ≡ slave). here (sym e)) in
    rw other (none_empty slaves named)

module _ {W E H : Type 0} (xorm : Xorm W E H) where
  ms-slaves :
      (c : Config) (slaves : List String)
      → some_empty slaves ≡ false
      → some_empty c.slaves ≡ false
      → new_ms_conn xorm (some (record c { slaves = slaves })) ≡ new_ms_conn xorm (some c)
  unfolding new_ms_conn
  ms-slaves c slaves named before = rw (named, before) refl

  single-slaves :
      (c : Config) (slaves : List String)
      → new_single_conn xorm (some (record c { slaves = slaves })) ≡ new_single_conn xorm (some c)
  unfolding new_single_conn
  single-slaves c slaves = refl

  -- Init does the same and gives the same whatever slaves a configuration has, none included, as
  -- long as none of them is an empty text; and what it gives for a master with slaves is what
  -- NewSingleConn gives after NewMSConn has returned, whatever that has opened.
  pub init-slaves :
      (c : Config) (slaves : List String) (w w' : W) (opened : Option (Db H) × Option (ConnError E))
      → All (λ slave. slave ≢ "") slaves
      → All (λ slave. slave ≢ "") c.slaves
      → c.use_master_slave ≡ true
      → new_ms_conn xorm (some c) w ≡ (Exit.returns opened, w')
      → (init xorm (some (record c { slaves = slaves })) w ≡ init xorm (some c) w)
        × (init xorm (some c) w ≡ new_single_conn xorm (some c) w')
  unfolding init
  init-slaves c slaves w w' opened named before on ran = (
    rw
        (
          ms-slaves c slaves (none_empty slaves named) (none_empty c.slaves before),
          single-slaves c slaves,
        )
        refl,
    by_case c.use_master_slave on
        ∙ ap (λ (out : _ × W). continue out.0 (λ _. new_single_conn xorm (some c)) out.1) ran,
  )
    where
      by_case :
          (b : Bool)
          → b ≡ true
          → (if b
                then (new_ms_conn xorm (some c) >>= λ _. new_single_conn xorm (some c))
                else new_single_conn xorm (some c))
              w
            ≡ (new_ms_conn xorm (some c) >>= λ _. new_single_conn xorm (some c)) w
      by_case true e = refl
      by_case false e = absurd (ground (arith, e))
