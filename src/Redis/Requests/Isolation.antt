-- ===== src/Redis/Requests/Isolation.antt =====
-- What the clients of a view leave alone on its server (libs/redis).
use top_lib.Prelude.{
  ◌⊎◌, inl, inr, true, none, some, List, [], ◌∷◌, map, ◌≡◌, ◌≢◌, refl, ap, ◌∙◌, All,
}
use top_lib.Prelude.Split.{Text}
use top_lib.Errors.Effect.{giving, Action, Exit, returns, panics, continue, ◌>>◌}
use top_lib.Redis.Keys.{expand_key}
use top_lib.Redis.View.Isolation.{IsOutside, given_elsewhere, after_pure}
use top_lib.Prelude.Int.{ℤ, pos}
use top_lib.Redis.View.{wrap_result}
use top_lib.Redis.Driver.{Client, Command, writes_of, View, value_or}
use top_lib.Redis.Hash
use top_lib.Redis.Strings
use top_lib.Redis.Strings.{with_timeout, timeout_of}
use top_lib.Redis.Sets
use top_lib.Redis.Lists
use top_lib.Redis.Zset.Members
use top_lib.Redis.Geo
use top_lib.Redis.Requests.{
  Request, perform, run, h_set_nx, h_set, hm_set, h_del, s_add, s_rem, s_pop, s_pop_n, s_diff_merge,
  s_inter_merge, s_union_merge, l_rem, l_trim, l_set, l_push, l_append, l_pop, lr_pop, l_insert,
  z_add, z_rem, z_rem_range_by_lex, z_rem_range_by_score, z_rem_range_by_rank, z_incr, z_incr_nx,
  z_inter_merge, z_union_merge, geo_add, del, set_nx, set, expire, x_add,
}

module _ {S V : Type 0} (at : S → Text → V) where
  -- A call leaves the server as it is at the key.
  abbrev pub Leaves : Text → {A : Type 0} → Action S A → Type 0
  Leaves j call = (s : S) → at (call s).1 j ≡ at s j

  pub giving-Leaves :
      {A B : Type 0} (j : Text) (f : A → B) (call : Action S A)
      → Leaves j call
      → Leaves j (giving f call)
  giving-Leaves j f call h s = ap (λ s'. at s' j) (after_pure call f s) ∙ h s

  then-Leaves : (j : Text) (m n : Action S (Unit {0})) → Leaves j m → Leaves j n → Leaves j (m >> n)
  then-Leaves j m n hm hn s = let (e, s') = m s in of_exit e s' ∙ hm s
    where
      of_exit : (e : Exit (Unit {0})) (s' : S) → at (continue e (λ _. n) s').1 j ≡ at s' j
      of_exit (returns a) s' = hn s'
      of_exit (panics v) s' = refl

module _ {F S E V : Type 0} (at : S → Text → V) where
  -- Each command leaves the server as it is at every key that it does not write.
  pub record IsLocal (client : Client F S E) : Type 0 where
    pub any_local :
        (c : Command F) (j : Text) → All (λ k. k ≢ j) (writes_of c) → Leaves at j (client.any c)
    pub int_local :
        (c : Command F) (j : Text) → All (λ k. k ≢ j) (writes_of c) → Leaves at j (client.int c)
    pub bool_local :
        (c : Command F) (j : Text) → All (λ k. k ≢ j) (writes_of c) → Leaves at j (client.bool c)
    pub text_local :
        (c : Command F) (j : Text) → All (λ k. k ≢ j) (writes_of c) → Leaves at j (client.text c)
    pub texts_local :
        (c : Command F) (j : Text) → All (λ k. k ≢ j) (writes_of c) → Leaves at j (client.texts c)
    pub float_local :
        (c : Command F) (j : Text) → All (λ k. k ≢ j) (writes_of c) → Leaves at j (client.float c)

-- The key is not one that a request names without the prefix.
abbrev pub Spares : {F : Type 0} → Text → Request F → Type 0
Spares j (s_diff_merge destination keys) = destination ≢ j
Spares j (s_inter_merge destination keys) = destination ≢ j
Spares j (s_union_merge destination keys) = destination ≢ j
Spares j (z_incr_nx key member) = key ≢ j
Spares j (z_inter_merge destination keys weights aggregate) = destination ≢ j
Spares j (z_union_merge destination keys weights aggregate) = destination ≢ j
Spares j (x_add stream values) = stream ≢ j
Spares j _ = Unit {0}

module _ {F S E V : Type 0} (at : S → Text → V) (format : F → Text) (parse_duration : Text → E ⊎ ℤ)
    (r : View F S E) (local : IsLocal at r.client) (j : Text) (out : IsOutside r.prefix j) where
  -- A call whose result is dropped, and one whose result is first turned over.
  dropped-Leaves :
      {A : Type 0} (call : Action S A) → Leaves at j call → Leaves at j (giving (λ _. tt) call)
  dropped-Leaves call h = giving-Leaves at j (λ _. tt) call h

  turned-Leaves :
      {A B : Type 0} (f : A → B) (call : Action S A)
      → Leaves at j call
      → Leaves at j (giving (λ _. tt) (giving f call))
  turned-Leaves f call h = dropped-Leaves (giving f call) (giving-Leaves at j f call h)

  int_write-Leaves :
      (c : Command F)
      → All (λ k. k ≢ j) (writes_of c)
      → Leaves at j (giving (λ _. tt) (r.client.int c))
  int_write-Leaves c h = dropped-Leaves (r.client.int c) (local.int_local c j h)

  timed-Leaves :
      {A : Type 0} (timeout : E ⊎ ℤ) (refusal : E → A) (call : ℤ → Action S A)
      → ((n : ℤ) → Leaves at j (call n))
      → Leaves at j (giving (λ _. tt) (with_timeout timeout refusal call))
  timed-Leaves (inl e) refusal call h = λ s. refl
  timed-Leaves (inr n) refusal call h = dropped-Leaves (call n) (h n)

  perform-Leaves :
      (request : Request F)
      → Spares j request
      → Leaves at j (perform format parse_duration r request)
  unfolding perform Hash.h_set_nx Hash.h_set Hash.hm_set Hash.h_del Sets.s_add Sets.s_rem Sets.s_pop
      Sets.s_pop_n Sets.s_diff_merge Sets.s_inter_merge Sets.s_union_merge Lists.l_rem Lists.l_trim
      Lists.l_set Lists.l_push Lists.l_append Lists.l_pop Lists.lr_pop Lists.l_insert Members.z_add
      Members.z_rem Members.z_rem_range_by_lex Members.z_rem_range_by_score
      Members.z_rem_range_by_rank Members.z_incr Members.z_incr_nx Members.z_inter_merge
      Members.z_union_merge Geo.geo_add Geo.del Strings.set_nx Strings.set Strings.expire
      Strings.x_add
  perform-Leaves (h_set_nx key field value) spares =
      turned-Leaves wrap_result
        (r.client.any (Command.h_set_nx (expand_key r.prefix key) field value))
        (local.any_local (Command.h_set_nx (expand_key r.prefix key) field value) j (out key, tt))
  perform-Leaves (h_set key field value) spares =
      turned-Leaves wrap_result (r.client.any (Command.h_set (expand_key r.prefix key) field value))
        (local.any_local (Command.h_set (expand_key r.prefix key) field value) j (out key, tt))
  perform-Leaves (hm_set key none) spares = λ s. refl
  perform-Leaves (hm_set key (some values)) spares =
      turned-Leaves (λ result. Hash.set_error (wrap_result result))
        (r.client.any (Command.hm_set (expand_key r.prefix key) values))
        (local.any_local (Command.hm_set (expand_key r.prefix key) values) j (out key, tt))
  perform-Leaves (h_del key fields) spares =
      int_write-Leaves (Command.h_del (expand_key r.prefix key) fields) (out key, tt)
  perform-Leaves (s_add key values) spares =
      int_write-Leaves (Command.s_add (expand_key r.prefix key) values) (out key, tt)
  perform-Leaves (s_rem key values) spares =
      int_write-Leaves (Command.s_rem (expand_key r.prefix key) values) (out key, tt)
  perform-Leaves (s_pop key) spares =
      turned-Leaves (value_or []) (r.client.text (Command.s_pop (expand_key r.prefix key)))
        (local.text_local (Command.s_pop (expand_key r.prefix key)) j (out key, tt))
  perform-Leaves (s_pop_n key count) spares =
      turned-Leaves (value_or []) (r.client.texts (Command.s_pop_n (expand_key r.prefix key) count))
        (local.texts_local (Command.s_pop_n (expand_key r.prefix key) count) j (out key, tt))
  perform-Leaves (s_diff_merge destination keys) spares =
      int_write-Leaves (Command.s_diff_store destination (map (expand_key r.prefix) keys))
        (spares, tt)
  perform-Leaves (s_inter_merge destination keys) spares =
      int_write-Leaves (Command.s_inter_store destination (map (expand_key r.prefix) keys))
        (spares, tt)
  perform-Leaves (s_union_merge destination keys) spares =
      int_write-Leaves (Command.s_union_store destination (map (expand_key r.prefix) keys))
        (spares, tt)
  perform-Leaves (l_rem key count value) spares =
      int_write-Leaves (Command.l_rem (expand_key r.prefix key) count value) (out key, tt)
  perform-Leaves (l_trim key start stop) spares =
      turned-Leaves wrap_result (r.client.any (Command.l_trim (expand_key r.prefix key) start stop))
        (local.any_local (Command.l_trim (expand_key r.prefix key) start stop) j (out key, tt))
  perform-Leaves (l_set key index value) spares =
      turned-Leaves wrap_result (r.client.any (Command.l_set (expand_key r.prefix key) index value))
        (local.any_local (Command.l_set (expand_key r.prefix key) index value) j (out key, tt))
  perform-Leaves (l_push key values) spares =
      int_write-Leaves (Command.l_push (expand_key r.prefix key) values) (out key, tt)
  perform-Leaves (l_append key values) spares =
      int_write-Leaves (Command.r_push (expand_key r.prefix key) values) (out key, tt)
  perform-Leaves (l_pop key) spares =
      turned-Leaves (value_or []) (r.client.text (Command.l_pop (expand_key r.prefix key)))
        (local.text_local (Command.l_pop (expand_key r.prefix key)) j (out key, tt))
  perform-Leaves (lr_pop key) spares =
      turned-Leaves (value_or []) (r.client.text (Command.r_pop (expand_key r.prefix key)))
        (local.text_local (Command.r_pop (expand_key r.prefix key)) j (out key, tt))
  perform-Leaves (l_insert key op pivot value) spares =
      int_write-Leaves (Command.l_insert (expand_key r.prefix key) (Lists.op_text op) pivot value)
        (out key, tt)
  perform-Leaves (z_add key members) spares =
      int_write-Leaves (Command.z_add (expand_key r.prefix key) (map Members.scored members))
        (out key, tt)
  perform-Leaves (z_rem key members) spares =
      int_write-Leaves (Command.z_rem (expand_key r.prefix key) (map Members.text_of members))
        (out key, tt)
  perform-Leaves (z_rem_range_by_lex key min max) spares =
      int_write-Leaves (Command.z_rem_range_by_lex (expand_key r.prefix key) min max) (out key, tt)
  perform-Leaves (z_rem_range_by_score key min max) spares =
      int_write-Leaves
        (Command.z_rem_range_by_score (expand_key r.prefix key) (format min) (format max))
        (out key, tt)
  perform-Leaves (z_rem_range_by_rank key start stop) spares =
      int_write-Leaves (Command.z_rem_range_by_rank (expand_key r.prefix key) start stop)
        (out key, tt)
  perform-Leaves (z_incr key member) spares =
      dropped-Leaves
        (r.client.float (Command.z_incr_by (expand_key r.prefix key) member.score member.member))
        (local.float_local (Command.z_incr_by (expand_key r.prefix key) member.score member.member)
          j (out key, tt))
  perform-Leaves (z_incr_nx key member) spares =
      dropped-Leaves
        (r.client.float (Command.z_add_args_incr key true (Members.scored member ∷ [])))
        (local.float_local (Command.z_add_args_incr key true (Members.scored member ∷ [])) j
          (spares, tt))
  perform-Leaves (z_inter_merge destination keys weights aggregate) spares =
      int_write-Leaves (Command.z_inter_store destination keys weights aggregate) (spares, tt)
  perform-Leaves (z_union_merge destination keys weights aggregate) spares =
      int_write-Leaves (Command.z_union_store destination keys weights aggregate) (spares, tt)
  perform-Leaves (geo_add key locations) spares =
      turned-Leaves (value_or (pos 0))
        (r.client.int (Command.geo_add (expand_key r.prefix key) locations))
        (local.int_local (Command.geo_add (expand_key r.prefix key) locations) j (out key, tt))
  perform-Leaves (del keys) spares =
      int_write-Leaves (Command.del (map (expand_key r.prefix) keys))
        (given_elsewhere r.prefix j keys out)
  perform-Leaves (set_nx key value duration) spares =
      timed-Leaves (timeout_of parse_duration r duration) _ _
        (λ n. local.bool_local (Command.set_nx (expand_key r.prefix key) value n) j (out key, tt))
  perform-Leaves (set key value duration) spares =
      timed-Leaves (timeout_of parse_duration r duration) _ _ (λ n.
        giving-Leaves at j (λ got. got.1)
          (r.client.text (Command.set (expand_key r.prefix key) value n))
          (local.text_local (Command.set (expand_key r.prefix key) value n) j (out key, tt)))
  perform-Leaves (expire key duration) spares = timed-Leaves (parse_duration duration) _ _ (λ n.
      giving-Leaves at j wrap_result (r.client.any (Command.expire (expand_key r.prefix key) n))
        (local.any_local (Command.expire (expand_key r.prefix key) n) j (out key, tt)))
  perform-Leaves (x_add stream values) spares =
      dropped-Leaves (r.client.text (Command.x_add stream values))
        (local.text_local (Command.x_add stream values) j (spares, tt))

  -- Where the library's commands are local, any sequence of the calls of a view that change keys by a
  -- command of their own leaves the server as it is at a key that is not under the view's prefix, if
  -- none of the merges has it as its destination, no ZIncrNX as its key and no XAdd as its stream.
  pub run-Leaves :
      (requests : List (Request F))
      → All (Spares j) requests
      → Leaves at j (run format parse_duration r requests)
  unfolding run
  run-Leaves [] spares = λ s. refl
  run-Leaves (request ∷ requests) spares =
      then-Leaves at j (perform format parse_duration r request)
        (run format parse_duration r requests) (perform-Leaves request spares.0)
        (run-Leaves requests spares.1)
