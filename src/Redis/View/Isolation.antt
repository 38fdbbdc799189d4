-- ===== src/Redis/View/Isolation.antt =====
-- What a view leaves alone on its server (libs/redis/redis_view.go).
use top_lib.Prelude.{String, List, [], ◌∷◌, map, ◌≡◌, ◌≢◌, refl, ap, ◌∙◌, ◌⊎◌, inl, inr, All}
use top_lib.Errors.Effect.{Action, Exit, returns, panics, pure, continue, ◌>>=◌}
use top_lib.Prelude.Split.{Text}
use top_lib.Redis.Keys.{expand_key}
use top_lib.Redis.View.{RedisCmd, RedisView, timeout_of, wrap_result, set_nx, set, del, expire}

-- The key is not under the prefix.
abbrev pub IsOutside : Text → Text → Type 0
IsOutside prefix j = (k : Text) → expand_key prefix k ≢ j

pub given_elsewhere :
    (prefix j : Text) (ks : List Text)
    → IsOutside prefix j
    → All (λ k. k ≢ j) (map (expand_key prefix) ks)
given_elsewhere prefix j [] out = tt
given_elsewhere prefix j (k ∷ ks) out = (out k, given_elsewhere prefix j ks out)

module _ {S A B : Type 0} where
  -- A call that only turns its result over leaves the state of the call.
  pub after_pure : (m : Action S A) (f : A → B) (s : S) → ((m >>= λ a. pure (f a)) s).1 ≡ (m s).1
  after_pure m f s = let (r, s') = m s in of_exit r s'
    where
      of_exit : (r : Exit A) (s' : S) → (continue r (λ a. pure (f a)) s').1 ≡ s'
      of_exit (returns a) s' = refl
      of_exit (panics v) s' = refl

module _ {S E D V : Type 0} (at : S → Text → V) where
  -- Each command that writes leaves the server as it is at every key that it is not given.
  pub record IsLocal (cmd : RedisCmd S E D) : Type 0 where
    pub set_nx_local :
        (k v : Text) (d : D) (s : S) (j : Text) → k ≢ j → at (cmd.set_nx k v d s).1 j ≡ at s j
    pub set_local :
        (k v : Text) (d : D) (s : S) (j : Text) → k ≢ j → at (cmd.set k v d s).1 j ≡ at s j
    pub del_local :
        (ks : List Text) (s : S) (j : Text) → All (λ k. k ≢ j) ks → at (cmd.del ks s).1 j ≡ at s j
    pub expire_local :
        (k : Text) (d : D) (s : S) (j : Text) → k ≢ j → at (cmd.expire k d s).1 j ≡ at s j

  module _ (r : RedisView S E D) (local : IsLocal r.cmd) (j : Text)
      (out : IsOutside r.prefix j) where
    set_nx-local :
        (key value : Text) (duration : String) (s : S) (t : E ⊎ D)
        → timeout_of r.time duration ≡ t
        → at (set_nx r key value duration s).1 j ≡ at s j
    unfolding set_nx
    set_nx-local key value duration s (inl err) e = rw (e, set_nx) refl
    set_nx-local key value duration s (inr d) e =
        rw (e, set_nx) (local.set_nx_local (expand_key r.prefix key) value d s j (out key))

    set-local :
        (key value : Text) (duration : String) (s : S) (t : E ⊎ D)
        → timeout_of r.time duration ≡ t
        → at (set r key value duration s).1 j ≡ at s j
    unfolding set
    set-local key value duration s (inl err) e = rw (e, set) refl
    set-local key value duration s (inr d) e =
        rw (e, set) (local.set_local (expand_key r.prefix key) value d s j (out key))

    expire-local :
        (key : Text) (duration : String) (s : S) (t : E ⊎ D)
        → r.time.parse_duration duration ≡ t
        → at (expire r key duration s).1 j ≡ at s j
    unfolding expire
    expire-local key duration s (inl err) e = rw (e, expire) refl
    expire-local key duration s (inr d) e =
        let full = expand_key r.prefix key in
        rw (e, expire)
          (ap (λ s'. at s' j) (after_pure (r.cmd.expire full d) wrap_result s)
            ∙ local.expire_local full d s j (out key))

    -- Where the client library's commands are local, SetNX, Set, Del and Expire of a view leave the
    -- server as it is at every key that is not under the view's prefix, in every outcome.
    pub view-isolates :
        (key value : Text) (keys : List Text) (duration : String) (s : S)
        → (at (set_nx r key value duration s).1 j ≡ at s j)
          × (at (set r key value duration s).1 j ≡ at s j)
          × (at (del r keys s).1 j ≡ at s j)
          × (at (expire r key duration s).1 j ≡ at s j)
    unfolding del
    view-isolates key value keys duration s = (
      set_nx-local key value duration s (timeout_of r.time duration) refl,
      set-local key value duration s (timeout_of r.time duration) refl,
      local.del_local (map (expand_key r.prefix) keys) s j (given_elsewhere r.prefix j keys out),
      expire-local key duration s (r.time.parse_duration duration) refl,
    )
