-- ===== src/Redis/Connect/Nodes.antt =====
-- Which nodes a client talks to (libs/redis/redis_cmd.go).
use top_lib.Prelude.{true, false, String, none, some, List, ◌∷◌, ◌≡◌, sym, ap, ◌∙◌}
use top_lib.Errors.Effect.{Exit, returns, continue, giving}
use top_lib.Redis.Connect.{Config, Library, options, cluster_options, by_addrs, init}

module _ {W C : Type 0} (library : Library W C) where
  -- The client that Init gives for a cluster is that of the cluster's first address alone, made
  -- after a client of the cluster that is dropped.
  pub init-single :
      (addr : String) (addrs : List String) (c : Config) (cluster : C) (w w' : W)
      → c.addrs ≡ addr ∷ addrs
      → library.new_cluster_client (cluster_options c) w ≡ (returns cluster, w')
      → init library (some (record c { use_cluster = true })) w
        ≡ init library (some (record c { use_cluster = false })) w'
  unfolding init
  init-single addr addrs c cluster w w' given made =
      let joined : Config = record c { use_cluster = true } in
      let alone : Config = record c { use_cluster = false } in
      let single = giving (λ client. (some client, none)) (library.new_client (options addr c)) in
      ap (λ addrs'. by_addrs library addrs' joined w) given
      ∙ ap (λ (out : Exit C × W). continue out.0 (λ _. single) out.1) made
      ∙ sym (ap (λ addrs'. by_addrs library addrs' alone w') given)
