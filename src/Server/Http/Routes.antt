-- ===== src/Server/Http/Routes.antt =====
-- Which calls of a backend register a route (libs/server/server_http.go, backend_http.go).
use top_lib.Prelude.{
  Bool, true, false, ◌||◌, String, Option, none, some, List, [], ◌∷◌, ◌≡◌, ◌≢◌, refl, sym, ap, ◌∙◌,
  str_eq, eq_iff, arith, Bool-cases, inl, inr,
}
use top_lib.Prelude.Assoc.{lookup, lookup-insert}
use top_lib.Prelude.Text.{str_append}
use top_lib.Server.Http.{
  Engine, StarDustGroup, HttpServer, handle, add_native_handler, add_group, add_to_group, route,
  get, post, Call, group_call, get_call, post_call, handler_call, native_call, call, calls,
}

-- Whether some of the calls is AddGroup of the name.
abbrev pub adds : {M H : Type 0} → String → List (Call M H) → Bool
adds g [] = false
adds g (group_call name middleware ∷ cs) = str_eq name g || adds g cs
adds g (get_call group name handler ∷ cs) = adds g cs
adds g (post_call group name handler ∷ cs) = adds g cs
adds g (handler_call method path handler ∷ cs) = adds g cs
adds g (native_call method path handler ∷ cs) = adds g cs

module _ {Eng G M H : Type 0} (echo : Engine Eng G M H)
    (join_path : String → List String → String) where
  -- A group of the name, with the name as its prefix.
  abbrev HasGroup : String → HttpServer Eng G → Type 0
  HasGroup g m = (group : StarDustGroup G) × (lookup g m.group ≡ some group) × (group.prefix ≡ g)

  route-group :
      (method path group : String) (handler : H) (m : HttpServer Eng G)
      → (route echo join_path method path group handler m).group ≡ m.group
  unfolding handle
  route-group method path group handler m = elim (Bool-cases (str_eq group "")) [
    | inl no_group ↦ rw no_group refl
    | inr named ↦ rw named (to_group (lookup group m.group))
  ]
    where
      to_group :
          (found : Option (StarDustGroup G))
          → (add_to_group echo join_path found method path handler m).group ≡ m.group
      to_group none = refl
      to_group (some g) = refl

  add_group-HasGroup :
      (g name : String) (middleware : List M) (m : HttpServer Eng G)
      → (str_eq name g ≡ true → HasGroup g (add_group echo join_path name middleware m))
        × (str_eq name g ≡ false
            → lookup g (add_group echo join_path name middleware m).group ≡ lookup g m.group)
  unfolding add_group
  add_group-HasGroup g name middleware m =
      let path = join_path m.path ("api" ∷ name ∷ []) in
      let new : StarDustGroup G = record {
        prefix = name;
        of_engine = (echo.group path middleware m.engine).0;
      } in
      let found = sym (lookup-insert name g new m.group) in
      (λ hit. (new, found ∙ rw hit refl, (eq_iff name g).0 hit), λ miss. found ∙ rw miss refl)

  same_groups :
      (g : String) (m m' : HttpServer Eng G) → m'.group ≡ m.group → HasGroup g m → HasGroup g m'
  same_groups g m m' e (group, found, named) = (group, ap (lookup g) e ∙ found, named)

  call-HasGroup :
      (g : String) (c : Call M H) (m : HttpServer Eng G)
      → HasGroup g m
      → HasGroup g (call echo join_path c m)
  unfolding call get post handle add_native_handler
  call-HasGroup g (group_call name middleware) m h = elim (Bool-cases (str_eq name g)) [
    | inl hit ↦ (add_group-HasGroup g name middleware m).0 hit
    | inr miss ↦ (h.0, (add_group-HasGroup g name middleware m).1 miss ∙ h.1, h.2)
  ]
  call-HasGroup g (get_call group name handler) m h =
      same_groups g m (get echo join_path name group handler m)
        (route-group "GET" name group handler m) h
  call-HasGroup g (post_call group name handler) m h =
      same_groups g m (post echo join_path name group handler m)
        (route-group "POST" name group handler m) h
  call-HasGroup g (handler_call method path handler) m h = h
  call-HasGroup g (native_call method path handler) m h = h

  calls-HasGroup :
      (g : String) (cs : List (Call M H)) (m : HttpServer Eng G)
      → HasGroup g m
      → HasGroup g (calls echo join_path cs m)
  unfolding calls
  calls-HasGroup g [] m h = h
  calls-HasGroup g (c ∷ cs) m h =
      calls-HasGroup g cs (call echo join_path c m) (call-HasGroup g c m h)

  calls-adds :
      (g : String) (cs : List (Call M H)) (m : HttpServer Eng G)
      → (adds g cs ≡ true → HasGroup g (calls echo join_path cs m))
        × (adds g cs ≡ false → lookup g (calls echo join_path cs m).group ≡ lookup g m.group)
  unfolding calls call get post handle add_native_handler
  calls-adds g [] m = (λ e. absurd (ground (arith, e)), λ e. refl)
  calls-adds g (group_call name middleware ∷ cs) m =
      let m' = add_group echo join_path name middleware m in
      let ih = calls-adds g cs m' in
      elim (Bool-cases (str_eq name g)) [
        | inl hit ↦ (
          λ e. calls-HasGroup g cs m' ((add_group-HasGroup g name middleware m).0 hit),
          λ e. absurd (ground (arith, e, hit)),
        )
        | inr miss ↦ rw miss (ih.0, λ e. ih.1 e ∙ (add_group-HasGroup g name middleware m).1 miss)
      ]
  calls-adds g (get_call group name handler ∷ cs) m =
      let ih = calls-adds g cs (get echo join_path name group handler m) in
      (ih.0, λ e. ih.1 e ∙ ap (lookup g) (route-group "GET" name group handler m))
  calls-adds g (post_call group name handler ∷ cs) m =
      let ih = calls-adds g cs (post echo join_path name group handler m) in
      (ih.0, λ e. ih.1 e ∙ ap (lookup g) (route-group "POST" name group handler m))
  calls-adds g (handler_call method path handler ∷ cs) m =
      calls-adds g cs (handle echo join_path method path handler m)
  calls-adds g (native_call method path handler ∷ cs) m =
      calls-adds g cs (add_native_handler echo join_path method path handler m)

  -- What Get does with a named group, by whether it has been added: a route of the group under a
  -- slash and the name, or nothing.
  abbrev pub Registers : Bool → String → String → H → HttpServer Eng G → HttpServer Eng G → Type 0
  Registers false g name handler m m' = m' ≡ m
  Registers true g name handler m m' =
      (group : StarDustGroup G) × (lookup g m.group ≡ some group)
      × (group.prefix ≡ g)
      × (m'.engine ≡ echo.group_add group.of_engine "GET" (str_append "/" name) handler m.engine)

  get-Registers :
      (g name : String) (handler : H) (cs : List (Call M H)) (m : HttpServer Eng G)
      → m.group ≡ []
      → str_eq g "" ≡ false
      → let m' = calls echo join_path cs m in
        Registers (adds g cs) g name handler m' (get echo join_path name g handler m')
  unfolding get lookup
  get-Registers g name handler cs m none_yet other = elim (Bool-cases (adds g cs)) [
    | inl hit ↦
        let (group, found, called) = (calls-adds g cs m).0 hit in
        rw hit (group, found, called, rw (other, found) refl)
    | inr miss ↦
        let nothing = (calls-adds g cs m).1 miss ∙ ap (lookup g) none_yet in
        rw (miss, other, nothing) refl
  ]

  -- A handler that a backend adds to a named group after some calls on a server without groups: if
  -- one of the calls has added the group, it becomes a route of it, under a slash and its name; if
  -- none has, nothing changes, and no error is given. With no group it becomes a route of the server
  -- under its path and api.
  pub get-adds :
      (g name : String) (handler : H) (cs : List (Call M H)) (m : HttpServer Eng G)
      → m.group ≡ []
      → g ≢ ""
      → let m' = calls echo join_path cs m in
        Registers (adds g cs) g name handler m' (get echo join_path name g handler m')
        × ((get echo join_path name "" handler m').engine
            ≡ echo.add "GET" (join_path m'.path ("api" ∷ name ∷ [])) handler m'.engine)
  unfolding get handle
  get-adds g name handler cs m none_yet named =
      (get-Registers g name handler cs m none_yet (ground (arith, eq_iff g "", named)), refl)
