-- ===== src/Server/Handler/Requests.antt =====
-- What a handler sees of the requests before (libs/server/handler.go).
use top_lib.Prelude.{Option, none, List, [], ◌∷◌, ◌≡◌, refl, ◌∙◌, All}
use top_lib.Errors.Value.{Error}
use top_lib.Server.Handler.{Handler, called, with_req, bound, serve, serve_each}

-- A request that has no value for the field, which Bind then leaves as it is.
abbrev pub Lacks :
    {Context Req V : Type 0} → (Context → Req → Option Error × Req) → (Req → V) → Context → Type 0
Lacks bind field c = (req : _) → field (bind c req).1 ≡ field req

bound-called :
    {Context Req Resp : Type 0} (validate : Context → Req → Option Error) (err : Option Error)
    (h : Handler Context Req Resp) (c : Context)
    → err ≡ none
    → validate c h.req ≡ none
    → bound validate err h c ≡ called h.req (h.func c h.req h.resp)
bound-called validate err h c fine valid = rw (fine, valid) refl

module _ {Context Req Resp V : Type 0} (bind : Context → Req → Option Error × Req)
    (validate : Context → Req → Option Error) (field : Req → V) where
  serve_each-Lacks :
      (h : Handler Context Req Resp) (cs : List Context)
      → All (Lacks bind field) cs
      → field (serve_each bind validate h cs).req ≡ field h.req
  unfolding serve_each serve
  serve_each-Lacks h [] lacks = refl
  serve_each-Lacks h (c ∷ cs) lacks =
      serve_each-Lacks (with_req h (bind c h.req).1) cs lacks.1 ∙ lacks.0 h.req

  -- A field that a request sets stays set for the requests after it: where they and the last one,
  -- which Bind and Validate accept, have no value for the field, Func is called for the last one
  -- with the value that the first one gave.
  pub serve-keeps_field :
      (h : Handler Context Req Resp) (first last : Context) (cs : List Context)
      → All (Lacks bind field) cs
      → Lacks bind field last
      → (bind last (serve_each bind validate h (first ∷ cs)).req).0 ≡ none
      → ((req : Req) → validate last req ≡ none)
      → (req : Req) × (result : Option Error) × ((serve bind validate
            (serve_each bind validate h (first ∷ cs))
            last).0
          ≡ called req result)
        × (field req ≡ field (bind first h.req).1)
  unfolding serve_each serve
  serve-keeps_field h first last cs lacks lacks_last fine valid =
      let before = serve_each bind validate (with_req h (bind first h.req).1) cs in
      let req = (bind last before.req).1 in
      (
        req,
        before.func last req before.resp,
        bound-called validate (bind last before.req).0 (with_req before req) last fine (valid req),
        lacks_last before.req ∙ serve_each-Lacks (with_req h (bind first h.req).1) cs lacks,
      )
