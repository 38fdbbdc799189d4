-- ===== src/Server/Handler.antt =====
-- libs/server/handler.go: a handler with its one request value, and the list of handlers. The
-- context's Bind and Validate are arguments.
pub mod Requests
use top_lib.Prelude.{String, Option, none, some, List, [], ◌∷◌, ◌++◌}
use top_lib.Errors.Value.{Error}

pub record Handler (Context Req Resp : Type 0) : Type 0 where
  pub path : String
  pub name : String
  pub tags : List String
  pub func : Context → Req → Resp → Option Error
  pub req : Req
  pub resp : Resp

-- What the function of GetFunc comes to: an error of Bind or Validate, or a call of Func with
-- this request.
pub data Served (Req : Type 0) : Type 0 where
  refused : Error → Served Req
  called : (req : Req) → (result : Option Error) → Served Req

module _ {Context Req Resp : Type 0} where
  -- The zero values of the two types are `req` and `resp`.
  unfoldable pub new_handler :
      (req : Req) (resp : Resp)
      → String
      → List String
      → (Context → Req → Resp → Option Error)
      → Handler Context Req Resp
  new_handler req resp name tags f = record {
    path = "";
    name = name;
    tags = tags;
    func = f;
    req = req;
    resp = resp;
  }

  abbrev pub with_req : Handler Context Req Resp → Req → Handler Context Req Resp
  with_req h req = record {
    path = h.path;
    name = h.name;
    tags = h.tags;
    func = h.func;
    req = req;
    resp = h.resp;
  }

  abbrev validated : Option Error → Handler Context Req Resp → Context → Served Req
  validated (some e) h c = refused e
  validated none h c = called h.req (h.func c h.req h.resp)

  abbrev pub bound :
      (validate : Context → Req → Option Error)
      → Option Error
      → Handler Context Req Resp
      → Context
      → Served Req
  bound validate (some e) h c = refused e
  bound validate none h c = validated (validate c h.req) h c

  module _ (bind : Context → Req → Option Error × Req)
      (validate : Context → Req → Option Error) where
    -- The function of GetFunc: Bind writes into the handler, also where it gives an error.
    unfoldable pub serve :
        Handler Context Req Resp → Context → Served Req × Handler Context Req Resp
    serve h c =
        let (err, req) = bind c h.req in let h' = with_req h req in (bound validate err h' c, h')

    -- Requests one after the other.
    unfoldable pub serve_each : Handler Context Req Resp → List Context → Handler Context Req Resp
    serve_each h [] = h
    serve_each h (c ∷ cs) = serve_each (serve h c).1 cs
