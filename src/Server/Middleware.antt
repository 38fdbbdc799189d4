-- ===== src/Server/Middleware.antt =====
-- libs/server/logger.go and cors.go: the middleware that logs requests and the one for CORS. A
-- handler is what it does with the request's body and the response, step by step; writes succeed.
pub mod Transparent
use top_lib.Prelude.{
  Bool, true, false, String, Option, none, some, List, [], ◌∷◌, ◌++◌, str_eq, if◌then◌else◌,
}
use top_lib.Prelude.Split.{Text, codes}

-- A request's body: the bytes still to be read, and whether an error comes behind them.
pub record Body : Type 0 where
  pub bytes : Text
  pub broken : Bool

-- A handler reads the whole body, writes to the response, or returns an error or nil.
pub data Handler (E : Type 0) : Type 0 where
  reads : (Text → Bool → Handler E) → Handler E
  writes : Text → Handler E → Handler E
  ends : Option E → Handler E

-- The body, what the client has been sent, and respBody where the response's writer writes to it
-- too.
pub record Exchange : Type 0 where
  pub body : Body
  pub sent : Text
  pub dumped : Option Text

-- io.ReadAll leaves a body at its end.
abbrev pub consumed : Body → Body
consumed body = record body { bytes = [] }

abbrev pub also : Text → Option Text → Option Text
also t none = none
also t (some before) = some (before ++ t)

unfoldable pub run : {E : Type 0} → Handler E → Exchange → Option E × Exchange
run (reads more) x = run (more x.body.bytes x.body.broken) (record x { body = consumed x.body })
run (writes t more) x = run more (record x { sent = x.sent ++ t; dumped = also t x.dumped })
run (ends err) x = (err, x)

-- The lines that the middleware logs: the request with its body, and the error or the response.
pub data Line (E : Type 0) : Type 0 where
  request_line : Text → Line E
  error_line : E → Line E
  response_line : Text → Line E

-- requestBody: the JSON of the body indented, where it is JSON.
abbrev pub request_body : (indented : Text → Option Text) → Body → Text
request_body indented body =
    if body.broken
    then codes "failed to request body"
    else elim (indented body.bytes) [ none ↦ body.bytes | some text ↦ text ]

-- The body that the handler finds: put back, unless it could not be read.
abbrev pub put_back : Body → Body
put_back body = if body.broken then consumed body else body

abbrev pub dumped_text : Option Text → Text
dumped_text none = []
dumped_text (some t) = t

abbrev pub last_line : {E : Type 0} → Option E → Option Text → Line E
last_line none dumped = response_line (dumped_text dumped)
last_line (some err) dumped = error_line err

module _ {E : Type 0} (indented : Text → Option Text) where
  abbrev pub logged : Text → Option E × Exchange → Option E × (Exchange × List (Line E))
  logged body (err, x) = (err, (x, request_line body ∷ last_line err x.dumped ∷ []))

  -- Request, on a response that nothing else copies.
  unfoldable pub request : Handler E → Exchange → Option E × (Exchange × List (Line E))
  request next x =
      logged (request_body indented x.body)
        (run next (record x { body = put_back x.body; dumped = some [] }))

-- Cors: the headers it sets, and the next handler, or 204 for OPTIONS.
pub data Passed (A : Type 0) : Type 0 where
  no_content : Passed A
  passed_on : A → Passed A

abbrev pub cors_headers : List (String × String)
cors_headers =
    ("Access-Control-Allow-Origin", "*")
    ∷ ("Access-Control-Allow-Methods", "POST, GET, OPTIONS, PUT, DELETE, UPDATE")
    ∷ ("Access-Control-Allow-Headers", "*")
    ∷ (
      "Access-Control-Expose-Headers",
      "Content-Length, Access-Control-Allow-Origin, Access-Control-Allow-Headers, Cache-Control, Content-Language, Content-Type",
    )
    ∷ []

unfoldable pub cors : {A : Type 0} → (method : String) → A → List (String × String) × Passed A
cors method next = (cors_headers, if str_eq method "OPTIONS" then no_content else passed_on next)
