-- ===== src/Server/Middleware/Transparent.antt =====
-- That logging a request changes nothing for its handler and its client (libs/server/logger.go).
use top_lib.Prelude.{false, Option, none, some, [], ◌∷◌, ◌++◌, ◌≡◌, refl, sym, ap, ◌∙◌}
use mathlib.Core.List.{append-nil, append_assoc}
use top_lib.Prelude.Split.{Text}
use top_lib.Server.Middleware.{
  Body, Handler, reads, writes, ends, Exchange, run, request_body, put_back, request_line,
  last_line, consumed, request,
}

-- A run whose response is copied against one whose response is not: all is the same, and the copy
-- gets what the client gets.
record Copies {E : Type 0} (copied plain : Option E × Exchange) (before sent : Text) : Type 0 where
  same_error : copied.0 ≡ plain.0
  same_body : copied.1.body ≡ plain.1.body
  same_sent : copied.1.sent ≡ plain.1.sent
  more : Text
  grows : plain.1.sent ≡ sent ++ more
  copy : copied.1.dumped ≡ some (before ++ more)

module _ {E : Type 0} where
  run-Copies :
      (h : Handler E) (body : Body) (sent before : Text)
      → Copies
          (run h (record { body = body; sent = sent; dumped = some before }))
          (run h (record { body = body; sent = sent; dumped = none }))
          before
          sent
  unfolding run
  run-Copies (reads next) body sent before =
      run-Copies (next body.bytes body.broken) (consumed body) sent before
  run-Copies (writes t next) body sent before =
      let rest = run-Copies next body (sent ++ t) (before ++ t) in
      record {
        same_error = rest.same_error;
        same_body = rest.same_body;
        same_sent = rest.same_sent;
        more = t ++ rest.more;
        grows = rest.grows ∙ append_assoc sent t rest.more;
        copy = rest.copy ∙ ap some (append_assoc before t rest.more);
      }
  run-Copies (ends err) body sent before = record {
    same_error = refl;
    same_body = refl;
    same_sent = refl;
    more = [];
    grows = sym (append-nil sent);
    copy = ap some (sym (append-nil before));
  }

  -- Where the request's body can be read, a handler of the model, which reads the body whole, writes
  -- and ends, leaves the body and sends the client behind Request what it would without it, and its
  -- error is given on; logged are the body, indented where it is JSON, and then the error, or all
  -- that the handler has sent.
  request-run :
      (indented : Text → Option Text) (next : Handler E) (body : Body) (sent : Text)
      → body.broken ≡ false
      → let x : Exchange = record { body = body; sent = sent; dumped = none } in
        let (err, (x', lines)) = request indented next x in
        let plain = run next x in
        (err ≡ plain.0)
        × (x'.body ≡ plain.1.body)
        × (x'.sent ≡ plain.1.sent)
        × (more : Text) × (plain.1.sent ≡ sent ++ more)
        × (lines ≡ request_line (request_body indented body) ∷ last_line err (some more) ∷ [])
  unfolding request
  request-run indented next body sent whole =
      let copies = run-Copies next (put_back body) sent [] in
      let copied = run next (record { body = put_back body; sent = sent; dumped = some [] }) in
      let kept : put_back body ≡ body = rw whole refl in
      let same : run next (record { body = put_back body; sent = sent; dumped = none })
          ≡ run next (record { body = body; sent = sent; dumped = none }) =
        ap (λ b. run next (record { body = b; sent = sent; dumped = none })) kept in
      (
        copies.same_error ∙ ap (λ out. out.0) same,
        copies.same_body ∙ ap (λ out. out.1.body) same,
        copies.same_sent ∙ ap (λ out. out.1.sent) same,
        copies.more,
        sym (ap (λ out. out.1.sent) same) ∙ copies.grows,
        ap (λ dumped. request_line (request_body indented body) ∷ last_line copied.0 dumped ∷ [])
            copies.copy,
      )
