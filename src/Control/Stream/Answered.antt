-- ===== src/Control/Stream/Answered.antt =====
-- What a client of the control plane gets.
use lazyd.Base.{
  ◌<◌, ◌≡◌, refl, ap, ◌∙◌, inl, inr, Text, Bytes, none, some, length, Option, [], ◌∷◌, Option-cases,
  u64_end,
}
use lazyd.Errors.{Error, Result, ok, err}
use lazyd.Exec.{Result-cases}
use lazyd.Registry.{World, Setup}
use lazyd.Control.{Request, Response, ControlJson, handle_request}
use lazyd.Control.Http.{read_request, response_of, render_response}
use lazyd.Control.Http.Framed.{IsAscii}
use lazyd.Control.Http.Rendered.{Reads, render_response-Reads}
use lazyd.Control.Stream.{Connection, Served, write_all, write_response, handle_stream}
use lazyd.Control.Stream.Responses.{handle_request-Answers}

module _ (setup : Setup) (codec : ControlJson) (cache_root : Text) (c : Connection)
    (w : World) where
  -- A stream that nothing was written to
  abbrev pub accepted : Served
  accepted = record { world = w; written = [] }

  abbrev pub outcome : Option (Result (Unit {0}) × Served)
  outcome = handle_stream setup codec cache_root c accepted

  -- The handling of one stream waits; or its request cannot be read, and nothing has happened; or
  -- the request is handled and its response cannot be rendered; or one write, of the response,
  -- fails; or that write, the only one, succeeds, and what it wrote can be read.
  pub data Handled : Type 0 where
    waits :
        (request : Request)
        → read_request c.from_utf8 c.reads ≡ ok request
        → handle_request setup codec cache_root request w ≡ none
        → outcome ≡ none
        → Handled
    unread :
        (e : Error)
        → read_request c.from_utf8 c.reads ≡ err e
        → outcome ≡ some (err e, accepted)
        → Handled
    unrendered :
        (request : Request) (response : Result Response) (e : Error) (v : World)
        → read_request c.from_utf8 c.reads ≡ ok request
        → handle_request setup codec cache_root request w ≡ some (response, v)
        → render_response codec response ≡ err e
        → outcome ≡ some (err e, record { world = v; written = [] })
        → Handled
    unsent :
        (request : Request) (response : Result Response) (e : Error) (v : World) (bytes : Bytes)
        → read_request c.from_utf8 c.reads ≡ ok request
        → handle_request setup codec cache_root request w ≡ some (response, v)
        → render_response codec response ≡ ok bytes
        → c.write_all bytes ≡ err e
        → outcome ≡ some (err e, record { world = v; written = bytes ∷ [] })
        → Handled
    answered :
        (request : Request) (response : Result Response) (v : World) (answer : Response)
        (bytes : Bytes)
        → read_request c.from_utf8 c.reads ≡ ok request
        → handle_request setup codec cache_root request w ≡ some (response, v)
        → response_of codec response ≡ ok answer
        → render_response codec response ≡ ok bytes
        → c.write_all bytes ≡ ok tt
        → Reads c.from_utf8 bytes answer
        → outcome ≡ some (ok tt, record { world = v; written = bytes ∷ [] })
        → Handled

  -- Where from_utf8 takes ASCII and write_all takes less than 2^64 bytes, from a stream that
  -- nothing was written to: a stream of the control plane waits in its request; or the request
  -- cannot be read, and then the world is as it was and nothing is written; or it is handled, the
  -- response cannot be rendered, and nothing is written; or it is handled and exactly one write is
  -- made, of the rendered response, which fails; or that one write succeeds, of the response or of
  -- an error as its JSON body, and parse_headers, which reads requests by the same rules, gives
  -- the end of its head and the length of its body, which is all that follows. In each case the
  -- world is the one that the handling of the request leaves.
  pub handle_stream-Handled :
      ((head : Text) → IsAscii head → c.from_utf8 head ≡ ok tt)
      → ((bytes : Bytes) → c.write_all bytes ≡ ok tt → length bytes < u64_end)
      → Handled
  unfolding handle_stream write_response write_all
  handle_stream-Handled accepts fits = elim (Result-cases (read_request c.from_utf8 c.reads)) [
    | inr (e, q) ↦ unread e q (rw (handle_stream, q) refl)
    | inl (request, q) ↦ elim (Option-cases (handle_request setup codec cache_root request w)) [
      | inl h ↦ waits request q h (rw (handle_stream, q, h) refl)
      | inr ((response, v), h) ↦ elim (Result-cases (render_response codec response)) [
        | inr (e, p) ↦
            unrendered request response e v q h p (rw (handle_stream, q, h, write_response, p) refl)
        | inl (bytes, p) ↦ elim (Result-cases (c.write_all bytes)) [
          | inr (e, s) ↦
              unsent request response e v bytes q h p s
                (rw (handle_stream, q, h, write_response, p, write_all, s) refl)
          | inl (_, s) ↦
              let (answer, r, reads) =
                render_response-Reads codec c.from_utf8 response bytes accepts
                  (λ r k.
                    handle_request-Answers setup codec cache_root request w r v
                      (h ∙ ap (λ o. some (o, v)) k))
                  p (fits bytes s) in
              answered request response v answer bytes q h r p s reads
                (rw (handle_stream, q, h, write_response, p, write_all, s) refl)
        ]
      ]
    ]
  ]
