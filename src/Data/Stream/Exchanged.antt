-- ===== src/Data/Stream/Exchanged.antt =====
-- What a client of a stream has when its packet was handled without an error.
use lazyd.Base.{
  ℕ, ◌+◌, ◌*◌, ◌≤◌, ◌≡◌, ap, ◌∙◌, inl, inr, arith, Text, Bytes, Bool, none, some, [], ◌∷◌, length,
  u64_end, min,
}
use lazyd.Errors.{Error, ok, err}
use lazyd.Exec.{Result-cases}
use lazyd.Instance.{Instance}
use lazyd.Instance.Pages.{FetchRange, Handle}
use lazyd.Registry.{World, Setup, get}
use lazyd.Registry.Serving.{WorldServes, InCache}
use lazyd.Data.{
  host_page_size, DataEnv, DataResponse, FetchRequest, fetch_ok, error, Reply, good, bad,
  parse_fetch_request, handle_packet,
}
use lazyd.Data.Answers.{IsStatus, Replied, blocks, refuses, serves, handle_packet_lem}
use lazyd.Data.Packets.{Count, count, recv_packet, send_packet_iff, send_packet_with_fd}
use lazyd.Data.Stream.{Exchange, send_response, handle_stream_once}

-- The encoding of a response was sent whole.
abbrev pub Sent : DataEnv → (Bytes → Count) → DataResponse → Type 0
Sent env send response =
    (bytes : Bytes) × (env.to_vec response ≡ ok bytes)
    × (length bytes ≤ 64 * 1024)
    × (send bytes ≡ count (length bytes))

-- One packet of a stream: the daemon waits in it; or it ends with an error, which ends the stream;
-- or the client has an error with a status of the crate; or it has the pages that it asked for,
-- with the descriptor of the cache file of the instance that it names, which holds them.
pub data Exchanged (setup : Setup) (env : DataEnv) (blob : Text → ℕ → ℕ) (x : Exchange) (w : World)
    : Type 0 where
  waits :
      (packet : Bytes)
      → recv_packet x.msg ≡ ok packet
      → handle_packet setup env packet w ≡ none
      → handle_stream_once setup env x w ≡ none
      → Exchanged setup env blob x w
  ends :
      (e : Error) (v : World)
      → handle_stream_once setup env x w ≡ some (err e, v)
      → Exchanged setup env blob x w
  told :
      (id : Text) (code : ℕ) (msg : Text) (v : World)
      → handle_stream_once setup env x w ≡ some (ok tt, v)
      → IsStatus code
      → Sent env x.send (error 1 id code msg)
      → Exchanged setup env blob x w
  given :
      (packet : Bytes) (request : FetchRequest) (i : Instance) (n : ℕ) (v : World)
      → recv_packet x.msg ≡ ok packet
      → parse_fetch_request env packet ≡ good request
      → handle_stream_once setup env x w ≡ some (ok tt, v)
      → Sent env
          (λ bytes. x.sendmsg bytes i.config.target_path)
          (fetch_ok 1 request.request_id
            (record { off = request.pos; len = request.len; dev_off = request.pos } ∷ []))
      → get request.instance_id w ≡ some i
      → request.pos + n ≡ min i.config.blob.size (request.pos + request.len)
      → InCache (blob request.instance_id) i request.pos n v
      → Exchanged setup env blob x w

send_packet_with_fd-ok :
    (has_room : Bool) (sendmsg : Bytes → Text → Count) (bytes : Bytes) (fd : Text)
    → send_packet_with_fd has_room sendmsg bytes fd ≡ ok tt
    → (length bytes ≤ 64 * 1024) × (sendmsg bytes fd ≡ count (length bytes))
unfolding send_packet_with_fd
send_packet_with_fd-ok has_room sendmsg bytes fd h = ground arith

module _ (env : DataEnv) (x : Exchange) (response : DataResponse) where
  bad-Sent : send_response env x (bad response) ≡ ok tt → Sent env x.send response
  unfolding send_response
  bad-Sent h = elim (Result-cases (env.to_vec response)) [
    | inr (e, q) ↦ let z = rw (q, send_response) at h in cc
    | inl (bytes, q) ↦
        let (short, all) = (send_packet_iff x.send bytes).0 (rw (q, send_response) at h) in
        (bytes, q, short, all)
  ]

  good-Sent :
      (file : Handle)
      → send_response env x (good (response, file)) ≡ ok tt
      → Sent env (λ bytes. x.sendmsg bytes file) response
  unfolding send_response
  good-Sent file h = elim (Result-cases (env.to_vec response)) [
    | inr (e, q) ↦ let z = rw (q, send_response) at h in cc
    | inl (bytes, q) ↦
        let (short, all) =
          send_packet_with_fd-ok x.has_room x.sendmsg bytes file (rw (q, send_response) at h) in
        (bytes, q, short, all)
  ]

module _ (setup : Setup) (env : DataEnv) (blob : Text → ℕ → ℕ) (x : Exchange) (w : World) where
  eq_unreceived :
      (e : Error) → recv_packet x.msg ≡ err e → handle_stream_once setup env x w ≡ some (err e, w)
  unfolding handle_stream_once
  eq_unreceived e p = rw (p, handle_stream_once)

  module _ (packet : Bytes) (p : recv_packet x.msg ≡ ok packet) where
    eq_waits : handle_packet setup env packet w ≡ none → handle_stream_once setup env x w ≡ none
    unfolding handle_stream_once
    eq_waits q = rw (p, handle_stream_once, q)

    eq_handled :
        (r : Reply (DataResponse × Handle)) (v : World)
        → handle_packet setup env packet w ≡ some (r, v)
        → handle_stream_once setup env x w ≡ some (send_response env x r, v)
    unfolding handle_stream_once
    eq_handled r v q = rw (p, handle_stream_once, q)

    replied : Replied setup env blob packet w → Exchanged setup env blob x w
    replied (blocks q) = waits packet p q (eq_waits q)
    replied (refuses id code msg v q s) =
        let h = eq_handled (bad (error 1 id code msg)) v q in
        elim (Result-cases (send_response env x (bad (error 1 id code msg)))) [
          | inr (e, z) ↦ ends e v (h ∙ ap (λ r. some (r, v)) z)
          | inl (_, z) ↦
              told id code msg v (h ∙ ap (λ r. some (r, v)) z) s
                (bad-Sent env x (error 1 id code msg) z)
        ]
    replied (serves request i n v parsed g q real inside) =
        let range : FetchRange = record {
          off = request.pos;
          len = request.len;
          dev_off = request.pos;
        } in
        let response : DataResponse = fetch_ok 1 request.request_id (range ∷ []) in
        let file : Handle = i.config.target_path in
        let h = eq_handled (good (response, file)) v q in
        elim (Result-cases (send_response env x (good (response, file)))) [
          | inr (e, z) ↦ ends e v (h ∙ ap (λ r. some (r, v)) z)
          | inl (_, z) ↦
              given packet request i n v p parsed (h ∙ ap (λ r. some (r, v)) z)
                (good-Sent env x response file z) g real inside
        ]

  -- In a daemon whose instances serve their blobs, with honest backends, and where no blob ends
  -- within a page of 2^64, the handling of one packet of a stream waits in the packet; or ends
  -- with an error; or ends well after an error response with a code of 400, 404, 409 or 500 went
  -- out whole and in at most 64 KiB; or ends well after the range that the packet asks for went
  -- out whole, in at most 64 KiB and with a descriptor of the file at the target path of the
  -- instance that the packet names, and the bytes of that range within the blob are in that file.
  pub handle_stream_once_lem :
      WorldServes setup blob w
      → ((id : Text) (page : ℕ) (i : Instance)
          → host_page_size env ≡ ok page
          → get id w ≡ some i
          → i.config.blob.size + page ≤ u64_end)
      → Exchanged setup env blob x w
  handle_stream_once_lem v fits = elim (Result-cases (recv_packet x.msg)) [
    | inr (e, p) ↦ ends e w (eq_unreceived e p)
    | inl (packet, p) ↦ replied packet p (handle_packet_lem setup env blob packet w v fits)
  ]
