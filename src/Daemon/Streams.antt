-- ===== src/Daemon/Streams.antt =====
-- The streams of the data plane keep the daemon sound.
use lazyd.Base.{ℕ, ◌≡◌, subst, inl, inr, Text, Bytes, some, Option-cases, List, [], ◌∷◌}
use lazyd.Errors.{Result, ok, err}
use lazyd.Exec.{Result-cases}
use lazyd.Instance.{Instance}
use lazyd.Instance.Pages.{FetchRange, Handle, prepare_fetch_range}
use lazyd.Instance.Pages.Kept.{prepare_fetch_range-Kept}
use lazyd.Data.{
  host_page_size, DataEnv, DataResponse, FetchRequest, Reply, fetch_pages, handle_fetch,
  handle_packet,
}
use lazyd.Data.Answers.{parse-cases}
use lazyd.Data.Packets.{recv_packet}
use lazyd.Data.Stream.{Exchange, handle_stream_once, handle_stream}
use lazyd.Registry.{Setup, World, get}
use lazyd.Registry.Serving.{state_of}
use lazyd.Registry.Apart.{after}
use lazyd.Daemon.{Sound}
use lazyd.Daemon.Calls.{Kept-Sound}

module _ (setup : Setup) (blob : Text → ℕ → ℕ) where
  -- The data plane
  fetch_pages-Sound :
      (env : DataEnv) (request : FetchRequest) (page : ℕ) (w v : World) (i : Instance)
      → get request.instance_id w ≡ some i
      → (r : Result (FetchRange × Handle)) → fetch_pages setup env i request page w ≡ some (r, v)
      → Sound setup blob w
      → Sound setup blob v
  unfolding fetch_pages
  fetch_pages-Sound env request page w v i q r h s =
      elim (Option-cases (
        prepare_fetch_range (setup.backend i.config) request.pos request.len page (state_of i w))) [
          | inl z ↦ let e = rw (z, fetch_pages) at h in cc
          | inr ((x, t), z) ↦
              let id = request.instance_id in
              let e = rw (z, fetch_pages) at h in
              let k =
                prepare_fetch_range-Kept (blob id) (setup.backend i.config) (s.serves.honest id i q)
                  (state_of i w) (s.serves.serves id i q) request.pos request.len page x t z in
              let same : after id w i q t k.local ≡ v = cc in
              subst (Sound setup blob) same (Kept-Sound setup blob id w i q t k s)
        ]

  handle_fetch-Sound :
      (env : DataEnv) (request : FetchRequest) (w v : World) (r : Result (DataResponse × Handle))
      → handle_fetch setup env request w ≡ some (r, v)
      → Sound setup blob w
      → Sound setup blob v
  unfolding handle_fetch
  handle_fetch-Sound env request w v r h s = elim (Result-cases (host_page_size env)) [
    | inr (e, p) ↦
        let z = rw (p, handle_fetch) at h in
        let same : w ≡ v = cc in subst (Sound setup blob) same s
    | inl (page, p) ↦ elim (Option-cases (get request.instance_id w)) [
      | inl q ↦
          let z = rw (p, handle_fetch, q) at h in
          let same : w ≡ v = cc in subst (Sound setup blob) same s
      | inr (i, q) ↦ elim (Option-cases (fetch_pages setup env i request page w)) [
        | inl f ↦ let z = rw (p, handle_fetch, q, f) at h in cc
        | inr ((x, u), f) ↦
            let z = rw (p, handle_fetch, q, f) at h in
            let same : u ≡ v = cc in
            subst (Sound setup blob) same (fetch_pages-Sound env request page w u i q x f s)
      ]
    ]
  ]

  handle_packet-Sound :
      (env : DataEnv) (packet : Bytes) (w v : World) (r : Reply (DataResponse × Handle))
      → handle_packet setup env packet w ≡ some (r, v)
      → Sound setup blob w
      → Sound setup blob v
  unfolding handle_packet
  handle_packet-Sound env packet w v r h s = elim (parse-cases env packet) [
    | inr (id, msg, p) ↦
        let z = rw (p, handle_packet) at h in
        let same : w ≡ v = cc in subst (Sound setup blob) same s
    | inl (request, p) ↦ elim (Option-cases (handle_fetch setup env request w)) [
      | inl q ↦ let z = rw (p, handle_packet, q) at h in cc
      | inr ((x, u), q) ↦
          let z = rw (p, handle_packet, q) at h in
          let same : u ≡ v = cc in
          subst (Sound setup blob) same (handle_fetch-Sound env request w u x q s)
    ]
  ]

  handle_stream_once-Sound :
      (env : DataEnv) (x : Exchange) (w v : World) (r : Result (Unit {0}))
      → handle_stream_once setup env x w ≡ some (r, v)
      → Sound setup blob w
      → Sound setup blob v
  unfolding handle_stream_once
  handle_stream_once-Sound env x w v r h s = elim (Result-cases (recv_packet x.msg)) [
    | inr (e, p) ↦
        let z = rw (p, handle_stream_once) at h in
        let same : w ≡ v = cc in subst (Sound setup blob) same s
    | inl (packet, p) ↦ elim (Option-cases (handle_packet setup env packet w)) [
      | inl q ↦ let z = rw (p, handle_stream_once, q) at h in cc
      | inr ((y, u), q) ↦
          let z = rw (p, handle_stream_once, q) at h in
          let same : u ≡ v = cc in
          subst (Sound setup blob) same (handle_packet-Sound env packet w u y q s)
    ]
  ]

  pub handle_stream-Sound :
      (env : DataEnv) (xs : List Exchange) (w v : World) (r : Result (Unit {0}))
      → handle_stream setup env xs w ≡ some (r, v)
      → Sound setup blob w
      → Sound setup blob v
  unfolding handle_stream
  handle_stream-Sound env [] w v r h s = let same : w ≡ v = cc in subst (Sound setup blob) same s
  handle_stream-Sound env (x ∷ xs) w v r h s =
      elim (Option-cases (handle_stream_once setup env x w)) [
        | inl q ↦ let z = rw (q, handle_stream) at h in cc
        | inr ((err e, u), q) ↦
            let z = rw (q, handle_stream) at h in
            let same : u ≡ v = cc in
            subst (Sound setup blob) same (handle_stream_once-Sound env x w u (err e) q s)
        | inr ((ok y, u), q) ↦
            handle_stream-Sound env xs u v r (rw (q, handle_stream) at h)
              (handle_stream_once-Sound env x w u (ok y) q s)
      ]
