-- ===== src/Data/Answers.antt =====
-- The reply of the data plane to each packet.
use lazyd.Base.{
  ℕ, ◌+◌, ◌≤◌, ◌≡◌, refl, ◌⊎◌, inl, inr, Text, Bytes, text, text_eq, not, none, some, Option-cases,
  Bool-cases, [], ◌∷◌, ◌==◌, insert, u64_end, min,
}
use lazyd.Errors.{Error, not_found, Result, ok, err, status_code, message}
use lazyd.Exec.{Result-cases}
use lazyd.Instance.{Instance, InstanceState}
use lazyd.Instance.Pages.{FetchRange, Handle, prepare_fetch_range}
use lazyd.Instance.Pages.Genuine.{waits, fails, hands, prepare_fetch_range_lem}
use lazyd.Registry.{World, Setup, get}
use lazyd.Registry.Serving.{WorldServes, InCache, state_of}
use lazyd.Data.{
  host_page_size, DataEnv, FetchRequest, DataResponse, fetch_ok, error, good, bad, protocol_version,
  parse_fetch_request, fetch_pages, handle_fetch, answer, reply, handle_packet,
}

-- The codes of the crate's errors
abbrev pub IsStatus : ℕ → Type 0
IsStatus code = (code ≡ 400) ⊎ ((code ≡ 404) ⊎ ((code ≡ 409) ⊎ (code ≡ 500)))

status_code-IsStatus : (e : Error) → IsStatus (status_code e)
unfolding status_code
status_code-IsStatus (Error.bad_request _) = inl refl
status_code-IsStatus (Error.not_found _) = inr (inl refl)
status_code-IsStatus (Error.conflict _) = inr (inr (inl refl))
status_code-IsStatus (Error.io _) = inr (inr (inr refl))
status_code-IsStatus (Error.json _) = inr (inr (inr refl))
status_code-IsStatus (Error.http _) = inr (inr (inr refl))
status_code-IsStatus (Error.remote _) = inr (inr (inr refl))
status_code-IsStatus (Error.fanotify _) = inr (inr (inr refl))

-- How a packet is answered: not yet; with an error, under the protocol's version and a status of
-- the crate; or with the one range that was asked for and the handle of the cache file of the
-- instance of that name, which has the bytes of the range within the blob.
pub data Replied (setup : Setup) (env : DataEnv) (blob : Text → ℕ → ℕ) (packet : Bytes) (w : World)
    : Type 0 where
  blocks : handle_packet setup env packet w ≡ none → Replied setup env blob packet w
  refuses :
      (id : Text) (code : ℕ) (msg : Text) (v : World)
      → handle_packet setup env packet w ≡ some (bad (error 1 id code msg), v)
      → IsStatus code
      → Replied setup env blob packet w
  serves :
      (request : FetchRequest) (i : Instance) (n : ℕ) (v : World)
      → parse_fetch_request env packet ≡ good request
      → get request.instance_id w ≡ some i
      → handle_packet setup env packet w
        ≡ some (
          good (
            fetch_ok 1 request.request_id
                (record { off = request.pos; len = request.len; dev_off = request.pos } ∷ []),
            i.config.target_path,
          ),
          v,
        )
      → request.pos + n ≡ min i.config.blob.size (request.pos + request.len)
      → InCache (blob request.instance_id) i request.pos n v
      → Replied setup env blob packet w

pub parse-cases :
    (env : DataEnv) (packet : Bytes)
    → ((request : FetchRequest) × (parse_fetch_request env packet ≡ good request))
      ⊎ ((id msg : Text) × (parse_fetch_request env packet ≡ bad (error 1 id 400 msg)))
unfolding parse_fetch_request
parse-cases env packet = elim (Result-cases (env.from_slice packet)) [
  | inr (e, q) ↦ inr ([], message e, rw (q, parse_fetch_request))
  | inl (request, q) ↦ elim (Bool-cases (not (request.version == protocol_version))) [
    | inl h ↦
        inr
          (request.request_id, text "unsupported protocol_version", rw (q, parse_fetch_request, h))
    | inr h ↦ elim (Bool-cases (text_eq request.request_id [])) [
      | inl k ↦
          inr (request.request_id, text "request_id is required", rw (q, parse_fetch_request, h, k))
      | inr k ↦ inl (request, rw (q, parse_fetch_request, h, k))
    ]
  ]
]

module _ (setup : Setup) (env : DataEnv) (blob : Text → ℕ → ℕ) (packet : Bytes) (w : World) where
  eq_malformed :
      (response : DataResponse)
      → parse_fetch_request env packet ≡ bad response
      → handle_packet setup env packet w ≡ some (bad response, w)
  unfolding handle_packet
  eq_malformed response q = rw (q, handle_packet)

  module _ (request : FetchRequest) (q : parse_fetch_request env packet ≡ good request) where
    eq_no_page :
        (e : Error)
        → host_page_size env ≡ err e
        → handle_packet setup env packet w ≡ some (reply setup env request (err e), w)
    unfolding handle_packet handle_fetch
    eq_no_page e h = rw (q, handle_packet, h, handle_fetch)

    eq_missing :
        (page : ℕ)
        → host_page_size env ≡ ok page
        → get request.instance_id w ≡ none
        → handle_packet setup env packet w
          ≡ some (reply setup env request (err (not_found (text "instance not found"))), w)
    unfolding handle_packet handle_fetch
    eq_missing page h g = rw (q, handle_packet, h, handle_fetch, g)

    module _ (page : ℕ) (h : host_page_size env ≡ ok page) (i : Instance)
        (g : get request.instance_id w ≡ some i) where
      eq_blocks :
          prepare_fetch_range (setup.backend i.config) request.pos request.len page (state_of i w)
            ≡ none
          → handle_packet setup env packet w ≡ none
      unfolding handle_packet handle_fetch fetch_pages
      eq_blocks p = rw (q, handle_packet, h, handle_fetch, g, p, fetch_pages)

      abbrev put : InstanceState → World
      put t = record w {
        instances = insert text_eq request.instance_id t.inst w.instances;
        disk = t.disk;
        calls = t.calls;
      }

      eq_answers :
          (r : Result (FetchRange × Handle)) (t : InstanceState)
          → prepare_fetch_range (setup.backend i.config) request.pos request.len page (state_of i w)
            ≡ some (r, t)
          → handle_packet setup env packet w
            ≡ some (reply setup env request (answer setup env request r), put t)
      unfolding handle_packet handle_fetch fetch_pages
      eq_answers r t p = rw (q, handle_packet, h, handle_fetch, g, p, fetch_pages)

      found :
          WorldServes setup blob w
          → i.config.blob.size + page ≤ u64_end
          → Replied setup env blob packet w
      found v fits =
          elim (prepare_fetch_range_lem (blob request.instance_id) (setup.backend i.config)
            request.pos request.len page (state_of i w) (v.honest request.instance_id i g)
            (v.serves request.instance_id i g) fits) [
              | waits p ↦ blocks (eq_blocks p)
              | fails e t p _ ↦
                  refuses request.request_id (status_code e) (message e) (put t)
                    (eq_answers (err e) t p) (status_code-IsStatus e)
              | hands t n p _ paged inside ↦
                  serves request i n (put t) q g
                    (eq_answers
                      (ok (
                        record { off = request.pos; len = request.len; dev_off = request.pos },
                        i.config.target_path,
                      ))
                      t p)
                    paged.real inside
            ]

    request_Replied :
        WorldServes setup blob w
        → ((page : ℕ) (i : Instance)
            → host_page_size env ≡ ok page
            → get request.instance_id w ≡ some i
            → i.config.blob.size + page ≤ u64_end)
        → Replied setup env blob packet w
    request_Replied v fits = elim (Result-cases (host_page_size env)) [
      | inr (e, h) ↦
          refuses request.request_id (status_code e) (message e) w (eq_no_page e h)
            (status_code-IsStatus e)
      | inl (page, h) ↦ elim (Option-cases (get request.instance_id w)) [
        | inl g ↦
            refuses request.request_id (status_code (not_found (text "instance not found")))
              (message (not_found (text "instance not found"))) w (eq_missing page h g)
              (status_code-IsStatus (not_found (text "instance not found")))
        | inr (i, g) ↦ found page h i g v (fits page i h g)
      ]
    ]

  -- In a daemon whose instances serve their blobs, with honest backends, and where no blob ends
  -- within a page of 2^64, a packet waits; or is answered with an error with the protocol's
  -- version and one of the codes 400, 404, 409 and 500; or is answered with the one range that it
  -- asks for, under its request's name and with a handle of the target file of the instance that
  -- it names, and the bytes of that range within the blob are in that file.
  pub handle_packet_lem :
      WorldServes setup blob w
      → ((id : Text) (page : ℕ) (i : Instance)
          → host_page_size env ≡ ok page
          → get id w ≡ some i
          → i.config.blob.size + page ≤ u64_end)
      → Replied setup env blob packet w
  handle_packet_lem v fits = elim (parse-cases env packet) [
    | inr (id, msg, q) ↦ refuses id 400 msg w (eq_malformed (error 1 id 400 msg) q) (inl refl)
    | inl (request, q) ↦
        request_Replied request q v (λ page i h g. fits request.instance_id page i h g)
  ]
