-- ===== src/Remote/Oci/Requests.antt =====
-- The bytes that `OciRemoteBackend::read_range` lets through.
use lazyd.Base.{
  ℕ, ◌+◌, ◌-◌, ◌≤◌, ◌<◌, ◌≡◌, refl, ap, ◌∙◌, subst, ◌⊎◌, inl, inr, arith, Text, Bytes, text, true,
  false, ◌&&◌, not, Option, none, some, Bool-cases, List, [], length, get_or, ltb, ◌==◌, u64_end,
}
use lazyd.Errors.{Error, bad_request, ok, err}
use lazyd.Exec.{Exec, lift, ◌>>=◌, Result-cases}
use lazyd.Remote.{AuthConfig}
use lazyd.Remote.Oci.{
  Client, HttpRequest, HttpResponse, RegistryAuthState, registry_get, range_body, range_header,
  read_range,
}
use lazyd.Remote.Oci.Sending.{Sends, Does, Answers, Sends-nothing, bind-Does, registry_get-Does}

-- A response to the request for `len` bytes from `offset` on: with status 206 it has bytes of the
-- blob from `offset` on, and with status 200 the whole blob.
pub record IsGenuine (blob : ℕ → ℕ) (size offset : ℕ) (response : HttpResponse) : Type 0 where
  pub part :
      (bytes : Bytes)
      → response.body ≡ ok bytes
      → response.status ≡ 206
      → (k : ℕ) → k < length bytes
      → get_or bytes k 0 ≡ blob (offset + k)
  pub whole :
      (bytes : Bytes)
      → response.body ≡ ok bytes
      → response.status ≡ 200
      → (length bytes ≡ size) × ((k : ℕ) → k < length bytes → get_or bytes k 0 ≡ blob k)

-- The bytes that `read_range` lets through
abbrev pub Genuine : (ℕ → ℕ) → ℕ → ℕ → Bytes → Type 0
Genuine blob offset len bytes =
    (length bytes ≤ len) × ((k : ℕ) → k < length bytes → get_or bytes k 0 ≡ blob (offset + k))

range_body-passes :
    (client : Client) (len : ℕ) (response : HttpResponse) (bytes : Bytes)
    → range_body client len response ≡ ok bytes
    → ((response.status ≡ 206) ⊎ (response.status ≡ 200))
      × (response.body ≡ ok bytes)
      × (length bytes ≤ len)
unfolding range_body
range_body-passes client len response bytes h =
    elim (Bool-cases (not (response.status == 206) && not (response.status == 200))) [
      | inl q ↦ absurd (let z = rw q at h in cc)
      | inr q ↦ elim (Result-cases response.body) [
        | inr (e, b) ↦ absurd (let z = rw (q, b) at h in cc)
        | inl (body, b) ↦ elim (Bool-cases (ltb len (length body))) [
          | inl l ↦ absurd (let z = rw (q, b, l) at h in cc)
          | inr l ↦
              let same : body ≡ bytes = (let z = rw (q, b, l) at h in cc) in
              subst
                (λ x.
                  ((response.status ≡ 206) ⊎ (response.status ≡ 200))
                  × (response.body ≡ ok x)
                  × (length x ≤ len))
                same (status q, b, ground arith)
        ]
      ]
    ]
  where
    status :
        (not (response.status == 206) && not (response.status == 200)) ≡ false
        → (response.status ≡ 206) ⊎ (response.status ≡ 200)
    status q = ground arith

-- The whole blob is no longer than the range only if the range is the whole blob.
passed-Genuine :
    (blob : ℕ → ℕ) (size offset len : ℕ) (response : HttpResponse) (bytes : Bytes)
    → offset + len ≤ size
    → IsGenuine blob size offset response
    → ((response.status ≡ 206) ⊎ (response.status ≡ 200))
      × (response.body ≡ ok bytes)
      × (length bytes ≤ len)
    → Genuine blob offset len bytes
passed-Genuine blob size offset len response bytes within g (inl partial, b, few) =
    (few, g.part bytes b partial)
passed-Genuine blob size offset len response bytes within g (inr full, b, few) =
    let (all, same) = g.whole bytes b full in
    let start : offset ≡ 0 = omega arith in
    (few, λ k lt. let here : k ≡ offset + k = omega arith in same k lt ∙ ap blob here)

module _ (client : Client) (blob : ℕ → ℕ) (size : ℕ) (blob_url : Text) (auth : Option AuthConfig)
    (offset len : ℕ) where
  -- `read_range` behind its checks
  abbrev asks : ℕ → Exec RegistryAuthState Bytes
  asks end =
      registry_get client blob_url auth none (some (range_header client offset (end - 1)))
      >>= λ response. lift (range_body client len response)

  asks-Does :
      (end : ℕ)
      → ((h : List HttpRequest) (request : HttpRequest) (response : HttpResponse)
          → request.range ≡ some (range_header client offset (end - 1))
          → client.send h request ≡ ok response
          → IsGenuine blob size offset response)
      → offset + len ≤ size
      → Does 3 (Genuine blob offset len) (asks end)
  asks-Does end served within =
      bind-Does 3 0 (Answers client blob_url auth (range_header client offset (end - 1)))
        (Genuine blob offset len)
        (registry_get client blob_url auth none (some (range_header client offset (end - 1))))
        (λ response. lift (range_body client len response))
        (registry_get-Does client blob_url auth (range_header client offset (end - 1)))
        (λ response a. record {
          sends = λ s. Sends-nothing 0 s s refl;
          gives = λ s bytes q.
              passed-Genuine blob size offset len response bytes within
                (served a.history a.request response a.ranged a.came)
                (range_body-passes client len response bytes q);
        })

  read_empty :
      (s : RegistryAuthState)
      → (len == 0) ≡ true
      → read_range client blob_url auth offset len s ≡ (ok [], s)
  unfolding read_range
  read_empty s h = rw h refl

  read_over :
      (s : RegistryAuthState)
      → (len == 0) ≡ false
      → ltb (offset + len) u64_end ≡ false
      → (e : Error) × (read_range client blob_url auth offset len s ≡ (err e, s))
  unfolding read_range
  read_over s h q = (bad_request (text "range overflows u64"), rw (h, q) refl)

  read_asks :
      (s : RegistryAuthState)
      → (len == 0) ≡ false
      → ltb (offset + len) u64_end ≡ true
      → read_range client blob_url auth offset len s ≡ asks (offset + len) s
  unfolding read_range
  read_asks s h q = rw (h, q) refl

  -- read_range sends at most three requests. For a range within the blob, where the network
  -- answers each request for the range with bytes of the blob from the offset on (206) or with the
  -- whole blob (200), the bytes that it returns are at most as many as asked for and are the
  -- blob's from the offset on; this is what the theorem on ensure_range asks of a backend.
  pub read_range_lem :
      (s : RegistryAuthState)
      → offset + len ≤ size
      → ((h : List HttpRequest) (request : HttpRequest) (response : HttpResponse)
          → request.range ≡ some (range_header client offset (offset + len - 1))
          → client.send h request ≡ ok response
          → IsGenuine blob size offset response)
      → Sends 3 s (read_range client blob_url auth offset len s).1
        × ((bytes : Bytes)
            → (read_range client blob_url auth offset len s).0 ≡ ok bytes
            → Genuine blob offset len bytes)
  read_range_lem s within served = elim (Bool-cases (len == 0)) [
    | inl h ↦ rw (read_empty s h) (
      Sends-nothing 3 s s refl,
      λ bytes q.
          let e : [] ≡ bytes = cc in
          subst (Genuine blob offset len) e (omega arith, λ k lt. absurd (omega arith)),
    )
    | inr h ↦ elim (Bool-cases (ltb (offset + len) u64_end)) [
      | inr q ↦ let (e, over) = read_over s h q in rw over (Sends-nothing 3 s s refl, λ bytes z. cc)
      | inl q ↦ rw (read_asks s h q) (
        (asks-Does (offset + len) served within).sends s,
        λ bytes z. (asks-Does (offset + len) served within).gives s bytes z,
      )
    ]
  ]
