-- ===== src/Remote/Oci.antt =====
-- src/remote/oci.rs: the requests to a registry, with the tokens that it asks for. The HTTP client,
-- base64 and the parsers of URLs and TOML are parameters.
pub mod Challenge
pub mod Image
pub mod Sending
pub mod Requests
use lazyd.Base.{
  ℕ, ◌+◌, ◌-◌, Text, Bytes, text, text_eq, decimal, Bool, true, false, ◌&&◌, ◌||◌, not, Option,
  none, some, List, [], ◌∷◌, ◌++◌, length, ltb, ◌==◌, if◌then◌else◌, checked_add, Map, lookup,
  insert,
}
use lazyd.Errors.{bad_request, remote, Error, Result, ok, err, ok_or}
use lazyd.Exec.{Exec, pure, fail, lift, gets, modify, ◌>>=◌, ◌>>◌}
use lazyd.Remote.{AuthConfig}
use lazyd.Remote.Oci.Challenge.{BearerChallenge, cache_key, parse_bearer_challenge}

pub record TokenResponse : Type 0 where
  pub token : Option Text
  pub access_token : Option Text

pub record HttpRequest : Type 0 where
  pub url : Text
  pub accept : Option Text
  pub range : Option Text
  pub authorization : Option Text

-- The header is `WWW-Authenticate`, which may be no text.
pub record HttpResponse : Type 0 where
  pub status : ℕ
  pub www_authenticate : Option (Result Text)
  pub body : Result Bytes

-- The answer of the network may depend on what was sent before. `token_url` is the realm parsed as
-- a URL, with the service and the scope as its query.
pub record Client : Type 0 where
  pub send : List HttpRequest → HttpRequest → Result HttpResponse
  pub token_url : BearerChallenge → Result Text
  pub token_response : HttpResponse → Result TokenResponse
  pub base64 : Text → Text

-- `RegistryAuthInner`, with the requests that were sent
pub record RegistryAuthState : Type 0 where
  pub tokens : Map Text Text
  pub last_challenge : Option BearerChallenge
  pub sent : List HttpRequest

abbrev pub ok_status : ℕ
ok_status = 200

abbrev pub partial_content : ℕ
partial_content = 206

abbrev pub unauthorized : ℕ
unauthorized = 401

-- `bearer_challenge_from_headers`
unfoldable pub bearer_challenge_from_headers : HttpResponse → Result (Option BearerChallenge)
bearer_challenge_from_headers response = elim response.www_authenticate [
  | none ↦ ok none
  | some value ↦ elim value [ err e ↦ err e | ok header ↦ ok (parse_bearer_challenge header) ]
]

-- `cached_token`
unfoldable pub cached_token : RegistryAuthState → Option Text
cached_token s = elim s.last_challenge [
  | none ↦ none
  | some challenge ↦ lookup text_eq (cache_key challenge) s.tokens
]

abbrev pub or_else : {A : Type 0} → Option A → Option A → Option A
or_else none b = b
or_else (some a) b = some a

module _ (client : Client) where
  unfoldable pub basic_auth : AuthConfig → Text
  basic_auth auth = text "Basic " ++ client.base64 (auth.username ++ (text ":" ++ auth.secret))

  -- One request on the wire
  unfoldable pub send : HttpRequest → Exec RegistryAuthState HttpResponse
  send request s = (client.send s.sent request, record s { sent = s.sent ++ request ∷ [] })

  unfoldable pub authorization : Option AuthConfig → Option Text → Option Text
  authorization auth (some token) = some (text "Bearer " ++ token)
  authorization none none = none
  authorization (some auth) none = some (basic_auth auth)

  unfoldable pub send_registry_get :
      Text
      → Option AuthConfig
      → Option Text
      → Option Text
      → Option Text
      → Exec RegistryAuthState HttpResponse
  send_registry_get url auth token accept range = send (record {
    url = url;
    accept = accept;
    range = range;
    authorization = authorization auth token;
  })

  -- The part of `fetch_bearer_token` behind the answer
  unfoldable pub read_token : HttpResponse → Result Text
  read_token response =
      if not (response.status == ok_status)
      then err
          (remote (text "registry token request failed with status " ++ decimal response.status))
      else elim (client.token_response response) [
        | err e ↦ err e
        | ok t ↦
            ok_or (or_else t.token t.access_token)
              (remote (text "registry token response did not contain token"))
      ]

  unfoldable pub fetch_bearer_token :
      Option AuthConfig → BearerChallenge → Exec RegistryAuthState Text
  fetch_bearer_token auth challenge = do
    url ← lift (client.token_url challenge)
    response ←
        send (record {
          url = url;
          accept = none;
          range = none;
          authorization = authorization auth none;
        })
    lift (read_token response)

  -- The token was not in the cache.
  unfoldable pub new_token : Option AuthConfig → BearerChallenge → Exec RegistryAuthState Text
  new_token auth challenge = do
    token ← fetch_bearer_token auth challenge
    modify (λ s. record s {
      tokens = insert text_eq (cache_key challenge) token s.tokens;
      last_challenge = some challenge;
    })
    pure token

  unfoldable pub token_for_challenge :
      Option AuthConfig → BearerChallenge → Exec RegistryAuthState Text
  token_for_challenge auth challenge s =
      let s' = record s { last_challenge = some challenge } in
      elim (lookup text_eq (cache_key challenge) s.tokens) [
        | some token ↦ (ok token, s')
        | none ↦ new_token auth challenge s'
      ]

  -- The second request, with a token for the challenge
  unfoldable pub retry :
      Text
      → Option AuthConfig
      → Option Text
      → Option Text
      → BearerChallenge
      → Exec RegistryAuthState HttpResponse
  retry url auth accept range challenge = do
    token ← token_for_challenge auth challenge
    send_registry_get url auth (some token) accept range

  unfoldable pub answer :
      Text
      → Option AuthConfig
      → Option Text
      → Option Text
      → HttpResponse
      → Exec RegistryAuthState HttpResponse
  answer url auth accept range response =
      if not (response.status == unauthorized)
      then pure response
      else elim (bearer_challenge_from_headers response) [
        | err e ↦ fail e
        | ok none ↦ pure response
        | ok (some challenge) ↦ retry url auth accept range challenge
      ]

  unfoldable pub registry_get :
      Text → Option AuthConfig → Option Text → Option Text → Exec RegistryAuthState HttpResponse
  registry_get url auth accept range = do
    token ← gets cached_token
    response ← send_registry_get url auth token accept range
    answer url auth accept range response

  -- The part of `read_range` behind the answer
  unfoldable pub range_body : ℕ → HttpResponse → Result Bytes
  range_body len response =
      if not (response.status == partial_content) && not (response.status == ok_status)
      then err (remote (text "registry range read failed with status " ++ decimal response.status))
      else elim response.body [
        | err e ↦ err e
        | ok bytes ↦
            if ltb len (length bytes)
            then err (remote (text "registry returned more bytes than requested"))
            else ok bytes
      ]

  -- `format!("bytes={offset}-{end}")`
  unfoldable pub range_header : ℕ → ℕ → Text
  range_header offset end = text "bytes=" ++ (decimal offset ++ (text "-" ++ decimal end))

  unfoldable pub read_range : Text → Option AuthConfig → ℕ → ℕ → Exec RegistryAuthState Bytes
  read_range blob_url auth offset len s =
      if len == 0 then (ok [], s) else elim (checked_add offset len) [
        | none ↦ (err (bad_request (text "range overflows u64")), s)
        | some end ↦
            (do
              response ← registry_get blob_url auth none (some (range_header offset (end - 1)))
              lift (range_body len response))
              s
      ]
