-- ===== src/Remote/Oci/Sending.antt =====
-- The requests that `registry_get` sends, and where its response comes from.
use lazyd.Base.{
  append_assoc, ℕ, ◌+◌, ◌≤◌, ◌≡◌, refl, ap, sym, ◌∙◌, subst, inl, inr, arith, Text, text_eq, not,
  Option, none, some, Option-cases, Bool-cases, List, [], ◌∷◌, ◌++◌, length, length-append, ◌==◌,
  lookup, insert,
}
use lazyd.Errors.{Error, Result, ok, err}
use lazyd.Exec.{Exec, pure, lift, modify, gets, ◌>>=◌, Result-cases, bind-ok}
use lazyd.Remote.{AuthConfig}
use lazyd.Remote.Oci.Challenge.{BearerChallenge, cache_key}
use lazyd.Remote.Oci.{
  Client, HttpRequest, HttpResponse, RegistryAuthState, cached_token, bearer_challenge_from_headers,
  authorization, send, send_registry_get, read_token, fetch_bearer_token, new_token,
  token_for_challenge, retry, answer, registry_get,
}

append_nil : (xs : List HttpRequest) → xs ≡ xs ++ []
append_nil [] = refl
append_nil (x ∷ xs) = ap (λ zs. x ∷ zs) (append_nil xs)

-- At most `n` requests were sent.
pub record Sends (n : ℕ) (s t : RegistryAuthState) : Type 0 where
  pub new : List HttpRequest
  pub sent : t.sent ≡ s.sent ++ new
  pub few : length new ≤ n

-- What an action sends at most, and what is known of what it returns.
pub record Does {A : Type 0} (n : ℕ) (P : A → Type 0) (m : Exec RegistryAuthState A) : Type 0 where
  pub sends : (s : RegistryAuthState) → Sends n s (m s).1
  pub gives : (s : RegistryAuthState) (a : A) → (m s).0 ≡ ok a → P a

pub Sends-nothing : (n : ℕ) (s t : RegistryAuthState) → t.sent ≡ s.sent → Sends n s t
Sends-nothing n s t q = record { new = []; sent = q ∙ append_nil s.sent; few = omega arith }

Sends-more : (n k : ℕ) (s t u : RegistryAuthState) → Sends n s t → Sends k t u → Sends (n + k) s u
Sends-more n k s t u a b = record {
  new = a.new ++ b.new;
  sent = b.sent ∙ ap (λ xs. xs ++ b.new) a.sent ∙ append_assoc s.sent a.new b.new;
  few = omega (arith, a.few, b.few, length-append a.new b.new);
}

module _ {A B : Type 0} (n k : ℕ) (P : A → Type 0) (Q : B → Type 0) (m : Exec RegistryAuthState A)
    (f : A → Exec RegistryAuthState B) where
  bind_fails : (s : RegistryAuthState) (e : Error) → (m s).0 ≡ err e → ((m >>= f) s).1 ≡ (m s).1
  bind_fails s e q = rw q refl

  bind_goes : (s : RegistryAuthState) (a : A) → (m s).0 ≡ ok a → ((m >>= f) s).1 ≡ (f a (m s).1).1
  bind_goes s a q = rw q refl

  pub bind-Does : Does n P m → ((a : A) → P a → Does k Q (f a)) → Does (n + k) Q (m >>= f)
  bind-Does d g = record {
    sends = λ s. elim (Result-cases (m s).0) [
      | inr (e, q) ↦
          subst (λ t. Sends (n + k) s t) (sym (bind_fails s e q))
            (let a = d.sends s in record { new = a.new; sent = a.sent; few = omega (arith, a.few) })
      | inl (a, q) ↦
          subst (λ t. Sends (n + k) s t) (sym (bind_goes s a q))
            (Sends-more n k s (m s).1 (f a (m s).1).1 (d.sends s)
              ((g a (d.gives s a q)).sends (m s).1))
    ];
    gives = λ s b q.
        let (a, first, second) = bind-ok m f s b q in
        (g a (d.gives s a first)).gives (m s).1 b second;
  }

abbrev pub Any : {A : Type 0} → A → Type 0
Any _ = Unit {0}

module _ (client : Client) (blob_url : Text) (auth : Option AuthConfig) (range : Text) where
  -- A response of the network to a request with the range.
  pub record Answers (response : HttpResponse) : Type 0 where
    pub history : List HttpRequest
    pub request : HttpRequest
    pub ranged : request.range ≡ some range
    pub came : client.send history request ≡ ok response

  send-Sends : (request : HttpRequest) (s : RegistryAuthState) → Sends 1 s (send client request s).1
  unfolding send
  send-Sends request s = record { new = request ∷ []; sent = refl; few = omega arith }

  lift-Does : {A : Type 0} (r : Result A) → Does 0 Any (lift r)
  lift-Does r = record { sends = λ s. Sends-nothing 0 s s refl; gives = λ s a q. tt }

  get-Does :
      (token : Option Text)
      → Does 1 Answers (send_registry_get client blob_url auth token none (some range))
  unfolding send_registry_get send
  get-Does token = record {
    sends = λ s.
        send-Sends
          (record {
            url = blob_url;
            accept = none;
            range = some range;
            authorization = authorization client auth token;
          })
          s;
    gives = λ s a q. record {
      history = s.sent;
      request = record {
        url = blob_url;
        accept = none;
        range = some range;
        authorization = authorization client auth token;
      };
      ranged = refl;
      came = q;
    };
  }

  fetch-Does : (challenge : BearerChallenge) → Does 1 Any (fetch_bearer_token client auth challenge)
  unfolding fetch_bearer_token
  fetch-Does challenge =
      bind-Does 0 1 Any Any (lift (client.token_url challenge)) _
        (lift-Does (client.token_url challenge))
        (λ url _.
          bind-Does 1 0 Any Any
            (send client (record {
              url = url;
              accept = none;
              range = none;
              authorization = authorization client auth none;
            }))
            _ (record { sends = send-Sends _; gives = λ s a q. tt })
            (λ response _. lift-Does (read_token client response)))

  remember-Does :
      (challenge : BearerChallenge) (token : Text)
      → Does 0 Any (
          modify (λ s. record s {
            tokens = insert text_eq (cache_key challenge) token s.tokens;
            last_challenge = some challenge;
          })
          >>= λ _. pure token)
  remember-Does challenge token = record {
    sends = λ s. Sends-nothing 0 s _ refl;
    gives = λ s a q. tt;
  }

  new_token-Does : (challenge : BearerChallenge) → Does 1 Any (new_token client auth challenge)
  unfolding new_token
  new_token-Does challenge =
      bind-Does 1 0 Any Any (fetch_bearer_token client auth challenge) _ (fetch-Does challenge)
        (λ token _. remember-Does challenge token)

  token-Does :
      (challenge : BearerChallenge) → Does 1 Any (token_for_challenge client auth challenge)
  unfolding token_for_challenge
  token-Does challenge = record {
    sends = λ s. elim (Option-cases (lookup text_eq (cache_key challenge) s.tokens)) [
      | inr (token, q) ↦
          rw (q, token_for_challenge)
            (Sends-nothing 1 s (record s { last_challenge = some challenge }) refl)
      | inl q ↦
          rw (q, token_for_challenge)
            (let d =
                (new_token-Does challenge).sends (record s { last_challenge = some challenge }) in
              record { new = d.new; sent = d.sent; few = d.few })
    ];
    gives = λ s a q. tt;
  }

  retry-Does :
      (challenge : BearerChallenge)
      → Does 2 Answers (retry client blob_url auth none (some range) challenge)
  unfolding retry
  retry-Does challenge =
      bind-Does 1 1 Any Answers (token_for_challenge client auth challenge) _ (token-Does challenge)
        (λ token _. get-Does (some token))

  pure-Does : (response : HttpResponse) → Answers response → Does 2 Answers (pure response)
  pure-Does response a = record {
    sends = λ s. Sends-nothing 2 s s refl;
    gives = λ s b q. let e : response ≡ b = cc in subst Answers e a;
  }

  fail-Does : (e : Error) → Does 2 Answers (lift (err e))
  fail-Does e = record { sends = λ s. Sends-nothing 2 s s refl; gives = λ s b q. cc }

  answer-Does :
      (response : HttpResponse)
      → Answers response
      → Does 2 Answers (answer client blob_url auth none (some range) response)
  unfolding answer
  answer-Does response a = elim (Bool-cases (not (response.status == 401))) [
    | inl h ↦ rw h (pure-Does response a)
    | inr h ↦ elim (Result-cases (bearer_challenge_from_headers response)) [
      | inr (e, q) ↦ rw (h, q) (fail-Does e)
      | inl (found, q) ↦ elim (Option-cases found) [
        | inl z ↦ rw (h, q, z) (pure-Does response a)
        | inr (challenge, z) ↦ rw (h, q, z) (retry-Does challenge)
      ]
    ]
  ]

  pub registry_get-Does : Does 3 Answers (registry_get client blob_url auth none (some range))
  unfolding registry_get
  registry_get-Does =
      bind-Does 0 3 Any Answers (gets cached_token) _
        (record { sends = λ s. Sends-nothing 0 s s refl; gives = λ s a q. tt })
        (λ token _.
          bind-Does 1 2 Answers Answers
            (send_registry_get client blob_url auth token none (some range)) _ (get-Does token)
            answer-Does)
