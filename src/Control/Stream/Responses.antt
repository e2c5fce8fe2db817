-- ===== src/Control/Stream/Responses.antt =====
-- The content type of each response of the handlers of src/control.rs.
use lazyd.Base.{
  ℕ, ◌≡◌, refl, ap, if◌then◌else◌, inl, inr, Text, Bytes, text, text_eq, Bool, true, false, ◌&&◌,
  none, some, Option, [], ◌∷◌, Option-cases, subst,
}
use lazyd.Errors.{Error, Result, ok, err, ok_or}
use lazyd.Exec.{Exec, pure, lift, gets, bind-ok, Result-cases, ◌>>=◌, ◌>>◌}
use lazyd.Prepare.{PrepareImageRequest}
use lazyd.Instance.{InstanceConfig}
use lazyd.Registry.{World, Setup, len, ensure, register, unregister}
use lazyd.Control.{
  Request, Response, ControlJson, empty, json, instance_id, ensure_range_instance_id, unknown,
  validate_prepare_request, prepare_image, get_daemon, post_prepare, put_instance, delete_instance,
  post_ensure, handle_request, DaemonInfo,
}
use lazyd.Control.Http.Framed.{HasKnownType}

-- A response that the handler gives has a known content type.
abbrev Knows : Exec World Response → Type 0
Knows handler = (w : World) (r : Response) → (handler w).0 ≡ ok r → HasKnownType r

bind-Knows :
    {A : Type 0} (m : Exec World A) (f : A → Exec World Response)
    → ((a : A) → Knows (f a))
    → Knows (m >>= f)
bind-Knows m f h w r q = let (a, _, p) = bind-ok m f w r q in h a (m w).1 r p

json-Knows : (status : ℕ) (body : Bytes) → Knows (pure (json status body))
unfolding json
json-Knows status body w r q =
    let same : json status body ≡ r = cc in subst HasKnownType same (inr refl)

empty-Knows : (status : ℕ) → Knows (pure (empty status))
unfolding empty
empty-Knows status w r q = let same : empty status ≡ r = cc in subst HasKnownType same (inl refl)

-- So does the response of a request that is handled to its end.
abbrev pub Answers : Option (Result Response × World) → Type 0
Answers handled = (r : Response) (v : World) → handled ≡ some (ok r, v) → HasKnownType r

exec-Answers : (m : Exec World Response) (w : World) → Knows m → Answers (some (m w))
exec-Answers m w h r v q = let e : m w ≡ (ok r, v) = cc in h w r (ap (λ p. p.0) e)

if-Answers :
    (b : Bool) (x y : Option (Result Response × World))
    → Answers x
    → Answers y
    → Answers (if b then x else y)
if-Answers true x y h k = h
if-Answers false x y h k = k

module _ (setup : Setup) (codec : ControlJson) (cache_root : Text) where
  abbrev info : ℕ → DaemonInfo
  info n = record {
    state = text "running";
    instances = n;
    io_backends = text "fanotify" ∷ text "external" ∷ [];
    remote_backend = text "oci-registry";
  }

  abbrev shown : Bytes → Exec World Response
  shown body = pure (json 200 body)

  get_daemon-Knows : Knows (get_daemon setup codec cache_root)
  unfolding get_daemon
  get_daemon-Knows =
      bind-Knows (gets len) (λ n. lift (codec.daemon_info (info n)) >>= shown)
        (λ n. bind-Knows (lift (codec.daemon_info (info n))) shown (json-Knows 200))

  abbrev prepared : PrepareImageRequest → Exec World Response
  prepared request = prepare_image setup codec cache_root request >>= λ layers.
      lift (codec.prepare_response layers) >>= shown

  post_prepare-Knows : (body : Bytes) → Knows (post_prepare setup codec cache_root body)
  unfolding post_prepare
  post_prepare-Knows body =
      bind-Knows (lift (codec.prepare_request body))
        (λ request. lift (validate_prepare_request request) >> prepared request)
        (λ request.
          bind-Knows (lift (validate_prepare_request request)) (λ _. prepared request)
            (λ _.
              bind-Knows (prepare_image setup codec cache_root request)
                (λ layers. lift (codec.prepare_response layers) >>= shown)
                (λ layers.
                  bind-Knows (lift (codec.prepare_response layers)) shown (json-Knows 200))))

  abbrev registered : Text → InstanceConfig → Exec World Response
  registered id config = register setup id (record config { instance_id = id }) >> pure (empty 204)

  put_instance-Knows :
      (path : Text) (body : Bytes) → Knows (put_instance setup codec cache_root path body)
  unfolding put_instance
  put_instance-Knows path body =
      bind-Knows (lift (ok_or (instance_id path) unknown))
        (λ id. lift (codec.config body) >>= registered id)
        (λ id. bind-Knows (lift (codec.config body)) (registered id) (λ config.
          bind-Knows (register setup id (record config { instance_id = id }))
            (λ _. pure (empty 204)) (λ _. empty-Knows 204)))

  delete_instance-Knows : (path : Text) → Knows (delete_instance setup codec cache_root path)
  unfolding delete_instance
  delete_instance-Knows path =
      bind-Knows (lift (ok_or (instance_id path) unknown))
        (λ id. unregister setup id >> pure (empty 204))
        (λ id. bind-Knows (unregister setup id) (λ _. pure (empty 204)) (λ _. empty-Knows 204))

  refused-Answers : (e : Error) (w : World) → Answers (some (err e, w))
  refused-Answers e w r v q = absurd cc

  ensured-Answers :
      (o : Option (Result (Unit {0}) × World))
      → Answers (elim o [
        | none ↦ none
        | some (r, v) ↦ some (elim r [ err e ↦ err e | ok _ ↦ ok (empty 204) ], v)
      ])
  ensured-Answers none = λ r v q. absurd cc
  ensured-Answers (some (err e, u)) = refused-Answers e u
  ensured-Answers (some (ok _, u)) = exec-Answers (pure (empty 204)) u (empty-Knows 204)

  post_ensure-Answers :
      (path : Text) (body : Bytes) (w : World)
      → Answers (post_ensure setup codec cache_root path body w)
  unfolding post_ensure
  post_ensure-Answers path body w = elim (Option-cases (ensure_range_instance_id path)) [
    | inl h ↦ rw (post_ensure, h) (refused-Answers unknown w)
    | inr (id, h) ↦ elim (Result-cases (codec.range_request body)) [
      | inr (e, k) ↦ rw (post_ensure, h, k) (refused-Answers e w)
      | inl (range, k) ↦
          rw (post_ensure, h, k) (ensured-Answers (ensure setup id range.offset range.len w))
    ]
  ]

  -- The last endpoints of `handle_request`, and those behind the first
  abbrev on_instances : Request → World → Option (Result Response × World)
  on_instances request w =
      if text_eq request.method (text "POST")
      then post_ensure setup codec cache_root request.path request.body w
      else if text_eq request.method (text "PUT")
      then some (put_instance setup codec cache_root request.path request.body w)
      else if text_eq request.method (text "DELETE")
      then some (delete_instance setup codec cache_root request.path w)
      else some (err unknown, w)

  abbrev others : Request → World → Option (Result Response × World)
  others request w =
      if text_eq request.method (text "POST")
        && text_eq request.path (text "/api/v1/images/prepare")
      then some (post_prepare setup codec cache_root request.body w)
      else on_instances request w

  on_instances-Answers : (request : Request) (w : World) → Answers (on_instances request w)
  on_instances-Answers request w =
      let m = request.method in
      let put = put_instance setup codec cache_root request.path request.body in
      let delete = delete_instance setup codec cache_root request.path in
      let unserved : Option (Result Response × World) = some (err unknown, w) in
      if-Answers (text_eq m (text "POST"))
        (post_ensure setup codec cache_root request.path request.body w)
        (if text_eq m (text "PUT")
          then some (put w)
          else if text_eq m (text "DELETE")
          then some (delete w)
          else unserved)
        (post_ensure-Answers request.path request.body w)
        (if-Answers (text_eq m (text "PUT")) (some (put w))
          (if text_eq m (text "DELETE") then some (delete w) else unserved)
          (exec-Answers put w (put_instance-Knows request.path request.body))
          (if-Answers (text_eq m (text "DELETE")) (some (delete w)) unserved
            (exec-Answers delete w (delete_instance-Knows request.path))
            (refused-Answers unknown w)))

  pub handle_request-Answers :
      (request : Request) (w : World) → Answers (handle_request setup codec cache_root request w)
  unfolding handle_request
  handle_request-Answers request w =
      let m = request.method in
      let path = request.path in
      let body = request.body in
      if-Answers (text_eq m (text "GET") && text_eq path (text "/api/v1/daemon"))
        (some (get_daemon setup codec cache_root w)) (others request w)
        (exec-Answers (get_daemon setup codec cache_root) w get_daemon-Knows)
        (if-Answers (text_eq m (text "POST") && text_eq path (text "/api/v1/images/prepare"))
          (some (post_prepare setup codec cache_root body w)) (on_instances request w)
          (exec-Answers (post_prepare setup codec cache_root body) w (post_prepare-Knows body))
          (on_instances-Answers request w))
