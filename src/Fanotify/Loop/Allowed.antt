-- ===== src/Fanotify/Loop/Allowed.antt =====
-- The answers of the event loop.
use lazyd.Base.{
  ℕ, ◌≡◌, refl, ap, ◌∙◌, ◌⊎◌, inl, inr, Text, none, some, Option-cases, List, [], ◌∷◌, ◌++◌,
}
use lazyd.Errors.{Error, ok, err}
use lazyd.Instance.{Instance}
use lazyd.Fanotify.{FanotifyEvent, fan_allow, fan_deny}
use lazyd.Fanotify.Marks.{instance_id_for_fd}
use lazyd.Registry.{World, Setup, get, ensure}
use lazyd.Registry.Serving.{WorldServes, InCache, waits, fails, succeeds, ensure_lem}
use lazyd.Fanotify.Loop.{LoopState, finish, decide, handle_event, handle_events}

-- What is known when an event is answered with ALLOW: its file is marked for an instance whose
-- cache file has the bytes of the range.
pub record Backing (setup : Setup) (blob : Text → ℕ → ℕ) (event : FanotifyEvent) (w v : World)
    : Type 0 where
  pub name : Text
  pub inst : Instance
  pub marked : instance_id_for_fd setup.kernel event.fd w.marks ≡ some name
  pub registered : get name w ≡ some inst
  pub cached : InCache (blob name) inst event.range.offset event.range.len v

pub data Decided (setup : Setup) (blob : Text → ℕ → ℕ) (event : FanotifyEvent) (w : World)
    : Type 0 where
  blocks : decide setup event w ≡ none → Decided setup blob event w
  denies : (v : World) → decide setup event w ≡ some (fan_deny, v) → Decided setup blob event w
  allows :
      (v : World)
      → decide setup event w ≡ some (fan_allow, v)
      → Backing setup blob event w v
      → Decided setup blob event w

module _ (setup : Setup) (blob : Text → ℕ → ℕ) (event : FanotifyEvent) (w : World) where
  unmarked :
      instance_id_for_fd setup.kernel event.fd w.marks ≡ none
      → decide setup event w ≡ some (fan_deny, w)
  unfolding decide
  unmarked q = rw (q, decide)

  module _ (id : Text) (q : instance_id_for_fd setup.kernel event.fd w.marks ≡ some id) where
    eq_blocks :
        ensure setup id event.range.offset event.range.len w ≡ none → decide setup event w ≡ none
    unfolding decide
    eq_blocks h = rw (q, decide, h)

    eq_denies :
        (e : Error) (v : World)
        → ensure setup id event.range.offset event.range.len w ≡ some (err e, v)
        → decide setup event w ≡ some (fan_deny, v)
    unfolding decide
    eq_denies e v h = rw (q, decide, h)

    eq_allows :
        (v : World)
        → ensure setup id event.range.offset event.range.len w ≡ some (ok tt, v)
        → decide setup event w ≡ some (fan_allow, v)
    unfolding decide
    eq_allows v h = rw (q, decide, h)

    marked_Decided : WorldServes setup blob w → Decided setup blob event w
    marked_Decided serves =
        elim (ensure_lem setup blob id event.range.offset event.range.len w serves) [
          | waits h ↦ blocks (eq_blocks h)
          | fails e v h ↦ denies v (eq_denies e v h)
          | succeeds i v g h c ↦
              allows v (eq_allows v h)
                (record { name = id; inst = i; marked = q; registered = g; cached = c })
        ]

  -- In a daemon whose instances serve their blobs, with honest backends, an event blocks the loop,
  -- or is denied, or is allowed, and then its file is marked for a registered instance and the
  -- bytes of the event's range are in that instance's cache file.
  pub decide_lem : WorldServes setup blob w → Decided setup blob event w
  decide_lem serves = elim (Option-cases (instance_id_for_fd setup.kernel event.fd w.marks)) [
    | inl q ↦ denies w (unmarked q)
    | inr (id, q) ↦ marked_Decided id q serves
  ]

-- The descriptors of the events, in their order
abbrev pub fds : List FanotifyEvent → List ℕ
fds [] = []
fds (event ∷ events) = event.fd ∷ fds events

abbrev pub firsts : List (ℕ × ℕ) → List ℕ
firsts [] = []
firsts ((fd, _) ∷ rest) = fd ∷ firsts rest

append_one : (xs : List ℕ) (x : ℕ) (ys : List ℕ) → (xs ++ x ∷ []) ++ ys ≡ xs ++ x ∷ ys
append_one [] x ys = refl
append_one (y ∷ xs) x ys = ap (λ zs. y ∷ zs) (append_one xs x ys)

firsts-append_one : (xs : List (ℕ × ℕ)) (x y : ℕ) → firsts (xs ++ (x, y) ∷ []) ≡ firsts xs ++ x ∷ []
firsts-append_one [] x y = refl
firsts-append_one ((a, b) ∷ xs) x y = ap (λ zs. a ∷ zs) (firsts-append_one xs x y)

append_nil : (xs : List ℕ) → xs ≡ xs ++ []
append_nil [] = refl
append_nil (x ∷ xs) = ap (λ zs. x ∷ zs) (append_nil xs)

-- The events were answered, each once, in their order, and their descriptors closed.
abbrev pub Answered : List FanotifyEvent → LoopState → LoopState → Type 0
Answered events s t =
    (firsts t.responses ≡ firsts s.responses ++ fds events) × (t.closed ≡ s.closed ++ fds events)

module _ (setup : Setup) (event : FanotifyEvent) (s : LoopState) where
  event_blocks : decide setup event s.world ≡ none → handle_event setup event s ≡ none
  unfolding handle_event
  event_blocks q = rw (q, handle_event)

  event_done :
      (response : ℕ) (v : World)
      → decide setup event s.world ≡ some (response, v)
      → handle_event setup event s ≡ some (finish event.fd response (record s { world = v }))
  unfolding handle_event
  event_done response v q = rw (q, handle_event)

  event_Answered :
      (response : ℕ) (v : World)
      → Answered (event ∷ []) s (finish event.fd response (record s { world = v }))
  unfolding finish
  event_Answered response v = (firsts-append_one s.responses event.fd response, refl)

  handle_event-cases :
      (handle_event setup event s ≡ none)
      ⊎ ((t : LoopState) × (handle_event setup event s ≡ some t) × Answered (event ∷ []) s t)
  handle_event-cases = elim (Option-cases (decide setup event s.world)) [
    | inl q ↦ inl (event_blocks q)
    | inr ((response, v), q) ↦ inr (
      finish event.fd response (record s { world = v }),
      event_done response v q,
      event_Answered response v,
    )
  ]

Answered-trans :
    (event : FanotifyEvent) (events : List FanotifyEvent) (s t u : LoopState)
    → Answered (event ∷ []) s t
    → Answered events t u
    → Answered (event ∷ events) s u
Answered-trans event events s t u (a, b) (c, d) = (
  c ∙ ap (λ xs. xs ++ fds events) a ∙ append_one (firsts s.responses) event.fd (fds events),
  d ∙ ap (λ xs. xs ++ fds events) b ∙ append_one s.closed event.fd (fds events),
)

module _ (setup : Setup) (event : FanotifyEvent) (events : List FanotifyEvent) (s : LoopState) where
  first_blocks : handle_event setup event s ≡ none → handle_events setup (event ∷ events) s ≡ none
  unfolding handle_events
  first_blocks q = rw (q, handle_events)

  first_done :
      (t : LoopState)
      → handle_event setup event s ≡ some t
      → handle_events setup (event ∷ events) s ≡ handle_events setup events t
  unfolding handle_events
  first_done t q = rw (q, handle_events)

-- The loop over events that parse_events has given blocks in one of them, or each of them gets
-- exactly one response, in their order, and its descriptor is closed exactly once. Events that
-- parse_events skips are not among them.
pub handle_events-Answered :
    (setup : Setup) (events : List FanotifyEvent) (s : LoopState)
    → (handle_events setup events s ≡ none)
      ⊎ ((t : LoopState) × (handle_events setup events s ≡ some t) × Answered events s t)
unfolding handle_events
handle_events-Answered setup [] s =
    inr (s, refl, (append_nil (firsts s.responses), append_nil s.closed))
handle_events-Answered setup (event ∷ events) s = elim (handle_event-cases setup event s) [
  | inl q ↦ inl (first_blocks setup event events s q)
  | inr (t, q, a) ↦ elim (handle_events-Answered setup events t) [
    | inl h ↦ inl (first_done setup event events s t q ∙ h)
    | inr (u, h, b) ↦
        inr (u, first_done setup event events s t q ∙ h, Answered-trans event events s t u a b)
  ]
]
