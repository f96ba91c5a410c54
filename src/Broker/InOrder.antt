-- ===== src/Broker/InOrder.antt =====
-- What the pages see of what was published (backend/internal/api/sse.go).
use journarr.Base.{
  ℕ, ◌≤◌, sym, subst, Bool, true, false, not, none, some, List, [], ◌∷◌, ◌++◌, ◌==◌, ltb, map,
  length, length-append, select, append_assoc, append-nil, All, All-update, All-append, if_case,
  Text, arith,
}
use journarr.Broker.{
  Subscriber, Broker, new_broker, buffer_size, shutdown, frame_of, offer, publish_event, subscribe,
  unsubscribe, Selected, request_done, broker_done, message, heartbeat, front_of, rest_of,
  write_front, serve,
}

-- Frames in the order of others, some of which are left out.
pub data IsPart : List Text → List Text → Type 0 where
  nothing : IsPart [] []
  leaves : {xs ys : List Text} (f : Text) → IsPart xs ys → IsPart xs (ys ++ f ∷ [])
  takes : {xs ys : List Text} (f : Text) → IsPart xs ys → IsPart (xs ++ f ∷ []) (ys ++ f ∷ [])

-- A broker, and what was published so far.
pub data Traffic : List Text → Broker → Type 0 where
  starts : Traffic [] new_broker
  publishes :
      {log : List Text} {b : Broker}
      → Traffic log b
      → (event payload : Text)
      → Traffic (log ++ frame_of event payload ∷ []) (publish_event event (some payload) b)
  drops :
      {log : List Text} {b : Broker}
      → Traffic log b
      → (event : Text) → Traffic log (publish_event event none b)
  subscribes : {log : List Text} {b : Broker} → Traffic log b → Traffic log (subscribe b).1
  serves :
      {log : List Text} {b : Broker}
      → Traffic log b
      → (id : ℕ) (s : Selected) → Traffic log (serve id s b)
  shuts : {log : List Text} {b : Broker} → Traffic log b → Traffic log (shutdown b)

-- What a page saw and will see, and the bound of its buffer.
abbrev pub IsServed : List Text → Subscriber → Type 0
IsServed log s = IsPart (s.written ++ s.waiting) log × (length s.waiting ≤ buffer_size)

offer-IsServed :
    (f : Text) (log : List Text) (s : Subscriber)
    → IsServed log s
    → IsServed (log ++ f ∷ []) (offer f s)
offer-IsServed f log s h =
    if_case (IsServed (log ++ f ∷ [])) (ltb (length s.waiting) buffer_size)
      (λ room. (
        subst (λ (xs : List Text). IsPart xs (log ++ f ∷ []))
            (append_assoc s.written s.waiting (f ∷ [])) (takes f h.0),
        rw (length-append s.waiting (f ∷ [])) (ground arith),
      ))
      (λ full. (leaves f h.0, h.1))

taken :
    (log written waiting : List Text)
    → IsPart (written ++ waiting) log
    → length waiting ≤ buffer_size
    → IsPart ((written ++ front_of waiting) ++ rest_of waiting) log
      × (length (rest_of waiting) ≤ buffer_size)
taken log written [] h le = (
  rw (append-nil (written ++ []), append-nil written)
      (subst (λ (xs : List Text). IsPart xs log) (append-nil written) h),
  le,
)
taken log written (m ∷ ms) h le = (
  subst (λ (xs : List Text). IsPart xs log) (sym (append_assoc written (m ∷ []) ms)) h,
  ground arith,
)

All-offer :
    (f : Text) (log : List Text) (ss : List Subscriber)
    → All (IsServed log) ss
    → All (IsServed (log ++ f ∷ [])) (map (offer f) ss)
All-offer f log [] h = tt
All-offer f log (s ∷ ss) h = (offer-IsServed f log s h.0, All-offer f log ss h.1)

All-select :
    (P : Subscriber → Type 0) (q : Subscriber → Bool) (ss : List Subscriber)
    → All P ss
    → All P (select q ss)
All-select P q [] h = tt
All-select P q (s ∷ ss) h =
    if_case (All P) (q s) (λ _. (h.0, All-select P q ss h.1)) (λ _. All-select P q ss h.1)

serve-AreServed :
    (log : List Text) (id : ℕ) (s : Selected) (b : Broker)
    → All (IsServed log) b.subs
    → All (IsServed log) (serve id s b).subs
unfolding serve unsubscribe
serve-AreServed log id request_done b h = All-select (IsServed log) (λ s. not (s.id == id)) b.subs h
serve-AreServed log id broker_done b h =
    if_case (λ (c : Broker). All (IsServed log) c.subs) b.closed
      (λ _. All-select (IsServed log) (λ s. not (s.id == id)) b.subs h) (λ _. h)
serve-AreServed log id (message true) b h =
    All-update (IsServed log) (λ s. s.id == id) write_front
      (λ s _ g. taken log s.written s.waiting g.0 g.1) b.subs h
serve-AreServed log id (message false) b h =
    All-select (IsServed log) (λ s. not (s.id == id)) b.subs h
serve-AreServed log id (heartbeat true) b h = h
serve-AreServed log id (heartbeat false) b h =
    All-select (IsServed log) (λ s. not (s.id == id)) b.subs h

-- Nothing at all is a part of what was published.
nothing_of : {log : List Text} {b : Broker} → Traffic log b → IsPart [] log
nothing_of starts = nothing
nothing_of (publishes t event payload) = leaves (frame_of event payload) (nothing_of t)
nothing_of (drops t event) = nothing_of t
nothing_of (subscribes t) = nothing_of t
nothing_of (serves t id s) = nothing_of t
nothing_of (shuts t) = nothing_of t

-- In whichever order events are published, pages come and go and handlers run: what a page saw, and
-- what waits for it, is what was published, in its order and with frames left out at most; and what
-- waits never exceeds the buffer.
pub Traffic-IsServed : (log : List Text) (b : Broker) → Traffic log b → All (IsServed log) b.subs
unfolding publish_event subscribe
Traffic-IsServed _ _ starts = tt
Traffic-IsServed _ _ (publishes {log} {b} t event payload) =
    All-offer (frame_of event payload) log b.subs (Traffic-IsServed log b t)
Traffic-IsServed _ _ (drops {log} {b} t event) = Traffic-IsServed log b t
Traffic-IsServed _ _ (subscribes {log} {b} t) =
    All-append (IsServed log) b.subs _ (Traffic-IsServed log b t) ((nothing_of t, omega arith), tt)
Traffic-IsServed _ _ (serves {log} {b} t id s) =
    serve-AreServed log id s b (Traffic-IsServed log b t)
Traffic-IsServed _ _ (shuts {log} {b} t) = Traffic-IsServed log b t
