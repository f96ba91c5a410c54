-- ===== src/Broker.antt =====
-- backend/internal/api/sse.go: the fan-out of what is published to the open web pages. Each use of the
-- mutex is one step; a subscriber is its channel together with what its handler has written to the page.
pub mod InOrder
use journarr.Base.{
  ℕ, ◌+◌, Bool, true, false, not, Option, none, some, List, [], ◌∷◌, ◌++◌, ◌==◌, ltb, if◌then◌else◌,
  maybe, map, length, select, update, next_id, Text, text,
}

-- A channel with what waits in its buffer, and the frames written to the page.
pub record Subscriber : Type 0 where
  pub id : ℕ
  pub waiting : List Text
  pub written : List Text

pub record Broker : Type 0 where
  pub subs : List Subscriber
  pub closed : Bool

abbrev pub new_broker : Broker
new_broker = record { subs = []; closed = false }

abbrev pub buffer_size : ℕ
buffer_size = 32

abbrev pub shutdown : Broker → Broker
shutdown b = record b { closed = true }

-- The frame of an event and its JSON.
unfoldable pub frame_of : Text → Text → Text
frame_of event payload =
    text "event: " ++ (event ++ (10 ∷ text "data: " ++ (payload ++ (10 ∷ 10 ∷ []))))

-- A send that does not block: a full buffer drops the frame.
abbrev pub offer : Text → Subscriber → Subscriber
offer frame s =
    if ltb (length s.waiting) buffer_size then record s { waiting = s.waiting ++ frame ∷ [] } else s

abbrev pub send_all : Text → Broker → Broker
send_all frame b = record b { subs = map (offer frame) b.subs }

-- Publish; `none` where the data cannot be marshaled.
unfoldable pub publish_event : Text → Option Text → Broker → Broker
unfolding frame_of
publish_event event payload b = maybe payload b λ p. send_all (frame_of event p) b

unfoldable pub subscribe : Broker → ℕ × Broker
subscribe b =
    let id = next_id (λ (s : Subscriber). s.id) b.subs in
    (id, record b { subs = b.subs ++ record { id = id; waiting = []; written = [] } ∷ [] })

unfoldable pub unsubscribe : ℕ → Broker → Broker
unsubscribe id b = record b { subs = select (λ s. not (s.id == id)) b.subs }

-- What the loop of a handler selects, with whether the write to the page succeeds.
pub data Selected : Type 0 where
  request_done broker_done : Selected
  message heartbeat : Bool → Selected

abbrev pub front_of : List Text → List Text
front_of [] = []
front_of (m ∷ ms) = m ∷ []

abbrev pub rest_of : List Text → List Text
rest_of [] = []
rest_of (m ∷ ms) = ms

-- The frame at the front of the buffer goes to the page.
abbrev pub write_front : Subscriber → Subscriber
write_front s = record s { waiting = rest_of s.waiting; written = s.written ++ front_of s.waiting }

-- One round of ServeHTTP's loop for a subscriber; where it returns, the subscriber is removed.
unfoldable pub serve : ℕ → Selected → Broker → Broker
unfolding unsubscribe
serve id request_done b = unsubscribe id b
serve id broker_done b = if b.closed then unsubscribe id b else b
serve id (message true) b = record b { subs = update (λ s. s.id == id) write_front b.subs }
serve id (message false) b = unsubscribe id b
serve id (heartbeat true) b = b
serve id (heartbeat false) b = unsubscribe id b
