-- ===== src/Tests/Broker.antt =====
-- The fan-out of backend/internal/api/sse.go on concrete data.
use journarr.Base.{true, none, some, [], ◌∷◌, ◌++◌, All, text}
use journarr.Broker.{Broker, new_broker, frame_of, publish_event, subscribe, message, serve}
use journarr.Broker.InOrder.{
  starts, publishes, drops, subscribes, serves, IsServed, Traffic-IsServed,
}

-- A page comes behind the first event, and reads the second one.
abbrev open_page : Broker
open_page = (subscribe (publish_event (text "a") (some (text "1")) new_broker)).1

abbrev read_page : Broker
read_page =
    serve 1 (message true)
      (publish_event (text "c") none (publish_event (text "b") (some (text "2")) open_page))

Traffic-IsServed_example :
    All
      (IsServed ([] ++ frame_of (text "a") (text "1") ∷ [] ++ frame_of (text "b") (text "2") ∷ []))
      read_page.subs
Traffic-IsServed_example =
    Traffic-IsServed
      ([] ++ frame_of (text "a") (text "1") ∷ [] ++ frame_of (text "b") (text "2") ∷ []) read_page
      (serves
        (drops
          (publishes (subscribes (publishes starts (text "a") (text "1"))) (text "b") (text "2"))
          (text "c"))
        1 (message true))
