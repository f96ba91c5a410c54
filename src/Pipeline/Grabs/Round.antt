-- ===== src/Pipeline/Grabs/Round.antt =====
-- A round of the loop of applyGrab (backend/internal/pipeline/grabs.go) for an item, when the grab comes
-- again by the webhook or the history poller.
use journarr.Base.{
  ℕ, ◌<◌, ◌≡◌, refl, sym, ap, ◌∙◌, true, false, List, ◌∷◌, arith, ◌==◌, exists, All, Text, some,
  not, map_option, subst, text_eq, ◌&&◌,
}
use journarr.Store.Stages.{grabbed}
use journarr.Store.Rows.{Db, Download, Link, MediaItem, FlowTask}
use journarr.Store.Downloads.{is_link, link_download_item}
use journarr.Store.Transitions.{has_item, has_transition, apply_stage}
use journarr.Store.Transitions.Pointer.{applied_db, apply_stage_total}
use journarr.Store.Transitions.Convergence.{apply_stage_idem}
use journarr.Store.Correlate.{cycle_for_item_download}
use journarr.Store.Correlate.Cycles.{
  is_download_of, exists-weaken, cycle_for_item_download-ext, link_download_item-same,
}
use journarr.Pipeline.Projector.{Projector, set_db, announce}
use journarr.Pipeline.Grabs.{grab_cycle, grab_item}
use journarr.Pipeline.Grabs.Replay.{grab_cycle-linked, grab_cycle-GrabOf, linked-cycle}
use journarr.Store.Normalize.{normalize_download_id}
use journarr.Pipeline.Grabs.Frames.{
  with_tasks, put_tasks, announce-with_tasks, link_download_item-linked, link_download_item-items,
  applied_db-links, apply_stage-with_tasks,
}

-- A state in which nothing is left to do for the item by a grab of the key.
record IsGrabbed (key : Text) (item download cycle : ℕ) (db : Db) : Type 0 where
  linked : cycle_for_item_download item key db ≡ cycle
  pos : 0 < cycle
  link : exists (is_link download item) db.links ≡ true
  staged :
      (event : ℕ) (note : Text) → apply_stage item cycle grabbed event note db ≡ some (false, db)

IsGrabbed-with_tasks :
    (c : ℕ) (s : Text) (item download cycle : ℕ) (ts : List FlowTask) (db : Db)
    → IsGrabbed (c ∷ s) item download cycle db
    → IsGrabbed (c ∷ s) item download cycle (with_tasks ts db)
IsGrabbed-with_tasks c s item download cycle ts db g = record {
  linked = cycle_for_item_download-ext item (c ∷ s) db (with_tasks ts db) refl refl ∙ g.linked;
  pos = g.pos;
  link = g.link;
  staged = λ event note.
      apply_stage-with_tasks item cycle grabbed event note ts db
      ∙ ap (map_option (put_tasks ts)) (g.staged event note);
}

-- A round in such a state changes nothing.
grab_item-IsGrabbed :
    (event c : ℕ) (s title : Text) (request_id download cycle : ℕ) (m : MediaItem) (first : ℕ)
    (p : Projector)
    → (download == 0) ≡ false
    → IsGrabbed (c ∷ s) m.id download cycle p.db
    → (grab_item event (c ∷ s) title request_id download m (first, p)).1 ≡ p
unfolding grab_item announce
grab_item-IsGrabbed event c s title request_id download cycle m first p there g =
    let positive = g.pos in
    let chosen =
      grab_cycle-linked c s m p.db (subst (λ n. 0 < n) (sym g.linked) positive)
      ∙ ap (λ n. (n, p.db)) g.linked in
    rw
      (there, chosen, link_download_item-same download m.id cycle p.db g.link, g.staged event title)
      refl

-- The writes of a round leave such a state.
grabbed-IsGrabbed :
    (event c : ℕ) (s title : Text) (m : MediaItem) (download : ℕ) (db : Db)
    → is_download_of download (c ∷ s) db ≡ true
    → has_item m.id db ≡ true
    → All (λ (l : Link). 0 < l.cycle) db.links
    → 0 < m.current_cycle
    → let (cycle, bumped) = grab_cycle (c ∷ s) m db in
      IsGrabbed
        (c ∷ s)
        m.id
        download
        cycle
        (applied_db m.id cycle grabbed event title (link_download_item download m.id cycle bumped))
      × (has_item m.id (link_download_item download m.id cycle bumped) ≡ true)
grabbed-IsGrabbed event c s title m download db own item links first_cycle =
    let (cycle, bumped) = grab_cycle (c ∷ s) m db in
    let linked = link_download_item download m.id cycle bumped in
    let done = applied_db m.id cycle grabbed event title linked in
    let g = grab_cycle-GrabOf c s m db first_cycle in
    let mine : is_download_of download (c ∷ s) bumped ≡ true = rw g.downloads own in
    let has =
      exists-weaken
        (λ (d : Download).
          d.id == download && text_eq d.client_download_id (normalize_download_id (c ∷ s)))
        (λ (d : Download). d.id == download) bumped.downloads (λ d h. ground arith) mine in
    let there =
      ap (exists (λ (x : MediaItem). x.id == m.id))
        (link_download_item-items download m.id cycle bumped).0
      ∙ g.there item in
    let (same_links, same_downloads) = applied_db-links m.id cycle grabbed event title linked in
    (
      record {
        linked =
            cycle_for_item_download-ext m.id (c ∷ s) linked done same_links same_downloads
            ∙ linked-cycle c s m download cycle db bumped own item links g;
        pos = g.pos;
        link =
            ap (exists (is_link download m.id)) same_links
            ∙ link_download_item-linked download m.id cycle bumped has (g.there item);
        staged =
            λ later other. apply_stage_idem m.id cycle grabbed event later title other linked there;
      },
      there,
    )

-- Behind a round the database is that of the writes, up to the tasks that the hook enqueues.
grab_item-db :
    (event c : ℕ) (s title : Text) (request_id download : ℕ) (m : MediaItem) (first : ℕ)
    (p : Projector)
    → (download == 0) ≡ false
    → let (cycle, bumped) = grab_cycle (c ∷ s) m p.db in
      let linked = link_download_item download m.id cycle bumped in
      has_item m.id linked ≡ true
      → (ts : List FlowTask) × ((grab_item event
            (c ∷ s)
            title
            request_id
            download
            m
            (first, p)).1.db
          ≡ with_tasks ts (applied_db m.id cycle grabbed event title linked))
unfolding grab_item
grab_item-db event c s title request_id download m first p some_download there =
    let (cycle, bumped) = grab_cycle (c ∷ s) m p.db in
    let linked = link_download_item download m.id cycle bumped in
    rw (some_download, apply_stage_total m.id cycle grabbed event title linked there)
      (announce-with_tasks (not (has_transition m.id cycle grabbed linked)) m.id request_id grabbed
        cycle (set_db (applied_db m.id cycle grabbed event title linked) p))

-- A round of a grab for an item, again behind a round under the same download key and for the same
-- download, by another event, with another title and for another request: it bumps no cycle, links
-- nothing, records no stage, publishes nothing and touches no request. The key is not empty, the item
-- and the download are there, and the cycles of the links and of the item count from 1.
pub grab_item_again :
    (event later c : ℕ) (s title other : Text) (request_id another download : ℕ)
    (m again : MediaItem) (first next : ℕ) (p : Projector)
    → (download == 0) ≡ false
    → is_download_of download (c ∷ s) p.db ≡ true
    → has_item m.id p.db ≡ true
    → All (λ (l : Link). 0 < l.cycle) p.db.links
    → 0 < m.current_cycle
    → again.id ≡ m.id
    → let q = (grab_item event (c ∷ s) title request_id download m (first, p)).1 in
      (grab_item later (c ∷ s) other another download again (next, q)).1 ≡ q
grab_item_again event later c s title other request_id another download m again first next p there
      own item links first_cycle same =
    let (cycle, bumped) = grab_cycle (c ∷ s) m p.db in
    let linked = link_download_item download m.id cycle bumped in
    let done = applied_db m.id cycle grabbed event title linked in
    let q = (grab_item event (c ∷ s) title request_id download m (first, p)).1 in
    let (g, has) = grabbed-IsGrabbed event c s title m download p.db own item links first_cycle in
    let (ts, at) = grab_item-db event c s title request_id download m first p there has in
    let here : IsGrabbed (c ∷ s) m.id download cycle q.db =
      subst (IsGrabbed (c ∷ s) m.id download cycle) (sym at)
        (IsGrabbed-with_tasks c s m.id download cycle ts done g) in
    grab_item-IsGrabbed later c s other another download cycle again next q there
      (subst (λ i. IsGrabbed (c ∷ s) i download cycle q.db) (sym same) here)
