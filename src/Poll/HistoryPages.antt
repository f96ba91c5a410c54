-- ===== src/Poll/HistoryPages.antt =====
-- HistorySince of backend/internal/clients/arrmedia.go: the records of an arr's history behind a
-- cursor. The HTTP answers are a parameter, page by page; `none` is an error.
pub mod Window
use journarr.Base.{
  ℕ, zero, suc, ◌+◌, Bool, true, false, ◌||◌, Option, none, some, List, [], ◌∷◌, ◌++◌, leb, ltb,
  if◌then◌else◌, maybe, length, select, exists, Text,
}
use mathlib.Core.List.{reverse}
use journarr.Pipeline.Ops.{Arr}

-- Series, Episode and Movie, as far as the history poller reads them.
pub record ArrSeries : Type 0 where
  pub id : ℕ
  pub tvdb_id : ℕ
  pub title : Text

pub record ArrEpisode : Type 0 where
  pub id : ℕ
  pub season_number : ℕ
  pub episode_number : ℕ
  pub title : Text

pub record ArrMovie : Type 0 where
  pub id : ℕ
  pub tmdb_id : ℕ
  pub title : Text
  pub year : ℕ

-- HistoryRecord; `values` is the map Data, with the empty text for a missing key.
pub record HistoryRecord : Type 0 where
  pub id : ℕ
  pub event_type : Text
  pub source_title : Text
  pub download_id : Text
  pub series : Option ArrSeries
  pub episode : Option ArrEpisode
  pub movie : Option ArrMovie
  pub values : Text → Text

abbrev pub page_size : ℕ
page_size = 100

-- Newer than the cursor.
abbrev pub is_new : ℕ → HistoryRecord → Bool
is_new since r = ltb since r.id

abbrev pub reached_boundary : ℕ → List HistoryRecord → Bool
reached_boundary since records = exists (λ (r : HistoryRecord). leb r.id since) records

-- Does the page end the loop: no records, one at the cursor or behind it, or fewer than a page holds?
unfoldable pub is_last_page : ℕ → List HistoryRecord → Bool
is_last_page since [] = true
is_last_page since (r ∷ rs) = reached_boundary since (r ∷ rs) || ltb (length (r ∷ rs)) page_size

-- What was found so far, in front of what the later pages give.
abbrev pub and_later :
    List HistoryRecord → Option (List HistoryRecord × Bool) → Option (List HistoryRecord × Bool)
and_later found none = none
and_later found (some (rest, complete)) = some (found ++ rest, complete)

-- The loop over the pages from `page` on, with `budget` pages left: what it collects, and `complete`.
unfoldable pub collect_pages :
    (ℕ → Option (List HistoryRecord)) → ℕ → ℕ → ℕ → Option (List HistoryRecord × Bool)
unfolding is_last_page
collect_pages pages since page zero = some ([], false)
collect_pages pages since page (suc budget) =
    let others = collect_pages pages since (page + 1) budget in
    maybe (pages page) none λ records.
      let found = select (is_new since) records in
      if is_last_page since records then some (found, true) else and_later found others

-- sort.SliceStable by id, as the insertion of each record behind its equals.
unfoldable pub insert_by_id : HistoryRecord → List HistoryRecord → List HistoryRecord
insert_by_id r [] = r ∷ []
insert_by_id r (x ∷ xs) =
    let rest = insert_by_id r xs in if ltb r.id x.id then r ∷ x ∷ xs else x ∷ rest

unfoldable pub sort_from : List HistoryRecord → List HistoryRecord → List HistoryRecord
unfolding insert_by_id
sort_from out [] = out
sort_from out (r ∷ rs) = sort_from (insert_by_id r out) rs

abbrev pub oldest_first : Option (List HistoryRecord × Bool) → Option (List HistoryRecord × Bool)
oldest_first none = none
oldest_first (some (records, complete)) = some (sort_from [] (reverse records), complete)

-- HistorySince: the records oldest first, and whether the cursor was reached.
unfoldable pub history_since :
    (ℕ → Option (List HistoryRecord)) → ℕ → ℕ → Option (List HistoryRecord × Bool)
unfolding collect_pages sort_from
history_since pages since max_pages = oldest_first (collect_pages pages since 1 max_pages)
