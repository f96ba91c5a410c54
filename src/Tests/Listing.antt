-- ===== src/Tests/Listing.antt =====
-- The listing of the requests of backend/internal/store/requests.go on concrete data.
use journarr.Base.{◌+◌, ◌≡◌, refl, [], ◌∷◌, length, map, text}
use journarr.Store.Items.{upsert_item}
use journarr.Store.Listing.{matching, list_requests}
use journarr.Store.Listing.Views.{matching-views}
use journarr.Tests.Samples.{with_item}

matching-views_example :
    length (matching (text "waiting") (text "matrix") with_item)
      + (length (matching (text "done") (text "matrix") with_item)
          + (length (matching (text "active") (text "matrix") with_item)
              + length (matching (text "partial") (text "matrix") with_item)))
    ≡ length (matching (text "all") (text "matrix") with_item)
matching-views_example = matching-views (text "matrix") with_item

listed :
    map (λ r. r.item_count) (list_requests (text "active") (text "e_m") 50 0 with_item) ≡ 1 ∷ []
unfolding list_requests with_item upsert_item
listed = refl
