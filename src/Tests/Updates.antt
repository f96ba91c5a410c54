-- ===== src/Tests/Updates.antt =====
-- The update check of backend/internal/updates/updates.go on concrete data.
use journarr.Base.{◌≡◌, refl, true, some, List, [], ◌∷◌, Text, text}
use journarr.Updates.{latest_tag, get_info, updates_pass}
use journarr.Updates.Latest.{IsLatest, latest_tag-IsLatest}

abbrev tags : List Text
tags = text "v1.9" ∷ text "nightly" ∷ text "v1.10.1-rc1" ∷ text "v1.2.30" ∷ text "1.x" ∷ []

latest_tag-IsLatest_example : IsLatest tags (latest_tag (some tags))
latest_tag-IsLatest_example = latest_tag-IsLatest tags

latest : latest_tag (some tags) ≡ some (text "v1.10.1-rc1")
unfolding latest_tag
latest = refl

offered :
    get_info (text "journarr") (
      updates_pass
        (some ((text "journarr", text "1.9.4") ∷ []))
        (λ repo. some tags)
        ((text "journarr", text "p/journarr") ∷ [])
        [])
    ≡ some (record { current = text "1.9.4"; latest = text "v1.10.1-rc1"; update_available = true })
unfolding get_info updates_pass
offered = refl
