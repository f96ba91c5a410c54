-- ===== src/Store/Normalize.antt =====
-- NormalizeDownloadID and NormalizeSource of backend/internal/store/downloads.go. Texts are ASCII:
-- strings.ToLower and strings.TrimSpace are written out for the code points below 128.
pub mod Idempotence
use journarr.Base.{
  ℕ, ◌+◌, Bool, true, false, ◌&&◌, ◌||◌, List, [], ◌∷◌, ◌++◌, map, ◌==◌, leb, if◌then◌else◌, Text,
  text, text_eq,
}
use mathlib.Core.List.{reverse}
use journarr.Store.Stages.{Source, usenet, torrent, no_source}

unfoldable pub is_space : ℕ → Bool
is_space c = (leb 9 c && leb c 13) || c == 32

unfoldable pub lower : ℕ → ℕ
lower c = if leb b'A' c && leb c b'Z' then c + 32 else c

unfoldable pub trim_left : Text → Text
unfolding is_space
trim_left [] = []
trim_left (c ∷ s) = let rest = trim_left s in if is_space c then rest else c ∷ s

unfoldable pub trim_space : Text → Text
unfolding trim_left
trim_space s = reverse (trim_left (reverse (trim_left s)))

unfoldable pub normalize_download_id : Text → Text
unfolding trim_space lower
normalize_download_id id = map lower (trim_space id)

unfoldable pub normalize_source : Text → Source
unfolding normalize_download_id
normalize_source s =
    let t = normalize_download_id s in
    if text_eq t (text "1") || text_eq t (text "usenet")
    then usenet
    else if text_eq t (text "2") || text_eq t (text "torrent")
    then torrent
    else no_source
