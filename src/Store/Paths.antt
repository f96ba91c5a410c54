-- ===== src/Store/Paths.antt =====
-- FindItemByImportedPath of backend/internal/store/media.go. The escaped LIKE pattern '%base' is what
-- SQLite documents: the path ends in the base name, compared without regard to ASCII case.
use journarr.Base.{
  ℕ, Bool, ◌||◌, Option, none, [], ◌∷◌, ◌==◌, if◌then◌else◌, or_else, last, map, Text, text_eq,
  is_empty,
}
use journarr.Store.Rows.{Db, MediaItem}
use journarr.Store.Normalize.{lower}

abbrev pub backslash : ℕ
backslash = 92

-- path[i+1:] behind the last '/' or '\', the whole path where there is none: call it as
-- `base_name path path`.
unfoldable pub base_name : Text → Text → Text
base_name base [] = base
base_name base (c ∷ s) = base_name (if c == b'/' || c == backslash then s else base) s

-- Does the second text end in the first?
unfoldable pub ends_with : Text → Text → Bool
ends_with base [] = is_empty base
ends_with base (c ∷ s) = text_eq (c ∷ s) base || ends_with base s

unfoldable pub has_base : Text → Text → Bool
unfolding ends_with lower
has_base base path = ends_with (map lower base) (map lower path)

-- An exact match first, then one of the base name; the newest item wins. A NULL path is no match.
unfoldable pub find_item_by_imported_path : Text → Db → Option MediaItem
unfolding base_name has_base
find_item_by_imported_path [] db = none
find_item_by_imported_path (c ∷ s) db =
    let base = base_name (c ∷ s) (c ∷ s) in
    or_else (last (λ m. text_eq m.imported_path (c ∷ s)) db.items)
      (if is_empty base then none else last (λ m. has_base base m.imported_path) db.items)
