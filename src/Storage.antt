-- ===== src/Storage.antt =====
-- backend/internal/storage/storage.go: the disk usage that the instances report, merged by mount. What
-- an instance answers is in its record, `none` for an error; `range` is Go's iteration over the map.
-- Texts are ASCII, so that they are compared as code points. UsedPercent, a float, is left out.
pub mod Reporters
use journarr.Base.{
  ℕ, ◌-◌, ◌+◌, Bool, true, false, not, ◌&&◌, ◌||◌, Option, none, some, List, [], ◌∷◌, ◌++◌, ◌==◌,
  leb, ltb, if◌then◌else◌, maybe, map, length, exists, update, is_empty, Text, text, text_eq,
}
use mathlib.Core.List.{reverse}
use journarr.Actions.RemovalPlan.{trim_slashes}

-- negsuc n is -(n + 1).
pub data ℤ : Type 0 where
  pos negsuc : ℕ → ℤ

abbrev pub sub_ℕ : ℕ → ℕ → ℤ
sub_ℕ a b = if leb b a then pos (a - b) else negsuc (b - a - 1)

pub record DiskEntry : Type 0 where
  pub path : Text
  pub label : Text
  pub free_space : ℕ
  pub total_space : ℕ

pub record Instance : Type 0 where
  pub id : Text
  pub disk_space : Option (List DiskEntry)
  pub root_folders : Option (List Text)

pub record Mount : Type 0 where
  pub path : Text
  pub label : Text
  pub free_space : ℕ
  pub total_space : ℕ
  pub used_space : ℤ
  pub is_library : Bool
  pub reported_by : List Text

-- normalize: a path of more than one byte loses its trailing slashes.
unfoldable pub normalize : Text → Text
unfolding trim_slashes
normalize path = if ltb 1 (length path) then reverse (trim_slashes (reverse path)) else path

pub record Key : Type 0 where
  pub path : Text
  pub free : ℕ
  pub total : ℕ

abbrev pub key_eq : Key → Key → Bool
key_eq a b = text_eq a.path b.path && (a.free == b.free && a.total == b.total)

abbrev pub entry_key : DiskEntry → Key
entry_key e = record { path = normalize e.path; free = e.free_space; total = e.total_space }

-- The key under which a mount stands in `merged`.
abbrev pub mount_key : Mount → Key
mount_key m = record { path = normalize m.path; free = m.free_space; total = m.total_space }

abbrev pub contains : List Text → Text → Bool
contains xs s = exists (λ x. text_eq x s) xs

abbrev pub add_reporter : Text → List Text → List Text
add_reporter id ids = if contains ids id then ids else ids ++ id ∷ []

abbrev pub stands_at : Key → Mount → Bool
stands_at k m = key_eq (mount_key m) k

abbrev pub new_mount : Text → DiskEntry → Mount
new_mount id e = record {
  path = e.path;
  label = e.label;
  free_space = e.free_space;
  total_space = e.total_space;
  used_space = pos 0;
  is_library = false;
  reported_by = id ∷ [];
}

unfoldable pub add_entry : Text → DiskEntry → List Mount → List Mount
unfolding normalize
add_entry id e ms =
    if exists (stands_at (entry_key e)) ms
    then update (stands_at (entry_key e))
        (λ m. record m { reported_by = add_reporter id m.reported_by }) ms
    else ms ++ new_mount id e ∷ []

unfoldable pub add_entries : Text → List DiskEntry → List Mount → List Mount
unfolding add_entry
add_entries id [] ms = ms
add_entries id (e ∷ es) ms = add_entries id es (add_entry id e ms)

-- The loop over the instances; one whose entries cannot be read is skipped.
unfoldable pub merge : List Instance → List Mount → List Mount
unfolding add_entries
merge [] ms = ms
merge (i ∷ is) ms = merge is (maybe i.disk_space ms λ es. add_entries i.id es ms)

abbrev pub roots_of : Instance → List Text
roots_of i = maybe i.disk_space [] λ es. maybe i.root_folders [] λ roots. map normalize roots

-- libs.
unfoldable pub library_paths : List Instance → List Text
unfolding normalize
library_paths [] = []
library_paths (i ∷ is) = roots_of i ++ library_paths is

unfoldable pub finish_mount : List Text → Mount → Mount
unfolding normalize
finish_mount libs m = record m {
  used_space = sub_ℕ m.total_space m.free_space;
  is_library = contains libs (normalize m.path);
}

-- Go's < on strings.
abbrev pub text_less : Text → Text → Bool
text_less s [] = false
text_less [] (c ∷ t) = true
text_less (b ∷ s) (c ∷ t) = ltb b c || (b == c && text_less s t)

-- The order of the mounts: libraries first, then the larger, then by path.
abbrev pub less_by_size : ℕ → Text → ℕ → Text → Bool
less_by_size t p u q = ltb u t || (t == u && text_less p q)

unfoldable pub less : Mount → Mount → Bool
less a b =
    if a.is_library
    then not b.is_library || less_by_size a.total_space a.path b.total_space b.path
    else not b.is_library && less_by_size a.total_space a.path b.total_space b.path

-- sort.Slice, as an insertion sort.
unfoldable pub insert_mount : Mount → List Mount → List Mount
unfolding less
insert_mount m [] = m ∷ []
insert_mount m (x ∷ xs) = let rest = insert_mount m xs in if less m x then m ∷ x ∷ xs else x ∷ rest

unfoldable pub sort_mounts : List Mount → List Mount
unfolding insert_mount
sort_mounts [] = []
sort_mounts (m ∷ ms) = insert_mount m (sort_mounts ms)

unfoldable pub merged_mounts : (List Mount → List Mount) → List Instance → List Mount
unfolding merge library_paths finish_mount sort_mounts
merged_mounts range instances =
    sort_mounts (map (finish_mount (library_paths instances)) (range (merge instances [])))

-- The cache of a Service.
pub record Service : Type 0 where
  pub cached : List Mount
  pub cached_at : ℕ

-- Mounts: a fresh reading is kept for `ttl`, an empty one is not kept.
unfoldable pub mounts :
    (List Mount → List Mount) → ℕ → ℕ → List Instance → Service → List Mount × Service
unfolding merged_mounts
mounts range ttl now instances s =
    let out = merged_mounts range instances in
    if ltb 0 (length s.cached) && ltb now (s.cached_at + ttl)
    then (s.cached, s)
    else (out, if ltb 0 (length out) then record { cached = out; cached_at = now } else s)
