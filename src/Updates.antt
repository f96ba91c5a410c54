-- ===== src/Updates.antt =====
-- backend/internal/updates/updates.go: is there a newer release of a service than the one that runs? The
-- tags that GitHub answers are a parameter, and so are the rows of service_health.
pub mod Latest
use journarr.Base.{
  ℕ, ◌+◌, ◌^◌, Bool, true, false, not, ◌&&◌, ◌||◌, Option, none, some, List, [], ◌∷◌, ◌==◌, ltb,
  leb, if◌then◌else◌, maybe, length, count, is_empty, Text, text, text_eq,
}
use journarr.Poll.Cursors.{digits_value, clamp_int64}

pub record Info : Type 0 where
  pub current : Text
  pub latest : Text
  pub update_available : Bool

-- strings.TrimPrefix(v, "v").
abbrev pub trim_v : Text → Text
trim_v [] = []
trim_v (c ∷ s) = if c == b'v' then s else c ∷ s

-- What stands before the first such character, and what behind it.
unfoldable pub cut_at : ℕ → Text → Text × Option Text
cut_at c [] = ([], none)
cut_at c (d ∷ s) =
    let (before, after) = cut_at c s in if d == c then ([], some s) else (d ∷ before, after)

-- strings.SplitN(v, ".", 3).
unfoldable pub split_dots : Text → List Text
unfolding cut_at
split_dots v =
    let (a, r) = cut_at b'.' v in
    maybe r (a ∷ []) λ s. let (b, t) = cut_at b'.' s in maybe t (a ∷ b ∷ []) λ u. a ∷ b ∷ u ∷ []

-- A part without its pre-release suffix.
unfoldable pub without_suffix : Text → Text
unfolding cut_at
without_suffix p = (cut_at b'-' p).0

-- The digits that strconv.Atoi reads, with a sign or without; a suffix with "-" is gone by then.
unfoldable pub atoi_value : Text → Option ℕ
unfolding digits_value
atoi_value [] = none
atoi_value (c ∷ []) = digits_value 0 (c ∷ [])
atoi_value (c ∷ d ∷ s) = digits_value 0 (if c == b'+' then d ∷ s else c ∷ d ∷ s)

unfoldable pub is_number : Text → Bool
unfolding without_suffix atoi_value
is_number p = maybe (atoi_value (without_suffix p)) false λ n. ltb n (2 ^ 63)

unfoldable pub is_semver : Text → Bool
unfolding split_dots is_number
is_semver v =
    let parts = split_dots (trim_v v) in
    leb 2 (length parts) && count (λ p. not (is_number p)) parts == 0

-- The three numbers of a version.
pub record Version : Type 0 where
  pub major : ℕ
  pub minor : ℕ
  pub patch : ℕ

-- Its value where Atoi fails is 0, and the largest int where the number is too large.
unfoldable pub part_value : Text → ℕ
unfolding without_suffix atoi_value
part_value p = clamp_int64 (atoi_value (without_suffix p))

abbrev pub version_of : List Text → Version
version_of [] = record { major = 0; minor = 0; patch = 0 }
version_of (a ∷ []) = record { major = part_value a; minor = 0; patch = 0 }
version_of (a ∷ b ∷ []) = record { major = part_value a; minor = part_value b; patch = 0 }
version_of (a ∷ b ∷ c ∷ _) = record {
  major = part_value a;
  minor = part_value b;
  patch = part_value c;
}

unfoldable pub parse_semver : Text → Version
unfolding split_dots part_value
parse_semver v = version_of (split_dots (trim_v v))

abbrev pub version_less : Version → Version → Bool
version_less a b =
    if not (a.major == b.major)
    then ltb a.major b.major
    else if not (a.minor == b.minor)
    then ltb a.minor b.minor
    else ltb a.patch b.patch

unfoldable pub semver_less : Text → Text → Bool
unfolding parse_semver
semver_less a b = version_less (parse_semver a) (parse_semver b)

-- Does a tag replace the best one so far, the empty text for none?
abbrev pub is_better : Text → Text → Bool
is_better best t = is_semver t && (is_empty best || semver_less best t)

-- The loop over the tags.
unfoldable pub best_tag : Text → List Text → Text
unfolding is_semver semver_less
best_tag best [] = best
best_tag best (t ∷ ts) = best_tag (if is_better best t then t else best) ts

-- latestTag; `none` is an error, as is a repository without a release tag.
unfoldable pub latest_tag : Option (List Text) → Option Text
unfolding best_tag
latest_tag answer =
    maybe answer none
      λ tags. let best = best_tag [] tags in if is_empty best then none else some best

-- byID.
abbrev pub Infos : Type 0
Infos = List (Text × Info)

unfoldable pub put_info : Text → Info → Infos → Infos
put_info service i [] = (service, i) ∷ []
put_info service i ((s, old) ∷ infos) =
    let rest = put_info service i infos in
    if text_eq s service then (s, i) ∷ infos else (s, old) ∷ rest

-- Get.
unfoldable pub get_info : Text → Infos → Option Info
get_info service [] = none
get_info service ((s, i) ∷ infos) =
    let rest = get_info service infos in if text_eq s service then some i else rest

-- current[service]: the last row of it, or the empty text.
unfoldable pub current_version : Text → List (Text × Text) → Text → Text
current_version service [] found = found
current_version service ((s, v) ∷ rows) found =
    current_version service rows (if text_eq s service then v else found)

unfoldable pub info_of : Text → Text → Info
unfolding is_semver semver_less
info_of cur latest = record {
  current = cur;
  latest = latest;
  update_available =
      not (is_empty cur) && (is_semver cur && (is_semver latest && semver_less cur latest));
}

-- The loop over Repos; a repository that cannot be read is skipped.
unfoldable pub check_repos :
    List (Text × Text) → (Text → Option (List Text)) → List (Text × Text) → Infos → Infos
unfolding latest_tag current_version info_of put_info
check_repos health tags [] infos = infos
check_repos health tags ((service, repo) ∷ repos) infos = check_repos health tags repos (
    maybe (latest_tag (tags repo)) infos
      λ latest. put_info service (info_of (current_version service health []) latest) infos)

-- pass; `none` where the health rows cannot be read.
unfoldable pub updates_pass :
    Option (List (Text × Text)) → (Text → Option (List Text)) → List (Text × Text) → Infos → Infos
unfolding check_repos
updates_pass answer tags repos infos =
    maybe answer infos λ health. check_repos health tags repos infos
