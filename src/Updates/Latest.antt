-- ===== src/Updates/Latest.antt =====
-- The tag that latestTag of backend/internal/updates/updates.go picks.
use journarr.Base.{
  ◌<◌, ◌≡◌, refl, ap, ◌⊎◌, inl, inr, Bool, true, false, Option, none, some, List, [], ◌∷◌, if_case,
  Bool-cases, exists, is_empty, All, All-map, Text, text_eq, text_eq_iff, arith,
}
use journarr.Updates.{
  Version, parse_semver, version_less, is_semver, semver_less, is_better, best_tag, latest_tag,
}

version_less_trans :
    (r b t : Version)
    → version_less r t ≡ false
    → version_less b t ≡ true
    → version_less r b ≡ false
version_less_trans r b t h g = ground arith

not_less_trans :
    (r b t : Version)
    → version_less r b ≡ false
    → version_less b t ≡ false
    → version_less r t ≡ false
not_less_trans r b t h g = ground arith

semver_filled : (t : Text) → is_semver t ≡ true → is_empty t ≡ false
unfolding is_semver
semver_filled [] h = absurd (cc)
semver_filled (c ∷ s) h = refl

-- What the loop over the tags makes of a best tag.
record IsBest (best : Text) (ts : List Text) (v : Text) : Type 0 where
  pub from : (v ≡ best) ⊎ ((exists (λ t. text_eq t v) ts ≡ true) × (is_semver v ≡ true))
  pub filled : is_empty best ≡ false → is_empty v ≡ false
  pub above : is_empty best ≡ false → semver_less v best ≡ false
  pub tops : All (λ t. is_semver t ≡ true → (is_empty v ≡ false) × (semver_less v t ≡ false)) ts

version_less_refl : (a : Version) → version_less a a ≡ false
version_less_refl a = ground arith

found_there :
    (t : Text) (ts : List Text) (v : Text)
    → is_semver t ≡ true
    → (v ≡ t) ⊎ ((exists (λ x. text_eq x v) ts ≡ true) × (is_semver v ≡ true))
    → (exists (λ x. text_eq x v) (t ∷ ts) ≡ true) × (is_semver v ≡ true)
found_there t ts v s (inl e) = rw e (ground (arith, (text_eq_iff t t).1 refl), s)
found_there t ts v s (inr h) = (ground arith, h.1)

IsBest-better :
    (best t : Text) (ts : List Text) (v : Text)
    → is_better best t ≡ true
    → IsBest t ts v
    → IsBest best (t ∷ ts) v
unfolding semver_less
IsBest-better best t ts v better h =
    let s : is_semver t ≡ true = ground arith in
    let full = semver_filled t s in
    record {
      from = inr (found_there t ts v s h.from);
      filled = λ e. h.filled full;
      above = λ e.
          version_less_trans (parse_semver v) (parse_semver best) (parse_semver t) (h.above full)
            (ground arith);
      tops = (λ x. (h.filled full, h.above full), h.tops);
    }

found_later :
    (best t : Text) (ts : List Text) (v : Text)
    → (v ≡ best) ⊎ ((exists (λ x. text_eq x v) ts ≡ true) × (is_semver v ≡ true))
    → (v ≡ best) ⊎ ((exists (λ x. text_eq x v) (t ∷ ts) ≡ true) × (is_semver v ≡ true))
found_later best t ts v (inl e) = inl e
found_later best t ts v (inr h) = inr (ground arith, h.1)

IsBest-kept :
    (best t : Text) (ts : List Text) (v : Text)
    → is_better best t ≡ false
    → IsBest best ts v
    → IsBest best (t ∷ ts) v
unfolding semver_less
IsBest-kept best t ts v kept h = record {
  from = found_later best t ts v h.from;
  filled = h.filled;
  above = h.above;
  tops = (
    λ s.
        let full : is_empty best ≡ false = ground arith in
        (
          h.filled full,
          not_less_trans (parse_semver v) (parse_semver best) (parse_semver t) (h.above full)
              (ground arith),
        ),
    h.tops,
  );
}

best_tag-IsBest : (best : Text) (ts : List Text) → IsBest best ts (best_tag best ts)
unfolding best_tag semver_less
best_tag-IsBest best [] = record {
  from = inl refl;
  filled = λ h. h;
  above = λ h. version_less_refl (parse_semver best);
  tops = tt;
}
best_tag-IsBest best (t ∷ ts) =
    if_case (λ (b : Text). IsBest best (t ∷ ts) (best_tag b ts)) (is_better best t)
      (λ h. IsBest-better best t ts (best_tag t ts) h (best_tag-IsBest t ts))
      (λ h. IsBest-kept best t ts (best_tag best ts) h (best_tag-IsBest best ts))

-- A version comes behind another by its major number, where these are equal by its minor number, and
-- where these are, too, by its patch number.
abbrev pub IsLater : Version → Version → Type 0
IsLater a b =
    (b.major < a.major)
    ⊎ ((a.major ≡ b.major) × ((b.minor < a.minor) ⊎ ((a.minor ≡ b.minor) × (b.patch < a.patch))))

not-IsLater : (v t : Version) → version_less v t ≡ false → ¬ IsLater t v
not-IsLater v t h (inl g) = absurd (ground arith)
not-IsLater v t h (inr (e, inl g)) = absurd (ground arith)
not-IsLater v t h (inr (e, inr (f, g))) = absurd (ground arith)

-- The tag is one of the release tags, and none of them is a later version; without one there is none.
abbrev pub IsLatest : List Text → Option Text → Type 0
IsLatest tags none = All (λ t. is_semver t ≡ false) tags
IsLatest tags (some v) =
    (exists (λ t. text_eq t v) tags ≡ true)
    × (is_semver v ≡ true)
    × All (λ t. is_semver t ≡ true → ¬ IsLater (parse_semver t) (parse_semver v)) tags

differs : {b : Bool} → b ≡ true → b ≡ false → ⊥
differs h g = cc

-- What the loop says where it found a tag, and where it found none.
none_released :
    (tags : List Text) (v : Text) → IsBest [] tags v → is_empty v ≡ true → IsLatest tags none
none_released tags v b e =
    All-map (λ t. is_semver t ≡ true → (is_empty v ≡ false) × (semver_less v t ≡ false))
      (λ t. is_semver t ≡ false)
      (λ t g. elim (Bool-cases (is_semver t)) [ inl s ↦ absurd (differs e (g s).0) | inr s ↦ s ])
      tags b.tops

release :
    (tags : List Text) (v : Text)
    → is_empty v ≡ false
    → All (λ t. is_semver t ≡ true → (is_empty v ≡ false) × (semver_less v t ≡ false)) tags
    → (v ≡ []) ⊎ ((exists (λ t. text_eq t v) tags ≡ true) × (is_semver v ≡ true))
    → IsLatest tags (some v)
unfolding semver_less
release tags v e tops (inl f) = absurd (differs (ap is_empty f) e)
release tags v e tops (inr h) = (
  h.0,
  h.1,
  All-map (λ t. is_semver t ≡ true → (is_empty v ≡ false) × (semver_less v t ≡ false))
      (λ t. is_semver t ≡ true → ¬ IsLater (parse_semver t) (parse_semver v))
      (λ t g s. not-IsLater (parse_semver v) (parse_semver t) (g s).1) tags tops,
)

-- Of the tags of a repository, latestTag gives a release tag than which none has later numbers, by
-- major, minor and patch as parseSemver reads them, and fails exactly where there is no release tag.
-- Suffixes of pre-releases are not compared.
pub latest_tag-IsLatest : (tags : List Text) → IsLatest tags (latest_tag (some tags))
unfolding latest_tag
latest_tag-IsLatest tags =
    let b = best_tag-IsBest [] tags in
    if_case (IsLatest tags) (is_empty (best_tag [] tags)) (none_released tags (best_tag [] tags) b)
      (λ e. release tags (best_tag [] tags) e b.tops b.from)
