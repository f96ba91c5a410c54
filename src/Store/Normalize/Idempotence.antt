-- ===== src/Store/Normalize/Idempotence.antt =====
-- NormalizeDownloadID (backend/internal/store/downloads.go) is applied to ids that are normalized
-- already: UpsertDownload and its lookup both call it.
use journarr.Base.{
  ℕ, ◌≡◌, refl, sym, ap, ◌∙◌, ◌⊎◌, inl, inr, false, [], ◌∷◌, ◌++◌, map, arith, Bool-cases, Text,
}
use mathlib.Core.List.{reverse, reverse-cons, reverse-reverse, reverse-append}
use journarr.Store.Normalize.{is_space, lower, trim_left, trim_space, normalize_download_id}

lower_idem : (c : ℕ) → lower (lower c) ≡ lower c
unfolding lower
lower_idem c = ground arith

is_space-lower : (c : ℕ) → is_space (lower c) ≡ is_space c
unfolding is_space lower
is_space-lower c = ground arith

-- A trimmed text is empty or begins with what is no space.
trim_left-cases :
    (s : Text)
    → (trim_left s ≡ []) ⊎ ((c : ℕ) × (t : Text) × (trim_left s ≡ c ∷ t) × (is_space c ≡ false))
unfolding trim_left
trim_left-cases [] = inl refl
trim_left-cases (c ∷ s) = elim (Bool-cases (is_space c)) [
  | inl e ↦ rw e (trim_left-cases s)
  | inr e ↦ inr (c, s, rw e refl, e)
]

trim_left-stays : (c : ℕ) (s : Text) → is_space c ≡ false → trim_left (c ∷ s) ≡ c ∷ s
unfolding trim_left
trim_left-stays c s h = rw h refl

trim_left-trim_left : (s : Text) → trim_left (trim_left s) ≡ trim_left s
trim_left-trim_left s = elim (trim_left-cases s) [
  | inl e ↦ rw e (unfold trim_left in refl)
  | inr (c, t, e, h) ↦ rw e (trim_left-stays c t h)
]

-- A last letter that is no space stays.
trim_left-snoc :
    (s : Text) (c : ℕ) → is_space c ≡ false → trim_left (s ++ c ∷ []) ≡ trim_left s ++ c ∷ []
unfolding trim_left
trim_left-snoc [] c h = rw h refl
trim_left-snoc (x ∷ s) c h = elim (Bool-cases (is_space x)) [
  | inl e ↦ rw e (trim_left-snoc s c h)
  | inr e ↦ rw e refl
]

map-trim_left : (s : Text) → trim_left (map lower s) ≡ map lower (trim_left s)
unfolding trim_left
map-trim_left [] = refl
map-trim_left (c ∷ s) = elim (Bool-cases (is_space c)) [
  | inl e ↦ rw (is_space-lower c, e) (map-trim_left s)
  | inr e ↦ rw (is_space-lower c, e) refl
]

map-append : (f : ℕ → ℕ) (s t : Text) → map f (s ++ t) ≡ map f s ++ map f t
map-append f [] t = refl
map-append f (c ∷ s) t = ap (λ u. f c ∷ u) (map-append f s t)

map-reverse : (f : ℕ → ℕ) (s : Text) → map f (reverse s) ≡ reverse (map f s)
map-reverse f [] = refl
map-reverse f (c ∷ s) =
    ap (map f) (reverse-cons c s)
    ∙ map-append f (reverse s) (c ∷ [])
    ∙ ap (λ u. u ++ f c ∷ []) (map-reverse f s)
    ∙ sym (reverse-cons (f c) (map f s))

map-trim_space : (s : Text) → trim_space (map lower s) ≡ map lower (trim_space s)
unfolding trim_space
map-trim_space s =
    ap (λ u. reverse (trim_left (reverse u))) (map-trim_left s)
    ∙ ap (λ u. reverse (trim_left u)) (sym (map-reverse lower (trim_left s)))
    ∙ ap reverse (map-trim_left (reverse (trim_left s)))
    ∙ sym (map-reverse lower (trim_left (reverse (trim_left s))))

-- The trimmed text of one that begins with no space.
abbrev trimmed : ℕ → Text → Text
trimmed c t = c ∷ reverse (trim_left (reverse t))

trim_right :
    (c : ℕ) (t : Text) → is_space c ≡ false → reverse (trim_left (reverse (c ∷ t))) ≡ trimmed c t
trim_right c t h =
    ap (λ u. reverse (trim_left u)) (reverse-cons c t)
    ∙ ap reverse (trim_left-snoc (reverse t) c h)
    ∙ reverse-append (trim_left (reverse t)) (c ∷ [])

trim_space-trim_space : (s : Text) → trim_space (trim_space s) ≡ trim_space s
unfolding trim_space
trim_space-trim_space s = elim (trim_left-cases s) [
  | inl e ↦ rw e (unfold trim_left in refl)
  | inr (c, t, e, h) ↦
      let once = ap (λ u. reverse (trim_left (reverse u))) e ∙ trim_right c t h in
      ap (λ u. reverse (trim_left (reverse (trim_left u)))) once
      ∙ ap (λ u. reverse (trim_left (reverse u)))
          (trim_left-stays c (reverse (trim_left (reverse t))) h)
      ∙ trim_right c (reverse (trim_left (reverse t))) h
      ∙ ap (λ u. c ∷ reverse (trim_left u)) (reverse-reverse (trim_left (reverse t)))
      ∙ ap (λ u. c ∷ reverse u) (trim_left-trim_left (reverse t))
      ∙ sym once
]

lower_all_idem : (s : Text) → map lower (map lower s) ≡ map lower s
lower_all_idem [] = refl
lower_all_idem (c ∷ s) = rw (lower_idem c, lower_all_idem s) refl

-- Normalizing a normalized id changes nothing.
pub normalize_download_id_idem :
    (id : Text) → normalize_download_id (normalize_download_id id) ≡ normalize_download_id id
unfolding normalize_download_id
normalize_download_id_idem id =
    ap (map lower) (map-trim_space (trim_space id) ∙ ap (map lower) (trim_space-trim_space id))
    ∙ lower_all_idem (trim_space id)
