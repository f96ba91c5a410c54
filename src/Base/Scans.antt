-- ===== src/Base/Scans.antt =====
-- How the scans of a table read an insert and an update.
use Prim.Native.Nat.{ℕ, suc, ◌+◌, ◌<◌}
use mathlib.Core.Path.{◌≡◌, refl, ap, subst}
use mathlib.Core.Bool.{Bool, true, false, ◌||◌}
use mathlib.Core.Logic.{inl, inr}
use mathlib.Core.List.{List, [], ◌∷◌, ◌++◌}
use mathlib.Core.Option.{Option, none, some, some_inj}
use native.Mathlib.Omega.{arith}
use journarr.Base.Tests.{if◌then◌else◌, Bool-cases, Option-cases, ◌==◌}
use journarr.Base.Lists.{length, first, last, exists, update, count, next_id, All}

module _ {ℓ} {A : Type ℓ} where
  -- What an update makes of one row.
  abbrev pub row_update : (A → Bool) → (A → A) → A → A
  row_update p f a = if p a then f a else a

  abbrev pub map_option : (A → A) → Option A → Option A
  map_option f none = none
  map_option f (some a) = some (f a)

  pub exists-append :
      (q : A → Bool) (xs ys : List A) → exists q (xs ++ ys) ≡ (exists q xs || exists q ys)
  exists-append q [] ys = refl
  exists-append q (x ∷ xs) ys = ground (arith, exists-append q xs ys)

  pub count-append : (q : A → Bool) (xs ys : List A) → count q (xs ++ ys) ≡ count q xs + count q ys
  count-append q [] ys = omega arith
  count-append q (x ∷ xs) ys = ground (arith, count-append q xs ys)

  pub first-append_some :
      (q : A → Bool) (xs ys : List A) {a : A} → first q xs ≡ some a → first q (xs ++ ys) ≡ some a
  first-append_some q [] ys h = cc
  first-append_some q (x ∷ xs) ys {a} h = ground (arith, first-append_some q xs ys {a = a})

  pub first-append_none :
      (q : A → Bool) (xs ys : List A) → first q xs ≡ none → first q (xs ++ ys) ≡ first q ys
  first-append_none q [] ys h = refl
  first-append_none q (x ∷ xs) ys h = ground (arith, first-append_none q xs ys)

  pub count_of_not_exists : (q : A → Bool) (xs : List A) → exists q xs ≡ false → count q xs ≡ 0
  count_of_not_exists q [] h = refl
  count_of_not_exists q (x ∷ xs) h = ground (arith, count_of_not_exists q xs)

  pub count-pos_of_exists : (q : A → Bool) (xs : List A) → exists q xs ≡ true → 0 < count q xs
  count-pos_of_exists q [] h = cc
  count-pos_of_exists q (x ∷ xs) h = ground (arith, count-pos_of_exists q xs)

  pub exists_of_first :
      (q : A → Bool) (xs : List A) {a : A} → first q xs ≡ some a → exists q xs ≡ true
  exists_of_first q [] h = cc
  exists_of_first q (x ∷ xs) {a} h = ground (arith, exists_of_first q xs {a = a})

  pub first_of_exists :
      (q : A → Bool) (xs : List A) → exists q xs ≡ true → (a : A) × (first q xs ≡ some a)
  first_of_exists q [] h = cc
  first_of_exists q (x ∷ xs) h = elim (Bool-cases (q x)) [
    | inl e ↦ (x, rw e)
    | inr e ↦ let r = first_of_exists q xs (ground arith) in (r.0, rw e r.1)
  ]

  pub not_exists_of_first : (q : A → Bool) (xs : List A) → first q xs ≡ none → exists q xs ≡ false
  not_exists_of_first q [] h = refl
  not_exists_of_first q (x ∷ xs) h = ground (arith, not_exists_of_first q xs)

  pub All_of_first {κ} :
      (P : A → Type κ) (q : A → Bool) (xs : List A) {a : A} → All P xs → first q xs ≡ some a → P a
  All_of_first P q [] h e = cc
  All_of_first P q (x ∷ xs) {a} h e = elim (Bool-cases (q x)) [
    | inl t ↦ subst P (some_inj.0 (rw t at e)) h.0
    | inr f ↦ All_of_first P q xs h.1 (rw f at e)
  ]

  pub last-snoc : (q : A → Bool) (xs : List A) (a : A) → q a ≡ true → last q (xs ++ a ∷ []) ≡ some a
  last-snoc q [] a h = rw h refl
  last-snoc q (x ∷ xs) a h = rw (last-snoc q xs a h) refl

  pub length-update : (p : A → Bool) (f : A → A) (xs : List A) → length (update p f xs) ≡ length xs
  length-update p f [] = refl
  length-update p f (x ∷ xs) = ap suc (length-update p f xs)

  -- A scan that reads no column which the update writes.
  module _ (p q : A → Bool) (f : A → A) (keep : (a : A) → q (f a) ≡ q a) where
    pub exists-update : (xs : List A) → exists q (update p f xs) ≡ exists q xs
    exists-update [] = refl
    exists-update (x ∷ xs) = ground (arith, keep x, exists-update xs)

    pub count-update : (xs : List A) → count q (update p f xs) ≡ count q xs
    count-update [] = refl
    count-update (x ∷ xs) = ground (arith, keep x, count-update xs)

    pub last-update :
        (xs : List A) → last q (update p f xs) ≡ map_option (row_update p f) (last q xs)
    last-update [] = refl
    last-update (x ∷ xs) = elim (Option-cases (last q xs)) [
      | inl e ↦ rw (last-update xs, e) (ground (arith, keep x))
      | inr (a, e) ↦ rw (last-update xs, e) refl
    ]

    pub first-update :
        (xs : List A) → first q (update p f xs) ≡ map_option (row_update p f) (first q xs)
    first-update [] = refl
    first-update (x ∷ xs) = ground (arith, keep x, first-update xs)

  pub update_idem :
      (p : A → Bool) (f : A → A) (xs : List A)
      → ((a : A) → p a ≡ true → p (f a) ≡ false)
      → update p f (update p f xs) ≡ update p f xs
  update_idem p f [] h = refl
  update_idem p f (x ∷ xs) h = ground (arith, h x, update_idem p f xs h)

  pub update_none :
      (p : A → Bool) (f : A → A) (xs : List A) → exists p xs ≡ false → update p f xs ≡ xs
  update_none p f [] h = refl
  update_none p f (x ∷ xs) h = ground (arith, update_none p f xs)

  pub exists_below_next_id :
      (key : A → ℕ) (xs : List A) (n : ℕ) → exists (λ a. key a == n) xs ≡ true → n < next_id key xs
  exists_below_next_id key [] n h = cc
  exists_below_next_id key (x ∷ xs) n h = ground (arith, exists_below_next_id key xs n)

  pub next_id_fresh : (key : A → ℕ) (xs : List A) → exists (λ a. key a == next_id key xs) xs ≡ false
  next_id_fresh key xs = elim (Bool-cases (exists (λ a. key a == next_id key xs) xs)) [
    | inl e ↦ absurd (omega (arith, exists_below_next_id key xs (next_id key xs) e))
    | inr e ↦ e
  ]

  pub next_id-pos : (key : A → ℕ) (xs : List A) → 0 < next_id key xs
  next_id-pos key [] = omega arith
  next_id-pos key (x ∷ xs) = ground (arith, next_id-pos key xs)
