-- ===== src/Base/Selects.antt =====
-- The laws of SELECT … WHERE and LIMIT.
use Prim.Native.Nat.{ℕ, zero, suc, ◌≤◌, ◌<◌}
use mathlib.Core.Path.{◌≡◌, refl, ap}
use mathlib.Core.Bool.{Bool, true, false, ◌&&◌, not}
use mathlib.Core.List.{List, [], ◌∷◌, ◌++◌}
use native.Mathlib.Omega.{arith}
use mathlib.Core.Logic.{inl, inr}
use journarr.Base.Tests.{Bool-cases}
use journarr.Base.Scans.{count-append, count_of_not_exists}
use journarr.Base.Lists.{length, take, select, exists, update, count}

module _ {ℓ} {A : Type ℓ} where
  pub select-update :
      (q p : A → Bool) (f : A → A) (xs : List A)
      → ((a : A) → q (f a) ≡ false)
      → select q (update p f xs) ≡ select (λ a. q a && not (p a)) xs
  select-update q p f [] h = refl
  select-update q p f (x ∷ xs) h = ground (arith, h x, select-update q p f xs h)

  pub select-ext :
      (q r : A → Bool) (xs : List A) → ((a : A) → q a ≡ r a) → select q xs ≡ select r xs
  select-ext q r [] h = refl
  select-ext q r (x ∷ xs) h = rw (h x, select-ext q r xs h) refl

  pub select-and :
      (q r : A → Bool) (xs : List A) → select (λ a. q a && r a) xs ≡ select r (select q xs)
  select-and q r [] = refl
  select-and q r (x ∷ xs) = ground (arith, select-and q r xs)

  pub length-select-le : (q : A → Bool) (xs : List A) → length (select q xs) ≤ length xs
  length-select-le q [] = omega arith
  length-select-le q (x ∷ xs) = ground (arith, length-select-le q xs)

  pub take-all : (n : ℕ) (xs : List A) → length (take n xs) < n → take n xs ≡ xs
  take-all zero xs h = absurd (omega arith)
  take-all (suc n) [] h = refl
  take-all (suc n) (x ∷ xs) h = ap (λ ys. x ∷ ys) (take-all n xs (omega arith))

  pub select-none : (q : A → Bool) (xs : List A) → exists q xs ≡ false → select q xs ≡ []
  select-none q [] h = refl
  select-none q (x ∷ xs) h = ground (arith, select-none q xs)

  pub count-select-le : (q p : A → Bool) (xs : List A) → count q (select p xs) ≤ count q xs
  count-select-le q p [] = omega arith
  count-select-le q p (x ∷ xs) = ground (arith, count-select-le q p xs)

  pub select-append :
      (q : A → Bool) (xs ys : List A) → select q (xs ++ ys) ≡ select q xs ++ select q ys
  select-append q [] ys = refl
  select-append q (x ∷ xs) ys = ground (arith, select-append q xs ys)

  -- A scan after a deletion.
  pub exists-select :
      (q p : A → Bool) (xs : List A) → exists q (select p xs) ≡ exists (λ a. p a && q a) xs
  exists-select q p [] = refl
  exists-select q p (x ∷ xs) = ground (arith, exists-select q p xs)

  -- An update that only takes rows out of a scan.
  pub count-update-le :
      (p q : A → Bool) (f : A → A) (xs : List A)
      → ((a : A) → q (f a) ≡ true → q a ≡ true)
      → count q (update p f xs) ≤ count q xs
  count-update-le p q f [] h = omega arith
  count-update-le p q f (x ∷ xs) h = ground (arith, h x, count-update-le p q f xs h)

-- A row of a key that no row has.
pub count-insert {ℓ} :
    {A : Type ℓ} (q : A → Bool) (xs : List A) (a : A)
    → count q xs ≤ 1
    → (q a ≡ true → exists q xs ≡ false)
    → count q (xs ++ a ∷ []) ≤ 1
count-insert q xs a bound fresh = elim (Bool-cases (q a)) [
  | inl e ↦
      let none_there = count_of_not_exists q xs (fresh e) in
      rw (count-append q xs (a ∷ []), e) (omega arith)
  | inr e ↦ rw (count-append q xs (a ∷ []), e) (omega arith)
]

pub exists-ext {ℓ} :
    {A : Type ℓ} (q r : A → Bool) (xs : List A) → ((a : A) → q a ≡ r a) → exists q xs ≡ exists r xs
exists-ext q r [] h = refl
exists-ext q r (x ∷ xs) h = rw (h x, exists-ext q r xs h) refl
