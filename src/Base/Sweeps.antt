-- ===== src/Base/Sweeps.antt =====
-- Loops over the rows that a scan found, each of which writes its own row by the key.
use Prim.Native.Nat.{ℕ, ◌≤◌, ◌+◌}
use mathlib.Core.Path.{◌≡◌, refl, ap, ◌∙◌}
use mathlib.Core.Bool.{Bool, false, ◌&&◌}
use mathlib.Core.Logic.{inl, inr}
use mathlib.Core.List.{List, [], ◌∷◌}
use native.Mathlib.Omega.{arith}
use journarr.Base.Tests.{if◌then◌else◌, Bool-cases, ◌==◌, ==_refl, if_case}
use journarr.Base.Lists.{exists, update, select, count}
use journarr.Base.Scans.{update_none, count-pos_of_exists}

module _ {ℓ} {A : Type ℓ} where
  -- No two rows have one key.
  abbrev pub IsDistinct : (A → ℕ) → List A → Type 0
  IsDistinct key [] = Unit
  IsDistinct key (x ∷ xs) = (exists (λ a. key a == key x) xs ≡ false) × IsDistinct key xs

  not_exists_of_count : (q : A → Bool) (xs : List A) → 1 + count q xs ≤ 1 → exists q xs ≡ false
  not_exists_of_count q xs h = elim (Bool-cases (exists q xs)) [
    | inl e ↦ let pos = count-pos_of_exists q xs e in absurd (omega arith)
    | inr e ↦ e
  ]

  pub IsDistinct-of_count :
      (key : A → ℕ) (xs : List A) → ((k : ℕ) → count (λ a. key a == k) xs ≤ 1) → IsDistinct key xs
  IsDistinct-of_count key [] h = tt
  IsDistinct-of_count key (x ∷ xs) h = (
    not_exists_of_count (λ a. key a == key x) xs (rw (==_refl (key x)) at (h (key x))),
    IsDistinct-of_count key xs (λ k. let c = h k in omega (arith, c)),
  )

  -- A guard that only spares rows that the write leaves as they are.
  pub update-and :
      (p q : A → Bool) (f g : A → A)
      → ((a : A) → (if q a then f a else a) ≡ g a)
      → (xs : List A) → update (λ a. p a && q a) f xs ≡ update p g xs
  update-and p q f g h [] = refl
  update-and p q f g h (x ∷ xs) = elim (Bool-cases (p x)) [
    | inl e ↦ rw (e, h x, update-and p q f g h xs) refl
    | inr e ↦ rw (e, update-and p q f g h xs) refl
  ]

  pub update-same : (p : A → Bool) (xs : List A) → update p (λ a. a) xs ≡ xs
  update-same p [] = refl
  update-same p (x ∷ xs) = ground (arith, update-same p xs)

module _ {ℓ} {A : Type ℓ} (key : A → ℕ) (write : A → A → A) where
  -- Each row that was found writes to the rows of its key.
  abbrev pub write_each : List A → List A → List A
  write_each [] xs = xs
  write_each (t ∷ ts) xs = write_each ts (update (λ a. key a == key t) (write t) xs)

  write_each-other :
      (y : A) (ts xs : List A)
      → exists (λ t. key t == key y) ts ≡ false
      → write_each ts (y ∷ xs) ≡ y ∷ write_each ts xs
  write_each-other y [] xs h = refl
  write_each-other y (t ∷ ts) xs h =
      let apart : (key y == key t) ≡ false = ground arith in
      rw apart (write_each-other y ts (update (λ a. key a == key t) (write t) xs) (ground arith))

  unfound : (q p : A → Bool) (xs : List A) → exists p xs ≡ false → exists p (select q xs) ≡ false
  unfound q p [] h = refl
  unfound q p (x ∷ xs) h =
      if_case (λ ys. exists p ys ≡ false) (q x) (λ _. ground (arith, unfound q p xs))
        (λ _. unfound q p xs (ground arith))

  update-head :
      (x : A) (xs : List A)
      → exists (λ a. key a == key x) xs ≡ false
      → update (λ a. key a == key x) (write x) (x ∷ xs) ≡ write x x ∷ xs
  update-head x xs fresh = ground (arith, update_none (λ a. key a == key x) (write x) xs fresh)

  -- A pass over the rows that a scan finds is one update of these rows.
  pub write_each-select :
      (q : A → Bool)
      → ((a b : A) → key (write a b) ≡ key b)
      → (xs : List A) → IsDistinct key xs
      → write_each (select q xs) xs ≡ update q (λ a. write a a) xs
  write_each-select q keeps [] h = refl
  write_each-select q keeps (x ∷ xs) (fresh, rest) = elim (Bool-cases (q x)) [
    | inl e ↦
        let others : exists (λ t. key t == key (write x x)) (select q xs) ≡ false =
          rw (keeps x x) (unfound q (λ a. key a == key x) xs fresh) in
        rw e (
          ap (write_each (select q xs)) (update-head x xs fresh)
          ∙ write_each-other (write x x) (select q xs) xs others
          ∙ ap (λ ys. write x x ∷ ys) (write_each-select q keeps xs rest))
    | inr e ↦ rw e (
        write_each-other x (select q xs) xs (unfound q (λ a. key a == key x) xs fresh)
        ∙ ap (λ ys. x ∷ ys) (write_each-select q keeps xs rest))
  ]
