-- ===== src/Base/Tests.antt =====
-- Boolean tests on the native numbers, and the conditional.
use Prim.Native.Nat.{ℕ, compare, Ordering}
use mathlib.Core.Path.{◌≡◌, refl}
use mathlib.Core.Logic.{◌↔◌, ◌⊎◌, inl, inr}
use mathlib.Core.Bool.{Bool, true, false}
use mathlib.Core.Option.{Option, none, some}
use native.Mathlib.Omega.{arith}

abbrev pub ltb : ℕ → ℕ → Bool
ltb a b = elim (compare a b) [ Ordering.lt ↦ true | _ ↦ false ]

abbrev pub leb : ℕ → ℕ → Bool
leb a b = elim (compare a b) [ Ordering.gt ↦ false | _ ↦ true ]

infix 50 ◌==◌
abbrev pub ◌==◌ : ℕ → ℕ → Bool
a == b = elim (compare a b) [ Ordering.eq ↦ true | _ ↦ false ]

infix 1 if◌then◌else◌
abbrev pub if◌then◌else◌ {ℓ} : {A : Type ℓ} → Bool → A → A → A
if true then x else y = x
if false then x else y = y

pub ==_iff : (a b : ℕ) → ((a == b) ≡ true) ↔ (a ≡ b)
==_iff a b = ground arith

pub ==_refl : (a : ℕ) → (a == a) ≡ true
==_refl a = ground arith

-- A computed value with its equation, to split on.
pub Bool-cases : (b : Bool) → (b ≡ true) ⊎ (b ≡ false)
Bool-cases true = inl refl
Bool-cases false = inr refl

pub Option-cases {ℓ} : {A : Type ℓ} (o : Option A) → (o ≡ none) ⊎ ((a : A) × (o ≡ some a))
Option-cases none = inl refl
Option-cases (some a) = inr (a, refl)

module _ {ℓ} {A : Type ℓ} where
  abbrev pub is_some : Option A → Bool
  is_some none = false
  is_some (some a) = true

  -- COALESCE(a, b), and `if p == nil`.
  abbrev pub or_else : Option A → Option A → Option A
  or_else none b = b
  or_else (some a) b = some a

  abbrev pub from_option : A → Option A → A
  from_option d none = d
  from_option d (some a) = a

-- `column = n`, which no NULL meets.
abbrev pub opt_is : ℕ → Option ℕ → Bool
opt_is n none = false
opt_is n (some m) = m == n

-- `column IS v`.
abbrev pub opt_eq : Option ℕ → Option ℕ → Bool
opt_eq none none = true
opt_eq none (some b) = false
opt_eq (some a) none = false
opt_eq (some a) (some b) = a == b

-- `nz` of backend/internal/pipeline/seerr.go, and NULLIF(n, 0).
abbrev pub nz : ℕ → Option ℕ
nz n = if n == 0 then none else some n

-- Branches on an optional value and on a test, with the rules that follow them in a proof.
module _ {ℓ κ} {A : Type ℓ} {B : Type κ} where
  abbrev pub maybe : Option A → B → (A → B) → B
  maybe none n s = n
  maybe (some a) n s = s a

module _ {ℓ κ ι} {A : Type ℓ} {B : Type κ} where
  pub maybe_case :
      (P : B → Type ι) (o : Option A) {n : B} {s : A → B}
      → P n
      → ((a : A) → o ≡ some a → P (s a))
      → P (maybe o n s)
  maybe_case P none hn hs = hn
  maybe_case P (some a) hn hs = hs a refl

module _ {ℓ κ} {A : Type ℓ} where
  pub if_case :
      (P : A → Type κ) (b : Bool) {x y : A}
      → (b ≡ true → P x)
      → (b ≡ false → P y)
      → P (if b then x else y)
  if_case P true hx hy = hx refl
  if_case P false hx hy = hy refl
