-- ===== src/Prelude/Lists.antt =====
-- Lists of addresses: length, Boolean membership, distinctness, the last element.
use Prim.Native.Nat.{ℕ, suc, ◌+◌, ◌≤◌}
use mathlib.Core.Path.{◌≡◌, refl, ap}
use mathlib.Core.Logic.{◌≢◌, inl, inr}
use mathlib.Core.Bool.{Bool, true, false, ◌||◌}
use mathlib.Core.List.{List, [], ◌∷◌, ◌++◌}
use native.Mathlib.Omega.{arith}
use freertos_addons.Prelude.Tests.{◌==◌, if◌then◌else◌, Bool-cases}

abbrev pub length {ℓ} : {A : Type ℓ} → List A → ℕ
length [] = 0
length (x ∷ xs) = suc (length xs)

pub length-append {ℓ} : {A : Type ℓ} (xs ys : List A) → length (xs ++ ys) ≡ length xs + length ys
length-append [] ys = omega arith
length-append (x ∷ xs) ys = omega (arith, length-append xs ys)

-- Whether `a` is an element.
abbrev pub has : ℕ → List ℕ → Bool
has a [] = false
has a (x ∷ xs) = (a == x) || has a xs

pub has-append : (a : ℕ) (front back : List ℕ) → has a (front ++ back) ≡ (has a front || has a back)
has-append a (b ∷ rest) back = ground (arith, has-append a rest back)
has-append a [] back = refl

abbrev pub Distinct : List ℕ → Type 0
Distinct [] = Unit
Distinct (x ∷ xs) = (has x xs ≡ false) × Distinct xs

-- The last of `x ∷ xs`.
abbrev pub last_of : ℕ → List ℕ → ℕ
last_of x [] = x
last_of x (y ∷ ys) = last_of y ys

-- `x ∷ xs` less its last.
abbrev pub init_of : ℕ → List ℕ → List ℕ
init_of x [] = []
init_of x (y ∷ ys) = x ∷ init_of y ys

pub init_of-last_of : (x : ℕ) (xs : List ℕ) → init_of x xs ++ last_of x xs ∷ [] ≡ x ∷ xs
init_of-last_of x [] = refl
init_of-last_of x (y ∷ ys) = λ i. x ∷ init_of-last_of y ys i

pub last_of-append : (x y : ℕ) (xs : List ℕ) → last_of x (xs ++ y ∷ []) ≡ y
last_of-append x y [] = refl
last_of-append x y (z ∷ xs) = last_of-append z y xs

pub init_of-append : (x y : ℕ) (xs : List ℕ) → init_of x (xs ++ y ∷ []) ≡ x ∷ xs
init_of-append x y [] = refl
init_of-append x y (z ∷ xs) = λ i. x ∷ init_of-append z y xs i

pub ne_of_has : (a b : ℕ) (xs : List ℕ) → has a xs ≡ true → has b xs ≡ false → a ≢ b
ne_of_has a b xs i o e = cc (ap (λ (t : ℕ). has t xs) e)

pub Distinct-split :
    (xs ys : List ℕ)
    → Distinct (xs ++ ys)
    → Distinct xs × Distinct ys × ((a : ℕ) → has a xs ≡ true → has a ys ≡ false)
Distinct-split [] ys d = (tt, d, λ a i. cc)
Distinct-split (x ∷ xs) ys d =
    let (dx, dy, apart) = Distinct-split xs ys d.1 in
    (
      (ground (arith, d, has-append x xs ys), dx),
      dy,
      λ a i. ground (arith, d, has-append x xs ys, apart a),
    )

pub Distinct-append :
    (xs ys : List ℕ)
    → Distinct xs
    → Distinct ys
    → ((a : ℕ) → has a xs ≡ true → has a ys ≡ false)
    → Distinct (xs ++ ys)
Distinct-append [] ys dx dy apart = dy
Distinct-append (x ∷ xs) ys dx dy apart = (
  ground (arith, dx, has-append x xs ys, apart x),
  Distinct-append xs ys dx.1 dy (λ a i. apart a (ground arith)),
)

pub length-init_of : (x : ℕ) (xs : List ℕ) → length xs ≡ length (init_of x xs)
length-init_of x [] = refl
length-init_of x (y ∷ ys) = ap suc (length-init_of y ys)

-- How often `a` is an element.
abbrev pub times : ℕ → List ℕ → ℕ
times a (b ∷ rest) = (if a == b then 1 else 0) + times a rest
times a [] = 0

pub times-append :
    (a : ℕ) (front back : List ℕ) → times a (front ++ back) ≡ times a front + times a back
times-append a (b ∷ rest) back = omega (arith, times-append a rest back)
times-append a [] back = omega arith

pub times_pos : (a : ℕ) (xs : List ℕ) → has a xs ≡ true → 1 ≤ times a xs
times_pos a [] h = cc
times_pos a (x ∷ xs) h = ground (arith, times_pos a xs)

pub no_times : (a : ℕ) (xs : List ℕ) → times a xs ≡ 0 → has a xs ≡ false
no_times a xs e = elim (Bool-cases (has a xs)) [
  | inl there ↦ absurd (omega (arith, times_pos a xs there))
  | inr gone ↦ gone
]

pub counted-has : (a : ℕ) (xs : List ℕ) → 1 ≤ times a xs → has a xs ≡ true
counted-has a [] le = absurd (omega arith)
counted-has a (x ∷ xs) le = ground (arith, counted-has a xs)
