-- ===== src/MemPool/Sizes.antt =====
-- The sizes that mem_pool.c computes: the alignment, and the size of a block.
use native.Mathlib.Nat.{pow-suc, pow-le-pow_right, div-add-mod', mod-lt}
use native.Mathlib.Decide.{ℕ_discrete}
use native.Mathlib.Numerals.{add-one}
use freertos_addons.Prelude.{
  ℕ, zero, suc, ◌+◌, ◌*◌, ◌/◌, ◌%◌, ◌^◌, ◌≤◌, ◌<◌, ◌≡◌, ◌≢◌, refl, ◌⊎◌, inl, inr, true, false,
  arith, ◌==◌, leb, ltb, none, some, Bool-cases, ℤ, pos, negsuc, int_max, sym, ap, ◌∙◌,
}
use freertos_addons.Machine.{ok}
use freertos_addons.MemPool.{
  at_least_pointer, find_bit, calculate_and_verify_alignment, in_int, calculate_item_size,
}

-- The bit of the next round, which an `int` holds except for the last.
double_bit : (i bit : ℕ) → bit ≡ 2 ^ i → bit * 2 ≡ 2 ^ (i + 1)
double_bit i bit e = ap (λ (t : ℕ). t * 2) e ∙ sym (rw add-one (pow-suc 2 i))

next_fits : (i bit : ℕ) → bit ≡ 2 ^ (i + 1) → i < 30 → leb bit int_max ≡ true
next_fits i bit e small =
    let below : 2 ^ (i + 1) ≤ 2 ^ 30 =
      pow-le-pow_right {n = 2} (omega arith) {i = i + 1} {j = 30} (omega arith) in
    ground arith

not_here :
    (i a bit : ℕ)
    → bit ≡ 2 ^ i
    → (a == bit) ≡ false
    → ((k : ℕ) → i + 1 ≤ k → k < 31 → a ≢ 2 ^ k)
    → (k : ℕ) → i ≤ k
    → k < 31
    → a ≢ 2 ^ k
not_here i a bit e miss later k low high = elim (ℕ_discrete i k) [
  | yes here ↦ λ h. let same = h ∙ ap (λ (t : ℕ). 2 ^ t) (sym here) ∙ sym e in ground arith
  | no other ↦ later k (omega arith) high
]

find_bit_lem :
    (rounds a i bit : ℕ)
    → bit ≡ 2 ^ i
    → i + suc rounds ≡ 31
    → ((j : ℕ) × (find_bit (suc rounds) a i bit ≡ some j) × (j < 31) × (a ≡ 2 ^ j))
      ⊎ ((find_bit (suc rounds) a i bit ≡ none) × ((k : ℕ) → i ≤ k → k < 31 → a ≢ 2 ^ k))
unfolding find_bit
find_bit_lem zero a i bit e total =
    let top : i ≡ 30 = omega arith in
    let last : bit ≡ 2 ^ 30 = e ∙ ap (λ (t : ℕ). 2 ^ t) top in
    elim (Bool-cases (a == bit)) [
      | inl hit ↦ inl (i, rw hit refl, omega arith, ground arith)
      | inr miss ↦
          let over : leb (bit * 2) int_max ≡ false = ground arith in
          inr (rw (miss, over) refl, not_here i a bit e miss (λ k low high. absurd (omega arith)))
    ]
find_bit_lem (suc n) a i bit e total =
    let doubled = double_bit i bit e in
    elim (Bool-cases (a == bit)) [
      | inl hit ↦ inl (i, rw hit refl, omega arith, ground arith)
      | inr miss ↦
          let fits : leb (bit * 2) int_max ≡ true = next_fits i (bit * 2) doubled (omega arith) in
          elim (find_bit_lem n a (i + 1) (bit * 2) doubled (omega arith)) [
            | inl (j, ran, low, at) ↦ inl (j, rw (miss, fits) ran, low, at)
            | inr (ran, none_left) ↦ inr (rw (miss, fits) ran, not_here i a bit e miss none_left)
          ]
    ]

-- CalculateItemSize of an item of `n` bytes and a positive alignment `a`, where `n + 2 * a` fits an
-- `int`, returns a multiple of the alignment that has room for the item behind a header of one
-- alignment unit, and is at most `n + 2 * a`.
pub calculate_item_size_lem :
    {S : Type 0} (n a : ℕ) (s : S)
    → 0 < a
    → n + 2 * a ≤ int_max
    → (c : ℕ) × (calculate_item_size (pos n) a s ≡ ok (c * a) s)
      × (n + a ≤ c * a)
      × (c * a ≤ n + 2 * a)
unfolding calculate_item_size in_int
calculate_item_size_lem n a s positive fits =
    let divided = div-add-mod' n a in
    let small = mod-lt n positive in
    elim (Bool-cases (leb n a)) [
      | inl le ↦ (2, rw le (ground arith), ground arith, omega arith)
      | inr gt ↦ elim (Bool-cases (n % a == 0)) [
        | inl whole ↦
            let fit : leb ((n / a + 1) * a) int_max ≡ true = ground arith in
            (n / a + 1, rw (gt, whole, fit) refl, ground arith, omega arith)
        | inr part ↦
            let fit : leb ((n / a + 1 + 1) * a) int_max ≡ true = ground arith in
            (n / a + 1 + 1, rw (gt, part, fit) refl, omega arith, omega arith)
      ]
    ]

-- An `int` below a bound.
abbrev pub IsBelow : ℕ → ℤ → Type 0
IsBelow m (pos n) = n < m
IsBelow m (negsuc n) = Unit

-- What is less than the size of a pointer is taken for 8.
pub at_least_8 :
    (alignment : ℤ)
    → ((at_least_pointer alignment ≡ 8) × IsBelow 8 alignment)
      ⊎ ((alignment ≡ pos (at_least_pointer alignment)) × (8 ≤ at_least_pointer alignment))
unfolding at_least_pointer
at_least_8 (negsuc n) = inl (refl, tt)
at_least_8 (pos n) = elim (Bool-cases (ltb n 8)) [
  | inl small ↦ rw small (inl (refl, ground arith))
  | inr large ↦ rw large (inr (refl, ground arith))
]

three_le : (k : ℕ) → 8 ≤ 2 ^ k → 3 ≤ k
three_le k le = elim (Bool-cases (leb 3 k)) [
  | inl large ↦ ground arith
  | inr less ↦
      let small : 2 ^ k ≤ 2 ^ 2 =
        pow-le-pow_right {n = 2} (omega arith) {i = k} {j = 2} (ground arith) in
      absurd (omega arith)
]

-- CalculateAndVerifyAlignment either returns a power of two from 8 to 2^30, which is its argument,
-- or is 8 where the argument is less than 8; or its loop shifts a bit out of the `int`, and then
-- the argument is more than 8 and none of the powers of two up to 2^30.
pub calculate_and_verify_alignment_lem :
    (alignment : ℤ)
    → ((k : ℕ) × (calculate_and_verify_alignment alignment ≡ some (2 ^ k))
        × (3 ≤ k)
        × (k < 31)
        × ((alignment ≡ pos (2 ^ k)) ⊎ ((k ≡ 3) × IsBelow 8 alignment)))
      ⊎ ((calculate_and_verify_alignment alignment ≡ none)
          × (n : ℕ) × (alignment ≡ pos n)
          × (8 < n)
          × ((k : ℕ) → k < 31 → n ≢ 2 ^ k))
unfolding calculate_and_verify_alignment find_bit
calculate_and_verify_alignment_lem alignment =
    let a = at_least_pointer alignment in
    elim (at_least_8 alignment) [
      | inl (e, below) ↦ inl (3, rw e refl, omega arith, omega arith, inr (refl, below))
      | inr (e, le) ↦ elim (find_bit_lem 30 a 0 1 refl refl) [
        | inl (j, ran, low, at) ↦
            let test : leb 31 j ≡ false = ground arith in
            inl (
              j,
              rw (ran, test) (ap some at),
              three_le j (omega (arith, at, le)),
              low,
              inl (e ∙ ap pos at),
            )
        | inr (ran, none_left) ↦ inr (
          rw ran refl,
          a,
          e,
          (let ne = none_left 3 (omega arith) (omega arith) in ground arith),
          λ k high. none_left k (omega arith) high,
        )
      ]
    ]

-- An alignment that CalculateAndVerifyAlignment accepts is at least the size of a pointer.
pub accepted_alignment :
    (alignment : ℤ) (a : ℕ) → calculate_and_verify_alignment alignment ≡ some a → 8 ≤ a
accepted_alignment alignment a e = elim (calculate_and_verify_alignment_lem alignment) [
  | inl (k, ran, low, high, which) ↦
      let same : 2 ^ k ≡ a = cc (ran, e) in
      let big : 2 ^ 3 ≤ 2 ^ k = pow-le-pow_right {n = 2} (omega arith) {i = 3} {j = k} low in
      omega arith
  | inr (ran, _, _, _, _) ↦ absurd (cc (ran, e))
]
