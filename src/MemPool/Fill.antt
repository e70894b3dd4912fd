-- ===== src/MemPool/Fill.antt =====
-- The loops of mem_pool.c that put the blocks of a piece of memory onto the stack.
use freertos_addons.Prelude.{
  ℕ, zero, suc, ◌+◌, ◌*◌, ◌≤◌, ◌<◌, ◌≡◌, ◌≢◌, refl, ◌⊎◌, inl, inr, true, false, List, [], ◌∷◌,
  arith, length, has, ◌==◌, int_max, Bool-cases, leb, ◌-◌,
}
use mathlib.Core.Path.{subst}
use freertos_addons.Machine.{ok}
use freertos_addons.Memory.{Ptr, null, Mem}
use freertos_addons.Slist.Chain.{IsFree}
use freertos_addons.Stack.{head_of}
use freertos_addons.Stack.Lifo.{IsStack, push_on_stack-LeavesStack}
use freertos_addons.Stack.Runs.{IsMapped, IsMapped-kept}
use freertos_addons.World.{World}
use freertos_addons.MemPool.{push_blocks, push_static}

-- The stack `xs` after `n` blocks of `size` bytes from `ptr` on, the last one on top.
abbrev pub stacked : (n ptr size : ℕ) → List Ptr → List Ptr
stacked zero ptr size xs = xs
stacked (suc n) ptr size xs = stacked n (ptr + size) size (ptr ∷ xs)

-- Every block stands at its place, at a multiple of the size from the first.
pub has-stacked :
    (n ptr size a : ℕ) (xs : List Ptr)
    → has a (stacked n ptr size xs) ≡ true
    → ((i : ℕ) × (i < n) × (a ≡ ptr + i * size)) ⊎ (has a xs ≡ true)
has-stacked zero ptr size a xs h = inr h
has-stacked (suc n) ptr size a xs h = elim (has-stacked n (ptr + size) size a (ptr ∷ xs) h) [
  | inl (i, lt, e) ↦ inl (suc i, omega arith, omega arith)
  | inr there ↦ elim (Bool-cases (a == ptr)) [
    | inl here ↦ inl (0, omega arith, ground arith)
    | inr other ↦ inr (ground arith)
  ]
]

pub length-stacked :
    (n ptr size : ℕ) (xs : List Ptr) → length (stacked n ptr size xs) ≡ n + length xs
length-stacked zero ptr size xs = omega arith
length-stacked (suc n) ptr size xs = omega (arith, length-stacked n (ptr + size) size (ptr ∷ xs))

-- What the loops need: memory for the header of each of `n` blocks from `ptr` on, which are not on
-- the stack.
pub record CanFill (m : Mem) (stack ptr size n : ℕ) (xs : List Ptr) : Type 0 where
  pub holds : IsStack m stack xs
  pub positive : 0 < size
  pub ne_null : ptr ≢ null
  pub apart : (i : ℕ) → i < n → has (ptr + i * size) (head_of stack ∷ xs) ≡ false
  pub mapped : (i : ℕ) → i < n → IsMapped m (ptr + i * size)
  pub counts : length xs + n ≤ int_max

pub fill_free :
    (m : Mem) (stack ptr size n : ℕ) (xs : List Ptr)
    → CanFill m stack ptr size (suc n) xs
    → IsFree m (head_of stack ∷ xs) ptr
fill_free m stack ptr size n xs can =
    let first : IsMapped m ptr = subst (IsMapped m) (omega arith) (can.mapped 0 (omega arith)) in
    record {
      ne_null = can.ne_null;
      outside =
          subst (λ a. has a (head_of stack ∷ xs) ≡ false) (omega arith) (can.apart 0 (omega arith));
      old = first.0;
      mapped = first.1;
    }

pub fill_next :
    (m : Mem) (stack ptr size n : ℕ) (xs : List Ptr)
    → CanFill m stack ptr size (suc n) xs
    → (m' : Mem) → IsStack m' stack (ptr ∷ xs)
    → ((a : Ptr) → IsMapped m a → IsMapped m' a)
    → CanFill m' stack (ptr + size) size n (ptr ∷ xs)
fill_next m stack ptr size n xs can m' holds kept = record {
  holds = holds;
  positive = can.positive;
  ne_null = λ e. can.ne_null (omega arith);
  apart = λ i lt.
      let old : has (ptr + size + i * size) (head_of stack ∷ xs) ≡ false =
        subst (λ a. has a (head_of stack ∷ xs) ≡ false) (omega arith)
          (can.apart (suc i) (omega arith)) in
      let other : (ptr + size + i * size == ptr) ≡ false = ground (arith, can.positive) in
      ground arith;
  mapped = λ i lt.
      let at = can.mapped (suc i) (omega arith) in
      kept (ptr + size + i * size) (subst (IsMapped m) (omega arith) at);
  counts = omega (arith, can.counts);
}

-- The loop of CreateMemoryPool puts every block on the stack.
pub push_blocks_lem :
    {K : Type 0} (n : ℕ) (w : World K) (stack ptr size : ℕ) (xs : List Ptr)
    → CanFill w.mem stack ptr size n xs
    → (m' : Mem) × (push_blocks n stack ptr size w ≡ ok tt (record w { mem = m' }))
      × IsStack m' stack (stacked n ptr size xs)
unfolding push_blocks
push_blocks_lem zero w stack ptr size xs can = (w.mem, refl, can.holds)
push_blocks_lem (suc n) w stack ptr size xs can =
    let pushed =
      push_on_stack-LeavesStack w.mem stack xs ptr can.holds
        (fill_free w.mem stack ptr size n xs can) (omega (arith, can.counts)) in
    let kept = IsMapped-kept stack _ _ pushed.only pushed.holds.chain (λ a i. ground arith) in
    let next = fill_next w.mem stack ptr size n xs can pushed.after pushed.holds kept in
    let (m', ran, s) =
      push_blocks_lem n (record w { mem = pushed.after }) stack (ptr + size) size (ptr ∷ xs) next in
    (m', rw pushed.runs ran, s)

-- The loop of CreateMemoryPoolStatic ends, in one round more than there is room for blocks, and
-- puts as many blocks on the stack as fit.
pub push_static_lem :
    {K : Type 0} (n fuel left : ℕ) (w : World K) (stack ptr size : ℕ) (xs : List Ptr)
    → CanFill w.mem stack ptr size n xs
    → n * size ≤ left
    → left < n * size + size
    → n < fuel
    → (m' : Mem) × (push_static fuel stack ptr left size w ≡ ok tt (record w { mem = m' }))
      × IsStack m' stack (stacked n ptr size xs)
unfolding push_static
push_static_lem n zero left w stack ptr size xs can room short enough = absurd (omega arith)
push_static_lem zero (suc fuel) left w stack ptr size xs can room short enough =
    let test : leb size left ≡ false = ground arith in (w.mem, rw test refl, can.holds)
push_static_lem (suc n) (suc fuel) left w stack ptr size xs can room short enough =
    let test : leb size left ≡ true = ground arith in
    let pushed =
      push_on_stack-LeavesStack w.mem stack xs ptr can.holds
        (fill_free w.mem stack ptr size n xs can) (omega (arith, can.counts)) in
    let kept = IsMapped-kept stack _ _ pushed.only pushed.holds.chain (λ a i. ground arith) in
    let next = fill_next w.mem stack ptr size n xs can pushed.after pushed.holds kept in
    let (m', ran, s) =
      push_static_lem n fuel (left - size) (record w { mem = pushed.after }) stack (ptr + size) size
        (ptr ∷ xs) next (omega arith) (omega arith) (omega arith) in
    (m', rw (test, pushed.runs) ran, s)

-- Blocks that are not the same do not overlap.
pub stacked_apart :
    (n ptr size a b : ℕ)
    → has a (stacked n ptr size []) ≡ true
    → has b (stacked n ptr size []) ≡ true
    → a < b
    → a + size ≤ b
stacked_apart n ptr size a b ha hb lt = elim (has-stacked n ptr size a [] ha) [
  | inl (i, _, ea) ↦ elim (has-stacked n ptr size b [] hb) [
    | inl (j, _, eb) ↦
        let less : i < j = grind arith in
        let room : i * size + size ≤ j * size = grind arith in omega arith
    | inr none ↦ cc
  ]
  | inr none ↦ cc
]

-- The blocks stand within `n * size` bytes from `ptr` on.
pub stacked_within :
    (n ptr size a : ℕ)
    → has a (stacked n ptr size []) ≡ true
    → (ptr ≤ a) × (a + size ≤ ptr + n * size)
stacked_within n ptr size a h = elim (has-stacked n ptr size a [] h) [
  | inl (i, lt, e) ↦
      let room : i * size + size ≤ n * size = grind arith in (omega arith, omega arith)
  | inr none ↦ cc
]
