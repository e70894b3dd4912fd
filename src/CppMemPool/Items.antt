-- ===== src/CppMemPool/Items.antt =====
-- The blocks that the loops of MemoryPool append to the list of the free ones.
use freertos_addons.Prelude.{
  ℕ, zero, suc, ◌+◌, ◌-◌, ◌*◌, ◌≤◌, ◌<◌, ◌≡◌, refl, ap, ◌∙◌, sym, true, false, Bool-cases, inl, inr,
  ◌==◌, leb, arith, List, [], ◌∷◌, ◌++◌, has, length, append_assoc, append-nil,
}
use freertos_addons.Machine.{ok}
use freertos_addons.Memory.{Ptr}
use freertos_addons.MemPool.Create.{Placed}
use freertos_addons.CppMemPool.{Pool, PoolState, push_back, push_items, push_region}

-- `n` blocks of `size` bytes, one behind the other, in the order of their addresses.
abbrev pub row : (n address size : ℕ) → List Ptr
row zero address size = []
row (suc n) address size = address ∷ row n (address + size) size

pub length-row : (n address size : ℕ) → length (row n address size) ≡ n
length-row zero address size = refl
length-row (suc n) address size = ap suc (length-row n (address + size) size)

-- Each block stands at a multiple of the size from the first.
pub has-row :
    (n address size a : ℕ)
    → has a (row n address size) ≡ true
    → (i : ℕ) × (i < n) × (a ≡ address + i * size)
has-row zero address size a h = cc
has-row (suc n) address size a h = elim (Bool-cases (a == address)) [
  | inl here ↦ (0, omega arith, ground arith)
  | inr other ↦
      let (i, lt, e) = has-row n (address + size) size a (ground arith) in
      (suc i, omega arith, omega arith)
]

pub row-Placed :
    (n address size to : ℕ) → address + n * size ≤ to → Placed address to size (row n address size)
row-Placed n address size to room = record {
  within = λ a i.
      let (k, lt, e) = has-row n address size a i in
      let fits : k * size + size ≤ n * size = grind arith in (omega arith, omega arith);
  apart = λ a b i j lt.
      let (k, _, e) = has-row n address size a i in
      let (m, _, e') = has-row n address size b j in
      let less : k < m = grind arith in
      let fits : k * size + size ≤ m * size = grind arith in omega arith;
}

-- `xs` behind the free blocks.
abbrev pub with_items : Pool → List Ptr → Pool
with_items pool xs = record pool { free_items = pool.free_items ++ xs }

pub with_items-with_items :
    (pool : Pool) (x : Ptr) (xs : List Ptr)
    → with_items (push_back x pool) xs ≡ with_items pool (x ∷ xs)
with_items-with_items pool x xs =
    ap (λ (ys : List Ptr). record pool { free_items = ys })
      (append_assoc pool.free_items (x ∷ []) xs)

pub with_items-nil : (pool : Pool) → with_items pool [] ≡ pool
with_items-nil pool =
    ap (λ (ys : List Ptr). record pool { free_items = ys }) (append-nil pool.free_items)

pub push_items_lem :
    (n address size : ℕ) (pool : Pool)
    → push_items n address size pool ≡ with_items pool (row n address size)
unfolding push_items
push_items_lem zero address size pool = sym (with_items-nil pool)
push_items_lem (suc n) address size pool =
    push_items_lem n (address + size) size (push_back address pool)
    ∙ with_items-with_items pool address (row n (address + size) size)

-- With a round more than there are blocks the loop ends, and the blocks are those that fit.
pub push_region_lem :
    {K : Type 0} (n fuel address left size : ℕ) (s : PoolState K)
    → n * size ≤ left
    → left < n * size + size
    → n < fuel
    → push_region fuel address left size s
      ≡ ok tt (record s { pool = with_items s.pool (row n address size) })
unfolding push_region
push_region_lem n zero address left size s room short enough = absurd (omega arith)
push_region_lem zero (suc fuel) address left size s room short enough =
    let test : leb size left ≡ false = ground arith in
    rw test (ap (λ (p : Pool). ok tt (record s { pool = p })) (sym (with_items-nil s.pool)))
push_region_lem (suc n) (suc fuel) address left size s room short enough =
    let test : leb size left ≡ true = ground arith in
    rw test (
      push_region_lem n fuel (address + size) (left - size) size
        (record s { pool = push_back address s.pool }) (omega arith) (omega arith) (omega arith)
      ∙ ap (λ (p : Pool). ok tt (record s { pool = p }))
          (with_items-with_items s.pool address (row n (address + size) size)))
