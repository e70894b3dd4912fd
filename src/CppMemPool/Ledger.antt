-- ===== src/CppMemPool/Ledger.antt =====
-- Blocks that are in use: Allocate and Free called in any order by tasks that give back what they
-- hold.
use freertos_addons.Prelude.{
  ℕ, zero, suc, ◌+◌, ◌*◌, ◌≤◌, ◌<◌, ◌⊎◌, ltb, ne_of_has, ◌≡◌, ◌≢◌, refl, true, false, Bool-cases,
  inl, inr, arith, ◌==◌, if◌then◌else◌, List, [], ◌∷◌, ◌++◌, has, times, times-append, times_pos,
  no_times, counted-has, ap, ◌∙◌, sym, Option, none, some,
}
use freertos_addons.Machine.{ok}
use freertos_addons.Memory.{Ptr, null}
use freertos_addons.Rtos.{Rtos}
use freertos_addons.MemPool.Create.{Placed}
use freertos_addons.CppMemPool.Items.{row, row-Placed}
use freertos_addons.CppMemPool.{
  Pool, PoolState, front, tail, push_back, pop_front, guarded, guarded_run, allocate, free,
}

-- The list less its first `a`.
abbrev pub erase : Ptr → List Ptr → List Ptr
erase a [] = []
erase a (x ∷ xs) = if a == x then xs else x ∷ erase a xs

times-erase :
    (a b : Ptr) (xs : List Ptr)
    → has b xs ≡ true
    → times a xs ≡ (if a == b then 1 else 0) + times a (erase b xs)
times-erase a b [] h = cc
times-erase a b (x ∷ xs) h = ground (arith, times-erase a b xs)

-- The pool, and the blocks that are in use.
pub record Ledger (K : Type 0) : Type 0 where
  pub state : PoolState K
  pub in_use : List Ptr

pub data Step (os : Rtos) : Ledger os.Kernel → Ledger os.Kernel → Type 0 where
  allocated :
      (l : Ledger os.Kernel) (item : Ptr) (s' : PoolState os.Kernel)
      → item ≢ null
      → allocate os l.state ≡ ok item s'
      → Step os l (record { state = s'; in_use = item ∷ l.in_use })
  refused :
      (l : Ledger os.Kernel) (s' : PoolState os.Kernel)
      → allocate os l.state ≡ ok null s'
      → Step os l (record { state = s'; in_use = l.in_use })
  freed :
      (l : Ledger os.Kernel) (item : Ptr) (s' : PoolState os.Kernel)
      → has item l.in_use ≡ true
      → free os item l.state ≡ ok tt s'
      → Step os l (record { state = s'; in_use = erase item l.in_use })

pub data Reach (os : Rtos) (l : Ledger os.Kernel) : Ledger os.Kernel → Type 0 where
  here : Reach os l l
  next : {m n : Ledger os.Kernel} → Reach os l m → Step os m n → Reach os l n

-- How often `a` is in the pool or in use.
abbrev pub held_in_all : {K : Type 0} → Ptr → Ledger K → ℕ
held_in_all a l = times a l.state.pool.free_items + times a l.in_use

guarded_run_ok :
    (os : Rtos) {A : Type 0} (body : Pool → A × Pool) (s : PoolState os.Kernel)
    (o : Option os.Kernel) {a : A} {s' : PoolState os.Kernel}
    → guarded_run os body s o ≡ ok a s'
    → ((body s.pool).0 ≡ a) × (s'.pool ≡ (body s.pool).1)
guarded_run_ok os body s none e = cc
guarded_run_ok os body s (some k) e = (cc, cc)

allocate_ok :
    (os : Rtos) (s : PoolState os.Kernel) {item : Ptr} {s' : PoolState os.Kernel}
    → allocate os s ≡ ok item s'
    → (front s.pool.free_items ≡ item) × (s'.pool.free_items ≡ tail s.pool.free_items)
unfolding allocate guarded
allocate_ok os s e =
    let (got, left) = guarded_run_ok os pop_front s (os.take s.pool.lock s.kernel) e in
    (got, ap (λ (p : Pool). p.free_items) left)

free_ok :
    (os : Rtos) (s : PoolState os.Kernel) (item : Ptr) {s' : PoolState os.Kernel}
    → free os item s ≡ ok tt s'
    → s'.pool.free_items ≡ s.pool.free_items ++ item ∷ []
unfolding free guarded
free_ok os s item e =
    let (_, left) =
      guarded_run_ok os (λ pool. (tt, push_back item pool)) s (os.take s.pool.lock s.kernel) e in
    ap (λ (p : Pool). p.free_items) left

front_counted :
    (a : Ptr) (xs : List Ptr)
    → front xs ≢ null
    → times a xs ≡ (if a == front xs then 1 else 0) + times a (tail xs)
front_counted a [] ne = absurd (ne refl)
front_counted a (x ∷ xs) ne = refl

null_dropped :
    (a : Ptr) (xs : List Ptr) → a ≢ null → front xs ≡ null → times a xs ≡ times a (tail xs)
null_dropped a [] ne e = refl
null_dropped a (x ∷ xs) ne e = ground arith

step_total :
    (a item first n m : ℕ)
    → first ≡ item
    → n + ((if a == item then 1 else 0) + m) ≡ (if a == first then 1 else 0) + n + m
step_total a item first n m e = ground arith

Step-conserves :
    (os : Rtos) {l m : Ledger os.Kernel} (a : Ptr)
    → a ≢ null
    → Step os l m
    → held_in_all a m ≡ held_in_all a l
Step-conserves os a na (allocated l item s' ne e) =
    let (got, left) = allocate_ok os l.state e in
    let counted =
      front_counted a l.state.pool.free_items
        (λ (h : front l.state.pool.free_items ≡ null). ne (sym got ∙ h)) in
    ap (λ (xs : List Ptr). times a xs + times a (item ∷ l.in_use)) left
    ∙ step_total a item (front l.state.pool.free_items) (times a (tail l.state.pool.free_items))
        (times a l.in_use) got
    ∙ ap (λ (n : ℕ). n + times a l.in_use) (sym counted)
Step-conserves os a na (refused l s' e) =
    let (got, left) = allocate_ok os l.state e in
    ap (λ (xs : List Ptr). times a xs + times a l.in_use) left
    ∙ ap (λ (n : ℕ). n + times a l.in_use) (sym (null_dropped a l.state.pool.free_items na got))
Step-conserves os a na (freed l item s' owned e) =
    let left = free_ok os l.state item e in
    ap (λ (xs : List Ptr). times a xs + times a (erase item l.in_use)) left
    ∙ omega (
      arith,
      times-append a l.state.pool.free_items (item ∷ []),
      times-erase a item l.in_use owned,
    )

Reach-conserves :
    (os : Rtos) {l m : Ledger os.Kernel} (a : Ptr)
    → a ≢ null
    → Reach os l m
    → held_in_all a m ≡ held_in_all a l
Reach-conserves os a na here = refl
Reach-conserves os a na (next r st) = Step-conserves os a na st ∙ Reach-conserves os a na r

-- The blocks of a row stand at different addresses.
below_row : (n address size a : ℕ) → a < address → times a (row n address size) ≡ 0
below_row zero address size a lt = refl
below_row (suc n) address size a lt =
    ground (arith, below_row n (address + size) size a (omega arith))

times-row : (n address size a : ℕ) → 0 < size → times a (row n address size) ≤ 1
times-row zero address size a positive = omega arith
times-row (suc n) address size a positive = elim (Bool-cases (a == address)) [
  | inl first ↦
      let rest = below_row n (address + size) size a (ground arith) in
      rw first (omega (arith, rest))
  | inr other ↦ rw other (omega (arith, times-row n (address + size) size a positive))
]

apart_either :
    {from to size : ℕ} {xs : List Ptr}
    → Placed from to size xs
    → (a b : Ptr) → has a xs ≡ true
    → has b xs ≡ true
    → b ≢ a
    → (b + size ≤ a) ⊎ (a + size ≤ b)
apart_either p a b i j ne = elim (Bool-cases (ltb a b)) [
  | inl lt ↦ inr (p.apart a b i j (ground arith))
  | inr ge ↦ inl (p.apart b a j i (ground arith))
]

-- What Allocate returns is neither in use nor still in the pool.
allocate_fresh :
    (os : Rtos) (m : Ledger os.Kernel) (item : Ptr) (s' : PoolState os.Kernel)
    → held_in_all item m ≤ 1
    → allocate os m.state ≡ ok item s'
    → item ≢ null
    → (has item m.in_use ≡ false) × (has item m.state.pool.free_items ≡ true)
allocate_fresh os m item s' once e ne =
    let (got, left) = allocate_ok os m.state e in
    let counted =
      front_counted item m.state.pool.free_items
        (λ (h : front m.state.pool.free_items ≡ null). ne (sym got ∙ h)) in
    let one : 1 ≤ times item m.state.pool.free_items = ground arith in
    (no_times item m.in_use (omega arith), counted-has item m.state.pool.free_items one)

-- After any sequence of Allocate and Free calls on a MemoryPool whose free blocks are `n` blocks of
-- `size` bytes from `address` on and of which none is in use, where the callers free blocks that
-- are in use: a block that Allocate returns lies within the `n` blocks, and does not overlap any
-- block that is in use, `NULL` aside.
pub allocate_apart :
    (os : Rtos) {l m : Ledger os.Kernel} (n address size : ℕ) (item : Ptr)
    (s' : PoolState os.Kernel)
    → l.state.pool.free_items ≡ row n address size
    → l.in_use ≡ []
    → 0 < size
    → Reach os l m
    → allocate os m.state ≡ ok item s'
    → item ≢ null
    → (address ≤ item)
      × (item + size ≤ address + n * size)
      × ((b : Ptr) → has b m.in_use ≡ true → b ≢ null → (b + size ≤ item) ⊎ (item + size ≤ b))
allocate_apart os {l} {m} n address size item s' fresh unused positive r e ne =
    let total = λ (a : Ptr) (na : a ≢ null).
      Reach-conserves os a na r
      ∙ ap (λ (xs : List Ptr). times a xs + times a l.in_use) fresh
      ∙ ap (λ (xs : List Ptr). times a (row n address size) + times a xs) unused in
    let placed = row-Placed n address size (address + n * size) (omega arith) in
    let once : held_in_all item m ≤ 1 =
      omega (arith, total item ne, times-row n address size item positive) in
    let (new, stored) = allocate_fresh os m item s' once e ne in
    let inside = λ (a : Ptr) (na : a ≢ null) (there : 1 ≤ held_in_all a m).
      counted-has a (row n address size) (omega (arith, total a na)) in
    let item_in = inside item ne (omega (arith, times_pos item m.state.pool.free_items stored)) in
    let (low, high) = placed.within item item_in in
    (
      low,
      high,
      λ b used nb.
          let b_in = inside b nb (omega (arith, times_pos b m.in_use used)) in
          apart_either placed item b item_in b_in (ne_of_has b item m.in_use used new),
    )
