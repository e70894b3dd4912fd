-- ===== src/MemPool/Extra.antt =====
-- AddExtraMemoryToPool, AddExtraMemoryToPoolStatic, and a block that is allocated and freed again.
use freertos_addons.Prelude.{
  ℕ, zero, suc, ◌+◌, ◌*◌, ◌≤◌, ◌<◌, ◌^◌, ◌≡◌, ◌≢◌, refl, inl, inr, true, false, some, List, [], ◌∷◌,
  arith, length, has, ◌==◌, int_max, sym, ap, ◌∙◌, leb, ℤ, pos, rounds_of, Bool-cases, Bool, Option,
}
use freertos_addons.Machine.{ok, ◌>>=◌, and_then-eq-ok, ok_state}
use freertos_addons.Memory.{Ptr, null}
use freertos_addons.Memory.Path
use freertos_addons.Memory.Path.{first_or}
use freertos_addons.Rtos.{Rtos, IsRtos}
use freertos_addons.Slist.Chain.{IsFree}
use freertos_addons.Stack.{head_of, push_on_stack}
use freertos_addons.Stack.Lifo.{push_on_stack-LeavesStack}
use freertos_addons.Stack.Runs.{IsMapped-kept}
use freertos_addons.World
use freertos_addons.World.{
  World, PoolInfo, Fresh, malloc, get_info, inside, give, obtained, on_mem, buffer_offset, int_size,
  pointer_size,
}
use freertos_addons.World.Locks.{
  SameLocks, get_info_lem, get_info_ok, on_mem_pool, wait_pool, held, take_held, given_SameLocks,
}
use freertos_addons.MemPool.{
  stack_of, push_locked, push_extra, product, add_extra_memory_to_pool,
  add_extra_memory_to_pool_static, memory_pool_allocate, memory_pool_free,
}
use freertos_addons.MemPool.Blocks.{
  IsPool, LeavesPool, memory_pool_allocate-LeavesPool, memory_pool_free-LeavesPool,
}
use freertos_addons.MemPool.Fill.{CanFill, stacked, fill_free, fill_next}

module _ (os : Rtos) (laws : IsRtos os) where
  -- One round: the block goes onto the stack under the lock.
  push_locked-LeavesPool :
      (w : World os.Kernel) (pool : Ptr) (info : PoolInfo) (node : Ptr) (xs : List Ptr)
      → IsPool os w pool info xs
      → IsFree w.mem (head_of (stack_of pool) ∷ xs) node
      → length xs < int_max
      → LeavesPool os w pool info
          (push_locked os pool node w)
          tt
          (head_of (stack_of pool) ∷ node ∷ [])
          (node ∷ xs)
  unfolding push_locked give
  push_locked-LeavesPool w pool info node xs p free small =
      let k = held os laws info.lock w.kernel p.unlocked in
      let same = given_SameLocks os laws info.lock w.kernel p.unlocked in
      let pushed = push_on_stack-LeavesStack w.mem (stack_of pool) xs node p.stack free small in
      let w₁ : World os.Kernel = record w { mem = pushed.after; kernel = k } in
      record {
        after = record w { mem = pushed.after; kernel = os.give info.lock k };
        runs =
            rw
              (
                get_info_lem w pool p.ne_null p.fields,
                take_held os laws info.lock w.kernel p.unlocked w refl,
                pushed.runs,
                get_info_lem w₁ pool p.ne_null p.fields,
              )
              refl;
        holds = record {
          ne_null = p.ne_null;
          fields = p.fields;
          unlocked = same info.lock ∙ p.unlocked;
          stack = pushed.holds;
        };
        locks = same;
        only = pushed.only;
        rest = refl;
      }

  -- The loop of AddExtraMemoryToPool puts every block on the stack.
  push_extra_lem :
      (n : ℕ) (w : World os.Kernel) (pool : Ptr) (info : PoolInfo) (ptr : Ptr) (xs : List Ptr)
      → IsPool os w pool info xs
      → CanFill w.mem (stack_of pool) ptr info.item_size n xs
      → (w' : World os.Kernel) × (push_extra os n pool ptr w ≡ ok tt w')
        × IsPool os w' pool info (stacked n ptr info.item_size xs)
        × SameLocks os w.kernel w'.kernel
  unfolding push_extra
  push_extra_lem zero w pool info ptr xs p can = (w, refl, p, λ a. refl)
  push_extra_lem (suc n) w pool info ptr xs p can =
      let size = info.item_size in
      let done =
        push_locked-LeavesPool w pool info ptr xs p
          (fill_free w.mem (stack_of pool) ptr size n xs can) (omega (arith, can.counts)) in
      let kept =
        IsMapped-kept (stack_of pool) _ _ done.only done.holds.stack.chain (λ a i. ground arith) in
      let next =
        fill_next w.mem (stack_of pool) ptr size n xs can done.after.mem done.holds.stack kept in
      let (w', ran, p', locks) =
        push_extra_lem n done.after pool info (ptr + size) (ptr ∷ xs) done.holds next in
      (
        w',
        rw (done.runs, get_info_lem done.after pool done.holds.ne_null done.holds.fields) ran,
        p',
        λ a. locks a ∙ done.locks a,
      )

module _ (os : Rtos) where
  -- A round that returns leaves the structure as it was.
  push_locked_pool :
      (w : World os.Kernel) (pool node : Ptr) {w' : World os.Kernel}
      → push_locked os pool node w ≡ ok tt w'
      → w'.pool ≡ w.pool
  unfolding push_locked give World.take
  push_locked_pool w pool node e =
      let (info, w₁, e₁, r₁) = and_then-eq-ok (get_info pool w) _ e in
      let (_, w₂, e₂, r₂) = and_then-eq-ok (World.take os info.lock w₁) _ r₁ in
      let (_, w₃, e₃, r₃) = and_then-eq-ok (on_mem (push_on_stack (stack_of pool) node) w₂) _ r₂ in
      let (info', w₄, e₄, r₄) = and_then-eq-ok (get_info pool w₃) _ r₃ in
      ap (λ (r : World os.Kernel). r.pool) (sym (ok_state r₄))
      ∙ ap (λ (r : World os.Kernel). r.pool) (get_info_ok w₃ pool e₄).1
      ∙ on_mem_pool w₂ (push_on_stack (stack_of pool) node w₂.mem) e₃
      ∙ wait_pool os w₁ (os.take info.lock w₁.kernel) e₂
      ∙ ap (λ (r : World os.Kernel). r.pool) (get_info_ok w pool e₁).1

  -- AddExtraMemoryToPoolStatic never returns, in any number of rounds, from a state in which the
  -- structure of the pool is mapped and the memory has at least the size of one block: its loop
  -- tests a size that the loop does not change.
  pub add_extra_static_diverges :
      (fuel : ℕ) (w : World os.Kernel) (pool memory : Ptr) (info : PoolInfo) (memory_size : ℤ)
      → (w.pool pool ≡ some info)
      → info.item_size ≤ rounds_of memory_size
      → (passed : Bool) (w' : World os.Kernel)
      → ¬ (add_extra_memory_to_pool_static os fuel pool memory memory_size w ≡ ok passed w')
  unfolding add_extra_memory_to_pool_static
  add_extra_static_diverges zero w pool memory info memory_size at room passed w' e = cc
  add_extra_static_diverges (suc fuel) w pool memory info memory_size at room passed w' e =
      let (info₁, w₁, e₁, r₁) = and_then-eq-ok (get_info pool w) _ e in
      let (at₁, same₁) = get_info_ok w pool e₁ in
      let test : leb info₁.item_size (rounds_of memory_size) ≡ true = ground arith in
      let (_, w₂, e₂, r₂) = and_then-eq-ok (push_locked os pool memory w₁) _ (rw test at r₁) in
      let (info₂, w₃, e₃, r₃) = and_then-eq-ok (get_info pool w₂) _ r₂ in
      let look = λ (v : World os.Kernel). v.pool pool in
      let at₃ : w₃.pool pool ≡ some info =
        ap look (get_info_ok w₂ pool e₃).1
        ∙ ap (λ (f : Ptr → Option PoolInfo). f pool) (push_locked_pool w₁ pool memory e₂)
        ∙ ap look same₁
        ∙ at in
      add_extra_static_diverges fuel w₃ pool (memory + info₂.item_size) info memory_size at₃ room
        passed w' r₃

-- The memory that malloc hands out is not in use by the pool.
pub record IsApart (new : Fresh) (bytes : ℕ) (pool : Ptr) (xs : List Ptr) : Type 0 where
  pub struct : inside new.address bytes buffer_offset pool ≡ false
  pub count : inside new.address bytes int_size (stack_of pool) ≡ false
  pub nodes :
      (a : Ptr)
      → has a (head_of (stack_of pool) ∷ xs) ≡ true
      → inside new.address bytes pointer_size a ≡ false

-- The pool is as it was after malloc has handed out memory that it does not use.
obtained-IsPool :
    (os : Rtos) (w : World os.Kernel) (pool : Ptr) (info : PoolInfo) (xs : List Ptr) (new : Fresh)
    (bytes : ℕ)
    → IsPool os w pool info xs
    → IsApart new bytes pool xs
    → IsPool os (obtained new bytes w) pool info xs
obtained-IsPool os w pool info xs new bytes p apart = record {
  ne_null = p.ne_null;
  fields = rw (apart.struct) p.fields;
  unlocked = p.unlocked;
  stack = record {
    ne_null = p.stack.ne_null;
    count = rw (apart.count) p.stack.count;
    chain = record {
      nodes = p.stack.chain.nodes;
      linked =
          Path.LinkedTo-frame w.mem.sl_next (obtained new bytes w).mem.sl_next
            (head_of (stack_of pool) ∷ xs) null (λ a i. rw (apart.nodes a i) refl)
            p.stack.chain.linked;
    };
  };
}

malloc_some :
    {K : Type 0} (w : World K) (new : Fresh) (bytes : ℕ)
    → new.address ≢ null
    → malloc new (pos bytes) w ≡ ok new.address (obtained new bytes w)
unfolding malloc
malloc_some w new bytes ne = ground arith

block_room : (n size i : ℕ) → i < n → i * size + size ≤ n * size
block_room n size i lt = grind arith

module _ (os : Rtos) (laws : IsRtos os) (w : World os.Kernel) (pool : Ptr) (info : PoolInfo) where
  -- AddExtraMemoryToPool on a pool with its lock free, where malloc returns memory apart from the
  -- pool and the sizes and the count fit an `int`, passes, puts `n` blocks of that memory on top of
  -- the free ones, and leaves the same semaphores available, if a block has room for a pointer.
  pub add_extra_memory_to_pool-IsPool :
      (new : Fresh) (n : ℕ) (xs : List Ptr)
      → IsPool os w pool info xs
      → IsApart new (n * info.item_size) pool xs
      → pointer_size ≤ info.item_size
      → n * info.item_size ≤ int_max
      → length xs + n ≤ int_max
      → new.address ≢ null
      → (w' : World os.Kernel) × (add_extra_memory_to_pool os new pool (pos n) w ≡ ok true w')
        × IsPool os w' pool info (stacked n new.address info.item_size xs)
        × SameLocks os w.kernel w'.kernel
  unfolding add_extra_memory_to_pool product
  add_extra_memory_to_pool-IsPool new n xs p apart large fits counts ne =
      let size = info.item_size in
      let test : (new.address == null) ≡ false = ground arith in
      let in_range : leb (n * size) int_max ≡ true = ground arith in
      let there = λ (i : ℕ) (lt : i < n).
        let room = block_room n size i lt in
        let here : inside new.address (n * size) pointer_size (new.address + i * size) ≡ true =
          ground arith in
        here in
      let can : CanFill (obtained new (n * size) w).mem (stack_of pool) new.address size n xs =
        record {
          holds = (obtained-IsPool os w pool info xs new (n * size) p apart).stack;
          positive = omega arith;
          ne_null = ne;
          apart = λ i lt.
              elim (Bool-cases (has (new.address + i * size) (head_of (stack_of pool) ∷ xs))) [
                | inl used ↦ cc (there i lt, apart.nodes (new.address + i * size) used)
                | inr other ↦ other
              ];
          mapped = λ i lt. (new.pointers (new.address + i * size), rw (there i lt) refl);
          counts = counts;
        } in
      let (w', ran, p', locks) =
        push_extra_lem os laws n (obtained new (n * size) w) pool info new.address xs
          (obtained-IsPool os w pool info xs new (n * size) p apart) can in
      (
        w',
        rw
            (
              get_info_lem w pool p.ne_null p.fields,
              in_range,
              malloc_some w new (n * size) ne,
              test,
              ran,
            )
            refl,
        p',
        locks,
      )

  -- AddExtraMemoryToPool fails, and changes nothing, if malloc has no memory.
  pub add_extra_memory_to_pool-null :
      (new : Fresh) (n : ℕ) (xs : List Ptr)
      → IsPool os w pool info xs
      → n * info.item_size ≤ int_max
      → new.address ≡ null
      → add_extra_memory_to_pool os new pool (pos n) w ≡ ok false w
  unfolding add_extra_memory_to_pool product malloc
  add_extra_memory_to_pool-null new n xs p fits none =
      let test : (new.address == null) ≡ true = ground arith in
      let in_range : leb (n * info.item_size) int_max ≡ true = ground arith in
      rw (get_info_lem w pool p.ne_null p.fields, in_range, test) refl

  -- On a pool with a free block and its lock free, MemoryPoolAllocate and then MemoryPoolFree of
  -- the block that it returned both return, and leave the same free blocks in the same order and
  -- the same semaphores available, if the count and the address of the block do not overflow.
  pub memory_pool_free-allocate :
      (x : Ptr) (xs : List Ptr)
      → IsPool os w pool info (x ∷ xs)
      → length xs < int_max
      → x + info.alignment < 2 ^ 64
      → (w' : World os.Kernel) × ((memory_pool_allocate os pool >>= memory_pool_free os pool) w
          ≡ ok tt w')
        × IsPool os w' pool info (x ∷ xs)
        × SameLocks os w.kernel w'.kernel
  memory_pool_free-allocate x xs p small fits =
      let got = memory_pool_allocate-LeavesPool os laws w pool info x xs p in
      let kept =
        IsMapped-kept (stack_of pool) _ _ got.only got.holds.stack.chain (λ a i. ground arith) in
      let nodes = p.stack.chain.nodes in
      let at = kept x (first_or xs null, p.stack.chain.linked.1.0) in
      let back =
        memory_pool_free-LeavesPool os laws got.after pool info x xs got.holds
          (record {
            ne_null = ground (arith, nodes.ne_null);
            outside = ground (arith, nodes.distinct);
            old = at.0;
            mapped = at.1;
          })
          small fits in
      (back.after, rw got.runs back.runs, back.holds, λ a. back.locks a ∙ got.locks a)
