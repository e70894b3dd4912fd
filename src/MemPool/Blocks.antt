-- ===== src/MemPool/Blocks.antt =====
-- MemoryPoolAllocate and MemoryPoolFree on a pool that stands for its free blocks.
use freertos_addons.Prelude.{
  suc, ◌+◌, ◌<◌, ◌^◌, ◌≡◌, ◌≢◌, refl, true, false, some, List, [], ◌∷◌, arith, length, ◌==◌,
  int_max, ◌∙◌,
}
use freertos_addons.Machine.{Run, ok}
use freertos_addons.Memory.{Ptr, null}
use freertos_addons.Memory.Count.{get_count_lem}
use freertos_addons.Rtos.{Rtos, IsRtos}
use freertos_addons.Slist.Chain.{IsFree}
use freertos_addons.Stack
use freertos_addons.Stack.Lifo.{
  IsStack, OnlyStack, push_on_stack-LeavesStack, pop_off_stack-LeavesStack,
}
use freertos_addons.World.{World, PoolInfo, give}
use freertos_addons.World.Locks.{SameLocks, get_info_lem, held, take_held, given_SameLocks}
use freertos_addons.MemPool.{stack_of, node_of, memory_pool_allocate, memory_pool_free}

-- The pool at `pool` has the sizes and the lock `info`, nobody holds the lock, and the blocks `xs`
-- are free.
pub record IsPool (os : Rtos) (w : World os.Kernel) (pool : Ptr) (info : PoolInfo) (xs : List Ptr)
    : Type 0 where
  pub ne_null : pool ≢ null
  pub fields : w.pool pool ≡ some info
  pub unlocked : os.available info.lock w.kernel ≡ true
  pub stack : IsStack w.mem (stack_of pool) xs

-- A run that returns `a`, leaves the blocks `xs` free, gives the lock back, and writes to nothing
-- but the stack of the pool and the `Next` fields of `changed`.
pub record LeavesPool {A : Type 0} (os : Rtos) (w : World os.Kernel) (pool : Ptr) (info : PoolInfo)
    (r : Run (World os.Kernel) A) (a : A) (changed xs : List Ptr) : Type 0 where
  pub after : World os.Kernel
  pub runs : r ≡ ok a after
  pub holds : IsPool os after pool info xs
  pub locks : SameLocks os w.kernel after.kernel
  pub only : OnlyStack (stack_of pool) changed w.mem after.mem
  pub rest : after ≡ record w { mem = after.mem; kernel = after.kernel }

module _ (os : Rtos) (laws : IsRtos os) (w : World os.Kernel) (pool : Ptr) (info : PoolInfo) where
  unchanged : OnlyStack (stack_of pool) [] w.mem w.mem
  unchanged = record { same_next = λ a o. refl; same_count = λ a ne. refl; rest = refl }

  -- MemoryPoolAllocate returns `NULL` if no block is free.
  pub memory_pool_allocate-nil :
      IsPool os w pool info []
      → LeavesPool os w pool info (memory_pool_allocate os pool w) null [] []
  unfolding memory_pool_allocate give
  memory_pool_allocate-nil p =
      let k = held os laws info.lock w.kernel p.unlocked in
      let same = given_SameLocks os laws info.lock w.kernel p.unlocked in
      record {
        after = record w { kernel = os.give info.lock k };
        runs =
            rw
              (
                get_info_lem w pool p.ne_null p.fields,
                take_held os laws info.lock w.kernel p.unlocked w refl,
                get_count_lem w.mem p.stack.ne_null p.stack.count,
              )
              refl;
        holds = record {
          ne_null = p.ne_null;
          fields = p.fields;
          unlocked = same info.lock ∙ p.unlocked;
          stack = p.stack;
        };
        locks = same;
        only = unchanged;
        rest = refl;
      }

  -- MemoryPoolAllocate on a pool with its lock free takes the free block that was put back last,
  -- returns the address one alignment unit behind its beginning, gives the lock back, and writes to
  -- nothing but the stack of the pool.
  pub memory_pool_allocate-LeavesPool :
      (x : Ptr) (xs : List Ptr)
      → IsPool os w pool info (x ∷ xs)
      → LeavesPool os w pool info
          (memory_pool_allocate os pool w)
          (x + info.alignment)
          (Stack.head_of (stack_of pool) ∷ [])
          xs
  unfolding memory_pool_allocate give
  memory_pool_allocate-LeavesPool x xs p =
      let k = held os laws info.lock w.kernel p.unlocked in
      let same = given_SameLocks os laws info.lock w.kernel p.unlocked in
      let popped = pop_off_stack-LeavesStack w.mem (stack_of pool) x xs p.stack in
      let w' : World os.Kernel = record w { mem = popped.after; kernel = os.give info.lock k } in
      let some_left : (suc (length xs) == 0) ≡ false = ground arith in
      record {
        after = w';
        runs =
            rw
              (
                get_info_lem w pool p.ne_null p.fields,
                take_held os laws info.lock w.kernel p.unlocked w refl,
                get_count_lem w.mem p.stack.ne_null p.stack.count,
                some_left,
                popped.runs,
                get_info_lem w' pool p.ne_null p.fields,
              )
              refl;
        holds = record {
          ne_null = p.ne_null;
          fields = p.fields;
          unlocked = same info.lock ∙ p.unlocked;
          stack = popped.holds;
        };
        locks = same;
        only = popped.only;
        rest = refl;
      }

  -- MemoryPoolFree, on a pool with its lock free, of the address one alignment unit behind the
  -- beginning of a mapped block that is not free puts that block on top of the free ones, gives the
  -- lock back, and writes to nothing but the stack of the pool and the header of the block, if the
  -- count and the address do not overflow.
  pub memory_pool_free-LeavesPool :
      (node : Ptr) (xs : List Ptr)
      → IsPool os w pool info xs
      → IsFree w.mem (Stack.head_of (stack_of pool) ∷ xs) node
      → length xs < int_max
      → node + info.alignment < 2 ^ 64
      → LeavesPool os w pool info
          (memory_pool_free os pool (node + info.alignment) w)
          tt
          (Stack.head_of (stack_of pool) ∷ node ∷ [])
          (node ∷ xs)
  unfolding memory_pool_free give
  memory_pool_free-LeavesPool node xs p free small fits =
      let k = held os laws info.lock w.kernel p.unlocked in
      let same = given_SameLocks os laws info.lock w.kernel p.unlocked in
      let pushed = push_on_stack-LeavesStack w.mem (stack_of pool) xs node p.stack free small in
      let back : node_of (node + info.alignment) info.alignment ≡ node = omega arith in
      record {
        after = record w { mem = pushed.after; kernel = os.give info.lock k };
        runs =
            rw
              (
                get_info_lem w pool p.ne_null p.fields,
                back,
                take_held os laws info.lock w.kernel p.unlocked w refl,
                pushed.runs,
              )
              refl;
        holds = record {
          ne_null = p.ne_null;
          fields = p.fields;
          unlocked = same info.lock ∙ p.unlocked;
          stack = pushed.holds;
        };
        locks = same;
        only = pushed.only;
        rest = refl;
      }
