-- ===== src/MemPool/Tests.antt =====
-- The functions of mem_pool.c at a pool of two blocks: runs, and the theorems applied.
use native.Mathlib.Decide.{ℕ_discrete}
use freertos_addons.Stack.Runs.{IsMapped}
use freertos_addons.Prelude.{
  inl, ℕ, ◌+◌, ◌*◌, ◌≤◌, ◌<◌, ◌≡◌, ◌≢◌, ◌^◌, refl, true, false, some, none, [], ◌∷◌, arith, pos,
  ◌⊎◌, ◌==◌,
}
use freertos_addons.Machine.{ok, ◌>>=◌, decrement}
use freertos_addons.Memory.{Ptr, null, no_memory, write}
use freertos_addons.Memory.Count.{get_count, set_count}
use freertos_addons.Memory.Sample.{fields, value_of}
use freertos_addons.RtosSample.{sample_rtos, sample_rtos-IsRtos, Semaphores}
use freertos_addons.Slist
use freertos_addons.Stack
use freertos_addons.World
use freertos_addons.World.{World, PoolInfo, Fresh}
use freertos_addons.World.Locks.{SameLocks}
use freertos_addons.MemPool.{
  at_least_pointer, calculate_and_verify_alignment, calculate_item_size, in_int, find_bit,
  create_memory_pool, create_memory_pool_static, add_extra_memory_to_pool,
  add_extra_memory_to_pool_static, memory_pool_allocate, memory_pool_free,
}
use freertos_addons.MemPool.Sizes.{
  IsBelow, calculate_item_size_lem, calculate_and_verify_alignment_lem,
}
use freertos_addons.MemPool.Blocks.{IsPool, LeavesPool, memory_pool_allocate-LeavesPool}
use freertos_addons.MemPool.Create.{Placed, create_memory_pool-IsPool}
use freertos_addons.MemPool.Static.{create_memory_pool_static-IsPool}
use freertos_addons.MemPool.Errors.{create_memory_pool-no_lock}
use freertos_addons.MemPool.Extra.{
  add_extra_static_diverges, add_extra_memory_to_pool-IsPool, memory_pool_free-allocate,
}

-- A pool at 1000 whose lock is 5, with blocks of 32 bytes at 1032 and 1064, and a block at 1096 that
-- is in use.
abbrev sample_info : PoolInfo
sample_info = record { lock = 5; item_size = 32; alignment = 8 }

abbrev sample : World Semaphores
sample = record {
  mem = record no_memory {
    sl_next = fields ((1016, 1032) ∷ (1032, 1064) ∷ (1064, null) ∷ (1096, 77) ∷ []);
    count = fields ((1008, pos 2) ∷ []);
  };
  kernel = record { free = λ a. a == 5; gone = λ a. false; next = 6 };
  pool = fields ((1000, sample_info) ∷ []);
  blocks = fields ((1000, 136) ∷ []);
}

abbrev sample-IsPool : IsPool sample_rtos sample 1000 sample_info (1032 ∷ 1064 ∷ [])
sample-IsPool = record {
  ne_null = omega arith;
  fields = refl;
  unlocked = refl;
  stack = record {
    ne_null = omega arith;
    count = refl;
    chain = record {
      nodes = record { distinct = (refl, (refl, (refl, tt))); ne_null = refl };
      linked = (refl, (refl, (refl, tt)));
    };
  };
}

-- malloc at 2000.
abbrev fresh : Fresh
fresh = record {
  address = 2000;
  pointers = λ a. 0;
  ints = λ a. pos 0;
  infos = λ a. record { lock = 0; item_size = 0; alignment = 0 };
}

calculate_item_size_example :
    (c : ℕ) × (calculate_item_size (pos 20) 8 sample ≡ ok (c * 8) sample)
    × (20 + 8 ≤ c * 8)
    × (c * 8 ≤ 20 + 2 * 8)
calculate_item_size_example = calculate_item_size_lem 20 8 sample (omega arith) (omega arith)

calculate_and_verify_alignment_example :
    ((k : ℕ) × (calculate_and_verify_alignment (pos 16) ≡ some (2 ^ k))
      × (3 ≤ k)
      × (k < 31)
      × ((pos 16 ≡ pos (2 ^ k)) ⊎ ((k ≡ 3) × IsBelow 8 (pos 16))))
    ⊎ ((calculate_and_verify_alignment (pos 16) ≡ none)
        × (n : ℕ) × (pos 16 ≡ pos n)
        × (8 < n)
        × ((k : ℕ) → k < 31 → n ≢ 2 ^ k))
calculate_and_verify_alignment_example = calculate_and_verify_alignment_lem (pos 16)

memory_pool_allocate_example :
    LeavesPool sample_rtos sample 1000 sample_info
      (memory_pool_allocate sample_rtos 1000 sample)
      1040
      (1016 ∷ [])
      (1064 ∷ [])
memory_pool_allocate_example =
    memory_pool_allocate-LeavesPool sample_rtos sample_rtos-IsRtos sample 1000 sample_info 1032
      (1064 ∷ []) sample-IsPool

-- An allocation, and the lock afterwards.
allocate_run : value_of (memory_pool_allocate sample_rtos 1000 sample) ≡ some 1040
unfolding memory_pool_allocate World.get_info World.take World.give get_count set_count decrement
    write Stack.pop_off_stack Slist.get_next Slist.set_next Slist.remove_node_from_head
allocate_run = refl

memory_pool_free-allocate_example :
    (w' : World Semaphores) × ((memory_pool_allocate sample_rtos 1000
          >>= memory_pool_free sample_rtos 1000)
        sample
      ≡ ok tt w')
    × IsPool sample_rtos w' 1000 sample_info (1032 ∷ 1064 ∷ [])
    × SameLocks sample_rtos sample.kernel w'.kernel
memory_pool_free-allocate_example =
    memory_pool_free-allocate sample_rtos sample_rtos-IsRtos sample 1000 sample_info 1032
      (1064 ∷ []) sample-IsPool (omega arith) (omega arith)

add_extra_static_diverges_example :
    ¬ (add_extra_memory_to_pool_static sample_rtos 100 1000 1096 (pos 64) sample ≡ ok true sample)
add_extra_static_diverges_example =
    add_extra_static_diverges sample_rtos 100 sample 1000 1096 sample_info (pos 64) refl
      (omega arith) true sample

add_extra_memory_to_pool_example :
    (w' : World Semaphores) × (add_extra_memory_to_pool sample_rtos fresh 1000 (pos 2) sample
      ≡ ok true w')
    × IsPool sample_rtos w' 1000 sample_info (2032 ∷ 2000 ∷ 1032 ∷ 1064 ∷ [])
    × SameLocks sample_rtos sample.kernel w'.kernel
add_extra_memory_to_pool_example =
    add_extra_memory_to_pool-IsPool sample_rtos sample_rtos-IsRtos sample 1000 sample_info fresh 2
      (1032 ∷ 1064 ∷ []) sample-IsPool
      (record { struct = refl; count = refl; nodes = λ a used. ground arith }) (omega arith)
      (omega arith) (omega arith) (omega arith)

sample_size : (s : World Semaphores) → calculate_item_size (pos 20) 8 s ≡ ok 32 s
unfolding calculate_item_size in_int
sample_size s = refl

sample_alignment : calculate_and_verify_alignment (pos 4) ≡ some 8
unfolding calculate_and_verify_alignment find_bit at_least_pointer
sample_alignment = refl

-- 24 is refused by an overflow, after 31 rounds.
refused_alignment : calculate_and_verify_alignment (pos 24) ≡ none
unfolding calculate_and_verify_alignment find_bit at_least_pointer
refused_alignment = refl

create_memory_pool_example :
    (w' : World Semaphores) × (create_memory_pool sample_rtos fresh (pos 20) (pos 3) (pos 4) sample
      ≡ ok 2000 w')
    × IsPool sample_rtos w' 2000
        (record { lock = 6; item_size = 32; alignment = 8 })
        (2096 ∷ 2064 ∷ 2032 ∷ [])
    × (w'.blocks 2000 ≡ some 135)
    × Placed 2032 2135 32 (2096 ∷ 2064 ∷ 2032 ∷ [])
create_memory_pool_example =
    create_memory_pool-IsPool sample_rtos sample_rtos-IsRtos sample fresh (pos 20) (pos 4) 8 3 32
      sample_alignment sample_size (omega arith) (omega arith) (omega arith) (omega arith)
      (omega arith)

-- Memory of 100 bytes at 1200, and an RTOS that has no mutex left.
abbrev with_memory : World Semaphores
with_memory = record sample {
  mem = record sample.mem { sl_next = fields ((1200, 3) ∷ (1232, 3) ∷ (1264, 3) ∷ []) };
}

abbrev out_of_locks : World Semaphores
out_of_locks = record sample {
  kernel = record { free = λ a. false; gone = λ a. false; next = null };
}

headers : (i : ℕ) → i < 3 → IsMapped with_memory.mem (1200 + i * 32)
headers i lt = elim (ℕ_discrete i 0) [
  | yes e ↦ (3, rw e refl)
  | no n0 ↦ elim (ℕ_discrete i 1) [
    | yes e ↦ (3, rw e refl)
    | no n1 ↦ let e : i ≡ 2 = omega arith in (3, rw e refl)
  ]
]

create_memory_pool_static_example :
    (w' : World Semaphores) × (create_memory_pool_static sample_rtos 101 fresh
        (pos 20)
        1200
        (pos 100)
        (pos 4)
        with_memory
      ≡ ok 2000 w')
    × IsPool sample_rtos w' 2000
        (record { lock = 6; item_size = 32; alignment = 8 })
        (1264 ∷ 1232 ∷ 1200 ∷ [])
    × Placed 1200 1300 32 (1264 ∷ 1232 ∷ 1200 ∷ [])
create_memory_pool_static_example =
    create_memory_pool_static-IsPool sample_rtos sample_rtos-IsRtos with_memory fresh 101 (pos 20)
      (pos 4) 1200 100 8 3 32 sample_alignment sample_size (omega arith) (omega arith) (omega arith)
      (omega arith) (omega arith) (omega arith) (inl (omega arith)) headers (omega arith)
      (omega arith)

create_memory_pool-no_lock_example :
    (w' : World Semaphores) × (create_memory_pool sample_rtos fresh
        (pos 20)
        (pos 3)
        (pos 4)
        out_of_locks
      ≡ ok null w')
    × (w'.blocks 2000 ≡ none)
    × ((a : Ptr) → a ≢ 2000 → w'.blocks a ≡ sample.blocks a)
create_memory_pool-no_lock_example =
    create_memory_pool-no_lock sample_rtos out_of_locks fresh (pos 20) (pos 4) 8 3 32
      sample_alignment sample_size (omega arith) (omega arith) refl
