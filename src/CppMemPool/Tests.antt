-- ===== src/CppMemPool/Tests.antt =====
-- The class MemoryPool at concrete pools: runs, and the theorems applied.
use freertos_addons.Prelude.{
  ℕ, ◌+◌, ◌*◌, ◌%◌, ◌≤◌, ◌<◌, ◌≡◌, ◌≢◌, ◌⊎◌, refl, true, false, none, some, [], ◌∷◌, arith, has,
  pos, ◌==◌, if◌then◌else◌,
}
use freertos_addons.Machine.{ok}
use freertos_addons.Memory.{Ptr, null}
use freertos_addons.Rtos.{Rtos}
use freertos_addons.RtosSample.{sample_rtos, sample_rtos-IsRtos, Semaphores}
use freertos_addons.MemPool.{at_least_pointer, find_bit}
use freertos_addons.MemPool.Create.{Placed}
use freertos_addons.CppMemPool.{
  PoolState, mutex_failed, returned, thrown, calculate_valid_alignment, construct, construct_static,
  allocate, guarded, add_region,
}
use freertos_addons.CppMemPool.Items.{row, with_items}
use freertos_addons.CppMemPool.Construct.{
  construct-Placed, construct_static-Placed, construct_thrown,
}
use freertos_addons.CppMemPool.Add.{Leaves, add_region_lem}
use freertos_addons.CppMemPool.Ledger.{here, next, allocated, allocate_apart}

abbrev empty_kernel : Semaphores
empty_kernel = record { free = λ a. false; gone = λ a. false; next = 5 }

abbrev raw : PoolState Semaphores
raw = record {
  pool = record { lock = 0; item_size = 0; alignment = 0; free_items = [] };
  kernel = empty_kernel;
  blocks = λ a. none;
}

valid_8 : calculate_valid_alignment (pos 8) ≡ some (some 8)
unfolding calculate_valid_alignment at_least_pointer find_bit
valid_8 = refl

construct_example :
    (size : ℕ) × (s' : PoolState Semaphores) × (construct sample_rtos 1000
        (pos 20)
        (pos 3)
        (pos 8)
        raw
      ≡ ok returned s')
    × (s'.pool ≡ record { lock = 5; item_size = size; alignment = 8; free_items = row 3 1000 size })
    × (20 ≤ size)
    × (size ≤ 20 + 8)
    × (size % 8 ≡ 0)
    × (s'.blocks 1000 ≡ some (3 * size))
    × Placed 1000 (1000 + 3 * size) size (row 3 1000 size)
    × ((b : Ptr) → has b (row 3 1000 size) ≡ true → b % 8 ≡ 1000 % 8)
construct_example =
    construct-Placed sample_rtos raw 1000 20 3 8 (pos 8) valid_8 (omega arith) (omega arith)
      (omega arith)

construct_static_example :
    (size count : ℕ) × (s' : PoolState Semaphores) × (construct_static sample_rtos 101
        (pos 20)
        1000
        (pos 100)
        (pos 8)
        raw
      ≡ ok returned s')
    × (s'.pool
        ≡ record { lock = 5; item_size = size; alignment = 8; free_items = row count 1000 size })
    × (20 ≤ size)
    × (size ≤ 20 + 8)
    × (size % 8 ≡ 0)
    × (count * size ≤ 100)
    × (100 < count * size + size)
    × (s'.blocks ≡ raw.blocks)
    × Placed 1000 (1000 + 100) size (row count 1000 size)
construct_static_example =
    construct_static-Placed sample_rtos raw 101 1000 20 100 8 (pos 8) valid_8 (omega arith)
      (omega arith) (omega arith)

-- A kernel that has no mutex left.
abbrev limited_rtos : Rtos
limited_rtos = record sample_rtos { create_mutex = λ k. (null, k) }

construct_thrown_example :
    (size : ℕ) × (s' : PoolState Semaphores) × (construct limited_rtos 1000
        (pos 20)
        (pos 3)
        (pos 8)
        raw
      ≡ ok (thrown mutex_failed) s')
    × (20 ≤ size)
    × (s'.blocks 1000 ≡ some (3 * size))
construct_thrown_example =
    construct_thrown limited_rtos raw 1000 20 3 8 (pos 8) valid_8 (omega arith) (omega arith) refl

-- A pool of two blocks of 24 bytes with its lock 4 free.
abbrev in_use : PoolState Semaphores
in_use = record {
  pool = record { lock = 4; item_size = 24; alignment = 8; free_items = 1000 ∷ 1024 ∷ [] };
  kernel = record { free = λ a. a == 4; gone = λ a. false; next = 5 };
  blocks = λ a. none;
}

add_region_example :
    Leaves sample_rtos in_use
      (add_region sample_rtos 3 2000 60 in_use)
      tt
      (with_items in_use.pool (row 2 2000 24))
add_region_example =
    add_region_lem sample_rtos sample_rtos-IsRtos 2 3 2000 60 in_use refl (omega arith)
      (omega arith) (omega arith)

abbrev one_taken : PoolState Semaphores
one_taken = record {
  pool = record { lock = 4; item_size = 24; alignment = 8; free_items = 1024 ∷ [] };
  kernel = record {
    free = λ a. if a == 4 then true else (if a == 4 then false else a == 4);
    gone = λ a. false;
    next = 5;
  };
  blocks = λ a. none;
}

abbrev none_left : PoolState Semaphores
none_left = record one_taken {
  pool = record { lock = 4; item_size = 24; alignment = 8; free_items = [] };
  kernel = record {
    free = λ a.
        if a == 4
        then true
        else (if a == 4
            then false
            else (if a == 4 then true else (if a == 4 then false else a == 4)));
    gone = λ a. false;
    next = 5;
  };
}

allocate_apart_example :
    (1000 ≤ 1024)
    × (1024 + 24 ≤ 1000 + 2 * 24)
    × ((b : Ptr) → has b (1000 ∷ []) ≡ true → b ≢ null → (b + 24 ≤ 1024) ⊎ (1024 + 24 ≤ b))
unfolding allocate guarded
allocate_apart_example =
    allocate_apart sample_rtos {l = record { state = in_use; in_use = [] }}
      {m = record { state = one_taken; in_use = 1000 ∷ [] }} 2 1000 24 1024 none_left refl refl
      (omega arith)
      (next here
        (allocated (record { state = in_use; in_use = [] }) 1000 one_taken (omega arith) refl))
      refl (omega arith)
