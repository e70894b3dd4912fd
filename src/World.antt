-- ===== src/World.antt =====
-- The state of the modules that allocate memory and use semaphores: the shared memory, the blocks
-- that malloc has handed out, the structures of mem_pool.c, and the kernel of the RTOS.
pub mod Locks
use freertos_addons.Prelude.{
  ℕ, ◌+◌, ◌-◌, ◌*◌, ◌^◌, Bool, true, false, ◌&&◌, Option, none, some, ◌==◌, leb, if◌then◌else◌, ℤ,
  pos, negsuc,
}
use freertos_addons.Machine.{Run, ok, fault, blocked, out_of_fuel, Cmd, pure}
use freertos_addons.Memory.{Ptr, null, Field, Mem, write}
use freertos_addons.Rtos.{Rtos}

-- The fields of a `MemPool_t` beside its stack.
pub record PoolInfo : Type 0 where
  pub lock : Ptr
  pub item_size : ℕ
  pub alignment : ℕ

pub record World (K : Type 0) : Type 0 where
  pub mem : Mem
  pub kernel : K
  pub pool : Field PoolInfo
  -- the size of each block that is allocated
  pub blocks : Field ℕ

-- What a call of malloc comes back with: an address, `NULL` if there is no memory, and what the
-- bytes behind it hold.
pub record Fresh : Type 0 where
  pub address : Ptr
  pub pointers : Ptr → Ptr
  pub ints : Ptr → ℤ
  pub infos : Ptr → PoolInfo

-- `width` bytes at `a` lie within the `size` bytes at `p`.
abbrev pub inside : (p size width a : ℕ) → Bool
inside p size width a = leb p a && leb (a + width) (p + size)

abbrev pub map_region : {A : Type 0} → (p size width : ℕ) → (Ptr → Option A) → Field A → Field A
map_region p size width content f a = if inside p size width a then content a else f a

-- sizeof of a pointer, of an `int`, of the part of a `MemPool_t` before `Buffer`
abbrev pub pointer_size : ℕ
pointer_size = 8

abbrev pub int_size : ℕ
int_size = 4

abbrev pub buffer_offset : ℕ
buffer_offset = 32

abbrev pub map_mem : (p size : ℕ) → (Ptr → Option Ptr) → (Ptr → Option ℤ) → Mem → Mem
map_mem p size pointers ints m = record {
  sl_next = map_region p size pointer_size pointers m.sl_next;
  dl_next = map_region p size (2 * pointer_size) pointers m.dl_next;
  dl_prev = map_region p size (2 * pointer_size) pointers m.dl_prev;
  count = map_region p size int_size ints m.count;
}

-- A negative size is a huge `size_t`.
abbrev pub to_size : ℤ → ℕ
to_size (pos n) = n
to_size (negsuc n) = 2 ^ 64 - (n + 1)

module _ {K : Type 0} where
  -- The state with a new block of `size` bytes.
  abbrev pub obtained : Fresh → (size : ℕ) → World K → World K
  obtained new size w = record w {
    mem = map_mem new.address size (λ a. some (new.pointers a)) (λ a. some (new.ints a)) w.mem;
    pool = map_region new.address size buffer_offset (λ a. some (new.infos a)) w.pool;
    blocks = write w.blocks new.address size;
  }

  unfoldable pub malloc : Fresh → ℤ → Cmd (World K) Ptr
  malloc new size w =
      if new.address == null then ok null w else ok new.address (obtained new (to_size size) w)

  -- The state without the block of `size` bytes at `p`.
  abbrev pub released : (p size : ℕ) → World K → World K
  released p size w = record w {
    mem = map_mem p size (λ a. none) (λ a. none) w.mem;
    pool = map_region p size buffer_offset (λ a. none) w.pool;
    blocks = λ a. if a == p then none else w.blocks a;
  }

  -- A pointer that malloc has not handed out, or that has been freed, is a fault.
  unfoldable pub free : Ptr → Cmd (World K) (Unit {0})
  free p w = elim (w.blocks p) [ none ↦ fault | some size ↦ ok tt (released p size w) ]

  abbrev pub lift_run : {A : Type 0} → World K → Run Mem A → Run (World K) A
  lift_run w (ok a m) = ok a (record w { mem = m })
  lift_run w fault = fault
  lift_run w blocked = blocked
  lift_run w out_of_fuel = out_of_fuel

  -- A command on the shared memory alone.
  abbrev pub on_mem : {A : Type 0} → Cmd Mem A → Cmd (World K) A
  on_mem c w = lift_run w (c w.mem)

  abbrev pub lift_info : World K → Option PoolInfo → Run (World K) PoolInfo
  lift_info w none = fault
  lift_info w (some info) = ok info w

  -- `pool->…`
  unfoldable pub get_info : Ptr → Cmd (World K) PoolInfo
  get_info pool w = if pool == null then fault else lift_info w (w.pool pool)

  -- A change of one field of the structure.
  unfoldable pub update_info : Ptr → (PoolInfo → PoolInfo) → Cmd (World K) (Unit {0})
  update_info pool f w = if pool == null then fault else elim (w.pool pool) [
    | none ↦ fault
    | some info ↦ ok tt (record w { pool = write w.pool pool (f info) })
  ]

module _ (os : Rtos) where
  abbrev pub wait_run : World os.Kernel → Option os.Kernel → Run (World os.Kernel) (Unit {0})
  wait_run w none = blocked
  wait_run w (some k) = ok tt (record w { kernel = k })

  -- xSemaphoreTake with portMAX_DELAY
  unfoldable pub take : Ptr → Cmd (World os.Kernel) (Unit {0})
  take h w = wait_run w (os.take h w.kernel)

  -- xSemaphoreGive
  unfoldable pub give : Ptr → Cmd (World os.Kernel) (Unit {0})
  give h w = ok tt (record w { kernel = os.give h w.kernel })

  -- xSemaphoreCreateMutex
  unfoldable pub create_mutex : Cmd (World os.Kernel) Ptr
  create_mutex w = let (h, k) = os.create_mutex w.kernel in ok h (record w { kernel = k })

  -- vSemaphoreDelete
  unfoldable pub delete : Ptr → Cmd (World os.Kernel) (Unit {0})
  delete h w = ok tt (record w { kernel = os.delete h w.kernel })
