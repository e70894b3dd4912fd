-- ===== src/ReadWriteLock/Store.antt =====
-- What the accesses to the structure of a lock return.
use freertos_addons.Prelude.{◌≡◌, ◌≢◌, if◌then◌else◌, none, some, ◌==◌, arith}
use freertos_addons.Machine.{ok}
use freertos_addons.Memory.{Ptr, null}
use freertos_addons.ReadWriteLock.{RwLock}
use freertos_addons.ReadWriteLock.Create.{LockWorld, put, malloc, update, get, free}

pub update_lem :
    {K : Type 0} (w : LockWorld K) (p : Ptr) {lock : RwLock} (f : RwLock → RwLock)
    → w.locks p ≡ some lock
    → update p f w ≡ ok tt (put p (f lock) w)
unfolding update
update_lem w p f at = ground arith

pub malloc_lem :
    {K : Type 0} (w : LockWorld K) (p : Ptr) (old : RwLock)
    → p ≢ null
    → malloc p old w ≡ ok p (put p old w)
unfolding malloc
malloc_lem w p old ne = ground arith

-- The state without the structure.
abbrev pub without : {K : Type 0} → Ptr → LockWorld K → LockWorld K
without p w = record w { locks = λ a. if a == p then none else w.locks a }

pub get_lem :
    {K : Type 0} (w : LockWorld K) (p : Ptr) {lock : RwLock}
    → w.locks p ≡ some lock
    → get p w ≡ ok lock w
unfolding get
get_lem w p at = ground arith

pub free_lem :
    {K : Type 0} (w : LockWorld K) (p : Ptr) {lock : RwLock}
    → w.locks p ≡ some lock
    → free p w ≡ ok tt (without p w)
unfolding free
free_lem w p at = ground arith
