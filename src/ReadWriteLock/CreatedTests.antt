-- ===== src/ReadWriteLock/CreatedTests.antt =====
-- The creators at a kernel that has not created a semaphore yet, and at one that has no binary
-- semaphore to give.
use freertos_addons.Prelude.{◌≡◌, refl, inr, false, none, some, arith, pos}
use freertos_addons.Machine.{ok, fault}
use freertos_addons.Memory.{null}
use freertos_addons.Rtos.{Rtos}
use freertos_addons.RtosSample.{sample_rtos, sample_rtos-IsRtos, Semaphores}
use freertos_addons.ReadWriteLock.{RwLock, prefer_reader}
use freertos_addons.ReadWriteLock.Preference.{IsNewWriter}
use freertos_addons.ReadWriteLock.Create.{LockWorld, create_prefer_writer}
use freertos_addons.ReadWriteLock.Refused.{create, create-Refuses}
use freertos_addons.ReadWriteLock.Created.{create_prefer_writer-IsNewWriter}

abbrev empty_kernel : Semaphores
empty_kernel = record { free = λ a. false; gone = λ a. false; next = 5 }

abbrev no_locks : LockWorld Semaphores
no_locks = record { kernel = empty_kernel; locks = λ a. none }

abbrev old_memory : RwLock
old_memory = record {
  lock_type = prefer_reader;
  read_count = pos 7;
  read_lock = 1;
  resource_lock = 1;
  write_count = pos 7;
  write_lock = 1;
  block_readers_lock = 1;
}

create_prefer_writer_example :
    (w' : LockWorld Semaphores) × (lock : RwLock) × (create_prefer_writer sample_rtos 100 old_memory
        no_locks
      ≡ ok 100 w')
    × (w'.locks 100 ≡ some lock)
    × IsNewWriter sample_rtos (record { lock = lock; kernel = w'.kernel })
create_prefer_writer_example =
    create_prefer_writer-IsNewWriter sample_rtos sample_rtos-IsRtos empty_kernel (omega arith)
      (omega arith) (omega arith) (omega arith) no_locks 100 old_memory refl (omega arith)

abbrev limited_rtos : Rtos
limited_rtos = record sample_rtos { create_binary = λ k. (null, k) }

-- ReadLock is created, and ResourceLock is not.
create-Refuses_example : create limited_rtos prefer_reader 100 old_memory no_locks ≡ fault
create-Refuses_example =
    create-Refuses limited_rtos prefer_reader no_locks 100 old_memory (omega arith) (inr refl)
