-- ===== src/CppReadWriteLock.antt =====
-- c++/Source/cread_write_lock.cpp: the classes ReadWriteLockPreferReader and
-- ReadWriteLockPreferWriter. A method is the list of its statements; a task that is in a method has
-- the statements that are left. An exception of a constructor is `none`.
pub mod Places
pub mod Same
pub mod Construct
mod Tests
use freertos_addons.Prelude.{ℕ, Option, none, some, List, [], ◌∷◌, ◌==◌, if◌then◌else◌, ℤ, pos}
use freertos_addons.Machine.{Run, ok, blocked, Cmd, ◌>>=◌, increment, decrement}
use freertos_addons.Memory.{Ptr, null}
use freertos_addons.Rtos.{Rtos}
use freertos_addons.ReadWriteLock.{
  RwLock, LockType, prefer_reader, prefer_writer, Shared, is_number,
}

-- The two counts.
pub data Counter : Type 0 where
  readers : Counter
  writers : Counter

pub data Statement : Type 0 where
  -- xSemaphoreTake(…, portMAX_DELAY) and xSemaphoreGive
  acquire : (RwLock → Ptr) → Statement
  release : (RwLock → Ptr) → Statement
  -- `++` and `--`
  up_one : Counter → Statement
  down_one : Counter → Statement
  -- `if (count == n) { xSemaphoreTake(…) }` and the same with xSemaphoreGive
  acquire_if : ℕ → Counter → (RwLock → Ptr) → Statement
  release_if : ℕ → Counter → (RwLock → Ptr) → Statement

-- ReadWriteLockPreferReader::ReaderLock
abbrev pub reader_lock_prefer_reader : List Statement
reader_lock_prefer_reader =
    acquire (λ l. l.read_lock)
    ∷ up_one readers
    ∷ acquire_if 1 readers (λ l. l.resource_lock)
    ∷ release (λ l. l.read_lock)
    ∷ []

-- ReadWriteLockPreferWriter::ReaderLock
abbrev pub reader_lock_prefer_writer : List Statement
reader_lock_prefer_writer =
    acquire (λ l. l.block_readers_lock)
    ∷ acquire (λ l. l.read_lock)
    ∷ up_one readers
    ∷ acquire_if 1 readers (λ l. l.resource_lock)
    ∷ release (λ l. l.read_lock)
    ∷ release (λ l. l.block_readers_lock)
    ∷ []

unfoldable pub reader_lock_code : LockType → List Statement
reader_lock_code prefer_reader = reader_lock_prefer_reader
reader_lock_code prefer_writer = reader_lock_prefer_writer

-- ReaderUnlock, the same in both classes
unfoldable pub reader_unlock_code : List Statement
reader_unlock_code =
    acquire (λ l. l.read_lock)
    ∷ down_one readers
    ∷ release_if 0 readers (λ l. l.resource_lock)
    ∷ release (λ l. l.read_lock)
    ∷ []

-- ReadWriteLockPreferReader::WriterLock
abbrev pub writer_lock_prefer_reader : List Statement
writer_lock_prefer_reader = acquire (λ l. l.resource_lock) ∷ []

-- ReadWriteLockPreferWriter::WriterLock
abbrev pub writer_lock_prefer_writer : List Statement
writer_lock_prefer_writer =
    acquire (λ l. l.write_lock)
    ∷ up_one writers
    ∷ acquire_if 1 writers (λ l. l.block_readers_lock)
    ∷ release (λ l. l.write_lock)
    ∷ acquire (λ l. l.resource_lock)
    ∷ []

unfoldable pub writer_lock_code : LockType → List Statement
writer_lock_code prefer_reader = writer_lock_prefer_reader
writer_lock_code prefer_writer = writer_lock_prefer_writer

-- ReadWriteLockPreferReader::WriterUnlock
abbrev pub writer_unlock_prefer_reader : List Statement
writer_unlock_prefer_reader = release (λ l. l.resource_lock) ∷ []

-- ReadWriteLockPreferWriter::WriterUnlock
abbrev pub writer_unlock_prefer_writer : List Statement
writer_unlock_prefer_writer =
    release (λ l. l.resource_lock)
    ∷ acquire (λ l. l.write_lock)
    ∷ down_one writers
    ∷ release_if 0 writers (λ l. l.block_readers_lock)
    ∷ release (λ l. l.write_lock)
    ∷ []

unfoldable pub writer_unlock_code : LockType → List Statement
writer_unlock_code prefer_reader = writer_unlock_prefer_reader
writer_unlock_code prefer_writer = writer_unlock_prefer_writer

abbrev pub count_of : Counter → RwLock → ℤ
count_of readers lock = lock.read_count
count_of writers lock = lock.write_count

abbrev pub with_count_of : Counter → ℤ → RwLock → RwLock
with_count_of readers n lock = record lock { read_count = n }
with_count_of writers n lock = record lock { write_count = n }

module _ {K : Type 0} where
  abbrev pub acquired : List Statement → Shared K → Option K → Run (Shared K) (List Statement)
  acquired rest s none = blocked
  acquired rest s (some k) = ok rest (record s { kernel = k })

  abbrev pub store_count : Counter → List Statement → ℤ → Cmd (Shared K) (List Statement)
  store_count c rest n s = ok rest (record s { lock = with_count_of c n s.lock })

-- One step of a method: the statements that are left.
unfoldable pub step_code : (os : Rtos) → List Statement → Cmd (Shared os.Kernel) (List Statement)
step_code os [] s = ok [] s
step_code os (acquire semaphore ∷ rest) s = acquired rest s (os.take (semaphore s.lock) s.kernel)
step_code os (release semaphore ∷ rest) s =
    ok rest (record s { kernel = os.give (semaphore s.lock) s.kernel })
step_code os (up_one c ∷ rest) s = (increment (count_of c s.lock) >>= store_count c rest) s
step_code os (down_one c ∷ rest) s = (decrement (count_of c s.lock) >>= store_count c rest) s
step_code os (acquire_if n c semaphore ∷ rest) s =
    ok (if is_number n (count_of c s.lock) then acquire semaphore ∷ rest else rest) s
step_code os (release_if n c semaphore ∷ rest) s =
    ok (if is_number n (count_of c s.lock) then release semaphore ∷ rest else rest) s

-- What a constructor leaves: the object, unless it has thrown, and the kernel.
abbrev pub Constructed : Type 0 → Type 0
Constructed K = Option RwLock × K

module _ (os : Rtos) where
  -- ReadWriteLock::ReadWriteLock, for an object whose other fields are those of `object`
  unfoldable pub construct : (object : RwLock) → os.Kernel → Constructed os.Kernel
  construct object k =
      let (read_lock, k1) = os.create_mutex k in
      if read_lock == null
      then (none, k1)
      else (let (resource_lock, k2) = os.create_binary k1 in
          if resource_lock == null then (none, os.delete read_lock k2) else (
            some (record object {
              read_count = pos 0;
              read_lock = read_lock;
              resource_lock = resource_lock;
            }),
            os.give resource_lock k2,
          ))

  -- ReadWriteLock::~ReadWriteLock
  unfoldable pub destruct : RwLock → os.Kernel → os.Kernel
  destruct lock k = os.delete lock.resource_lock (os.delete lock.read_lock k)

  -- The rest of ReadWriteLockPreferWriter::ReadWriteLockPreferWriter, after its base class. Where it
  -- throws, the destructor of the base class runs.
  unfoldable pub construct_derived : RwLock → os.Kernel → Constructed os.Kernel
  unfolding destruct
  construct_derived base k =
      let (write_lock, k1) = os.create_mutex k in
      if write_lock == null
      then (none, destruct base k1)
      else (let (block_readers_lock, k2) = os.create_binary k1 in
          if block_readers_lock == null then (none, destruct base (os.delete write_lock k2)) else (
            some (record base {
              write_count = pos 0;
              write_lock = write_lock;
              block_readers_lock = block_readers_lock;
            }),
            os.give block_readers_lock k2,
          ))

  abbrev then_derived : Constructed os.Kernel → Constructed os.Kernel
  then_derived (none, k) = (none, k)
  then_derived (some base, k) = construct_derived base k

  -- ReadWriteLockPreferWriter::ReadWriteLockPreferWriter
  unfoldable pub construct_prefer_writer : (object : RwLock) → os.Kernel → Constructed os.Kernel
  construct_prefer_writer object k =
      then_derived (construct (record object { lock_type = prefer_writer }) k)

  -- ReadWriteLockPreferWriter::~ReadWriteLockPreferWriter, and that of the base class
  unfoldable pub destruct_prefer_writer : RwLock → os.Kernel → os.Kernel
  unfolding destruct
  destruct_prefer_writer lock k =
      destruct lock (os.delete lock.block_readers_lock (os.delete lock.write_lock k))
