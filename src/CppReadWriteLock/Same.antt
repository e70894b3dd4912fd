-- ===== src/CppReadWriteLock/Same.antt =====
-- The methods of the classes take the steps of the functions of c/Source/read_write_lock.c.
use freertos_addons.Prelude.{
  ◌≡◌, refl, ap, Bool, true, false, Option, none, some, List, ℤ, if◌then◌else◌,
}
use freertos_addons.Machine.{
  Run, ok, fault, blocked, out_of_fuel, Cmd, and_then, increment, decrement,
}
use freertos_addons.Rtos.{Rtos}
use freertos_addons.ReadWriteLock.{
  Pc, idle, in_reader_lock, reading, in_reader_unlock, in_writer_lock, writing, in_writer_unlock,
  ReaderLockPc, ReaderUnlockPc, WriterLockPc, WriterUnlockPc, take_block_readers, take_read,
  count_reader, test_first, take_resource, give_read, give_block_readers, retake_read,
  uncount_reader, test_last, give_resource, regive_read, take_write, count_writer,
  test_first_writer, block_readers, give_write, await_resource, release_resource, retake_write,
  uncount_writer, test_last_writer, unblock_readers, regive_write, LockType, prefer_reader,
  prefer_writer, Shared, is_number, taken, reader_lock, reader_unlock, writer_lock, writer_unlock,
  Choice, exec,
}
use freertos_addons.CppReadWriteLock.{
  Statement, reader_lock_code, reader_unlock_code, writer_lock_code, writer_unlock_code, acquired,
  step_code,
}
use freertos_addons.CppReadWriteLock.Places.{rest_of, IsPlace}

abbrev pub map_run : {S A B : Type 0} → (A → B) → Run S A → Run S B
map_run f (ok a s) = ok (f a) s
map_run f fault = fault
map_run f blocked = blocked
map_run f out_of_fuel = out_of_fuel

if_same :
    (t : LockType) (b : Bool) (p q : Pc)
    → rest_of t (if b then p else q) ≡ (if b then rest_of t p else rest_of t q)
if_same t true p q = refl
if_same t false p q = refl

module _ {K : Type 0} where
  taken_same :
      (t : LockType) (q : Pc) (s : Shared K) (o : Option K)
      → map_run (rest_of t) (taken q s o) ≡ acquired (rest_of t q) s o
  taken_same t q s none = refl
  taken_same t q s (some k) = refl

  bind_same :
      {A B : Type 0} (f : A → B) (r : Run (Shared K) ℤ) (g : ℤ → Cmd (Shared K) A)
      (h : ℤ → Cmd (Shared K) B)
      → ((n : ℤ) (s : Shared K) → map_run f (g n s) ≡ h n s)
      → map_run f (and_then r g) ≡ and_then r h
  bind_same f (ok n s) g h same = same n s
  bind_same f fault g h same = refl
  bind_same f blocked g h same = refl
  bind_same f out_of_fuel g h same = refl

reader_lock_same :
    (os : Rtos) (t : LockType) (pc : ReaderLockPc) (s : Shared os.Kernel)
    → s.lock.lock_type ≡ t
    → IsPlace t (in_reader_lock pc)
    → map_run (rest_of t) (reader_lock os pc s) ≡ step_code os (rest_of t (in_reader_lock pc)) s
unfolding reader_lock step_code reader_lock_code
reader_lock_same os prefer_reader take_block_readers s e place = absurd place
reader_lock_same os prefer_reader take_read s e place =
    taken_same prefer_reader (in_reader_lock count_reader) s (os.take s.lock.read_lock s.kernel)
reader_lock_same os prefer_reader count_reader s e place =
    bind_same (rest_of prefer_reader) (increment s.lock.read_count s) _ _ (λ n v. refl)
reader_lock_same os prefer_reader test_first s e place =
    ap (λ (r : List Statement). ok r s)
      (if_same prefer_reader (is_number 1 s.lock.read_count) (in_reader_lock take_resource)
        (in_reader_lock give_read))
reader_lock_same os prefer_reader take_resource s e place =
    taken_same prefer_reader (in_reader_lock give_read) s (os.take s.lock.resource_lock s.kernel)
reader_lock_same os prefer_reader give_read s e place = rw e refl
reader_lock_same os prefer_reader give_block_readers s e place = absurd place
reader_lock_same os prefer_writer take_block_readers s e place =
    taken_same prefer_writer (in_reader_lock take_read) s
      (os.take s.lock.block_readers_lock s.kernel)
reader_lock_same os prefer_writer take_read s e place =
    taken_same prefer_writer (in_reader_lock count_reader) s (os.take s.lock.read_lock s.kernel)
reader_lock_same os prefer_writer count_reader s e place =
    bind_same (rest_of prefer_writer) (increment s.lock.read_count s) _ _ (λ n v. refl)
reader_lock_same os prefer_writer test_first s e place =
    ap (λ (r : List Statement). ok r s)
      (if_same prefer_writer (is_number 1 s.lock.read_count) (in_reader_lock take_resource)
        (in_reader_lock give_read))
reader_lock_same os prefer_writer take_resource s e place =
    taken_same prefer_writer (in_reader_lock give_read) s (os.take s.lock.resource_lock s.kernel)
reader_lock_same os prefer_writer give_read s e place = rw e refl
reader_lock_same os prefer_writer give_block_readers s e place = refl

reader_unlock_same :
    (os : Rtos) (t : LockType) (pc : ReaderUnlockPc) (s : Shared os.Kernel)
    → s.lock.lock_type ≡ t
    → IsPlace t (in_reader_unlock pc)
    → map_run (rest_of t) (reader_unlock os pc s) ≡ step_code os (rest_of t (in_reader_unlock pc)) s
unfolding reader_unlock step_code reader_unlock_code
reader_unlock_same os prefer_reader retake_read s e place =
    taken_same prefer_reader (in_reader_unlock uncount_reader) s (os.take s.lock.read_lock s.kernel)
reader_unlock_same os prefer_reader uncount_reader s e place =
    bind_same (rest_of prefer_reader) (decrement s.lock.read_count s) _ _ (λ n v. refl)
reader_unlock_same os prefer_reader test_last s e place =
    ap (λ (r : List Statement). ok r s)
      (if_same prefer_reader (is_number 0 s.lock.read_count) (in_reader_unlock give_resource)
        (in_reader_unlock regive_read))
reader_unlock_same os prefer_reader give_resource s e place = refl
reader_unlock_same os prefer_reader regive_read s e place = refl
reader_unlock_same os prefer_writer retake_read s e place =
    taken_same prefer_writer (in_reader_unlock uncount_reader) s (os.take s.lock.read_lock s.kernel)
reader_unlock_same os prefer_writer uncount_reader s e place =
    bind_same (rest_of prefer_writer) (decrement s.lock.read_count s) _ _ (λ n v. refl)
reader_unlock_same os prefer_writer test_last s e place =
    ap (λ (r : List Statement). ok r s)
      (if_same prefer_writer (is_number 0 s.lock.read_count) (in_reader_unlock give_resource)
        (in_reader_unlock regive_read))
reader_unlock_same os prefer_writer give_resource s e place = refl
reader_unlock_same os prefer_writer regive_read s e place = refl

writer_lock_same :
    (os : Rtos) (t : LockType) (pc : WriterLockPc) (s : Shared os.Kernel)
    → s.lock.lock_type ≡ t
    → IsPlace t (in_writer_lock pc)
    → map_run (rest_of t) (writer_lock os pc s) ≡ step_code os (rest_of t (in_writer_lock pc)) s
unfolding writer_lock step_code writer_lock_code
writer_lock_same os prefer_reader take_write s e place = absurd place
writer_lock_same os prefer_reader count_writer s e place = absurd place
writer_lock_same os prefer_reader test_first_writer s e place = absurd place
writer_lock_same os prefer_reader block_readers s e place = absurd place
writer_lock_same os prefer_reader give_write s e place = absurd place
writer_lock_same os prefer_reader await_resource s e place =
    taken_same prefer_reader (writing) s (os.take s.lock.resource_lock s.kernel)
writer_lock_same os prefer_writer take_write s e place =
    taken_same prefer_writer (in_writer_lock count_writer) s (os.take s.lock.write_lock s.kernel)
writer_lock_same os prefer_writer count_writer s e place =
    bind_same (rest_of prefer_writer) (increment s.lock.write_count s) _ _ (λ n v. refl)
writer_lock_same os prefer_writer test_first_writer s e place =
    ap (λ (r : List Statement). ok r s)
      (if_same prefer_writer (is_number 1 s.lock.write_count) (in_writer_lock block_readers)
        (in_writer_lock give_write))
writer_lock_same os prefer_writer block_readers s e place =
    taken_same prefer_writer (in_writer_lock give_write) s
      (os.take s.lock.block_readers_lock s.kernel)
writer_lock_same os prefer_writer give_write s e place = refl
writer_lock_same os prefer_writer await_resource s e place =
    taken_same prefer_writer (writing) s (os.take s.lock.resource_lock s.kernel)

writer_unlock_same :
    (os : Rtos) (t : LockType) (pc : WriterUnlockPc) (s : Shared os.Kernel)
    → s.lock.lock_type ≡ t
    → IsPlace t (in_writer_unlock pc)
    → map_run (rest_of t) (writer_unlock os pc s) ≡ step_code os (rest_of t (in_writer_unlock pc)) s
unfolding writer_unlock step_code writer_unlock_code
writer_unlock_same os prefer_reader release_resource s e place = rw e refl
writer_unlock_same os prefer_reader retake_write s e place = absurd place
writer_unlock_same os prefer_reader uncount_writer s e place = absurd place
writer_unlock_same os prefer_reader test_last_writer s e place = absurd place
writer_unlock_same os prefer_reader unblock_readers s e place = absurd place
writer_unlock_same os prefer_reader regive_write s e place = absurd place
writer_unlock_same os prefer_writer release_resource s e place = rw e refl
writer_unlock_same os prefer_writer retake_write s e place =
    taken_same prefer_writer (in_writer_unlock uncount_writer) s
      (os.take s.lock.write_lock s.kernel)
writer_unlock_same os prefer_writer uncount_writer s e place =
    bind_same (rest_of prefer_writer) (decrement s.lock.write_count s) _ _ (λ n v. refl)
writer_unlock_same os prefer_writer test_last_writer s e place =
    ap (λ (r : List Statement). ok r s)
      (if_same prefer_writer (is_number 0 s.lock.write_count) (in_writer_unlock unblock_readers)
        (in_writer_unlock regive_write))
writer_unlock_same os prefer_writer unblock_readers s e place = refl
writer_unlock_same os prefer_writer regive_write s e place = refl

-- At every place of a method of the C++ locks, a step of the C function and the step of the C++
-- statement that stands there have the same outcome: the same wait or fault, or the same state and
-- the statements behind the place that the C function goes to.
pub same_steps :
    (os : Rtos) (t : LockType) (c : Choice) (p : Pc) (s : Shared os.Kernel)
    → s.lock.lock_type ≡ t
    → IsPlace t p
    → map_run (rest_of t) (exec os c p s) ≡ step_code os (rest_of t p) s
unfolding exec
same_steps os t c (in_reader_lock pc) s e place = reader_lock_same os t pc s e place
same_steps os t c (in_reader_unlock pc) s e place = reader_unlock_same os t pc s e place
same_steps os t c (in_writer_lock pc) s e place = writer_lock_same os t pc s e place
same_steps os t c (in_writer_unlock pc) s e place = writer_unlock_same os t pc s e place
same_steps os prefer_reader c idle s e place = absurd place
same_steps os prefer_writer c idle s e place = absurd place
same_steps os prefer_reader c reading s e place = absurd place
same_steps os prefer_writer c reading s e place = absurd place
same_steps os prefer_reader c writing s e place = absurd place
same_steps os prefer_writer c writing s e place = absurd place
