-- ===== src/CppReadWriteLock/Places.antt =====
-- The places of a task in the functions of c/Source/read_write_lock.c, as the statements that are left
-- of the methods of the classes.
use freertos_addons.Prelude.{ℕ, zero, suc, List, [], ◌∷◌}
use freertos_addons.ReadWriteLock.{
  Pc, idle, in_reader_lock, reading, in_reader_unlock, in_writer_lock, writing, in_writer_unlock,
  ReaderLockPc, ReaderUnlockPc, WriterLockPc, WriterUnlockPc, take_block_readers, take_read,
  count_reader, test_first, take_resource, give_read, give_block_readers, retake_read,
  uncount_reader, test_last, give_resource, regive_read, take_write, count_writer,
  test_first_writer, block_readers, give_write, await_resource, release_resource, retake_write,
  uncount_writer, test_last_writer, unblock_readers, regive_write, LockType, prefer_reader,
  prefer_writer,
}
use freertos_addons.CppReadWriteLock.{
  Statement, acquire, release, reader_lock_code, reader_unlock_code, writer_lock_code,
  writer_unlock_code,
}

-- The statements from the `n`th on.
abbrev pub from : ℕ → List Statement → List Statement
from zero code = code
from (suc n) [] = []
from (suc n) (statement ∷ code) = from n code

-- What a task at `pc` has left of the method that the function stands for. A lock that prefers
-- readers never reaches the places of the other class.
abbrev pub reader_lock_rest : LockType → ReaderLockPc → List Statement
reader_lock_rest prefer_reader take_read = from 0 (reader_lock_code prefer_reader)
reader_lock_rest prefer_reader count_reader = from 1 (reader_lock_code prefer_reader)
reader_lock_rest prefer_reader test_first = from 2 (reader_lock_code prefer_reader)
reader_lock_rest prefer_reader take_resource =
    acquire (λ l. l.resource_lock) ∷ from 3 (reader_lock_code prefer_reader)
reader_lock_rest prefer_reader give_read = from 3 (reader_lock_code prefer_reader)
reader_lock_rest prefer_reader pc = []
reader_lock_rest prefer_writer take_block_readers = from 0 (reader_lock_code prefer_writer)
reader_lock_rest prefer_writer take_read = from 1 (reader_lock_code prefer_writer)
reader_lock_rest prefer_writer count_reader = from 2 (reader_lock_code prefer_writer)
reader_lock_rest prefer_writer test_first = from 3 (reader_lock_code prefer_writer)
reader_lock_rest prefer_writer take_resource =
    acquire (λ l. l.resource_lock) ∷ from 4 (reader_lock_code prefer_writer)
reader_lock_rest prefer_writer give_read = from 4 (reader_lock_code prefer_writer)
reader_lock_rest prefer_writer give_block_readers = from 5 (reader_lock_code prefer_writer)

abbrev pub reader_unlock_rest : ReaderUnlockPc → List Statement
reader_unlock_rest retake_read = from 0 reader_unlock_code
reader_unlock_rest uncount_reader = from 1 reader_unlock_code
reader_unlock_rest test_last = from 2 reader_unlock_code
reader_unlock_rest give_resource = release (λ l. l.resource_lock) ∷ from 3 reader_unlock_code
reader_unlock_rest regive_read = from 3 reader_unlock_code

abbrev pub writer_lock_rest : LockType → WriterLockPc → List Statement
writer_lock_rest prefer_reader await_resource = from 0 (writer_lock_code prefer_reader)
writer_lock_rest prefer_reader pc = []
writer_lock_rest prefer_writer take_write = from 0 (writer_lock_code prefer_writer)
writer_lock_rest prefer_writer count_writer = from 1 (writer_lock_code prefer_writer)
writer_lock_rest prefer_writer test_first_writer = from 2 (writer_lock_code prefer_writer)
writer_lock_rest prefer_writer block_readers =
    acquire (λ l. l.block_readers_lock) ∷ from 3 (writer_lock_code prefer_writer)
writer_lock_rest prefer_writer give_write = from 3 (writer_lock_code prefer_writer)
writer_lock_rest prefer_writer await_resource = from 4 (writer_lock_code prefer_writer)

abbrev pub writer_unlock_rest : LockType → WriterUnlockPc → List Statement
writer_unlock_rest prefer_reader release_resource = from 0 (writer_unlock_code prefer_reader)
writer_unlock_rest prefer_reader pc = []
writer_unlock_rest prefer_writer release_resource = from 0 (writer_unlock_code prefer_writer)
writer_unlock_rest prefer_writer retake_write = from 1 (writer_unlock_code prefer_writer)
writer_unlock_rest prefer_writer uncount_writer = from 2 (writer_unlock_code prefer_writer)
writer_unlock_rest prefer_writer test_last_writer = from 3 (writer_unlock_code prefer_writer)
writer_unlock_rest prefer_writer unblock_readers =
    release (λ l. l.block_readers_lock) ∷ from 4 (writer_unlock_code prefer_writer)
writer_unlock_rest prefer_writer regive_write = from 4 (writer_unlock_code prefer_writer)

-- The statements that a task has left; none outside of the methods.
abbrev pub rest_of : LockType → Pc → List Statement
rest_of t (in_reader_lock pc) = reader_lock_rest t pc
rest_of t (in_reader_unlock pc) = reader_unlock_rest pc
rest_of t (in_writer_lock pc) = writer_lock_rest t pc
rest_of t (in_writer_unlock pc) = writer_unlock_rest t pc
rest_of t idle = []
rest_of t reading = []
rest_of t writing = []

-- The places that a lock of the type has in its functions.
abbrev pub IsPlace : LockType → Pc → Type 0
IsPlace prefer_reader (in_reader_lock take_block_readers) = ⊥
IsPlace prefer_reader (in_reader_lock give_block_readers) = ⊥
IsPlace prefer_reader (in_writer_lock await_resource) = Unit
IsPlace prefer_reader (in_writer_lock pc) = ⊥
IsPlace prefer_reader (in_writer_unlock release_resource) = Unit
IsPlace prefer_reader (in_writer_unlock pc) = ⊥
IsPlace t idle = ⊥
IsPlace t reading = ⊥
IsPlace t writing = ⊥
IsPlace t pc = Unit
