-- ===== src/ReadWriteLock/Exclusion.antt =====
-- Mutual exclusion of the readers and writers of one lock, for any number of tasks, and why no count
-- of the readers leaves its range.
use native.Mathlib.Decide.{ℕ_discrete}
use freertos_addons.Prelude.{ℕ, zero, suc, ◌≤◌, ◌≡◌, refl, true, List, [], ◌∷◌, arith, pos, ap}
use freertos_addons.Rtos.{Rtos, IsRtos}
use freertos_addons.ReadWriteLock.{
  Pc, idle, in_reader_lock, reading, in_reader_unlock, in_writer_lock, writing, in_writer_unlock,
  take_block_readers, take_read, take_write, await_resource, Shared, Choice, read, write, exec,
  System, Reaches,
}
use freertos_addons.ReadWriteLock.Group.{IsGroup-outer}
use freertos_addons.ReadWriteLock.Tally.{Ensures, total, up, by_type-cases}
use freertos_addons.ReadWriteLock.Resource.{
  holds_read, is_testing_first, is_locking, is_testing_last, is_unlocking, is_reading, is_counted,
  is_writing, IsDistinct, Exclusive, Kept, moved,
}
use freertos_addons.ReadWriteLock.Reach.{Reaches-keeps}
use freertos_addons.ReadWriteLock.Readers.{reader_lock_keeps, reader_unlock_keeps}
use freertos_addons.ReadWriteLock.Writers.{writer_lock_keeps, writer_unlock_keeps}

-- The invariant of the system.
abbrev pub IsExclusive : (os : Rtos) → System os.Kernel → Type 0
IsExclusive os y = Exclusive os y.shared (λ weight. total weight y.tasks)

module _ (os : Rtos) (laws : IsRtos os) where
  -- Every step of a task keeps the invariant.
  exec_keeps :
      (rest : List Pc) (c : Choice) (p : Pc) (s : Shared os.Kernel)
      → Kept os rest p s
      → Ensures (Kept os rest) (exec os c p s)
  unfolding exec
  exec_keeps rest read idle s inv =
      by_type-cases (λ q. Kept os rest q s) (in_reader_lock take_read)
        (in_reader_lock take_block_readers) s
        (moved os rest idle _ s s.kernel inv refl refl refl refl refl refl refl)
        (moved os rest idle _ s s.kernel inv refl refl refl refl refl refl refl)
  exec_keeps rest write idle s inv =
      by_type-cases (λ q. Kept os rest q s) (in_writer_lock await_resource)
        (in_writer_lock take_write) s
        (moved os rest idle _ s s.kernel inv refl refl refl refl refl refl refl)
        (moved os rest idle _ s s.kernel inv refl refl refl refl refl refl refl)
  exec_keeps rest c (in_reader_lock pc) s inv = reader_lock_keeps os laws rest pc s inv
  exec_keeps rest c reading s inv =
      moved os rest reading _ s s.kernel inv refl refl refl refl refl refl refl
  exec_keeps rest c (in_reader_unlock pc) s inv = reader_unlock_keeps os laws rest pc s inv
  exec_keeps rest c (in_writer_lock pc) s inv = writer_lock_keeps os laws rest pc s inv
  exec_keeps rest c writing s inv =
      moved os rest writing _ s s.kernel inv refl refl refl refl refl refl refl
  exec_keeps rest c (in_writer_unlock pc) s inv = writer_unlock_keeps os laws rest pc s inv

-- A lock as it is created, with its tasks outside.
pub record IsNew (os : Rtos) (s : Shared os.Kernel) : Type 0 where
  pub no_readers : s.lock.read_count ≡ pos 0
  pub distinct : IsDistinct s.lock
  pub read_free : os.available s.lock.read_lock s.kernel ≡ true
  pub resource_free : os.available s.lock.resource_lock s.kernel ≡ true

-- `n` tasks outside.
abbrev pub outsiders : ℕ → List Pc
outsiders zero = []
outsiders (suc n) = idle ∷ outsiders n

pub total-outsiders : (weight : Pc → ℕ) (n : ℕ) → weight idle ≡ 0 → total weight (outsiders n) ≡ 0
unfolding total
total-outsiders weight zero e = refl
total-outsiders weight (suc n) e = omega (arith, total-outsiders weight n e)

module _ (os : Rtos) (laws : IsRtos os) (n : ℕ) (s : Shared os.Kernel) (z : System os.Kernel)
    (new : IsNew os s) (run : Reaches os (record { shared = s; tasks = outsiders n }) z) where
  new-IsExclusive : IsExclusive os (record { shared = s; tasks = outsiders n })
  new-IsExclusive =
      let none = λ (weight : Pc → ℕ) (e : weight idle ≡ 0). total-outsiders weight n e in
      let i = ap up new.read_free in
      let o = ap up new.resource_free in
      record {
        count = 0;
        counts = new.no_readers;
        distinct = new.distinct;
        group = record {
          inner_held = omega (
            arith,
            none holds_read refl,
            none is_testing_first refl,
            none is_locking refl,
            none is_testing_last refl,
            none is_unlocking refl,
          );
          all_counted = omega (
            arith,
            none is_reading refl,
            none is_counted refl,
            none is_testing_first refl,
            none is_locking refl,
          );
          none_in = λ z.
              omega
                (arith, none is_writing refl, none is_testing_last refl, none is_unlocking refl);
          one_in = λ z. absurd (omega arith);
          more_in = λ z. absurd (omega arith);
          locks_first = λ z. absurd (omega (arith, none is_locking refl));
          unlocks_last = λ z. refl;
        };
      }

  pub reached-Exclusive : Exclusive os z.shared (λ weight. total weight z.tasks)
  reached-Exclusive = Reaches-keeps os (Exclusive os) (exec_keeps os laws) run new-IsExclusive

  -- In every state that any number of tasks reach, in any order of their steps, through ReaderLock,
  -- ReaderUnlock, WriterLock and WriterUnlock on a new lock of either kind: if a writer holds the
  -- resource, then it is the only one, and no reader has the lock.
  pub writer_excludes :
      1 ≤ total is_writing z.tasks → (total is_writing z.tasks ≡ 1) × (total is_reading z.tasks ≡ 0)
  writer_excludes some =
      let inv = reached-Exclusive in
      let (_, alone, nobody) = IsGroup-outer inv.group some in (alone, nobody)

  -- In every state that any number of tasks reach from a new lock of either kind, ReadCount is not
  -- negative and at least the number of tasks that have the lock for reading, and if there is such
  -- a task, no writer holds the resource.
  pub readers_counted :
      (count : ℕ) × (z.shared.lock.read_count ≡ pos count)
      × (total is_reading z.tasks ≤ count)
      × (1 ≤ total is_reading z.tasks → total is_writing z.tasks ≡ 0)
  readers_counted =
      let inv = reached-Exclusive in
      (
        inv.count,
        inv.counts,
        omega (arith, inv.group.all_counted),
        λ some. elim (ℕ_discrete (total is_writing z.tasks) 0) [
          | yes none ↦ none
          | no other ↦
              let (_, _, nobody) = IsGroup-outer inv.group (omega arith) in absurd (omega arith)
        ],
      )
