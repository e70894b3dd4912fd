-- ===== src/ReadWriteLock/Tests.antt =====
-- Two tasks at a lock that prefers readers: one gets the lock for writing, the other one, which wants
-- to read, has to wait.
use freertos_addons.Prelude.{◌≢◌, false, ltb, ℕ, ◌≤◌, ◌≡◌, refl, [], ◌∷◌, arith, pos, ◌==◌, ◌||◌}
use freertos_addons.Machine.{fault, Run, ok, blocked, increment}
use freertos_addons.RtosSample.{sample_rtos, sample_rtos-IsRtos, Semaphores}
use freertos_addons.ReadWriteLock.{
  Step, LockType, take_write, count_writer, test_first_writer, block_readers, give_write,
  prefer_writer, Pc, idle, in_reader_lock, in_writer_lock, writing, take_read, count_reader,
  test_first, take_resource, await_resource, prefer_reader, Choice, read, write, RwLock, Shared,
  System, step, Reaches, start, then_step, exec, reader_lock, writer_lock,
}
use freertos_addons.ReadWriteLock.Tally.{total}
use freertos_addons.ReadWriteLock.Resource.{IsDistinct, is_reading, is_writing}
use freertos_addons.ReadWriteLock.Barrier.{is_bidding, is_entering}
use freertos_addons.ReadWriteLock.Preference.{IsNewWriter, bidder_bars_readers}
use freertos_addons.ReadWriteLock.Faults.{exec_never_faults}
use freertos_addons.ReadWriteLock.Exclusion.{IsNew, writer_excludes, readers_counted}

abbrev sample_lock : RwLock
sample_lock = record {
  lock_type = prefer_reader;
  read_count = pos 0;
  read_lock = 1;
  resource_lock = 2;
  write_count = pos 0;
  write_lock = 3;
  block_readers_lock = 4;
}

abbrev s0 : Shared Semaphores
s0 = record {
  lock = sample_lock;
  kernel = record { free = λ a. (a == 1) || (a == 2); gone = λ a. false; next = 9 };
}

sample-IsDistinct : (t : LockType) → IsDistinct (record sample_lock { lock_type = t })
sample-IsDistinct t = record {
  read_resource = omega arith;
  read_write = omega arith;
  read_block = omega arith;
  resource_write = omega arith;
  resource_block = omega arith;
  write_block = omega arith;
}

s0-IsNew : IsNew sample_rtos s0
s0-IsNew = record {
  no_readers = refl;
  distinct = sample-IsDistinct prefer_reader;
  read_free = refl;
  resource_free = refl;
}

-- The state after a step that returns.
abbrev state_of : Run (Shared Semaphores) Pc → Shared Semaphores → Shared Semaphores
state_of (ok p s) t = s
state_of r t = t

abbrev after : Choice → Pc → Shared Semaphores → Shared Semaphores
after c p s = state_of (exec sample_rtos c p s) s

abbrev s1 : Shared Semaphores
s1 = after write (in_writer_lock await_resource) s0

abbrev s2 : Shared Semaphores
s2 = after read (in_reader_lock take_read) s1

abbrev s3 : Shared Semaphores
s3 = after read (in_reader_lock count_reader) s2

abbrev waiting : System Semaphores
waiting = record { shared = s3; tasks = in_reader_lock take_resource ∷ writing ∷ [] }

sample_run : Reaches sample_rtos (record { shared = s0; tasks = idle ∷ idle ∷ [] }) waiting
unfolding exec reader_lock writer_lock increment
sample_run =
    then_step _ _ _
      (then_step _ _ _
        (then_step _ _ _
          (then_step _ _ _
            (then_step _ _ _
              (then_step _ _ _ (start _)
                (step write (idle ∷ []) [] idle (in_writer_lock await_resource) s0 s0 refl))
              (step write (idle ∷ []) [] (in_writer_lock await_resource) writing s0 s1 refl))
            (step read [] (writing ∷ []) idle (in_reader_lock take_read) s1 s1 refl))
          (step read [] (writing ∷ []) (in_reader_lock take_read) (in_reader_lock count_reader) s1
            s2 refl))
        (step read [] (writing ∷ []) (in_reader_lock count_reader) (in_reader_lock test_first) s2 s3
          refl))
      (step read [] (writing ∷ []) (in_reader_lock test_first) (in_reader_lock take_resource) s3 s3
        refl)

one_writer : 1 ≤ total is_writing waiting.tasks
unfolding total
one_writer = omega arith

-- The reader waits.
reader_waits : exec sample_rtos read (in_reader_lock take_resource) s3 ≡ blocked
unfolding exec reader_lock writer_lock increment
reader_waits = refl

writer_excludes_example :
    (total is_writing waiting.tasks ≡ 1) × (total is_reading waiting.tasks ≡ 0)
writer_excludes_example =
    writer_excludes sample_rtos sample_rtos-IsRtos 2 s0 waiting s0-IsNew sample_run one_writer

readers_counted_example :
    (count : ℕ) × (waiting.shared.lock.read_count ≡ pos count)
    × (total is_reading waiting.tasks ≤ count)
    × (1 ≤ total is_reading waiting.tasks → total is_writing waiting.tasks ≡ 0)
readers_counted_example =
    readers_counted sample_rtos sample_rtos-IsRtos 2 s0 waiting s0-IsNew sample_run

-- Two tasks at a lock that prefers writers: one waits for the resource as a writer.
abbrev w0 : Shared Semaphores
w0 = record {
  lock = record sample_lock { lock_type = prefer_writer };
  kernel = record { free = λ a. ltb a 5; gone = λ a. false; next = 9 };
}

w0-IsNewWriter : IsNewWriter sample_rtos w0
w0-IsNewWriter = record {
  new = record {
    no_readers = refl;
    distinct = sample-IsDistinct prefer_writer;
    read_free = refl;
    resource_free = refl;
  };
  prefers = refl;
  no_writers = refl;
  write_free = refl;
  block_free = refl;
}

abbrev w1 : Shared Semaphores
w1 = after write (in_writer_lock take_write) w0

abbrev w2 : Shared Semaphores
w2 = after write (in_writer_lock count_writer) w1

abbrev w3 : Shared Semaphores
w3 = after write (in_writer_lock block_readers) w2

abbrev w4 : Shared Semaphores
w4 = after write (in_writer_lock give_write) w3

abbrev bidding : System Semaphores
bidding = record { shared = w4; tasks = idle ∷ in_writer_lock await_resource ∷ [] }

-- The second task makes a step.
abbrev Second : (p q : Pc) (s t : Shared Semaphores) → Type 0
Second p q s t =
    Step sample_rtos (record { shared = s; tasks = idle ∷ p ∷ [] })
      (record { shared = t; tasks = idle ∷ q ∷ [] })

writer_run : Reaches sample_rtos (record { shared = w0; tasks = idle ∷ idle ∷ [] }) bidding
unfolding exec writer_lock increment
writer_run =
    let s1 : Second idle (in_writer_lock take_write) w0 w0 =
      step write (idle ∷ []) [] idle (in_writer_lock take_write) w0 w0 refl in
    let s2 : Second (in_writer_lock take_write) (in_writer_lock count_writer) w0 w1 =
      step write (idle ∷ []) [] (in_writer_lock take_write) (in_writer_lock count_writer) w0 w1
        refl in
    let s3 : Second (in_writer_lock count_writer) (in_writer_lock test_first_writer) w1 w2 =
      step write (idle ∷ []) [] (in_writer_lock count_writer) (in_writer_lock test_first_writer) w1
        w2 refl in
    let s4 : Second (in_writer_lock test_first_writer) (in_writer_lock block_readers) w2 w2 =
      step write (idle ∷ []) [] (in_writer_lock test_first_writer) (in_writer_lock block_readers) w2
        w2 refl in
    let s5 : Second (in_writer_lock block_readers) (in_writer_lock give_write) w2 w3 =
      step write (idle ∷ []) [] (in_writer_lock block_readers) (in_writer_lock give_write) w2 w3
        refl in
    let s6 : Second (in_writer_lock give_write) (in_writer_lock await_resource) w3 w4 =
      step write (idle ∷ []) [] (in_writer_lock give_write) (in_writer_lock await_resource) w3 w4
        refl in
    then_step _ _ _
      (then_step _ _ _
        (then_step _ _ _ (then_step _ _ _ (then_step _ _ _ (then_step _ _ _ (start _) s1) s2) s3)
          s4)
        s5)
      s6

one_bidder : 1 ≤ total is_bidding bidding.tasks
unfolding total
one_bidder = omega arith

bidder_bars_readers_example :
    (sample_rtos.available bidding.shared.lock.block_readers_lock bidding.shared.kernel ≡ false)
    × (total is_entering bidding.tasks ≡ 0)
bidder_bars_readers_example =
    bidder_bars_readers sample_rtos sample_rtos-IsRtos 2 w0 bidding w0-IsNewWriter writer_run
      one_bidder

exec_never_faults_example : exec sample_rtos read (in_writer_lock await_resource) w4 ≢ fault
exec_never_faults_example =
    exec_never_faults sample_rtos sample_rtos-IsRtos 2 w0 bidding w0-IsNewWriter writer_run read
      (idle ∷ []) [] (in_writer_lock await_resource) (omega arith) refl
