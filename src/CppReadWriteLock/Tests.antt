-- ===== src/CppReadWriteLock/Tests.antt =====
-- The C++ locks at a kernel that has created no semaphore yet: a run, and the theorems applied.
use freertos_addons.Prelude.{◌≡◌, refl, false, some, pos}
use freertos_addons.RtosSample.{sample_rtos, sample_rtos-IsRtos, Semaphores}
use freertos_addons.ReadWriteLock.{
  RwLock, prefer_writer, Shared, exec, in_reader_lock, test_first, read,
}
use freertos_addons.CppReadWriteLock.{
  step_code, construct_prefer_writer, construct, construct_derived, destruct,
}
use freertos_addons.CppReadWriteLock.Places.{rest_of}
use freertos_addons.CppReadWriteLock.Same.{map_run, same_steps}
use freertos_addons.CppReadWriteLock.Construct.{Cleans, construct_prefer_writer-Cleans}

abbrev empty_kernel : Semaphores
empty_kernel = record { free = λ a. false; gone = λ a. false; next = 5 }

-- A lock that one reader is about to enter.
abbrev one_reader : RwLock
one_reader = record {
  lock_type = prefer_writer;
  read_count = pos 1;
  read_lock = 1;
  resource_lock = 2;
  write_count = pos 0;
  write_lock = 3;
  block_readers_lock = 4;
}

abbrev sample : Shared Semaphores
sample = record { lock = one_reader; kernel = empty_kernel }

same_steps_example :
    map_run (rest_of prefer_writer) (exec sample_rtos read (in_reader_lock test_first) sample)
    ≡ step_code sample_rtos (rest_of prefer_writer (in_reader_lock test_first)) sample
same_steps_example =
    same_steps sample_rtos prefer_writer read (in_reader_lock test_first) sample refl tt

construct_prefer_writer_example :
    Cleans sample_rtos empty_kernel (construct_prefer_writer sample_rtos one_reader empty_kernel)
construct_prefer_writer_example =
    construct_prefer_writer-Cleans sample_rtos sample_rtos-IsRtos one_reader empty_kernel

-- The constructor makes its semaphores in this order.
construct_prefer_writer_handles :
    (construct_prefer_writer sample_rtos one_reader empty_kernel).0
    ≡ some (record {
      lock_type = prefer_writer;
      read_count = pos 0;
      read_lock = 5;
      resource_lock = 6;
      write_count = pos 0;
      write_lock = 7;
      block_readers_lock = 8;
    })
unfolding construct_prefer_writer construct construct_derived destruct
construct_prefer_writer_handles = refl
