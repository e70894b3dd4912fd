-- ===== src/ZeroCopyQueue/Tests.antt =====
-- A zero copy queue at 3000, at concrete states: the theorems applied.
use freertos_addons.Prelude.{
  inl, ℕ, ◌+◌, ◌≡◌, refl, true, false, none, some, Option, List, [], ◌∷◌, ◌++◌, arith, pos, length,
  ◌==◌, if◌then◌else◌, ltb, rounds_of,
}
use freertos_addons.Machine.{ok, fault, ◌>>=◌, ◌>>◌}
use freertos_addons.Memory.{Ptr, null, no_memory}
use freertos_addons.Memory.Sample.{fields}
use freertos_addons.Rtos.{Rtos, IsRtos}
use freertos_addons.RtosSample.{sample_rtos, sample_rtos-IsRtos, Semaphores}
use freertos_addons.World.{World, PoolInfo, Fresh}
use freertos_addons.MemPool.{
  at_least_pointer, calculate_and_verify_alignment, find_bit, calculate_item_size, in_int,
}
use freertos_addons.MemPool.Errors.{create_memory_pool_refused}
use freertos_addons.MemPool.Blocks.{IsPool}
use freertos_addons.ZeroCopyQueue.{
  Info, ZcqWorld, zcq_create_queue, zcq_enqueue_item, zcq_dequeue_item, zcq_free_item, with_kernel,
}
use freertos_addons.ZeroCopyQueue.Kernel.{Queues, IsQueues, Turns}
use freertos_addons.ZeroCopyQueue.Create.{zcq_create_queue-refused}
use freertos_addons.ZeroCopyQueue.Pass.{pass_all, dequeue_all-enqueue_all, free-pass}

-- The semaphores of the sample, and one queue.
record Kernel : Type 0 where
  semaphores : Semaphores
  items : List Ptr
  capacity : ℕ

abbrev lifted : (Semaphores → Ptr × Semaphores) → Kernel → Ptr × Kernel
lifted f k = ((f k.semaphores).0, record k { semaphores = (f k.semaphores).1 })

abbrev taken : Kernel → Option Semaphores → Option Kernel
taken k none = none
taken k (some s) = some (record k { semaphores = s })

abbrev kernel : Rtos
kernel = record {
  Kernel = Kernel;
  available = λ h k. sample_rtos.available h k.semaphores;
  live = λ h k. sample_rtos.live h k.semaphores;
  take = λ h k. taken k (sample_rtos.take h k.semaphores);
  give = λ h k. record k { semaphores = sample_rtos.give h k.semaphores };
  create_mutex = lifted sample_rtos.create_mutex;
  create_binary = lifted sample_rtos.create_binary;
  delete = λ h k. record k { semaphores = sample_rtos.delete h k.semaphores };
}

taken-some :
    (h : Ptr) (k k' : Kernel) (o : Option Semaphores)
    → taken k o ≡ some k'
    → (s : Semaphores) × (o ≡ some s)
taken-some h k k' none e = absurd (cc e)
taken-some h k k' (some s) e = (s, refl)

kernel-IsRtos : IsRtos kernel
kernel-IsRtos = record {
  take_available = λ h k e.
      let (s, got, spent, others) = sample_rtos-IsRtos.take_available h k.semaphores e in
      (record k { semaphores = s }, rw got refl, spent, others);
  take_some = λ h k k' e.
      let (s, got) = taken-some h k k' (sample_rtos.take h k.semaphores) e in
      sample_rtos-IsRtos.take_some h k.semaphores s got;
  give_available = λ h k. sample_rtos-IsRtos.give_available h k.semaphores;
  give_same = λ h k. sample_rtos-IsRtos.give_same h k.semaphores;
  create_mutex_available = λ k. sample_rtos-IsRtos.create_mutex_available k.semaphores;
  create_mutex_same = λ k. sample_rtos-IsRtos.create_mutex_same k.semaphores;
  create_binary_same = λ k. sample_rtos-IsRtos.create_binary_same k.semaphores;
  create_mutex_live = λ k.
      let c = sample_rtos-IsRtos.create_mutex_live k.semaphores in
      record { fresh = c.fresh; made = c.made; others = c.others };
  create_binary_live = λ k.
      let c = sample_rtos-IsRtos.create_binary_live k.semaphores in
      record { fresh = c.fresh; made = c.made; others = c.others };
  give_live = λ h k. sample_rtos-IsRtos.give_live h k.semaphores;
  delete_live = λ h k. sample_rtos-IsRtos.delete_live h k.semaphores;
  delete_same = λ h k. sample_rtos-IsRtos.delete_same h k.semaphores;
}

abbrev received : Kernel → List Ptr → Option Ptr × Kernel
received k [] = (none, k)
received k (item ∷ items) = (some item, record k { items = items })

-- A queue is always created with the handle 77.
abbrev queues : Queues kernel
queues = record {
  create = λ n k. (77, record k { items = []; capacity = rounds_of n });
  delete = λ h k. k;
  send = λ h item timeout k.
      if ltb (length k.items) k.capacity
      then (true, record k { items = k.items ++ item ∷ [] })
      else (false, k);
  receive = λ h timeout k. received k k.items;
  contents = λ h k. k.items;
  capacity = λ h k. k.capacity;
}

queues-IsQueues : IsQueues kernel queues
queues-IsQueues = record {
  create_empty = λ n k ne. record { contents = refl; capacity = refl; locks = λ a. refl };
  send_room = λ h item timeout k lt.
      let room : ltb (length k.items) k.capacity ≡ true = ground arith in rw room refl;
  send_back = λ h item timeout k lt.
      let room : ltb (length k.items) k.capacity ≡ true = ground arith in
      rw room (record { contents = refl; capacity = refl; locks = λ a. refl });
  receive_item = λ h item items timeout k e. rw e refl;
  receive_front = λ h item items timeout k e.
      rw e (record { contents = refl; capacity = refl; locks = λ a. refl });
  receive_none =
      λ h k e. rw e (refl, record { contents = refl; capacity = refl; locks = λ a. refl });
}

-- A queue for two items, with a pool at 1000 that has the free block 1032; 1064 is in use.
abbrev sample_pool : PoolInfo
sample_pool = record { lock = 5; item_size = 32; alignment = 8 }

abbrev sample : ZcqWorld Kernel
sample = record {
  world = record {
    mem = record no_memory {
      sl_next = fields ((1016, 1032) ∷ (1032, null) ∷ (1064, 77) ∷ []);
      count = fields ((1008, pos 1) ∷ []);
    };
    kernel = record {
      semaphores = record { free = λ a. a == 5; gone = λ a. false; next = 6 };
      items = [];
      capacity = 2;
    };
    pool = fields ((1000, sample_pool) ∷ []);
    blocks = fields ((1000, 136) ∷ []);
  };
  zcqs = fields ((3000, record { pool = 1000; handle = 77 }) ∷ []);
}

abbrev sample-IsPool : IsPool kernel sample.world 1000 sample_pool (1032 ∷ [])
sample-IsPool = record {
  ne_null = omega arith;
  fields = refl;
  unlocked = refl;
  stack = record {
    ne_null = omega arith;
    count = refl;
    chain = record {
      nodes = record { distinct = (refl, (refl, tt)); ne_null = refl };
      linked = (refl, (refl, tt));
    };
  };
}

abbrev fresh : Ptr → Fresh
fresh p = record {
  address = p;
  pointers = λ a. 0;
  ints = λ a. pos 0;
  infos = λ a. record { lock = 0; item_size = 0; alignment = 0 };
}

abbrev old : Info
old = record { pool = 9; handle = 9 }

alignment_8 : calculate_and_verify_alignment (pos 8) ≡ some 8
unfolding calculate_and_verify_alignment at_least_pointer find_bit
alignment_8 = refl

size_16 : (s : World Kernel) → calculate_item_size (pos 8) 8 s ≡ ok 16 s
unfolding calculate_item_size in_int
size_16 s = refl

-- There is no memory for the pool.
zcq_create_queue-refused_example :
    zcq_create_queue kernel queues (fresh 4000) (fresh null) old (pos 8) (pos 2) (pos 8) sample
    ≡ fault
zcq_create_queue-refused_example =
    zcq_create_queue-refused kernel queues sample (fresh 4000) (fresh null) old (pos 8) (pos 2)
      (pos 8) _ (omega arith) (omega arith)
      (inl (
        create_memory_pool_refused kernel _ (fresh null) (pos 8) (pos 8) 8 2 16 alignment_8 size_16
          (omega arith) refl))

dequeue_all-enqueue_all_example :
    (k : Kernel) × (pass_all kernel queues 3000 10 20 (1040 ∷ 1072 ∷ []) sample
      ≡ ok (1 ∷ 1 ∷ [], 1040 ∷ 1072 ∷ [], null) (with_kernel kernel queues sample k))
    × Turns kernel queues 77 [] 2 sample.world.kernel k
dequeue_all-enqueue_all_example =
    dequeue_all-enqueue_all kernel queues queues-IsQueues 3000 (record { pool = 1000; handle = 77 })
      (1040 ∷ 1072 ∷ []) 10 20 sample refl refl (omega arith)

free-pass_example :
    (s' : ZcqWorld Kernel) × ((do
      zcq_enqueue_item kernel queues 3000 (1064 + 8) 10
      item ← zcq_dequeue_item kernel queues 3000 20
      zcq_free_item kernel queues 3000 item)
        sample
      ≡ ok tt s')
    × IsPool kernel s'.world 1000 sample_pool (1064 ∷ 1032 ∷ [])
free-pass_example =
    free-pass kernel queues queues-IsQueues 3000 (record { pool = 1000; handle = 77 }) kernel-IsRtos
      sample_pool 1064 (1032 ∷ []) 10 20 sample refl refl (omega arith) sample-IsPool
      (record { ne_null = omega arith; outside = refl; old = 77; mapped = refl }) (omega arith)
      (omega arith)
