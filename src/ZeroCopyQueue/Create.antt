-- ===== src/ZeroCopyQueue/Create.antt =====
-- ZcqCreateQueue.
use freertos_addons.Prelude.{
  ℕ, ◌+◌, ◌*◌, ◌≤◌, ◌<◌, ◌≡◌, ◌≢◌, refl, true, false, Option, none, some, arith, ◌==◌, int_max, ◌∙◌,
  ap, [], ◌⊎◌, inl, inr, if◌then◌else◌, ℤ, pos,
}
use freertos_addons.Machine.{Run, ok, fault, Cmd, ◌>>=◌, ◌>>◌, and_then}
use freertos_addons.Memory.{Ptr, null, write}
use freertos_addons.Memory.Write.{write_self, write_ne}
use freertos_addons.Rtos.{Rtos, IsRtos}
use freertos_addons.World
use freertos_addons.World.{World, Fresh, buffer_offset}
use freertos_addons.MemPool.{
  calculate_and_verify_alignment, calculate_item_size, create_memory_pool, struct_size,
}
use freertos_addons.MemPool.Blocks.{IsPool}
use freertos_addons.MemPool.Create.{create_memory_pool-IsPool}
use freertos_addons.MemPool.Errors.{create_memory_pool_fault}
use freertos_addons.MemPool.Fill.{stacked}
use freertos_addons.ZeroCopyQueue.{
  Info, ZcqWorld, malloc, free, get, update, queue_create, zcq_create_queue,
}
use freertos_addons.ZeroCopyQueue.Kernel.{Queues}

dropped : {A : Type 0} (z : Ptr) (x : Option A) → (if z == z then none else x) ≡ none
dropped z x = ground arith

kept : {A : Type 0} (z a : Ptr) (x : Option A) → a ≢ z → (if a == z then none else x) ≡ x
kept z a x ne = ground arith

then_fault :
    {S A B : Type 0} (m : Cmd S A) (f : A → Cmd S B) (s : S) → m s ≡ fault → (m >>= f) s ≡ fault
then_fault {S} {A} {B} m f s e = ap (λ (r : Run S A). and_then r f) e

module _ {K : Type 0} (s : ZcqWorld K) where
  malloc_lem :
      (new : Fresh) (old : Info)
      → new.address ≢ null
      → malloc new old s
        ≡ ok new.address
            (record { world = World.obtained new 16 s.world; zcqs = write s.zcqs new.address old })
  unfolding malloc World.malloc
  malloc_lem new old ne =
      let test : (new.address == null) ≡ false = ground arith in rw (test, test) refl

  update_lem :
      (z : Ptr) (f : Info → Info) {info : Info}
      → s.zcqs z ≡ some info
      → update z f s ≡ ok tt (record s { zcqs = write s.zcqs z (f info) })
  unfolding update
  update_lem z f at = rw (at, update) refl

  get-none : (z : Ptr) → s.zcqs z ≡ none → get z s ≡ fault
  unfolding get
  get-none z at = rw (at, get) refl

  free_lem :
      (z : Ptr) {n : ℕ}
      → s.world.blocks z ≡ some n
      → free z s
        ≡ ok tt (record {
          world = World.released z n s.world;
          zcqs = λ a. if a == z then none else s.zcqs a;
        })
  unfolding free World.free
  free_lem z at = rw (at, World.free) refl

  free_none : (z : Ptr) → s.world.blocks z ≡ none → free z s ≡ fault
  unfolding free World.free
  free_none z at = rw (at, World.free) refl

module _ (os : Rtos) (qs : Queues os) (s : ZcqWorld os.Kernel) (new memory : Fresh)
    (old : Info) where
  -- The state once the structure and the queue are there.
  abbrev opened : (item_count : ℤ) → ZcqWorld os.Kernel
  opened item_count = record {
    world = record (World.obtained new 16 s.world) {
      kernel = (qs.create item_count s.world.kernel).1;
    };
    zcqs =
        write (write s.zcqs new.address old) new.address
          (record old { handle = (qs.create item_count s.world.kernel).0 });
  }

  first_update :
      (item_count : ℤ)
      → update new.address
          (λ info. record info { handle = (qs.create item_count s.world.kernel).0 })
          (record {
            world = record (World.obtained new 16 s.world) {
              kernel = (qs.create item_count s.world.kernel).1;
            };
            zcqs = write s.zcqs new.address old;
          })
        ≡ ok tt (opened item_count)
  first_update item_count = update_lem _ new.address _ (write_self s.zcqs new.address old)

  -- The structure is freed, and then read.
  freed_read :
      {A : Type 0} (z : Ptr) (t : ZcqWorld os.Kernel) (f : Info → Cmd (ZcqWorld os.Kernel) A)
      → (o : Option ℕ) → t.world.blocks z ≡ o
      → (free z >> (get z >>= f)) t ≡ fault
  freed_read z t f none at =
      ap (λ (r : Run (ZcqWorld os.Kernel) (Unit {0})). and_then r (λ (u : Unit {0}). get z >>= f))
        (free_none t z at)
  freed_read z t f (some n) at =
      rw (free_lem t z at) (then_fault (get z) f _ (get-none _ z (dropped z _)))

  -- ZcqCreateQueue, where malloc returns memory for its structure and the kernel creates the queue,
  -- faults if CreateMemoryPool returns `NULL`, since it reads its structure after it has freed it;
  -- and it faults if the alignment is one for which CalculateAndVerifyAlignment overflows.
  pub zcq_create_queue-refused :
      (item_size item_count alignment : ℤ) (w' : World os.Kernel)
      → new.address ≢ null
      → (qs.create item_count s.world.kernel).0 ≢ null
      → (create_memory_pool os memory item_size item_count alignment (opened item_count).world
          ≡ ok null w')
        ⊎ (calculate_and_verify_alignment alignment ≡ none)
      → zcq_create_queue os qs new memory old item_size item_count alignment s ≡ fault
  unfolding zcq_create_queue queue_create
  zcq_create_queue-refused item_size item_count alignment w' ne opens (inr over) =
      let test : (new.address == null) ≡ false = ground arith in
      let test' : ((qs.create item_count s.world.kernel).0 == null) ≡ false = ground arith in
      let bad =
        create_memory_pool_fault os (opened item_count).world memory item_size alignment item_count
          over in
      rw (malloc_lem s new old ne, test, test', first_update item_count, bad) refl
  zcq_create_queue-refused item_size item_count alignment w' ne opens (inl failed) =
      let test : (new.address == null) ≡ false = ground arith in
      let test' : ((qs.create item_count s.world.kernel).0 == null) ≡ false = ground arith in
      let z = new.address in
      let t : ZcqWorld os.Kernel = record (opened item_count) { world = w' } in
      rw (malloc_lem s new old ne, test, test', first_update item_count, failed)
        (rw
          (update_lem t z (λ info. record info { pool = null })
            (write_self (write s.zcqs z old) z _))
          (freed_read z _ _ _ refl))

  pub zcq_create_queue-no_queue :
      (item_size item_count alignment : ℤ)
      → new.address ≢ null
      → (qs.create item_count s.world.kernel).0 ≡ null
      → (s' : ZcqWorld os.Kernel) × (zcq_create_queue os qs new memory old item_size item_count
            alignment s
          ≡ ok null s')
        × (s'.world.blocks new.address ≡ none)
        × (s'.zcqs new.address ≡ none)
        × ((a : Ptr)
            → a ≢ new.address
            → (s'.world.blocks a ≡ s.world.blocks a) × (s'.zcqs a ≡ s.zcqs a))
  unfolding zcq_create_queue queue_create
  zcq_create_queue-no_queue item_size item_count alignment ne refused =
      let z = new.address in
      let t = opened item_count in
      let test : (new.address == null) ≡ false = ground arith in
      let test' : ((qs.create item_count s.world.kernel).0 == null) ≡ true = ground arith in
      let gone = free_lem t z (write_self s.world.blocks z 16) in
      (
        record {
          world = World.released z 16 t.world;
          zcqs = λ a. if a == z then none else t.zcqs a;
        },
        rw (malloc_lem s new old ne, test, test', first_update item_count, gone) refl,
        dropped z _,
        dropped z _,
        λ a other. (
          kept z a _ other ∙ write_ne s.world.blocks z 16 a other,
          kept z a _ other
              ∙ write_ne (write s.zcqs z old) z _ a other
              ∙ write_ne s.zcqs z old a other,
        ),
      )

  pub zcq_create_queue-IsPool :
      (laws : IsRtos os) (item_size alignment : ℤ) (a n size : ℕ)
      → calculate_and_verify_alignment alignment ≡ some a
      → ((t : World os.Kernel) → calculate_item_size item_size a t ≡ ok size t)
      → 0 < size
      → struct_size + n * size ≤ int_max
      → n ≤ int_max
      → new.address ≢ null
      → memory.address ≢ null
      → (qs.create (pos n) s.world.kernel).0 ≢ null
      → (os.create_mutex (qs.create (pos n) s.world.kernel).1).0 ≢ null
      → (s' : ZcqWorld os.Kernel) × (zcq_create_queue os qs new memory old item_size
            (pos n)
            alignment
            s
          ≡ ok new.address s')
        × (s'.zcqs new.address
            ≡ some
                (record { pool = memory.address; handle = (qs.create (pos n) s.world.kernel).0 }))
        × IsPool os s'.world memory.address
            (record {
              lock = (os.create_mutex (qs.create (pos n) s.world.kernel).1).0;
              item_size = size;
              alignment = a;
            })
            (stacked n (memory.address + buffer_offset) size [])
  unfolding zcq_create_queue queue_create
  zcq_create_queue-IsPool laws item_size alignment a n size accepted sized positive fits count ne
        there opens locked =
      let z = new.address in
      let t = opened (pos n) in
      let test : (new.address == null) ≡ false = ground arith in
      let test' : ((qs.create (pos n) s.world.kernel).0 == null) ≡ false = ground arith in
      let test'' : (memory.address == null) ≡ false = ground arith in
      let (w', created, pool, _, _) =
        create_memory_pool-IsPool os laws t.world memory item_size alignment a n size accepted sized
          positive fits count there locked in
      let t' : ZcqWorld os.Kernel = record t { world = w' } in
      let info : Info = record {
        pool = memory.address;
        handle = (qs.create (pos n) s.world.kernel).0;
      } in
      (
        record t' { zcqs = write t.zcqs z info },
        rw (malloc_lem s new old ne, test, test', first_update (pos n), created)
            (rw
              (
                update_lem t' z (λ i. record i { pool = memory.address })
                    (write_self (write s.zcqs z old) z _),
                test'',
              )
              refl),
        write_self t.zcqs z info,
        pool,
      )
