-- ===== src/ReadWriteLock/Created.antt =====
-- What CreateReadWriteLockPreferWriter leaves.
use freertos_addons.Prelude.{◌≡◌, ◌≢◌, refl, true, false, some, ◌==◌, pos, arith, ap, sym, ◌∙◌}
use freertos_addons.Machine.{ok}
use freertos_addons.Memory.{Ptr, null}
use freertos_addons.Memory.Write.{write_self}
use freertos_addons.Rtos.{Rtos, IsRtos}
use freertos_addons.ReadWriteLock.{RwLock, prefer_writer}
use freertos_addons.ReadWriteLock.Preference.{IsNewWriter}
use freertos_addons.ReadWriteLock.Create.{
  LockWorld, put, create_mutex, create_binary, give_semaphore, create_prefer_writer,
}
use freertos_addons.ReadWriteLock.Store.{update_lem, malloc_lem}

-- A live handle is not one that is not live.
differ : (os : Rtos) (k : os.Kernel) {a b : Ptr} → os.live a k ≡ true → os.live b k ≡ false → a ≢ b
differ os k {a} {b} live dead e =
    let same : os.live a k ≡ os.live b k = ap (λ (h : Ptr). os.live h k) e in cc

-- The four semaphores that CreateReadWriteLockPreferWriter creates, from the kernel `k`.
module _ (os : Rtos) (k : os.Kernel) where
  abbrev pub h1 : Ptr
  h1 = (os.create_mutex k).0

  abbrev k1 : os.Kernel
  k1 = (os.create_mutex k).1

  abbrev pub h2 : Ptr
  h2 = (os.create_mutex k1).0

  abbrev k2 : os.Kernel
  k2 = (os.create_mutex k1).1

  abbrev pub h3 : Ptr
  h3 = (os.create_binary k2).0

  abbrev k3 : os.Kernel
  k3 = (os.create_binary k2).1

  abbrev k4 : os.Kernel
  k4 = os.give h3 k3

  abbrev pub h4 : Ptr
  h4 = (os.create_binary k4).0

  abbrev k5 : os.Kernel
  k5 = (os.create_binary k4).1

  abbrev k6 : os.Kernel
  k6 = os.give h4 k5

  abbrev created_lock : RwLock
  created_lock = record {
    lock_type = prefer_writer;
    read_count = pos 0;
    read_lock = h1;
    resource_lock = h3;
    write_count = pos 0;
    write_lock = h2;
    block_readers_lock = h4;
  }

module _ (os : Rtos) (laws : IsRtos os) (k : os.Kernel) (ne1 : h1 os k ≢ null)
    (ne2 : h2 os k ≢ null) (ne3 : h3 os k ≢ null) (ne4 : h4 os k ≢ null) where
  -- The handles differ, and the semaphores are available.
  created-IsNewWriter : IsNewWriter os (record { lock = created_lock os k; kernel = k6 os k })
  created-IsNewWriter =
      let c1 = laws.create_mutex_live k in
      let c2 = laws.create_mutex_live (k1 os k) in
      let c3 = laws.create_binary_live (k2 os k) in
      let c4 = laws.create_binary_live (k4 os k) in
      let d12 = differ os (k1 os k) (c1.made ne1) (c2.fresh ne2) in
      let l12 = c2.others (h1 os k) d12 ∙ c1.made ne1 in
      let d13 = differ os (k2 os k) l12 (c3.fresh ne3) in
      let d23 = differ os (k2 os k) (c2.made ne2) (c3.fresh ne3) in
      let later = λ (a : Ptr). laws.give_live (h3 os k) (k3 os k) a in
      let d14 =
        differ os (k4 os k) (later (h1 os k) ∙ c3.others (h1 os k) d13 ∙ l12) (c4.fresh ne4) in
      let d24 =
        differ os (k4 os k) (later (h2 os k) ∙ c3.others (h2 os k) d23 ∙ c2.made ne2)
          (c4.fresh ne4) in
      let d34 = differ os (k4 os k) (later (h3 os k) ∙ c3.made ne3) (c4.fresh ne4) in
      let kept = λ (a : Ptr) (ne : a ≢ h4 os k).
        laws.give_same (h4 os k) (k5 os k) a ne ∙ laws.create_binary_same (k4 os k) a ne in
      let kept' = λ (a : Ptr) (ne : a ≢ h3 os k).
        laws.give_same (h3 os k) (k3 os k) a ne ∙ laws.create_binary_same (k2 os k) a ne in
      record {
        new = record {
          no_readers = refl;
          distinct = record {
            read_resource = d13;
            read_write = d12;
            read_block = d14;
            resource_write = λ e. d23 (sym e);
            resource_block = d34;
            write_block = d24;
          };
          read_free =
              kept (h1 os k) d14
              ∙ kept' (h1 os k) d13
              ∙ laws.create_mutex_same (k1 os k) (h1 os k) d12
              ∙ laws.create_mutex_available k ne1;
          resource_free = kept (h3 os k) d34 ∙ laws.give_available (h3 os k) (k3 os k);
        };
        prefers = refl;
        no_writers = refl;
        write_free =
            kept (h2 os k) d24 ∙ kept' (h2 os k) d23 ∙ laws.create_mutex_available (k1 os k) ne2;
        block_free = laws.give_available (h4 os k) (k5 os k);
      }

  -- CreateReadWriteLockPreferWriter, where malloc and the kernel have what it takes, returns a lock
  -- that prefers writers with both counts zero and four different semaphores, all available: the
  -- state from which the statements on a new lock start.
  pub create_prefer_writer-IsNewWriter :
      (w : LockWorld os.Kernel) (new : Ptr) (old : RwLock)
      → w.kernel ≡ k
      → new ≢ null
      → (w' : LockWorld os.Kernel) × (lock : RwLock) × (create_prefer_writer os new old w
          ≡ ok new w')
        × (w'.locks new ≡ some lock)
        × IsNewWriter os (record { lock = lock; kernel = w'.kernel })
  unfolding create_prefer_writer create_mutex create_binary give_semaphore
  create_prefer_writer-IsNewWriter w new old same ne =
      let l0 : RwLock = record {
        lock_type = prefer_writer;
        read_count = pos 0;
        read_lock = null;
        resource_lock = null;
        write_count = pos 0;
        write_lock = null;
        block_readers_lock = null;
      } in
      let l1 : RwLock = record l0 { read_lock = h1 os k } in
      let l2 : RwLock = record l1 { write_lock = h2 os k } in
      let l3 : RwLock = record l2 { resource_lock = h3 os k } in
      let v : LockWorld os.Kernel = record { kernel = k; locks = w.locks } in
      let w0 = put new old v in
      let w1 = put new l0 w0 in
      let v1 : LockWorld os.Kernel = record w1 { kernel = k1 os k } in
      let w2 = put new l1 v1 in
      let v2 : LockWorld os.Kernel = record w2 { kernel = k2 os k } in
      let w3 = put new l2 v2 in
      let v3 : LockWorld os.Kernel = record w3 { kernel = k3 os k } in
      let w4 = put new l3 v3 in
      let v4 : LockWorld os.Kernel = record w4 { kernel = k5 os k } in
      let w5 = put new (created_lock os k) v4 in
      let w6 : LockWorld os.Kernel = record w5 { kernel = k6 os k } in
      let t0 : (new == null) ≡ false = ground arith in
      let t1 : (h1 os k == null) ≡ false = ground arith in
      let t2 : (h2 os k == null) ≡ false = ground arith in
      let t3 : (h3 os k == null) ≡ false = ground arith in
      let t4 : (h4 os k == null) ≡ false = ground arith in
      let start : w ≡ v = ap (λ (j : os.Kernel). record { kernel = j; locks = w.locks }) same in
      (
        w6,
        created_lock os k,
        ap (create_prefer_writer os new old) start
            ∙ rw
                (
                  malloc_lem v new old ne,
                  t0,
                  update_lem w0 new {lock = old} (λ l. l0) (write_self v.locks new old),
                  update_lem v1 new {lock = l0} (λ l. record l { read_lock = h1 os k })
                      (write_self w0.locks new l0),
                  t1,
                  update_lem v2 new {lock = l1} (λ l. record l { write_lock = h2 os k })
                      (write_self v1.locks new l1),
                  t2,
                  update_lem v3 new {lock = l2} (λ l. record l { resource_lock = h3 os k })
                      (write_self v2.locks new l2),
                  t3,
                  update_lem v4 new {lock = l3} (λ l. record l { block_readers_lock = h4 os k })
                      (write_self v3.locks new l3),
                  t4,
                )
                refl,
        write_self v4.locks new (created_lock os k),
        created-IsNewWriter,
      )
