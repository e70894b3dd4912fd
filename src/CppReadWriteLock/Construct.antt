-- ===== src/CppReadWriteLock/Construct.antt =====
-- The semaphores of a lock that prefers writers: the constructor, also where it throws, and the
-- destructor leave none behind.
use freertos_addons.Prelude.{[], ◌∷◌, pos, Bool-cases, inl, inr, none, some, ◌==◌, arith}
use freertos_addons.Memory.{null}
use freertos_addons.Handles.{
  SameLive, Extra, create-Extra, create_null-Extra, give-Extra, delete-Extra, no-Extra,
  Extra-SameLive,
}
use freertos_addons.Rtos.{Rtos, IsRtos}
use freertos_addons.ReadWriteLock.{RwLock, prefer_writer}
use freertos_addons.CppReadWriteLock.{
  Constructed, construct, construct_derived, construct_prefer_writer, destruct,
  destruct_prefer_writer,
}

-- What is alive was alive, and the other way round: at once if the constructor has thrown, and
-- after the destructor if it has returned.
abbrev pub Cleans : (os : Rtos) → os.Kernel → Constructed os.Kernel → Type 0
Cleans os k (none, k') = SameLive os k k'
Cleans os k (some lock, k') = SameLive os k (destruct_prefer_writer os lock k')

module _ (os : Rtos) (laws : IsRtos os) where
  -- The last constructor, on a base that has been constructed.
  construct_derived-Cleans :
      (base : RwLock) (k k2 : os.Kernel)
      → Extra os k k2 (base.resource_lock ∷ base.read_lock ∷ [])
      → Cleans os k (construct_derived os base k2)
  unfolding construct_derived destruct destruct_prefer_writer
  construct_derived-Cleans base k k2 e =
      let h3 = (os.create_mutex k2).0 in
      let k3 = (os.create_mutex k2).1 in
      let c3 = laws.create_mutex_live k2 in
      elim (Bool-cases (h3 == null)) [
        | inl none3 ↦
            let e3 = create_null-Extra os laws e h3 c3 (ground arith) in
            let d1 =
              delete-Extra os laws e3 base.read_lock (base.resource_lock ∷ []) (λ a i. ground arith)
                (λ a ne out. ground arith) (ground arith) in
            let d2 =
              delete-Extra os laws d1 base.resource_lock [] (λ a i. cc) (λ a ne out. ground arith)
                (ground arith) in
            rw none3 (Extra-SameLive os d2)
        | inr some3 ↦
            let h4 = (os.create_binary k3).0 in
            let k4 = (os.create_binary k3).1 in
            let e3 = create-Extra os laws e h3 c3 (ground arith) in
            elim (Bool-cases (h4 == null)) [
              | inl none4 ↦
                  let e4 =
                    create_null-Extra os laws e3 h4 (laws.create_binary_live k3) (ground arith) in
                  let d1 =
                    delete-Extra os laws e4 h3 (base.resource_lock ∷ base.read_lock ∷ [])
                      (λ a i. ground arith) (λ a ne out. ground arith) (ground arith) in
                  let d2 =
                    delete-Extra os laws d1 base.read_lock (base.resource_lock ∷ [])
                      (λ a i. ground arith) (λ a ne out. ground arith) (ground arith) in
                  let d3 =
                    delete-Extra os laws d2 base.resource_lock [] (λ a i. cc)
                      (λ a ne out. ground arith) (ground arith) in
                  rw (some3, none4) (Extra-SameLive os d3)
              | inr some4 ↦
                  let e4 = create-Extra os laws e3 h4 (laws.create_binary_live k3) (ground arith) in
                  let g4 = give-Extra os laws e4 h4 in
                  let d1 =
                    delete-Extra os laws g4 h3 (h4 ∷ base.resource_lock ∷ base.read_lock ∷ [])
                      (λ a i. ground arith) (λ a ne out. ground arith) (ground arith) in
                  let d2 =
                    delete-Extra os laws d1 h4 (base.resource_lock ∷ base.read_lock ∷ [])
                      (λ a i. ground arith) (λ a ne out. ground arith) (ground arith) in
                  let d3 =
                    delete-Extra os laws d2 base.read_lock (base.resource_lock ∷ [])
                      (λ a i. ground arith) (λ a ne out. ground arith) (ground arith) in
                  let d4 =
                    delete-Extra os laws d3 base.resource_lock [] (λ a i. cc)
                      (λ a ne out. ground arith) (ground arith) in
                  rw (some3, some4) (Extra-SameLive os d4)
            ]
      ]

  -- The same semaphores are alive, `NULL` aside, before the constructor of
  -- ReadWriteLockPreferWriter as after it where it throws, and as after its destructor where it
  -- returns.
  pub construct_prefer_writer-Cleans :
      (object : RwLock) (k : os.Kernel) → Cleans os k (construct_prefer_writer os object k)
  unfolding construct_prefer_writer construct
  construct_prefer_writer-Cleans object k =
      let h1 = (os.create_mutex k).0 in
      let k1 = (os.create_mutex k).1 in
      let c1 = laws.create_mutex_live k in
      elim (Bool-cases (h1 == null)) [
        | inl none1 ↦
            let e1 = create_null-Extra os laws (no-Extra os k) h1 c1 (ground arith) in
            rw none1 (Extra-SameLive os e1)
        | inr some1 ↦
            let h2 = (os.create_binary k1).0 in
            let k2 = (os.create_binary k1).1 in
            let e1 = create-Extra os laws (no-Extra os k) h1 c1 (ground arith) in
            elim (Bool-cases (h2 == null)) [
              | inl none2 ↦
                  let e2 =
                    create_null-Extra os laws e1 h2 (laws.create_binary_live k1) (ground arith) in
                  let d1 =
                    delete-Extra os laws e2 h1 [] (λ a i. cc) (λ a ne out. ground arith)
                      (ground arith) in
                  rw (some1, none2) (Extra-SameLive os d1)
              | inr some2 ↦
                  let e2 = create-Extra os laws e1 h2 (laws.create_binary_live k1) (ground arith) in
                  rw (some1, some2)
                    (construct_derived-Cleans
                      (record object {
                        lock_type = prefer_writer;
                        read_count = pos 0;
                        read_lock = h1;
                        resource_lock = h2;
                      })
                      k (os.give h2 k2) (give-Extra os laws e2 h2))
            ]
      ]
