-- ===== src/ReadWriteLock/Refused.antt =====
-- The two creators, where the kernel does not create one of the semaphores.
use freertos_addons.Prelude.{
  ◌≡◌, ◌≢◌, refl, true, false, some, ◌==◌, pos, arith, ◌⊎◌, inl, inr, Bool-cases, List, [], ◌∷◌,
}
use freertos_addons.Machine.{Cmd, ok, fault}
use freertos_addons.Memory.{Ptr, null}
use freertos_addons.Memory.Write.{write_self}
use freertos_addons.Rtos.{Rtos}
use freertos_addons.ReadWriteLock.{RwLock, LockType, prefer_reader, prefer_writer}
use freertos_addons.ReadWriteLock.Create.{
  LockWorld, put, get, update, create_mutex, create_binary, give_semaphore, create_prefer_reader,
  create_prefer_writer, reader_error, writer_error, delete, delete_if_null,
}
use freertos_addons.ReadWriteLock.Created.{h1, h2, h3, h4}
use freertos_addons.ReadWriteLock.Store.{update_lem, malloc_lem, get_lem}

-- A creator by the type of its lock.
abbrev pub create :
    (os : Rtos) → LockType → (new : Ptr) (old : RwLock) → Cmd (LockWorld os.Kernel) Ptr
create os prefer_reader = create_prefer_reader os
create os prefer_writer = create_prefer_writer os

-- One of the calls that create a semaphore, if the creator comes to it, returns NULL.
abbrev pub Refuses : (os : Rtos) → LockType → os.Kernel → Type 0
Refuses os prefer_reader k =
    ((os.create_mutex k).0 ≡ null) ⊎ ((os.create_binary (os.create_mutex k).1).0 ≡ null)
Refuses os prefer_writer k =
    (h1 os k ≡ null) ⊎ ((h2 os k ≡ null) ⊎ ((h3 os k ≡ null) ⊎ (h4 os k ≡ null)))

-- The inverted test: it deletes where there is nothing to delete.
delete_null :
    (os : Rtos) (w : LockWorld os.Kernel) (h : Ptr)
    → (h == null) ≡ true
    → delete_if_null os h w ≡ fault
unfolding delete delete_if_null
delete_null os w h e = rw e (rw e refl)

keep_other :
    (os : Rtos) (w : LockWorld os.Kernel) (h : Ptr)
    → (h == null) ≡ false
    → delete_if_null os h w ≡ ok tt w
unfolding delete_if_null
keep_other os w h e = rw e refl

module _ (os : Rtos) (w : LockWorld os.Kernel) (p : Ptr) {lock : RwLock}
    (at : w.locks p ≡ some lock) where
  here : get p w ≡ ok lock w
  here = get_lem w p {lock = lock} at

  reader_error_fault :
      (lock.read_lock ≡ null) ⊎ (lock.resource_lock ≡ null) → reader_error os p w ≡ fault
  unfolding reader_error
  reader_error_fault missing = elim (Bool-cases (lock.read_lock == null)) [
    | inl none1 ↦ rw (here, delete_null os w lock.read_lock none1) refl
    | inr some1 ↦
        let keep1 = keep_other os w lock.read_lock some1 in
        let none2 : (lock.resource_lock == null) ≡ true = ground arith in
        rw (here, keep1, here, delete_null os w lock.resource_lock none2) refl
  ]

  writer_error_fault :
      (lock.read_lock ≡ null)
        ⊎ ((lock.write_lock ≡ null)
            ⊎ ((lock.resource_lock ≡ null) ⊎ (lock.block_readers_lock ≡ null)))
      → writer_error os p w ≡ fault
  unfolding writer_error
  writer_error_fault missing = elim (Bool-cases (lock.read_lock == null)) [
    | inl none1 ↦ rw (here, delete_null os w lock.read_lock none1) refl
    | inr some1 ↦
        let keep1 = keep_other os w lock.read_lock some1 in
        elim (Bool-cases (lock.write_lock == null)) [
          | inl none2 ↦ rw (here, keep1, here, delete_null os w lock.write_lock none2) refl
          | inr some2 ↦
              let keep2 = keep_other os w lock.write_lock some2 in
              elim (Bool-cases (lock.resource_lock == null)) [
                | inl none3 ↦
                    rw (here, keep1, here, keep2, here, delete_null os w lock.resource_lock none3)
                      refl
                | inr some3 ↦
                    let keep3 = keep_other os w lock.resource_lock some3 in
                    let none4 : (lock.block_readers_lock == null) ≡ true = ground arith in
                    rw
                      (
                        here,
                        keep1,
                        here,
                        keep2,
                        here,
                        keep3,
                        here,
                        delete_null os w lock.block_readers_lock none4,
                      )
                      refl
              ]
        ]
  ]

module _ (os : Rtos) (w : LockWorld os.Kernel) (new : Ptr) (old : RwLock) (ne : new ≢ null) where
  abbrev first_lock : LockType → RwLock
  first_lock prefer_reader = record old {
    lock_type = prefer_reader;
    read_count = pos 0;
    read_lock = null;
    resource_lock = null;
  }
  first_lock prefer_writer = record {
    lock_type = prefer_writer;
    read_count = pos 0;
    read_lock = null;
    resource_lock = null;
    write_count = pos 0;
    write_lock = null;
    block_readers_lock = null;
  }

  -- The state with the kernel `k` after a number of assignments.
  abbrev written : os.Kernel → List RwLock → LockWorld os.Kernel
  written k [] = record { kernel = k; locks = w.locks }
  written k (lock ∷ before) = put new lock (written k before)

  written_at :
      (k : os.Kernel) (lock : RwLock) (before : List RwLock)
      → (written k (lock ∷ before)).locks new ≡ some lock
  written_at k lock before = write_self (written k before).locks new lock

  -- An assignment that follows on others.
  assign :
      (k : os.Kernel) (lock : RwLock) (before : List RwLock) (f : RwLock → RwLock)
      → update new f (written k (lock ∷ before)) ≡ ok tt (written k (f lock ∷ lock ∷ before))
  assign k lock before f =
      update_lem (written k (lock ∷ before)) new {lock = lock} f (written_at k lock before)

  reader_refused : Refuses os prefer_reader w.kernel → create_prefer_reader os new old w ≡ fault
  unfolding create_prefer_reader create_mutex create_binary
  reader_refused missing =
      let (h, k₁) = os.create_mutex w.kernel in
      let (r, k₂) = os.create_binary k₁ in
      let l₀ = first_lock prefer_reader in
      let l₁ : RwLock = record l₀ { read_lock = h } in
      let l₂ : RwLock = record l₁ { resource_lock = r } in
      let test : (new == null) ≡ false = ground arith in
      let u₀ = assign w.kernel old [] (λ l. record l {
        lock_type = prefer_reader;
        read_count = pos 0;
        read_lock = null;
        resource_lock = null;
      }) in
      let u₁ = assign k₁ l₀ (old ∷ []) (λ l. record l { read_lock = h }) in
      let u₂ = assign k₂ l₁ (l₀ ∷ old ∷ []) (λ l. record l { resource_lock = r }) in
      elim (Bool-cases (h == null)) [
        | inl none1 ↦
            rw (malloc_lem w new old ne, test, u₀, u₁, none1)
              (reader_error_fault os (written k₁ (l₁ ∷ l₀ ∷ old ∷ [])) new
                (written_at k₁ l₁ (l₀ ∷ old ∷ [])) (inl (ground arith)))
        | inr some1 ↦
            let none2 : (r == null) ≡ true = ground arith in
            rw (malloc_lem w new old ne, test, u₀, u₁, some1, u₂, none2)
              (reader_error_fault os (written k₂ (l₂ ∷ l₁ ∷ l₀ ∷ old ∷ [])) new
                (written_at k₂ l₂ (l₁ ∷ l₀ ∷ old ∷ [])) (inr (ground arith)))
      ]

  writer_refused : Refuses os prefer_writer w.kernel → create_prefer_writer os new old w ≡ fault
  unfolding create_prefer_writer create_mutex create_binary give_semaphore
  writer_refused missing =
      let (a₁, k₁) = os.create_mutex w.kernel in
      let (a₂, k₂) = os.create_mutex k₁ in
      let (a₃, k₃) = os.create_binary k₂ in
      let k₄ = os.give a₃ k₃ in
      let (a₄, k₅) = os.create_binary k₄ in
      let l₀ = first_lock prefer_writer in
      let l₁ : RwLock = record l₀ { read_lock = a₁ } in
      let l₂ : RwLock = record l₁ { write_lock = a₂ } in
      let l₃ : RwLock = record l₂ { resource_lock = a₃ } in
      let l₄ : RwLock = record l₃ { block_readers_lock = a₄ } in
      let b₀ = old ∷ [] in
      let test : (new == null) ≡ false = ground arith in
      let u₀ = assign w.kernel old [] (λ l. first_lock prefer_writer) in
      let u₁ = assign k₁ l₀ b₀ (λ l. record l { read_lock = a₁ }) in
      let u₂ = assign k₂ l₁ (l₀ ∷ b₀) (λ l. record l { write_lock = a₂ }) in
      let u₃ = assign k₃ l₂ (l₁ ∷ l₀ ∷ b₀) (λ l. record l { resource_lock = a₃ }) in
      let u₄ = assign k₅ l₃ (l₂ ∷ l₁ ∷ l₀ ∷ b₀) (λ l. record l { block_readers_lock = a₄ }) in
      let m = malloc_lem w new old ne in
      elim (Bool-cases (a₁ == null)) [
        | inl none1 ↦
            rw (m, test, u₀, u₁, none1)
              (writer_error_fault os (written k₁ (l₁ ∷ l₀ ∷ b₀)) new (written_at k₁ l₁ (l₀ ∷ b₀))
                (inl (ground arith)))
        | inr some1 ↦ elim (Bool-cases (a₂ == null)) [
          | inl none2 ↦
              rw (m, test, u₀, u₁, some1, u₂, none2)
                (writer_error_fault os (written k₂ (l₂ ∷ l₁ ∷ l₀ ∷ b₀)) new
                  (written_at k₂ l₂ (l₁ ∷ l₀ ∷ b₀)) (inr (inl (ground arith))))
          | inr some2 ↦ elim (Bool-cases (a₃ == null)) [
            | inl none3 ↦
                rw (m, test, u₀, u₁, some1, u₂, some2, u₃, none3)
                  (writer_error_fault os (written k₃ (l₃ ∷ l₂ ∷ l₁ ∷ l₀ ∷ b₀)) new
                    (written_at k₃ l₃ (l₂ ∷ l₁ ∷ l₀ ∷ b₀)) (inr (inr (inl (ground arith)))))
            | inr some3 ↦
                let none4 : (a₄ == null) ≡ true = ground arith in
                rw (m, test, u₀, u₁, some1, u₂, some2, u₃, some3, u₄, none4)
                  (writer_error_fault os (written k₅ (l₄ ∷ l₃ ∷ l₂ ∷ l₁ ∷ l₀ ∷ b₀)) new
                    (written_at k₅ l₄ (l₃ ∷ l₂ ∷ l₁ ∷ l₀ ∷ b₀)) (inr (inr (inr (ground arith)))))
          ]
        ]
      ]

-- CreateReadWriteLockPreferReader and CreateReadWriteLockPreferWriter, where malloc returns memory
-- and any one of the semaphores that they create is not created, fault: the error path calls
-- vSemaphoreDelete with `NULL`, before it frees the memory.
pub create-Refuses :
    (os : Rtos) (kind : LockType) (w : LockWorld os.Kernel) (new : Ptr) (old : RwLock)
    → new ≢ null
    → Refuses os kind w.kernel
    → create os kind new old w ≡ fault
create-Refuses os prefer_reader w new old ne missing = reader_refused os w new old ne missing
create-Refuses os prefer_writer w new old ne missing = writer_refused os w new old ne missing
