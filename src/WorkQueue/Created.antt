-- ===== src/WorkQueue/Created.antt =====
-- What CreateWorkQueueEx returns, and what it leaves behind.
use native.Mathlib.Decide.{ℕ_discrete}
use freertos_addons.Prelude.{
  ◌≡◌, ◌≢◌, refl, true, false, Option, none, some, [], ◌∷◌, arith, ◌==◌, ◌⊎◌, inl, inr, Bool-cases,
  ap, ◌∙◌, sym,
}
use freertos_addons.Machine.{Run, ok, fault, blocked, out_of_fuel}
use freertos_addons.Memory.{Ptr, null, Mem, write}
use freertos_addons.Memory.Write.{write_self, write_ne}
use freertos_addons.Rtos.{Rtos, IsRtos}
use freertos_addons.Handles.{
  SameLive, Extra, create-Extra, create_null-Extra, delete-Extra, no-Extra, Extra-SameLive,
}
use freertos_addons.Queue.{head_of}
use freertos_addons.Queue.Fifo.{init_queue-LeavesQueue}
use freertos_addons.Queue.Runs.{IsFifo}
use freertos_addons.WorkQueue.Reach.{IsNew}
use freertos_addons.WorkQueue.{
  Item, Info, Shared, update, delete, free_work_queue, without, without_structure,
}
use freertos_addons.WorkQueue.Kernel.{TaskCalls, IsTaskCalls}
use freertos_addons.WorkQueue.Invariant.{get_lem}
use freertos_addons.WorkQueue.Create.{
  Fresh, with_structure, malloc, create_binary, create_mutex, create_task, started, after_event,
  create_work_queue_ex,
}

-- The run returns, with a result and a state of which `P` holds.
abbrev pub Returns : {S A : Type 0} → (A → S → Type 0) → Run S A → Type 0
Returns P (ok a s) = P a s
Returns P fault = ⊥
Returns P blocked = ⊥
Returns P out_of_fuel = ⊥

-- The same semaphores are alive, and the same structures are allocated.
abbrev pub Cleans : (os : Rtos) → Shared os.Kernel → Shared os.Kernel → Type 0
Cleans os s s' = SameLive os s.kernel s'.kernel × ((a : Ptr) → s'.structures a ≡ s.structures a)

-- `NULL`, and nothing is left behind; or a new queue at the address of malloc.
abbrev pub Created : (os : Rtos) → Fresh → Shared os.Kernel → Ptr → Shared os.Kernel → Type 0
Created os new s r s' =
    ((r ≡ null) × Cleans os s s')
    ⊎ ((r ≡ new.address)
        × (r ≢ null)
        × (info : Info) × IsNew os r info s'
        × (os.live info.event s'.kernel ≡ true)
        × (os.live info.lock s'.kernel ≡ true))

update_lem :
    {K : Type 0} (wq : Ptr) (f : Info → Info) (t : Shared K) {info : Info}
    → t.structures wq ≡ some info
    → update wq f t ≡ ok tt (record t { structures = write t.structures wq (f info) })
unfolding update
update_lem wq f t at = rw (get_lem wq t at) refl

free_lem :
    {K : Type 0} (wq : Ptr) (t : Shared K) {info : Info}
    → t.structures wq ≡ some info
    → free_work_queue wq t ≡ ok tt (without_structure wq t)
unfolding free_work_queue
free_lem wq t at = rw (get_lem wq t at) refl

not_null : (p : Ptr) → p ≢ null → (p == null) ≡ false
not_null p ne = ground arith

without_at : {A : Type 0} (f : Ptr → Option A) (p : Ptr) → without f p p ≡ none
without_at f p = ground arith

without_ne : {A : Type 0} (f : Ptr → Option A) (p a : Ptr) → a ≢ p → without f p a ≡ f a
without_ne f p a ne = ground arith

-- The structures but the one at `wq` are as they were.
abbrev Others : (f g : Ptr → Option Info) → Ptr → Type 0
Others f g wq = (a : Ptr) → a ≢ wq → g a ≡ f a

without-Others :
    (f g : Ptr → Option Info) (wq : Ptr)
    → Others f g wq
    → f wq ≡ none
    → (a : Ptr) → without g wq a ≡ f a
without-Others f g wq others unused a = elim (ℕ_discrete a wq) [
  | yes here ↦ ap (without g wq) here ∙ without_at g wq ∙ sym unused ∙ ap f (sym here)
  | no other ↦ without_ne g wq a other ∙ others a other
]

module _ (os : Rtos) (laws : IsRtos os) (tasks : TaskCalls os) (task_laws : IsTaskCalls os tasks)
    (new : Fresh) (s : Shared os.Kernel) (unused : s.structures new.address ≡ none)
    (no_items : (a : Ptr) → s.items a ≡ none) (nothing_yet : s.queued ≡ s.calls) where
  abbrev wq : Ptr
  wq = new.address

  -- The last call of CreateWorkQueueEx, with both semaphores there.
  started_lem :
      (t : Shared os.Kernel) (info : Info) (o : Option Ptr)
      → wq ≢ null
      → t.structures wq ≡ some info
      → info.exit_thread ≡ 0
      → Others s.structures t.structures wq
      → IsFifo t.mem wq []
      → t.items ≡ s.items
      → t.queued ≡ s.queued
      → t.calls ≡ s.calls
      → Extra os s.kernel t.kernel (info.lock ∷ info.event ∷ [])
      → info.lock ≢ info.event
      → os.available info.lock t.kernel ≡ true
      → os.live info.lock t.kernel ≡ true
      → os.live info.event t.kernel ≡ true
      → Returns
          (Created os new s)
          (started os tasks wq o (record t { kernel = (tasks.create t.kernel).1 }))
  unfolding delete
  started_lem t info none ne at stays others queue items queued calls extra apart free live live' =
      let k = (tasks.create t.kernel).1 in
      let x : Extra os s.kernel k (info.lock ∷ info.event ∷ []) = record {
        others = λ a na out. task_laws.create_live t.kernel a ∙ extra.others a na out;
        fresh = extra.fresh;
      } in
      let d1 =
        delete-Extra os laws x info.lock (info.event ∷ []) (λ a i. ground arith)
          (λ a n out. ground arith) (ground arith) in
      let d2 =
        delete-Extra os laws d1 info.event [] (λ a i. cc) (λ a n out. ground arith)
          (ground arith) in
      rw
        (
          get_lem wq (record t { kernel = k }) at,
          get_lem wq (record t { kernel = os.delete info.lock k }) at,
          free_lem wq (record t { kernel = os.delete info.event (os.delete info.lock k) }) at,
        )
        (inl
          (refl, (Extra-SameLive os d2, without-Others s.structures t.structures wq others unused)))
  started_lem t info (some handle) ne at stays others queue items queued calls extra apart free live
        live' =
      let info' = record info { worker_thread = handle } in
      rw
        (update_lem wq (λ i. record i { worker_thread = handle })
          (record t { kernel = (tasks.create t.kernel).1 }) at)
        (inr (
          refl,
          ne,
          info',
          record {
            lasts = record {
              structure = write_self t.structures wq info';
              stays = stays;
              apart = λ h. apart (sym h);
            };
            queue = queue;
            unlocked = task_laws.create_available t.kernel info.lock ∙ free;
            no_items = λ a. ap (λ (f : Ptr → Option Item). f a) items ∙ no_items a;
            nothing_yet = queued ∙ nothing_yet ∙ sym calls;
          },
          task_laws.create_live t.kernel info.event ∙ live',
          task_laws.create_live t.kernel info.lock ∙ live,
        ))

  abbrev first : Shared os.Kernel
  first = with_structure new s

  abbrev filled : (h : Ptr) → Info
  filled h = record new.info { event = h }

  -- A write at `wq` leaves the others.
  write-Others :
      (f g : Ptr → Option Info) (info : Info) → Others f g wq → Others f (write g wq info) wq
  write-Others f g info others a ne = write_ne g wq info a ne ∙ others a ne

  with_mutex :
      (m : Mem) (k : os.Kernel) (h1 : Ptr)
      → wq ≢ null
      → IsFifo m wq []
      → h1 ≢ null
      → Extra os s.kernel k (h1 ∷ [])
      → os.live h1 k ≡ true
      → Returns (Created os new s) (
          after_event os tasks wq (record first {
            mem = m;
            kernel = k;
            structures = write (write s.structures wq new.info) wq (filled h1);
          }))
  unfolding create_mutex create_task delete
  with_mutex m k h1 ne queue some1 e1 live1 =
      let h2 = (os.create_mutex k).0 in
      let k2 = (os.create_mutex k).1 in
      let c2 = laws.create_mutex_live k in
      let f1 = write (write s.structures wq new.info) wq (filled h1) in
      let at1 = write_self (write s.structures wq new.info) wq (filled h1) in
      let i2 : Info = record (filled h1) { lock = h2 } in
      let f2 = write f1 wq i2 in
      let at2 = write_self f1 wq i2 in
      let i3 : Info = record i2 { exit_thread = 0 } in
      let t1 : Shared os.Kernel = record first { mem = m; kernel = k2; structures = f1 } in
      let t2 : Shared os.Kernel = record t1 { structures = f2 } in
      let others2 = write-Others s.structures f1 i2 (
        write-Others s.structures (write s.structures wq new.info) (filled h1)
          (write-Others s.structures s.structures new.info (λ a n. refl))) in
      elim (Bool-cases (h2 == null)) [
        | inl none2 ↦
            let e2 = create_null-Extra os laws e1 h2 c2 (ground arith) in
            let d1 =
              delete-Extra os laws e2 h1 [] (λ a i. cc) (λ a n out. ground arith) (ground arith) in
            rw
              (
                update_lem wq (λ i. record i { lock = h2 }) t1 at1,
                none2,
                get_lem wq t2 at2,
                free_lem wq (record t2 { kernel = os.delete h1 k2 }) at2,
              )
              (inl (refl, (Extra-SameLive os d1, without-Others s.structures f2 wq others2 unused)))
        | inr some2 ↦
            let e2 = create-Extra os laws e1 h2 c2 (ground arith) in
            let ne2 : h2 ≢ null = ground arith in
            let apart : h2 ≢ h1 = λ e. cc (c2.fresh ne2, ap (λ (h : Ptr). os.live h k) e, live1) in
            rw
              (
                update_lem wq (λ i. record i { lock = h2 }) t1 at1,
                some2,
                update_lem wq (λ i. record i { exit_thread = 0 }) t2 at2,
              )
              (started_lem (record t2 { structures = write f2 wq i3 }) i3 (tasks.create k2).0 ne
                (write_self f2 wq i3) refl (write-Others s.structures f2 i3 others2) queue refl refl
                refl e2 apart (laws.create_mutex_available k ne2) (c2.made ne2)
                (c2.others h1 (λ e. apart (sym e)) ∙ live1))
      ]

  -- CreateWorkQueueEx, where malloc returns NULL or memory that holds no structure, and no work
  -- item is allocated, returns. Either it returns NULL, and the same semaphores are alive and the
  -- same structures are allocated as before; or it returns the address of malloc, with an empty
  -- queue behind a lock that is free, two different semaphores that are alive, and no request to
  -- exit.
  pub create_work_queue_ex-Created :
      Returns (Created os new s) (create_work_queue_ex os tasks new s)
  unfolding create_work_queue_ex malloc create_binary
  create_work_queue_ex-Created = elim (Bool-cases (new.address == null)) [
    | inl empty ↦ rw empty (inl (refl, (λ a na. refl, λ a. refl)))
    | inr there ↦
        let ne : wq ≢ null = ground arith in
        let init =
          init_queue-LeavesQueue first.mem wq ne (write_self s.mem.count wq new.count)
            (write_self s.mem.dl_next (head_of wq) new.next)
            (write_self s.mem.dl_prev (head_of wq) new.prev) in
        let h1 = (os.create_binary s.kernel).0 in
        let k1 = (os.create_binary s.kernel).1 in
        let c1 = laws.create_binary_live s.kernel in
        let f0 = write s.structures wq new.info in
        let at0 = write_self s.structures wq new.info in
        let f1 = write f0 wq (filled h1) in
        let t0 : Shared os.Kernel = record first { mem = init.after; kernel = k1 } in
        let t1 : Shared os.Kernel = record t0 { structures = f1 } in
        let others1 =
          write-Others s.structures f0 (filled h1)
            (write-Others s.structures s.structures new.info (λ a n. refl)) in
        elim (Bool-cases (h1 == null)) [
          | inl none1 ↦
              let e1 = create_null-Extra os laws (no-Extra os s.kernel) h1 c1 (ground arith) in
              rw
                (
                  there,
                  there,
                  init.runs,
                  update_lem wq (λ i. record i { event = h1 }) t0 at0,
                  none1,
                  free_lem wq t1 (write_self f0 wq (filled h1)),
                )
                (inl
                  (refl, (Extra-SameLive os e1, without-Others s.structures f1 wq others1 unused)))
          | inr some1 ↦
              let ne1 : h1 ≢ null = ground arith in
              let e1 = create-Extra os laws (no-Extra os s.kernel) h1 c1 ne1 in
              rw
                (
                  there,
                  there,
                  init.runs,
                  update_lem wq (λ i. record i { event = h1 }) t0 at0,
                  some1,
                )
                (with_mutex init.after k1 h1 ne init.holds ne1 e1 (c1.made ne1))
        ]
  ]
