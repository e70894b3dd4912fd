-- ===== src/WorkQueue/Destroy.antt =====
-- DestroyWorkQueue while no other task is in QueueWorkItem, and then the worker on its own.
use freertos_addons.Prelude.{
  suc, ◌+◌, ◌*◌, ◌≡◌, ◌≢◌, refl, true, false, some, none, Option, List, [], arith, length, ◌∙◌, sym,
  append-nil,
}
use freertos_addons.Machine.{ok, ◌>>◌}
use freertos_addons.Memory.{Ptr, Field, write}
use freertos_addons.Memory.Write.{write_self}
use freertos_addons.Rtos.{Rtos, IsRtos}
use freertos_addons.Tasks.{total}
use freertos_addons.Queue.Fifo.{is_queue_empty_lem}
use freertos_addons.WorkQueue.{
  Info, Shared, WorkerPc, await_event, take_lock, test_empty, read_exit, end_round, lock_cleanup,
  test_drained, unlock_cleanup, delete_lock, delete_event, read_handle, free_structure, delete_task,
  gone, ClientPc, idle, lock_destroy, Call, worker, work, client, proceed, update, give, delete,
  free_work_queue, without, without_structure,
}
use freertos_addons.WorkQueue.Kernel.{TaskCalls, IsTaskCalls}
use freertos_addons.WorkQueue.Invariant.{Owned, get_lem, Owned-move}
use freertos_addons.WorkQueue.Rounds.{
  work-step, work_nothing, taken_lem, take_lem, steps_for, steps_for_lem, all_items,
}

at_none : {A : Type 0} (o : Option A) → (o ≢ none → ⊥) → o ≡ none
at_none none h = refl
at_none (some a) h = absurd (h (λ e. cc))

without_at : {A : Type 0} (f : Field A) (p : Ptr) → without f p p ≡ none
without_at f p = ground arith

-- The memory does not depend on what the structures hold.
Owned-structures :
    {K : Type 0} (wq : Ptr) (s : Shared K) (k : K) (f : Field Info) (cs : List ClientPc)
    (q : List Ptr) {w : WorkerPc}
    → Owned wq (record s { kernel = k }) w cs q
    → Owned wq (record s { kernel = k; structures = f }) w cs q
Owned-structures wq s k f cs q o = record {
  queue = o.queue;
  bounded = o.bounded;
  single = o.single;
  allocated = o.allocated;
  complete = o.complete;
  head_free = o.head_free;
  history = o.history;
  clients = o.clients;
}

module _ (os : Rtos) (laws : IsRtos os) (tasks : TaskCalls os) (wq : Ptr) (info : Info) where
  -- What the worker leaves when it is gone.
  record Finished (s s' : Shared os.Kernel) : Type 0 where
    calls : s'.calls ≡ s.queued
    no_items : (a : Ptr) → s'.items a ≡ none
    no_structure : s'.structures wq ≡ none
    no_lock : os.live info.lock s'.kernel ≡ false
    no_event : os.live info.event s'.kernel ≡ false

  none_allocated : (s : Shared os.Kernel) (a : Ptr) → Owned wq s test_empty [] [] → s.items a ≡ none
  unfolding total
  none_allocated s a o = at_none (s.items a) (λ ne. absurd (omega (arith, o.complete a ne)))

  -- The cleanup, where the queue is empty and the worker is asked to exit.
  cleaned_up :
      (task_laws : IsTaskCalls os tasks) (s : Shared os.Kernel)
      → Owned wq s test_empty [] []
      → s.structures wq ≡ some info
      → info.exit_thread ≡ 1
      → info.event ≢ info.lock
      → (s' : Shared os.Kernel) × (work os tasks 11 wq test_empty s ≡ ok gone s') × Finished s s'
  unfolding worker give delete free_work_queue
  cleaned_up task_laws s o at exits apart =
      let empty = is_queue_empty_lem s.mem wq [] o.queue in
      let k1 = os.give info.lock s.kernel in
      let s1 : Shared os.Kernel = record s { kernel = k1 } in
      let (k2, taken) =
        take_lem os laws tasks wq info info.lock s1 (laws.give_available info.lock s.kernel) in
      let s2 : Shared os.Kernel = record s { kernel = k2 } in
      let k3 = os.give info.lock k2 in
      let s3 : Shared os.Kernel = record s { kernel = k3 } in
      let k4 = os.delete info.lock k3 in
      let s4 : Shared os.Kernel = record s { kernel = k4 } in
      let k5 = os.delete info.event k4 in
      let s5 : Shared os.Kernel = record s { kernel = k5 } in
      let s6 = without_structure wq s5 in
      let s7 : Shared os.Kernel = record s6 { kernel = tasks.delete info.worker_thread k5 } in
      (
        s7,
        work-step os laws tasks wq info 10 test_empty read_exit s s (rw empty refl)
            ∙ work-step os laws tasks wq info 9 read_exit (end_round 1) s s
                (rw (get_lem wq s at, exits) refl)
            ∙ work-step os laws tasks wq info 8 (end_round 1) lock_cleanup s s1
                (rw (get_lem wq s at) refl)
            ∙ work-step os laws tasks wq info 7 lock_cleanup test_drained s1 s2
                (rw (get_lem wq s1 at, taken) refl)
            ∙ work-step os laws tasks wq info 6 test_drained unlock_cleanup s2 s2 (rw empty refl)
            ∙ work-step os laws tasks wq info 5 unlock_cleanup delete_lock s2 s3
                (rw (get_lem wq s2 at) refl)
            ∙ work-step os laws tasks wq info 4 delete_lock delete_event s3 s4
                (rw (get_lem wq s3 at) refl)
            ∙ work-step os laws tasks wq info 3 delete_event read_handle s4 s5
                (rw (get_lem wq s4 at) refl)
            ∙ work-step os laws tasks wq info 2 read_handle (free_structure info.worker_thread) s5
                s5 (rw (get_lem wq s5 at) refl)
            ∙ work-step os laws tasks wq info 1 (free_structure info.worker_thread)
                (delete_task info.worker_thread) s5 s6 (rw (get_lem wq s5 at) refl)
            ∙ work-step os laws tasks wq info 0 (delete_task info.worker_thread) gone s6 s7 refl
            ∙ work_nothing os laws tasks wq info gone s7,
        record {
          calls = sym (o.history ∙ append-nil s.calls);
          no_items = λ a. none_allocated s a o;
          no_structure = without_at s.structures wq;
          no_lock =
              task_laws.delete_live info.worker_thread k5 info.lock
              ∙ laws.delete_same info.event k4 info.lock (λ e. apart (sym e))
              ∙ laws.delete_live info.lock k3;
          no_event =
              task_laws.delete_live info.worker_thread k5 info.event
              ∙ laws.delete_live info.event k4;
        },
      )

module _ (os : Rtos) (laws : IsRtos os) (tasks : TaskCalls os) (task_laws : IsTaskCalls os tasks)
    (wq : Ptr) (info : Info) where
  -- The structure once DestroyWorkQueue has asked the worker to exit.
  abbrev exiting : Info
  exiting = record info { exit_thread = 1 }

  destroy_lem :
      (c : Call) (s : Shared os.Kernel)
      → s.structures wq ≡ some info
      → os.available info.lock s.kernel ≡ true
      → info.event ≢ info.lock
      → (k : os.Kernel) × (proceed os 4 wq c lock_destroy s
          ≡ ok idle (record s { kernel = k; structures = write s.structures wq exiting }))
        × (os.available info.event k ≡ true)
        × (os.available info.lock k ≡ true)
  unfolding proceed client update give
  destroy_lem c s at free apart =
      let (k1, taken) = take_lem os laws tasks wq info info.lock s free in
      let s1 : Shared os.Kernel = record s { kernel = k1 } in
      let s2 : Shared os.Kernel = record s1 { structures = write s.structures wq exiting } in
      let at2 = write_self s.structures wq exiting in
      let k3 = os.give info.event k1 in
      let s3 : Shared os.Kernel = record s2 { kernel = k3 } in
      (
        os.give info.lock k3,
        rw (get_lem wq s at, taken, get_lem wq s1 at, get_lem wq s2 at2, get_lem wq s3 at2) refl,
        laws.give_same info.lock k3 info.event apart ∙ laws.give_available info.event k1,
        laws.give_available info.lock k3,
      )

  -- If the worker waits, the lock is free, the queue holds the work items `q` and no other task is
  -- in the module, then DestroyWorkQueue returns, and in 6 steps for each work item and 13 more the
  -- worker, on its own, is gone: what was queued has been called, in its order, and the work items,
  -- the structure and both semaphores are freed.
  pub destroy_work_queue-Finished :
      (c : Call) (s : Shared os.Kernel) (q : List Ptr)
      → Owned wq s await_event [] q
      → s.structures wq ≡ some info
      → os.available info.lock s.kernel ≡ true
      → info.event ≢ info.lock
      → (s' : Shared os.Kernel) × ((proceed os 4 wq c lock_destroy
              >> work os tasks (6 * length q + 13) wq await_event)
            s
          ≡ ok gone s')
        × (s'.calls ≡ s.queued)
        × ((a : Ptr) → s'.items a ≡ none)
        × (s'.structures wq ≡ none)
        × (os.live info.lock s'.kernel ≡ false)
        × (os.live info.event s'.kernel ≡ false)
  unfolding worker
  destroy_work_queue-Finished c s q o at free apart =
      let (k, asked, signalled, unlocked) = destroy_lem c s at free apart in
      let at' = write_self s.structures wq exiting in
      let s1 : Shared os.Kernel = record s {
        kernel = k;
        structures = write s.structures wq exiting;
      } in
      let (k2, taken, _, same) = laws.take_available info.event k signalled in
      let s2 : Shared os.Kernel = record s1 { kernel = k2 } in
      let (k3, locked) =
        take_lem os laws tasks wq exiting info.lock s2
          (same info.lock (λ e. apart (sym e)) ∙ unlocked) in
      let s3 : Shared os.Kernel = record s1 { kernel = k3 } in
      let n = steps_for os laws tasks wq exiting q 11 in
      let o3 =
        Owned-structures wq s k3 (write s.structures wq exiting) [] q
          (Owned-move wq info s k3 await_event test_empty [] [] q o (λ a. refl) refl tt) in
      let (s4, ran, r) = all_items os laws tasks wq exiting 11 s3 q o3 at' in
      let (s5, ran', f) =
        cleaned_up os laws tasks wq exiting task_laws s4 r.owned r.structure refl apart in
      let steps : 6 * length q + 13 ≡ suc (suc n) =
        omega (arith, steps_for_lem os laws tasks wq exiting q 11) in
      (
        s5,
        rw (asked, steps)
            (work-step os laws tasks wq exiting (suc n) await_event take_lock s1 s2 (
                rw (get_lem wq s1 at', taken_lem os laws tasks wq exiting info.event s1 taken) refl)
              ∙ work-step os laws tasks wq exiting n take_lock test_empty s2 s3
                  (rw (get_lem wq s2 at', locked) refl)
              ∙ ran
              ∙ ran'),
        f.calls ∙ r.queued,
        f.no_items,
        f.no_structure,
        f.no_lock,
        f.no_event,
      )
