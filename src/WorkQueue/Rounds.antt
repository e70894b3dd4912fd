-- ===== src/WorkQueue/Rounds.antt =====
-- Rounds of WorkerThread while no other task is in the module: each work item in the queue is
-- called and freed.
use mathlib.Core.List.{reverse}
use freertos_addons.Prelude.{
  ℕ, suc, ◌+◌, ◌*◌, ◌≡◌, ◌≢◌, refl, true, false, some, List, [], ◌∷◌, ◌++◌, arith, ◌==◌, length,
  ◌∙◌, sym, append-nil,
}
use freertos_addons.Machine.{ok}
use freertos_addons.Memory.{Ptr}
use freertos_addons.Rtos.{Rtos, IsRtos}
use freertos_addons.Tasks.{total}
use freertos_addons.Queue.Fifo.{is_queue_empty_lem}
use freertos_addons.WorkQueue.{
  Info, Shared, WorkerPc, await_event, take_lock, test_empty, take_item, release_lock,
  call_function, free_item, retake_lock, read_exit, end_round, worker, work, get_item, give, take,
  free_work_item, without_item,
}
use freertos_addons.WorkQueue.Kernel.{TaskCalls}
use freertos_addons.WorkQueue.Frames.{length-reverse}
use freertos_addons.WorkQueue.Invariant.{Owned, get_lem, Owned-move}
use freertos_addons.WorkQueue.Takes.{dequeued-Owned, called-Owned, freed-Owned}

module _ (os : Rtos) (laws : IsRtos os) (tasks : TaskCalls os) (wq : Ptr) (info : Info) where
  pub work-step :
      (n : ℕ) (w w' : WorkerPc) (s s' : Shared os.Kernel)
      → worker os tasks wq w s ≡ ok w' s'
      → work os tasks (suc n) wq w s ≡ work os tasks n wq w' s'
  unfolding work
  work-step n w w' s s' e = rw e refl

  pub work_nothing : (w : WorkerPc) (s : Shared os.Kernel) → work os tasks 0 wq w s ≡ ok w s
  unfolding work
  work_nothing w s = refl

  pub taken_lem :
      (h : Ptr) (s : Shared os.Kernel) {k : os.Kernel}
      → os.take h s.kernel ≡ some k
      → take os h s ≡ ok tt (record s { kernel = k })
  unfolding take
  taken_lem h s e = rw e refl

  pub take_lem :
      (h : Ptr) (s : Shared os.Kernel)
      → os.available h s.kernel ≡ true
      → (k : os.Kernel) × (take os h s ≡ ok tt (record s { kernel = k }))
  unfolding take
  take_lem h s free =
      let (k, taken, _, _) = laws.take_available h s.kernel free in (k, rw taken refl)

  -- What one round of the loop leaves: a work item less, called and freed.
  pub record Round (s s' : Shared os.Kernel) (q : List Ptr) : Type 0 where
    pub owned : Owned wq s' test_empty [] q
    pub structure : s'.structures wq ≡ some info
    pub queued : s'.queued ≡ s.queued

  pub one_item :
      (n : ℕ) (s : Shared os.Kernel) (x : Ptr) (q : List Ptr)
      → Owned wq s test_empty [] (x ∷ q)
      → s.structures wq ≡ some info
      → (s' : Shared os.Kernel) × (work os tasks
            (suc (suc (suc (suc (suc (suc n))))))
            wq
            test_empty
            s
          ≡ work os tasks n wq test_empty s')
        × Round s s' q
  unfolding worker get_item free_work_item give total
  one_item n s x q o at =
      let some_left : (length (reverse (x ∷ q)) == 0) ≡ false =
        ground (arith, length-reverse (x ∷ q)) in
      let o1 =
        Owned-move wq info s s.kernel test_empty take_item [] [] (x ∷ q) o (λ a. refl) refl tt in
      let (m, runs, o2) = dequeued-Owned wq [] s x q o1 in
      let s2 : Shared os.Kernel = record s { mem = m } in
      let s3 : Shared os.Kernel = record s2 { kernel = os.give info.lock s.kernel } in
      let o3 =
        Owned-move wq info s2 s3.kernel (release_lock x) (call_function x) [] [] q o2 (λ a. refl)
          refl tt in
      let (item, there, o4) = called-Owned wq [] x s3 q o3 in
      let s4 : Shared os.Kernel = record s3 { calls = s.calls ++ item ∷ [] } in
      let (item', there', o5) = freed-Owned wq [] x s4 q o4 in
      let s5 = without_item x s4 in
      let (k, taken) = take_lem info.lock s5 (laws.give_available info.lock s.kernel) in
      let s6 : Shared os.Kernel = record s5 { kernel = k } in
      (
        s6,
        work-step _ test_empty take_item s s
              (rw (is_queue_empty_lem s.mem wq (reverse (x ∷ q)) o.queue, some_left) refl)
            ∙ work-step _ take_item (release_lock x) s s2 (rw runs refl)
            ∙ work-step _ (release_lock x) (call_function x) s2 s3 (rw (get_lem wq s2 at) refl)
            ∙ work-step _ (call_function x) (free_item x) s3 s4 (rw there refl)
            ∙ work-step _ (free_item x) retake_lock s4 s5 (rw there' refl)
            ∙ work-step _ retake_lock test_empty s5 s6 (rw (get_lem wq s5 at, taken) refl),
        record {
          owned = Owned-move wq info s5 k retake_lock test_empty [] [] q o5 (λ a. refl) refl tt;
          structure = at;
          queued = refl;
        },
      )

  -- Six steps for each work item.
  abbrev pub steps_for : List Ptr → ℕ → ℕ
  steps_for [] n = n
  steps_for (x ∷ q) n = suc (suc (suc (suc (suc (suc (steps_for q n))))))

  pub steps_for_lem : (q : List Ptr) (n : ℕ) → steps_for q n ≡ 6 * length q + n
  steps_for_lem [] n = omega arith
  steps_for_lem (x ∷ q) n = omega (arith, steps_for_lem q n)

  pub all_items :
      (n : ℕ) (s : Shared os.Kernel) (q : List Ptr)
      → Owned wq s test_empty [] q
      → s.structures wq ≡ some info
      → (s' : Shared os.Kernel) × (work os tasks (steps_for q n) wq test_empty s
          ≡ work os tasks n wq test_empty s')
        × Round s s' []
  all_items n s [] o at = (s, refl, record { owned = o; structure = at; queued = refl })
  all_items n s (x ∷ q) o at =
      let (s1, ran, r) = one_item (steps_for q n) s x q o at in
      let (s2, ran', r') = all_items n s1 q r.owned r.structure in
      (
        s2,
        ran ∙ ran',
        record { owned = r'.owned; structure = r'.structure; queued = r'.queued ∙ r.queued },
      )

  -- If the worker waits, its event and the lock are available, nobody has asked it to exit, and no
  -- other task is in the module, then in 6 steps for each work item in the queue and 5 more the
  -- worker waits again, with the lock free and the queue empty: everything that was queued has been
  -- called, in its order, and every work item is freed.
  pub served :
      (s : Shared os.Kernel) (q : List Ptr)
      → Owned wq s await_event [] q
      → s.structures wq ≡ some info
      → info.exit_thread ≡ 0
      → info.event ≢ info.lock
      → os.available info.event s.kernel ≡ true
      → os.available info.lock s.kernel ≡ true
      → (s' : Shared os.Kernel) × (work os tasks (6 * length q + 5) wq await_event s
          ≡ ok await_event s')
        × (s'.calls ≡ s.queued)
        × Owned wq s' await_event [] []
        × (os.available info.lock s'.kernel ≡ true)
  unfolding worker give
  served s q o at stays apart signalled free =
      let (k1, taken, _, same) = laws.take_available info.event s.kernel signalled in
      let s1 : Shared os.Kernel = record s { kernel = k1 } in
      let (k2, locked) = take_lem info.lock s1 (same info.lock (λ e. apart (sym e)) ∙ free) in
      let s2 : Shared os.Kernel = record s { kernel = k2 } in
      let o2 = Owned-move wq info s k2 await_event test_empty [] [] q o (λ a. refl) refl tt in
      let (s3, ran, r) = all_items 3 s2 q o2 at in
      let empty = is_queue_empty_lem s3.mem wq [] r.owned.queue in
      let s4 : Shared os.Kernel = record s3 { kernel = os.give info.lock s3.kernel } in
      let steps : 6 * length q + 5 ≡ suc (suc (steps_for q 3)) = omega (arith, steps_for_lem q 3) in
      (
        s4,
        rw steps (
            work-step (suc (steps_for q 3)) await_event take_lock s s1
              (rw (get_lem wq s at, taken_lem info.event s taken) refl)
            ∙ work-step (steps_for q 3) take_lock test_empty s1 s2
                (rw (get_lem wq s1 at, locked) refl)
            ∙ ran
            ∙ work-step 2 test_empty read_exit s3 s3 (rw empty refl)
            ∙ work-step 1 read_exit (end_round 0) s3 s3 (rw (get_lem wq s3 r.structure, stays) refl)
            ∙ work-step 0 (end_round 0) await_event s3 s4 (rw (get_lem wq s3 r.structure) refl)
            ∙ work_nothing await_event s4),
        sym (r.owned.history ∙ append-nil s3.calls) ∙ r.queued,
        Owned-move wq info s3 s4.kernel test_empty await_event [] [] [] r.owned (λ a. refl) refl tt,
        laws.give_available info.lock s3.kernel,
      )
