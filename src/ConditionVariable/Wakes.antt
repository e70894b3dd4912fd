-- ===== src/ConditionVariable/Wakes.antt =====
-- No thread that waits is lost, and Broadcast wakes them all.
use mathlib.Core.Path.{subst}
use native.Mathlib.Decide.{ℕ_discrete}
use freertos_addons.Prelude.{
  ◌≡◌, ◌≢◌, refl, Bool, true, false, Option, none, some, inl, inr, Bool-cases, List, [], ◌∷◌, has,
  has-append, arith, sym, ◌∙◌, ap,
}
use freertos_addons.Machine.{Run, ok, and_then, pure}
use freertos_addons.Memory.{Ptr}
use freertos_addons.Rtos.{Rtos, IsRtos, SameBut}
use freertos_addons.Tasks.{Outcome, Outcome-ok}
use freertos_addons.ConditionVariable.{
  CvState, WaitPc, outside, drop_lock, wait_signal, grab_lock, returned, take, take_run, give,
  broadcast, wait_step,
}
use freertos_addons.ConditionVariable.Waiting.{
  IsListed, Returns, broadcast-Returns, signal-Returns, add_to_wait_list-Returns,
}
use freertos_addons.ConditionVariable.Threads.{
  Threads, moved, Waits, Step, waits, signals, broadcasts, locks, Reaches, start, step, IsNew,
  AreApart, Inv,
}

moved_self : (f : Ptr → WaitPc) (t : Ptr) (p : WaitPc) (a : Ptr) → a ≡ t → moved f t p a ≡ p
moved_self f t p a e = ground arith

moved_ne : (f : Ptr → WaitPc) (t : Ptr) (p : WaitPc) (a : Ptr) → a ≢ t → moved f t p a ≡ f a
moved_ne f t p a n = ground arith

module _ (os : Rtos) (laws : IsRtos os) (lock : Ptr) (sem : Ptr → Ptr) (cv_lock : Ptr)
    (apart : AreApart lock sem cv_lock) where
  -- What a step of the thread `t` leaves.
  abbrev Left : (Ptr → WaitPc) → Ptr → WaitPc → CvState os.Kernel → Type 0
  Left f t p s = Inv os lock sem (record { shared = s; place = moved f t p })

  left :
      (y : Threads os.Kernel) (t : Ptr) (p : WaitPc) (s : CvState os.Kernel)
      → Inv os lock sem y
      → os.available lock s.kernel ≡ true
      → ((a : Ptr) → a ≢ t → IsListed os sem a y.shared → IsListed os sem a s)
      → (Waits p → IsListed os sem t s)
      → Left y.place t p s
  left y t p s v free others own = record {
    free = free;
    listed = λ a w. elim (ℕ_discrete a t) [
      | yes same ↦
          subst (λ b. IsListed os sem b s) (sym same)
            (own (subst Waits (moved_self y.place t p a same) w))
      | no ne ↦ others a ne (v.listed a (subst Waits (moved_ne y.place t p a ne) w))
    ];
  }

  -- A change of one semaphore, which is not that of the thread.
  same-IsListed :
      (h a : Ptr) (s : CvState os.Kernel) (k : os.Kernel)
      → SameBut os h s.kernel k
      → sem a ≢ h
      → IsListed os sem a s
      → IsListed os sem a (record s { kernel = k })
  same-IsListed h a s k same ne l off = l (sym (same (sem a) ne) ∙ off)

  taken_same : (h : Ptr) (k k' : os.Kernel) → os.take h k ≡ some k' → SameBut os h k k'
  taken_same h k k' e =
      let (k₁, e₁, off, same) = laws.take_available h k (laws.take_some h k k' e) in
      let one : k₁ ≡ k' = cc in subst (λ x. SameBut os h k x) one same

  add_keeps :
      (y : Threads os.Kernel) (t : Ptr) (expired : Bool)
      → Inv os lock sem y
      → Outcome (Left y.place t) ⊥ (wait_step os lock sem expired t cv_lock outside y.shared)
  unfolding wait_step
  add_keeps y t expired v =
      let r = add_to_wait_list-Returns os laws lock sem apart.internal t y.shared v.free in
      rw r.runs (
        left y t drop_lock r.state v r.free (λ a ne l. r.listed a l)
          (λ _ off.
            ap (λ (xs : List Ptr). has t xs) r.list
            ∙ ground (arith, has-append t y.shared.wait_list (t ∷ []))))

  drop_keeps :
      (y : Threads os.Kernel) (t : Ptr) (expired : Bool)
      → Inv os lock sem y
      → y.place t ≡ drop_lock
      → Outcome (Left y.place t) ⊥ (wait_step os lock sem expired t cv_lock drop_lock y.shared)
  unfolding wait_step give
  drop_keeps y t expired v at =
      let same = laws.give_same cv_lock y.shared.kernel in
      let all = λ (a : Ptr). same-IsListed cv_lock a y.shared _ same (apart.callers a) in
      left y t wait_signal _ v (same lock apart.locks ∙ v.free) (λ a ne l. all a l)
        (λ _. all t (v.listed t (subst Waits (sym at) tt)))

  -- A take that returns, and one whose timeout is over.
  take_keeps :
      (y : Threads os.Kernel) (t h : Ptr) (expired : Bool) (next : Bool → WaitPc)
      (o : Option os.Kernel)
      → Inv os lock sem y
      → os.take h y.shared.kernel ≡ o
      → h ≢ lock
      → ((a : Ptr) → a ≢ t → sem a ≢ h)
      → ((b : Bool) → ¬ Waits (next b))
      → Outcome (Left y.place t) ⊥ (and_then (take_run expired y.shared o) (λ b. pure (next b)))
  take_keeps y t h expired next (some k) v e ne other out =
      let same = taken_same h y.shared.kernel k e in
      left y t (next true) _ v (same lock (λ l. ne (sym l)) ∙ v.free)
        (λ a n l. same-IsListed h a y.shared k same (other a n) l) (λ w. absurd (out true w))
  take_keeps y t h true next none v e ne other out =
      left y t (next false) y.shared v v.free (λ a n l. l) (λ w. absurd (out false w))
  take_keeps y t h false next none v e ne other out = tt

  wait_keeps :
      (y : Threads os.Kernel) (t : Ptr) (expired : Bool) (p : WaitPc)
      → Inv os lock sem y
      → y.place t ≡ p
      → Outcome (Left y.place t) ⊥ (wait_step os lock sem expired t cv_lock p y.shared)
  unfolding wait_step take
  wait_keeps y t expired outside v at = add_keeps y t expired v
  wait_keeps y t expired drop_lock v at = drop_keeps y t expired v at
  wait_keeps y t expired wait_signal v at =
      take_keeps y t (sem t) expired grab_lock _ v refl (apart.internal t)
        (λ a n. apart.threads a t n) (λ b w. w)
  wait_keeps y t expired (grab_lock signaled) v at =
      take_keeps y t cv_lock false (λ _. returned signaled) _ v refl (λ e. apart.locks (sym e))
        (λ a n. apart.callers a) (λ b w. w)
  wait_keeps y t expired (returned signaled) v at =
      left y t outside y.shared v v.free (λ a n l. l) (λ w. absurd w)

  Returns-keeps :
      (y : Threads os.Kernel) (xs : List Ptr) (r : Run (CvState os.Kernel) (Unit {0}))
      {s : CvState os.Kernel}
      → Inv os lock sem y
      → Returns os laws lock sem apart.internal y.shared xs r
      → r ≡ ok tt s
      → Inv os lock sem (record y { shared = s })
  Returns-keeps y xs r {s} v done e =
      let same : done.state ≡ s = cc (done.runs, e) in
      subst (λ z. Inv os lock sem (record y { shared = z })) same
        (record { free = done.free; listed = λ t w. done.listed t (v.listed t w) })

  step_keeps :
      {y z : Threads os.Kernel}
      → Step os lock sem cv_lock y z
      → Inv os lock sem y
      → Inv os lock sem z
  step_keeps {y} (waits t expired e) v =
      Outcome-ok (Left y.place t) ⊥ _ e (wait_keeps y t expired (y.place t) v refl)
  step_keeps {y} (signals e) v =
      Returns-keeps y _ _ v (signal-Returns os laws lock sem apart.internal y.shared v.free) e
  step_keeps {y} (broadcasts e) v =
      Returns-keeps y _ _ v (broadcast-Returns os laws lock sem apart.internal y.shared v.free) e
  step_keeps {y} (locks k same) v = record {
    free = same lock apart.locks ∙ v.free;
    listed = λ t w. same-IsListed cv_lock t y.shared k same (apart.callers t) (v.listed t w);
  }

  pub Reaches-keeps :
      {y z : Threads os.Kernel}
      → Reaches os lock sem cv_lock y z
      → Inv os lock sem y
      → Inv os lock sem z
  Reaches-keeps start v = v
  Reaches-keeps (step r st) v = step_keeps st (Reaches-keeps r v)

  pub IsNew-Inv : (y : Threads os.Kernel) → IsNew os lock sem cv_lock y → Inv os lock sem y
  IsNew-Inv y new = record { free = new.free; listed = λ t w. absurd (subst Waits (new.idle t) w) }

  -- A thread whose semaphore is available takes it.
  signaled_takes :
      (t : Ptr) (expired : Bool) (s : CvState os.Kernel)
      → os.available (sem t) s.kernel ≡ true
      → (k : os.Kernel) × (wait_step os lock sem expired t cv_lock wait_signal s
          ≡ ok (grab_lock true) (record s { kernel = k }))
  unfolding wait_step take
  signaled_takes t expired s on =
      let (k, e, off, same) = laws.take_available (sem t) s.kernel on in (k, rw e refl)

  -- In every state that any number of threads reach from a new condition variable through Wait,
  -- Signal and Broadcast, in any order of their steps, with any timeouts that expire, and while
  -- anybody takes and gives the lock of the callers, where the semaphores are different ones:
  -- Broadcast returns and leaves no thread in the list, and then the next step of each thread that
  -- is blocked in Wait takes its semaphore and goes on with the answer that it was signaled.
  pub broadcast_wakes :
      {y z : Threads os.Kernel}
      → IsNew os lock sem cv_lock y
      → Reaches os lock sem cv_lock y z
      → (s : CvState os.Kernel) × (broadcast os lock sem z.shared ≡ ok tt s)
        × (s.wait_list ≡ [])
        × ((t : Ptr) (expired : Bool)
            → z.place t ≡ wait_signal
            → (k : os.Kernel) × (wait_step os lock sem expired t cv_lock wait_signal s
                ≡ ok (grab_lock true) (record s { kernel = k })))
  broadcast_wakes {y} {z} new r =
      let v = Reaches-keeps r (IsNew-Inv y new) in
      let b = broadcast-Returns os laws lock sem apart.internal z.shared v.free in
      (
        b.state,
        b.runs,
        b.list,
        λ t expired at.
            signaled_takes t expired b.state
              (elim (Bool-cases (os.available (sem t) b.state.kernel)) [
                | inl on ↦ on
                | inr off ↦
                    let there = b.listed t (v.listed t (subst Waits (sym at) tt)) off in
                    absurd (cc (there, ap (λ (xs : List Ptr). has t xs) b.list))
              ]),
      )
