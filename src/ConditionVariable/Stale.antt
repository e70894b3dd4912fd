-- ===== src/ConditionVariable/Stale.antt =====
-- Thread::Wait whose timeout expires leaves the thread in the list of the condition variable.
use freertos_addons.Prelude.{◌≡◌, ◌≢◌, refl, true, List, ◌∷◌, ◌∙◌, ap}
use freertos_addons.Machine.{ok}
use freertos_addons.Memory.{Ptr}
use freertos_addons.Rtos.{Rtos, IsRtos}
use freertos_addons.ConditionVariable.{CvState, outside, take, give, signal_front, signal}
use freertos_addons.ConditionVariable.Threads.{Threads, Reaches, IsNew, AreApart}
use freertos_addons.ConditionVariable.Wakes.{IsNew-Inv, Reaches-keeps}

module _ (os : Rtos) (laws : IsRtos os) (lock : Ptr) (sem : Ptr → Ptr) (cv_lock : Ptr)
    (apart : AreApart lock sem cv_lock) where
  -- Signal where a thread is in front.
  signal_one :
      (thr : Ptr) (rest : List Ptr) (s : CvState os.Kernel)
      → s.wait_list ≡ thr ∷ rest
      → os.available lock s.kernel ≡ true
      → (s' : CvState os.Kernel) × (signal os lock sem s ≡ ok tt s')
        × (s'.wait_list ≡ rest)
        × (os.available (sem thr) s'.kernel ≡ true)
        × ((u : Ptr) → u ≢ thr → os.available (sem u) s'.kernel ≡ os.available (sem u) s.kernel)
  unfolding signal signal_front take give
  signal_one thr rest s e free =
      let (k₁, runs, off, same) = laws.take_available lock s.kernel free in
      let k₂ = os.give (sem thr) k₁ in
      let unlocked = laws.give_same lock k₂ in
      (
        record { wait_list = rest; kernel = os.give lock k₂ },
        rw (runs, e) refl,
        refl,
        unlocked (sem thr) (apart.internal thr) ∙ laws.give_available (sem thr) k₁,
        λ u n.
            unlocked (sem u) (apart.internal u)
            ∙ laws.give_same (sem thr) k₁ (sem u) (apart.threads u thr n)
            ∙ same (sem u) (apart.internal u),
      )

  -- In every state that any number of threads reach from a new condition variable through Wait,
  -- Signal and Broadcast, in any order of their steps, with any timeouts that expire, and while
  -- anybody takes and gives the lock of the callers, where the semaphores are different ones: if
  -- the thread in front of the list has left Wait, as it does when its timeout expires, then Signal
  -- returns, gives the semaphore of that thread, and changes the semaphore of no thread that is in
  -- Wait: none of those that wait is woken.
  pub signal_lost :
      {y z : Threads os.Kernel} (t : Ptr) (rest : List Ptr)
      → IsNew os lock sem cv_lock y
      → Reaches os lock sem cv_lock y z
      → z.shared.wait_list ≡ t ∷ rest
      → z.place t ≡ outside
      → (s : CvState os.Kernel) × (signal os lock sem z.shared ≡ ok tt s)
        × (s.wait_list ≡ rest)
        × (os.available (sem t) s.kernel ≡ true)
        × ((u : Ptr)
            → z.place u ≢ outside
            → os.available (sem u) s.kernel ≡ os.available (sem u) z.shared.kernel)
  signal_lost {y} {z} t rest new r list gone =
      let v =
        Reaches-keeps os laws lock sem cv_lock apart r
          (IsNew-Inv os laws lock sem cv_lock apart y new) in
      let (s, runs, left, on, same) = signal_one t rest z.shared list v.free in
      (s, runs, left, on, λ u inside. same u (λ e. inside (ap z.place e ∙ gone)))
