-- ===== src/ConditionVariable.antt =====
-- c++/Source/ccondition_variable.cpp: the class ConditionVariable, and Thread::Wait of cthread.cpp.
-- The kernel is a parameter. The handles of the semaphores are set by the constructors and stay.
pub mod Waiting
pub mod Threads
pub mod Wakes
pub mod Stale
mod Tests
use freertos_addons.Prelude.{
  Bool, true, false, if◌then◌else◌, ◌==◌, Option, none, some, List, [], ◌∷◌, ◌++◌,
}
use freertos_addons.Machine.{Run, ok, blocked, Cmd, pure, ◌>>=◌, ◌>>◌}
use freertos_addons.Memory.{Ptr}
use freertos_addons.Rtos.{Rtos}

-- The threads that wait, the one that waits longest first.
pub record CvState (K : Type 0) : Type 0 where
  pub wait_list : List Ptr
  pub kernel : K

-- The statements of Thread::Wait.
pub data WaitPc : Type 0 where
  outside : WaitPc
  -- CvLock.Unlock()
  drop_lock : WaitPc
  -- ThreadWaitSem.Take(Timeout)
  wait_signal : WaitPc
  -- CvLock.Lock(), and what Take has returned
  grab_lock : Bool → WaitPc
  -- `return timed_out`
  returned : Bool → WaitPc

-- A call of xSemaphoreTake with what the kernel says; `expired` is whether its timeout is over.
abbrev pub take_run : {K : Type 0} → (expired : Bool) → CvState K → Option K → Run (CvState K) Bool
take_run expired s (some k) = ok true (record s { kernel = k })
take_run true s none = ok false s
take_run false s none = blocked

-- `WaitList.push_back(thread)`
abbrev pub push_back : {K : Type 0} → Ptr → Cmd (CvState K) (Unit {0})
push_back thread s = ok tt (record s { wait_list = s.wait_list ++ thread ∷ [] })

-- The semaphore of the internal lock of the condition variable, and those of the threads.
module _ (os : Rtos) (lock : Ptr) (sem : Ptr → Ptr) where
  -- Semaphore::Take, MutexStandard::Lock
  unfoldable pub take : (expired : Bool) → Ptr → Cmd (CvState os.Kernel) Bool
  take expired h s = take_run expired s (os.take h s.kernel)

  -- Semaphore::Give, MutexStandard::Unlock
  unfoldable pub give : Ptr → Cmd (CvState os.Kernel) (Unit {0})
  give h s = ok tt (record s { kernel = os.give h s.kernel })

  -- ConditionVariable::AddToWaitList
  unfoldable pub add_to_wait_list : Ptr → Cmd (CvState os.Kernel) (Unit {0})
  add_to_wait_list thread = take false lock >> push_back thread >> give lock

  -- The front of the list is popped and signaled: Thread::Signal.
  unfoldable pub signal_front : List Ptr → Cmd (CvState os.Kernel) (Unit {0})
  signal_front [] s = ok tt s
  signal_front (thr ∷ rest) s = give (sem thr) (record s { wait_list = rest })

  -- ConditionVariable::Signal
  unfoldable pub signal : Cmd (CvState os.Kernel) (Unit {0})
  signal = take false lock >> (λ s. signal_front s.wait_list s) >> give lock

  -- The loop of Broadcast; the list gets shorter in each round.
  unfoldable pub signal_all : List Ptr → Cmd (CvState os.Kernel) (Unit {0})
  signal_all [] = pure tt
  signal_all (thr ∷ rest) = signal_front (thr ∷ rest) >> signal_all rest

  -- ConditionVariable::Broadcast
  unfoldable pub broadcast : Cmd (CvState os.Kernel) (Unit {0})
  broadcast = take false lock >> (λ s. signal_all s.wait_list s) >> give lock

  -- A statement of Thread::Wait of the thread `this`, with the lock that its caller holds.
  unfoldable pub wait_step :
      (expired : Bool) → (this cv_lock : Ptr) → WaitPc → Cmd (CvState os.Kernel) WaitPc
  wait_step expired this cv_lock outside = add_to_wait_list this >> pure drop_lock
  wait_step expired this cv_lock drop_lock = give cv_lock >> pure wait_signal
  wait_step expired this cv_lock wait_signal = do
    signaled ← take expired (sem this)
    pure (grab_lock signaled)
  wait_step expired this cv_lock (grab_lock signaled) =
      take false cv_lock >> pure (returned signaled)
  wait_step expired this cv_lock (returned signaled) = pure outside
