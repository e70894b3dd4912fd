-- ===== src/ConditionVariable/Threads.antt =====
-- Any number of threads that wait on a condition variable, and others that signal it.
use freertos_addons.Prelude.{◌≡◌, ◌≢◌, Bool, true, if◌then◌else◌, ◌==◌, []}
use freertos_addons.Machine.{ok}
use freertos_addons.Memory.{Ptr}
use freertos_addons.Rtos.{Rtos, SameBut}
use freertos_addons.ConditionVariable.{
  CvState, WaitPc, outside, drop_lock, wait_signal, signal, broadcast, wait_step,
}
use freertos_addons.ConditionVariable.Waiting.{IsListed}

-- Where each thread is in Wait.
pub record Threads (K : Type 0) : Type 0 where
  pub shared : CvState K
  pub place : Ptr → WaitPc

abbrev pub moved : (Ptr → WaitPc) → Ptr → WaitPc → Ptr → WaitPc
moved f t p a = if a == t then p else f a

-- The thread is in the list, or is signaled.
abbrev pub Waits : WaitPc → Type 0
Waits drop_lock = Unit
Waits wait_signal = Unit
Waits p = ⊥

module _ (os : Rtos) (lock : Ptr) (sem : Ptr → Ptr) (cv_lock : Ptr) where
  pub data Step : Threads os.Kernel → Threads os.Kernel → Type 0 where
    waits :
        {y : Threads os.Kernel} (t : Ptr) (expired : Bool) {p : WaitPc} {s : CvState os.Kernel}
        → wait_step os lock sem expired t cv_lock (y.place t) y.shared ≡ ok p s
        → Step y (record { shared = s; place = moved y.place t p })
    signals :
        {y : Threads os.Kernel} {s : CvState os.Kernel}
        → signal os lock sem y.shared ≡ ok tt s
        → Step y (record y { shared = s })
    broadcasts :
        {y : Threads os.Kernel} {s : CvState os.Kernel}
        → broadcast os lock sem y.shared ≡ ok tt s
        → Step y (record y { shared = s })
    -- Somebody takes or gives the lock of the callers.
    locks :
        {y : Threads os.Kernel} (k : os.Kernel)
        → SameBut os cv_lock y.shared.kernel k
        → Step y (record y { shared = record y.shared { kernel = k } })

  pub data Reaches : Threads os.Kernel → Threads os.Kernel → Type 0 where
    start : {y : Threads os.Kernel} → Reaches y y
    step : {y z x : Threads os.Kernel} → Reaches y z → Step z x → Reaches y x

  -- A new condition variable, and threads that are not in Wait.
  pub record IsNew (y : Threads os.Kernel) : Type 0 where
    pub empty : y.shared.wait_list ≡ []
    pub free : os.available lock y.shared.kernel ≡ true
    pub idle : (t : Ptr) → y.place t ≡ outside

-- The semaphores are different ones.
pub record AreApart (lock : Ptr) (sem : Ptr → Ptr) (cv_lock : Ptr) : Type 0 where
  pub internal : (t : Ptr) → sem t ≢ lock
  pub callers : (t : Ptr) → sem t ≢ cv_lock
  pub locks : lock ≢ cv_lock
  pub threads : (t u : Ptr) → t ≢ u → sem t ≢ sem u

-- The internal lock is free, and no thread that waits is lost.
pub record Inv (os : Rtos) (lock : Ptr) (sem : Ptr → Ptr) (y : Threads os.Kernel) : Type 0 where
  pub free : os.available lock y.shared.kernel ≡ true
  pub listed : (t : Ptr) → Waits (y.place t) → IsListed os sem t y.shared
