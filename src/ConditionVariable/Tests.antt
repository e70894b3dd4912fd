-- ===== src/ConditionVariable/Tests.antt =====
-- Two threads on a condition variable; the Wait of the first times out.
use freertos_addons.Prelude.{◌≡◌, ◌≢◌, refl, Bool, true, false, ◌==◌, ◌+◌, [], ◌∷◌, arith}
use freertos_addons.Machine.{Run, ok, fault, blocked, out_of_fuel}
use freertos_addons.Memory.{Ptr}
use freertos_addons.RtosSample.{Semaphores, sample_rtos, sample_rtos-IsRtos}
use freertos_addons.ConditionVariable.{
  CvState, WaitPc, outside, wait_signal, grab_lock, wait_step, take, give, add_to_wait_list, signal,
  broadcast,
}
use freertos_addons.ConditionVariable.Threads.{
  Threads, moved, Step, waits, Reaches, start, step, IsNew, AreApart,
}
use freertos_addons.ConditionVariable.Wakes.{broadcast_wakes}
use freertos_addons.ConditionVariable.Stale.{signal_lost}

abbrev sem_of : Ptr → Ptr
sem_of t = t + 10

sem_of-AreApart : AreApart 1 sem_of 2
sem_of-AreApart = record {
  internal = λ t. omega arith;
  callers = λ t. omega arith;
  locks = omega arith;
  threads = λ t u n. omega arith;
}

-- The first caller of Wait holds the lock 2.
abbrev fresh : Threads Semaphores
fresh = record {
  shared = record {
    wait_list = [];
    kernel = record { free = λ h. h == 1; gone = λ h. false; next = 100 };
  };
  place = λ t. outside;
}

fresh-IsNew : IsNew sample_rtos 1 sem_of 2 fresh
fresh-IsNew = record { empty = refl; free = refl; idle = λ t. refl }

abbrev after : Threads Semaphores → Ptr → Run (CvState Semaphores) WaitPc → Threads Semaphores
after y t (ok p s) = record { shared = s; place = moved y.place t p }
after y t fault = y
after y t blocked = y
after y t out_of_fuel = y

abbrev IsOk : Run (CvState Semaphores) WaitPc → Type 0
IsOk (ok p s) = Unit
IsOk fault = ⊥
IsOk blocked = ⊥
IsOk out_of_fuel = ⊥

unfoldable next : Bool → Ptr → Threads Semaphores → Threads Semaphores
next expired t y = after y t (wait_step sample_rtos 1 sem_of expired t 2 (y.place t) y.shared)

after-Step :
    (expired : Bool) (t : Ptr) (y : Threads Semaphores) (r : Run (CvState Semaphores) WaitPc)
    → wait_step sample_rtos 1 sem_of expired t 2 (y.place t) y.shared ≡ r
    → IsOk r
    → Step sample_rtos 1 sem_of 2 y (after y t r)
after-Step expired t y (ok p s) e good = waits t expired e
after-Step expired t y fault e good = absurd good
after-Step expired t y blocked e good = absurd good
after-Step expired t y out_of_fuel e good = absurd good

-- Thread 0 waits until its timeout is over, and then thread 1 waits.
abbrev timed_out : Threads Semaphores
timed_out = next true 0 (next true 0 (next true 0 (next true 0 (next true 0 fresh))))

abbrev second_waits : Threads Semaphores
second_waits = next false 1 (next false 1 timed_out)

next-Reaches :
    (expired : Bool) (t : Ptr) {y : Threads Semaphores}
    → IsOk (wait_step sample_rtos 1 sem_of expired t 2 (y.place t) y.shared)
    → Reaches sample_rtos 1 sem_of 2 fresh y
    → Reaches sample_rtos 1 sem_of 2 fresh (next expired t y)
unfolding next
next-Reaches expired t {y} good r = step r (after-Step expired t y _ refl good)

second_waits-Reaches : Reaches sample_rtos 1 sem_of 2 fresh second_waits
unfolding next wait_step take give add_to_wait_list
second_waits-Reaches = next-Reaches false 1 tt (
    next-Reaches false 1 tt (
      next-Reaches true 0 tt (
        next-Reaches true 0 tt
          (next-Reaches true 0 tt (next-Reaches true 0 tt (next-Reaches true 0 tt start))))))

second_waits_list : second_waits.shared.wait_list ≡ 0 ∷ 1 ∷ []
unfolding next wait_step take give add_to_wait_list
second_waits_list = refl

second_waits_gone : second_waits.place 0 ≡ outside
unfolding next wait_step take give add_to_wait_list
second_waits_gone = refl

-- The semaphore of the thread that waits is not given.
second_waits_on : second_waits.place 1 ≡ wait_signal
unfolding next wait_step take give add_to_wait_list
second_waits_on = refl

signal_lost_example :
    (s : CvState Semaphores) × (signal sample_rtos 1 sem_of second_waits.shared ≡ ok tt s)
    × (s.wait_list ≡ 1 ∷ [])
    × (sample_rtos.available 10 s.kernel ≡ true)
    × ((u : Ptr)
        → second_waits.place u ≢ outside
        → sample_rtos.available (sem_of u) s.kernel
          ≡ sample_rtos.available (sem_of u) second_waits.shared.kernel)
signal_lost_example =
    signal_lost sample_rtos sample_rtos-IsRtos 1 sem_of 2 sem_of-AreApart 0 (1 ∷ []) fresh-IsNew
      second_waits-Reaches second_waits_list second_waits_gone

broadcast_wakes_example :
    (s : CvState Semaphores) × (broadcast sample_rtos 1 sem_of second_waits.shared ≡ ok tt s)
    × (s.wait_list ≡ [])
    × ((t : Ptr) (expired : Bool)
        → second_waits.place t ≡ wait_signal
        → (k : Semaphores) × (wait_step sample_rtos 1 sem_of expired t 2 wait_signal s
            ≡ ok (grab_lock true) (record s { kernel = k })))
broadcast_wakes_example =
    broadcast_wakes sample_rtos sample_rtos-IsRtos 1 sem_of 2 sem_of-AreApart fresh-IsNew
      second_waits-Reaches
