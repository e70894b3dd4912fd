-- ===== src/RtosSample.antt =====
-- Semaphores that meet `IsRtos`, for the tests: the state is the set of handles that are available,
-- the set of those that are deleted, and the handle that is created next.
use freertos_addons.Prelude.{
  ◌≡◌, ◌≢◌, refl, ltb, ◌+◌, Bool, true, false, Option, none, some, arith, ◌==◌, if◌then◌else◌,
}
use freertos_addons.Memory.{Ptr}
use freertos_addons.Rtos.{Rtos, IsRtos}

pub record Semaphores : Type 0 where
  pub free : Ptr → Bool
  pub gone : Ptr → Bool
  pub next : Ptr

abbrev mark : (Ptr → Bool) → Ptr → Bool → Ptr → Bool
mark f h b a = if a == h then b else f a

abbrev take : Ptr → Semaphores → Option Semaphores
take h k = if k.free h then some (record k { free = mark k.free h false }) else none

abbrev create : Bool → Semaphores → Ptr × Semaphores
create b k = (
  k.next,
  record { free = mark k.free k.next b; gone = mark k.gone k.next false; next = k.next + 1 },
)

abbrev pub sample_rtos : Rtos
sample_rtos = record {
  Kernel = Semaphores;
  available = λ h k. k.free h;
  live = λ h k. if k.gone h then false else ltb h k.next;
  take = take;
  give = λ h k. record k { free = mark k.free h true };
  create_mutex = create true;
  create_binary = create false;
  delete = λ h k. record k { gone = mark k.gone h true };
}

create_fresh : (k : Semaphores) → (if k.gone k.next then false else ltb k.next k.next) ≡ false
create_fresh k = ground arith

create_others :
    (k : Semaphores) (a : Ptr)
    → a ≢ k.next
    → (if mark k.gone k.next false a then false else ltb a (k.next + 1))
      ≡ (if k.gone a then false else ltb a k.next)
create_others k a ne = ground arith

pub sample_rtos-IsRtos : IsRtos sample_rtos
sample_rtos-IsRtos = record {
  take_available = λ h k e.
      (record k { free = mark k.free h false }, ground arith, ground arith, λ a ne. ground arith);
  take_some = λ h k k' e. ground arith;
  give_available = λ h k. ground arith;
  give_same = λ h k a ne. ground arith;
  create_mutex_available = λ k ne. ground arith;
  create_mutex_same = λ k a ne. ground arith;
  create_binary_same = λ k a ne. ground arith;
  create_mutex_live = λ k. record {
    fresh = λ ne. create_fresh k;
    made = λ ne. ground arith;
    others = λ a ne. create_others k a ne;
  };
  create_binary_live = λ k. record {
    fresh = λ ne. create_fresh k;
    made = λ ne. ground arith;
    others = λ a ne. create_others k a ne;
  };
  give_live = λ h k a. refl;
  delete_live = λ h k. ground arith;
  delete_same = λ h k a ne. ground arith;
}
