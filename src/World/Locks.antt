-- ===== src/World/Locks.antt =====
-- A critical section: the lock is taken, and given back.
use native.Mathlib.Decide.{ℕ_discrete}
use freertos_addons.Prelude.{
  ◌≡◌, ◌≢◌, refl, true, Option, none, some, inl, inr, Bool-cases, ◌==◌, ◌∙◌, sym, ap, arith,
}
use freertos_addons.Machine.{Run, ok, fault, blocked, out_of_fuel}
use freertos_addons.Memory.{Ptr, null, Mem, write}
use freertos_addons.Rtos.{Rtos, IsRtos}
use freertos_addons.World.{
  World, PoolInfo, take, get_info, update_info, lift_info, lift_run, wait_run,
}

-- The same semaphores are available.
abbrev pub SameLocks : (os : Rtos) → os.Kernel → os.Kernel → Type 0
SameLocks os k k' = (a : Ptr) → os.available a k' ≡ os.available a k

pub get_info_lem :
    {K : Type 0} (w : World K) (pool : Ptr) {info : PoolInfo}
    → pool ≢ null
    → w.pool pool ≡ some info
    → get_info pool w ≡ ok info w
unfolding get_info
get_info_lem w pool ne at = ground arith

lift_info_ok :
    {K : Type 0} (w : World K) (o : Option PoolInfo) {info : PoolInfo} {w' : World K}
    → lift_info w o ≡ ok info w'
    → (o ≡ some info) × (w' ≡ w)
lift_info_ok w none e = cc
lift_info_ok w (some i) e = (cc, cc)

-- A read of the structure that returns has changed nothing.
pub get_info_ok :
    {K : Type 0} (w : World K) (pool : Ptr) {info : PoolInfo} {w' : World K}
    → get_info pool w ≡ ok info w'
    → (w.pool pool ≡ some info) × (w' ≡ w)
unfolding get_info
get_info_ok w pool e = elim (Bool-cases (pool == null)) [
  | inl at ↦ cc (rw at at e)
  | inr at ↦ lift_info_ok w (w.pool pool) (rw at at e)
]

-- No command on the shared memory changes a structure.
pub on_mem_pool :
    {K A : Type 0} (w : World K) (r : Run Mem A) {a : A} {w' : World K}
    → lift_run w r ≡ ok a w'
    → w'.pool ≡ w.pool
on_mem_pool w (ok b m) e = cc
on_mem_pool w fault e = cc
on_mem_pool w blocked e = cc
on_mem_pool w out_of_fuel e = cc

pub wait_pool :
    (os : Rtos) (w : World os.Kernel) (o : Option os.Kernel) {w' : World os.Kernel}
    → wait_run os w o ≡ ok tt w'
    → w'.pool ≡ w.pool
wait_pool os w none e = cc
wait_pool os w (some k) e = cc

pub update_info_lem :
    {K : Type 0} (w : World K) (pool : Ptr) {info : PoolInfo} (f : PoolInfo → PoolInfo)
    → pool ≢ null
    → w.pool pool ≡ some info
    → update_info pool f w ≡ ok tt (record w { pool = write w.pool pool (f info) })
unfolding update_info
update_info_lem w pool f ne at = ground arith

module _ (os : Rtos) (laws : IsRtos os) (h : Ptr) (k : os.Kernel)
    (at : os.available h k ≡ true) where
  -- The kernel while the lock is held.
  pub held : os.Kernel
  held = (laws.take_available h k at).0

  pub held_lem : os.take h k ≡ some held
  unfolding held
  held_lem = (laws.take_available h k at).1

  pub take_held :
      (w : World os.Kernel) → w.kernel ≡ k → take os h w ≡ ok tt (record w { kernel = held })
  unfolding take held
  take_held w e = rw (e, (laws.take_available h k at).1) refl

  pub given_SameLocks : SameLocks os k (os.give h held)
  unfolding held
  given_SameLocks a = elim (ℕ_discrete a h) [
    | yes here ↦
        ap (λ (b : Ptr). os.available b (os.give h held)) here
        ∙ laws.give_available h held
        ∙ sym at
        ∙ ap (λ (b : Ptr). os.available b k) (sym here)
    | no other ↦ laws.give_same h held a other ∙ (laws.take_available h k at).3 a other
  ]
