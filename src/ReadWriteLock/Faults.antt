-- ===== src/ReadWriteLock/Faults.antt =====
-- No count of a lock that prefers writers overflows, and none is taken below zero.
use freertos_addons.Prelude.{
  ℕ, zero, suc, ◌+◌, ◌≤◌, ◌≡◌, ◌≢◌, refl, List, ◌∷◌, ◌++◌, arith, int_max, ap, ◌∙◌, sym,
}
use freertos_addons.Machine.{Run, ok, fault, blocked, out_of_fuel}
use freertos_addons.Rtos.{Rtos, IsRtos}
use freertos_addons.ReadWriteLock.{Pc, Shared, Choice, exec, System, Reaches}
use freertos_addons.ReadWriteLock.Safe.{IsSafe-ne, one, exec-IsSafe}
use freertos_addons.ReadWriteLock.Tally.{Ensures, total, total-append}
use freertos_addons.ReadWriteLock.Reach.{Reaches-keeps, reweigh}
use freertos_addons.ReadWriteLock.Resource.{Exclusive}
use freertos_addons.ReadWriteLock.Barrier.{Barred}
use freertos_addons.ReadWriteLock.Exclusion.{outsiders, reached-Exclusive}
use freertos_addons.ReadWriteLock.Preference.{IsNewWriter, reached-Barred}

-- The number of the tasks does not change.
always-Ensures : {S A : Type 0} (P : Type 0) (r : Run S A) → P → Ensures (λ a s. P) r
always-Ensures P (ok a s) h = h
always-Ensures P fault h = tt
always-Ensures P blocked h = tt
always-Ensures P out_of_fuel h = tt

total-one : (n : ℕ) → total one (outsiders n) ≡ n
unfolding total
total-one zero = refl
total-one (suc n) = omega (arith, total-one n)

module _ (os : Rtos) (laws : IsRtos os) (n : ℕ) (s : Shared os.Kernel) (z : System os.Kernel)
    (new : IsNewWriter os s) (run : Reaches os (record { shared = s; tasks = outsiders n }) z) where
  same_number : total one z.tasks ≡ n
  same_number =
      Reaches-keeps os (λ t weight. weight one ≡ n)
        (λ rest c p t e. always-Ensures (1 + total one rest ≡ n) (exec os c p t) e) run
        (total-one n)

  -- In every state that `n` tasks reach from a new lock that prefers writers, where `n` fits an
  -- `int`, the next step of no task is undefined behaviour: neither ReadCount nor WriteCount
  -- overflows.
  pub exec_never_faults :
      (c : Choice) (before after : List Pc) (p : Pc)
      → n ≤ int_max
      → z.tasks ≡ before ++ p ∷ after
      → exec os c p z.shared ≢ fault
  exec_never_faults c before after p small at =
      let here =
        λ (weight : Pc → ℕ). sym (ap (total weight) at ∙ total-append weight before p after) in
      IsSafe-ne (exec os c p z.shared) (
        exec-IsSafe os z.shared (before ++ after) c p (record {
          readers =
              reweigh os (Exclusive os) (λ weight. here weight)
                (reached-Exclusive os laws n s z new.new run);
          writers =
              reweigh os (Barred os) (λ weight. here weight) (reached-Barred os laws n s z new run);
          few = omega (arith, here one, same_number);
        }))
