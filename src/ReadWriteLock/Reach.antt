-- ===== src/ReadWriteLock/Reach.antt =====
-- Invariants of the system: what every step of a task keeps holds in every state that is reached.
use mathlib.Core.Path.{subst}
use freertos_addons.Prelude.{ℕ, ◌≡◌, List, ◌++◌, sym}
use freertos_addons.Rtos.{Rtos}
use freertos_addons.ReadWriteLock.{
  Pc, Shared, Choice, exec, System, Step, step, Reaches, start, then_step,
}
use freertos_addons.ReadWriteLock.Tally.{Ensures, Ensures-ok, total, total-append, beside}

-- The weights of the tasks do not depend on where a task stands in the list.
pub reweigh :
    (os : Rtos) (Holds : Shared os.Kernel → ((Pc → ℕ) → ℕ) → Type 0) {s : Shared os.Kernel}
    {v w : (Pc → ℕ) → ℕ}
    → ((weight : Pc → ℕ) → w weight ≡ v weight)
    → Holds s v
    → Holds s w
reweigh os Holds {s} same holds = subst (Holds s) (λ i weight. sym (same weight) i) holds

module _ (os : Rtos) (Holds : Shared os.Kernel → ((Pc → ℕ) → ℕ) → Type 0)
    (keeps : (rest : List Pc) (c : Choice) (p : Pc) (s : Shared os.Kernel)
      → Holds s (beside p rest)
      → Ensures (λ q s'. Holds s' (beside q rest)) (exec os c p s)) where
  Step-keeps :
      {y z : System os.Kernel}
      → Step os y z
      → Holds y.shared (λ weight. total weight y.tasks)
      → Holds z.shared (λ weight. total weight z.tasks)
  Step-keeps (step c before after p q s s' e) holds =
      reweigh os Holds (λ weight. total-append weight before q after)
        (Ensures-ok (λ r t. Holds t (beside r (before ++ after))) (exec os c p s) e
          (keeps (before ++ after) c p s
            (reweigh os Holds (λ weight. sym (total-append weight before p after)) holds)))

  pub Reaches-keeps :
      {y z : System os.Kernel}
      → Reaches os y z
      → Holds y.shared (λ weight. total weight y.tasks)
      → Holds z.shared (λ weight. total weight z.tasks)
  Reaches-keeps (start y) holds = holds
  Reaches-keeps (then_step s t u r m) holds = Step-keeps m (Reaches-keeps r holds)
