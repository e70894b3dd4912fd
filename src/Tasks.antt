-- ===== src/Tasks.antt =====
-- Tasks that share a state: what a step of one of them leaves, and how many stand at a place.
use mathlib.Core.Path.{subst}
use freertos_addons.Prelude.{ℕ, ◌+◌, ◌≡◌, refl, Bool, true, false, List, [], ◌∷◌, ◌++◌, arith}
use freertos_addons.Machine.{Run, ok, fault, blocked, out_of_fuel}

-- If the run returns, then with a result and a state of which `P` holds.
abbrev pub Ensures : {S A : Type 0} → (A → S → Type 0) → Run S A → Type 0
Ensures P (ok a s) = P a s
Ensures P fault = Unit
Ensures P blocked = Unit
Ensures P out_of_fuel = Unit

pub Ensures-ok :
    {S A : Type 0} (P : A → S → Type 0) (r : Run S A) {a : A} {s : S}
    → r ≡ ok a s
    → Ensures P r
    → P a s
Ensures-ok P r e h = subst (Ensures P) e h

-- How much the tasks weigh.
unfoldable pub total : {Pc : Type 0} → (Pc → ℕ) → List Pc → ℕ
total weight [] = 0
total weight (p ∷ ps) = weight p + total weight ps

-- The weight of one task beside that of the others.
pub total-append :
    {Pc : Type 0} (weight : Pc → ℕ) (before : List Pc) (p : Pc) (after : List Pc)
    → total weight (before ++ p ∷ after) ≡ weight p + total weight (before ++ after)
unfolding total
total-append weight [] p after = refl
total-append weight (q ∷ before) p after = omega (arith, total-append weight before p after)

-- One semaphore as a number.
abbrev pub up : Bool → ℕ
up true = 1
up false = 0

-- What the run ends with: a result and a state of which `P` holds, a wait, or a fault, where `F`.
abbrev pub Outcome : {S A : Type 0} → (A → S → Type 0) → Type 0 → Run S A → Type 0
Outcome P F (ok a s) = P a s
Outcome P F fault = F
Outcome P F blocked = Unit
Outcome P F out_of_fuel = ⊥

pub Outcome-ok :
    {S A : Type 0} (P : A → S → Type 0) (F : Type 0) (r : Run S A) {a : A} {s : S}
    → r ≡ ok a s
    → Outcome P F r
    → P a s
Outcome-ok P F r e h = subst (Outcome P F) e h

pub Outcome-fault :
    {S A : Type 0} (P : A → S → Type 0) (F : Type 0) (r : Run S A) → r ≡ fault → Outcome P F r → F
Outcome-fault P F r e h = subst (Outcome P F) e h

-- What holds of every task.
abbrev pub All : {Pc : Type 0} → (Pc → Type 0) → List Pc → Type 0
All P [] = Unit
All P (p ∷ ps) = P p × All P ps

pub All-to_front :
    {Pc : Type 0} (P : Pc → Type 0) (before : List Pc) (p : Pc) (after : List Pc)
    → All P (before ++ p ∷ after)
    → P p × All P (before ++ after)
All-to_front P [] p after h = h
All-to_front P (q ∷ before) p after h =
    let (here, rest) = All-to_front P before p after h.1 in (here, (h.0, rest))

pub All-from_front :
    {Pc : Type 0} (P : Pc → Type 0) (before : List Pc) (p : Pc) (after : List Pc)
    → P p
    → All P (before ++ after)
    → All P (before ++ p ∷ after)
All-from_front P [] p after here rest = (here, rest)
All-from_front P (q ∷ before) p after here rest =
    (rest.0, All-from_front P before p after here rest.1)
