-- ===== src/Memory/Sample.antt =====
-- Fields given by a list of addresses and values, for the tests.
use freertos_addons.Prelude.{Option, none, some, List, [], ◌∷◌, ◌==◌, if◌then◌else◌}
use freertos_addons.Machine.{Run, ok}
use freertos_addons.Memory.{Ptr, Field}

abbrev pub fields : {A : Type 0} → List (Ptr × A) → Field A
fields [] a = none
fields ((p, v) ∷ rest) a = if a == p then some v else fields rest a

abbrev pub value_of : {S A : Type 0} → Run S A → Option A
value_of (ok a s) = some a
value_of r = none
