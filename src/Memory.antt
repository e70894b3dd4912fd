-- ===== src/Memory.antt =====
-- The memory that the list, stack and queue modules share: the fields of their structures by
-- address. An address that holds no such field is mapped to `none`, and using it is a fault.
pub mod Path
pub mod Count
pub mod Write
pub mod Sample
use freertos_addons.Prelude.{ℕ, Option, none, some, ◌==◌, if◌then◌else◌, ℤ}
use freertos_addons.Machine.{ok, fault, Cmd}

abbrev pub Ptr : Type 0
Ptr = ℕ

abbrev pub null : Ptr
null = 0

abbrev pub Field : Type 0 → Type 0
Field A = Ptr → Option A

unfoldable pub write : {A : Type 0} → Field A → Ptr → A → Field A
write f p v a = if a == p then some v else f a

pub record Mem : Type 0 where
  -- `Next` of an `SlNode_t`
  pub sl_next : Field Ptr
  -- `Next` and `Prev` of a `DlNode_t`
  pub dl_next : Field Ptr
  pub dl_prev : Field Ptr
  -- `Count` of a `Stack_t` or a `Queue_t`
  pub count : Field ℤ

abbrev pub no_memory : Mem
no_memory = record {
  sl_next = λ _. none;
  dl_next = λ _. none;
  dl_prev = λ _. none;
  count = λ _. none;
}

-- A read of a field: a fault at `NULL` and where the field is not mapped.
unfoldable pub load : {A : Type 0} → (Mem → Field A) → Ptr → Cmd Mem A
load field p m = if p == null then fault else elim (field m p) [ none ↦ fault | some v ↦ ok v m ]

-- A write to a field, by the function that puts the new field into the memory.
unfoldable pub store :
    {A : Type 0} → (Mem → Field A) → (Mem → Field A → Mem) → Ptr → A → Cmd Mem (Unit {0})
store field put p v m =
    if p == null
    then fault
    else elim (field m p) [ none ↦ fault | some _ ↦ ok tt (put m (write (field m) p v)) ]
