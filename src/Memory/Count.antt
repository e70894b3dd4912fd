-- ===== src/Memory/Count.antt =====
-- The `Count` field of `Stack_t` and `Queue_t`.
use freertos_addons.Prelude.{◌≡◌, ◌≢◌, some, arith, ℤ}
use freertos_addons.Machine.{Cmd, ok}
use freertos_addons.Memory.{Ptr, null, Mem, write, load, store}

unfoldable pub get_count : Ptr → Cmd Mem ℤ
unfolding load
get_count = load (λ m. m.count)

unfoldable pub set_count : Ptr → ℤ → Cmd Mem (Unit {0})
unfolding store
set_count = store (λ m. m.count) (λ m f. record m { count = f })

abbrev pub with_count : Mem → Ptr → ℤ → Mem
with_count m p v = record m { count = write m.count p v }

module _ (m : Mem) {p : Ptr} {c : ℤ} (ne : p ≢ null) (at : m.count p ≡ some c) where
  pub get_count_lem : get_count p m ≡ ok c m
  unfolding get_count
  get_count_lem = ground arith

  pub set_count_lem : (v : ℤ) → set_count p v m ≡ ok tt (with_count m p v)
  unfolding set_count
  set_count_lem v = ground arith
