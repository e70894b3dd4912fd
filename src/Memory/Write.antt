-- ===== src/Memory/Write.antt =====
-- What a written field holds.
use freertos_addons.Prelude.{◌≡◌, ◌≢◌, true, false, some, List, arith, has, ne_of_has}
use freertos_addons.Memory.{Ptr, Field, write}

module _ {A : Type 0} (f : Field A) (p : Ptr) (v : A) where
  pub write_self : write f p v p ≡ some v
  unfolding write
  write_self = ground arith

  pub write_ne : (a : Ptr) → a ≢ p → write f p v a ≡ f a
  unfolding write
  write_ne a ne = ground arith

  pub write_spares :
      (xs : List Ptr) → has p xs ≡ false → (a : Ptr) → has a xs ≡ true → write f p v a ≡ f a
  write_spares xs new a i = write_ne a (ne_of_has a p xs i new)

  -- A write of the value that stands there.
  pub write_again : f p ≡ some v → (a : Ptr) → write f p v a ≡ f a
  unfolding write
  write_again at a = ground arith
