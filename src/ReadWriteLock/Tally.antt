-- ===== src/ReadWriteLock/Tally.antt =====
-- Runs of one step, and how many tasks stand at a place.
use mathlib.Core.Path.{subst}
use freertos_addons.Prelude.{
  ◌≤◌, ℕ, zero, ◌+◌, ◌≡◌, refl, Bool, true, false, Bool-cases, inl, inr, Option, none, some, List,
  arith, ◌==◌, ℤ, pos, negsuc, int_max, suc, if◌then◌else◌,
}
use freertos_addons.Machine.{Cmd, ◌>>=◌, increment, decrement}
use freertos_addons.Memory.{Ptr}
pub use freertos_addons.Tasks.{Ensures, Ensures-ok, total-append, up}
unfoldable pub use freertos_addons.Tasks.{total}
use freertos_addons.Rtos.{Rtos, IsRtos, SameBut}
use freertos_addons.ReadWriteLock.{
  Pc, RwLock, LockType, prefer_reader, prefer_writer, by_type, is_number, Shared, taken, take,
}

module _ (os : Rtos) (laws : IsRtos os) (P : Pc → Shared os.Kernel → Type 0) where
  taken-Ensures :
      (h : Ptr) (next : Pc) (s : Shared os.Kernel) (o : Option os.Kernel)
      → os.take h s.kernel ≡ o
      → ((k : os.Kernel)
          → os.available h s.kernel ≡ true
          → os.available h k ≡ false
          → SameBut os h s.kernel k
          → P next (record s { kernel = k }))
      → Ensures P (taken next s o)
  taken-Ensures h next s none e good = tt
  taken-Ensures h next s (some k) e good =
      let free = laws.take_some h s.kernel k e in
      let (k', e', gone, same) = laws.take_available h s.kernel free in
      let at : k' ≡ k = cc in
      good k free (subst (λ j. os.available h j ≡ false) at gone)
        (subst (λ j. SameBut os h s.kernel j) at same)

  -- A take that returns.
  pub take-Ensures :
      (semaphore : RwLock → Ptr) (next : Pc) (s : Shared os.Kernel)
      → ((k : os.Kernel)
          → os.available (semaphore s.lock) s.kernel ≡ true
          → os.available (semaphore s.lock) k ≡ false
          → SameBut os (semaphore s.lock) s.kernel k
          → P next (record s { kernel = k }))
      → Ensures P (take os semaphore next s)
  take-Ensures semaphore next s =
      taken-Ensures (semaphore s.lock) next s (os.take (semaphore s.lock) s.kernel) refl

-- A count that goes up or down.
pub increment-Ensures :
    {S A : Type 0} (P : A → S → Type 0) (n : ℕ) (count : ℤ) (f : ℤ → Cmd S A) (s : S)
    → count ≡ pos n
    → Ensures P (f (pos (n + 1)) s)
    → Ensures P ((increment count >>= f) s)
unfolding increment
increment-Ensures P n count f s e good = elim (Bool-cases (n == int_max)) [
  | inl full ↦ rw (e, full) tt
  | inr room ↦ rw (e, room) good
]

pub decrement-Ensures :
    {S A : Type 0} (P : A → S → Type 0) (n : ℕ) (count : ℤ) (f : ℤ → Cmd S A) (s : S)
    → count ≡ pos (suc n)
    → Ensures P (f (pos n) s)
    → Ensures P ((decrement count >>= f) s)
unfolding decrement
decrement-Ensures P n count f s e good = rw e good

of_type :
    (P : Pc → Type 0) (reader writer : Pc) (t : LockType)
    → P reader
    → P writer
    → P (elim t [ prefer_reader ↦ reader | prefer_writer ↦ writer ])
of_type P reader writer prefer_reader a b = a
of_type P reader writer prefer_writer a b = b

-- What holds of the two places holds of the one that the type of the lock says.
pub by_type-cases :
    {K : Type 0} (P : Pc → Type 0) (reader writer : Pc) (s : Shared K)
    → P reader
    → P writer
    → P (by_type reader writer s)
by_type-cases P reader writer s = of_type P reader writer s.lock.lock_type

-- The test of a count.
pub is_number-cases :
    (P : Pc → Type 0) (m n : ℕ) (count : ℤ) (hit miss : Pc)
    → count ≡ pos n
    → (n ≡ m → P hit)
    → ((n ≡ m → ⊥) → P miss)
    → P (if is_number m count then hit else miss)
is_number-cases P m n count hit miss e yes_hit no_hit = elim (Bool-cases (n == m)) [
  | inl same ↦ rw (e, same) (yes_hit (ground arith))
  | inr other ↦ rw (e, other) (no_hit (ground arith))
]

pub if-cases :
    {A : Type 0} (P : A → Type 0) (b : Bool) (x y : A) → P x → P y → P (if b then x else y)
if-cases P true x y a c = a
if-cases P false x y a c = c

-- A count of which nothing is known.
pub some_increment-Ensures :
    {S A : Type 0} (P : A → S → Type 0) (count : ℤ) (f : ℤ → Cmd S A) (s : S)
    → ((n : ℤ) → Ensures P (f n s))
    → Ensures P ((increment count >>= f) s)
unfolding increment
some_increment-Ensures P (pos n) f s good = elim (Bool-cases (n == int_max)) [
  | inl full ↦ rw full tt
  | inr room ↦ rw room (good (pos (n + 1)))
]
some_increment-Ensures P (negsuc zero) f s good = good (pos 0)
some_increment-Ensures P (negsuc (suc n)) f s good = good (negsuc n)

pub some_decrement-Ensures :
    {S A : Type 0} (P : A → S → Type 0) (count : ℤ) (f : ℤ → Cmd S A) (s : S)
    → ((n : ℤ) → Ensures P (f n s))
    → Ensures P ((decrement count >>= f) s)
unfolding decrement
some_decrement-Ensures P (pos zero) f s good = good (negsuc 0)
some_decrement-Ensures P (pos (suc n)) f s good = good (pos n)
some_decrement-Ensures P (negsuc n) f s good = elim (Bool-cases (n == int_max)) [
  | inl full ↦ rw full tt
  | inr room ↦ rw room (good (negsuc (n + 1)))
]

-- A task at `p` beside the tasks of `rest`.
abbrev pub beside : Pc → List Pc → (Pc → ℕ) → ℕ
beside p rest weight = weight p + total weight rest

pub positive_pred : (n : ℕ) → 1 ≤ n → (m : ℕ) × (n ≡ suc m)
positive_pred zero le = absurd (omega arith)
positive_pred (suc m) le = (m, refl)

-- The place that a lock which prefers writers chooses.
pub of_writer :
    {K : Type 0} (P : Pc → Type 0) (reader writer : Pc) (s : Shared K)
    → s.lock.lock_type ≡ prefer_writer
    → P writer
    → P (by_type reader writer s)
of_writer P reader writer s e h = rw e h
