-- ===== src/Rtos.antt =====
-- What c/Source takes from FreeRTOS (semphr.h): semaphores. FreeRTOS is not part of the repository,
-- so its state and calls are a parameter, and `IsRtos` says what the code relies on.
use freertos_addons.Prelude.{◌≡◌, ◌≢◌, Bool, true, false, Option, some}
use freertos_addons.Memory.{Ptr, null}

-- A semaphore is named by its handle. `take` waits for ever (portMAX_DELAY) where it is `none`.
pub record Rtos : Type 1 where
  pub Kernel : Type 0
  pub available : Ptr → Kernel → Bool
  -- the semaphores that have been created and not deleted
  pub live : Ptr → Kernel → Bool
  pub take : Ptr → Kernel → Option Kernel
  pub give : Ptr → Kernel → Kernel
  pub create_mutex : Kernel → Ptr × Kernel
  pub create_binary : Kernel → Ptr × Kernel
  pub delete : Ptr → Kernel → Kernel

-- The semaphores other than `h` are as they were.
abbrev pub SameBut : (os : Rtos) → Ptr → os.Kernel → os.Kernel → Type 0
SameBut os h k k' = (a : Ptr) → a ≢ h → os.available a k' ≡ os.available a k

-- The handle `h` is new, unless it is `NULL`, and the other handles are as they were.
pub record Creates (os : Rtos) (h : Ptr) (k k' : os.Kernel) : Type 0 where
  pub fresh : h ≢ null → os.live h k ≡ false
  pub made : h ≢ null → os.live h k' ≡ true
  pub others : (a : Ptr) → a ≢ h → os.live a k' ≡ os.live a k

pub record IsRtos (os : Rtos) : Type 0 where
  -- A semaphore that is available is taken at once.
  pub take_available :
      (h : Ptr) (k : os.Kernel)
      → os.available h k ≡ true
      → (k' : os.Kernel) × (os.take h k ≡ some k') × (os.available h k' ≡ false) × SameBut os h k k'
  -- A take that returns has taken a semaphore that was available.
  pub take_some : (h : Ptr) (k k' : os.Kernel) → os.take h k ≡ some k' → os.available h k ≡ true
  pub give_available : (h : Ptr) (k : os.Kernel) → os.available h (os.give h k) ≡ true
  pub give_same : (h : Ptr) (k : os.Kernel) → SameBut os h k (os.give h k)
  -- A new mutex is available, a new binary semaphore is not.
  pub create_mutex_available :
      (k : os.Kernel)
      → (os.create_mutex k).0 ≢ null
      → os.available (os.create_mutex k).0 (os.create_mutex k).1 ≡ true
  pub create_mutex_same : (k : os.Kernel) → SameBut os (os.create_mutex k).0 k (os.create_mutex k).1
  pub create_binary_same :
      (k : os.Kernel) → SameBut os (os.create_binary k).0 k (os.create_binary k).1
  -- A new handle is not that of another semaphore; without one, nothing is created.
  pub create_mutex_live : (k : os.Kernel) → Creates os (os.create_mutex k).0 k (os.create_mutex k).1
  pub create_binary_live :
      (k : os.Kernel) → Creates os (os.create_binary k).0 k (os.create_binary k).1
  pub give_live : (h : Ptr) (k : os.Kernel) (a : Ptr) → os.live a (os.give h k) ≡ os.live a k
  -- What is deleted is gone, and nothing else is.
  pub delete_live : (h : Ptr) (k : os.Kernel) → os.live h (os.delete h k) ≡ false
  pub delete_same :
      (h : Ptr) (k : os.Kernel) (a : Ptr) → a ≢ h → os.live a (os.delete h k) ≡ os.live a k
