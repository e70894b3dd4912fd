-- ===== src/ZeroCopyQueue/Kernel.antt =====
-- What zero_copy_queue.c takes from FreeRTOS (queue.h): queues of pointers. FreeRTOS is not part of
-- the repository, so they are a parameter, and `IsQueues` says what the code relies on.
use freertos_addons.Prelude.{
  ℕ, ◌<◌, ◌≡◌, ◌≢◌, Bool, true, Option, none, some, List, [], ◌∷◌, ◌++◌, length, ℤ, pos,
}
use freertos_addons.Memory.{Ptr, null}
use freertos_addons.Rtos.{Rtos}
use freertos_addons.World.Locks.{SameLocks}

-- The last argument of `send` and `receive` before the kernel is the time that they may wait.
pub record Queues (os : Rtos) : Type 0 where
  pub create : (item_count : ℤ) → os.Kernel → Ptr × os.Kernel
  pub delete : Ptr → os.Kernel → os.Kernel
  pub send : (h item : Ptr) → (timeout : ℕ) → os.Kernel → Bool × os.Kernel
  pub receive : (h : Ptr) → (timeout : ℕ) → os.Kernel → Option Ptr × os.Kernel
  pub contents : Ptr → os.Kernel → List Ptr
  pub capacity : Ptr → os.Kernel → ℕ

-- The queue `h` holds `items` and has room for `room` in all; the semaphores are as they were.
pub record Turns (os : Rtos) (qs : Queues os) (h : Ptr) (items : List Ptr) (room : ℕ)
    (k k' : os.Kernel) : Type 0 where
  pub contents : qs.contents h k' ≡ items
  pub capacity : qs.capacity h k' ≡ room
  pub locks : SameLocks os k k'

pub record IsQueues (os : Rtos) (qs : Queues os) : Type 0 where
  pub create_empty :
      (n : ℕ) (k : os.Kernel)
      → (qs.create (pos n) k).0 ≢ null
      → Turns os qs (qs.create (pos n) k).0 [] n k (qs.create (pos n) k).1
  -- Where there is room, an item goes to the back, at once.
  pub send_room :
      (h item : Ptr) (timeout : ℕ) (k : os.Kernel)
      → length (qs.contents h k) < qs.capacity h k
      → (qs.send h item timeout k).0 ≡ true
  pub send_back :
      (h item : Ptr) (timeout : ℕ) (k : os.Kernel)
      → length (qs.contents h k) < qs.capacity h k
      → Turns os qs h
          (qs.contents h k ++ item ∷ [])
          (qs.capacity h k)
          k
          (qs.send h item timeout k).1
  -- Where there is an item, the one in front is received, at once.
  pub receive_item :
      (h item : Ptr) (items : List Ptr) (timeout : ℕ) (k : os.Kernel)
      → qs.contents h k ≡ item ∷ items
      → (qs.receive h timeout k).0 ≡ some item
  pub receive_front :
      (h item : Ptr) (items : List Ptr) (timeout : ℕ) (k : os.Kernel)
      → qs.contents h k ≡ item ∷ items
      → Turns os qs h items (qs.capacity h k) k (qs.receive h timeout k).1
  -- Where there is none, a call that does not wait receives nothing.
  pub receive_none :
      (h : Ptr) (k : os.Kernel)
      → qs.contents h k ≡ []
      → ((qs.receive h 0 k).0 ≡ none) × Turns os qs h [] (qs.capacity h k) k (qs.receive h 0 k).1
