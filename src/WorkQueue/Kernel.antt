-- ===== src/WorkQueue/Kernel.antt =====
-- What workqueue.c takes from FreeRTOS (task.h): tasks. FreeRTOS is not part of the repository.
use freertos_addons.Prelude.{◌≡◌, Option}
use freertos_addons.Memory.{Ptr}
use freertos_addons.Rtos.{Rtos}

-- xTaskCreate, which is `none` where it does not return pdPASS, and vTaskDelete.
pub record TaskCalls (os : Rtos) : Type 0 where
  pub create : os.Kernel → Option Ptr × os.Kernel
  pub delete : Ptr → os.Kernel → os.Kernel

-- They leave the semaphores alone.
pub record IsTaskCalls (os : Rtos) (tasks : TaskCalls os) : Type 0 where
  pub create_live : (k : os.Kernel) (a : Ptr) → os.live a (tasks.create k).1 ≡ os.live a k
  pub create_available :
      (k : os.Kernel) (a : Ptr) → os.available a (tasks.create k).1 ≡ os.available a k
  pub delete_live : (h : Ptr) (k : os.Kernel) (a : Ptr) → os.live a (tasks.delete h k) ≡ os.live a k
