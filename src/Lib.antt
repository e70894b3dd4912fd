-- ===== src/Lib.antt =====
-- Verification of the C modules of freertos-addons (c/Source): singly and doubly linked lists, a stack
-- and a queue on them, pools of memory blocks on the stack, zero copy queues on the pools, work queues
-- on the queue, and reader/writer locks; and of the C++ classes (c++/Source) MemoryPool and
-- ReadWriteLock, and condition variables.
--
-- The program's parts and the files that model them:
--   c/Source/slist.c, slist.h                Slist, and Slist/Chain, Find, Insert, Remove
--   c/Source/dlist.c, dlist.h                Dlist, and Dlist/Ring, Insert, Remove, Walk
--   c/Source/stack_simple.c, stack_simple.h  Stack, and Stack/Lifo, Runs
--   c/Source/queue_simple.c, queue_simple.h  Queue, and Queue/Fifo, Runs
--   c/Source/mem_pool.c, mem_pool.h          MemPool, and MemPool/Sizes, Blocks, Fill, Create, Static,
--                                            Errors, Extra
--   c/Source/read_write_lock.c               ReadWriteLock, and ReadWriteLock/Group, Tally, Reach,
--                                            Resource, Readers, Writers, Exclusion, Barrier,
--                                            BarrierReaders, BarrierWriters, Preference, Safe, Faults,
--                                            Create, Store, Created, Refused
--   c/Source/zero_copy_queue.c               ZeroCopyQueue, and ZeroCopyQueue/Kernel, Create, Pass
--   c/Source/workqueue.c                     WorkQueue, and WorkQueue/Kernel, Create, Created, Places, Frames,
--                                            Invariant, Takes, WorkerSteps, Knowledge, Obtain,
--                                            ClientSteps, Reach, System, Rounds, Destroy
--   c++/Source/cread_write_lock.cpp          CppReadWriteLock, and CppReadWriteLock/Places, Same,
--                                            Construct
--   c++/Source/cmem_pool.cpp, cmutex.cpp     CppMemPool, and CppMemPool/Items, Construct, Add, Ledger
--   c++/Source/ccondition_variable.cpp,      ConditionVariable, and ConditionVariable/Waiting, Threads,
--   Thread::Wait of cthread.cpp              Wakes, Stale
-- A definition has the name of its C function, without the prefix Sl or Dl and with words joined by _:
-- SlInsertNodeAfter is Slist.insert_node_after. The file Tests of a module runs its functions at
-- concrete states. The headers stand in c/Source/include. PushOnStack and PopOffStack call slist.c,
-- Enqueue and Dequeue call dlist.c, and mem_pool.c keeps its free blocks on a stack under a mutex of
-- the kernel.
--
-- State. Pointers are the natural numbers, NULL is 0. Memory (Memory) keeps one partial function for
-- each field: Next of SlNode_t, Next and Prev of DlNode_t, and the Count of a stack or a queue. An
-- access through NULL or to a field that is not mapped is a fault. A Stack_t or Queue_t has its Count
-- at offset 0 and its head node at offset 8, as on a 64-bit target. World adds the other fields of
-- MemPool_t, the blocks that malloc handed out, and the state of the kernel. malloc maps all fields
-- that fit into a new block, with any contents; free removes them.
--
-- The four functions of read_write_lock.c run in several tasks at a time. A task is a program counter,
-- with one constructor for each call of the kernel, change of a count, and test of a count, and a step
-- of the system is a step of one task; the tasks take turns in any order. A task unlocks what it has
-- locked. A count is an `int`, and its overflow is a fault. The test of the type of the lock, which
-- never changes, is made together with the call. A lock that prefers readers has no WriteLock and no
-- BlockReadersLock, which its functions do not use; in the model it has two more handles there.
--
-- Commands (Machine) end in ok with a result, a fault, a wait that nothing ends, or out of fuel. An
-- `int` is an integer, and a result outside 32 bits is a fault. The shift of `alignmentBit` leaves the
-- `int` for every alignment that is refused; in C++ the same shift is taken for a fault too. A pointer
-- has 8 bytes.
--
-- A work queue has one worker and any number of tasks that call QueueWorkItem, which are program
-- counters in the same way. What malloc returns comes with the step that calls it, and it is memory that
-- is not in use. A function that is queued is not run: the model records that it has been called, so a
-- function that itself calls into its work queue is not covered. DestroyWorkQueue is modelled, and
-- stated for a time at which no other task is in the module; INCLUDE_vTaskDelete is 1.
--
-- A method of a C++ lock is the list of its statements, and a task in a method is the list of the
-- statements that are left. Exceptions are values. A std::list is a list, and the scope of a LockGuard
-- is one step, since the other tasks wait for its mutex.
--
-- A thread in Thread::Wait is at one of its statements. Signal and Broadcast are one step each, since
-- they hold the internal lock. Whether a timeout is over is an argument of the step that takes the
-- semaphore, and the handles of the semaphores are parameters, since they do not change.
--
-- FreeRTOS is not part of the repository. Rtos lists the calls that the code makes, and IsRtos the
-- laws that it relies on; RtosSample has a kernel that meets them. ZeroCopyQueue/Kernel has the queues
-- of FreeRTOS and WorkQueue/Kernel its tasks. In read_write_lock.c, vSemaphoreDelete of NULL, against
-- which FreeRTOS asserts, is a fault.
--
-- Fuel. The loops along a list take fuel; their theorems ask for more fuel than the list has nodes.
-- The loop of CreateMemoryPoolStatic takes fuel for more rounds than the memory has room for blocks,
-- and so do those of the C++ constructor and of AddMemory. The worker of a work queue runs for a number
-- of steps: six for each work item, and a constant.
--
-- Blocks of a pool are not modelled byte by byte: what the user keeps behind the header of a block is
-- no part of the state, and the calls of several tasks on one pool are not interleaved, since each
-- holds the pool's mutex.
--
-- Not modelled: the other C++ classes (c++/Source), of which most pass their arguments on to FreeRTOS,
-- the demos (Linux/Demo), and the unit tests (c/UnitTests).

pub mod Prelude
pub mod Machine
pub mod Memory
pub mod Slist
pub mod Stack
pub mod Dlist
pub mod Queue
pub mod Rtos
pub mod RtosSample
pub mod World
pub mod MemPool
pub mod Tasks
pub mod Handles
pub mod ReadWriteLock
pub mod CppReadWriteLock
pub mod CppMemPool
pub mod ConditionVariable
pub mod ZeroCopyQueue
pub mod WorkQueue
