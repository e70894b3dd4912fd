-- ===== src/ZeroCopyQueue/Pass.antt =====
-- Items that go through a zero copy queue.
use freertos_addons.Prelude.{
  ℕ, suc, ◌+◌, ◌≤◌, ◌<◌, ◌≡◌, refl, none, some, List, [], ◌∷◌, ◌++◌, arith, length, length-append,
  append_assoc, append-nil, ap, ◌∙◌, sym, ◌^◌, int_max,
}
use freertos_addons.Machine.{ok, Cmd, pure, ◌>>=◌, ◌>>◌}
use freertos_addons.Memory.{Ptr, null}
use freertos_addons.Rtos.{Rtos, IsRtos}
use freertos_addons.Slist.Chain.{IsFree}
use freertos_addons.Stack.{head_of}
use freertos_addons.World.{World, PoolInfo}
use freertos_addons.MemPool.{stack_of, memory_pool_free}
use freertos_addons.MemPool.Blocks.{IsPool, memory_pool_free-LeavesPool}
use freertos_addons.ZeroCopyQueue.{
  Info, ZcqWorld, get, with_kernel, zcq_enqueue_item, zcq_dequeue_item, zcq_free_item,
}
use freertos_addons.ZeroCopyQueue.Kernel.{Queues, IsQueues, Turns}

module _ (os : Rtos) (qs : Queues os) where
  -- One call of ZcqEnqueueItem for each item: what they return.
  unfoldable pub enqueue_all :
      (z : Ptr) → (timeout : ℕ) → List Ptr → Cmd (ZcqWorld os.Kernel) (List ℕ)
  enqueue_all z timeout [] = pure []
  enqueue_all z timeout (item ∷ items) = do
    result ← zcq_enqueue_item os qs z item timeout
    results ← enqueue_all z timeout items
    pure (result ∷ results)

  -- `n` calls of ZcqDequeueItem.
  unfoldable pub dequeue_all : (z : Ptr) → (timeout n : ℕ) → Cmd (ZcqWorld os.Kernel) (List Ptr)
  dequeue_all z timeout ℕ.zero = pure []
  dequeue_all z timeout (suc n) = do
    item ← zcq_dequeue_item os qs z timeout
    items ← dequeue_all z timeout n
    pure (item ∷ items)

  -- ZcqEnqueueItem of each item, as many calls of ZcqDequeueItem, and one that does not wait: what
  -- they return.
  unfoldable pub pass_all :
      (z : Ptr)
      → (timeout timeout' : ℕ) → List Ptr
      → Cmd (ZcqWorld os.Kernel) (List ℕ × List Ptr × Ptr)
  pass_all z timeout timeout' items = do
    results ← enqueue_all z timeout items
    received ← dequeue_all z timeout' (length items)
    further ← zcq_dequeue_item os qs z 0
    pure (results, received, further)

-- 1 for each item.
abbrev pub successes : List Ptr → List ℕ
successes [] = []
successes (item ∷ items) = 1 ∷ successes items

module _ (os : Rtos) (qs : Queues os) (laws : IsQueues os qs) (z : Ptr) (info : Info) where
  enqueue_lem :
      (item : Ptr) (timeout : ℕ) (s : ZcqWorld os.Kernel)
      → s.zcqs z ≡ some info
      → length (qs.contents info.handle s.world.kernel) < qs.capacity info.handle s.world.kernel
      → zcq_enqueue_item os qs z item timeout s
        ≡ ok 1 (with_kernel os qs s (qs.send info.handle item timeout s.world.kernel).1)
  unfolding zcq_enqueue_item get
  enqueue_lem item timeout s at room =
      rw (at, get) (rw (laws.send_room info.handle item timeout s.world.kernel room) refl)

  dequeue_lem :
      (item : Ptr) (items : List Ptr) (timeout : ℕ) (s : ZcqWorld os.Kernel)
      → s.zcqs z ≡ some info
      → qs.contents info.handle s.world.kernel ≡ item ∷ items
      → zcq_dequeue_item os qs z timeout s
        ≡ ok item (with_kernel os qs s (qs.receive info.handle timeout s.world.kernel).1)
  unfolding zcq_dequeue_item get
  dequeue_lem item items timeout s at there =
      rw (at, get) (rw (laws.receive_item info.handle item items timeout s.world.kernel there) refl)

  no_item_lem :
      (s : ZcqWorld os.Kernel)
      → s.zcqs z ≡ some info
      → (qs.receive info.handle 0 s.world.kernel).0 ≡ none
      → zcq_dequeue_item os qs z 0 s
        ≡ ok null (with_kernel os qs s (qs.receive info.handle 0 s.world.kernel).1)
  unfolding zcq_dequeue_item get
  no_item_lem s at nothing = rw (at, get) (rw nothing refl)

  free_item_lem :
      (item : Ptr) (s : ZcqWorld os.Kernel) {w' : World os.Kernel}
      → s.zcqs z ≡ some info
      → memory_pool_free os info.pool item s.world ≡ ok tt w'
      → zcq_free_item os qs z item s ≡ ok tt (record s { world = w' })
  unfolding zcq_free_item get
  free_item_lem item s at freed = rw (at, get) (rw freed refl)

  pub enqueue_all_lem :
      (items : List Ptr) (timeout : ℕ) (s : ZcqWorld os.Kernel)
      → s.zcqs z ≡ some info
      → length (qs.contents info.handle s.world.kernel) + length items
        ≤ qs.capacity info.handle s.world.kernel
      → (k : os.Kernel) × (enqueue_all os qs z timeout items s
          ≡ ok (successes items) (with_kernel os qs s k))
        × Turns os qs info.handle
            (qs.contents info.handle s.world.kernel ++ items)
            (qs.capacity info.handle s.world.kernel)
            s.world.kernel
            k
  unfolding enqueue_all
  enqueue_all_lem [] timeout s at room = (
    s.world.kernel,
    refl,
    record {
      contents = sym (append-nil (qs.contents info.handle s.world.kernel));
      capacity = refl;
      locks = λ a. refl;
    },
  )
  enqueue_all_lem (item ∷ items) timeout s at room =
      let has_room : length (qs.contents info.handle s.world.kernel)
          < qs.capacity info.handle s.world.kernel =
        omega arith in
      let turn = laws.send_back info.handle item timeout s.world.kernel has_room in
      let k₁ = (qs.send info.handle item timeout s.world.kernel).1 in
      let still : length (qs.contents info.handle k₁) + length items ≤ qs.capacity info.handle k₁ =
        omega (
          arith,
          ap (λ (xs : List Ptr). length xs) turn.contents,
          turn.capacity,
          length-append (qs.contents info.handle s.world.kernel) (item ∷ []),
        ) in
      let (k, ran, turns) = enqueue_all_lem items timeout (with_kernel os qs s k₁) at still in
      (
        k,
        rw (enqueue_lem item timeout s at has_room, ran) refl,
        record {
          contents =
              turns.contents
              ∙ ap (λ (xs : List Ptr). xs ++ items) turn.contents
              ∙ append_assoc (qs.contents info.handle s.world.kernel) (item ∷ []) items;
          capacity = turns.capacity ∙ turn.capacity;
          locks = λ a. turns.locks a ∙ turn.locks a;
        },
      )

  pub dequeue_all_lem :
      (items rest : List Ptr) (timeout : ℕ) (s : ZcqWorld os.Kernel)
      → s.zcqs z ≡ some info
      → qs.contents info.handle s.world.kernel ≡ items ++ rest
      → (k : os.Kernel) × (dequeue_all os qs z timeout (length items) s
          ≡ ok items (with_kernel os qs s k))
        × Turns os qs info.handle rest (qs.capacity info.handle s.world.kernel) s.world.kernel k
  unfolding dequeue_all
  dequeue_all_lem [] rest timeout s at there =
      (s.world.kernel, refl, record { contents = there; capacity = refl; locks = λ a. refl })
  dequeue_all_lem (item ∷ items) rest timeout s at there =
      let turn = laws.receive_front info.handle item (items ++ rest) timeout s.world.kernel there in
      let k₁ = (qs.receive info.handle timeout s.world.kernel).1 in
      let (k, ran, turns) =
        dequeue_all_lem items rest timeout (with_kernel os qs s k₁) at turn.contents in
      (
        k,
        rw (dequeue_lem item (items ++ rest) timeout s at there, ran) refl,
        record {
          contents = turns.contents;
          capacity = turns.capacity ∙ turn.capacity;
          locks = λ a. turns.locks a ∙ turn.locks a;
        },
      )

  -- On a zero copy queue that is empty and has room for all the items, ZcqEnqueueItem of each item
  -- returns 1, as many calls of ZcqDequeueItem return the items in the same order, whatever the
  -- timeouts, a further call that does not wait returns `NULL`, and the queue is empty and the
  -- semaphores are as they were.
  pub dequeue_all-enqueue_all :
      (items : List Ptr) (timeout timeout' : ℕ) (s : ZcqWorld os.Kernel)
      → s.zcqs z ≡ some info
      → qs.contents info.handle s.world.kernel ≡ []
      → length items ≤ qs.capacity info.handle s.world.kernel
      → (k : os.Kernel) × (pass_all os qs z timeout timeout' items s
          ≡ ok (successes items, items, null) (with_kernel os qs s k))
        × Turns os qs info.handle [] (qs.capacity info.handle s.world.kernel) s.world.kernel k
  unfolding pass_all
  dequeue_all-enqueue_all items timeout timeout' s at empty fits =
      let room : length (qs.contents info.handle s.world.kernel) + length items
          ≤ qs.capacity info.handle s.world.kernel =
        omega (arith, ap (λ (xs : List Ptr). length xs) empty) in
      let (k₁, sent, turns) = enqueue_all_lem items timeout s at room in
      let there =
        turns.contents ∙ ap (λ (xs : List Ptr). xs ++ items) empty ∙ sym (append-nil items) in
      let (k, got, turns') = dequeue_all_lem items [] timeout' (with_kernel os qs s k₁) at there in
      let (nothing, turns'') = laws.receive_none info.handle k turns'.contents in
      (
        (qs.receive info.handle 0 k).1,
        rw (sent, got, no_item_lem (with_kernel os qs s k) at nothing) refl,
        record {
          contents = turns''.contents;
          capacity = turns''.capacity ∙ turns'.capacity ∙ turns.capacity;
          locks = λ a. turns''.locks a ∙ turns'.locks a ∙ turns.locks a;
        },
      )

  -- An item that is in use goes through ZcqEnqueueItem on an empty queue with room, ZcqDequeueItem,
  -- and ZcqFreeItem of what that returned: all three return, and the block of the item is the first
  -- free one of the pool, if the count and the address of the item do not overflow and the pool's
  -- lock is free.
  pub free-pass :
      (rtos_laws : IsRtos os) (pool_info : PoolInfo) (node : Ptr) (xs : List Ptr)
      (timeout timeout' : ℕ) (s : ZcqWorld os.Kernel)
      → s.zcqs z ≡ some info
      → qs.contents info.handle s.world.kernel ≡ []
      → 0 < qs.capacity info.handle s.world.kernel
      → IsPool os s.world info.pool pool_info xs
      → IsFree s.world.mem (head_of (stack_of info.pool) ∷ xs) node
      → length xs < int_max
      → node + pool_info.alignment < 2 ^ 64
      → (s' : ZcqWorld os.Kernel) × ((do
        zcq_enqueue_item os qs z (node + pool_info.alignment) timeout
        item ← zcq_dequeue_item os qs z timeout'
        zcq_free_item os qs z item)
            s
          ≡ ok tt s')
        × IsPool os s'.world info.pool pool_info (node ∷ xs)
  free-pass rtos_laws pool_info node xs timeout timeout' s at empty room pool free small fits =
      let item = node + pool_info.alignment in
      let has_room : length (qs.contents info.handle s.world.kernel)
          < qs.capacity info.handle s.world.kernel =
        omega (arith, ap (λ (ys : List Ptr). length ys) empty) in
      let turn = laws.send_back info.handle item timeout s.world.kernel has_room in
      let there = turn.contents ∙ ap (λ (ys : List Ptr). ys ++ item ∷ []) empty in
      let s₁ = with_kernel os qs s (qs.send info.handle item timeout s.world.kernel).1 in
      let turn' = laws.receive_front info.handle item [] timeout' s₁.world.kernel there in
      let s₂ = with_kernel os qs s (qs.receive info.handle timeout' s₁.world.kernel).1 in
      let back =
        memory_pool_free-LeavesPool os rtos_laws s₂.world info.pool pool_info node xs
          (record {
            ne_null = pool.ne_null;
            fields = pool.fields;
            unlocked = turn'.locks pool_info.lock ∙ turn.locks pool_info.lock ∙ pool.unlocked;
            stack = pool.stack;
          })
          free small fits in
      (
        record s { world = back.after },
        rw
            (
              enqueue_lem item timeout s at has_room,
              dequeue_lem item [] timeout' s₁ at there,
              free_item_lem item s₂ at back.runs,
            )
            refl,
        back.holds,
      )
