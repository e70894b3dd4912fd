-- ===== src/WorkQueue/Obtain.antt =====
-- The memory that malloc finds for QueueWorkItem becomes the work item of its task.
use mathlib.Core.Path.{subst}
use mathlib.Core.List.{reverse}
use native.Mathlib.Decide.{ℕ_discrete}
use freertos_addons.Prelude.{
  ◌≤◌, ◌≡◌, ◌≢◌, refl, true, none, List, ◌∷◌, ◌++◌, arith, has, times_pos, ap, ◌∙◌, sym,
}
use freertos_addons.Memory.{Ptr, null, write}
use freertos_addons.Memory.Write.{write_self, write_ne}
use freertos_addons.Tasks.{total}
use freertos_addons.Queue.{head_of}
use freertos_addons.Queue.Runs.{IsMapped-of_has}
use freertos_addons.WorkQueue.{Item, Shared, WorkerPc, ClientPc, idle, lock_queue, Call, with_item}
use freertos_addons.WorkQueue.Places.{same, contents_of, in_hand}
use freertos_addons.WorkQueue.Frames.{IsQueue-frame, contents_of-frame, clients_kept}
use freertos_addons.WorkQueue.Invariant.{owned, Owned}
use freertos_addons.WorkQueue.Knowledge.{in_hand-frame}

module _ (wq : Ptr) (w : WorkerPc) (rest : List ClientPc) where
  single_new :
      (new a : Ptr) (item : Item) (q : List Ptr)
      → a ≡ new
      → owned new w (idle ∷ rest) q ≡ 0
      → owned a w (lock_queue new item ∷ rest) q ≤ 1
  unfolding total
  single_new new a item q e none_yet =
      subst (λ b. owned b w (lock_queue new item ∷ rest) q ≤ 1) (sym e)
        (let one : same new new ≡ 1 = ground arith in omega (arith, none_yet, one))

  single_other :
      (new a : Ptr) (item : Item) (q : List Ptr)
      → a ≢ new
      → owned a w (idle ∷ rest) q ≤ 1
      → owned a w (lock_queue new item ∷ rest) q ≤ 1
  unfolding total
  single_other new a item q n le =
      let other : same a new ≡ 0 = ground arith in omega (arith, other, le)

  owned_other :
      (new a : Ptr) (item : Item) (q : List Ptr)
      → a ≢ new
      → 1 ≤ owned a w (lock_queue new item ∷ rest) q
      → 1 ≤ owned a w (idle ∷ rest) q
  unfolding total
  owned_other new a item q n le =
      let other : same a new ≡ 0 = ground arith in omega (arith, other, le)

  -- No work item and no node of the queue stands where malloc has found memory.
  pub obtained-Owned :
      {K : Type 0} (c : Call) (s : Shared K) (q : List Ptr)
      → (s.items c.new ≡ none) × (s.mem.dl_next c.new ≡ none)
      → c.new ≢ null
      → Owned wq s w (idle ∷ rest) q
      → Owned wq (with_item c s) w (lock_queue c.new c.item ∷ rest) q
  unfolding total
  obtained-Owned c s q (unused, unmapped) ne o =
      let items' = write s.items c.new c.item in
      let other : (a : Ptr) → 1 ≤ owned a w (idle ∷ rest) q → a ≢ c.new =
        λ a le e. cc ((o.allocated a le).there, ap s.items e, unused) in
      let elsewhere = write_ne s.items c.new c.item in
      let ring = o.queue.ring in
      let outside : (a : Ptr) → has a (head_of wq ∷ reverse q) ≡ true → a ≢ c.new = λ a i e. cc (
        (IsMapped-of_has s.mem _ _ a (head_of wq ∷ reverse q) ring.forward ring.backward i).2,
        ap s.mem.dl_next e,
        unmapped,
      ) in
      let zero_new : owned c.new w (idle ∷ rest) q ≡ 0 =
        elim (ℕ_discrete (owned c.new w (idle ∷ rest) q) 0) [
          | yes e ↦ e
          | no n ↦ absurd (other c.new (omega arith) refl)
        ] in
      record {
        queue =
            IsQueue-frame s.mem _ wq (reverse q) refl
              (λ a i. (
                write_ne s.mem.dl_next c.new c.junk a (outside a i),
                write_ne s.mem.dl_prev c.new c.junk a (outside a i),
              ))
              o.queue;
        bounded = o.bounded;
        single = λ a. elim (ℕ_discrete a c.new) [
          | yes e ↦ single_new c.new a c.item q e zero_new
          | no n ↦ single_other c.new a c.item q n (o.single a)
        ];
        allocated = λ a le. elim (ℕ_discrete a c.new) [
          | yes e ↦ record {
            ne_null = λ z. ne (sym e ∙ z);
            item = c.item;
            there = ap items' e ∙ write_self s.items c.new c.item;
            mapped = (
              c.junk,
              c.junk,
              ap (write s.mem.dl_next c.new c.junk) e ∙ write_self s.mem.dl_next c.new c.junk,
              ap (write s.mem.dl_prev c.new c.junk) e ∙ write_self s.mem.dl_prev c.new c.junk,
            );
          }
          | no n ↦
              let i = o.allocated a (owned_other c.new a c.item q n le) in
              record {
                ne_null = i.ne_null;
                item = i.item;
                there = elsewhere a n ∙ i.there;
                mapped = (
                  i.mapped.0,
                  i.mapped.1,
                  write_ne s.mem.dl_next c.new c.junk a n ∙ i.mapped.2,
                  write_ne s.mem.dl_prev c.new c.junk a n ∙ i.mapped.3,
                );
              }
        ];
        complete = λ a there. elim (ℕ_discrete a c.new) [
          | yes e ↦ let one : same a c.new ≡ 1 = ground arith in omega (arith, one)
          | no n ↦ omega (arith, o.complete a (λ e. there (elsewhere a n ∙ e)))
        ];
        head_free = elsewhere (head_of wq) (outside (head_of wq) (ground arith)) ∙ o.head_free;
        history =
            o.history
            ∙ ap (λ (xs : List Item). s.calls ++ (xs ++ contents_of s.items q))
                (sym (in_hand-frame s.items items' w (λ a le. elsewhere a (other a (omega arith)))))
            ∙ ap (λ (xs : List Item). s.calls ++ (in_hand items' w ++ xs))
                (sym (
                  contents_of-frame s.items items' q
                    (λ a i. elsewhere a (other a (omega (arith, times_pos a q i))))));
        clients = (
          write_self s.items c.new c.item,
          clients_kept s.items items' rest (λ a le. elsewhere a (other a (omega arith)))
              o.clients.1,
        );
      }
