-- ===== src/WorkQueue/Takes.antt =====
-- Who owns the work items when the worker takes one out, calls its function and frees it.
use mathlib.Core.List.{reverse}
use native.Mathlib.Decide.{ℕ_discrete}
use freertos_addons.Prelude.{
  ◌+◌, ◌≤◌, ◌≡◌, ◌≢◌, refl, false, some, none, Option, List, [], ◌∷◌, ◌++◌, arith, has, times,
  no_times, ne_of_has, append_assoc, ap, ◌∙◌, sym,
}
use freertos_addons.Machine.{ok}
use freertos_addons.Memory.{Ptr, Field, Mem}
use freertos_addons.Tasks.{total}
use freertos_addons.Queue.{head_of, dequeue}
use freertos_addons.Queue.Runs.{dequeue-Turns}
use freertos_addons.WorkQueue.{
  Item, Shared, take_item, release_lock, call_function, free_item, retake_lock, ClientPc, without,
  without_item,
}
use freertos_addons.WorkQueue.Places.{same, owns, content, contents_of}
use freertos_addons.WorkQueue.Frames.{
  length-reverse, has-reverse, IsQueue-frame, contents_of-frame, clients_kept,
}
use freertos_addons.WorkQueue.Invariant.{Owned}

without_ne : {A : Type 0} (f : Field A) (p a : Ptr) → a ≢ p → without f p a ≡ f a
without_ne f p a ne = ground arith

without_self : {A : Type 0} (f : Field A) (p a : Ptr) → a ≡ p → without f p a ≡ none
without_self f p a e = ground arith

module _ (wq : Ptr) (cs : List ClientPc) where
  -- The oldest work item is taken out.
  pub dequeued-Owned :
      {K : Type 0} (s : Shared K) (x : Ptr) (q : List Ptr)
      → Owned wq s take_item cs (x ∷ q)
      → (m : Mem) × (dequeue wq s.mem ≡ ok x m)
        × Owned wq (record s { mem = m }) (release_lock x) cs q
  dequeued-Owned s x q o =
      let turn = dequeue-Turns s.mem wq x q o.queue in
      (
        turn.after,
        turn.runs,
        record {
          queue = turn.holds;
          bounded = omega (arith, o.bounded, length-reverse q, length-reverse (x ∷ q));
          single = λ a. omega (arith, o.single a);
          allocated = λ a le.
              let i = o.allocated a (omega arith) in
              record {
                ne_null = i.ne_null;
                item = i.item;
                there = i.there;
                mapped = turn.kept a i.mapped;
              };
          complete = λ a ne. omega (arith, o.complete a ne);
          head_free = o.head_free;
          history = o.history;
          clients = o.clients;
        },
      )

  -- The function of the work item in the worker's hands is called.
  pub called-Owned :
      {K : Type 0} (node : Ptr) (s : Shared K) (q : List Ptr)
      → Owned wq s (call_function node) cs q
      → (item : Item) × (s.items node ≡ some item)
        × Owned wq (record s { calls = s.calls ++ item ∷ [] }) (free_item node) cs q
  called-Owned node s q o =
      let one : same node node ≡ 1 = ground arith in
      let i = o.allocated node (omega (arith, one)) in
      (
        i.item,
        i.there,
        record {
          queue = o.queue;
          bounded = o.bounded;
          single = o.single;
          allocated = λ a le.
              let j = o.allocated a le in
              record { ne_null = j.ne_null; item = j.item; there = j.there; mapped = j.mapped };
          complete = o.complete;
          head_free = o.head_free;
          history =
              o.history
              ∙ ap (λ (t : Option Item). s.calls ++ (content t ++ contents_of s.items q)) i.there
              ∙ sym (append_assoc s.calls (i.item ∷ []) (contents_of s.items q));
          clients = o.clients;
        },
      )

  not_mine :
      {K : Type 0} {s : Shared K} (node a : Ptr) (q : List Ptr)
      → Owned wq s (free_item node) cs q
      → 1 ≤ total (owns a) cs + times a q
      → a ≡ node
      → ⊥
  not_mine node a q o le e =
      let one : same a node ≡ 1 = ground arith in absurd (omega (arith, one, o.single a))

  -- What is left when the worker frees the work item in its hands.
  pub freed-Owned :
      {K : Type 0} (node : Ptr) (s : Shared K) (q : List Ptr)
      → Owned wq s (free_item node) cs q
      → (item : Item) × (s.items node ≡ some item) × Owned wq (without_item node s) retake_lock cs q
  freed-Owned node s q o =
      let one : same node node ≡ 1 = ground arith in
      let mine = o.allocated node (omega (arith, one)) in
      let head_ne : head_of wq ≢ node = λ e. cc (mine.there, o.head_free, ap s.items e) in
      let out : has node q ≡ false = no_times node q (omega (arith, one, o.single node)) in
      let ring_out : has node (head_of wq ∷ reverse q) ≡ false =
        ground (arith, has-reverse node q) in
      let elsewhere = without_ne s.items node in
      let other : (a : Ptr) → 1 ≤ total (owns a) cs + times a q → a ≢ node =
        λ a le e. absurd (not_mine node a q o le e) in
      (
        mine.item,
        mine.there,
        record {
          queue =
              IsQueue-frame s.mem _ wq (reverse q) refl
                (λ a i.
                  let ne = ne_of_has a node (head_of wq ∷ reverse q) i ring_out in
                  (without_ne s.mem.dl_next node a ne, without_ne s.mem.dl_prev node a ne))
                o.queue;
          bounded = o.bounded;
          single = λ a. omega (arith, o.single a);
          allocated = λ a le.
              let i = o.allocated a (omega arith) in
              let ne = other a (omega arith) in
              record {
                ne_null = i.ne_null;
                item = i.item;
                there = elsewhere a ne ∙ i.there;
                mapped = (
                  i.mapped.0,
                  i.mapped.1,
                  without_ne s.mem.dl_next node a ne ∙ i.mapped.2,
                  without_ne s.mem.dl_prev node a ne ∙ i.mapped.3,
                );
              };
          complete = λ a ne. elim (ℕ_discrete a node) [
            | yes here ↦ absurd (ne (without_self s.items node a here))
            | no n ↦
                let apart : same a node ≡ 0 = ground arith in
                omega (arith, apart, o.complete a (λ e. ne (elsewhere a n ∙ e)))
          ];
          head_free = elsewhere (head_of wq) head_ne ∙ o.head_free;
          history =
              o.history
              ∙ ap (λ (xs : List Item). s.calls ++ xs)
                  (sym (
                    contents_of-frame s.items (without s.items node) q
                      (λ a i. elsewhere a (ne_of_has a node q i out))));
          clients =
              clients_kept s.items (without s.items node) cs
                (λ a le. elsewhere a (other a (omega arith))) o.clients;
        },
      )
