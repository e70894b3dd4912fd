-- ===== src/Stack/Lifo.antt =====
-- The stack of stack_simple.c stands for a list, the top first.
use freertos_addons.Prelude.{
  suc, ◌+◌, ◌<◌, ◌≡◌, ◌≢◌, refl, false, some, List, [], ◌∷◌, arith, length, has, ◌==◌, ℤ, pos,
  int_max, sym, ap, ◌∙◌,
}
use freertos_addons.Machine.{Run, ok, increment, decrement}
use freertos_addons.Memory.{Ptr, null, Mem, write}
use freertos_addons.Memory.Write.{write_self}
use freertos_addons.Memory.Count.{get_count_lem, set_count_lem, with_count}
use freertos_addons.Slist
use freertos_addons.Slist.{init_head, set_next}
use freertos_addons.Slist.Chain.{IsChain, IsFree, OnlyNext, with_next, set_next_lem}
use freertos_addons.Slist.Insert.{insert_node_after-Leaves}
use freertos_addons.Slist.Remove.{remove_node_from_head-Leaves}
use freertos_addons.Stack.{head_of, init_stack, push_on_stack, pop_off_stack, is_stack_empty}

-- The stack at `stack` holds the nodes `xs`.
pub record IsStack (m : Mem) (stack : Ptr) (xs : List Ptr) : Type 0 where
  pub ne_null : stack ≢ null
  pub count : m.count stack ≡ some (pos (length xs))
  pub chain : IsChain m (head_of stack ∷ xs)

-- Nothing but the `Next` fields of `changed` and the `Count` of `stack` may differ.
pub record OnlyStack (stack : Ptr) (changed : List Ptr) (m m' : Mem) : Type 0 where
  pub same_next : (a : Ptr) → has a changed ≡ false → m'.sl_next a ≡ m.sl_next a
  pub same_count : (a : Ptr) → a ≢ stack → m'.count a ≡ m.count a
  pub rest : m' ≡ record m { sl_next = m'.sl_next; count = m'.count }

-- A run that returns `a`, leaves the nodes `xs` on the stack, and changes what it may.
pub record LeavesStack {A : Type 0} (m : Mem) (stack : Ptr) (r : Run Mem A) (a : A)
    (changed xs : List Ptr) : Type 0 where
  pub after : Mem
  pub runs : r ≡ ok a after
  pub holds : IsStack after stack xs
  pub only : OnlyStack stack changed m after

-- The chain does not read the counts.
IsChain-with_count :
    (m : Mem) (p : Ptr) (v : ℤ) {ps : List Ptr} → IsChain m ps → IsChain (with_count m p v) ps
IsChain-with_count m p v c = record { nodes = c.nodes; linked = c.linked }

-- A count that changes after a change of the list.
OnlyStack-count :
    (m m₁ : Mem) (stack : Ptr) (v : ℤ) (changed : List Ptr)
    → OnlyNext changed m m₁
    → OnlyStack stack changed m (with_count m₁ stack v)
unfolding write
OnlyStack-count m m₁ stack v changed only = record {
  same_next = only.same;
  same_count = λ a ne. ground (arith, ap (λ (w : Mem). w.count a) only.rest);
  rest = ap (λ (w : Mem). record w { count = write m₁.count stack v }) only.rest;
}

-- A change of the list after a count that changes.
OnlyStack-next :
    (m m₁ : Mem) (stack : Ptr) (v : ℤ) (changed : List Ptr)
    → OnlyNext changed (with_count m stack v) m₁
    → OnlyStack stack changed m m₁
unfolding write
OnlyStack-next m m₁ stack v changed only = record {
  same_next = only.same;
  same_count = λ a ne. ap (λ (w : Mem). w.count a) only.rest ∙ ground arith;
  rest = only.rest ∙ λ i. record m {
    sl_next = m₁.sl_next;
    count = (sym (ap (λ (w : Mem). w.count) only.rest)) i;
  };
}

-- PushOnStack of a mapped node that is not on the stack puts it on top and counts it, if the count
-- does not overflow; it writes nothing but the count and the `Next` fields of the head and of the
-- node.
pub push_on_stack-LeavesStack :
    (m : Mem) (stack : Ptr) (xs : List Ptr) (node : Ptr)
    → IsStack m stack xs
    → IsFree m (head_of stack ∷ xs) node
    → length xs < int_max
    → LeavesStack m stack (push_on_stack stack node m) tt (head_of stack ∷ node ∷ []) (node ∷ xs)
unfolding push_on_stack Slist.add_node_to_head increment
push_on_stack-LeavesStack m stack xs node s free small =
    let test : (stack == null) ≡ false = ground (arith, s.ne_null) in
    let test' : (node == null) ≡ false = ground (arith, free.ne_null) in
    let added = insert_node_after-Leaves m [] xs (head_of stack) node s.chain free in
    let m₁ = added.after in
    let counted : m₁.count stack ≡ some (pos (length xs)) =
      ap (λ (w : Mem). w.count stack) added.only.rest ∙ s.count in
    let below : (length xs == int_max) ≡ false = ground arith in
    let v = pos (length xs + 1) in
    record {
      after = with_count m₁ stack v;
      runs =
          rw
            (
              test,
              test',
              added.runs,
              get_count_lem m₁ s.ne_null counted,
              below,
              set_count_lem m₁ s.ne_null counted v,
            )
            refl;
      holds = record {
        ne_null = s.ne_null;
        count = write_self m₁.count stack v ∙ ap (λ n. some (pos n)) (omega arith);
        chain = IsChain-with_count m₁ stack v added.chain;
      };
      only = OnlyStack-count m m₁ stack v _ added.only;
    }

-- PopOffStack returns `NULL` for an empty stack, and changes nothing.
pub pop_off_stack-nil :
    (m : Mem) (stack : Ptr) → IsStack m stack [] → pop_off_stack stack m ≡ ok null m
unfolding pop_off_stack
pop_off_stack-nil m stack s = ground (arith, s.ne_null, get_count_lem m s.ne_null s.count)

-- PopOffStack of a stack that is not empty takes the top off, returns it and counts it; it writes
-- nothing but the count and the `Next` field of the head.
pub pop_off_stack-LeavesStack :
    (m : Mem) (stack x : Ptr) (xs : List Ptr)
    → IsStack m stack (x ∷ xs)
    → LeavesStack m stack (pop_off_stack stack m) x (head_of stack ∷ []) xs
unfolding pop_off_stack decrement
pop_off_stack-LeavesStack m stack x xs s =
    let test : (stack == null) ≡ false = ground (arith, s.ne_null) in
    let v = pos (length xs) in
    let m₁ = with_count m stack v in
    let popped =
      remove_node_from_head-Leaves m₁ (head_of stack) x xs (IsChain-with_count m stack v s.chain) in
    let some_left : (suc (length xs) == 0) ≡ false = ground arith in
    record {
      after = popped.after;
      runs =
          rw
            (
              test,
              get_count_lem m s.ne_null s.count,
              some_left,
              set_count_lem m s.ne_null s.count v,
              popped.runs,
            )
            refl;
      holds = record {
        ne_null = s.ne_null;
        count = ap (λ (w : Mem). w.count stack) popped.only.rest ∙ write_self m.count stack v;
        chain = popped.chain;
      };
      only = OnlyStack-next m popped.after stack v _ popped.only;
    }

-- InitStack leaves an empty stack, whatever the two fields held.
pub init_stack-LeavesStack :
    (m : Mem) (stack : Ptr) {c : ℤ} {q : Ptr}
    → stack ≢ null
    → m.count stack ≡ some c
    → m.sl_next (head_of stack) ≡ some q
    → LeavesStack m stack (init_stack stack m) tt (head_of stack ∷ []) []
unfolding init_stack init_head write
init_stack-LeavesStack m stack {c} {q} ne at next =
    let m₁ = with_count m stack (pos 0) in
    record {
      after = with_next m₁ (head_of stack) null;
      runs =
          rw
            (
              set_count_lem m ne at (pos 0),
              set_next_lem m₁ {p = head_of stack} {q = q} (omega arith) next null,
            )
            refl;
      holds = record {
        ne_null = ne;
        count = write_self m.count stack (pos 0);
        chain = record {
          nodes = record { distinct = ground arith; ne_null = ground arith };
          linked = ground arith;
        };
      };
      only = record {
        same_next = λ a o. ground arith;
        same_count = λ a o. ground arith;
        rest = refl;
      };
    }

-- IsStackEmpty says whether the stack holds no node.
pub is_stack_empty_lem :
    (m : Mem) (stack : Ptr) (xs : List Ptr)
    → IsStack m stack xs
    → is_stack_empty stack m ≡ ok (length xs == 0) m
unfolding is_stack_empty
is_stack_empty_lem m stack xs s = rw (get_count_lem m s.ne_null s.count) refl
