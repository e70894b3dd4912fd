-- ===== src/Stack/Runs.antt =====
-- Any sequence of pushes and pops by one client against the list that the stack stands for.
use freertos_addons.Prelude.{
  ◌<◌, ◌≡◌, ◌≢◌, refl, inl, inr, true, false, Bool-cases, some, List, [], ◌∷◌, arith, length, has,
  ◌==◌, ◌∙◌, int_max,
}
use freertos_addons.Machine.{Cmd, ok, pure, ◌>>=◌, ◌>>◌}
use freertos_addons.Memory.{Ptr, null, Mem}
use freertos_addons.Memory.Path.{first_or, LinkedTo}
use freertos_addons.Slist.Chain.{IsChain}
use freertos_addons.Stack.{head_of, push_on_stack, pop_off_stack}
use freertos_addons.Stack.Lifo.{
  IsStack, OnlyStack, push_on_stack-LeavesStack, pop_off_stack-nil, pop_off_stack-LeavesStack,
}

pub data StackOp : Type 0 where
  push : Ptr → StackOp
  pop : StackOp

-- The calls of PushOnStack and PopOffStack, and what the pops return.
unfoldable pub run : Ptr → List StackOp → Cmd Mem (List Ptr)
run stack [] = pure []
run stack (push node ∷ ops) = do push_on_stack stack node; run stack ops
run stack (pop ∷ ops) = do node ← pop_off_stack stack; rest ← run stack ops; pure (node ∷ rest)

-- What a last-in first-out list answers to the pops.
unfoldable pub lifo_answers : List StackOp → List Ptr → List Ptr
lifo_answers [] xs = []
lifo_answers (push node ∷ ops) xs = lifo_answers ops (node ∷ xs)
lifo_answers (pop ∷ ops) [] = null ∷ lifo_answers ops []
lifo_answers (pop ∷ ops) (x ∷ xs) = x ∷ lifo_answers ops xs

-- What it holds in the end.
unfoldable pub contents : List StackOp → List Ptr → List Ptr
contents [] xs = xs
contents (push node ∷ ops) xs = contents ops (node ∷ xs)
contents (pop ∷ ops) [] = contents ops []
contents (pop ∷ ops) (x ∷ xs) = contents ops xs

abbrev pub IsMapped : Mem → Ptr → Type 0
IsMapped m a = (q : Ptr) × (m.sl_next a ≡ some q)

-- The client pushes nodes that are not on the stack at that time, and fewer than the count can count.
abbrev pub CanRun : Mem → (head : Ptr) → List StackOp → List Ptr → Type 0
CanRun m head [] xs = Unit
CanRun m head (push node ∷ ops) xs =
    (node ≢ null)
    × (has node (head ∷ xs) ≡ false)
    × IsMapped m node
    × (length xs < int_max)
    × CanRun m head ops (node ∷ xs)
CanRun m head (pop ∷ ops) [] = CanRun m head ops []
CanRun m head (pop ∷ ops) (x ∷ xs) = CanRun m head ops xs

CanRun-mono :
    (m m' : Mem) (head : Ptr)
    → ((a : Ptr) → IsMapped m a → IsMapped m' a)
    → (ops : List StackOp) (xs : List Ptr) → CanRun m head ops xs
    → CanRun m' head ops xs
CanRun-mono m m' head kept [] xs can = tt
CanRun-mono m m' head kept (push node ∷ ops) xs (ne, out, at, small, can) =
    (ne, out, kept node at, small, CanRun-mono m m' head kept ops (node ∷ xs) can)
CanRun-mono m m' head kept (pop ∷ ops) [] can = CanRun-mono m m' head kept ops [] can
CanRun-mono m m' head kept (pop ∷ ops) (x ∷ xs) can = CanRun-mono m m' head kept ops xs can

-- The nodes of a path are mapped.
IsMapped-of_has :
    (m : Mem) (e a : Ptr) (ps : List Ptr) → LinkedTo m.sl_next ps e → has a ps ≡ true → IsMapped m a
IsMapped-of_has m e a [] h i = cc
IsMapped-of_has m e a (p ∷ ps) h i = elim (Bool-cases (a == p)) [
  | inl here ↦ (first_or ps e, ground (arith, h.0))
  | inr other ↦ IsMapped-of_has m e a ps h.1 (ground arith)
]

-- No mapped node is lost where the nodes that may change are in the chain afterwards.
pub IsMapped-kept :
    {m m' : Mem} (stack : Ptr) (changed ps : List Ptr)
    → OnlyStack stack changed m m'
    → IsChain m' ps
    → ((a : Ptr) → has a changed ≡ true → has a ps ≡ true)
    → (a : Ptr) → IsMapped m a
    → IsMapped m' a
IsMapped-kept {m' = m'} stack changed ps only c inside a (q, at) =
    elim (Bool-cases (has a changed)) [
      | inl i ↦ IsMapped-of_has m' null a ps c.linked (inside a i)
      | inr o ↦ (q, only.same_next a o ∙ at)
    ]

-- Any sequence of PushOnStack and PopOffStack calls on a stack returns, its pops give the nodes
-- that a last-in first-out list gives (`NULL` where it is empty), and the stack holds what that
-- list holds, if each node that is pushed is a mapped node that is not on the stack at that time
-- and the count stays in an `int`.
pub run-lifo_answers :
    (ops : List StackOp) (m : Mem) (stack : Ptr) (xs : List Ptr)
    → IsStack m stack xs
    → CanRun m (head_of stack) ops xs
    → (m' : Mem) × (run stack ops m ≡ ok (lifo_answers ops xs) m')
      × IsStack m' stack (contents ops xs)
unfolding run lifo_answers contents
run-lifo_answers [] m stack xs s can = (m, refl, s)
run-lifo_answers (push node ∷ ops) m stack xs s (ne, out, at, small, can) =
    let pushed =
      push_on_stack-LeavesStack m stack xs node s
        (record { ne_null = ne; outside = out; old = at.0; mapped = at.1 }) small in
    let kept = IsMapped-kept stack _ _ pushed.only pushed.holds.chain (λ a i. ground arith) in
    let (m', ran, s') =
      run-lifo_answers ops pushed.after stack (node ∷ xs) pushed.holds
        (CanRun-mono m pushed.after (head_of stack) kept ops (node ∷ xs) can) in
    (m', rw pushed.runs ran, s')
run-lifo_answers (pop ∷ ops) m stack [] s can =
    let (m', ran, s') = run-lifo_answers ops m stack [] s can in
    (m', rw (pop_off_stack-nil m stack s, ran) refl, s')
run-lifo_answers (pop ∷ ops) m stack (x ∷ xs) s can =
    let popped = pop_off_stack-LeavesStack m stack x xs s in
    let kept = IsMapped-kept stack _ _ popped.only popped.holds.chain (λ a i. ground arith) in
    let (m', ran, s') =
      run-lifo_answers ops popped.after stack xs popped.holds
        (CanRun-mono m popped.after (head_of stack) kept ops xs can) in
    (m', rw (popped.runs, ran) refl, s')
