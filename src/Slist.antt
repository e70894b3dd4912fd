-- ===== src/Slist.antt =====
-- c/Source/slist.c and slist.h: singly linked lists with a head node, on the shared memory. A loop
-- takes its rounds as the argument `fuel`; more rounds than the list has nodes are enough.
pub mod Chain
pub mod Find
pub mod Insert
pub mod Remove
mod Tests
use freertos_addons.Prelude.{ℕ, zero, suc, Bool, true, false, List, [], ◌∷◌, ◌==◌, if◌then◌else◌}
use freertos_addons.Machine.{Cmd, pure, exhausted, ◌>>=◌, ◌>>◌}
use freertos_addons.Memory.{Ptr, null, Mem, load, store}

unfoldable pub get_next : Ptr → Cmd Mem Ptr
unfolding load
get_next = load (λ m. m.sl_next)

unfoldable pub set_next : Ptr → Ptr → Cmd Mem (Unit {0})
unfolding store
set_next = store (λ m. m.sl_next) (λ m f. record m { sl_next = f })

-- SlInitHead
unfoldable pub init_head : Ptr → Cmd Mem (Unit {0})
init_head head = set_next head null

-- SlIsListEmpty
unfoldable pub is_list_empty : Ptr → Cmd Mem Bool
is_list_empty head = do next ← get_next head; pure (next == null)

-- SlInsertNodeAfter
unfoldable pub insert_node_after : Ptr → Ptr → Cmd Mem (Unit {0})
insert_node_after marker node =
    if marker == null
    then pure tt
    else if node == null
    then pure tt
    else do temp ← get_next marker; set_next marker node; set_next node temp

-- SlAddNodeToHead
unfoldable pub add_node_to_head : Ptr → Ptr → Cmd Mem (Unit {0})
add_node_to_head head node = insert_node_after head node

-- The loop `while (Current->Next != NULL)` of SlAddNodeToTail: the last node.
unfoldable pub last_node : (fuel : ℕ) → Ptr → Cmd Mem Ptr
last_node zero current = exhausted
last_node (suc fuel) current = do
  next ← get_next current
  if next == null then pure current else last_node fuel next

-- SlAddNodeToTail
unfoldable pub add_node_to_tail : (fuel : ℕ) → Ptr → Ptr → Cmd Mem (Unit {0})
unfolding last_node
add_node_to_tail fuel head node =
    if head == null
    then pure tt
    else if node == null
    then pure tt
    else do current ← last_node fuel head; set_next current node; set_next node null

-- The variables of the loops that look for a node.
pub record Search : Type 0 where
  pub found : Bool
  pub prior : Ptr
  pub current : Ptr

-- The loop `while (Current != NULL)` of SlInsertNodeBefore and SlRemoveNode.
unfoldable pub find_node : (target : Ptr) → (fuel : ℕ) → (prior current : Ptr) → Cmd Mem Search
find_node target zero prior current = exhausted
find_node target (suc fuel) prior current =
    if current == null
    then pure (record { found = false; prior = prior; current = current })
    else if current == target
    then pure (record { found = true; prior = prior; current = current })
    else do next ← get_next current; find_node target fuel current next

-- SlInsertNodeBefore
unfoldable pub insert_node_before : (fuel : ℕ) → (head marker node : Ptr) → Cmd Mem (Unit {0})
unfolding find_node
insert_node_before fuel head marker node =
    if marker == null
    then pure tt
    else if node == null
    then pure tt
    else if head == null
    then pure tt
    else do
      first ← get_next head
      s ← find_node marker fuel head first
      if s.found then (do set_next s.prior node; set_next node s.current) else pure tt

-- SlRemoveNode
unfoldable pub remove_node : (fuel : ℕ) → (head node : Ptr) → Cmd Mem (Unit {0})
unfolding find_node
remove_node fuel head node = if head == null then pure tt else if node == null then pure tt else do
  first ← get_next head
  s ← find_node node fuel head first
  if s.found then (do next ← get_next s.current; set_next s.prior next) else pure tt

-- SlRemoveNodeFromHead
unfoldable pub remove_node_from_head : Ptr → Cmd Mem Ptr
remove_node_from_head head = if head == null then pure null else do
  node ← get_next head
  if node == null then pure node else do next ← get_next node; set_next head next; pure node

-- The loop of SlRemoveNodeFromTail: the last node and the one before it.
unfoldable pub last_two : (fuel : ℕ) → (prior current : Ptr) → Cmd Mem (Ptr × Ptr)
last_two zero prior current = exhausted
last_two (suc fuel) prior current = do
  next ← get_next current
  if next == null then pure (prior, current) else last_two fuel current next

-- SlRemoveNodeFromTail
unfoldable pub remove_node_from_tail : (fuel : ℕ) → Ptr → Cmd Mem Ptr
unfolding last_two is_list_empty
remove_node_from_tail fuel head = if head == null then pure null else do
  first ← get_next head
  empty ← is_list_empty head
  if empty
      then pure null
      else do (prior, current) ← last_two fuel head first; set_next prior null; pure current

-- The rounds of SlForEachNode from `node` on: the nodes that they visit, in order.
unfoldable pub walk : (fuel : ℕ) → (node : Ptr) → Cmd Mem (List Ptr)
walk zero node = exhausted
walk (suc fuel) node =
    if node == null
    then pure []
    else do next ← get_next node; rest ← walk fuel next; pure (node ∷ rest)

-- SlForEachNode
unfoldable pub for_each_node : (head : Ptr) → (fuel : ℕ) → Cmd Mem (List Ptr)
for_each_node head fuel = do first ← get_next head; walk fuel first
