-- ===== src/Dlist.antt =====
-- c/Source/dlist.c and dlist.h: circular doubly linked lists with a head node, on the shared memory.
pub mod Ring
pub mod Insert
pub mod Remove
pub mod Walk
mod Tests
use freertos_addons.Prelude.{ℕ, zero, suc, Bool, true, false, List, [], ◌∷◌, ◌==◌, if◌then◌else◌}
use freertos_addons.Machine.{Cmd, pure, exhausted, ◌>>=◌, ◌>>◌}
use freertos_addons.Memory.{Ptr, null, Mem, load, store}

unfoldable pub get_next : Ptr → Cmd Mem Ptr
unfolding load
get_next = load (λ m. m.dl_next)

unfoldable pub get_prev : Ptr → Cmd Mem Ptr
unfolding load
get_prev = load (λ m. m.dl_prev)

unfoldable pub set_next : Ptr → Ptr → Cmd Mem (Unit {0})
unfolding store
set_next = store (λ m. m.dl_next) (λ m f. record m { dl_next = f })

unfoldable pub set_prev : Ptr → Ptr → Cmd Mem (Unit {0})
unfolding store
set_prev = store (λ m. m.dl_prev) (λ m f. record m { dl_prev = f })

-- DlInitHead
unfoldable pub init_head : Ptr → Cmd Mem (Unit {0})
init_head head = do set_next head head; set_prev head head

-- DlIsListEmpty
unfoldable pub is_list_empty : Ptr → Cmd Mem Bool
is_list_empty head = do next ← get_next head; pure (next == head)

-- DlInsertNodeAfter
unfoldable pub insert_node_after : Ptr → Ptr → Cmd Mem (Unit {0})
insert_node_after marker node =
    if marker == null then pure tt else if node == null then pure tt else do
      next ← get_next marker
      set_next node next
      set_prev node marker
      behind ← get_next marker
      set_prev behind node
      set_next marker node

-- DlInsertNodeBefore
unfoldable pub insert_node_before : Ptr → Ptr → Cmd Mem (Unit {0})
insert_node_before marker node = do prev ← get_prev marker; insert_node_after prev node

-- DlAddNodeToHead
unfoldable pub add_node_to_head : Ptr → Ptr → Cmd Mem (Unit {0})
add_node_to_head head node = insert_node_after head node

-- DlAddNodeToTail
unfoldable pub add_node_to_tail : Ptr → Ptr → Cmd Mem (Unit {0})
add_node_to_tail head node = do prev ← get_prev head; insert_node_after prev node

-- DlRemoveNode
unfoldable pub remove_node : Ptr → Cmd Mem (Unit {0})
remove_node node = if node == null then pure tt else do
  next ← get_next node
  prev ← get_prev node
  set_prev next prev
  before ← get_prev node
  behind ← get_next node
  set_next before behind

-- DlRemoveNodeFromHead
unfoldable pub remove_node_from_head : Ptr → Cmd Mem Ptr
remove_node_from_head head = if head == null then pure null else do
  empty ← is_list_empty head
  if empty then pure null else do node ← get_next head; remove_node node; pure node

-- DlRemoveNodeFromTail
unfoldable pub remove_node_from_tail : Ptr → Cmd Mem Ptr
remove_node_from_tail head = if head == null then pure null else do
  empty ← is_list_empty head
  if empty then pure null else do node ← get_prev head; remove_node node; pure node

-- The rounds of the two macros from `node` on: the nodes that they visit, in order.
unfoldable pub walk :
    (step : Ptr → Cmd Mem Ptr) (head : Ptr) → (fuel : ℕ) → (node : Ptr) → Cmd Mem (List Ptr)
walk step head zero node = exhausted
walk step head (suc fuel) node =
    if node == head
    then pure []
    else do next ← step node; rest ← walk step head fuel next; pure (node ∷ rest)

-- DlForEachNode
unfoldable pub for_each_node : (head : Ptr) → (fuel : ℕ) → Cmd Mem (List Ptr)
for_each_node head fuel = do first ← get_next head; walk get_next head fuel first

-- DlForEachNodeReverse
unfoldable pub for_each_node_reverse : (head : Ptr) → (fuel : ℕ) → Cmd Mem (List Ptr)
for_each_node_reverse head fuel = do last ← get_prev head; walk get_prev head fuel last
