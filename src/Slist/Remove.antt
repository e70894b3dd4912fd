-- ===== src/Slist/Remove.antt =====
-- The removals of slist.c, and the walk of SlForEachNode.
use mathlib.Core.Path.{subst}
use freertos_addons.Prelude.{
  ℕ, zero, suc, ◌<◌, ◌≡◌, refl, false, List, [], ◌∷◌, ◌++◌, arith, length, has, last_of, init_of,
  init_of-last_of, ◌==◌, append_assoc, append-nil, sym, ap, ◌∙◌,
}
use freertos_addons.Machine.{ok}
use freertos_addons.Memory.{Ptr, null, Mem}
use freertos_addons.Memory.Path.{first_or, LinkedTo, middle}
use freertos_addons.Slist.{
  set_next, remove_node, remove_node_from_head, last_two, remove_node_from_tail, for_each_node,
  walk,
}
use freertos_addons.Slist.Find.{find_node_lem, scan_hit, scan_miss}
use freertos_addons.Slist.Chain.{
  IsChain, Leaves, get_next_lem, is_list_empty_lem, set_next_lem, with_next, next_of_middle,
  IsChain-remove, OnlyNext-write,
}

-- The node behind `p` is taken out by `p->Next = n->Next`.
unlink-Leaves :
    {A : Type 0} (m : Mem) (a : A) (xs ys : List Ptr) (p n : Ptr) {zs : List Ptr}
    → xs ++ p ∷ [] ≡ zs
    → IsChain m (zs ++ n ∷ ys)
    → Leaves m (ok a (with_next m p (first_or ys null))) a (p ∷ []) (zs ++ ys)
unlink-Leaves m a xs ys p n {zs} e c = record {
  after = with_next m p (first_or ys null);
  runs = refl;
  chain =
      subst (IsChain (with_next m p (first_or ys null)))
        (sym (append_assoc xs (p ∷ []) ys) ∙ ap (λ ps. ps ++ ys) e)
        (IsChain-remove m xs ys p n (
          subst (IsChain m)
            (sym (sym (append_assoc xs (p ∷ []) (n ∷ ys)) ∙ ap (λ ps. ps ++ n ∷ ys) e)) c));
  only = OnlyNext-write m p (first_or ys null);
}

-- The last node of `head ∷ xs` can be written to.
set_last :
    (m : Mem) (head : Ptr) (xs ys : List Ptr) (v : Ptr)
    → IsChain m (head ∷ xs ++ ys)
    → set_next (last_of head xs) v m ≡ ok tt (with_next m (last_of head xs) v)
set_last m head xs ys v c =
    let e =
      sym (append_assoc (init_of head xs) (last_of head xs ∷ []) ys)
      ∙ ap (λ ps. ps ++ ys) (init_of-last_of head xs) in
    let (ne, at) =
      next_of_middle m (init_of head xs) ys (last_of head xs) (subst (IsChain m) (sym e) c) in
    set_next_lem m ne at v

-- SlRemoveNode of a node of the list returns in one round more than the list has nodes and takes
-- exactly this node out; nothing but the `Next` field of the node before it is written.
pub remove_node-Leaves :
    (m : Mem) (fuel : ℕ) (head : Ptr) (xs ys : List Ptr) (node : Ptr)
    → IsChain m (head ∷ xs ++ node ∷ ys)
    → length (xs ++ node ∷ ys) < fuel
    → Leaves m (remove_node fuel head node m) tt (last_of head xs ∷ []) (head ∷ xs ++ ys)
unfolding remove_node
remove_node-Leaves m fuel head xs ys node c enough =
    let mid = middle (head ∷ xs) node ys c.nodes in
    let (ne, at) = next_of_middle m (head ∷ xs) ys node c in
    let test : (head == null) ≡ false = ground (arith, c.nodes.ne_null) in
    let test' : (node == null) ≡ false = ground (arith, mid.p_ne_null) in
    rw
      (
        test,
        test',
        get_next_lem m {p = head} (ground (arith, c.nodes.ne_null)) c.linked.0,
        find_node_lem m node fuel head (xs ++ node ∷ ys) (ground (arith, c.nodes.ne_null))
            c.linked.1 enough,
        scan_hit node head xs ys (ground (arith, mid.not_before)),
        get_next_lem m ne at,
        set_last m head xs (node ∷ ys) (first_or ys null) c,
      )
      (unlink-Leaves m tt (init_of head xs) ys (last_of head xs) node (init_of-last_of head xs) c)

-- SlRemoveNode of a node that is not in the list returns in one round more than the list has nodes,
-- and writes nothing.
pub remove_node_miss :
    (m : Mem) (fuel : ℕ) (head : Ptr) (xs : List Ptr) (node : Ptr)
    → IsChain m (head ∷ xs)
    → has node xs ≡ false
    → length xs < fuel
    → remove_node fuel head node m ≡ ok tt m
unfolding remove_node
remove_node_miss m fuel head xs node c new enough = ground (
  arith,
  get_next_lem m {p = head} (ground (arith, c.nodes.ne_null)) c.linked.0,
  find_node_lem m node fuel head xs (ground (arith, c.nodes.ne_null)) c.linked.1 enough,
  scan_miss node head xs new,
)

-- SlRemoveNodeFromHead returns `NULL` for an empty list, and else takes out the first node.
pub remove_node_from_head-nil :
    (m : Mem) (head : Ptr) → IsChain m (head ∷ []) → remove_node_from_head head m ≡ ok null m
unfolding remove_node_from_head
remove_node_from_head-nil m head c =
    ground (arith, get_next_lem m {p = head} (ground (arith, c.nodes.ne_null)) c.linked.0)

-- SlRemoveNodeFromHead of a list that is not empty takes out and returns the first node; nothing
-- but the `Next` field of the head is written.
pub remove_node_from_head-Leaves :
    (m : Mem) (head x : Ptr) (xs : List Ptr)
    → IsChain m (head ∷ x ∷ xs)
    → Leaves m (remove_node_from_head head m) x (head ∷ []) (head ∷ xs)
unfolding remove_node_from_head
remove_node_from_head-Leaves m head x xs c =
    let test : (head == null) ≡ false = ground (arith, c.nodes.ne_null) in
    let test' : (x == null) ≡ false = ground (arith, c.nodes.ne_null) in
    rw
      (
        test,
        get_next_lem m {p = head} (ground (arith, c.nodes.ne_null)) c.linked.0,
        test',
        get_next_lem m {p = x} (ground (arith, c.nodes.ne_null)) c.linked.1.0,
        set_last m head [] (x ∷ xs) (first_or xs null) c,
      )
      (unlink-Leaves m x [] xs head x refl c)

last_two_lem :
    (m : Mem) (fuel : ℕ) (prior p : Ptr) (ys : List Ptr)
    → has null (p ∷ ys) ≡ false
    → LinkedTo m.sl_next (p ∷ ys) null
    → length ys < fuel
    → last_two fuel prior p m ≡ ok (last_of prior (init_of p ys), last_of p ys) m
unfolding last_two
last_two_lem m zero prior p ys w h enough = absurd (omega arith)
last_two_lem m (suc k) prior p [] w h enough = rw (get_next_lem m {p = p} (ground arith) h.0) refl
last_two_lem m (suc k) prior p (y ∷ ys) w h enough =
    let test : (y == null) ≡ false = ground arith in
    rw (get_next_lem m {p = p} (ground arith) h.0, test)
      (last_two_lem m k p y ys (ground arith) h.1 (omega arith))

-- SlRemoveNodeFromTail returns `NULL` for an empty list, and else takes out the last node.
pub remove_node_from_tail-nil :
    (m : Mem) (fuel : ℕ) (head : Ptr)
    → IsChain m (head ∷ [])
    → remove_node_from_tail fuel head m ≡ ok null m
unfolding remove_node_from_tail
remove_node_from_tail-nil m fuel head c =
    ground (arith, get_next_lem m {p = head} (ground (arith, c.nodes.ne_null)) c.linked.0)

-- SlRemoveNodeFromTail of a list that is not empty takes out and returns the last node, in as many
-- rounds as the list has nodes; nothing but the `Next` field of the node before it is written.
pub remove_node_from_tail-Leaves :
    (m : Mem) (fuel : ℕ) (head x : Ptr) (xs : List Ptr)
    → IsChain m (head ∷ x ∷ xs)
    → length xs < fuel
    → Leaves m
        (remove_node_from_tail fuel head m)
        (last_of x xs)
        (last_of head (init_of x xs) ∷ [])
        (head ∷ init_of x xs)
unfolding remove_node_from_tail
remove_node_from_tail-Leaves m fuel head x xs c enough =
    let test : (head == null) ≡ false = ground (arith, c.nodes.ne_null) in
    let test' : (x == null) ≡ false = ground (arith, c.nodes.ne_null) in
    let split = ap (λ ps. head ∷ ps) (init_of-last_of x xs) in
    let c' = subst (IsChain m) (sym split) c in
    rw
      (
        test,
        get_next_lem m {p = head} (ground (arith, c.nodes.ne_null)) c.linked.0,
        is_list_empty_lem m {p = head} (ground (arith, c.nodes.ne_null)) c.linked.0,
        test',
        last_two_lem m fuel head x xs (ground (arith, c.nodes.ne_null)) c.linked.1 enough,
        set_last m head (init_of x xs) (last_of x xs ∷ []) null c',
      )
      (subst (Leaves m _ _ _) (append-nil (head ∷ init_of x xs)) (
        unlink-Leaves m (last_of x xs) (init_of head (init_of x xs)) []
          (last_of head (init_of x xs)) (last_of x xs) (init_of-last_of head (init_of x xs)) c'))

-- The rounds from the first node of a chain that ends in `NULL` visits its nodes in order, once
-- each, and writes nothing; one more round than there are nodes is enough.
pub walk_lem :
    (m : Mem) (fuel : ℕ) (ys : List Ptr)
    → has null ys ≡ false
    → LinkedTo m.sl_next ys null
    → length ys < fuel
    → walk fuel (first_or ys null) m ≡ ok ys m
unfolding walk
walk_lem m zero ys w h enough = absurd (omega arith)
walk_lem m (suc k) [] w h enough = refl
walk_lem m (suc k) (y ∷ ys) w h enough =
    let test : (y == null) ≡ false = ground arith in
    rw
      (
        test,
        get_next_lem m {p = y} (ground arith) h.0,
        walk_lem m k ys (ground arith) h.1 (omega arith),
      )
      refl

-- SlForEachNode on a list visits its nodes in order, once each, and writes nothing; one more round
-- than there are nodes is enough.
pub for_each_node_lem :
    (m : Mem) (fuel : ℕ) (head : Ptr) (ys : List Ptr)
    → IsChain m (head ∷ ys)
    → length ys < fuel
    → for_each_node head fuel m ≡ ok ys m
unfolding for_each_node
for_each_node_lem m fuel head ys c enough =
    rw (get_next_lem m {p = head} (ground (arith, c.nodes.ne_null)) c.linked.0)
      (walk_lem m fuel ys (ground (arith, c.nodes.ne_null)) c.linked.1 enough)
