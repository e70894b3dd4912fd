-- ===== src/Slist/Insert.antt =====
-- The insertions of slist.c: behind a node, at the head, at the tail, before a node.
use freertos_addons.Prelude.{
  ℕ, zero, suc, ◌<◌, ◌≡◌, refl, false, List, [], ◌∷◌, ◌++◌, arith, length, has, last_of, init_of,
  init_of-last_of, ◌==◌, append_assoc, sym, ap, ◌∙◌,
}
use mathlib.Core.Path.{subst}
use freertos_addons.Machine.{ok}
use freertos_addons.Memory.{Ptr, null, Mem}
use freertos_addons.Memory.Path.{LinkedTo, middle}
use freertos_addons.Slist.{insert_node_after, last_node, add_node_to_tail, insert_node_before}
use freertos_addons.Slist.Find.{find_node_lem, scan_hit, scan_miss}
use freertos_addons.Slist.Chain.{
  IsChain, IsFree, Leaves, get_next_lem, next_of_middle, link_behind-Leaves,
}

-- SlInsertNodeAfter of a mapped node that is not in the chain of the marker returns and puts it
-- directly behind the marker, which may be the head; nothing but the `Next` fields of these two is
-- written.
pub insert_node_after-Leaves :
    (m : Mem) (xs ys : List Ptr) (marker node : Ptr)
    → IsChain m (xs ++ marker ∷ ys)
    → IsFree m (xs ++ marker ∷ ys) node
    → Leaves m (insert_node_after marker node m) tt (marker ∷ node ∷ []) (xs ++ marker ∷ node ∷ ys)
unfolding insert_node_after
insert_node_after-Leaves m xs ys marker node c free =
    let (ne, at) = next_of_middle m xs ys marker c in
    let test : (marker == null) ≡ false = ground arith in
    let test' : (node == null) ≡ false = ground (arith, free.ne_null) in
    rw (test, test', get_next_lem m ne at) (link_behind-Leaves m xs ys marker node c free)

last_node_lem :
    (m : Mem) (fuel : ℕ) (p : Ptr) (ys : List Ptr)
    → has null (p ∷ ys) ≡ false
    → LinkedTo m.sl_next (p ∷ ys) null
    → length ys < fuel
    → last_node fuel p m ≡ ok (last_of p ys) m
unfolding last_node
last_node_lem m zero p ys w h enough = absurd (omega arith)
last_node_lem m (suc k) p [] w h enough = rw (get_next_lem m {p = p} (ground arith) h.0) refl
last_node_lem m (suc k) p (y ∷ ys) w h enough =
    let test : (y == null) ≡ false = ground arith in
    rw (get_next_lem m {p = p} (ground arith) h.0, test)
      (last_node_lem m k y ys (ground arith) h.1 (omega arith))

-- SlAddNodeToTail of a mapped node that is not in the list returns in one round more than the list
-- has nodes and puts the node behind the last one; nothing but the `Next` fields of these two is
-- written.
pub add_node_to_tail-Leaves :
    (m : Mem) (fuel : ℕ) (head : Ptr) (xs : List Ptr) (node : Ptr)
    → IsChain m (head ∷ xs)
    → IsFree m (head ∷ xs) node
    → length xs < fuel
    → Leaves m
        (add_node_to_tail fuel head node m)
        tt
        (last_of head xs ∷ node ∷ [])
        (head ∷ xs ++ node ∷ [])
unfolding add_node_to_tail
add_node_to_tail-Leaves m fuel head xs node c free enough =
    let test : (head == null) ≡ false = ground (arith, c.nodes.ne_null) in
    let test' : (node == null) ≡ false = ground (arith, free.ne_null) in
    let e = init_of-last_of head xs in
    let linked =
      link_behind-Leaves m (init_of head xs) [] (last_of head xs) node (subst (IsChain m) (sym e) c)
        (subst (λ ps. IsFree m ps node) (sym e) free) in
    rw (test, test', last_node_lem m fuel head xs c.nodes.ne_null c.linked enough)
      (subst (Leaves m _ tt (last_of head xs ∷ node ∷ []))
        (sym (append_assoc (init_of head xs) (last_of head xs ∷ []) (node ∷ []))
          ∙ ap (λ ps. ps ++ node ∷ []) e)
        linked)

-- SlInsertNodeBefore of a mapped node that is not in the list, with a marker that is, returns in
-- one round more than the list has nodes and puts the node directly before the marker; nothing but
-- the `Next` fields of the node and of the one before it is written.
pub insert_node_before-Leaves :
    (m : Mem) (fuel : ℕ) (head : Ptr) (xs ys : List Ptr) (marker node : Ptr)
    → IsChain m (head ∷ xs ++ marker ∷ ys)
    → IsFree m (head ∷ xs ++ marker ∷ ys) node
    → length (xs ++ marker ∷ ys) < fuel
    → Leaves m
        (insert_node_before fuel head marker node m)
        tt
        (last_of head xs ∷ node ∷ [])
        (head ∷ xs ++ node ∷ marker ∷ ys)
unfolding insert_node_before
insert_node_before-Leaves m fuel head xs ys marker node c free enough =
    let mid = middle (head ∷ xs) marker ys c.nodes in
    let test : (marker == null) ≡ false = ground (arith, mid.p_ne_null) in
    let test' : (node == null) ≡ false = ground (arith, free.ne_null) in
    let test'' : (head == null) ≡ false = ground (arith, c.nodes.ne_null) in
    let e = ap (λ ps. ps ++ marker ∷ ys) (init_of-last_of head xs) in
    let assoc = append_assoc (init_of head xs) (last_of head xs ∷ []) in
    let split = sym (assoc (marker ∷ ys)) ∙ e in
    let linked =
      link_behind-Leaves m (init_of head xs) (marker ∷ ys) (last_of head xs) node
        (subst (IsChain m) (sym split) c) (subst (λ ps. IsFree m ps node) (sym split) free) in
    rw
      (
        test,
        test',
        test'',
        get_next_lem m {p = head} (ground (arith, c.nodes.ne_null)) c.linked.0,
        find_node_lem m marker fuel head (xs ++ marker ∷ ys) (ground (arith, c.nodes.ne_null))
            c.linked.1 enough,
        scan_hit marker head xs ys (ground (arith, mid.not_before)),
      )
      (subst (Leaves m _ tt (last_of head xs ∷ node ∷ []))
        (sym (assoc (node ∷ marker ∷ ys))
          ∙ ap (λ ps. ps ++ node ∷ marker ∷ ys) (init_of-last_of head xs))
        linked)

-- SlInsertNodeBefore leaves the memory alone if the marker is not in the list.
pub insert_node_before_miss :
    (m : Mem) (fuel : ℕ) (head : Ptr) (xs : List Ptr) (marker node : Ptr)
    → IsChain m (head ∷ xs)
    → has marker xs ≡ false
    → length xs < fuel
    → insert_node_before fuel head marker node m ≡ ok tt m
unfolding insert_node_before
insert_node_before_miss m fuel head xs marker node c new enough = ground (
  arith,
  get_next_lem m {p = head} (ground (arith, c.nodes.ne_null)) c.linked.0,
  find_node_lem m marker fuel head xs (ground (arith, c.nodes.ne_null)) c.linked.1 enough,
  scan_miss marker head xs new,
)
