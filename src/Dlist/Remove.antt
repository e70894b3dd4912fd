-- ===== src/Dlist/Remove.antt =====
-- The removals of dlist.c, and the test for an empty list.
use mathlib.Core.Path.{subst}
use freertos_addons.Prelude.{
  suc, ◌≡◌, ◌≢◌, refl, false, some, List, [], ◌∷◌, ◌++◌, arith, has, has-append, last_of, init_of,
  init_of-last_of, Distinct, append-nil, sym, ap, ◌∙◌, ◌==◌, length,
}
use freertos_addons.Machine.{ok}
use freertos_addons.Memory.{Ptr, null, Field, Mem, write}
use freertos_addons.Memory.Write.{write_self, write_ne, write_spares, write_again}
use freertos_addons.Memory.Path
use freertos_addons.Memory.Path.{first_or, LinkedTo, IsNodes}
use freertos_addons.Dlist.{is_list_empty, remove_node, remove_node_from_head, remove_node_from_tail}
use freertos_addons.Dlist.Insert.{prev_of_first, first_ne_null, prev_of_head}
use freertos_addons.Dlist.Ring.{
  BackTo-frame, IsRing, IsRing-rotate, OnlyLinks, LeavesRing, with_next, with_prev, get_next_lem,
  get_prev_lem, set_next_lem, set_prev_lem,
}

last_of_ne : (a p : Ptr) (zs : List Ptr) → has a (p ∷ zs) ≡ false → a ≢ last_of p zs
last_of_ne a p [] h = ground arith
last_of_ne a p (z ∷ zs) h = last_of_ne a z zs (ground arith)

next_of_last :
    (f : Field Ptr) (p e : Ptr) (zs : List Ptr) → LinkedTo f (p ∷ zs) e → f (last_of p zs) ≡ some e
next_of_last f p e [] h = h.0
next_of_last f p e (z ∷ zs) h = next_of_last f z e zs h.1

-- The last node of a path gets another successor.
LinkedTo-retarget :
    (f : Field Ptr) (p e v : Ptr) (zs : List Ptr)
    → Distinct (p ∷ zs)
    → LinkedTo f (p ∷ zs) e
    → LinkedTo (write f (last_of p zs) v) (p ∷ zs) v
LinkedTo-retarget f p e v [] d h = (write_self f p v, tt)
LinkedTo-retarget f p e v (z ∷ zs) d h = (
  write_ne f (last_of z zs) v p (last_of_ne p z zs d.0) ∙ h.0,
  LinkedTo-retarget f z e v zs d.1 h.1,
)

-- The memory after the two writes of DlRemoveNode.
abbrev removed : Mem → (l z : Ptr) → Mem
removed m l z = with_next (with_prev m z l) l z

removed-IsRing :
    (m : Mem) (n : Ptr) (zs : List Ptr)
    → IsRing m (n ∷ zs)
    → IsRing (removed m (last_of n zs) (first_or zs n)) zs
removed-IsRing m n [] r = record {
  nodes = record { distinct = tt; ne_null = refl };
  forward = tt;
  backward = tt;
}
removed-IsRing m n (z ∷ zs) r = record {
  nodes = Path.IsNodes-remove [] n (z ∷ zs) r.nodes;
  forward = LinkedTo-retarget m.dl_next z n z zs r.nodes.distinct.1 r.forward.1;
  backward = (
    write_self m.dl_prev z (last_of z zs),
    BackTo-frame m.dl_prev (write m.dl_prev z (last_of z zs)) z zs
        (write_spares m.dl_prev z (last_of z zs) zs r.nodes.distinct.1.0) r.backward.1.1,
  );
}

-- The link back from the node itself, after the first write.
prev_kept :
    (m : Mem) (n : Ptr) (zs : List Ptr)
    → IsRing m (n ∷ zs)
    → (with_prev m (first_or zs n) (last_of n zs)).dl_prev n ≡ some (last_of n zs)
prev_kept m n [] r = write_self m.dl_prev n n
prev_kept m n (z ∷ zs) r =
    write_ne m.dl_prev z (last_of z zs) n (ground (arith, r.nodes.distinct)) ∙ r.backward.0

-- The links of the removed node itself stay as they were.
removed-OnlyLinks :
    (m : Mem) (n : Ptr) (zs : List Ptr)
    → IsRing m (n ∷ zs)
    → OnlyLinks zs m (removed m (last_of n zs) (first_or zs n))
removed-OnlyLinks m n [] r = record {
  same_next = λ a o. write_again m.dl_next n n r.forward.0 a;
  same_prev = λ a o. write_again m.dl_prev n n r.backward.0 a;
  rest = refl;
}
removed-OnlyLinks m n (z ∷ zs) r = record {
  same_next = λ a o. write_ne m.dl_next (last_of z zs) z a (last_of_ne a z zs o);
  same_prev = λ a o. write_ne m.dl_prev z (last_of z zs) a (ground arith);
  rest = refl;
}

-- DlRemoveNode on a ring that is read from the node.
remove_first :
    (m : Mem) (n : Ptr) (zs : List Ptr)
    → IsRing m (n ∷ zs)
    → LeavesRing m (remove_node n m) tt zs zs
unfolding remove_node
remove_first m n zs r =
    let z = first_or zs n in
    let l = last_of n zs in
    let (nn, prev) = prev_of_head m n zs r in
    let zn = first_ne_null n zs r.nodes.ne_null in
    let ln : l ≢ null = λ e. last_of_ne null n zs r.nodes.ne_null (sym e) in
    let test : (n == null) ≡ false = ground arith in
    let m₁ = with_prev m z l in
    record {
      after = removed m l z;
      runs =
          rw
            (
              test,
              get_next_lem m nn r.forward.0,
              get_prev_lem m nn prev,
              set_prev_lem m zn (prev_of_first m n zs r) l,
              get_prev_lem m₁ nn (prev_kept m n zs r),
              get_next_lem m₁ nn r.forward.0,
              set_next_lem m₁ ln (next_of_last m.dl_next n n zs r.forward) z,
            )
            refl;
      ring = removed-IsRing m n zs r;
      only = removed-OnlyLinks m n zs r;
    }

-- DlRemoveNode of a node of a ring returns and takes exactly this node out of the ring; no link of
-- a node outside the remaining ring is written.
pub remove_node-LeavesRing :
    (m : Mem) (xs ys : List Ptr) (node : Ptr)
    → IsRing m (xs ++ node ∷ ys)
    → LeavesRing m (remove_node node m) tt (xs ++ ys) (xs ++ ys)
remove_node-LeavesRing m xs ys node r =
    let done = remove_first m node (ys ++ xs) (IsRing-rotate m xs (node ∷ ys) r) in
    let back = λ (a : Ptr) (o : has a (xs ++ ys) ≡ false).
      let turned : has a (ys ++ xs) ≡ false =
        ground (arith, has-append a xs ys, has-append a ys xs) in
      turned in
    record {
      after = done.after;
      runs = done.runs;
      ring = IsRing-rotate done.after ys xs done.ring;
      only = record {
        same_next = λ a o. done.only.same_next a (back a o);
        same_prev = λ a o. done.only.same_prev a (back a o);
        rest = done.only.rest;
      };
    }

-- DlIsListEmpty says whether the ring holds a node beside the head.
pub is_list_empty_lem :
    (m : Mem) (head : Ptr) (xs : List Ptr)
    → IsRing m (head ∷ xs)
    → is_list_empty head m ≡ ok (length xs == 0) m
unfolding is_list_empty
is_list_empty_lem m head [] r =
    rw (get_next_lem m (prev_of_head m head [] r).0 r.forward.0) (ground arith)
is_list_empty_lem m head (x ∷ xs) r =
    rw (get_next_lem m (prev_of_head m head (x ∷ xs) r).0 r.forward.0)
      (ground (arith, r.nodes.distinct))

-- DlRemoveNodeFromHead and DlRemoveNodeFromTail return `NULL` for an empty list.
pub remove_from_empty :
    (m : Mem) (head : Ptr)
    → IsRing m (head ∷ [])
    → (remove_node_from_head head m ≡ ok null m) × (remove_node_from_tail head m ≡ ok null m)
unfolding remove_node_from_head remove_node_from_tail
remove_from_empty m head r =
    let test : (head == null) ≡ false = ground (arith, r.nodes.ne_null) in
    (rw (test, is_list_empty_lem m head [] r) refl, rw (test, is_list_empty_lem m head [] r) refl)

-- DlRemoveNodeFromHead of a list that is not empty takes out and returns the node behind the head;
-- no link of a node outside the remaining ring is written.
pub remove_node_from_head-LeavesRing :
    (m : Mem) (head x : Ptr) (xs : List Ptr)
    → IsRing m (head ∷ x ∷ xs)
    → LeavesRing m (remove_node_from_head head m) x (head ∷ xs) (head ∷ xs)
unfolding remove_node_from_head
remove_node_from_head-LeavesRing m head x xs r =
    let test : (head == null) ≡ false = ground (arith, r.nodes.ne_null) in
    let some_left : (suc (length xs) == 0) ≡ false = ground arith in
    let done = remove_node-LeavesRing m (head ∷ []) xs x r in
    record {
      after = done.after;
      runs =
          rw
            (
              test,
              is_list_empty_lem m head (x ∷ xs) r,
              some_left,
              get_next_lem m (prev_of_head m head (x ∷ xs) r).0 r.forward.0,
              done.runs,
            )
            refl;
      ring = done.ring;
      only = done.only;
    }

-- DlRemoveNodeFromTail of a list that is not empty takes out and returns the last node; no link of
-- a node outside the remaining ring is written.
pub remove_node_from_tail-LeavesRing :
    (m : Mem) (head x : Ptr) (xs : List Ptr)
    → IsRing m (head ∷ x ∷ xs)
    → LeavesRing m
        (remove_node_from_tail head m)
        (last_of x xs)
        (head ∷ init_of x xs)
        (head ∷ init_of x xs)
unfolding remove_node_from_tail
remove_node_from_tail-LeavesRing m head x xs r =
    let test : (head == null) ≡ false = ground (arith, r.nodes.ne_null) in
    let e = ap (λ ps. head ∷ ps) (init_of-last_of x xs) in
    let some_left : (suc (length xs) == 0) ≡ false = ground arith in
    let done =
      remove_node-LeavesRing m (head ∷ init_of x xs) [] (last_of x xs)
        (subst (IsRing m) (sym e) r) in
    let (ne, at) = prev_of_head m head (x ∷ xs) r in
    record {
      after = done.after;
      runs =
          rw (test, is_list_empty_lem m head (x ∷ xs) r, some_left, get_prev_lem m ne at, done.runs)
            refl;
      ring = subst (IsRing done.after) (append-nil (head ∷ init_of x xs)) done.ring;
      only = subst (λ ps. OnlyLinks ps m done.after) (append-nil (head ∷ init_of x xs)) done.only;
    }
