-- ===== src/Dlist/Insert.antt =====
-- The insertions of dlist.c: behind a node, before a node, at the head, at the tail.
use mathlib.Core.Path.{subst}
use freertos_addons.Prelude.{
  ◌≡◌, ◌≢◌, refl, false, some, List, [], ◌∷◌, ◌++◌, arith, has, has-append, last_of, init_of,
  init_of-last_of, append_assoc, sym, ap, ◌∙◌, ◌==◌,
}
use freertos_addons.Memory.{Ptr, null, Mem, write}
use freertos_addons.Memory.Path
use freertos_addons.Memory.Path.{first_or, LinkedTo, IsNodes}
use freertos_addons.Dlist.{init_head, insert_node_after, insert_node_before, add_node_to_tail}
use freertos_addons.Dlist.Ring.{
  BackTo, BackTo-frame, IsRing, IsRing-rotate, OnlyLinks, LeavesRing, IsFree, with_next, with_prev,
  get_next_lem, get_prev_lem, set_next_lem, set_prev_lem,
}

pub first_or_ne : (a p : Ptr) (zs : List Ptr) → has a (p ∷ zs) ≡ false → a ≢ first_or zs p
first_or_ne a p [] h = ground arith
first_or_ne a p (z ∷ zs) h = ground arith

-- The node behind `p` in a ring points back to `p`.
pub prev_of_first :
    (m : Mem) (p : Ptr) (zs : List Ptr) → IsRing m (p ∷ zs) → m.dl_prev (first_or zs p) ≡ some p
prev_of_first m p [] r = r.backward.0
prev_of_first m p (z ∷ zs) r = r.backward.1.0

pub first_ne_null : (p : Ptr) (zs : List Ptr) → has null (p ∷ zs) ≡ false → first_or zs p ≢ null
first_ne_null p zs h e = first_or_ne null p zs h (sym e)

-- The memory after the four writes of DlInsertNodeAfter.
abbrev inserted : Mem → (p n z : Ptr) → Mem
inserted m p n z = with_next (with_prev (with_prev (with_next m n z) n p) z n) p n

inserted-backward :
    (m : Mem) (p n : Ptr) (zs : List Ptr)
    → IsRing m (p ∷ zs)
    → has n (p ∷ zs) ≡ false
    → BackTo (inserted m p n (first_or zs p)).dl_prev (last_of n zs) (p ∷ n ∷ zs)
unfolding write
inserted-backward m p n [] r new = (ground arith, (ground arith, tt))
inserted-backward m p n (z ∷ zs) r new = (
  ground (arith, r.backward, r.nodes.distinct),
  (
    ground arith,
    (
      ground arith,
      BackTo-frame m.dl_prev (inserted m p n z).dl_prev z zs
          (λ a i. ground (arith, r.nodes.distinct)) r.backward.1.1,
    ),
  ),
)

-- DlInsertNodeAfter on a ring that is read from the marker.
insert_first :
    (m : Mem) (p n : Ptr) (zs : List Ptr)
    → IsRing m (p ∷ zs)
    → IsFree m (p ∷ zs) n
    → LeavesRing m (insert_node_after p n m) tt (n ∷ p ∷ zs) (p ∷ n ∷ zs)
unfolding insert_node_after write
insert_first m p n zs r free =
    let z = first_or zs p in
    let pn : p ≢ null = ground (arith, r.nodes.ne_null) in
    let nn = free.ne_null in
    let zn = first_ne_null p zs r.nodes.ne_null in
    let n_ne_p : n ≢ p = ground (arith, free.outside) in
    let n_ne_z = first_or_ne n p zs free.outside in
    let test : (p == null) ≡ false = ground arith in
    let test' : (n == null) ≡ false = ground arith in
    let m₁ = with_next m n z in
    let m₂ = with_prev m₁ n p in
    let m₃ = with_prev m₂ z n in
    let at : m₁.dl_next p ≡ some z = ground (arith, r.forward) in
    let back : m₂.dl_prev z ≡ some p = ground (arith, prev_of_first m p zs r) in
    record {
      after = inserted m p n z;
      runs =
          rw
            (
              test,
              test',
              get_next_lem m pn r.forward.0,
              set_next_lem m nn free.next_mapped z,
              set_prev_lem m₁ nn free.prev_mapped p,
              get_next_lem m₂ pn at,
              set_prev_lem m₂ zn back n,
              set_next_lem m₃ pn at n,
            )
            refl;
      ring = record {
        nodes = Path.IsNodes-insert_behind [] p n zs r.nodes free.outside nn;
        forward = (
          ground arith,
          (
            ground arith,
            Path.LinkedTo-frame m.dl_next _ zs p
                (λ a i. ground (arith, r.nodes.distinct, free.outside)) r.forward.1,
          ),
        );
        backward = inserted-backward m p n zs r free.outside;
      };
      only = record {
        same_next = λ a o. ground arith;
        same_prev = λ a o. let ne = first_or_ne a p zs (ground arith) in ground arith;
        rest = refl;
      };
    }

-- The nodes that may change do not depend on where the ring is read from.
has_rotate :
    (a n p : Ptr) (xs ys : List Ptr)
    → has a (n ∷ xs ++ p ∷ ys) ≡ false
    → has a (n ∷ p ∷ ys ++ xs) ≡ false
has_rotate a n p xs ys h = ground (arith, has-append a xs (p ∷ ys), has-append a ys xs)

OnlyLinks-rotate :
    (m m' : Mem) (n p : Ptr) (xs ys : List Ptr)
    → OnlyLinks (n ∷ p ∷ ys ++ xs) m m'
    → OnlyLinks (n ∷ xs ++ p ∷ ys) m m'
OnlyLinks-rotate m m' n p xs ys only = record {
  same_next = λ a o. only.same_next a (has_rotate a n p xs ys o);
  same_prev = λ a o. only.same_prev a (has_rotate a n p xs ys o);
  rest = only.rest;
}

IsFree-rotate :
    (m : Mem) (n p : Ptr) (xs ys : List Ptr) → IsFree m (xs ++ p ∷ ys) n → IsFree m (p ∷ ys ++ xs) n
IsFree-rotate m n p xs ys free = record {
  ne_null = free.ne_null;
  outside = ground (arith, free.outside, has-append n xs (p ∷ ys), has-append n ys xs);
  old_next = free.old_next;
  next_mapped = free.next_mapped;
  old_prev = free.old_prev;
  prev_mapped = free.prev_mapped;
}

-- DlInsertNodeAfter of a mapped node that is not in the ring of the marker returns and puts it
-- directly behind the marker; no link of a node outside the new ring is written.
pub insert_node_after-LeavesRing :
    (m : Mem) (xs ys : List Ptr) (marker node : Ptr)
    → IsRing m (xs ++ marker ∷ ys)
    → IsFree m (xs ++ marker ∷ ys) node
    → LeavesRing m
        (insert_node_after marker node m)
        tt
        (node ∷ xs ++ marker ∷ ys)
        (xs ++ marker ∷ node ∷ ys)
insert_node_after-LeavesRing m xs ys marker node r free =
    let done =
      insert_first m marker node (ys ++ xs) (IsRing-rotate m xs (marker ∷ ys) r)
        (IsFree-rotate m node marker xs ys free) in
    record {
      after = done.after;
      runs = done.runs;
      ring = IsRing-rotate done.after (marker ∷ node ∷ ys) xs done.ring;
      only = OnlyLinks-rotate m done.after node marker xs ys done.only;
    }

-- The node behind the last one of a list that is read from `p`.
pub prev_of_head :
    (m : Mem) (p : Ptr) (zs : List Ptr)
    → IsRing m (p ∷ zs)
    → (p ≢ null) × (m.dl_prev p ≡ some (last_of p zs))
prev_of_head m p zs r = (ground (arith, r.nodes.ne_null), r.backward.0)

-- DlAddNodeToTail of a mapped node that is not in the list returns and puts it behind the last
-- node; no link of a node outside the new ring is written.
pub add_node_to_tail-LeavesRing :
    (m : Mem) (head node : Ptr) (xs : List Ptr)
    → IsRing m (head ∷ xs)
    → IsFree m (head ∷ xs) node
    → LeavesRing m (add_node_to_tail head node m) tt (node ∷ head ∷ xs) (head ∷ xs ++ node ∷ [])
unfolding add_node_to_tail
add_node_to_tail-LeavesRing m head node xs r free =
    let e = init_of-last_of head xs in
    let done =
      insert_node_after-LeavesRing m (init_of head xs) [] (last_of head xs) node
        (subst (IsRing m) (sym e) r) (subst (λ ps. IsFree m ps node) (sym e) free) in
    let (ne, at) = prev_of_head m head xs r in
    record {
      after = done.after;
      runs = rw (get_prev_lem m ne at) done.runs;
      ring =
          subst (IsRing done.after)
            (sym (append_assoc (init_of head xs) (last_of head xs ∷ []) (node ∷ []))
              ∙ ap (λ ps. ps ++ node ∷ []) e)
            done.ring;
      only = subst (λ ps. OnlyLinks (node ∷ ps) m done.after) e done.only;
    }

-- DlInsertNodeBefore of a mapped node that is not in the ring of the marker returns and puts it
-- directly before the marker; no link of a node outside the new ring is written.
pub insert_node_before-LeavesRing :
    (m : Mem) (xs ys : List Ptr) (marker node : Ptr)
    → IsRing m (xs ++ marker ∷ ys)
    → IsFree m (xs ++ marker ∷ ys) node
    → LeavesRing m
        (insert_node_before marker node m)
        tt
        (node ∷ xs ++ marker ∷ ys)
        (xs ++ node ∷ marker ∷ ys)
unfolding insert_node_before add_node_to_tail
insert_node_before-LeavesRing m xs ys marker node r free =
    let done =
      add_node_to_tail-LeavesRing m marker node (ys ++ xs) (IsRing-rotate m xs (marker ∷ ys) r)
        (IsFree-rotate m node marker xs ys free) in
    let turned = IsRing-rotate done.after (marker ∷ ys ++ xs) (node ∷ []) done.ring in
    record {
      after = done.after;
      runs = done.runs;
      ring = IsRing-rotate done.after (node ∷ marker ∷ ys) xs turned;
      only = OnlyLinks-rotate m done.after node marker xs ys done.only;
    }

-- DlInitHead makes the head node a ring of its own.
pub init_head-LeavesRing :
    (m : Mem) (head : Ptr) {q q' : Ptr}
    → head ≢ null
    → m.dl_next head ≡ some q
    → m.dl_prev head ≡ some q'
    → LeavesRing m (init_head head m) tt (head ∷ []) (head ∷ [])
unfolding init_head write
init_head-LeavesRing m head {q} {q'} ne next prev = record {
  after = with_prev (with_next m head head) head head;
  runs =
      rw (set_next_lem m ne next head, set_prev_lem (with_next m head head) {q = q'} ne prev head)
        refl;
  ring = record {
    nodes = record { distinct = ground arith; ne_null = ground arith };
    forward = ground arith;
    backward = ground arith;
  };
  only = record { same_next = λ a o. ground arith; same_prev = λ a o. ground arith; rest = refl };
}
