-- ===== src/Dlist/Walk.antt =====
-- The walks of DlForEachNode and DlForEachNodeReverse.
use mathlib.Core.List.{reverse, reverse_aux}
use mathlib.Core.Path.{subst}
use freertos_addons.Prelude.{
  ℕ, zero, suc, ◌<◌, ◌≡◌, ◌≢◌, refl, false, some, List, [], ◌∷◌, arith, length, has, last_of, ◌==◌,
  ◌+◌,
}
use freertos_addons.Machine.{Cmd, ok}
use freertos_addons.Memory.{Ptr, null, Field, Mem}
use freertos_addons.Memory.Path.{first_or, LinkedTo}
use freertos_addons.Dlist.{get_next, get_prev, walk, for_each_node, for_each_node_reverse}
use freertos_addons.Dlist.Ring.{BackTo, IsRing, get_next_lem, get_prev_lem}

-- A walk along a path of a field that ends at `head` visits the nodes of the path.
walk-path :
    (m : Mem) (step : Ptr → Cmd Mem Ptr) (f : Field Ptr) (head : Ptr)
    → ((p : Ptr) (q : Ptr) → p ≢ null → f p ≡ some q → step p m ≡ ok q m)
    → (fuel : ℕ) (xs : List Ptr) → has head xs ≡ false
    → has null xs ≡ false
    → LinkedTo f xs head
    → length xs < fuel
    → walk step head fuel (first_or xs head) m ≡ ok xs m
unfolding walk
walk-path m step f head reads zero xs out ne h enough = absurd (omega arith)
walk-path m step f head reads (suc k) [] out ne h enough = ground arith
walk-path m step f head reads (suc k) (x ∷ xs) out ne h enough =
    let test : (x == head) ≡ false = ground arith in
    rw
      (
        test,
        reads x (first_or xs head) (ground arith) h.0,
        walk-path m step f head reads k xs (ground arith) (ground arith) h.1 (omega arith),
      )
      refl

-- Read the other way round, the links back are a path.
BackTo-reverse_aux :
    (f : Field Ptr) (e : Ptr) (xs acc : List Ptr)
    → BackTo f (first_or acc e) xs
    → LinkedTo f acc e
    → LinkedTo f (reverse_aux xs acc) e
BackTo-reverse_aux f e [] acc h k = k
BackTo-reverse_aux f e (x ∷ xs) acc h k = BackTo-reverse_aux f e xs (x ∷ acc) h.1 (h.0, k)

first_or-reverse_aux :
    (e : Ptr) (xs acc : List Ptr) → first_or (reverse_aux xs acc) e ≡ last_of (first_or acc e) xs
first_or-reverse_aux e [] acc = refl
first_or-reverse_aux e (x ∷ xs) acc = first_or-reverse_aux e xs (x ∷ acc)

has-reverse_aux :
    (a : Ptr) (xs acc : List Ptr)
    → has a xs ≡ false
    → has a acc ≡ false
    → has a (reverse_aux xs acc) ≡ false
has-reverse_aux a [] acc h k = k
has-reverse_aux a (x ∷ xs) acc h k = has-reverse_aux a xs (x ∷ acc) (ground arith) (ground arith)

length-reverse_aux : (xs acc : List Ptr) → length (reverse_aux xs acc) ≡ length xs + length acc
length-reverse_aux [] acc = omega arith
length-reverse_aux (x ∷ xs) acc = omega (arith, length-reverse_aux xs (x ∷ acc))

-- On a ring, DlForEachNode visits the nodes behind the head in their order, and
-- DlForEachNodeReverse visits them in the opposite order, once each; both write nothing, and one
-- more round than there are nodes is enough.
pub for_each_node_both :
    (m : Mem) (fuel : ℕ) (head : Ptr) (xs : List Ptr)
    → IsRing m (head ∷ xs)
    → length xs < fuel
    → (for_each_node head fuel m ≡ ok xs m)
      × (for_each_node_reverse head fuel m ≡ ok (reverse xs) m)
unfolding for_each_node for_each_node_reverse
for_each_node_both m fuel head xs r enough = (
  rw (get_next_lem m (ground (arith, r.nodes.ne_null)) r.forward.0) (
      walk-path m get_next m.dl_next head (λ p q ne at. get_next_lem m ne at) fuel xs
        r.nodes.distinct.0 (ground (arith, r.nodes.ne_null)) r.forward.1 enough),
  rw (get_prev_lem m (ground (arith, r.nodes.ne_null)) r.backward.0) (
      subst (λ p. walk get_prev head fuel p m ≡ ok (reverse xs) m) (first_or-reverse_aux head xs [])
        (walk-path m get_prev m.dl_prev head (λ p q ne at. get_prev_lem m ne at) fuel (reverse xs)
          (has-reverse_aux head xs [] r.nodes.distinct.0 refl)
          (has-reverse_aux null xs [] (ground (arith, r.nodes.ne_null)) refl)
          (BackTo-reverse_aux m.dl_prev head xs [] r.backward.1 tt)
          (omega (arith, length-reverse_aux xs [])))),
)
