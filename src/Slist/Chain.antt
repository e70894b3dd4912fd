-- ===== src/Slist/Chain.antt =====
-- What a chain of `SlNode_t` is, and how the field accesses of slist.c act on it.
use freertos_addons.Prelude.{
  ◌≡◌, ◌≢◌, false, some, List, ◌∷◌, ◌++◌, arith, has, has-append, [], refl, sym, ◌==◌,
}
use freertos_addons.Machine.{Run, ok, ◌>>◌}
use freertos_addons.Memory.{Ptr, null, Mem, write}
use freertos_addons.Memory.Path
use freertos_addons.Memory.Path.{first_or, LinkedTo, IsNodes, Middle, middle}
use freertos_addons.Slist.{get_next, set_next, is_list_empty}

-- The nodes `ps`, the head node first, linked by `Next`, the last one to `NULL`.
pub record IsChain (m : Mem) (ps : List Ptr) : Type 0 where
  pub nodes : IsNodes ps
  pub linked : LinkedTo m.sl_next ps null

-- A node that can be put into the chain `ps`.
pub record IsFree (m : Mem) (ps : List Ptr) (node : Ptr) : Type 0 where
  pub ne_null : node ≢ null
  pub outside : has node ps ≡ false
  pub old : Ptr
  pub mapped : m.sl_next node ≡ some old

-- Nothing but the `Next` fields of `ps` may differ.
pub record OnlyNext (ps : List Ptr) (m m' : Mem) : Type 0 where
  pub same : (a : Ptr) → has a ps ≡ false → m'.sl_next a ≡ m.sl_next a
  pub rest : m' ≡ record m { sl_next = m'.sl_next }

abbrev pub with_next : Mem → Ptr → Ptr → Mem
with_next m p v = record m { sl_next = write m.sl_next p v }

module _ (m : Mem) {p q : Ptr} (ne : p ≢ null) (at : m.sl_next p ≡ some q) where
  pub get_next_lem : get_next p m ≡ ok q m
  unfolding get_next
  get_next_lem = ground arith

  pub is_list_empty_lem : is_list_empty p m ≡ ok (q == null) m
  unfolding is_list_empty
  is_list_empty_lem = rw get_next_lem refl

  pub set_next_lem : (v : Ptr) → set_next p v m ≡ ok tt (with_next m p v)
  unfolding set_next
  set_next_lem v = ground arith

new-apart :
    (xs ys : List Ptr) (p n : Ptr)
    → has n (xs ++ p ∷ ys) ≡ false
    → (has n xs ≡ false) × (n ≢ p) × (has n ys ≡ false)
new-apart xs ys p n h = ground (arith, has-append n xs (p ∷ ys))

-- `p->Next = n; n->Next = v` puts `n` behind the node `p` of a chain, if `v` is the node behind `p`.
pub IsChain-insert :
    (m : Mem) (xs ys : List Ptr) (p n : Ptr)
    → IsChain m (xs ++ p ∷ ys)
    → IsFree m (xs ++ p ∷ ys) n
    → IsChain (with_next (with_next m p n) n (first_or ys null)) (xs ++ p ∷ n ∷ ys)
unfolding write
IsChain-insert m xs ys p n c free =
    let mid = middle xs p ys c.nodes in
    let apart = new-apart xs ys p n free.outside in
    record {
      nodes = Path.IsNodes-insert_behind xs p n ys c.nodes free.outside free.ne_null;
      linked =
          Path.LinkedTo-insert m.sl_next _ xs ys p n null (ground arith) (ground arith)
            (λ a np nn. ground arith) mid.not_before mid.not_behind apart.0 apart.2 c.linked;
    }

-- `p->Next = n->Next` takes the node `n` behind `p` out of a chain.
pub IsChain-remove :
    (m : Mem) (xs ys : List Ptr) (p n : Ptr)
    → IsChain m (xs ++ p ∷ n ∷ ys)
    → IsChain (with_next m p (first_or ys null)) (xs ++ p ∷ ys)
unfolding write
IsChain-remove m xs ys p n c =
    let mid = middle xs p (n ∷ ys) c.nodes in
    let (_, back) = Path.LinkedTo-split m.sl_next xs (p ∷ n ∷ ys) null c.linked in
    record {
      nodes = Path.IsNodes-remove_behind xs p n ys c.nodes;
      linked =
          Path.LinkedTo-remove m.sl_next _ xs ys p n null (ground arith) (λ a np. ground arith)
            mid.not_before (ground (arith, mid.not_behind)) c.linked;
    }

-- The field of a node in the middle of a chain.
pub next_of_middle :
    (m : Mem) (xs ys : List Ptr) (p : Ptr)
    → IsChain m (xs ++ p ∷ ys)
    → (p ≢ null) × (m.sl_next p ≡ some (first_or ys null))
next_of_middle m xs ys p c = (
  (middle xs p ys c.nodes).p_ne_null,
  (Path.LinkedTo-split m.sl_next xs (p ∷ ys) null c.linked).1.0,
)

-- A run that returns `a`, leaves the chain `ps`, and writes to no `Next` outside `changed`.
pub record Leaves {A : Type 0} (m : Mem) (r : Run Mem A) (a : A) (changed ps : List Ptr)
    : Type 0 where
  pub after : Mem
  pub runs : r ≡ ok a after
  pub chain : IsChain after ps
  pub only : OnlyNext changed m after

pub OnlyNext-write : (m : Mem) (p v : Ptr) → OnlyNext (p ∷ []) m (with_next m p v)
unfolding write
OnlyNext-write m p v = record { same = λ a o. ground arith; rest = refl }

pub OnlyNext-write_two :
    (m : Mem) (p n v w : Ptr) → OnlyNext (p ∷ n ∷ []) m (with_next (with_next m p v) n w)
unfolding write
OnlyNext-write_two m p n v w = record { same = λ a o. ground arith; rest = refl }

-- The two writes that link `n` behind `p`.
pub link_behind :
    (m : Mem) (p n v : Ptr) {q old : Ptr}
    → p ≢ null
    → m.sl_next p ≡ some q
    → n ≢ null
    → m.sl_next n ≡ some old
    → p ≢ n
    → (set_next p n >> set_next n v) m ≡ ok tt (with_next (with_next m p n) n v)
unfolding write
link_behind m p n v {old} pn ap nn an ne =
    rw (set_next_lem m pn ap n) (set_next_lem (with_next m p n) {q = old} nn (ground arith) v)

-- The chain after the two writes.
pub link_behind-Leaves :
    (m : Mem) (xs ys : List Ptr) (p n : Ptr)
    → IsChain m (xs ++ p ∷ ys)
    → IsFree m (xs ++ p ∷ ys) n
    → Leaves m
        ((set_next p n >> set_next n (first_or ys null)) m)
        tt
        (p ∷ n ∷ [])
        (xs ++ p ∷ n ∷ ys)
link_behind-Leaves m xs ys p n c free =
    let (pn, at) = next_of_middle m xs ys p c in
    let apart = new-apart xs ys p n free.outside in
    record {
      after = with_next (with_next m p n) n (first_or ys null);
      runs =
          link_behind m p n (first_or ys null) pn at free.ne_null free.mapped
            (λ e. apart.1 (sym e));
      chain = IsChain-insert m xs ys p n c free;
      only = OnlyNext-write_two m p n n (first_or ys null);
    }
