-- ===== src/Memory/Path.antt =====
-- Paths of nodes through a pointer field, for the lists of slist.c and dlist.c.
use freertos_addons.Prelude.{
  ◌≡◌, refl, ◌≢◌, true, false, some, List, [], ◌∷◌, ◌++◌, arith, has, Distinct, has-append,
  ne_of_has, append_assoc, ◌∙◌,
}
use freertos_addons.Memory.{Ptr, null, Field}

-- The first of `xs`, or `e`.
abbrev pub first_or : List Ptr → Ptr → Ptr
first_or [] e = e
first_or (x ∷ xs) e = x

-- Each node of `xs` points to the one behind it, and the last one to `e`.
abbrev pub LinkedTo : Field Ptr → List Ptr → Ptr → Type 0
LinkedTo f [] e = Unit
LinkedTo f (x ∷ xs) e = (f x ≡ some (first_or xs e)) × LinkedTo f xs e

pub first_or-append :
    (xs ys : List Ptr) (e : Ptr) → first_or (xs ++ ys) e ≡ first_or xs (first_or ys e)
first_or-append [] ys e = refl
first_or-append (x ∷ xs) ys e = refl

pub LinkedTo-append :
    (f : Field Ptr) (xs ys : List Ptr) (e : Ptr)
    → LinkedTo f xs (first_or ys e)
    → LinkedTo f ys e
    → LinkedTo f (xs ++ ys) e
LinkedTo-append f [] ys e h k = k
LinkedTo-append f (x ∷ xs) ys e h k =
    (ground (arith, first_or-append xs ys e, h), LinkedTo-append f xs ys e h.1 k)

pub LinkedTo-split :
    (f : Field Ptr) (xs ys : List Ptr) (e : Ptr)
    → LinkedTo f (xs ++ ys) e
    → LinkedTo f xs (first_or ys e) × LinkedTo f ys e
LinkedTo-split f [] ys e h = (tt, h)
LinkedTo-split f (x ∷ xs) ys e h =
    let (front, back) = LinkedTo-split f xs ys e h.1 in
    ((ground (arith, first_or-append xs ys e, h), front), back)

-- A path survives a change that spares its nodes.
pub LinkedTo-frame :
    (f g : Field Ptr) (xs : List Ptr) (e : Ptr)
    → ((a : Ptr) → has a xs ≡ true → g a ≡ f a)
    → LinkedTo f xs e
    → LinkedTo g xs e
LinkedTo-frame f g [] e same h = tt
LinkedTo-frame f g (x ∷ xs) e same h =
    (ground (arith, same x, h), LinkedTo-frame f g xs e (λ a i. same a (ground arith)) h.1)

-- A new node `n` behind the node `p` of a path.
pub LinkedTo-insert :
    (f g : Field Ptr) (xs ys : List Ptr) (p n e : Ptr)
    → g p ≡ some n
    → g n ≡ some (first_or ys e)
    → ((a : Ptr) → a ≢ p → a ≢ n → g a ≡ f a)
    → has p xs ≡ false
    → has p ys ≡ false
    → has n xs ≡ false
    → has n ys ≡ false
    → LinkedTo f (xs ++ p ∷ ys) e
    → LinkedTo g (xs ++ p ∷ n ∷ ys) e
LinkedTo-insert f g [] ys p n e gp gn same px py nx ny h = (
  gp,
  (gn, LinkedTo-frame f g ys e (λ a i. same a (ne_of_has a p ys i py) (ne_of_has a n ys i ny)) h.1),
)
LinkedTo-insert f g (x ∷ xs) ys p n e gp gn same px py nx ny h = (
  same x (ground arith) (ground arith)
      ∙ ground (arith, h.0, first_or-append xs (p ∷ ys) e, first_or-append xs (p ∷ n ∷ ys) e),
  LinkedTo-insert f g xs ys p n e gp gn same (ground arith) py (ground arith) ny h.1,
)

-- The node `n` behind the node `p` is taken out of a path.
pub LinkedTo-remove :
    (f g : Field Ptr) (xs ys : List Ptr) (p n e : Ptr)
    → g p ≡ f n
    → ((a : Ptr) → a ≢ p → g a ≡ f a)
    → has p xs ≡ false
    → has p ys ≡ false
    → LinkedTo f (xs ++ p ∷ n ∷ ys) e
    → LinkedTo g (xs ++ p ∷ ys) e
LinkedTo-remove f g [] ys p n e gp same px py h =
    (gp ∙ h.1.0, LinkedTo-frame f g ys e (λ a i. same a (ne_of_has a p ys i py)) h.1.1)
LinkedTo-remove f g (x ∷ xs) ys p n e gp same px py h = (
  same x (ground arith)
      ∙ ground (arith, h.0, first_or-append xs (p ∷ ys) e, first_or-append xs (p ∷ n ∷ ys) e),
  LinkedTo-remove f g xs ys p n e gp same (ground arith) py h.1,
)

-- Nodes that can stand in one list: distinct, and none of them `NULL`.
pub record IsNodes (xs : List Ptr) : Type 0 where
  pub distinct : Distinct xs
  pub ne_null : has null xs ≡ false

-- What `IsNodes` says of a node in the middle.
pub record Middle (xs : List Ptr) (p : Ptr) (ys : List Ptr) : Type 0 where
  pub not_before : has p xs ≡ false
  pub not_behind : has p ys ≡ false
  pub p_ne_null : p ≢ null

pub Distinct-middle :
    (xs : List Ptr) (p : Ptr) (ys : List Ptr)
    → Distinct (xs ++ p ∷ ys)
    → (has p xs ≡ false) × (has p ys ≡ false)
Distinct-middle [] p ys d = (refl, d.0)
Distinct-middle (x ∷ xs) p ys d =
    let (front, back) = Distinct-middle xs p ys d.1 in
    (ground (arith, d, has-append x xs (p ∷ ys)), back)

pub middle : (xs : List Ptr) (p : Ptr) (ys : List Ptr) → IsNodes (xs ++ p ∷ ys) → Middle xs p ys
middle xs p ys w =
    let (front, back) = Distinct-middle xs p ys w.distinct in
    record {
      not_before = front;
      not_behind = back;
      p_ne_null = ground (arith, w.ne_null, has-append null xs (p ∷ ys));
    }

Distinct-insert :
    (xs : List Ptr) (n : Ptr) (ys : List Ptr)
    → Distinct (xs ++ ys)
    → has n (xs ++ ys) ≡ false
    → Distinct (xs ++ n ∷ ys)
Distinct-insert [] n ys d new = (new, d)
Distinct-insert (x ∷ xs) n ys d new = (
  ground (arith, d, has-append x xs (n ∷ ys), has-append x xs ys),
  Distinct-insert xs n ys d.1 (ground arith),
)

Distinct-remove :
    (xs : List Ptr) (n : Ptr) (ys : List Ptr) → Distinct (xs ++ n ∷ ys) → Distinct (xs ++ ys)
Distinct-remove [] n ys d = d.1
Distinct-remove (x ∷ xs) n ys d =
    (ground (arith, d, has-append x xs (n ∷ ys), has-append x xs ys), Distinct-remove xs n ys d.1)

pub IsNodes-insert :
    (xs : List Ptr) (n : Ptr) (ys : List Ptr)
    → IsNodes (xs ++ ys)
    → has n (xs ++ ys) ≡ false
    → n ≢ null
    → IsNodes (xs ++ n ∷ ys)
IsNodes-insert xs n ys w new ne = record {
  distinct = Distinct-insert xs n ys w.distinct new;
  ne_null = ground (arith, w.ne_null, has-append null xs (n ∷ ys), has-append null xs ys);
}

pub IsNodes-remove :
    (xs : List Ptr) (n : Ptr) (ys : List Ptr) → IsNodes (xs ++ n ∷ ys) → IsNodes (xs ++ ys)
IsNodes-remove xs n ys w = record {
  distinct = Distinct-remove xs n ys w.distinct;
  ne_null = ground (arith, w.ne_null, has-append null xs (n ∷ ys), has-append null xs ys);
}

pub IsNodes-insert_behind :
    (xs : List Ptr) (p n : Ptr) (ys : List Ptr)
    → IsNodes (xs ++ p ∷ ys)
    → has n (xs ++ p ∷ ys) ≡ false
    → n ≢ null
    → IsNodes (xs ++ p ∷ n ∷ ys)
IsNodes-insert_behind xs p n ys w new ne =
    rw append_assoc at
      (IsNodes-insert (xs ++ p ∷ []) n ys (rw append_assoc w) (rw append_assoc new) ne)

pub IsNodes-remove_behind :
    (xs : List Ptr) (p n : Ptr) (ys : List Ptr)
    → IsNodes (xs ++ p ∷ n ∷ ys)
    → IsNodes (xs ++ p ∷ ys)
IsNodes-remove_behind xs p n ys w =
    rw append_assoc at (IsNodes-remove (xs ++ p ∷ []) n ys (rw append_assoc w))
