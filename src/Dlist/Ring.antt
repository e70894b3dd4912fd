-- ===== src/Dlist/Ring.antt =====
-- What a ring of `DlNode_t` is, and that it can be read from any of its nodes.
use mathlib.Core.Path.{subst}
use freertos_addons.Prelude.{
  ◌≡◌, ◌≢◌, refl, false, true, some, List, [], ◌∷◌, ◌++◌, arith, has, has-append, last_of,
  Distinct-split, Distinct-append, append-nil, sym,
}
use freertos_addons.Machine.{Run, ok}
use freertos_addons.Memory.{Ptr, null, Field, Mem, write}
use freertos_addons.Memory.Path
use freertos_addons.Memory.Path.{first_or, LinkedTo, IsNodes}
use freertos_addons.Dlist.{get_next, get_prev, set_next, set_prev}

-- Each node of `xs` points back to the one before it, and the first one to `e`.
abbrev pub BackTo : Field Ptr → Ptr → List Ptr → Type 0
BackTo f e [] = Unit
BackTo f e (x ∷ xs) = (f x ≡ some e) × BackTo f x xs

pub BackTo-frame :
    (f g : Field Ptr) (e : Ptr) (xs : List Ptr)
    → ((a : Ptr) → has a xs ≡ true → g a ≡ f a)
    → BackTo f e xs
    → BackTo g e xs
BackTo-frame f g e [] same h = tt
BackTo-frame f g e (x ∷ xs) same h =
    (ground (arith, same x, h), BackTo-frame f g x xs (λ a i. same a (ground arith)) h.1)

BackTo-split :
    (f : Field Ptr) (e : Ptr) (xs ys : List Ptr)
    → BackTo f e (xs ++ ys)
    → BackTo f e xs × BackTo f (last_of e xs) ys
BackTo-split f e [] ys h = (tt, h)
BackTo-split f e (x ∷ xs) ys h =
    let (front, back) = BackTo-split f x xs ys h.1 in ((h.0, front), back)

BackTo-append :
    (f : Field Ptr) (e : Ptr) (xs ys : List Ptr)
    → BackTo f e xs
    → BackTo f (last_of e xs) ys
    → BackTo f e (xs ++ ys)
BackTo-append f e [] ys h k = k
BackTo-append f e (x ∷ xs) ys h k = (h.0, BackTo-append f x xs ys h.1 k)

last_of-append : (e y : Ptr) (xs ys : List Ptr) → last_of e (xs ++ y ∷ ys) ≡ last_of y ys
last_of-append e y [] ys = refl
last_of-append e y (x ∷ xs) ys = last_of-append x y xs ys

-- The nodes `ps` in a ring: `Next` leads through them and back to the first, `Prev` the other way.
pub record IsRing (m : Mem) (ps : List Ptr) : Type 0 where
  pub nodes : IsNodes ps
  pub forward : LinkedTo m.dl_next ps (first_or ps null)
  pub backward : BackTo m.dl_prev (last_of null ps) ps

IsNodes-rotate : (xs ys : List Ptr) → IsNodes (xs ++ ys) → IsNodes (ys ++ xs)
IsNodes-rotate xs ys w =
    let (dx, dy, apart) = Distinct-split xs ys w.distinct in
    record {
      distinct = Distinct-append ys xs dy dx (λ a i. ground (arith, apart a));
      ne_null = ground (arith, w.ne_null, has-append null xs ys, has-append null ys xs);
    }

-- A ring has no beginning: the head node may stand anywhere in the list of its nodes.
pub IsRing-rotate : (m : Mem) (xs ys : List Ptr) → IsRing m (xs ++ ys) → IsRing m (ys ++ xs)
IsRing-rotate m [] ys r = subst (IsRing m) (sym (append-nil ys)) r
IsRing-rotate m (x ∷ xs) [] r = subst (IsRing m) (append-nil (x ∷ xs)) r
IsRing-rotate m (x ∷ xs) (y ∷ ys) r =
    let (f₁, f₂) = Path.LinkedTo-split m.dl_next (x ∷ xs) (y ∷ ys) x r.forward in
    let (b₁, b₂) =
      BackTo-split m.dl_prev (last_of null (x ∷ xs ++ y ∷ ys)) (x ∷ xs) (y ∷ ys) r.backward in
    record {
      nodes = IsNodes-rotate (x ∷ xs) (y ∷ ys) r.nodes;
      forward = Path.LinkedTo-append m.dl_next (y ∷ ys) (x ∷ xs) y f₂ f₁;
      backward =
          BackTo-append m.dl_prev _ (y ∷ ys) (x ∷ xs) (rw (last_of-append y x ys xs) b₂)
            (rw (← last_of-append x y xs ys) b₁);
    }

-- Nothing but the fields of `changed` may differ.
pub record OnlyLinks (changed : List Ptr) (m m' : Mem) : Type 0 where
  pub same_next : (a : Ptr) → has a changed ≡ false → m'.dl_next a ≡ m.dl_next a
  pub same_prev : (a : Ptr) → has a changed ≡ false → m'.dl_prev a ≡ m.dl_prev a
  pub rest : m' ≡ record m { dl_next = m'.dl_next; dl_prev = m'.dl_prev }

-- A run that returns `a`, leaves the ring `ps`, and writes to no node outside `changed`.
pub record LeavesRing {A : Type 0} (m : Mem) (r : Run Mem A) (a : A) (changed ps : List Ptr)
    : Type 0 where
  pub after : Mem
  pub runs : r ≡ ok a after
  pub ring : IsRing after ps
  pub only : OnlyLinks changed m after

-- A node that can be put into the ring `ps`.
pub record IsFree (m : Mem) (ps : List Ptr) (node : Ptr) : Type 0 where
  pub ne_null : node ≢ null
  pub outside : has node ps ≡ false
  pub old_next : Ptr
  pub next_mapped : m.dl_next node ≡ some old_next
  pub old_prev : Ptr
  pub prev_mapped : m.dl_prev node ≡ some old_prev

abbrev pub with_next : Mem → Ptr → Ptr → Mem
with_next m p v = record m { dl_next = write m.dl_next p v }

abbrev pub with_prev : Mem → Ptr → Ptr → Mem
with_prev m p v = record m { dl_prev = write m.dl_prev p v }

module _ (m : Mem) {p q : Ptr} (ne : p ≢ null) where
  pub get_next_lem : m.dl_next p ≡ some q → get_next p m ≡ ok q m
  unfolding get_next
  get_next_lem at = ground arith

  pub get_prev_lem : m.dl_prev p ≡ some q → get_prev p m ≡ ok q m
  unfolding get_prev
  get_prev_lem at = ground arith

  pub set_next_lem : m.dl_next p ≡ some q → (v : Ptr) → set_next p v m ≡ ok tt (with_next m p v)
  unfolding set_next
  set_next_lem at v = ground arith

  pub set_prev_lem : m.dl_prev p ≡ some q → (v : Ptr) → set_prev p v m ≡ ok tt (with_prev m p v)
  unfolding set_prev
  set_prev_lem at v = ground arith
