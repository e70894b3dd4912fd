-- ===== src/Slist/Find.antt =====
-- The loop of slist.c that looks for a node and the one before it.
use freertos_addons.Prelude.{
  ℕ, zero, suc, ◌<◌, ◌≡◌, refl, inl, inr, true, false, List, [], ◌∷◌, ◌++◌, arith, length, has,
  last_of, Bool-cases, ◌==◌, if◌then◌else◌,
}
use freertos_addons.Machine.{ok}
use freertos_addons.Memory.{Ptr, null, Mem}
use freertos_addons.Memory.Path.{first_or, LinkedTo}
use freertos_addons.Slist.{Search, find_node}
use freertos_addons.Slist.Chain.{get_next_lem}

-- What the loop of SlInsertNodeBefore and SlRemoveNode finds among the nodes behind `prior`.
pub scan : (target prior : Ptr) → List Ptr → Search
scan target prior [] = record { found = false; prior = prior; current = null }
scan target prior (y ∷ ys) =
    if y == target then record { found = true; prior = prior; current = y } else scan target y ys

-- The loop ends, within as many rounds as there are nodes and one more, and changes nothing.
pub find_node_lem :
    (m : Mem) (target : Ptr) (fuel : ℕ) (p : Ptr) (ys : List Ptr)
    → has null ys ≡ false
    → LinkedTo m.sl_next ys null
    → length ys < fuel
    → find_node target fuel p (first_or ys null) m ≡ ok (scan target p ys) m
unfolding find_node scan
find_node_lem m target zero p ys w h enough = absurd (omega arith)
find_node_lem m target (suc k) p [] w h enough = refl
find_node_lem m target (suc k) p (y ∷ ys) w h enough =
    let test : (y == null) ≡ false = ground arith in
    elim (Bool-cases (y == target)) [
      | inl hit ↦ rw (test, hit) refl
      | inr miss ↦
          rw (test, miss, get_next_lem m {p = y} (ground arith) h.0)
            (find_node_lem m target k y ys (ground arith) h.1 (omega arith))
    ]

-- The node is found behind the last of those before it.
pub scan_hit :
    (target p : Ptr) (xs ys : List Ptr)
    → has target xs ≡ false
    → scan target p (xs ++ target ∷ ys)
      ≡ record { found = true; prior = last_of p xs; current = target }
unfolding scan
scan_hit target p [] ys new = ground arith
scan_hit target p (x ∷ xs) ys new =
    let miss : (x == target) ≡ false = ground arith in
    rw miss (scan_hit target x xs ys (ground arith))

pub scan_miss :
    (target p : Ptr) (ys : List Ptr) → has target ys ≡ false → (scan target p ys).found ≡ false
unfolding scan
scan_miss target p [] new = refl
scan_miss target p (y ∷ ys) new =
    let miss : (y == target) ≡ false = ground arith in
    rw miss (scan_miss target y ys (ground arith))
