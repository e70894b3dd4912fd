-- ===== src/Handles.antt =====
-- The handles of semaphores that a function has created and not deleted.
use native.Mathlib.Decide.{ℕ_discrete}
use freertos_addons.Prelude.{
  List, [], ◌∷◌, has, ap, ◌≡◌, ◌≢◌, refl, true, false, Bool-cases, inl, inr, arith, sym, ◌∙◌,
}
use freertos_addons.Memory.{Ptr, null}
use freertos_addons.Rtos.{Rtos, IsRtos, Creates}

-- The same handles are alive, `NULL` aside.
abbrev pub SameLive : (os : Rtos) → os.Kernel → os.Kernel → Type 0
SameLive os k k' = (a : Ptr) → a ≢ null → os.live a k' ≡ os.live a k

-- The semaphores `hs` have been created since `k`, and nothing else has changed.
pub record Extra (os : Rtos) (k k' : os.Kernel) (hs : List Ptr) : Type 0 where
  pub others : (a : Ptr) → a ≢ null → has a hs ≡ false → os.live a k' ≡ os.live a k
  pub fresh : (a : Ptr) → has a hs ≡ true → os.live a k ≡ false

module _ (os : Rtos) (laws : IsRtos os) {k k' : os.Kernel} {hs : List Ptr}
    (e : Extra os k k' hs) where
  pub create-Extra :
      (h : Ptr) {k'' : os.Kernel} → Creates os h k' k'' → h ≢ null → Extra os k k'' (h ∷ hs)
  create-Extra h c ne = record {
    others = λ a na out. c.others a (ground arith) ∙ e.others a na (ground arith);
    fresh = λ a i. elim (Bool-cases (has a hs)) [
      | inl old ↦ e.fresh a old
      | inr new ↦
          let here : a ≡ h = ground arith in
          let out : has h hs ≡ false = ap (λ (b : Ptr). has b hs) (sym here) ∙ new in
          ap (λ (b : Ptr). os.live b k) here ∙ sym (e.others h ne out) ∙ c.fresh ne
    ];
  }

  pub create_null-Extra :
      (h : Ptr) {k'' : os.Kernel} → Creates os h k' k'' → h ≡ null → Extra os k k'' hs
  create_null-Extra h c empty = record {
    others = λ a na out. c.others a (λ at. na (at ∙ empty)) ∙ e.others a na out;
    fresh = e.fresh;
  }

  pub give-Extra : (h : Ptr) → Extra os k (os.give h k') hs
  give-Extra h = record {
    others = λ a na out. laws.give_live h k' a ∙ e.others a na out;
    fresh = e.fresh;
  }

  pub delete-Extra :
      (h : Ptr) (rest : List Ptr)
      → ((a : Ptr) → has a rest ≡ true → has a hs ≡ true)
      → ((a : Ptr) → a ≢ h → has a rest ≡ false → has a hs ≡ false)
      → has h hs ≡ true
      → Extra os k (os.delete h k') rest
  delete-Extra h rest inside outside there = record {
    others = λ a na out. elim (ℕ_discrete a h) [
      | yes here ↦
          let gone = laws.delete_live h k' in
          let was = e.fresh h there in
          ap (λ (b : Ptr). os.live b (os.delete h k')) here
          ∙ gone
          ∙ sym was
          ∙ ap (λ (b : Ptr). os.live b k) (sym here)
      | no other ↦ laws.delete_same h k' a other ∙ e.others a na (outside a other out)
    ];
    fresh = λ a i. e.fresh a (inside a i);
  }

-- Nothing is left of the semaphores that have been created.
pub Extra-SameLive : (os : Rtos) {k k' : os.Kernel} → Extra os k k' [] → SameLive os k k'
Extra-SameLive os e a na = e.others a na refl

pub no-Extra : (os : Rtos) (k : os.Kernel) → Extra os k k []
no-Extra os k = record { others = λ a na out. refl; fresh = λ a i. cc }
