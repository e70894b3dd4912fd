-- ===== src/ReadWriteLock/Group.antt =====
-- A group of tasks that shares a semaphore: the first that is counted takes the outer semaphore, the
-- last gives it back, and the inner semaphore protects the count.
use native.Mathlib.Decide.{ℕ_discrete}
use freertos_addons.Prelude.{ℕ, ◌+◌, ◌≤◌, ◌≡◌, ◌⊎◌, inl, inr, arith}

-- What the count `n`, the semaphores and the tasks say of each other. In the inner section are the
-- tasks that have just counted themselves (`first`), that are about to take the outer semaphore
-- (`locking`), that have just taken themselves off the count (`last`), that are about to give the
-- outer semaphore back (`unlocking`), and the others (`holding`). Counted are the tasks `inside`, the
-- others (`counted`), and those of `first` and `locking`. `other` hold the outer semaphore alone.
pub record IsGroup (n inner outer holding first locking last unlocking inside counted other : ℕ)
    : Type 0 where
  pub inner_held : inner + holding + first + locking + last + unlocking ≡ 1
  pub all_counted : n ≡ inside + counted + first + locking
  pub none_in : n ≡ 0 → outer + other + last + unlocking ≡ 1
  pub one_in : n ≡ 1 → outer + other ≡ first + locking
  pub more_in : 2 ≤ n → outer + other ≡ 0
  pub locks_first : 1 ≤ locking → n ≡ 1
  pub unlocks_last : 1 ≤ unlocking → n ≡ 0

-- A count is 0, or 1, or more.
size_cases : (n : ℕ) → (n ≡ 0) ⊎ ((n ≡ 1) ⊎ (2 ≤ n))
size_cases n = elim (ℕ_discrete n 0) [
  | yes e ↦ inl e
  | no ne ↦ elim (ℕ_discrete n 1) [ yes e ↦ inr (inl e) | no ne' ↦ inr (inr (omega arith)) ]
]

module _ {n i o h f l t u g c w : ℕ} (p : IsGroup n i o h f l t u g c w) where
  -- A task alone holds the outer semaphore: nobody else does.
  pub IsGroup-outer : 1 ≤ w → (o ≡ 0) × (w ≡ 1) × (g ≡ 0)
  IsGroup-outer some = elim (size_cases n) [
    | inl none ↦ omega (arith, p.none_in none, p.inner_held, p.all_counted)
    | inr (inl one) ↦ omega (arith, p.one_in one, p.inner_held, p.all_counted)
    | inr (inr more) ↦ absurd (omega (arith, p.more_in more))
  ]

  -- A task is inside: the outer semaphore is held for it.
  pub IsGroup-closed : 1 ≤ g → (o ≡ 0) × (w ≡ 0)
  IsGroup-closed some = elim (size_cases n) [
    | inl none ↦ absurd (omega (arith, p.all_counted))
    | inr (inl one) ↦ omega (arith, p.one_in one, p.all_counted)
    | inr (inr more) ↦ omega (arith, p.more_in more)
  ]

  -- Steps between the places that count alike.
  pub IsGroup-move :
      {i' o' h' f' l' t' u' g' c' w' : ℕ}
      → i' + h' ≡ i + h
      → f' ≡ f
      → l' ≡ l
      → t' ≡ t
      → u' ≡ u
      → g' + c' ≡ g + c
      → o' + w' ≡ o + w
      → IsGroup n i' o' h' f' l' t' u' g' c' w'
  IsGroup-move eh ef el et eu ec ew = record {
    inner_held = omega (arith, p.inner_held);
    all_counted = omega (arith, p.all_counted);
    none_in = λ z. omega (arith, p.none_in z);
    one_in = λ z. omega (arith, p.one_in z);
    more_in = λ z. omega (arith, p.more_in z);
    locks_first = λ z. p.locks_first (omega arith);
    unlocks_last = λ z. p.unlocks_last (omega arith);
  }

  -- A task of the inner section counts itself.
  pub IsGroup-count : {h' f' : ℕ} → h ≡ h' + 1 → f' ≡ f + 1 → IsGroup (n + 1) i o h' f' l t u g c w
  IsGroup-count eh ef = record {
    inner_held = omega (arith, p.inner_held);
    all_counted = omega (arith, p.all_counted);
    none_in = λ z. absurd (omega arith);
    one_in = λ z. omega (arith, p.none_in (omega arith), p.inner_held);
    more_in = λ z. elim (size_cases n) [
      | inl none ↦ absurd (omega arith)
      | inr (inl one) ↦ omega (arith, p.one_in one, p.inner_held)
      | inr (inr more) ↦ p.more_in more
    ];
    locks_first = λ z. absurd (omega (arith, p.inner_held));
    unlocks_last = λ z. absurd (omega (arith, p.inner_held));
  }

  -- It is the first.
  pub IsGroup-first :
      {f' l' : ℕ} → n ≡ 1 → f ≡ f' + 1 → l' ≡ l + 1 → IsGroup n i o h f' l' t u g c w
  IsGroup-first one ef el = record {
    inner_held = omega (arith, p.inner_held);
    all_counted = omega (arith, p.all_counted);
    none_in = λ z. absurd (omega arith);
    one_in = λ z. omega (arith, p.one_in z);
    more_in = λ z. absurd (omega arith);
    locks_first = λ z. one;
    unlocks_last = p.unlocks_last;
  }

  -- It is not the first.
  pub IsGroup-not_first :
      {h' f' c' : ℕ}
      → (n ≡ 1 → ⊥)
      → f ≡ f' + 1
      → h' ≡ h + 1
      → c' ≡ c + 1
      → IsGroup n i o h' f' l t u g c' w
  IsGroup-not_first more ef eh ec = record {
    inner_held = omega (arith, p.inner_held);
    all_counted = omega (arith, p.all_counted);
    none_in = λ z. absurd (omega (arith, p.all_counted));
    one_in = λ z. absurd (more z);
    more_in = p.more_in;
    locks_first = λ z. absurd (omega (arith, p.inner_held));
    unlocks_last = p.unlocks_last;
  }

  -- The first takes the outer semaphore.
  pub IsGroup-lock :
      {o' h' l' c' : ℕ}
      → o ≡ 1
      → o' ≡ 0
      → l ≡ l' + 1
      → h' ≡ h + 1
      → c' ≡ c + 1
      → IsGroup n i o' h' f l' t u g c' w
  IsGroup-lock eo eo' el eh ec =
      let one = p.locks_first (omega arith) in
      record {
        inner_held = omega (arith, p.inner_held);
        all_counted = omega (arith, p.all_counted);
        none_in = λ z. absurd (omega arith);
        one_in = λ z. omega (arith, p.one_in one, p.inner_held);
        more_in = λ z. absurd (omega arith);
        locks_first = λ z. one;
        unlocks_last = p.unlocks_last;
      }

  -- A task takes itself off the count.
  pub IsGroup-uncount :
      {m h' t' c' : ℕ}
      → n ≡ m + 1
      → h ≡ h' + 1
      → c ≡ c' + 1
      → t' ≡ t + 1
      → IsGroup m i o h' f l t' u g c' w
  IsGroup-uncount en eh ec et = record {
    inner_held = omega (arith, p.inner_held);
    all_counted = omega (arith, p.all_counted);
    none_in = λ z. omega (arith, p.one_in (omega arith), p.inner_held);
    one_in = λ z. omega (arith, p.more_in (omega arith), p.inner_held);
    more_in = λ z. p.more_in (omega arith);
    locks_first = λ z. absurd (omega (arith, p.inner_held));
    unlocks_last = λ z. absurd (omega (arith, p.inner_held));
  }

  -- It was the last.
  pub IsGroup-last : {t' u' : ℕ} → n ≡ 0 → t ≡ t' + 1 → u' ≡ u + 1 → IsGroup n i o h f l t' u' g c w
  IsGroup-last none et eu = record {
    inner_held = omega (arith, p.inner_held);
    all_counted = p.all_counted;
    none_in = λ z. omega (arith, p.none_in z);
    one_in = λ z. absurd (omega arith);
    more_in = λ z. absurd (omega arith);
    locks_first = p.locks_first;
    unlocks_last = λ z. none;
  }

  -- It was not the last.
  pub IsGroup-not_last :
      {h' t' : ℕ} → (n ≡ 0 → ⊥) → t ≡ t' + 1 → h' ≡ h + 1 → IsGroup n i o h' f l t' u g c w
  IsGroup-not_last some et eh = record {
    inner_held = omega (arith, p.inner_held);
    all_counted = p.all_counted;
    none_in = λ z. absurd (some z);
    one_in = p.one_in;
    more_in = p.more_in;
    locks_first = p.locks_first;
    unlocks_last = λ z. absurd (some (p.unlocks_last z));
  }

  -- The last gives the outer semaphore back.
  pub IsGroup-unlock :
      {o' h' u' : ℕ} → o' ≡ 1 → u ≡ u' + 1 → h' ≡ h + 1 → IsGroup n i o' h' f l t u' g c w
  IsGroup-unlock eo eu eh =
      let none = p.unlocks_last (omega arith) in
      record {
        inner_held = omega (arith, p.inner_held);
        all_counted = p.all_counted;
        none_in = λ z. omega (arith, p.none_in none, p.inner_held);
        one_in = λ z. absurd (omega arith);
        more_in = λ z. absurd (omega arith);
        locks_first = λ z. absurd (omega (arith, p.inner_held));
        unlocks_last = λ z. none;
      }
