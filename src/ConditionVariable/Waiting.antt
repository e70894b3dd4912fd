-- ===== src/ConditionVariable/Waiting.antt =====
-- Whatever threads wait, signal and time out: a thread that waits is signaled or is in the list.
use mathlib.Core.Path.{subst}
use native.Mathlib.Decide.{ℕ_discrete}
use freertos_addons.Prelude.{
  ◌≡◌, ◌≢◌, refl, true, false, List, [], ◌∷◌, ◌++◌, has, has-append, arith, sym, ◌∙◌, ap,
}
use freertos_addons.Machine.{Run, Cmd, ok, ◌>>◌}
use freertos_addons.Memory.{Ptr}
use freertos_addons.Rtos.{Rtos, IsRtos}
use freertos_addons.CppMemPool.{tail}
use freertos_addons.ConditionVariable.{
  CvState, take, give, add_to_wait_list, signal_front, signal, signal_all, broadcast, push_back,
}

-- A thread that no signal has reached is in the list.
abbrev pub IsListed : (os : Rtos) → (Ptr → Ptr) → Ptr → CvState os.Kernel → Type 0
IsListed os sem t s = os.available (sem t) s.kernel ≡ false → has t s.wait_list ≡ true

module _ (os : Rtos) (laws : IsRtos os) (lock : Ptr) (sem : Ptr → Ptr)
    (apart : (t : Ptr) → sem t ≢ lock) where
  -- A change that loses no thread, and leaves the internal lock as it is.
  pub record Keeps (s s' : CvState os.Kernel) : Type 0 where
    pub listed : (t : Ptr) → IsListed os sem t s → IsListed os sem t s'
    pub locked : os.available lock s'.kernel ≡ os.available lock s.kernel

  front_kept :
      (thr t : Ptr) (rest : List Ptr) (s : CvState os.Kernel)
      → s.wait_list ≡ thr ∷ rest
      → IsListed os sem t s
      → IsListed os sem t (record { wait_list = rest; kernel = os.give (sem thr) s.kernel })
  front_kept thr t rest s e listed off = elim (ℕ_discrete (sem t) (sem thr)) [
    | yes same ↦ cc (
      laws.give_available (sem thr) s.kernel,
      off,
      ap (λ h. os.available h (os.give (sem thr) s.kernel)) same,
    )
    | no other ↦
        let unchanged = laws.give_same (sem thr) s.kernel (sem t) other in
        let there = ap (λ (xs : List Ptr). has t xs) (sym e) ∙ listed (sym unchanged ∙ off) in
        let apart_thr : t ≢ thr = λ a. other (ap sem a) in ground arith
  ]

  -- The loop of Broadcast empties the list, loses no thread, and returns.
  signal_all-Keeps :
      (xs : List Ptr) (s : CvState os.Kernel)
      → s.wait_list ≡ xs
      → (s' : CvState os.Kernel) × (signal_all os lock sem xs s ≡ ok tt s')
        × (s'.wait_list ≡ [])
        × Keeps s s'
  unfolding signal_all signal_front give
  signal_all-Keeps [] s e = (s, refl, e, record { listed = λ t l. l; locked = refl })
  signal_all-Keeps (thr ∷ rest) s e =
      let next : CvState os.Kernel = record {
        wait_list = rest;
        kernel = os.give (sem thr) s.kernel;
      } in
      let (s', runs, empty, kept) = signal_all-Keeps rest next refl in
      (
        s',
        runs,
        empty,
        record {
          listed = λ t l. kept.listed t (front_kept thr t rest s e l);
          locked =
              kept.locked ∙ laws.give_same (sem thr) s.kernel lock (λ same. apart thr (sym same));
        },
      )

  taken : (s : CvState os.Kernel) → os.available lock s.kernel ≡ true → CvState os.Kernel
  taken s free = record s { kernel = (laws.take_available lock s.kernel free).0 }

  taken_lem :
      (s : CvState os.Kernel) (free : os.available lock s.kernel ≡ true)
      → take os lock sem false lock s ≡ ok true (taken s free)
  unfolding take taken
  taken_lem s free = rw ((laws.take_available lock s.kernel free).1) refl

  taken-IsListed :
      (s : CvState os.Kernel) (free : os.available lock s.kernel ≡ true) (t : Ptr)
      → IsListed os sem t s
      → IsListed os sem t (taken s free)
  unfolding taken
  taken-IsListed s free t l off =
      l (sym ((laws.take_available lock s.kernel free).3 (sem t) (apart t)) ∙ off)

  taken_list :
      (s : CvState os.Kernel) (free : os.available lock s.kernel ≡ true)
      → (taken s free).wait_list ≡ s.wait_list
  unfolding taken
  taken_list s free = refl

  -- A method that returns, with the internal lock free, the list `after`, and no thread lost.
  pub record Returns (s : CvState os.Kernel) (after : List Ptr)
      (r : Run (CvState os.Kernel) (Unit {0})) : Type 0 where
    pub state : CvState os.Kernel
    pub runs : r ≡ ok tt state
    pub list : state.wait_list ≡ after
    pub free : os.available lock state.kernel ≡ true
    pub listed : (t : Ptr) → IsListed os sem t s → IsListed os sem t state

  critical :
      (m : Cmd (CvState os.Kernel) (Unit {0})) (s s' : CvState os.Kernel)
      (free : os.available lock s.kernel ≡ true)
      → m (taken s free) ≡ ok tt s'
      → ((t : Ptr) → IsListed os sem t (taken s free) → IsListed os sem t s')
      → Returns s s'.wait_list ((take os lock sem false lock >> m >> give os lock sem lock) s)
  unfolding give
  critical m s s' free runs kept = record {
    state = record s' { kernel = os.give lock s'.kernel };
    runs = rw (taken_lem s free, runs) refl;
    list = refl;
    free = laws.give_available lock s'.kernel;
    listed = λ t l off.
        kept t (taken-IsListed s free t l)
          (sym (laws.give_same lock s'.kernel (sem t) (apart t)) ∙ off);
  }

  -- Broadcast returns, and leaves no thread in the list.
  pub broadcast-Returns :
      (s : CvState os.Kernel)
      → os.available lock s.kernel ≡ true
      → Returns s [] (broadcast os lock sem s)
  unfolding broadcast
  broadcast-Returns s free =
      let (s', runs, empty, kept) = signal_all-Keeps (taken s free).wait_list (taken s free) refl in
      subst (λ xs. Returns s xs (broadcast os lock sem s)) empty
        (critical (λ s₁. signal_all os lock sem s₁.wait_list s₁) s s' free runs kept.listed)

  front_runs :
      (xs : List Ptr) (s : CvState os.Kernel)
      → s.wait_list ≡ xs
      → (s' : CvState os.Kernel) × (signal_front os lock sem xs s ≡ ok tt s')
        × (s'.wait_list ≡ tail xs)
        × ((t : Ptr) → IsListed os sem t s → IsListed os sem t s')
  unfolding signal_front give
  front_runs [] s e = (s, refl, e, λ t l. l)
  front_runs (thr ∷ rest) s e = (
    record { wait_list = rest; kernel = os.give (sem thr) s.kernel },
    refl,
    refl,
    λ t l. front_kept thr t rest s e l,
  )

  -- Signal returns, and takes the thread that waits longest out of the list.
  pub signal-Returns :
      (s : CvState os.Kernel)
      → os.available lock s.kernel ≡ true
      → Returns s (tail s.wait_list) (signal os lock sem s)
  unfolding signal
  signal-Returns s free =
      let (s', runs, list, kept) = front_runs (taken s free).wait_list (taken s free) refl in
      subst (λ xs. Returns s xs (signal os lock sem s)) (list ∙ ap tail (taken_list s free))
        (critical (λ s₁. signal_front os lock sem s₁.wait_list s₁) s s' free runs kept)

  -- AddToWaitList returns, and puts the thread at the end of the list.
  pub add_to_wait_list-Returns :
      (this : Ptr) (s : CvState os.Kernel)
      → os.available lock s.kernel ≡ true
      → Returns s (s.wait_list ++ this ∷ []) (add_to_wait_list os lock sem this s)
  unfolding add_to_wait_list
  add_to_wait_list-Returns this s free =
      let s₁ = taken s free in
      subst (λ xs. Returns s (xs ++ this ∷ []) (add_to_wait_list os lock sem this s))
        (taken_list s free)
        (critical (push_back this) s (record s₁ { wait_list = s₁.wait_list ++ this ∷ [] }) free refl
          (λ t l off. let there = l off in ground (arith, has-append t s₁.wait_list (this ∷ []))))
