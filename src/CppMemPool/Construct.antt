-- ===== src/CppMemPool/Construct.antt =====
-- The constructors of MemoryPool.
use freertos_addons.Prelude.{
  ℕ, ◌+◌, ◌*◌, ◌/◌, ◌%◌, ◌≤◌, ◌<◌, ◌≡◌, ◌≢◌, refl, true, false, Bool-cases, inl, inr, ◌==◌, leb,
  arith, ℤ, pos, int_max, Option, none, some, if◌then◌else◌, has, ap, ◌∙◌, sym,
}
use native.Mathlib.Nat.{div-add-mod', mod-lt, mul-mod_left, mul_assoc, add-mul-mod_self_right}
use mathlib.Core.Option
use freertos_addons.Machine.{ok}
use freertos_addons.Memory.{Ptr, null, write}
use freertos_addons.Memory.Write.{write_self}
use freertos_addons.Rtos.{Rtos}
use freertos_addons.MemPool.{
  at_least_pointer, find_bit, alignment_or_zero, in_int, product, calculate_and_verify_alignment,
}
use freertos_addons.MemPool.Sizes.{at_least_8}
use freertos_addons.MemPool.Create.{Placed}
use freertos_addons.CppMemPool.{
  mutex_failed, returned, thrown, PoolState, calculate_valid_alignment, alignment_or_throw,
  calculate_item_size, construct, construct_static, make_lock,
}
use freertos_addons.CppMemPool.Items.{row, has-row, push_items_lem, row-Placed, push_region_lem}

at_least_pos : (alignment : ℤ) → 0 < at_least_pointer alignment
at_least_pos alignment = elim (at_least_8 alignment) [
  | inl (e, below) ↦ omega (arith, e)
  | inr (e, le) ↦ omega (arith, le)
]

both_answers :
    (a : ℕ) (o : Option ℕ)
    → 0 < a
    → alignment_or_throw a o
      ≡ Option.map (λ b. if b == 0 then none else some b) (alignment_or_zero a o)
both_answers a none positive = refl
both_answers a (some i) positive = ground arith

-- CalculateValidAlignment throws where CalculateAndVerifyAlignment returns 0.
pub calculate_valid_alignment_same :
    (alignment : ℤ)
    → calculate_valid_alignment alignment
      ≡ Option.map (λ a. if a == 0 then none else some a) (calculate_and_verify_alignment alignment)
unfolding calculate_valid_alignment calculate_and_verify_alignment
calculate_valid_alignment_same alignment =
    both_answers (at_least_pointer alignment) (find_bit 31 (at_least_pointer alignment) 0 1)
      (at_least_pos alignment)

valid_answer : (a : ℕ) (o : Option ℕ) {b : ℕ} → alignment_or_throw a o ≡ some (some b) → a ≡ b
valid_answer a none e = cc
valid_answer a (some i) e = ground arith

-- An alignment that is valid is positive.
valid_positive :
    (alignment : ℤ) {a : ℕ} → calculate_valid_alignment alignment ≡ some (some a) → 0 < a
unfolding calculate_valid_alignment
valid_positive alignment e =
    let same =
      valid_answer (at_least_pointer alignment) (find_bit 31 (at_least_pointer alignment) 0 1) e in
    omega (arith, same, at_least_pos alignment)

-- The size is the smallest multiple of the alignment, not zero, that holds the item.
pub calculate_item_size_lem :
    {S : Type 0} (n a : ℕ) (s : S)
    → 0 < a
    → n + a ≤ int_max
    → (c : ℕ) × (calculate_item_size (pos n) a s ≡ ok (c * a) s)
      × (n ≤ c * a)
      × (a ≤ c * a)
      × (c * a ≤ n + a)
      × ((d : ℕ) → 0 < d → n ≤ d * a → c ≤ d)
unfolding calculate_item_size in_int
calculate_item_size_lem n a s positive fits =
    let divided = div-add-mod' n a in
    let small = mod-lt n positive in
    elim (Bool-cases (leb n a)) [
      | inl le ↦
          (1, rw le (ground arith), ground arith, omega arith, omega arith, λ d pd h. omega arith)
      | inr gt ↦ elim (Bool-cases (n % a == 0)) [
        | inl whole ↦
            let fit : leb ((n / a) * a) int_max ≡ true = ground arith in
            (
              n / a,
              rw (gt, whole, fit) refl,
              ground arith,
              ground arith,
              ground arith,
              λ d pd h. grind arith,
            )
        | inr part ↦
            let fit : leb ((n / a + 1) * a) int_max ≡ true = ground arith in
            (
              n / a + 1,
              rw (gt, part, fit) refl,
              omega arith,
              ground arith,
              omega arith,
              λ d pd h. grind arith,
            )
      ]
    ]

-- A block lies on an address boundary as the memory does.
row_aligned :
    (n address c a : ℕ) (b : Ptr) → has b (row n address (c * a)) ≡ true → b % a ≡ address % a
row_aligned n address c a b i =
    let (k, _, e) = has-row n address (c * a) b i in
    ap (λ (t : ℕ). t % a) e
    ∙ ap (λ (t : ℕ). (address + t) % a) (sym (mul_assoc k c a))
    ∙ add-mul-mod_self_right address (k * c) a

-- All the blocks together, and one alone.
fits_all :
    (m count size : ℕ) → size ≤ m → m * (count + 1) ≤ int_max → leb (count * size) int_max ≡ true
fits_all m count size le fits =
    let grown : count * size ≤ count * m = grind arith in
    let more : count * m ≤ int_max = grind arith in ground arith

fits_one : (m count : ℕ) → m * (count + 1) ≤ int_max → m ≤ int_max
fits_one m count fits = grind arith

fuel_enough :
    (count size memory_size fuel : ℕ)
    → 0 < size
    → count * size ≤ memory_size
    → memory_size < fuel
    → count < fuel
fuel_enough count size memory_size fuel positive room enough = grind arith

module _ (os : Rtos) (s : PoolState os.Kernel) where
  -- The constructor of MemoryPool with a valid alignment `a`, sizes that fit an `int`, memory from
  -- malloc and a mutex from the kernel returns a pool of `count` free blocks. Their size is a
  -- multiple of the alignment, at least the size of an item and at most `a` more; they lie in the
  -- memory of malloc, do not overlap, and lie on an address boundary as that memory does.
  pub construct-Placed :
      (new : Ptr) (n count a : ℕ) (alignment : ℤ)
      → calculate_valid_alignment alignment ≡ some (some a)
      → (n + a) * (count + 1) ≤ int_max
      → new ≢ null
      → (os.create_mutex s.kernel).0 ≢ null
      → (size : ℕ) × (s' : PoolState os.Kernel) × (construct os new (pos n) (pos count) alignment s
          ≡ ok returned s')
        × (s'.pool ≡ record {
          lock = (os.create_mutex s.kernel).0;
          item_size = size;
          alignment = a;
          free_items = row count new size;
        })
        × (n ≤ size)
        × (size ≤ n + a)
        × (size % a ≡ 0)
        × (s'.blocks new ≡ some (count * size))
        × Placed new (new + count * size) size (row count new size)
        × ((b : Ptr) → has b (row count new size) ≡ true → b % a ≡ new % a)
  unfolding construct make_lock product
  construct-Placed new n count a alignment valid fits ne locked =
      let positive = valid_positive alignment valid in
      let (c, sized, holds, _, small, _) =
        calculate_item_size_lem n a s positive (fits_one (n + a) count fits) in
      let size = c * a in
      let bytes : leb (count * size) int_max ≡ true = fits_all (n + a) count size small fits in
      let test : (new == null) ≡ false = ground arith in
      let test' : ((os.create_mutex s.kernel).0 == null) ≡ false = ground arith in
      (
        size,
        record {
          pool = record {
            lock = (os.create_mutex s.kernel).0;
            item_size = size;
            alignment = a;
            free_items = row count new size;
          };
          kernel = (os.create_mutex s.kernel).1;
          blocks = write s.blocks new (count * size);
        },
        rw (valid, sized, bytes, test, push_items_lem) (rw test' refl),
        refl,
        holds,
        small,
        mul-mod_left c a,
        write_self s.blocks new (count * size),
        row-Placed count new size (new + count * size) (omega arith),
        row_aligned count new c a,
      )

  -- The constructor of MemoryPool that is given its memory, with a valid alignment and an item size
  -- that fit an `int` together and a mutex from the kernel, returns in fewer rounds than the memory
  -- has bytes and one more, with a pool of as many blocks as the memory has room for; they lie
  -- within it and do not overlap.
  pub construct_static-Placed :
      (fuel : ℕ) (memory : Ptr) (n memory_size a : ℕ) (alignment : ℤ)
      → calculate_valid_alignment alignment ≡ some (some a)
      → n + a ≤ int_max
      → memory_size < fuel
      → (os.create_mutex s.kernel).0 ≢ null
      → (size count : ℕ) × (s' : PoolState os.Kernel) × (construct_static os fuel
            (pos n)
            memory
            (pos memory_size)
            alignment
            s
          ≡ ok returned s')
        × (s'.pool ≡ record {
          lock = (os.create_mutex s.kernel).0;
          item_size = size;
          alignment = a;
          free_items = row count memory size;
        })
        × (n ≤ size)
        × (size ≤ n + a)
        × (size % a ≡ 0)
        × (count * size ≤ memory_size)
        × (memory_size < count * size + size)
        × (s'.blocks ≡ s.blocks)
        × Placed memory (memory + memory_size) size (row count memory size)
  unfolding construct_static make_lock
  construct_static-Placed fuel memory n memory_size a alignment valid fits enough locked =
      let positive = valid_positive alignment valid in
      let (c, sized, holds, least, small, _) = calculate_item_size_lem n a s positive fits in
      let size = c * a in
      let count = memory_size / size in
      let divided = div-add-mod' memory_size size in
      let rest = mod-lt memory_size {m = size} (omega arith) in
      let room : count * size ≤ memory_size = omega arith in
      let short : memory_size < count * size + size = omega arith in
      let few = fuel_enough count size memory_size fuel (omega arith) room enough in
      let test : ((os.create_mutex s.kernel).0 == null) ≡ false = ground arith in
      (
        size,
        count,
        record {
          pool = record {
            lock = (os.create_mutex s.kernel).0;
            item_size = size;
            alignment = a;
            free_items = row count memory size;
          };
          kernel = (os.create_mutex s.kernel).1;
          blocks = s.blocks;
        },
        rw (valid, sized, push_region_lem count fuel memory memory_size size _ room short few)
            (rw test refl),
        refl,
        holds,
        small,
        mul-mod_left c a,
        room,
        short,
        refl,
        row-Placed count memory size (memory + memory_size) (omega arith),
      )

  -- The constructor of MemoryPool with a valid alignment, sizes that fit an `int` and memory from
  -- malloc, but without a mutex from the kernel, throws, and the memory that it has obtained stays
  -- allocated.
  pub construct_thrown :
      (new : Ptr) (n count a : ℕ) (alignment : ℤ)
      → calculate_valid_alignment alignment ≡ some (some a)
      → (n + a) * (count + 1) ≤ int_max
      → new ≢ null
      → (os.create_mutex s.kernel).0 ≡ null
      → (size : ℕ) × (s' : PoolState os.Kernel) × (construct os new (pos n) (pos count) alignment s
          ≡ ok (thrown mutex_failed) s')
        × (n ≤ size)
        × (s'.blocks new ≡ some (count * size))
  unfolding construct make_lock product
  construct_thrown new n count a alignment valid fits ne failed =
      let positive = valid_positive alignment valid in
      let (c, sized, holds, _, small, _) =
        calculate_item_size_lem n a s positive (fits_one (n + a) count fits) in
      let size = c * a in
      let bytes : leb (count * size) int_max ≡ true = fits_all (n + a) count size small fits in
      let test : (new == null) ≡ false = ground arith in
      let test' : ((os.create_mutex s.kernel).0 == null) ≡ true = ground arith in
      (
        size,
        record {
          pool = record s.pool { item_size = size; alignment = a; free_items = row count new size };
          kernel = (os.create_mutex s.kernel).1;
          blocks = write s.blocks new (count * size);
        },
        rw (valid, sized, bytes, test, push_items_lem) (rw test' refl),
        holds,
        write_self s.blocks new (count * size),
      )
