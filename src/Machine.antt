-- ===== src/Machine.antt =====
-- Commands of the C programs: a state, and four ways in which a run can end.
use freertos_addons.Prelude.{
  zero, suc, ◌+◌, ◌≡◌, refl, ◌==◌, if◌then◌else◌, ℤ, pos, negsuc, int_max,
}

pub data Run (S A : Type 0) : Type 0 where
  ok : A → S → Run S A
  -- undefined behaviour, a bad pointer or an `int` that overflows, or an assertion that fails
  fault : Run S A
  -- a wait that nothing ends
  blocked : Run S A
  out_of_fuel : Run S A

abbrev pub Cmd : Type 0 → Type 0 → Type 0
Cmd S A = S → Run S A

module _ {S A : Type 0} where
  abbrev pub pure : A → Cmd S A
  pure a s = ok a s

  abbrev pub failing : Cmd S A
  failing s = fault

  abbrev pub exhausted : Cmd S A
  exhausted s = out_of_fuel

module _ {S A B : Type 0} where
  abbrev pub and_then : Run S A → (A → Cmd S B) → Run S B
  and_then (ok a s) k = k a s
  and_then fault k = fault
  and_then blocked k = blocked
  and_then out_of_fuel k = out_of_fuel

  infixl 5 ◌>>=◌ ◌>>◌
  abbrev pub ◌>>=◌ : Cmd S A → (A → Cmd S B) → Cmd S B
  ◌>>=◌ m k s = and_then (m s) k

  abbrev pub ◌>>◌ : Cmd S A → Cmd S B → Cmd S B
  ◌>>◌ m k s = and_then (m s) (λ _. k)

-- `n++` and `n--` on an `int`; the overflow is undefined.
unfoldable pub increment : {S : Type 0} → ℤ → Cmd S ℤ
increment (pos n) = if n == int_max then failing else pure (pos (n + 1))
increment (negsuc zero) = pure (pos 0)
increment (negsuc (suc n)) = pure (negsuc n)

unfoldable pub decrement : {S : Type 0} → ℤ → Cmd S ℤ
decrement (pos zero) = pure (negsuc 0)
decrement (pos (suc n)) = pure (pos n)
decrement (negsuc n) = if n == int_max then failing else pure (negsuc (n + 1))

-- A sequence that returns: so does its first part, and then the second.
pub and_then-eq-ok :
    {S A B : Type 0} (r : Run S A) (k : A → Cmd S B) {b : B} {t : S}
    → and_then r k ≡ ok b t
    → (a : A) × (s : S) × (r ≡ ok a s) × (k a s ≡ ok b t)
and_then-eq-ok (ok a s) k e = (a, s, refl, e)
and_then-eq-ok fault k e = cc
and_then-eq-ok blocked k e = cc
and_then-eq-ok out_of_fuel k e = cc

pub ok_state : {S A : Type 0} {a b : A} {s t : S} → ok a s ≡ ok b t → s ≡ t
ok_state e = cc
