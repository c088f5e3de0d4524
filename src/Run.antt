-- ===== src/Run.antt =====
-- State passing with failure, for the functions that mutate shared structures.
-- `fault` is what C leaves undefined or aborts on: a dereference of NULL, a read outside an array,
-- a failed `assert`, the lock of a mutex that is not there. `exits` is a call of `exit`.
pub mod Returns
use mod_parrot.Base.{◌≡◌, refl, Option, none, some, List, ◌∷◌, arith}

pub data Run (S A : Type 0) : Type 0 where
  ok : A → S → Run S A
  fault : Run S A
  exits : Run S A

abbrev pub M : Type 0 → Type 0 → Type 0
M S A = S → Run S A

module _ {S A : Type 0} where
  abbrev pub pure : A → M S A
  pure a s = ok a s

  -- The state alone, after a run that returned.
  abbrev pub final : Run S A → Option S
  final (ok a s) = some s
  final fault = none
  final exits = none

  abbrev pub result : Run S A → Option A
  result (ok a s) = some a
  result fault = none
  result exits = none

  -- A pointer that is dereferenced.
  abbrev pub deref : Option A → M S A
  deref none s = fault
  deref (some a) s = ok a s

abbrev pub get : {S : Type 0} → M S S
get s = ok s s

abbrev pub put : {S : Type 0} → S → M S (Unit {0})
put t s = ok tt t

abbrev pub modify : {S : Type 0} → (S → S) → M S (Unit {0})
modify f s = ok tt (f s)

module _ {S A B : Type 0} where
  abbrev pub and_then : Run S A → (A → M S B) → Run S B
  and_then (ok a s) k = k a s
  and_then fault k = fault
  and_then exits k = exits

  infixl 5 ◌>>=◌ ◌>>◌
  abbrev pub ◌>>=◌ : M S A → (A → M S B) → M S B
  ◌>>=◌ m k s = and_then (m s) k

  abbrev pub ◌>>◌ : M S A → M S B → M S B
  ◌>>◌ m n s = and_then (m s) (λ _. n)

-- A run whose result is put in front of a list.
pub result-cons :
    {S A : Type 0} (m : Run S (List A)) (x : A) {xs : List A}
    → result m ≡ some xs
    → result (and_then m (λ ys. pure (x ∷ ys))) ≡ some (x ∷ xs)
result-cons (ok ys w) x e = ground arith
result-cons fault x e = cc
result-cons exits x e = cc

-- Inversion of a sequence that returned.
pub and_then-ok :
    {S A B : Type 0} (m : Run S A) (k : A → M S B) {b : B} {v : S}
    → and_then m k ≡ ok b v
    → (a : A) × (u : S) × (m ≡ ok a u) × (k a u ≡ ok b v)
and_then-ok (ok a u) k e = (a, u, refl, e)
and_then-ok fault k e = cc
and_then-ok exits k e = cc
