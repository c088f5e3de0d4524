-- ===== src/Run/Returns.antt =====
-- What is true of the result of every run that returns.
use mod_parrot.Base.{◌≡◌, arith}
use mod_parrot.Run.{ok, M, pure, and_then-ok, ◌>>=◌}

module _ {S A : Type 0} where
  abbrev pub Returns : (A → Type 0) → M S A → Type 0
  Returns P m = (w v : S) (a : A) → m w ≡ ok a v → P a

  -- No run returns.
  abbrev pub Never : M S A → Type 0
  Never m = Returns (λ a. ⊥) m

  pub Returns-pure : (P : A → Type 0) (b : A) → P b → Returns P (pure b)
  Returns-pure P b holds w v a e = ground (arith, holds)

pub Returns-bind :
    {S A B : Type 0} {P : B → Type 0} (m : M S A) (k : A → M S B)
    → ((a : A) → Returns P (k a))
    → Returns P (m >>= k)
Returns-bind m k rest w v b e = let (a, u, run, next) = and_then-ok (m w) k e in rest a u v b next

pub Never-bind : {S A B : Type 0} (m : M S A) (k : A → M S B) → Never m → Never (m >>= k)
Never-bind m k stops w v b e = let (a, u, run, next) = and_then-ok (m w) k e in stops w u a run
