-- ===== src/Hash/Laws.antt =====
-- The law of the string tables.
use mod_parrot.Base.{◌≡◌, refl, some, [], ◌∷◌, arith, if◌then◌else◌}
use mod_parrot.CStr.{CStr, str_eq}
use mod_parrot.CStr.Laws.{str_eq_iff, str_eq_refl}
use mod_parrot.Hash.{Hash, hash_get, hash_set}

module _ {V : Type 0} where
  pub get-set :
      (k j : CStr) (v : V) (m : Hash V)
      → hash_get j (hash_set k v m) ≡ (if str_eq k j then some v else hash_get j m)
  unfolding hash_get hash_set
  get-set k j v [] = refl
  get-set k j v ((i, w) ∷ m) =
      ground (arith, str_eq_iff k j, str_eq_iff i k, str_eq_iff i j, get-set k j v m)

  pub get-set_self : (k : CStr) (v : V) (m : Hash V) → hash_get k (hash_set k v m) ≡ some v
  get-set_self k v m = rw (get-set k k v m, str_eq_refl k)
