-- ===== src/Hash.antt =====
-- The tables keyed by C strings: `apr_hash_set` and `apr_hash_get` with `APR_HASH_KEY_STRING`, as
-- an association list. A key that is set again keeps its place.
pub mod Laws
use mod_parrot.Base.{Option, none, some, List, [], ◌∷◌, if◌then◌else◌}
use mod_parrot.CStr.{CStr, str_eq}

abbrev pub Hash : Type 0 → Type 0
Hash V = List (CStr × V)

module _ {V : Type 0} where
  unfoldable pub hash_get : CStr → Hash V → Option V
  hash_get k [] = none
  hash_get k ((j, v) ∷ m) = if str_eq j k then some v else hash_get k m

  unfoldable pub hash_set : CStr → V → Hash V → Hash V
  hash_set k v [] = (k, v) ∷ []
  hash_set k v ((j, w) ∷ m) = if str_eq j k then (k, v) ∷ m else (j, w) ∷ hash_set k v m
