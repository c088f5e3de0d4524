-- ===== src/Context/Slots.antt =====
-- The storage of a context pool. The array of src/context.c is made for elements of the size of a
-- `modparrot_context`, and `apr_array_push` and `apr_array_pop` keep to it; but each element is a
-- pointer, and `elts[i]` is read as the `i`-th pointer of the storage. What lies between two
-- elements is `NULL`, since the array is made of zeroed memory.
use mod_parrot.Base.{
  ℕ, zero, suc, ◌+◌, ◌*◌, ◌≡◌, refl, Option, none, some, List, [], ◌∷◌, ◌++◌, get_elem?, arith,
}
use mod_parrot.Context.{CtxId}

-- The pointers that fit behind the first one of an element: a `modparrot_context` has the size of 18
-- on a machine of 64 bits.
abbrev pub nulls : List (Option CtxId)
nulls =
    none ∷ none ∷ none ∷ none ∷ none ∷ none ∷ none ∷ none ∷ none ∷ none ∷ none ∷ none ∷ none ∷ none
    ∷ none ∷ none ∷ none ∷ []

abbrev pub slots : List CtxId → List (Option CtxId)
slots [] = []
slots (c ∷ cs) = some c ∷ (nulls ++ slots cs)

-- An array has room for one element at least.
abbrev pub storage : List CtxId → List (Option CtxId)
storage [] = none ∷ nulls
storage (c ∷ cs) = slots (c ∷ cs)

-- The next element lies 18 pointers further on.
far :
    (i : ℕ)
    → suc i * 18
      ≡ suc (
          suc (
            suc (
              suc (
                suc (
                  suc (
                    suc (
                      suc
                        (suc (suc (suc (suc (suc (suc (suc (suc (suc (suc (i * 18))))))))))))))))))
far i = omega arith

far_next :
    (i : ℕ)
    → suc i * 18 + 1
      ≡ suc (
          suc (
            suc (
              suc (
                suc (
                  suc (
                    suc (
                      suc (
                        suc
                          (suc (suc (suc (suc (suc (suc (suc (suc (suc (i * 18 + 1))))))))))))))))))
far_next i = omega arith

get_elem?-slots :
    (cs : List CtxId) (i : ℕ) (c : CtxId)
    → get_elem? cs i ≡ some c
    → (get_elem? (slots cs) (i * 18) ≡ some (some c))
      × (get_elem? (slots cs) (i * 18 + 1) ≡ some none)
get_elem?-slots [] i c e = ground arith
get_elem?-slots (d ∷ cs) zero c e = (ground arith, refl)
get_elem?-slots (d ∷ cs) (suc i) c e =
    let (here, next) = get_elem?-slots cs i c e in (rw (far i) here, rw (far_next i) next)

-- The `i`-th element of an array stands at 18 times `i` among the pointers, and a `NULL` behind it.
pub get_elem?-storage :
    (cs : List CtxId) (i : ℕ) (c : CtxId)
    → get_elem? cs i ≡ some c
    → (get_elem? (storage cs) (i * 18) ≡ some (some c))
      × (get_elem? (storage cs) (i * 18 + 1) ≡ some none)
get_elem?-storage [] i c e = ground arith
get_elem?-storage (d ∷ cs) i c e = get_elem?-slots (d ∷ cs) i c e
