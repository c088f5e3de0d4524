-- ===== src/CStr.antt =====
-- C strings and the libc functions on them that the source calls. A string is the list of its
-- bytes, without the terminating NUL.
pub mod Laws
use Prim.Native.String.{String}
use Prim.Native.Char.{code}
use mod_parrot.Base.{
  ℕ, zero, suc, ◌+◌, ◌-◌, ◌*◌, Bool, true, false, ◌&&◌, Option, none, some, List, [], ◌∷◌, ◌==◌,
  leb, if◌then◌else◌,
}
use mod_parrot.Base.Int.{ℤ, pos, neg_ℤ}

abbrev pub CStr : Type 0
CStr = List ℕ

-- A literal of the source.
abbrev pub lit : String → CStr
lit String.[] = []
lit (String.◌∷◌ c s) = code c ∷ lit s

-- `!strcmp(s, t)`.
unfoldable pub str_eq : CStr → CStr → Bool
str_eq [] [] = true
str_eq [] (b ∷ t) = false
str_eq (a ∷ s) [] = false
str_eq (a ∷ s) (b ∷ t) = (a == b) && str_eq s t

-- `strrchr(s, c)`: the part of `s` from the last `c` on.
unfoldable pub strrchr : CStr → ℕ → Option CStr
strrchr [] c = none
strrchr (a ∷ s) c = elim (strrchr s c) [
  | some t ↦ some t
  | none ↦ if a == c then some (a ∷ s) else none
]

-- ASCII upper case to lower case, as in the C locale.
unfoldable pub to_lower : ℕ → ℕ
to_lower c = if leb b'A' c && leb c b'Z' then c + 32 else c

-- `!strncasecmp(s, t, n)`. A string that ends is compared by its NUL.
unfoldable pub strncase_eq : CStr → CStr → ℕ → Bool
unfolding to_lower
strncase_eq s t zero = true
strncase_eq [] [] (suc n) = true
strncase_eq [] (b ∷ t) (suc n) = false
strncase_eq (a ∷ s) [] (suc n) = false
strncase_eq (a ∷ s) (b ∷ t) (suc n) = (to_lower a == to_lower b) && strncase_eq s t n

is_space : ℕ → Bool
is_space c = if c == 32 then true else leb 9 c && leb c 13

is_digit : ℕ → Bool
is_digit c = leb b'0' c && leb c b'9'

digits_from : ℕ → CStr → ℕ
unfolding is_digit
digits_from acc [] = acc
digits_from acc (c ∷ s) = elim (is_digit c) [
  | true ↦ digits_from (acc * 10 + (c - b'0')) s
  | false ↦ acc
]

signed_from : CStr → ℤ
unfolding digits_from
signed_from [] = pos 0
signed_from (c ∷ s) =
    if c == b'-'
    then neg_ℤ (digits_from 0 s)
    else (if c == b'+' then pos (digits_from 0 s) else pos (digits_from 0 (c ∷ s)))

-- `atoi(s)`, for a value that fits an `int`.
unfoldable pub atoi : CStr → ℤ
unfolding is_space signed_from
atoi [] = pos 0
atoi (c ∷ s) = elim (is_space c) [ true ↦ atoi s | false ↦ signed_from (c ∷ s) ]
