-- ===== src/Tests/Bodies.antt =====
-- A request's body at work: filters that deliver the bytes of a list, and filters that fail.
use mod_parrot.Base.{
  ℕ, zero, suc, ◌≤◌, ◌<◌, ◌≡◌, refl, ap, Bool, true, false, some, List, [], ◌∷◌, ◌++◌, length, take,
  drop, arith,
}
use mod_parrot.Run.{ok, M, pure}
use mod_parrot.Request.{Brigade, Reply, failed, filled, modparrot_request_read}
use mod_parrot.Request.Bounds.{request_read-bounded}
use mod_parrot.Request.Body.{Delivers, Flattens, request_read-take}

abbrev is_empty : List ℕ → Bool
is_empty [] = true
is_empty (x ∷ xs) = false

abbrev deliver : ℕ → M (List ℕ) Reply
deliver len s =
    ok (filled (record { bytes = take len s; eos = is_empty (drop len s) })) (drop len s)

abbrev copy : ℕ → Brigade → List ℕ
copy len b = take len b.bytes

length-take : (len : ℕ) (s : List ℕ) → length (take len s) ≤ len
length-take zero s = omega arith
length-take (suc len) [] = omega arith
length-take (suc len) (x ∷ s) = omega (arith, length-take len s)

take-drop : (len : ℕ) (s : List ℕ) → s ≡ take len s ++ drop len s
take-drop zero s = refl
take-drop (suc len) [] = refl
take-drop (suc len) (x ∷ s) = ap (λ l. x ∷ l) (take-drop len s)

empty_if : (s : List ℕ) → is_empty s ≡ true → s ≡ []
empty_if [] e = refl
empty_if (x ∷ s) e = cc

some_taken :
    (len : ℕ) (s : List ℕ) → is_empty (drop (suc len) s) ≡ false → 0 < length (take (suc len) s)
some_taken len [] e = cc
some_taken len (x ∷ s) e = omega arith

deliver-Delivers : Delivers deliver copy (λ s. s)
deliver-Delivers s zero wanted = absurd (omega arith)
deliver-Delivers s (suc len) wanted = (
  record { bytes = take (suc len) s; eos = is_empty (drop (suc len) s) },
  drop (suc len) s,
  refl,
  length-take (suc len) s,
  take-drop (suc len) s,
  empty_if (drop (suc len) s),
  some_taken len s,
)

take_all : (bs : List ℕ) (len : ℕ) → length bs ≤ len → take len bs ≡ bs
take_all [] zero fits = refl
take_all [] (suc len) fits = refl
take_all (x ∷ bs) zero fits = absurd (omega arith)
take_all (x ∷ bs) (suc len) fits = ap (λ l. x ∷ l) (take_all bs len (omega arith))

copy-Flattens : Flattens deliver copy (λ s. s)
copy-Flattens b len fits = take_all b.bytes len fits

request_read-take_example :
    (t : List ℕ) × (modparrot_request_read deliver copy
        (pure tt)
        false
        true
        3
        3
        (7 ∷ 8 ∷ 9 ∷ 10 ∷ [])
      ≡ ok (some (7 ∷ 8 ∷ 9 ∷ [])) t)
request_read-take_example =
    request_read-take deliver copy (λ s. s) deliver-Delivers copy-Flattens (pure tt) false 3 3
      (7 ∷ 8 ∷ 9 ∷ 10 ∷ []) (omega arith)

abbrev failing : ℕ → M (List ℕ) Reply
failing len s = ok failed s

copy-limit : (len : ℕ) (b : Brigade) → length (copy len b) ≤ len
copy-limit len b = length-take len b.bytes

two_bytes :
    modparrot_request_read deliver copy (pure tt) false true 2 2 (7 ∷ 8 ∷ 9 ∷ [])
    ≡ ok (some (7 ∷ 8 ∷ [])) (9 ∷ [])
unfolding modparrot_request_read
two_bytes = refl

request_read-bounded_example : length {A = ℕ} (7 ∷ 8 ∷ []) ≤ 2
request_read-bounded_example =
    request_read-bounded deliver copy (pure tt) false copy-limit true 2 2 (7 ∷ 8 ∷ 9 ∷ []) (9 ∷ [])
      (7 ∷ 8 ∷ []) two_bytes
