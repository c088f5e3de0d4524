-- ===== src/Request/Bounds.antt =====
-- The buffer of `modparrot_request_read` (src/modparrot_io.c) is not overrun.
use mod_parrot.Base.{
  [], ℕ, zero, suc, ◌-◌, ◌≤◌, ◌≡◌, refl, ap, ◌∙◌, Bool, true, false, ◌||◌, Option, none, some, List,
  ◌++◌, ◌==◌, length, length-append, arith, if◌then◌else◌, Bool-cases, inl, inr,
}
use mod_parrot.Run.{ok, M, pure, and_then, and_then-ok, ◌>>=◌}
use mod_parrot.Request.{
  Brigade, Reply, received, minus_size, put_before, read_loop, modparrot_request_read,
}

minus_size-left : (len read : ℕ) → read ≤ len → minus_size len read ≡ len - read
minus_size-left len read fits = ground arith

module _ {S : Type 0} (get_brigade : ℕ → M S Reply) (flatten : ℕ → Brigade → List ℕ)
    (close_connection : M S (Unit {0})) (sentinel_eos : Bool)
    (limit : (len : ℕ) (bb : Brigade) → length (flatten len bb) ≤ len) where
  put_before-bounded :
      (read : List ℕ) (o : Option (List ℕ)) (len left : ℕ) (bytes : List ℕ)
      → length read ≤ len
      → left ≡ len - length read
      → ((more : List ℕ) → o ≡ some more → length more ≤ left)
      → put_before read o ≡ some bytes
      → length bytes ≤ len
  put_before-bounded read none len left bytes fits rest bound e = ground arith
  put_before-bounded read (some more) len left bytes fits rest bound e =
      let small = bound more refl in
      let count = length-append read more in
      let same : read ++ more ≡ bytes = ground arith in
      let size : length (read ++ more) ≡ length bytes = ap length same in
      omega (arith, small, count, size, fits, rest)

  -- The rest of a round.
  round-bounded :
      (stop : Bool) (rest : M S (Option (List ℕ))) (read : List ℕ) (len left : ℕ) (s t : S)
      (bytes : List ℕ)
      → length read ≤ len
      → left ≡ len - length read
      → ((u v : S) (more : List ℕ) → rest u ≡ ok (some more) v → length more ≤ left)
      → (if stop then pure (some read) else (rest >>= λ more. pure (put_before read more))) s
        ≡ ok (some bytes) t
      → length bytes ≤ len
  round-bounded true rest read len left s t bytes fits less bound e = ground arith
  round-bounded false rest read len left s t bytes fits less bound e =
      let (o, u, run, put) = and_then-ok (rest s) _ e in
      put_before-bounded read o len left bytes fits less
        (λ more some_more. bound s u more (run ∙ ap (λ p. ok p u) some_more)) (ground (arith, put))

  read_loop-bounded :
      (fuel len : ℕ) (s t : S) (bytes : List ℕ)
      → read_loop get_brigade flatten close_connection sentinel_eos fuel len s ≡ ok (some bytes) t
      → length bytes ≤ len
  unfolding read_loop
  read_loop-bounded zero len s t bytes e = ground arith
  read_loop-bounded (suc fuel) len s t bytes e =
      let (b, s1, got, e1) = and_then-ok (get_brigade len s) _ e in
      let (bb, s2, there, e2) =
        and_then-ok (received get_brigade flatten close_connection sentinel_eos b s1) _ e1 in
      let read = flatten len bb in
      let fits = limit len bb in
      let left = minus_size len (length read) in
      round-bounded ((left == 0) || bb.eos)
        (read_loop get_brigade flatten close_connection sentinel_eos fuel left) read len left s2 t
        bytes fits (minus_size-left len (length read) fits)
        (λ u v more run. read_loop-bounded fuel left u v more run) e2

  -- Whatever the filters deliver, what `modparrot_request_read` puts into the buffer is never more than
  -- the `len` bytes that it has room for, if `apr_brigade_flatten` never copies more than it is
  -- allowed.
  pub request_read-bounded :
      (creates : Bool) (fuel len : ℕ) (s t : S) (bytes : List ℕ)
      → modparrot_request_read get_brigade flatten close_connection sentinel_eos creates fuel len s
        ≡ ok (some bytes) t
      → length bytes ≤ len
  unfolding modparrot_request_read
  request_read-bounded creates fuel len s t bytes e = elim (Bool-cases (len == 0)) [
    | inl none_wanted ↦ ground arith
    | inr wanted ↦ elim (Bool-cases creates) [
      | inl can ↦ read_loop-bounded fuel len s t bytes (ground arith)
      | inr cannot ↦
          let closed : and_then (close_connection s) (λ a. pure (some [])) ≡ ok (some bytes) t =
            ground arith in
          let (a, u, run, rest) = and_then-ok (close_connection s) _ closed in ground (arith, rest)
    ]
  ]
