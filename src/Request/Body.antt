-- ===== src/Request/Body.antt =====
-- What `modparrot_request_read` reads of a request's body.
use mod_parrot.Base.{
  ℕ, zero, suc, ◌-◌, ◌≤◌, ◌<◌, ◌≡◌, refl, ap, sym, ◌∙◌, Bool, true, false, ◌||◌, some, ◌⊎◌, List,
  [], ◌∷◌, ◌++◌, ◌==◌, length, take, arith, if◌then◌else◌, Bool-cases, inl, inr,
}
use mathlib.Core.List.{append-nil}
use mod_parrot.Run.{Run, ok, M, pure, and_then}
use mod_parrot.Request.{
  Brigade, Reply, failed, empty, filled, minus_size, put_before, read_loop, modparrot_request_read,
}

take_append :
    (len : ℕ) (xs ys : List ℕ)
    → length xs ≤ len
    → take len (xs ++ ys) ≡ xs ++ take (len - length xs) ys
take_append len [] ys h = let same : len - 0 ≡ len = omega arith in ap (λ n. take n ys) (sym same)
take_append zero (x ∷ xs) ys h = absurd (omega arith)
take_append (suc len) (x ∷ xs) ys h =
    let same : suc len - suc (length xs) ≡ len - length xs = omega arith in
    let rest = take_append len xs ys (omega arith) in
    ap (λ zs. x ∷ zs) (rest ∙ ap (λ n. xs ++ take n ys) (sym same))

suc_not_zero : (len : ℕ) → (suc len == 0) ≡ false
suc_not_zero len = ground arith

if_run :
    {S A : Type 0} (c : Bool) (m n : S → A) (s : S)
    → (if c then m else n) s ≡ (if c then m s else n s)
if_run true m n s = refl
if_run false m n s = refl

nothing_left :
    (left : ℕ) (bs : List ℕ) (eos : Bool)
    → (eos ≡ true → bs ≡ [])
    → ((left == 0) || eos) ≡ true
    → take left bs ≡ []
nothing_left zero bs eos last stop = refl
nothing_left (suc left) bs eos last stop =
    let ended : bs ≡ [] = last (ground arith) in rw ended refl

module _ {S : Type 0} (get_brigade : ℕ → M S Reply) (flatten : ℕ → Brigade → List ℕ)
    (body : S → List ℕ) where
  -- What Apache's filters answer to a blocking read of at least one byte: data from the front of
  -- what is left of the body, no more than was asked for; with EOS, all that was left; without, at
  -- least one byte.
  abbrev pub Delivers : Type 0
  Delivers =
      (s : S) (len : ℕ)
      → 0 < len
      → (b : Brigade) × (t : S) × (get_brigade len s ≡ ok (filled b) t)
        × (length b.bytes ≤ len)
        × (body s ≡ b.bytes ++ body t)
        × (b.eos ≡ true → body t ≡ [])
        × (b.eos ≡ false → 0 < length b.bytes)

  -- `apr_brigade_flatten` copies all the data of a brigade that fits.
  abbrev pub Flattens : Type 0
  Flattens = (b : Brigade) (len : ℕ) → length b.bytes ≤ len → flatten len b ≡ b.bytes

  read_step :
      (close_connection : M S (Unit {0})) (sentinel_eos : Bool) (fuel len : ℕ) (s t : S)
      (b : Brigade)
      → get_brigade len s ≡ ok (filled b) t
      → flatten len b ≡ b.bytes
      → length b.bytes ≤ len
      → read_loop get_brigade flatten close_connection sentinel_eos (suc fuel) len s ≡ (
          if (len - length b.bytes == 0) || b.eos
          then ok (some b.bytes) t
          else and_then
              (read_loop get_brigade flatten close_connection sentinel_eos fuel
                (len - length b.bytes)
                t)
              (λ more. pure (put_before b.bytes more)))
  unfolding read_loop
  read_step close_connection sentinel_eos fuel len s t b got all fits =
      let size : minus_size len (length b.bytes) ≡ len - length b.bytes = ground arith in
      rw (got, all, size) (if_run ((len - length b.bytes == 0) || b.eos) (ok (some b.bytes)) _ t)

  module _ (delivers : Delivers) (flattens : Flattens) where
    whole_step :
        (left : ℕ) (b : Brigade) (t : S) {bs : List ℕ}
        → (b.eos ≡ true → body t ≡ [])
        → ((left == 0) || b.eos) ≡ true
        → bs ≡ b.bytes ++ take left (body t)
        → b.bytes ≡ bs
    whole_step left b t last stop taken =
        sym (append-nil b.bytes)
        ∙ ap (λ zs. b.bytes ++ zs) (sym (nothing_left left (body t) b.eos last stop))
        ∙ sym taken

    read_loop-take :
        (close_connection : M S (Unit {0})) (sentinel_eos : Bool) (fuel len : ℕ) (s : S)
        → 0 < len
        → len ≤ fuel
        → (t : S) × (read_loop get_brigade flatten close_connection sentinel_eos fuel len s
            ≡ ok (some (take len (body s))) t)
    unfolding read_loop
    read_loop-take close_connection sentinel_eos zero len s some_wanted enough =
        absurd (omega arith)
    read_loop-take close_connection sentinel_eos (suc fuel) len s some_wanted enough =
        let (b, t, got, fits, split, last, more) = delivers s len some_wanted in
        let all = flattens b len fits in
        let left = len - length b.bytes in
        let step = read_step close_connection sentinel_eos fuel len s t b got all fits in
        let taken : take len (body s) ≡ b.bytes ++ take left (body t) =
          ap (take len) split ∙ take_append len b.bytes (body t) fits in
        elim (Bool-cases ((left == 0) || b.eos)) [
          | inl stop ↦
              (t, step ∙ rw stop (ap (λ bs. ok (some bs) t) (whole_step left b t last stop taken)))
          | inr go ↦
              let (u, run) =
                read_loop-take close_connection sentinel_eos fuel left t (ground arith)
                  (ground (arith, more)) in
              (u, step ∙ rw (go, run) (ap (λ bs. ok (some bs) u) (sym taken)))
        ]

    -- If the filters deliver the body, `apr_brigade_flatten` copies what fits, a brigade can be made
    -- and the fuel is at least `len`: `modparrot_request_read` returns, and what it has read is the
    -- first `len` bytes of the body, or the whole body if that is shorter.
    pub request_read-take :
        (close_connection : M S (Unit {0})) (sentinel_eos : Bool) (fuel len : ℕ) (s : S)
        → len ≤ fuel
        → (t : S) × (modparrot_request_read get_brigade flatten close_connection sentinel_eos true
              fuel len s
            ≡ ok (some (take len (body s))) t)
    unfolding modparrot_request_read
    request_read-take close_connection sentinel_eos fuel zero s enough = (s, refl)
    request_read-take close_connection sentinel_eos fuel (suc len) s enough =
        rw (suc_not_zero len)
          (read_loop-take close_connection sentinel_eos fuel (suc len) s (omega arith) enough)

module _ {S : Type 0} (get_brigade : ℕ → M S Reply) (flatten : ℕ → Brigade → List ℕ)
    (close_connection : M S (Unit {0})) (sentinel_eos : Bool) where
  -- Filters that never give a bucket, whatever they are asked for and however often.
  abbrev pub GivesNothing : Type 0
  GivesNothing =
      (s : S) (len : ℕ)
      → (r : Reply) × (t : S) × (get_brigade len s ≡ ok r t) × ((r ≡ failed) ⊎ (r ≡ empty))

  abbrev pub Closes : Type 0
  Closes = (s : S) → (t : S) × (close_connection s ≡ ok tt t)

  -- The empty brigade with which the round goes on.
  abbrev no_bytes : Brigade
  no_bytes = record { bytes = []; eos = sentinel_eos }
