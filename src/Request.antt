-- ===== src/Request.antt =====
-- Reading the body of a request (src/modparrot_io.c, `modparrot_request_read`). Apache's input
-- filters, `apr_brigade_flatten`, the mark on a connection that it is to be closed and what the
-- sentinel of an empty brigade passes for are parameters.
pub mod Body
pub mod Bounds
use mod_parrot.Base.{
  ℕ, zero, suc, ◌+◌, ◌-◌, Bool, true, false, ◌||◌, Option, none, some, List, [], ◌∷◌, ◌++◌, ◌==◌,
  leb, length, if◌then◌else◌,
}
use mod_parrot.Run.{M, pure, ◌>>=◌, ◌>>◌}

-- A bucket brigade: the data of its buckets, and whether its last is EOS.
pub record Brigade : Type 0 where
  pub bytes : List ℕ
  pub eos : Bool

-- What `ap_get_brigade` did: an error, or success with a brigade that has no bucket, or with one
-- that has.
pub data Reply : Type 0 where
  failed empty : Reply
  filled : Brigade → Reply

-- `len -= read` on a 64-bit `apr_size_t`.
abbrev pub minus_size : ℕ → ℕ → ℕ
minus_size len read = if leb read len then len - read else len + 0x1_0000_0000_0000_0000 - read

abbrev pub put_before : List ℕ → Option (List ℕ) → Option (List ℕ)
put_before bytes none = none
put_before bytes (some more) = some (bytes ++ more)

-- `flatten` gives the bytes that are copied to the buffer, `read` of them; whether
-- `apr_brigade_flatten` fails is of no effect but for the log. `close_connection` sets the
-- connection's `keepalive` to `AP_CONN_CLOSE`. The last bucket of an empty brigade is its sentinel,
-- of which `sentinel_eos` says whether its memory passes for an EOS bucket.
module _ {S : Type 0} (get_brigade : ℕ → M S Reply) (flatten : ℕ → Brigade → List ℕ)
    (close_connection : M S (Unit {0})) (sentinel_eos : Bool) where
  abbrev pub empty_brigade : Brigade
  empty_brigade = record { bytes = []; eos = sentinel_eos }

  -- The brigade with which a round goes on: after a failure it has been destroyed, which empties it.
  unfoldable pub received : Reply → M S Brigade
  received failed = close_connection >> pure empty_brigade
  received empty = pure empty_brigade
  received (filled bb) = pure bb

  -- The loop, which fills the buffer: `none` when the fuel is used up.
  unfoldable pub read_loop : ℕ → ℕ → M S (Option (List ℕ))
  unfolding received
  read_loop zero len = pure none
  read_loop (suc fuel) len = do
    reply ← get_brigade len
    bb ← received reply
    let read = flatten len bb
    let left = minus_size len (length read)
    if (left == 0) || bb.eos
        then pure (some read)
        else (do more ← read_loop fuel left; pure (put_before read more))

  -- What the buffer holds in the end, `total` bytes. The flag is whether a brigade can be made.
  unfoldable pub modparrot_request_read : Bool → ℕ → ℕ → M S (Option (List ℕ))
  unfolding read_loop
  modparrot_request_read creates fuel len =
      if len == 0
      then pure (some [])
      else (if creates then read_loop fuel len else (close_connection >> pure (some [])))
