-- ===== src/NixCompat/Wire/Writer.antt =====
-- nix-compat/src/wire/bytes/writer.rs: a writer of one byte string, over a writer that may be busy, accept
-- a part or fail. The rounds of a loop are counted down; none stands for a panic, or for rounds that ran
-- out.
pub mod Position
pub mod Rounds
pub mod Flushing
pub mod Writes
pub mod Polls
use tvix.Prelude.{
  ℕ, zero, suc, ◌+◌, ◌-◌, ◌%◌, ◌^◌, Bool, true, false, Option, none, some, Bytes, ◌==◌, ltb,
  if◌then◌else◌, length, take, drop, Result, ok, err,
}
use tvix.NixCompat.Nar.Writer.{to_le_bytes}
use tvix.NixCompat.Wire.{len_size, empty_bytes, padding_len}

pub data Poll {ℓ} (A : Type ℓ) : Type ℓ where
  pending : Poll A
  ready : A → Poll A

pub data WriteError (E : Type 0) : Type 0 where
  inner_error : E → WriteError E
  write_zero excess_bytes unclean_shutdown : WriteError E

-- What the writer uses of `AsyncWrite`.
pub record AsyncWrite (W E : Type 0) : Type 0 where
  pub poll_write : Bytes → W → Poll (Result E ℕ) × W
  pub poll_flush : W → Poll (Result E (Unit {0})) × W
  pub poll_shutdown : W → Poll (Result E (Unit {0})) × W

pub data BytesPacketPosition : Type 0 where
  size : ℕ → BytesPacketPosition
  payload : ℕ → BytesPacketPosition
  padding : ℕ → BytesPacketPosition

pub record BytesWriter (W : Type 0) : Type 0 where
  pub inner : W
  pub payload_len : ℕ
  pub state : BytesPacketPosition

-- What a poll gives, with the writer after it.
abbrev pub Polled : Type 0 → Type 0 → Type 0 → Type 0
Polled W E A = Option (Poll (Result (WriteError E) A)) × BytesWriter W

abbrev pub ensure_nonzero_bytes_written : {E : Type 0} → ℕ → Result (WriteError E) ℕ
ensure_nonzero_bytes_written n = if n == 0 then err write_zero else ok n

-- `ensure_nonzero_bytes_written` of what the writer underneath accepted.
abbrev pub accepted : {E : Type 0} → Poll (Result E ℕ) → Poll (Result (WriteError E) ℕ)
accepted pending = pending
accepted (ready (err e)) = ready (err (inner_error e))
accepted (ready (ok n)) = ready (ensure_nonzero_bytes_written n)

-- The error of the writer underneath.
abbrev pub from_inner : {E A : Type 0} → Poll (Result E A) → Poll (Result (WriteError E) A)
from_inner pending = pending
from_inner (ready (err e)) = ready (err (inner_error e))
from_inner (ready (ok a)) = ready (ok a)

abbrev pub size_after : ℕ → BytesPacketPosition
size_after new_pos = if new_pos == len_size then payload 0 else size new_pos

abbrev pub payload_after : ℕ → ℕ → BytesPacketPosition
payload_after payload_len new_pos = if new_pos == payload_len then padding 0 else payload new_pos

abbrev pub new : {W : Type 0} → W → ℕ → BytesWriter W
new w payload_len = record { inner = w; payload_len = payload_len; state = size 0 }

module _ {W E A : Type 0} where
  -- A write of a field: `ready!(…)?`, and then the rest with the number of bytes.
  abbrev pub written :
      BytesWriter W
      → (ℕ → BytesWriter W → Polled W E A)
      → Poll (Result (WriteError E) ℕ) × W
      → Polled W E A
  written w rest (pending, i) = (some pending, record w { inner = i })
  written w rest (ready (err e), i) = (some (ready (err e)), record w { inner = i })
  written w rest (ready (ok n), i) = rest n (record w { inner = i })

module _ {W E : Type 0} (async : AsyncWrite W E) where
  abbrev pub poll_inner : Bytes → W → Poll (Result (WriteError E) ℕ) × W
  poll_inner buf i = let (polled, i') = async.poll_write buf i in (accepted polled, i')

  -- The branch of the size field in both loops, which then go on.
  abbrev pub write_size :
      {A : Type 0} → BytesWriter W → ℕ → (BytesWriter W → Polled W E A) → Polled W E A
  write_size w pos again =
      if ltb pos len_size
      then written w (λ n w'. again (record w' { state = size_after (pos + n) }))
          (poll_inner (drop pos (to_le_bytes w.payload_len)) w.inner)
      else (none, w)

  abbrev pub write_payload : Bytes → BytesWriter W → ℕ → Polled W E ℕ
  write_payload buf w pos =
      if ltb w.payload_len ((pos + length buf) % 2 ^ 64)
      then (some (ready (err excess_bytes)), w)
      else written w
          (λ n w'.
            (some (ready (ok n)), record w' { state = payload_after w.payload_len (pos + n) }))
          (poll_inner buf w.inner)

  abbrev pub write_at :
      Bytes → BytesWriter W → (BytesWriter W → Polled W E ℕ) → BytesPacketPosition → Polled W E ℕ
  write_at buf w again (size pos) = write_size w pos again
  write_at buf w again (payload pos) = write_payload buf w pos
  write_at buf w again (padding pos) = (some (ready (err excess_bytes)), w)

  unfoldable pub write_loop : ℕ → Bytes → BytesWriter W → Polled W E ℕ
  write_loop zero buf w = (none, w)
  write_loop (suc rounds) buf w = write_at buf w (write_loop rounds buf) w.state

  -- The size field takes eight rounds at most, the change to the padding one, the padding seven, and the
  -- end of the loop one.
  abbrev pub max_rounds : ℕ
  max_rounds = 17

  unfoldable pub poll_write : Bytes → BytesWriter W → Polled W E ℕ
  poll_write buf w = write_loop max_rounds buf w

  -- Behind the loop of `poll_flush`.
  abbrev pub flush_inner : BytesWriter W → Polled W E (Unit {0})
  flush_inner w =
      let (polled, i) = async.poll_flush w.inner in
      (some (from_inner polled), record w { inner = i })

  abbrev pub write_padding :
      BytesWriter W → ℕ → (BytesWriter W → Polled W E (Unit {0})) → Polled W E (Unit {0})
  write_padding w pos again =
      let total = padding_len w.payload_len in
      if pos == total
      then flush_inner w
      else if ltb pos total
      then written w (λ n w'. again (record w' { state = padding (pos + n) }))
          (poll_inner (drop pos (take total empty_bytes)) w.inner)
      else (none, w)

  abbrev pub flush_at :
      BytesWriter W
      → (BytesWriter W → Polled W E (Unit {0}))
      → BytesPacketPosition
      → Polled W E (Unit {0})
  flush_at w again (size pos) = write_size w pos again
  flush_at w again (payload pos) =
      let rest = again (record w { state = padding 0 }) in
      if w.payload_len == 0 then rest else flush_inner w
  flush_at w again (padding pos) = write_padding w pos again

  unfoldable pub flush_loop : ℕ → BytesWriter W → Polled W E (Unit {0})
  flush_loop zero w = (none, w)
  flush_loop (suc rounds) w = flush_at w (flush_loop rounds) w.state

  unfoldable pub poll_flush : BytesWriter W → Polled W E (Unit {0})
  poll_flush w = flush_loop max_rounds w

  abbrev pub is_complete : ℕ → BytesPacketPosition → Bool
  is_complete payload_len (padding pos) = padding_len payload_len == pos
  is_complete payload_len (size pos) = false
  is_complete payload_len (payload pos) = false

  -- The result of an unclean shutdown, where the writer underneath was shut down.
  abbrev pub unclean :
      Poll (Result (WriteError E) (Unit {0})) → Poll (Result (WriteError E) (Unit {0}))
  unclean pending = pending
  unclean (ready (err e)) = ready (err e)
  unclean (ready (ok u)) = ready (err unclean_shutdown)

  abbrev pub shutdown_inner : BytesWriter W → Polled W E (Unit {0})
  shutdown_inner w =
      let (polled, i) = async.poll_shutdown w.inner in
      (
        some (
            if is_complete w.payload_len w.state
            then from_inner polled
            else unclean (from_inner polled)),
        record w { inner = i },
      )

  abbrev pub shutdown_after : Polled W E (Unit {0}) → Polled W E (Unit {0})
  shutdown_after (none, w) = (none, w)
  shutdown_after (some pending, w) = (some pending, w)
  shutdown_after (some (ready (err e)), w) = (some (ready (err e)), w)
  shutdown_after (some (ready (ok u)), w) = shutdown_inner w

  unfoldable pub poll_shutdown : BytesWriter W → Polled W E (Unit {0})
  poll_shutdown w = shutdown_after (poll_flush w)
