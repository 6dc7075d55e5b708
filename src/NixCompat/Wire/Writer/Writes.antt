-- ===== src/NixCompat/Wire/Writer/Writes.antt =====
-- `poll_write` of nix-compat/src/wire/bytes/writer.rs.
use tvix.Prelude.{
  ℕ, zero, suc, ◌+◌, ◌%◌, ◌^◌, ◌≤◌, ◌<◌, ◌≡◌, refl, ap, sym, subst, ◌∙◌, false, List, [], ◌∷◌, ◌++◌,
  none, some, Bytes, ltb, ltb→lt, length, take, arith, Bool-cases, ◌⊎◌, inl, inr, Result, ok, err,
  append_assoc,
}
use tvix.NixCompat.Nar.Writer.{to_le_bytes}
use tvix.NixCompat.Wire.Writer.{
  Poll, pending, ready, WriteError, inner_error, write_zero, excess_bytes, unclean_shutdown,
  AsyncWrite, BytesPacketPosition, size, payload, padding, BytesWriter, Polled, payload_after,
  written, poll_inner, write_payload, write_at, write_loop, poll_write,
}
use tvix.NixCompat.Wire.Writer.Position.{
  Sent, Fits, weight, Laws, Told, busy, failed, took, Holds, IsInner, inner-Told, payload-Fits,
}
use tvix.NixCompat.Wire.Writer.Rounds.{Kept-inner, size_round}
use tvix.NixCompat.Wire.Writer.Flushing.{weight-le}

length-take {ℓ} : {A : Type ℓ} (n : ℕ) (xs : List A) → n ≤ length xs → length (take n xs) ≡ n
length-take zero xs h = refl
length-take (suc n) [] h = absurd (omega arith)
length-take (suc n) (x ∷ xs) h = ap suc (length-take n xs (omega arith))

not-ltb : (a b : ℕ) → ltb a b ≡ false → b ≤ a
not-ltb a b h = ground arith

module _ {W E : Type 0} (async : AsyncWrite W E) (received : W → Bytes) (laws : Laws async received)
    (base : Bytes) (len : ℕ) (small : len < 2 ^ 64) where
  abbrev Kept : Bytes → BytesWriter W → Type 0
  Kept p w = Holds async received base len p w

  -- What a write gives, where the packet of some payload is underway.
  abbrev pub Wrote : Bytes → Bytes → Polled W E ℕ → Type 0
  Wrote p buf (none, v) = ⊥
  Wrote p buf (some pending, v) = Kept p v
  Wrote p buf (some (ready (err (inner_error e))), v) = Kept p v
  Wrote p buf (some (ready (err write_zero)), v) = Kept p v
  Wrote p buf (some (ready (err excess_bytes)), v) =
      Kept p v × ((len < length p + length buf) ⊎ (length p ≡ len))
  Wrote p buf (some (ready (err unclean_shutdown)), v) = ⊥
  Wrote p buf (some (ready (ok n)), v) = (1 ≤ n) × (n ≤ length buf) × Kept (p ++ take n buf) v

  payload-Kept :
      (p buf : Bytes) (w : BytesWriter W) (pos n : ℕ) (i : W)
      → Kept p w
      → w.state ≡ payload pos
      → pos + n ≤ len
      → 1 ≤ n
      → n ≤ length buf
      → received i ≡ received w.inner ++ take n buf
      → Kept
          (p ++ take n buf)
          (record w { inner = i; state = payload_after w.payload_len (pos + n) })
  payload-Kept p buf w pos n i h at le some_taken fits e =
      let (here, below, only_empty) = subst (λ t. Fits len t p) at h.fits in
      let taken = length-take n buf fits in
      let (still, sent) =
        payload-Fits len p (take n buf) (pos + n) (omega (arith, here, taken)) le
          (omega (arith, taken)) in
      let before : received w.inner ≡ base ++ (to_le_bytes len ++ p) =
        h.sent ∙ ap (λ t. base ++ Sent len t p) at in
      let after : received i ≡ base ++ Sent len (payload_after len (pos + n)) (p ++ take n buf) =
        e
        ∙ ap (λ t. t ++ take n buf) before
        ∙ append_assoc base (to_le_bytes len ++ p) (take n buf)
        ∙ ap (λ t. base ++ t) (sym sent) in
      record {
        same = h.same;
        sent =
            after
            ∙ ap (λ l. base ++ Sent len (payload_after l (pos + n)) (p ++ take n buf)) (sym h.same);
        fits =
            subst (λ l. Fits len (payload_after l (pos + n)) (p ++ take n buf)) (sym h.same) still;
      }

  inner-Wrote :
      (p buf : Bytes) (e : WriteError E) (v : BytesWriter W)
      → IsInner e
      → Kept p v
      → Wrote p buf (some (ready (err e)), v)
  inner-Wrote p buf (inner_error e) v known k = k
  inner-Wrote p buf write_zero v known k = k
  inner-Wrote p buf excess_bytes v known k = absurd known
  inner-Wrote p buf unclean_shutdown v known k = absurd known

  paid :
      (p buf : Bytes) (w : BytesWriter W) (pos : ℕ) (r : Poll (Result (WriteError E) ℕ) × W)
      → Kept p w
      → w.state ≡ payload pos
      → pos + length buf ≤ len
      → Told async received buf w.inner r
      → Wrote p buf (
          written w
            (λ n v.
              (some (ready (ok n)), record v { state = payload_after w.payload_len (pos + n) }))
            r)
  paid p buf w pos (_, _) h at le (busy i keeps not) =
      Kept-inner async received laws base len small p w i h keeps
  paid p buf w pos (_, _) h at le (failed (inner_error e) i known keeps not) =
      Kept-inner async received laws base len small p w i h keeps
  paid p buf w pos (_, _) h at le (failed write_zero i known keeps not) =
      Kept-inner async received laws base len small p w i h keeps
  paid p buf w pos (_, _) h at le (failed excess_bytes i known keeps not) = absurd known
  paid p buf w pos (_, _) h at le (failed unclean_shutdown i known keeps not) = absurd known
  paid p buf w pos (_, _) h at le (took n i some_taken fits writes) =
      (some_taken, fits, payload-Kept p buf w pos n i h at (omega arith) some_taken fits writes)

  payload_told :
      (p buf : Bytes) (w : BytesWriter W) (pos : ℕ)
      → Kept p w
      → w.state ≡ payload pos
      → len + length buf < 2 ^ 64
      → Wrote p buf (write_payload async buf w pos)
  payload_told p buf w pos h at fits64 =
      let (here, below, only_empty) = subst (λ t. Fits len t p) at h.fits in
      elim (Bool-cases (ltb w.payload_len ((pos + length buf) % 2 ^ 64))) [
        | inl excess ↦
            let more : w.payload_len < (pos + length buf) % 2 ^ 64 = ltb→lt _ _ excess in
            rw excess (h, inl (omega (arith, h.same, here)))
        | inr fits ↦
            let le : pos + length buf ≤ len = omega (arith, not-ltb _ _ fits, h.same) in
            rw fits (
              paid p buf w pos (poll_inner async buf w.inner) h at le
                (inner-Told async received buf w.inner laws))
      ]

  write_at_lem :
      (st : BytesPacketPosition) (p buf : Bytes) (w : BytesWriter W) (rounds : ℕ)
      (again : BytesWriter W → Polled W E ℕ)
      → Kept p w
      → w.state ≡ st
      → len + length buf < 2 ^ 64
      → weight len st ≤ suc rounds
      → ((v : BytesWriter W) → Kept p v → weight len v.state ≤ rounds → Wrote p buf (again v))
      → Wrote p buf (write_at async buf w again st)
  write_at_lem (size pos) p buf w rounds again h at fits64 le more =
      size_round async received laws base len small (Wrote p buf) p w pos again h at (λ v k not. k)
        (λ v e k not known. inner-Wrote p buf e v known k) (λ v k lt. more v k (omega arith))
  write_at_lem (payload pos) p buf w rounds again h at fits64 le more =
      payload_told p buf w pos h at fits64
  write_at_lem (padding pos) p buf w rounds again h at fits64 le more =
      let (whole, before_end) = subst (λ t. Fits len t p) at h.fits in (h, inr whole)

  write_loop_lem :
      (rounds : ℕ) (p buf : Bytes) (w : BytesWriter W)
      → Kept p w
      → len + length buf < 2 ^ 64
      → weight len w.state ≤ rounds
      → Wrote p buf (write_loop async rounds buf w)
  unfolding write_loop
  write_loop_lem zero p buf w h fits64 le = absurd (no_rounds w.state le)
    where
      no_rounds : (st : BytesPacketPosition) → weight len st ≤ 0 → ⊥
      no_rounds (size pos) le = omega arith
      no_rounds (payload pos) le = omega arith
      no_rounds (padding pos) le = omega arith
  write_loop_lem (suc rounds) p buf w h fits64 le =
      write_at_lem w.state p buf w rounds (write_loop async rounds buf) h refl fits64 le
        (λ v k lt. write_loop_lem rounds p buf v k fits64 lt)

  -- Where the packet of some payload is underway, over a writer that keeps what `AsyncWrite` documents, and
  -- the length of the payload and that of the buffer make less than 2 ^ 64 together, `poll_write` ends
  -- without a panic. When it accepts bytes, it is one or more of the buffer from its start, and the packet
  -- of the payload with these is underway; when it does not, that of the same payload is: everything that
  -- was received is a beginning of one packet. Excess bytes are reported only if the buffer does not fit,
  -- or the payload was written in full.
  pub poll_write-Wrote :
      (p buf : Bytes) (w : BytesWriter W)
      → Kept p w
      → len + length buf < 2 ^ 64
      → Wrote p buf (poll_write async buf w)
  unfolding poll_write
  poll_write-Wrote p buf w h fits64 =
      write_loop_lem 17 p buf w h fits64 (weight-le async received laws base len small w.state)
