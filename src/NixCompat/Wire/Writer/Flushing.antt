-- ===== src/NixCompat/Wire/Writer/Flushing.antt =====
-- The loop of `poll_flush` in nix-compat/src/wire/bytes/writer.rs.
use tvix.Prelude.{
  ℕ, zero, suc, ◌+◌, ◌^◌, ◌≤◌, ◌<◌, ◌≡◌, ◌≢◌, refl, ap, sym, subst, ◌∙◌, ◌++◌, none, some, Bytes,
  ◌==◌, ==_iff, ltb, lt→ltb, if◌then◌else◌, take, drop, arith, Bool-cases, inl, inr, Result, ok,
  err, append_assoc, append-nil,
}
use tvix.NixCompat.Nar.Writer.{to_le_bytes}
use tvix.NixCompat.Wire.{empty_bytes, padding_len}
use tvix.NixCompat.Wire.Writer.{
  Poll, pending, ready, WriteError, AsyncWrite, BytesPacketPosition, size, payload, padding,
  BytesWriter, Polled, written, poll_inner, write_padding, flush_inner, flush_at, flush_loop,
  from_inner, poll_flush,
}
use tvix.NixCompat.Wire.Writer.Position.{
  Sent, Fits, weight, Laws, Willing, Told, busy, failed, took, IsInner, inner-Told, padding_sent,
  padding_len-small, length_left,
}
use tvix.NixCompat.Wire.Writer.Rounds.{Kept, Kept-inner, OnMore, size_round}

module _ {W E : Type 0} (async : AsyncWrite W E) (received : W → Bytes) (laws : Laws async received)
    (base : Bytes) (len : ℕ) (small : len < 2 ^ 64) where
  abbrev KeptHere : Bytes → BytesWriter W → Type 0
  KeptHere p w = Kept async received laws base len small p w

  -- Where the loop ends: at the end of the packet, or where payload is missing.
  abbrev pub Settled : BytesPacketPosition → Type 0
  Settled (size pos) = ⊥
  Settled (payload pos) = len ≢ 0
  Settled (padding pos) = pos ≡ padding_len len

  abbrev pub Flushed : Bytes → Polled W E (Unit {0}) → Type 0
  Flushed p (none, v) = ⊥
  Flushed p (some pending, v) = KeptHere p v × ¬ Willing async received
  Flushed p (some (ready (err e)), v) = KeptHere p v × ¬ Willing async received × IsInner e
  Flushed p (some (ready (ok u)), v) = KeptHere p v × Settled v.state

  flush_kept :
      (p : Bytes) (w : BytesWriter W)
      → KeptHere p w
      → KeptHere p (record w { inner = (async.poll_flush w.inner).1 })
  flush_kept p w h =
      Kept-inner async received laws base len small p w (async.poll_flush w.inner).1 h
        (laws.flush_keeps w.inner)

  end_told :
      (p : Bytes) (w : BytesWriter W) (polled : Poll (Result E (Unit {0})))
      → (async.poll_flush w.inner).0 ≡ polled
      → KeptHere p w
      → Settled w.state
      → Flushed p (some (from_inner polled), record w { inner = (async.poll_flush w.inner).1 })
  end_told p w pending e h s = (flush_kept p w h, λ v. let e' = v.flushes w.inner in cc)
  end_told p w (ready (err x)) e h s = (flush_kept p w h, λ v. let e' = v.flushes w.inner in cc, tt)
  end_told p w (ready (ok u)) e h s = (flush_kept p w h, s)

  flush_end :
      (p : Bytes) (w : BytesWriter W)
      → KeptHere p w
      → Settled w.state
      → Flushed p (flush_inner async w)
  flush_end p w h s = end_told p w (async.poll_flush w.inner).0 refl h s

  padding_kept :
      (p : Bytes) (w : BytesWriter W) (pos n : ℕ) (i : W)
      → KeptHere p w
      → w.state ≡ padding pos
      → pos + n ≤ padding_len len
      → received i ≡ received w.inner ++ take n (drop pos (take (padding_len len) empty_bytes))
      → KeptHere p (record w { inner = i; state = padding (pos + n) })
  padding_kept p w pos n i h at le e =
      let (whole, before_end) = subst (λ st. Fits len st p) at h.fits in
      let before : received w.inner ≡ base ++ Sent len (padding pos) p =
        h.sent ∙ ap (λ st. base ++ Sent len st p) at in
      record {
        same = h.same;
        sent =
            e
            ∙ ap (λ t. t ++ take n (drop pos (take (padding_len len) empty_bytes))) before
            ∙ append_assoc base (Sent len (padding pos) p) _
            ∙ ap (λ t. base ++ t) (padding_sent len p pos n small le);
        fits = (whole, le);
      }

  padding-Told :
      (p : Bytes) (w : BytesWriter W) (pos : ℕ) (again : BytesWriter W → Polled W E (Unit {0}))
      (r : Poll (Result (WriteError E) ℕ) × W)
      → KeptHere p w
      → w.state ≡ padding pos
      → pos < padding_len len
      → OnMore async received laws base len small (Flushed p) p again (weight len (padding pos))
      → Told async received (drop pos (take (padding_len len) empty_bytes)) w.inner r
      → Flushed p (written w (λ n v. again (record v { state = padding (pos + n) })) r)
  padding-Told p w pos again (_, _) h at below on_more (busy i keeps not) = (
    Kept-inner async received laws base len small p w i h keeps,
    not (omega (arith, length_left len pos small (omega arith))),
  )
  padding-Told p w pos again (_, _) h at below on_more (failed e i known keeps not) = (
    Kept-inner async received laws base len small p w i h keeps,
    not (omega (arith, length_left len pos small (omega arith))),
    known,
  )
  padding-Told p w pos again (_, _) h at below on_more (took n i some_taken fits writes) =
      let within_field : pos + n ≤ padding_len len =
        omega (arith, fits, length_left len pos small (omega arith)) in
      on_more (record w { inner = i; state = padding (pos + n) })
        (padding_kept p w pos n i h at within_field writes) (omega arith)

  padding_round :
      (p : Bytes) (w : BytesWriter W) (pos : ℕ) (again : BytesWriter W → Polled W E (Unit {0}))
      → KeptHere p w
      → w.state ≡ padding pos
      → OnMore async received laws base len small (Flushed p) p again (weight len (padding pos))
      → Flushed p (write_padding async w pos again)
  padding_round p w pos again h at on_more =
      let (whole, within_field) = subst (λ st. Fits len st p) at h.fits in
      let step : ℕ → Polled W E (Unit {0}) = λ l.
        if pos == padding_len l
        then flush_inner async w
        else if ltb pos (padding_len l)
        then written w (λ n v. again (record v { state = padding (pos + n) }))
            (poll_inner async (drop pos (take (padding_len l) empty_bytes)) w.inner)
        else (none, w) in
      subst (λ l. Flushed p (step l)) (sym h.same)
        (elim (Bool-cases (pos == padding_len len)) [
          | inl at_end ↦
              rw at_end
                (flush_end p w h (subst Settled (sym at) ((==_iff pos (padding_len len)).0 at_end)))
          | inr before_end ↦
              let below : pos < padding_len len = ground arith in
              rw (before_end, lt→ltb pos (padding_len len) below)
                (padding-Told p w pos again
                  (poll_inner async (drop pos (take (padding_len len) empty_bytes)) w.inner) h at
                  below on_more
                  (inner-Told async received (drop pos (take (padding_len len) empty_bytes)) w.inner
                    laws))
        ])

  empty_kept :
      (p : Bytes) (w : BytesWriter W) (pos : ℕ)
      → KeptHere p w
      → w.state ≡ payload pos
      → len ≡ 0
      → KeptHere p (record w { state = padding 0 })
  empty_kept p w pos h at none_wanted =
      let (here, below, only_empty) = subst (λ st. Fits len st p) at h.fits in
      record {
        same = h.same;
        sent =
            h.sent
            ∙ ap (λ st. base ++ Sent len st p) at
            ∙ ap (λ t. base ++ (to_le_bytes len ++ t)) (sym (append-nil p));
        fits = (omega (arith, here), omega arith);
      }

  flush_at_lem :
      (st : BytesPacketPosition) (p : Bytes) (w : BytesWriter W) (rounds : ℕ)
      (again : BytesWriter W → Polled W E (Unit {0}))
      → KeptHere p w
      → w.state ≡ st
      → weight len st ≤ suc rounds
      → ((v : BytesWriter W) → KeptHere p v → weight len v.state ≤ rounds → Flushed p (again v))
      → Flushed p (flush_at async w again st)
  flush_at_lem (size pos) p w rounds again h at le more =
      size_round async received laws base len small (Flushed p) p w pos again h at
        (λ v k not. (k, not)) (λ v e k not known. (k, not, known))
        (λ v k lt. more v k (omega arith))
  flush_at_lem (payload pos) p w rounds again h at le more =
      elim (Bool-cases (w.payload_len == 0)) [
        | inl none_wanted ↦
            let zero_len : len ≡ 0 = sym h.same ∙ (==_iff w.payload_len 0).0 none_wanted in
            rw none_wanted (
              more (record w { state = padding 0 }) (empty_kept p w pos h at zero_len)
                (omega (arith, padding_len-small len small)))
        | inr some_wanted ↦ rw some_wanted (
            flush_end p w h (
              subst Settled (sym at) (λ e. let is = (==_iff w.payload_len 0).1 (h.same ∙ e) in cc)))
      ]
  flush_at_lem (padding pos) p w rounds again h at le more =
      padding_round p w pos again h at (λ v k lt. more v k (omega arith))

  flush_loop_lem :
      (rounds : ℕ) (p : Bytes) (w : BytesWriter W)
      → KeptHere p w
      → weight len w.state ≤ rounds
      → Flushed p (flush_loop async rounds w)
  unfolding flush_loop
  flush_loop_lem zero p w h le = absurd (no_rounds w.state le)
    where
      no_rounds : (st : BytesPacketPosition) → weight len st ≤ 0 → ⊥
      no_rounds (size pos) le = omega arith
      no_rounds (payload pos) le = omega arith
      no_rounds (padding pos) le = omega arith
  flush_loop_lem (suc rounds) p w h le =
      flush_at_lem w.state p w rounds (flush_loop async rounds) h refl le
        (λ v k lt. flush_loop_lem rounds p v k lt)

  pub weight-le : (st : BytesPacketPosition) → weight len st ≤ 17
  weight-le (size pos) = omega arith
  weight-le (payload pos) = omega arith
  weight-le (padding pos) = omega (arith, padding_len-small len small)

  pub poll_flush-Flushed :
      (p : Bytes) (w : BytesWriter W) → KeptHere p w → Flushed p (poll_flush async w)
  unfolding poll_flush
  poll_flush-Flushed p w h = flush_loop_lem 17 p w h (weight-le w.state)
