-- ===== src/NixCompat/Wire/Writer/Rounds.antt =====
-- The rounds of the loops of nix-compat/src/wire/bytes/writer.rs.
use tvix.Prelude.{
  ℕ, suc, ◌+◌, ◌-◌, ◌^◌, ◌≤◌, ◌<◌, ◌≡◌, ap, sym, subst, ◌∙◌, ◌++◌, none, some, Bytes, lt→ltb,
  if◌then◌else◌, take, drop, arith, Result, err, append_assoc,
}
use tvix.NixCompat.Nar.Writer.{to_le_bytes}
use tvix.NixCompat.Wire.Writer.{
  Poll, pending, ready, WriteError, AsyncWrite, size, BytesWriter, Polled, size_after, written,
  poll_inner, write_size,
}
use tvix.NixCompat.Wire.Writer.Position.{
  Sent, Fits, weight, Laws, Willing, Told, busy, failed, took, Holds, IsInner, inner-Told,
  size-Fits, size-weight, length_field,
}

module _ {W E : Type 0} (async : AsyncWrite W E) (received : W → Bytes) (laws : Laws async received)
    (base : Bytes) (len : ℕ) (small : len < 2 ^ 64) where
  abbrev pub Kept : Bytes → BytesWriter W → Type 0
  Kept p w = Holds async received base len p w

  -- The state of the writer underneath changed, and it received nothing.
  pub Kept-inner :
      (p : Bytes) (w : BytesWriter W) (i : W)
      → Kept p w
      → received i ≡ received w.inner
      → Kept p (record w { inner = i })
  Kept-inner p w i h e = record { same = h.same; sent = e ∙ h.sent; fits = h.fits }

  size-Kept :
      (p : Bytes) (w : BytesWriter W) (pos n : ℕ) (i : W)
      → Kept p w
      → w.state ≡ size pos
      → n ≤ 8 - pos
      → received i ≡ received w.inner ++ take n (drop pos (to_le_bytes len))
      → Kept p (record w { inner = i; state = size_after (pos + n) })
  size-Kept p w pos n i h at le e =
      let (below, nothing) = subst (λ st. Fits len st p) at h.fits in
      let (fits, sent) = size-Fits len pos n (omega arith) in
      let before : received w.inner ≡ base ++ take pos (to_le_bytes len) =
        h.sent ∙ ap (λ st. base ++ Sent len st p) at in
      record {
        same = h.same;
        sent =
            e
            ∙ ap (λ t. t ++ take n (drop pos (to_le_bytes len))) before
            ∙ append_assoc base (take pos (to_le_bytes len)) _
            ∙ ap (λ t. base ++ t) (sym sent)
            ∙ ap (λ t. base ++ Sent len (size_after (pos + n)) t) (sym nothing);
        fits = subst (λ t. Fits len (size_after (pos + n)) t) (sym nothing) fits;
      }

  -- What a predicate on results has to hold of, for the three ends of a round.
  abbrev pub OnPending : {A : Type 0} → (Polled W E A → Type 0) → Bytes → Type 0
  OnPending Q p = (v : BytesWriter W) → Kept p v → ¬ Willing async received → Q (some pending, v)

  abbrev pub OnError : {A : Type 0} → (Polled W E A → Type 0) → Bytes → Type 0
  OnError Q p =
      (v : BytesWriter W) (e : WriteError E)
      → Kept p v
      → ¬ Willing async received
      → IsInner e
      → Q (some (ready (err e)), v)

  abbrev pub OnMore :
      {A : Type 0} → (Polled W E A → Type 0) → Bytes → (BytesWriter W → Polled W E A) → ℕ → Type 0
  OnMore Q p again n = (v : BytesWriter W) → Kept p v → suc (weight len v.state) ≤ n → Q (again v)

  module _ {A : Type 0} (Q : Polled W E A → Type 0) where
    size_told :
        (p : Bytes) (w : BytesWriter W) (pos : ℕ) (again : BytesWriter W → Polled W E A)
        (r : Poll (Result (WriteError E) ℕ) × W)
        → Kept p w
        → w.state ≡ size pos
        → pos < 8
        → OnPending Q p
        → OnError Q p
        → OnMore Q p again (weight len (size pos))
        → Told async received (drop pos (to_le_bytes len)) w.inner r
        → Q (written w (λ n v. again (record v { state = size_after (pos + n) })) r)
    size_told p w pos again (_, _) h at below on_pending on_error on_more (busy i keeps not) =
        on_pending (record w { inner = i }) (Kept-inner p w i h keeps)
          (not (omega (arith, length_field len pos)))
    size_told p w pos again (_, _) h at below on_pending on_error on_more
          (failed e i known keeps not) =
        on_error (record w { inner = i }) e (Kept-inner p w i h keeps)
          (not (omega (arith, length_field len pos))) known
    size_told p w pos again (_, _) h at below on_pending on_error on_more
          (took n i some_taken fits writes) =
        let le : n ≤ 8 - pos = omega (arith, fits, length_field len pos) in
        on_more (record w { inner = i; state = size_after (pos + n) })
          (size-Kept p w pos n i h at le writes) (size-weight len pos n below some_taken)

    pub size_round :
        (p : Bytes) (w : BytesWriter W) (pos : ℕ) (again : BytesWriter W → Polled W E A)
        → Kept p w
        → w.state ≡ size pos
        → OnPending Q p
        → OnError Q p
        → OnMore Q p again (weight len (size pos))
        → Q (write_size async w pos again)
    size_round p w pos again h at on_pending on_error on_more =
        let (below, nothing) = subst (λ st. Fits len st p) at h.fits in
        let go : BytesWriter W → ℕ → Polled W E A =
          λ v n. again (record v { state = size_after (pos + n) }) in
        subst
          (λ b. Q (
            if b
            then written w (λ n v. go v n)
                (poll_inner async (drop pos (to_le_bytes w.payload_len)) w.inner)
            else (none, w)))
          (sym (lt→ltb pos 8 below))
          (subst
            (λ l.
              Q (written w (λ n v. go v n) (poll_inner async (drop pos (to_le_bytes l)) w.inner)))
            (sym h.same)
            (size_told p w pos again (poll_inner async (drop pos (to_le_bytes len)) w.inner) h at
              below on_pending on_error on_more
              (inner-Told async received (drop pos (to_le_bytes len)) w.inner laws)))
