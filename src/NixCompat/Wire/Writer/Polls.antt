-- ===== src/NixCompat/Wire/Writer/Polls.antt =====
-- `poll_shutdown` of nix-compat/src/wire/bytes/writer.rs.
use tvix.Prelude.{
  ℕ, ◌^◌, ◌<◌, ◌≡◌, ◌≢◌, refl, ap, sym, subst, ◌∙◌, Bool, true, false, ◌++◌, none, some, Bytes,
  ◌==◌, ==_iff, if◌then◌else◌, length, Result, ok, err,
}
use tvix.NixCompat.Wire.{padding_len, write_bytes}
use tvix.NixCompat.Wire.Writer.{
  Poll, pending, ready, inner_error, write_zero, excess_bytes, unclean_shutdown, AsyncWrite,
  BytesPacketPosition, size, payload, padding, BytesWriter, Polled, from_inner, is_complete,
  unclean, shutdown_after, poll_flush, poll_shutdown,
}
use tvix.NixCompat.Wire.Writer.Position.{Sent, Fits, Laws, Willing, Holds, packet_lem}
use tvix.NixCompat.Wire.Writer.Rounds.{Kept-inner}
use tvix.NixCompat.Wire.Writer.Flushing.{Flushed, Settled, poll_flush-Flushed}

module _ {W E : Type 0} (async : AsyncWrite W E) (received : W → Bytes) (laws : Laws async received)
    (base : Bytes) (len : ℕ) (small : len < 2 ^ 64) where
  abbrev Kept : Bytes → BytesWriter W → Type 0
  Kept p w = Holds async received base len p w

  -- What a shutdown gives.
  abbrev pub ShutDown : Bytes → Polled W E (Unit {0}) → Type 0
  ShutDown p (none, v) = ⊥
  ShutDown p (some pending, v) = Kept p v × ¬ Willing async received
  ShutDown p (some (ready (err (inner_error e))), v) = Kept p v × ¬ Willing async received
  ShutDown p (some (ready (err write_zero)), v) = Kept p v × ¬ Willing async received
  ShutDown p (some (ready (err excess_bytes)), v) = ⊥
  ShutDown p (some (ready (err unclean_shutdown)), v) = Kept p v × (length p ≢ len)
  ShutDown p (some (ready (ok u)), v) = (length p ≡ len) × (received v.inner ≡ write_bytes base p)

  shutdown-Kept :
      (p : Bytes) (w : BytesWriter W)
      → Kept p w
      → Kept p (record w { inner = (async.poll_shutdown w.inner).1 })
  shutdown-Kept p w h =
      Kept-inner async received laws base len small p w (async.poll_shutdown w.inner).1 h
        (laws.shutdown_keeps w.inner)

  -- At the end of the packet it is complete, and otherwise payload is missing.
  abbrev Ended : Bytes → BytesWriter W → Bool → Type 0
  Ended p v true = (length p ≡ len) × (received v.inner ≡ write_bytes base p)
  Ended p v false = length p ≢ len

  Ended-at :
      (st : BytesPacketPosition) (p : Bytes) (v : BytesWriter W)
      → Kept p v
      → v.state ≡ st
      → Settled async received laws base len small st
      → Ended p v (is_complete async v.payload_len st)
  Ended-at (size pos) p v h at s = absurd s
  Ended-at (payload pos) p v h at s =
      let (here, below, only_empty) = subst (λ t. Fits len t p) at h.fits in
      λ e. s (only_empty (here ∙ e))
  Ended-at (padding pos) p v h at s =
      let (whole, before_end) = subst (λ t. Fits len t p) at h.fits in
      let at_end : (padding_len v.payload_len == pos) ≡ true =
        (==_iff (padding_len v.payload_len) pos).1 (ap padding_len h.same ∙ sym s) in
      subst (Ended p v) (sym at_end) (
        whole,
        h.sent
            ∙ ap (λ t. base ++ Sent len t p) (at ∙ ap padding s)
            ∙ packet_lem len base p small whole,
      )

  shut_told :
      (p : Bytes) (v : BytesWriter W) (complete : Bool) (polled : Poll (Result E (Unit {0})))
      → (async.poll_shutdown v.inner).0 ≡ polled
      → Kept p v
      → Ended p v complete
      → ShutDown p (
        some (if complete then from_inner polled else unclean async (from_inner polled)),
        record v { inner = (async.poll_shutdown v.inner).1 },
      )
  shut_told p v true pending e h d = (shutdown-Kept p v h, λ w. let e' = w.shuts_down v.inner in cc)
  shut_told p v false pending e h d =
      (shutdown-Kept p v h, λ w. let e' = w.shuts_down v.inner in cc)
  shut_told p v true (ready (err x)) e h d =
      (shutdown-Kept p v h, λ w. let e' = w.shuts_down v.inner in cc)
  shut_told p v false (ready (err x)) e h d =
      (shutdown-Kept p v h, λ w. let e' = w.shuts_down v.inner in cc)
  shut_told p v true (ready (ok u)) e h d = (d.0, laws.shutdown_keeps v.inner ∙ d.1)
  shut_told p v false (ready (ok u)) e h d = (shutdown-Kept p v h, d)

  after_flush :
      (p : Bytes) (r : Polled W E (Unit {0}))
      → Flushed async received laws base len small p r
      → ShutDown p (shutdown_after async r)
  after_flush p (none, v) h = h
  after_flush p (some pending, v) h = h
  after_flush p (some (ready (err (inner_error e))), v) h = (h.0, h.1)
  after_flush p (some (ready (err write_zero)), v) h = (h.0, h.1)
  after_flush p (some (ready (err excess_bytes)), v) h = h.2
  after_flush p (some (ready (err unclean_shutdown)), v) h = absurd h.2
  after_flush p (some (ready (ok u)), v) h =
      shut_told p v (is_complete async v.payload_len v.state) (async.poll_shutdown v.inner).0 refl
        h.0 (Ended-at v.state p v h.0 refl h.1)

  -- Where the packet of some payload is underway, over a writer that keeps what `AsyncWrite` documents,
  -- `poll_shutdown` ends without a panic. It succeeds only if the payload was written in full, and then what
  -- was received is what `write_bytes` writes of the payload. An unclean shutdown is reported only if the
  -- payload was not written in full. It is pending, or fails otherwise, only if the writer underneath was
  -- busy, accepted nothing or failed. Where it does not succeed, the packet of the same payload is underway.
  pub poll_shutdown-ShutDown :
      (p : Bytes) (w : BytesWriter W) → Kept p w → ShutDown p (poll_shutdown async w)
  unfolding poll_shutdown
  poll_shutdown-ShutDown p w h =
      after_flush p (poll_flush async w)
        (poll_flush-Flushed async received laws base len small p w h)

  completed :
      (p : Bytes) (r : Polled W E (Unit {0}))
      → length p ≡ len
      → Willing async received
      → ShutDown p r
      → (v : BytesWriter W) × (r ≡ (some (ready (ok tt)), v))
        × (received v.inner ≡ write_bytes base p)
  completed p (none, v) e w h = absurd h
  completed p (some pending, v) e w h = absurd (h.1 w)
  completed p (some (ready (err (inner_error x))), v) e w h = absurd (h.1 w)
  completed p (some (ready (err write_zero)), v) e w h = absurd (h.1 w)
  completed p (some (ready (err excess_bytes)), v) e w h = absurd h
  completed p (some (ready (err unclean_shutdown)), v) e w h = absurd (h.1 e)
  completed p (some (ready (ok u)), v) e w h = (v, refl, h.1)

  -- Over a writer that keeps what `AsyncWrite` documents and is always ready, accepts a byte or more of what
  -- is not empty and never fails, once the payload was written in full a shutdown succeeds at once, and what
  -- was received is what `write_bytes` writes of the payload.
  pub poll_shutdown_completes :
      (p : Bytes) (w : BytesWriter W)
      → length p ≡ len
      → Willing async received
      → Kept p w
      → (v : BytesWriter W) × (poll_shutdown async w ≡ (some (ready (ok tt)), v))
        × (received v.inner ≡ write_bytes base p)
  poll_shutdown_completes p w whole willing h =
      completed p (poll_shutdown async w) whole willing (poll_shutdown-ShutDown p w h)
