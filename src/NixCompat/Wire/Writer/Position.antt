-- ===== src/NixCompat/Wire/Writer/Position.antt =====
-- Where a writer of nix-compat/src/wire/bytes/writer.rs stands, and what it has sent then.
use tvix.Prelude.{
  ℕ, zero, suc, ◌+◌, ◌-◌, ◌^◌, ◌≤◌, ◌<◌, ◌≡◌, refl, ap, sym, ◌∙◌, List, [], ◌∷◌, ◌++◌, Bytes, ◌==◌,
  ==_iff, length, length-append, length-replicate, take, drop, replicate, arith, Bool-cases, inl,
  inr, Result, ok, err, append-nil, append_assoc,
}
use tvix.NixCompat.Nar.Writer.{to_le_bytes}
use tvix.NixCompat.Nar.Pieces.{length-to_le_bytes}
use tvix.NixCompat.Wire.{empty_bytes, padding_len, padding_len_lem, write_bytes}
use tvix.NixCompat.Wire.Writer.{
  Poll, pending, ready, WriteError, write_zero, inner_error, excess_bytes, unclean_shutdown,
  AsyncWrite, BytesPacketPosition, size, payload, padding, BytesWriter, size_after, payload_after,
  accepted, poll_inner,
}

module _ {ℓ} {A : Type ℓ} where
  take-more :
      (m n : ℕ) (xs : List A) (k : ℕ) → k ≡ m + n → take m xs ++ take n (drop m xs) ≡ take k xs
  take-more zero n xs k e = ap (λ j. take j xs) (omega (arith, e))
  take-more (suc m) n [] zero e = absurd (omega (arith, e))
  take-more (suc m) zero [] (suc k) e = refl
  take-more (suc m) (suc n) [] (suc k) e = refl
  take-more (suc m) n (x ∷ xs) zero e = absurd (omega (arith, e))
  take-more (suc m) n (x ∷ xs) (suc k) e = ap (λ t. x ∷ t) (take-more m n xs k (omega (arith, e)))

  take-all : (n : ℕ) (xs : List A) → length xs ≡ n → take n xs ≡ xs
  take-all zero [] e = refl
  take-all zero (x ∷ xs) e = absurd (omega (arith, e))
  take-all (suc n) [] e = refl
  take-all (suc n) (x ∷ xs) e = ap (λ t. x ∷ t) (take-all n xs (omega (arith, e)))

  take-replicate : (k n : ℕ) (a : A) → k ≤ n → take k (replicate n a) ≡ replicate k a
  take-replicate zero n a h = refl
  take-replicate (suc k) zero a h = absurd (omega arith)
  take-replicate (suc k) (suc n) a h = ap (λ t. a ∷ t) (take-replicate k n a (omega arith))

  drop-replicate : (k n m : ℕ) (a : A) → n ≡ k + m → drop k (replicate n a) ≡ replicate m a
  drop-replicate zero n m a e = ap (λ j. replicate j a) (omega (arith, e))
  drop-replicate (suc k) zero m a e = absurd (omega (arith, e))
  drop-replicate (suc k) (suc n) m a e = drop-replicate k n m a (omega (arith, e))

  replicate-more : (m n k : ℕ) (a : A) → k ≡ m + n → replicate m a ++ replicate n a ≡ replicate k a
  replicate-more zero n k a e = ap (λ j. replicate j a) (omega (arith, e))
  replicate-more (suc m) n zero a e = absurd (omega (arith, e))
  replicate-more (suc m) n (suc k) a e = ap (λ t. a ∷ t) (replicate-more m n k a (omega (arith, e)))

  length-drop : (m : ℕ) (xs : List A) → length (drop m xs) ≡ length xs - m
  length-drop zero xs = omega arith
  length-drop (suc m) [] = omega arith
  length-drop (suc m) (x ∷ xs) = length-drop m xs ∙ omega arith

-- What was sent of the packet of a payload at a position, where that much of it was written.
abbrev pub Sent : ℕ → BytesPacketPosition → Bytes → Bytes
Sent len (size pos) p = take pos (to_le_bytes len)
Sent len (payload pos) p = to_le_bytes len ++ p
Sent len (padding pos) p = to_le_bytes len ++ (p ++ replicate pos 0)

-- A position is never at the end of its field, but for the padding and an empty payload.
abbrev pub Fits : ℕ → BytesPacketPosition → Bytes → Type 0
Fits len (size pos) p = (pos < 8) × (p ≡ [])
Fits len (payload pos) p = (pos ≡ length p) × (pos ≤ len) × (pos ≡ len → len ≡ 0)
Fits len (padding pos) p = (length p ≡ len) × (pos ≤ padding_len len)

-- How many rounds are left for the loops.
abbrev pub weight : ℕ → BytesPacketPosition → ℕ
weight len (size pos) = (8 - pos) + 9
weight len (payload pos) = 9
weight len (padding pos) = (padding_len len - pos) + 1

-- The errors that come of the writer underneath.
abbrev pub IsInner : {E : Type 0} → WriteError E → Type 0
IsInner (inner_error e) = Unit
IsInner write_zero = Unit
IsInner excess_bytes = ⊥
IsInner unclean_shutdown = ⊥

module _ {W E : Type 0} (async : AsyncWrite W E) (received : W → Bytes) where
  -- What tokio documents of `AsyncWrite`: no more is accepted than was offered, what was accepted is
  -- written, and nothing else is.
  pub record Laws : Type 0 where
    pub within :
        (buf : Bytes) (i : W) (n : ℕ) → (async.poll_write buf i).0 ≡ ready (ok n) → n ≤ length buf
    pub writes :
        (buf : Bytes) (i : W) (n : ℕ)
        → (async.poll_write buf i).0 ≡ ready (ok n)
        → received (async.poll_write buf i).1 ≡ received i ++ take n buf
    pub busy_keeps :
        (buf : Bytes) (i : W)
        → (async.poll_write buf i).0 ≡ pending
        → received (async.poll_write buf i).1 ≡ received i
    pub error_keeps :
        (buf : Bytes) (i : W) (e : E)
        → (async.poll_write buf i).0 ≡ ready (err e)
        → received (async.poll_write buf i).1 ≡ received i
    pub flush_keeps : (i : W) → received (async.poll_flush i).1 ≡ received i
    pub shutdown_keeps : (i : W) → received (async.poll_shutdown i).1 ≡ received i

  -- A writer that is always ready, accepts a byte or more, and never fails.
  pub record Willing : Type 0 where
    pub takes :
        (buf : Bytes) (i : W)
        → 0 < length buf
        → (n : ℕ) × (1 ≤ n) × ((async.poll_write buf i).0 ≡ ready (ok n))
    pub flushes : (i : W) → (async.poll_flush i).0 ≡ ready (ok tt)
    pub shuts_down : (i : W) → (async.poll_shutdown i).0 ≡ ready (ok tt)

  -- What a write to the writer underneath can tell.
  pub data Told (buf : Bytes) (i : W) : Poll (Result (WriteError E) ℕ) × W → Type 0 where
    busy :
        (i' : W)
        → received i' ≡ received i
        → (0 < length buf → ¬ Willing)
        → Told buf i (pending, i')
    failed :
        (e : WriteError E) (i' : W)
        → IsInner e
        → received i' ≡ received i
        → (0 < length buf → ¬ Willing)
        → Told buf i (ready (err e), i')
    took :
        (n : ℕ) (i' : W)
        → 1 ≤ n
        → n ≤ length buf
        → received i' ≡ received i ++ take n buf
        → Told buf i (ready (ok n), i')

  -- The writer with the packet of a payload underway, behind what was there before.
  pub record Holds (base : Bytes) (len : ℕ) (p : Bytes) (w : BytesWriter W) : Type 0 where
    pub same : w.payload_len ≡ len
    pub sent : received w.inner ≡ base ++ Sent len w.state p
    pub fits : Fits len w.state p

  ready-injective : (n m : ℕ) → ◌≡◌ {A = Poll (Result E ℕ)} (ready (ok n)) (ready (ok m)) → n ≡ m
  ready-injective n m e = cc

  told :
      (buf : Bytes) (i : W) (polled : Poll (Result E ℕ))
      → Laws
      → (async.poll_write buf i).0 ≡ polled
      → Told buf i (accepted polled, (async.poll_write buf i).1)
  told buf i pending l e =
      busy _ (l.busy_keeps buf i e)
        (λ some_there w. let (n, pos, takes) = w.takes buf i some_there in cc)
  told buf i (ready (err x)) l e =
      failed (inner_error x) _ tt (l.error_keeps buf i x e)
        (λ some_there w. let (n, pos, takes) = w.takes buf i some_there in cc)
  told buf i (ready (ok n)) l e = elim (Bool-cases (n == 0)) [
    | inl none_taken ↦
        let zero_bytes : n ≡ 0 = (==_iff n 0).0 none_taken in
        rw none_taken (
          failed write_zero _ tt
            (l.writes buf i n e
              ∙ ap (λ k. received i ++ take k buf) zero_bytes
              ∙ append-nil (received i))
            (λ some_there w.
              let (m, pos, takes) = w.takes buf i some_there in
              absurd (omega (arith, zero_bytes, ready-injective m n (sym takes ∙ e)))))
    | inr some_taken ↦
        rw some_taken (took n _ (ground arith) (l.within buf i n e) (l.writes buf i n e))
  ]

  pub inner-Told : (buf : Bytes) (i : W) → Laws → Told buf i (poll_inner async buf i)
  inner-Told buf i l = told buf i (async.poll_write buf i).0 l refl

module _ (len : ℕ) where
  -- The position and what was sent, after some bytes of the size field.
  size_sent :
      (pos n : ℕ)
      → take pos (to_le_bytes len) ++ take n (drop pos (to_le_bytes len))
        ≡ take (pos + n) (to_le_bytes len)
  size_sent pos n = take-more pos n (to_le_bytes len) (pos + n) refl

  pub size-Fits :
      (pos n : ℕ)
      → pos + n ≤ 8
      → Fits len (size_after (pos + n)) []
        × (Sent len (size_after (pos + n)) []
            ≡ take pos (to_le_bytes len) ++ take n (drop pos (to_le_bytes len)))
  size-Fits pos n h = elim (Bool-cases (pos + n == 8)) [
    | inl all ↦ rw all (
      (omega arith, omega arith, λ e. omega (arith, e)),
      append-nil (to_le_bytes len)
          ∙ sym (
              take-all (pos + n) (to_le_bytes len)
                (length-to_le_bytes len ∙ sym ((==_iff (pos + n) 8).0 all)))
          ∙ sym (size_sent pos n),
    )
    | inr more ↦ rw more ((ground arith, refl), sym (size_sent pos n))
  ]

  pub size-weight :
      (pos n : ℕ)
      → pos < 8
      → 1 ≤ n
      → suc (weight len (size_after (pos + n))) ≤ weight len (size pos)
  size-weight pos n h k = elim (Bool-cases (pos + n == 8)) [
    | inl all ↦ rw all (omega arith)
    | inr more ↦ rw more (omega arith)
  ]

  pub payload-Fits :
      (p : Bytes) (taken : Bytes) (k : ℕ)
      → k ≡ length p + length taken
      → k ≤ len
      → 1 ≤ length taken
      → Fits len (payload_after len k) (p ++ taken)
        × (Sent len (payload_after len k) (p ++ taken) ≡ (to_le_bytes len ++ p) ++ taken)
  payload-Fits p taken k e h some_taken = elim (Bool-cases (k == len)) [
    | inl all ↦ rw all (
      (omega (arith, length-append p taken, (==_iff k len).0 all, e), omega arith),
      ap (λ t. to_le_bytes len ++ t) (append-nil (p ++ taken))
          ∙ sym (append_assoc (to_le_bytes len) p taken),
    )
    | inr more ↦ rw more (
      (omega (arith, length-append p taken, e), h, λ is. let all = (==_iff k len).1 is in cc),
      sym (append_assoc (to_le_bytes len) p taken),
    )
  ]

  pub padding_len-small : len < 2 ^ 64 → padding_len len ≤ 7
  padding_len-small small = omega (arith, padding_len_lem len small)

  zeros :
      (pos n : ℕ)
      → len < 2 ^ 64
      → pos + n ≤ padding_len len
      → take n (drop pos (take (padding_len len) empty_bytes)) ≡ replicate n 0
  zeros pos n small h =
      ap (λ t. take n (drop pos t))
        (take-replicate (padding_len len) 8 0 (omega (arith, padding_len-small small)))
      ∙ ap (take n) (drop-replicate pos (padding_len len) (padding_len len - pos) 0 (omega arith))
      ∙ take-replicate n (padding_len len - pos) 0 (omega arith)

  -- The padding that is left is as long as that.
  pub length_left :
      (pos : ℕ)
      → len < 2 ^ 64
      → pos ≤ padding_len len
      → length (drop pos (take (padding_len len) empty_bytes)) ≡ padding_len len - pos
  length_left pos small h =
      ap (λ t. length (drop pos t))
        (take-replicate (padding_len len) 8 0 (omega (arith, padding_len-small small)))
      ∙ ap (length {A = ℕ})
          (drop-replicate pos (padding_len len) (padding_len len - pos) 0 (omega arith))
      ∙ length-replicate (padding_len len - pos) 0

  pub length_field : (pos : ℕ) → length (drop pos (to_le_bytes len)) ≡ 8 - pos
  length_field pos = length-drop pos (to_le_bytes len) ∙ omega (arith, length-to_le_bytes len)

  -- A packet that was sent in full is what `write_bytes` writes.
  pub packet_lem :
      (base p : Bytes)
      → len < 2 ^ 64
      → length p ≡ len
      → base ++ Sent len (padding (padding_len len)) p ≡ write_bytes base p
  unfolding write_bytes
  packet_lem base p small e =
      let le = to_le_bytes len in
      let zeros_there : Bytes = take (padding_len len) empty_bytes in
      let padded : zeros_there ≡ replicate (padding_len len) 0 =
        take-replicate (padding_len len) 8 0 (omega (arith, padding_len-small small)) in
      elim (Bool-cases (padding_len len == 0)) [
        | inl none_there ↦
            rw (e, none_there)
              (ap (λ k. base ++ (le ++ (p ++ replicate k 0)))
                  ((==_iff (padding_len len) 0).0 none_there)
                ∙ ap (λ t. base ++ (le ++ t)) (append-nil p)
                ∙ sym (append_assoc base le p))
        | inr some_there ↦
            rw (e, some_there)
              (ap (λ t. base ++ (le ++ (p ++ t))) (sym padded)
                ∙ sym (
                    append_assoc (base ++ le) p zeros_there
                    ∙ append_assoc base le (p ++ zeros_there)))
      ]

  pub padding_sent :
      (p : Bytes) (pos n : ℕ)
      → len < 2 ^ 64
      → pos + n ≤ padding_len len
      → (to_le_bytes len ++ (p ++ replicate pos 0))
          ++ take n (drop pos (take (padding_len len) empty_bytes))
        ≡ to_le_bytes len ++ (p ++ replicate (pos + n) 0)
  padding_sent p pos n small h =
      append_assoc (to_le_bytes len) (p ++ replicate pos 0) _
      ∙ ap (λ t. to_le_bytes len ++ t)
          (append_assoc p (replicate pos 0) _
            ∙ ap (λ t. p ++ t)
                (ap (λ t. replicate pos 0 ++ t) (zeros pos n small h)
                  ∙ replicate-more pos n (pos + n) 0 refl))
