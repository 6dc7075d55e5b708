-- ===== src/NixCompat/Nixbase32/RoundTrip.antt =====
-- nix-compat/src/nixbase32.rs: decoding what `encode` printed. Each character puts five bits back in their
-- place, in one byte of the output or, with the carry, in two.
use tvix.Prelude.{
  ℕ, zero, suc, ◌+◌, ◌*◌, ◌/◌, ◌%◌, ◌^◌, ◌<◌, ◌≡◌, refl, ap, ◌∙◌, true, false, [], ◌∷◌, some,
  bit_or, Bytes, ◌==◌, length, set, replicate, ok, inl, inr, All, IsByte, arith, ==_iff,
}
use tvix.NixCompat.Nixbase32.{
  encode, encode_len, decode_len, decode_loop, decode_inner, decode, decode_fixed,
}
use tvix.NixCompat.Nixbase32.Bits.{low, placed, bit_or-mask}
use tvix.NixCompat.Nixbase32.Cells.{
  at, at_bound, at_end, get_elem?-at, length-set, at-set, at-set_other, same,
}
use tvix.NixCompat.Nixbase32.Characters.{
  digit, char, digit_bound, digit_of-char, chars, forward, encode_loop-chars, length-chars,
  reverse-chars,
}
use tvix.NixCompat.Nixbase32.Halfway.{
  Halfway, rest_bound, zero_rest, merge, start, decode_loop-cons, below_or_at,
}

module _ (x : Bytes) (hx : All IsByte x) (n : ℕ) (output : Bytes) (carry mask : ℕ)
    (here : n * 5 / 8 < length x) (h : Halfway x (n * 5 / 8) (n * 5 % 8) output carry mask) where
  value : ℕ
  value = digit x n * 2 ^ (n * 5 % 8) % 2 ^ 16

  merged : ℕ
  merged = bit_or (at output (n * 5 / 8)) (bit_or (value % 2 ^ 8) carry)

  step :
      Halfway x
        ((n + 1) * 5 / 8)
        ((n + 1) * 5 % 8)
        (set output (n * 5 / 8) merged)
        (value / 2 ^ 8 % 2 ^ 8)
        (bit_or mask (digit x n))
  unfolding merged value
  step =
      let i = n * 5 / 8 in
      let j = n * 5 % 8 in
      let a = at x i in
      let b = at x (i + 1) in
      let hj : j < 8 = omega arith in
      let p = placed a b j (at_bound x hx i) (at_bound x hx (i + 1)) hj in
      let sum : merged ≡ a % 2 ^ j + low j a b =
        merge j (at output i) carry (low j a b) hj (omega (arith, h.current, rest_bound a j hj))
          p.aligned (omega (arith, h.current, p.small)) h.either
        ∙ ap (λ t. t + low j a b) h.current in
      let kept : length (set output i merged) ≡ length x =
        length-set output i merged ∙ h.length_kept in
      let mask_kept = bit_or-mask mask (digit x n) h.masked (digit_bound x n) in
      let in_range : i < length output = omega (arith, h.length_kept) in
      let written = at-set output i merged in_range in
      elim p.moved [
        | inl (same_byte, done, none_over) ↦
            let ei : (n + 1) * 5 / 8 ≡ i = omega (arith, same_byte) in
            let ej : (n + 1) * 5 % 8 ≡ (j + 5) % 8 = omega arith in
            rw (ei, ej)
              (record {
                length_kept = kept;
                current = rw (none_over, written, sum, done) (omega arith);
                either = inr none_over;
                below = λ k lt.
                    at-set_other output i merged k (λ e. absurd (omega arith)) ∙ h.below k lt;
                above = λ k lt.
                    at-set_other output i merged k (λ e. absurd (omega arith)) ∙ h.above k lt;
                masked = mask_kept;
              })
        | inr (next_byte, done, over) ↦
            let ei : (n + 1) * 5 / 8 ≡ i + 1 = omega (arith, next_byte) in
            let ej : (n + 1) * 5 % 8 ≡ (j + 5) % 8 = omega arith in
            let fresh =
              at-set_other output i merged (i + 1) (λ e. omega arith)
              ∙ h.above (i + 1) (omega arith) in
            rw (ei, ej)
              (record {
                length_kept = kept;
                current = rw (fresh, over) (omega arith);
                either = inl fresh;
                below = λ k lt. elim (below_or_at k i lt) [
                  | inl before ↦
                      at-set_other output i merged k (λ e. omega arith) ∙ h.below k before
                  | inr e ↦ rw (e, written, sum, done) refl
                ];
                above = λ k lt.
                    at-set_other output i merged k (λ e. omega arith) ∙ h.above k (omega arith);
                masked = mask_kept;
              })
      ]

  decode_loop-char :
      (cs : Bytes)
      → decode_loop (char x n ∷ cs) n output carry mask
        ≡ decode_loop cs
            (n + 1)
            (set output (n * 5 / 8) merged)
            (value / 2 ^ 8 % 2 ^ 8)
            (bit_or mask (digit x n))
  unfolding decode_loop value merged
  decode_loop-char cs =
      decode_loop-cons n (char x n) (digit x n) (at output (n * 5 / 8)) carry mask output cs
        (digit_of-char x n) (get_elem?-at output (n * 5 / 8) (omega (arith, h.length_kept, here)))

module _ (x : Bytes) (hx : All IsByte x) where
  -- Every character from number `n` on is read, and at the end all of `x` is in the output.
  decode_loop-forward :
      (c n : ℕ)
      → n + c ≡ encode_len (length x)
      → (output : Bytes) (carry mask : ℕ) → Halfway x (n * 5 / 8) (n * 5 % 8) output carry mask
      → (last : ℕ) × (last < 32)
        × (decode_loop (forward x n c) n output carry mask ≡ some (x, 0, last))
  unfolding decode_loop encode_len
  decode_loop-forward zero n e output carry mask h =
      let over = at_end x (n * 5 / 8) (omega arith) in
      let nothing =
        h.current ∙ ap (λ t. t % 2 ^ (n * 5 % 8)) over ∙ zero_rest (n * 5 % 8) (omega arith) in
      let empty : carry ≡ 0 = omega (arith, nothing) in
      let full = same output x h.length_kept (λ k lt. h.below k (omega arith)) in
      (mask, h.masked, rw (empty, full) refl)
  decode_loop-forward (suc c) n e output carry mask h =
      let here : n * 5 / 8 < length x = omega arith in
      let next_h = step x hx n output carry mask here h in
      let (last, small, run) = decode_loop-forward c (n + 1) (omega arith) _ _ _ next_h in
      (last, small, decode_loop-char x hx n output carry mask here h (forward x (n + 1) c) ∙ run)

-- What `decode_inner` does with the characters of `input`.
decode_inner-chars :
    (input : Bytes)
    → All IsByte input
    → decode_inner (chars input (encode_len (length input))) (replicate (length input) 0) ≡ ok input
unfolding decode_inner
decode_inner-chars input h =
    let m = encode_len (length input) in
    let (last, small, run) = decode_loop-forward input h m 0 (omega arith) _ 0 0 (start input) in
    let unmasked : (last == 0xff) ≡ false = ground arith in
    rw (decode_inner, reverse-chars input m, run, unmasked) refl

-- A byte string is encoded without a panic, and decoding gives it back.
pub decode-encode :
    (input : Bytes)
    → All IsByte input
    → (text : Bytes) × (encode input ≡ some text)
      × (length text ≡ encode_len (length input))
      × (decode text ≡ ok input)
      × (decode_fixed (length input) text ≡ ok input)
unfolding encode decode decode_fixed encode_len decode_len
decode-encode input h =
    let m = encode_len (length input) in
    let text_length = length-chars input m in
    let back : decode_len m ≡ length input = omega arith in
    let fits : (m == encode_len (decode_len m)) ≡ true = rw back ((==_iff _ _).1 refl) in
    (
      chars input m,
      encode_loop-chars input h m (omega arith) [],
      text_length,
      rw (decode, text_length, fits, back) (decode_inner-chars input h),
      rw (decode_fixed, text_length, (==_iff m m).1 refl) (decode_inner-chars input h),
    )
