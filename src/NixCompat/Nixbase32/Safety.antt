-- ===== src/NixCompat/Nixbase32/Safety.antt =====
-- nix-compat/src/nixbase32.rs: decoding any bytes ends without a panic: no index is out of range, and the
-- search for an invalid character finds one.
use tvix.Prelude.{
  ℕ, ◌+◌, ◌*◌, ◌/◌, ◌%◌, ◌^◌, ◌<◌, ◌≡◌, refl, ◌∙◌, ◌⊎◌, inl, inr, Bool, true, false, not, ◌||◌, [],
  ◌∷◌, reverse, Option, none, some, bit_or, Bytes, ◌==◌, ==_iff, min, ltb, ltb→lt, if◌then◌else◌,
  contains, length, set, replicate, Result, ok, err, Failure, error, All, All-reverse, IsByte,
  Bool-cases, Option-cases, length-reverse, length-replicate, arith,
}
use tvix.NixCompat.Nixbase32.{
  DecodeError, DecodeKind, alphabet, digit_of, decode_loop, find_invalid, encode_len, decode_inner,
  decode_fixed,
}
use tvix.NixCompat.Nixbase32.Bits.{below_all, below_all→true, bit_or-mask}
use tvix.NixCompat.Nixbase32.Cells.{
  at, at_bound, get_elem?-at, length-set, set-bytes, replicate-bytes,
}
use tvix.NixCompat.Nixbase32.Halfway.{decode_loop-cons}

digit_table : below_all 256 (λ c. not (contains alphabet c) || ltb (digit_of c) 32) ≡ true
unfolding below_all digit_of
digit_table = refl

or_bytes_table : below_all 256 (λ a. below_all 256 (λ b. ltb (bit_or a b) 256)) ≡ true
unfolding below_all
or_bytes_table = refl

bit_or-bytes : (a b : ℕ) → a < 256 → b < 256 → bit_or a b < 256
bit_or-bytes a b ha hb = ltb→lt _ _ (
    below_all→true 256 (λ b. ltb (bit_or a b) 256)
      (below_all→true 256 (λ a. below_all 256 (λ b. ltb (bit_or a b) 256)) or_bytes_table a ha) b
      hb)

abbrev InAlphabet : ℕ → Type 0
InAlphabet c = (contains alphabet c ≡ true) × IsByte c

implied : (a b : Bool) → (not a || b) ≡ true → a ≡ true → b ≡ true
implied true b h e = h
implied false b h e = cc

digit_of-InAlphabet : (c : ℕ) → InAlphabet c → digit_of c < 32
digit_of-InAlphabet c (known, byte) =
    let t =
      below_all→true 256 (λ c. not (contains alphabet c) || ltb (digit_of c) 32) digit_table c
        byte in
    ltb→lt _ _ (implied _ _ t known)

-- The loop ends with an output of its first length, of bytes; the mask stays below 32 where every
-- character is in the alphabet.
record Ends (k : ℕ) (cs : Bytes) (n : ℕ) (output : Bytes) (carry mask : ℕ) : Type 0 where
  last : Bytes
  last_carry : ℕ
  last_mask : ℕ
  run : decode_loop cs n output carry mask ≡ some (last, last_carry, last_mask)
  last_length : length last ≡ k
  last_bytes : All IsByte last
  masked : All InAlphabet cs → mask < 32 → last_mask < 32

decode_loop-Ends :
    (k : ℕ) (cs : Bytes) (n : ℕ) (output : Bytes) (carry mask : ℕ)
    → n + length cs ≡ encode_len k
    → length output ≡ k
    → All IsByte output
    → carry < 256
    → Ends k cs n output carry mask
unfolding decode_loop encode_len
decode_loop-Ends k [] n output carry mask e size bytes small = record {
  last = output;
  last_carry = carry;
  last_mask = mask;
  run = refl;
  last_length = size;
  last_bytes = bytes;
  masked = λ _ m. m;
}
decode_loop-Ends k (c ∷ cs) n output carry mask e size bytes small =
    let i = n * 5 / 8 in
    let value = digit_of c * 2 ^ (n * 5 % 8) % 2 ^ 16 in
    let merged = bit_or (at output i) (bit_or (value % 2 ^ 8) carry) in
    let found = get_elem?-at output i (omega (arith, size)) in
    let merged_small =
      bit_or-bytes (at output i) _ (at_bound output bytes i)
        (bit_or-bytes (value % 2 ^ 8) carry (omega arith) small) in
    let rest =
      decode_loop-Ends k cs (n + 1) (set output i merged) (value / 2 ^ 8 % 2 ^ 8)
        (bit_or mask (digit_of c)) (omega arith) (length-set output i merged ∙ size)
        (set-bytes output i merged bytes merged_small) (omega arith) in
    record {
      last = rest.last;
      last_carry = rest.last_carry;
      last_mask = rest.last_mask;
      run =
          decode_loop-cons n c (digit_of c) (at output i) carry mask output cs refl found
          ∙ rest.run;
      last_length = rest.last_length;
      last_bytes = rest.last_bytes;
      masked = λ known m.
          rest.masked known.1 (bit_or-mask mask (digit_of c) m (digit_of-InAlphabet c known.0));
    }

neither :
    (known : Bool) (i : ℕ) (rest : Option ℕ)
    → (if not known then some i else rest) ≡ none
    → (known ≡ true) × (rest ≡ none)
neither true i rest h = (refl, h)
neither false i rest h = cc

find_invalid-none :
    (cs : Bytes) (i : ℕ) → All IsByte cs → find_invalid cs i ≡ none → All InAlphabet cs
unfolding find_invalid
find_invalid-none [] i bytes h = tt
find_invalid-none (c ∷ cs) i bytes h =
    let (known, rest) = neither (contains alphabet c) i (find_invalid cs (i + 1)) h in
    ((known, bytes.0), find_invalid-none cs (i + 1) bytes.1 rest)

-- What a decoding to `k` bytes may end with.
abbrev Decoded : ℕ → Result (Failure DecodeError) Bytes → Type 0
Decoded k result =
    ((d : Bytes) × (result ≡ ok d) × (length d ≡ k) × All IsByte d)
    ⊎ ((e : DecodeError) × (result ≡ err (error e)))

decode_inner-Decoded :
    (k : ℕ) (input : Bytes)
    → All IsByte input
    → length input ≡ encode_len k
    → Decoded k (decode_inner input (replicate k 0))
unfolding decode_inner
decode_inner-Decoded k input bytes size =
    let len : 0 + length (reverse input) ≡ encode_len k =
      omega (arith, length-reverse input, size) in
    let ends =
      decode_loop-Ends k (reverse input) 0 (replicate k 0) 0 0 len (length-replicate k 0)
        (replicate-bytes k) (omega arith) in
    elim (Bool-cases (ends.last_mask == 0xff)) [
      | inl wrong ↦ elim (Option-cases (find_invalid input 0)) [
        | inl nowhere ↦
            let known = All-reverse InAlphabet input (find_invalid-none input 0 bytes nowhere) in
            absurd (ground (arith, ends.masked known (omega arith), wrong))
        | inr (i, found) ↦ inr (
          record { position = i; kind = DecodeKind.symbol },
          rw (decode_inner, ends.run, wrong, found) refl,
        )
      ]
      | inr fine ↦ elim (Bool-cases (ends.last_carry == 0)) [
        | inl whole ↦ inl (
          ends.last,
          rw (decode_inner, ends.run, fine, whole) refl,
          ends.last_length,
          ends.last_bytes,
        )
        | inr left ↦ inr (
          record { position = 0; kind = DecodeKind.trailing },
          rw (decode_inner, ends.run, fine, left) refl,
        )
      ]
    ]

-- Decoding bytes as an array of `k` bytes gives such an array or an error, and never panics.
pub decode_fixed_total :
    (k : ℕ) (input : Bytes)
    → All IsByte input
    → ((d : Bytes) × (decode_fixed k input ≡ ok d) × (length d ≡ k) × All IsByte d)
      ⊎ ((e : DecodeError) × (decode_fixed k input ≡ err (error e)))
unfolding decode_fixed
decode_fixed_total k input bytes = elim (Bool-cases (length input == encode_len k)) [
  | inr e ↦ inr (
    record { position = min (length input) (encode_len k); kind = DecodeKind.length },
    rw (decode_fixed, e) refl,
  )
  | inl e ↦ rw (decode_fixed, e) (decode_inner-Decoded k input bytes ((==_iff _ _).0 e))
]
