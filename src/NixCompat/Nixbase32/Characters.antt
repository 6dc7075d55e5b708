-- ===== src/NixCompat/Nixbase32/Characters.antt =====
-- nix-compat/src/nixbase32.rs: the characters that `encode` writes.
use tvix.Prelude.{
  ℕ, zero, suc, ◌+◌, ◌*◌, ◌/◌, ◌%◌, ◌^◌, ◌≤◌, ◌<◌, ◌≡◌, refl, sym, ap, ◌∙◌, true, [], ◌∷◌, ◌++◌,
  reverse, reverse-append, append-nil, append_assoc, some, Bytes, ◌==◌, length, get_or, inl, inr,
  All, IsByte, arith, ==_iff,
}
use tvix.NixCompat.Nixbase32.{alphabet, word_at, encode_char, encode_loop, encode_len, digit_of}
use tvix.NixCompat.Nixbase32.Bits.{
  each_shift, five, bit_and-five, bit_or-msb, below_all, below_all→true,
}
use tvix.NixCompat.Nixbase32.Cells.{at, at_bound, get_elem?-at, next}

-- The digit number `n` of the encoding of `x`, counted from the end, and its character.
abbrev pub digit : Bytes → ℕ → ℕ
digit x n = five (n * 5 % 8) (at x (n * 5 / 8)) (at x (n * 5 / 8 + 1))

abbrev pub char : Bytes → ℕ → ℕ
char x n = get_or alphabet (digit x n) 0

pub digit_bound : (x : Bytes) (n : ℕ) → digit x n < 32
digit_bound x n = omega arith

word_at_lem :
    (x : Bytes)
    → All IsByte x
    → (i : ℕ) → i < length x
    → word_at x i ≡ some (at x i + at x (i + 1) * 256)
unfolding word_at
word_at_lem x h i lt =
    rw (word_at, get_elem?-at x i lt)
      (elim (next x (i + 1)) [
        | inl found ↦
            rw (found, bit_or-msb (at x i) (at x (i + 1)) (at_bound x h i) (at_bound x h (i + 1)))
              refl
        | inr (missing, nothing) ↦ rw (missing, nothing) (ap some (omega arith))
      ])

digits : below_all 32 (λ d. digit_of (get_or alphabet d 0) == d) ≡ true
unfolding below_all digit_of
digits = refl

pub digit_of-char : (x : Bytes) (n : ℕ) → digit_of (char x n) ≡ digit x n
digit_of-char x n = (==_iff _ _).0 (
    below_all→true 32 (λ d. digit_of (get_or alphabet d 0) == d) digits (digit x n)
      (digit_bound x n))

shift_bound : (w : ℕ) → w < 2 ^ 16 → (j : ℕ) → j < 8 → w / 2 ^ j < 2 ^ 16
shift_bound w h =
    each_shift (λ j. w / 2 ^ j < 2 ^ 16)
      (
        omega arith,
        omega arith,
        omega arith,
        omega arith,
        omega arith,
        omega arith,
        omega arith,
        omega arith,
      )

encode_char_lem :
    (x : Bytes) → All IsByte x → (n : ℕ) → n * 5 / 8 < length x → encode_char x n ≡ some (char x n)
unfolding encode_char
encode_char_lem x h n lt =
    let i = n * 5 / 8 in
    let w = at x i + at x (i + 1) * 256 in
    let small : w < 2 ^ 16 = omega (arith, at_bound x h i, at_bound x h (i + 1)) in
    rw
      (
        word_at_lem x h i lt,
        bit_and-five (w / 2 ^ (n * 5 % 8)) (shift_bound w small (n * 5 % 8) (omega arith)),
      )
      refl

-- The characters below `m`, the last first, as `encode` writes them, and `c` of them from `n` on, as
-- decoding meets them.
abbrev pub chars : Bytes → ℕ → Bytes
chars x zero = []
chars x (suc m) = char x m ∷ chars x m

abbrev pub forward : Bytes → ℕ → ℕ → Bytes
forward x n zero = []
forward x n (suc c) = char x n ∷ forward x (n + 1) c

pub encode_loop-chars :
    (x : Bytes)
    → All IsByte x
    → (m : ℕ) → m ≤ encode_len (length x)
    → (output : Bytes) → encode_loop x m output ≡ some (output ++ chars x m)
unfolding encode_loop encode_len
encode_loop-chars x h zero le output = ap some (sym (append-nil output))
encode_loop-chars x h (suc m) le output =
    rw (encode_loop, encode_char_lem x h m (omega arith))
      (encode_loop-chars x h m (omega arith) (output ++ char x m ∷ [])
        ∙ ap some (append_assoc output (char x m ∷ []) (chars x m)))

pub length-chars : (x : Bytes) (m : ℕ) → length (chars x m) ≡ m
length-chars x zero = refl
length-chars x (suc m) = ap suc (length-chars x m)

forward-last : (x : Bytes) (n c : ℕ) → forward x n (suc c) ≡ forward x n c ++ (char x (n + c) ∷ [])
forward-last x n zero = ap (λ k. char x k ∷ []) (omega arith)
forward-last x n (suc c) =
    rw (forward-last x (n + 1) c)
      (ap (λ k. char x n ∷ (forward x (n + 1) c ++ char x k ∷ [])) (omega arith))

pub reverse-chars : (x : Bytes) (m : ℕ) → reverse (chars x m) ≡ forward x 0 m
reverse-chars x zero = refl
reverse-chars x (suc m) =
    rw (reverse-append (char x m ∷ []) (chars x m), reverse-chars x m, forward-last x 0 m)
      (ap (λ k. forward x 0 m ++ char x k ∷ []) (omega arith))
