-- ===== src/NixCompat/Nixbase32.antt =====
-- nix-compat/src/nixbase32.rs: the base-32 notation of Nix, five bits a character, the last bits first.
pub mod Bits
pub mod Cells
pub mod Characters
pub mod Halfway
pub mod RoundTrip
pub mod Safety
use tvix.Prelude.{
  ℕ, zero, suc, ◌+◌, ◌*◌, ◌/◌, ◌%◌, ◌^◌, Bool, List, [], ◌∷◌, ◌++◌, reverse, Option, none, some,
  min, bit_and, bit_or, Bytes, codes, ◌==◌, if◌then◌else◌, not, length as len_of, get_elem?, get_or,
  set, replicate, contains, Result, ok, err, Failure, error, panic, ◌>>=◌, is_empty,
}
use mathlib.Core.Option

abbrev pub alphabet : Bytes
alphabet = codes "0123456789abcdfghijklmnpqrsvwxyz"

pub data DecodeKind : Type 0 where
  length symbol trailing : DecodeKind

-- `data_encoding::DecodeError`, of which the code builds values.
pub record DecodeError : Type 0 where
  pub position : ℕ
  pub kind : DecodeKind

unfoldable pub encode_len : ℕ → ℕ
encode_len len = (len * 8 + 4) / 5

unfoldable pub decode_len : ℕ → ℕ
decode_len len = len * 5 / 8

-- The 16-bit word at `input[i]`, `none` where the index is out of range.
unfoldable pub word_at : Bytes → ℕ → Option ℕ
word_at input i = elim (get_elem? input i) [
  | none ↦ none
  | some low ↦ elim (get_elem? input (i + 1)) [
    | none ↦ some low
    | some msb ↦ some (bit_or low (msb * 2 ^ 8))
  ]
]

-- The character number `n`, counted from the end of the output.
unfoldable pub encode_char : Bytes → ℕ → Option ℕ
unfolding word_at
encode_char input n =
    let b = n * 5 in
    let i = b / 8 in
    let j = b % 8 in
    Option.map (λ word. get_or alphabet (bit_and (word / 2 ^ j) 0x1f) 0) (word_at input i)

-- `for n in (0..output_len).rev()`.
unfoldable pub encode_loop : Bytes → ℕ → Bytes → Option Bytes
encode_loop input zero output = some output
encode_loop input (suc n) output = elim (encode_char input n) [
  | none ↦ none
  | some c ↦ encode_loop input n (output ++ c ∷ [])
]

unfoldable pub encode : Bytes → Option Bytes
unfolding encode_loop encode_char encode_len
encode input = encode_loop input (encode_len (len_of input)) []

-- The loop that fills `BASE32_ORD`.
unfoldable pub fill_ord : Bytes → ℕ → List ℕ → List ℕ
fill_ord [] i ord = ord
fill_ord (c ∷ tail) i ord = fill_ord tail (i + 1) (set ord c i)

unfoldable pub base32_ord : List ℕ
unfolding fill_ord
base32_ord = fill_ord alphabet 0 (replicate 256 0xff)

unfoldable pub digit_of : ℕ → ℕ
unfolding base32_ord
digit_of c = get_or base32_ord c 0xff

-- The loop of `decode_inner` over the characters from the last on: the output, `carry` and `mask` at
-- its end, `none` where `output[i]` is out of range.
unfoldable pub decode_loop : Bytes → ℕ → Bytes → ℕ → ℕ → Option (Bytes × ℕ × ℕ)
unfolding digit_of
decode_loop [] n output carry mask = some (output, carry, mask)
decode_loop (c ∷ cs) n output carry mask =
    let b = n * 5 in
    let i = b / 8 in
    let j = b % 8 in
    let digit = digit_of c in
    let value = digit * 2 ^ j % 2 ^ 16 in
    elim (get_elem? output i) [
      | none ↦ none
      | some old ↦
          decode_loop cs (n + 1) (set output i (bit_or old (bit_or (value % 2 ^ 8) carry)))
            (value / 2 ^ 8 % 2 ^ 8) (bit_or mask digit)
    ]

-- `none` is the `unreachable!()` behind the loop.
unfoldable pub find_invalid : Bytes → ℕ → Option ℕ
find_invalid [] i = none
find_invalid (c ∷ cs) i =
    let rest = find_invalid cs (i + 1) in if not (contains alphabet c) then some i else rest

unfoldable pub decode_inner : Bytes → Bytes → Result (Failure DecodeError) Bytes
unfolding decode_loop find_invalid
decode_inner input output = elim (decode_loop (reverse input) 0 output 0 0) [
  | none ↦ err panic
  | some (decoded, carry, mask) ↦
      if mask == 0xff
      then elim (find_invalid input 0) [
        | none ↦ err panic
        | some i ↦ err (error (record { position = i; kind = DecodeKind.symbol }))
      ]
      else if not (carry == 0)
      then err (error (record { position = 0; kind = DecodeKind.trailing }))
      else ok decoded
]

unfoldable pub decode : Bytes → Result (Failure DecodeError) Bytes
unfolding decode_inner decode_len encode_len
decode input =
    let output_len = decode_len (len_of input) in
    if not (len_of input == encode_len output_len)
    then err (
        error (record {
          position = min (len_of input) (encode_len output_len);
          kind = DecodeKind.length;
        }))
    else decode_inner input (replicate output_len 0)

-- `decode_fixed`, of `k` bytes.
unfoldable pub decode_fixed : ℕ → Bytes → Result (Failure DecodeError) Bytes
unfolding decode_inner encode_len
decode_fixed k input =
    if not (len_of input == encode_len k)
    then err
        (error (record { position = min (len_of input) (encode_len k); kind = DecodeKind.length }))
    else decode_inner input (replicate k 0)
