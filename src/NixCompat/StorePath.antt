-- ===== src/NixCompat/StorePath.antt =====
-- nix-compat/src/store_path/mod.rs: store paths, their names, their parsing and printing.
pub mod Names
pub mod RoundTrip
pub mod Safety
pub mod Utils
use tvix.Prelude.{
  ℕ, zero, suc, ◌+◌, ◌^◌, ◌%◌, Bool, true, false, not, ◌&&◌, ◌||◌, List, [], ◌∷◌, ◌++◌, reverse,
  Option, none, some, Ordering, Bytes, codes, bytes_cmp, ◌==◌, ltb, leb, if◌then◌else◌, length,
  get_or, take, drop, is_empty, Result, ok, err, Failure, error, panic, map_failure, map_err, ◌>>=◌,
}
use mathlib.Core.Option
use tvix.NixCompat.Nixbase32
use tvix.NixCompat.Nixbase32.{DecodeError, encode, encode_len, decode_fixed}

abbrev pub digest_size : ℕ
digest_size = 20

unfoldable pub encoded_digest_size : ℕ
unfolding encode_len
encoded_digest_size = encode_len digest_size

abbrev pub store_dir : Bytes
store_dir = codes "/nix/store"

abbrev pub store_dir_with_slash : Bytes
store_dir_with_slash = codes "/nix/store/"

pub data StorePathError : Type 0 where
  missing_dash : StorePathError
  invalid_hash_encoding : DecodeError → StorePathError
  invalid_length : StorePathError
  invalid_name : Bytes → ℕ → StorePathError
  missing_store_dir : StorePathError

pub record StorePath : Type 0 where
  pub digest : Bytes
  pub name : Bytes

abbrev between : ℕ → ℕ → ℕ → Bool
between low high c = leb low c && leb c high

-- The pattern of `matches!` in the loop that fills `NAME_CHARS`.
unfoldable pub matches_name : ℕ → Bool
matches_name c =
    between 97 122 c
    || between 65 90 c
    || between 48 57 c
    || c == 43
    || c == 45
    || c == 95
    || c == 63
    || c == 61
    || c == 46

-- The loop, from `c` on, for `n` bytes.
unfoldable pub fill_chars : ℕ → ℕ → List Bool
unfolding matches_name
fill_chars zero c = []
fill_chars (suc n) c = matches_name c ∷ fill_chars n (c + 1)

unfoldable pub name_chars : List Bool
unfolding fill_chars
name_chars = fill_chars 256 0

unfoldable pub is_name_char : ℕ → Bool
unfolding name_chars
is_name_char c = get_or name_chars c false

-- `for &c in s { valid = valid && NAME_CHARS[c as usize]; }`.
unfoldable pub valid_loop : Bytes → Bool → Bool
valid_loop [] valid = valid
valid_loop (c ∷ cs) valid = valid_loop cs (valid && is_name_char c)

-- The position of the first byte that is not allowed, `none` for the `unreachable!()`.
unfoldable pub find_bad : Bytes → ℕ → Option ℕ
find_bad [] i = none
find_bad (c ∷ cs) i =
    let rest = find_bad cs (i + 1) in if not (is_name_char c) then some i else rest

unfoldable pub validate_name : Bytes → Result (Failure StorePathError) Bytes
unfolding valid_loop find_bad
validate_name s =
    if is_empty s || ltb 211 (length s)
    then err (error invalid_length)
    else if not (valid_loop s true)
    then elim (find_bad s 0) [
      | none ↦ err panic
      | some i ↦ err (error (invalid_name s (i % 2 ^ 8)))
    ]
    else ok s

unfoldable pub from_name_and_digest_fixed :
    Bytes → Bytes → Result (Failure StorePathError) StorePath
from_name_and_digest_fixed name digest =
    validate_name name >>= λ valid. ok (record { digest = digest; name = valid })

unfoldable pub from_name_and_digest : Bytes → Bytes → Result (Failure StorePathError) StorePath
unfolding from_name_and_digest_fixed
from_name_and_digest name digest =
    if not (length digest == digest_size)
    then err (error invalid_length)
    else from_name_and_digest_fixed name digest

unfoldable pub from_bytes : Bytes → Result (Failure StorePathError) StorePath
unfolding encoded_digest_size
from_bytes s = if ltb (length s) (encoded_digest_size + 2) then err (error invalid_length) else do
  digest ←
      map_err (map_failure invalid_hash_encoding)
        (decode_fixed digest_size (take encoded_digest_size s))
  if not (get_or s encoded_digest_size 0 == 45)
      then err (error missing_dash)
      else (validate_name (drop (encoded_digest_size + 1) s) >>= λ name.
          ok (record { digest = digest; name = name }))

-- `slice.strip_prefix(prefix)`.
unfoldable pub strip_prefix : Bytes → Bytes → Option Bytes
strip_prefix [] s = some s
strip_prefix (p ∷ ps) [] = none
strip_prefix (p ∷ ps) (c ∷ cs) = let rest = strip_prefix ps cs in if p == c then rest else none

unfoldable pub from_absolute_path : Bytes → Result (Failure StorePathError) StorePath
unfolding from_bytes strip_prefix
from_absolute_path s = elim (strip_prefix store_dir_with_slash s) [
  | some stripped ↦ from_bytes stripped
  | none ↦ err (error missing_store_dir)
]

-- `Display`; `none` where `encode` panics.
unfoldable pub display : StorePath → Option Bytes
display path = Option.map (λ text. text ++ (45 ∷ path.name)) (encode path.digest)

unfoldable pub to_absolute_path : StorePath → Option Bytes
unfolding display
to_absolute_path path = Option.map (λ text. store_dir_with_slash ++ text) (display path)

unfoldable pub cmp : StorePath → StorePath → Ordering
cmp a b = bytes_cmp (reverse a.digest) (reverse b.digest)
