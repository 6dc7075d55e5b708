-- ===== src/NixCompat/Examples.antt =====
-- The theorems on nix-compat at concrete inputs, and runs of its functions.
use tvix.Prelude.{
  ℕ, ◌*◌, ◌/◌, ◌%◌, ◌<◌, ◌≡◌, refl, ◌⊎◌, inl, false, [], ◌∷◌, ◌++◌, none, some, Bytes, codes,
  length, get_or, replicate, ok, err, error, All, IsByte, arith,
}
use tvix.NixCompat.StorePath.Names.{IsStoreName}
use tvix.NixCompat.Nixbase32.{DecodeError, DecodeKind, encode, encode_len, decode, decode_fixed}
use tvix.NixCompat.Nixbase32.Cells.{replicate-bytes}
use tvix.NixCompat.Nixbase32.RoundTrip.{decode-encode}
use tvix.NixCompat.Nixbase32.Safety.{decode_fixed_total}
use tvix.NixCompat.StorePath.{
  StorePath, StorePathError, is_name_char, validate_name, from_bytes, from_absolute_path, display,
  to_absolute_path, store_dir_with_slash, from_name_and_digest_fixed,
}
use tvix.NixCompat.StorePath.RoundTrip.{IsStorePath, from_bytes-display}
use tvix.NixCompat.StorePath.Safety.{from_bytes_total}
use tvix.NixCompat.StorePath.Utils.{
  compress_hash, build_ca_path, build_store_path_from_fingerprint_parts,
}
use tvix.NixCompat.StorePath.Utils.Compress.{column, compress_hash_lem}
use tvix.NixCompat.StorePath.Utils.Built.{Built, build_ca_path_lem}
use tvix.NixCompat.NixHash.{
  NixHash, CaHash, algo, digest_as_bytes, digest_length, hash_of, to_nix_hex_string,
  from_nix_hex_str, ca_to_nix_nixbase32_string, ca_from_nix_hex_str,
}
use tvix.NixCompat.NixHash.Texts.{ca_from_nix_hex_str-ca_to_nix_nixbase32_string}
use tvix.NixCompat.NixHash.Hex.{from_nix_hex_str-to_nix_hex_string}

abbrev one_byte : Bytes
one_byte = 0x1f ∷ []

abbrev digest_20 : Bytes
digest_20 = 0x8a ∷ replicate 19 0

abbrev digest_32 : Bytes
digest_32 = 0xb3 ∷ replicate 31 0

encode_one : encode one_byte ≡ some (codes "0z")
unfolding encode
encode_one = refl

decode_trailing :
    decode (codes "zz") ≡ err (error (record { position = 0; kind = DecodeKind.trailing }))
unfolding decode
decode_trailing = refl

decode_odd : decode (codes "0") ≡ err (error (record { position = 0; kind = DecodeKind.length }))
unfolding decode
decode_odd = refl

decode-encode_example :
    (text : Bytes) × (encode one_byte ≡ some text)
    × (length text ≡ encode_len (length one_byte))
    × (decode text ≡ ok one_byte)
    × (decode_fixed (length one_byte) text ≡ ok one_byte)
decode-encode_example = decode-encode one_byte (omega arith, tt)

decode_fixed_total_example :
    ((d : Bytes) × (decode_fixed 1 (codes "zz") ≡ ok d) × (length d ≡ 1) × All IsByte d)
    ⊎ ((e : DecodeError) × (decode_fixed 1 (codes "zz") ≡ err (error e)))
decode_fixed_total_example = decode_fixed_total 1 (codes "zz") (omega arith, (omega arith, tt))

abbrev foo : Bytes
foo = codes "foo"

foo-IsStoreName : IsStoreName foo
foo-IsStoreName = (
  omega arith,
  omega arith,
  (
    inl (omega arith, omega arith),
    (inl (omega arith, omega arith), (inl (omega arith, omega arith), tt)),
  ),
)

abbrev foo_path : StorePath
foo_path = record { digest = digest_20; name = foo }

foo_path-IsStorePath : IsStorePath foo_path
foo_path-IsStorePath = record {
  digest_length = refl;
  digest_bytes = (omega arith, replicate-bytes 19);
  named = foo-IsStoreName;
}

from_bytes-display_example :
    (text : Bytes) × (display foo_path ≡ some text)
    × (from_bytes text ≡ ok foo_path)
    × (to_absolute_path foo_path ≡ some (store_dir_with_slash ++ text))
    × (from_absolute_path (store_dir_with_slash ++ text) ≡ ok foo_path)
from_bytes-display_example = from_bytes-display foo_path foo_path-IsStorePath

from_bytes_total_example :
    ((path : StorePath) × (from_bytes foo ≡ ok path) × IsStorePath path)
    ⊎ ((e : StorePathError) × (from_bytes foo ≡ err (error e)))
from_bytes_total_example = from_bytes_total foo (omega arith, (omega arith, (omega arith, tt)))

compress_hash_lem_example :
    (length (compress_hash 2 (1 ∷ 2 ∷ 4 ∷ [])) ≡ 2)
    × ((i : ℕ)
        → i < 2
        → get_or (compress_hash 2 (1 ∷ 2 ∷ 4 ∷ [])) i 0 ≡ column 2 i 0 (1 ∷ 2 ∷ 4 ∷ []) 0)
compress_hash_lem_example = compress_hash_lem 2 (1 ∷ 2 ∷ 4 ∷ [])

compress_hash_run : compress_hash 2 (1 ∷ 2 ∷ 4 ∷ []) ≡ 5 ∷ 2 ∷ []
unfolding compress_hash
compress_hash_run = refl

-- A function in the place of SHA-256, and hexadecimal digits.
abbrev toy_hash : Bytes → Bytes
toy_hash input = length input % 256 ∷ replicate 31 0

toy_hash-bytes : (input : Bytes) → All IsByte (toy_hash input)
toy_hash-bytes input = (omega arith, replicate-bytes 31)

abbrev hex_digit : ℕ → ℕ
hex_digit n = get_or (codes "0123456789abcdef") n 0

abbrev hex : Bytes → Bytes
hex [] = []
hex (b ∷ bs) = hex_digit (b / 16) ∷ hex_digit (b % 16) ∷ hex bs

length-hex : (d : Bytes) → length (hex d) ≡ 2 * length d
length-hex [] = refl
length-hex (b ∷ bs) = omega (arith, length-hex bs)

abbrev nar_hash : CaHash
nar_hash = CaHash.nar (NixHash.sha256 digest_32)

abbrev nar_path : StorePath
nar_path = record { digest = 93 ∷ replicate 19 0; name = foo }

nar_path_built : build_ca_path toy_hash hex foo nar_hash [] false ≡ ok nar_path
unfolding build_ca_path build_store_path_from_fingerprint_parts from_name_and_digest_fixed
    validate_name is_name_char compress_hash
nar_path_built = refl

build_ca_path_lem_example : Built toy_hash hex foo nar_hash (foo ∷ []) false
build_ca_path_lem_example =
    build_ca_path_lem toy_hash hex toy_hash-bytes foo nar_hash (foo ∷ []) false

digest_32-bytes : All IsByte digest_32
digest_32-bytes = (omega arith, replicate-bytes 31)

ca_from_nix_hex_str-ca_to_nix_nixbase32_string_example :
    (text : Bytes) × (ca_to_nix_nixbase32_string nar_hash ≡ some text)
    × (ca_from_nix_hex_str text ≡ some nar_hash)
unfolding hash_of algo digest_as_bytes digest_length
ca_from_nix_hex_str-ca_to_nix_nixbase32_string_example =
    ca_from_nix_hex_str-ca_to_nix_nixbase32_string nar_hash (refl, digest_32-bytes)

from_nix_hex_str-to_nix_hex_string_example :
    from_nix_hex_str (to_nix_hex_string hex (NixHash.sha256 digest_32)) ≡ none
unfolding algo digest_as_bytes digest_length
from_nix_hex_str-to_nix_hex_string_example =
    from_nix_hex_str-to_nix_hex_string hex length-hex (NixHash.sha256 digest_32) refl
