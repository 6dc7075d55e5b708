-- ===== src/NixCompat/NixHash.antt =====
-- nix-compat/src/nixhash: hashes, content-addressed hashes and their texts.
pub mod Texts
pub mod Hex
use tvix.Prelude.{
  ℕ, Bool, true, false, [], ◌∷◌, ◌++◌, Option, none, some, Bytes, codes, bytes_eq, bytes_cmp,
  Ordering, ◌==◌, not, if◌then◌else◌, length, Result, ok, err, Failure,
}
use mathlib.Core.Option
use tvix.NixCompat.Nixbase32.{DecodeError, encode, decode_fixed}
use tvix.NixCompat.StorePath.{strip_prefix}

pub data HashAlgo : Type 0 where
  md5 sha1 sha256 sha512 : HashAlgo

unfoldable pub digest_length : HashAlgo → ℕ
digest_length HashAlgo.sha1 = 20
digest_length HashAlgo.sha256 = 32
digest_length HashAlgo.sha512 = 64
digest_length HashAlgo.md5 = 16

unfoldable pub algo_text : HashAlgo → Bytes
algo_text HashAlgo.md5 = codes "md5"
algo_text HashAlgo.sha1 = codes "sha1"
algo_text HashAlgo.sha256 = codes "sha256"
algo_text HashAlgo.sha512 = codes "sha512"

-- The digests are arrays: their lengths are those of `IsNixHash`.
pub data NixHash : Type 0 where
  md5 sha1 sha256 sha512 : Bytes → NixHash

unfoldable pub algo : NixHash → HashAlgo
algo (NixHash.md5 d) = HashAlgo.md5
algo (NixHash.sha1 d) = HashAlgo.sha1
algo (NixHash.sha256 d) = HashAlgo.sha256
algo (NixHash.sha512 d) = HashAlgo.sha512

unfoldable pub digest_as_bytes : NixHash → Bytes
digest_as_bytes (NixHash.md5 d) = d
digest_as_bytes (NixHash.sha1 d) = d
digest_as_bytes (NixHash.sha256 d) = d
digest_as_bytes (NixHash.sha512 d) = d

unfoldable pub cmp : NixHash → NixHash → Ordering
unfolding digest_as_bytes
cmp a b = bytes_cmp (digest_as_bytes a) (digest_as_bytes b)

-- `s.split_once(':')`.
unfoldable pub split_once : ℕ → Bytes → Option (Bytes × Bytes)
split_once c [] = none
split_once c (b ∷ bs) =
    let rest = split_once c bs in
    if b == c then some ([], bs) else Option.map (λ parts. (b ∷ parts.0, parts.1)) rest

-- `decode_fixed(digest).map(make).ok()`.
unfoldable pub decoded : ℕ → (Bytes → NixHash) → Bytes → Option NixHash
decoded k make digest = elim (decode_fixed k digest) [ ok d ↦ some (make d) | err e ↦ none ]

unfoldable pub from_nix_hex_str : Bytes → Option NixHash
unfolding split_once decoded
from_nix_hex_str s = elim (split_once 58 s) [
  | none ↦ none
  | some (tag, digest) ↦
      if bytes_eq tag (codes "md5")
      then decoded 16 NixHash.md5 digest
      else if bytes_eq tag (codes "sha1")
      then decoded 20 NixHash.sha1 digest
      else if bytes_eq tag (codes "sha256")
      then decoded 32 NixHash.sha256 digest
      else if bytes_eq tag (codes "sha512")
      then decoded 64 NixHash.sha512 digest
      else none
]

-- `HEXLOWER.encode` is `hexlower`.
unfoldable pub to_plain_hex_string : (Bytes → Bytes) → NixHash → Bytes
unfolding digest_as_bytes
to_plain_hex_string hexlower hash = hexlower (digest_as_bytes hash)

unfoldable pub to_nix_hex_string : (Bytes → Bytes) → NixHash → Bytes
unfolding algo algo_text to_plain_hex_string
to_nix_hex_string hexlower hash = algo_text (algo hash) ++ (58 ∷ to_plain_hex_string hexlower hash)

-- `none` where `encode` panics.
unfoldable pub to_nix_nixbase32_string : NixHash → Option Bytes
unfolding algo algo_text digest_as_bytes
to_nix_nixbase32_string hash =
    Option.map (λ text. algo_text (algo hash) ++ (58 ∷ text)) (encode (digest_as_bytes hash))

pub data NixHashError : Type 0 where
  invalid_algo invalid_sri : Bytes → NixHashError
  invalid_encoded_digest_length : ℕ → HashAlgo → NixHashError
  invalid_base16_encoding invalid_base32_encoding invalid_base64_encoding :
      DecodeError → NixHashError
  conflicting_hash_algos : HashAlgo → HashAlgo → NixHashError
  missing_inline_hash_algo : Bytes → NixHashError

unfoldable pub of_algo : HashAlgo → Bytes → NixHash
of_algo HashAlgo.md5 d = NixHash.md5 d
of_algo HashAlgo.sha1 d = NixHash.sha1 d
of_algo HashAlgo.sha256 d = NixHash.sha256 d
of_algo HashAlgo.sha512 d = NixHash.sha512 d

unfoldable pub from_algo_and_digest : HashAlgo → Bytes → Result NixHashError NixHash
unfolding digest_length of_algo
from_algo_and_digest hash_algo digest =
    if not (length digest == digest_length hash_algo)
    then err (invalid_encoded_digest_length (length digest) hash_algo)
    else ok (of_algo hash_algo digest)

pub data CaHash : Type 0 where
  flat nar : NixHash → CaHash
  text : Bytes → CaHash

unfoldable pub hash_of : CaHash → NixHash
hash_of (CaHash.flat h) = h
hash_of (CaHash.nar h) = h
hash_of (CaHash.text d) = NixHash.sha256 d

unfoldable pub algo_str : CaHash → Bytes
algo_str (CaHash.flat (NixHash.md5 d)) = codes "fixed:md5"
algo_str (CaHash.flat (NixHash.sha1 d)) = codes "fixed:sha1"
algo_str (CaHash.flat (NixHash.sha256 d)) = codes "fixed:sha256"
algo_str (CaHash.flat (NixHash.sha512 d)) = codes "fixed:sha512"
algo_str (CaHash.nar (NixHash.md5 d)) = codes "fixed:r:md5"
algo_str (CaHash.nar (NixHash.sha1 d)) = codes "fixed:r:sha1"
algo_str (CaHash.nar (NixHash.sha256 d)) = codes "fixed:r:sha256"
algo_str (CaHash.nar (NixHash.sha512 d)) = codes "fixed:r:sha512"
algo_str (CaHash.text d) = codes "text:sha256"

unfoldable pub ca_text : Bytes → Option CaHash
ca_text s = elim (strip_prefix (codes "sha256:") s) [
  | none ↦ none
  | some digest ↦ elim (decode_fixed 32 digest) [ ok d ↦ some (CaHash.text d) | err e ↦ none ]
]

unfoldable pub ca_fixed : Bytes → Option CaHash
unfolding from_nix_hex_str
ca_fixed s = elim (strip_prefix (codes "r:") s) [
  | some recursive ↦ Option.map CaHash.nar (from_nix_hex_str recursive)
  | none ↦ Option.map CaHash.flat (from_nix_hex_str s)
]

unfoldable pub ca_from_nix_hex_str : Bytes → Option CaHash
unfolding split_once ca_text ca_fixed
ca_from_nix_hex_str s = elim (split_once 58 s) [
  | none ↦ none
  | some (tag, rest) ↦
      let fixed = ca_fixed rest in
      if bytes_eq tag (codes "text")
      then ca_text rest
      else if bytes_eq tag (codes "fixed")
      then fixed
      else none
]

unfoldable pub ca_to_nix_nixbase32_string : CaHash → Option Bytes
unfolding algo_str hash_of digest_as_bytes
ca_to_nix_nixbase32_string ca =
    Option.map (λ text. algo_str ca ++ (58 ∷ text)) (encode (digest_as_bytes (hash_of ca)))
