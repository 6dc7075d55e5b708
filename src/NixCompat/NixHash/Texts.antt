-- ===== src/NixCompat/NixHash/Texts.antt =====
-- nix-compat/src/nixhash: the nixbase32 texts of hashes, parsed again.
use tvix.Prelude.{ℕ, ◌≡◌, refl, ap, subst, ◌++◌, some, Bytes, codes, ok, length, All, IsByte}
use mathlib.Core.Option
use tvix.NixCompat.Nixbase32.{encode, decode_fixed}
use tvix.NixCompat.Nixbase32.RoundTrip.{decode-encode}
use tvix.NixCompat.StorePath.{strip_prefix}
use tvix.NixCompat.NixHash.{
  NixHash, CaHash, digest_length, algo, digest_as_bytes, algo_text, split_once, decoded,
  from_nix_hex_str, to_nix_nixbase32_string, hash_of, algo_str, ca_text, ca_fixed,
  ca_from_nix_hex_str, ca_to_nix_nixbase32_string,
}

-- A digest of the length that its algorithm has.
abbrev pub IsNixHash : NixHash → Type 0
IsNixHash h = (length (digest_as_bytes h) ≡ digest_length (algo h)) × All IsByte (digest_as_bytes h)

abbrev pub IsCaHash : CaHash → Type 0
IsCaHash ca = IsNixHash (hash_of ca)

-- The text of a digest, and that it is decoded again as an array of `k` bytes.
module _ (d : Bytes) (bytes : All IsByte d) (k : ℕ) (size : length d ≡ k) where
  pub printed : (text : Bytes) × (encode d ≡ some text) × (decode_fixed k text ≡ ok d)
  printed =
      let (text, e, _, _, back) = decode-encode d bytes in
      (text, e, subst (λ n. decode_fixed n text ≡ ok d) size back)

decoded-ok :
    (k : ℕ) (make : Bytes → NixHash) (text d : Bytes)
    → decode_fixed k text ≡ ok d
    → decoded k make text ≡ some (make d)
unfolding decoded
decoded-ok k make text d e = rw (decoded, e) refl

-- The nixbase32 text of a hash is parsed back to it.
from_nix_hex_str-to_nix_nixbase32_string :
    (hash : NixHash)
    → IsNixHash hash
    → (text : Bytes) × (to_nix_nixbase32_string hash ≡ some text)
      × (from_nix_hex_str text ≡ some hash)
unfolding to_nix_nixbase32_string from_nix_hex_str digest_as_bytes algo algo_text digest_length
    split_once decoded
from_nix_hex_str-to_nix_nixbase32_string (NixHash.md5 d) (size, bytes) =
    let (text, e, back) = printed d bytes 16 size in
    (codes "md5:" ++ text, rw e refl, decoded-ok 16 NixHash.md5 text d back)
from_nix_hex_str-to_nix_nixbase32_string (NixHash.sha1 d) (size, bytes) =
    let (text, e, back) = printed d bytes 20 size in
    (codes "sha1:" ++ text, rw e refl, decoded-ok 20 NixHash.sha1 text d back)
from_nix_hex_str-to_nix_nixbase32_string (NixHash.sha256 d) (size, bytes) =
    let (text, e, back) = printed d bytes 32 size in
    (codes "sha256:" ++ text, rw e refl, decoded-ok 32 NixHash.sha256 text d back)
from_nix_hex_str-to_nix_nixbase32_string (NixHash.sha512 d) (size, bytes) =
    let (text, e, back) = printed d bytes 64 size in
    (codes "sha512:" ++ text, rw e refl, decoded-ok 64 NixHash.sha512 text d back)

ca_text-ok :
    (text d : Bytes)
    → decode_fixed 32 text ≡ ok d
    → ca_text (codes "sha256:" ++ text) ≡ some (CaHash.text d)
unfolding ca_text strip_prefix
ca_text-ok text d e = rw (ca_text, e) refl

-- The nixbase32 text of a content-addressed hash, of each mode and algorithm, is parsed back to it.
pub ca_from_nix_hex_str-ca_to_nix_nixbase32_string :
    (ca : CaHash)
    → IsCaHash ca
    → (text : Bytes) × (ca_to_nix_nixbase32_string ca ≡ some text)
      × (ca_from_nix_hex_str text ≡ some ca)
unfolding ca_to_nix_nixbase32_string ca_from_nix_hex_str ca_fixed strip_prefix hash_of algo_str
    from_nix_hex_str digest_as_bytes algo digest_length split_once
ca_from_nix_hex_str-ca_to_nix_nixbase32_string (CaHash.flat (NixHash.md5 d)) (size, bytes) =
    let (text, e, back) = printed d bytes 16 size in
    (
      codes "fixed:md5:" ++ text,
      rw e refl,
      ap (Option.map CaHash.flat) (decoded-ok 16 NixHash.md5 text d back),
    )
ca_from_nix_hex_str-ca_to_nix_nixbase32_string (CaHash.flat (NixHash.sha1 d)) (size, bytes) =
    let (text, e, back) = printed d bytes 20 size in
    (
      codes "fixed:sha1:" ++ text,
      rw e refl,
      ap (Option.map CaHash.flat) (decoded-ok 20 NixHash.sha1 text d back),
    )
ca_from_nix_hex_str-ca_to_nix_nixbase32_string (CaHash.flat (NixHash.sha256 d)) (size, bytes) =
    let (text, e, back) = printed d bytes 32 size in
    (
      codes "fixed:sha256:" ++ text,
      rw e refl,
      ap (Option.map CaHash.flat) (decoded-ok 32 NixHash.sha256 text d back),
    )
ca_from_nix_hex_str-ca_to_nix_nixbase32_string (CaHash.flat (NixHash.sha512 d)) (size, bytes) =
    let (text, e, back) = printed d bytes 64 size in
    (
      codes "fixed:sha512:" ++ text,
      rw e refl,
      ap (Option.map CaHash.flat) (decoded-ok 64 NixHash.sha512 text d back),
    )
ca_from_nix_hex_str-ca_to_nix_nixbase32_string (CaHash.nar (NixHash.md5 d)) (size, bytes) =
    let (text, e, back) = printed d bytes 16 size in
    (
      codes "fixed:r:md5:" ++ text,
      rw e refl,
      ap (Option.map CaHash.nar) (decoded-ok 16 NixHash.md5 text d back),
    )
ca_from_nix_hex_str-ca_to_nix_nixbase32_string (CaHash.nar (NixHash.sha1 d)) (size, bytes) =
    let (text, e, back) = printed d bytes 20 size in
    (
      codes "fixed:r:sha1:" ++ text,
      rw e refl,
      ap (Option.map CaHash.nar) (decoded-ok 20 NixHash.sha1 text d back),
    )
ca_from_nix_hex_str-ca_to_nix_nixbase32_string (CaHash.nar (NixHash.sha256 d)) (size, bytes) =
    let (text, e, back) = printed d bytes 32 size in
    (
      codes "fixed:r:sha256:" ++ text,
      rw e refl,
      ap (Option.map CaHash.nar) (decoded-ok 32 NixHash.sha256 text d back),
    )
ca_from_nix_hex_str-ca_to_nix_nixbase32_string (CaHash.nar (NixHash.sha512 d)) (size, bytes) =
    let (text, e, back) = printed d bytes 64 size in
    (
      codes "fixed:r:sha512:" ++ text,
      rw e refl,
      ap (Option.map CaHash.nar) (decoded-ok 64 NixHash.sha512 text d back),
    )
ca_from_nix_hex_str-ca_to_nix_nixbase32_string (CaHash.text d) (size, bytes) =
    let (text, e, back) = printed d bytes 32 size in
    (codes "text:sha256:" ++ text, rw e refl, ca_text-ok text d back)
