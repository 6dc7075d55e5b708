-- ===== src/NixCompat/NixHash/Hex.antt =====
-- nix-compat/src/nixhash/mod.rs: `to_nix_hex_string` against `from_nix_hex_str`.
use tvix.Prelude.{ℕ, ◌*◌, ◌≡◌, refl, ap, ◌∙◌, false, none, Bytes, ◌==◌, length}
use tvix.NixCompat.Nixbase32.{encode_len, decode_fixed}
use tvix.NixCompat.NixHash.{
  NixHash, digest_length, algo, digest_as_bytes, algo_text, split_once, decoded, from_nix_hex_str,
  to_nix_hex_string, to_plain_hex_string,
}

-- Digits of another number than nixbase32 has are not decoded.
decoded-length :
    (k n : ℕ) (make : Bytes → NixHash) (text : Bytes)
    → length text ≡ n
    → (n == encode_len k) ≡ false
    → decoded k make text ≡ none
unfolding decoded decode_fixed
decoded-length k n make text size other =
    let refused : (length text == encode_len k) ≡ false = rw size other in
    rw (decoded, decode_fixed, refused) refl

module _ (hexlower : Bytes → Bytes)
    (hexlower_length : (d : Bytes) → length (hexlower d) ≡ 2 * length d) where
  -- With an encoder that prints two digits for a byte, as `HEXLOWER` does, no hex text of a hash of
  -- any algorithm is parsed.
  pub from_nix_hex_str-to_nix_hex_string :
      (hash : NixHash)
      → length (digest_as_bytes hash) ≡ digest_length (algo hash)
      → from_nix_hex_str (to_nix_hex_string hexlower hash) ≡ none
  unfolding from_nix_hex_str to_nix_hex_string to_plain_hex_string digest_as_bytes algo algo_text
      digest_length split_once encode_len
  from_nix_hex_str-to_nix_hex_string (NixHash.md5 d) size =
      decoded-length 16 32 NixHash.md5 (hexlower d) (hexlower_length d ∙ ap (λ n. 2 * n) size) refl
  from_nix_hex_str-to_nix_hex_string (NixHash.sha1 d) size =
      decoded-length 20 40 NixHash.sha1 (hexlower d) (hexlower_length d ∙ ap (λ n. 2 * n) size) refl
  from_nix_hex_str-to_nix_hex_string (NixHash.sha256 d) size =
      decoded-length 32 64 NixHash.sha256 (hexlower d) (hexlower_length d ∙ ap (λ n. 2 * n) size)
        refl
  from_nix_hex_str-to_nix_hex_string (NixHash.sha512 d) size =
      decoded-length 64 128 NixHash.sha512 (hexlower d) (hexlower_length d ∙ ap (λ n. 2 * n) size)
        refl
