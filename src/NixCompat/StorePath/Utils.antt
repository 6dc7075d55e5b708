-- ===== src/NixCompat/StorePath/Utils.antt =====
-- nix-compat/src/store_path/utils.rs: the store paths of contents, of content-addressed hashes and of
-- derivation outputs. `sha256` and `hexlower` stand for the hash function and the hexadecimal encoder.
pub mod Compress
pub mod References
pub mod Built
use tvix.Prelude.{
  ℕ, zero, suc, ◌+◌, ◌%◌, Bool, true, false, not, ◌&&◌, List, [], ◌∷◌, ◌++◌, Option, none, some,
  Bytes, codes, if◌then◌else◌, is_empty, get_or, set, replicate, Result, ok, err, Failure, error,
  map_failure, map_err, ◌>>=◌,
}
use Prim.Native.Nat.{bit_xor}
use mathlib.Core.Option
use tvix.NixCompat.Nixbase32.{encode}
use tvix.NixCompat.NixHash.{NixHash, CaHash, to_nix_hex_string}
use tvix.NixCompat.StorePath.{StorePath, StorePathError, store_dir, from_name_and_digest_fixed}

pub data BuildStorePathError : Type 0 where
  invalid_store_path : StorePathError → BuildStorePathError
  invalid_reference : BuildStorePathError

-- The loop, at the position `ii`.
unfoldable pub compress_loop : ℕ → Bytes → ℕ → Bytes → Bytes
compress_loop output_size [] ii output = output
compress_loop output_size (ch ∷ chs) ii output =
    let i = ii % output_size in
    compress_loop output_size chs (ii + 1) (set output i (bit_xor (get_or output i 0) ch))

-- `compress_hash`, of an output size that is not 0: there the code panics on a first byte.
unfoldable pub compress_hash : ℕ → Bytes → Bytes
unfolding compress_loop
compress_hash output_size input = compress_loop output_size input 0 (replicate output_size 0)

unfoldable pub push_references : Bytes → List Bytes → Bytes
push_references s [] = s
push_references s (reference ∷ references) = push_references (s ++ (58 ∷ reference)) references

unfoldable pub make_references_string : Bytes → List Bytes → Bool → Bytes
unfolding push_references
make_references_string ty references self_ref =
    let s = push_references ty references in if self_ref then s ++ codes ":self" else s

-- `matches!(ca_hash, CAHash::Nar(NixHash::Sha256(_)))`.
unfoldable pub is_nar_sha256 : CaHash → Bool
is_nar_sha256 (CaHash.nar (NixHash.sha256 d)) = true
is_nar_sha256 (CaHash.nar (NixHash.md5 d)) = false
is_nar_sha256 (CaHash.nar (NixHash.sha1 d)) = false
is_nar_sha256 (CaHash.nar (NixHash.sha512 d)) = false
is_nar_sha256 (CaHash.flat h) = false
is_nar_sha256 (CaHash.text d) = false

module _ (sha256 hexlower : Bytes → Bytes) where
  unfoldable pub build_store_path_from_fingerprint_parts :
      Bytes → Bytes → Bytes → Result (Failure StorePathError) StorePath
  unfolding compress_hash from_name_and_digest_fixed
  build_store_path_from_fingerprint_parts ty inner_digest name =
      let fingerprint =
        ty ++ (codes ":sha256:" ++ (hexlower inner_digest ++ (58 ∷ (store_dir ++ (58 ∷ name))))) in
      from_name_and_digest_fixed name (compress_hash 20 (sha256 fingerprint))

  unfoldable pub fixed_out_digest : Bytes → NixHash → Bytes
  unfolding to_nix_hex_string
  fixed_out_digest prefix hash =
      sha256 (prefix ++ (58 ∷ (to_nix_hex_string hexlower hash ++ (58 ∷ []))))

  -- The branch of every hash but the text and NAR ones of SHA-256, with the prefix of its kind.
  unfoldable pub fixed_parts :
      Bytes → NixHash → List Bytes → Result (Failure BuildStorePathError) (Bytes × Bytes)
  unfolding fixed_out_digest
  fixed_parts prefix hash references =
      if not (is_empty references)
      then err (error invalid_reference)
      else ok (codes "output:out", fixed_out_digest prefix hash)

  -- `let (ty, inner_digest) = match &ca_hash`.
  unfoldable pub parts :
      CaHash → List Bytes → Bool → Result (Failure BuildStorePathError) (Bytes × Bytes)
  unfolding make_references_string fixed_parts
  parts (CaHash.text digest) references self_reference =
      ok (make_references_string (codes "text") references false, digest)
  parts (CaHash.nar (NixHash.sha256 digest)) references self_reference =
      ok (make_references_string (codes "source") references self_reference, digest)
  parts (CaHash.nar (NixHash.md5 d)) references self_reference =
      fixed_parts (codes "fixed:out:r") (NixHash.md5 d) references
  parts (CaHash.nar (NixHash.sha1 d)) references self_reference =
      fixed_parts (codes "fixed:out:r") (NixHash.sha1 d) references
  parts (CaHash.nar (NixHash.sha512 d)) references self_reference =
      fixed_parts (codes "fixed:out:r") (NixHash.sha512 d) references
  parts (CaHash.flat hash) references self_reference =
      fixed_parts (codes "fixed:out") hash references

  unfoldable pub build_ca_path :
      Bytes → CaHash → List Bytes → Bool → Result (Failure BuildStorePathError) StorePath
  unfolding parts is_nar_sha256 build_store_path_from_fingerprint_parts
  build_ca_path name ca_hash references self_reference =
      if self_reference && is_nar_sha256 ca_hash
      then err (error invalid_reference)
      else (parts ca_hash references self_reference >>= λ found.
          map_err (map_failure invalid_store_path)
            (build_store_path_from_fingerprint_parts found.0 found.1 name))

  unfoldable pub build_text_path :
      Bytes → Bytes → List Bytes → Result (Failure BuildStorePathError) StorePath
  unfolding build_ca_path
  build_text_path name content references =
      build_ca_path name (CaHash.text (sha256 content)) references false

  unfoldable pub build_output_path :
      Bytes → Bytes → Bytes → Result (Failure StorePathError) StorePath
  unfolding build_store_path_from_fingerprint_parts
  build_output_path drv_sha256 output_name output_path_name =
      build_store_path_from_fingerprint_parts (codes "output:" ++ output_name) drv_sha256
        output_path_name

  unfoldable pub hash_placeholder : Bytes → Option Bytes
  hash_placeholder name =
      Option.map (λ text. 47 ∷ text) (encode (sha256 (codes "nix-output:" ++ name)))
