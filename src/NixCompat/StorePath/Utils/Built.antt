-- ===== src/NixCompat/StorePath/Utils/Built.antt =====
-- nix-compat/src/store_path/utils.rs: what `build_ca_path` gives, said without its steps.
use tvix.Prelude.{
  ◌≡◌, ◌≢◌, refl, sym, ◌∙◌, ◌⊎◌, inl, inr, Bool, true, false, ◌&&◌, if◌then◌else◌, ◌>>=◌, List, [],
  ◌∷◌, ◌++◌, append_assoc, append-nil, Bytes, codes, Result, Failure, map_failure, map_err, ok, err,
  error, All, IsByte,
}
use tvix.NixCompat.NixHash.{NixHash, CaHash, to_nix_hex_string}
use tvix.NixCompat.StorePath.{StorePath, StorePathError, validate_name, from_name_and_digest_fixed}
use tvix.NixCompat.StorePath.Names.{IsStoreName, validate_name_lem, validate_name-IsStoreName}
use tvix.NixCompat.StorePath.RoundTrip.{IsStorePath}
use tvix.NixCompat.StorePath.Utils.{
  BuildStorePathError, invalid_reference, invalid_store_path, push_references,
  make_references_string, compress_hash, fixed_out_digest, fixed_parts, is_nar_sha256,
  build_store_path_from_fingerprint_parts, parts, build_ca_path,
}
use tvix.NixCompat.StorePath.Utils.Compress.{compress_hash_lem, compress_hash-bytes}

-- Each reference behind a colon.
abbrev pub behind_colons : List Bytes → Bytes
behind_colons [] = []
behind_colons (reference ∷ references) = 58 ∷ (reference ++ behind_colons references)

push_references_lem :
    (s : Bytes) (references : List Bytes)
    → push_references s references ≡ s ++ behind_colons references
unfolding push_references
push_references_lem s [] = sym (append-nil s)
push_references_lem s (reference ∷ references) =
    push_references_lem (s ++ (58 ∷ reference)) references
    ∙ append_assoc s (58 ∷ reference) (behind_colons references)

-- A self-reference of a NAR hash of SHA-256, or a reference of a hash that can have none.
abbrev pub Unsupported : CaHash → List Bytes → Bool → Type 0
Unsupported (CaHash.text d) references self_reference = ⊥
Unsupported (CaHash.nar (NixHash.sha256 d)) references self_reference = self_reference ≡ true
Unsupported (CaHash.nar (NixHash.md5 d)) references self_reference = references ≢ []
Unsupported (CaHash.nar (NixHash.sha1 d)) references self_reference = references ≢ []
Unsupported (CaHash.nar (NixHash.sha512 d)) references self_reference = references ≢ []
Unsupported (CaHash.flat h) references self_reference = references ≢ []

-- The first part of the fingerprint.
abbrev pub fingerprint_type : CaHash → List Bytes → Bytes
fingerprint_type (CaHash.text d) references = codes "text" ++ behind_colons references
fingerprint_type (CaHash.nar (NixHash.sha256 d)) references =
    codes "source" ++ behind_colons references
fingerprint_type (CaHash.nar (NixHash.md5 d)) references = codes "output:out"
fingerprint_type (CaHash.nar (NixHash.sha1 d)) references = codes "output:out"
fingerprint_type (CaHash.nar (NixHash.sha512 d)) references = codes "output:out"
fingerprint_type (CaHash.flat h) references = codes "output:out"

module _ (sha256 hexlower : Bytes → Bytes) where
  abbrev recursive_digest : NixHash → Bytes
  recursive_digest h = sha256 (codes "fixed:out:r:" ++ (to_nix_hex_string hexlower h ++ codes ":"))

  -- The digest in the fingerprint.
  abbrev pub fingerprint_digest : CaHash → Bytes
  fingerprint_digest (CaHash.text d) = d
  fingerprint_digest (CaHash.nar (NixHash.sha256 d)) = d
  fingerprint_digest (CaHash.nar (NixHash.md5 d)) = recursive_digest (NixHash.md5 d)
  fingerprint_digest (CaHash.nar (NixHash.sha1 d)) = recursive_digest (NixHash.sha1 d)
  fingerprint_digest (CaHash.nar (NixHash.sha512 d)) = recursive_digest (NixHash.sha512 d)
  fingerprint_digest (CaHash.flat h) =
      sha256 (codes "fixed:out:" ++ (to_nix_hex_string hexlower h ++ codes ":"))

  -- The path of a fingerprint with this type and digest.
  abbrev pub path_of : Bytes → Bytes → Bytes → StorePath
  path_of ty digest name = record {
    digest =
        compress_hash 20 (
          sha256 (ty ++ (codes ":sha256:" ++ (hexlower digest ++ (codes ":/nix/store:" ++ name)))));
    name = name;
  }

  module _ (name : Bytes) where
    -- The path of a fingerprint, or the error that the name has.
    abbrev pub Named : Bytes → Bytes → Result (Failure BuildStorePathError) StorePath → Type 0
    Named ty digest built =
        (IsStoreName name
          × (built ≡ ok (path_of ty digest name))
          × IsStorePath (path_of ty digest name))
        ⊎ ((¬ IsStoreName name)
            × (e : StorePathError) × (validate_name name ≡ err (error e))
            × (built ≡ err (error (invalid_store_path e))))

    -- What `build_ca_path` comes to.
    abbrev pub Built : CaHash → List Bytes → Bool → Type 0
    Built ca references self_reference =
        (Unsupported ca references self_reference
          × (build_ca_path sha256 hexlower name ca references self_reference
              ≡ err (error invalid_reference)))
        ⊎ ((¬ Unsupported ca references self_reference)
            × Named (fingerprint_type ca references) (fingerprint_digest ca)
                (build_ca_path sha256 hexlower name ca references self_reference))

  module _ (sha256_bytes : (input : Bytes) → All IsByte (sha256 input)) (name : Bytes) where
    finish : Bytes → Bytes → Result (Failure BuildStorePathError) StorePath
    finish ty digest =
        map_err (map_failure invalid_store_path)
          (build_store_path_from_fingerprint_parts sha256 hexlower ty digest name)

    not_name : (e : StorePathError) → validate_name name ≡ err (error e) → ¬ IsStoreName name
    not_name e failed good = cc (failed, validate_name-IsStoreName name good)

    bad-Named :
        (ty digest : Bytes) (e : StorePathError)
        → validate_name name ≡ err (error e)
        → Named name ty digest (finish ty digest)
    unfolding finish build_store_path_from_fingerprint_parts from_name_and_digest_fixed
    bad-Named ty digest e failed = inr (not_name e failed, e, failed, rw failed refl)

    finish-Named : (ty digest : Bytes) → Named name ty digest (finish ty digest)
    unfolding finish build_store_path_from_fingerprint_parts from_name_and_digest_fixed
    finish-Named ty digest = elim (validate_name_lem name) [
      | inl (valid, good) ↦
          let hashed =
            sha256
              (ty ++ (codes ":sha256:" ++ (hexlower digest ++ (codes ":/nix/store:" ++ name)))) in
          inl (
            good,
            rw valid refl,
            record {
              digest_length = (compress_hash_lem 20 hashed).0;
              digest_bytes = compress_hash-bytes 20 hashed (sha256_bytes _);
              named = good;
            },
          )
      | inr (inl (failed, length_bad)) ↦ bad-Named ty digest _ failed
      | inr (inr (i, failed, fits, first)) ↦ bad-Named ty digest _ failed
    ]

    references-Named :
        (ty : Bytes) (references : List Bytes) (digest : Bytes)
        → Named name
            (ty ++ behind_colons references)
            digest
            (finish (push_references ty references) digest)
    references-Named ty references digest =
        rw (push_references_lem ty references)
          (finish-Named (ty ++ behind_colons references) digest)

    -- The branches that take no references, behind the guard of another kind of hash.
    abbrev fixed_built :
        Bytes → NixHash → List Bytes → Bool → Result (Failure BuildStorePathError) StorePath
    fixed_built prefix h references self_reference =
        if self_reference && false
        then err (error invalid_reference)
        else (fixed_parts sha256 hexlower prefix h references >>= λ found. finish found.0 found.1)

    fixed-Named :
        (prefix : Bytes) (h : NixHash) (references : List Bytes) (self_reference : Bool)
        → ((references ≢ [])
            × (fixed_built prefix h references self_reference ≡ err (error invalid_reference)))
          ⊎ ((¬ (references ≢ []))
              × Named name
                  (codes "output:out")
                  (fixed_out_digest sha256 hexlower prefix h)
                  (fixed_built prefix h references self_reference))
    unfolding fixed_parts
    fixed-Named prefix h [] true = inr (
      λ ne. ne refl,
      finish-Named (codes "output:out") (fixed_out_digest sha256 hexlower prefix h),
    )
    fixed-Named prefix h [] false = inr (
      λ ne. ne refl,
      finish-Named (codes "output:out") (fixed_out_digest sha256 hexlower prefix h),
    )
    fixed-Named prefix h (r ∷ rs) true = inl (λ e. cc, refl)
    fixed-Named prefix h (r ∷ rs) false = inl (λ e. cc, refl)

    -- With a hash function that gives bytes: a self-reference of a NAR hash of SHA-256, and any reference of
    -- a flat hash or a NAR hash of another kind, is refused, whatever the name. Otherwise a valid name gives
    -- the path, a well-formed one, of the fingerprint `<type>:sha256:<digest in hex>:/nix/store:<name>`,
    -- whose type is `text` or `source` with the references or `output:out`, and whose digest is that of
    -- the hash or, with `output:out`, of the text `fixed:out:[r:]<hash>:`; another name gives the error of
    -- its check.
    pub build_ca_path_lem :
        (ca : CaHash) (references : List Bytes) (self_reference : Bool)
        → Built name ca references self_reference
    unfolding build_ca_path is_nar_sha256 parts fixed_parts fixed_out_digest make_references_string
        finish
    build_ca_path_lem (CaHash.text d) references true =
        inr (λ no. no, references-Named (codes "text") references d)
    build_ca_path_lem (CaHash.text d) references false =
        inr (λ no. no, references-Named (codes "text") references d)
    build_ca_path_lem (CaHash.nar (NixHash.sha256 d)) references true = inl (refl, refl)
    build_ca_path_lem (CaHash.nar (NixHash.sha256 d)) references false =
        inr (λ e. cc, references-Named (codes "source") references d)
    build_ca_path_lem (CaHash.nar (NixHash.md5 d)) references self_reference =
        fixed-Named (codes "fixed:out:r") (NixHash.md5 d) references self_reference
    build_ca_path_lem (CaHash.nar (NixHash.sha1 d)) references self_reference =
        fixed-Named (codes "fixed:out:r") (NixHash.sha1 d) references self_reference
    build_ca_path_lem (CaHash.nar (NixHash.sha512 d)) references self_reference =
        fixed-Named (codes "fixed:out:r") (NixHash.sha512 d) references self_reference
    build_ca_path_lem (CaHash.flat h) references self_reference =
        fixed-Named (codes "fixed:out") h references self_reference
