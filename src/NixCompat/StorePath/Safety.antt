-- ===== src/NixCompat/StorePath/Safety.antt =====
-- nix-compat/src/store_path/mod.rs: parsing any bytes.
use tvix.Prelude.{
  ℕ, zero, suc, ◌+◌, ◌≡◌, refl, ◌⊎◌, inl, inr, [], ◌∷◌, Bytes, ◌==◌, ltb, length, get_or, take,
  drop, ok, err, error, All, IsByte, Bool-cases,
}
use tvix.NixCompat.Nixbase32.Safety.{decode_fixed_total}
use tvix.NixCompat.StorePath.{
  StorePath, StorePathError, missing_dash, invalid_length, invalid_name, invalid_hash_encoding,
  encoded_digest_size, from_bytes,
}
use tvix.NixCompat.StorePath.Names.{validate_name_lem}
use tvix.NixCompat.StorePath.RoundTrip.{IsStorePath}

take-bytes : (n : ℕ) (s : Bytes) → All IsByte s → All IsByte (take n s)
take-bytes zero s h = tt
take-bytes (suc n) [] h = tt
take-bytes (suc n) (x ∷ xs) h = (h.0, take-bytes n xs h.1)

-- Parsing bytes gives a store path, of 20 bytes and a valid name, or an error, and never panics.
pub from_bytes_total :
    (s : Bytes)
    → All IsByte s
    → ((path : StorePath) × (from_bytes s ≡ ok path) × IsStorePath path)
      ⊎ ((e : StorePathError) × (from_bytes s ≡ err (error e)))
unfolding from_bytes
from_bytes_total s bytes = elim (Bool-cases (ltb (length s) (encoded_digest_size + 2))) [
  | inl short ↦ inr (invalid_length, rw (from_bytes, short) refl)
  | inr long ↦
      elim (decode_fixed_total 20 (take encoded_digest_size s)
        (take-bytes encoded_digest_size s bytes)) [
          | inr (e, failed) ↦ inr (invalid_hash_encoding e, rw (from_bytes, long, failed) refl)
          | inl (digest, decoded, size, digest_bytes) ↦
              elim (Bool-cases (get_or s encoded_digest_size 0 == 45)) [
                | inr other ↦ inr (missing_dash, rw (from_bytes, long, decoded, other) refl)
                | inl dash ↦ elim (validate_name_lem (drop (encoded_digest_size + 1) s)) [
                  | inl (valid, good) ↦ inl (
                    record { digest = digest; name = drop (encoded_digest_size + 1) s },
                    rw (from_bytes, long, decoded, dash, valid) refl,
                    record { digest_length = size; digest_bytes = digest_bytes; named = good },
                  )
                  | inr (inl (bad, _)) ↦
                      inr (invalid_length, rw (from_bytes, long, decoded, dash, bad) refl)
                  | inr (inr (i, bad, _, _)) ↦ inr (
                    invalid_name (drop (encoded_digest_size + 1) s) i,
                    rw (from_bytes, long, decoded, dash, bad) refl,
                  )
                ]
              ]
        ]
]
