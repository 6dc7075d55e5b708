-- ===== src/NixCompat/StorePath/RoundTrip.antt =====
-- nix-compat/src/store_path/mod.rs: printing a store path and parsing what was printed.
use tvix.Prelude.{
  ℕ, suc, ◌≡◌, refl, ap, subst, ◌∙◌, false, [], ◌∷◌, ◌++◌, some, Bytes, ltb, length, get_or, take,
  drop, ok, All, IsByte, length-append, take-append, arith,
}
use tvix.NixCompat.Nixbase32.{encode_len, decode_fixed}
use tvix.NixCompat.Nixbase32.RoundTrip.{decode-encode}
use tvix.NixCompat.StorePath.{
  StorePath, encoded_digest_size, from_bytes, from_absolute_path, display, to_absolute_path,
  store_dir_with_slash,
}
use tvix.NixCompat.StorePath.Names.{IsStoreName, validate_name-IsStoreName}

-- A digest of 20 bytes and a name that the naming rules allow.
pub record IsStorePath (path : StorePath) : Type 0 where
  pub digest_length : length path.digest ≡ 20
  pub digest_bytes : All IsByte path.digest
  pub named : IsStoreName path.name

get_or-append : (xs ys : Bytes) (y d : ℕ) → get_or (xs ++ (y ∷ ys)) (length xs) d ≡ y
get_or-append [] ys y d = refl
get_or-append (x ∷ xs) ys y d = get_or-append xs ys y d

drop-append_one : (xs ys : Bytes) (y : ℕ) → drop (suc (length xs)) (xs ++ (y ∷ ys)) ≡ ys
drop-append_one [] ys y = refl
drop-append_one (x ∷ xs) ys y = drop-append_one xs ys y

-- `from_bytes` on 32 characters that decode, a dash and a name.
from_bytes-text :
    (digest name text : Bytes)
    → length text ≡ 32
    → decode_fixed 20 text ≡ ok digest
    → IsStoreName name
    → from_bytes (text ++ (45 ∷ name)) ≡ ok (record { digest = digest; name = name })
unfolding from_bytes encoded_digest_size encode_len
from_bytes-text digest name text size decoded good =
    let long : ltb (length (text ++ (45 ∷ name))) 34 ≡ false =
      ground (arith, length-append text (45 ∷ name), size, good.0) in
    let head : take 32 (text ++ (45 ∷ name)) ≡ text =
      subst (λ n. take n (text ++ (45 ∷ name)) ≡ text) size (take-append text (45 ∷ name)) in
    let dash : get_or (text ++ (45 ∷ name)) 32 0 ≡ 45 =
      subst (λ n. get_or (text ++ (45 ∷ name)) n 0 ≡ 45) size (get_or-append text name 45 0) in
    let tail : drop 33 (text ++ (45 ∷ name)) ≡ name =
      subst (λ n. drop (suc n) (text ++ (45 ∷ name)) ≡ name) size (drop-append_one text name 45) in
    rw (from_bytes, long, head, decoded, dash, tail, validate_name-IsStoreName name good) refl

-- A store path of 20 bytes and a valid name is printed without a panic, and both its text and its
-- absolute path are parsed back to it.
pub from_bytes-display :
    (path : StorePath)
    → IsStorePath path
    → (text : Bytes) × (display path ≡ some text)
      × (from_bytes text ≡ ok path)
      × (to_absolute_path path ≡ some (store_dir_with_slash ++ text))
      × (from_absolute_path (store_dir_with_slash ++ text) ≡ ok path)
unfolding display to_absolute_path from_absolute_path encode_len
from_bytes-display path h =
    let (text, printed, size, _, decoded) = decode-encode path.digest h.digest_bytes in
    let decoded_20 = subst (λ n. decode_fixed n text ≡ ok path.digest) h.digest_length decoded in
    let size_32 : length text ≡ 32 = size ∙ ap encode_len h.digest_length in
    let parsed = from_bytes-text path.digest path.name text size_32 decoded_20 h.named in
    (
      text ++ (45 ∷ path.name),
      rw (display, printed) refl,
      parsed,
      rw (display, printed) refl,
      parsed,
    )
