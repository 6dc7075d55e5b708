-- ===== src/NixCompat/Nar/Pieces.antt =====
-- nix-compat/src/nar/reader/read.rs on what the writer writes: tokens, tags, lengths and strings.
use tvix.Prelude.{
  ℕ, zero, suc, ◌-◌, ◌%◌, ◌^◌, ◌≤◌, ◌<◌, ◌≡◌, refl, sym, ap, subst, ◌∙◌, true, false, [], ◌∷◌, ◌++◌,
  append_assoc, append-nil, List, some, Bytes, bytes_eq_refl, ◌==◌, ==_iff, ltb, if◌then◌else◌,
  length, get_or, take, drop, is_empty, replicate, ok, length-append, length-replicate, take-append,
  drop-append, arith, Bool-cases, inl, inr,
}
use tvix.NixCompat.Nixbase32.Bits.{each_shift}
use tvix.NixCompat.Nar.{Tag, min_len, from_u8}
use tvix.NixCompat.Nar.Read.{
  read_exact, from_le_bytes, read_u64, zeroes, padded, read_bytes, bytes_buf, token, tag_tail,
  tag_head, read_tag, ◌>>=◌,
}
use tvix.NixCompat.Nar.Writer.{to_le_bytes, pad}
use tvix.NixCompat.Nar.Tree.{padding, packed}

pub token-append : (t s : Bytes) → token t (t ++ s) ≡ ok (tt, s)
unfolding token
token-append [] s = refl
token-append (t ∷ ts) s = rw ((==_iff t t).1 refl) (token-append ts s)

pub read_exact-append : (n : ℕ) (xs s : Bytes) → length xs ≡ n → read_exact n (xs ++ s) ≡ ok (xs, s)
unfolding read_exact
read_exact-append n xs s e =
    let enough : ltb (length (xs ++ s)) n ≡ false = ground (arith, length-append xs s, e) in
    let front = subst (λ k. take k (xs ++ s) ≡ xs) e (take-append xs s) in
    let back = subst (λ k. drop k (xs ++ s) ≡ s) e (drop-append xs s) in
    rw (read_exact, enough, front, back) refl

pub length-to_le_bytes : (n : ℕ) → length (to_le_bytes n) ≡ 8
unfolding to_le_bytes
length-to_le_bytes n = refl

from_le_bytes-to_le_bytes : (n : ℕ) → n < 2 ^ 64 → from_le_bytes (to_le_bytes n) ≡ n
unfolding from_le_bytes to_le_bytes
from_le_bytes-to_le_bytes n h = omega arith

pub read_u64-append : (n : ℕ) (s : Bytes) → n < 2 ^ 64 → read_u64 (to_le_bytes n ++ s) ≡ ok (n, s)
unfolding read_u64
read_u64-append n s h =
    rw
      (
        read_u64,
        ◌>>=◌,
        read_exact-append 8 (to_le_bytes n) s (length-to_le_bytes n),
        from_le_bytes-to_le_bytes n h,
      )
      refl

zeroes-replicate : (n : ℕ) → zeroes (replicate n 0) ≡ true
unfolding zeroes
zeroes-replicate zero = refl
zeroes-replicate (suc n) = zeroes-replicate n

length-padded : (s : Bytes) → length (s ++ padding (length s)) ≡ padded (length s)
length-padded s = omega (
  arith,
  length-append s (padding (length s)),
  length-replicate {A = ℕ} ((8 - length s % 8) % 8) 0,
)

-- What is left after the length of a string.
module _ (string s : Bytes) where
  abbrev body : Bytes
  body = (string ++ padding (length string)) ++ s

  packed-append : packed string ++ s ≡ to_le_bytes (length string) ++ body
  packed-append = append_assoc (to_le_bytes (length string)) (string ++ padding (length string)) s

  read_body : read_exact (padded (length string)) body ≡ ok (string ++ padding (length string), s)
  read_body =
      read_exact-append (padded (length string)) (string ++ padding (length string)) s
        (length-padded string)

  no_garbage : zeroes (drop (length string) (string ++ padding (length string))) ≡ true
  no_garbage =
      rw (drop-append string (padding (length string)))
        (zeroes-replicate ((8 - length string % 8) % 8))

  module _ (max_len : ℕ) (h : length string ≤ max_len) (small : max_len < 2 ^ 64) where
    within : ltb max_len (length string) ≡ false
    within = ground arith

    -- A string that is not too long is read back.
    pub read_bytes-packed : read_bytes max_len (packed string ++ s) ≡ ok (string, s)
    unfolding read_bytes
    read_bytes-packed =
        let len = read_u64-append (length string) body (omega (arith, h, small)) in
        rw
          (
            packed-append,
            read_bytes,
            ◌>>=◌,
            len,
            within,
            read_body,
            no_garbage,
            take-append string (padding (length string)),
          )
          refl

    pub bytes_buf-packed :
        (n : ℕ) → padded max_len ≤ n → bytes_buf n max_len (packed string ++ s) ≡ ok (string, s)
    unfolding bytes_buf
    bytes_buf-packed n room =
        let len = read_u64-append (length string) body (omega (arith, h, small)) in
        let monotone : padded (length string) ≤ padded max_len = omega (arith, h) in
        let fits : ltb n (padded (length string)) ≡ false = ground (arith, monotone) in
        rw
          (
            packed-append,
            bytes_buf,
            ◌>>=◌,
            len,
            within,
            fits,
            read_body,
            no_garbage,
            take-append string (padding (length string)),
          )
          refl

pub take-drop {ℓ} : {A : Type ℓ} (n : ℕ) (xs : List A) → take n xs ++ drop n xs ≡ xs
take-drop zero xs = refl
take-drop (suc n) [] = refl
take-drop (suc n) (x ∷ xs) = ap (λ t. x ∷ t) (take-drop n xs)

is_empty→nil {ℓ} : {A : Type ℓ} (xs : List A) → is_empty xs ≡ true → xs ≡ []
is_empty→nil [] h = refl
is_empty→nil (x ∷ xs) h = cc

module _ {T : Type 0} (tags : Tag T) where
  tag_tail-append :
      (t : T) (s : Bytes) → tag_tail tags t (drop (min_len tags) (tags.as_bytes t) ++ s) ≡ ok (t, s)
  unfolding tag_tail
  tag_tail-append t s =
      let tail = drop (min_len tags) (tags.as_bytes t) in
      elim (Bool-cases (is_empty tail)) [
        | inl none_left ↦ rw (tag_tail, none_left, is_empty→nil tail none_left) refl
        | inr more ↦
            rw
              (
                tag_tail,
                more,
                ◌>>=◌,
                read_exact-append (length tail) tail s refl,
                bytes_eq_refl tail,
              )
              refl
      ]

  -- A token of the set is recognised, and nothing behind it is read.
  pub read_tag-append :
      (t : T) (s : Bytes)
      → length (take (min_len tags) (tags.as_bytes t)) ≡ min_len tags
      → from_u8 tags (get_or (take (min_len tags) (tags.as_bytes t)) tags.off 0) ≡ some t
      → read_tag tags (tags.as_bytes t ++ s) ≡ ok (t, s)
  unfolding read_tag tag_head tag_tail
  read_tag-append t s e d =
      let bytes = tags.as_bytes t in
      let head = take (min_len tags) bytes in
      let tail = drop (min_len tags) bytes in
      let split =
        ap (λ b. b ++ s) (sym (take-drop (min_len tags) bytes)) ∙ append_assoc head tail s in
      let first = read_exact-append (min_len tags) head (tail ++ s) e in
      ap (read_tag tags) split
      ∙ rw (read_tag, ◌>>=◌, first, d, bytes_eq_refl head) (tag_tail-append t s)

-- The padding that the writer writes is that of the format.
pub pad-padding : (n : ℕ) (out : Bytes) → pad n out ≡ out ++ padding n
unfolding pad
pad-padding n out = pad_case (n % 8) (omega arith)
  where
    pad_case :
        (j : ℕ)
        → j < 8
        → (if j == 0 then out else out ++ drop j (replicate 8 0)) ≡ out ++ replicate ((8 - j) % 8) 0
    pad_case =
        each_shift
          (λ j.
            (if j == 0 then out else out ++ drop j (replicate 8 0))
            ≡ out ++ replicate ((8 - j) % 8) 0)
          (sym (append-nil out), refl, refl, refl, refl, refl, refl, refl)
