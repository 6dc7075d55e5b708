-- ===== src/NixCompat/Nar/Total.antt =====
-- nix-compat/src/nar/reader/read.rs on any input, and how steps that read compose.
use tvix.Prelude.{
  ℕ, zero, suc, ◌+◌, ◌≤◌, ◌≡◌, Bool, true, false, not, [], ◌∷◌, Option, none, some, Bytes, ◌==◌,
  ltb, if◌then◌else◌, length, take, drop, is_empty, bytes_eq, get_or, Result, ok, err, Failure,
  error, panic, arith, Bool-cases, inl, inr,
}
use tvix.NixCompat.Nar.{Tag, min_len, from_u8}
use tvix.NixCompat.Nar.Read.{
  IoErrorKind, Parser, pure, fail, ◌>>=◌, read_exact, from_le_bytes, read_u64, zeroes, padded,
  read_bytes, bytes_buf, token, tag_tail, tag_head, read_tag, invalid_data,
}

-- The step does not panic, and what it gives has the property `P`.
abbrev pub Ensures {ℓ} :
    {A : Type ℓ} → (A → Bytes → Type 0) → Result (Failure IoErrorKind) (A × Bytes) → Type 0
Ensures P (ok (a, rest)) = P a rest
Ensures P (err (error e)) = Unit
Ensures P (err panic) = ⊥

-- At most `n` bytes are left.
abbrev pub Left {ℓ} : {A : Type ℓ} → ℕ → A → Bytes → Type 0
Left n a rest = length rest ≤ n

module _ {ℓ κ} {A : Type ℓ} {B : Type κ} where
  pub Ensures-bind :
      (P : A → Bytes → Type 0) (Q : B → Bytes → Type 0) (p : Parser A) (f : A → Parser B)
      (s : Bytes)
      → Ensures P (p s)
      → ((a : A) (rest : Bytes) → P a rest → Ensures Q (f a rest))
      → Ensures Q ((p >>= f) s)
  Ensures-bind P Q p f s h k = step (p s) h
    where
      step :
          (r : Result (Failure IoErrorKind) (A × Bytes))
          → Ensures P r
          → Ensures Q (elim r [ ok (a, rest) ↦ f a rest | err e ↦ err e ])
      step (ok (a, rest)) e = k a rest e
      step (err (error e)) u = tt
      step (err panic) e = e

pub Ensures-if {ℓ} :
    {A : Type ℓ} (Q : A → Bytes → Type 0) (b : Bool) (p q : Parser A) (s : Bytes)
    → Ensures Q (p s)
    → Ensures Q (q s)
    → Ensures Q ((if b then p else q) s)
Ensures-if Q true p q s h k = h
Ensures-if Q false p q s h k = k

pub Ensures-weaken {ℓ} :
    {A : Type ℓ} (P Q : A → Bytes → Type 0) (r : Result (Failure IoErrorKind) (A × Bytes))
    → ((a : A) (rest : Bytes) → P a rest → Q a rest)
    → Ensures P r
    → Ensures Q r
Ensures-weaken P Q (ok (a, rest)) k h = k a rest h
Ensures-weaken P Q (err (error e)) k h = tt
Ensures-weaken P Q (err panic) k h = h

-- What is left after a step that starts with at most `n` bytes.
pub Left-bind {ℓ κ} :
    {A : Type ℓ} {B : Type κ} (n : ℕ) (p : Parser A) (f : A → Parser B) (s : Bytes)
    → Ensures (Left n) (p s)
    → ((a : A) (rest : Bytes) → length rest ≤ n → Ensures (Left n) (f a rest))
    → Ensures (Left n) ((p >>= f) s)
Left-bind n p f s h k = Ensures-bind (Left n) (Left n) p f s h k

pub Left-le {ℓ} :
    {A : Type ℓ} (m n : ℕ) (r : Result (Failure IoErrorKind) (A × Bytes))
    → m ≤ n
    → Ensures (Left m) r
    → Ensures (Left n) r
Left-le m n r le h = Ensures-weaken (Left m) (Left n) r (λ a rest short. omega (arith, short, le)) h

length-drop_at : (n : ℕ) (s : Bytes) → n ≤ length s → length (drop n s) + n ≡ length s
length-drop_at zero s h = omega arith
length-drop_at (suc n) [] h = absurd (omega arith)
length-drop_at (suc n) (x ∷ s) h =
    let rest = length-drop_at n s (omega arith) in omega (arith, rest)

pub read_exact-Ensures :
    (n : ℕ) (s : Bytes) → Ensures (λ _ rest. length rest + n ≡ length s) (read_exact n s)
unfolding read_exact
read_exact-Ensures n s = elim (Bool-cases (ltb (length s) n)) [
  | inl short ↦ rw (read_exact, short) tt
  | inr enough ↦ rw (read_exact, enough) (length-drop_at n s (ground arith))
]

pub token-Ensures : (t s : Bytes) → Ensures (Left (length s)) (token t s)
unfolding token
token-Ensures [] s = omega arith
token-Ensures (t ∷ ts) [] = tt
token-Ensures (t ∷ ts) (b ∷ s) = elim (Bool-cases (t == b)) [
  | inl same ↦
      rw same (Left-le (length s) (suc (length s)) (token ts s) (omega arith) (token-Ensures ts s))
  | inr other ↦ rw other tt
]

pub read_u64-Ensures : (s : Bytes) → Ensures (Left (length s)) (read_u64 s)
unfolding read_u64
read_u64-Ensures s =
    Ensures-bind (λ _ rest. length rest + 8 ≡ length s) (Left (length s)) (read_exact 8)
      (λ buf. pure (from_le_bytes buf)) s (read_exact-Ensures 8 s) λ buf rest h. omega (arith, h)

module _ (n : ℕ) where
  pub token-Left : (t s : Bytes) → length s ≤ n → Ensures (Left n) (token t s)
  token-Left t s h = Left-le (length s) n (token t s) h (token-Ensures t s)

  pub read_u64-Left : (s : Bytes) → length s ≤ n → Ensures (Left n) (read_u64 s)
  read_u64-Left s h = Left-le (length s) n (read_u64 s) h (read_u64-Ensures s)

  pub read_exact-Left : (k : ℕ) (s : Bytes) → length s ≤ n → Ensures (Left n) (read_exact k s)
  read_exact-Left k s h =
      Ensures-weaken (λ _ rest. length rest + k ≡ length s) (Left n) (read_exact k s)
        (λ a rest e. omega (arith, e, h)) (read_exact-Ensures k s)

  -- The data of a string, and the check of its padding.
  data_read :
      (len k : ℕ) (s : Bytes)
      → length s ≤ n
      → Ensures (Left n) (
          (read_exact k >>= λ buf.
          if not (zeroes (drop len buf)) then fail invalid_data else pure (take len buf))
            s)
  data_read len k s h =
      Left-bind n (read_exact k)
        (λ buf. if not (zeroes (drop len buf)) then fail invalid_data else pure (take len buf)) s
        (read_exact-Left k s h)
        λ buf rest short.
          Ensures-if (Left n) (not (zeroes (drop len buf))) (fail invalid_data)
            (pure (take len buf)) rest tt short

  pub read_bytes-Left :
      (max_len : ℕ) (s : Bytes) → length s ≤ n → Ensures (Left n) (read_bytes max_len s)
  unfolding read_bytes
  read_bytes-Left max_len s h = Left-bind n read_u64 _ s (read_u64-Left s h) λ len rest short.
      Ensures-if (Left n) (ltb max_len len) (fail invalid_data) _ rest tt
        (data_read len (padded len) rest short)

  -- A buffer that has room for the longest string is never too short.
  pub bytes_buf-Left :
      (size max_len : ℕ) (s : Bytes)
      → padded max_len ≤ size
      → length s ≤ n
      → Ensures (Left n) (bytes_buf size max_len s)
  unfolding bytes_buf
  bytes_buf-Left size max_len s room h =
      Left-bind n read_u64 _ s (read_u64-Left s h) λ len rest short.
        elim (Bool-cases (ltb max_len len)) [
          | inl long ↦ rw long tt
          | inr fits ↦
              let shorter : padded len ≤ padded max_len = ground arith in
              let inside : ltb size (padded len) ≡ false = ground (arith, shorter, room) in
              rw (fits, inside) (data_read len (padded len) rest short)
        ]

  module _ {T : Type 0} (tags : Tag T) where
    tag_tail-Left : (t : T) (s : Bytes) → length s ≤ n → Ensures (Left n) (tag_tail tags t s)
    unfolding tag_tail
    tag_tail-Left t s h =
        let tail = drop (min_len tags) (tags.as_bytes t) in
        Ensures-if (Left n) (is_empty tail) (pure t) _ s h (
          Left-bind n (read_exact (length tail)) _ s (read_exact-Left (length tail) s h)
            λ buf rest short.
              Ensures-if (Left n) (not (bytes_eq buf tail)) (fail invalid_data) (pure t) rest tt
                short)

    tag_head-Left :
        (buf : Bytes) (o : Option T) (s : Bytes)
        → length s ≤ n
        → Ensures (Left n) (tag_head tags buf o s)
    unfolding tag_head
    tag_head-Left buf none s h = tt
    tag_head-Left buf (some t) s h =
        Ensures-if (Left n) (not (bytes_eq buf (take (min_len tags) (tags.as_bytes t))))
          (fail invalid_data) (tag_tail tags t) s tt (tag_tail-Left t s h)

    -- A tag takes the bytes of the shortest token at least.
    pub read_tag-Left :
        (s : Bytes) → length s ≤ n + min_len tags → Ensures (Left n) (read_tag tags s)
    unfolding read_tag
    read_tag-Left s h =
        Ensures-bind (λ _ rest. length rest + min_len tags ≡ length s) (Left n)
          (read_exact (min_len tags)) _ s (read_exact-Ensures (min_len tags) s)
          λ buf rest e.
            tag_head-Left buf (from_u8 tags (get_or buf tags.off 0)) rest (omega (arith, e, h))
