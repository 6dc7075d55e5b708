-- ===== src/NixCompat/Nar/Read.antt =====
-- nix-compat/src/nar/reader/read.rs: the helpers that read lengths, byte strings, tokens and tags.
use tvix.Prelude.{
  ℕ, ◌+◌, ◌*◌, ◌/◌, Bool, true, false, not, [], ◌∷◌, Option, none, some, Bytes, bytes_eq, ◌==◌, ltb,
  if◌then◌else◌, length, get_or, take, drop, is_empty, Result, ok, err, Failure, error, panic,
}
use tvix.NixCompat.Nar.{Tag, min_len, from_u8}

-- The kinds of `io::Error` that the code makes.
pub data IoErrorKind : Type 0 where
  unexpected_eof invalid_data invalid_input : IoErrorKind

-- A step that reads from the front of what the reader still holds.
abbrev pub Parser {ℓ} : Type ℓ → Type ℓ
Parser A = Bytes → Result (Failure IoErrorKind) (A × Bytes)

module _ {ℓ} {A : Type ℓ} where
  abbrev pub pure : A → Parser A
  pure a s = ok (a, s)

  abbrev pub fail : IoErrorKind → Parser A
  fail e s = err (error e)

  abbrev pub abort : Parser A
  abort s = err panic

module _ {ℓ κ} {A : Type ℓ} {B : Type κ} where
  infixl 5 ◌>>=◌ ◌>>◌
  abbrev pub ◌>>=◌ : Parser A → (A → Parser B) → Parser B
  (p >>= f) s = elim (p s) [ ok (a, rest) ↦ f a rest | err e ↦ err e ]

  abbrev pub ◌>>◌ : Parser A → Parser B → Parser B
  p >> q = p >>= λ _. q

-- `read_exact` into `n` bytes.
unfoldable pub read_exact : ℕ → Parser Bytes
read_exact n s = if ltb (length s) n then err (error unexpected_eof) else ok (take n s, drop n s)

unfoldable pub from_le_bytes : Bytes → ℕ
from_le_bytes [] = 0
from_le_bytes (b ∷ bs) = b + 256 * from_le_bytes bs

unfoldable pub read_u64 : Parser ℕ
read_u64 = do buf ← read_exact 8; pure (from_le_bytes buf)

unfoldable pub zeroes : Bytes → Bool
zeroes [] = true
zeroes (b ∷ bs) = let rest = zeroes bs in if not (b == 0) then false else rest

-- `(len + 7) & !7`.
abbrev pub padded : ℕ → ℕ
padded len = (len + 7) / 8 * 8

unfoldable pub read_bytes : ℕ → Parser Bytes
read_bytes max_len = do
  len ← read_u64
  if ltb max_len len then fail invalid_data else (do
    buf ← read_exact (padded len)
    if not (zeroes (drop len buf)) then fail invalid_data else pure (take len buf))

-- The same into a buffer of `n` bytes, of which the slice may be out of range.
unfoldable pub bytes_buf : ℕ → ℕ → Parser Bytes
bytes_buf n max_len = do
  len ← read_u64
  if ltb max_len len then fail invalid_data else if ltb n (padded len) then abort else (do
    buf ← read_exact (padded len)
    if not (zeroes (drop len buf)) then fail invalid_data else pure (take len buf))

-- `token`, byte by byte: where it stops does not depend on how much each `read` returns.
unfoldable pub token : Bytes → Parser (Unit {0})
token [] s = ok (tt, s)
token (t ∷ ts) [] = err (error unexpected_eof)
token (t ∷ ts) (b ∷ s) = let rest = token ts s in if t == b then rest else err (error invalid_data)

module _ {T : Type 0} (tags : Tag T) where
  unfoldable pub tag_tail : T → Parser T
  tag_tail t =
      let tail = drop (min_len tags) (tags.as_bytes t) in
      if is_empty tail then pure t else (do
        buf ← read_exact (length tail)
        if not (bytes_eq buf tail) then fail invalid_data else pure t)

  unfoldable pub tag_head : Bytes → Option T → Parser T
  tag_head buf none = fail invalid_data
  tag_head buf (some t) =
      if not (bytes_eq buf (take (min_len tags) (tags.as_bytes t)))
      then fail invalid_data
      else tag_tail t

  unfoldable pub read_tag : Parser T
  read_tag = do buf ← read_exact (min_len tags); tag_head buf (from_u8 tags (get_or buf tags.off 0))
