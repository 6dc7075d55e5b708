-- ===== src/Eval/Versions.antt =====
-- eval/src/builtins/versions.rs: the parts of versions, and how they compare. The characters of a version,
-- with the positions of their bytes, are what `char_indices` of the bstr crate yields. An operation that
-- panics gives none.
pub mod Comparison
use tvix.Prelude.{
  ℕ, zero, suc, ◌+◌, ◌-◌, ◌*◌, ◌^◌, Bool, true, false, ◌&&◌, ◌||◌, List, [], ◌∷◌, ◌++◌, Option,
  none, some, Bytes, codes, Ordering, compare, bytes_eq, bytes_cmp, ◌==◌, ltb, leb, if◌then◌else◌,
  length, take, drop,
}

pub data VersionPart : Type 0 where
  word : Bytes → VersionPart
  number : Bytes → VersionPart

-- `str::parse::<u64>` of a text of digits, from what was parsed before.
pub parse_digits : ℕ → Bytes → Option ℕ
parse_digits n [] = some n
parse_digits n (d ∷ ds) =
    let rest = parse_digits (n * 10 + (d - b'0')) ds in
    if leb b'0' d && leb d b'9' && ltb (n * 10 + (d - b'0')) (2 ^ 64) then rest else none

unfoldable pub parse_u64 : Bytes → Option ℕ
unfolding parse_digits
parse_u64 [] = none
parse_u64 (d ∷ ds) = parse_digits 0 (d ∷ ds)

abbrev pub is_pre : Bytes → Bool
is_pre w = bytes_eq w (codes "pre")

abbrev pub number_cmp : Option ℕ → Option ℕ → Option Ordering
number_cmp none n2 = none
number_cmp (some n1) none = none
number_cmp (some n1) (some n2) = some (compare n1 n2)

-- `cmp` of two parts.
unfoldable pub part_cmp : VersionPart → VersionPart → Option Ordering
part_cmp (number s1) (number s2) = number_cmp (parse_u64 s1) (parse_u64 s2)
part_cmp (word x) (word y) =
    if is_pre x && is_pre y
    then some Ordering.eq
    else if is_pre x
    then some Ordering.lt
    else if is_pre y
    then some Ordering.gt
    else some (bytes_cmp x y)
part_cmp (word x) (number s2) = if is_pre x then some Ordering.lt else some Ordering.lt
part_cmp (number s1) (word y) = if is_pre y then some Ordering.gt else some Ordering.gt

abbrev pub then_cmp : Option Ordering → Option Ordering → Option Ordering
then_cmp none rest = none
then_cmp (some Ordering.lt) rest = some Ordering.lt
then_cmp (some Ordering.eq) rest = rest
then_cmp (some Ordering.gt) rest = some Ordering.gt

-- `Iterator::cmp`.
unfoldable pub parts_cmp : List VersionPart → List VersionPart → Option Ordering
parts_cmp [] [] = some Ordering.eq
parts_cmp [] (y ∷ ys) = some Ordering.lt
parts_cmp (x ∷ xs) [] = some Ordering.gt
parts_cmp (x ∷ xs) (y ∷ ys) = then_cmp (part_cmp x y) (parts_cmp xs ys)

-- `InternalPart`, with the two ends of a range.
pub data InternalPart : Type 0 where
  internal_number : ℕ → ℕ → InternalPart
  internal_word : ℕ → ℕ → InternalPart
  break_part : InternalPart

-- An item of `char_indices`.
pub record CharIndex : Type 0 where
  pub start : ℕ
  pub end : ℕ
  pub char : ℕ

-- `char::len_utf8`.
abbrev len_utf8 : ℕ → ℕ
len_utf8 c = if ltb c 0x80 then 1 else if ltb c 0x800 then 2 else if ltb c 0x10000 then 3 else 4

abbrev is_ascii_digit : ℕ → Bool
is_ascii_digit c = leb b'0' c && leb c b'9'

abbrev is_divider : ℕ → Bool
is_divider c = c == b'.' || c == b'-'

-- `self.version[range]`, which panics where the range ends behind the text.
abbrev pub slice : Bytes → ℕ → ℕ → Option Bytes
slice version start end =
    if ltb end (length version) && leb start (end + 1)
    then some (take (end + 1 - start) (drop start version))
    else none

-- The item that a cached part is.
abbrev emit :
    (Bytes → VersionPart) → Option Bytes → Option (List VersionPart) → Option (List VersionPart)
emit part none rest = none
emit part (some text) none = none
emit part (some text) (some parts) = some (part text ∷ parts)

-- What was cached comes out where a part of another kind begins, or none does.
abbrev flush : Bytes → InternalPart → Option (List VersionPart) → Option (List VersionPart)
flush version break_part rest = rest
flush version (internal_number a b) rest = emit number (slice version a b) rest
flush version (internal_word a b) rest = emit word (slice version a b) rest

-- The cached part after a digit, and after another character that is no divider.
abbrev digit_part : InternalPart → CharIndex → InternalPart
digit_part (internal_number a b) c = internal_number a (b + 1)
digit_part (internal_word a b) c = internal_number c.start (c.end - 1)
digit_part break_part c = internal_number c.start (c.end - 1)

abbrev word_part : InternalPart → CharIndex → InternalPart
word_part (internal_word a b) c = internal_word a (b + len_utf8 c.char)
word_part (internal_number a b) c = internal_word c.start (c.end - 1)
word_part break_part c = internal_word c.start (c.end - 1)

abbrev cached_after : InternalPart → CharIndex → InternalPart
cached_after cached c =
    if is_divider c.char
    then break_part
    else if is_ascii_digit c.char
    then digit_part cached c
    else word_part cached c

abbrev comes_out : InternalPart → CharIndex → InternalPart
comes_out (internal_number a b) c =
    if is_ascii_digit c.char then break_part else internal_number a b
comes_out (internal_word a b) c =
    if is_divider c.char || is_ascii_digit c.char then internal_word a b else break_part
comes_out break_part c = break_part

-- All items of the iterator.
unfoldable pub version_parts : Bytes → InternalPart → List CharIndex → Option (List VersionPart)
version_parts version cached [] = flush version cached (some [])
version_parts version cached (c ∷ chars) =
    flush version (comes_out cached c) (version_parts version (cached_after cached c) chars)

-- `new_for_cmp`.
abbrev pub parts_for_cmp : Option (List VersionPart) → Option (List VersionPart)
parts_for_cmp none = none
parts_for_cmp (some parts) = some (parts ++ word [] ∷ [])
