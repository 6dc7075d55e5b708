-- ===== src/NixCompat/Nar/Reader.antt =====
-- nix-compat/src/nar/reader/mod.rs: reading nodes, files and directories. What is left of the input is
-- passed along; the bookkeeping of debug builds (`status`) does not change what is read.
use tvix.Prelude.{
  ℕ, zero, suc, ◌+◌, ◌-◌, ◌%◌, ◌^◌, Bool, true, false, not, ◌||◌, [], ◌∷◌, ◌++◌, Option, none, some,
  min, Bytes, bytes_eq, bytes_cmp, Ordering, ◌==◌, ltb, if◌then◌else◌, contains, length, take, drop,
  is_empty, replicate, ok, err, error, panic,
}
use tvix.NixCompat.Nar.{
  NodeTag, sym, reg, exe, dir, EntryTag, end_tag, entry_tag, node_tag, entry_tag_set, tok_nar,
  tok_par, tok_nod, max_name_len, max_target_len,
}
use tvix.NixCompat.Nar.Read.{
  Parser, pure, fail, ◌>>=◌, ◌>>◌, invalid_data, unexpected_eof, read_exact, read_u64, read_bytes,
  bytes_buf, token, read_tag,
}

pub record FileReader : Type 0 where
  pub len : ℕ
  pub pad : ℕ

pub record DirReader : Type 0 where
  pub prev_name : Bytes

pub data Node : Type 0 where
  symlink : Bytes → Node
  file : Bool → FileReader → Node
  directory : DirReader → Node

-- `FileReader::new`; `len as u8` keeps the low bits.
unfoldable pub file_reader_new : ℕ → Parser FileReader
file_reader_new len = do
  _ ← if len == 0 then token tok_par else pure tt
  pure (record { len = len; pad = len % 2 ^ 8 })

unfoldable pub read_symlink : Parser Node
read_symlink = do
  target ← read_bytes max_target_len
  if is_empty target || contains target 0
      then fail invalid_data
      else (token tok_par >> pure (symlink target))

unfoldable pub read_file : Bool → Parser Node
read_file executable = do
  len ← read_u64
  reader ← file_reader_new len
  pure (file executable reader)

-- `Node::new`, after its tag.
unfoldable pub node_of : NodeTag → Parser Node
node_of sym = read_symlink
node_of reg = read_file false
node_of exe = read_file true
node_of dir = pure (directory (record { prev_name = [] }))

unfoldable pub node_new : Parser Node
node_new = do t ← read_tag node_tag; node_of t

-- `open`.
unfoldable pub open_archive : Parser Node
open_archive = do token tok_nar; node_new

-- `FileReader::finish`, with `buf` of 8 bytes of which the last are read.
unfoldable pub finish_pad : ℕ → Parser (Unit {0})
finish_pad pad = if pad == 0 then pure tt else (do
  buf ← read_exact (8 - pad)
  if not (bytes_eq (replicate pad 0 ++ buf) (replicate 8 0)) then fail invalid_data else pure tt)

unfoldable pub finish : FileReader → Parser (Unit {0})
finish r = do finish_pad (r.pad % 8); token tok_par

-- `fill_buf`, where the reader inside shows `shown` bytes of what is left.
unfoldable pub fill_buf : ℕ → FileReader → Parser Bytes
fill_buf shown r s =
    if r.len == 0
    then ok ([], s)
    else let buf = take shown s in
      if is_empty buf then err (error unexpected_eof) else ok (take (min (length buf) r.len) buf, s)

unfoldable pub consume : ℕ → FileReader → Parser FileReader
consume n r s =
    if n == 0
    then ok (r, s)
    else if ltb r.len n
    then err panic
    else (let left : FileReader = record r { len = r.len - n } in
        if left.len == 0 then (finish left >> pure left) (drop n s) else ok (left, drop n s))

-- `copy` into a vector, in at most `fuel` rounds; `shows` says how much the reader inside shows of each rest.
unfoldable pub copy : (Bytes → ℕ) → ℕ → FileReader → Bytes → Parser Bytes
copy shows zero r dst s = if r.len == 0 then ok (dst, s) else err panic
copy shows (suc fuel) r dst s = elim (r.len == 0) [
  | true ↦ ok (dst, s)
  | false ↦ elim (fill_buf (shows s) r s) [
    | err e ↦ err e
    | ok (buf, _) ↦ elim (consume (length buf) r s) [
      | err e ↦ err e
      | ok (left, rest) ↦ copy shows fuel left (dst ++ buf) rest
    ]
  ]
]

pub record Entry : Type 0 where
  pub name : Bytes
  pub node : Node

abbrev pub bad_name : Bytes → Bool
bad_name name =
    is_empty name
    || contains name 0
    || contains name 47
    || bytes_eq name (46 ∷ [])
    || bytes_eq name (46 ∷ 46 ∷ [])

-- `&self.prev_name[..] >= name`.
abbrev pub misordered : Bytes → Bytes → Bool
misordered prev name = elim (bytes_cmp prev name) [ Ordering.lt ↦ false | _ ↦ true ]

-- The rest of `DirReader::next` after the tag of an entry.
unfoldable pub read_entry : DirReader → Parser (Option Entry × DirReader)
read_entry r = do
  name ← bytes_buf (max_name_len + 1) max_name_len
  if bad_name name
      then fail invalid_data
      else if misordered r.prev_name name
      then fail invalid_data
      else (do
        token tok_nod
        node ← node_new
        pure (some (record { name = name; node = node }), record { prev_name = name }))

unfoldable pub after_tag : DirReader → EntryTag → Parser (Option Entry × DirReader)
after_tag r end_tag = pure (none, r)
after_tag r entry_tag = read_entry r

-- `DirReader::next`.
unfoldable pub next : DirReader → Parser (Option Entry × DirReader)
next r = do
  _ ← if not (is_empty r.prev_name) then token tok_par else pure tt
  t ← read_tag entry_tag_set
  after_tag r t
