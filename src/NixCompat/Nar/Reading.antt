-- ===== src/NixCompat/Nar/Reading.antt =====
-- nix-compat/src/nar: reading the nodes and entries of an archive of the grammar.
use tvix.Prelude.{
  ◌%◌, ◌^◌, ◌≤◌, ◌<◌, ◌≡◌, refl, ap, ◌∙◌, Bool, true, false, [], ◌∷◌, ◌++◌, append_assoc, none,
  some, Bytes, BytesLt, lt→bytes_cmp, ne→bytes_eq, Lacks→contains, ◌==◌, if◌then◌else◌, length,
  is_empty, ok, arith,
}
use tvix.NixCompat.Nar.{
  NodeTag, reg, exe, dir, end_tag, entry_tag, node_tag, entry_tag_set, node_bytes, min_len, from_u8,
  tok_ent, tok_nod, tok_par,
}
use tvix.NixCompat.Nar.Read.{read_tag, ◌>>=◌}
use tvix.NixCompat.Nar.Reader.{
  Node, FileReader, file_reader_new, read_symlink, read_file, node_of, node_new, bad_name,
  misordered, read_entry, after_tag, next,
}
use tvix.NixCompat.Nar.Writer.{to_le_bytes}
use tvix.NixCompat.Nar.Tree.{
  Tree, padding, packed, emit, emit_entries, IsTarget, IsEntryName, IsTree,
}
use tvix.NixCompat.Nar.Pieces.{
  token-append, read_tag-append, read_u64-append, read_bytes-packed, bytes_buf-packed,
}

node_tag_read : (t : NodeTag) (s : Bytes) → read_tag node_tag (node_bytes t ++ s) ≡ ok (t, s)
unfolding min_len from_u8
node_tag_read NodeTag.sym s = read_tag-append node_tag NodeTag.sym s refl refl
node_tag_read reg s = read_tag-append node_tag reg s refl refl
node_tag_read exe s = read_tag-append node_tag exe s refl refl
node_tag_read dir s = read_tag-append node_tag dir s refl refl

end_tag_read : (s : Bytes) → read_tag entry_tag_set (tok_par ++ s) ≡ ok (end_tag, s)
unfolding min_len from_u8
end_tag_read s = read_tag-append entry_tag_set end_tag s refl refl

pub entry_tag_read : (s : Bytes) → read_tag entry_tag_set (tok_ent ++ s) ≡ ok (entry_tag, s)
unfolding min_len from_u8
entry_tag_read s = read_tag-append entry_tag_set entry_tag s refl refl

-- What `node_new` returns for an archived node, and what is left of its archive before `rest`.
abbrev pub opened : Tree → Bytes → Node × Bytes
opened (Tree.symlink target) rest = (Node.symlink target, rest)
opened (Tree.file executable contents) rest = (
  Node.file executable (record { len = length contents; pad = length contents % 2 ^ 8 }),
  if length contents == 0
      then rest
      else contents ++ (padding (length contents) ++ (tok_par ++ rest)),
)
opened (Tree.directory es) rest =
    (Node.directory (record { prev_name = [] }), emit_entries es ++ rest)

some_bytes→is_empty : (s : Bytes) → 1 ≤ length s → is_empty s ≡ false
some_bytes→is_empty [] h = absurd (omega arith)
some_bytes→is_empty (x ∷ s) h = refl

read_symlink-packed :
    (target rest : Bytes)
    → IsTarget target
    → read_symlink (packed target ++ (tok_par ++ rest)) ≡ ok (opened (Tree.symlink target) rest)
unfolding read_symlink
read_symlink-packed target rest (long, short, no_nul) =
    let read = read_bytes-packed target (tok_par ++ rest) 4095 short (omega arith) in
    let nonempty = some_bytes→is_empty target long in
    rw
      (
        read_symlink,
        ◌>>=◌,
        read,
        nonempty,
        Lacks→contains 0 target no_nul,
        token-append tok_par rest,
      )
      refl

-- What `FileReader::new` does for a file of `contents`.
file_reader_new-contents :
    (contents rest : Bytes)
    → file_reader_new
        (length contents)
        ((contents ++ padding (length contents)) ++ (tok_par ++ rest))
      ≡ ok (
        record { len = length contents; pad = length contents % 2 ^ 8 },
        if length contents == 0
            then rest
            else contents ++ (padding (length contents) ++ (tok_par ++ rest)),
      )
unfolding file_reader_new
file_reader_new-contents [] rest = rw (file_reader_new, ◌>>=◌, token-append tok_par rest) refl
file_reader_new-contents (x ∷ c) rest =
    let some_len : (length (x ∷ c) == 0) ≡ false = ground arith in
    let r : FileReader = record { len = length (x ∷ c); pad = length (x ∷ c) % 2 ^ 8 } in
    rw (file_reader_new, ◌>>=◌, some_len)
      (ap (λ s. ok (r, s)) (append_assoc (x ∷ c) (padding (length (x ∷ c))) (tok_par ++ rest)))

read_file-packed :
    (executable : Bool) (contents rest : Bytes)
    → length contents < 2 ^ 64
    → read_file executable (packed contents ++ (tok_par ++ rest))
      ≡ ok (opened (Tree.file executable contents) rest)
unfolding read_file
read_file-packed executable contents rest small =
    let body = (contents ++ padding (length contents)) ++ (tok_par ++ rest) in
    ap (read_file executable) (
      append_assoc (to_le_bytes (length contents)) (contents ++ padding (length contents))
        (tok_par ++ rest))
    ∙ rw
        (
          read_file,
          ◌>>=◌,
          read_u64-append (length contents) body small,
          file_reader_new-contents contents rest,
        )
        refl

node_new-tag :
    (t : NodeTag) (body rest : Bytes) (r : Node × Bytes)
    → node_of t (body ++ (tok_par ++ rest)) ≡ ok r
    → node_new ((node_bytes t ++ (body ++ tok_par)) ++ rest) ≡ ok r
unfolding node_new
node_new-tag t body rest r e =
    let split =
      append_assoc (node_bytes t) (body ++ tok_par) rest
      ∙ ap (λ b. node_bytes t ++ b) (append_assoc body tok_par rest) in
    ap node_new split ∙ rw (node_new, ◌>>=◌, node_tag_read t (body ++ (tok_par ++ rest))) e

pub node_new-emit :
    (t : Tree) (rest : Bytes) → IsTree t → node_new (emit t ++ rest) ≡ ok (opened t rest)
unfolding emit node_of
node_new-emit (Tree.symlink target) rest h =
    node_new-tag NodeTag.sym (packed target) rest _ (read_symlink-packed target rest h)
node_new-emit (Tree.file true contents) rest h =
    node_new-tag exe (packed contents) rest _ (read_file-packed true contents rest h)
node_new-emit (Tree.file false contents) rest h =
    node_new-tag reg (packed contents) rest _ (read_file-packed false contents rest h)
node_new-emit (Tree.directory es) rest h =
    unfold node_new in rw (node_new, ◌>>=◌, node_tag_read dir (emit_entries es ++ rest)) refl

-- What ends the entry before, where the name before is not empty.
abbrev pub lead : Bytes → Bytes
lead [] = []
lead (x ∷ prev) = tok_par

pub after_lead :
    (prev s : Bytes)
    → next (record { prev_name = prev }) (lead prev ++ s)
      ≡ (read_tag entry_tag_set >>= after_tag (record { prev_name = prev })) s
unfolding next
after_lead [] s = refl
after_lead (x ∷ prev) s = rw (next, ◌>>=◌, token-append tok_par s) refl

pub next-end :
    (prev rest : Bytes)
    → next (record { prev_name = prev }) (lead prev ++ (tok_par ++ rest))
      ≡ ok ((none, record { prev_name = prev }), rest)
unfolding after_tag
next-end prev rest = after_lead prev (tok_par ++ rest) ∙ rw (◌>>=◌, end_tag_read rest) refl

good_name : (name : Bytes) → IsEntryName name → bad_name name ≡ false
good_name name (long, short, no_nul, no_slash, not_dot, not_dots) =
    rw
      (
        some_bytes→is_empty name long,
        Lacks→contains 0 name no_nul,
        Lacks→contains 47 name no_slash,
        ne→bytes_eq _ _ not_dot,
        ne→bytes_eq _ _ not_dots,
      )
      refl

ordered : (prev name : Bytes) → BytesLt prev name → misordered prev name ≡ false
ordered prev name lt = rw (misordered, lt→bytes_cmp prev name lt) refl

pub read_entry-emit :
    (prev name : Bytes) (node : Tree) (rest : Bytes)
    → IsEntryName name
    → BytesLt prev name
    → IsTree node
    → read_entry (record { prev_name = prev }) (packed name ++ (tok_nod ++ (emit node ++ rest)))
      ≡ ok (
        (some (record { name = name; node = (opened node rest).0 }), record { prev_name = name }),
        (opened node rest).1,
      )
unfolding read_entry
read_entry-emit prev name node rest good lt tree =
    let (long, short, no_nul, no_slash, not_dot, not_dots) = good in
    let named =
      bytes_buf-packed name (tok_nod ++ (emit node ++ rest)) 255 short (omega arith) 256
        (omega arith) in
    rw
      (
        read_entry,
        ◌>>=◌,
        named,
        good_name name good,
        ordered prev name lt,
        token-append tok_nod (emit node ++ rest),
        node_new-emit node rest tree,
      )
      refl

pub next-entry :
    (prev name : Bytes) (node : Tree) (rest : Bytes)
    → IsEntryName name
    → BytesLt prev name
    → IsTree node
    → next
        (record { prev_name = prev })
        (lead prev ++ (tok_ent ++ (packed name ++ (tok_nod ++ (emit node ++ rest)))))
      ≡ ok (
        (some (record { name = name; node = (opened node rest).0 }), record { prev_name = name }),
        (opened node rest).1,
      )
unfolding after_tag
next-entry prev name node rest good lt tree =
    let body = packed name ++ (tok_nod ++ (emit node ++ rest)) in
    after_lead prev (tok_ent ++ body)
    ∙ rw (◌>>=◌, entry_tag_read body) (read_entry-emit prev name node rest good lt tree)
