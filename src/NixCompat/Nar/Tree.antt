-- ===== src/NixCompat/Nar/Tree.antt =====
-- File system trees, their archives by the grammar of nix-compat/src/nar/wire/mod.rs, and callers of the
-- writer and the reader that write and read a whole tree as their documentation demands.
use tvix.Prelude.{
  ℕ, zero, suc, ◌-◌, ◌%◌, ◌^◌, ◌≤◌, ◌<◌, ◌≢◌, Bool, [], ◌∷◌, ◌++◌, none, some, Bytes, BytesLt,
  Lacks, if◌then◌else◌, length, replicate, Result, ok, err, Failure,
}
use tvix.NixCompat.Nar.{
  tok_nar, tok_sym, tok_reg, tok_exe, tok_dir, tok_ent, tok_nod, tok_par, max_name_len,
  max_target_len,
}
use tvix.NixCompat.Nar.Read.{Parser, pure, abort, ◌>>=◌, IoErrorKind}
use tvix.NixCompat.Nar.Reader.{Node, DirReader, open_archive, copy, next}
use tvix.NixCompat.Nar.Writer.{
  Directory, to_le_bytes, open_writer, write_symlink, write_file, write_directory, write_entry,
  close,
}

mutual
  pub data Tree : Type 0 where
    symlink : Bytes → Tree
    file : Bool → Bytes → Tree
    directory : Entries → Tree

  pub data Entries : Type 0 where
    end : Entries
    entry : Bytes → Tree → Entries → Entries

-- A string with its length before it, padded with zeroes to a multiple of 8 bytes.
abbrev pub padding : ℕ → Bytes
padding n = replicate ((8 - n % 8) % 8) 0

abbrev pub packed : Bytes → Bytes
packed s = to_le_bytes (length s) ++ (s ++ padding (length s))

unfoldable mutual
  pub emit : Tree → Bytes
  emit (symlink target) = tok_sym ++ (packed target ++ tok_par)
  emit (file executable contents) =
      (if executable then tok_exe else tok_reg) ++ (packed contents ++ tok_par)
  emit (directory es) = tok_dir ++ emit_entries es

  pub emit_entries : Entries → Bytes
  emit_entries end = tok_par
  emit_entries (entry name node es) =
      tok_ent ++ (packed name ++ (tok_nod ++ (emit node ++ (tok_par ++ emit_entries es))))

unfoldable pub emit_archive : Tree → Bytes
unfolding emit
emit_archive t = tok_nar ++ emit t

-- The restrictions of the format.
abbrev pub IsTarget : Bytes → Type 0
IsTarget target = (1 ≤ length target) × (length target ≤ max_target_len) × Lacks 0 target

abbrev pub IsEntryName : Bytes → Type 0
IsEntryName name =
    (1 ≤ length name)
    × (length name ≤ max_name_len)
    × Lacks 0 name
    × Lacks 47 name
    × (name ≢ (46 ∷ []))
    × (name ≢ (46 ∷ 46 ∷ []))

abbrev mutual
  -- Names ascend from `prev` on.
  pub IsTree : Tree → Type 0
  IsTree (symlink target) = IsTarget target
  IsTree (file executable contents) = length contents < 2 ^ 64
  IsTree (directory es) = AreEntries [] es

  pub AreEntries : Bytes → Entries → Type 0
  AreEntries prev end = Unit
  AreEntries prev (entry name node es) =
      IsEntryName name × BytesLt prev name × IsTree node × AreEntries name es

-- A caller of the writer: the contents of a file come from a reader over them, of which `shows` says how
-- much it shows of each rest.
module _ (shows : Bytes → ℕ) where
  unfoldable mutual
    pub write_tree : Tree → Bytes → Result (Failure IoErrorKind) Bytes
    write_tree (symlink target) out = ok (write_symlink target out)
    write_tree (file executable contents) out =
        write_file shows executable (length contents) contents out
    write_tree (directory es) out =
        let (d, opened) = write_directory out in write_entries es d opened

    pub write_entries : Entries → Directory → Bytes → Result (Failure IoErrorKind) Bytes
    write_entries end d out = ok (close d out)
    write_entries (entry name node es) d out =
        let (d1, named) = write_entry d name out in
        elim (write_tree node named) [ err e ↦ err e | ok written ↦ write_entries es d1 written ]

  unfoldable pub write_archive : Tree → Result (Failure IoErrorKind) Bytes
  unfolding write_tree
  write_archive t = write_tree t (open_writer [])

  -- A caller of the reader, over one that shows `shows` of each rest.
  unfoldable pub read_node : (DirReader → Parser Entries) → Node → Parser Tree
  read_node entries (Node.symlink target) = pure (symlink target)
  read_node entries (Node.file executable r) =
      copy shows r.len r [] >>= λ contents. pure (file executable contents)
  read_node entries (Node.directory d) = entries d >>= λ es. pure (directory es)

  unfoldable pub read_entries : ℕ → DirReader → Parser Entries
  read_entries zero d = abort
  read_entries (suc fuel) d = next d >>= λ found. elim found.0 [
    | none ↦ pure end
    | some e ↦ (do
      node ← read_node (read_entries fuel) e.node
      es ← read_entries fuel found.1
      pure (entry e.name node es))
  ]

  unfoldable pub read_archive : Parser Tree
  unfolding read_node read_entries
  read_archive s = (open_archive >>= λ node. read_node (read_entries (length s)) node) s
