-- ===== src/NixCompat/Nar/Writing.antt =====
-- nix-compat/src/nar/writer/sync.rs: what the writer writes, against the grammar.
use tvix.Prelude.{
  ℕ, zero, suc, ◌<◌, ◌≡◌, refl, sym, ap, subst, ◌∙◌, Bool, not, [], ◌∷◌, ◌++◌, append_assoc,
  append-nil, Option, none, some, Bytes, ltb, if◌then◌else◌, length, take, drop, is_empty, ◌⊎◌, inl,
  inr, Bool-cases, Result, ok, err, Failure, error, arith,
}
use tvix.NixCompat.Nar.{tok_nar, tok_sym, tok_reg, tok_exe, tok_dir, tok_ent, tok_nod, tok_par}
use tvix.NixCompat.Nar.Read.{IoErrorKind, unexpected_eof, invalid_input}
use tvix.NixCompat.Nar.Writer.{
  Directory, to_le_bytes, pad, file_header, write_symlink, write_file, write_directory, write_entry,
  close, open_writer,
}
use tvix.NixCompat.Nar.Tree.{
  Tree, Entries, symlink, file, directory, end, entry, packed, emit, emit_entries, emit_archive,
  write_tree, write_entries, write_archive,
}
use tvix.NixCompat.Nar.Pieces.{pad-padding, take-drop}
use tvix.NixCompat.Nar.Copying.{Shows, copy_loop-append, copy_loop_short, shown, take-nil}

ruleset joined = (append_assoc)

-- The bytes before `out`, then a string with its length, then what closes it.
written_string :
    (out before string after : Bytes)
    → pad (length string) (((out ++ before) ++ to_le_bytes (length string)) ++ string) ++ after
      ≡ out ++ (before ++ (packed string ++ after))
written_string out before string after = rw (pad-padding (length string)) (simp joined)

write_symlink-emit : (target out : Bytes) → write_symlink target out ≡ out ++ emit (symlink target)
unfolding write_symlink emit
write_symlink-emit target out = written_string out tok_sym target tok_par

abbrev file_tok : Bool → Bytes
file_tok executable = if executable then tok_exe else tok_reg

module _ (shows : Bytes → ℕ) (positive : Shows shows) where
  -- What a file of `c` is written as, where the reader goes on with `t`.
  write_file-copied :
      (executable : Bool) (c t out : Bytes)
      → write_file shows executable (length c) (c ++ t) out ≡ (
          if not (is_empty (take (shows t) t))
          then err (error invalid_input)
          else ok (out ++ (file_tok executable ++ (packed c ++ tok_par))))
  unfolding write_file
  write_file-copied executable c t out =
      let copied =
        copy_loop-append shows positive (length c) c t (file_header executable (length c) out)
          (omega arith) in
      rw (write_file, copied, written_string out (file_tok executable) c tok_par) refl

  write_file-emit :
      (executable : Bool) (c out : Bytes)
      → write_file shows executable (length c) c out ≡ ok (out ++ emit (file executable c))
  unfolding emit
  write_file-emit executable c out =
      subst
        (λ r.
          write_file shows executable (length c) r out
          ≡ ok (out ++ (file_tok executable ++ (packed c ++ tok_par))))
        (append-nil c)
        (write_file-copied executable c [] out ∙ rw (take-nil {A = ℕ} (shows [])) refl)

  -- A reader that goes on behind the announced size is refused.
  write_file_longer :
      (executable : Bool) (c : Bytes) (b : ℕ) (t out : Bytes)
      → write_file shows executable (length c) (c ++ (b ∷ t)) out ≡ err (error invalid_input)
  write_file_longer executable c b t out =
      write_file-copied executable c (b ∷ t) out
      ∙ rw (shown (shows (b ∷ t)) b t (positive b t)) refl

  write_file_shorter :
      (executable : Bool) (size : ℕ) (c out : Bytes)
      → length c < size
      → write_file shows executable size c out ≡ err (error unexpected_eof)
  unfolding write_file
  write_file_shorter executable size c out h =
      rw
        (
          write_file,
          copy_loop_short shows positive size size c (file_header executable size out) h
              (omega arith),
        )
        refl

trichotomy : (m n : ℕ) → (m ≡ n) ⊎ ((n < m) ⊎ (m < n))
trichotomy m n = elim (Bool-cases (ltb m n)) [
  | inl less ↦ inr (inr (ground arith))
  | inr not_less ↦ elim (Bool-cases (ltb n m)) [
    | inl more ↦ inr (inl (ground arith))
    | inr not_more ↦ inl (ground arith)
  ]
]

-- `reader` goes on behind its first `size` bytes.
longer-split :
    (size : ℕ) (reader : Bytes)
    → size < length reader
    → (b : ℕ) × (t : Bytes) × (drop size reader ≡ b ∷ t) × (length (take size reader) ≡ size)
longer-split size [] h = absurd (omega arith)
longer-split zero (x ∷ reader) h = (x, reader, refl, refl)
longer-split (suc size) (x ∷ reader) h =
    let (b, t, e, l) = longer-split size reader (omega arith) in (b, t, e, ap suc l)

module _ (shows : Bytes → ℕ) (positive : Shows shows) (executable : Bool) (size : ℕ)
    (reader out : Bytes) where
  abbrev written : Result (Failure IoErrorKind) Bytes
  written = write_file shows executable size reader out

  too_long : size < length reader → written ≡ err (error invalid_input)
  too_long h =
      let (b, t, e, l) = longer-split size reader h in
      let whole = ap (λ r. take size reader ++ r) (sym e) ∙ take-drop size reader in
      subst (λ r. write_file shows executable size r out ≡ err (error invalid_input)) whole
        (subst
          (λ k.
            write_file shows executable k (take size reader ++ (b ∷ t)) out
            ≡ err (error invalid_input))
          l (write_file_longer shows positive executable (take size reader) b t out))

  -- A file is written where the reader holds exactly the size that was announced, and refused where it
  -- holds less or more.
  pub write_file-outcomes :
      ((size ≡ length reader) × (written ≡ ok (out ++ emit (file executable reader))))
      ⊎ (((length reader < size) × (written ≡ err (error unexpected_eof)))
          ⊎ ((size < length reader) × (written ≡ err (error invalid_input))))
  write_file-outcomes = elim (trichotomy size (length reader)) [
    | inl same ↦ inl (
      same,
      subst
          (λ k.
            write_file shows executable k reader out ≡ ok (out ++ emit (file executable reader)))
          (sym same) (write_file-emit shows positive executable reader out),
    )
    | inr (inl less) ↦
        inr (inl (less, write_file_shorter shows positive executable size reader out less))
    | inr (inr more) ↦ inr (inr (more, too_long more))
  ]

-- What ends the entry before, if there is one.
abbrev ended : Directory → Bytes
ended d = elim d.prev_name as (λ _. Bytes) [ none ↦ [] | some _ ↦ tok_par ]

abbrev directory_after : Option (Unit {0}) → Directory
directory_after p = record { prev_name = p }

close-ended :
    (p : Option (Unit {0})) (out : Bytes)
    → close (directory_after p) out ≡ out ++ (ended (directory_after p) ++ tok_par)
unfolding close
close-ended none out = refl
close-ended (some u) out = append_assoc out tok_par tok_par

write_entry-ended :
    (p : Option (Unit {0})) (name out : Bytes)
    → write_entry (directory_after p) name out ≡ (
      record { prev_name = some tt },
      out ++ (ended (directory_after p) ++ (tok_ent ++ (packed name ++ tok_nod))),
    )
unfolding write_entry
write_entry-ended none name out =
    ap (λ o. (record { prev_name = some tt }, o)) (written_string out tok_ent name tok_nod)
write_entry-ended (some u) name out =
    ap (λ o. (record { prev_name = some tt }, o))
      (written_string (out ++ tok_par) tok_ent name tok_nod
        ∙ append_assoc out tok_par (tok_ent ++ (packed name ++ tok_nod)))

entry_joined :
    (out lead ent name nod node es : Bytes)
    → (out ++ (lead ++ (ent ++ (name ++ nod)))) ++ (node ++ es)
      ≡ out ++ (lead ++ (ent ++ (name ++ (nod ++ (node ++ es)))))
entry_joined out lead ent name nod node es = simp joined

-- The rest of `write_entries` once the name of an entry is written.
abbrev written_after :
    (Bytes → ℕ) → Tree → Entries → Directory × Bytes → Result (Failure IoErrorKind) Bytes
written_after shows node es (d, out) = elim (write_tree shows node out) [
  | err e ↦ err e
  | ok written ↦ write_entries shows es d written
]

module _ (shows : Bytes → ℕ) (positive : Shows shows) where
  mutual
    unfolding write_tree emit write_directory

    write_node-emit : (t : Tree) (out : Bytes) → write_tree shows t out ≡ ok (out ++ emit t)
    write_node-emit (symlink target) out = ap ok (write_symlink-emit target out)
    write_node-emit (file executable contents) out =
        write_file-emit shows positive executable contents out
    write_node-emit (directory es) out =
        write_entries-emit es (directory_after none) (out ++ tok_dir)
        ∙ ap ok (append_assoc out tok_dir (emit_entries es))

    write_entries-emit :
        (es : Entries) (d : Directory) (out : Bytes)
        → write_entries shows es d out ≡ ok (out ++ (ended d ++ emit_entries es))
    write_entries-emit end d out = ap ok (close-ended d.prev_name out)
    write_entries-emit (entry name node es) d out =
        let before = out ++ (ended d ++ (tok_ent ++ (packed name ++ tok_nod))) in
        let named : write_entry d name out ≡ (directory_after (some tt), before) =
          write_entry-ended d.prev_name name out in
        let inside = write_node-emit node before in
        let after = write_entries-emit es (directory_after (some tt)) (before ++ emit node) in
        ap (written_after shows node es) named
        ∙ rw (written_after, inside)
            (after
              ∙ ap ok (
                  append_assoc before (emit node) (tok_par ++ emit_entries es)
                  ∙ entry_joined out (ended d) tok_ent (packed name) tok_nod (emit node)
                      (tok_par ++ emit_entries es)))

  -- The writer writes the archive of the tree, however the readers show the contents of its files.
  pub write_archive-emit : (t : Tree) → write_archive shows t ≡ ok (emit_archive t)
  unfolding write_archive emit_archive open_writer
  write_archive-emit t = write_node-emit t tok_nar
