-- ===== src/NixCompat/Nar/RoundTrip.antt =====
-- nix-compat/src/nar: reading a whole tree from its archive.
use tvix.Prelude.{
  ℕ, zero, suc, ◌+◌, ◌%◌, ◌^◌, ◌≤◌, ◌≡◌, refl, ap, subst, ◌∙◌, Bool, false, [], ◌∷◌, ◌++◌,
  append_assoc, append-nil, Bytes, ◌==◌, ==_iff, length, ok, length-append, arith, Bool-cases, inl,
  inr,
}
use tvix.NixCompat.Nar.{tok_nar, tok_dir, tok_ent, tok_nod, tok_par}
use tvix.NixCompat.Nar.Read.{◌>>=◌}
use tvix.NixCompat.Nar.Reader.{FileReader, open_archive, copy}
use tvix.NixCompat.Nar.Tree.{
  Tree, Entries, symlink, file, directory, end, entry, packed, emit, emit_entries, emit_archive,
  IsTree, AreEntries, write_archive, read_node, read_entries, read_archive,
}
use tvix.NixCompat.Nar.Pieces.{token-append}
use tvix.NixCompat.Nar.Copying.{Shows, copy-append, copy_done, length→nil}
use tvix.NixCompat.Nar.Writing.{write_archive-emit}
use tvix.NixCompat.Nar.Reading.{opened, lead, node_new-emit, next-end, next-entry}

some_length : (c : Bytes) → (length c == 0) ≡ false → 1 ≤ length c
some_length c h = ground arith

lead_some : (name : Bytes) → 1 ≤ length name → lead name ≡ tok_par
lead_some [] h = absurd (omega arith)
lead_some (x ∷ name) h = refl

ruleset joined = (append_assoc)

entry_split :
    (ent name nod node par es rest : Bytes)
    → (ent ++ (name ++ (nod ++ (node ++ (par ++ es))))) ++ rest
      ≡ ent ++ (name ++ (nod ++ (node ++ (par ++ (es ++ rest)))))
entry_split ent name nod node par es rest = simp joined

-- An entry is longer than its node and than the entries behind it.
entry_longer :
    (ent name nod node par es : Bytes)
    → length ent + length node + length par + length es
      ≤ length (ent ++ (name ++ (nod ++ (node ++ (par ++ es)))))
entry_longer ent name nod node par es = omega (
  arith,
  length-append ent (name ++ (nod ++ (node ++ (par ++ es)))),
  length-append name (nod ++ (node ++ (par ++ es))),
  length-append nod (node ++ (par ++ es)),
  length-append node (par ++ es),
  length-append par es,
)

open_archive-emit :
    (t : Tree) (rest : Bytes)
    → IsTree t
    → open_archive ((tok_nar ++ emit t) ++ rest) ≡ ok (opened t rest)
unfolding open_archive
open_archive-emit t rest tree =
    rw
      (
        open_archive,
        ◌>>=◌,
        append_assoc tok_nar (emit t) rest,
        token-append tok_nar (emit t ++ rest),
      )
      (node_new-emit t rest tree)

module _ (shows : Bytes → ℕ) (positive : Shows shows) where
  -- `copy` reads the contents of a file that `node_new` has opened.
  copied :
      (executable : Bool) (contents rest : Bytes)
      → copy shows
          (length contents)
          (record { len = length contents; pad = length contents % 2 ^ 8 })
          []
          (opened (file executable contents) rest).1
        ≡ ok (contents, rest)
  copied executable contents rest = elim (Bool-cases (length contents == 0)) [
    | inl none_left ↦
        let r : FileReader = record { len = length contents; pad = length contents % 2 ^ 8 } in
        rw none_left (
          copy_done shows (length contents) r [] rest none_left
          ∙ rw (length→nil contents ((==_iff _ _).0 none_left)) refl)
    | inr some_left ↦ rw some_left (
        copy-append shows positive (length contents) (length contents % 2 ^ 8) (length contents)
          contents rest [] (some_length contents some_left) (omega arith) (omega arith))
  ]

  -- With fuel for its bytes, a node that was opened and the entries of a directory are read to their end.
  abbrev ReadsNode : Tree → Type 0
  ReadsNode t =
      (rest : Bytes) (fuel : ℕ)
      → length (emit t) ≤ fuel
      → IsTree t
      → read_node shows (read_entries shows fuel) (opened t rest).0 (opened t rest).1 ≡ ok (t, rest)

  abbrev ReadsEntries : Entries → Type 0
  ReadsEntries es =
      (prev rest : Bytes) (fuel : ℕ)
      → length (emit_entries es) ≤ fuel
      → AreEntries prev es
      → read_entries shows fuel (record { prev_name = prev })
          (lead prev ++ (emit_entries es ++ rest))
        ≡ ok (es, rest)

  read_entries-end : ReadsEntries end
  unfolding read_entries emit
  read_entries-end prev rest zero h tree = absurd (omega arith)
  read_entries-end prev rest (suc fuel) h tree = rw (read_entries, ◌>>=◌, next-end prev rest) refl

  read_node-symlink : (target : Bytes) → ReadsNode (symlink target)
  unfolding read_node
  read_node-symlink target rest fuel h tree = refl

  read_node-file : (executable : Bool) (contents : Bytes) → ReadsNode (file executable contents)
  unfolding read_node
  read_node-file executable contents rest fuel h tree =
      rw (read_node, ◌>>=◌, copied executable contents rest) refl

  read_node-directory : (es : Entries) → ReadsEntries es → ReadsNode (directory es)
  unfolding read_node emit
  read_node-directory es inside rest fuel h tree =
      let fits : length (emit_entries es) ≤ fuel =
        omega (arith, length-append tok_dir (emit_entries es), h) in
      rw (read_node, ◌>>=◌, inside [] rest fuel fits tree) refl

  read_entries-entry :
      (name : Bytes) (node : Tree) (es : Entries)
      → ReadsNode node
      → ReadsEntries es
      → ReadsEntries (entry name node es)
  unfolding read_entries emit
  read_entries-entry name node es inside after prev rest zero h tree = absurd (omega arith)
  read_entries-entry name node es inside after prev rest (suc fuel) h (good, lt, tree, others) =
      let behind = tok_par ++ (emit_entries es ++ rest) in
      let longer =
        entry_longer tok_ent (packed name) tok_nod (emit node) tok_par (emit_entries es) in
      let found = next-entry prev name node behind good lt tree in
      let node_read = inside behind fuel (omega (arith, h, longer)) tree in
      let entries_read = after name rest fuel (omega (arith, h, longer)) others in
      let whole =
        entry_split tok_ent (packed name) tok_nod (emit node) tok_par (emit_entries es) rest in
      let next_read : read_entries shows fuel (record { prev_name = name }) behind ≡ ok (es, rest) =
        subst
          (λ l.
            read_entries shows fuel (record { prev_name = name }) (l ++ (emit_entries es ++ rest))
            ≡ ok (es, rest))
          (lead_some name good.0) entries_read in
      ap (λ s. read_entries shows (suc fuel) (record { prev_name = prev }) (lead prev ++ s)) whole
      ∙ rw (read_entries, ◌>>=◌, found, node_read, next_read) refl

  mutual
    node-read : (t : Tree) → ReadsNode t
    node-read (symlink target) = read_node-symlink target
    node-read (file executable contents) = read_node-file executable contents
    node-read (directory es) = read_node-directory es (entries-read es)

    entries-read : (es : Entries) → ReadsEntries es
    entries-read end = read_entries-end
    entries-read (entry name node es) =
        read_entries-entry name node es (node-read node) (entries-read es)

  -- The archive of a tree that keeps to the format is read back, and what follows it is left.
  pub read_archive-append :
      (t : Tree) (rest : Bytes)
      → IsTree t
      → read_archive shows (emit_archive t ++ rest) ≡ ok (t, rest)
  unfolding read_archive emit_archive
  read_archive-append t rest tree =
      let fuel = length ((tok_nar ++ emit t) ++ rest) in
      let enough : length (emit t) ≤ fuel =
        omega (arith, length-append (tok_nar ++ emit t) rest, length-append tok_nar (emit t)) in
      let node_read = node-read t rest fuel enough tree in
      rw (read_archive, ◌>>=◌, open_archive-emit t rest tree, node_read) refl

-- What the writer writes of a tree that keeps to the format is read back as that tree, whatever the
-- buffers of the two show.
pub read_archive-write_archive :
    (written shown : Bytes → ℕ)
    → Shows written
    → Shows shown
    → (t : Tree) → IsTree t
    → (bytes : Bytes) × (write_archive written t ≡ ok bytes)
      × (read_archive shown bytes ≡ ok (t, []))
read_archive-write_archive written shown w r t tree = (
  emit_archive t,
  write_archive-emit written w t,
  subst (λ s. read_archive shown s ≡ ok (t, [])) (append-nil (emit_archive t))
      (read_archive-append shown r t [] tree),
)
