-- ===== src/NixCompat/Nar/Examples.antt =====
-- Runs of the NAR writer and reader, and the theorems on them applied to those.
use tvix.Prelude.{
  ℕ, ◌≤◌, ◌≡◌, refl, true, false, [], ◌∷◌, ◌++◌, Bytes, codes, length, contains, contains→Lacks, ap,
  inl, ◌⊎◌, ◌<◌, ok, err, error, arith,
}
use tvix.NixCompat.Nar.{node_tag, lens, buf_of}
use tvix.NixCompat.Nar.Read.{IoErrorKind, unexpected_eof, invalid_input}
use tvix.NixCompat.Nar.Reader.{bad_name}
use tvix.NixCompat.Nar.Writer.{write_file}
use tvix.NixCompat.Nar.Tree.{
  Tree, symlink, file, directory, end, entry, emit, emit_archive, IsTree, IsTarget, IsEntryName,
  write_archive, read_archive,
}
use tvix.NixCompat.Nar.Termination.{read_archive_total}
use tvix.NixCompat.Nar.Copying.{Shows}
use tvix.NixCompat.Nar.Writing.{write_file-outcomes, write_archive-emit}
use tvix.NixCompat.Nar.RoundTrip.{read_archive-write_archive}

-- A directory with an executable, a directory that is empty, and a link.
abbrev small_tree : Tree
small_tree = directory (
    entry (codes "bin") (file true (codes "#!/bin/sh"))
      (entry (codes "etc") (directory end) (entry (codes "lib") (symlink (codes "../lib")) end)))

-- Readers that show three bytes, and one byte, at a time.
abbrev three_shown : Bytes → ℕ
three_shown s = 3

abbrev one_shown : Bytes → ℕ
one_shown s = 1

abbrev shows_three : Shows three_shown
shows_three b s = omega arith

abbrev shows_one : Shows one_shown
shows_one b s = omega arith

allowed-IsEntryName : (name : Bytes) → bad_name name ≡ false → length name ≤ 255 → IsEntryName name
allowed-IsEntryName [] h short = cc
allowed-IsEntryName (c ∷ name) h short =
    let long : 1 ≤ length (c ∷ name) = omega arith in
    (
      long,
      short,
      contains→Lacks 0 (c ∷ name) (ground arith),
      contains→Lacks 47 (c ∷ name) (ground arith),
      (λ e. cc (ap bad_name e)),
      (λ e. cc (ap bad_name e)),
    )

allowed-IsTarget :
    (target : Bytes)
    → contains target 0 ≡ false
    → 1 ≤ length target
    → length target ≤ 4095
    → IsTarget target
allowed-IsTarget target h long short = (long, short, contains→Lacks 0 target h)

small_tree-IsTree : IsTree small_tree
small_tree-IsTree = (
  allowed-IsEntryName (codes "bin") refl (omega arith),
  tt,
  omega arith,
  (
    allowed-IsEntryName (codes "etc") refl (omega arith),
    inl (omega arith),
    tt,
    (
      allowed-IsEntryName (codes "lib") refl (omega arith),
      inl (omega arith),
      allowed-IsTarget (codes "../lib") refl (omega arith) (omega arith),
      tt,
    ),
  ),
)

read_archive-write_archive_example :
    (bytes : Bytes) × (write_archive three_shown small_tree ≡ ok bytes)
    × (read_archive one_shown bytes ≡ ok (small_tree, []))
read_archive-write_archive_example =
    read_archive-write_archive three_shown one_shown shows_three shows_one small_tree
      small_tree-IsTree

write_archive-emit_example : write_archive three_shown small_tree ≡ ok (emit_archive small_tree)
write_archive-emit_example = write_archive-emit three_shown shows_three small_tree

-- A reader that holds more than was announced.
write_file-outcomes_example :
    ((◌≡◌ {A = ℕ} 1 2)
      × (write_file one_shown true 1 (codes "hi") [] ≡ ok ([] ++ emit (file true (codes "hi")))))
    ⊎ (((2 < 1) × (write_file one_shown true 1 (codes "hi") [] ≡ err (error unexpected_eof)))
        ⊎ ((1 < 2) × (write_file one_shown true 1 (codes "hi") [] ≡ err (error invalid_input))))
write_file-outcomes_example = write_file-outcomes one_shown shows_one true 1 (codes "hi") []

node_buffer : buf_of (lens node_tag) ≡ 40
node_buffer = refl

-- Reading two bytes.
read_archive_total_example :
    ((t : Tree) × (rest : Bytes) × (read_archive one_shown (13 ∷ 0 ∷ []) ≡ ok (t, rest))
      × (length rest ≤ 2))
    ⊎ ((e : IoErrorKind) × (read_archive one_shown (13 ∷ 0 ∷ []) ≡ err (error e)))
read_archive_total_example = read_archive_total one_shown (13 ∷ 0 ∷ [])
