-- ===== src/NixCompat/Nar/Termination.antt =====
-- nix-compat/src/nar/reader/mod.rs: reading a whole tree from any input.
use tvix.Prelude.{
  ℕ, zero, suc, ◌≤◌, ◌<◌, ◌≡◌, refl, [], ◌∷◌, Option, none, some, Bytes, length, is_empty, Result,
  ok, err, Failure, error, panic, arith, Bool-cases, inl, inr, ◌⊎◌,
}
use tvix.NixCompat.Nar.{min_len}
use tvix.NixCompat.Nar.Read.{IoErrorKind, Parser, pure, ◌>>=◌, read_exact, token, read_tag}
use tvix.NixCompat.Nar.Reader.{DirReader, Node, Entry, open_archive, copy, next}
use tvix.NixCompat.Nar.Tree.{Tree, Entries, end, entry, read_node, read_entries, read_archive}
use tvix.NixCompat.Nar.Total.{Ensures, Left, Ensures-bind, Left-bind, Left-le}
use tvix.NixCompat.Nar.Steps.{copy-Left, next-Left, open_archive-Left}

module _ (shows : Bytes → ℕ) where
  read_node-Left :
      (fuel : ℕ)
      → ((d : DirReader) (s : Bytes)
          → length s < fuel
          → Ensures (Left (length s)) (read_entries shows fuel d s))
      → (node : Node) (s : Bytes) → length s < fuel
      → Ensures (Left (length s)) (read_node shows (read_entries shows fuel) node s)
  unfolding read_node
  read_node-Left fuel entries (Node.symlink target) s h = omega arith
  read_node-Left fuel entries (Node.file executable r) s h =
      Left-bind (length s) (copy shows r.len r []) _ s
        (copy-Left (length s) shows r.len r [] s (omega arith) (omega arith))
        λ contents rest short. short
  read_node-Left fuel entries (Node.directory d) s h =
      Left-bind (length s) (read_entries shows fuel d) _ s (entries d s h) λ es rest short. short

  -- What `read_entries` does with what it found.
  abbrev entry_found : ℕ → Option Entry × DirReader → Parser Entries
  entry_found fuel found = elim found.0 [
    | none ↦ pure end
    | some e ↦ read_node shows (read_entries shows fuel) e.node >>= λ node.
        (read_entries shows fuel found.1 >>= λ es. pure (entry e.name node es))
  ]

  entry_found-Left :
      (n fuel : ℕ)
      → ((d : DirReader) (s : Bytes)
          → length s < fuel
          → Ensures (Left (length s)) (read_entries shows fuel d s))
      → n < fuel
      → (found : Option Entry) (d : DirReader) (rest : Bytes) → length rest ≤ n
      → Ensures (Left n) (entry_found fuel (found, d) rest)
  entry_found-Left n fuel entries small none d rest short = short
  entry_found-Left n fuel entries small (some e) d rest short =
      Left-bind n (read_node shows (read_entries shows fuel) e.node) _ rest
        (Left-le (length rest) n (read_node shows (read_entries shows fuel) e.node rest) short
          (read_node-Left fuel entries e.node rest (omega (arith, short, small))))
        λ node after less.
          Left-bind n (read_entries shows fuel d) (λ es. pure (entry e.name node es)) after
            (Left-le (length after) n (read_entries shows fuel d after) less
              (entries d after (omega (arith, less, small))))
            λ es last least. least

  next-empty : (d : DirReader) → Ensures (λ _ _. ⊥) (next d [])
  unfolding next token read_tag read_exact min_len
  next-empty d = elim (Bool-cases (is_empty d.prev_name)) [
    | inl none_before ↦ rw (next, ◌>>=◌, none_before) tt
    | inr some_before ↦ rw (next, ◌>>=◌, some_before) tt
  ]

  read_entries-Left :
      (fuel : ℕ) (d : DirReader) (s : Bytes)
      → length s < fuel
      → Ensures (Left (length s)) (read_entries shows fuel d s)
  unfolding read_entries
  read_entries-Left zero d s h = absurd (omega (arith, h))
  read_entries-Left (suc fuel) d [] h =
      Ensures-bind (λ _ _. ⊥) (Left 0) (next d) (entry_found fuel) [] (next-empty d)
        λ found rest impossible. absurd impossible
  read_entries-Left (suc fuel) d (x ∷ s) h = Left-le (length s) (suc (length s)) _ (omega arith) (
      Left-bind (length s) (next d) (entry_found fuel) (x ∷ s)
        (next-Left (length s) d (x ∷ s) (omega arith))
        λ (found, d1) rest short.
          entry_found-Left (length s) fuel (read_entries-Left fuel) (omega (arith, h)) found d1 rest
            short)

read_archive-Left :
    (shows : Bytes → ℕ) (s : Bytes) → Ensures (Left (length s)) (read_archive shows s)
unfolding read_archive open_archive token
read_archive-Left shows [] = tt
read_archive-Left shows (x ∷ s) =
    let fuel = suc (length s) in
    Left-le (length s) fuel _ (omega arith) (
      Left-bind (length s) open_archive (λ node. read_node shows (read_entries shows fuel) node)
        (x ∷ s) (open_archive-Left (length s) (x ∷ s) (omega arith))
        λ node rest short.
          Left-le (length rest) (length s) (read_node shows (read_entries shows fuel) node rest)
            short
            (read_node-Left shows fuel (read_entries-Left shows fuel) node rest
              (omega (arith, short))))

-- Whatever bytes there are to read as an archive, and however they are shown, reading ends with a tree and
-- what is left of them, or with an error: never in a panic, and never short of fuel.
pub read_archive_total :
    (shows : Bytes → ℕ) (s : Bytes)
    → ((t : Tree) × (rest : Bytes) × (read_archive shows s ≡ ok (t, rest))
        × (length rest ≤ length s))
      ⊎ ((e : IoErrorKind) × (read_archive shows s ≡ err (error e)))
read_archive_total shows s = outcome (read_archive shows s) refl (read_archive-Left shows s)
  where
    outcome :
        (r : Result (Failure IoErrorKind) (Tree × Bytes))
        → read_archive shows s ≡ r
        → Ensures (Left (length s)) r
        → ((t : Tree) × (rest : Bytes) × (read_archive shows s ≡ ok (t, rest))
            × (length rest ≤ length s))
          ⊎ ((e : IoErrorKind) × (read_archive shows s ≡ err (error e)))
    outcome (ok (t, rest)) e h = inl (t, rest, e, h)
    outcome (err (error k)) e h = inr (k, e)
    outcome (err panic) e h = absurd h
