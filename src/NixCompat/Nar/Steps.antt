-- ===== src/NixCompat/Nar/Steps.antt =====
-- nix-compat/src/nar/reader/mod.rs: the steps of the reader on any input.
use tvix.Prelude.{
  ℕ, zero, suc, ◌-◌, ◌%◌, ◌≤◌, ◌<◌, ◌≡◌, Bool, true, false, not, [], ◌∷◌, ◌++◌, Bytes, min, ◌==◌,
  ltb, if◌then◌else◌, length, take, drop, is_empty, bytes_eq, contains, replicate, arith,
  Bool-cases, inl, inr, ◌||◌,
}
use tvix.NixCompat.Nar.{
  NodeTag, reg, exe, dir, EntryTag, end_tag, entry_tag, node_tag, entry_tag_set, tok_nar, tok_par,
  tok_nod, min_len,
}
use tvix.NixCompat.Nar.Read.{
  Parser, pure, fail, ◌>>=◌, ◌>>◌, read_exact, read_u64, read_bytes, bytes_buf, token, read_tag,
  invalid_data,
}
use tvix.NixCompat.Nar.Reader.{
  FileReader, DirReader, Node, file_reader_new, read_symlink, read_file, node_of, node_new,
  open_archive, finish_pad, finish, fill_buf, consume, copy, bad_name, misordered, read_entry,
  after_tag, next,
}
use tvix.NixCompat.Nar.Total.{
  Ensures, Left, Ensures-bind, Left-bind, Ensures-if, token-Left, read_u64-Left, read_exact-Left,
  read_bytes-Left, bytes_buf-Left, read_tag-Left,
}

drop_le : (k : ℕ) (s : Bytes) → length (drop k s) ≤ length s
drop_le zero s = omega arith
drop_le (suc k) [] = omega arith
drop_le (suc k) (x ∷ s) = let le = drop_le k s in omega (arith, le)

take_le : (k : ℕ) (s : Bytes) → length (take k s) ≤ k
take_le zero s = omega arith
take_le (suc k) [] = omega arith
take_le (suc k) (x ∷ s) = let le = take_le k s in omega (arith, le)

some_shown : (k : ℕ) (s : Bytes) → is_empty s ≡ false → 1 ≤ k → 1 ≤ length (take k s)
some_shown zero s h le = absurd (omega arith)
some_shown (suc k) [] h le = cc
some_shown (suc k) (x ∷ s) h le = omega arith

module _ (n : ℕ) where
  finish-Left : (r : FileReader) (s : Bytes) → length s ≤ n → Ensures (Left n) (finish r s)
  unfolding finish finish_pad
  finish-Left r s h =
      let buffer : Bytes → Parser (Unit {0}) = λ buf.
        if not (bytes_eq (replicate (r.pad % 8) 0 ++ buf) (replicate 8 0))
        then fail invalid_data
        else pure tt in
      Left-bind n (finish_pad (r.pad % 8)) (λ _. token tok_par) s
        (Ensures-if (Left n) (r.pad % 8 == 0) (pure tt) (read_exact (8 - r.pad % 8) >>= buffer) s h
          (Left-bind n (read_exact (8 - r.pad % 8)) buffer s (read_exact-Left n (8 - r.pad % 8) s h)
            λ buf rest short.
              Ensures-if (Left n) (not (bytes_eq (replicate (r.pad % 8) 0 ++ buf) (replicate 8 0)))
                (fail invalid_data) (pure tt) rest tt short))
        λ _ rest short. token-Left n tok_par rest short

  file_reader_new-Left :
      (len : ℕ) (s : Bytes) → length s ≤ n → Ensures (Left n) (file_reader_new len s)
  unfolding file_reader_new
  file_reader_new-Left len s h =
      Left-bind n (if len == 0 then token tok_par else pure tt) _ s
        (Ensures-if (Left n) (len == 0) (token tok_par) (pure tt) s (token-Left n tok_par s h) h)
        λ _ rest short. short

  read_symlink-Left : (s : Bytes) → length s ≤ n → Ensures (Left n) (read_symlink s)
  unfolding read_symlink
  read_symlink-Left s h =
      Left-bind n (read_bytes 4095) _ s (read_bytes-Left n 4095 s h) λ target rest short.
        Ensures-if (Left n) (is_empty target || contains target 0) (fail invalid_data)
          (token tok_par >> pure (Node.symlink target)) rest tt
          (Left-bind n (token tok_par) (λ _. pure (Node.symlink target)) rest
            (token-Left n tok_par rest short) λ _ after less. less)

  read_file-Left :
      (executable : Bool) (s : Bytes) → length s ≤ n → Ensures (Left n) (read_file executable s)
  unfolding read_file
  read_file-Left executable s h = Left-bind n read_u64 _ s (read_u64-Left n s h) λ len rest short.
      Left-bind n (file_reader_new len) _ rest (file_reader_new-Left len rest short)
        λ r after less. less

  node_of-Left : (t : NodeTag) (s : Bytes) → length s ≤ n → Ensures (Left n) (node_of t s)
  unfolding node_of
  node_of-Left NodeTag.sym s h = read_symlink-Left s h
  node_of-Left reg s h = read_file-Left false s h
  node_of-Left exe s h = read_file-Left true s h
  node_of-Left dir s h = h

  node_new-Left : (s : Bytes) → length s ≤ n → Ensures (Left n) (node_new s)
  unfolding node_new
  node_new-Left s h =
      Left-bind n (read_tag node_tag) node_of s (read_tag-Left n node_tag s (omega (arith, h)))
        λ t rest short. node_of-Left t rest short

  -- The start of an archive takes a byte at least.
  pub open_archive-Left : (s : Bytes) → length s ≤ suc n → Ensures (Left n) (open_archive s)
  unfolding open_archive node_new min_len
  open_archive-Left s h =
      Ensures-bind (Left (suc n)) (Left n) (token tok_nar) (λ _. node_new) s
        (token-Left (suc n) tok_nar s h)
        λ _ rest short.
          Left-bind n (read_tag node_tag) node_of rest
            (read_tag-Left n node_tag rest (omega (arith, short)))
            λ t after less. node_of-Left t after less

  read_entry-Left : (r : DirReader) (s : Bytes) → length s ≤ n → Ensures (Left n) (read_entry r s)
  unfolding read_entry
  read_entry-Left r s h =
      Left-bind n (bytes_buf 256 255) _ s (bytes_buf-Left n 256 255 s (omega arith) h)
        λ name rest short. Ensures-if (Left n) (bad_name name) (fail invalid_data) _ rest tt (
          Ensures-if (Left n) (misordered r.prev_name name) (fail invalid_data) _ rest tt (
            Left-bind n (token tok_nod) _ rest (token-Left n tok_nod rest short) λ _ behind less.
              Left-bind n node_new _ behind (node_new-Left behind less) λ node after least. least))

  after_tag-Left :
      (r : DirReader) (t : EntryTag) (s : Bytes) → length s ≤ n → Ensures (Left n) (after_tag r t s)
  unfolding after_tag
  after_tag-Left r end_tag s h = h
  after_tag-Left r entry_tag s h = read_entry-Left r s h

  -- The next entry of a directory takes a byte at least, and so does its end.
  pub next-Left : (r : DirReader) (s : Bytes) → length s ≤ suc n → Ensures (Left n) (next r s)
  unfolding next min_len
  next-Left r s h =
      Ensures-bind (Left (suc n)) (Left n)
        (if not (is_empty r.prev_name) then token tok_par else pure tt) _ s
        (Ensures-if (Left (suc n)) (not (is_empty r.prev_name)) (token tok_par) (pure tt) s
          (token-Left (suc n) tok_par s h) h)
        λ _ rest short.
          Left-bind n (read_tag entry_tag_set) (after_tag r) rest
            (read_tag-Left n entry_tag_set rest (omega (arith, short)))
            λ t after less. after_tag-Left r t after less

  -- `consume` of a part of what is left of a file.
  consume-Ensures :
      (k : ℕ) (r : FileReader) (s : Bytes)
      → 1 ≤ k
      → k ≤ r.len
      → length s ≤ n
      → Ensures (λ left rest. (length rest ≤ n) × (left.len < r.len)) (consume k r s)
  unfolding consume
  consume-Ensures k r s some_taken inside h =
      let taken : (k == 0) ≡ false = ground arith in
      let within : ltb r.len k ≡ false = ground arith in
      let left : FileReader = record r { len = r.len - k } in
      let dropped = drop_le k s in
      let shorter : left.len < r.len = omega arith in
      elim (Bool-cases (r.len - k == 0)) [
        | inl last ↦
            rw (consume, taken, within, last)
              (Ensures-bind (Left n) (λ a rest. (length rest ≤ n) × (a.len < r.len)) (finish left)
                (λ _. pure left) (drop k s)
                (finish-Left left (drop k s) (omega (arith, dropped, h)))
                λ _ rest short. (short, shorter))
        | inr more ↦ rw (consume, taken, within, more) (omega (arith, dropped, h), shorter)
      ]

  -- The bytes that are shown are part of what is left of the file, and there are some.
  fill_buf-Ensures :
      (shown : ℕ) (r : FileReader) (s : Bytes)
      → (r.len == 0) ≡ false
      → length s ≤ n
      → Ensures
          (λ buf rest. (length rest ≤ n) × (1 ≤ length buf) × (length buf ≤ r.len))
          (fill_buf shown r s)
  unfolding fill_buf
  fill_buf-Ensures shown r s some_left h = elim (Bool-cases (is_empty (take shown s))) [
    | inl nothing ↦ rw (fill_buf, some_left, nothing) tt
    | inr something ↦
        let buf = take shown s in
        let count = some_bytes buf something in
        let needed : 1 ≤ r.len = ground arith in
        let shorter = take_le (min (length buf) r.len) buf in
        rw (fill_buf, some_left, something)
          (
            h,
            some_shown (min (length buf) r.len) buf something (omega (arith, count, needed)),
            omega (arith, shorter),
          )
  ]
    where
      some_bytes : (b : Bytes) → is_empty b ≡ false → 1 ≤ length b
      some_bytes [] e = cc
      some_bytes (x ∷ b) e = omega arith

  -- A file is copied in as many rounds as it has bytes at most.
  pub copy-Left :
      (shows : Bytes → ℕ) (fuel : ℕ) (r : FileReader) (dst s : Bytes)
      → r.len ≤ fuel
      → length s ≤ n
      → Ensures (Left n) (copy shows fuel r dst s)
  unfolding copy
  copy-Left shows zero r dst s enough h =
      let done : (r.len == 0) ≡ true = ground arith in rw (copy, done) h
  copy-Left shows (suc fuel) r dst s enough h = elim (Bool-cases (r.len == 0)) [
    | inl done ↦ rw (copy, done) h
    | inr more ↦
        let round : Bytes → Parser Bytes =
          λ buf _. (consume (length buf) r >>= λ left. copy shows fuel left (dst ++ buf)) s in
        rw (copy, more)
          (Ensures-bind (λ buf rest. (length rest ≤ n) × (1 ≤ length buf) × (length buf ≤ r.len))
            (Left n) (λ _. fill_buf (shows s) r s) round s (fill_buf-Ensures (shows s) r s more h)
            λ buf _ (short, some_taken, inside).
              Ensures-bind (λ left rest. (length rest ≤ n) × (left.len < r.len)) (Left n)
                (consume (length buf) r) (λ left. copy shows fuel left (dst ++ buf)) s
                (consume-Ensures (length buf) r s some_taken inside h)
                λ left rest (less, shorter).
                  copy-Left shows fuel left (dst ++ buf) rest (omega (arith, enough, shorter)) less)
  ]
