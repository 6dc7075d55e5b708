-- ===== src/NixCompat/Nar/Writer.antt =====
-- nix-compat/src/nar/writer/sync.rs: writing nodes, files and directories, to a vector of bytes, in a
-- release build (where the assertions on names and targets are the caller's to keep).
use tvix.Prelude.{
  ℕ, zero, suc, ◌-◌, ◌/◌, ◌%◌, Bool, true, false, not, [], ◌∷◌, ◌++◌, Option, none, some, min,
  Bytes, ◌==◌, if◌then◌else◌, length, take, drop, is_empty, replicate, Result, ok, err, Failure,
  error, panic,
}
use tvix.NixCompat.Nar.{tok_nar, tok_sym, tok_reg, tok_exe, tok_dir, tok_ent, tok_nod, tok_par}
use tvix.NixCompat.Nar.Read.{IoErrorKind, unexpected_eof, invalid_input}

unfoldable pub to_le_from : ℕ → ℕ → Bytes
to_le_from zero n = []
to_le_from (suc k) n = (n % 256) ∷ to_le_from k (n / 256)

-- `u64::to_le_bytes`.
unfoldable pub to_le_bytes : ℕ → Bytes
unfolding to_le_from
to_le_bytes n = to_le_from 8 n

-- What `pad(n)` writes.
unfoldable pub pad : ℕ → Bytes → Bytes
pad n out = if n % 8 == 0 then out else out ++ drop (n % 8) (replicate 8 0)

-- `open`.
unfoldable pub open_writer : Bytes → Bytes
open_writer out = out ++ tok_nar

unfoldable pub write_symlink : Bytes → Bytes → Bytes
write_symlink target out =
    pad (length target) (((out ++ tok_sym) ++ to_le_bytes (length target)) ++ target) ++ tok_par

abbrev pub file_header : Bool → ℕ → Bytes → Bytes
file_header executable size out =
    (out ++ (if executable then tok_exe else tok_reg)) ++ to_le_bytes size

-- The loop that copies `need` bytes, in at most `fuel` rounds; `shows` says how much the reader shows of
-- each rest. The output, and what is left of the reader.
unfoldable pub copy_loop :
    (Bytes → ℕ) → ℕ → ℕ → Bytes → Bytes → Result (Failure IoErrorKind) (Bytes × Bytes)
copy_loop shows zero need reader out = if need == 0 then ok (out, reader) else err panic
copy_loop shows (suc fuel) need reader out = elim (need == 0) [
  | true ↦ ok (out, reader)
  | false ↦
      let chunk = take (shows reader) reader in
      let n = min need (length chunk) in
      elim (is_empty chunk) [
        | true ↦ err (error unexpected_eof)
        | false ↦ copy_loop shows fuel (need - n) (drop n reader) (out ++ take n chunk)
      ]
]

unfoldable pub write_file :
    (Bytes → ℕ) → Bool → ℕ → Bytes → Bytes → Result (Failure IoErrorKind) Bytes
write_file shows executable size reader out =
    elim (copy_loop shows size size reader (file_header executable size out)) [
      | err e ↦ err e
      | ok (copied, left) ↦
          if not (is_empty (take (shows left) left))
          then err (error invalid_input)
          else ok (pad size copied ++ tok_par)
    ]

-- `file_manual_write` and `FileManualWrite::close`.
unfoldable pub file_manual_write : Bool → ℕ → Bytes → Bytes
file_manual_write executable size out = file_header executable size out

unfoldable pub manual_close : ℕ → Bytes → Bytes
manual_close size out = pad size out ++ tok_par

-- `Directory`, with whether there is a previous name.
pub record Directory : Type 0 where
  pub prev_name : Option (Unit {0})

unfoldable pub write_directory : Bytes → Directory × Bytes
write_directory out = (record { prev_name = none }, out ++ tok_dir)

unfoldable pub write_entry : Directory → Bytes → Bytes → Directory × Bytes
write_entry d name out =
    let terminated = elim d.prev_name as (λ _. Bytes) [ none ↦ out | some _ ↦ out ++ tok_par ] in
    (
      record { prev_name = some tt },
      pad (length name) (((terminated ++ tok_ent) ++ to_le_bytes (length name)) ++ name) ++ tok_nod,
    )

unfoldable pub close : Directory → Bytes → Bytes
close d out = elim d.prev_name as (λ _. Bytes) [
  | none ↦ out ++ tok_par
  | some _ ↦ (out ++ tok_par) ++ tok_par
]
