-- ===== src/NixCompat/Wire.antt =====
-- nix-compat/src/wire/bytes/mod.rs: how a byte string is put on the wire.
pub mod Writer
pub mod Examples
use tvix.Prelude.{
  ℕ, ◌+◌, ◌-◌, ◌%◌, ◌^◌, ◌≤◌, ◌<◌, ◌≡◌, refl, List, [], ◌++◌, Bytes, ◌==◌, if◌then◌else◌, length,
  take, replicate, arith,
}
use tvix.NixCompat.Nar.Writer.{to_le_bytes}

abbrev pub len_size : ℕ
len_size = 8

abbrev pub empty_bytes : Bytes
empty_bytes = replicate 8 0

-- `padding_len`, with the wrap-around of its steps; `& !7` takes the last three bits away.
unfoldable pub padding_len : ℕ → ℕ
padding_len len =
    let added = (len + 7) % 2 ^ 64 in
    let aligned = added - added % 8 in ((aligned + 2 ^ 64 - len) % 2 ^ 64) % 256

-- `write_bytes`, to what was written before.
unfoldable pub write_bytes : Bytes → Bytes → Bytes
write_bytes out b =
    let padding = padding_len (length b) in
    let written = (out ++ to_le_bytes (length b)) ++ b in
    if padding == 0 then written else written ++ take padding empty_bytes

pub padding_len_lem : (len : ℕ) → len < 2 ^ 64 → padding_len len ≡ (8 - len % 8) % 8
unfolding padding_len
padding_len_lem len h = omega arith
