-- ===== src/NixCompat/Nar.antt =====
-- The NAR format: nix-compat/src/nar/wire (mod.rs, tag.rs), its tokens and tags.
pub mod Read
pub mod Reader
pub mod Writer
pub mod Tree
pub mod Pieces
pub mod Buffers
pub mod Copying
pub mod Writing
pub mod Reading
pub mod RoundTrip
pub mod Total
pub mod Steps
pub mod Termination
mod Examples
use tvix.Prelude.{
  ℕ, zero, suc, ◌+◌, ◌-◌, ◌/◌, ◌%◌, List, [], ◌∷◌, ◌++◌, map, Option, none, some, Bytes, codes,
  ◌==◌, ltb, if◌then◌else◌, length, get_or, replicate,
}

abbrev pub max_name_len : ℕ
max_name_len = 255

abbrev pub max_target_len : ℕ
max_target_len = 4095

-- A length below 256 as the literals write it: `\x0d\0\0\0\0\0\0\0`.
abbrev len_literal : ℕ → Bytes
len_literal n = n ∷ replicate 7 0

abbrev pub tok_nar : Bytes
tok_nar =
    len_literal 0x0d
    ++ (codes "nix-archive-1"
        ++ (replicate 3 0
            ++ (len_literal 1
                ++ (codes "("
                    ++ (replicate 7 0 ++ (len_literal 4 ++ (codes "type" ++ replicate 4 0)))))))

abbrev pub tok_sym : Bytes
tok_sym =
    len_literal 7 ++ (codes "symlink" ++ (0 ∷ (len_literal 6 ++ (codes "target" ++ replicate 2 0))))

abbrev pub tok_reg : Bytes
tok_reg = len_literal 7 ++ (codes "regular" ++ (0 ∷ (len_literal 8 ++ codes "contents")))

abbrev pub tok_exe : Bytes
tok_exe =
    len_literal 7
    ++ (codes "regular"
        ++ (0
            ∷ (len_literal 0x0a
                ++ (codes "executable"
                    ++ (replicate 6 0 ++ (replicate 8 0 ++ (len_literal 8 ++ codes "contents")))))))

abbrev pub tok_dir : Bytes
tok_dir = len_literal 9 ++ (codes "directory" ++ replicate 7 0)

abbrev pub tok_ent : Bytes
tok_ent =
    len_literal 5
    ++ (codes "entry"
        ++ (replicate 3 0
            ++ (len_literal 1
                ++ (codes "("
                    ++ (replicate 7 0 ++ (len_literal 4 ++ (codes "name" ++ replicate 4 0)))))))

abbrev pub tok_nod : Bytes
tok_nod =
    len_literal 4
    ++ (codes "node"
        ++ (replicate 4 0
            ++ (len_literal 1
                ++ (codes "("
                    ++ (replicate 7 0 ++ (len_literal 4 ++ (codes "type" ++ replicate 4 0)))))))

abbrev pub tok_par : Bytes
tok_par = len_literal 1 ++ (codes ")" ++ replicate 7 0)

-- `wire::Node`, the tokens that start a node.
pub data NodeTag : Type 0 where
  sym reg exe dir : NodeTag

-- `wire::Entry`: the end of a directory, or an entry.
pub data EntryTag : Type 0 where
  end_tag entry_tag : EntryTag

-- What `tag::make!` generates for an enum: the offset of the discriminant, the variants in order, and
-- their tokens.
pub record Tag (T : Type 0) : Type 0 where
  pub off : ℕ
  pub variants : List T
  pub as_bytes : T → Bytes

abbrev pub min_from : ℕ → List ℕ → ℕ
min_from y [] = y
min_from y (x ∷ tail) = min_from (if ltb x y then x else y) tail

-- `tag::min_of`, from `usize::MAX`.
abbrev pub min_of : List ℕ → ℕ
min_of xs = min_from 0xffff_ffff_ffff_ffff xs

abbrev pub max_from : ℕ → List ℕ → ℕ
max_from y [] = y
max_from y (x ∷ tail) = max_from (if ltb y x then x else y) tail

abbrev pub max_of : List ℕ → ℕ
max_of xs = max_from 0 xs

-- `tag::buf_of`, the size of the buffer for tokens of the lengths `xs`.
abbrev pub buf_of : List ℕ → ℕ
buf_of xs = max_of (min_of xs ∷ (max_of xs - min_of xs) ∷ [])

module _ {T : Type 0} (t : Tag T) where
  abbrev pub lens : List ℕ
  lens = map (λ v. length (t.as_bytes v)) t.variants

  unfoldable pub min_len : ℕ
  min_len = min_of lens

  abbrev first_with : ℕ → List T → Option T
  first_with x [] = none
  first_with x (v ∷ vs) = if x == get_or (t.as_bytes v) t.off 0 then some v else first_with x vs

  -- The variant of a discriminant.
  unfoldable pub from_u8 : ℕ → Option T
  from_u8 x = first_with x t.variants

abbrev pub node_bytes : NodeTag → Bytes
node_bytes sym = tok_sym
node_bytes reg = tok_reg
node_bytes exe = tok_exe
node_bytes dir = tok_dir

abbrev pub node_tag : Tag NodeTag
node_tag = record { off = 16; variants = sym ∷ reg ∷ exe ∷ dir ∷ []; as_bytes = node_bytes }

abbrev pub entry_bytes : EntryTag → Bytes
entry_bytes end_tag = tok_par
entry_bytes entry_tag = tok_ent

abbrev pub entry_tag_set : Tag EntryTag
entry_tag_set = record { off = 0; variants = end_tag ∷ entry_tag ∷ []; as_bytes = entry_bytes }
