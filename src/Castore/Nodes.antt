-- ===== src/Castore/Nodes.antt =====
-- castore/src/digests.rs, castore/src/nodes and castore/src/errors.rs: digests, symlink targets and
-- the three kinds of nodes, with their checked conversions.
pub mod Directory
use tvix.Prelude.{
  ℕ, ◌≡◌, ◌≢◌, ◌-◌, ◌∷◌, ◌≤◌, ◌<◌, ◌^◌, ◌↔◌, Bool, true, false, refl, List, [], arith, Bytes,
  if◌then◌else◌, ltb, ◌==◌, contains, is_empty, length, Lacks, Lacks→contains, contains→Lacks,
  Result, ok, err,
}
use tvix.Castore.Component.{PathComponent, PathComponentError}

abbrev pub b3_len : ℕ
b3_len = 32

pub record B3Digest : Type 0 where
  pub bytes : Bytes

pub data DigestError : Type 0 where
  invalid_digest_len : ℕ → DigestError

-- `B3Digest::try_from`.
unfoldable pub digest_try_from : Bytes → Result DigestError B3Digest
digest_try_from value =
    if length value == b3_len
    then ok (record { bytes = value })
    else err (invalid_digest_len (length value))

abbrev pub max_target_len : ℕ
max_target_len = 4095

pub record SymlinkTarget : Type 0 where
  pub inner : Bytes

pub data SymlinkTargetError : Type 0 where
  empty null too_long : SymlinkTargetError
  convert : Bytes → SymlinkTargetError → SymlinkTargetError

unfoldable pub validate_symlink_target : Bytes → Result SymlinkTargetError Bytes
validate_symlink_target v =
    if is_empty v
    then err empty
    else if ltb max_target_len (length v)
    then err too_long
    else if contains v 0x00
    then err null
    else ok v

-- The `TryFrom` conversions: of bytes, of a slice and of a text alike.
unfoldable pub target_try_from : Bytes → Result SymlinkTargetError SymlinkTarget
target_try_from value = elim (validate_symlink_target value) [
  | err e ↦ err (convert value e)
  | ok v ↦ ok (record { inner = value })
]

pub data Node : Type 0 where
  directory : B3Digest → ℕ → Node
  file : B3Digest → ℕ → Bool → Node
  symlink : SymlinkTarget → Node

pub data ValidateNodeError : Type 0 where
  invalid_digest_len : ℕ → ValidateNodeError
  invalid_symlink_target : SymlinkTargetError → ValidateNodeError

-- `From<digests::Error>`.
pub from_digest_error : DigestError → ValidateNodeError
from_digest_error (invalid_digest_len n) = ValidateNodeError.invalid_digest_len n

pub data DirectoryError : Type 0 where
  duplicate_name : PathComponent → DirectoryError
  invalid_node : Bytes → ValidateNodeError → DirectoryError
  size_overflow : DirectoryError
  invalid_name : PathComponentError → DirectoryError
  name_in_anonymous_node : DirectoryError
  wrong_sorting : Bytes → DirectoryError
  no_node_set : DirectoryError

abbrev pub u64_max : ℕ
u64_max = 2 ^ 64 - 1

is_empty-false : (v : Bytes) → v ≢ [] → is_empty v ≡ false
is_empty-false [] h = absurd (h refl)
is_empty-false (c ∷ v) h = refl

pub record IsTarget (v : Bytes) : Type 0 where
  pub not_empty : v ≢ []
  pub short : length v ≤ 4095
  pub no_null : Lacks 0 v

-- A node whose digest has 32 bytes, whose size is a u64 and whose target is a symlink target.
abbrev pub IsNode : Node → Type 0
IsNode (directory d s) = (length d.bytes ≡ 32) × (s ≤ u64_max)
IsNode (file d s x) = (length d.bytes ≡ 32) × (s ≤ u64_max)
IsNode (symlink t) = IsTarget t.inner

pub target_try_from-IsTarget :
    (v : Bytes) (t : SymlinkTarget) → target_try_from v ≡ ok t → IsTarget v × (t.inner ≡ v)
unfolding target_try_from validate_symlink_target
target_try_from-IsTarget [] t h = cc
target_try_from-IsTarget (c ∷ v) t h = (
  record {
    not_empty = λ e. cc;
    short = ground arith;
    no_null = contains→Lacks 0 (c ∷ v) (ground arith);
  },
  ground arith,
)

pub IsTarget-target_try_from :
    (t : SymlinkTarget) → IsTarget t.inner → target_try_from t.inner ≡ ok t
unfolding target_try_from validate_symlink_target
IsTarget-target_try_from t h =
    let full : is_empty t.inner ≡ false = is_empty-false t.inner h.not_empty in
    let clean = Lacks→contains 0 t.inner h.no_null in ground arith

pub digest_try_from-length :
    (v : Bytes) (d : B3Digest) → digest_try_from v ≡ ok d → (length v ≡ 32) × (d.bytes ≡ v)
unfolding digest_try_from
digest_try_from-length v d h = ground arith

pub length-digest_try_from : (d : B3Digest) → length d.bytes ≡ 32 → digest_try_from d.bytes ≡ ok d
unfolding digest_try_from
length-digest_try_from d h = rw (h, digest_try_from)
