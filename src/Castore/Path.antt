-- ===== src/Castore/Path.antt =====
-- castore/src/path/mod.rs: relative paths in the castore model. `Path` and `PathBuf` have one
-- representation, the bytes; here both are `CastorePath`. The byte-string searches `split_str` and
-- `rsplit_once_str` belong to the bstr crate, and are the fields of `Bstr`.
pub mod Join
pub mod Components
pub mod HostPath
use tvix.Prelude.{
  ℕ, ◌≡◌, ◌≢◌, Bool, true, false, List, [], ◌∷◌, ◌++◌, map, Option, none, some, String, Bytes,
  if◌then◌else◌, is_empty, All, Lacks, Result, ok, err, map_err, ok_or, ◌>>=◌,
}
use mathlib.Core.List.{get_last?, tail}
use tvix.Castore.Component.{validate_name, slash, PathComponent, PathComponentError}
use Join.{join}

-- What bstr documents of the two searches, for a separator of one byte.
pub record Bstr : Type 0 where
  pub split_str : Bytes → ℕ → List Bytes
  pub rsplit_once_str : Bytes → ℕ → Option (Bytes × Bytes)
  pub split_str-ne-nil : (s : Bytes) (sep : ℕ) → split_str s sep ≢ []
  pub split_str-Lacks : (s : Bytes) (sep : ℕ) → All (Lacks sep) (split_str s sep)
  pub join-split_str : (s : Bytes) (sep : ℕ) → join sep (split_str s sep) ≡ s
  pub rsplit_once_str-none : (s : Bytes) (sep : ℕ) → rsplit_once_str s sep ≡ none → Lacks sep s
  pub rsplit_once_str-some :
      (s : Bytes) (sep : ℕ) (before after : Bytes)
      → rsplit_once_str s sep ≡ some (before, after)
      → (s ≡ before ++ sep ∷ after) × Lacks sep after

pub record CastorePath : Type 0 where
  pub inner : Bytes

abbrev pub PathBuf : Type 0
PathBuf = CastorePath

-- `std::io::ErrorKind::InvalidData`, with the message where one is given.
pub data IoError : Type 0 where
  invalid_data : Option String → IoError

-- A component of a `std::path::Path`.
pub data HostComponent : Type 0 where
  prefix : Bytes → HostComponent
  root_dir cur_dir parent_dir : HostComponent
  normal : Bytes → HostComponent

abbrev pub root : CastorePath
root = record { inner = [] }

-- The loop of `from_bytes`: false where it returns `None`.
unfoldable pub all_valid : List Bytes → Bool
all_valid [] = true
all_valid (c ∷ cs) =
    let rest = all_valid cs in elim (validate_name c) [ err e ↦ false | ok u ↦ rest ]

unfoldable pub try_push : PathBuf → Bytes → Result IoError PathBuf
try_push p name = elim (validate_name name) [
  | err e ↦ err (invalid_data none)
  | ok u ↦ ok (record { inner = (if is_empty p.inner then [] else p.inner ++ slash ∷ []) ++ name })
]

pub try_join : CastorePath → Bytes → Result IoError PathBuf
try_join p name = try_push (record { inner = p.inner }) name

module _ (bstr : Bstr) where
  unfoldable pub from_bytes : Bytes → Option CastorePath
  from_bytes bytes =
      if is_empty bytes
      then some (record { inner = bytes })
      else if all_valid (bstr.split_str bytes slash)
      then some (record { inner = bytes })
      else none

  -- `PathBuf::from_str`.
  unfoldable pub from_str : Bytes → Result IoError PathBuf
  from_str s = ok_or (from_bytes s) (invalid_data none)

  unfoldable pub parent : CastorePath → Option CastorePath
  parent p =
      if is_empty p.inner
      then none
      else some (elim (bstr.rsplit_once_str p.inner slash) [
        | some (before, _) ↦ record { inner = before }
        | none ↦ root
      ])

  unfoldable pub components_bytes : CastorePath → List Bytes
  components_bytes p =
      let iter = bstr.split_str p.inner slash in if is_empty p.inner then tail iter else iter

  unfoldable pub components : CastorePath → List PathComponent
  components p =
      let iter = bstr.split_str p.inner slash in
      map (λ b. record { inner = b }) (if is_empty p.inner then tail iter else iter)

  unfoldable pub file_name : CastorePath → Option PathComponent
  file_name p = get_last? (components p)

  unfoldable pub file_name_bytes : CastorePath → Option Bytes
  file_name_bytes p = get_last? (components_bytes p)

  -- One round of the loop of `from_host_path`.
  unfoldable pub host_step : Bool → PathBuf → HostComponent → Result IoError PathBuf
  host_step canonicalize_dotdot p (prefix _) =
      err (invalid_data (some "found disallowed prefix or rootdir"))
  host_step canonicalize_dotdot p root_dir =
      err (invalid_data (some "found disallowed prefix or rootdir"))
  host_step canonicalize_dotdot p cur_dir = ok p
  host_step canonicalize_dotdot p parent_dir =
      if canonicalize_dotdot
      then ok_or (parent p) (invalid_data (some "found .. going too far up"))
      else err (invalid_data (some "found disallowed .."))
  host_step canonicalize_dotdot p (normal s) =
      map_err (λ _. invalid_data (some "encountered invalid node in sub_path component"))
        (try_push p s)

  unfoldable pub host_loop : Bool → PathBuf → List HostComponent → Result IoError PathBuf
  host_loop canonicalize_dotdot p [] = ok p
  host_loop canonicalize_dotdot p (c ∷ cs) = do
    p' ← host_step canonicalize_dotdot p c
    host_loop canonicalize_dotdot p' cs

  -- The argument is `host_path.components()`.
  unfoldable pub from_host_path : List HostComponent → Bool → Result IoError PathBuf
  from_host_path host_path canonicalize_dotdot = host_loop canonicalize_dotdot root host_path
