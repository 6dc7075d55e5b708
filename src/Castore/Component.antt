-- ===== src/Castore/Component.antt =====
-- castore/src/path/component.rs: the names of nodes.
use tvix.Prelude.{
  ℕ, ◌≡◌, ◌≢◌, ◌≤◌, false, [], arith, Bytes, codes, ltb, if◌then◌else◌, contains, length, Lacks,
  Lacks→contains, contains→Lacks, bytes_eq, ne→bytes_eq, bytes_eq_refl, Result-cases, ap, ◌⊎◌,
  Result, ok, err, inl, inr, ◌↔◌,
}

abbrev pub slash : ℕ
slash = b'/'

abbrev pub max_name_len : ℕ
max_name_len = 255

pub data PathComponentError : Type 0 where
  empty null cur_dir parent slashes too_long : PathComponentError
  convert : Bytes → PathComponentError → PathComponentError

pub record PathComponent : Type 0 where
  pub inner : Bytes

-- The match of `validate_name`, guard by guard.
unfoldable pub validate_name : Bytes → Result PathComponentError (Unit {0})
validate_name v =
    if bytes_eq v []
    then err empty
    else if bytes_eq v (codes "..")
    then err parent
    else if bytes_eq v (codes ".")
    then err cur_dir
    else if ltb max_name_len (length v)
    then err too_long
    else if contains v 0x00
    then err null
    else if contains v slash
    then err slashes
    else ok tt

-- The `TryFrom` conversions: of bytes, of a slice, of a text and of a C string alike.
unfoldable pub try_from : Bytes → Result PathComponentError PathComponent
try_from value = elim (validate_name value) [
  | err e ↦ err (convert value e)
  | ok u ↦ ok (record { inner = value })
]

-- What a name has to be, said without the code.
pub record IsName (v : Bytes) : Type 0 where
  pub not_empty : v ≢ []
  pub not_cur_dir : v ≢ codes "."
  pub not_parent : v ≢ codes ".."
  pub short : length v ≤ 255
  pub no_null : Lacks 0 v
  pub no_slash : Lacks b'/' v

IsName→validate : (v : Bytes) → IsName v → validate_name v ≡ ok tt
unfolding validate_name
IsName→validate v n =
    rw
      (
        ne→bytes_eq v [] n.not_empty,
        ne→bytes_eq v (codes "..") n.not_parent,
        ne→bytes_eq v (codes ".") n.not_cur_dir,
        Lacks→contains 0 v n.no_null,
        Lacks→contains slash v n.no_slash,
      )
      (ground arith)

bytes_eq-false : (v w : Bytes) → bytes_eq v w ≡ false → v ≢ w
bytes_eq-false v w h e = cc (bytes_eq_refl w, ap (λ u. bytes_eq u w) e)

validate→IsName : (v : Bytes) → validate_name v ≡ ok tt → IsName v
unfolding validate_name
validate→IsName v h = record {
  not_empty = bytes_eq-false v [] (ground arith);
  not_cur_dir = bytes_eq-false v (codes ".") (ground arith);
  not_parent = bytes_eq-false v (codes "..") (ground arith);
  short = ground arith;
  no_null = contains→Lacks 0 v (ground arith);
  no_slash = contains→Lacks slash v (ground arith);
}

-- `validate_name` accepts exactly the names: not empty, not `.`, not `..`, of at most 255 bytes,
-- without a null byte and without a slash.
pub validate_name_iff : (v : Bytes) → (validate_name v ≡ ok tt) ↔ IsName v
validate_name_iff v = (validate→IsName v, IsName→validate v)

pub validate_name-cases :
    (v : Bytes) → IsName v ⊎ ((e : PathComponentError) × (validate_name v ≡ err e) × (¬ IsName v))
validate_name-cases v = elim (Result-cases (validate_name v)) [
  | inl (tt, h) ↦ inl (validate→IsName v h)
  | inr (e, h) ↦ inr (e, h, λ n. cc (h, IsName→validate v n))
]

-- A conversion into a `PathComponent` keeps the bytes and succeeds exactly on names; a failed one
-- carries the bytes.
pub try_from_lem :
    (v : Bytes)
    → (IsName v × (try_from v ≡ ok (record { inner = v })))
      ⊎ ((¬ IsName v) × (e : PathComponentError) × (try_from v ≡ err (convert v e)))
unfolding try_from
try_from_lem v = elim (validate_name-cases v) [
  | inl n ↦ inl (n, rw (IsName→validate v n, try_from))
  | inr (e, h, not_name) ↦ inr (not_name, e, rw (h, try_from))
]

pub try_from_name : (v : Bytes) → IsName v → try_from v ≡ ok (record { inner = v })
unfolding try_from
try_from_name v n = rw (IsName→validate v n, try_from)

pub try_from-IsName :
    (v : Bytes) (c : PathComponent) → try_from v ≡ ok c → IsName v × (record { inner = v } ≡ c)
try_from-IsName v c h = elim (try_from_lem v) [ inl (n, e) ↦ (n, cc) | inr (not_name, x, e) ↦ cc ]
