-- ===== src/Eval/Attrs.antt =====
-- eval/src/value/attrs.rs: attribute sets and their representations. A string is its bytes, without its
-- context. Of a value the constructors that the construction of a set looks at are its own; the others
-- are of any type, and so are the catchable errors.
pub mod Map
pub mod Updates
pub mod Construction
use tvix.Prelude.{
  ℕ, zero, suc, ◌*◌, Bool, true, false, not, ◌&&◌, ◌||◌, List, [], ◌∷◌, Option, none, some, Bytes,
  codes, bytes_eq, ◌==◌, if◌then◌else◌, is_empty, length, reverse, Result, ok, err, Failure, error,
  panic, ◌>>=◌,
}
use Map.{Entries, get, insert}

-- The keys of the optimised representation.
abbrev pub name_key : Bytes
name_key = codes "name"

abbrev pub value_key : Bytes
value_key = codes "value"

-- `AttrsRep`, which `NixAttrs` wraps.
pub data Attrs (V : Type 0) : Type 0 where
  empty : Attrs V
  map : Entries V → Attrs V
  kv : V → V → Attrs V

pub data Value (Catchable Other : Type 0) : Type 0 where
  null : Value Catchable Other
  text : Bytes → Value Catchable Other
  catchable : Catchable → Value Catchable Other
  other : Other → Value Catchable Other

pub data AttrsError (Other : Type 0) : Type 0 where
  duplicate_attrs_key : Bytes → AttrsError Other
  invalid_attribute_name : Other → AttrsError Other

pub data IterKv : Type 0 where
  at_name at_value done : IterKv

-- `IterKV::next`.
pub advance : IterKv → IterKv
advance at_name = at_value
advance at_value = done
advance done = done

-- The iterator over the keys and values.
pub data KeyValue (V : Type 0) : Type 0 where
  empty_iter : KeyValue V
  kv_iter : V → V → IterKv → KeyValue V
  map_iter : Entries V → KeyValue V

module _ {V : Type 0} where
  unfoldable pub select : Bytes → Attrs V → Option V
  select key empty = none
  select key (kv name value) =
      if bytes_eq key name_key
      then some name
      else if bytes_eq key value_key
      then some value
      else none
  select key (map m) = get key m

  abbrev pub is_some : Option V → Bool
  is_some none = false
  is_some (some v) = true

  unfoldable pub contains : Bytes → Attrs V → Bool
  contains key empty = false
  contains key (kv name value) = bytes_eq key name_key || bytes_eq key value_key
  contains key (map m) = is_some (get key m)

  abbrev pub vacant : Bytes → V → Entries V → Option V → Entries V
  vacant key v m none = insert key v m
  vacant key v m (some w) = m

  -- The match of `update` on an entry: what is there has precedence.
  unfoldable pub insert_vacant : Bytes → V → Entries V → Entries V
  insert_vacant key v m = vacant key v m (get key m)

  -- `BTreeMap::extend`.
  unfoldable pub extend : Entries V → Entries V → Entries V
  extend m [] = m
  extend m ((key, v) ∷ entries) = extend (insert key v m) entries

  unfoldable pub update : Attrs V → Attrs V → Attrs V
  update empty empty = empty
  update empty (map m) = map m
  update empty (kv name value) = kv name value
  update (map m) empty = map m
  update (kv name value) empty = kv name value
  update (kv name value) (kv name' value') = kv name' value'
  update (map m) (kv name value) = map (insert value_key value (insert name_key name m))
  update (kv name value) (map m) =
      map (insert_vacant value_key value (insert_vacant name_key name m))
  update (map m) (map m') = map (extend m m')

  unfoldable pub len : Attrs V → ℕ
  len (map m) = length m
  len empty = 0
  len (kv name value) = 2

  unfoldable pub attrs_is_empty : Attrs V → Bool
  attrs_is_empty (map m) = is_empty m
  attrs_is_empty empty = true
  attrs_is_empty (kv name value) = false

  unfoldable pub iter : Attrs V → KeyValue V
  iter (map m) = map_iter m
  iter empty = empty_iter
  iter (kv name value) = kv_iter name value at_name

  -- `next`: the item, if there is one, and the iterator after it.
  unfoldable pub next : KeyValue V → Option (Bytes × V) × KeyValue V
  unfolding advance
  next (map_iter []) = (none, map_iter [])
  next (map_iter (e ∷ m)) = (some e, map_iter m)
  next empty_iter = (none, empty_iter)
  next (kv_iter name value at_name) = (some (name_key, name), kv_iter name value (advance at_name))
  next (kv_iter name value at_value) =
      (some (value_key, value), kv_iter name value (advance at_value))
  next (kv_iter name value done) = (none, kv_iter name value done)

abbrev pub set_entry :
    {V Other : Type 0}
    → Entries V
    → Bytes
    → V
    → Option V
    → Result (Failure (AttrsError Other)) (Entries V)
set_entry m key v (some w) = err (error (duplicate_attrs_key key))
set_entry m key v none = ok (insert key v m)

-- `set_attr`.
unfoldable pub set_attr :
    {V Other : Type 0} → Entries V → Bytes → V → Result (Failure (AttrsError Other)) (Entries V)
set_attr m key v = set_entry m key v (get key m)

-- The result of `construct`.
abbrev pub Construct : Type 0 → Type 0 → Type 0 → Type 0
Construct Catchable Other A = Result (Failure (AttrsError Other)) (Result Catchable A)

module _ {Catchable Other : Type 0} where
  -- The match of `attempt_optimise_kv` on the two keys, of the values that stand behind them.
  abbrev pub kv_of :
      Bytes
      → Bytes
      → Value Catchable Other
      → Value Catchable Other
      → Option (Attrs (Value Catchable Other))
  kv_of s1 s2 v1 v3 =
      if bytes_eq s1 name_key && bytes_eq s2 value_key
      then some (kv v3 v1)
      else if bytes_eq s1 value_key && bytes_eq s2 name_key
      then some (kv v1 v3)
      else none

  -- Of a slice of four values.
  unfoldable pub attempt_optimise_kv :
      List (Value Catchable Other) → Option (Attrs (Value Catchable Other))
  attempt_optimise_kv (text s2 ∷ v1 ∷ text s1 ∷ v3 ∷ []) = kv_of s1 s2 v1 v3
  attempt_optimise_kv _ = none

  -- The loop of `construct`, over the slice from its end.
  unfoldable pub set_attrs :
      ℕ
      → List (Value Catchable Other)
      → Entries (Value Catchable Other)
      → Construct Catchable Other (Entries (Value Catchable Other))
  set_attrs zero slice m = ok (ok m)
  set_attrs (suc count) [] m = err panic
  set_attrs (suc count) (v ∷ []) m = err panic
  set_attrs (suc count) (v ∷ text key ∷ slice) m = do
    m' ← set_attr m key v
    set_attrs count slice m'
  set_attrs (suc count) (v ∷ null ∷ slice) m = set_attrs count slice m
  set_attrs (suc count) (v ∷ catchable e ∷ slice) m = ok (err e)
  set_attrs (suc count) (v ∷ other o ∷ slice) m = err (error (invalid_attribute_name o))

  abbrev pub as_map :
      Construct Catchable Other (Entries (Value Catchable Other))
      → Construct Catchable Other (Attrs (Value Catchable Other))
  as_map (ok (ok m)) = ok (ok (map m))
  as_map (ok (err e)) = ok (err e)
  as_map (err e) = err e

  abbrev pub kv_or :
      Option (Attrs (Value Catchable Other))
      → Construct Catchable Other (Attrs (Value Catchable Other))
      → Construct Catchable Other (Attrs (Value Catchable Other))
  kv_or (some attrs) rest = ok (ok attrs)
  kv_or none rest = rest

  -- `construct`, with its debug assertion.
  unfoldable pub construct :
      ℕ → List (Value Catchable Other) → Construct Catchable Other (Attrs (Value Catchable Other))
  construct count slice =
      let plain = as_map (set_attrs count (reverse slice) []) in
      if not (length slice == count * 2)
      then err panic
      else if count == 0
      then ok (ok empty)
      else if count == 2
      then kv_or (attempt_optimise_kv slice) plain
      else plain
