-- ===== src/Eval/Versions/Comparison.antt =====
-- The comparison of eval/src/builtins/versions.rs.
use tvix.Prelude.{
  ℕ, ◌≡◌, refl, ap, ◌∙◌, List, [], ◌∷◌, some, Bytes, Ordering, compare, bytes_cmp, All, arith,
  Bool-cases, inl, inr,
}
use tvix.Eval.Versions.{VersionPart, word, number, parse_u64, is_pre, part_cmp, then_cmp, parts_cmp}

-- The order of the arguments the other way round.
abbrev pub flipped : Ordering → Ordering
flipped Ordering.lt = Ordering.gt
flipped Ordering.eq = Ordering.eq
flipped Ordering.gt = Ordering.lt

compare-flipped : (a b : ℕ) → compare b a ≡ flipped (compare a b)
compare-flipped a b = ground arith

bytes_cmp-flipped : (a b : Bytes) → bytes_cmp b a ≡ flipped (bytes_cmp a b)
bytes_cmp-flipped [] [] = refl
bytes_cmp-flipped [] (b ∷ bs) = refl
bytes_cmp-flipped (a ∷ as') [] = refl
bytes_cmp-flipped (a ∷ as') (b ∷ bs) = ground (arith, bytes_cmp-flipped as' bs)

-- A part that can be compared: a word, or a number that fits in 64 bits.
abbrev pub Fits64 : VersionPart → Type 0
Fits64 (word w) = Unit
Fits64 (number s) = (n : ℕ) × (parse_u64 s ≡ some n)

pub record Compares (x y : VersionPart) : Type 0 where
  pub order : Ordering
  pub forth : part_cmp x y ≡ some order
  pub back : part_cmp y x ≡ some (flipped order)

word-Compares : (x y : Bytes) → Compares (word x) (word y)
unfolding part_cmp
word-Compares x y = elim (Bool-cases (is_pre x)) [
  | inl px ↦ elim (Bool-cases (is_pre y)) [
    | inl py ↦ record { order = Ordering.eq; forth = rw (px, py) refl; back = rw (px, py) refl }
    | inr py ↦ record { order = Ordering.lt; forth = rw (px, py) refl; back = rw (px, py) refl }
  ]
  | inr px ↦ elim (Bool-cases (is_pre y)) [
    | inl py ↦ record { order = Ordering.gt; forth = rw (px, py) refl; back = rw (px, py) refl }
    | inr py ↦ record {
      order = bytes_cmp x y;
      forth = rw (px, py) refl;
      back = rw (px, py) (ap some (bytes_cmp-flipped x y));
    }
  ]
]

word_number-Compares : (x s : Bytes) → Compares (word x) (number s)
unfolding part_cmp
word_number-Compares x s = elim (Bool-cases (is_pre x)) [
  | inl px ↦ record { order = Ordering.lt; forth = rw px refl; back = rw px refl }
  | inr px ↦ record { order = Ordering.lt; forth = rw px refl; back = rw px refl }
]

number_word-Compares : (s x : Bytes) → Compares (number s) (word x)
unfolding part_cmp
number_word-Compares s x = elim (Bool-cases (is_pre x)) [
  | inl px ↦ record { order = Ordering.gt; forth = rw px refl; back = rw px refl }
  | inr px ↦ record { order = Ordering.gt; forth = rw px refl; back = rw px refl }
]

number-Compares :
    (s t : Bytes) (n m : ℕ)
    → parse_u64 s ≡ some n
    → parse_u64 t ≡ some m
    → Compares (number s) (number t)
unfolding part_cmp
number-Compares s t n m e d = record {
  order = compare n m;
  forth = rw (e, d) refl;
  back = rw (d, e) (ap some (compare-flipped n m));
}

part-Compares : (x y : VersionPart) → Fits64 x → Fits64 y → Compares x y
part-Compares (word x) (word y) f g = word-Compares x y
part-Compares (word x) (number s) f g = word_number-Compares x s
part-Compares (number s) (word y) f g = number_word-Compares s y
part-Compares (number s) (number t) (n, e) (m, d) = number-Compares s t n m e d

-- How two lists of parts compare, the other way round too.
pub record PartsCompare (xs ys : List VersionPart) : Type 0 where
  pub order : Ordering
  pub forth : parts_cmp xs ys ≡ some order
  pub back : parts_cmp ys xs ≡ some (flipped order)

then_cmp_order : Ordering → Ordering → Ordering
then_cmp_order Ordering.lt o = Ordering.lt
then_cmp_order Ordering.eq o = o
then_cmp_order Ordering.gt o = Ordering.gt

then_cmp-some : (o p : Ordering) → then_cmp (some o) (some p) ≡ some (then_cmp_order o p)
unfolding then_cmp_order
then_cmp-some Ordering.lt p = refl
then_cmp-some Ordering.eq p = refl
then_cmp-some Ordering.gt p = refl

then_cmp_order-flipped :
    (o p : Ordering) → then_cmp_order (flipped o) (flipped p) ≡ flipped (then_cmp_order o p)
unfolding then_cmp_order
then_cmp_order-flipped Ordering.lt p = refl
then_cmp_order-flipped Ordering.eq p = refl
then_cmp_order-flipped Ordering.gt p = refl

cons-PartsCompare :
    (x y : VersionPart) (xs ys : List VersionPart)
    → Compares x y
    → PartsCompare xs ys
    → PartsCompare (x ∷ xs) (y ∷ ys)
unfolding parts_cmp
cons-PartsCompare x y xs ys c r = record {
  order = then_cmp_order c.order r.order;
  forth = rw (c.forth, r.forth) (then_cmp-some c.order r.order);
  back =
      rw (c.back, r.back)
        (then_cmp-some (flipped c.order) (flipped r.order)
          ∙ ap some (then_cmp_order-flipped c.order r.order));
}

-- Two lists of parts whose numbers fit in 64 bits compare, and in the other order of the arguments they
-- compare the other way round.
pub parts_cmp-flipped :
    (xs ys : List VersionPart) → All Fits64 xs → All Fits64 ys → PartsCompare xs ys
unfolding parts_cmp
parts_cmp-flipped [] [] f g = record { order = Ordering.eq; forth = refl; back = refl }
parts_cmp-flipped [] (y ∷ ys) f g = record { order = Ordering.lt; forth = refl; back = refl }
parts_cmp-flipped (x ∷ xs) [] f g = record { order = Ordering.gt; forth = refl; back = refl }
parts_cmp-flipped (x ∷ xs) (y ∷ ys) f g =
    cons-PartsCompare x y xs ys (part-Compares x y f.0 g.0) (parts_cmp-flipped xs ys f.1 g.1)
