-- ===== src/NixCompat/StorePath/Names.antt =====
-- nix-compat/src/store_path/mod.rs: which names `validate_name` accepts.
use tvix.Prelude.{
  ℕ, zero, suc, ◌+◌, ◌%◌, ◌^◌, ◌≤◌, ◌<◌, ◌≡◌, refl, sym, ◌↔◌, ◌⊎◌, inl, inr, true, false, ◌&&◌,
  ◌||◌, [], ◌∷◌, some, Bytes, ltb, ltb→lt, is_empty, length, get_or, take, ap, ◌∙◌, ok, err, error,
  All, arith, Bool-cases,
}
use tvix.NixCompat.StorePath.{
  invalid_length, invalid_name, fill_chars, matches_name, is_name_char, valid_loop, find_bad,
  validate_name,
}

-- The characters that the documentation of `StorePath` lists.
abbrev pub IsNameChar : ℕ → Type 0
IsNameChar c =
    ((97 ≤ c) × (c ≤ 122))
    ⊎ (((65 ≤ c) × (c ≤ 90))
        ⊎ (((48 ≤ c) × (c ≤ 57))
            ⊎ ((c ≡ 43) ⊎ ((c ≡ 45) ⊎ ((c ≡ 95) ⊎ ((c ≡ 63) ⊎ ((c ≡ 61) ⊎ (c ≡ 46))))))))

abbrev pub IsStoreName : Bytes → Type 0
IsStoreName s = (1 ≤ length s) × (length s ≤ 211) × All IsNameChar s

get_or-fill_chars :
    (n k c : ℕ) → get_or (fill_chars n k) c false ≡ (ltb c n && matches_name (k + c))
unfolding fill_chars
get_or-fill_chars zero k c = ground arith
get_or-fill_chars (suc n) k zero =
    let e : k + 0 ≡ k = omega arith in
    let inside : ltb 0 (suc n) ≡ true = ground arith in rw (inside, e) refl
get_or-fill_chars (suc n) k (suc c) =
    let e : k + suc c ≡ k + 1 + c = omega arith in
    let moved : ltb (suc c) (suc n) ≡ ltb c n = ground arith in
    rw (e, moved) (get_or-fill_chars n (k + 1) c)

matches_name_iff : (c : ℕ) → (matches_name c ≡ true) ↔ IsNameChar c
unfolding matches_name
matches_name_iff c = ground arith

is_name_char_lem : (c : ℕ) → is_name_char c ≡ (ltb c 256 && matches_name c)
unfolding is_name_char
is_name_char_lem c =
    let e : 0 + c ≡ c = omega arith in
    get_or-fill_chars 256 0 c ∙ ap (λ t. ltb c 256 && matches_name t) e

is_name_char→IsNameChar : (c : ℕ) → is_name_char c ≡ true → IsNameChar c
is_name_char→IsNameChar c h = (matches_name_iff c).0 (ground (arith, is_name_char_lem c))

IsNameChar→is_name_char : (c : ℕ) → IsNameChar c → is_name_char c ≡ true
IsNameChar→is_name_char c h =
    let inside : ltb c 256 ≡ true = ground arith in
    is_name_char_lem c ∙ rw (inside, (matches_name_iff c).1 h) refl

valid_loop-false : (s : Bytes) → valid_loop s false ≡ false
unfolding valid_loop
valid_loop-false [] = refl
valid_loop-false (c ∷ cs) = valid_loop-false cs

-- A good byte changes nothing, a bad one decides.
valid_loop-good :
    (c : ℕ) (cs : Bytes) → is_name_char c ≡ true → valid_loop (c ∷ cs) true ≡ valid_loop cs true
unfolding valid_loop
valid_loop-good c cs e = ap (valid_loop cs) e

valid_loop-bad : (c : ℕ) (cs : Bytes) → is_name_char c ≡ false → valid_loop (c ∷ cs) true ≡ false
unfolding valid_loop
valid_loop-bad c cs e = ap (valid_loop cs) e ∙ valid_loop-false cs

valid_loop→All : (s : Bytes) → valid_loop s true ≡ true → All IsNameChar s
valid_loop→All [] h = tt
valid_loop→All (c ∷ cs) h = elim (Bool-cases (is_name_char c)) [
  | inl e ↦ (is_name_char→IsNameChar c e, valid_loop→All cs (sym (valid_loop-good c cs e) ∙ h))
  | inr e ↦ absurd (cc (valid_loop-bad c cs e, h))
]

All→valid_loop : (s : Bytes) → All IsNameChar s → valid_loop s true ≡ true
unfolding valid_loop
All→valid_loop [] h = refl
All→valid_loop (c ∷ cs) (hc, h) =
    rw (valid_loop, IsNameChar→is_name_char c hc) (All→valid_loop cs h)

-- Where the search for a bad byte ends.
pub record FirstBad (s : Bytes) (i : ℕ) : Type 0 where
  pub inside : i < length s
  pub before : All IsNameChar (take i s)
  pub bad : ¬ IsNameChar (get_or s i 0)

find_bad_lem :
    (s : Bytes) (k : ℕ)
    → valid_loop s true ≡ false
    → (i : ℕ) × (find_bad s k ≡ some (k + i)) × FirstBad s i
unfolding find_bad valid_loop
find_bad_lem [] k h = cc
find_bad_lem (c ∷ cs) k h = elim (Bool-cases (is_name_char c)) [
  | inl e ↦
      let (i, found, first) = find_bad_lem cs (k + 1) (sym (valid_loop-good c cs e) ∙ h) in
      let shift : k + suc i ≡ k + 1 + i = omega arith in
      (
        suc i,
        rw (e, shift) found,
        record {
          inside = omega (arith, first.inside);
          before = (is_name_char→IsNameChar c e, first.before);
          bad = first.bad;
        },
      )
  | inr e ↦
      let here : k + 0 ≡ k = omega arith in
      (
        0,
        rw (e, here) refl,
        record {
          inside = omega arith;
          before = tt;
          bad = λ good. cc (e, IsNameChar→is_name_char c good);
        },
      )
]

length_bad :
    (s : Bytes) → (is_empty s || ltb 211 (length s)) ≡ true → (length s ≡ 0) ⊎ (211 < length s)
length_bad [] h = inl refl
length_bad (c ∷ cs) h = inr (ltb→lt 211 (suc (length cs)) h)

length_good :
    (s : Bytes) → (is_empty s || ltb 211 (length s)) ≡ false → (1 ≤ length s) × (length s ≤ 211)
length_good [] h = cc
length_good (c ∷ cs) h = ground arith

-- A name of 1 to 211 of the listed characters is accepted as it is. A name of another length is refused
-- for its length, any other for its first byte that is not listed, whose position is not cut to 8 bits;
-- no name reaches the panic.
pub validate_name_lem :
    (s : Bytes)
    → ((validate_name s ≡ ok s) × IsStoreName s)
      ⊎ (((validate_name s ≡ err (error invalid_length)) × ((length s ≡ 0) ⊎ (211 < length s)))
          ⊎ ((i : ℕ) × (validate_name s ≡ err (error (invalid_name s i)))
              × (length s ≤ 211)
              × FirstBad s i))
unfolding validate_name
validate_name_lem s = elim (Bool-cases (is_empty s || ltb 211 (length s))) [
  | inl bad ↦ inr (inl (rw (validate_name, bad) refl, length_bad s bad))
  | inr good ↦ elim (Bool-cases (valid_loop s true)) [
    | inl valid ↦ inl (
      rw (validate_name, good, valid) refl,
      ((length_good s good).0, (length_good s good).1, valid_loop→All s valid),
    )
    | inr wrong ↦
        let (i, found, first) = find_bad_lem s 0 wrong in
        let whole : (0 + i) % 2 ^ 8 ≡ i = omega (arith, first.inside, (length_good s good).1) in
        inr (
          inr
            (i, rw (validate_name, good, wrong, found, whole) refl, (length_good s good).1, first))
  ]
]

-- Which names pass.
pub validate_name-eq-ok : (s t : Bytes) → validate_name s ≡ ok t → (t ≡ s) × IsStoreName s
validate_name-eq-ok s t h = elim (validate_name_lem s) [
  | inl (e, good) ↦ (cc (h, e), good)
  | inr (inl (e, _)) ↦ absurd (cc (h, e))
  | inr (inr (i, e, _, _)) ↦ absurd (cc (h, e))
]

pub validate_name-IsStoreName : (s : Bytes) → IsStoreName s → validate_name s ≡ ok s
unfolding validate_name
validate_name-IsStoreName s (low, high, good) =
    let fits : (is_empty s || ltb 211 (length s)) ≡ false =
      elim (Bool-cases (is_empty s || ltb 211 (length s))) [
        | inl e ↦
            absurd (elim (length_bad s e) [ inl none_ ↦ omega arith | inr long ↦ omega arith ])
        | inr e ↦ e
      ] in
    rw (validate_name, fits, All→valid_loop s good) refl
