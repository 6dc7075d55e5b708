-- ===== src/Eval/Chunk/Jumps.antt =====
-- eval/src/chunk.rs: the jumps that are patched.
use tvix.Prelude.{
  ℕ, zero, suc, ◌+◌, ◌-◌, ◌*◌, ◌/◌, ◌%◌, ◌^◌, ◌≤◌, ◌<◌, ◌≡◌, refl, sym, ap, ◌∙◌, false, [], ◌∷◌,
  ◌++◌, none, some, Bytes, ltb, length, get_elem?, take, drop, length-append, take-append, subst,
  arith, Bool-cases, inl, inr,
}
use tvix.Eval.Chunk.{Chunk, u16_le, patch_jump, read_u16}

get-behind :
    (n : ℕ) (front xs : Bytes) (i : ℕ)
    → n ≡ length front + i
    → get_elem? (front ++ xs) n ≡ get_elem? xs i
get-behind n [] xs i e = let same : n ≡ i = omega (arith, e) in ap (get_elem? xs) same
get-behind zero (x ∷ front) xs i e = absurd (omega (arith, e))
get-behind (suc n) (x ∷ front) xs i e = get-behind n front xs i (omega (arith, e))

drop-behind :
    (n : ℕ) (front xs : Bytes) (k : ℕ) → n ≡ length front + k → drop n (front ++ xs) ≡ drop k xs
drop-behind n [] xs k e = let same : n ≡ k = omega (arith, e) in ap (λ j. drop j xs) same
drop-behind zero (x ∷ front) xs k e = absurd (omega (arith, e))
drop-behind (suc n) (x ∷ front) xs k e = drop-behind n front xs k (omega (arith, e))

length-take_le : (n : ℕ) (xs : Bytes) → n ≤ length xs → length (take n xs) ≡ n
length-take_le zero xs h = refl
length-take_le (suc n) [] h = absurd (omega arith)
length-take_le (suc n) (x ∷ xs) h = ap suc (length-take_le n xs (omega arith))

length-drop_le : (n : ℕ) (xs : Bytes) → n ≤ length xs → length (drop n xs) ≡ length xs - n
length-drop_le zero xs h = omega arith
length-drop_le (suc n) [] h = absurd (omega arith)
length-drop_le (suc n) (x ∷ xs) h =
    let rest = length-drop_le n xs (omega arith) in omega (arith, rest)

take-front : (n : ℕ) (front xs : Bytes) → length front ≡ n → take n (front ++ xs) ≡ front
take-front n front xs e = subst (λ k. take k (front ++ xs) ≡ front) e (take-append front xs)

module _ {Span Value : Type 0} (idx : ℕ) (c : Chunk Span Value)
    (inside : idx + 3 ≤ length c.code) where
  abbrev front : Bytes
  front = take (idx + 1) c.code

  abbrev patched : Chunk Span Value
  patched = record c {
    code = front ++ (u16_le ((length c.code - idx - 1 - 2) % 2 ^ 16) ++ drop (idx + 3) c.code);
  }

  length-front : length front ≡ idx + 1
  length-front = length-take_le (idx + 1) c.code (omega arith)

  patch_jump_done : patch_jump idx c ≡ some patched
  unfolding patch_jump
  patch_jump_done =
      let in_code : ltb (length c.code) (idx + 1 + 2) ≡ false = ground arith in
      rw (patch_jump, in_code) refl

  length-patched : length patched.code ≡ length c.code
  length-patched =
      let back = u16_le ((length c.code - idx - 1 - 2) % 2 ^ 16) ++ drop (idx + 3) c.code in
      omega (arith, length-append front back, length-front, length-drop_le (idx + 3) c.code inside)

  abbrev operand : ℕ
  operand = (length c.code - idx - 1 - 2) % 2 ^ 16

  operand_read : read_u16 (idx + 1) patched ≡ some operand
  unfolding read_u16
  operand_read =
      let back = u16_le operand ++ drop (idx + 3) c.code in
      let low = get-behind (idx + 1) front back 0 (omega (arith, length-front)) in
      let high = get-behind (idx + 1 + 1) front back 1 (omega (arith, length-front)) in
      rw (read_u16, low, high) (ap some (omega arith))

  -- The operand of the jump, which is in the code, leads, read as the machine does, from behind itself to the
  -- end of the code if that is less than 2 ^ 16 bytes away; all else in the code is as it was.
  pub patch_jump_lands :
      length c.code - (idx + 3) < 2 ^ 16
      → (p : Chunk Span Value) × (offset : ℕ) × (patch_jump idx c ≡ some p)
        × (read_u16 (idx + 1) p ≡ some offset)
        × (idx + 3 + offset ≡ length p.code)
        × (length p.code ≡ length c.code)
        × (take (idx + 1) p.code ≡ take (idx + 1) c.code)
        × (drop (idx + 3) p.code ≡ drop (idx + 3) c.code)
  patch_jump_lands small = (
    patched,
    operand,
    patch_jump_done,
    operand_read,
    omega (arith, length-patched, small),
    length-patched,
    take-front (idx + 1) front (u16_le operand ++ drop (idx + 3) c.code) length-front,
    drop-behind (idx + 3) front (u16_le operand ++ drop (idx + 3) c.code) 2
        (omega (arith, length-front)),
  )

  -- A jump over 2 ^ 16 bytes or more, with its operand in the code, is patched without a complaint. The
  -- operand is 16 bits, and leads from behind itself to a place that is before the end of the code by one or more times 2 ^ 16 bytes; all else
  -- in the code is as it was.
  pub patch_jump_far :
      2 ^ 16 ≤ length c.code - (idx + 3)
      → (p : Chunk Span Value) × (offset : ℕ) × (laps : ℕ) × (patch_jump idx c ≡ some p)
        × (read_u16 (idx + 1) p ≡ some offset)
        × (offset < 2 ^ 16)
        × (1 ≤ laps)
        × (idx + 3 + offset + laps * 2 ^ 16 ≡ length p.code)
        × (take (idx + 1) p.code ≡ take (idx + 1) c.code)
        × (drop (idx + 3) p.code ≡ drop (idx + 3) c.code)
  patch_jump_far far = (
    patched,
    operand,
    (length c.code - idx - 1 - 2) / 2 ^ 16,
    patch_jump_done,
    operand_read,
    omega arith,
    omega (arith, far),
    omega (arith, length-patched, far),
    take-front (idx + 1) front (u16_le operand ++ drop (idx + 3) c.code) length-front,
    drop-behind (idx + 3) front (u16_le operand ++ drop (idx + 3) c.code) 2
        (omega (arith, length-front)),
  )

-- Patching changes nothing but the code, which stays as long.
pub patch_jump_keeps :
    {Span Value : Type 0} (idx : ℕ) (c p : Chunk Span Value)
    → patch_jump idx c ≡ some p
    → (p.spans ≡ c.spans) × (length p.code ≡ length c.code)
unfolding patch_jump
patch_jump_keeps idx c p h = elim (Bool-cases (ltb (length c.code) (idx + 1 + 2))) [
  | inl outside ↦ let refused : none ≡ some p = sym (rw (patch_jump, outside) refl) ∙ h in cc
  | inr in_code ↦
      let inside : idx + 3 ≤ length c.code = ground arith in
      let done : some (patched idx c inside) ≡ some p = sym (patch_jump_done idx c inside) ∙ h in
      let same : patched idx c inside ≡ p = cc in
      (
        sym (ap (λ q. q.spans) same),
        ap (λ q. length q.code) (sym same) ∙ length-patched idx c inside,
      )
]
