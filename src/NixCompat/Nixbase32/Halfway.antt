-- ===== src/NixCompat/Nixbase32/Halfway.antt =====
-- nix-compat/src/nixbase32.rs: the state of `decode_inner` between two characters of an encoding.
use tvix.Prelude.{
  ℕ, ◌+◌, ◌*◌, ◌/◌, ◌%◌, ◌^◌, ◌<◌, ◌≡◌, refl, ap, subst, ◌∙◌, ◌∷◌, some, bit_or, Bytes, length,
  get_elem?, set, replicate, ◌⊎◌, inl, inr, arith, ltb, ltb→lt, Bool-cases, length-replicate,
}
use tvix.NixCompat.Nixbase32.{digit_of, decode_loop}
use tvix.NixCompat.Nixbase32.Bits.{each_shift, bit_or-low, bit_or-high}
use tvix.NixCompat.Nixbase32.Cells.{at, at-replicate}

-- What decoding has done before the digit at bit `j` of byte `i`: the bytes below its own are there, its own as far
-- as its lower bits, split between the output and the carry of which one is 0.
pub record Halfway (x : Bytes) (i j : ℕ) (output : Bytes) (carry mask : ℕ) : Type 0 where
  pub length_kept : length output ≡ length x
  pub current : at output i + carry ≡ at x i % 2 ^ j
  pub either : (at output i ≡ 0) ⊎ (carry ≡ 0)
  pub below : (k : ℕ) → k < i → at output k ≡ at x k
  pub above : (k : ℕ) → i < k → at output k ≡ 0
  pub masked : mask < 32

pub rest_bound : (a j : ℕ) → j < 8 → a % 2 ^ j < 2 ^ j
rest_bound a =
    each_shift (λ j. a % 2 ^ j < 2 ^ j)
      (
        omega arith,
        omega arith,
        omega arith,
        omega arith,
        omega arith,
        omega arith,
        omega arith,
        omega arith,
      )

pub zero_rest : (j : ℕ) → j < 8 → 0 % 2 ^ j ≡ 0
zero_rest = each_shift (λ j. 0 % 2 ^ j ≡ 0) (refl, refl, refl, refl, refl, refl, refl, refl)

-- `old | (value as u8 | carry)` adds where the bits are apart.
pub merge :
    (j old carry v : ℕ)
    → j < 8
    → old + carry < 2 ^ j
    → v % 2 ^ j ≡ 0
    → old + carry + v < 256
    → (old ≡ 0) ⊎ (carry ≡ 0)
    → bit_or old (bit_or v carry) ≡ old + carry + v
merge j old carry v hj small al top (inl e) =
    let inner = bit_or-high j carry v hj (omega arith) al (omega arith) in
    let outer =
      bit_or-low 0 0 (carry + v) (omega arith) (omega arith) (omega arith) (omega arith) in
    rw (e, inner, outer) (omega arith)
merge j old carry v hj small al top (inr e) =
    let inner = bit_or-high 0 0 v (omega arith) (omega arith) (omega arith) (omega arith) in
    let outer =
      bit_or-low j old (0 + v) hj (omega arith) (ap (λ t. t % 2 ^ j) (omega arith) ∙ al)
        (omega arith) in
    rw (e, inner) (outer ∙ omega arith)

pub start : (x : Bytes) → Halfway x 0 0 (replicate (length x) 0) 0 0
start x = record {
  length_kept = length-replicate (length x) 0;
  current = rw (at-replicate (length x) 0) (omega arith);
  either = inr refl;
  below = λ k lt. absurd (omega arith);
  above = λ k lt. at-replicate (length x) k;
  masked = omega arith;
}

pub decode_loop-cons :
    (n c d old carry mask : ℕ) (output cs : Bytes)
    → digit_of c ≡ d
    → get_elem? output (n * 5 / 8) ≡ some old
    → decode_loop (c ∷ cs) n output carry mask
      ≡ decode_loop cs
          (n + 1)
          (set output
            (n * 5 / 8)
            (bit_or old (bit_or (d * 2 ^ (n * 5 % 8) % 2 ^ 16 % 2 ^ 8) carry)))
          (d * 2 ^ (n * 5 % 8) % 2 ^ 16 / 2 ^ 8 % 2 ^ 8)
          (bit_or mask d)
unfolding decode_loop
decode_loop-cons n c d old carry mask output cs e found =
    subst
      (λ d.
        decode_loop (c ∷ cs) n output carry mask
        ≡ decode_loop cs (n + 1)
            (set output (n * 5 / 8)
              (bit_or old (bit_or (d * 2 ^ (n * 5 % 8) % 2 ^ 16 % 2 ^ 8) carry)))
            (d * 2 ^ (n * 5 % 8) % 2 ^ 16 / 2 ^ 8 % 2 ^ 8) (bit_or mask d))
      e (rw (decode_loop, found) refl)

pub below_or_at : (k i : ℕ) → k < i + 1 → (k < i) ⊎ (k ≡ i)
below_or_at k i h = elim (Bool-cases (ltb k i)) [
  | inl e ↦ inl (ltb→lt k i e)
  | inr e ↦ inr (ground arith)
]
