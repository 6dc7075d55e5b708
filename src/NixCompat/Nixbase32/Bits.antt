-- ===== src/NixCompat/Nixbase32/Bits.antt =====
-- The masks and shifts of nix-compat/src/nixbase32.rs as arithmetic.
use tvix.Prelude.{
  ℕ, zero, suc, ◌+◌, ◌*◌, ◌/◌, ◌%◌, ◌^◌, ◌<◌, ◌≡◌, refl, Bool, true, ◌&&◌, bit_and, bit_or, arith,
  ◌==◌, ==_iff, ltb, ltb→lt, subst, ◌∙◌, ◌⊎◌, inl, inr,
}

unfoldable pub below_all : ℕ → (ℕ → Bool) → Bool
below_all zero test = true
below_all (suc n) test = test n && below_all n test

pub below_all→true :
    (n : ℕ) (test : ℕ → Bool) → below_all n test ≡ true → (x : ℕ) → x < n → test x ≡ true
unfolding below_all
below_all→true zero test h x lt = absurd (omega arith)
below_all→true (suc n) test h x lt = ground (arith, below_all→true n test (ground arith) x)

and_table : below_all 256 (λ h. below_all 256 (λ l. bit_and (h * 256 + l) 0x1f == l % 32)) ≡ true
unfolding below_all
and_table = refl

or_table : below_all 256 (λ h. below_all 256 (λ l. bit_or l (h * 2 ^ 8) == l + h * 256)) ≡ true
unfolding below_all
or_table = refl

or_split_table :
    below_all 8 (λ j. below_all 256 (λ v. bit_or (v % 2 ^ j) (v / 2 ^ j * 2 ^ j) == v)) ≡ true
unfolding below_all
or_split_table = refl

or_swap_table :
    below_all 8 (λ j. below_all 256 (λ v. bit_or (v / 2 ^ j * 2 ^ j) (v % 2 ^ j) == v)) ≡ true
unfolding below_all
or_swap_table = refl

mask_table : below_all 32 (λ a. below_all 32 (λ b. ltb (bit_or a b) 32)) ≡ true
unfolding below_all
mask_table = refl

table2 :
    (m n : ℕ) (test : ℕ → ℕ → Bool)
    → below_all m (λ a. below_all n (λ b. test a b)) ≡ true
    → (a b : ℕ) → a < m
    → b < n
    → test a b ≡ true
table2 m n test h a b ha hb =
    below_all→true n (λ b. test a b) (below_all→true m (λ a. below_all n (λ b. test a b)) h a ha) b
      hb

-- `(word >> j) & 0x1f`: five bits of a word.
pub bit_and-five : (w : ℕ) → w < 2 ^ 16 → bit_and w 0x1f ≡ w % 32
bit_and-five w h =
    let t =
      table2 256 256 (λ h l. bit_and (h * 256 + l) 0x1f == l % 32) and_table (w / 256) (w % 256)
        (omega arith) (omega arith) in
    let whole : w / 256 * 256 + w % 256 ≡ w = omega arith in
    let e = (==_iff _ _).0 t in subst (λ v. bit_and v 0x1f ≡ w % 32) whole (e ∙ omega arith)

-- `word |= (msb as u16) << 8`.
pub bit_or-msb : (low msb : ℕ) → low < 256 → msb < 256 → bit_or low (msb * 2 ^ 8) ≡ low + msb * 256
bit_or-msb low msb hl hm =
    (==_iff _ _).0
      (table2 256 256 (λ h l. bit_or l (h * 2 ^ 8) == l + h * 256) or_table msb low hm hl)

-- A fact of every shift within a byte, from its eight instances.
pub each_shift {ℓ} :
    (P : ℕ → Type ℓ) → P 0 × P 1 × P 2 × P 3 × P 4 × P 5 × P 6 × P 7 → (j : ℕ) → j < 8 → P j
each_shift P all zero h = all.0
each_shift P all (suc zero) h = all.1
each_shift P all (suc (suc zero)) h = all.2
each_shift P all (suc (suc (suc zero))) h = all.3
each_shift P all (suc (suc (suc (suc zero)))) h = all.4
each_shift P all (suc (suc (suc (suc (suc zero))))) h = all.5
each_shift P all (suc (suc (suc (suc (suc (suc zero)))))) h = all.6
each_shift P all (suc (suc (suc (suc (suc (suc (suc zero))))))) h = all.7
each_shift P all (suc (suc (suc (suc (suc (suc (suc (suc j)))))))) h = absurd (omega arith)

-- Bits below position `j` and bits from it on do not overlap.
abbrev Apart : ℕ → Type 0
Apart j =
    (x y : ℕ)
    → x < 2 ^ j
    → y % 2 ^ j ≡ 0
    → x + y < 256
    → ((x + y) % 2 ^ j ≡ x) × ((x + y) / 2 ^ j * 2 ^ j ≡ y)

apart : (j : ℕ) → j < 8 → Apart j
apart = each_shift Apart (
  λ x y a b c. omega arith,
  λ x y a b c. omega arith,
  λ x y a b c. omega arith,
  λ x y a b c. omega arith,
  λ x y a b c. omega arith,
  λ x y a b c. omega arith,
  λ x y a b c. omega arith,
  λ x y a b c. omega arith,
)

module _ (j x y : ℕ) (hj : j < 8) (hx : x < 2 ^ j) (hy : y % 2 ^ j ≡ 0) (h : x + y < 256) where
  pub bit_or-low : bit_or x y ≡ x + y
  bit_or-low =
      let (low, high) = apart j hj x y hx hy h in
      let t = (==_iff _ _).0 (
        table2 8 256 (λ j v. bit_or (v % 2 ^ j) (v / 2 ^ j * 2 ^ j) == v) or_split_table j (x + y)
          hj h) in
      cc (t, low, high)

  pub bit_or-high : bit_or y x ≡ x + y
  bit_or-high =
      let (low, high) = apart j hj x y hx hy h in
      let t = (==_iff _ _).0 (
        table2 8 256 (λ j v. bit_or (v / 2 ^ j * 2 ^ j) (v % 2 ^ j) == v) or_swap_table j (x + y) hj
          h) in
      cc (t, low, high)

pub bit_or-mask : (a b : ℕ) → a < 32 → b < 32 → bit_or a b < 32
bit_or-mask a b ha hb = ltb→lt _ _ (table2 32 32 (λ a b. ltb (bit_or a b) 32) mask_table a b ha hb)

-- The five bits that a character holds at the shift `j` of a word of the bytes `a` and `b`.
abbrev pub five : ℕ → ℕ → ℕ → ℕ
five j a b = (a + b * 256) / 2 ^ j % 32

-- What decoding makes of these bits, back in their places: `low` in the byte `a`, and a carry.
abbrev pub low : ℕ → ℕ → ℕ → ℕ
low j a b = five j a b * 2 ^ j % 2 ^ 16 % 2 ^ 8

abbrev pub carried : ℕ → ℕ → ℕ → ℕ
carried j a b = five j a b * 2 ^ j % 2 ^ 16 / 2 ^ 8 % 2 ^ 8

pub record Placed (j a b : ℕ) : Type 0 where
  pub aligned : low j a b % 2 ^ j ≡ 0
  pub small : a % 2 ^ j + low j a b < 256
  pub moved :
      (((j + 5) / 8 ≡ 0) × (a % 2 ^ j + low j a b ≡ a % 2 ^ ((j + 5) % 8)) × (carried j a b ≡ 0))
      ⊎ (((j + 5) / 8 ≡ 1) × (a % 2 ^ j + low j a b ≡ a) × (carried j a b ≡ b % 2 ^ ((j + 5) % 8)))

pub placed : (a b j : ℕ) → a < 256 → b < 256 → j < 8 → Placed j a b
placed a b j ha hb =
    each_shift (λ j. Placed j a b)
      (
        record {
          aligned = omega arith;
          small = omega arith;
          moved = inl (refl, omega arith, omega arith);
        },
        record {
          aligned = omega arith;
          small = omega arith;
          moved = inl (refl, omega arith, omega arith);
        },
        record {
          aligned = omega arith;
          small = omega arith;
          moved = inl (refl, omega arith, omega arith);
        },
        record {
          aligned = omega arith;
          small = omega arith;
          moved = inr (refl, omega arith, omega arith);
        },
        record {
          aligned = omega arith;
          small = omega arith;
          moved = inr (refl, omega arith, omega arith);
        },
        record {
          aligned = omega arith;
          small = omega arith;
          moved = inr (refl, omega arith, omega arith);
        },
        record {
          aligned = omega arith;
          small = omega arith;
          moved = inr (refl, omega arith, omega arith);
        },
        record {
          aligned = omega arith;
          small = omega arith;
          moved = inr (refl, omega arith, omega arith);
        },
      )
      j
