-- ===== src/NixCompat/StorePath/Utils/Compress.antt =====
-- nix-compat/src/store_path/utils.rs: what `compress_hash` leaves at each position of its output.
use tvix.Prelude.{
  ℕ, ◌+◌, ◌%◌, ◌<◌, ◌≡◌, refl, sym, ap, subst, ◌∙◌, true, [], ◌∷◌, Bytes, ◌==◌, ltb, ltb→lt, ==_iff,
  if◌then◌else◌, length, get_or, set, replicate, All, IsByte, Bool-cases, inl, inr,
  length-replicate, arith,
}
use Prim.Native.Nat.{bit_xor}
use tvix.NixCompat.Nixbase32.Bits.{below_all, below_all→true}
use tvix.NixCompat.Nixbase32.Cells.{
  at, at_bound, length-set, at-set, at-set_other, at-replicate, set-bytes, replicate-bytes,
}
use tvix.NixCompat.StorePath.Utils.{compress_loop, compress_hash}

-- `acc` and the bytes of the input whose position, counted from `ii`, is `i` modulo `k`, combined by XOR.
abbrev pub column : ℕ → ℕ → ℕ → Bytes → ℕ → ℕ
column k i ii [] acc = acc
column k i ii (ch ∷ chs) acc = column k i (ii + 1) chs (if ii % k == i then bit_xor acc ch else acc)

compress_loop-length :
    (k : ℕ) (input : Bytes) (ii : ℕ) (output : Bytes)
    → length (compress_loop k input ii output) ≡ length output
unfolding compress_loop
compress_loop-length k [] ii output = refl
compress_loop-length k (ch ∷ chs) ii output =
    compress_loop-length k chs (ii + 1) _
    ∙ length-set output (ii % k) (bit_xor (get_or output (ii % k) 0) ch)

compress_loop-column :
    (k i : ℕ) (input : Bytes) (ii : ℕ) (output : Bytes)
    → i < length output
    → at (compress_loop k input ii output) i ≡ column k i ii input (at output i)
unfolding compress_loop
compress_loop-column k i [] ii output h = refl
compress_loop-column k i (ch ∷ chs) ii output h =
    let v = bit_xor (get_or output (ii % k) 0) ch in
    let kept = length-set output (ii % k) v in
    let rest =
      compress_loop-column k i chs (ii + 1) (set output (ii % k) v) (omega (arith, kept)) in
    elim (Bool-cases (ii % k == i)) [
      | inl e ↦
          let same = (==_iff _ _).0 e in
          let put = at-set output (ii % k) v (omega (arith, same, h)) in
          let value =
            subst (λ t. at (set output (ii % k) v) t ≡ bit_xor (at output t) ch) same put in
          rest ∙ rw e (ap (column k i (ii + 1) chs) value)
      | inr e ↦
          let value =
            at-set_other output (ii % k) v i (λ q. cc (e, (==_iff (ii % k) i).1 (sym q))) in
          rest ∙ rw e (ap (column k i (ii + 1) chs) value)
    ]

-- Byte `i` of the compressed hash is the XOR of the bytes of the input at the positions that are `i`
-- modulo the size, and it has that size.
pub compress_hash_lem :
    (k : ℕ) (input : Bytes)
    → (length (compress_hash k input) ≡ k)
      × ((i : ℕ) → i < k → get_or (compress_hash k input) i 0 ≡ column k i 0 input 0)
unfolding compress_hash
compress_hash_lem k input =
    let full = length-replicate k 0 in
    (
      compress_loop-length k input 0 (replicate k 0) ∙ full,
      λ i h.
          compress_loop-column k i input 0 (replicate k 0) (omega (arith, full))
          ∙ ap (column k i 0 input) (at-replicate k i),
    )

xor_table : below_all 256 (λ a. below_all 256 (λ b. ltb (bit_xor a b) 256)) ≡ true
unfolding below_all
xor_table = refl

xor_bound : (a b : ℕ) → a < 256 → b < 256 → bit_xor a b < 256
xor_bound a b ha hb = ltb→lt _ _ (
    below_all→true 256 (λ b. ltb (bit_xor a b) 256)
      (below_all→true 256 (λ a. below_all 256 (λ b. ltb (bit_xor a b) 256)) xor_table a ha) b hb)

compress_loop-bytes :
    (k : ℕ) (input : Bytes) (ii : ℕ) (output : Bytes)
    → All IsByte input
    → All IsByte output
    → All IsByte (compress_loop k input ii output)
unfolding compress_loop
compress_loop-bytes k [] ii output h ho = ho
compress_loop-bytes k (ch ∷ chs) ii output h ho =
    let v = bit_xor (get_or output (ii % k) 0) ch in
    compress_loop-bytes k chs (ii + 1) (set output (ii % k) v) h.1
      (set-bytes output (ii % k) v ho (xor_bound _ ch (at_bound output ho (ii % k)) h.0))

pub compress_hash-bytes :
    (k : ℕ) (input : Bytes) → All IsByte input → All IsByte (compress_hash k input)
unfolding compress_hash
compress_hash-bytes k input h = compress_loop-bytes k input 0 (replicate k 0) h (replicate-bytes k)
