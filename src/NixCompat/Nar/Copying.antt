-- ===== src/NixCompat/Nar/Copying.antt =====
-- The loops of nix-compat/src/nar that copy the contents of files, whatever the buffers show.
use tvix.Prelude.{
  ℕ, zero, suc, ◌-◌, ◌%◌, ◌≤◌, ◌<◌, ◌≡◌, refl, sym, ap, subst, ◌∙◌, true, false, [], ◌∷◌, ◌++◌,
  append_assoc, append-nil, min, Bytes, ◌==◌, ==_iff, ltb, length, take, drop, is_empty, replicate,
  ok, err, error, length-append, length-replicate, arith, Bool-cases, inl, inr, bytes_eq,
}
use tvix.NixCompat.Nixbase32.Bits.{each_shift}
use tvix.NixCompat.Nar.{tok_par}
use tvix.NixCompat.Nar.Read.{unexpected_eof, ◌>>=◌}
use tvix.NixCompat.Nar.Reader.{FileReader, finish_pad, finish, fill_buf, consume, copy}
use tvix.NixCompat.Nar.Writer.{pad, copy_loop}
use tvix.NixCompat.Nar.Tree.{padding}
use tvix.NixCompat.Nar.Pieces.{token-append, read_exact-append, take-drop}

-- A reader that is not at its end shows something.
abbrev pub Shows : (Bytes → ℕ) → Type 0
Shows shows = (b : ℕ) (s : Bytes) → 1 ≤ shows (b ∷ s)

pub take-nil {ℓ} : {A : Type ℓ} (k : ℕ) → take {A = A} k [] ≡ []
take-nil zero = refl
take-nil (suc k) = refl

-- What is shown of the contents `c`, without what follows them.
chunk-eq :
    (n : ℕ) (c t : Bytes) (k : ℕ)
    → k ≡ min (length (take n (c ++ t))) (length c)
    → take k (take n (c ++ t)) ≡ take n c
chunk-eq zero c t k e = take-nil k
chunk-eq (suc n) [] t k e = let z : k ≡ 0 = omega (arith, e) in rw z refl
chunk-eq (suc n) (x ∷ c) t zero e = absurd (omega arith)
chunk-eq (suc n) (x ∷ c) t (suc k) e = ap (λ r. x ∷ r) (chunk-eq n c t k (omega arith))

length-chunk : (n : ℕ) (c : Bytes) → length (take n c) ≡ min n (length c)
length-chunk zero c = omega arith
length-chunk (suc n) [] = omega arith
length-chunk (suc n) (x ∷ c) = omega (arith, length-chunk n c)

length-rest : (n : ℕ) (c : Bytes) → length (drop n c) ≡ length c - n
length-rest zero c = omega arith
length-rest (suc n) [] = omega arith
length-rest (suc n) (x ∷ c) = omega (arith, length-rest n c)

drop-chunk : (n : ℕ) (c t : Bytes) → drop (length (take n c)) (c ++ t) ≡ drop n c ++ t
drop-chunk zero c t = refl
drop-chunk (suc n) [] t = refl
drop-chunk (suc n) (x ∷ c) t = drop-chunk n c t

-- What a round takes of `c`, where `n` bytes are shown of `c ++ t`.
module _ (n : ℕ) (c t : Bytes) where
  abbrev taken : ℕ
  taken = min (length c) (length (take n (c ++ t)))

  taken-eq : taken ≡ length (take n c)
  taken-eq = omega (arith, length-chunk n (c ++ t), length-append c t, length-chunk n c)

  take-taken : take taken (take n (c ++ t)) ≡ take n c
  take-taken = chunk-eq n c t taken (omega arith)

  drop-taken : drop taken (c ++ t) ≡ drop n c ++ t
  drop-taken = rw taken-eq (drop-chunk n c t)

  left-taken : length c - taken ≡ length (drop n c)
  left-taken = omega (arith, taken-eq, length-rest n c, length-chunk n c)

pub shown : (n b : ℕ) (s : Bytes) → 1 ≤ n → is_empty (take n (b ∷ s)) ≡ false
shown zero b s h = absurd (omega arith)
shown (suc n) b s h = refl

module _ (shows : Bytes → ℕ) (positive : Shows shows) where
  -- The writer copies as much as it needs.
  pub copy_loop-append :
      (fuel : ℕ) (c t out : Bytes)
      → length c ≤ fuel
      → copy_loop shows fuel (length c) (c ++ t) out ≡ ok (out ++ c, t)
  unfolding copy_loop
  copy_loop-append zero [] t out h = rw (append-nil out) refl
  copy_loop-append zero (x ∷ c) t out h = absurd (omega arith)
  copy_loop-append (suc fuel) [] t out h = rw (append-nil out) refl
  copy_loop-append (suc fuel) (x ∷ c) t out h =
      let n = shows ((x ∷ c) ++ t) in
      let some_shown = shown n x (c ++ t) (positive x (c ++ t)) in
      let needed : (length (x ∷ c) == 0) ≡ false = ground arith in
      let rest_fits : length (drop n (x ∷ c)) ≤ fuel =
        omega (arith, length-rest n (x ∷ c), positive x (c ++ t)) in
      rw
        (
          copy_loop,
          needed,
          some_shown,
          take-taken n (x ∷ c) t,
          drop-taken n (x ∷ c) t,
          left-taken n (x ∷ c) t,
        )
        (copy_loop-append fuel (drop n (x ∷ c)) t (out ++ take n (x ∷ c)) rest_fits
          ∙ ap (λ o. ok (o, t))
              (append_assoc out (take n (x ∷ c)) (drop n (x ∷ c))
                ∙ ap (λ r. out ++ r) (take-drop n (x ∷ c))))

  -- It reports the end of a reader that holds less.
  pub copy_loop_short :
      (fuel need : ℕ) (c out : Bytes)
      → length c < need
      → need ≤ fuel
      → copy_loop shows fuel need c out ≡ err (error unexpected_eof)
  unfolding copy_loop
  copy_loop_short zero need c out short h = absurd (omega arith)
  copy_loop_short (suc fuel) need [] out short h =
      let needed : (need == 0) ≡ false = ground arith in
      rw (copy_loop, needed, take-nil {A = ℕ} (shows [])) refl
  copy_loop_short (suc fuel) need (x ∷ c) out short h =
      let n = shows (x ∷ c) in
      let k = min need (length (take n (x ∷ c))) in
      let needed : (need == 0) ≡ false = ground arith in
      let some_shown = shown n x c (positive x c) in
      let taken = length-chunk n (x ∷ c) in
      rw (copy_loop, needed, some_shown)
        (copy_loop_short fuel (need - k) (drop k (x ∷ c)) (out ++ take k (take n (x ∷ c)))
          (omega (arith, length-rest k (x ∷ c), short)) (omega (arith, taken, positive x c, h)))

finish_pad-step :
    (j : ℕ) (s : Bytes)
    → (j == 0) ≡ false
    → bytes_eq (replicate j 0 ++ replicate (8 - j) 0) (replicate 8 0) ≡ true
    → finish_pad j (replicate (8 - j) 0 ++ s) ≡ ok (tt, s)
unfolding finish_pad
finish_pad-step j s some_pad fits =
    rw
      (
        finish_pad,
        some_pad,
        ◌>>=◌,
        read_exact-append (8 - j) (replicate (8 - j) 0) s (length-replicate (8 - j) 0),
        fits,
      )
      refl

finish_pad-padding :
    (s : Bytes) (j : ℕ) → j < 8 → finish_pad j (replicate ((8 - j) % 8) 0 ++ s) ≡ ok (tt, s)
unfolding finish_pad
finish_pad-padding s =
    each_shift (λ j. finish_pad j (replicate ((8 - j) % 8) 0 ++ s) ≡ ok (tt, s))
      (
        refl,
        finish_pad-step 1 s refl refl,
        finish_pad-step 2 s refl refl,
        finish_pad-step 3 s refl refl,
        finish_pad-step 4 s refl refl,
        finish_pad-step 5 s refl refl,
        finish_pad-step 6 s refl refl,
        finish_pad-step 7 s refl refl,
      )

-- The padding and the closing token behind the contents are read.
finish-padding :
    (r : FileReader) (q : ℕ) (s : Bytes)
    → r.pad % 8 ≡ q % 8
    → finish r (padding q ++ (tok_par ++ s)) ≡ ok (tt, s)
unfolding finish
finish-padding r q s e =
    rw (finish, ◌>>=◌, e, finish_pad-padding (tok_par ++ s) (q % 8) (omega arith))
      (token-append tok_par s)

pub copy_done :
    (shows : Bytes → ℕ) (fuel : ℕ) (r : FileReader) (dst s : Bytes)
    → (r.len == 0) ≡ true
    → copy shows fuel r dst s ≡ ok (dst, s)
unfolding copy
copy_done shows zero r dst s e = rw (copy, e) refl
copy_done shows (suc fuel) r dst s e = rw (copy, e) refl

pub length→nil : (xs : Bytes) → length xs ≡ 0 → xs ≡ []
length→nil [] h = refl
length→nil (x ∷ xs) h = absurd (omega (arith, h))

-- A round of `copy` over the contents `x ∷ c`, of which `n` bytes are shown.
module _ (n x : ℕ) (c t : Bytes) (positive : 1 ≤ n) (pad : ℕ) where
  abbrev here : FileReader
  here = record { len = length (x ∷ c); pad = pad }

  abbrev later : FileReader
  later = record { len = length (drop n (x ∷ c)); pad = pad }

  fill_buf-append : fill_buf n here (x ∷ (c ++ t)) ≡ ok (take n (x ∷ c), x ∷ (c ++ t))
  unfolding fill_buf
  fill_buf-append =
      let some_left : (length (x ∷ c) == 0) ≡ false = ground arith in
      rw
        (
          fill_buf,
          some_left,
          shown n x (c ++ t) positive,
          chunk-eq n (x ∷ c) t (min (length (take n (x ∷ (c ++ t)))) (length (x ∷ c))) refl,
        )
        refl

  -- The contents are not at their end.
  consume_more :
      (length (drop n (x ∷ c)) == 0) ≡ false
      → consume (length (take n (x ∷ c))) here (x ∷ (c ++ t)) ≡ ok (later, drop n (x ∷ c) ++ t)
  unfolding consume
  consume_more more =
      let size = length-chunk n (x ∷ c) in
      let some_taken : (length (take n (x ∷ c)) == 0) ≡ false = ground (arith, size) in
      let inside : ltb (length (x ∷ c)) (length (take n (x ∷ c))) ≡ false = ground (arith, size) in
      let left : length (x ∷ c) - length (take n (x ∷ c)) ≡ length (drop n (x ∷ c)) =
        omega (arith, size, length-rest n (x ∷ c)) in
      rw (consume, some_taken, inside, left, more, drop-chunk n (x ∷ c) t) refl

  consume_last :
      (s : Bytes)
      → (length (drop n (x ∷ c)) == 0) ≡ true
      → finish later t ≡ ok (tt, s)
      → consume (length (take n (x ∷ c))) here (x ∷ (c ++ t)) ≡ ok (later, s)
  unfolding consume
  consume_last s last done =
      let size = length-chunk n (x ∷ c) in
      let some_taken : (length (take n (x ∷ c)) == 0) ≡ false = ground (arith, size) in
      let inside : ltb (length (x ∷ c)) (length (take n (x ∷ c))) ≡ false = ground (arith, size) in
      let left : length (x ∷ c) - length (take n (x ∷ c)) ≡ length (drop n (x ∷ c)) =
        omega (arith, size, length-rest n (x ∷ c)) in
      let none_left = length→nil (drop n (x ∷ c)) ((==_iff _ _).0 last) in
      let nothing : drop n (x ∷ c) ++ t ≡ t = ap (λ r. r ++ t) none_left in
      let rest : drop (length (take n (x ∷ c))) (x ∷ (c ++ t)) ≡ t =
        drop-chunk n (x ∷ c) t ∙ nothing in
      rw (consume, some_taken, inside, left, last, ◌>>=◌, rest, done)
        (ap (λ k. ok (record { len = k; pad = pad }, s)) left)

module _ (shows : Bytes → ℕ) (positive : Shows shows) where
  -- The reader copies the contents and reads what closes them.
  pub copy-append :
      (fuel pad q : ℕ) (c s dst : Bytes)
      → 1 ≤ length c
      → length c ≤ fuel
      → pad % 8 ≡ q % 8
      → copy shows fuel
          (record { len = length c; pad = pad })
          dst
          (c ++ (padding q ++ (tok_par ++ s)))
        ≡ ok (dst ++ c, s)
  unfolding copy
  copy-append fuel pad q [] s dst some_left h e = absurd (omega arith)
  copy-append zero pad q (x ∷ c) s dst some_left h e = absurd (omega arith)
  copy-append (suc fuel) pad q (x ∷ c) s dst some_left h e =
      let t = padding q ++ (tok_par ++ s) in
      let n = shows ((x ∷ c) ++ t) in
      let shows_some = positive x (c ++ t) in
      let needed : (length (x ∷ c) == 0) ≡ false = ground arith in
      let filled = fill_buf-append n x c t shows_some pad in
      let joined = take-drop n (x ∷ c) in
      elim (Bool-cases (length (drop n (x ∷ c)) == 0)) [
        | inl last ↦
            let consumed = consume_last n x c t shows_some pad s last (finish-padding _ q s e) in
            let whole : take n (x ∷ c) ≡ x ∷ c =
              sym (append-nil (take n (x ∷ c)))
              ∙ subst (λ r. take n (x ∷ c) ++ r ≡ x ∷ c)
                  (length→nil (drop n (x ∷ c)) ((==_iff _ _).0 last)) joined in
            rw (copy, needed, filled, consumed)
              (copy_done shows fuel _ _ s last ∙ ap (λ w. ok (dst ++ w, s)) whole)
        | inr more ↦
            let consumed = consume_more n x c t shows_some pad more in
            let fits : length (drop n (x ∷ c)) ≤ fuel =
              omega (arith, length-rest n (x ∷ c), shows_some) in
            let rest =
              copy-append fuel pad q (drop n (x ∷ c)) s (dst ++ take n (x ∷ c)) (ground arith) fits
                e in
            rw (copy, needed, filled, consumed)
              (rest
                ∙ ap (λ o. ok (o, s))
                    (append_assoc dst (take n (x ∷ c)) (drop n (x ∷ c))
                      ∙ ap (λ r. dst ++ r) joined))
      ]
