-- ===== src/Castore/Path/Join.antt =====
-- Names joined by a separator, and why the parts can be told from the whole.
use tvix.Prelude.{
  ℕ, ◌≡◌, ◌≢◌, refl, sym, ap, ◌∙◌, List, [], ◌∷◌, ◌++◌, append_assoc, arith, Bytes, ◌==◌, subst,
  Bool-cases, inl, inr, if◌then◌else◌, All, Lacks,
}

unfoldable pub join : ℕ → List Bytes → Bytes
join sep [] = []
join sep (p ∷ []) = p
join sep (p ∷ q ∷ ps) = p ++ sep ∷ join sep (q ∷ ps)

-- A reference split at every separator.
cons_first : ℕ → List Bytes → List Bytes
cons_first c [] = (c ∷ []) ∷ []
cons_first c (p ∷ ps) = (c ∷ p) ∷ ps

unfoldable pub split : Bytes → ℕ → List Bytes
unfolding cons_first
split [] sep = [] ∷ []
split (c ∷ s) sep = let rest = split s sep in if c == sep then [] ∷ rest else cons_first c rest

module _ (sep : ℕ) where
  split-Lacks_one : (p : Bytes) → Lacks sep p → split p sep ≡ p ∷ []
  unfolding split cons_first
  split-Lacks_one [] h = refl
  split-Lacks_one (c ∷ p) h = ground (arith, split-Lacks_one p)

  split-append : (p s : Bytes) → Lacks sep p → split (p ++ sep ∷ s) sep ≡ p ∷ split s sep
  unfolding split cons_first
  split-append [] s h = ground arith
  split-append (c ∷ p) s h = ground (arith, split-append p s)

  pub split-join : (ps : List Bytes) → ps ≢ [] → All (Lacks sep) ps → split (join sep ps) sep ≡ ps
  unfolding join
  split-join [] h a = absurd (h refl)
  split-join (p ∷ []) h (l, _) = split-Lacks_one p l
  split-join (p ∷ q ∷ ps) h (l, ls) =
      split-append p (join sep (q ∷ ps)) l ∙ ap (λ t. p ∷ t) (split-join (q ∷ ps) (λ e. cc) ls)

  -- Lists of parts without the separator are told apart by what they join to.
  pub join-injective :
      (ps qs : List Bytes)
      → ps ≢ []
      → qs ≢ []
      → All (Lacks sep) ps
      → All (Lacks sep) qs
      → join sep ps ≡ join sep qs
      → ps ≡ qs
  join-injective ps qs hp hq lp lq e =
      sym (split-join ps hp lp) ∙ ap (λ s. split s sep) e ∙ split-join qs hq lq

  pub join-snoc :
      (p : Bytes) (ps : List Bytes) (n : Bytes)
      → join sep ((p ∷ ps) ++ n ∷ []) ≡ join sep (p ∷ ps) ++ sep ∷ n
  unfolding join
  join-snoc p [] n = refl
  join-snoc p (q ∷ ps) n = rw (join-snoc q ps n, append_assoc)

  pub not-Lacks : (b m : Bytes) → ¬ Lacks sep (b ++ sep ∷ m)
  not-Lacks [] m (h, _) = h refl
  not-Lacks (c ∷ b) m (_, h) = not-Lacks b m h

  -- The last separator of a text lies in one place.
  pub last_separator :
      (a b n m : Bytes)
      → Lacks sep n
      → Lacks sep m
      → a ++ sep ∷ n ≡ b ++ sep ∷ m
      → (a ≡ b) × (n ≡ m)
  last_separator [] [] n m hn hm e = (refl, cc)
  last_separator [] (c ∷ bs) n m hn hm e =
      let tails : n ≡ bs ++ sep ∷ m = cc in absurd (not-Lacks bs m (subst (Lacks sep) tails hn))
  last_separator (c ∷ as') [] n m hn hm e =
      let tails : m ≡ as' ++ sep ∷ n = cc in absurd (not-Lacks as' n (subst (Lacks sep) tails hm))
  last_separator (c ∷ a) (d ∷ b) n m hn hm e = ground (arith, last_separator a b n m hn hm)

  pub split-ne-nil : (s : Bytes) → split s sep ≢ []
  unfolding split cons_first
  split-ne-nil [] = λ e. cc
  split-ne-nil (c ∷ s) = ground arith

  pub split-Lacks : (s : Bytes) → All (Lacks sep) (split s sep)
  unfolding split cons_first
  split-Lacks [] = (tt, tt)
  split-Lacks (c ∷ s) = ground (arith, split-Lacks s)

  join-cons_first :
      (c : ℕ) (ps : List Bytes) → ps ≢ [] → join sep (cons_first c ps) ≡ c ∷ join sep ps
  unfolding cons_first join
  join-cons_first c [] h = absurd (h refl)
  join-cons_first c (p ∷ []) h = refl
  join-cons_first c (p ∷ q ∷ ps) h = refl

  join-nil_first : (ps : List Bytes) → ps ≢ [] → join sep ([] ∷ ps) ≡ sep ∷ join sep ps
  unfolding join
  join-nil_first [] h = absurd (h refl)
  join-nil_first (p ∷ ps) h = refl

  pub join-split : (s : Bytes) → join sep (split s sep) ≡ s
  unfolding split
  join-split [] = unfold join in refl
  join-split (c ∷ s) = elim (Bool-cases (c == sep)) [
    | inl e ↦
        rw (e, join-nil_first (split s sep) (split-ne-nil s), join-split s)
          (ap (λ x. x ∷ s) (ground arith))
    | inr e ↦ rw (e, join-cons_first c (split s sep) (split-ne-nil s), join-split s)
  ]
