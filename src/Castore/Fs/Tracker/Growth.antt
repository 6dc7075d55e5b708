-- ===== src/Castore/Fs/Tracker/Growth.antt =====
-- castore/src/fs/inode_tracker.rs: data with a new key.
use tvix.Prelude.{
  ℕ, ◌+◌, ◌^◌, ◌<◌, ◌≡◌, ◌≢◌, refl, sym, ap, subst, ◌∙◌, false, Option, none, some, ◌==◌, ==_iff,
  if◌then◌else◌, arith, Bool-cases, inl, inr, ◌⊎◌,
}
use tvix.Castore.Fs.Inodes.{InodeData, Key, blob, link, dir, key_of, key_eq, key_eq→eq, key_eq_refl}
use tvix.Castore.Fs.Tracker.{InodeTracker, get, register, insert_and_increment}
use tvix.Castore.Fs.Tracker.Invariant.{find, IsTracker, find-register, Keeps}

module _ (d : InodeData) (t : InodeTracker) where
  abbrev pub grown : InodeTracker
  grown = (insert_and_increment d t).1

  find-stored : (k : Key) → find grown k ≡ find (register d t.next_inode t) k
  unfolding insert_and_increment
  find-stored (blob digest) = refl
  find-stored (link target) = refl
  find-stored (dir digest) = refl

  find-grown :
      (k : Key) → find grown k ≡ (if key_eq (key_of d) k then some t.next_inode else find t k)
  find-grown k = find-stored k ∙ find-register d t.next_inode t k

  get-grown : (j : ℕ) → get j grown ≡ (if t.next_inode == j then some d else get j t)
  unfolding get insert_and_increment
  get-grown j = refl

  get_new : get t.next_inode grown ≡ some d
  get_new = get-grown t.next_inode ∙ rw ((==_iff t.next_inode t.next_inode).1 refl) refl

  -- What is there now was there before, or is the new data.
  pub grown_before : (j : ℕ) (e : InodeData) → get j grown ≡ some e → (d ≡ e) ⊎ (get j t ≡ some e)
  grown_before j e h = elim (Bool-cases (t.next_inode == j)) [
    | inl same ↦ let stored : get j grown ≡ some d = get-grown j ∙ rw same refl in inl cc
    | inr other ↦ inr (sym (get-grown j ∙ rw other refl) ∙ h)
  ]

  pub find_new : find grown (key_of d) ≡ some t.next_inode
  find_new = find-grown (key_of d) ∙ rw (key_eq_refl (key_of d)) refl

  module _ (w : IsTracker t) (new : find t (key_of d) ≡ none)
      (room : t.next_inode + 1 < 2 ^ 64) where
    pub next-grown : grown.next_inode ≡ t.next_inode + 1
    unfolding insert_and_increment
    next-grown = omega arith

    get_old : (j : ℕ) (e : InodeData) → get j t ≡ some e → get j grown ≡ some e
    get_old j e h =
        let le = w.below j e h in
        let other : (t.next_inode == j) ≡ false = ground arith in get-grown j ∙ rw other h

    pub grown-Keeps : Keeps t grown
    grown-Keeps j e h = (e, get_old j e h, refl)

    grown-found :
        (k : Key) (j : ℕ)
        → find grown k ≡ some j
        → (e : InodeData) × (get j grown ≡ some e) × (key_of e ≡ k)
    grown-found k j h = elim (Bool-cases (key_eq (key_of d) k)) [
      | inl same ↦
          let stored : find grown k ≡ some t.next_inode = find-grown k ∙ rw same refl in
          let next : t.next_inode ≡ j = cc in
          (d, subst (λ i. get i grown ≡ some d) next get_new, key_eq→eq (key_of d) k same)
      | inr other ↦
          let before : find t k ≡ some j = sym (find-grown k ∙ rw other refl) ∙ h in
          let (e, there, key) = w.found k j before in (e, get_old j e there, key)
    ]

    grown-known :
        (j : ℕ) (e : InodeData)
        → get j grown ≡ some e
        → (j < grown.next_inode) × (find grown (key_of e) ≡ some j)
    grown-known j e h = elim (Bool-cases (t.next_inode == j)) [
      | inl same ↦
          let stored : get j grown ≡ some d = get-grown j ∙ rw same refl in
          let equal : d ≡ e = cc in
          let next : t.next_inode ≡ j = (==_iff t.next_inode j).0 same in
          (
            omega (arith, next-grown, next),
            subst (λ x. find grown (key_of x) ≡ some j) equal (find_new ∙ ap some next),
          )
      | inr other ↦
          let before : get j t ≡ some e = sym (get-grown j ∙ rw other refl) ∙ h in
          let le = w.below j e before in
          let known = w.known j e before in
          let another : key_eq (key_of d) (key_of e) ≡ false =
            elim (Bool-cases (key_eq (key_of d) (key_of e))) [
              | inl equal ↦
                  let keys = key_eq→eq (key_of d) (key_of e) equal in
                  absurd (clash (sym new ∙ ap (find t) keys ∙ known))
              | inr differ ↦ differ
            ] in
          (omega (arith, next-grown, le), find-grown (key_of e) ∙ rw another known)
    ]
      where
        clash : {n : ℕ} → ◌≢◌ {A = Option ℕ} none (some n)
        clash e = cc

    pub grown-IsTracker : IsTracker grown
    grown-IsTracker = record {
      below = λ j e h. (grown-known j e h).0;
      found = grown-found;
      known = λ j e h. (grown-known j e h).1;
    }
