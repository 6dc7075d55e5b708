-- ===== src/Castore/Fs/Tracker/Replace.antt =====
-- castore/src/fs/inode_tracker.rs: `replace` by data of the same key.
use tvix.Prelude.{
  ℕ, ◌≡◌, refl, sym, ap, ◌∙◌, some, ◌==◌, ==_iff, if◌then◌else◌, Bool-cases, inl, inr, ◌⊎◌,
}
use tvix.Castore.Fs.Inodes.{InodeData, Key, blob, link, dir, key_of}
use tvix.Castore.Fs.Tracker.{InodeTracker, get, replace, insert}
use tvix.Castore.Fs.Tracker.Invariant.{find, IsTracker, Keeps}

module _ (d e : InodeData) (t : InodeTracker) (ino : ℕ) (there : get ino t ≡ some d) where
  abbrev pub replaced : InodeTracker
  replaced = record t { data_of = insert ◌==◌ ino e t.data_of }

  pub replace_done : replace ino e t ≡ some replaced
  unfolding replace get
  replace_done = rw (replace, there) refl

  get-replaced : (j : ℕ) → get j replaced ≡ (if ino == j then some e else get j t)
  unfolding get
  get-replaced j = refl

  pub get-replaced_same : get ino replaced ≡ some e
  get-replaced_same = get-replaced ino ∙ rw ((==_iff ino ino).1 refl) refl

  pub replaced_now :
      (j : ℕ) (f : InodeData) → get j replaced ≡ some f → (e ≡ f) ⊎ (get j t ≡ some f)
  replaced_now j f h = elim (Bool-cases (ino == j)) [
    | inl same ↦ let at : get j replaced ≡ some e = get-replaced j ∙ rw same refl in inl cc
    | inr other ↦ inr (sym (get-replaced j ∙ rw other refl) ∙ h)
  ]

  find-replaced : (k : Key) → find replaced k ≡ find t k
  find-replaced (blob digest) = refl
  find-replaced (link target) = refl
  find-replaced (dir digest) = refl

  module _ (key : key_of e ≡ key_of d) where
    -- An inode has data of one key before and after.
    pub replaced-Keeps : Keeps t replaced
    replaced-Keeps j f h = elim (Bool-cases (ino == j)) [
      | inl same ↦
          let at : get j replaced ≡ some e = get-replaced j ∙ rw same refl in
          let inos : ino ≡ j = (==_iff ino j).0 same in
          let before : some d ≡ some f = sym there ∙ ap (λ i. get i t) inos ∙ h in
          let data_same : d ≡ f = cc in (e, at, key ∙ ap key_of data_same)
      | inr other ↦ (f, (get-replaced j ∙ rw other h), refl)
    ]

    replaced_before : Keeps replaced t
    replaced_before j f h = elim (Bool-cases (ino == j)) [
      | inl same ↦
          let at : get j replaced ≡ some e = get-replaced j ∙ rw same refl in
          let inos : ino ≡ j = (==_iff ino j).0 same in
          let now : some e ≡ some f = sym at ∙ h in
          let data_same : e ≡ f = cc in
          (d, (ap (λ i. get i t) (sym inos) ∙ there), sym key ∙ ap key_of data_same)
      | inr other ↦ (f, (sym (get-replaced j ∙ rw other refl) ∙ h), refl)
    ]

    pub replaced-IsTracker : IsTracker t → IsTracker replaced
    replaced-IsTracker w = record {
      below = λ j f h. let (g, before, same) = replaced_before j f h in w.below j g before;
      found = λ k j h.
          let (f, before, is_k) = w.found k j (sym (find-replaced k) ∙ h) in
          let (g, after, same) = replaced-Keeps j f before in (g, after, same ∙ is_k);
      known = λ j f h.
          let (g, before, same) = replaced_before j f h in
          find-replaced (key_of f) ∙ ap (find t) (sym same) ∙ w.known j g before;
    }
