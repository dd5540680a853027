-- ===== src/Modifiers/Laws.antt =====
-- What the modifiers of Src/hist.c do to a word.
use winzsh.Prelude.{
  ℕ, ◌<◌, ◌≡◌, ◌⊎◌, refl, ap, subst, [], ◌∷◌, ◌++◌, map, Bool, true, false, ◌==◌, ==_iff, ◌||◌,
  Option, none, some, Bool-cases, Option-cases, inl, inr, if◌then◌else◌, arith,
}
use winzsh.Prelude.Lists.{length}
use winzsh.Prelude.Strings.{Str}
use winzsh.Chars.{ialnum, tulower, tuupper}
use winzsh.Modifiers.{
  strrchr, remtpath, remtext, rembutext, remlpaths, makelowercase, capitals, makecapitals,
}

unfoldable pub has : ℕ → Str → Bool
has c [] = false
has c (x ∷ s) = x == c || has c s

-- What `strrchr` finds.
Cut : ℕ → Str → Option (Str × Str) → Type 0
Cut c s none = has c s ≡ false
Cut c s (some (a, b)) = (s ≡ a ++ (c ∷ b)) × (has c b ≡ false)

strrchr-Cut : (c : ℕ) (s : Str) → Cut c s (strrchr c s)
unfolding strrchr Cut has
strrchr-Cut c [] = refl
strrchr-Cut c (x ∷ s) = by_rest (strrchr c s) (strrchr-Cut c s)
  where
    by_rest :
        (r : Option (Str × Str))
        → Cut c s r
        → Cut c (x ∷ s) (elim r [
          | some (a, b) ↦ some (x ∷ a, b)
          | none ↦ if x == c then some ([], s) else none
        ])
    by_rest none h = elim (Bool-cases (x == c)) [
      | inl e ↦ rw e (ap (λ (d : ℕ). d ∷ s) ((==_iff x c).0 e), h)
      | inr e ↦ rw (e, e) h
    ]
    by_rest (some (a, b)) h = (ap (λ (l : Str). x ∷ l) h.0, h.1)

-- Where a path has no slash, `remtpath` and `remlpaths` both fail and leave it; else both
-- succeed, what `remlpaths` leaves has no slash, and the path is what `remtpath` leaves, a slash
-- and what `remlpaths` leaves, or it is a slash and the latter, and `remtpath` leaves the slash.
pub remtpath-remlpaths :
    (s : Str)
    → ((has b'/' s ≡ false) × (remtpath s ≡ (s, false)) × (remlpaths s ≡ (s, false)))
      ⊎ (((remtpath s).1 ≡ true)
          × ((remlpaths s).1 ≡ true)
          × (has b'/' (remlpaths s).0 ≡ false)
          × ((s ≡ (remtpath s).0 ++ (b'/' ∷ (remlpaths s).0))
              ⊎ ((s ≡ b'/' ∷ (remlpaths s).0) × ((remtpath s).0 ≡ b'/' ∷ []))))
unfolding remtpath remlpaths Cut
remtpath-remlpaths s = elim (Option-cases (strrchr b'/' s)) [
  | inl e ↦
      rw (e, remtpath, remlpaths) (inl (subst (Cut b'/' s) e (strrchr-Cut b'/' s), refl, refl))
  | inr (([], b), e) ↦
      let cut = subst (Cut b'/' s) e (strrchr-Cut b'/' s) in
      rw (e, remtpath, remlpaths) (inr (refl, refl, cut.1, inr (cut.0, refl)))
  | inr ((x ∷ a, b), e) ↦
      let cut = subst (Cut b'/' s) e (strrchr-Cut b'/' s) in
      rw (e, remtpath, remlpaths) (inr (refl, refl, cut.1, inl cut.0))
]

-- The root and the extension of a name.
pub remtext-rembutext :
    (s : Str)
    → ((remtext s ≡ (s, false)) × (rembutext s ≡ (s, false)))
      ⊎ (((remtext s).1 ≡ true)
          × ((rembutext s).1 ≡ true)
          × (0 < length (remtext s).0)
          × (has b'.' (rembutext s).0 ≡ false)
          × (s ≡ (remtext s).0 ++ (b'.' ∷ (rembutext s).0)))
unfolding remtext rembutext Cut
remtext-rembutext s = elim (Option-cases (strrchr b'.' s)) [
  | inl e ↦ rw (e, remtext, rembutext) (inl (refl, refl))
  | inr (([], b), e) ↦ rw (e, remtext, rembutext) (inl (refl, refl))
  | inr ((x ∷ a, b), e) ↦
      let cut = subst (Cut b'.' s) e (strrchr-Cut b'.' s) in
      rw (e, remtext, rembutext) (inr (refl, refl, omega arith, cut.1, cut.0))
]

tulower-tuupper : (c : ℕ) → tulower (tuupper c) ≡ tulower c
unfolding tulower tuupper
tulower-tuupper c = ground arith

tulower-tulower : (c : ℕ) → tulower (tulower c) ≡ tulower c
unfolding tulower
tulower-tulower c = ground arith

lower-capitals : (inside : Bool) (s : Str) → map tulower (capitals inside s) ≡ map tulower s
unfolding capitals
lower-capitals inside [] = refl
lower-capitals false (c ∷ s) = elim (Bool-cases (ialnum c)) [
  | inl e ↦ rw (e, tulower-tuupper c, lower-capitals true s) refl
  | inr e ↦ rw (e, lower-capitals false s) refl
]
lower-capitals true (c ∷ s) = elim (Bool-cases (ialnum c)) [
  | inl e ↦ rw (e, tulower-tulower c, lower-capitals true s) refl
  | inr e ↦ rw (e, lower-capitals false s) refl
]

pub makelowercase-makecapitals : (s : Str) → makelowercase (makecapitals s) ≡ makelowercase s
unfolding makelowercase makecapitals
makelowercase-makecapitals s = lower-capitals false s
