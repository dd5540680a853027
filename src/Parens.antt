-- ===== src/Parens.antt =====
-- `skipparens` of Src/utils.c.
use winzsh.Prelude.{
  ℕ, suc, ◌+◌, ◌-◌, ◌≡◌, ◌∙◌, ap, refl, List, [], ◌∷◌, ◌++◌, true, false, Option, none, some, ◌==◌,
  if◌then◌else◌, arith,
}
use mathlib.Core.List.{append_assoc}

module _ (inpar outpar : ℕ) where
  -- The `for` loop from the byte behind the first one on: the level and the rest of the string. The
  -- step to the next byte comes before the test of the level.
  unfoldable pub skip_levels : List ℕ → ℕ → ℕ × List ℕ
  skip_levels [] level = (level, [])
  skip_levels (c ∷ s) level =
      let rest =
        skip_levels s
          (if c == inpar then level + 1 else if c == outpar then level - 1 else level) in
      if level == 0 then (0, c ∷ s) else rest

  -- `none` stands for -1, with which the string stays as it is.
  unfoldable pub skipparens : List ℕ → Option (ℕ × List ℕ)
  skipparens [] = none
  skipparens (c ∷ s) = if c == inpar then some (skip_levels s 1) else none

  -- The strings in which every parenthesis has its match.
  pub data Balanced : List ℕ → Type 0 where
    empty : Balanced []
    byte :
        (c : ℕ) (s : List ℕ)
        → (c == inpar) ≡ false
        → (c == outpar) ≡ false
        → Balanced s
        → Balanced (c ∷ s)
    nest : (a b : List ℕ) → Balanced a → Balanced b → Balanced (inpar ∷ (a ++ (outpar ∷ b)))

  module _ (differ : (outpar == inpar) ≡ false) where
    open_par : (s : List ℕ) (n : ℕ) → skip_levels (inpar ∷ s) (suc n) ≡ skip_levels s (suc (suc n))
    unfolding skip_levels
    open_par s n =
        let e : (inpar == inpar) ≡ true = ground arith in
        let z : (suc n == 0) ≡ false = ground arith in
        let up : suc n + 1 ≡ suc (suc n) = omega arith in rw (e, z, up) refl

    close_par : (s : List ℕ) (n : ℕ) → skip_levels (outpar ∷ s) (suc n) ≡ skip_levels s n
    unfolding skip_levels
    close_par s n =
        let e : (outpar == outpar) ≡ true = ground arith in
        let z : (suc n == 0) ≡ false = ground arith in
        let down : suc n - 1 ≡ n = omega arith in rw (differ, e, z, down) refl

    other_byte :
        (c : ℕ) (s : List ℕ) (n : ℕ)
        → (c == inpar) ≡ false
        → (c == outpar) ≡ false
        → skip_levels (c ∷ s) (suc n) ≡ skip_levels s (suc n)
    unfolding skip_levels
    other_byte c s n p q = let z : (suc n == 0) ≡ false = ground arith in rw (p, q, z) refl

    -- A balanced string leaves the level as it is.
    skip_levels-Balanced :
        (w : List ℕ)
        → Balanced w
        → (r : List ℕ) (n : ℕ) → skip_levels (w ++ r) (suc n) ≡ skip_levels r (suc n)
    skip_levels-Balanced _ empty r n = refl
    skip_levels-Balanced _ (byte c s p q b) r n =
        other_byte c (s ++ r) n p q ∙ skip_levels-Balanced s b r n
    skip_levels-Balanced _ (nest a b x y) r n =
        ap (λ (l : List ℕ). skip_levels (inpar ∷ l) (suc n)) (append_assoc a (outpar ∷ b) r)
        ∙ open_par (a ++ (outpar ∷ (b ++ r))) n
        ∙ skip_levels-Balanced a x (outpar ∷ (b ++ r)) (suc n)
        ∙ close_par (b ++ r) (suc n)
        ∙ skip_levels-Balanced b y r n

    skip_levels_done : (s : List ℕ) → skip_levels s 0 ≡ (0, s)
    unfolding skip_levels
    skip_levels_done [] = refl
    skip_levels_done (c ∷ s) = refl

    -- With two different parentheses, around a balanced string, `skipparens` goes behind the
    -- closing one, with nothing left open.
    pub skipparens-Balanced :
        (w rest : List ℕ)
        → Balanced w
        → skipparens (inpar ∷ (w ++ (outpar ∷ rest))) ≡ some (0, rest)
    unfolding skipparens
    skipparens-Balanced w rest b =
        let e : (inpar == inpar) ≡ true = ground arith in
        rw e (
          ap some
            (skip_levels-Balanced w b (outpar ∷ rest) 0 ∙ close_par rest 0 ∙ skip_levels_done rest))
