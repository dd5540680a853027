-- ===== src/Pattern/Tokenize/Quoted.antt =====
-- Strings whose special characters stand behind backslashes, for `tokenize` of Src/glob.c.
use winzsh.Prelude.{
  ℕ, zero, suc, ◌+◌, ◌*◌, ◌<◌, ◌≡◌, ◌∙◌, refl, sym, ap, List, [], ◌∷◌, map, Bool, true, false, ◌==◌,
  ◌||◌, Bool-cases, ==_iff, ◌↔◌, Option, none, some, inl, inr, if◌then◌else◌, arith, subst,
}
use mathlib.Core.Path.{ap₂}
use winzsh.Prelude.Lists.{length}
use winzsh.Prelude.Runs.{Run, ran}
use winzsh.Prelude.Strings.{Str}
use winzsh.Chars.{itok}
use winzsh.Pattern.{bnull, nularg, Comp, Options}
use winzsh.Pattern.Parse.{chuck_nulls, remnulargs, parsed, parse, parsereg}
use winzsh.Pattern.Match.{domatch}
use winzsh.Pattern.Tokenize.{prepend, is_group, is_operator, tokenize_step, tokenize_loop, tokenize}
use winzsh.Pattern.Glob.Decides.{domatch-parsereg}
use winzsh.Pattern.Glob.{
  plain, all_plain, Item, once, byte, Matches, none_left, take_one, written, plain_items,
}

abbrev pub special : ℕ → Bool
special c = c == b'\\' || c == b'[' || c == b'<' || is_group c || is_operator c

unfoldable pub escape : Str → Str
escape [] = []
escape (c ∷ s) = let rest = escape s in if special c then b'\\' ∷ c ∷ rest else c ∷ rest

unfoldable pub marked : Str → Str
marked [] = []
marked (c ∷ s) = let rest = marked s in if special c then bnull ∷ c ∷ rest else c ∷ rest

plain_head : (c : ℕ) (s : Str) → all_plain (c ∷ s) ≡ true → plain c ≡ true
unfolding all_plain
plain_head c s h = ground (arith, h)

plain_tail : (c : ℕ) (s : Str) → all_plain (c ∷ s) ≡ true → all_plain s ≡ true
unfolding all_plain
plain_tail c s h = ground (arith, h)

module _ (o : Options) (sh : o.shglob ≡ false) where
  at_special :
      (again : Option ℕ → Str → Run Str) (c : ℕ) (s : Str)
      → special c ≡ true
      → plain c ≡ true
      → tokenize_step o again (some b'\\') c s ≡ prepend (bnull ∷ c ∷ []) (again none s)
  unfolding tokenize_step itok
  at_special again c s h p = rw (sh, tokenize_step) (ground (arith, h, p))

  at_other :
      (again : Option ℕ → Str → Run Str) (c : ℕ) (s : Str)
      → special c ≡ false
      → plain c ≡ true
      → tokenize_step o again none c s ≡ prepend (c ∷ []) (again none s)
  unfolding tokenize_step itok
  at_other again c s h p = rw (sh, tokenize_step) (ground (arith, h, p))

  -- `s` is read as `m`.
  abbrev Reads : Str → Str → Type 0
  Reads s m = (fuel : ℕ) → length s < fuel → tokenize_loop o fuel none s ≡ ran m

  special-Reads :
      (c : ℕ) (s m : Str)
      → special c ≡ true
      → plain c ≡ true
      → Reads s m
      → Reads (b'\\' ∷ c ∷ s) (bnull ∷ c ∷ m)
  unfolding tokenize_loop tokenize_step
  special-Reads c s m h p ih zero hf = absurd (omega (arith, hf))
  special-Reads c s m h p ih (suc zero) hf = absurd (omega (arith, hf))
  special-Reads c s m h p ih (suc (suc f)) hf =
      at_special (tokenize_loop o f) c s h p
      ∙ ap (prepend (bnull ∷ c ∷ [])) (ih f (omega (arith, hf)))

  other-Reads :
      (c : ℕ) (s m : Str) → special c ≡ false → plain c ≡ true → Reads s m → Reads (c ∷ s) (c ∷ m)
  unfolding tokenize_loop
  other-Reads c s m h p ih zero hf = absurd (omega (arith, hf))
  other-Reads c s m h p ih (suc f) hf =
      at_other (tokenize_loop o f) c s h p ∙ ap (prepend (c ∷ [])) (ih f (omega (arith, hf)))

  end-Reads : Reads [] []
  unfolding tokenize_loop
  end-Reads zero hf = absurd (omega (arith, hf))
  end-Reads (suc f) hf = refl

  escape-Reads : (s : Str) → all_plain s ≡ true → Reads (escape s) (marked s)
  unfolding escape marked
  escape-Reads [] h = end-Reads
  escape-Reads (c ∷ s) h =
      let ih = escape-Reads s (plain_tail c s h) in
      elim (Bool-cases (special c)) [
        | inl e ↦
            rw (e, escape, marked) (special-Reads c (escape s) (marked s) e (plain_head c s h) ih)
        | inr e ↦
            rw (e, escape, marked) (other-Reads c (escape s) (marked s) e (plain_head c s h) ih)
      ]

  tokenize-escape : (s : Str) → all_plain s ≡ true → tokenize o (escape s) ≡ ran (marked s)
  unfolding tokenize
  tokenize-escape s h = escape-Reads s h (suc (length (escape s))) (omega arith)

keep : (c : ℕ) (s : Str) → plain c ≡ true → chuck_nulls (c ∷ s) ≡ c ∷ chuck_nulls s
unfolding chuck_nulls itok
keep c s h = ground (arith, h)

drop_bnull : (s : Str) → chuck_nulls (bnull ∷ s) ≡ chuck_nulls s
unfolding chuck_nulls
drop_bnull s = refl

chuck_nulls-marked : (s : Str) → all_plain s ≡ true → chuck_nulls (marked s) ≡ s
unfolding marked
chuck_nulls-marked [] h = unfold chuck_nulls in refl
chuck_nulls-marked (c ∷ s) h =
    let rest =
      keep c (marked s) (plain_head c s h)
      ∙ ap (λ (t : Str). c ∷ t) (chuck_nulls-marked s (plain_tail c s h)) in
    elim (Bool-cases (special c)) [
      | inl e ↦ rw (e, marked) (drop_bnull (c ∷ marked s) ∙ rest)
      | inr e ↦ rw (e, marked) rest
    ]

remnulargs_lem : (m : Str) (c : ℕ) (s : Str) → chuck_nulls m ≡ c ∷ s → remnulargs m ≡ c ∷ s
unfolding remnulargs
remnulargs_lem [] c s e = absurd (unfold chuck_nulls in cc e)
remnulargs_lem (x ∷ m) c s e = ap (λ (r : Str). elim r [ [] ↦ nularg ∷ [] | d ∷ t ↦ d ∷ t ]) e

remnulargs-marked : (s : Str) → all_plain s ≡ true → remnulargs (marked s) ≡ s
remnulargs-marked [] h = unfold remnulargs marked in refl
remnulargs-marked (c ∷ s) h = remnulargs_lem (marked (c ∷ s)) c s (chuck_nulls-marked (c ∷ s) h)

chuck_nulls-plain : (s : Str) → all_plain s ≡ true → chuck_nulls s ≡ s
unfolding all_plain
chuck_nulls-plain [] h = unfold chuck_nulls in refl
chuck_nulls-plain (c ∷ s) h =
    keep c s (plain_head c s h) ∙ ap (λ (t : Str). c ∷ t) (chuck_nulls-plain s (plain_tail c s h))

remnulargs-plain : (s : Str) → all_plain s ≡ true → remnulargs s ≡ s
remnulargs-plain [] h = unfold remnulargs in refl
remnulargs-plain (c ∷ s) h = remnulargs_lem (c ∷ s) c s (chuck_nulls-plain (c ∷ s) h)

-- Each byte by itself.
abbrev pub literal : Str → List Item
literal = map (λ (c : ℕ). once (byte c))

written-literal : (s : Str) → written (literal s) ≡ s
unfolding written
written-literal [] = refl
written-literal (c ∷ s) = ap (λ (t : Str). c ∷ t) (written-literal s)

plain_items-literal : (s : Str) → all_plain s ≡ true → plain_items (literal s) ≡ true
unfolding plain_items all_plain
plain_items-literal [] h = refl
plain_items-literal (c ∷ s) h = ground (arith, h, plain_items-literal s (plain_tail c s h))

literal-Matches : (s : Str) → Matches false (literal s) s
literal-Matches [] = none_left
literal-Matches (c ∷ s) = take_one (byte c) c (literal s) s (ground arith) (literal-Matches s)

Matches-literal : (s t : Str) → Matches false (literal s) t → t ≡ s
Matches-literal [] _ none_left = refl
Matches-literal (c ∷ s) _ (take_one _ x _ t e m) =
    ap₂ (λ (a : ℕ) (b : Str). a ∷ b) ((==_iff x c).0 e) (Matches-literal s t m)

module _ (o : Options) (ok : o.errflag ≡ false) where
  parsereg-marked :
      (s : Str) (f : ℕ) → all_plain s ≡ true → parsereg o f (marked s) ≡ parsereg o f s
  unfolding parsereg
  parsereg-marked s f h = ap (parse o f true _) (remnulargs-marked s h ∙ sym (remnulargs-plain s h))

  literal-Matches_iff :
      (s t : Str) → o.ignorecase ≡ false → Matches o.ignorecase (literal s) t ↔ (t ≡ s)
  literal-Matches_iff s t ic = (
    λ m. Matches-literal s t (subst (λ (i : Bool). Matches i (literal s) t) ic m),
    λ e.
        subst (λ (i : Bool). Matches i (literal s) t) (sym ic)
          (subst (λ (x : Str). Matches false (literal s) x) (sym e) (literal-Matches s)),
  )

  -- With EXTENDEDGLOB set, SHGLOB and WINNTIGNORECASE not, and no error before, for strings
  -- without tokens or `Meta`: `tokenize` of a string whose special characters stand behind
  -- backslashes has a result, with fuel above its length and 2 `parsereg` compiles that result,
  -- and with fuel above the length of the other string and twice its own `domatch`, with leading
  -- dots not special, returns, and the answer is whether the other string is the same.
  pub domatch-tokenize :
      (s t : Str) (f g : ℕ)
      → o.extendedglob ≡ true
      → o.shglob ≡ false
      → o.ignorecase ≡ false
      → all_plain s ≡ true
      → all_plain t ≡ true
      → length s + 2 < f
      → length t + 2 * length s < g
      → (m : Str) × (c : Comp) × (b : Bool) × (tokenize o (escape s) ≡ ran m)
        × (parsereg o f m ≡ parsed c [])
        × (domatch o g t c false ≡ ran b)
        × ((b ≡ true) ↔ (t ≡ s))
  domatch-tokenize s t f g ext sh ic hs ht hf hg =
      let w = written-literal s in
      let (c, b, compiles, answers, right) =
        domatch-parsereg o ok (literal s) t f g ext (plain_items-literal s hs) ht (rw w hf)
          (rw w hg) in
      (
        marked s,
        c,
        b,
        tokenize-escape o sh s hs,
        parsereg-marked s f hs ∙ ap (parsereg o f) (sym w) ∙ compiles,
        answers,
        (
          λ e. (literal-Matches_iff s t ic).0 (right.0 e),
          λ e. right.1 ((literal-Matches_iff s t ic).1 e),
        ),
      )
