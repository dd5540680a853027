-- ===== src/Pattern/Glob/Compiles.antt =====
-- `parsereg` of Src/glob.c on a written simple pattern.
use winzsh.Prelude.{
  ℕ, zero, suc, ◌+◌, ◌<◌, ◌≡◌, ◌∙◌, refl, sym, ap, List, [], ◌∷◌, ◌++◌, true, false, Option, none,
  some, arith,
}
use winzsh.Prelude.Lists.{length}
use winzsh.Prelude.Strings.{Str}
use winzsh.Chars.{itok}
use winzsh.Pattern.{pound, star, nularg, Comp, null, piece, Options}
use winzsh.Pattern.Parse.{
  Parsed, parsed, then_parse, Parser, parse_star, parse_pound, joined, comp_loop, exclusion,
  alternative, parse, chuck_nulls, remnulargs, parsereg, inull,
}
use winzsh.Pattern.Glob.{
  Test, byte, any, Item, once, many, plus, anything, symbol, written, plain_test, plain_items,
  symbols, last_stat, compiled,
}
use winzsh.Pattern.Glob.Reads.{
  whole, read_test, read_pound, read_star, read_last_star, at_end, star_goes_on_lem, plain_head,
  plain_tail, pounds_one, pounds_two,
}

module _ (o : Options) (ext : o.extendedglob ≡ true) where
  symbols_append :
      (ts : List Test) (t : Test) → symbols (ts ++ (t ∷ [])) ≡ symbols ts ++ (symbol t ∷ [])
  symbols_append [] t = refl
  symbols_append (x ∷ ts) t = ap (λ (l : Str). symbol x ∷ l) (symbols_append ts t)

  compiled_parsed :
      (p : List Item) (fuel left : ℕ) (ts : List Test) (before : Str) (ls : Option Str)
      → plain_items p ≡ true
      → length (written p) < left
      → length (written p) < fuel
      → joined before ls ≡ symbols ts
      → comp_loop o left
          (parse o fuel false)
          (parse o fuel true)
          (whole o ext)
          before
          ls
          (written p)
        ≡ parsed (compiled ts p) []
  unfolding written compiled parse parse_pound parse_star
  compiled_parsed p zero left ts before ls h hl hf e = absurd (omega (arith, hf))
  compiled_parsed p (suc fuel) zero ts before ls h hl hf e = absurd (omega (arith, hl))
  compiled_parsed [] (suc fuel) (suc left) ts before ls h hl hf e =
      at_end o ext left _ _ before ls ∙ ap (λ (b : Str). parsed (piece b last_stat null) []) e
  compiled_parsed (once t ∷ p) (suc fuel) (suc left) ts before ls h hl hf e =
      read_test o ext left _ _ before ls t (written p) (plain_head o ext (once t) p h)
      ∙ compiled_parsed p (suc fuel) left (ts ++ (t ∷ [])) (joined before ls) (some (symbol t ∷ []))
          (plain_tail o ext (once t) p h) (omega (arith, hl)) (omega (arith, hf))
          (ap (λ (b : Str). b ++ (symbol t ∷ [])) e ∙ sym (symbols_append ts t))
  compiled_parsed (many t ∷ p) (suc fuel) (suc zero) ts before ls h hl hf e =
      absurd (omega (arith, hl))
  compiled_parsed (many t ∷ p) (suc fuel) (suc (suc left)) ts before ls h hl hf e =
      let rest =
        compiled_parsed p fuel (suc (length (written p))) [] [] none (plain_tail o ext (many t) p h)
          (omega arith) (omega (arith, hf)) refl in
      read_test o ext (suc left) _ _ before ls t (pound ∷ written p) (plain_head o ext (many t) p h)
      ∙ read_pound o ext left _ _ (joined before ls) (symbol t ∷ []) (written p)
      ∙ rw (pounds_one o ext p (plain_tail o ext (many t) p h), rest, e) refl
  compiled_parsed (plus t ∷ p) (suc fuel) (suc zero) ts before ls h hl hf e =
      absurd (omega (arith, hl))
  compiled_parsed (plus t ∷ p) (suc fuel) (suc (suc left)) ts before ls h hl hf e =
      let rest =
        compiled_parsed p fuel (suc (length (written p))) [] [] none (plain_tail o ext (plus t) p h)
          (omega arith) (omega (arith, hf)) refl in
      read_test o ext (suc left) _ _ before ls t (pound ∷ pound ∷ written p)
        (plain_head o ext (plus t) p h)
      ∙ read_pound o ext left _ _ (joined before ls) (symbol t ∷ []) (pound ∷ written p)
      ∙ rw (pounds_two o ext (written p), rest, e) refl
  compiled_parsed (anything ∷ []) (suc fuel) (suc zero) ts before ls h hl hf e =
      absurd (omega (arith, hl))
  compiled_parsed (anything ∷ []) (suc fuel) (suc (suc left)) ts before ls h hl hf e =
      read_last_star o ext (suc left) _ _ before ls
      ∙ at_end o ext left _ _ (joined before ls) (some (star ∷ []))
      ∙ ap (λ (b : Str). parsed (piece (b ++ (star ∷ [])) last_stat null) []) e
  compiled_parsed (anything ∷ i ∷ p) (suc fuel) (suc left) ts before ls h hl hf e =
      let q = i ∷ p in
      let hq = plain_tail o ext anything q h in
      let rest =
        compiled_parsed q fuel (suc (length (written q))) [] [] none hq (omega arith)
          (omega (arith, hf)) refl in
      read_star o ext left _ _ before ls (written q)
        (star_goes_on_lem o ext i p (plain_head o ext i p hq))
      ∙ rw (rest, e) refl

  test-inull : (t : Test) → plain_test t ≡ true → inull (symbol t) ≡ false
  test-inull (byte c) h = unfold itok in ground (arith, h)
  test-inull any h = refl

  keep_test :
      (t : Test) (s : Str)
      → plain_test t ≡ true
      → chuck_nulls (symbol t ∷ s) ≡ symbol t ∷ chuck_nulls s
  unfolding chuck_nulls
  keep_test t s h = rw (test-inull t h, chuck_nulls) refl

  no_nulls : (p : List Item) → plain_items p ≡ true → chuck_nulls (written p) ≡ written p
  unfolding written chuck_nulls
  no_nulls [] h = refl
  no_nulls (once t ∷ p) h =
      keep_test t (written p) (plain_head o ext (once t) p h)
      ∙ ap (λ (s : Str). symbol t ∷ s) (no_nulls p (plain_tail o ext (once t) p h))
  no_nulls (many t ∷ p) h =
      keep_test t (pound ∷ written p) (plain_head o ext (many t) p h)
      ∙ ap (λ (s : Str). symbol t ∷ pound ∷ s) (no_nulls p (plain_tail o ext (many t) p h))
  no_nulls (plus t ∷ p) h =
      keep_test t (pound ∷ pound ∷ written p) (plain_head o ext (plus t) p h)
      ∙ ap (λ (s : Str). symbol t ∷ pound ∷ pound ∷ s) (no_nulls p (plain_tail o ext (plus t) p h))
  no_nulls (anything ∷ p) h =
      ap (λ (s : Str). star ∷ s) (no_nulls p (plain_tail o ext anything p h))

  remnulargs_same : (s : Str) → chuck_nulls s ≡ s → remnulargs s ≡ s
  unfolding remnulargs
  remnulargs_same [] h = refl
  remnulargs_same (c ∷ s) h = ap (λ (r : Str). elim r [ [] ↦ nularg ∷ [] | d ∷ t ↦ d ∷ t ]) h

  no_exclusion : (call : Parser) → exclusion o call (whole o ext) [] ≡ parsed null []
  unfolding exclusion
  no_exclusion call = rw ext refl

  one_alternative :
      (c : Comp) (call : Parser) → alternative o call (whole o ext) c null [] ≡ parsed c []
  unfolding alternative
  one_alternative c call = refl

  pub parsereg-written :
      (p : List Item) (fuel : ℕ)
      → plain_items p ≡ true
      → length (written p) + 2 < fuel
      → parsereg o fuel (written p) ≡ parsed (compiled [] p) []
  unfolding parsereg parse
  parsereg-written p zero h hf = absurd (omega (arith, hf))
  parsereg-written p (suc zero) h hf = absurd (omega (arith, hf))
  parsereg-written p (suc (suc fuel)) h hf =
      let comp_call = parse o (suc fuel) false in
      let switch = parse o (suc fuel) true in
      let behind_comp = λ (c₁ : Comp) (s₁ : Str).
        then_parse (exclusion o comp_call (whole o ext) s₁)
          λ excl s₂. alternative o switch (whole o ext) c₁ excl s₂ in
      ap (parse o (suc (suc fuel)) true (whole o ext)) (remnulargs_same (written p) (no_nulls p h))
      ∙ ap (λ (r : Parsed). then_parse r behind_comp)
          (compiled_parsed p fuel (suc (length (written p))) [] [] none h (omega arith)
            (omega (arith, hf)) refl)
      ∙ ap
          (λ (r : Parsed).
            then_parse r λ excl s₂. alternative o switch (whole o ext) (compiled [] p) excl s₂)
          (no_exclusion comp_call)
      ∙ one_alternative (compiled [] p) switch
