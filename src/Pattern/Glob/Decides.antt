-- ===== src/Pattern/Glob/Decides.antt =====
-- `doesmatch` of Src/glob.c on a simple pattern.
use winzsh.Prelude.{
  ℕ, zero, suc, ◌+◌, ◌*◌, ◌≤◌, ◌<◌, ◌≡◌, ◌∙◌, ◌↔◌, refl, ap, subst, List, [], ◌∷◌, ◌++◌, map, Bool,
  true, false, arith,
}
use winzsh.Prelude.Lists.{length}
use winzsh.Prelude.Runs.{ran, stuck, unfinished, and_then}
use winzsh.Prelude.Strings.{Str}
use winzsh.Chars.{itok}
use winzsh.Pattern.{Comp, is_null, no_stat, piece, Options, place}
use winzsh.Pattern.Parse.{parsed, parsereg}
use winzsh.Pattern.Glob.Compiles.{parsereg-written}
use winzsh.Pattern.Match.{Answer, tailrec, doesmatch, domatch, skip_nularg}
use winzsh.Pattern.Glob.{
  Test, any, Item, once, many, plus, anything, Matches, take_one, leave_many, take_many, take_plus,
  leave_all, take_all, symbol, written, all_plain, plain_test, plain_tests, plain_items, closure,
  compiled,
}
use winzsh.Pattern.Glob.Steps.{Decides, Decides-iff, tests-Decides, last-Decides, star-Decides}
use winzsh.Pattern.Glob.Closures.{closure-Decides}

module _ (o : Options) (ok : o.errflag ≡ false) where
  abbrev Match : List Item → Str → Type 0
  Match = Matches o.ignorecase

  -- What the fuel needs beside the length of the string.
  unfoldable pub size : List Item → ℕ
  size [] = 0
  size (once t ∷ p) = size p
  size (many t ∷ p) = 2 + size p
  size (plus t ∷ p) = 3 + size p
  size (anything ∷ []) = 0
  size (anything ∷ i ∷ p) = 2 + size (i ∷ p)

  compiled_not_null : (ts : List Test) (p : List Item) → is_null (compiled ts p) ≡ false
  unfolding compiled
  compiled_not_null ts [] = refl
  compiled_not_null ts (once t ∷ p) = compiled_not_null (ts ++ (t ∷ [])) p
  compiled_not_null ts (many t ∷ p) = refl
  compiled_not_null ts (plus t ∷ p) = refl
  compiled_not_null ts (anything ∷ []) = refl
  compiled_not_null ts (anything ∷ i ∷ p) = refl

  onces_append :
      (ts : List Test) (t : Test) (p : List Item)
      → map once (ts ++ (t ∷ [])) ++ p ≡ map once ts ++ (once t ∷ p)
  onces_append [] t p = refl
  onces_append (x ∷ ts) t p = ap (λ (l : List Item). once x ∷ l) (onces_append ts t p)

  plain_append :
      (ts : List Test) (t : Test)
      → plain_tests ts ≡ true
      → plain_test t ≡ true
      → plain_tests (ts ++ (t ∷ [])) ≡ true
  unfolding plain_tests
  plain_append [] t h k = rw k refl
  plain_append (x ∷ ts) t h k = ground (arith, h, plain_append ts t (ground (arith, h)) k)

  star-many : (q : List Item) (s : Str) → Match (anything ∷ q) s → Match (many any ∷ q) s
  star-many q s (leave_all _ _ m) = leave_many any q s m
  star-many q _ (take_all c _ s m) = take_many any c q s refl (star-many q s m)

  many-star : (q : List Item) (s : Str) → Match (many any ∷ q) s → Match (anything ∷ q) s
  many-star q s (leave_many _ _ _ m) = leave_all q s m
  many-star q _ (take_many _ c _ s h m) = take_all c q s (many-star q s m)

  plus_more :
      (t : Test) (q : List Item) (s : Str) → Match (plus t ∷ q) s → Match (once t ∷ many t ∷ q) s
  plus_more t q _ (take_plus _ c _ s h m) = take_one t c (many t ∷ q) s h m

  more-plus :
      (t : Test) (q : List Item) (s : Str) → Match (once t ∷ many t ∷ q) s → Match (plus t ∷ q) s
  more-plus t q _ (take_one _ c _ s h m) = take_plus t c q s h m

  compiled-Decides :
      (p : List Item) (ts : List Test) (fuel : ℕ) (s : Str)
      → plain_items p ≡ true
      → plain_tests ts ≡ true
      → all_plain s ≡ true
      → length s + size p < fuel
      → Decides (Match (map once ts ++ p) s) (tailrec o fuel false (compiled ts p) (place s false))
  unfolding compiled size plain_items plain_tests
  compiled-Decides p ts zero s hp ht hs hf = absurd (omega (arith, hf))
  compiled-Decides [] ts (suc f) s hp ht hs hf = last-Decides o ok ts f s ht hs
  compiled-Decides (once t ∷ p) ts (suc f) s hp ht hs hf =
      subst
        (λ (q : List Item).
          Decides (Match q s)
            (tailrec o (suc f) false (compiled (ts ++ (t ∷ [])) p) (place s false)))
        (onces_append ts t p)
        (compiled-Decides p (ts ++ (t ∷ [])) (suc f) s (ground (arith, hp))
          (plain_append ts t ht (ground (arith, hp))) hs hf)
  compiled-Decides (many t ∷ p) ts (suc f) s hp ht hs hf =
      tests-Decides o ok ts (closure t (compiled [] p)) (many t ∷ p) f s refl ht hs (λ r size_r hr.
        closure-Decides o ok t (compiled [] p) p (size p) (compiled_not_null [] p)
          (ground (arith, hp))
          (λ g s' hs' le. compiled-Decides p [] g s' (ground (arith, hp)) refl hs' le) f false r hr
          (omega (arith, hf, size_r)))
  compiled-Decides (plus t ∷ p) ts (suc zero) s hp ht hs hf = absurd (omega (arith, hf))
  compiled-Decides (plus t ∷ p) ts (suc (suc f)) s hp ht hs hf =
      let clo = closure t (compiled [] p) in
      let one : plain_test t ≡ true = ground (arith, hp) in
      tests-Decides o ok ts (piece (symbol t ∷ []) no_stat clo) (plus t ∷ p) (suc f) s refl ht hs
        (λ r size_r hr.
          Decides-iff (Match (once t ∷ many t ∷ p) r) _
            (tailrec o (suc f) false (piece (symbol t ∷ []) no_stat clo) (place r false))
            (more-plus t p r, plus_more t p r)
            (tests-Decides o ok (t ∷ []) clo (many t ∷ p) f r refl (rw one refl) hr (λ x size_x hx.
              closure-Decides o ok t (compiled [] p) p (size p) (compiled_not_null [] p) one
                (λ g s' hs' le. compiled-Decides p [] g s' (ground (arith, hp)) refl hs' le) f false
                x hx (omega (arith, hf, size_r, size_x)))))
  compiled-Decides (anything ∷ []) ts (suc f) s hp ht hs hf = star-Decides o ok ts f s ht hs
  compiled-Decides (anything ∷ i ∷ p) ts (suc f) s hp ht hs hf =
      let q = i ∷ p in
      tests-Decides o ok ts (closure any (compiled [] q)) (anything ∷ q) f s refl ht hs
        (λ r size_r hr.
          Decides-iff (Match (many any ∷ q) r) _
            (tailrec o f false (closure any (compiled [] q)) (place r false))
            (many-star q r, star-many q r)
            (closure-Decides o ok any (compiled [] q) q (size q) (compiled_not_null [] q) refl
              (λ g s' hs' le. compiled-Decides (i ∷ p) [] g s' (ground (arith, hp)) refl hs' le) f
              false r hr (omega (arith, hf, size_r))))

  size-le : (p : List Item) → size p ≤ 2 * length (written p)
  unfolding size written
  size-le [] = omega arith
  size-le (once t ∷ p) = omega (arith, size-le p)
  size-le (many t ∷ p) = omega (arith, size-le p)
  size-le (plus t ∷ p) = omega (arith, size-le p)
  size-le (anything ∷ []) = omega arith
  size-le (anything ∷ i ∷ p) = omega (arith, size-le (i ∷ p))

  no_nularg : (s : Str) → all_plain s ≡ true → skip_nularg o s ≡ s
  unfolding all_plain itok
  no_nularg [] h = refl
  no_nularg (c ∷ s) h = ground (arith, h)

  answer :
      (G : Type 0) (r : Answer)
      → Decides G r
      → (b : Bool) × ((and_then r λ (b, l). ran b) ≡ ran b) × ((b ≡ true) ↔ G)
  answer G (ran (true, l)) d = (true, refl, (λ e. d, λ g. refl))
  answer G (ran (false, l)) d = (false, refl, (λ e. absurd (cc e), λ g. absurd (d g)))
  answer G stuck d = absurd d
  answer G unfinished d = absurd d

  -- For a pattern of characters, `?`, their closures `#` and `##`, and `*`, none of its bytes a
  -- token or `Meta` otherwise, with EXTENDEDGLOB set and no error before, and for a string of
  -- such bytes: with fuel above the length of the pattern and 2 `parsereg` compiles the whole
  -- pattern, and with fuel above the length of the string and twice that of the pattern
  -- `domatch`, on the compiled pattern and with leading dots not special, returns, and the answer
  -- is whether the string matches.
  pub domatch-parsereg :
      (p : List Item) (s : Str) (f g : ℕ)
      → o.extendedglob ≡ true
      → plain_items p ≡ true
      → all_plain s ≡ true
      → length (written p) + 2 < f
      → length s + 2 * length (written p) < g
      → (c : Comp) × (b : Bool) × (parsereg o f (written p) ≡ parsed c [])
        × (domatch o g s c false ≡ ran b)
        × ((b ≡ true) ↔ Matches o.ignorecase p s)
  unfolding domatch doesmatch
  domatch-parsereg p s f g ext hp hs hf hg =
      let (b, e, iff) = answer (Match p s) (tailrec o g false (compiled [] p) (place s false)) (
        compiled-Decides p [] g s hp (unfold plain_tests in refl) hs
          (omega (arith, hg, size-le p))) in
      (
        compiled [] p,
        b,
        parsereg-written o ext p f hp hf,
        ap
              (λ (x : Str).
                and_then (tailrec o g false (compiled [] p) (place x false)) λ (b, l). ran b)
              (no_nularg s hs)
            ∙ e,
        iff,
      )
