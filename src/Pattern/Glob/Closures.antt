-- ===== src/Pattern/Glob/Closures.antt =====
-- `doesmatch` of Src/glob.c on a closure of one character.
use winzsh.Prelude.{
  ℕ, zero, suc, ◌+◌, ◌<◌, ◌≡◌, ◌⊎◌, refl, sym, subst, List, [], ◌∷◌, Bool, true, false, inl, inr,
  arith,
}
use winzsh.Prelude.Lists.{length}
use winzsh.Prelude.Strings.{Str}
use winzsh.Pattern.{Comp, is_null, Options, Place, place}
use winzsh.Pattern.Scan.{scan}
use winzsh.Pattern.Parse.{onehash_stat}
use winzsh.Pattern.Match.{Tailrec, proceed, run_piece, try_rest, tailrec}
use winzsh.Pattern.Glob.{
  Test, Item, once, many, Matches, take_one, leave_many, take_many, symbol, all_plain, plain_test,
  plain_tests, closure,
}
use winzsh.Pattern.Glob.Steps.{Decides, Decides-iff, Decides-then, run-fails, run-passes, scan_end}

module _ (o : Options) (ok : o.errflag ≡ false) where
  abbrev Match : List Item → Str → Type 0
  Match = Matches o.ignorecase

  many_inv :
      (t : Test) (q : List Item) (s : Str)
      → Match (many t ∷ q) s
      → Match q s ⊎ Match (once t ∷ many t ∷ q) s
  many_inv t q s (leave_many _ _ _ m) = inl m
  many_inv t q _ (take_many _ c _ s h m) = inr (take_one t c (many t ∷ q) s h m)

  one_more :
      (t : Test) (q : List Item) (s : Str) → Match (once t ∷ many t ∷ q) s → Match (many t ∷ q) s
  one_more t q _ (take_one _ c _ s h m) = take_many t c q s h m

  -- The closure once more: what follows has failed.
  more-Decides :
      (again : Tailrec) (t : Test) (next : Comp) (q : List Item) (s : Str)
      → is_null next ≡ false
      → plain_test t ≡ true
      → all_plain s ≡ true
      → (Match q s → ⊥)
      → ((r : Str)
          → all_plain r ≡ true
          → suc (length r) ≡ length s
          → Decides (Match (many t ∷ q) r) (again true (closure t next) (place r false)))
      → Decides (Match q []) (again false next (place [] false))
      → Decides (Match (many t ∷ q) s) (run_piece o again (closure t next) (place s false))
  unfolding scan plain_tests
  more-Decides again t next q s some_next h hs fails_now ih ending =
      elim (scan_end o ok (t ∷ []) s (rw h refl) hs) [
        | inl m ↦
            subst (Decides (Match (many t ∷ q) s))
              (sym (run-fails o ok again (symbol t ∷ []) onehash_stat next l m.where_left m.stops))
              (λ d. elim (many_inv t q s d) [
                | inl a ↦ fails_now a
                | inr b ↦ m.no_match (many t ∷ q) b
              ])
        | inr k ↦
            subst (Decides (Match (many t ∷ q) s))
              (sym (
                run-passes o ok again (symbol t ∷ []) onehash_stat next l (place k.rest false)
                  k.goes_on))
              (Decides-iff (Match (many t ∷ q) k.rest) _
                (proceed o again (closure t next) (place k.rest false))
                (
                  λ d. one_more t q s ((k.match_on (many t ∷ q)).1 d),
                  λ d. elim (many_inv t q s d) [
                    | inl a ↦ absurd (fails_now a)
                    | inr b ↦ (k.match_on (many t ∷ q)).0 b
                  ],
                )
                (by_rest k.rest k.rest_plain (omega (arith, k.shorter))))
      ]
    where
      l : Place
      l = place s false

      nothing_left : Match (many t ∷ q) [] → Match q []
      nothing_left (leave_many _ _ _ m) = m

      by_rest :
          (r : Str)
          → all_plain r ≡ true
          → suc (length r) ≡ length s
          → Decides (Match (many t ∷ q) r) (proceed o again (closure t next) (place r false))
      by_rest [] hr size =
          unfold proceed in
          rw (some_next, proceed)
            (Decides-iff (Match q []) _ (again false next (place [] false))
              (leave_many t q [], nothing_left) ending)
      by_rest (c ∷ r) hr size = unfold proceed in ih (c ∷ r) hr size

  pub closure-Decides :
      (t : Test) (next : Comp) (q : List Item) (n : ℕ)
      → is_null next ≡ false
      → plain_test t ≡ true
      → ((f : ℕ) (s : Str)
          → all_plain s ≡ true
          → length s + n < f
          → Decides (Match q s) (tailrec o f false next (place s false)))
      → (fuel : ℕ) (d : Bool) (s : Str) → all_plain s ≡ true
      → length s + suc n < fuel
      → Decides (Match (many t ∷ q) s) (tailrec o fuel d (closure t next) (place s false))
  unfolding tailrec try_rest scan all_plain
  closure-Decides t next q n some_next h ih zero d s hs hf = absurd (omega (arith, hf))
  closure-Decides t next q n some_next h ih (suc f) d s hs hf =
      Decides-then (Match q s) (Match (many t ∷ q) s) (tailrec o f false next (place s false))
        (run_piece o (tailrec o f) (closure t next) (place s false)) (ih f s hs (omega (arith, hf)))
        (λ m. leave_many t q s m)
        (λ failed.
          more-Decides (tailrec o f) t next q s some_next h hs failed
            (λ r hr size.
              closure-Decides t next q n some_next h ih f true r hr (omega (arith, size, hf)))
            (ih f [] refl (omega (arith, hf))))
