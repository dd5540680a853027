-- ===== src/Pattern/Glob/Steps.antt =====
-- `doesmatch` of Src/glob.c on one piece of a simple pattern.
use winzsh.Prelude.{
  ℕ, suc, ◌+◌, ◌≡◌, ◌∙◌, ◌⊎◌, ◌↔◌, refl, sym, ap, subst, List, [], ◌∷◌, ◌++◌, map, true, false, inl,
  inr, if◌then◌else◌,
}
use mathlib.Core.List.{append-nil}
use winzsh.Prelude.Lists.{length}
use winzsh.Prelude.Runs.{ran, stuck, unfinished, and_then}
use winzsh.Prelude.Strings.{Str}
use winzsh.Pattern.{star, Comp, null, is_null, Stat, no_stat, piece, Options, Place, place}
use winzsh.Pattern.Scan.{fails, passes, succeeds, scan, is_end}
use winzsh.Pattern.Match.{Answer, Tailrec, proceed, alternatives, run_piece, try_rest, tailrec}
use winzsh.Pattern.Glob.{
  Test, Item, once, anything, Matches, none_left, leave_all, take_all, all_plain, plain_tests,
  symbols, last_stat,
}
use winzsh.Pattern.Glob.Pieces.{Misses, Takes, scan-tests}

abbrev pub Decides : Type 0 → Answer → Type 0
Decides G (ran (true, l)) = G
Decides G (ran (false, l)) = G → ⊥
Decides G stuck = ⊥
Decides G unfinished = ⊥

pub Decides-iff : (G H : Type 0) (r : Answer) → G ↔ H → Decides G r → Decides H r
Decides-iff G H (ran (true, l)) e d = e.0 d
Decides-iff G H (ran (false, l)) e d = λ h. d (e.1 h)
Decides-iff G H stuck e d = d
Decides-iff G H unfinished e d = d

-- The rest of the pattern first, and if it fails, `other`.
pub Decides-then :
    (G H : Type 0) (r : Answer) (other : Answer)
    → Decides G r
    → (G → H)
    → ((G → ⊥) → Decides H other)
    → Decides H (and_then r λ (b, l). if b then ran (true, l) else other)
Decides-then G H (ran (true, l)) other d f k = f d
Decides-then G H (ran (false, l)) other d f k = k d
Decides-then G H stuck other d f k = absurd d
Decides-then G H unfinished other d f k = absurd d

module _ (o : Options) (ok : o.errflag ≡ false) where
  abbrev Match : List Item → Str → Type 0
  Match = Matches o.ignorecase

  pub run-fails :
      (again : Tailrec) (str : Str) (t : Stat) (next : Comp) (l l' : Place)
      → scan o 0 str l ≡ fails l'
      → run_piece o again (piece str t next) l ≡ ran (false, l')
  unfolding run_piece
  run-fails again str t next l l' e = rw (e, run_piece) refl

  run-succeeds :
      (again : Tailrec) (str : Str) (t : Stat) (next : Comp) (l l' : Place)
      → scan o 0 str l ≡ succeeds l'
      → run_piece o again (piece str t next) l ≡ ran (true, l')
  unfolding run_piece
  run-succeeds again str t next l l' e = rw (e, run_piece) refl

  pub run-passes :
      (again : Tailrec) (str : Str) (t : Stat) (next : Comp) (l l' : Place)
      → scan o 0 str l ≡ passes l'
      → run_piece o again (piece str t next) l ≡ proceed o again (piece str t next) l'
  unfolding run_piece alternatives
  run-passes again str t next l l' e = rw (e, run_piece) (rw (ok, alternatives) refl)

  -- The tests of a piece with nothing behind them.
  pub scan_end :
      (ts : List Test) (s : Str)
      → plain_tests ts ≡ true
      → all_plain s ≡ true
      → Misses o ts [] s ⊎ Takes o ts [] s
  scan_end ts s h hs = scan-tests o ts [] s h hs

  no_pattern :
      (ts : List Test) (l : Place) → scan o 0 (symbols ts) l ≡ scan o 0 (symbols ts ++ []) l
  no_pattern ts l = ap (λ (p : Str). scan o 0 p l) (sym (append-nil (symbols ts)))

  -- With no closure the next piece follows.
  proceed_next :
      (again : Tailrec) (str : Str) (next : Comp) (r : Str)
      → is_null next ≡ false
      → proceed o again (piece str no_stat next) (place r false) ≡ again false next (place r false)
  unfolding proceed
  proceed_next again str next [] h = rw (h, proceed) refl
  proceed_next again str next (c ∷ r) h = rw (h, proceed) refl

  -- The last piece wants the string to end.
  proceed_last :
      (again : Tailrec) (str : Str) (r : Str)
      → proceed o again (piece str last_stat null) (place r false) ≡ ran (is_end r, place r false)
  unfolding proceed
  proceed_last again str [] = refl
  proceed_last again str (c ∷ r) = refl

  -- A piece of tests and what follows it.
  pub tests-Decides :
      (ts : List Test) (next : Comp) (q : List Item) (fuel : ℕ) (s : Str)
      → is_null next ≡ false
      → plain_tests ts ≡ true
      → all_plain s ≡ true
      → ((r : Str)
          → length r + length ts ≡ length s
          → all_plain r ≡ true
          → Decides (Match q r) (tailrec o fuel false next (place r false)))
      → Decides
          (Match (map once ts ++ q) s)
          (tailrec o (suc fuel) false (piece (symbols ts) no_stat next) (place s false))
  unfolding tailrec try_rest scan
  tests-Decides ts next q fuel s some_next h hs ih =
      let c = piece (symbols ts) no_stat next in
      let l = place s false in
      elim (scan_end ts s h hs) [
        | inl m ↦
            subst (Decides (Match (map once ts ++ q) s))
              (sym (
                run-fails (tailrec o fuel) (symbols ts) no_stat next l m.where_left
                  (no_pattern ts l ∙ m.stops)))
              (m.no_match q)
        | inr k ↦
            let go : run_piece o (tailrec o fuel) c l
                ≡ tailrec o fuel false next (place k.rest false) =
              run-passes (tailrec o fuel) (symbols ts) no_stat next l (place k.rest false)
                (no_pattern ts l ∙ k.goes_on)
              ∙ proceed_next (tailrec o fuel) (symbols ts) next k.rest some_next in
            subst (Decides (Match (map once ts ++ q) s)) (sym go) (
              Decides-iff (Match q k.rest) _ _ ((k.match_on q).1, (k.match_on q).0)
                (ih k.rest k.shorter k.rest_plain))
      ]

  end-Decides : (r : Str) → Decides (Match [] r) (ran (is_end r, place r false))
  end-Decides [] = none_left
  end-Decides (c ∷ r) = λ m. elim m [ ]

  pub last-Decides :
      (ts : List Test) (fuel : ℕ) (s : Str)
      → plain_tests ts ≡ true
      → all_plain s ≡ true
      → Decides
          (Match (map once ts ++ []) s)
          (tailrec o (suc fuel) false (piece (symbols ts) last_stat null) (place s false))
  unfolding tailrec try_rest scan
  last-Decides ts fuel s h hs =
      let l = place s false in
      elim (scan_end ts s h hs) [
        | inl m ↦
            subst (Decides (Match (map once ts ++ []) s))
              (sym (
                run-fails (tailrec o fuel) (symbols ts) last_stat null l m.where_left
                  (no_pattern ts l ∙ m.stops)))
              (m.no_match [])
        | inr k ↦
            let go : run_piece o (tailrec o fuel) (piece (symbols ts) last_stat null) l
                ≡ ran (is_end k.rest, place k.rest false) =
              run-passes (tailrec o fuel) (symbols ts) last_stat null l (place k.rest false)
                (no_pattern ts l ∙ k.goes_on)
              ∙ proceed_last (tailrec o fuel) (symbols ts) k.rest in
            subst (Decides (Match (map once ts ++ []) s)) (sym go) (
              Decides-iff (Match [] k.rest) _ (ran (is_end k.rest, place k.rest false))
                ((k.match_on []).1, (k.match_on []).0) (end-Decides k.rest))
      ]

  anything-Match : (s : Str) → Match (anything ∷ []) s
  anything-Match [] = leave_all [] [] none_left
  anything-Match (c ∷ s) = take_all c [] s (anything-Match s)

  pub star-Decides :
      (ts : List Test) (fuel : ℕ) (s : Str)
      → plain_tests ts ≡ true
      → all_plain s ≡ true
      → Decides (Match (map once ts ++ (anything ∷ [])) s) (
          tailrec o
            (suc fuel)
            false
            (piece (symbols ts ++ (star ∷ [])) last_stat null)
            (place s false))
  unfolding tailrec try_rest scan
  star-Decides ts fuel s h hs =
      let l = place s false in
      let str = symbols ts ++ (star ∷ []) in
      let q = anything ∷ [] in
      elim (scan-tests o ts (star ∷ []) s h hs) [
        | inl m ↦
            subst (Decides (Match (map once ts ++ q) s))
              (sym (run-fails (tailrec o fuel) str last_stat null l m.where_left m.stops))
              (m.no_match q)
        | inr k ↦
            subst (Decides (Match (map once ts ++ q) s))
              (sym (
                run-succeeds (tailrec o fuel) str last_stat null l (place [] false)
                  (k.goes_on ∙ refl)))
              ((k.match_on q).1 (anything-Match k.rest))
      ]
