-- ===== src/Pattern/Glob/Loops.antt =====
-- A closure of a closure, `(a#)#b`, in `doesmatch` of Src/glob.c.
use winzsh.Prelude.{ℕ, zero, suc, ◌≡◌, ◌∙◌, refl, ap, ◌==◌, ◌&&◌, [], ◌∷◌, Bool, true, false}
use winzsh.Prelude.Runs.{ran, unfinished, and_then}
use winzsh.Prelude.Strings.{Str}
use winzsh.Chars.{itok}
use winzsh.Parens.{skipparens, skip_levels}
use winzsh.Pattern.{
  inpar, outpar, pound, nularg, Comp, null, comp, no_stat, piece, Options, Place, place,
}
use winzsh.Pattern.Scan.{same_byte, fails, scan}
use winzsh.Pattern.Match.{
  Answer, tailrec, doesmatch, domatch, try_rest, run_piece, alternatives, proceed,
}
use winzsh.Pattern.Parse.{
  onehash_stat, parsed, parsereg, parse, comp_loop, separates, item, parse_group, parse_pound,
  pounds, end_stat, exclusion, alternative, remnulargs, chuck_nulls,
}
use winzsh.Pattern.Glob.{last_stat}
use winzsh.Pattern.Glob.Pieces.{scan-byte, after_test}
use winzsh.Pattern.Glob.Steps.{run-fails}

abbrev pub closure_of_closure : Str
closure_of_closure = inpar ∷ b'a' ∷ pound ∷ outpar ∷ pound ∷ b'b' ∷ []

abbrev nothing_more : Comp
nothing_more = piece [] no_stat null

abbrev inner : Comp
inner = piece [] no_stat (piece (b'a' ∷ []) onehash_stat nothing_more)

abbrev behind : Comp
behind = piece (b'b' ∷ []) last_stat null

abbrev outer : Comp
outer = comp inner null behind null [] onehash_stat

abbrev pub loops : Comp
loops = piece [] no_stat outer

module _ (p : Options) where
  abbrev pub o : Options
  o = record p { extendedglob = true; errflag = false }

  compiles : parsereg o 10 closure_of_closure ≡ parsed loops []
  unfolding parsereg parse comp_loop separates item parse_group parse_pound pounds end_stat
      exclusion alternative remnulargs chuck_nulls itok skipparens skip_levels
  compiles = refl

  module _ (c : ℕ) (t : Str) (other : same_byte p.ignorecase c b'b' ≡ false) where
    abbrev here : Place
    here = place (c ∷ t) false

    scan-behind : scan o 0 (b'b' ∷ []) here ≡ fails here
    unfolding after_test
    scan-behind = scan-byte o b'b' [] (c ∷ t) (unfold itok in refl) ∙ rw other refl

    behind-fails : (f : ℕ) → tailrec o (suc f) false behind here ≡ ran (false, here)
    unfolding tailrec try_rest
    behind-fails f = run-fails o refl (tailrec o f) (b'b' ∷ []) last_stat null here here scan-behind

    -- The group takes nothing, and that is a success.
    inner-takes_nothing :
        (f : ℕ) → tailrec o (suc (suc (suc f))) false inner here ≡ ran (true, here)
    unfolding tailrec try_rest run_piece scan alternatives proceed
    inner-takes_nothing f = refl

    once_more :
        (f : ℕ) (d : Bool)
        → tailrec o f false behind here ≡ ran (false, here)
        → tailrec o f false inner here ≡ ran (true, here)
        → tailrec o (suc f) d outer here ≡ tailrec o f true outer here
    unfolding tailrec try_rest run_piece scan alternatives proceed
    once_more f d eb ei = rw (eb, ei) refl

    no_more :
        (f : ℕ) (d : Bool)
        → tailrec o f false behind here ≡ ran (false, here)
        → tailrec o f false inner here ≡ unfinished
        → tailrec o (suc f) d outer here ≡ unfinished
    unfolding tailrec try_rest run_piece scan alternatives proceed
    no_more f d eb ei = rw (eb, ei) refl

    outer-unfinished : (f : ℕ) (d : Bool) → tailrec o f d outer here ≡ unfinished
    outer-unfinished zero d = unfold tailrec in refl
    outer-unfinished (suc zero) d = unfold tailrec try_rest in refl
    outer-unfinished (suc (suc zero)) d =
        no_more 1 d (behind-fails 0)
          (unfold tailrec try_rest run_piece scan alternatives proceed in refl)
    outer-unfinished (suc (suc (suc zero))) d =
        no_more 2 d (behind-fails 1)
          (unfold tailrec try_rest run_piece scan alternatives proceed in refl)
    outer-unfinished (suc (suc (suc (suc f)))) d =
        once_more (suc (suc (suc f))) d (behind-fails (suc (suc f))) (inner-takes_nothing f)
        ∙ outer-unfinished (suc (suc (suc f))) true

    -- The first place, where a leading dot may be special.
    module _ (fist : Bool) (no_dot : (fist && c == b'.') ≡ false) where
      abbrev start : Place
      start = place (c ∷ t) fist

      scan-start : scan o 0 (b'b' ∷ []) start ≡ fails here
      unfolding scan
      scan-start = rw (no_dot, other, scan) refl

      behind-fails_first : (f : ℕ) → tailrec o (suc f) false behind start ≡ ran (false, here)
      unfolding tailrec try_rest
      behind-fails_first f =
          run-fails o refl (tailrec o f) (b'b' ∷ []) last_stat null start here scan-start

      -- The first round ends as one that does not begin with a special dot.
      first_round : (f : ℕ) → tailrec o f false outer start ≡ tailrec o f false outer here
      first_round zero = unfold tailrec in refl
      first_round (suc zero) = unfold tailrec try_rest in rw no_dot refl
      first_round (suc (suc f)) =
          unfold tailrec try_rest in rw (no_dot, behind-fails_first f, behind-fails f) refl

      loops-unfinished : (f : ℕ) → tailrec o f false loops start ≡ unfinished
      loops-unfinished zero = unfold tailrec in refl
      loops-unfinished (suc f) =
          unfold tailrec try_rest run_piece scan alternatives proceed in
          first_round f ∙ outer-unfinished f false

      -- With EXTENDEDGLOB set and no error before, `parsereg` compiles `(a#)#b`, and on every
      -- string that begins with a byte that is not `b`, nor `b` in the other case where case is
      -- ignored, nor `Nularg`, nor, where leading dots are special, a dot, `domatch` does not
      -- return, whatever its fuel.
      pub domatch-closure_of_closure :
          (c == nularg) ≡ false
          → (parsereg o 10 closure_of_closure ≡ parsed loops [])
            × ((fuel : ℕ) → domatch o fuel (c ∷ t) loops fist ≡ unfinished)
      unfolding domatch doesmatch
      domatch-closure_of_closure h = (
        compiles,
        λ fuel. rw h (ap (λ (r : Answer). and_then r λ (b, l). ran b) (loops-unfinished fuel)),
      )
