-- ===== src/Pattern/Match.antt =====
-- `domatch`, `excluded` and `doesmatch` of Src/glob.c, but for the loop over the bytes of a piece.
use winzsh.Prelude.{
  ℕ, zero, suc, [], ◌∷◌, ◌++◌, Bool, true, false, not, ◌==◌, ◌&&◌, ◌||◌, if◌then◌else◌,
}
use winzsh.Prelude.Runs.{Run, ran, stuck, unfinished, and_then}
use winzsh.Prelude.Strings.{Str}
use winzsh.Pattern.{nularg, Comp, null, comp, Stat, is_null, closurep, Options, Place, place}
use winzsh.Pattern.Scan.{is_end, dot_ahead, fails, passes, succeeds, negates, goes_astray, scan}

-- What `doesmatch` returns, and the globals after it.
abbrev pub Answer : Type 0
Answer = Run (Bool × Place)

-- `doesmatch` from the label `tailrec` on, with `done`.
abbrev pub Tailrec : Type 0
Tailrec = Bool → Comp → Place → Answer

module _ (o : Options) where
  -- From `if (*pptr && CLOSUREP(c))` on.
  unfoldable pub proceed : Tailrec → Comp → Place → Answer
  proceed again null l = stuck
  proceed again (comp left right next exclude str t) l =
      if not (is_end l.pptr) && closurep t
      then again true (comp left right next exclude str t) l
      else if is_null next
      then ran (not t.last || is_end l.pptr, l)
      else again false next l

  -- `excluded`: the globals are put back.
  unfoldable pub excluded : Tailrec → Comp → Stat → Str → Run Bool
  excluded again exclude t eptr =
      and_then (again false exclude (place (if t.pathadd then o.pathbuf ++ eptr else eptr) false))
        λ (b, l). ran b

  -- `if (c->right) ... else return 0;`, `saved` being the place before the alternatives.
  unfoldable pub other_alternative : Tailrec → Comp → Comp → (saved l : Place) → Answer
  other_alternative again right c saved l =
      if is_null right
      then ran (false, l)
      else and_then (again false right saved)
          λ (b, l'). if b then proceed again c l' else ran (false, l')

  -- The alternatives and exclusions, at the end of `c->str`. The first call is of `c->left`, null
  -- or not.
  unfoldable pub alternatives : Tailrec → Comp → Place → Answer
  alternatives again null l = stuck
  alternatives again (comp left right next exclude str t) l =
      let c = comp left right next exclude str t in
      let first_one = and_then (again false left l) λ (b, l').
        if b
        then (if is_null exclude
            then proceed again c l'
            else and_then (excluded again exclude t l.pptr)
                λ x. if x then other_alternative again right c l l' else proceed again c l')
        else other_alternative again right c l l' in
      if o.errflag
      then ran (false, l)
      else if is_null left && is_null right
      then proceed again c l
      else first_one

  -- The `for` loop, and what follows where it ends.
  unfoldable pub run_piece : Tailrec → Comp → Place → Answer
  run_piece again null l = stuck
  run_piece again (comp left right next exclude str t) l = elim (scan o 0 str l) [
    | fails l' ↦ ran (false, l')
    | succeeds l' ↦ ran (true, l')
    | negates l' ↦ and_then (again false next l') λ (b, l''). ran (not b, l'')
    | goes_astray ↦ stuck
    | passes l' ↦ alternatives again (comp left right next exclude str t) l'
  ]

  -- At `tailrec`: of a closure the rest of the pattern comes first, then one more time the piece.
  unfoldable pub try_rest : Tailrec → Bool → Comp → Place → Answer
  try_rest again done null l = stuck
  try_rest again done (comp left right next exclude str t) l =
      let c = comp left right next exclude str t in
      let rest =
        and_then (again false next l)
          λ (b, l'). if b then ran (true, l') else run_piece again c (place l.pptr false) in
      if t.onehash || done && t.twohash
      then (if dot_ahead l then ran (false, l) else rest)
      else run_piece again c l

  -- A null pointer is not followed. The fuel bounds the depth of the calls and jumps.
  unfoldable pub tailrec : ℕ → Tailrec
  tailrec zero done c l = unfinished
  tailrec (suc fuel) done c l = try_rest (tailrec fuel) done c l

  unfoldable pub doesmatch : ℕ → Comp → Place → Answer
  doesmatch fuel c l = tailrec fuel false c l

  abbrev pub skip_nularg : Str → Str
  skip_nularg [] = []
  skip_nularg (c ∷ s) = if c == nularg then s else c ∷ s

  unfoldable pub domatch : ℕ → Str → Comp → Bool → Run Bool
  domatch fuel str c fist =
      and_then (doesmatch fuel c (place (skip_nularg str) fist)) λ (b, l). ran b
