-- ===== src/Zle/Move/Laws.antt =====
-- The cursor commands keep the cursor in the line.
use winzsh.Prelude.{
  ℕ, zero, suc, ◌+◌, ◌-◌, ◌≤◌, Bool, ltb, leb, ◌==◌, if◌then◌else◌, Bool-cases, inl, inr, arith,
}
use winzsh.Prelude.Int.{ℤ, pos, negsuc}
use winzsh.Zle.Scan.{skip_down, skip_up-le, skip_down-le, le-skip_up}
use winzsh.Zle.Text.{Text, newline, findbol, findeol}
use winzsh.Zle.Move.{
  at, not_newline, bol_loop, eol_loop, clamp, forward_loop, backward_loop, forwardchar_by,
  backwardchar_by, endofline_loop, beginningofline, endofline, forwardchar, backwardchar,
  exchangepointandmark, vigotocolumn, viforwardchar, vibackwardchar, viendofline, vibeginningofline,
  vifirstnonblank,
}

-- The cursor is in the line, or at its end.
abbrev pub InLine : Text → Type 0
InLine t = t.cs ≤ t.ll

module _ (t : Text) where
  findbol-le : findbol t ≤ t.cs
  findbol-le = unfold findbol in skip_down-le (not_newline t) t.cs

  findeol-le : InLine t → findeol t ≤ t.ll
  findeol-le h = unfold findeol in skip_up-le (not_newline t) t.ll t.cs h

  le-findeol : t.cs ≤ findeol t
  le-findeol = unfold findeol in le-skip_up (not_newline t) t.ll t.cs

  bol_loop-le : (n c : ℕ) → bol_loop t n c ≤ c
  unfolding bol_loop
  bol_loop-le zero c = omega arith
  bol_loop-le (suc n) zero = omega arith
  bol_loop-le (suc n) (suc c) =
      let c' = if t.line c == newline then c else suc c in
      let a = skip_down-le (not_newline t) c' in
      ground (arith, a, bol_loop-le n (skip_down (not_newline t) c'))

  eol_loop-le : (n c : ℕ) → c ≤ t.ll → eol_loop t n c ≤ t.ll
  unfolding eol_loop
  eol_loop-le zero c h = h
  eol_loop-le (suc n) c h = elim (Bool-cases (leb t.ll c)) [
    | inl e ↦ rw (e, eol_loop) (omega arith)
    | inr f ↦
        let c' = if t.line c == newline then c + 1 else c in
        let a : c' ≤ t.ll = ground (arith, f) in
        ground (arith, a, eol_loop-le n _ (skip_up-le (not_newline t) t.ll c' a))
  ]

  forward_loop-le : (n lim c : ℕ) → c ≤ lim → forward_loop n lim c ≤ lim
  unfolding forward_loop
  forward_loop-le zero lim c h = h
  forward_loop-le (suc n) lim c h =
      forward_loop-le n lim (if ltb c lim then c + 1 else c) (ground (arith, h))

  backward_loop-le : (n c : ℕ) → backward_loop t n c ≤ c
  unfolding backward_loop
  backward_loop-le zero c = omega arith
  backward_loop-le (suc n) zero = omega arith
  backward_loop-le (suc n) (suc c) = ground (arith, backward_loop-le n c)

  forwardchar_by-InLine : (vicmd : Bool) (n : ℕ) → InLine t → InLine (forwardchar_by vicmd n t).text
  unfolding forwardchar_by
  forwardchar_by-InLine vicmd n h =
      let lim = findeol t - (if vicmd then 1 else 0) in
      let short : lim ≤ t.ll = ground (arith, findeol-le h) in
      elim (Bool-cases (leb lim t.cs)) [
        | inl e ↦ rw (e, forwardchar_by) h
        | inr f ↦
            rw (f, forwardchar_by)
              (omega (arith, short, forward_loop-le n lim t.cs (ground (arith, f))))
      ]

  backwardchar_by-InLine : (n : ℕ) → InLine t → InLine (backwardchar_by n t).text
  unfolding backwardchar_by
  backwardchar_by-InLine n h = ground (arith, h, backward_loop-le n t.cs)

  endofline_loop-InLine : (n c : ℕ) → InLine t → c ≤ t.ll + 1 → InLine (endofline_loop t n c).text
  unfolding endofline_loop
  endofline_loop-InLine zero c h b = omega (arith, b)
  endofline_loop-InLine (suc n) c h b = elim (Bool-cases (ltb t.ll c)) [
    | inl e ↦ rw (e, endofline_loop) h
    | inr f ↦
        let a : findeol (at t c) ≤ t.ll =
          unfold findeol in skip_up-le (not_newline t) t.ll c (ground (arith, f)) in
        rw (f, endofline_loop) (endofline_loop-InLine n (findeol (at t c) + 1) h (omega (arith, a)))
  ]

  viendofline-InLine : (zmult : ℤ) → InLine t → InLine (viendofline zmult t).text
  unfolding viendofline
  viendofline-InLine (pos zero) h = h
  viendofline-InLine (pos (suc n)) h = endofline_loop-InLine (suc n) t.cs h (omega (arith, h))
  viendofline-InLine (negsuc n) h = h

  vigotocolumn-InLine : (zmult : ℤ) → InLine t → InLine (vigotocolumn zmult t)
  unfolding vigotocolumn clamp
  vigotocolumn-InLine (pos n) h = ground (arith, h, findbol-le, le-findeol, findeol-le h)
  vigotocolumn-InLine (negsuc n) h = ground (arith, h, findbol-le, le-findeol, findeol-le h)

-- Every cursor command on one line, whatever its argument, leaves a cursor in the line in the
-- line, also where it beeps.
pub commands-InLine :
    (blank : ℕ → Bool) (vicmd : Bool) (zmult : ℤ) (t : Text)
    → InLine t
    → InLine (beginningofline zmult t)
      × InLine (endofline zmult t)
      × InLine (forwardchar zmult t)
      × InLine (backwardchar zmult t)
      × InLine (exchangepointandmark t)
      × InLine (vigotocolumn zmult t)
      × InLine (viforwardchar vicmd zmult t).text
      × InLine (vibackwardchar vicmd zmult t).text
      × InLine (viendofline zmult t).text
      × InLine (vibeginningofline t)
      × InLine (vifirstnonblank blank t)
unfolding beginningofline endofline forwardchar backwardchar exchangepointandmark viforwardchar
    vibackwardchar vibeginningofline vifirstnonblank
commands-InLine blank vicmd (pos n) t h = (
  omega (arith, bol_loop-le t n t.cs),
  eol_loop-le t n t.cs h,
  ground arith,
  ground (arith, h),
  ground arith,
  vigotocolumn-InLine t (pos n) h,
  forwardchar_by-InLine t vicmd n h,
  backwardchar_by-InLine t n h,
  viendofline-InLine t (pos n) h,
  omega (arith, findbol-le t),
  skip_up-le (λ j. blank (t.line j)) t.ll (findbol t) (omega (arith, findbol-le t)),
)
commands-InLine blank vicmd (negsuc n) t h = (
  eol_loop-le t (suc n) t.cs h,
  omega (arith, bol_loop-le t (suc n) t.cs),
  ground (arith, h),
  ground arith,
  ground arith,
  vigotocolumn-InLine t (negsuc n) h,
  backwardchar_by-InLine t (suc n) h,
  forwardchar_by-InLine t vicmd (suc n) h,
  viendofline-InLine t (negsuc n) h,
  omega (arith, findbol-le t),
  skip_up-le (λ j. blank (t.line j)) t.ll (findbol t) (omega (arith, findbol-le t)),
)
