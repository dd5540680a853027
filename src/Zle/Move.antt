-- ===== src/Zle/Move.antt =====
-- The cursor commands of Src/zle_move.c. `zmult`, the numeric argument, is an integer: a command
-- with a negative one calls its opposite with the argument negated. The value that `zmult` is left
-- with is not kept, as the main loop of zle_main.c sets it again before the next command.
pub mod Laws
use winzsh.Prelude.{
  ℕ, zero, suc, ◌+◌, ◌-◌, Bool, true, false, not, ltb, leb, ◌==◌, ◌&&◌, if◌then◌else◌,
}
use winzsh.Prelude.Int.{ℤ, pos, negsuc}
use winzsh.Zle.Scan.{skip_up, skip_down}
use winzsh.Zle.Text.{Text, newline, findbol, findeol}

-- A command's text, and whether it has called `feep`.
pub record Result : Type 0 where
  pub text : Text
  pub beep : Bool

abbrev pub moved : Text → Result
moved t = record { text = t; beep = false }

abbrev pub feep : Text → Result
feep t = record { text = t; beep = true }

abbrev pub at : Text → ℕ → Text
at t c = record t { cs = c }

module _ (t : Text) where
  abbrev pub not_newline : ℕ → Bool
  not_newline j = not (t.line j == newline)

  -- The loop of `beginningofline` over `zmult` rounds, from the cursor on.
  pub bol_loop : ℕ → ℕ → ℕ
  bol_loop zero c = c
  bol_loop (suc n) zero = zero
  bol_loop (suc n) (suc c) =
      let c' = if t.line c == newline then c else suc c in
      let rest = bol_loop n (skip_down not_newline c') in
      if t.line c == newline && c' == 0 then 0 else rest

  pub eol_loop : ℕ → ℕ → ℕ
  eol_loop zero c = c
  eol_loop (suc n) c =
      let c' = if t.line c == newline then c + 1 else c in
      let rest = eol_loop n (skip_up not_newline t.ll c') in
      if leb t.ll c then t.ll else if t.line c == newline && c' == t.ll then c' else rest

unfoldable pub beginningofline : ℤ → Text → Text
unfolding bol_loop eol_loop
beginningofline (pos n) t = at t (bol_loop t n t.cs)
beginningofline (negsuc n) t = at t (eol_loop t (suc n) t.cs)

unfoldable pub endofline : ℤ → Text → Text
unfolding bol_loop eol_loop
endofline (pos n) t = at t (eol_loop t n t.cs)
endofline (negsuc n) t = at t (bol_loop t (suc n) t.cs)

-- The two tests against `ll` and 0; a negative `cs` is written out as a test.
unfoldable pub forwardchar : ℤ → Text → Text
forwardchar (pos n) t = at t (if ltb t.ll (t.cs + n) then t.ll else t.cs + n)
forwardchar (negsuc n) t =
    at t (if ltb t.cs (suc n) then 0 else if ltb t.ll (t.cs - suc n) then t.ll else t.cs - suc n)

unfoldable pub backwardchar : ℤ → Text → Text
backwardchar (pos n) t =
    at t (if ltb t.cs n then 0 else if ltb t.ll (t.cs - n) then t.ll else t.cs - n)
backwardchar (negsuc n) t = at t (if ltb t.ll (t.cs + suc n) then t.ll else t.cs + suc n)

unfoldable pub setmarkcommand : Text → Text
setmarkcommand t = record t { mark = t.cs }

unfoldable pub exchangepointandmark : Text → Text
exchangepointandmark t = record t { mark = t.cs; cs = if ltb t.ll t.mark then t.ll else t.mark }

-- `if (cs > y) cs = y; if (cs < x) cs = x;`
clamp : ℕ → ℕ → ℕ → ℕ
clamp x y c = let c' = if ltb y c then y else c in if ltb c' x then x else c'

unfoldable pub vigotocolumn : ℤ → Text → Text
unfolding clamp
vigotocolumn (pos n) t = at t (clamp (findbol t) (findeol t) (findbol t + (n - 1)))
vigotocolumn (negsuc n) t =
    let x = findbol t in
    let y = findeol t in at t (if ltb y (suc n) then x else clamp x y (y - suc n))

-- `while (zmult-- && cs < lim) cs++`
forward_loop : ℕ → ℕ → ℕ → ℕ
forward_loop zero lim c = c
forward_loop (suc n) lim c = forward_loop n lim (if ltb c lim then c + 1 else c)

-- The loop of `vibackwardchar`; at 0 the decrement is undone.
backward_loop : Text → ℕ → ℕ → ℕ
backward_loop t zero c = c
backward_loop t (suc n) zero = zero
backward_loop t (suc n) (suc c) =
    let rest = backward_loop t n c in if t.line c == newline then suc c else rest

-- `vicmd` is `bindtab == altbindtab`.
forwardchar_by : Bool → ℕ → Text → Result
unfolding forward_loop
forwardchar_by vicmd n t =
    let lim = findeol t - (if vicmd then 1 else 0) in
    if leb lim t.cs then feep t else moved (at t (forward_loop n lim t.cs))

backwardchar_by : ℕ → Text → Result
unfolding backward_loop
backwardchar_by n t = if t.cs == findbol t then feep t else moved (at t (backward_loop t n t.cs))

unfoldable pub viforwardchar : Bool → ℤ → Text → Result
unfolding forwardchar_by backwardchar_by
viforwardchar vicmd (pos n) t = forwardchar_by vicmd n t
viforwardchar vicmd (negsuc n) t = backwardchar_by (suc n) t

unfoldable pub vibackwardchar : Bool → ℤ → Text → Result
unfolding forwardchar_by backwardchar_by
vibackwardchar vicmd (pos n) t = backwardchar_by n t
vibackwardchar vicmd (negsuc n) t = forwardchar_by vicmd (suc n) t

-- The rounds of `viendofline`; `old` is the cursor to go back to.
endofline_loop : Text → ℕ → ℕ → Result
endofline_loop old zero c = moved (at old (c - 1))
endofline_loop old (suc n) c =
    let rest = endofline_loop old n (findeol (at old c) + 1) in
    if ltb old.ll c then feep old else rest

unfoldable pub viendofline : ℤ → Text → Result
unfolding endofline_loop
viendofline (pos zero) t = feep t
viendofline (pos (suc n)) t = endofline_loop t (suc n) t.cs
viendofline (negsuc n) t = feep t

unfoldable pub vibeginningofline : Text → Text
vibeginningofline t = at t (findbol t)

unfoldable pub vifirstnonblank : (ℕ → Bool) → Text → Text
vifirstnonblank iblank t = at t (skip_up (λ j. iblank (t.line j)) t.ll (findbol t))
