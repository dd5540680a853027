-- ===== src/Zle/Bracket.antt =====
-- `vimatchbracket` of Src/zle_move.c.
pub mod Match
use winzsh.Prelude.{
  ℕ, zero, suc, ◌+◌, ◌-◌, Bool, true, false, Option, none, some, ltb, ◌==◌, ◌&&◌, not,
  if◌then◌else◌,
}
use winzsh.Prelude.Int.{ℤ, pos, negsuc}
use winzsh.Zle.Text.{Text, newline}
use winzsh.Zle.Move.{Result, moved, feep, at}

-- The `switch`: the other bracket, and whether `dir` is 1.
pub record Bracket : Type 0 where
  pub oth : ℕ
  pub up : Bool

unfoldable pub bracket : ℕ → Option Bracket
bracket me =
    if me == b'{'
    then some (record { oth = b'}'; up = true })
    else if me == b'}'
    then some (record { oth = b'{'; up = false })
    else if me == b'('
    then some (record { oth = b')'; up = true })
    else if me == b')'
    then some (record { oth = b'('; up = false })
    else if me == b'['
    then some (record { oth = b']'; up = true })
    else if me == b']'
    then some (record { oth = b'['; up = false })
    else none

-- From `otog` on: the first bracket at or behind `c`, before the end of the line.
unfoldable pub find_bracket : Text → ℕ → ℕ → Option (ℕ × Bracket)
find_bracket t zero c = none
find_bracket t (suc n) c =
    let rest = find_bracket t n (c + 1) in
    if t.line c == newline
    then none
    else elim (bracket (t.line c)) [ some b ↦ some (c, b) | none ↦ rest ]

-- The count after the byte `x`.
abbrev pub count_by : ℕ → ℕ → ℕ → ℕ → ℕ
count_by oth me x ct = if x == oth then ct - 1 else if x == me then ct + 1 else ct

-- `while (cs >= 0 && cs < ll && ct)`, upwards: `n` rounds are left before `cs` is `ll`.
unfoldable pub match_up : (ℕ → ℕ) → ℕ → ℕ → ℕ → ℕ → ℕ → Option ℕ
match_up m oth me zero c ct = none
match_up m oth me (suc n) c ct =
    let rest = match_up m oth me n (c + 1) (count_by oth me (m (c + 1)) ct) in
    if ct == 0 then some c else rest

-- The same, downwards. The byte before the buffer, which the source reads when `cs` is -1, has no
-- effect: the loop ends there, and the command fails.
unfoldable pub match_down : (ℕ → ℕ) → ℕ → ℕ → ℕ → ℕ → Option ℕ
match_down m oth me zero ct = if ct == 0 then some 0 else none
match_down m oth me (suc c) ct =
    let rest = match_down m oth me c (count_by oth me (m c) ct) in
    if ct == 0 then some (suc c) else rest

abbrev pub negate : ℤ → ℤ
negate (pos zero) = pos zero
negate (pos (suc n)) = negsuc n
negate (negsuc n) = pos (suc n)

abbrev pub is_zero : ℤ → Bool
is_zero (pos zero) = true
is_zero _ = false

-- The target of the bracket `b` at `c`.
unfoldable pub matching : Text → ℕ → Bracket → Option ℕ
matching t c b =
    if b.up
    then match_up t.line b.oth (t.line c) (t.ll - c) c 1
    else match_down t.line b.oth (t.line c) c 1

unfoldable pub finish : Text → ℤ → Bracket → Option ℕ → Result
finish t flag b none = feep t
finish t flag b (some r) = moved (at t (if b.up && not (is_zero flag) then r + 1 else r))

-- The result, and `virangeflag`, which a closing bracket negates.
unfoldable pub vimatchbracket : ℤ → Text → Result × ℤ
vimatchbracket flag t = elim (find_bracket t (t.ll - t.cs) t.cs) [
  | none ↦ (feep t, flag)
  | some (c, b) ↦
      let flag' = if b.up then flag else negate flag in (finish t flag' b (matching t c b), flag')
]
