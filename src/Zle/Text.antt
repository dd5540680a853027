-- ===== src/Zle/Text.antt =====
-- The edit buffer of Src/zle_utils.c: the globals `line`, `linesz`, `ll`, `cs` and `mark`, and the
-- functions that move bytes in it. `line` is memory, a function from offsets to bytes; a function
-- of the source that writes in a loop writes here in the same order.
pub mod Space
use winzsh.Prelude.{
  ℕ, zero, suc, ◌+◌, ◌-◌, ◌*◌, List, Bool, true, false, Option, none, some, ltb, leb, ◌==◌, not,
  ◌&&◌, if◌then◌else◌,
}
use winzsh.Prelude.Lists.{update, slice}
use winzsh.Zle.Scan.{skip_up, skip_down}

pub record Text : Type 0 where
  pub line : ℕ → ℕ
  pub linesz : ℕ
  pub ll : ℕ
  pub cs : ℕ
  pub mark : ℕ

-- The bytes of the edited line.
abbrev pub contents : Text → List ℕ
contents t = slice t.line 0 t.ll

abbrev pub newline : ℕ
newline = b'\n'

-- `while (sz > linesz) linesz *= 4`; `fuel` bounds the rounds.
grow : ℕ → ℕ → ℕ → ℕ
grow zero sz linesz = linesz
grow (suc fuel) sz linesz = elim (ltb linesz sz) [
  | true ↦ grow fuel sz (linesz * 4)
  | false ↦ linesz
]

-- `realloc` keeps the bytes, so `line` does not change.
unfoldable pub sizeline : ℕ → Text → Text
unfolding grow
sizeline sz t = record t { linesz = grow sz sz t.linesz }

-- `for (i = ll; --i >= cs;) line[i + ct] = line[i];`, with `n` rounds left, `i = cs + n`.
move_up : ℕ → ℕ → ℕ → (ℕ → ℕ) → ℕ → ℕ
move_up zero cs ct m = m
move_up (suc n) cs ct m = move_up n cs ct (update m (cs + n + ct) (m (cs + n)))

unfoldable pub spaceinline : ℕ → Text → Text
unfolding sizeline move_up
spaceinline ct s =
    let t = sizeline (ct + s.ll) s in
    record t {
      line = update (move_up (t.ll - t.cs) t.cs ct t.line) (t.ll + ct) 0;
      ll = t.ll + ct;
      mark = if ltb t.cs t.mark then t.mark + ct else t.mark;
    }

-- `while (to + cnt < ll) { line[to] = line[to + cnt]; to++; }`, with `n` rounds left.
move_down : ℕ → ℕ → ℕ → (ℕ → ℕ) → ℕ → ℕ
move_down zero to cnt m = m
move_down (suc n) to cnt m = move_down n (to + 1) cnt (update m to (m (to + cnt)))

-- `to` ends as `to + (ll - (to + cnt))`, which is `to` itself if no round was made.
unfoldable pub shiftchars : ℕ → ℕ → Text → Text
unfolding move_down
shiftchars to cnt t =
    let rounds = t.ll - (to + cnt) in
    record t {
      line = update (move_down rounds to cnt t.line) (to + rounds) 0;
      ll = to + rounds;
      mark = if leb (to + cnt) t.mark then t.mark - cnt else if ltb to t.mark then to else t.mark;
    }

unfoldable pub foredel : ℕ → Text → Text
foredel ct t = shiftchars t.cs ct t

-- `none` stands for a negative `cs`, with which the source would write before the buffer.
unfoldable pub backdel : ℕ → Text → Option Text
backdel ct t =
    if ltb t.cs ct then none else some (shiftchars (t.cs - ct) ct (record t { cs = t.cs - ct }))

unfoldable pub findbol : Text → ℕ
findbol t = skip_down (λ j. not (t.line j == newline)) t.cs

unfoldable pub findeol : Text → ℕ
findeol t = skip_up (λ j. not (t.line j == newline)) t.ll t.cs

unfoldable pub findline : Text → ℕ × ℕ
unfolding findbol findeol
findline t = (findbol t, findeol t)
