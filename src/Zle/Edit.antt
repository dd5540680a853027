-- ===== src/Zle/Edit.antt =====
-- Typing, deleting and transposing: `selfinsert`, `deletechar`, `backwarddeletechar`,
-- `gosmacstransposechars` and `transposechars` of Src/zle_misc.c.
pub mod Typing
use winzsh.Prelude.{
  ℕ, zero, suc, ◌+◌, ◌-◌, Bool, true, false, not, Option, none, some, ltb, leb, ◌==◌, ◌&&◌, ◌||◌,
  if◌then◌else◌,
}
use winzsh.Prelude.Int.{ℤ, pos, negsuc}
use winzsh.Prelude.Lists.{update, write, replicate}
use winzsh.Zle.Text.{Text, newline, sizeline, spaceinline, backdel}
use winzsh.Zle.Move.{Result, moved, feep, at}

-- What the completion code leaves for `selfinsert`; `autoparamkeys` is the option AUTOPARAMKEYS.
pub record Suffix : Type 0 where
  pub complexpect : ℕ
  pub autoparamkeys : Bool
  pub menucmp : Bool
  pub addedsuffix : ℕ

-- `line[i + ct] = line[i]` of `spaceinline` for a `ct` of `-k`, downwards from `i = ll - 1`.
unfoldable pub move_back : ℕ → ℕ → ℕ → (ℕ → ℕ) → ℕ → ℕ
move_back zero cs k m = m
move_back (suc n) cs k m = move_back n cs k (update m (cs + n - k) (m (cs + n)))

-- The text that `spaceinline(-k)` leaves.
unfoldable pub shrunk : ℕ → Text → Text
shrunk k s =
    let t = sizeline (s.ll - k) s in
    record t {
      line = update (move_back (t.ll - t.cs) t.cs k t.line) (t.ll - k) 0;
      ll = t.ll - k;
      mark = if ltb t.cs t.mark then t.mark - k else t.mark;
    }

-- `spaceinline(-k)`; `none` where it would write before the buffer, with `cs` before `ll`.
unfoldable pub spaceinline_neg : ℕ → Text → Option Text
spaceinline_neg k t = if ltb t.cs k then none else some (shrunk k t)

-- The end of `selfinsert`, with a `zmult` of `m` that is no longer negative.
unfoldable pub type_bytes : ℕ → Bool → ℕ → Text → Option Text
type_bytes c insmode m t =
    let put : Text → Text = λ u. record u { line = write u.line u.cs (replicate m c) } in
    if insmode || t.ll == t.cs
    then some (put (spaceinline m t))
    else if ltb t.ll (m + t.cs)
    then elim (spaceinline_neg (m + t.cs - t.ll) t) [ none ↦ none | some u ↦ some (put u) ]
    else some (put t)

unfoldable pub type_char : ℕ → Bool → ℤ → Text → Option Text
type_char c insmode (pos n) t = elim (type_bytes c insmode n t) [
  | none ↦ none
  | some u ↦ some (at u (t.cs + n))
]
type_char c insmode (negsuc n) t = elim (type_bytes c insmode (suc n) t) [
  | none ↦ none
  | some u ↦ some (at u t.cs)
]

-- `do { line[cs-i] = line[cs-i-1]; } while (++i < addedsuffix);` with `n` rounds left, from `x`
-- down.
unfoldable pub shift_suffix : ℕ → ℕ → (ℕ → ℕ) → ℕ → ℕ
shift_suffix zero x m = m
shift_suffix (suc n) x m = shift_suffix n (x - 1) (update m x (m (x - 1)))

-- A closing brace goes before the suffix that completion has added.
unfoldable pub close_brace : ℕ → ℕ → Text → Option Text
close_brace c addedsuffix s =
    let t = spaceinline 1 s in
    let n = if addedsuffix == 0 then 1 else addedsuffix in
    if ltb t.cs n
    then none
    else some (record t { line = update (shift_suffix n t.cs t.line) (t.cs - n) c; cs = t.cs + 1 })

-- `none`: a byte before the buffer is read or written.
unfoldable pub over_suffix : ℕ → ℕ → Text → Option Text
over_suffix c addedsuffix t =
    elim (if ltb 1 addedsuffix then backdel (addedsuffix - 1) t else some t) [
      | none ↦ none
      | some u ↦ if u.cs == 0 then none else some (record u { line = update u.line (u.cs - 1) c })
    ]

-- The bytes `:` and `[`, and behind `${` also `#`, `%`, `-`, `?`, `+` and `=`.
abbrev pub after_parameter : ℕ → ℕ → Bool
after_parameter complexpect c =
    c == 58
    || c == 91
    || complexpect == 2 && (c == 35 || c == 37 || c == 45 || c == 63 || c == 43 || c == 61)

unfoldable pub selfinsert : Suffix → ℕ → Bool → ℤ → Text → Option Text
selfinsert x c insmode zmult t =
    let over = not x.menucmp || t.line (t.cs - 1) == 47 || not (x.addedsuffix == 0) in
    if not (x.complexpect == 0) && x.autoparamkeys
    then (if x.complexpect == 2 && c == 125
        then (if x.menucmp && t.cs == 0
            then none
            else if over
            then close_brace c x.addedsuffix t
            else type_char c insmode zmult t)
        else if after_parameter x.complexpect c
        then (if t.cs == 0
            then none
            else if over
            then over_suffix c x.addedsuffix t
            else type_char c insmode zmult t)
        else type_char c insmode zmult t)
    else type_char c insmode zmult t

abbrev result : Option Text → Option Result
result u = elim u [ none ↦ none | some t ↦ some (moved t) ]

unfoldable pub delete_forward : ℕ → Text → Option Result
delete_forward n t =
    if leb (t.cs + n) t.ll then result (backdel n (at t (t.cs + n))) else some (feep t)

unfoldable pub delete_backward : ℕ → Text → Option Result
delete_backward n t = result (backdel (if ltb t.cs n then t.cs else n) t)

unfoldable pub deletechar : ℤ → Text → Option Result
deletechar (pos n) t = delete_forward n t
deletechar (negsuc n) t = delete_backward (suc n) t

unfoldable pub backwarddeletechar : ℤ → Text → Option Result
backwarddeletechar (pos n) t = delete_backward n t
backwarddeletechar (negsuc n) t = delete_forward (suc n) t

-- The bytes at `i` and behind it change places.
abbrev pub swap : (ℕ → ℕ) → ℕ → ℕ → ℕ
swap m i = update (update m i (m (i + 1))) (i + 1) (m i)

abbrev pub bol : Text → ℕ → Bool
bol t c = c == 0 || t.line (c - 1) == newline

abbrev pub eol : Text → ℕ → Bool
eol t c = c == t.ll || t.line c == newline

unfoldable pub gosmacstransposechars : Text → Result
gosmacstransposechars t =
    let swapped : ℕ → Result = λ c. moved (record t { line = swap t.line (c - 2); cs = c }) in
    if ltb t.cs 2 || t.line (t.cs - 1) == newline || t.line (t.cs - 2) == newline
    then (if eol t t.cs || eol t (t.cs + 1) && bol t t.cs
        then feep t
        else swapped (t.cs + (if bol t t.cs then 2 else 1)))
    else swapped t.cs

-- A round of `transposechars`: the new cursor, and `ct` behind its last change.
unfoldable pub transpose_at : Bool → Text → ℕ × ℕ
transpose_at neg t =
    let s = bol t t.cs in
    let c = if s && not neg then t.cs + 1 else t.cs in
    let ct = if s then t.cs + 1 else t.cs in
    let back = not (bol t c) in
    let ct' = if neg && back && ltb 1 ct && not (t.line (ct - 2) == newline) then ct - 1 else ct in
    (
      if neg then (if back then c - 1 else c) else if eol t c then c else c + 1,
      if eol t ct' then ct' - 1 else ct',
    )

unfoldable pub transpose_loop : Bool → ℕ → Text → Result
transpose_loop neg zero t = moved t
transpose_loop neg (suc n) t =
    let p = transpose_at neg t in
    let rest = transpose_loop neg n (record t { line = swap t.line (p.1 - 1); cs = p.0 }) in
    if bol t t.cs && eol t t.cs then feep t else if bol t p.1 then feep (at t p.0) else rest

unfoldable pub transposechars : ℤ → Text → Result
transposechars (pos n) t = transpose_loop false n t
transposechars (negsuc n) t = transpose_loop true (suc n) t
