-- ===== src/Zle/Edit/Typing.antt =====
-- Typing in insert and in overwrite mode, and deleting what was typed.
use winzsh.Prelude.{ℕ, ◌+◌, ◌-◌, ◌≤◌, ◌≡◌, ◌∙◌, refl, sym, ap, List, ◌++◌, true, some, arith}
use mathlib.Core.Path.{ap₂}
use winzsh.Prelude.Int.{pos}
use winzsh.Prelude.Lists.{slice, length, length-replicate, replicate, slice-append_zero}
use winzsh.Zle.Text.{Text, contents, shiftchars, backdel}
use winzsh.Zle.Text.Space.{contents-shiftchars}
use winzsh.Zle.Move.{moved, at}
use winzsh.Zle.Kill.{insert_bytes}
use winzsh.Zle.Kill.Insert.{
  ll-insert_bytes, cs-insert_bytes, slice-insert_bytes_below, slice-insert_bytes_above,
}
use winzsh.Zle.Edit.{Suffix, type_char, type_bytes, selfinsert, backwarddeletechar, delete_backward}

-- Where no completion is pending, in insert mode, `selfinsert` inserts `n` bytes `c`.
selfinsert_inserts :
    (x : Suffix) (c n : ℕ) (t : Text)
    → x.complexpect ≡ 0
    → selfinsert x c true (pos n) t ≡ some (insert_bytes (replicate n c) t)
unfolding selfinsert type_char type_bytes insert_bytes
selfinsert_inserts x c n t h = rw (h, length-replicate) refl

-- `backwarddeletechar` over bytes that are there.
backwarddeletechar-moved :
    (n : ℕ) (t : Text)
    → n ≤ t.cs
    → backwarddeletechar (pos n) t ≡ some (moved (shiftchars (t.cs - n) n (at t (t.cs - n))))
unfolding backwarddeletechar delete_backward backdel
backwarddeletechar-moved n t h = ground arith

-- Taking the inserted bytes out again leaves what was there.
contents-shiftchars-insert_bytes :
    (bytes : List ℕ) (t : Text)
    → t.cs ≤ t.ll
    → contents (shiftchars t.cs (length bytes) (at (insert_bytes bytes t) t.cs)) ≡ contents t
contents-shiftchars-insert_bytes bytes t inside =
    let u = insert_bytes bytes t in
    let n = length bytes in
    let rest : u.ll - (t.cs + n) ≡ t.ll - t.cs = omega (arith, ll-insert_bytes bytes t inside) in
    let whole : t.cs + (t.ll - t.cs) ≡ t.ll = omega arith in
    contents-shiftchars t.cs n (at u t.cs) (omega (arith, ll-insert_bytes bytes t inside))
    ∙ ap₂ (λ (x y : List ℕ). x ++ y) (slice-insert_bytes_below bytes t inside)
        (ap (slice u.line (t.cs + n)) rest ∙ slice-insert_bytes_above bytes t inside)
    ∙ sym (slice-append_zero t.line t.cs (t.ll - t.cs))
    ∙ ap (slice t.line 0) whole

-- With no completion pending and the cursor in the line, `selfinsert` of n bytes in insert mode
-- and `backwarddeletechar` of n bytes both succeed and leave the contents and the cursor as they
-- were.
pub backwarddeletechar-selfinsert :
    (x : Suffix) (c n : ℕ) (t : Text)
    → x.complexpect ≡ 0
    → t.cs ≤ t.ll
    → (u : Text) × (r : Text) × (selfinsert x c true (pos n) t ≡ some u)
      × (backwarddeletechar (pos n) u ≡ some (moved r))
      × (contents r ≡ contents t)
      × (r.cs ≡ t.cs)
backwarddeletechar-selfinsert x c n t h inside = (
  u,
  r,
  selfinsert_inserts x c n t h,
  backwarddeletechar-moved n u (omega (arith, cursor))
      ∙ ap (λ i. some (moved (shiftchars i n (at u i)))) back,
  ap (λ i. contents (shiftchars t.cs i (at u t.cs))) (sym (length-replicate n c))
      ∙ contents-shiftchars-insert_bytes (replicate n c) t inside,
  unfold shiftchars in refl,
)
  where
    u : Text
    u = insert_bytes (replicate n c) t

    r : Text
    r = shiftchars t.cs n (at u t.cs)

    cursor : u.cs ≡ t.cs + n
    cursor = cs-insert_bytes (replicate n c) t inside ∙ ap (λ i. t.cs + i) (length-replicate n c)

    back : u.cs - n ≡ t.cs
    back = omega (arith, cursor)
