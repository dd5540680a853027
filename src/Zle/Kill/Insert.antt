-- ===== src/Zle/Kill/Insert.antt =====
-- `insert_bytes`: what it does to the line, and that a kill of the bytes takes them out again.
use winzsh.Prelude.{ℕ, ◌+◌, ◌-◌, ◌≤◌, ◌<◌, ◌≡◌, ◌∙◌, refl, ap, List, ◌++◌, arith, zero-add}
use winzsh.Prelude.Lists.{
  slice, length, slice_congr, slice-append, write_below, write_above, slice-write,
}
use winzsh.Zle.Text.{Text, contents, spaceinline}
use winzsh.Zle.Text.Space.{line-spaceinline}
use winzsh.Zle.Kill.{insert_bytes}

module _ (bytes : List ℕ) (t : Text) (inside : t.cs ≤ t.ll) where
  pub ll-insert_bytes : (insert_bytes bytes t).ll ≡ t.cs + (length bytes + (t.ll - t.cs))
  ll-insert_bytes = unfold insert_bytes in omega arith

  pub cs-insert_bytes : (insert_bytes bytes t).cs ≡ t.cs + length bytes
  cs-insert_bytes = unfold insert_bytes in refl

  before : (k : ℕ) → k < t.cs → (insert_bytes bytes t).line k ≡ t.line k
  before k h = first ∙ second
    where
      first : (insert_bytes bytes t).line k ≡ (spaceinline (length bytes) t).line k
      first = unfold insert_bytes in write_below _ t.cs bytes k h

      second : (spaceinline (length bytes) t).line k ≡ t.line k
      second = ground (arith, line-spaceinline (length bytes) t inside k)

  after :
      (k : ℕ)
      → k < t.ll - t.cs
      → (insert_bytes bytes t).line (t.cs + length bytes + k) ≡ t.line (t.cs + k)
  after k h = first ∙ second
    where
      i : ℕ
      i = t.cs + length bytes + k

      first : (insert_bytes bytes t).line i ≡ (spaceinline (length bytes) t).line i
      first = unfold insert_bytes in write_above _ t.cs bytes i (omega arith)

      same : t.line (i - length bytes) ≡ t.line (t.cs + k)
      same = let e : i - length bytes ≡ t.cs + k = omega arith in ap t.line e

      second : (spaceinline (length bytes) t).line i ≡ t.line (t.cs + k)
      second = ground (arith, line-spaceinline (length bytes) t inside i, same)

  pub slice-insert_bytes_below : slice (insert_bytes bytes t).line 0 t.cs ≡ slice t.line 0 t.cs
  slice-insert_bytes_below =
      slice_congr (insert_bytes bytes t).line t.line 0 0 t.cs (λ k h. rw zero-add (before k h))

  pub slice-insert_bytes_above :
      slice (insert_bytes bytes t).line (t.cs + length bytes) (t.ll - t.cs)
      ≡ slice t.line t.cs (t.ll - t.cs)
  slice-insert_bytes_above =
      slice_congr (insert_bytes bytes t).line t.line (t.cs + length bytes) t.cs (t.ll - t.cs) after

  -- The bytes stand at the old cursor, between what was before it and what was behind.
  pub contents-insert_bytes :
      contents (insert_bytes bytes t)
      ≡ slice t.line 0 t.cs ++ (bytes ++ slice t.line t.cs (t.ll - t.cs))
  contents-insert_bytes =
      let m = (insert_bytes bytes t).line in
      let mid : slice m t.cs (length bytes) ≡ bytes =
        unfold insert_bytes in slice-write _ t.cs bytes in
      rw (
        ll-insert_bytes,
        slice-append,
        slice-insert_bytes_below,
        zero-add,
        slice-append m t.cs (length bytes) (t.ll - t.cs),
        mid,
        slice-insert_bytes_above,
      )
