-- ===== src/Zle/Text/Space.antt =====
-- What the loops of `spaceinline` and `shiftchars` do to memory, and that one undoes the other.
use winzsh.Prelude.{
  ℕ, zero, suc, ◌+◌, ◌-◌, ◌*◌, ◌≤◌, ◌<◌, ◌≡◌, refl, ap, arith, zero-add, ltb, leb, ◌==◌,
  if◌then◌else◌, ◌&&◌, ◌++◌,
}
use winzsh.Prelude.Lists.{update, slice, slice_congr, slice-append}
use winzsh.Zle.Text.{
  Text, contents, grow, sizeline, move_up, spaceinline, move_down, shiftchars, foredel,
}

grow-le : (fuel sz linesz : ℕ) → linesz ≤ grow fuel sz linesz
unfolding grow
grow-le zero sz linesz = omega arith
grow-le (suc fuel) sz linesz = ground (arith, grow-le fuel sz (linesz * 4))

grow_enough : (fuel sz linesz : ℕ) → 0 < linesz → sz ≤ linesz + fuel → sz ≤ grow fuel sz linesz
unfolding grow
grow_enough zero sz linesz h k = omega arith
grow_enough (suc fuel) sz linesz h k = ground (arith, grow_enough fuel sz (linesz * 4))

-- `sizeline` makes a buffer that is not empty large enough, and never smaller.
sizeline-fits :
    (sz : ℕ) (t : Text)
    → 0 < t.linesz
    → (sz ≤ (sizeline sz t).linesz) × (t.linesz ≤ (sizeline sz t).linesz)
unfolding sizeline
sizeline-fits sz t h = (grow_enough sz sz t.linesz h (omega arith), grow-le sz sz t.linesz)

move_up_lem :
    (n cs ct : ℕ) (m : ℕ → ℕ) (j : ℕ)
    → move_up n cs ct m j ≡ (if leb (cs + ct) j && ltb j (cs + ct + n) then m (j - ct) else m j)
unfolding move_up
move_up_lem zero cs ct m j = ground arith
move_up_lem (suc n) cs ct m j =
    ground (arith, move_up_lem n cs ct (update m (cs + n + ct) (m (cs + n))) j)

move_down_lem :
    (n to cnt : ℕ) (m : ℕ → ℕ) (j : ℕ)
    → move_down n to cnt m j ≡ (if leb to j && ltb j (to + n) then m (j + cnt) else m j)
unfolding move_down
move_down_lem zero to cnt m j = ground arith
move_down_lem (suc n) to cnt m j =
    ground (arith, move_down_lem n (to + 1) cnt (update m to (m (to + cnt))) j)

module _ (ct : ℕ) (t : Text) (inside : t.cs ≤ t.ll) where
  -- Each byte of memory after `spaceinline`.
  pub line-spaceinline :
      (j : ℕ)
      → (spaceinline ct t).line j ≡ (
          if j == t.ll + ct
          then 0
          else if leb (t.cs + ct) j && ltb j (t.ll + ct)
          then t.line (j - ct)
          else t.line j)
  unfolding spaceinline
  line-spaceinline j = ground (arith, move_up_lem (t.ll - t.cs) t.cs ct t.line j)

  -- The line is opened at the cursor by `ct` bytes, which hold what was there; the bytes before
  -- the cursor and from it on are kept in order.
  pub contents-spaceinline :
      contents (spaceinline ct t)
      ≡ slice t.line 0 t.cs
        ++ (slice (spaceinline ct t).line t.cs ct ++ slice t.line t.cs (t.ll - t.cs))
  contents-spaceinline =
      let m = (spaceinline ct t).line in
      let e : (spaceinline ct t).ll ≡ t.cs + (ct + (t.ll - t.cs)) =
        unfold spaceinline in omega arith in
      let a : slice m 0 t.cs ≡ slice t.line 0 t.cs =
        slice_congr m t.line 0 0 t.cs (λ k h. ground (arith, line-spaceinline (0 + k))) in
      let b : slice m (t.cs + ct) (t.ll - t.cs) ≡ slice t.line t.cs (t.ll - t.cs) =
        slice_congr m t.line (t.cs + ct) t.cs (t.ll - t.cs)
          (λ k h. ground (arith, line-spaceinline (t.cs + ct + k))) in
      rw (e, slice-append, a, zero-add, slice-append m t.cs ct (t.ll - t.cs), b)

module _ (to cnt : ℕ) (t : Text) (fits : to + cnt ≤ t.ll) where
  -- Each byte of memory after `shiftchars`.
  pub line-shiftchars :
      (j : ℕ)
      → (shiftchars to cnt t).line j ≡ (
          if j == t.ll - cnt
          then 0
          else if leb to j && ltb j (t.ll - cnt)
          then t.line (j + cnt)
          else t.line j)
  unfolding shiftchars
  line-shiftchars j = ground (arith, move_down_lem (t.ll - (to + cnt)) to cnt t.line j)

  -- The `cnt` bytes at `to` are cut out of the line, and the bytes around them are kept in order.
  pub contents-shiftchars :
      contents (shiftchars to cnt t)
      ≡ slice t.line 0 to ++ slice t.line (to + cnt) (t.ll - (to + cnt))
  contents-shiftchars =
      let m = (shiftchars to cnt t).line in
      let e : (shiftchars to cnt t).ll ≡ to + (t.ll - (to + cnt)) = unfold shiftchars in refl in
      let a : slice m 0 to ≡ slice t.line 0 to =
        slice_congr m t.line 0 0 to (λ k h. ground (arith, line-shiftchars (0 + k))) in
      let b : slice m to (t.ll - (to + cnt)) ≡ slice t.line (to + cnt) (t.ll - (to + cnt)) =
        slice_congr m t.line to (to + cnt) (t.ll - (to + cnt))
          (λ k h. ground (arith, line-shiftchars (to + k), line_shift k)) in
      rw (e, slice-append, a, zero-add, b)
    where
      line_shift : (k : ℕ) → t.line (to + k + cnt) ≡ t.line (to + cnt + k)
      line_shift k = let e : to + k + cnt ≡ to + cnt + k = omega arith in rw e

-- With the cursor in the line, deleting what `spaceinline` opened gives back the contents of the
-- line, the cursor and the mark.
foredel-spaceinline :
    (ct : ℕ) (t : Text)
    → t.cs ≤ t.ll
    → (contents (foredel ct (spaceinline ct t)) ≡ contents t)
      × ((foredel ct (spaceinline ct t)).cs ≡ t.cs)
      × ((foredel ct (spaceinline ct t)).mark ≡ t.mark)
foredel-spaceinline ct t h = (
  rw (step, back)
      (slice_congr (shiftchars t.cs ct (spaceinline ct t)).line t.line 0 0 t.ll given_back),
  unfold foredel shiftchars spaceinline in refl,
  unfold foredel shiftchars spaceinline in ground arith,
)
  where
    fits : t.cs + ct ≤ (spaceinline ct t).ll
    fits = unfold spaceinline in omega arith

    back : (shiftchars t.cs ct (spaceinline ct t)).ll ≡ t.ll
    back = unfold shiftchars spaceinline in omega arith

    opened : ((spaceinline ct t).ll ≡ t.ll + ct) × ((spaceinline ct t).cs ≡ t.cs)
    opened = unfold spaceinline in (refl, refl)

    step : foredel ct (spaceinline ct t) ≡ shiftchars t.cs ct (spaceinline ct t)
    step = unfold foredel in ap (λ (c : ℕ). shiftchars c ct (spaceinline ct t)) opened.1

    given_back :
        (k : ℕ) → k < t.ll → (shiftchars t.cs ct (spaceinline ct t)).line (0 + k) ≡ t.line (0 + k)
    given_back k lt = ground (
      arith,
      line-shiftchars t.cs ct (spaceinline ct t) fits (0 + k),
      line-spaceinline ct t h (0 + k + ct),
      line-spaceinline ct t h (0 + k),
      opened,
    )

pub cs-shiftchars : (to cnt : ℕ) (t : Text) → (shiftchars to cnt t).cs ≡ t.cs
unfolding shiftchars
cs-shiftchars to cnt t = refl

-- The bytes before the cut stay.
pub slice-shiftchars_below :
    (to a : ℕ) (t : Text) → to + a ≤ t.ll → slice (shiftchars to a t).line 0 to ≡ slice t.line 0 to
slice-shiftchars_below to a t fits =
    slice_congr (shiftchars to a t).line t.line 0 0 to
      (λ k h. ground (arith, line-shiftchars to a t fits (0 + k)))

pub ll-shiftchars : (to a : ℕ) (t : Text) → to + a ≤ t.ll → (shiftchars to a t).ll ≡ t.ll - a
unfolding shiftchars
ll-shiftchars to a t fits = omega arith

-- The bytes behind those that were cut out move to their place.
pub slice-shiftchars :
    (to a b : ℕ) (t : Text)
    → to + a + b ≤ t.ll
    → slice (shiftchars to a t).line to b ≡ slice t.line (to + a) b
slice-shiftchars to a b t fits =
    slice_congr (shiftchars to a t).line t.line to (to + a) b
      (λ k h. ground (arith, line-shiftchars to a t (omega arith) (to + k), shifted k))
  where
    shifted : (k : ℕ) → t.line (to + k + a) ≡ t.line (to + a + k)
    shifted k = let e : to + k + a ≡ to + a + k = omega arith in rw e

-- Two cuts at one place are one.
pub contents-shiftchars_twice :
    (to a b : ℕ) (t : Text)
    → to + a + b ≤ t.ll
    → contents (shiftchars to b (shiftchars to a t)) ≡ contents (shiftchars to (a + b) t)
contents-shiftchars_twice to a b t fits = rw (
  contents-shiftchars to b s (unfold shiftchars in omega arith),
  contents-shiftchars to (a + b) t (omega arith),
  low,
  tail_length,
  high,
)
  where
    s : Text
    s = shiftchars to a t

    low : slice s.line 0 to ≡ slice t.line 0 to
    low =
        slice_congr s.line t.line 0 0 to
          (λ k h. ground (arith, line-shiftchars to a t (omega arith) (0 + k)))

    tail_length : s.ll - (to + b) ≡ t.ll - (to + (a + b))
    tail_length = unfold shiftchars in omega arith

    shifted : (k : ℕ) → t.line (to + b + k + a) ≡ t.line (to + (a + b) + k)
    shifted k = let e : to + b + k + a ≡ to + (a + b) + k = omega arith in rw e

    high :
        slice s.line (to + b) (t.ll - (to + (a + b)))
        ≡ slice t.line (to + (a + b)) (t.ll - (to + (a + b)))
    high =
        slice_congr s.line t.line (to + b) (to + (a + b)) (t.ll - (to + (a + b)))
          (λ k h. ground (arith, line-shiftchars to a t (omega arith) (to + b + k), shifted k))
