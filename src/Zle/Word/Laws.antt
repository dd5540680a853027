-- ===== src/Zle/Word/Laws.antt =====
-- Where the word motions end.
use winzsh.Prelude.{
  ℕ, zero, suc, ◌+◌, ◌-◌, ◌≤◌, ◌<◌, ◌≡◌, ◌∙◌, ◌⊎◌, inr, ap, Bool, true, false, not, ◌==◌, ◌&&◌,
  ◌||◌, if◌then◌else◌, arith,
}
use winzsh.Prelude.Int.{ℤ, pos, negsuc}
use winzsh.Chars.{Classes}
use winzsh.Zle.Scan.{
  skip_up, skip_down, skip_up-le, skip_down-le, skip_up-StopsUp, skip_down-StopsDown, Run,
  le-skip_up, Run-skip_up,
}
use winzsh.Zle.Text.{Text, newline}
use winzsh.Zle.Move.{at}
use winzsh.Zle.Move.Laws.{InLine}
use winzsh.Zle.Word.{
  word_at, gap_at, ident_at, blank_at, other_at, forwardword_loop, viforwardword_loop,
  viforwardblankword_loop, emacsforwardword_loop, viforwardblankwordend_loop, viforwardwordend_loop,
  backwardword_loop, vibackwardword_loop, vibackwardblankword_loop, forwardword, viforwardword,
  viforwardblankword, emacsforwardword, viforwardblankwordend, viforwardwordend, backwardword,
  vibackwardword, vibackwardblankword, emacsbackwardword,
}

module _ (k : Classes) (t : Text) where
  forwardword_loop-le : (w : Bool) (n c : ℕ) → c ≤ t.ll → forwardword_loop k t w n c ≤ t.ll
  unfolding forwardword_loop
  forwardword_loop-le w zero c h = h
  forwardword_loop-le w (suc n) c h =
      let a = skip_up-le (word_at k t) t.ll c h in
      let b = skip_up-le (gap_at k t) t.ll _ a in ground (arith, a, forwardword_loop-le w n _ b)

  viforwardword_loop-le : (w : Bool) (n c : ℕ) → c ≤ t.ll → viforwardword_loop k t w n c ≤ t.ll
  unfolding viforwardword_loop
  viforwardword_loop-le w zero c h = h
  viforwardword_loop-le w (suc n) c h =
      let c' =
        if ident_at k t c then skip_up (ident_at k t) t.ll c else skip_up (other_at k t) t.ll c in
      let a : c' ≤ t.ll =
        ground (arith, skip_up-le (ident_at k t) t.ll c h, skip_up-le (other_at k t) t.ll c h) in
      let b = skip_up-le (λ j. blank_at k t j || t.line j == newline) t.ll c' a in
      ground (arith, a, viforwardword_loop-le w n _ b)

  viforwardblankword_loop-le :
      (w : Bool) (n c : ℕ) → c ≤ t.ll → viforwardblankword_loop k t w n c ≤ t.ll
  unfolding viforwardblankword_loop
  viforwardblankword_loop-le w zero c h = h
  viforwardblankword_loop-le w (suc n) c h =
      let a = skip_up-le (λ j. not (blank_at k t j)) t.ll c h in
      let b = skip_up-le (blank_at k t) t.ll _ a in
      ground (arith, a, viforwardblankword_loop-le w n _ b)

  emacsforwardword_loop-le :
      (w : Bool) (n c : ℕ) → c ≤ t.ll → emacsforwardword_loop k t w n c ≤ t.ll
  unfolding emacsforwardword_loop
  emacsforwardword_loop-le w zero c h = h
  emacsforwardword_loop-le w (suc n) c h =
      let a = skip_up-le (gap_at k t) t.ll c h in
      let b = skip_up-le (word_at k t) t.ll _ a in
      ground (arith, a, emacsforwardword_loop-le w n _ b)

  viforwardblankwordend_loop-le : (n c : ℕ) → c ≤ t.ll → viforwardblankwordend_loop k t n c ≤ t.ll
  unfolding viforwardblankwordend_loop
  viforwardblankwordend_loop-le zero c h = h
  viforwardblankwordend_loop-le (suc n) c h =
      let a = skip_up-le (λ j. blank_at k t (j + 1)) t.ll c h in
      viforwardblankwordend_loop-le n _ (skip_up-le (λ j. not (blank_at k t (j + 1))) t.ll _ a)

  viforwardwordend_loop-le : (n c : ℕ) → c ≤ t.ll → viforwardwordend_loop k t n c ≤ t.ll
  unfolding viforwardwordend_loop
  viforwardwordend_loop-le zero c h = h
  viforwardwordend_loop-le (suc n) c h =
      let c' = if blank_at k t (c + 1) then skip_up (λ j. blank_at k t (j + 1)) t.ll c else c in
      let a : c' ≤ t.ll = ground (arith, skip_up-le (λ j. blank_at k t (j + 1)) t.ll c h) in
      let i = skip_up-le (λ j. ident_at k t (j + 1)) t.ll c' a in
      let o = skip_up-le (λ j. other_at k t (j + 1)) t.ll c' a in
      viforwardwordend_loop-le n _ (ground (arith, i, o))

  backwardword_loop-le : (n c : ℕ) → backwardword_loop k t n c ≤ c
  unfolding backwardword_loop
  backwardword_loop-le zero c = omega arith
  backwardword_loop-le (suc n) c =
      let c' = skip_down (gap_at k t) c in
      omega (
        arith,
        skip_down-le (gap_at k t) c,
        skip_down-le (word_at k t) c',
        backwardword_loop-le n (skip_down (word_at k t) c'),
      )

  vibackwardword_loop-le : (n c : ℕ) → vibackwardword_loop k t n c ≤ c
  unfolding vibackwardword_loop
  vibackwardword_loop-le zero c = omega arith
  vibackwardword_loop-le (suc n) c =
      let c' = skip_down (blank_at k t) c in
      let i = skip_down (ident_at k t) c' in
      let o = skip_down (other_at k t) c' in
      let d = if ident_at k t (c' - 1) then i else o in
      let e : d ≤ c' =
        ground (arith, skip_down-le (ident_at k t) c', skip_down-le (other_at k t) c') in
      omega (arith, skip_down-le (blank_at k t) c, e, vibackwardword_loop-le n d)

  vibackwardblankword_loop-le : (n c : ℕ) → vibackwardblankword_loop k t n c ≤ c
  unfolding vibackwardblankword_loop
  vibackwardblankword_loop-le zero c = omega arith
  vibackwardblankword_loop-le (suc n) c =
      let c' = skip_down (blank_at k t) c in
      omega (
        arith,
        skip_down-le (blank_at k t) c,
        skip_down-le (λ j. not (blank_at k t j)) c',
        vibackwardblankword_loop-le n (skip_down (λ j. not (blank_at k t j)) c'),
      )

-- Every word motion, whatever its argument and flags, leaves a cursor in the line in the line.
pub motions-InLine :
    (k : Classes) (w range : Bool) (zmult : ℤ) (t : Text)
    → InLine t
    → InLine (forwardword k w zmult t)
      × InLine (viforwardword k w zmult t)
      × InLine (viforwardblankword k w zmult t)
      × InLine (emacsforwardword k w zmult t)
      × InLine (viforwardblankwordend k range zmult t)
      × InLine (viforwardwordend k range zmult t)
      × InLine (backwardword k w zmult t)
      × InLine (vibackwardword k w zmult t)
      × InLine (vibackwardblankword k w zmult t)
      × InLine (emacsbackwardword k w zmult t)
unfolding forwardword viforwardword viforwardblankword emacsforwardword viforwardblankwordend
    viforwardwordend backwardword vibackwardword vibackwardblankword emacsbackwardword
motions-InLine k w range (pos n) t h = (
  forwardword_loop-le k t w n t.cs h,
  viforwardword_loop-le k t w n t.cs h,
  viforwardblankword_loop-le k t w n t.cs h,
  emacsforwardword_loop-le k t w n t.cs h,
  end_in range (viforwardblankwordend_loop k t n t.cs) (viforwardblankwordend_loop-le k t n t.cs h),
  end_in range (viforwardwordend_loop k t n t.cs) (viforwardwordend_loop-le k t n t.cs h),
  omega (arith, backwardword_loop-le k t n t.cs),
  omega (arith, vibackwardword_loop-le k t n t.cs),
  omega (arith, vibackwardblankword_loop-le k t n t.cs),
  omega (arith, backwardword_loop-le k t n t.cs),
)
  where
    end_in :
        (range : Bool) (c : ℕ) → c ≤ t.ll → (if not (c == t.ll) && range then c + 1 else c) ≤ t.ll
    end_in range c h = ground arith
motions-InLine k w range (negsuc n) t h = (
  omega (arith, backwardword_loop-le k t (suc n) t.cs),
  omega (arith, backwardword_loop-le k t (suc n) t.cs),
  omega (arith, vibackwardblankword_loop-le k t (suc n) t.cs),
  omega (arith, backwardword_loop-le k t (suc n) t.cs),
  h,
  omega (arith, backwardword_loop-le k t (suc n) t.cs),
  forwardword_loop-le k t w (suc n) t.cs h,
  omega (arith, backwardword_loop-le k t (suc n) t.cs),
  viforwardblankword_loop-le k t w (suc n) t.cs h,
  emacsforwardword_loop-le k t w (suc n) t.cs h,
)

-- `vibackwardword` with any argument, a negative one too, leaves the cursor at its old place or
-- before it.
vibackwardword-le :
    (k : Classes) (w : Bool) (zmult : ℤ) (t : Text) → (vibackwardword k w zmult t).cs ≤ t.cs
unfolding vibackwardword
vibackwardword-le k w (pos n) t = vibackwardword_loop-le k t n t.cs
vibackwardword-le k w (negsuc n) t = backwardword_loop-le k t (suc n) t.cs

-- The one place where a loop down can stop.
skip_down_at :
    (p : ℕ → Bool) (a x : ℕ) → a ≤ x → Run p a x → (a ≡ 0) ⊎ (p (a - 1) ≡ false) → skip_down p x ≡ a
skip_down_at p a x le run stop =
    let s = skip_down-StopsDown p x in
    let r = skip_down p x in ground (arith, s.upto, s.run (a - 1), run (r - 1), s.stop)

skip_up_stay : (p : ℕ → Bool) (ll x : ℕ) → p x ≡ false → skip_up p ll x ≡ x
skip_up_stay p ll x h = ground (arith, Run-skip_up p ll x x, le-skip_up p ll x)

-- From `c`, the first byte of a word, up to its end and down again.
there_and_back :
    (k : Classes) (t : Text) (c : ℕ)
    → c < t.ll
    → k.is_word (t.line c) ≡ true
    → (c ≡ 0) ⊎ (k.is_word (t.line (c - 1)) ≡ false)
    → skip_down (word_at k t) (skip_down (gap_at k t) (skip_up (word_at k t) t.ll c)) ≡ c
there_and_back k t c inside w start =
    let e = skip_up (word_at k t) t.ll c in
    let s = skip_up-StopsUp (word_at k t) t.ll c (omega arith) in
    let past : c < e = ground (arith, s.stop, s.from, inside) in
    let stay : skip_down (gap_at k t) e ≡ e =
      skip_down_at (gap_at k t) e e (omega arith) (λ j a b. absurd (omega arith))
        (inr (ground (arith, s.run (e - 1)))) in
    rw stay (skip_down_at (word_at k t) c e (omega arith) s.run start)

-- From the first byte of a word, one word forward and one word back is where one was.
emacsbackwardword-emacsforwardword :
    (k : Classes) (t : Text)
    → t.cs < t.ll
    → k.is_word (t.line t.cs) ≡ true
    → (t.cs ≡ 0) ⊎ (k.is_word (t.line (t.cs - 1)) ≡ false)
    → emacsbackwardword k false (pos 1) (emacsforwardword k false (pos 1) t) ≡ t
unfolding emacsbackwardword emacsforwardword
emacsbackwardword-emacsforwardword k t inside w start =
    let c = t.cs in
    let first : skip_up (gap_at k t) t.ll c ≡ c = skip_up_stay (gap_at k t) t.ll c (ground arith) in
    let e = skip_up (word_at k t) t.ll (skip_up (gap_at k t) t.ll c) in
    let same : e ≡ skip_up (word_at k t) t.ll c = ap (skip_up (word_at k t) t.ll) first in
    ap (at t) (
      ap (λ x. skip_down (word_at k t) (skip_down (gap_at k t) x)) same
      ∙ there_and_back k t c inside w start)
