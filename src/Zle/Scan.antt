-- ===== src/Zle/Scan.antt =====
-- The cursor loops of the editor, such as `while (cs != ll && iword(line[cs])) cs++` and
-- `while (cs && iword(line[cs - 1])) cs--`: `p` is the test as a function of the position.
use winzsh.Prelude.{
  ℕ, zero, suc, ◌+◌, ◌-◌, ◌≤◌, ◌<◌, ◌≡◌, refl, ◌⊎◌, inl, inr, Bool, true, false, arith, Bool-cases,
}

module _ (p : ℕ → Bool) where
  -- `n` rounds are left up to the end of the line.
  unfoldable pub scan_up : ℕ → ℕ → ℕ
  scan_up zero x = x
  scan_up (suc n) x = elim (p x) [ true ↦ scan_up n (x + 1) | false ↦ x ]

  -- From `x` up to `ll`. Past `ll` the loop of the source would not meet its bound.
  unfoldable pub skip_up : ℕ → ℕ → ℕ
  unfolding scan_up
  skip_up ll x = scan_up (ll - x) x

  -- `p` is tested at the position before the cursor.
  unfoldable pub skip_down : ℕ → ℕ
  skip_down zero = zero
  skip_down (suc x) = elim (p x) [ true ↦ skip_down x | false ↦ suc x ]

  -- `p` holds at every position from `a` up to `b`.
  abbrev pub Run : ℕ → ℕ → Type 0
  Run a b = (j : ℕ) → a ≤ j → j < b → p j ≡ true

  -- Where a loop from `x` with the bound `ll` stops.
  pub record StopsUp (ll x r : ℕ) : Type 0 where
    pub from : x ≤ r
    pub upto : r ≤ ll
    pub run : Run x r
    pub stop : (r ≡ ll) ⊎ (p r ≡ false)

  pub record StopsDown (x r : ℕ) : Type 0 where
    pub upto : r ≤ x
    pub run : Run r x
    pub stop : (r ≡ 0) ⊎ (p (r - 1) ≡ false)

  Run-cons : (x r : ℕ) → p x ≡ true → Run (x + 1) r → Run x r
  Run-cons x r t run j a b = ground (arith, run j)

  Run-snoc : (r x : ℕ) → p x ≡ true → Run r x → Run r (suc x)
  Run-snoc r x t run j a b = ground (arith, run j)

  pub scan_up_stops : (n x ll : ℕ) → x + n ≡ ll → StopsUp ll x (scan_up n x)
  unfolding scan_up
  scan_up_stops zero x ll e = record {
    from = omega arith;
    upto = omega arith;
    run = λ j a b. absurd (omega arith);
    stop = inl (omega arith);
  }
  scan_up_stops (suc n) x ll e = elim (Bool-cases (p x)) [
    | inl t ↦
        let ih = scan_up_stops n (x + 1) ll (omega arith) in
        rw (t, scan_up)
          (record {
            from = omega (arith, ih.from);
            upto = ih.upto;
            run = Run-cons x _ t ih.run;
            stop = ih.stop;
          })
    | inr f ↦
        rw (f, scan_up)
          (record {
            from = omega arith;
            upto = omega arith;
            run = λ j a b. absurd (omega arith);
            stop = inr f;
          })
  ]

  -- The loop up stops at the first position that fails the test, or at the end of the line.
  pub skip_up-StopsUp : (ll x : ℕ) → x ≤ ll → StopsUp ll x (skip_up ll x)
  unfolding skip_up
  skip_up-StopsUp ll x h = scan_up_stops (ll - x) x ll (omega arith)

  -- The loop down stops behind the last position that fails the test, or at the start.
  pub skip_down-StopsDown : (x : ℕ) → StopsDown x (skip_down x)
  unfolding skip_down
  skip_down-StopsDown zero = record {
    upto = omega arith;
    run = λ j a b. absurd (omega arith);
    stop = inl refl;
  }
  skip_down-StopsDown (suc x) = elim (Bool-cases (p x)) [
    | inl t ↦
        let ih = skip_down-StopsDown x in
        rw (t, skip_down)
          (record { upto = omega (arith, ih.upto); run = Run-snoc _ x t ih.run; stop = ih.stop })
    | inr f ↦
        rw (f, skip_down)
          (record {
            upto = omega arith;
            run = λ j a b. absurd (omega arith);
            stop = inr (back x f);
          })
  ]
    where
      back : (x : ℕ) → p x ≡ false → p (suc x - 1) ≡ false
      back x f = let e : suc x - 1 ≡ x = omega arith in rw e f

pub Run-skip_up : (p : ℕ → Bool) (ll x : ℕ) → Run p x (skip_up p ll x)
unfolding skip_up
Run-skip_up p ll x = (scan_up_stops p (ll - x) x (x + (ll - x)) refl).run

pub le-scan_up : (p : ℕ → Bool) (n x : ℕ) → x ≤ scan_up p n x
le-scan_up p n x = (scan_up_stops p n x (x + n) refl).from

pub le-skip_up : (p : ℕ → Bool) (ll x : ℕ) → x ≤ skip_up p ll x
unfolding skip_up
le-skip_up p ll x = le-scan_up p (ll - x) x

pub skip_up-le : (p : ℕ → Bool) (ll x : ℕ) → x ≤ ll → skip_up p ll x ≤ ll
skip_up-le p ll x h = (skip_up-StopsUp p ll x h).upto

pub skip_down-le : (p : ℕ → Bool) (x : ℕ) → skip_down p x ≤ x
skip_down-le p x = (skip_down-StopsDown p x).upto

-- Tests that agree from the cursor on stop the loop at the same position.
pub scan_up_congr :
    (p q : ℕ → Bool) (n x : ℕ) → ((j : ℕ) → x ≤ j → p j ≡ q j) → scan_up p n x ≡ scan_up q n x
unfolding scan_up
scan_up_congr p q zero x h = refl
scan_up_congr p q (suc n) x h =
    ground (arith, h x, scan_up_congr p q n (x + 1) (λ j lt. h j (omega arith)))

pub skip_up_congr :
    (p q : ℕ → Bool) (ll x : ℕ) → ((j : ℕ) → x ≤ j → p j ≡ q j) → skip_up p ll x ≡ skip_up q ll x
unfolding skip_up
skip_up_congr p q ll x h = scan_up_congr p q (ll - x) x h
