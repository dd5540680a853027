-- ===== src/Zle/Word.antt =====
-- The word motions and case changes of Src/zle_word.c. The classes of bytes are a parameter;
-- `inittyptab` of the module Chars gives them. `zmult` is treated as in Zle/Move.antt.
pub mod Laws
use winzsh.Prelude.{
  ℕ, zero, suc, ◌+◌, ◌-◌, Bool, true, false, not, leb, ◌==◌, ◌&&◌, ◌||◌, if◌then◌else◌,
}
use winzsh.Prelude.Int.{ℤ, pos, negsuc}
use winzsh.Chars.{Classes}
use winzsh.Zle.Scan.{skip_up, skip_down}
use winzsh.Zle.Text.{Text, newline}
use winzsh.Zle.Move.{at}

-- |zmult|
abbrev pub magnitude : ℤ → ℕ
magnitude (pos n) = n
magnitude (negsuc n) = suc n

abbrev pub is_neg : ℤ → Bool
is_neg (pos n) = false
is_neg (negsuc n) = true

module _ (k : Classes) where
  module _ (t : Text) where
    abbrev pub word_at : ℕ → Bool
    word_at j = k.is_word (t.line j)

    abbrev pub gap_at : ℕ → Bool
    gap_at j = not (k.is_word (t.line j))

    abbrev pub ident_at : ℕ → Bool
    ident_at j = k.is_ident (t.line j)

    abbrev pub blank_at : ℕ → Bool
    blank_at j = k.is_blank (t.line j)

    -- neither an identifier byte nor blank
    abbrev pub other_at : ℕ → Bool
    other_at j = not (k.is_ident (t.line j)) && not (k.is_blank (t.line j))

    -- The loop of `forwardword`; `wordflag` stops the last round behind the word.
    unfoldable pub forwardword_loop : Bool → ℕ → ℕ → ℕ
    forwardword_loop wordflag zero c = c
    forwardword_loop wordflag (suc n) c =
        let c' = skip_up word_at t.ll c in
        let rest = forwardword_loop wordflag n (skip_up gap_at t.ll c') in
        if wordflag && n == 0 then c' else rest

    unfoldable pub viforwardword_loop : Bool → ℕ → ℕ → ℕ
    viforwardword_loop wordflag zero c = c
    viforwardword_loop wordflag (suc n) c =
        let c' = if ident_at c then skip_up ident_at t.ll c else skip_up other_at t.ll c in
        let rest =
          viforwardword_loop wordflag n
            (skip_up (λ j. blank_at j || t.line j == newline) t.ll c') in
        if wordflag && n == 0 then c' else rest

    unfoldable pub viforwardblankword_loop : Bool → ℕ → ℕ → ℕ
    viforwardblankword_loop wordflag zero c = c
    viforwardblankword_loop wordflag (suc n) c =
        let c' = skip_up (λ j. not (blank_at j)) t.ll c in
        let rest = viforwardblankword_loop wordflag n (skip_up blank_at t.ll c') in
        if wordflag && n == 0 then c' else rest

    unfoldable pub emacsforwardword_loop : Bool → ℕ → ℕ → ℕ
    emacsforwardword_loop wordflag zero c = c
    emacsforwardword_loop wordflag (suc n) c =
        let c' = skip_up gap_at t.ll c in
        let rest = emacsforwardword_loop wordflag n (skip_up word_at t.ll c') in
        if wordflag && n == 0 then c' else rest

    -- These test the byte behind the cursor, `line[cs + 1]`.
    unfoldable pub viforwardblankwordend_loop : ℕ → ℕ → ℕ
    viforwardblankwordend_loop zero c = c
    viforwardblankwordend_loop (suc n) c =
        viforwardblankwordend_loop n
          (skip_up (λ j. not (blank_at (j + 1))) t.ll (skip_up (λ j. blank_at (j + 1)) t.ll c))

    unfoldable pub viforwardwordend_loop : ℕ → ℕ → ℕ
    viforwardwordend_loop zero c = c
    viforwardwordend_loop (suc n) c =
        let c' = if blank_at (c + 1) then skip_up (λ j. blank_at (j + 1)) t.ll c else c in
        viforwardwordend_loop n (
          if ident_at (c' + 1)
          then skip_up (λ j. ident_at (j + 1)) t.ll c'
          else skip_up (λ j. other_at (j + 1)) t.ll c')

    -- `backwardword` and `emacsbackwardword` have the same text.
    unfoldable pub backwardword_loop : ℕ → ℕ → ℕ
    backwardword_loop zero c = c
    backwardword_loop (suc n) c = backwardword_loop n (skip_down word_at (skip_down gap_at c))

    -- With the cursor at 0 the source reads `line[-1]`; both branches then leave the cursor at 0.
    unfoldable pub vibackwardword_loop : ℕ → ℕ → ℕ
    vibackwardword_loop zero c = c
    vibackwardword_loop (suc n) c =
        let c' = skip_down blank_at c in
        vibackwardword_loop n
          (if ident_at (c' - 1) then skip_down ident_at c' else skip_down other_at c')

    unfoldable pub vibackwardblankword_loop : ℕ → ℕ → ℕ
    vibackwardblankword_loop zero c = c
    vibackwardblankword_loop (suc n) c =
        vibackwardblankword_loop n (skip_down (λ j. not (blank_at j)) (skip_down blank_at c))

    -- The same with the bound `lim` of `vibackwardkillword` in place of 0.
    unfoldable pub vibackwardkillword_loop : ℕ → ℕ → ℕ → ℕ
    vibackwardkillword_loop lim zero x = x
    vibackwardkillword_loop lim (suc n) x =
        let x' = skip_down (λ j. leb lim j && blank_at j) x in
        vibackwardkillword_loop lim n (
          if ident_at (x' - 1)
          then skip_down (λ j. leb lim j && ident_at j) x'
          else skip_down (λ j. leb lim j && other_at j) x')

  unfoldable pub forwardword : Bool → ℤ → Text → Text
  unfolding forwardword_loop backwardword_loop
  forwardword wordflag (pos n) t = at t (forwardword_loop t wordflag n t.cs)
  forwardword wordflag (negsuc n) t = at t (backwardword_loop t (suc n) t.cs)

  unfoldable pub viforwardword : Bool → ℤ → Text → Text
  unfolding viforwardword_loop backwardword_loop
  viforwardword wordflag (pos n) t = at t (viforwardword_loop t wordflag n t.cs)
  viforwardword wordflag (negsuc n) t = at t (backwardword_loop t (suc n) t.cs)

  unfoldable pub viforwardblankword : Bool → ℤ → Text → Text
  unfolding viforwardblankword_loop vibackwardblankword_loop
  viforwardblankword wordflag (pos n) t = at t (viforwardblankword_loop t wordflag n t.cs)
  viforwardblankword wordflag (negsuc n) t = at t (vibackwardblankword_loop t (suc n) t.cs)

  unfoldable pub emacsforwardword : Bool → ℤ → Text → Text
  unfolding emacsforwardword_loop backwardword_loop
  emacsforwardword wordflag (pos n) t = at t (emacsforwardword_loop t wordflag n t.cs)
  emacsforwardword wordflag (negsuc n) t = at t (backwardword_loop t (suc n) t.cs)

  -- `range` is the test of `virangeflag`.
  end_of_motion : Bool → Text → ℕ → Text
  end_of_motion range t c = at t (if not (c == t.ll) && range then c + 1 else c)

  unfoldable pub viforwardblankwordend : Bool → ℤ → Text → Text
  unfolding viforwardblankwordend_loop end_of_motion
  viforwardblankwordend range (pos n) t =
      end_of_motion range t (viforwardblankwordend_loop t n t.cs)
  viforwardblankwordend range (negsuc n) t = t

  unfoldable pub viforwardwordend : Bool → ℤ → Text → Text
  unfolding viforwardwordend_loop backwardword_loop end_of_motion
  viforwardwordend range (pos n) t = end_of_motion range t (viforwardwordend_loop t n t.cs)
  viforwardwordend range (negsuc n) t = at t (backwardword_loop t (suc n) t.cs)

  unfoldable pub backwardword : Bool → ℤ → Text → Text
  unfolding forwardword_loop backwardword_loop
  backwardword wordflag (pos n) t = at t (backwardword_loop t n t.cs)
  backwardword wordflag (negsuc n) t = at t (forwardword_loop t wordflag (suc n) t.cs)

  unfoldable pub vibackwardword : Bool → ℤ → Text → Text
  unfolding vibackwardword_loop backwardword_loop
  vibackwardword wordflag (pos n) t = at t (vibackwardword_loop t n t.cs)
  vibackwardword wordflag (negsuc n) t = at t (backwardword_loop t (suc n) t.cs)

  unfoldable pub vibackwardblankword : Bool → ℤ → Text → Text
  unfolding viforwardblankword_loop vibackwardblankword_loop
  vibackwardblankword wordflag (pos n) t = at t (vibackwardblankword_loop t n t.cs)
  vibackwardblankword wordflag (negsuc n) t = at t (viforwardblankword_loop t wordflag (suc n) t.cs)

  unfoldable pub emacsbackwardword : Bool → ℤ → Text → Text
  unfolding emacsforwardword_loop backwardword_loop
  emacsbackwardword wordflag (pos n) t = at t (backwardword_loop t n t.cs)
  emacsbackwardword wordflag (negsuc n) t = at t (emacsforwardword_loop t wordflag (suc n) t.cs)
