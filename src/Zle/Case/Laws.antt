-- ===== src/Zle/Case/Laws.antt =====
-- `upcaseword` and `downcaseword` against the motion and the mapping that they are made of.
use winzsh.Prelude.{
  ℕ, zero, suc, ◌+◌, ◌-◌, ◌≤◌, ◌<◌, ◌≡◌, ◌∙◌, refl, ap, subst, Bool, true, false, not, leb, ltb,
  ◌&&◌, if◌then◌else◌, Bool-cases, inl, inr, arith,
}
use winzsh.Prelude.Int.{ℤ, pos, negsuc}
use winzsh.Prelude.Lists.{update}
use winzsh.Chars.{Classes, tulower, tuupper}
use winzsh.Zle.Scan.{
  scan_up, skip_up, scan_up_congr, skip_up_congr, le-scan_up, le-skip_up, Run-skip_up,
}
use winzsh.Zle.Text.{Text}
use winzsh.Zle.Move.{at}
use winzsh.Zle.Word.{magnitude, is_neg, word_at, gap_at, emacsforwardword_loop, emacsforwardword}
use winzsh.Zle.Case.{case_run, case_word, case_loop, upcaseword, downcaseword}

-- `r` is `t` with the cursor at `c` and the word bytes from the old cursor up to `c` mapped by `f`.
pub record Mapped (k : Classes) (f : ℕ → ℕ) (t : Text) (c : ℕ) (r : Text) : Type 0 where
  pub cursor : r.cs ≡ c
  pub bytes :
      (j : ℕ)
      → r.line j
        ≡ (if leb t.cs j && ltb j c && k.is_word (t.line j) then f (t.line j) else t.line j)
  pub same_ll : r.ll ≡ t.ll
  pub same_mark : r.mark ≡ t.mark

module _ (k : Classes) (f : ℕ → ℕ) where
  case_run-Mapped :
      (n : ℕ) (t : Text) → Mapped k f t (scan_up (word_at k t) n t.cs) (case_run k f n t)
  unfolding case_run scan_up
  case_run-Mapped zero t = record {
    cursor = refl;
    bytes = λ j. ground arith;
    same_ll = refl;
    same_mark = refl;
  }
  case_run-Mapped (suc n) t = elim (Bool-cases (k.is_word (t.line t.cs))) [
    | inl w ↦
        let t' : Text = record t { line = update t.line t.cs (f (t.line t.cs)); cs = t.cs + 1 } in
        let ih = case_run-Mapped n t' in
        let e : scan_up (word_at k t') n (t.cs + 1) ≡ scan_up (word_at k t) n (t.cs + 1) =
          scan_up_congr (word_at k t') (word_at k t) n (t.cs + 1) (λ j lt. ground arith) in
        rw (w, case_run, scan_up)
          (record {
            cursor = ih.cursor ∙ e;
            bytes = λ j. ground (arith, ih.bytes j, e, le-scan_up (word_at k t) n (t.cs + 1));
            same_ll = ih.same_ll;
            same_mark = ih.same_mark;
          })
    | inr g ↦
        rw (g, case_run, scan_up)
          (record { cursor = refl; bytes = λ j. ground arith; same_ll = refl; same_mark = refl })
  ]

  case_run-at :
      (t : Text) (c : ℕ)
      → Mapped k f (at t c) (skip_up (word_at k t) t.ll c) (case_run k f (t.ll - c) (at t c))
  unfolding skip_up
  case_run-at t c = case_run-Mapped (t.ll - c) (at t c)

  -- The bytes between the cursor and `c` are not of words.
  widen :
      (t : Text) (c e : ℕ) (r : Text)
      → ((j : ℕ) → t.cs ≤ j → j < c → not (k.is_word (t.line j)) ≡ true)
      → t.cs ≤ c
      → Mapped k f (at t c) e r
      → Mapped k f t e r
  widen t c e r gap le m = record {
    cursor = m.cursor;
    bytes = λ j. ground (arith, m.bytes j, gap j);
    same_ll = m.same_ll;
    same_mark = m.same_mark;
  }

  -- A round: over the bytes between words, then through the word.
  case_word-Mapped :
      (t : Text)
      → Mapped k f t (skip_up (word_at k t) t.ll (skip_up (gap_at k t) t.ll t.cs)) (case_word k f t)
  unfolding case_word
  case_word-Mapped t =
      let c = skip_up (gap_at k t) t.ll t.cs in
      widen t c _ _ (Run-skip_up (gap_at k t) t.ll t.cs) (le-skip_up (gap_at k t) t.ll t.cs)
        (case_run-at t c)

  -- One round of the motion, in two texts that agree from the cursor on.
  skip_congr :
      (p : ℕ → Bool) (c : ℕ) (s t : Text)
      → s.ll ≡ t.ll
      → ((j : ℕ) → c ≤ j → s.line j ≡ t.line j)
      → skip_up (λ j. p (s.line j)) s.ll c ≡ skip_up (λ j. p (t.line j)) t.ll c
  skip_congr p c s t e h =
      ap (λ l. skip_up (λ j. p (s.line j)) l c) e
      ∙ skip_up_congr (λ j. p (s.line j)) (λ j. p (t.line j)) t.ll c (λ j le. ap p (h j le))

  loop_congr :
      (n c : ℕ) (s t : Text)
      → s.ll ≡ t.ll
      → ((j : ℕ) → c ≤ j → s.line j ≡ t.line j)
      → emacsforwardword_loop k s false n c ≡ emacsforwardword_loop k t false n c
  unfolding emacsforwardword_loop
  loop_congr zero c s t e h = refl
  loop_congr (suc n) c s t e h =
      let c' = skip_up (gap_at k t) t.ll c in
      let c'' = skip_up (word_at k t) t.ll c' in
      let below = le-skip_up (gap_at k t) t.ll c in
      let below' = le-skip_up (word_at k t) t.ll c' in
      let first = skip_congr (λ x. not (k.is_word x)) c s t e h in
      let second =
        ap (skip_up (word_at k s) s.ll) first
        ∙ skip_congr k.is_word c' s t e (λ j le. h j (omega (arith, below))) in
      ap (emacsforwardword_loop k s false n) second
      ∙ loop_congr n c'' s t e (λ j le. h j (omega (arith, below, below')))

  le-emacsforwardword_loop : (t : Text) (n c : ℕ) → c ≤ emacsforwardword_loop k t false n c
  unfolding emacsforwardword_loop
  le-emacsforwardword_loop t zero c = omega arith
  le-emacsforwardword_loop t (suc n) c =
      let c' = skip_up (gap_at k t) t.ll c in
      omega (
        arith,
        le-skip_up (gap_at k t) t.ll c,
        le-skip_up (word_at k t) t.ll c',
        le-emacsforwardword_loop t n (skip_up (word_at k t) t.ll c'),
      )

  Mapped-trans :
      (t s r : Text) (c e : ℕ)
      → c ≤ e
      → t.cs ≤ c
      → Mapped k f t c s
      → Mapped k f s e r
      → Mapped k f t e r
  Mapped-trans t s r c e le ge w m = record {
    cursor = m.cursor;
    bytes = λ j. ground (arith, m.bytes j, w.bytes j, w.cursor);
    same_ll = m.same_ll ∙ w.same_ll;
    same_mark = m.same_mark ∙ w.same_mark;
  }

  case_loop-Mapped :
      (n : ℕ) (t : Text) → Mapped k f t (emacsforwardword_loop k t false n t.cs) (case_loop k f n t)
  unfolding case_loop emacsforwardword_loop
  case_loop-Mapped zero t = record {
    cursor = refl;
    bytes = λ j. ground arith;
    same_ll = refl;
    same_mark = refl;
  }
  case_loop-Mapped (suc n) t =
      let c' = skip_up (gap_at k t) t.ll t.cs in
      let c = skip_up (word_at k t) t.ll c' in
      let s = case_word k f t in
      let w = case_word-Mapped t in
      let e : emacsforwardword_loop k s false n s.cs ≡ emacsforwardword_loop k t false n c =
        ap (emacsforwardword_loop k s false n) w.cursor
        ∙ loop_congr n c s t w.same_ll (λ j le. ground (arith, w.bytes j)) in
      let m : Mapped k f s (emacsforwardword_loop k t false n c) (case_loop k f n s) =
        subst (λ x. Mapped k f s x (case_loop k f n s)) e (case_loop-Mapped n s) in
      Mapped-trans t s _ c _ (le-emacsforwardword_loop t n c)
        (omega (arith, le-skip_up (gap_at k t) t.ll t.cs, le-skip_up (word_at k t) t.ll c')) w m

-- What a case change of `zmult` words does: the word bytes that the motion over |zmult| words
-- passes are mapped by `f`, nothing else of the line changes, and the cursor ends where the
-- motion does, or where it was if `zmult` is negative.
pub record Cased (k : Classes) (f : ℕ → ℕ) (zmult : ℤ) (t r : Text) : Type 0 where
  pub bytes :
      (j : ℕ)
      → r.line j ≡ (
          if leb t.cs j
            && ltb j (emacsforwardword k false (pos (magnitude zmult)) t).cs
            && k.is_word (t.line j)
          then f (t.line j)
          else t.line j)
  pub cursor :
      r.cs
      ≡ (if is_neg zmult then t.cs else (emacsforwardword k false (pos (magnitude zmult)) t).cs)
  pub same_ll : r.ll ≡ t.ll
  pub same_mark : r.mark ≡ t.mark

upcaseword-Cased :
    (k : Classes) (zmult : ℤ) (t : Text) → Cased k tuupper zmult t (upcaseword k zmult t)
unfolding upcaseword emacsforwardword
upcaseword-Cased k (pos n) t =
    let m = case_loop-Mapped k tuupper n t in
    record { bytes = m.bytes; cursor = m.cursor; same_ll = m.same_ll; same_mark = m.same_mark }
upcaseword-Cased k (negsuc n) t =
    let m = case_loop-Mapped k tuupper (suc n) t in
    record { bytes = m.bytes; cursor = refl; same_ll = m.same_ll; same_mark = m.same_mark }

downcaseword-Cased :
    (k : Classes) (zmult : ℤ) (t : Text) → Cased k tulower zmult t (downcaseword k zmult t)
unfolding downcaseword emacsforwardword
downcaseword-Cased k (pos n) t =
    let m = case_loop-Mapped k tulower n t in
    record { bytes = m.bytes; cursor = m.cursor; same_ll = m.same_ll; same_mark = m.same_mark }
downcaseword-Cased k (negsuc n) t =
    let m = case_loop-Mapped k tulower (suc n) t in
    record { bytes = m.bytes; cursor = refl; same_ll = m.same_ll; same_mark = m.same_mark }

-- `upcaseword` raises and `downcaseword` lowers the word bytes that `emacsforwardword` over as
-- many words passes; they change no other byte, nor the length nor the mark, and leave the cursor
-- where that motion does, or where it was for a negative argument.
pub case_changes-Cased :
    (k : Classes) (zmult : ℤ) (t : Text)
    → Cased k tuupper zmult t (upcaseword k zmult t)
      × Cased k tulower zmult t (downcaseword k zmult t)
case_changes-Cased k zmult t = (upcaseword-Cased k zmult t, downcaseword-Cased k zmult t)
