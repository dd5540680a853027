-- ===== src/Zle/KillWord/Laws.antt =====
-- What killing words does to the line and to the cut buffer.
use winzsh.Prelude.{
  if◌then◌else◌, ◌==◌, ℕ, zero, suc, ◌+◌, ◌-◌, ◌≤◌, ◌≡◌, ◌∙◌, refl, ap, ◌++◌, false, some, arith,
}
use winzsh.Prelude.Int.{pos}
use winzsh.Prelude.Lists.{slice, length-slice}
use winzsh.Chars.{Classes}
use winzsh.Zle.Scan.{skip_up, skip_up-le, le-skip_up}
use winzsh.Zle.Text.{Text, contents}
use winzsh.Zle.Word.{word_at, gap_at, backwardword_loop, emacsforwardword_loop}
use winzsh.Zle.Kill.{Editor, forekill, yank}
use winzsh.Zle.Kill.Insert.{contents-insert_bytes, cs-insert_bytes}
use winzsh.Zle.Kill.Yank.{yank-forekill}
use winzsh.Zle.KillWord.{word_end, word_start, killword, copy_start, copyprevword}

module _ (k : Classes) (t : Text) where
  le-word_end : (n c : ℕ) → c ≤ emacsforwardword_loop k t false n c
  unfolding emacsforwardword_loop
  le-word_end zero c = omega arith
  le-word_end (suc n) c =
      let c' = skip_up (gap_at k t) t.ll c in
      omega (
        arith,
        le-skip_up (gap_at k t) t.ll c,
        le-skip_up (word_at k t) t.ll c',
        le-word_end n (skip_up (word_at k t) t.ll c'),
      )

  word_end-le : (n c : ℕ) → c ≤ t.ll → emacsforwardword_loop k t false n c ≤ t.ll
  unfolding emacsforwardword_loop
  word_end-le zero c h = h
  word_end-le (suc n) c h =
      word_end-le n _ (skip_up-le (word_at k t) t.ll _ (skip_up-le (gap_at k t) t.ll c h))

-- With the cursor in the line, no buffer named and no kill before it, `killword` succeeds, and a
-- yank after it gives the contents back and leaves the cursor where the killed words end.
pub yank-killword :
    (k : Classes) (n : ℕ) (e : Editor)
    → e.gotvibufspec ≡ false
    → e.killing ≡ false
    → e.cs ≤ e.ll
    → (r : Editor) × (killword k (pos n) e ≡ some r)
      × (contents (yank (pos 1) r).text ≡ contents e.text)
      × ((yank (pos 1) r).cs ≡ word_end k n e.text)
unfolding killword
yank-killword k n e g fresh inside =
    let ct = word_end k n e.text - e.cs in
    let fits : e.cs + ct ≡ word_end k n e.text = omega (arith, le-word_end k e.text n e.cs) in
    let (same, cursor) =
      yank-forekill ct e g fresh (omega (arith, fits, word_end-le k e.text n e.cs inside)) in
    (forekill ct false e, refl, same, cursor ∙ fits)

-- With the cursor in the line, `copyprevword` puts at the cursor a copy of what stands between
-- the start of the word before it and the cursor, except that a word at the second byte of the
-- line is copied with the first byte, and leaves the cursor behind the copy.
pub contents-copyprevword :
    (k : Classes) (t : Text)
    → t.cs ≤ t.ll
    → (i : ℕ) × (i ≡ (if word_start k 1 t == 1 then 0 else word_start k 1 t))
      × (contents (copyprevword k t)
          ≡ slice t.line 0 t.cs ++ (slice t.line i (t.cs - i) ++ slice t.line t.cs (t.ll - t.cs)))
      × ((copyprevword k t).cs ≡ t.cs + (t.cs - i))
unfolding copyprevword copy_start backwardword_loop
contents-copyprevword k t inside =
    let i = copy_start k t in
    let bytes = slice t.line i (t.cs - i) in
    (
      i,
      refl,
      contents-insert_bytes bytes t inside,
      cs-insert_bytes bytes t inside ∙ ap (λ n. t.cs + n) (length-slice t.line i (t.cs - i)),
    )
