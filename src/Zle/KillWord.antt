-- ===== src/Zle/KillWord.antt =====
-- The commands of Src/zle_word.c that delete, kill and transpose words: `backwarddeleteword`,
-- `vibackwardkillword`, `backwardkillword`, `deleteword`, `killword` and `transposewords`.
pub mod Laws
use winzsh.Prelude.{
  ℕ, zero, suc, ◌+◌, ◌-◌, ◌++◌, Bool, true, false, not, Option, none, some, ltb, leb, ◌==◌, ◌&&◌,
  ◌||◌, if◌then◌else◌,
}
use winzsh.Prelude.Int.{ℤ, pos, negsuc}
use winzsh.Prelude.Lists.{slice, write}
use winzsh.Chars.{Classes}
use winzsh.Zle.Scan.{skip_up, skip_down}
use winzsh.Zle.Text.{Text, newline, foredel, backdel, findbol}
use winzsh.Zle.Move.{Result, moved, feep, at, not_newline}
use winzsh.Zle.Word.{
  word_at, gap_at, backwardword_loop, emacsforwardword_loop, vibackwardkillword_loop,
}
use winzsh.Zle.Kill.{Editor, forekill, backkill, insert_bytes}

module _ (k : Classes) where
  -- `x` after the rounds of `deleteword` and `killword`, which are those of `emacsforwardword`.
  abbrev pub word_end : ℕ → Text → ℕ
  word_end n t = emacsforwardword_loop k t false n t.cs

  -- `x` after those of `backwarddeleteword` and `backwardkillword`.
  abbrev pub word_start : ℕ → Text → ℕ
  word_start n t = backwardword_loop k t n t.cs

  unfoldable pub deleteword : ℤ → Text → Option Text
  deleteword (pos n) t = some (foredel (word_end n t - t.cs) t)
  deleteword (negsuc n) t = backdel (t.cs - word_start (suc n) t) t

  unfoldable pub backwarddeleteword : ℤ → Text → Option Text
  backwarddeleteword (pos n) t = backdel (t.cs - word_start n t) t
  backwarddeleteword (negsuc n) t = some (foredel (word_end (suc n) t - t.cs) t)

  unfoldable pub killword : ℤ → Editor → Option Editor
  killword (pos n) e = some (forekill (word_end n e.text - e.cs) false e)
  killword (negsuc n) e = backkill (e.cs - word_start (suc n) e.text) true e

  unfoldable pub backwardkillword : ℤ → Editor → Option Editor
  backwardkillword (pos n) e = backkill (e.cs - word_start n e.text) true e
  backwardkillword (negsuc n) e = some (forekill (word_end (suc n) e.text - e.cs) false e)

  -- `viinsbegin` is where the insertion of the vi mode began.
  unfoldable pub vibackwardkillword : ℕ → ℤ → Editor → Option Editor
  vibackwardkillword viinsbegin (pos n) e =
      let b = findbol e.text in
      let lim = if ltb b viinsbegin then viinsbegin else b in
      backkill (e.cs - vibackwardkillword_loop k e.text lim n e.cs) true e
  vibackwardkillword viinsbegin (negsuc n) e = some (record e { beep = true })

  -- Where the bytes that `copyprevword` (zle_misc.c) copies begin. `t0` ends before the word, at -1
  -- if that begins the line, and is stepped on unless it is 0: a word that begins at 1 is copied
  -- from 0 on.
  unfoldable pub copy_start : Text → ℕ
  copy_start t =
      let s = skip_down (word_at k t) (skip_down (gap_at k t) t.cs) in if s == 1 then 0 else s

  unfoldable pub copyprevword : Text → Text
  copyprevword t = insert_bytes (slice t.line (copy_start t) (t.cs - copy_start t)) t

  -- `x` of a round of `transposewords`: at the next word of the line, or else at the last one.
  -- `none` where there is neither.
  unfoldable pub word_near : Text → ℕ → Option ℕ
  word_near t x =
      let y = skip_up (λ j. not_newline t j && gap_at k t j) t.ll x in
      let z = skip_down (λ j. not_newline t j && gap_at k t (j + 1)) t.cs in
      if y == t.ll || t.line y == newline
      then (if z == 0 || t.line (z - 1) == newline then none else some z)
      else some y

  unfoldable pub transpose_words_loop : ℕ → ℕ → Text → Result
  transpose_words_loop zero x t = moved t
  transpose_words_loop (suc n) x₀ t =
      let x : ℕ = elim (word_near t x₀) [ none ↦ x₀ | some y ↦ y ] in
      let p4 = skip_up (word_at k t) t.ll x in
      let p3 = skip_down (word_at k t) p4 in
      let p2 = skip_down (gap_at k t) p3 in
      let p1 = skip_down (word_at k t) p2 in
      let temp =
        slice t.line p3 (p4 - p3) ++ (slice t.line p2 (p3 - p2) ++ slice t.line p1 (p2 - p1)) in
      let rest = transpose_words_loop n x (record t { line = write t.line p1 temp; cs = p4 }) in
      elim (word_near t x₀) [
        | none ↦ feep t
        | some y ↦ if p3 == 0 then feep t else if p2 == 0 then feep t else rest
      ]

  -- A negative argument puts the cursor back, unless it fails.
  unfoldable pub transposewords : ℤ → Text → Result
  transposewords (pos n) t = transpose_words_loop n t.cs t
  transposewords (negsuc n) t =
      let r = transpose_words_loop (suc n) t.cs t in if r.beep then r else moved (at r.text t.cs)
