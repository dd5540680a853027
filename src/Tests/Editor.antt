-- ===== src/Tests/Editor.antt =====
-- The line editor: the theorems at concrete inputs.
use winzsh.Prelude.{
  ℕ, ◌+◌, ◌-◌, ◌<◌, ◌≡◌, ◌≢◌, ap, refl, List, [], ◌∷◌, ◌++◌, true, false, some, arith,
}
use winzsh.Tests.Data.{bytes_at, typed, command, plain, editor, history}
use winzsh.Prelude.Int.{pos, negsuc}
use winzsh.Prelude.Lists.{length, slice}
use winzsh.Chars.{iblank, tuupper, tulower}
use winzsh.Zle.Text.{contents}
use winzsh.Zle.Move.{
  moved, at, beginningofline, endofline, forwardchar, backwardchar, exchangepointandmark,
  vigotocolumn, viforwardchar, vibackwardchar, viendofline, vibeginningofline, vifirstnonblank,
}
use winzsh.Zle.Move.Laws.{InLine, commands-InLine}
use winzsh.Zle.Bracket.{bracket, find_bracket, finish, matching, match_up, vimatchbracket}
use winzsh.Zle.Bracket.Match.{vimatchbracket-vimatchbracket}
use winzsh.Zle.Word.{
  forwardword, viforwardword, viforwardblankword, emacsforwardword, viforwardblankwordend,
  viforwardwordend, backwardword, vibackwardword, vibackwardblankword, emacsbackwardword,
}
use winzsh.Zle.Word.Laws.{motions-InLine}
use winzsh.Zle.Case.{upcaseword, downcaseword}
use winzsh.Zle.Case.Laws.{Cased, case_changes-Cased}
use winzsh.Zle.Kill.{Editor, forekill, yank, yankpop}
use winzsh.Zle.Kill.Yank.{just_yanked, yank-forekill, yankpop-yank-forekill}
use winzsh.Zle.KillWord.{word_end, killword}
use winzsh.Zle.KillWord.Laws.{yank-killword}
use winzsh.Zle.Undo.{History, prefix, addundo, undo}
use winzsh.Zle.Undo.RoundTrip.{last_contents, undo-addundo, addundo_suff}

command-differs : contents history.text ≢ last_contents history
command-differs e = absurd (ground (arith, ap (λ (s : List ℕ). length s) e))

undo-addundo_example :
    (contents (undo (addundo history)).text ≡ last_contents history)
    × ((undo (addundo history)).text.cs ≡ history.lastcs)
    × ((undo (addundo history)).undoct ≡ history.undoct)
undo-addundo_example = undo-addundo history (omega arith) command-differs

abbrev settled : History
settled = record history { lastline = bytes_at command; lastll = 8 }

yank-forekill_example :
    (contents (yank (pos 1) (forekill 4 false (editor 3))).text ≡ contents (editor 3).text)
    × ((yank (pos 1) (forekill 4 false (editor 3))).cs ≡ (editor 3).cs + 4)
yank-forekill_example = yank-forekill 4 (editor 3) refl refl (omega arith)

yankpop-yank-forekill_example :
    contents (yankpop (just_yanked (yank (pos 1) (forekill 4 false (editor 3))))).text
    ≡ slice (editor 3).line 0 (editor 3).cs
      ++ ((112 ∷ 115 ∷ [])
          ++ slice (editor 3).line ((editor 3).cs + 4) ((editor 3).ll - ((editor 3).cs + 4)))
yankpop-yank-forekill_example =
    yankpop-yank-forekill 4 (112 ∷ 115 ∷ []) (editor 3) refl refl refl (omega arith)

yank-killword_example :
    (r : Editor) × (killword plain (pos 2) (editor 1) ≡ some r)
    × (contents (yank (pos 1) r).text ≡ contents (editor 1).text)
    × ((yank (pos 1) r).cs ≡ word_end plain 2 (editor 1).text)
yank-killword_example = yank-killword plain 2 (editor 1) refl refl (omega arith)

vimatchbracket-vimatchbracket_example :
    ((typed command 3).cs < 7)
    × (7 < (typed command 3).ll)
    × ((vimatchbracket (pos 0) (at (typed command 3) 7)).0 ≡ moved (typed command 3))
unfolding bracket vimatchbracket find_bracket finish matching match_up
vimatchbracket-vimatchbracket_example =
    vimatchbracket-vimatchbracket (typed command 3) (record { oth = 41; up = true }) 7 (omega arith)
      refl refl refl

motions-InLine_example :
    InLine (forwardword plain true (pos 2) (typed command 3))
    × InLine (viforwardword plain true (pos 2) (typed command 3))
    × InLine (viforwardblankword plain true (pos 2) (typed command 3))
    × InLine (emacsforwardword plain true (pos 2) (typed command 3))
    × InLine (viforwardblankwordend plain true (pos 2) (typed command 3))
    × InLine (viforwardwordend plain true (pos 2) (typed command 3))
    × InLine (backwardword plain true (pos 2) (typed command 3))
    × InLine (vibackwardword plain true (pos 2) (typed command 3))
    × InLine (vibackwardblankword plain true (pos 2) (typed command 3))
    × InLine (emacsbackwardword plain true (pos 2) (typed command 3))
motions-InLine_example = motions-InLine plain true true (pos 2) (typed command 3) (omega arith)

case_changes-Cased_example :
    Cased plain tuupper (negsuc 1) (typed command 0) (upcaseword plain (negsuc 1) (typed command 0))
    × Cased plain tulower
        (negsuc 1)
        (typed command 0)
        (downcaseword plain (negsuc 1) (typed command 0))
case_changes-Cased_example = case_changes-Cased plain (negsuc 1) (typed command 0)

-- The last line was `s (a b)`, which the line ends in.
abbrev shorter : History
shorter = record history { lastline = λ j. bytes_at command (j + 1); lastll = 7 }

shorter-differs : contents shorter.text ≢ last_contents shorter
shorter-differs e = absurd (ground (arith, ap (λ (s : List ℕ). length s) e))

addundo_suff_example :
    (((addundo shorter).undos (addundo shorter).undoct).suff ≡ 0)
    × (((addundo shorter).undos (addundo shorter).undoct).change
        ≡ some (slice shorter.lastline (prefix shorter) (shorter.lastll - prefix shorter)))
addundo_suff_example = addundo_suff shorter shorter-differs

commands-InLine_example :
    InLine (beginningofline (pos 2) (typed command 3))
    × InLine (endofline (pos 2) (typed command 3))
    × InLine (forwardchar (pos 2) (typed command 3))
    × InLine (backwardchar (pos 2) (typed command 3))
    × InLine (exchangepointandmark (typed command 3))
    × InLine (vigotocolumn (pos 2) (typed command 3))
    × InLine (viforwardchar true (pos 2) (typed command 3)).text
    × InLine (vibackwardchar true (pos 2) (typed command 3)).text
    × InLine (viendofline (pos 2) (typed command 3)).text
    × InLine (vibeginningofline (typed command 3))
    × InLine (vifirstnonblank (λ c. iblank c) (typed command 3))
commands-InLine_example =
    commands-InLine (λ c. iblank c) true (pos 2) (typed command 3) (omega arith)
