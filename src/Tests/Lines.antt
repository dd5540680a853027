-- ===== src/Tests/Lines.antt =====
-- Typing, quoting and the edit buffer: the theorems at concrete inputs.
use winzsh.Prelude.{
  ℕ, ◌+◌, ◌-◌, ◌≡◌, refl, List, [], ◌∷◌, ◌++◌, true, false, some, arith, ◌==◌, if◌then◌else◌,
}
use winzsh.Prelude.Int.{pos}
use winzsh.Prelude.Lists.{slice}
use winzsh.Zle.Text.{Text, contents}
use winzsh.Zle.Move.{moved}
use winzsh.Zle.Edit.{Suffix, selfinsert, backwarddeletechar}
use winzsh.Zle.Edit.Typing.{backwarddeletechar-selfinsert}
use winzsh.Zle.KillWord.{word_start, copyprevword}
use winzsh.Zle.KillWord.Laws.{contents-copyprevword}
use winzsh.Zle.Quote.{quoteline, quoteregion, quoted_length, region}
use winzsh.Zle.Quote.Laws.{bare, dequote, dequote-quoteline, contents-quoteregion}
use winzsh.Tests.Data.{command, typed, plain}

abbrev no_suffix : Suffix
no_suffix = record { complexpect = 0; autoparamkeys = true; menucmp = false; addedsuffix = 0 }

backwarddeletechar-selfinsert_example :
    (u : Text) × (r : Text) × (selfinsert no_suffix 120 true (pos 3) (typed command 2) ≡ some u)
    × (backwarddeletechar (pos 3) u ≡ some (moved r))
    × (contents r ≡ contents (typed command 2))
    × (r.cs ≡ (typed command 2).cs)
backwarddeletechar-selfinsert_example =
    backwarddeletechar-selfinsert no_suffix 120 3 (typed command 2) refl (omega arith)

-- `it's`
abbrev apostrophe : Text
apostrophe = typed (105 ∷ 116 ∷ 39 ∷ 115 ∷ []) 3

dequote-quoteline_example :
    (dequote bare (contents (quoteline apostrophe)) ≡ some (contents apostrophe))
    × ((quoteline apostrophe).cs ≡ (quoteline apostrophe).ll)
    × ((quoteline apostrophe).ll ≡ quoted_length (contents apostrophe))
dequote-quoteline_example = dequote-quoteline apostrophe

contents-quoteregion_example :
    (q : List ℕ) × (contents (quoteregion apostrophe)
      ≡ slice (region apostrophe).line 0 (region apostrophe).cs
        ++ (q
            ++ slice
                (region apostrophe).line
                (region apostrophe).mark
                ((region apostrophe).ll - (region apostrophe).mark)))
    × (dequote bare q
        ≡ some (
            slice
              (region apostrophe).line
              (region apostrophe).cs
              ((region apostrophe).mark - (region apostrophe).cs)))
contents-quoteregion_example = contents-quoteregion apostrophe (omega arith)

contents-copyprevword_example :
    (i : ℕ) × (i
      ≡ (if word_start plain 1 apostrophe == 1 then 0 else word_start plain 1 apostrophe))
    × (contents (copyprevword plain apostrophe)
        ≡ slice apostrophe.line 0 apostrophe.cs
          ++ (slice apostrophe.line i (apostrophe.cs - i)
              ++ slice apostrophe.line apostrophe.cs (apostrophe.ll - apostrophe.cs)))
    × ((copyprevword plain apostrophe).cs ≡ apostrophe.cs + (apostrophe.cs - i))
contents-copyprevword_example = contents-copyprevword plain apostrophe (omega arith)
