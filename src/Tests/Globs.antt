-- ===== src/Tests/Globs.antt =====
-- Patterns at concrete inputs.
use winzsh.Prelude.{ℕ, ◌↔◌, List, [], ◌∷◌, Bool, true, false, ◌≡◌, refl, arith}
use winzsh.Prelude.Runs.{Run, ran, stuck, unfinished}
use winzsh.Prelude.Strings.{Str}
use winzsh.Chars.{itok, idigit, inblank}
use winzsh.Parens.{skipparens, skip_levels}
use winzsh.Number.{zstrtol, zstrtol_sign, zstrtol_base, zstrtol_digits, skip_inblank}
use winzsh.Pattern.{
  star, pound, inpar, outpar, bar, hat, tilde, inbrack, outbrack, inang, outang, untok, next_char,
  Options, Comp,
}
use winzsh.Pattern.Scan.{
  scan, group, in_group, end_of_group, behind_group, numeric, in_range, skip_digits, digits_back,
  shorten, upper_limit,
}
use winzsh.Pattern.Match.{
  domatch, doesmatch, tailrec, try_rest, run_piece, alternatives, excluded, other_alternative,
  proceed,
}
use winzsh.Pattern.Parse.{
  parsed, parsereg, parse, comp_loop, remnulargs, chuck_nulls, separates, parse_group, parse_pound,
  parse_star, parse_hat, star_goes_on, pounds, item, angles, brackets, end_stat, exclusion,
  alternative,
}
use winzsh.Pattern.Glob.{
  Item, byte, once, many, plus, anything, Matches, written, plain_items, all_plain,
}
use winzsh.Pattern.Tokenize.{tokenize}
use winzsh.Pattern.Tokenize.Quoted.{escape, domatch-tokenize}
use winzsh.Pattern.Glob.Decides.{domatch-parsereg}
use winzsh.Pattern.Glob.Loops.{closure_of_closure, loops, domatch-closure_of_closure}

abbrev extended : Options
extended = record {
  extendedglob = true;
  shglob = false;
  ignorecase = false;
  errflag = false;
  pathbuf = [];
}

abbrev glob : Str → Str → Run Bool
glob p s = elim (parsereg extended 20 p) [
  | parsed c rest ↦ domatch extended 30 s c false
  | _ ↦ stuck
]

matches_test :
    (glob (inpar ∷ b'a' ∷ bar ∷ b'b' ∷ outpar ∷ pound ∷ b'c' ∷ []) (b'a' ∷ b'b' ∷ b'b' ∷ b'c' ∷ [])
      ≡ ran true)
    × (glob
          (inbrack ∷ b'a' ∷ b'-' ∷ b'c' ∷ outbrack ∷ pound ∷ pound ∷ b'z' ∷ [])
          (b'a' ∷ b'c' ∷ b'z' ∷ [])
        ≡ ran true)
    × (glob (inang ∷ b'3' ∷ b'-' ∷ b'1' ∷ b'5' ∷ outang ∷ star ∷ []) (b'1' ∷ b'2' ∷ b'3' ∷ [])
        ≡ ran true)
    × (glob (star ∷ tilde ∷ b'1' ∷ star ∷ []) (b'1' ∷ b'2' ∷ b'3' ∷ []) ≡ ran false)
    × (glob (inang ∷ b'3' ∷ b'-' ∷ outang ∷ hat ∷ b'a' ∷ []) (b'1' ∷ b'2' ∷ b'b' ∷ []) ≡ ran true)
unfolding parsereg parse comp_loop remnulargs chuck_nulls separates parse_group parse_pound
    parse_star parse_hat star_goes_on skipparens skip_levels pounds item angles brackets end_stat
    untok exclusion alternative domatch doesmatch tailrec try_rest run_piece alternatives excluded
    other_alternative proceed scan group in_group end_of_group behind_group numeric in_range
    skip_digits digits_back shorten upper_limit next_char itok idigit zstrtol zstrtol_sign
    zstrtol_base zstrtol_digits skip_inblank inblank
matches_test = (refl, refl, refl, refl, refl)

-- `a*c#?`
abbrev simple : List Item
simple = once (byte b'a') ∷ anything ∷ many (byte b'c') ∷ plus (byte b'd') ∷ []

abbrev word : Str
word = b'a' ∷ b'b' ∷ b'c' ∷ b'd' ∷ []

domatch-parsereg_example :
    (c : Comp) × (b : Bool) × (parsereg extended 10 (written simple) ≡ parsed c [])
    × (domatch extended 30 word c false ≡ ran b)
    × ((b ≡ true) ↔ Matches false simple word)
domatch-parsereg_example =
    domatch-parsereg extended refl simple word 10 30 refl (unfold plain_items itok in refl)
      (unfold all_plain itok in refl) (unfold written in omega arith)
      (unfold written in omega arith)

domatch-closure_of_closure_example :
    (parsereg extended 10 closure_of_closure ≡ parsed loops [])
    × ((fuel : ℕ) → domatch extended fuel (b'c' ∷ []) loops true ≡ unfinished)
domatch-closure_of_closure_example = domatch-closure_of_closure extended b'c' [] refl true refl refl

-- `a[*b`
abbrev brackets_star : Str
brackets_star = b'a' ∷ b'[' ∷ b'*' ∷ b'b' ∷ []

domatch-tokenize_example :
    (m : Str) × (c : Comp) × (b : Bool) × (tokenize extended (escape brackets_star) ≡ ran m)
    × (parsereg extended 10 m ≡ parsed c [])
    × (domatch extended 30 word c false ≡ ran b)
    × ((b ≡ true) ↔ (word ≡ brackets_star))
domatch-tokenize_example =
    domatch-tokenize extended refl brackets_star word 10 30 refl refl refl
      (unfold all_plain itok in refl) (unfold all_plain itok in refl) (omega arith) (omega arith)
