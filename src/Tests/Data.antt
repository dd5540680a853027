-- ===== src/Tests/Data.antt =====
-- Lines, an editor and a history for the tests.
use winzsh.Prelude.{ℕ, List, [], ◌∷◌, false, none}
use winzsh.Prelude.Lists.{length, get_or}
use winzsh.Chars.{Classes, iword, iident, iblank}
use winzsh.Zle.Text.{Text}
use winzsh.Zle.Kill.{CutBuffer, Editor, filled}
use winzsh.Zle.Undo.{History}

abbrev pub bytes_at : List ℕ → ℕ → ℕ
bytes_at s j = get_or s j 0

abbrev pub typed : List ℕ → ℕ → Text
typed s c = record { line = bytes_at s; linesz = 256; ll = length s; cs = c; mark = 0 }

-- `ls (a b)`
abbrev pub command : List ℕ
command = 108 ∷ 115 ∷ 32 ∷ 40 ∷ 97 ∷ 32 ∷ 98 ∷ 41 ∷ []

abbrev pub plain : Classes
plain = record { is_word = λ c. iword [] c; is_ident = λ c. iident c; is_blank = λ c. iblank c }

abbrev pub nothing : CutBuffer
nothing = record { buf = none; whole_lines = false }

-- An editor with the cursor at `c` that has killed `ps` before.
abbrev pub editor : ℕ → Editor
editor c = record {
  text = typed command c;
  cutbuf = filled (112 ∷ 115 ∷ []) false;
  kring = λ i. nothing;
  kringnum = 0;
  vibuf = λ i. nothing;
  vibufspec = 0;
  gotvibufspec = false;
  vibufappend = false;
  vilinerange = false;
  killing = false;
  yanking = false;
  kct = 0;
  yankb = 0;
  yanke = 0;
  beep = false;
  clearlist = false;
}

abbrev pub history : History
history = record {
  text = typed command 3;
  undos = λ i. record { pref = 0; suff = 0; cs = 0; change = none };
  undoct = 63;
  lastline = bytes_at (108 ∷ 115 ∷ []);
  lastll = 2;
  lastcs = 2;
  beep = false;
}
