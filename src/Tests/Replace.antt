-- ===== src/Tests/Replace.antt =====
-- Replacing and splitting at concrete inputs.
use winzsh.Prelude.{◌≡◌, List, [], ◌∷◌, true, refl}
use winzsh.Prelude.Runs.{ran}
use winzsh.Prelude.Strings.{Str}
use winzsh.Prelude.Lists.{length}
use winzsh.Words.{wordcount, sepsplit, sepjoin}
use winzsh.Words.RoundTrip.{whole_chars, sepjoin-sepsplit}
use winzsh.Modifiers.Subst.{subst}
use winzsh.Modifiers.Subst.Laws.{
  Replaced, Part, char, whole_match, written_parts, put_together, subst-Replaced,
}

-- `abab`, in which `ab` becomes `&ab`.
abbrev twice : Str
twice = b'a' ∷ b'b' ∷ b'a' ∷ b'b' ∷ []

abbrev parts : List Part
parts = char b'&' ∷ whole_match ∷ []

subst-Replaced_example :
    (r : Str) × (subst twice (b'a' ∷ b'b' ∷ []) (written_parts parts) true ≡ ran r)
    × Replaced (b'a' ∷ b'b' ∷ []) (put_together (b'a' ∷ b'b' ∷ []) parts) true twice r
subst-Replaced_example = subst-Replaced twice b'a' (b'b' ∷ []) parts true

-- `abab`, split at `b`.
sepjoin-sepsplit_example :
    (words : List Str) × (wordcount twice (b'b' ∷ []) true ≡ ran (length words))
    × (sepsplit twice (b'b' ∷ []) ≡ ran words)
    × (sepjoin words (b'b' ∷ []) ≡ twice)
sepjoin-sepsplit_example =
    sepjoin-sepsplit b'b' [] twice (unfold whole_chars in refl) (unfold whole_chars in refl)
