-- ===== src/Zle/Case.antt =====
-- The case changes of Src/zle_word.c.
pub mod Laws
use winzsh.Prelude.{ℕ, zero, suc, ◌+◌, ◌-◌, Bool, true, false, not, ◌&&◌, ◌||◌, if◌then◌else◌}
use winzsh.Prelude.Int.{ℤ}
use winzsh.Prelude.Lists.{update}
use winzsh.Chars.{Classes, tulower, tuupper, between}
use winzsh.Zle.Scan.{skip_up}
use winzsh.Zle.Text.{Text}
use winzsh.Zle.Move.{at}
use winzsh.Zle.Word.{magnitude, is_neg, word_at, gap_at}

-- `isalpha` of the C locale.
unfoldable pub isalpha : ℕ → Bool
isalpha c = between b'a' b'z' c || between b'A' b'Z' c

module _ (k : Classes) where
  -- `while (cs != ll && iword(line[cs])) { line[cs] = f(line[cs]); cs++; }`
  unfoldable pub case_run : (ℕ → ℕ) → ℕ → Text → Text
  case_run f zero t = t
  case_run f (suc n) t = elim (k.is_word (t.line t.cs)) [
    | true ↦ case_run f n (record t { line = update t.line t.cs (f (t.line t.cs)); cs = t.cs + 1 })
    | false ↦ t
  ]

  unfoldable pub case_word : (ℕ → ℕ) → Text → Text
  case_word f t = let t' = at t (skip_up (gap_at k t) t.ll t.cs) in case_run f (t'.ll - t'.cs) t'

  unfoldable pub case_loop : (ℕ → ℕ) → ℕ → Text → Text
  case_loop f zero t = t
  case_loop f (suc n) t = case_loop f n (case_word f t)

  -- `if (neg) cs = ocs;`
  abbrev pub restore : ℤ → ℕ → Text → Text
  restore zmult ocs t = if is_neg zmult then at t ocs else t

  unfoldable pub upcaseword : ℤ → Text → Text
  upcaseword zmult t = restore zmult t.cs (case_loop tuupper (magnitude zmult) t)

  unfoldable pub downcaseword : ℤ → Text → Text
  downcaseword zmult t = restore zmult t.cs (case_loop tulower (magnitude zmult) t)

  -- The last loop of `capitalizeword`, with its flag `first`.
  unfoldable pub capitalize_run : Bool → ℕ → Text → Text
  capitalize_run first zero t = t
  capitalize_run first (suc n) t = elim (k.is_word (t.line t.cs)) [
    | true ↦
        let c = if first then tuupper (t.line t.cs) else tulower (t.line t.cs) in
        capitalize_run false n (record t { line = update t.line t.cs c; cs = t.cs + 1 })
    | false ↦ t
  ]

  -- The first letter of a word is raised, and what follows is lowered.
  unfoldable pub capitalize_word : Text → Text
  capitalize_word t =
      let t' = at t (skip_up (gap_at k t) t.ll t.cs) in
      let t'' = at t' (skip_up (λ j. word_at k t' j && not (isalpha (t'.line j))) t'.ll t'.cs) in
      capitalize_run true (t''.ll - t''.cs) t''

  unfoldable pub capitalize_loop : ℕ → Text → Text
  capitalize_loop zero t = t
  capitalize_loop (suc n) t = capitalize_loop n (capitalize_word t)

  unfoldable pub capitalizeword : ℤ → Text → Text
  capitalizeword zmult t = restore zmult t.cs (capitalize_loop (magnitude zmult) t)
