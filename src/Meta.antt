-- ===== src/Meta.antt =====
-- Metafied strings, Src/utils.c: `metafy`, `unmetafy`, `metalen`,
-- `ztrcmp`, `ztrlen` and `ztrsub`.
-- A byte that the shell uses for itself is stored as Meta and the byte with bit 5 flipped.
pub mod RoundTrip
pub mod Order
use mathlib.Core.List.{reverse}
use winzsh.Prelude.{
  ℕ, zero, suc, ◌+◌, ◌-◌, List, [], ◌∷◌, ◌++◌, Bool, true, false, Option, none, some, bit_xor, ltb,
  ◌==◌, if◌then◌else◌,
}
use winzsh.Prelude.Lists.{length}
use winzsh.Chars.{imeta, meta}

-- `c ^ 32`
abbrev pub flip : ℕ → ℕ
flip c = bit_xor c 32

-- The first loop: how many bytes are special.
unfoldable pub count_meta : List ℕ → ℕ
count_meta [] = 0
count_meta (c ∷ buf) = if imeta c then suc (count_meta buf) else count_meta buf

-- `while (meta) { if (imeta(*--t = *--p)) { *t-- ^= 32; *t = Meta; meta--; } }`: `left` is what
-- stands before `p`, last byte first, and `done` what stands from `t` on. At `meta` 0 the
-- pointers meet, and what is left stays where it is.
unfoldable pub metafy_back : ℕ → List ℕ → List ℕ → List ℕ
metafy_back zero left done = reverse left ++ done
metafy_back (suc n) [] done = done
metafy_back (suc n) (c ∷ left) done =
    let special = metafy_back n left (meta ∷ flip c ∷ done) in
    let plain = metafy_back (suc n) left (c ∷ done) in if imeta c then special else plain

-- The buffer `buf` of `len` bytes; where the result is allocated has no effect on its bytes.
unfoldable pub metafy : List ℕ → List ℕ
metafy buf = metafy_back (count_meta buf) (reverse buf) []

-- The second loop of `unmetafy`. A byte is copied from `p` to `t`, which is not behind it; the
-- first loop only skips the bytes that would be copied onto themselves. After a Meta at the end
-- of the string the source copies the null byte, flipped, and reads on behind it: `none`.
unfoldable pub unmetafy : List ℕ → Option (List ℕ)
unmetafy [] = some []
unmetafy (c ∷ []) = if c == meta then none else some (c ∷ [])
unmetafy (c ∷ d ∷ s) =
    let after = unmetafy s in
    let next = unmetafy (d ∷ s) in
    if c == meta
    then elim after [ none ↦ none | some r ↦ some (flip d ∷ r) ]
    else elim next [ none ↦ none | some r ↦ some (c ∷ r) ]

-- The count `l` of the loop; at a Meta the byte behind it is skipped, the null byte too.
unfoldable pub ztrlen : List ℕ → ℕ
ztrlen [] = 0
ztrlen (c ∷ []) = 1
ztrlen (c ∷ d ∷ s) =
    let after = ztrlen s in let next = ztrlen (d ∷ s) in suc (if c == meta then after else next)

-- `mlen` of the loop over `len` characters of `s`.
unfoldable pub metalen_extra : List ℕ → ℕ → ℕ
metalen_extra s zero = 0
metalen_extra [] (suc len) = 0
metalen_extra (c ∷ []) (suc len) = if c == meta then 1 else 0
metalen_extra (c ∷ d ∷ s) (suc len) =
    let after = metalen_extra s len in
    let next = metalen_extra (d ∷ s) len in if c == meta then suc after else next

unfoldable pub metalen : List ℕ → ℕ → ℕ
unfolding metalen_extra
metalen s len = len + metalen_extra s len

-- `c1` of `ztrcmp`, plus 1: 0 at the end of the string.
unfoldable pub lead : List ℕ → ℕ
lead [] = 0
lead (c ∷ []) = if c == meta then suc (flip 0) else suc c
lead (c ∷ d ∷ s) = if c == meta then suc (flip d) else suc c

-- The three results -1, 0 and 1.
pub data Sign : Type 0 where
  less : Sign
  same : Sign
  greater : Sign

unfoldable pub sign : ℕ → ℕ → Sign
sign a b = if a == b then same else if ltb a b then less else greater

unfoldable pub ztrcmp : List ℕ → List ℕ → Sign
unfolding lead sign
ztrcmp [] s2 = sign 0 (lead s2)
ztrcmp (c ∷ s1) [] = sign (lead (c ∷ s1)) 0
ztrcmp (c ∷ s1) (d ∷ s2) =
    let rest = ztrcmp s1 s2 in if c == d then rest else sign (lead (c ∷ s1)) (lead (d ∷ s2))

-- `ztrsub(s + n, s)`; `none` where the loop steps over its end.
unfoldable pub ztrsub : ℕ → List ℕ → Option ℕ
ztrsub zero s = some 0
ztrsub (suc n) [] = none
ztrsub (suc zero) (c ∷ s) = if c == meta then none else some 1
ztrsub (suc (suc n)) (c ∷ []) = none
ztrsub (suc (suc n)) (c ∷ d ∷ s) =
    let after = ztrsub n s in
    let next = ztrsub (suc n) (d ∷ s) in
    elim (if c == meta then after else next) [ none ↦ none | some l ↦ some (suc l) ]
