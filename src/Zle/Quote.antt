-- ===== src/Zle/Quote.antt =====
-- Quoting: `makequote`, `quoteline` and `quoteregion` of Src/zle_misc.c.
pub mod Laws
use winzsh.Prelude.{ℕ, zero, suc, ◌+◌, ◌-◌, ◌*◌, List, [], ◌∷◌, ◌++◌, ltb, ◌==◌, if◌then◌else◌}
use winzsh.Prelude.Lists.{slice, write, length}
use winzsh.Zle.Text.{Text, contents, sizeline, foredel}
use winzsh.Zle.Kill.{insert_bytes}

abbrev pub single_quote : ℕ
single_quote = b'\''

abbrev pub backslash : ℕ
backslash = 92

-- The first loop: how many quotes there are.
unfoldable pub quote_count : List ℕ → ℕ
quote_count [] = 0
quote_count (c ∷ s) = if c == single_quote then suc (quote_count s) else quote_count s

-- `*len` after the call.
unfoldable pub quoted_length : List ℕ → ℕ
unfolding quote_count
quoted_length s = length s + (2 + quote_count s * 3)

-- The second loop.
unfoldable pub quote_bytes : List ℕ → List ℕ
quote_bytes [] = []
quote_bytes (c ∷ s) =
    let rest = quote_bytes s in
    if c == single_quote
    then single_quote ∷ backslash ∷ single_quote ∷ single_quote ∷ rest
    else c ∷ rest

unfoldable pub makequote : List ℕ → List ℕ
makequote s = single_quote ∷ (quote_bytes s ++ (single_quote ∷ []))

unfoldable pub quoteline : Text → Text
quoteline t =
    let q = makequote (contents t) in
    record (sizeline (length q) t) { line = write t.line 0 q; ll = length q; cs = length q }

-- The region: from the smaller of `cs` and `mark`, which is not behind the line, to the larger.
unfoldable pub region : Text → Text
region t =
    let m = if ltb t.ll t.mark then t.ll else t.mark in
    if ltb m t.cs then record t { cs = m; mark = t.cs } else record t { mark = m }

unfoldable pub quoteregion : Text → Text
quoteregion t =
    let r = region t in
    let n = r.mark - r.cs in
    record (insert_bytes (makequote (slice r.line r.cs n)) (foredel n r)) { mark = r.cs }
