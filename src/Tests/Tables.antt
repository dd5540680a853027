-- ===== src/Tests/Tables.antt =====
-- Metafied strings, parentheses and hash tables: the theorems at concrete inputs.
use winzsh.Prelude.{
  ℕ, zero, suc, refl, ◌%◌, ◌+◌, ◌*◌, ◌<◌, ◌≡◌, ◌≢◌, ◌⊎◌, List, [], ◌∷◌, ◌++◌, false, some, none,
  arith, if◌then◌else◌,
}
use winzsh.Prelude.Lists.{get_or}
use winzsh.Prelude.Strings.{Str, str_eq, str_eq_iff}
use winzsh.Meta.{metafy, unmetafy, ztrcmp}
use winzsh.Meta.Order.{compare_bytes, ztrcmp-metafy}
use winzsh.Meta.RoundTrip.{unmetafy-metafy}
use winzsh.Parens.{Balanced, nest, byte, empty, skipparens, skipparens-Balanced}
use winzsh.HashTable.{
  Node, HashTable, newhashtable, all_nodes, home, hasher, gethashnode2, addhashnode, removehashnode,
}
use winzsh.HashTable.Chain.{count}
use winzsh.HashTable.Valid.{IsTable, newhashtable-IsTable}
use winzsh.HashTable.Refines.{addhashnode-refines}
use winzsh.HashTable.Remove.{removehashnode-refines}

-- `a`, Meta, the null byte and `b`.
abbrev bytes : List ℕ
bytes = 97 ∷ 0x83 ∷ 0 ∷ 98 ∷ []

unmetafy-metafy_example : unmetafy (metafy bytes) ≡ some bytes
unmetafy-metafy_example =
    unmetafy-metafy bytes (omega arith, (omega arith, (omega arith, (omega arith, tt))))

abbrev alias : Node ℕ
alias = record { nam = 108 ∷ 115 ∷ []; disabled = false; dat = 7 }

abbrev no_nodes : HashTable ℕ
no_nodes = newhashtable 1

addhashnode-refines_example :
    (r : HashTable ℕ) × (addhashnode hasher 2 no_nodes alias ≡ some r)
    × IsTable hasher r
    × (r.ct < r.hsize * 2)
    × ((q : Str)
        → gethashnode2 hasher r q
          ≡ (if str_eq alias.nam q then some alias else gethashnode2 hasher no_nodes q))
addhashnode-refines_example =
    addhashnode-refines hasher 0 no_nodes alias (newhashtable-IsTable hasher 1 (omega arith))
      (unfold newhashtable in omega arith)

-- A table with two names in its one chain.
abbrev two : HashTable ℕ
two = record {
  nodes = (alias ∷ (record { nam = 108 ∷ []; disabled = false; dat = 9 }) ∷ []) ∷ [];
  hsize = 1;
  ct = 2;
}

abbrev ls : Str
ls = 108 ∷ 115 ∷ []

one_chain : (n : ℕ) → n % 1 ≡ 0
one_chain n = omega arith

placed_two : (q : Str) (i : ℕ) → home hasher two q ≢ i → count q (get_or two.nodes i []) ≡ 0
unfolding count
placed_two q zero n = absurd (n (one_chain (hasher q)))
placed_two q (suc zero) n = refl
placed_two q (suc (suc i)) n = refl

two-IsTable : IsTable hasher two
unfolding all_nodes count
two-IsTable = record {
  some_chain = omega arith;
  size = refl;
  counted = refl;
  once = λ q. rw one_chain (ground (arith, str_eq_iff ls q, str_eq_iff (108 ∷ []) q));
  placed = placed_two;
}

removehashnode-refines_example :
    IsTable hasher (removehashnode hasher two ls).0
    × ((removehashnode hasher two ls).1 ≡ gethashnode2 hasher two ls)
    × ((gethashnode2 hasher two ls ≡ none) ⊎ ((removehashnode hasher two ls).0.ct + 1 ≡ two.ct))
    × ((q : Str)
        → gethashnode2 hasher (removehashnode hasher two ls).0 q
          ≡ (if str_eq ls q then none else gethashnode2 hasher two q))
removehashnode-refines_example = removehashnode-refines hasher two ls two-IsTable

-- `a` and Meta
abbrev shorter_bytes : List ℕ
shorter_bytes = 97 ∷ 0x83 ∷ []

ztrcmp-metafy_example :
    ztrcmp (metafy shorter_bytes) (metafy bytes) ≡ compare_bytes shorter_bytes bytes
ztrcmp-metafy_example =
    ztrcmp-metafy shorter_bytes bytes (omega arith, (omega arith, tt))
      (omega arith, (omega arith, (omega arith, (omega arith, tt))))

-- `(a)`
nested : Balanced 40 41 (40 ∷ (97 ∷ []) ++ (41 ∷ []))
nested = nest (97 ∷ []) [] (byte 97 [] refl refl empty) empty

skipparens-Balanced_example :
    skipparens 40 41 (40 ∷ ((40 ∷ 97 ∷ 41 ∷ []) ++ (41 ∷ 98 ∷ []))) ≡ some (0, 98 ∷ [])
skipparens-Balanced_example = skipparens-Balanced 40 41 refl (40 ∷ 97 ∷ 41 ∷ []) (98 ∷ []) nested
