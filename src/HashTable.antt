-- ===== src/HashTable.antt =====
-- The generic hash tables of Src/hashtable.c. A node is its name, the flag DISABLED and the data of
-- the structure that it stands in; a chain is the list of its nodes. `ht->hash` is a parameter, as
-- tables differ in it; `hasher` is the usual one. `ht->freenode` frees a node that the table has
-- given up, and has no effect on the table.
pub mod Chain
pub mod Valid
pub mod Refines
pub mod Remove
use winzsh.Prelude.{
  ℕ, zero, suc, ◌+◌, ◌-◌, ◌*◌, ◌%◌, ◌^◌, List, [], ◌∷◌, ◌++◌, Bool, true, false, Option, none, some,
  ◌==◌, if◌then◌else◌,
}
use winzsh.Prelude.Lists.{get_or, set, replicate, length}
use winzsh.Prelude.Strings.{Str, str_eq}

-- `hashval += (hashval << 5) + c`, in 32-bit unsigned arithmetic.
unfoldable pub hasher_from : ℕ → Str → ℕ
hasher_from hashval [] = hashval
hasher_from hashval (c ∷ s) = hasher_from ((hashval + (hashval * 32 + c)) % 2 ^ 32) s

unfoldable pub hasher : Str → ℕ
unfolding hasher_from
hasher str = hasher_from 0 str

pub record Node (V : Type 0) : Type 0 where
  pub nam : Str
  pub disabled : Bool
  pub dat : V

pub record HashTable (V : Type 0) : Type 0 where
  pub nodes : List (List (Node V))
  pub hsize : ℕ
  pub ct : ℕ

unfoldable pub newhashtable : {V : Type 0} → ℕ → HashTable V
newhashtable size = record { nodes = replicate size []; hsize = size; ct = 0 }

module _ {V : Type 0} where
  -- The search of a chain.
  unfoldable pub find : Str → List (Node V) → Option (Node V)
  find nam [] = none
  find nam (hp ∷ rest) = if str_eq hp.nam nam then some hp else find nam rest

  -- The search of `addhashnode`: a node of the same name gives its place to the new one.
  unfoldable pub replace : Node V → List (Node V) → Option (List (Node V))
  replace hn [] = none
  replace hn (hp ∷ rest) =
      if str_eq hp.nam hn.nam
      then some (hn ∷ rest)
      else elim (replace hn rest) [ none ↦ none | some r ↦ some (hp ∷ r) ]

  -- The chain with the node, and whether the count of nodes grows.
  unfoldable pub add_chain : Node V → List (Node V) → List (Node V) × Bool
  unfolding replace
  add_chain hn c = elim (replace hn c) [ some r ↦ (r, false) | none ↦ (hn ∷ c, true) ]

  unfoldable pub remove_chain : Str → List (Node V) → List (Node V)
  remove_chain nam [] = []
  remove_chain nam (hp ∷ rest) = if str_eq hp.nam nam then rest else hp ∷ remove_chain nam rest

  unfoldable pub all_nodes : List (List (Node V)) → List (Node V)
  all_nodes [] = []
  all_nodes (c ∷ cs) = c ++ all_nodes cs

  unfoldable pub disablehashnode : Node V → Node V
  disablehashnode hn = record hn { disabled = true }

  unfoldable pub enablehashnode : Node V → Node V
  enablehashnode hn = record hn { disabled = false }

module _ {V : Type 0} (hash : Str → ℕ) where
  abbrev pub home : HashTable V → Str → ℕ
  home ht nam = hash nam % ht.hsize

  abbrev pub chain : HashTable V → Str → List (Node V)
  chain ht nam = get_or ht.nodes (home ht nam) []

  unfoldable pub gethashnode2 : HashTable V → Str → Option (Node V)
  gethashnode2 ht nam = find nam (chain ht nam)

  -- The first node of the name decides.
  unfoldable pub gethashnode : HashTable V → Str → Option (Node V)
  gethashnode ht nam = elim (find nam (chain ht nam)) [
    | none ↦ none
    | some hp ↦ if hp.disabled then none else some hp
  ]

  unfoldable pub removehashnode : HashTable V → Str → HashTable V × Option (Node V)
  removehashnode ht nam = elim (find nam (chain ht nam)) [
    | none ↦ (ht, none)
    | some hp ↦ (
      record ht {
        nodes = set ht.nodes (home ht nam) (remove_chain nam (chain ht nam));
        ct = ht.ct - 1;
      },
      some hp,
    )
  ]

  -- `addhashnode` up to the call of `expandhashtable`; `true` if that is due.
  unfoldable pub put_node : HashTable V → Node V → HashTable V × Bool
  unfolding add_chain
  put_node ht hn =
      let (c, added) = add_chain hn (chain ht hn.nam) in
      let nodes = set ht.nodes (home ht hn.nam) c in
      if added
      then (record ht { nodes = nodes; ct = ht.ct + 1 }, ht.ct + 1 == ht.hsize * 2)
      else (record ht { nodes = nodes }, false)

  -- The loops of `expandhashtable`, with `add` for `ht->addnode`.
  unfoldable pub rehash :
      (HashTable V → Node V → Option (HashTable V))
      → List (Node V)
      → HashTable V
      → Option (HashTable V)
  rehash add [] ht = some ht
  rehash add (hn ∷ rest) ht = elim (add ht hn) [ none ↦ none | some ht' ↦ rehash add rest ht' ]

  unfoldable pub expandhashtable :
      (HashTable V → Node V → Option (HashTable V)) → HashTable V → Option (HashTable V)
  expandhashtable add ht = rehash add (all_nodes ht.nodes) (newhashtable (ht.hsize * 4))

  -- `addhashnode` and `expandhashtable` call one another; `fuel` bounds the depth of these calls,
  -- and `none` means that it was too small.
  unfoldable pub addhashnode : ℕ → HashTable V → Node V → Option (HashTable V)
  addhashnode zero ht hn = none
  addhashnode (suc fuel) ht hn =
      let (ht', due) = put_node ht hn in
      elim due [ false ↦ some ht' | true ↦ expandhashtable (addhashnode fuel) ht' ]
