-- ===== src/HashTable/Remove.antt =====
-- What `removehashnode` does to the lookups.
use winzsh.Prelude.{
  ℕ, ◌+◌, ◌-◌, ◌<◌, ◌≡◌, ◌⊎◌, refl, [], none, some, if◌then◌else◌, Option-cases, inl, inr, arith,
}
use winzsh.Prelude.Strings.{Str, str_eq, str_eq_iff}
use winzsh.HashTable.{Node, HashTable, remove_chain, home, chain, gethashnode2, removehashnode}
use winzsh.HashTable.Chain.{
  count, find-eq-none, length-remove_chain, count-remove_chain, find-remove_chain,
}
use winzsh.HashTable.Valid.{IsTable, length-all_nodes-set, home-lt, changed}
use winzsh.HashTable.Refines.{changed-Binds}

module _ {V : Type 0} (hash : Str → ℕ) where
  removed_none :
      (ht : HashTable V) (nam : Str)
      → gethashnode2 hash ht nam ≡ none
      → removehashnode hash ht nam ≡ (ht, none)
  unfolding removehashnode gethashnode2
  removed_none ht nam e = rw (e, removehashnode)

  removed_some :
      (ht : HashTable V) (v : IsTable hash ht) (nam : Str) (hp : Node V)
      → gethashnode2 hash ht nam ≡ some hp
      → removehashnode hash ht nam
        ≡ (changed hash ht v nam (remove_chain nam (chain hash ht nam)) (ht.ct - 1), some hp)
  unfolding removehashnode gethashnode2
  removed_some ht v nam hp e = rw (e, removehashnode)

  -- On a valid table `removehashnode` returns what the lookup of the name finds, leaves a valid
  -- table that has one node less, if there was one, no longer finds the name and answers every
  -- other lookup as before.
  pub removehashnode-refines :
      (ht : HashTable V) (nam : Str)
      → IsTable hash ht
      → IsTable hash (removehashnode hash ht nam).0
        × ((removehashnode hash ht nam).1 ≡ gethashnode2 hash ht nam)
        × ((gethashnode2 hash ht nam ≡ none) ⊎ ((removehashnode hash ht nam).0.ct + 1 ≡ ht.ct))
        × ((q : Str)
            → gethashnode2 hash (removehashnode hash ht nam).0 q
              ≡ (if str_eq nam q then none else gethashnode2 hash ht q))
  removehashnode-refines ht nam v = elim (Option-cases (gethashnode2 hash ht nam)) [
    | inl e ↦ rw (removed_none ht nam e, e) (v, refl, inl refl, λ q. absent q e)
    | inr (hp, e) ↦
        let c = chain hash ht nam in
        let there : 0 < count nam c = present e in
        let shorter = length-remove_chain nam c there in
        let counted : 0 < ht.ct = omega (
          arith,
          length-all_nodes-set ht.nodes (home hash ht nam) [] (home-lt hash ht nam v),
          v.counted,
          shorter,
        ) in
        let b =
          changed-Binds hash ht v nam none (remove_chain nam c) (ht.ct - 1)
            (omega (arith, shorter, counted)) (λ q le. omega (arith, count-remove_chain nam q c))
            (λ q z ne. omega (arith, count-remove_chain nam q c))
            (λ q le. find-remove_chain nam q c le) in
        rw (removed_some ht v nam hp e, e) (b.valid, refl, inr (omega arith), b.reads)
  ]
    where
      absent :
          (q : Str)
          → gethashnode2 hash ht nam ≡ none
          → gethashnode2 hash ht q ≡ (if str_eq nam q then none else gethashnode2 hash ht q)
      absent q e = ground (arith, str_eq_iff nam q)

      present :
          {hp : Node V} → gethashnode2 hash ht nam ≡ some hp → 0 < count nam (chain hash ht nam)
      present e = unfold gethashnode2 in ground (arith, find-eq-none nam (chain hash ht nam))
