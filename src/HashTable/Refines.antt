-- ===== src/HashTable/Refines.antt =====
-- The tables as finite maps: what `addhashnode`, with its expansions, does to the lookups.
use winzsh.Prelude.{
  ℕ, suc, ◌+◌, ◌*◌, ◌≤◌, ◌<◌, ◌≡◌, ◌∙◌, ◌⊎◌, refl, List, [], ◌∷◌, Bool, true, false, Option, none,
  some, ◌==◌, if◌then◌else◌, Bool-cases, inl, inr, arith,
}
use winzsh.Prelude.Lists.{get_or-replicate, length}
use winzsh.Prelude.Strings.{Str, str_eq, str_eq_iff, str_eq_refl}
use winzsh.HashTable.{
  Node, HashTable, newhashtable, find, add_chain, all_nodes, home, chain, gethashnode2, put_node,
  rehash, expandhashtable, addhashnode,
}
use winzsh.HashTable.Chain.{count, find-eq-none, find-none, add_chain-Added}
use winzsh.HashTable.Valid.{
  IsTable, newhashtable-IsTable, changed, chain-changed, changed-IsTable, all_nodes_at,
}

module _ {V : Type 0} (hash : Str → ℕ) where
  -- The table `r` has the node `o` under the name `k`, and is `ht` elsewhere.
  pub record Binds (ht : HashTable V) (k : Str) (o : Option (Node V)) (r : HashTable V)
      : Type 0 where
    pub valid : IsTable hash r
    pub hsize : r.hsize ≡ ht.hsize
    pub reads :
        (q : Str) → gethashnode2 hash r q ≡ (if str_eq k q then o else gethashnode2 hash ht q)

  -- A new chain for `k` with the right lookups.
  pub changed-Binds :
      (ht : HashTable V) (v : IsTable hash ht) (k : Str) (o : Option (Node V)) (c : List (Node V))
      (n : ℕ)
      → n + length (chain hash ht k) ≡ ht.ct + length c
      → ((q : Str) → count q (chain hash ht k) ≤ 1 → count q c ≤ 1)
      → ((q : Str) → count q (chain hash ht k) ≡ 0 → str_eq k q ≡ false → count q c ≡ 0)
      → ((q : Str)
          → count q (chain hash ht k) ≤ 1
          → find q c ≡ (if str_eq k q then o else find q (chain hash ht k)))
      → Binds ht k o (changed hash ht v k c n)
  unfolding gethashnode2
  changed-Binds ht v k o c n size few away finds = record {
    valid =
        changed-IsTable hash ht v k c n size (λ q e. ground (arith, few q, v.once q))
          (λ q ne. ground (arith, away q, v.placed q (home hash ht k), str_eq_iff k q));
    hsize = refl;
    reads = λ q.
        rw (chain-changed hash ht v k c n q) (ground (arith, finds q, v.once q, str_eq_iff k q));
  }

  -- What `addhashnode` does before it may expand the table: a new name is counted.
  record Put (ht : HashTable V) (hn : Node V) (r : HashTable V × Bool) : Type 0 where
    binds : Binds ht hn.nam (some hn) r.0
    fresh :
        gethashnode2 hash ht hn.nam ≡ none
        → (r.0.ct ≡ ht.ct + 1) × (r.1 ≡ (ht.ct + 1 == ht.hsize * 2))
    grown : (r.0.ct ≤ ht.ct + 1) × ((r.1 ≡ false) ⊎ (ht.ct + 1 ≡ ht.hsize * 2))
    full : r.1 ≡ false → ht.ct < ht.hsize * 2 → r.0.ct < r.0.hsize * 2

  put_node-Put :
      (ht : HashTable V) (hn : Node V) → IsTable hash ht → Put ht hn (put_node hash ht hn)
  unfolding put_node gethashnode2
  put_node-Put ht hn v =
      let c = chain hash ht hn.nam in
      let p = add_chain hn c in
      let a = add_chain-Added hn c in
      elim (Bool-cases p.1) [
        | inl t ↦ rw t (record {
          binds =
              changed-Binds ht v hn.nam (some hn) p.0 (ht.ct + 1) (ground (arith, a.size))
                (λ q le. ground (arith, a.counts q, a.is_new, str_eq_iff hn.nam q))
                (λ q z ne. ground (arith, a.counts q)) (λ q le. a.finds q);
          fresh = λ n. (refl, refl);
          grown = ground arith;
          full = λ n le. ground arith;
        })
        | inr f ↦ rw f (record {
          binds =
              changed-Binds ht v hn.nam (some hn) p.0 ht.ct (ground (arith, a.size))
                (λ q le. ground (arith, a.counts q)) (λ q z ne. ground (arith, a.counts q))
                (λ q le. a.finds q);
          fresh = λ n. absurd (omega (arith, a.is_old f, find-none hn.nam c n));
          grown = ground arith;
          full = λ n le. ground arith;
        })
      ]

  -- Adding the nodes of a list that the table does not have, where there is room for them all.
  record Filled (ht : HashTable V) (es : List (Node V)) (r : HashTable V) : Type 0 where
    valid : IsTable hash r
    hsize : r.hsize ≡ ht.hsize
    ct : r.ct ≡ ht.ct + length es
    new : (q : Str) → 0 < count q es → gethashnode2 hash r q ≡ find q es
    old : (q : Str) → count q es ≡ 0 → gethashnode2 hash r q ≡ gethashnode2 hash ht q

  addhashnode_stays :
      (fuel : ℕ) (ht : HashTable V) (hn : Node V)
      → (put_node hash ht hn).1 ≡ false
      → addhashnode hash (suc fuel) ht hn ≡ some (put_node hash ht hn).0
  unfolding addhashnode
  addhashnode_stays fuel ht hn e = rw (e, addhashnode)

  addhashnode_expands :
      (fuel : ℕ) (ht : HashTable V) (hn : Node V)
      → (put_node hash ht hn).1 ≡ true
      → addhashnode hash (suc fuel) ht hn
        ≡ expandhashtable hash (addhashnode hash fuel) (put_node hash ht hn).0
  unfolding addhashnode
  addhashnode_expands fuel ht hn e = rw (e, addhashnode)

  rehash-Filled :
      (fuel : ℕ) (es : List (Node V)) (ht : HashTable V)
      → IsTable hash ht
      → ht.ct + length es < ht.hsize * 2
      → ((q : Str) → count q es ≤ 1)
      → ((q : Str) → 0 < count q es → gethashnode2 hash ht q ≡ none)
      → (r : HashTable V) × (rehash hash (addhashnode hash (suc fuel)) es ht ≡ some r)
        × Filled ht es r
  unfolding rehash count find
  rehash-Filled fuel [] ht v room once apart = (
    ht,
    refl,
    record {
      valid = v;
      hsize = refl;
      ct = omega arith;
      new = λ q h. absurd (omega arith);
      old = λ q h. refl;
    },
  )
  rehash-Filled fuel (hn ∷ es) ht v room once apart =
      let p = put_node hash ht hn in
      let put = put_node-Put ht hn v in
      let absent = apart hn.nam (ground (arith, str_eq_refl hn.nam)) in
      let fresh = put.fresh absent in
      let step = addhashnode_stays fuel ht hn (ground (arith, fresh)) in
      let b = put.binds in
      let (r, run, f) =
        rehash-Filled fuel es p.0 b.valid (omega (arith, fresh.0, b.hsize))
          (λ q. omega (arith, once q)) (λ q h. ground (arith, b.reads q, once q, apart q)) in
      (
        r,
        rw (step, rehash) run,
        record {
          valid = f.valid;
          hsize = f.hsize ∙ b.hsize;
          ct = omega (arith, f.ct, fresh.0);
          new = λ q h. ground (arith, f.new q, f.old q, b.reads q, once q);
          old = λ q h. ground (arith, f.old q, b.reads q);
        },
      )

  -- `expandhashtable` keeps the nodes and the lookups, in four times as many chains.
  record Expanded (ht r : HashTable V) : Type 0 where
    valid : IsTable hash r
    hsize : r.hsize ≡ ht.hsize * 4
    ct : r.ct ≡ ht.ct
    same : (q : Str) → gethashnode2 hash r q ≡ gethashnode2 hash ht q

  expandhashtable-Expanded :
      (fuel : ℕ) (ht : HashTable V)
      → IsTable hash ht
      → ht.ct ≤ ht.hsize * 2
      → (r : HashTable V) × (expandhashtable hash (addhashnode hash (suc fuel)) ht ≡ some r)
        × Expanded ht r
  unfolding expandhashtable
  expandhashtable-Expanded fuel ht v full =
      let es = all_nodes ht.nodes in
      let (r, run, f) =
        rehash-Filled fuel es (newhashtable (ht.hsize * 4))
          (newhashtable-IsTable hash (ht.hsize * 4) (omega (arith, v.some_chain)))
          (unfold newhashtable in omega (arith, v.counted, v.some_chain))
          (λ q. omega (arith, every q, v.once q)) (λ q h. empty_reads (ht.hsize * 4) q) in
      (
        r,
        run,
        record {
          valid = f.valid;
          hsize = f.hsize ∙ (unfold newhashtable in refl);
          ct = f.ct ∙ (unfold newhashtable in omega (arith, v.counted));
          same = λ q. reads r q (f.new q) (f.old q);
        },
      )
    where
      every :
          (q : Str)
          → (count q (all_nodes ht.nodes) ≡ count q (chain hash ht q))
            × (find q (all_nodes ht.nodes) ≡ find q (chain hash ht q))
      every q = all_nodes_at ht.nodes (home hash ht q) q (λ j ne. v.placed q j ne)

      empty_reads : (n : ℕ) (q : Str) → gethashnode2 {V = V} hash (newhashtable n) q ≡ none
      empty_reads n q = unfold gethashnode2 newhashtable find in rw get_or-replicate

      reads :
          (r : HashTable V) (q : Str)
          → (0 < count q (all_nodes ht.nodes) → gethashnode2 hash r q ≡ find q (all_nodes ht.nodes))
          → (count q (all_nodes ht.nodes) ≡ 0
              → gethashnode2 hash r q ≡ gethashnode2 hash (newhashtable (ht.hsize * 4)) q)
          → gethashnode2 hash r q ≡ gethashnode2 hash ht q
      reads r q new old =
          unfold gethashnode2 in
          ground (
            arith,
            every q,
            new,
            old,
            empty_reads (ht.hsize * 4) q,
            find-eq-none q (chain hash ht q),
          )

  -- On a valid table with fewer than twice as many nodes as chains, `addhashnode`, its expansions
  -- included, with fuel for a depth of two calls or more, returns a table that is again such a
  -- table, has the node under its name, and answers every other lookup as before.
  pub addhashnode-refines :
      (fuel : ℕ) (ht : HashTable V) (hn : Node V)
      → IsTable hash ht
      → ht.ct < ht.hsize * 2
      → (r : HashTable V) × (addhashnode hash (suc (suc fuel)) ht hn ≡ some r)
        × IsTable hash r
        × (r.ct < r.hsize * 2)
        × ((q : Str)
            → gethashnode2 hash r q ≡ (if str_eq hn.nam q then some hn else gethashnode2 hash ht q))
  addhashnode-refines fuel ht hn v room =
      let p = put_node hash ht hn in
      let put = put_node-Put ht hn v in
      let b = put.binds in
      elim (Bool-cases p.1) [
        | inr f ↦ (p.0, addhashnode_stays (suc fuel) ht hn f, b.valid, put.full f room, b.reads)
        | inl t ↦
            let (r, run, x) =
              expandhashtable-Expanded fuel p.0 b.valid (ground (arith, put.grown, b.hsize)) in
            (
              r,
              addhashnode_expands (suc fuel) ht hn t ∙ run,
              x.valid,
              ground (arith, x.ct, x.hsize, put.grown, b.hsize, v.some_chain),
              λ q. x.same q ∙ b.reads q,
            )
      ]
