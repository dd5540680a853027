-- ===== src/HashTable/Valid.antt =====
-- The invariant of the tables, and what the change of one chain does to it.
use winzsh.Prelude.{
  ℕ, zero, suc, ◌+◌, ◌≤◌, ◌<◌, ◌≡◌, ◌≢◌, ◌∙◌, refl, ap, List, [], ◌∷◌, ◌==◌, if◌then◌else◌, arith,
}
use native.Mathlib.Nat.{mod-lt}
use winzsh.Prelude.Lists.{
  get_or, set, replicate, length, length-append, length-set, length-replicate, get_or-set,
  get_or-replicate,
}
use winzsh.Prelude.Strings.{Str}
use winzsh.HashTable.{Node, HashTable, newhashtable, find, all_nodes, home, chain}
use winzsh.HashTable.Chain.{count, count-append, find-append_absent, find-append_present}

pub length-all_nodes-set :
    {V : Type 0} (cs : List (List (Node V))) (i : ℕ) (c : List (Node V))
    → i < length cs
    → length (all_nodes (set cs i c)) + length (get_or cs i []) ≡ length (all_nodes cs) + length c
unfolding all_nodes
length-all_nodes-set [] i c h = absurd (omega arith)
length-all_nodes-set (x ∷ cs) zero c h =
    omega (arith, length-append x (all_nodes cs), length-append c (all_nodes cs))
length-all_nodes-set (x ∷ cs) (suc i) c h = omega (
  arith,
  length-all_nodes-set cs i c,
  length-append x (all_nodes cs),
  length-append x (all_nodes (set cs i c)),
)

all_nodes-replicate : {V : Type 0} (n : ℕ) → all_nodes {V = V} (replicate n []) ≡ []
unfolding all_nodes
all_nodes-replicate zero = refl
all_nodes-replicate (suc n) = all_nodes-replicate n

module _ {V : Type 0} (hash : Str → ℕ) where
  -- Every node stands in the chain of its name, once, and `ct` counts the nodes.
  pub record IsTable (ht : HashTable V) : Type 0 where
    pub some_chain : 0 < ht.hsize
    pub size : length ht.nodes ≡ ht.hsize
    pub counted : length (all_nodes ht.nodes) ≡ ht.ct
    pub once : (q : Str) → count q (chain hash ht q) ≤ 1
    pub placed : (q : Str) (i : ℕ) → home hash ht q ≢ i → count q (get_or ht.nodes i []) ≡ 0

  pub home-lt : (ht : HashTable V) (q : Str) → IsTable ht → home hash ht q < length ht.nodes
  home-lt ht q v = omega (arith, v.size, mod-lt (hash q) v.some_chain)

  pub newhashtable-IsTable : (size : ℕ) → 0 < size → IsTable (newhashtable size)
  unfolding newhashtable
  newhashtable-IsTable size h = record {
    some_chain = h;
    size = length-replicate size [];
    counted = ap length (all_nodes-replicate size);
    once = λ q. rw get_or-replicate (unfold count in omega arith);
    placed = λ q i n. rw get_or-replicate (unfold count in refl);
  }

  -- The three operations that change a table put a chain in the place of that of a name `k`.
  module _ (ht : HashTable V) (v : IsTable ht) (k : Str) (c : List (Node V)) (n : ℕ) where
    abbrev pub changed : HashTable V
    changed = record ht { nodes = set ht.nodes (home hash ht k) c; ct = n }

    pub chain-changed :
        (q : Str)
        → chain hash changed q ≡ (if home hash ht k == home hash ht q then c else chain hash ht q)
    chain-changed q = get_or-set ht.nodes (home hash ht k) (home hash ht q) c [] (home-lt ht k v)

    pub changed-IsTable :
        n + length (chain hash ht k) ≡ ht.ct + length c
        → ((q : Str) → home hash ht q ≡ home hash ht k → count q c ≤ 1)
        → ((q : Str) → home hash ht q ≢ home hash ht k → count q c ≡ 0)
        → IsTable changed
    changed-IsTable size few away = record {
      some_chain = v.some_chain;
      size = length-set ht.nodes (home hash ht k) c ∙ v.size;
      counted =
          omega
            (arith, length-all_nodes-set ht.nodes (home hash ht k) c (home-lt ht k v), v.counted);
      once = λ q. rw (chain-changed q) (ground (arith, few q, v.once q));
      placed = λ q i ne.
          rw (get_or-set ht.nodes (home hash ht k) i c [] (home-lt ht k v))
            (ground (arith, away q, v.placed q i ne));
    }

-- In all the chains together a name is where its own chain has it.
pub all_nodes_at :
    {V : Type 0} (cs : List (List (Node V))) (i : ℕ) (q : Str)
    → ((j : ℕ) → i ≢ j → count q (get_or cs j []) ≡ 0)
    → (count q (all_nodes cs) ≡ count q (get_or cs i []))
      × (find q (all_nodes cs) ≡ find q (get_or cs i []))
unfolding all_nodes
all_nodes_at [] i q h = (refl, refl)
all_nodes_at (x ∷ cs) zero q h =
    let ih = all_nodes_at cs zero q (λ j ne. h (suc j) (omega arith)) in
    let none_left : count q (all_nodes cs) ≡ 0 = ih.0 ∙ h 1 (omega arith) in
    (
      omega (arith, count-append q x (all_nodes cs)),
      find-append_present q x (all_nodes cs) none_left,
    )
all_nodes_at (x ∷ cs) (suc i) q h =
    let ih = all_nodes_at cs i q (λ j ne. h (suc j) (omega arith)) in
    let not_here : count q x ≡ 0 = h 0 (omega arith) in
    (
      omega (arith, ih.0, count-append q x (all_nodes cs)),
      find-append_absent q x (all_nodes cs) not_here ∙ ih.1,
    )
