-- ===== src/HashTable/Chain.antt =====
-- What the operations do to one chain.
use winzsh.Prelude.{
  ℕ, ◌+◌, ◌≤◌, ◌<◌, ◌≡◌, refl, subst, List, [], ◌∷◌, ◌++◌, Bool, true, false, none, some,
  if◌then◌else◌, Bool-cases, Option-cases, inl, inr, arith,
}
use winzsh.Prelude.Lists.{length}
use winzsh.Prelude.Strings.{Str, str_eq, str_eq_iff, str_eq_refl}
use winzsh.HashTable.{Node, find, replace, add_chain, remove_chain}

abbrev pub to_nat : Bool → ℕ
to_nat true = 1
to_nat false = 0

module _ {V : Type 0} where
  -- How many nodes of a chain have the name.
  unfoldable pub count : Str → List (Node V) → ℕ
  count q [] = 0
  count q (hp ∷ rest) = to_nat (str_eq hp.nam q) + count q rest

  pub count-append : (q : Str) (a b : List (Node V)) → count q (a ++ b) ≡ count q a + count q b
  unfolding count
  count-append q [] b = omega arith
  count-append q (hp ∷ a) b = omega (arith, count-append q a b)

  pub find-eq-none : (q : Str) (c : List (Node V)) → count q c ≡ 0 → find q c ≡ none
  unfolding count find
  find-eq-none q [] h = refl
  find-eq-none q (hp ∷ c) h = ground (arith, find-eq-none q c)

  pub find-none : (q : Str) (c : List (Node V)) → find q c ≡ none → count q c ≡ 0
  unfolding count find
  find-none q [] h = refl
  find-none q (hp ∷ c) h = ground (arith, find-none q c)

  pub find-append_absent :
      (q : Str) (a b : List (Node V)) → count q a ≡ 0 → find q (a ++ b) ≡ find q b
  unfolding count find
  find-append_absent q [] b h = refl
  find-append_absent q (hp ∷ a) b h = ground (arith, find-append_absent q a b)

  pub find-append_present :
      (q : Str) (a b : List (Node V)) → count q b ≡ 0 → find q (a ++ b) ≡ find q a
  unfolding find
  find-append_present q [] b h = find-eq-none q b h
  find-append_present q (hp ∷ a) b h = ground (arith, find-append_present q a b)

  -- What `replace` returns.
  record Replaced (hn : Node V) (c r : List (Node V)) : Type 0 where
    size : length r ≡ length c
    counts : (q : Str) → count q r ≡ count q c
    finds : (q : Str) → find q r ≡ (if str_eq hn.nam q then some hn else find q c)
    present : 0 < count hn.nam c

  replace_here :
      (hn hp : Node V) (c : List (Node V)) → hp.nam ≡ hn.nam → Replaced hn (hp ∷ c) (hn ∷ c)
  unfolding count find
  replace_here hn hp c e = record {
    size = refl;
    counts = λ q. ground (arith, e);
    finds = λ q. ground (arith, e);
    present = ground (arith, e, str_eq_refl hn.nam);
  }

  replace_later :
      (hn hp : Node V) (c r : List (Node V))
      → str_eq hp.nam hn.nam ≡ false
      → Replaced hn c r
      → Replaced hn (hp ∷ c) (hp ∷ r)
  unfolding count find
  replace_later hn hp c r ne h = record {
    size = omega (arith, h.size);
    counts = λ q. omega (arith, h.counts q);
    finds = λ q. ground (
      arith,
      h.finds q,
      str_eq_iff hp.nam q,
      str_eq_iff hn.nam q,
      str_eq_refl hn.nam,
      str_eq_iff hp.nam hn.nam,
    );
    present = omega (arith, h.present);
  }

  replace-Replaced : (hn : Node V) (c r : List (Node V)) → replace hn c ≡ some r → Replaced hn c r
  unfolding replace
  replace-Replaced hn [] r e = cc
  replace-Replaced hn (hp ∷ c) r e = elim (Bool-cases (str_eq hp.nam hn.nam)) [
    | inl t ↦
        let f : hn ∷ c ≡ r = ground arith in
        subst (Replaced hn (hp ∷ c)) f (replace_here hn hp c ((str_eq_iff hp.nam hn.nam).0 t))
    | inr n ↦ elim (Option-cases (replace hn c)) [
      | inl z ↦ absurd (ground arith)
      | inr (r', z) ↦
          let f : hp ∷ r' ≡ r = ground arith in
          subst (Replaced hn (hp ∷ c)) f (replace_later hn hp c r' n (replace-Replaced hn c r' z))
    ]
  ]

  replace-none : (hn : Node V) (c : List (Node V)) → replace hn c ≡ none → count hn.nam c ≡ 0
  unfolding replace count
  replace-none hn [] e = refl
  replace-none hn (hp ∷ c) e = ground (arith, replace-none hn c)

  -- The chain after `addhashnode`.
  pub record Added (hn : Node V) (c : List (Node V)) (r : List (Node V) × Bool) : Type 0 where
    pub size : length r.0 ≡ length c + to_nat r.1
    pub counts : (q : Str) → count q r.0 ≡ count q c + (if str_eq hn.nam q then to_nat r.1 else 0)
    pub finds : (q : Str) → find q r.0 ≡ (if str_eq hn.nam q then some hn else find q c)
    pub is_new : r.1 ≡ true → count hn.nam c ≡ 0
    pub is_old : r.1 ≡ false → 0 < count hn.nam c

  pub add_chain-Added : (hn : Node V) (c : List (Node V)) → Added hn c (add_chain hn c)
  unfolding add_chain
  add_chain-Added hn c = elim (Option-cases (replace hn c)) [
    | inl n ↦
        rw (n, add_chain)
          (record {
            size = omega arith;
            counts = λ q. unfold count in ground arith;
            finds = λ q. unfold find in refl;
            is_new = λ _. replace-none hn c n;
            is_old = λ x. cc;
          })
    | inr (r, e) ↦
        let h = replace-Replaced hn c r e in
        rw (e, add_chain)
          (record {
            size = omega (arith, h.size);
            counts = λ q. ground (arith, h.counts q);
            finds = h.finds;
            is_new = λ x. cc;
            is_old = λ _. h.present;
          })
  ]

  -- The chain after `removehashnode` of a name that it has.
  pub length-remove_chain :
      (nam : Str) (c : List (Node V)) → 0 < count nam c → length (remove_chain nam c) + 1 ≡ length c
  unfolding remove_chain count
  length-remove_chain nam [] h = absurd (omega arith)
  length-remove_chain nam (hp ∷ c) h = ground (arith, length-remove_chain nam c)

  pub count-remove_chain :
      (nam q : Str) (c : List (Node V)) → count q (remove_chain nam c) ≤ count q c
  unfolding remove_chain count
  count-remove_chain nam q [] = omega arith
  count-remove_chain nam q (hp ∷ c) = ground (arith, count-remove_chain nam q c)

  pub find-remove_chain :
      (nam q : Str) (c : List (Node V))
      → count q c ≤ 1
      → find q (remove_chain nam c) ≡ (if str_eq nam q then none else find q c)
  unfolding remove_chain count find
  find-remove_chain nam q [] h = ground arith
  find-remove_chain nam q (hp ∷ c) h = ground (
    arith,
    find-remove_chain nam q c,
    find-eq-none q c,
    str_eq_iff hp.nam q,
    str_eq_iff nam q,
    str_eq_iff hp.nam nam,
    str_eq_refl nam,
    str_eq_refl q,
  )
