-- ===== src/Trie/Optimize/Merging.antt =====
-- http/routing.hpp, class `Trie`: the child map that `optimizeNode` merges.
use crow_core.Common.{
  ℕ, Bytes, bytes_eq_iff, [], ◌∷◌, ◌++◌, none, some, ◌≡◌, ◌≢◌, ◌⊎◌, inl, inr, sym, ap, ◌∙◌, arith,
  Option-cases,
}
use crow_core.Trie.{Trie, ChildMap, node_at, child_of, emplace}
use crow_core.Trie.Edges.{child_of-emplace, child_of-emplace_self}
use crow_core.Trie.Optimize.{merge_child, merge_children}
use crow_core.Trie.Optimize.ChildMaps.{
  NoDup, none-some, NoDup-emplace, assign-emplace, append_cancel, child_of-nil, child_of-head,
  child_of-tail, child_of_cases, PrefixFree, PrefixFree-eq,
}

module _ (k : Bytes) where
  -- What the inner loop adds for the entries of a child.
  pub record Merged (children acc result : ChildMap) : Type 0 where
    pub nodup : NoDup result
    pub old : (x : Bytes) (g : ℕ) → child_of x acc ≡ some g → child_of x result ≡ some g
    pub new : (j : Bytes) (g : ℕ) → child_of j children ≡ some g → child_of (k ++ j) result ≡ some g
    pub only :
        (x : Bytes) (g : ℕ)
        → child_of x result ≡ some g
        → (child_of x acc ≡ some g) ⊎ ((j : Bytes) × (x ≡ k ++ j) × (child_of j children ≡ some g))

  abbrev Absent : ChildMap → ChildMap → Type 0
  Absent children acc =
      (j : Bytes) (g : ℕ) → child_of j children ≡ some g → child_of (k ++ j) acc ≡ none

  tail_differs :
      (j i : Bytes) (g : ℕ) (m : ChildMap)
      → child_of j m ≡ none
      → child_of i m ≡ some g
      → k ++ j ≢ k ++ i
  tail_differs j i g m absent e same =
      let back : child_of j m ≡ some g = rw (append_cancel k j i same) e in none-some absent back

  emplace_absent :
      (j i : Bytes) (v : ℕ) (acc : ChildMap)
      → child_of (k ++ j) acc ≡ none
      → k ++ j ≢ k ++ i
      → child_of (k ++ i) acc ≡ none
      → child_of (k ++ i) (emplace (k ++ j) v acc) ≡ none
  emplace_absent j i v acc free ne away =
      ground (arith, child_of-emplace (k ++ j) (k ++ i) v acc free, bytes_eq_iff (k ++ j) (k ++ i))

  emplace_old :
      (x y : Bytes) (v g : ℕ) (acc : ChildMap)
      → child_of x acc ≡ none
      → child_of y acc ≡ some g
      → child_of y (emplace x v acc) ≡ some g
  emplace_old x y v g acc free e = ground (arith, child_of-emplace x y v acc free, bytes_eq_iff x y)

  -- What is found after an entry is put in: that entry, or an old one.
  emplace_only :
      (x y : Bytes) (v g : ℕ) (acc : ChildMap)
      → child_of x acc ≡ none
      → child_of y (emplace x v acc) ≡ some g
      → ((x ≡ y) × (v ≡ g)) ⊎ (child_of y acc ≡ some g)
  emplace_only x y v g acc free e =
      ground (arith, child_of-emplace x y v acc free, bytes_eq_iff x y)

  pub merge_child-Merged :
      (children acc : ChildMap)
      → NoDup children
      → NoDup acc
      → Absent children acc
      → Merged children acc (merge_child k children acc)
  unfolding merge_child
  merge_child-Merged [] acc h a absent = record {
    nodup = a;
    old = λ x g e. e;
    new = λ j g e. absurd (no_entry j g e);
    only = λ x g e. inl e;
  }
    where
      no_entry : (j : Bytes) (g : ℕ) → child_of j [] ≡ some g → ⊥
      no_entry j g e = child_of-nil j g e
  merge_child-Merged ((j, v) ∷ children) acc h a absent =
      let free : child_of (k ++ j) acc ≡ none = absent j v (child_of-head j v children) in
      let m =
        merge_child-Merged children (emplace (k ++ j) v acc) h.1
          (NoDup-emplace (k ++ j) v acc free a)
          (λ i g e.
            emplace_absent j i v acc free (tail_differs j i g children h.0 e)
              (absent i g (child_of-tail j i v g children h.0 e))) in
      rw (assign-emplace (k ++ j) v acc free) (record {
        nodup = m.nodup;
        old = λ x g e. m.old x g (emplace_old (k ++ j) x v g acc free e);
        new = λ i g e. elim (child_of_cases j i v g children e) [
          | inl (same, value) ↦
              m.old (k ++ i) g (rw (← same, ← value) (child_of-emplace_self (k ++ j) v acc free))
          | inr later ↦ m.new i g later
        ];
        only = λ x g e. elim (m.only x g e) [
          | inl before ↦ elim (emplace_only (k ++ j) x v g acc free before) [
            | inl (same, value) ↦ inr (j, sym same, child_of-head j v children ∙ ap some value)
            | inr kept ↦ inl kept
          ]
          | inr (i, split, found) ↦ inr (i, split, child_of-tail j i v g children h.0 found)
        ];
      })

module _ (t : Trie) where
  abbrev pub kids : ℕ → ChildMap
  kids c = (node_at t c).children

  -- What the outer loop makes of the entries of a node.
  pub record MergedAll (children acc result : ChildMap) : Type 0 where
    pub nodup : NoDup result
    pub old : (x : Bytes) (g : ℕ) → child_of x acc ≡ some g → child_of x result ≡ some g
    pub new :
        (k j : Bytes) (c g : ℕ)
        → child_of k children ≡ some c
        → child_of j (kids c) ≡ some g
        → child_of (k ++ j) result ≡ some g
    pub only :
        (x : Bytes) (g : ℕ)
        → child_of x result ≡ some g
        → (child_of x acc ≡ some g)
          ⊎ ((k : Bytes) × (j : Bytes) × (c : ℕ) × (x ≡ k ++ j)
              × (child_of k children ≡ some c)
              × (child_of j (kids c) ≡ some g))

  abbrev AbsentAll : ChildMap → ChildMap → Type 0
  AbsentAll children acc =
      (k j : Bytes) (c g : ℕ)
      → child_of k children ≡ some c
      → child_of j (kids c) ≡ some g
      → child_of (k ++ j) acc ≡ none

  still_absent :
      (k : Bytes) (c : ℕ) (children acc acc' : ChildMap)
      → child_of k children ≡ none
      → PrefixFree ((k, c) ∷ children)
      → AbsentAll ((k, c) ∷ children) acc
      → Merged k (kids c) acc acc'
      → AbsentAll children acc'
  still_absent k c children acc acc' absent free away m k' j' c' g' e e' =
      elim (Option-cases (child_of (k' ++ j') acc')) [
        | inl missing ↦ missing
        | inr (y, found) ↦
            let later : child_of k' ((k, c) ∷ children) ≡ some c' =
              child_of-tail k k' c c' children absent e in
            elim (m.only (k' ++ j') y found) [
              | inl before ↦ absurd (none-some (away k' j' c' g' later e') before)
              | inr (i, split, inside) ↦
                  let same : k' ≡ k =
                    PrefixFree-eq ((k, c) ∷ children) k' k j' i c' c free later
                      (child_of-head k c children) split in
                  let clash : child_of k children ≡ some c' = rw (← same) e in
                  absurd (none-some absent clash)
            ]
      ]

  pub merge_children-MergedAll :
      (children acc : ChildMap)
      → NoDup children
      → PrefixFree children
      → ((c : ℕ) → NoDup (kids c))
      → NoDup acc
      → AbsentAll children acc
      → MergedAll children acc (merge_children t children acc)
  unfolding merge_children
  merge_children-MergedAll [] acc h free good a away = record {
    nodup = a;
    old = λ x g e. e;
    new = λ k j c g e e'. absurd (child_of-nil k c e);
    only = λ x g e. inl e;
  }
  merge_children-MergedAll ((k, c) ∷ children) acc h free good a away =
      let m =
        merge_child-Merged k (kids c) acc (good c) a
          (λ j g e. away k j c g (child_of-head k c children) e) in
      let m' =
        merge_children-MergedAll children (merge_child k (kids c) acc) h.1
          (λ i z d d' e e'.
            free i z d d' (child_of-tail k i c d children h.0 e)
              (child_of-tail k (i ++ z) c d' children h.0 e'))
          good m.nodup (still_absent k c children acc _ h.0 free away m) in
      record {
        nodup = m'.nodup;
        old = λ x g e. m'.old x g (m.old x g e);
        new = λ k' j c' g e e'. elim (child_of_cases k k' c c' children e) [
          | inl (same, value) ↦
              let inside : child_of j (kids c) ≡ some g = rw value e' in
              rw (← same) (m'.old (k ++ j) g (m.new j g inside))
          | inr later ↦ m'.new k' j c' g later e'
        ];
        only = λ x g e. elim (m'.only x g e) [
          | inl before ↦ elim (m.only x g before) [
            | inl first ↦ inl first
            | inr (j, split, inside) ↦ inr (k, j, c, split, child_of-head k c children, inside)
          ]
          | inr (k', j, c', split, e', inside) ↦
              inr (k', j, c', split, child_of-tail k k' c c' children h.0 e', inside)
        ];
      }
