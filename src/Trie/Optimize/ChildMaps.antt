-- ===== src/Trie/Optimize/ChildMaps.antt =====
-- http/routing.hpp, class `Trie`: child maps as `optimizeNode` meets them.
use crow_core.Common.{
  ℕ, Bytes, bytes_eq, bytes_eq_iff, [], ◌∷◌, ◌++◌, Option, none, some, ◌≡◌, ◌⊎◌, inl, inr, refl,
  sym, ◌∙◌, arith, Bool-cases, append-nil,
}
use crow_core.Trie.{ChildMap, child_of, emplace}
use crow_core.Trie.Edges.{Owns, child_of-emplace}
use crow_core.Trie.Optimize.{assign}

-- No key stands twice.
abbrev pub NoDup : ChildMap → Type 0
NoDup [] = Unit
NoDup ((k, v) ∷ m) = (child_of k m ≡ none) × NoDup m

pub some_inj : {a b : ℕ} → ◌≡◌ {A = Option ℕ} (some a) (some b) → a ≡ b
some_inj e = cc

pub none-some {ℓ} : {A : Type ℓ} {o : Option A} {a : A} → o ≡ none → o ≡ some a → ⊥
none-some p q = cc

pub Owns-cons :
    (k : Bytes) (v : ℕ) (m l : ChildMap) → child_of k m ≡ none → Owns m l → Owns ((k, v) ∷ m) l
unfolding child_of
Owns-cons k v m [] absent h = tt
Owns-cons k v m ((j, w) ∷ l) absent h =
    (ground (arith, bytes_eq_iff k j), Owns-cons k v m l absent h.1)

pub NoDup-Owns : (m : ChildMap) → NoDup m → Owns m m
unfolding child_of
NoDup-Owns [] h = tt
NoDup-Owns ((k, v) ∷ m) h =
    (ground (arith, bytes_eq_iff k k), Owns-cons k v m m h.0 (NoDup-Owns m h.1))

pub NoDup-emplace :
    (k : Bytes) (v : ℕ) (m : ChildMap) → child_of k m ≡ none → NoDup m → NoDup (emplace k v m)
unfolding emplace child_of
NoDup-emplace k v [] absent h = (refl, tt)
NoDup-emplace k v ((j, w) ∷ m) absent h = elim (Bool-cases (bytes_eq j k)) [
  | inl same ↦ absurd (none-some {a = w} (rw same at absent) refl)
  | inr other ↦
      let absent' : child_of k m ≡ none = rw other at absent in
      let later = NoDup-emplace k v m absent' h.1 in
      let kept : child_of j (emplace k v m) ≡ none =
        ground (arith, child_of-emplace k j v m absent', bytes_eq_iff k j, bytes_eq_iff j k, h.0) in
      ground (arith, later, kept, absent)
]

pub assign-emplace :
    (k : Bytes) (v : ℕ) (m : ChildMap) → child_of k m ≡ none → assign k v m ≡ emplace k v m
unfolding assign emplace child_of
assign-emplace k v [] absent = refl
assign-emplace k v ((j, w) ∷ m) absent = ground (arith, assign-emplace k v m)

pub append_cancel : (k j j' : Bytes) → k ++ j ≡ k ++ j' → j ≡ j'
append_cancel [] j j' e = e
append_cancel (c ∷ k) j j' e = append_cancel k j j' (cc)

-- Two prefixes of one text are prefixes of one another.
pub comparable :
    (k k' j j' : Bytes)
    → k ++ j ≡ k' ++ j'
    → ((z : Bytes) × (k' ≡ k ++ z)) ⊎ ((z : Bytes) × (k ≡ k' ++ z))
comparable [] k' j j' e = inl (k', refl)
comparable (c ∷ k) [] j j' e = inr (c ∷ k, refl)
comparable (c ∷ k) (c' ∷ k') j j' e = elim (comparable k k' j j' (cc)) [
  | inl (z, p) ↦ inl (z, cc)
  | inr (z, p) ↦ inr (z, cc)
]

pub child_of-nil : (j : Bytes) (g : ℕ) → child_of j [] ≡ some g → ⊥
unfolding child_of
child_of-nil j g e = cc

pub child_of-head : (j : Bytes) (v : ℕ) (m : ChildMap) → child_of j ((j, v) ∷ m) ≡ some v
unfolding child_of
child_of-head j v m = ground (arith, bytes_eq_iff j j)

pub child_of-tail :
    (j i : Bytes) (v g : ℕ) (m : ChildMap)
    → child_of j m ≡ none
    → child_of i m ≡ some g
    → child_of i ((j, v) ∷ m) ≡ some g
unfolding child_of
child_of-tail j i v g m absent e = ground (arith, bytes_eq_iff j i)

pub child_of_cases :
    (j i : Bytes) (v g : ℕ) (m : ChildMap)
    → child_of i ((j, v) ∷ m) ≡ some g
    → ((j ≡ i) × (v ≡ g)) ⊎ (child_of i m ≡ some g)
unfolding child_of
child_of_cases j i v g m e = ground (arith, bytes_eq_iff j i)

-- No key is a proper prefix of another.
abbrev pub PrefixFree : ChildMap → Type 0
PrefixFree m =
    (k z : Bytes) (c c' : ℕ) → child_of k m ≡ some c → child_of (k ++ z) m ≡ some c' → z ≡ []

-- Keys of a prefix-free map that begin one text are the same key.
pub PrefixFree-eq :
    (m : ChildMap) (k k' j j' : Bytes) (c c' : ℕ)
    → PrefixFree m
    → child_of k m ≡ some c
    → child_of k' m ≡ some c'
    → k ++ j ≡ k' ++ j'
    → k ≡ k'
PrefixFree-eq m k k' j j' c c' free e e' same = elim (comparable k k' j j' same) [
  | inl (z, p) ↦
      let q : child_of (k ++ z) m ≡ some c' = rw (← p) e' in
      let empty : z ≡ [] = free k z c c' e q in sym (p ∙ rw empty (append-nil k))
  | inr (z, p) ↦
      let q : child_of (k' ++ z) m ≡ some c = rw (← p) e in
      let empty : z ≡ [] = free k' z c' c e' q in p ∙ rw empty (append-nil k')
]
