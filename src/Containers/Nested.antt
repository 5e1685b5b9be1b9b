-- ===== src/Containers/Nested.antt =====
-- Maps over numbers, and maps of maps: `m[i][k] = v`, and the removal that drops an inner map when
-- it gets empty.
use open_vrrp.Prelude.{
  ℕ, ◌==◌, ==_iff, ltb, ◌&&◌, if◌then◌else◌, Bool, true, false, List, [], ◌∷◌, Option, none, some,
  ◌≡◌, refl, arith, ap, ◌∙◌, Option-cases, Bool-cases, inl, inr,
}
use open_vrrp.Address.Order.{IsStrictOrder}
use open_vrrp.Containers.{equivalent, map_set, map_find, map_erase}
use open_vrrp.Containers.Laws.{map_find-set, map_find-erase}

pub ltb-IsStrictOrder : IsStrictOrder ltb
ltb-IsStrictOrder = record {
  irreflexive = λ a. ground arith;
  transitive = λ a b c. ground arith;
  connected = λ a b. ground arith;
}

pub equivalent-== : (a b : ℕ) → equivalent ltb a b ≡ (a == b)
equivalent-== a b = ground arith

pub find-set {ℓ} :
    {V : Type ℓ} (j k : ℕ) (v : V) (m : List (ℕ × V))
    → map_find ltb j (map_set ltb k v m) ≡ (if j == k then some v else map_find ltb j m)
find-set j k v m = rw (← equivalent-==) (map_find-set ltb ltb-IsStrictOrder j k v m)

pub find-erase {ℓ} :
    {V : Type ℓ} (j k : ℕ) (m : List (ℕ × V))
    → map_find ltb j (map_erase ltb k m) ≡ (if j == k then none else map_find ltb j m)
find-erase j k m = rw (← equivalent-==) (map_find-erase ltb ltb-IsStrictOrder j k m)

abbrev pub is_empty {ℓ} : {A : Type ℓ} → List A → Bool
is_empty [] = true
is_empty (x ∷ xs) = false

if_none {ℓ} : {V : Type ℓ} (b : Bool) (o : Option V) → o ≡ none → o ≡ (if b then none else o)
if_none true o e = e
if_none false o e = refl

module _ {K V : Type 0} where
  -- The inner map, empty where there is none.
  abbrev pub inner : Option (List (K × V)) → List (K × V)
  inner none = []
  inner (some m) = m

  nil_of_is_empty : (m : List (K × V)) → is_empty m ≡ true → m ≡ []
  nil_of_is_empty [] e = refl
  nil_of_is_empty (x ∷ m) e = cc

  inner-if :
      (b : Bool) (o o' : Option (List (K × V)))
      → inner (if b then o else o') ≡ (if b then inner o else inner o')
  inner-if true o o' = refl
  inner-if false o o' = refl

  if_same : (b : Bool) (m m' : List (K × V)) → (b ≡ true → m ≡ m') → m ≡ (if b then m' else m)
  if_same true m m' e = e refl
  if_same false m m' e = refl

  found_same :
      (i i' : ℕ) (ms : List (ℕ × List (K × V))) (o : Option (List (K × V)))
      → map_find ltb i' ms ≡ o
      → i == i' ≡ true
      → inner (map_find ltb i ms) ≡ inner o
  found_same i i' ms o e h =
      let eq : i ≡ i' = (==_iff i i').0 h in ap (λ k. inner (map_find ltb k ms)) eq ∙ ap inner e

  module _ (lt : K → K → Bool) where
    unfoldable pub nested_find : ℕ → K → List (ℕ × List (K × V)) → Option V
    nested_find i k ms = map_find lt k (inner (map_find ltb i ms))

    unfoldable pub nested_set : ℕ → K → V → List (ℕ × List (K × V)) → List (ℕ × List (K × V))
    nested_set i k v ms = map_set ltb i (map_set lt k v (inner (map_find ltb i ms))) ms

    unfoldable pub nested_erase : ℕ → K → List (ℕ × List (K × V)) → List (ℕ × List (K × V))
    nested_erase i k ms = elim (map_find ltb i ms) [
      | none ↦ ms
      | some m ↦
          let rest = map_erase lt k m in
          if is_empty rest then map_erase ltb i ms else map_set ltb i rest ms
    ]

  module _ (lt : K → K → Bool) (o : IsStrictOrder lt) where
    find_nil : (k : K) → map_find lt {V = V} k [] ≡ none
    unfolding map_find
    find_nil k = refl

    -- A change as a lookup sees it: `m` is the inner map looked up, `n` the one that is changed;
    -- `same` and `same_key` say whether the keys agree, and `v` is what the key gets.
    seen :
        (same same_key : Bool) (k : K) (v : Option V) (m m' n n' : List (K × V))
        → (same ≡ true → m ≡ n)
        → m' ≡ (if same then n' else m)
        → map_find lt k n' ≡ (if same_key then v else map_find lt k n)
        → map_find lt k m' ≡ (if same && same_key then v else map_find lt k m)
    seen true true k v m m' n n' e e' h = rw e' h
    seen true false k v m m' n n' e e' h = rw (e', e refl) h
    seen false b k v m m' n n' e e' h = rw e' refl

    pub nested_find-set :
        (j i : ℕ) (l k : K) (v : V) (ms : List (ℕ × List (K × V)))
        → nested_find lt j l (nested_set lt i k v ms)
          ≡ (if j == i && equivalent lt l k then some v else nested_find lt j l ms)
    unfolding nested_find nested_set
    nested_find-set j i l k v ms =
        let n : List (K × V) = inner (map_find ltb i ms) in
        seen (j == i) (equivalent lt l k) l (some v) (inner (map_find ltb j ms))
          (inner (map_find ltb j (map_set ltb i (map_set lt k v n) ms))) n (map_set lt k v n)
          (found_same j i ms (map_find ltb i ms) refl)
          (ap inner (find-set j i (map_set lt k v n) ms)
            ∙ inner-if (j == i) (some (map_set lt k v n)) (map_find ltb j ms))
          (map_find-set lt o l k v n)

    pub nested_find-erase :
        (j i : ℕ) (l k : K) (ms : List (ℕ × List (K × V)))
        → nested_find lt j l (nested_erase lt i k ms)
          ≡ (if j == i && equivalent lt l k then none else nested_find lt j l ms)
    unfolding nested_find nested_erase
    nested_find-erase j i l k ms =
        let old : List (K × V) = inner (map_find ltb j ms) in
        let key : Bool = equivalent lt l k in
        elim (Option-cases (map_find ltb i ms)) [
          | inl e ↦
              rw (e, nested_erase)
                (seen (j == i) key l none old old [] [] (found_same j i ms none e)
                  (if_same (j == i) old [] (found_same j i ms none e))
                  (if_none key (map_find lt {V = V} l []) (find_nil l)))
          | inr (m, e) ↦
              rw (e, nested_erase)
                (elim (Bool-cases (is_empty (map_erase lt k m))) [
                  | inl empty ↦ rw empty (
                      seen (j == i) key l none old (inner (map_find ltb j (map_erase ltb i ms))) m
                        (map_erase lt k m) (found_same j i ms (some m) e)
                        (rw (nil_of_is_empty (map_erase lt k m) empty) (
                          ap inner (find-erase j i ms)
                          ∙ inner-if (j == i) none (map_find ltb j ms)))
                        (map_find-erase lt o l k m))
                  | inr more ↦ rw more (
                      seen (j == i) key l none old
                        (inner (map_find ltb j (map_set ltb i (map_erase lt k m) ms))) m
                        (map_erase lt k m) (found_same j i ms (some m) e)
                        (ap inner (find-set j i (map_erase lt k m) ms)
                          ∙ inner-if (j == i) (some (map_erase lt k m)) (map_find ltb j ms))
                        (map_find-erase lt o l k m))
                ])
        ]
