-- ===== src/Manager/Laws.antt =====
-- What a lookup of a service finds.
use open_vrrp.Prelude.{
  ℕ, ◌==◌, ==_iff, ltb, ◌&&◌, if◌then◌else◌, Bool, true, false, List, Option, none, some, ◌≡◌, refl,
  sym, arith, ap, ◌∙◌, Bool-cases, inl, inr, Option-cases,
}
use open_vrrp.Address.{number}
use open_vrrp.Containers.{map_set, map_find, map_erase}
use open_vrrp.Containers.Nested.{
  inner, nested_find, nested_set, nested_find-set, ltb-IsStrictOrder, equivalent-==, find-set,
  find-erase,
}
use open_vrrp.Service.{Service}
use open_vrrp.Manager.{VrrpServiceMap, find_service, set_service, remove_service}

-- The services of another map at one interface and router id.
put : ℕ → ℕ → List (ℕ × Service) → VrrpServiceMap → VrrpServiceMap
put i v t m = nested_set ltb i v t m

find-put :
    (j w g i v : ℕ) (t : List (ℕ × Service)) (m : VrrpServiceMap)
    → find_service j w g (put i v t m)
      ≡ (if j == i && w == v then map_find ltb g t else find_service j w g m)
unfolding put find_service
find-put j w g i v t m = elim (Bool-cases (j == i && w == v)) [
  | inl e ↦ rw (nested_find-set ltb ltb-IsStrictOrder j i w v t m, equivalent-== w v, e) refl
  | inr e ↦ rw (nested_find-set ltb ltb-IsStrictOrder j i w v t m, equivalent-== w v, e) refl
]

at_same :
    (j w g i v : ℕ) (m : VrrpServiceMap)
    → (j == i && w == v) ≡ true
    → find_service j w g m ≡ map_find ltb g (inner (nested_find ltb i v m))
unfolding find_service
at_same j w g i v m e =
    let here : j ≡ i = ground arith in
    let router : w ≡ v = ground arith in
    ap (λ k. map_find ltb g (inner (nested_find ltb k w m))) here
    ∙ ap (λ k. map_find ltb g (inner (nested_find ltb i k m))) router

-- The three keys, one after the other: `o` is what the lookup found before, `r` what the inner map
-- holds, and `v` what the inner map's change makes of its key.
joined :
    (c k : Bool) (v o r : Option Service)
    → (c ≡ true → o ≡ r)
    → (if c then (if k then v else r) else o) ≡ (if c && k then v else o)
joined true true v o r h = refl
joined true false v o r h = sym (h refl)
joined false k v o r h = refl

-- A lookup after a service is entered.
pub find_service-set :
    (j w g i v f : ℕ) (s : Service) (m : VrrpServiceMap)
    → find_service j w g (set_service i v f s m)
      ≡ (if (j == i && w == v) && g == f then some s else find_service j w g m)
unfolding set_service put
find_service-set j w g i v f s m =
    let t : List (ℕ × Service) = inner (nested_find ltb i v m) in
    let c : Bool = j == i && w == v in
    find-put j w g i v (map_set ltb f s t) m
    ∙ ap (λ o. if c then o else find_service j w g m) (find-set g f s t)
    ∙ joined c (g == f) (some s) (find_service j w g m) (map_find ltb g t) (at_same j w g i v m)

-- Where the inner map has no such key, the removal leaves the map, and the lookup, as they are.
nothing :
    (c k : Bool) (o r : Option Service)
    → (c ≡ true → o ≡ r)
    → (k ≡ true → r ≡ none)
    → o ≡ (if c && k then none else o)
nothing true true o r h n = h refl ∙ n refl
nothing true false o r h n = refl
nothing false k o r h n = refl

-- A lookup after a service is removed.
pub find_service-remove :
    (j w g : ℕ) (has_socket : Bool) (s : Service) (m : VrrpServiceMap)
    → find_service j w g (remove_service has_socket s m).0 ≡ (
        if (j == s.interface && w == s.virtual_router_id) && g == number s.family
        then none
        else find_service j w g m)
unfolding remove_service put
find_service-remove j w g has_socket s m =
    let i = s.interface in
    let v = s.virtual_router_id in
    let f : ℕ = number s.family in
    let t : List (ℕ × Service) = inner (nested_find ltb i v m) in
    let c : Bool = j == i && w == v in
    let old : Option Service = find_service j w g m in
    elim (Option-cases (map_find ltb f t)) [
      | inl e ↦
          rw (e, remove_service)
            (nothing c (g == f) old (map_find ltb g t) (at_same j w g i v m)
              (λ k. ap (λ n. map_find ltb n t) ((==_iff g f).0 k) ∙ e))
      | inr (found, e) ↦
          rw (e, remove_service)
            (find-put j w g i v (map_erase ltb f t) m
              ∙ ap (λ o. if c then o else old) (find-erase g f t)
              ∙ joined c (g == f) none old (map_find ltb g t) (at_same j w g i v m))
    ]
