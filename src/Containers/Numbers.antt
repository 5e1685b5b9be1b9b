-- ===== src/Containers/Numbers.antt =====
-- Sets of numbers.
use open_vrrp.Prelude.{ℕ, ◌≤◌, ◌==◌, ltb, not, ◌&&◌, ◌||◌, List, [], ◌∷◌, length, ◌≡◌, arith}
use open_vrrp.Containers.{set_insert, set_erase, set_contains}
use open_vrrp.Containers.Laws.{set_contains-insert, set_contains-erase}
use open_vrrp.Containers.Nested.{ltb-IsStrictOrder, equivalent-==}

pub has_insert :
    (fd g : ℕ) (xs : List ℕ)
    → set_contains ltb fd (set_insert ltb g xs) ≡ (fd == g || set_contains ltb fd xs)
has_insert fd g xs = rw (← equivalent-== fd g) (set_contains-insert ltb ltb-IsStrictOrder fd g xs)

pub has_erase :
    (fd g : ℕ) (xs : List ℕ)
    → set_contains ltb fd (set_erase ltb g xs) ≡ (not (fd == g) && set_contains ltb fd xs)
has_erase fd g xs = rw (← equivalent-== fd g) (set_contains-erase ltb ltb-IsStrictOrder fd g xs)

pub length-erase : (g : ℕ) (xs : List ℕ) → length (set_erase ltb g xs) ≤ length xs
unfolding set_erase
length-erase g [] = omega arith
length-erase g (x ∷ xs) = ground (arith, length-erase g xs)
