-- ===== src/HashSet.antt =====
-- `HashSet<Ipv4Addr>` as a list of distinct numbers.
use trimrouter.Prelude.{ℕ, ◌≡◌, true, false, List, [], ◌∷◌, arith, if◌then◌else◌, nat_eq, elem}

unfoldable pub remove : ℕ → List ℕ → List ℕ
remove a [] = []
remove a (x ∷ xs) = let rest = remove a xs in if nat_eq x a then rest else x ∷ rest

unfoldable pub insert : ℕ → List ℕ → List ℕ
insert a xs = if elem a xs then xs else a ∷ xs

pub elem-remove :
    (a b : ℕ) (xs : List ℕ) → elem b (remove a xs) ≡ (if nat_eq a b then false else elem b xs)
unfolding elem remove
elem-remove a b [] = ground arith
elem-remove a b (x ∷ xs) = ground (arith, elem-remove a b xs)

pub elem-insert :
    (a b : ℕ) (xs : List ℕ) → elem b (insert a xs) ≡ (if nat_eq a b then true else elem b xs)
unfolding insert elem
elem-insert a b xs = ground arith
