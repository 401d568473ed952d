-- ===== src/Examples/Sorting.antt =====
-- A sort for the small machine, and that it keeps the law of `std::sort`.
use bacs_legacy.Base.{
  ◌≡◌, Bool, true, false, List, [], ◌∷◌, Bytes, ℤ, ltb_ℤ, if◌then◌else◌, if_cases, All, arith,
}
use bacs_legacy.TestFile.{tests_sort_func, parse_id}
use bacs_legacy.Problem.Init.Tests.{InOrder}

abbrev insert : (Bytes → Bytes → Bool) → Bytes → List Bytes → List Bytes
insert less x [] = x ∷ []
insert less x (y ∷ ys) = let rest = insert less x ys in if less y x then y ∷ rest else x ∷ y ∷ ys

abbrev pub sort : (Bytes → Bytes → Bool) → List Bytes → List Bytes
sort less [] = []
sort less (x ∷ xs) = insert less x (sort less xs)

not_less_trans : (a b c : ℤ) → ltb_ℤ b a ≡ false → ltb_ℤ c b ≡ false → ltb_ℤ c a ≡ false
not_less_trans a b c h k = ground arith

not_less : (a b : ℤ) → ltb_ℤ a b ≡ true → ltb_ℤ b a ≡ false
not_less a b h = ground arith

All-not_less :
    (x y : Bytes) (ys : List Bytes)
    → tests_sort_func y x ≡ false
    → All (λ z. tests_sort_func z y ≡ false) ys
    → All (λ z. tests_sort_func z x ≡ false) ys
unfolding tests_sort_func
All-not_less x y [] h k = tt
All-not_less x y (z ∷ zs) h k =
    (not_less_trans (parse_id x) (parse_id y) (parse_id z) h k.0, All-not_less x y zs h k.1)

All-insert :
    (P : Bytes → Type 0) (less : Bytes → Bytes → Bool) (x : Bytes) (ys : List Bytes)
    → P x
    → All P ys
    → All P (insert less x ys)
All-insert P less x [] h k = (h, tt)
All-insert P less x (y ∷ ys) h k =
    if_cases (All P) (less y x) _ _ (λ _. (k.0, All-insert P less x ys h k.1)) (λ _. (h, k))

not_after : (x y : Bytes) → tests_sort_func y x ≡ true → tests_sort_func x y ≡ false
unfolding tests_sort_func
not_after x y e = not_less (parse_id y) (parse_id x) e

InOrder-insert :
    (x : Bytes) (ys : List Bytes)
    → InOrder tests_sort_func ys
    → InOrder tests_sort_func (insert tests_sort_func x ys)
InOrder-insert x [] h = (tt, tt)
InOrder-insert x (y ∷ ys) h =
    if_cases (InOrder tests_sort_func) (tests_sort_func y x) _ _
      (λ e. (
        All-insert (λ z. tests_sort_func z y ≡ false) tests_sort_func x ys (not_after x y e) h.0,
        InOrder-insert x ys h.1,
      ))
      (λ e. ((e, All-not_less x y ys e h.0), h))

pub sort-InOrder : (xs : List Bytes) → InOrder tests_sort_func (sort tests_sort_func xs)
sort-InOrder [] = tt
sort-InOrder (x ∷ xs) = InOrder-insert x (sort tests_sort_func xs) (sort-InOrder xs)
