-- ===== src/Client/Duplicates.antt =====
-- GRPC/src/seckill_client.cc: `containsDuplicate`, against a count of what occurs twice.
use docker_compose_seckill_s.Base.{
  ℕ, ◌≡◌, refl, ap, ◌∙◌, Bool, true, false, ◌||◌, List, [], ◌∷◌, ℤ, pos, negsuc, arith, Bool-cases,
  inl, inr,
}
use docker_compose_seckill_s.Services.{Services}
use docker_compose_seckill_s.Machine.{Machine, done, fault, bad_index}
use docker_compose_seckill_s.Client.Check.{
  contains_duplicate, less_int, same_int, insert, sort, neighbours_equal, sorted_duplicate,
}

-- The reference: an entry is met again further on.
unfoldable pub occurs : ℤ → List ℤ → Bool
occurs x [] = false
occurs x (y ∷ ys) = same_int x y || occurs x ys

unfoldable pub repeats : List ℤ → Bool
repeats [] = false
repeats (x ∷ xs) = occurs x xs || repeats xs

less-same : (x y : ℤ) → less_int y x ≡ false → same_int x y ≡ false → less_int x y ≡ true
unfolding less_int same_int
less-same (pos a) (pos b) l s = ground arith
less-same (pos a) (negsuc b) l s = ground arith
less-same (negsuc a) (pos b) l s = refl
less-same (negsuc a) (negsuc b) l s = ground arith

same_comm : (x y : ℤ) → same_int x y ≡ same_int y x
unfolding same_int
same_comm (pos a) (pos b) = ground arith
same_comm (pos a) (negsuc b) = refl
same_comm (negsuc a) (pos b) = refl
same_comm (negsuc a) (negsuc b) = ground arith

less_asym : (x y : ℤ) → less_int y x ≡ true → less_int x y ≡ false
unfolding less_int
less_asym (pos a) (pos b) l = ground arith
less_asym (pos a) (negsuc b) l = refl
less_asym (negsuc a) (pos b) l = ground arith
less_asym (negsuc a) (negsuc b) l = ground arith

less_far : (x y z : ℤ) → less_int x y ≡ true → less_int z y ≡ false → same_int x z ≡ false
unfolding less_int same_int
less_far (pos a) (pos b) (pos c) l g = ground arith
less_far (pos a) (pos b) (negsuc c) l g = refl
less_far (pos a) (negsuc b) z l g = ground arith
less_far (negsuc a) y (pos c) l g = refl
less_far (negsuc a) (pos b) (negsuc c) l g = ground arith
less_far (negsuc a) (negsuc b) (negsuc c) l g = ground arith

less_trans : (x y z : ℤ) → less_int y x ≡ false → less_int z y ≡ false → less_int z x ≡ false
unfolding less_int
less_trans (pos a) (pos b) (pos c) l g = ground arith
less_trans (pos a) (pos b) (negsuc c) l g = ground arith
less_trans (pos a) (negsuc b) z l g = ground arith
less_trans (negsuc a) y (pos c) l g = refl
less_trans (negsuc a) (pos b) (negsuc c) l g = ground arith
less_trans (negsuc a) (negsuc b) (negsuc c) l g = ground arith

-- No entry of the list is below `x`.
abbrev AtLeast : ℤ → List ℤ → Type 0
AtLeast x [] = Unit {0}
AtLeast x (y ∷ ys) = (less_int y x ≡ false) × AtLeast x ys

abbrev Ascending : List ℤ → Type 0
Ascending [] = Unit {0}
Ascending (x ∷ xs) = AtLeast x xs × Ascending xs

AtLeast-trans : (x y : ℤ) (ys : List ℤ) → less_int y x ≡ false → AtLeast y ys → AtLeast x ys
AtLeast-trans x y [] l a = tt
AtLeast-trans x y (z ∷ ys) l (g, a) = (less_trans x y z l g, AtLeast-trans x y ys l a)

insert-AtLeast :
    (x y : ℤ) (ys : List ℤ) → less_int y x ≡ false → AtLeast x ys → AtLeast x (insert y ys)
unfolding insert
insert-AtLeast x y [] l a = (l, tt)
insert-AtLeast x y (z ∷ ys) l (g, a) = elim (Bool-cases (less_int z y)) [
  | inl e ↦ rw e (g, insert-AtLeast x y ys l a)
  | inr e ↦ rw e (l, (g, a))
]

insert-Ascending : (x : ℤ) (ys : List ℤ) → Ascending ys → Ascending (insert x ys)
unfolding insert
insert-Ascending x [] s = (tt, tt)
insert-Ascending x (y ∷ ys) (a, s) = elim (Bool-cases (less_int y x)) [
  | inl e ↦ rw e (insert-AtLeast y x ys (less_asym x y e) a, insert-Ascending x ys s)
  | inr e ↦ rw e ((e, AtLeast-trans x y ys e a), (a, s))
]

sort-Ascending : (xs : List ℤ) → Ascending (sort xs)
unfolding sort
sort-Ascending [] = tt
sort-Ascending (x ∷ xs) = insert-Ascending x (sort xs) (sort-Ascending xs)

occurs-insert : (x y : ℤ) (ys : List ℤ) → occurs x (insert y ys) ≡ same_int x y || occurs x ys
unfolding occurs insert
occurs-insert x y [] = refl
occurs-insert x y (z ∷ ys) = ground (arith, occurs-insert x y ys)

repeats-insert : (x : ℤ) (ys : List ℤ) → repeats (insert x ys) ≡ occurs x ys || repeats ys
unfolding repeats insert occurs
repeats-insert x [] = refl
repeats-insert x (y ∷ ys) = ground (arith, repeats-insert x ys, occurs-insert y x ys, same_comm x y)

occurs-sort : (x : ℤ) (ys : List ℤ) → occurs x (sort ys) ≡ occurs x ys
unfolding sort occurs
occurs-sort x [] = refl
occurs-sort x (y ∷ ys) =
    occurs-insert x y (sort ys) ∙ ap (λ b. same_int x y || b) (occurs-sort x ys)

repeats-sort : (xs : List ℤ) → repeats (sort xs) ≡ repeats xs
unfolding sort repeats
repeats-sort [] = refl
repeats-sort (x ∷ xs) =
    ground (arith, repeats-insert x (sort xs), occurs-sort x xs, repeats-sort xs)

far-occurs : (x y : ℤ) (ys : List ℤ) → less_int x y ≡ true → AtLeast y ys → occurs x ys ≡ false
unfolding occurs
far-occurs x y [] l a = refl
far-occurs x y (z ∷ ys) l (g, a) = ground (arith, less_far x y z l g, far-occurs x y ys l a)

neighbours_equal-repeats : (xs : List ℤ) → Ascending xs → neighbours_equal xs ≡ repeats xs
unfolding neighbours_equal repeats occurs
neighbours_equal-repeats [] s = refl
neighbours_equal-repeats (x ∷ []) s = refl
neighbours_equal-repeats (x ∷ y ∷ ys) ((g, a), s) = elim (Bool-cases (same_int x y)) [
  | inl e ↦ ground arith
  | inr e ↦
      ground (arith, neighbours_equal-repeats (y ∷ ys) s, far-occurs x y ys (less-same x y g e) s.0)
]

sorted_duplicate-repeats : (nums : List ℤ) → sorted_duplicate nums ≡ repeats nums
unfolding sorted_duplicate
sorted_duplicate-repeats nums =
    neighbours_equal-repeats (sort nums) (sort-Ascending nums) ∙ repeats-sort nums

-- `containsDuplicate` finds out, for every list of numbers that is not empty, whether an entry
-- occurs again further on; on the empty list it reads out of bounds.
pub contains_duplicate-repeats :
    (sv : Services) (fuel : ℕ) (x : ℤ) (xs : List ℤ) (m : Machine sv)
    → (contains_duplicate sv fuel (x ∷ xs) m ≡ done (repeats (x ∷ xs)) m)
      × (contains_duplicate sv fuel [] m ≡ fault bad_index)
unfolding contains_duplicate
contains_duplicate-repeats sv fuel x xs m =
    (ap (λ b. done b m) (sorted_duplicate-repeats (x ∷ xs)), refl)
