-- ===== src/Common/Sorting.antt =====
-- Laws of the stable sort: it keeps the length, every test and the absence of repetitions, and does
-- nothing to a list in order.
use Prim.Native.Nat.{ℕ, suc}
use mathlib.Core.Path.{◌≡◌, refl, ap, ◌∙◌}
use mathlib.Core.Logic.{◌≢◌}
use mathlib.Core.Bool.{Bool, true, not, ◌&&◌, ◌||◌}
use mathlib.Core.List.{List, [], ◌∷◌, ◌++◌, map, reverse, reverse-append}
use native.Mathlib.Omega.{arith}
use baseballstattrack.Common.Tests.{leb}
use baseballstattrack.Common.Lists.{length, all, insert_by, sort_by}
use baseballstattrack.Common.Equality.{Eq, ◌==◌, contains, distinct}

module _ {ℓ} {A : Type ℓ} (key : A → ℕ) where
  length-insert_by : (x : A) (xs : List A) → length (insert_by key x xs) ≡ suc (length xs)
  length-insert_by x [] = refl
  length-insert_by x (y ∷ ys) = ground (arith, length-insert_by x ys)

  pub length-sort_by : (xs : List A) → length (sort_by key xs) ≡ length xs
  length-sort_by [] = refl
  length-sort_by (x ∷ xs) = length-insert_by x (sort_by key xs) ∙ ap suc (length-sort_by xs)

  all-insert_by :
      (p : A → Bool) (x : A) (xs : List A) → all p (insert_by key x xs) ≡ (p x && all p xs)
  all-insert_by p x [] = refl
  all-insert_by p x (y ∷ ys) = ground (arith, all-insert_by p x ys)

  pub all-sort_by : (p : A → Bool) (xs : List A) → all p (sort_by key xs) ≡ all p xs
  all-sort_by p [] = refl
  all-sort_by p (x ∷ xs) =
      all-insert_by p x (sort_by key xs) ∙ ap (λ b. p x && b) (all-sort_by p xs)

  abbrev pub in_order : List A → Bool
  in_order [] = true
  in_order (x ∷ xs) = all (λ y. leb (key x) (key y)) xs && in_order xs

  all-leb_mono :
      (a b : A) (xs : List A)
      → leb (key a) (key b) ≡ true
      → all (λ y. leb (key b) (key y)) xs ≡ true
      → all (λ y. leb (key a) (key y)) xs ≡ true
  all-leb_mono a b [] h k = refl
  all-leb_mono a b (x ∷ xs) h k = ground (arith, all-leb_mono a b xs h)

  insert_by-in_order :
      (x : A) (xs : List A) → in_order xs ≡ true → in_order (insert_by key x xs) ≡ true
  insert_by-in_order x [] h = refl
  insert_by-in_order x (y ∷ ys) h = ground (
    arith,
    insert_by-in_order x ys,
    all-insert_by (λ z. leb (key y) (key z)) x ys,
    all-leb_mono x y ys,
  )

  pub sort_by-in_order : (xs : List A) → in_order (sort_by key xs) ≡ true
  sort_by-in_order [] = refl
  sort_by-in_order (x ∷ xs) = insert_by-in_order x (sort_by key xs) (sort_by-in_order xs)

  insert_by-head : (x : A) (xs : List A) → in_order (x ∷ xs) ≡ true → insert_by key x xs ≡ x ∷ xs
  insert_by-head x [] h = refl
  insert_by-head x (y ∷ ys) h = ground arith

  pub sort_by-of_in_order : (xs : List A) → in_order xs ≡ true → sort_by key xs ≡ xs
  sort_by-of_in_order [] h = refl
  sort_by-of_in_order (x ∷ xs) h = ground (arith, sort_by-of_in_order xs, insert_by-head x xs h)

  pub sort_by-sort_by : (xs : List A) → sort_by key (sort_by key xs) ≡ sort_by key xs
  sort_by-sort_by xs = sort_by-of_in_order (sort_by key xs) (sort_by-in_order xs)

  -- Elements with different keys may be inserted in either order.
  pub insert_by_comm :
      (x y : A) (xs : List A)
      → key x ≢ key y
      → insert_by key x (insert_by key y xs) ≡ insert_by key y (insert_by key x xs)
  insert_by_comm x y [] h = ground arith
  insert_by_comm x y (z ∷ zs) h = ground (arith, insert_by_comm x y zs h)

  module _ {κ} {B : Type κ} ⦃e : Eq B⦄ (f : A → B) where
    contains-insert_by :
        (b : B) (x : A) (xs : List A)
        → contains (map f (insert_by key x xs)) b ≡ (f x == b || contains (map f xs) b)
    contains-insert_by b x [] = refl
    contains-insert_by b x (y ∷ ys) = ground (arith, contains-insert_by b x ys)

    contains-sort_by :
        (b : B) (xs : List A) → contains (map f (sort_by key xs)) b ≡ contains (map f xs) b
    contains-sort_by b [] = refl
    contains-sort_by b (x ∷ xs) =
        contains-insert_by b x (sort_by key xs) ∙ ap (λ c. f x == b || c) (contains-sort_by b xs)

    distinct-insert_by :
        (x : A) (xs : List A)
        → distinct (map f (insert_by key x xs))
          ≡ (not (contains (map f xs) (f x)) && distinct (map f xs))
    distinct-insert_by x [] = refl
    distinct-insert_by x (y ∷ ys) = ground (
      arith,
      distinct-insert_by x ys,
      contains-insert_by (f y) x ys,
      e.beq_iff (f x) (f y),
      e.beq_iff (f y) (f x),
    )

    pub distinct-sort_by : (xs : List A) → distinct (map f (sort_by key xs)) ≡ distinct (map f xs)
    distinct-sort_by [] = refl
    distinct-sort_by (x ∷ xs) = ground (
      arith,
      distinct-insert_by x (sort_by key xs),
      contains-sort_by (f x) xs,
      distinct-sort_by xs,
    )

pub all-append {ℓ} :
    {A : Type ℓ} (p : A → Bool) (xs ys : List A) → all p (xs ++ ys) ≡ (all p xs && all p ys)
all-append p [] ys = refl
all-append p (x ∷ xs) ys = ground (arith, all-append p xs ys)

pub all-reverse {ℓ} : {A : Type ℓ} (p : A → Bool) (xs : List A) → all p (reverse xs) ≡ all p xs
all-reverse p [] = refl
all-reverse p (x ∷ xs) = ground (
  arith,
  ap (all p) (reverse-append (x ∷ []) xs),
  all-append p (reverse xs) (x ∷ []),
  all-reverse p xs,
)
