-- ===== src/Prelude/Sets.antt =====
-- Python's `set` and `sorted(set)` over lists: membership tests, and a sorted list without
-- duplicates.
use Prim.Native.String.{String, compare}
use Prim.Native.Nat.{Ordering}
use mathlib.Core.Path.{◌≡◌, refl, ◌∙◌}
use mathlib.Core.Logic.{inl, inr}
use mathlib.Core.Bool.{Bool, true, false, not, ◌&&◌, ◌||◌}
use mathlib.Core.List.{List, [], ◌∷◌, ◌++◌}
use native.Mathlib.Omega.{arith}
use harness_system.Prelude.Tests.{if◌then◌else◌, HasEquality, ◌==◌, string_eq, ==_iff, Bool-cases}
use harness_system.Prelude.Lists.{any, all, filter, is_empty}

module _ {ℓ} {A : Type ℓ} ⦃e : HasEquality A⦄ where
  -- `a in xs`
  abbrev pub member : A → List A → Bool
  member a [] = false
  member a (x ∷ xs) = a == x || member a xs

  -- `set(xs).issubset(ys)`
  abbrev pub is_subset : List A → List A → Bool
  is_subset xs ys = all (λ x. member x ys) xs

  pub member-append : (a : A) (xs ys : List A) → member a (xs ++ ys) ≡ (member a xs || member a ys)
  member-append a [] ys = refl
  member-append a (x ∷ xs) ys = ground (arith, member-append a xs ys)

  pub member-filter :
      (p : A → Bool) (a : A) (xs : List A) → member a (filter p xs) ≡ (p a && member a xs)
  member-filter p a [] = ground arith
  member-filter p a (x ∷ xs) = ground (arith, ==_iff a x, member-filter p a xs)

-- Python's `<` on texts.
abbrev pub str_lt : String → String → Bool
str_lt s t = elim (compare s t) [ Ordering.lt ↦ true | _ ↦ false ]

-- One element into a sorted list.
insert_sorted : String → List String → List String
insert_sorted x [] = x ∷ []
insert_sorted x (y ∷ ys) =
    let rest = insert_sorted x ys in if str_lt y x then y ∷ rest else x ∷ y ∷ ys

-- `sorted(xs)`, which keeps what occurs twice.
unfoldable pub sorted : List String → List String
unfolding insert_sorted
sorted [] = []
sorted (x ∷ xs) = insert_sorted x (sorted xs)

member-insert_sorted :
    (a x : String) (ys : List String) → member a (insert_sorted x ys) ≡ (a == x || member a ys)
unfolding insert_sorted
member-insert_sorted a x [] = refl
member-insert_sorted a x (y ∷ ys) = ground (arith, member-insert_sorted a x ys)

pub member-sorted : (a : String) (xs : List String) → member a (sorted xs) ≡ member a xs
unfolding sorted
member-sorted a [] = refl
member-sorted a (x ∷ xs) = rw member-insert_sorted (ground (arith, member-sorted a xs))

-- One element into a sorted list without duplicates.
insert_unique : String → List String → List String
insert_unique x [] = x ∷ []
insert_unique x (y ∷ ys) =
    let rest = insert_unique x ys in
    if x == y then y ∷ ys else if str_lt x y then x ∷ y ∷ ys else y ∷ rest

-- `sorted(set(xs))`
unfoldable pub sorted_set : List String → List String
unfolding insert_unique
sorted_set [] = []
sorted_set (x ∷ xs) = insert_unique x (sorted_set xs)

member-insert_unique :
    (a x : String) (ys : List String) → member a (insert_unique x ys) ≡ (a == x || member a ys)
unfolding insert_unique
member-insert_unique a x [] = refl
member-insert_unique a x (y ∷ ys) =
    ground (arith, member-insert_unique a x ys, ==_iff a x, ==_iff x y, ==_iff a y)

-- Sorting and removing duplicates keep the members.
pub member-sorted_set : (a : String) (xs : List String) → member a (sorted_set xs) ≡ member a xs
unfolding sorted_set
member-sorted_set a [] = refl
member-sorted_set a (x ∷ xs) = rw member-insert_unique (ground (arith, member-sorted_set a xs))

-- The set operations that the program sorts: `set(xs) & set(ys)`, `-` and `|`.
abbrev pub intersection : List String → List String → List String
intersection xs ys = sorted_set (filter (λ x. member x ys) xs)

abbrev pub difference : List String → List String → List String
difference xs ys = sorted_set (filter (λ x. not (member x ys)) xs)

abbrev pub union : List String → List String → List String
union xs ys = sorted_set (xs ++ ys)

pub member-intersection :
    (a : String) (xs ys : List String)
    → member a (intersection xs ys) ≡ (member a ys && member a xs)
member-intersection a xs ys = member-sorted_set a _ ∙ member-filter (λ x. member x ys) a xs

pub member-difference :
    (a : String) (xs ys : List String)
    → member a (difference xs ys) ≡ (not (member a ys) && member a xs)
member-difference a xs ys = member-sorted_set a _ ∙ member-filter (λ x. not (member x ys)) a xs

pub member-union :
    (a : String) (xs ys : List String) → member a (union xs ys) ≡ (member a xs || member a ys)
member-union a xs ys = member-sorted_set a _ ∙ member-append a xs ys

-- `set(xs).issubset(ys)`, by its members.
module _ {ℓ} {A : Type ℓ} ⦃e : HasEquality A⦄ where
  pub all-member :
      (p : A → Bool) (xs : List A) (a : A) → all p xs ≡ true → member a xs ≡ true → p a ≡ true
  all-member p [] a h m = cc
  all-member p (x ∷ xs) a h m = elim (Bool-cases (a == x)) [
    | inl same ↦ rw ((==_iff a x).0 same) (ground arith)
    | inr other ↦ all-member p xs a (ground arith) (ground arith)
  ]

  pub all_of_members :
      (p : A → Bool) (xs : List A) → ((a : A) → member a xs ≡ true → p a ≡ true) → all p xs ≡ true
  all_of_members p [] h = refl
  all_of_members p (x ∷ xs) h =
      ground (arith, h x, ==_iff x x, all_of_members p xs (λ a m. h a (ground arith)))

  pub any_of_member :
      (p : A → Bool) (xs : List A) (a : A) → member a xs ≡ true → p a ≡ true → any p xs ≡ true
  any_of_member p [] a m h = cc
  any_of_member p (x ∷ xs) a m h = elim (Bool-cases (a == x)) [
    | inl same ↦ rw (← (==_iff a x).0 same, h)
    | inr other ↦ ground (arith, any_of_member p xs a)
  ]

  -- What some element of a part satisfies, some element of the whole satisfies.
  pub any_of_subset :
      (p : A → Bool) (xs ys : List A) → is_subset xs ys ≡ true → any p xs ≡ true → any p ys ≡ true
  any_of_subset p [] ys h k = cc
  any_of_subset p (x ∷ xs) ys h k = ground (arith, any_of_subset p xs ys, any_of_member p ys x)

-- A list is empty exactly when it has no member.
pub member-is_empty : (a : String) (xs : List String) → is_empty xs ≡ true → member a xs ≡ false
member-is_empty a [] h = refl
member-is_empty a (x ∷ xs) h = cc

-- Emptiness of the lists that the set operations build.
module _ {ℓ} {A : Type ℓ} where
  pub is_empty-append : (xs ys : List A) → is_empty (xs ++ ys) ≡ (is_empty xs && is_empty ys)
  is_empty-append [] ys = refl
  is_empty-append (x ∷ xs) ys = refl

  pub is_empty-filter : (p : A → Bool) (xs : List A) → is_empty (filter p xs) ≡ not (any p xs)
  is_empty-filter p [] = refl
  is_empty-filter p (x ∷ xs) = ground (arith, is_empty-filter p xs)

  pub any-not : (p : A → Bool) (xs : List A) → any (λ x. not (p x)) xs ≡ not (all p xs)
  any-not p [] = refl
  any-not p (x ∷ xs) = ground (arith, any-not p xs)

  pub is_empty-filter-all :
      (p : A → Bool) (xs : List A) → all p xs ≡ true → is_empty (filter p xs) ≡ is_empty xs
  is_empty-filter-all p [] h = refl
  is_empty-filter-all p (x ∷ xs) h = ground arith

  pub all-filter-not :
      (p q : A → Bool) (xs : List A) → all p (filter (λ x. not (q x)) xs) ≡ all (λ x. q x || p x) xs
  all-filter-not p q [] = refl
  all-filter-not p q (x ∷ xs) = ground (arith, all-filter-not p q xs)

is_empty-insert_unique : (x : String) (ys : List String) → is_empty (insert_unique x ys) ≡ false
unfolding insert_unique
is_empty-insert_unique x [] = refl
is_empty-insert_unique x (y ∷ ys) = ground arith

pub is_empty-sorted_set : (xs : List String) → is_empty (sorted_set xs) ≡ is_empty xs
unfolding sorted_set
is_empty-sorted_set [] = refl
is_empty-sorted_set (x ∷ xs) = is_empty-insert_unique x (sorted_set xs)

all-insert_unique :
    (p : String → Bool) (x : String) (ys : List String)
    → all p (insert_unique x ys) ≡ (p x && all p ys)
unfolding insert_unique
all-insert_unique p x [] = refl
all-insert_unique p x (y ∷ ys) = ground (arith, all-insert_unique p x ys, ==_iff x y)

pub all-sorted_set : (p : String → Bool) (xs : List String) → all p (sorted_set xs) ≡ all p xs
unfolding sorted_set
all-sorted_set p [] = refl
all-sorted_set p (x ∷ xs) =
    rw (all-insert_unique p x (sorted_set xs)) (ground (arith, all-sorted_set p xs))

pub is_empty-difference : (xs ys : List String) → is_empty (difference xs ys) ≡ is_subset xs ys
is_empty-difference xs ys =
    is_empty-sorted_set _
    ∙ (is_empty-filter (λ x. not (member x ys)) xs ∙ ground (arith, any-not (λ x. member x ys) xs))

pub is_empty-intersection :
    (xs ys : List String) → is_empty (intersection xs ys) ≡ not (any (λ x. member x ys) xs)
is_empty-intersection xs ys = is_empty-sorted_set _ ∙ is_empty-filter (λ x. member x ys) xs

pub is_empty-intersection_subset :
    (xs ys : List String) → is_subset xs ys ≡ true → is_empty (intersection xs ys) ≡ is_empty xs
is_empty-intersection_subset xs ys h =
    is_empty-sorted_set _ ∙ is_empty-filter-all (λ x. member x ys) xs h

pub is_subset-difference :
    (xs ys zs : List String)
    → is_subset (difference xs ys) zs ≡ all (λ x. member x ys || member x zs) xs
is_subset-difference xs ys zs =
    all-sorted_set (λ x. member x zs) _ ∙ all-filter-not (λ x. member x zs) (λ x. member x ys) xs

pub is_empty-difference_disjoint :
    (xs ys : List String)
    → any (λ x. member x ys) xs ≡ false
    → is_empty (difference xs ys) ≡ is_empty xs
unfolding sorted_set
is_empty-difference_disjoint [] ys h = refl
is_empty-difference_disjoint (x ∷ xs) ys h = is_empty-difference (x ∷ xs) ys ∙ ground arith

pub intersection_subset :
    (xs ys : List String)
    → (is_subset (intersection xs ys) xs ≡ true) × (is_subset (intersection xs ys) ys ≡ true)
intersection_subset xs ys = (
  all_of_members (λ a. member a xs) (intersection xs ys)
      (λ a m. ground (arith, member-intersection a xs ys)),
  all_of_members (λ a. member a ys) (intersection xs ys)
      (λ a m. ground (arith, member-intersection a xs ys)),
)

pub union_superset :
    (xs ys : List String)
    → (is_subset xs (union xs ys) ≡ true) × (is_subset ys (union xs ys) ≡ true)
union_superset xs ys = (
  all_of_members (λ a. member a (union xs ys)) xs (λ a m. ground (arith, member-union a xs ys)),
  all_of_members (λ a. member a (union xs ys)) ys (λ a m. ground (arith, member-union a xs ys)),
)
