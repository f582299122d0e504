-- ===== src/Prelude/Lists.antt =====
-- Lists measured by native numbers, and the predicates and filters that the components share.
use Prim.Native.Nat.{ℕ, suc, ◌+◌, ◌≤◌}
use mathlib.Core.Path.{◌≡◌, refl, sym, ap, subst, ◌∙◌}
use mathlib.Core.Logic.{◌⊎◌, inl, inr}
use mathlib.Core.Bool.{Bool, true, false, ◌&&◌, ◌||◌}
use mathlib.Core.List.{List, [], ◌∷◌, ◌++◌, map}
use native.Mathlib.Omega.{arith}
use local_data_platform.Prelude.Tests.{if◌then◌else◌}

module _ {ℓ} {A : Type ℓ} where
  abbrev pub length : List A → ℕ
  length [] = 0
  length (x ∷ xs) = suc (length xs)

  pub length-append : (xs ys : List A) → length (xs ++ ys) ≡ length xs + length ys
  length-append [] ys = omega arith
  length-append (x ∷ xs) ys = omega (arith, length-append xs ys)

  -- The rows that pass a test, in order.
  abbrev pub select : (A → Bool) → List A → List A
  select p [] = []
  select p (x ∷ xs) = if p x then x ∷ select p xs else select p xs

  abbrev pub any : (A → Bool) → List A → Bool
  any p [] = false
  any p (x ∷ xs) = p x || any p xs

  abbrev pub every : (A → Bool) → List A → Bool
  every p [] = true
  every p (x ∷ xs) = p x && every p xs

  abbrev pub count_if : (A → Bool) → List A → ℕ
  count_if p [] = 0
  count_if p (x ∷ xs) = if p x then suc (count_if p xs) else count_if p xs

-- A predicate of every element, by recursion, so that it computes to tuples.
abbrev pub All {ℓ κ} : {A : Type ℓ} → (A → Type κ) → List A → Type κ
All P [] = Unit
All P (x ∷ xs) = P x × All P xs

-- Membership with the position kept, by recursion.
pub data In {ℓ} {A : Type ℓ} (a : A) : List A → Type ℓ where
  here : {xs : List A} → In a (a ∷ xs)
  there : {x : A} {xs : List A} → In a xs → In a (x ∷ xs)

module _ {ℓ κ} {A : Type ℓ} (P : A → Type κ) where
  pub All-In : (xs : List A) → All P xs → (a : A) → In a xs → P a
  All-In [] h a m = elim m [ ]
  All-In (x ∷ xs) h a here = h.0
  All-In (x ∷ xs) h a (there m) = All-In xs h.1 a m

  pub All-append : (xs ys : List A) → All P xs → All P ys → All P (xs ++ ys)
  All-append [] ys h k = k
  All-append (x ∷ xs) ys h k = (h.0, All-append xs ys h.1 k)

  pub All-of : (xs : List A) → ((a : A) → In a xs → P a) → All P xs
  All-of [] h = tt
  All-of (x ∷ xs) h = (h x here, All-of xs (λ a m. h a (there m)))

module _ {ℓ} {A : Type ℓ} where
  pub length-map {κ} : {B : Type κ} (f : A → B) (xs : List A) → length (map f xs) ≡ length xs
  length-map f [] = refl
  length-map f (x ∷ xs) = ap suc (length-map f xs)

  pub length-select-le : (p : A → Bool) (xs : List A) → length (select p xs) ≤ length xs
  length-select-le p [] = omega arith
  length-select-le p (x ∷ xs) = ground (arith, length-select-le p xs)

pub In-cons {ℓ} : {A : Type ℓ} {x y : A} {xs : List A} → In x (y ∷ xs) → (x ≡ y) ⊎ In x xs
In-cons here = inl refl
In-cons (there i) = inr i

module _ {ℓ} {A : Type ℓ} (p : A → Bool) where
  pub select-eq-nil : (xs : List A) (x : A) → select p xs ≡ [] → In x xs → p x ≡ false
  select-eq-nil [] x h i = elim i [ ]
  select-eq-nil (_ ∷ xs) x h here = ground arith
  select-eq-nil (y ∷ xs) x h (there i) = select-eq-nil xs x (ground arith) i

  pub In-select : (xs : List A) (x : A) → In x xs → p x ≡ true → In x (select p xs)
  In-select [] x i h = elim i [ ]
  In-select (_ ∷ xs) x here h = rw h here
  In-select (y ∷ xs) x (there i) h = skip (p y) (In-select xs x i h)
    where
      skip : (b : Bool) → In x (select p xs) → In x (if b then y ∷ select p xs else select p xs)
      skip true j = there j
      skip false j = j

  select-In_head :
      (b : Bool) (y x : A) (ys : List A)
      → p y ≡ b
      → In x (if b then y ∷ ys else ys)
      → ((x ≡ y) × (p x ≡ true)) ⊎ In x ys
  select-In_head true y x ys h i = elim (In-cons i) [ inl e ↦ inl (e, ap p e ∙ h) | inr j ↦ inr j ]
  select-In_head false y x ys h i = inr i

  -- A selected row is a row of the list that passes.
  pub select-In : (xs : List A) (x : A) → In x (select p xs) → In x xs × (p x ≡ true)
  select-In [] x i = elim i [ ]
  select-In (y ∷ xs) x i = elim (select-In_head (p y) y x (select p xs) refl i) [
    | inl (e, h) ↦ (subst (λ z. In z (y ∷ xs)) (sym e) here, h)
    | inr j ↦ let (k, h) = select-In xs x j in (there k, h)
  ]

-- Membership in an append.
pub append-In : {A : Type 0} (xs ys : List A) (x : A) → In x (xs ++ ys) → In x xs ⊎ In x ys
append-In [] ys x i = inr i
append-In (y ∷ xs) ys x i = elim (In-cons i) [
  | inl same ↦ inl (subst (λ z. In z (y ∷ xs)) (sym same) here)
  | inr j ↦ elim (append-In xs ys x j) [ inl k ↦ inl (there k) | inr k ↦ inr k ]
]

pub In-append_left : {A : Type 0} (xs ys : List A) (x : A) → In x xs → In x (xs ++ ys)
In-append_left [] ys x i = elim i [ ]
In-append_left (_ ∷ xs) ys x here = here
In-append_left (y ∷ xs) ys x (there i) = there (In-append_left xs ys x i)

pub In-append_right : {A : Type 0} (xs ys : List A) (x : A) → In x ys → In x (xs ++ ys)
In-append_right [] ys x i = i
In-append_right (y ∷ xs) ys x i = there (In-append_right xs ys x i)
