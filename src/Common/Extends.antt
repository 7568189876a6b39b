-- ===== src/Common/Extends.antt =====
-- A table to which rows were only added, at its end.
use mathlib.Core.Path.{◌≡◌, refl, ◌∙◌}
use mathlib.Core.Bool.{Bool, true}
use mathlib.Core.List.{List, [], ◌∷◌, ◌++◌}
use native.Mathlib.Omega.{arith}
use ai_client_acquisition_os.Common.Lists.{any}

-- The second list starts with the first.
abbrev pub Extends : {A : Type 0} → List A → List A → Type 0
Extends [] ys = Unit
Extends (x ∷ xs) [] = ⊥
Extends (x ∷ xs) (y ∷ ys) = (x ≡ y) × Extends xs ys

pub Extends-refl : {A : Type 0} (xs : List A) → Extends xs xs
Extends-refl [] = tt
Extends-refl (x ∷ xs) = (refl, Extends-refl xs)

pub Extends-++ : {A : Type 0} (xs ys : List A) → Extends xs (xs ++ ys)
Extends-++ [] ys = tt
Extends-++ (x ∷ xs) ys = (refl, Extends-++ xs ys)

pub Extends-trans : {A : Type 0} (xs ys zs : List A) → Extends xs ys → Extends ys zs → Extends xs zs
Extends-trans [] ys zs a b = tt
Extends-trans (x ∷ xs) [] zs a b = absurd a
Extends-trans (x ∷ xs) (y ∷ ys) [] a b = absurd b
Extends-trans (x ∷ xs) (y ∷ ys) (z ∷ zs) (e, a) (f, b) = (e ∙ f, Extends-trans xs ys zs a b)

-- What some row passed, some row passes still.
pub any-Extends :
    {A : Type 0} (test : A → Bool) (xs ys : List A)
    → Extends xs ys
    → any test xs ≡ true
    → any test ys ≡ true
any-Extends test [] ys a h = ground arith
any-Extends test (x ∷ xs) [] a h = absurd a
any-Extends test (x ∷ xs) (y ∷ ys) (e, a) h = ground (arith, e, any-Extends test xs ys a)
