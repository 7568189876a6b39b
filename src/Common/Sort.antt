-- ===== src/Common/Sort.antt =====
-- `sort`: the stable sort by a comparison, `le a b` where the source's comparator is at most 0.
use mathlib.Core.Path.{◌≡◌, refl, sym, ◌∙◌}
use mathlib.Core.Bool.{Bool, true, false}
use mathlib.Core.Logic.{inl, inr, ◌⊎◌}
use mathlib.Core.List.{List, [], ◌∷◌, Memᴰ}
use native.Mathlib.Omega.{arith}
use ai_client_acquisition_os.Common.Tests.{if◌then◌else◌, Bool-cases}
use ai_client_acquisition_os.Common.Lists.{All, count_by, length}

module _ {ℓ} {A : Type ℓ} (le : A → A → Bool) where
  unfoldable pub insert_by : A → List A → List A
  insert_by x [] = x ∷ []
  insert_by x (y ∷ ys) = let rest = y ∷ insert_by x ys in if le x y then x ∷ y ∷ ys else rest

  unfoldable pub sort_by : List A → List A
  unfolding insert_by
  sort_by [] = []
  sort_by (x ∷ xs) = insert_by x (sort_by xs)

  -- Each member is at most every later one.
  abbrev pub IsSortedBy : List A → Type 0
  IsSortedBy [] = Unit
  IsSortedBy (x ∷ xs) = All (λ y. le x y ≡ true) xs × IsSortedBy xs

  All-insert_by : (P : A → Type 0) (x : A) (xs : List A) → P x → All P xs → All P (insert_by x xs)
  unfolding insert_by
  All-insert_by P x [] p h = (p, tt)
  All-insert_by P x (y ∷ ys) p h = elim (Bool-cases (le x y)) [
    | inl e ↦ rw e (p, h)
    | inr e ↦ rw e (h.0, All-insert_by P x ys p h.1)
  ]

  pub mem-insert_by : (z x : A) (xs : List A) → Memᴰ z (insert_by x xs) → (z ≡ x) ⊎ Memᴰ z xs
  unfolding insert_by
  mem-insert_by z x [] (Memᴰ.head e) = inl e
  mem-insert_by z x [] (Memᴰ.tail m) = elim m [ ]
  mem-insert_by z x (y ∷ ys) m = elim (Bool-cases (le x y)) [
    | inl e ↦ from_cons (rw e at m)
    | inr e ↦ from_rest (mem-insert_by z x ys) (rw e at m)
  ]
    where
      from_cons : Memᴰ z (x ∷ y ∷ ys) → (z ≡ x) ⊎ Memᴰ z (y ∷ ys)
      from_cons (Memᴰ.head e) = inl e
      from_cons (Memᴰ.tail n) = inr n

      from_rest :
          (Memᴰ z (insert_by x ys) → (z ≡ x) ⊎ Memᴰ z ys)
          → Memᴰ z (y ∷ insert_by x ys)
          → (z ≡ x) ⊎ Memᴰ z (y ∷ ys)
      from_rest ih (Memᴰ.head e) = inr (Memᴰ.head e)
      from_rest ih (Memᴰ.tail n) = elim (ih n) [ inl e ↦ inl e | inr k ↦ inr (Memᴰ.tail k) ]

  pub mem-sort_by : (z : A) (xs : List A) → Memᴰ z (sort_by xs) → Memᴰ z xs
  unfolding sort_by
  mem-sort_by z [] m = m
  mem-sort_by z (x ∷ xs) m = elim (mem-insert_by z x (sort_by xs) m) [
    | inl e ↦ Memᴰ.head e
    | inr n ↦ Memᴰ.tail (mem-sort_by z xs n)
  ]

  insert_by-mem : (x : A) (xs : List A) → Memᴰ x (insert_by x xs)
  unfolding insert_by
  insert_by-mem x [] = Memᴰ.head refl
  insert_by-mem x (y ∷ ys) = elim (Bool-cases (le x y)) [
    | inl e ↦ rw e (Memᴰ.head refl)
    | inr e ↦ rw e (Memᴰ.tail (insert_by-mem x ys))
  ]

  insert_by-kept : (z x : A) (xs : List A) → Memᴰ z xs → Memᴰ z (insert_by x xs)
  unfolding insert_by
  insert_by-kept z x [] m = elim m [ ]
  insert_by-kept z x (y ∷ ys) (Memᴰ.head p) = elim (Bool-cases (le x y)) [
    | inl e ↦ rw e (Memᴰ.tail (Memᴰ.head p))
    | inr e ↦ rw e (Memᴰ.head p)
  ]
  insert_by-kept z x (y ∷ ys) (Memᴰ.tail m) = elim (Bool-cases (le x y)) [
    | inl e ↦ rw e (Memᴰ.tail (Memᴰ.tail m))
    | inr e ↦ rw e (Memᴰ.tail (insert_by-kept z x ys m))
  ]

  pub sort_by-mem : (z : A) (xs : List A) → Memᴰ z xs → Memᴰ z (sort_by xs)
  unfolding sort_by
  sort_by-mem z [] m = m
  sort_by-mem z (x ∷ xs) (Memᴰ.head e) = rw e (insert_by-mem x (sort_by xs))
  sort_by-mem z (x ∷ xs) (Memᴰ.tail m) = insert_by-kept z x (sort_by xs) (sort_by-mem z xs m)

  count_by-insert_by :
      (p : A → Bool) (x : A) (xs : List A) → count_by p (insert_by x xs) ≡ count_by p (x ∷ xs)
  unfolding insert_by
  count_by-insert_by p x [] = refl
  count_by-insert_by p x (y ∷ ys) = elim (Bool-cases (le x y)) [
    | inl e ↦ rw e refl
    | inr e ↦ rw e (ground (arith, count_by-insert_by p x ys))
  ]

  pub count_by-sort_by : (p : A → Bool) (xs : List A) → count_by p (sort_by xs) ≡ count_by p xs
  unfolding sort_by
  count_by-sort_by p [] = refl
  count_by-sort_by p (x ∷ xs) =
      count_by-insert_by p x (sort_by xs) ∙ ground (arith, count_by-sort_by p xs)

  module _ (trans : (x y z : A) → le x y ≡ true → le y z ≡ true → le x z ≡ true)
      (total : (x y : A) → le x y ≡ false → le y x ≡ true) where
    All-trans :
        (x y : A) (ys : List A)
        → le x y ≡ true
        → All (λ z. le y z ≡ true) ys
        → All (λ z. le x z ≡ true) ys
    All-trans x y [] e h = tt
    All-trans x y (z ∷ ys) e h = (trans x y z e h.0, All-trans x y ys e h.1)

    insert_by-IsSortedBy : (x : A) (xs : List A) → IsSortedBy xs → IsSortedBy (insert_by x xs)
    unfolding insert_by
    insert_by-IsSortedBy x [] h = (tt, tt)
    insert_by-IsSortedBy x (y ∷ ys) h = elim (Bool-cases (le x y)) [
      | inl e ↦ rw e ((e, All-trans x y ys e h.0), h)
      | inr e ↦
          rw e (
            All-insert_by (λ z. le y z ≡ true) x ys (total x y e) h.0,
            insert_by-IsSortedBy x ys h.1,
          )
    ]

    pub sort_by-IsSortedBy : (xs : List A) → IsSortedBy (sort_by xs)
    unfolding sort_by
    sort_by-IsSortedBy [] = tt
    sort_by-IsSortedBy (x ∷ xs) = insert_by-IsSortedBy x (sort_by xs) (sort_by-IsSortedBy xs)

count_by-true {ℓ} : {A : Type ℓ} (xs : List A) → count_by (λ _. true) xs ≡ length xs
count_by-true [] = refl
count_by-true (x ∷ xs) = omega (arith, count_by-true xs)

pub length-sort_by {ℓ} :
    {A : Type ℓ} (le : A → A → Bool) (xs : List A) → length (sort_by le xs) ≡ length xs
length-sort_by le xs =
    sym (count_by-true (sort_by le xs)) ∙ count_by-sort_by le (λ _. true) xs ∙ count_by-true xs
