-- ===== src/Common/Lists.antt =====
-- Lists under Boolean tests: the array methods that the source uses.
use Prim.Native.Nat.{ℕ, zero, suc, ◌≤◌, min}
use mathlib.Core.Path.{◌≡◌, refl, ap, ◌∙◌}
use mathlib.Core.Bool.{Bool, true, false, ◌&&◌, ◌||◌}
use mathlib.Core.Logic.{inl, inr}
use mathlib.Core.List.{List, [], ◌∷◌, ◌++◌, map, Memᴰ}
use mathlib.Core.Option.{Option, none, some}
use native.Mathlib.Omega.{arith}
use ai_client_acquisition_os.Common.Tests.{if◌then◌else◌, Bool-cases}

module _ {ℓ} {A : Type ℓ} where
  abbrev pub length : List A → ℕ
  length [] = 0
  length (x ∷ xs) = suc (length xs)

  abbrev pub get_elem? : List A → ℕ → Option A
  get_elem? [] i = none
  get_elem? (x ∷ xs) zero = some x
  get_elem? (x ∷ xs) (suc i) = get_elem? xs i

  abbrev pub take : ℕ → List A → List A
  take zero xs = []
  take (suc n) [] = []
  take (suc n) (x ∷ xs) = x ∷ take n xs

  -- `xs.filter(p)`.
  abbrev pub keep : (A → Bool) → List A → List A
  keep p [] = []
  keep p (x ∷ xs) = let rest = keep p xs in if p x then x ∷ rest else rest

  -- `xs.find(p)`.
  abbrev pub find : (A → Bool) → List A → Option A
  find p [] = none
  find p (x ∷ xs) = if p x then some x else find p xs

  -- `xs.some(p)`.
  abbrev pub any : (A → Bool) → List A → Bool
  any p [] = false
  any p (x ∷ xs) = p x || any p xs

  -- `xs.every(p)`.
  abbrev pub all : (A → Bool) → List A → Bool
  all p [] = true
  all p (x ∷ xs) = p x && all p xs

  -- How many members pass a test.
  abbrev pub count_by : (A → Bool) → List A → ℕ
  count_by p [] = 0
  count_by p (x ∷ xs) = let rest = count_by p xs in if p x then suc rest else rest

module _ {ℓ κ} {A : Type ℓ} (P : A → Type κ) where
  abbrev pub All : List A → Type κ
  All [] = Unit
  All (x ∷ xs) = P x × All xs

module _ {ℓ} {A : Type ℓ} where
  pub mem-keep :
      (p : A → Bool) (x : A) (xs : List A) → Memᴰ x (keep p xs) → Memᴰ x xs × (p x ≡ true)
  mem-keep p x [] m = elim m [ ]
  mem-keep p x (y ∷ ys) m = elim (Bool-cases (p y)) [
    | inl hit ↦ from_cons hit (mem-keep p x ys) (rw hit at m)
    | inr miss ↦ let (k, e) = mem-keep p x ys (rw miss at m) in (Memᴰ.tail k, e)
  ]
    where
      from_cons :
          p y ≡ true
          → (Memᴰ x (keep p ys) → Memᴰ x ys × (p x ≡ true))
          → Memᴰ x (y ∷ keep p ys)
          → Memᴰ x (y ∷ ys) × (p x ≡ true)
      from_cons hit later (Memᴰ.head e) = (Memᴰ.head e, rw e hit)
      from_cons hit later (Memᴰ.tail n) = let (k, e) = later n in (Memᴰ.tail k, e)

module _ {ℓ} {A : Type ℓ} where
  pub keep-mem : (p : A → Bool) (x : A) (xs : List A) → Memᴰ x xs → p x ≡ true → Memᴰ x (keep p xs)
  keep-mem p x [] m h = elim m [ ]
  keep-mem p x (y ∷ ys) (Memᴰ.head e) h = let k : p y ≡ true = rw (← e) h in rw k (Memᴰ.head e)
  keep-mem p x (y ∷ ys) (Memᴰ.tail m) h = elim (Bool-cases (p y)) [
    | inl hit ↦ rw hit (Memᴰ.tail (keep-mem p x ys m h))
    | inr miss ↦ rw miss (keep-mem p x ys m h)
  ]

-- Whether some member passes a test, through the list functions.
module _ {ℓ} {A : Type ℓ} where
  pub any-take : (p : A → Bool) (n : ℕ) (xs : List A) → any p (take n xs) ≡ true → any p xs ≡ true
  any-take p zero xs h = cc
  any-take p (suc n) [] h = cc
  any-take p (suc n) (x ∷ xs) h = ground (arith, any-take p n xs)

  pub any-keep : (p q : A → Bool) (xs : List A) → any p (keep q xs) ≡ any (λ x. q x && p x) xs
  any-keep p q [] = refl
  any-keep p q (x ∷ xs) = ground (arith, any-keep p q xs)

  pub any_mono :
      (p q : A → Bool)
      → ((x : A) → p x ≡ true → q x ≡ true)
      → (xs : List A) → any p xs ≡ true
      → any q xs ≡ true
  any_mono p q imp [] h = cc
  any_mono p q imp (x ∷ xs) h = ground (arith, imp x, any_mono p q imp xs)

  -- What no row passes, no row passes that implies it.
  pub not_any_mono :
      (p q : A → Bool)
      → ((x : A) → p x ≡ true → q x ≡ true)
      → (xs : List A) → any q xs ≡ false
      → any p xs ≡ false
  not_any_mono p q imp [] h = refl
  not_any_mono p q imp (x ∷ xs) h = ground (arith, imp x, not_any_mono p q imp xs)

  pub any_of_mem : (p : A → Bool) (x : A) (xs : List A) → Memᴰ x xs → p x ≡ true → any p xs ≡ true
  any_of_mem p x [] m h = elim m [ ]
  any_of_mem p x (y ∷ ys) (Memᴰ.head e) h = let k : p y ≡ true = rw (← e) h in ground arith
  any_of_mem p x (y ∷ ys) (Memᴰ.tail m) h = ground (arith, any_of_mem p x ys m h)

  pub mem_of_any :
      (p : A → Bool) (xs : List A) → any p xs ≡ true → (x : A) × Memᴰ x xs × (p x ≡ true)
  mem_of_any p [] h = cc
  mem_of_any p (x ∷ xs) h = elim (Bool-cases (p x)) [
    | inl here ↦ (x, Memᴰ.head refl, here)
    | inr miss ↦ let (y, m, k) = mem_of_any p xs (ground arith) in (y, Memᴰ.tail m, k)
  ]

module _ {ℓ κ} {A : Type ℓ} {B : Type κ} where
  pub any-map : (p : B → Bool) (f : A → B) (xs : List A) → any p (map f xs) ≡ any (λ x. p (f x)) xs
  any-map p f [] = refl
  any-map p f (x ∷ xs) = ground (arith, any-map p f xs)

  pub mem-map_inv :
      (f : A → B) (xs : List A) {b : B} → Memᴰ b (map f xs) → (a : A) × Memᴰ a xs × (b ≡ f a)
  mem-map_inv f [] m = elim m [ ]
  mem-map_inv f (x ∷ xs) (Memᴰ.head e) = (x, Memᴰ.head refl, e)
  mem-map_inv f (x ∷ xs) (Memᴰ.tail m) = let (a, n, e) = mem-map_inv f xs m in (a, Memᴰ.tail n, e)

module _ {ℓ κ} {A : Type ℓ} {B : Type κ} where
  pub map-mem : (f : A → B) (xs : List A) {a : A} {b : B} → Memᴰ a xs → b ≡ f a → Memᴰ b (map f xs)
  map-mem f [] m e = elim m [ ]
  map-mem f (x ∷ xs) (Memᴰ.head p) e = Memᴰ.head (e ∙ ap f p)
  map-mem f (x ∷ xs) (Memᴰ.tail m) e = Memᴰ.tail (map-mem f xs m e)

-- What `find` returns, before and after a row is added.
module _ {ℓ} {A : Type ℓ} where
  pub find_sound :
      (p : A → Bool) (xs : List A) (x : A) → find p xs ≡ some x → (p x ≡ true) × Memᴰ x xs
  find_sound p [] x h = cc
  find_sound p (y ∷ ys) x h = elim (Bool-cases (p y)) [
    | inl hit ↦ let e : x ≡ y = ground arith in (rw e hit, Memᴰ.head e)
    | inr miss ↦ let (k, m) = find_sound p ys x (ground arith) in (k, Memᴰ.tail m)
  ]

  pub find-none-any : (p : A → Bool) (xs : List A) → find p xs ≡ none → any p xs ≡ false
  find-none-any p [] h = refl
  find-none-any p (y ∷ ys) h = ground (arith, find-none-any p ys)

  pub find_of_not_any : (p : A → Bool) (xs : List A) → any p xs ≡ false → find p xs ≡ none
  find_of_not_any p [] h = refl
  find_of_not_any p (y ∷ ys) h = ground (arith, find_of_not_any p ys)

  pub find-concat :
      (p : A → Bool) (xs : List A) (y : A)
      → find p xs ≡ none
      → p y ≡ true
      → find p (xs ++ y ∷ []) ≡ some y
  find-concat p [] y h k = rw k
  find-concat p (x ∷ xs) y h k = ground (arith, find-concat p xs y)

  pub keep-concat :
      (p : A → Bool) (xs : List A) (y : A)
      → keep p (xs ++ y ∷ []) ≡ keep p xs ++ (if p y then y ∷ [] else [])
  keep-concat p [] y = ground arith
  keep-concat p (x ∷ xs) y = ground (arith, keep-concat p xs y)

  pub keep_of_none : (p : A → Bool) (xs : List A) → any p xs ≡ false → keep p xs ≡ []
  keep_of_none p [] h = refl
  keep_of_none p (x ∷ xs) h = ground (arith, keep_of_none p xs)

  pub any-concat : (p : A → Bool) (xs : List A) (y : A) → any p (xs ++ y ∷ []) ≡ (any p xs || p y)
  any-concat p [] y = ground arith
  any-concat p (x ∷ xs) y = ground (arith, any-concat p xs y)

  pub any_of_last : (p : A → Bool) (xs : List A) (y : A) → p y ≡ true → any p (xs ++ y ∷ []) ≡ true
  any_of_last p xs y h = ground (arith, any-concat p xs y)

-- Lengths, and what counting says of membership.
pub take_all {ℓ} : {A : Type ℓ} (n : ℕ) (xs : List A) → length xs ≤ n → take n xs ≡ xs
take_all zero [] h = refl
take_all zero (x ∷ xs) h = absurd (omega (arith, h))
take_all (suc n) [] h = refl
take_all (suc n) (x ∷ xs) h = ap (λ rest. x ∷ rest) (take_all n xs (omega (arith, h)))

pub length-take {ℓ} : {A : Type ℓ} (n : ℕ) (xs : List A) → length (take n xs) ≡ min n (length xs)
length-take zero xs = omega arith
length-take (suc n) [] = omega arith
length-take (suc n) (x ∷ xs) = omega (arith, length-take n xs)

pub length-map {ℓ κ} :
    {A : Type ℓ} {B : Type κ} (f : A → B) (xs : List A) → length (map f xs) ≡ length xs
length-map f [] = refl
length-map f (x ∷ xs) = omega (arith, length-map f xs)

pub length-keep {ℓ} : {A : Type ℓ} (p : A → Bool) (xs : List A) → length (keep p xs) ≡ count_by p xs
length-keep p [] = refl
length-keep p (x ∷ xs) = ground (arith, length-keep p xs)

pub any-count_by {ℓ} :
    {A : Type ℓ} (p : A → Bool) (xs : List A) → 1 ≤ count_by p xs → any p xs ≡ true
any-count_by p [] h = absurd (omega (arith, h))
any-count_by p (x ∷ xs) h = ground (arith, any-count_by p xs)

pub any_swap {ℓ} :
    {A : Type ℓ} (p q : A → Bool) (xs : List A)
    → any (λ x. p x && q x) xs ≡ any (λ x. q x && p x) xs
any_swap p q [] = refl
any_swap p q (x ∷ xs) = ground (arith, any_swap p q xs)
