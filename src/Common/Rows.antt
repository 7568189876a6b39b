-- ===== src/Common/Rows.antt =====
-- A database table as the list of its rows, and one SQL statement as one pass over them.
use mathlib.Core.Path.{◌≡◌, refl, ap}
use mathlib.Core.Bool.{Bool, true, false}
use mathlib.Core.Logic.{inl, inr}
use mathlib.Core.List.{List, [], ◌∷◌, Memᴰ}
use native.Mathlib.Omega.{arith}
use ai_client_acquisition_os.Common.Tests.{if◌then◌else◌, Bool-cases}
use ai_client_acquisition_os.Common.Lists.{length, any}

module _ {ℓ} {A : Type ℓ} where
  -- `UPDATE … SET change WHERE test`.
  unfoldable pub update_where : (A → Bool) → (A → A) → List A → List A
  update_where test change [] = []
  update_where test change (x ∷ xs) =
      let rest = update_where test change xs in if test x then change x ∷ rest else x ∷ rest

  pub length-update_where :
      (test : A → Bool) (change : A → A) (xs : List A)
      → length (update_where test change xs) ≡ length xs
  unfolding update_where
  length-update_where test change [] = refl
  length-update_where test change (x ∷ xs) = ground (arith, length-update_where test change xs)

  -- A statement that matches no row changes nothing.
  pub update_where_none :
      (test : A → Bool) (change : A → A) (xs : List A)
      → any test xs ≡ false
      → update_where test change xs ≡ xs
  unfolding update_where
  update_where_none test change [] h = refl
  update_where_none test change (x ∷ xs) h = ground (arith, update_where_none test change xs)

-- No row of the new table passes a test that the change makes false and that implies the statement's.
pub any-update_where {ℓ} :
    {A : Type ℓ} (q test : A → Bool) (change : A → A)
    → ((x : A) → test x ≡ false → q x ≡ false)
    → ((x : A) → test x ≡ true → q (change x) ≡ false)
    → (xs : List A) → any q (update_where test change xs) ≡ false
unfolding update_where
any-update_where q test change miss hit [] = refl
any-update_where q test change miss hit (x ∷ xs) =
    ground (arith, miss x, hit x, any-update_where q test change miss hit xs)

-- Where the statement matches a row, the new table has a row that passes what the change makes true.
pub any-update_where_hit {ℓ} :
    {A : Type ℓ} (q test : A → Bool) (change : A → A)
    → ((x : A) → test x ≡ true → q (change x) ≡ true)
    → (xs : List A) → any test xs ≡ true
    → any q (update_where test change xs) ≡ true
unfolding update_where
any-update_where_hit q test change hit [] h = cc
any-update_where_hit q test change hit (x ∷ xs) h =
    ground (arith, hit x, any-update_where_hit q test change hit xs)

-- A test that the change keeps holds of as many rows as before.
pub any-update_where_same {ℓ} :
    {A : Type ℓ} (q test : A → Bool) (change : A → A)
    → ((x : A) → q (change x) ≡ q x)
    → (xs : List A) → any q (update_where test change xs) ≡ any q xs
unfolding update_where
any-update_where_same q test change same [] = refl
any-update_where_same q test change same (x ∷ xs) =
    ground (arith, same x, any-update_where_same q test change same xs)

-- A row that the statement matches is found changed in the new table.
pub update_where-mem {ℓ} :
    {A : Type ℓ} (test : A → Bool) (change : A → A) (x : A) (xs : List A)
    → Memᴰ x xs
    → test x ≡ true
    → Memᴰ (change x) (update_where test change xs)
unfolding update_where
update_where-mem test change x [] m h = elim m [ ]
update_where-mem test change x (y ∷ ys) (Memᴰ.head e) h =
    let hit : test y ≡ true = rw (← e) h in rw hit (Memᴰ.head (ap change e))
update_where-mem test change x (y ∷ ys) (Memᴰ.tail m) h =
    let rest = update_where-mem test change x ys m h in
    elim (Bool-cases (test y)) [
      | inl hit ↦ rw hit (Memᴰ.tail rest)
      | inr miss ↦ rw miss (Memᴰ.tail rest)
    ]

-- Where a row of the new table comes from.
pub mem-update_where {ℓ} :
    {A : Type ℓ} (test : A → Bool) (change : A → A) (xs : List A) (y : A)
    → Memᴰ y (update_where test change xs)
    → (x : A) × Memᴰ x xs × (y ≡ (if test x then change x else x))
unfolding update_where
mem-update_where test change [] y m = elim m [ ]
mem-update_where {A} test change (x ∷ xs) y m =
    from_cons (rw (if_cons (test x)) at m) (mem-update_where test change xs y)
  where
    rest : List A
    rest = update_where test change xs

    if_cons :
        (b : Bool) → (if b then change x ∷ rest else x ∷ rest) ≡ (if b then change x else x) ∷ rest
    if_cons true = refl
    if_cons false = refl

    from_cons :
        Memᴰ y ((if test x then change x else x) ∷ rest)
        → (Memᴰ y rest → (z : A) × Memᴰ z xs × (y ≡ (if test z then change z else z)))
        → (z : A) × Memᴰ z (x ∷ xs) × (y ≡ (if test z then change z else z))
    from_cons (Memᴰ.head p) later = (x, Memᴰ.head refl, p)
    from_cons (Memᴰ.tail n) later = let (z, k, e) = later n in (z, Memᴰ.tail k, e)

-- A statement seen row by row: two tables of one length whose rows are related one to one.
module _ {ℓ} {A : Type ℓ} (P : A → A → Type 0) where
  abbrev pub Pairs : List A → List A → Type 0
  Pairs [] [] = Unit
  Pairs [] (_ ∷ _) = ⊥
  Pairs (_ ∷ _) [] = ⊥
  Pairs (x ∷ xs) (y ∷ ys) = P x y × Pairs xs ys

  pub Pairs-refl : ((x : A) → P x x) → (xs : List A) → Pairs xs xs
  Pairs-refl same [] = tt
  Pairs-refl same (x ∷ xs) = (same x, Pairs-refl same xs)

  -- The change may rest on the row being one of the table's.
  pub Pairs-update_where_mem :
      (test : A → Bool) (change : A → A)
      → ((x : A) → test x ≡ false → P x x)
      → (xs : List A) → ((x : A) → Memᴰ x xs → test x ≡ true → P x (change x))
      → Pairs xs (update_where test change xs)
  unfolding update_where
  Pairs-update_where_mem test change same [] step = tt
  Pairs-update_where_mem test change same (x ∷ xs) step =
      let rest = Pairs-update_where_mem test change same xs (λ y m. step y (Memᴰ.tail m)) in
      elim (Bool-cases (test x)) [
        | inl hit ↦ rw hit (step x (Memᴰ.head refl) hit, rest)
        | inr miss ↦ rw miss (same x miss, rest)
      ]

  pub Pairs-update_where :
      (test : A → Bool) (change : A → A)
      → ((x : A) → test x ≡ false → P x x)
      → ((x : A) → test x ≡ true → P x (change x))
      → (xs : List A) → Pairs xs (update_where test change xs)
  Pairs-update_where test change same step xs =
      Pairs-update_where_mem test change same xs (λ x _ h. step x h)

  pub Pairs-trans :
      ((x y z : A) → P x y → P y z → P x z)
      → (xs ys zs : List A) → Pairs xs ys
      → Pairs ys zs
      → Pairs xs zs
  Pairs-trans trans [] [] [] p q = tt
  Pairs-trans trans (x ∷ xs) (y ∷ ys) (z ∷ zs) p q =
      (trans x y z p.0 q.0, Pairs-trans trans xs ys zs p.1 q.1)
  Pairs-trans trans [] [] (z ∷ zs) p q = elim q [ ]
  Pairs-trans trans [] (y ∷ ys) zs p q = elim p [ ]
  Pairs-trans trans (x ∷ xs) [] zs p q = elim p [ ]
  Pairs-trans trans (x ∷ xs) (y ∷ ys) [] p q = elim q [ ]

  -- A test that related rows pass together holds of some row still.
  pub any-Pairs :
      (test : A → Bool)
      → ((x y : A) → P x y → test x ≡ true → test y ≡ true)
      → (xs ys : List A) → Pairs xs ys
      → any test xs ≡ true
      → any test ys ≡ true
  any-Pairs test keeps [] [] p h = h
  any-Pairs test keeps [] (y ∷ ys) p h = elim p [ ]
  any-Pairs test keeps (x ∷ xs) [] p h = elim p [ ]
  any-Pairs test keeps (x ∷ xs) (y ∷ ys) p h =
      ground (arith, h, keeps x y p.0, any-Pairs test keeps xs ys p.1)
