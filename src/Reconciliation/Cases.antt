-- ===== src/Reconciliation/Cases.antt =====
-- packages/core-reconciliation/src: reconcile.ts and repository.ts, the cases of repeated runs.
use ai_client_acquisition_os.Common.{
  ℕ, suc, ◌+◌, Bool, true, false, not, ◌||◌, List, [], ◌∷◌, ◌++◌, =ˢ_iff, length, if◌then◌else◌,
  if_both, any, ◌≡◌, refl, ◌∙◌, arith, inl, inr, Bool-cases, All,
}
use ai_client_acquisition_os.Common.Rows.{update_where, length-update_where}
use ai_client_acquisition_os.Reconciliation.{DuplicateGroup}
use ai_client_acquisition_os.Reconciliation.Recording.{
  CaseRow, is_case, to_case, refreshed, is_known, upsert_case, ReconciliationReport, record_cases,
}

any-append {ℓ} :
    {A : Type ℓ} (p : A → Bool) (xs ys : List A) → any p (xs ++ ys) ≡ (any p xs || any p ys)
any-append p [] ys = refl
any-append p (x ∷ xs) ys = ground (arith, any-append p xs ys)

-- The cases before are there after, in their places, with their triage; the others are added behind.
abbrev pub KeepsTriage : List CaseRow → List CaseRow → Type 0
KeepsTriage [] after = Unit
KeepsTriage (c ∷ cases) [] = ⊥
KeepsTriage (c ∷ cases) (d ∷ after) =
    ((d.record_type ≡ c.record_type)
      × (d.duplicate_key ≡ c.duplicate_key)
      × (d.status ≡ c.status)
      × (d.created_at ≡ c.created_at))
    × KeepsTriage cases after

KeepsTriage-trans :
    (xs ys zs : List CaseRow) → KeepsTriage xs ys → KeepsTriage ys zs → KeepsTriage xs zs
KeepsTriage-trans [] ys zs a b = tt
KeepsTriage-trans (x ∷ xs) [] zs a b = absurd a
KeepsTriage-trans (x ∷ xs) (y ∷ ys) [] a b = absurd b
KeepsTriage-trans (x ∷ xs) (y ∷ ys) (z ∷ zs) ((t, k, s, c), a) ((t', k', s', c'), b) =
    ((t' ∙ t, k' ∙ k, s' ∙ s, c' ∙ c), KeepsTriage-trans xs ys zs a b)

KeepsTriage-refl : (xs : List CaseRow) → KeepsTriage xs xs
KeepsTriage-refl [] = tt
KeepsTriage-refl (x ∷ xs) = ((refl, refl, refl, refl), KeepsTriage-refl xs)

KeepsTriage-append : (xs ys : List CaseRow) → KeepsTriage xs (xs ++ ys)
KeepsTriage-append [] ys = tt
KeepsTriage-append (x ∷ xs) ys = ((refl, refl, refl, refl), KeepsTriage-append xs ys)

KeepsTriage-refreshed :
    (test : CaseRow → Bool) (input : CaseRow) (xs : List CaseRow)
    → KeepsTriage xs (update_where test (refreshed input) xs)
unfolding update_where
KeepsTriage-refreshed test input [] = tt
KeepsTriage-refreshed test input (x ∷ xs) = elim (Bool-cases (test x)) [
  | inl hit ↦ rw hit ((refl, refl, refl, refl), KeepsTriage-refreshed test input xs)
  | inr miss ↦ rw miss ((refl, refl, refl, refl), KeepsTriage-refreshed test input xs)
]

upsert_case-KeepsTriage :
    (group : DuplicateGroup) (started_at now : ℕ) (cases : List CaseRow)
    → KeepsTriage cases (upsert_case group started_at now cases)
unfolding upsert_case
upsert_case-KeepsTriage group started_at now cases =
    if_both (KeepsTriage cases) (is_known group cases) _ _
      (λ _.
        KeepsTriage-refreshed (is_case group.record_type group.duplicate_key)
          (to_case group started_at now) cases)
      (λ _. KeepsTriage-append cases (to_case group started_at now ∷ []))

-- What has a case keeps it.
is_known_kept :
    (group : DuplicateGroup) (xs ys : List CaseRow)
    → KeepsTriage xs ys
    → is_known group xs ≡ true
    → is_known group ys ≡ true
is_known_kept group [] ys a h = cc
is_known_kept group (x ∷ xs) [] a h = absurd a
is_known_kept group (x ∷ xs) (y ∷ ys) ((t, k, _, _), a) h =
    let same : is_case group.record_type group.duplicate_key y
        ≡ is_case group.record_type group.duplicate_key x =
      rw (t, k) refl in
    ground (arith, same, h, is_known_kept group xs ys a)

own_case :
    (group : DuplicateGroup) (started_at now : ℕ)
    → is_known group (to_case group started_at now ∷ []) ≡ true
own_case group started_at now = ground (arith, =ˢ_iff group.duplicate_key group.duplicate_key)

upsert_case-known :
    (group : DuplicateGroup) (started_at now : ℕ) (cases : List CaseRow)
    → is_known group (upsert_case group started_at now cases) ≡ true
unfolding upsert_case
upsert_case-known group started_at now cases =
    if_both (λ (after : List CaseRow). is_known group after ≡ true) (is_known group cases) _ _
      (λ known.
        is_known_kept group cases
          (update_where (is_case group.record_type group.duplicate_key)
            (refreshed (to_case group started_at now)) cases)
          (KeepsTriage-refreshed (is_case group.record_type group.duplicate_key)
            (to_case group started_at now) cases)
          known)
      (λ new.
        any-append (is_case group.record_type group.duplicate_key) cases
          (to_case group started_at now ∷ [])
        ∙ rw (new, own_case group started_at now) refl)

length-append_one {ℓ} : {A : Type ℓ} (x : A) (xs : List A) → length (xs ++ (x ∷ [])) ≡ length xs + 1
length-append_one x [] = omega arith
length-append_one x (y ∷ ys) = omega (arith, length-append_one x ys)

length-upsert_case :
    (group : DuplicateGroup) (started_at now : ℕ) (cases : List CaseRow)
    → length (upsert_case group started_at now cases)
      ≡ length cases + (if is_known group cases then 0 else 1)
unfolding upsert_case
length-upsert_case group started_at now cases = elim (Bool-cases (is_known group cases)) [
  | inl known ↦ rw known (
      omega (
        arith,
        length-update_where (is_case group.record_type group.duplicate_key)
            (refreshed (to_case group started_at now)) cases,
      ))
  | inr new ↦ rw new (length-append_one (to_case group started_at now) cases)
]

-- What a run over the groups comes to.
abbrev Recorded : List DuplicateGroup → List CaseRow → ReconciliationReport → Type 0
Recorded groups cases run =
    KeepsTriage cases run.cases
    × All (λ (g : DuplicateGroup). is_known g run.cases ≡ true) groups
    × (run.created + run.updated ≡ length groups)
    × (length run.cases ≡ length cases + run.created)

tally :
    (known : Bool) (created updated n : ℕ)
    → created + updated ≡ n
    → (if not known then created + 1 else created) + (if not known then updated else updated + 1)
      ≡ suc n
tally true created updated n h = omega (arith, h)
tally false created updated n h = omega (arith, h)

grown_by :
    (known : Bool) (created after next before : ℕ)
    → after ≡ next + created
    → next ≡ before + (if known then 0 else 1)
    → after ≡ before + (if not known then created + 1 else created)
grown_by true created after next before h k = omega (arith, h, k)
grown_by false created after next before h k = omega (arith, h, k)

record_cases-Recorded :
    (started_at : ℕ) (clock : ℕ → ℕ) (groups : List DuplicateGroup) (cases : List CaseRow)
    → Recorded groups cases (record_cases started_at clock groups cases)
unfolding record_cases
record_cases-Recorded started_at clock [] cases = (KeepsTriage-refl cases, tt, refl, omega arith)
record_cases-Recorded started_at clock (group ∷ groups) cases =
    let now = clock (length groups) in
    let next = upsert_case group started_at now cases in
    let (kept, known, counted, grown) = record_cases-Recorded started_at clock groups next in
    let run = record_cases started_at clock groups next in
    (
      KeepsTriage-trans cases next run.cases (upsert_case-KeepsTriage group started_at now cases)
          kept,
      (
        is_known_kept group next run.cases kept (upsert_case-known group started_at now cases),
        known,
      ),
      tally (is_known group cases) run.created run.updated (length groups) counted,
      grown_by (is_known group cases) run.created (length run.cases) (length next) (length cases)
          grown (length-upsert_case group started_at now cases),
    )

All-known_kept :
    (groups : List DuplicateGroup) (xs ys : List CaseRow)
    → KeepsTriage xs ys
    → All (λ (g : DuplicateGroup). is_known g xs ≡ true) groups
    → All (λ (g : DuplicateGroup). is_known g ys ≡ true) groups
All-known_kept [] xs ys a h = tt
All-known_kept (g ∷ groups) xs ys a h =
    (is_known_kept g xs ys a h.0, All-known_kept groups xs ys a h.1)

no_more :
    (known : Bool) (created : ℕ)
    → known ≡ true
    → created ≡ 0
    → (if not known then created + 1 else created) ≡ 0
no_more true created k h = h
no_more false created k h = cc

none_created :
    (started_at : ℕ) (clock : ℕ → ℕ) (groups : List DuplicateGroup) (cases : List CaseRow)
    → All (λ (g : DuplicateGroup). is_known g cases ≡ true) groups
    → (record_cases started_at clock groups cases).created ≡ 0
unfolding record_cases
none_created started_at clock [] cases h = refl
none_created started_at clock (group ∷ groups) cases h =
    let next = upsert_case group started_at (clock (length groups)) cases in
    no_more (is_known group cases) (record_cases started_at clock groups next).created h.0 (
      none_created started_at clock groups next (
        All-known_kept groups cases next
          (upsert_case-KeepsTriage group started_at (clock (length groups)) cases) h.1))

-- A run over the groups leaves every case that is there in its place, with its status and its time of
-- creation; it reports each group as created or updated, and adds as many cases as it reports
-- created. Another run over the same groups, whenever it is made, creates none.
pub record_cases_again :
    (started_at later : ℕ) (clock clock' : ℕ → ℕ) (groups : List DuplicateGroup)
    (cases : List CaseRow)
    → let run = record_cases started_at clock groups cases in
      KeepsTriage cases run.cases
      × (run.created + run.updated ≡ length groups)
      × (length run.cases ≡ length cases + run.created)
      × ((record_cases later clock' groups run.cases).created ≡ 0)
record_cases_again started_at later clock clock' groups cases =
    let (kept, known, counted, grown) = record_cases-Recorded started_at clock groups cases in
    (kept, counted, grown, none_created later clock' groups _ known)
