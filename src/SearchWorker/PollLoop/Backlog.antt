-- ===== src/SearchWorker/PollLoop/Backlog.antt =====
-- apps/worker/src/searchWorker: the attempts that a table of searches has left.
use ai_client_acquisition_os.Common.{
  ℕ, ◌+◌, ◌-◌, ◌≤◌, ◌<◌, max, Bool, true, false, not, ◌&&◌, ◌||◌, List, [], ◌∷◌, String, ◌≡◌, refl,
  sym, ap, any, any_of_mem, subst, Bool-cases, Memᴰ, arith, inl, inr, if◌then◌else◌, ◌=ˢ◌, =ˢ_iff,
}
use ai_client_acquisition_os.Common.Rows.{update_where, update_where_none, any-update_where_same}
use ai_client_acquisition_os.Search.Repository.{
  pending, running, StoredSearch, same_status, max_search_attempts,
}

-- A search that waits or runs has one attempt left at least.
abbrev pub attempts_left : StoredSearch → ℕ
attempts_left r =
    if same_status r.status pending || same_status r.status running
    then max 1 (max_search_attempts - r.attempts)
    else 0

unfoldable pub backlog : List StoredSearch → ℕ
backlog [] = 0
backlog (r ∷ rows) = attempts_left r + backlog rows

-- The primary key.
unfoldable pub has_distinct_ids : List StoredSearch → Bool
has_distinct_ids [] = true
has_distinct_ids (r ∷ rows) =
    not (any (λ (s : StoredSearch). s.id =ˢ r.id) rows) && has_distinct_ids rows

pub has_distinct_ids-update_where :
    (test : StoredSearch → Bool) (change : StoredSearch → StoredSearch)
    → ((r : StoredSearch) → (change r).id ≡ r.id)
    → (rows : List StoredSearch)
    → has_distinct_ids (update_where test change rows) ≡ has_distinct_ids rows
unfolding has_distinct_ids update_where
has_distinct_ids-update_where test change same [] = refl
has_distinct_ids-update_where test change same (r ∷ rows) = elim (Bool-cases (test r)) [
  | inl hit ↦
      rw
        (
          hit,
          same r,
          any-update_where_same (λ (s : StoredSearch). s.id =ˢ r.id) test change
              (λ s. ap (λ id. id =ˢ r.id) (same s)) rows,
          has_distinct_ids-update_where test change same rows,
        )
        refl
  | inr miss ↦
      rw
        (
          miss,
          any-update_where_same (λ (s : StoredSearch). s.id =ˢ r.id) test change
              (λ s. ap (λ id. id =ˢ r.id) (same s)) rows,
          has_distinct_ids-update_where test change same rows,
        )
        refl
]

pub backlog-update_where :
    (test : StoredSearch → Bool) (change : StoredSearch → StoredSearch)
    → ((r : StoredSearch) → test r ≡ true → attempts_left (change r) ≤ attempts_left r)
    → (rows : List StoredSearch) → backlog (update_where test change rows) ≤ backlog rows
unfolding backlog update_where
backlog-update_where test change less [] = omega arith
backlog-update_where test change less (r ∷ rows) =
    let rest = backlog-update_where test change less rows in
    elim (Bool-cases (test r)) [
      | inl hit ↦ let l = less r hit in rw hit (omega (arith, rest, l))
      | inr miss ↦ rw miss (omega (arith, rest))
    ]

=ˢ-refl : (s : String) → (s =ˢ s) ≡ true
=ˢ-refl s = (=ˢ_iff s s).1 refl

backlog-update_where_head :
    (change : StoredSearch → StoredSearch) (r : StoredSearch) (rows : List StoredSearch)
    → any (λ (s : StoredSearch). s.id =ˢ r.id) rows ≡ false
    → attempts_left (change r) < attempts_left r
    → backlog (update_where (λ (s : StoredSearch). s.id =ˢ r.id) change (r ∷ rows))
      < backlog (r ∷ rows)
unfolding backlog update_where
backlog-update_where_head change r rows alone less =
    rw (=ˢ-refl r.id, update_where_none (λ (s : StoredSearch). s.id =ˢ r.id) change rows alone)
      (omega (arith, less))

other_id :
    (p r : StoredSearch) (rows : List StoredSearch)
    → any (λ (s : StoredSearch). s.id =ˢ r.id) rows ≡ false
    → Memᴰ p rows
    → (r.id =ˢ p.id) ≡ false
other_id p r rows alone m = elim (Bool-cases (r.id =ˢ p.id)) [
  | inl same ↦
      let swapped : (p.id =ˢ r.id) ≡ true =
        ground (arith, same, =ˢ_iff r.id p.id, =ˢ_iff p.id r.id) in
      let found = any_of_mem (λ (s : StoredSearch). s.id =ˢ r.id) p rows m swapped in absurd cc
  | inr other ↦ other
]

-- A statement on one row that takes from its attempts takes from the backlog.
pub backlog-update_where_one :
    (change : StoredSearch → StoredSearch) (p : StoredSearch) (rows : List StoredSearch)
    → has_distinct_ids rows ≡ true
    → Memᴰ p rows
    → attempts_left (change p) < attempts_left p
    → backlog (update_where (λ (r : StoredSearch). r.id =ˢ p.id) change rows) < backlog rows
unfolding backlog update_where has_distinct_ids
backlog-update_where_one change p [] d m less = elim m [ ]
backlog-update_where_one change p (r ∷ rows) d (Memᴰ.head e) less =
    subst
      (λ (q : StoredSearch).
        attempts_left (change q) < attempts_left q
        → backlog (update_where (λ (s : StoredSearch). s.id =ˢ q.id) change (r ∷ rows))
          < backlog (r ∷ rows))
      (sym e) (backlog-update_where_head change r rows (ground (arith, d))) less
backlog-update_where_one change p (r ∷ rows) d (Memᴰ.tail m) less =
    let rest = backlog-update_where_one change p rows (ground (arith, d)) m less in
    rw (other_id p r rows (ground (arith, d)) m) (omega (arith, rest))
