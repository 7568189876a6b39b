-- ===== src/MetaEvents/Repository/Claims.antt =====
-- What a claim hands out: due rows, at most `limit` of them, and none that another claim holds.
use ai_client_acquisition_os.Common.{
  ℕ, zero, suc, ◌+◌, ◌≤◌, ◌≡◌, refl, ◌≢◌, sym, ap, inl, inr, Bool, true, false, List, [], ◌∷◌,
  String, arith, ◌=ˢ◌, =ˢ_iff, All, Memᴰ, ◌||◌, keep, length, Bool-cases, map, take, mem-keep,
  mem-map_inv,
}
use ai_client_acquisition_os.Common.Rows.{update_where-mem}
use ai_client_acquisition_os.MetaEvents.Repository.{
  pending, MetaEventRow, ClaimInput, ClaimedMetaEvent, is_claimable, select_claimable, order_rows,
  is_picked, lease_to, claim, map_row,
}
use ai_client_acquisition_os.MetaEvents.Repository.Keys.{UniqueIds, claimable_of_picked, same_row}
use ai_client_acquisition_os.MetaEvents.Repository.Moves.{claim-Moves, UniqueIds-Moves}

length-take : (n : ℕ) (xs : List MetaEventRow) → length (take n xs) ≤ n
length-take zero xs = omega arith
length-take (suc n) [] = omega arith
length-take (suc n) (x ∷ xs) = omega (arith, length-take n xs)

length-map {ℓ κ} :
    {A : Type ℓ} {B : Type κ} (f : A → B) (xs : List A) → length (map f xs) ≡ length xs
length-map f [] = refl
length-map f (x ∷ xs) = ap suc (length-map f xs)

kept_none :
    (id : String) (rows : List MetaEventRow)
    → All (λ s. s.id ≢ id) rows
    → length (keep (λ r. id =ˢ r.id) rows) ≡ 0
kept_none id [] h = refl
kept_none id (r ∷ rows) h = ground (arith, =ˢ_iff id r.id, kept_none id rows h.1)

-- At most one row has a given id.
kept_one :
    (id : String) (rows : List MetaEventRow)
    → UniqueIds rows
    → length (keep (λ r. id =ˢ r.id) rows) ≤ 1
kept_one id [] u = omega arith
kept_one id (r ∷ rows) u = elim (Bool-cases (id =ˢ r.id)) [
  | inl hit ↦
      let e : r.id ≡ id = sym ((=ˢ_iff id r.id).0 hit) in
      let others : All (λ s. s.id ≢ id) rows = rw e at u.0 in
      rw hit (omega (arith, kept_none id rows others))
  | inr miss ↦ rw miss (kept_one id rows u.1)
]

kept_or :
    (p q : MetaEventRow → Bool) (rows : List MetaEventRow)
    → length (keep (λ r. p r || q r) rows) ≤ length (keep p rows) + length (keep q rows)
kept_or p q [] = omega arith
kept_or p q (r ∷ rows) = ground (arith, kept_or p q rows)

kept_nothing : (rows : List MetaEventRow) → length (keep (λ r. false) rows) ≡ 0
kept_nothing [] = refl
kept_nothing (r ∷ rows) = kept_nothing rows

kept_picked :
    (ids : List String) (rows : List MetaEventRow)
    → UniqueIds rows
    → length (keep (is_picked ids) rows) ≤ length ids
kept_picked [] rows u = omega (arith, kept_nothing rows)
kept_picked (id ∷ ids) rows u = omega (
  arith,
  kept_or (λ r. id =ˢ r.id) (is_picked ids) rows,
  kept_one id rows u,
  kept_picked ids rows u,
)

-- A claim hands out at most `limit` events. Ids are unique.
pub claim_bounded :
    (locked : String → Bool) (db_now : ℕ) (input : ClaimInput) (rows : List MetaEventRow)
    → UniqueIds rows
    → length (claim locked db_now input rows).1 ≤ input.limit
unfolding claim select_claimable
claim_bounded locked db_now input rows u =
    let ordered = order_rows (keep (is_claimable locked input.now) rows) in
    let picked = take input.limit ordered in
    let ids = map (λ (r : MetaEventRow). r.id) picked in
    omega (
      arith,
      length-map map_row (keep (is_picked ids) rows),
      kept_picked ids rows u,
      length-map (λ (r : MetaEventRow). r.id) picked,
      length-take input.limit ordered,
    )

-- A handed-out event is a row that was PENDING, due and held by no other statement; in the new table
-- that row is PROCESSING under the caller's lease. Ids are unique.
pub claim_leased :
    (locked : String → Bool) (db_now : ℕ) (input : ClaimInput) (rows : List MetaEventRow)
    (e : ClaimedMetaEvent)
    → UniqueIds rows
    → Memᴰ e (claim locked db_now input rows).1
    → (r : MetaEventRow) × Memᴰ r rows
      × (e ≡ map_row r)
      × (r.status ≡ pending)
      × (r.next_attempt_at ≤ input.now)
      × (locked r.id ≡ false)
      × Memᴰ (lease_to input db_now r) (claim locked db_now input rows).0
unfolding claim
claim_leased locked db_now input rows e u m =
    let ids = select_claimable locked input rows in
    let (r, kept, same) = mem-map_inv map_row _ m in
    let (here, picked) = mem-keep (is_picked ids) r rows kept in
    let able = claimable_of_picked locked input r rows u here picked in
    (
      r,
      here,
      same,
      ground (arith, able),
      ground (arith, able),
      ground (arith, able),
      update_where-mem (is_picked ids) (lease_to input db_now) r rows here picked,
    )

picked_of_id :
    (ids : List String) (r s : MetaEventRow)
    → r.id ≡ s.id
    → is_picked ids r ≡ true
    → is_picked ids s ≡ true
picked_of_id ids r s e h = rw (← e) h

-- Two claims in a row never hand out the same event: whoever asks second, with whatever limit and
-- clock, gets no event of the first. Ids are unique.
pub claims_disjoint :
    (locked locked' : String → Bool) (db_now db_now' : ℕ) (first second : ClaimInput)
    (rows : List MetaEventRow) (e f : ClaimedMetaEvent)
    → UniqueIds rows
    → Memᴰ e (claim locked db_now first rows).1
    → Memᴰ f (claim locked' db_now' second (claim locked db_now first rows).0).1
    → e.id ≢ f.id
unfolding map_row
claims_disjoint locked locked' db_now db_now' first second rows e f u m n same =
    let after = (claim locked db_now first rows).0 in
    let v = UniqueIds-Moves rows after (claim-Moves locked db_now first rows u) u in
    let (r, _, from, _, _, _, leased) = claim_leased locked db_now first rows e u m in
    let (s, inside, from', free, _, _, _) = claim_leased locked' db_now' second after f v n in
    let ids : r.id ≡ s.id = cc in
    let one = same_row (lease_to first db_now r) s after v leased inside ids in
    cc (ap (λ (x : MetaEventRow). x.status) one)
