-- ===== src/MetaEvents/Repository/Keys.antt =====
-- The primary key of the event table, and which rows the inner SELECT of `claim` picks.
use ai_client_acquisition_os.Common.{
  ◌≡◌, refl, ◌≢◌, Bool, true, false, List, [], ◌∷◌, String, arith, ◌=ˢ◌, =ˢ_iff, any, All, Memᴰ,
  ◌&&◌, any-take, any-keep, any-map, sym, ◌∙◌, ap, ◌||◌, take, keep,
}
use ai_client_acquisition_os.MetaEvents.Repository.{
  MetaEventRow, ClaimInput, is_claimable, insert_row, order_rows, select_claimable, is_picked,
}

-- No two rows share an id: the table's primary key.
abbrev pub UniqueIds : List MetaEventRow → Type 0
UniqueIds [] = Unit
UniqueIds (r ∷ rows) = All (λ s. s.id ≢ r.id) rows × UniqueIds rows

pub any-same_id :
    (q : MetaEventRow → Bool) (r : MetaEventRow) (rows : List MetaEventRow)
    → All (λ s. s.id ≢ r.id) rows
    → any (λ s. q s && (s.id =ˢ r.id)) rows ≡ false
any-same_id q r [] h = refl
any-same_id q r (s ∷ rows) h = ground (arith, =ˢ_iff s.id r.id, any-same_id q r rows h.1)

ne_of_mem :
    (r s : MetaEventRow) (rows : List MetaEventRow)
    → Memᴰ r rows
    → All (λ t. t.id ≢ s.id) rows
    → r.id ≢ s.id
ne_of_mem r s [] m h = elim m [ ]
ne_of_mem r s (t ∷ rows) (Memᴰ.head e) h = rw e h.0
ne_of_mem r s (t ∷ rows) (Memᴰ.tail m) h = ne_of_mem r s rows m h.1

pub same_row :
    (r s : MetaEventRow) (rows : List MetaEventRow)
    → UniqueIds rows
    → Memᴰ r rows
    → Memᴰ s rows
    → r.id ≡ s.id
    → r ≡ s
same_row r s [] u m n e = elim m [ ]
same_row r s (t ∷ rows) u (Memᴰ.head p) (Memᴰ.head q) e = p ∙ sym q
same_row r s (t ∷ rows) u (Memᴰ.head p) (Memᴰ.tail n) e =
    absurd (ne_of_mem s t rows n u.0 (sym e ∙ ap (λ (x : MetaEventRow). x.id) p))
same_row r s (t ∷ rows) u (Memᴰ.tail m) (Memᴰ.head q) e =
    absurd (ne_of_mem r t rows m u.0 (e ∙ ap (λ (x : MetaEventRow). x.id) q))
same_row r s (t ∷ rows) u (Memᴰ.tail m) (Memᴰ.tail n) e = same_row r s rows u.1 m n e

-- A row is found by its id.
pub row_of_id :
    (q : MetaEventRow → Bool) (r : MetaEventRow) (rows : List MetaEventRow)
    → UniqueIds rows
    → Memᴰ r rows
    → any (λ s. q s && (s.id =ˢ r.id)) rows ≡ true
    → q r ≡ true
row_of_id q r [] u m h = elim m [ ]
row_of_id q r (s ∷ rows) u (Memᴰ.head e) h =
    let other : any (λ t. q t && (t.id =ˢ r.id)) rows ≡ false = any-same_id q r rows (rw e u.0) in
    let k : q s ≡ true = ground arith in rw e k
row_of_id q r (s ∷ rows) u (Memᴰ.tail m) h =
    row_of_id q r rows u.1 m (ground (arith, =ˢ_iff s.id r.id, ne_of_mem r s rows m u.0))

any-insert_row :
    (p : MetaEventRow → Bool) (r : MetaEventRow) (rows : List MetaEventRow)
    → any p (insert_row r rows) ≡ any p (r ∷ rows)
unfolding insert_row
any-insert_row p r [] = refl
any-insert_row p r (s ∷ rows) = ground (arith, any-insert_row p r rows)

any-order_rows :
    (p : MetaEventRow → Bool) (rows : List MetaEventRow) → any p (order_rows rows) ≡ any p rows
unfolding order_rows
any-order_rows p [] = refl
any-order_rows p (r ∷ rows) =
    any-insert_row p r (order_rows rows) ∙ ap (λ b. p r || b) (any-order_rows p rows)

-- A picked row was due and pending, and no other statement held it.
pub claimable_of_picked :
    (locked : String → Bool) (input : ClaimInput) (r : MetaEventRow) (rows : List MetaEventRow)
    → UniqueIds rows
    → Memᴰ r rows
    → is_picked (select_claimable locked input rows) r ≡ true
    → is_claimable locked input.now r ≡ true
unfolding select_claimable
claimable_of_picked locked input r rows u m h =
    let q = is_claimable locked input.now in
    let ordered = order_rows (keep q rows) in
    let hit = λ (s : MetaEventRow). s.id =ˢ r.id in
    let on_rows : any hit (take input.limit ordered) ≡ true =
      sym (any-map (λ id. id =ˢ r.id) (λ (s : MetaEventRow). s.id) _) ∙ h in
    let on_kept : any hit (keep q rows) ≡ true =
      sym (any-order_rows hit (keep q rows)) ∙ any-take hit input.limit ordered on_rows in
    row_of_id q r rows u m (sym (any-keep hit q rows) ∙ on_kept)
