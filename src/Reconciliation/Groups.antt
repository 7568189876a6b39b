-- ===== src/Reconciliation/Groups.antt =====
-- packages/core-reconciliation/src/detection.ts: the groups are the keys that occur more than once.
use ai_client_acquisition_os.Common.{
  ℕ, ◌+◌, ◌≤◌, min, Bool, true, ◌&&◌, ◌||◌, List, [], ◌∷◌, map, Option, none, some, String, leb,
  ltb, ltb→lt, lt→ltb, ◌=ˢ◌, =ˢ_iff, length, take, keep, any, ◌≡◌, ◌↔◌, refl, sym, ap, subst, ◌∙◌,
  arith, inl, inr, Bool-cases, Memᴰ, mem-keep, keep-mem, mem_of_any, any-keep, take_all,
  length-take, length-map, length-keep, any-count_by, any_swap, mem-map_inv, map-mem,
}
use ai_client_acquisition_os.Common.Sort.{sort_by, mem-sort_by, sort_by-mem, length-sort_by}
use ai_client_acquisition_os.Reconciliation.{
  BusinessRow, ReconciliationWindow, DuplicateDimension, DuplicateGroup, group_count, has_key,
  is_key, in_window, add_key, distinct_keys, duplicate_keys, to_group, sample_of, detect_in,
  assert_window, max_rows, group_limit,
}

any-add_key :
    (k : String) (key : Option String) (keys : List String)
    → any (λ j. k =ˢ j) (add_key key keys) ≡ (is_key k key || any (λ j. k =ˢ j) keys)
any-add_key k none keys = refl
any-add_key k (some i) keys = elim (Bool-cases (k =ˢ i)) [
  | inl e ↦ rw e (same ((=ˢ_iff k i).0 e))
  | inr e ↦ ground (arith, e)
]
  where
    same : k ≡ i → any (λ j. k =ˢ j) (add_key (some i) keys) ≡ true
    same p =
        subst (λ i. any (λ j. k =ˢ j) (add_key (some i) keys) ≡ true) p (ground (arith, =ˢ_iff k k))

any-distinct_keys :
    (k : String) (rows : List BusinessRow)
    → any (λ j. k =ˢ j) (distinct_keys rows) ≡ any (has_key k) rows
unfolding distinct_keys
any-distinct_keys k [] = refl
any-distinct_keys k (row ∷ rows) =
    any-add_key k row.key (distinct_keys rows)
    ∙ ap (λ b. is_key k row.key || b) (any-distinct_keys k rows)

-- A key occurs in the window.
key_found :
    (window : ReconciliationWindow) (rows : List BusinessRow) (k : String)
    → 1 ≤ group_count window rows k
    → Memᴰ k (distinct_keys (keep (in_window window) rows))
unfolding group_count
key_found window rows k h =
    let there : any (λ j. k =ˢ j) (distinct_keys (keep (in_window window) rows)) ≡ true =
      any-distinct_keys k (keep (in_window window) rows)
      ∙ any-keep (has_key k) (in_window window) rows
      ∙ any_swap (in_window window) (has_key k) rows
      ∙ any-count_by (λ (row : BusinessRow). has_key k row && in_window window row) rows h in
    let (j, m, e) = mem_of_any (λ j. k =ˢ j) (distinct_keys (keep (in_window window) rows)) there in
    subst (λ j. Memᴰ j (distinct_keys (keep (in_window window) rows))) (sym ((=ˢ_iff k j).0 e)) m

module _ (key_le : String → String → Bool) (window : ReconciliationWindow)
    (rows : List BusinessRow) where
  mem-duplicate_keys :
      (k : String) → Memᴰ k (duplicate_keys key_le window rows) ↔ (2 ≤ group_count window rows k)
  unfolding duplicate_keys
  mem-duplicate_keys k =
      let often = λ (k : String). ltb 1 (group_count window rows k) in
      let keys = distinct_keys (keep (in_window window) rows) in
      (
        λ m.
            ltb→lt 1 (group_count window rows k)
              (mem-keep often k keys (mem-sort_by key_le k (keep often keys) m)).1,
        λ h. sort_by-mem key_le k (keep often keys) (
            keep-mem often k keys (key_found window rows k (omega (arith, h)))
              (lt→ltb 1 (group_count window rows k) h)),
      )

length-sample_of :
    (window : ReconciliationWindow) (rows : List BusinessRow) (k : String)
    → length (sample_of window rows k) ≡ min (max_rows window) (group_count window rows k)
unfolding sample_of group_count
length-sample_of window rows k =
    let test = λ (row : BusinessRow). has_key k row && in_window window row in
    let sooner = λ (a : BusinessRow) (b : BusinessRow). leb a.place b.place in
    let found = sort_by sooner (keep test rows) in
    length-map (λ (row : BusinessRow). row.shown) (take (max_rows window) found)
    ∙ length-take (max_rows window) found
    ∙ ap (min (max_rows window)) (length-sort_by sooner (keep test rows) ∙ length-keep test rows)

-- One key that occurs more than once, with its true count and its sample.
abbrev pub Duplicated :
    DuplicateDimension → ReconciliationWindow → List BusinessRow → DuplicateGroup → Type 0
Duplicated dimension window rows g =
    (k : String) × (2 ≤ group_count window rows k)
    × (g ≡ to_group dimension window rows k)
    × (g.record_count ≡ group_count window rows k)
    × (length g.rows ≡ min (max_rows window) g.record_count)

-- In a window that is let through, and in which no more keys are duplicated than groups may be
-- returned, the groups are exactly the keys that occur at least twice among the rows of the window, each with the
-- true number of its rows, however many of them it shows, and with as many samples as the cap lets it show.
pub detect_in-exact :
    (key_le : String → String → Bool) (dimension : DuplicateDimension)
    (window : ReconciliationWindow) (rows : List BusinessRow)
    → assert_window window ≡ true
    → length (duplicate_keys key_le window rows) ≤ group_limit window
    → (groups : List DuplicateGroup) × (detect_in key_le dimension window rows ≡ some groups)
      × ((g : DuplicateGroup) → Memᴰ g groups ↔ Duplicated dimension window rows g)
unfolding detect_in
detect_in-exact key_le dimension window rows valid few =
    let keys = duplicate_keys key_le window rows in
    let all = take_all (group_limit window) keys few in
    (
      map (to_group dimension window rows) keys,
      rw (valid, all) refl,
      λ g. (
        λ m.
            let (k, inside, e) = mem-map_inv (to_group dimension window rows) keys m in
            (
              k,
              (mem-duplicate_keys key_le window rows k).0 inside,
              e,
              counted k g e,
              sampled k g e,
            ),
        λ (k, twice, e, _, _).
            map-mem (to_group dimension window rows) keys
              ((mem-duplicate_keys key_le window rows k).1 twice) e,
      ),
    )
  where
    counted :
        (k : String) (g : DuplicateGroup)
        → g ≡ to_group dimension window rows k
        → g.record_count ≡ group_count window rows k
    counted k g e = ap (λ (g : DuplicateGroup). g.record_count) e

    sampled :
        (k : String) (g : DuplicateGroup)
        → g ≡ to_group dimension window rows k
        → length g.rows ≡ min (max_rows window) g.record_count
    sampled k g e =
        subst (λ (g : DuplicateGroup). length g.rows ≡ min (max_rows window) g.record_count) (sym e)
          (length-sample_of window rows k)

-- Windows that meet tile: no row on the boundary is counted twice or left out.
pub group_count_tiles :
    (start middle end : ℕ) (cap limit : Option ℕ) (rows : List BusinessRow) (k : String)
    → start ≤ middle
    → middle ≤ end
    → group_count
        (record { start = start; end = end; max_rows_per_group = cap; max_groups = limit })
        rows
        k
      ≡ group_count
          (record { start = start; end = middle; max_rows_per_group = cap; max_groups = limit })
          rows
          k
        + group_count
            (record { start = middle; end = end; max_rows_per_group = cap; max_groups = limit })
            rows
            k
unfolding group_count
group_count_tiles start middle end cap limit [] k l h = refl
group_count_tiles start middle end cap limit (row ∷ rows) k l h =
    ground (arith, group_count_tiles start middle end cap limit rows k l h)
