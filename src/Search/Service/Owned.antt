-- ===== src/Search/Service/Owned.antt =====
-- A call of the service touches only the caller's searches, and only along the permitted moves.
use ai_client_acquisition_os.Common.{
  ℕ, true, not, List, Option, none, some, String, ◌≡◌, refl, sym, ap, subst, ◌∙◌, arith, ◌⊎◌, inl,
  inr, if_both, ◌=ˢ◌, =ˢ_iff, find-concat, find_of_not_any, find, find_sound,
}
use ai_client_acquisition_os.Common.Rows.{Pairs, Pairs-update_where}
use ai_client_acquisition_os.Search.Repository.{
  SearchStatus, StoredSearch, is_valid_search_transition, get_by_id, same_status, transition, is_at,
  moved_to, moved_row,
}
use ai_client_acquisition_os.Search.Service.{
  ServiceProfile, CreateSearchInput, Answer, ok, not_found, threw, World, has_key,
  find_by_idempotency_key, new_search, create, key_is_taken, with_profile, replay, by_key,
  create_search, error_of, after_swap, move_current, transition_search,
}

-- The row is as it was, or it is the caller's and moved along a permitted edge.
abbrev pub Permitted : String → StoredSearch → StoredSearch → Type 0
Permitted user_id r s =
    (s ≡ r)
    ⊎ ((r.user_id ≡ user_id)
        × (s.user_id ≡ user_id)
        × (is_valid_search_transition r.status s.status ≡ true))

status_of : (a b : SearchStatus) → same_status a b ≡ true → a ≡ b
status_of a b h = ground arith

transition-Permitted :
    (user_id id : String) (from to : SearchStatus) (error : Option String) (now : ℕ)
    (rows : List StoredSearch)
    → is_valid_search_transition from to ≡ true
    → Pairs (Permitted user_id) rows (transition user_id id from to error now rows).0
unfolding transition
transition-Permitted user_id id from to error now rows valid =
    Pairs-update_where (Permitted user_id) (is_at user_id id from) (moved_to to error now)
      (λ r miss. inl refl)
      (λ r hit.
        let owner : r.user_id ≡ user_id = ground (arith, =ˢ_iff r.user_id user_id) in
        inr (
          owner,
          owner,
          ap (λ f. is_valid_search_transition f to) (status_of r.status from (ground arith))
              ∙ valid,
        ))
      rows

-- What a transition did: nothing, or permitted moves of the caller's rows; a search that it returns
-- is the caller's, under the asked id and in the asked status.
abbrev pub Transitioned :
    World → String → String → SearchStatus → List StoredSearch → List StoredSearch × Answer → Type 0
Transitioned w user_id id to rows (after, ok s) =
    Pairs (Permitted user_id) (w.meanwhile rows) after
    × (s.user_id ≡ user_id)
    × (s.id ≡ id)
    × (s.status ≡ to)
Transitioned w user_id id to rows (after, not_found) =
    (after ≡ rows) × (get_by_id user_id id rows ≡ none)
Transitioned w user_id id to rows (after, threw e) =
    (after ≡ rows) ⊎ Pairs (Permitted user_id) (w.meanwhile rows) after

module _ (w : World) (user_id id : String) (to : SearchStatus) (error : Option String)
    (rows : List StoredSearch) where
  after_swap-Transitioned :
      (from : SearchStatus) (after : List StoredSearch) (swapped : Option StoredSearch)
      → Pairs (Permitted user_id) (w.meanwhile rows) after
      → ((s : StoredSearch)
          → swapped ≡ some s
          → (s.user_id ≡ user_id) × (s.id ≡ id) × (s.status ≡ to))
      → Transitioned w user_id id to rows (after_swap from to (after, swapped))
  after_swap-Transitioned from after none moved own = inr moved
  after_swap-Transitioned from after (some s) moved own =
      let o = own s refl in (moved, o.0, o.1, o.2)

  swapped_of :
      (from : SearchStatus) (table : List StoredSearch) (found : Option StoredSearch)
      (s : StoredSearch)
      → find (is_at user_id id from) table ≡ found
      → moved_row to (error_of to error) w.now found ≡ some s
      → (s.user_id ≡ user_id) × (s.id ≡ id) × (s.status ≡ to)
  swapped_of from table none s e h = ground (arith, h)
  swapped_of from table (some r) s e h =
      let hit = (find_sound (is_at user_id id from) table r e).0 in
      let moved : moved_to to (error_of to error) w.now r ≡ s = cc h in
      (
        sym (ap (λ (q : StoredSearch). q.user_id) moved)
            ∙ ground (arith, hit, =ˢ_iff r.user_id user_id),
        sym (ap (λ (q : StoredSearch). q.id) moved) ∙ ground (arith, hit, =ˢ_iff r.id id),
        sym (ap (λ (q : StoredSearch). q.status) moved),
      )

  swapped_row :
      (from : SearchStatus) (table : List StoredSearch) (s : StoredSearch)
      → (transition user_id id from to (error_of to error) w.now table).1 ≡ some s
      → (s.user_id ≡ user_id) × (s.id ≡ id) × (s.status ≡ to)
  unfolding transition
  swapped_row from table s h = swapped_of from table (find (is_at user_id id from) table) s refl h

  move_current-Transitioned :
      (current : Option StoredSearch)
      → get_by_id user_id id rows ≡ current
      → Transitioned w user_id id to rows (move_current w user_id id to error rows current)
  move_current-Transitioned none e = (refl, e)
  move_current-Transitioned (some current) e =
      if_both (Transitioned w user_id id to rows)
        (not (is_valid_search_transition current.status to)) _ _ (λ _. inl refl)
        (λ valid.
          after_swap-Transitioned current.status _ _
            (transition-Permitted user_id id current.status to (error_of to error) w.now
              (w.meanwhile rows) (ground (arith, valid)))
            (swapped_row current.status (w.meanwhile rows)))

  -- A transition changes only searches of the caller, along the permitted edges (so none that is
  -- COMPLETE, FAILED or CANCELLED), whatever other calls commit between its read and its write; a
  -- search that it returns is the caller's, under the asked id and in the asked status.
  pub transition_search-Transitioned :
      Transitioned w user_id id to rows (transition_search w user_id id to error rows)
  unfolding transition_search
  transition_search-Transitioned = move_current-Transitioned _ refl

-- The table answers the key with the search, which was started from the profile that is asked for.
abbrev pub Kept : String → String → CreateSearchInput → List StoredSearch → StoredSearch → Type 0
Kept user_id key input after s =
    (find_by_idempotency_key user_id key after ≡ some s)
    × (s.service_profile_id ≡ input.service_profile_id)

abbrev KeptIf : String → String → CreateSearchInput → List StoredSearch × Answer → Type 0
KeptIf user_id key input (after, ok s) = Kept user_id key input after s
KeptIf user_id key input (after, not_found) = Unit
KeptIf user_id key input (after, threw e) = Unit

again :
    (w : World) (user_id key : String) (input : CreateSearchInput) (rows : List StoredSearch)
    (s : StoredSearch)
    → Kept user_id key input rows s
    → by_key w user_id input rows (some key) ≡ (rows, ok s)
again w user_id key input rows s (found, same) =
    ap (replay w user_id input rows) found
    ∙ rw (same, (=ˢ_iff input.service_profile_id input.service_profile_id).1 refl)

create-Kept :
    (w : World) (user_id key : String) (input : CreateSearchInput) (rows : List StoredSearch)
    (profile : ServiceProfile)
    → profile.id ≡ input.service_profile_id
    → KeptIf user_id key input (create w.row_id user_id profile (some key) w.now rows)
unfolding create find_by_idempotency_key
create-Kept w user_id key input rows profile own =
    let row = new_search w.row_id user_id profile (some key) w.now in
    if_both (KeptIf user_id key input) (key_is_taken user_id (some key) rows) _ _ (λ _. tt)
      λ free. (
        find-concat (has_key user_id key) rows row (find_of_not_any (has_key user_id key) rows free)
            (ground (arith, =ˢ_iff user_id user_id, =ˢ_iff key key)),
        own,
      )

-- `profiles.getById` answers with the profile of the id it is asked for.
abbrev pub AnswersById : World → Type 0
AnswersById w =
    (user_id id : String) (profile : ServiceProfile)
    → w.profile_of user_id id ≡ some profile
    → profile.id ≡ id

module _ (w : World) (user_id key : String) (input : CreateSearchInput) (by_id : AnswersById w)
    (k : input.idempotency_key ≡ some key) where
  with_profile-Kept :
      (rows : List StoredSearch) (profile : Option ServiceProfile)
      → w.profile_of user_id input.service_profile_id ≡ profile
      → KeptIf user_id key input (with_profile w user_id (some key) rows profile)
  with_profile-Kept rows none e = tt
  with_profile-Kept rows (some profile) e =
      create-Kept w user_id key input (w.meanwhile rows) profile
        (by_id user_id input.service_profile_id profile e)

  replay-Kept :
      (rows : List StoredSearch) (found : Option StoredSearch)
      → find_by_idempotency_key user_id key rows ≡ found
      → KeptIf user_id key input (replay w user_id input rows found)
  replay-Kept rows none e =
      subst
        (λ o.
          KeptIf user_id key input
            (with_profile w user_id o rows (w.profile_of user_id input.service_profile_id)))
        (sym k) (with_profile-Kept rows _ refl)
  replay-Kept rows (some existing) e =
      if_both (KeptIf user_id key input) (existing.service_profile_id =ˢ input.service_profile_id) _
        _ (λ same. (e, (=ˢ_iff existing.service_profile_id input.service_profile_id).0 same))
        (λ _. tt)

-- A search that was started under a key is the answer when the same call is made again, whatever
-- profiles, ids and clock there are by then, and the table stays as it is; the first call's profiles
-- answer by id.
pub create_search_retry :
    (w w' : World) (user_id key : String) (input : CreateSearchInput)
    (rows after : List StoredSearch) (s : StoredSearch)
    → AnswersById w
    → input.idempotency_key ≡ some key
    → create_search w user_id input rows ≡ (after, ok s)
    → create_search w' user_id input after ≡ (after, ok s)
unfolding create_search
create_search_retry w w' user_id key input rows after s by_id k h =
    ap (by_key w' user_id input after) k
    ∙ again w' user_id key input after s (
        subst (KeptIf user_id key input) (ap (by_key w user_id input rows) (sym k) ∙ h)
          (replay-Kept w user_id key input by_id k rows _ refl))
