-- ===== src/Acquisition/NextAction/Ranks.antt =====
-- packages/core-acquisition/src/nextAction.ts: the order of the queue.
use ai_client_acquisition_os.Common.{
  ℕ, ◌≤◌, ◌≡◌, ◌↔◌, refl, sym, subst, ◌∙◌, Bool, true, false, not, ◌&&◌, ◌||◌, leb, Bool-cases, ◌⊎◌,
  inl, inr, List, [], ◌∷◌, Option, none, some, map, String, keep, arith, Memᴰ, mem-keep, keep-mem,
  mem-map_inv, map-mem, All,
}
use ai_client_acquisition_os.Common.Sort.{IsSortedBy, sort_by-IsSortedBy, mem-sort_by, sort_by-mem}
use ai_client_acquisition_os.Acquisition.NextAction.{
  OpportunitySnapshot, NextAction, next_action_for, build_queue, ranks_before, is_nothing, is_later,
}
use ai_client_acquisition_os.Acquisition.Cadence.{max_follow_ups}
use ai_client_acquisition_os.Acquisition.Stages.{
  OpportunityStage, new, researched, contacted, replied, qualified, proposal_sent, won, lost,
  paused, same_stage, same_stage-eq, is_terminal,
}
use ai_client_acquisition_os.Common.Int.{◌≤ℤ◌}

abbrev something : NextAction → Bool
something a = not (is_nothing a.kind)

abbrev action_at : ℕ → OpportunitySnapshot → NextAction
action_at now s = next_action_for s now

abbrev actions : List OpportunitySnapshot → ℕ → List NextAction
actions snapshots now = map (action_at now) snapshots

abbrev pub is_closed : OpportunityStage → Bool
is_closed won = true
is_closed lost = true
is_closed paused = true
is_closed _ = false

-- There is something to do: the stage is an open one, and a reply waits, or the cadence of a
-- contacted lead is used up, or no follow-up is planned for later.
abbrev pub Calls : OpportunitySnapshot → ℕ → Type 0
Calls s now =
    (is_closed s.stage ≡ false)
    × ((s.has_unread_reply ≡ true)
        ⊎ ((s.stage ≡ contacted) × (4 ≤ s.follow_ups_sent))
        ⊎ ((due : ℕ) → s.next_follow_up_due_at ≡ some due → due ≤ now))

four : max_follow_ups ≡ 4
four = refl

idle_test : OpportunitySnapshot → ℕ → Bool
idle_test s now =
    is_closed s.stage
    || (not s.has_unread_reply
        && not (same_stage s.stage contacted && leb 4 s.follow_ups_sent)
        && is_later s.next_follow_up_due_at now)

nothing-at :
    (s : OpportunitySnapshot) (now : ℕ) (stage : OpportunityStage)
    → s.stage ≡ stage
    → is_nothing (next_action_for s now).kind ≡ idle_test s now
unfolding next_action_for is_terminal idle_test
nothing-at s now new e = ground (arith, e, four)
nothing-at s now researched e = ground (arith, e, four)
nothing-at s now contacted e = ground (arith, e, four)
nothing-at s now replied e = ground (arith, e, four)
nothing-at s now qualified e = ground (arith, e, four)
nothing-at s now proposal_sent e = ground (arith, e, four)
nothing-at s now won e = ground (arith, e, four)
nothing-at s now lost e = ground (arith, e, four)
nothing-at s now paused e = ground (arith, e, four)

later_due :
    (due : Option ℕ) (now : ℕ)
    → is_later due now ≡ false
    → (time : ℕ) → due ≡ some time
    → time ≤ now
later_due due now h time e = ground (arith, h, e)

none_later :
    (due : Option ℕ) (now : ℕ)
    → ((time : ℕ) → due ≡ some time → time ≤ now)
    → is_later due now ≡ false
none_later none now h = refl
none_later (some time) now h = ground (arith, h time refl)

something-Calls :
    (s : OpportunitySnapshot) (now : ℕ)
    → is_nothing (next_action_for s now).kind ≡ false
    → Calls s now
unfolding idle_test
something-Calls s now h =
    let h' : idle_test s now ≡ false = sym (nothing-at s now s.stage refl) ∙ h in
    (
      ground (arith, h'),
      elim (Bool-cases s.has_unread_reply) [
        | inl unread ↦ inl unread
        | inr read ↦ elim (Bool-cases (same_stage s.stage contacted && leb 4 s.follow_ups_sent)) [
          | inl spent ↦
              inr (
                inl
                  (same_stage-eq s.stage contacted (ground (arith, spent)), ground (arith, spent)))
          | inr fresh ↦
              inr (inr (later_due s.next_follow_up_due_at now (ground (arith, h', read, fresh))))
        ]
      ],
    )

Calls-something :
    (s : OpportunitySnapshot) (now : ℕ)
    → Calls s now
    → is_nothing (next_action_for s now).kind ≡ false
unfolding idle_test
Calls-something s now (live, why) = nothing-at s now s.stage refl ∙ elim why [
  | inl unread ↦ ground (arith, live, unread)
  | inr (inl (stage, spent)) ↦ ground (arith, live, stage, spent)
  | inr (inr due) ↦ ground (arith, live, none_later s.next_follow_up_due_at now due)
]

module _ (name_le : String → String → Bool) where
  -- No later action has a higher priority, and the names of equal priorities are in their order.
  abbrev pub Ranked : List NextAction → Type 0
  Ranked [] = Unit
  Ranked (a ∷ actions) =
      All
        (λ (b : NextAction).
          (b.priority ≤ℤ a.priority)
          × (a.priority ≤ℤ b.priority → name_le a.lead_name b.lead_name ≡ true))
        actions
      × Ranked actions

module _ (name_le : String → String → Bool)
    (name_le_trans : (a b c : String)
      → name_le a b ≡ true
      → name_le b c ≡ true
      → name_le a c ≡ true)
    (name_le_total : (a b : String) → name_le a b ≡ false → name_le b a ≡ true) where
  ranks_before_trans :
      (a b c : NextAction)
      → ranks_before name_le a b ≡ true
      → ranks_before name_le b c ≡ true
      → ranks_before name_le a c ≡ true
  ranks_before_trans a b c h k = ground (arith, name_le_trans a.lead_name b.lead_name c.lead_name)

  ranks_before_total :
      (a b : NextAction) → ranks_before name_le a b ≡ false → ranks_before name_le b a ≡ true
  ranks_before_total a b h = ground (arith, name_le_total a.lead_name b.lead_name)

  ranks_before-All :
      (a : NextAction) (actions : List NextAction)
      → All (λ b. ranks_before name_le a b ≡ true) actions
      → All
          (λ (b : NextAction).
            (b.priority ≤ℤ a.priority)
            × (a.priority ≤ℤ b.priority → name_le a.lead_name b.lead_name ≡ true))
          actions
  ranks_before-All a [] h = tt
  ranks_before-All a (b ∷ actions) (h, rest) =
      ((ground (arith, h), λ k. ground (arith, h, k)), ranks_before-All a actions rest)

  sorted-Ranked :
      (actions : List NextAction)
      → IsSortedBy (ranks_before name_le) actions
      → Ranked name_le actions
  sorted-Ranked [] h = tt
  sorted-Ranked (a ∷ actions) (h, rest) = (ranks_before-All a actions h, sorted-Ranked actions rest)

  -- For any order of the names that is transitive and total: no action in the queue has a higher
  -- priority than an earlier one, and those of equal priority are in the order of their names. The
  -- queue holds exactly the next actions of the opportunities that call for one: those in an open
  -- stage with an unread reply, or contacted with the four follow-ups sent, or with no follow-up due
  -- later than now.
  pub build_queue-Ranked :
      (snapshots : List OpportunitySnapshot) (now : ℕ)
      → Ranked name_le (build_queue name_le snapshots now)
        × ((a : NextAction)
            → Memᴰ a (build_queue name_le snapshots now) ↔ (
                (s : OpportunitySnapshot) × Memᴰ s snapshots
                × (a ≡ next_action_for s now)
                × Calls s now))
  unfolding build_queue
  build_queue-Ranked snapshots now =
      let le = ranks_before name_le in
      let todo = keep something (actions snapshots now) in
      (
        sorted-Ranked _ (sort_by-IsSortedBy le ranks_before_trans ranks_before_total todo),
        λ a. (
          λ m.
              let (k, live) =
                mem-keep something a (actions snapshots now) (mem-sort_by le a todo m) in
              let (s, n, e) = mem-map_inv (action_at now) snapshots k in
              let busy : is_nothing (next_action_for s now).kind ≡ false =
                subst (λ (b : NextAction). is_nothing b.kind ≡ false) e (ground arith) in
              (s, n, e, something-Calls s now busy),
          λ (s, n, e, calls).
              let busy : is_nothing a.kind ≡ false =
                subst (λ (b : NextAction). is_nothing b.kind ≡ false) (sym e)
                  (Calls-something s now calls) in
              sort_by-mem le a todo (
                keep-mem something a (actions snapshots now) (map-mem (action_at now) snapshots n e)
                  (rw busy refl)),
        ),
      )
