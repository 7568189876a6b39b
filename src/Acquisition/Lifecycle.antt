-- ===== src/Acquisition/Lifecycle.antt =====
-- packages/core-acquisition/src/stages.ts: what the moves of an opportunity come to.
use ai_client_acquisition_os.Common.{
  ◌≡◌, refl, sym, ap, ◌∙◌, Bool, true, false, List, [], ◌∷◌, ◌++◌, Option, some, String, ℕ, ◌=ˢ◌,
  inl, inr, ◌⊎◌, arith, if◌then◌else◌,
}
use ai_client_acquisition_os.Common.Text.{trim}
use ai_client_acquisition_os.Acquisition.Stages.{
  OpportunityStage, new, researched, contacted, replied, qualified, proposal_sent, won, lost,
  paused, can_transition, allowed_transitions, move_all, pause, resume, is_active, is_terminal,
  PauseRecord, StageError, invalid_stage_transition,
}

can_transition-won :
    (from : OpportunityStage) → can_transition from won ≡ true → from ≡ proposal_sent
unfolding can_transition allowed_transitions
can_transition-won new e = ground arith
can_transition-won researched e = ground arith
can_transition-won contacted e = ground arith
can_transition-won replied e = ground arith
can_transition-won qualified e = ground arith
can_transition-won proposal_sent e = refl
can_transition-won won e = ground arith
can_transition-won lost e = ground arith
can_transition-won paused e = ground arith

can_transition-terminal :
    (from to : OpportunityStage) → is_terminal from ≡ true → can_transition from to ≡ false
unfolding can_transition allowed_transitions is_terminal
can_transition-terminal won to e = refl
can_transition-terminal lost to e = refl
can_transition-terminal new to e = ground arith
can_transition-terminal researched to e = ground arith
can_transition-terminal contacted to e = ground arith
can_transition-terminal replied to e = ground arith
can_transition-terminal qualified to e = ground arith
can_transition-terminal proposal_sent to e = ground arith
can_transition-terminal paused to e = ground arith

move_all-cons :
    (from to : OpportunityStage) (moves : List OpportunityStage) (end : OpportunityStage)
    → move_all from (to ∷ moves) ≡ some end
    → (can_transition from to ≡ true) × (move_all to moves ≡ some end)
unfolding move_all
move_all-cons from to moves end e = ground arith

move_all-step :
    (from to : OpportunityStage) (moves : List OpportunityStage)
    → can_transition from to ≡ true
    → move_all from (to ∷ moves) ≡ move_all to moves
unfolding move_all
move_all-step from to moves e = ground arith

move_all-last :
    (to : OpportunityStage) (moves : List OpportunityStage) (end : OpportunityStage)
    → moves ≡ []
    → move_all to moves ≡ some end
    → to ≡ end
unfolding move_all
move_all-last to [] end n e = ground arith
move_all-last to (x ∷ moves) end n e = ground arith

abbrev pub WonBy : OpportunityStage → List OpportunityStage → Type 0
WonBy from moves =
    (earlier : List OpportunityStage) × (moves ≡ earlier ++ (won ∷ []))
    × (move_all from earlier ≡ some proposal_sent)

won_cons :
    (from to : OpportunityStage) (moves : List OpportunityStage)
    → can_transition from to ≡ true
    → WonBy to moves
    → WonBy from (to ∷ moves)
won_cons from to moves e (earlier, split, before) =
    (to ∷ earlier, ap (λ ms. to ∷ ms) split, move_all-step from to earlier e ∙ before)

won_last :
    (from to : OpportunityStage) (moves : List OpportunityStage)
    → can_transition from to ≡ true
    → moves ≡ []
    → to ≡ won
    → WonBy from (to ∷ moves)
unfolding move_all
won_last from to moves e none_left p =
    ([], cc, ap some (can_transition-won from (sym (ap (can_transition from) p) ∙ e)))

-- Whatever moves an opportunity makes, pauses and resumptions among them, if they end in WON then
-- there was no move at all, or the last one led from PROPOSAL_SENT to WON.
pub move_all-won :
    (from : OpportunityStage) (moves : List OpportunityStage)
    → move_all from moves ≡ some won
    → (moves ≡ []) ⊎ WonBy from moves
move_all-won from [] e = inl refl
move_all-won from (to ∷ moves) e =
    let both = move_all-cons from to moves won e in
    inr (elim (move_all-won to moves both.1) [
      | inl none_left ↦
          won_last from to moves both.0 none_left (move_all-last to moves won none_left both.1)
      | inr rest ↦ won_cons from to moves both.0 rest
    ])

paused_at : (x y : StageError ⊎ PauseRecord) (b : Bool) → b ≡ false → (if b then x else y) ≡ y
paused_at x y b h = ground arith

-- A stage can be paused, with a reason that is not blank, exactly if it is active; the record of
-- the pause keeps the stage, the reason and the time, and resumes to the stage that was paused.
pub resume-pause :
    (from : OpportunityStage) (reason : String) (resume_at : Option ℕ)
    → (trim reason =ˢ "") ≡ false
    → ((is_active from ≡ true)
        × (r : PauseRecord) × (pause from reason resume_at ≡ inr r)
        × (resume r ≡ inr from)
        × (r.reason ≡ reason)
        × (r.resume_at ≡ resume_at))
      ⊎ ((is_active from ≡ false)
          × (pause from reason resume_at ≡ inl (invalid_stage_transition from paused)))
unfolding pause resume is_active is_terminal can_transition allowed_transitions
resume-pause new reason resume_at h = inl (refl, _, paused_at _ _ _ h, refl, refl, refl)
resume-pause researched reason resume_at h = inl (refl, _, paused_at _ _ _ h, refl, refl, refl)
resume-pause contacted reason resume_at h = inl (refl, _, paused_at _ _ _ h, refl, refl, refl)
resume-pause replied reason resume_at h = inl (refl, _, paused_at _ _ _ h, refl, refl, refl)
resume-pause qualified reason resume_at h = inl (refl, _, paused_at _ _ _ h, refl, refl, refl)
resume-pause proposal_sent reason resume_at h = inl (refl, _, paused_at _ _ _ h, refl, refl, refl)
resume-pause won reason resume_at h = inr (refl, refl)
resume-pause lost reason resume_at h = inr (refl, refl)
resume-pause paused reason resume_at h = inr (refl, refl)
