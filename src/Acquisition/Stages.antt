-- ===== src/Acquisition/Stages.antt =====
-- packages/core-acquisition/src/stages.ts: the stages of an opportunity and the moves between them.
use ai_client_acquisition_os.Common.{
  true, ◌≡◌, refl, sym, ap, ◌∙◌, zero, suc, ==_iff, Bool, not, ◌&&◌, List, [], ◌∷◌, ◌++◌, Option,
  none, some, String, ℕ, ◌==◌, ◌=ˢ◌, if◌then◌else◌, any, inl, inr, ◌⊎◌,
}
use ai_client_acquisition_os.Common.Text.{trim}

pub data OpportunityStage : Type 0 where
  new researched contacted replied qualified proposal_sent won lost paused : OpportunityStage

abbrev stage_number : OpportunityStage → ℕ
stage_number new = 0
stage_number researched = 1
stage_number contacted = 2
stage_number replied = 3
stage_number qualified = 4
stage_number proposal_sent = 5
stage_number won = 6
stage_number lost = 7
stage_number paused = 8

abbrev pub same_stage : OpportunityStage → OpportunityStage → Bool
same_stage a b = stage_number a == stage_number b

stage_at : ℕ → OpportunityStage
stage_at zero = new
stage_at (suc zero) = researched
stage_at (suc (suc zero)) = contacted
stage_at (suc (suc (suc zero))) = replied
stage_at (suc (suc (suc (suc zero)))) = qualified
stage_at (suc (suc (suc (suc (suc zero))))) = proposal_sent
stage_at (suc (suc (suc (suc (suc (suc zero)))))) = won
stage_at (suc (suc (suc (suc (suc (suc (suc zero))))))) = lost
stage_at (suc (suc (suc (suc (suc (suc (suc (suc n)))))))) = paused

stage_at-number : (stage : OpportunityStage) → stage_at (stage_number stage) ≡ stage
unfolding stage_at
stage_at-number new = refl
stage_at-number researched = refl
stage_at-number contacted = refl
stage_at-number replied = refl
stage_at-number qualified = refl
stage_at-number proposal_sent = refl
stage_at-number won = refl
stage_at-number lost = refl
stage_at-number paused = refl

pub same_stage-eq : (a b : OpportunityStage) → same_stage a b ≡ true → a ≡ b
same_stage-eq a b h =
    sym (stage_at-number a)
    ∙ ap stage_at ((==_iff (stage_number a) (stage_number b)).0 h)
    ∙ stage_at-number b

-- `stages.includes(stage)`.
abbrev pub includes : List OpportunityStage → OpportunityStage → Bool
includes stages stage = any (same_stage stage) stages

abbrev pub pipeline_order : List OpportunityStage
pipeline_order = new ∷ researched ∷ contacted ∷ replied ∷ qualified ∷ proposal_sent ∷ []

abbrev pub terminal_stages : List OpportunityStage
terminal_stages = won ∷ lost ∷ []

abbrev pub resumable_stages : List OpportunityStage
resumable_stages = pipeline_order

unfoldable pub allowed_transitions : OpportunityStage → List OpportunityStage
allowed_transitions new = researched ∷ lost ∷ paused ∷ []
allowed_transitions researched = contacted ∷ lost ∷ paused ∷ []
allowed_transitions contacted = replied ∷ qualified ∷ lost ∷ paused ∷ []
allowed_transitions replied = qualified ∷ contacted ∷ lost ∷ paused ∷ []
allowed_transitions qualified = proposal_sent ∷ lost ∷ paused ∷ []
allowed_transitions proposal_sent = won ∷ lost ∷ paused ∷ []
allowed_transitions won = []
allowed_transitions lost = []
allowed_transitions paused = pipeline_order ++ (lost ∷ [])

unfoldable pub can_transition : OpportunityStage → OpportunityStage → Bool
unfolding allowed_transitions
can_transition from to = includes (allowed_transitions from) to

unfoldable pub is_terminal : OpportunityStage → Bool
is_terminal stage = includes terminal_stages stage

unfoldable pub is_active : OpportunityStage → Bool
unfolding is_terminal
is_active stage = not (is_terminal stage) && not (same_stage stage paused)

-- `resumeAt` is a time or null.
pub record PauseRecord : Type 0 where
  pub paused_from : OpportunityStage
  pub reason : String
  pub resume_at : Option ℕ

-- What `pause` and `resume` throw.
pub data StageError : Type 0 where
  invalid_stage_transition : OpportunityStage → OpportunityStage → StageError
  missing_reason : StageError

unfoldable pub pause : OpportunityStage → String → Option ℕ → StageError ⊎ PauseRecord
unfolding can_transition trim
pause from reason resume_at =
    if not (can_transition from paused)
    then inl (invalid_stage_transition from paused)
    else if trim reason =ˢ ""
    then inl missing_reason
    else inr (record { paused_from = from; reason = reason; resume_at = resume_at })

unfoldable pub resume : PauseRecord → StageError ⊎ OpportunityStage
resume r =
    if not (includes resumable_stages r.paused_from)
    then inl (invalid_stage_transition paused r.paused_from)
    else inr r.paused_from

-- The moves of an opportunity, each through `assertTransition`; `none` where it throws.
unfoldable pub move_all : OpportunityStage → List OpportunityStage → Option OpportunityStage
unfolding can_transition
move_all from [] = some from
move_all from (to ∷ moves) =
    let rest = move_all to moves in if can_transition from to then rest else none
