-- ===== src/Qualification/Evaluated.antt =====
-- packages/core-qualification/src/evaluator.ts: what an evaluation says.
use ai_client_acquisition_os.Common.{
  Bool, true, false, not, ◌&&◌, List, [], ◌∷◌, map, keep, any, String, ◌=ˢ◌, =ˢ_iff, ◌≡◌, ◌↔◌, refl,
  subst, ◌∙◌, Bool-cases, inl, inr, arith,
}
use ai_client_acquisition_os.Qualification.{
  StoredResearchSignal, QualificationEvaluation, qualified, not_qualified, is_evidentiary,
  unique_ids, evaluate_qualification, evaluate_need_detected, evaluate_evidence_present,
}

any-unique_ids_self :
    (k : String) (seen ids : List String)
    → any (λ j. k =ˢ j) (unique_ids seen ids)
      ≡ (any (λ j. k =ˢ j) ids && not (any (λ j. k =ˢ j) seen))
    → any (λ j. k =ˢ j) (unique_ids seen (k ∷ ids))
      ≡ (any (λ j. k =ˢ j) (k ∷ ids) && not (any (λ j. k =ˢ j) seen))
unfolding unique_ids
any-unique_ids_self k seen ids h = ground (arith, h, =ˢ_iff k k)

any-unique_ids :
    (k : String) (seen ids : List String)
    → any (λ j. k =ˢ j) (unique_ids seen ids)
      ≡ (any (λ j. k =ˢ j) ids && not (any (λ j. k =ˢ j) seen))
unfolding unique_ids
any-unique_ids k seen [] = refl
any-unique_ids k seen (id ∷ ids) = elim (Bool-cases (k =ˢ id)) [
  | inl same ↦
      subst
        (λ j.
          any (λ i. k =ˢ i) (unique_ids seen (j ∷ ids))
          ≡ (any (λ i. k =ˢ i) (j ∷ ids) && not (any (λ i. k =ˢ i) seen)))
        ((=ˢ_iff k id).0 same) (any-unique_ids_self k seen ids (any-unique_ids k seen ids))
  | inr other ↦ ground (arith, other, any-unique_ids k seen ids, any-unique_ids k (id ∷ seen) ids)
]

any-ids_of_kept :
    (k : String) (signals : List StoredResearchSignal)
    → any (λ j. k =ˢ j) (map (λ (s : StoredResearchSignal). s.id) (keep is_evidentiary signals))
      ≡ any (λ (s : StoredResearchSignal). is_evidentiary s && (k =ˢ s.id)) signals
any-ids_of_kept k [] = refl
any-ids_of_kept k (s ∷ signals) = ground (arith, any-ids_of_kept k signals)

-- What an evaluation says of a need and of signals.
pub record Evaluated (detected : Bool) (signals : List StoredResearchSignal)
    (e : QualificationEvaluation) : Type 0 where
  pub qualifies : (e.state ≡ qualified) ↔ ((detected ≡ true) × (any is_evidentiary signals ≡ true))
  pub refuses : (e.state ≡ not_qualified) ↔ (detected ≡ false)
  pub evidence :
      (id : String)
      → any (λ j. id =ˢ j) e.evidence_signal_ids
        ≡ (detected && any (λ (s : StoredResearchSignal). is_evidentiary s && (id =ˢ s.id)) signals)

pub evaluate_qualification-Evaluated :
    (detected : Bool) (signals : List StoredResearchSignal)
    → Evaluated detected signals (evaluate_qualification detected signals)
unfolding evaluate_qualification evaluate_need_detected evaluate_evidence_present
evaluate_qualification-Evaluated false signals = record {
  qualifies = ground arith;
  refuses = ground arith;
  evidence = λ id. refl;
}
evaluate_qualification-Evaluated true signals = record {
  qualifies = ground arith;
  refuses = ground arith;
  evidence = λ id.
      any-unique_ids id [] (map (λ (s : StoredResearchSignal). s.id) (keep is_evidentiary signals))
      ∙ ground (arith, any-ids_of_kept id signals);
}
