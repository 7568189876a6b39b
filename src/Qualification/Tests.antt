-- ===== src/Qualification/Tests.antt =====
-- An opportunity of one user, two signals, and the theorem at this input.
use ai_client_acquisition_os.Common.{◌≡◌, refl, true, List, [], ◌∷◌, none}
use ai_client_acquisition_os.Qualification.{
  StoredResearchSignal, observed, unknown, Opportunity, qualified, evaluate_qualification,
  evaluate_need_detected, evaluate_evidence_present, unique_ids,
}

abbrev signal : StoredResearchSignal
signal = record { id = "sig1"; prospect_id = "p1"; classification = observed; superseded_at = none }

abbrev signals : List StoredResearchSignal
signals = signal ∷ record signal { id = "sig2"; classification = unknown } ∷ []

abbrev opportunity : Opportunity
opportunity = record { id = "o1"; user_id = "u1"; prospect_id = "p1"; need_detected = true }

-- The signal with no claim is no evidence.
evidence_named : (evaluate_qualification true signals).evidence_signal_ids ≡ "sig1" ∷ []
unfolding evaluate_qualification evaluate_need_detected evaluate_evidence_present unique_ids
evidence_named = refl

state_qualified : (evaluate_qualification true signals).state ≡ qualified
unfolding evaluate_qualification evaluate_need_detected evaluate_evidence_present unique_ids
state_qualified = refl
