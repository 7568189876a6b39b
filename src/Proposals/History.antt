-- ===== src/Proposals/History.antt =====
-- packages/core-proposal/src/versions.ts: edits add versions and change none.
use ai_client_acquisition_os.Common.{
  ℕ, ◌+◌, ◌≡◌, refl, sym, ap, ◌∙◌, ◌||◌, List, [], ◌∷◌, ◌++◌, none, some, String, length, if_both,
  arith, inl, inr, Memᴰ, Option-cases,
}
use ai_client_acquisition_os.Common.Runs.{run}
use ai_client_acquisition_os.Common.Text.{trim, is_blank}
use ai_client_acquisition_os.Proposals.Schema.{
  ProposalVersion, proposal_version_schema, draft, approved, sent, accepted, Proposal,
}
use ai_client_acquisition_os.Proposals.Versions.{
  Changed, EditInput, append_edit, edit_current, next_version, approve, mark_sent, record_answer,
  answer_state, ProposalAction, edit_with, approve_by, send_at, answer_at, settle, try_action,
  current_version_of, can_transition, same_state,
}
use ai_client_acquisition_os.Proposals.Record.{
  IsRecorded, HasTerms, found_last, Numbered-append, schema_kept, All-at, All-append,
  length-append_one,
}
use mathlib.Core.List.{append-nil, append_assoc}

module _ (amount : ℕ) (currency template : String) where
  -- `after` is recorded too, and has the versions of `p` with others behind them.
  abbrev pub Continues : Proposal → Proposal → Type 0
  Continues p after =
      IsRecorded amount currency template after
      × (added : List ProposalVersion) × (after.versions ≡ p.versions ++ added)

  module _ (p : Proposal) (r : IsRecorded amount currency template p) where
    unchanged : Continues p p
    unchanged = (r, [], sym (append-nil p.versions))

    appended :
        (edit : EditInput) (previous w : ProposalVersion)
        → previous.version ≡ p.current_version
        → Memᴰ previous p.versions
        → proposal_version_schema (next_version previous edit) ≡ some w
        → Continues p (record p {
          state = draft;
          approved_by = none;
          current_version = w.version;
          versions = p.versions ++ (w ∷ []);
        })
    appended edit previous w number inside e =
        let (version, money, coin, kind) = schema_kept (next_version previous edit) w e in
        let (money', coin', kind') =
          All-at (HasTerms amount currency template) previous p.versions r.terms inside in
        let next : w.version ≡ 1 + length p.versions = omega (arith, version, number, r.counted) in
        (
          record {
            numbered = Numbered-append 1 w p.versions r.numbered next;
            counted = omega (arith, length-append_one w p.versions, next);
            some_version = omega (arith, next);
            terms =
                All-append (HasTerms amount currency template) w p.versions r.terms
                  (money ∙ money', coin ∙ coin', kind ∙ kind');
          },
          w ∷ [],
          refl,
        )

    edit_current-Continues :
        (edit : EditInput) → Continues p (settle p (edit_current p edit (current_version_of p)))
    unfolding edit_current
    edit_current-Continues edit =
        let (previous, found, number, inside) =
          found_last 1 p.current_version p.versions r.numbered
            (omega (arith, r.counted, r.some_version)) (omega (arith, r.counted)) in
        rw found (elim (Option-cases (proposal_version_schema (next_version previous edit))) [
          | inl e ↦ rw e unchanged
          | inr (w, e) ↦ rw e (appended edit previous w number inside e)
        ])

    -- The versions are left alone.
    relabelled :
        (after : Proposal)
        → after.versions ≡ p.versions
        → after.current_version ≡ p.current_version
        → Continues p after
    relabelled after same current = (
      record {
        numbered = rw same r.numbered;
        counted = rw (same, current) r.counted;
        some_version = rw current r.some_version;
        terms = rw same r.terms;
      },
      [],
      same ∙ sym (append-nil p.versions),
    )

    try_action-Continues : (action : ProposalAction) → Continues p (try_action p action)
    unfolding try_action append_edit approve mark_sent record_answer
    try_action-Continues (edit_with edit) =
        let P = λ (c : Changed). Continues p (settle p c) in
        if_both P (same_state p.state sent || same_state p.state accepted) _ _ (λ _. unchanged)
          λ _.
            if_both P (is_blank (trim edit.edited_by)) _ _ (λ _. unchanged)
              λ _.
                if_both P (is_blank (trim edit.edit_summary)) _ _ (λ _. unchanged)
                  λ _. edit_current-Continues edit
    try_action-Continues (approve_by who) =
        let P = λ (c : Changed). Continues p (settle p c) in
        if_both P (can_transition p.state approved) _ _
          (λ _. if_both P (is_blank (trim who)) _ _ (λ _. unchanged) (λ _. relabelled _ refl refl))
          (λ _. unchanged)
    try_action-Continues (send_at at) =
        if_both (λ (c : Changed). Continues p (settle p c)) (can_transition p.state sent) _ _
          (λ _. relabelled _ refl refl) (λ _. unchanged)
    try_action-Continues (answer_at answer at) =
        if_both (λ (c : Changed). Continues p (settle p c))
          (can_transition p.state (answer_state answer)) _ _ (λ _. relabelled _ refl refl)
          (λ _. unchanged)

  -- Whatever is tried with a proposal whose versions are numbered from 1 without a gap, the last being current, and all
  -- carry one price and template, that stays so: edits, sends and answers only add versions behind the
  -- ones that are there, and none of them changes.
  pub run-Continues :
      (p : Proposal) (actions : List ProposalAction)
      → IsRecorded amount currency template p
      → Continues p (run try_action p actions)
  unfolding run
  run-Continues p [] r = unchanged p r
  run-Continues p (action ∷ actions) r =
      let (once, added, first) = try_action-Continues p r action in
      let (later, more, rest) = run-Continues (try_action p action) actions once in
      (
        later,
        added ++ more,
        rest ∙ ap (λ versions. versions ++ more) first ∙ append_assoc p.versions added more,
      )
