-- ===== src/Acquisition/FollowUp/Queue.antt =====
-- packages/core-acquisition/src/followUp.ts: the queue of the touches that are due.
use ai_client_acquisition_os.Common.{
  ℕ, ◌≡◌, ◌↔◌, refl, sym, ap, ◌∙◌, true, false, List, [], ◌∷◌, some, keep, Memᴰ, mem-keep, keep-mem,
  arith,
}
use ai_client_acquisition_os.Common.Sort.{
  IsSortedBy, sort_by-IsSortedBy, sort_by, mem-sort_by, sort_by-mem,
}
use ai_client_acquisition_os.Acquisition.FollowUp.{
  FollowUpContext, FollowUpProposal, FollowUpDecision, schedule, wait, stop_replied, stop_exhausted,
  stop_unsubscribed, stop_paused, stop_closed, stop_not_contacted, stop_no_channel, is_schedule,
  plan_next_follow_up, due_follow_ups, plan_all, is_scheduled, due_no_later,
}
use ai_client_acquisition_os.Acquisition.FollowUp.Proposed.{Due}
use ai_client_acquisition_os.Acquisition.FollowUp.Decisions.{plan_next_follow_up-Decided}

-- The proposal of one of the contexts.
abbrev PlannedFor : List FollowUpContext → ℕ → FollowUpProposal → Type 0
PlannedFor contexts now p =
    (context : FollowUpContext) × Memᴰ context contexts × (plan_next_follow_up context now ≡ some p)

plan_all_total :
    (contexts : List FollowUpContext) (now : ℕ)
    → (ps : List FollowUpProposal) × (plan_all contexts now ≡ some ps)
      × ((p : FollowUpProposal) → Memᴰ p ps ↔ PlannedFor contexts now p)
unfolding plan_all
plan_all_total [] now = ([], refl, λ p. (λ m. elim m [ ], λ (_, m, _). elim m [ ]))
plan_all_total (context ∷ contexts) now =
    let decided = plan_next_follow_up-Decided context now in
    let (qs, rest, iff) = plan_all_total contexts now in
    (
      decided.0 ∷ qs,
      rw (decided.1, rest) refl,
      λ p. (
        first decided.0 qs decided.1 (λ (p : FollowUpProposal). (iff p).0) p,
        second decided.0 qs decided.1 (λ (p : FollowUpProposal). (iff p).1) p,
      ),
    )
  where
    first :
        (q : FollowUpProposal) (qs : List FollowUpProposal)
        → plan_next_follow_up context now ≡ some q
        → ((p : FollowUpProposal) → Memᴰ p qs → PlannedFor contexts now p)
        → (p : FollowUpProposal) → Memᴰ p (q ∷ qs)
        → PlannedFor (context ∷ contexts) now p
    first q qs e ih p (Memᴰ.head same) = (context, Memᴰ.head refl, e ∙ ap some (sym same))
    first q qs e ih p (Memᴰ.tail m) = let (c, k, f) = ih p m in (c, Memᴰ.tail k, f)

    second :
        (q : FollowUpProposal) (qs : List FollowUpProposal)
        → plan_next_follow_up context now ≡ some q
        → ((p : FollowUpProposal) → PlannedFor contexts now p → Memᴰ p qs)
        → (p : FollowUpProposal) → PlannedFor (context ∷ contexts) now p
        → Memᴰ p (q ∷ qs)
    second q qs e ih p (c, Memᴰ.head same, f) =
        let g : plan_next_follow_up context now ≡ some p = rw (← same) f in Memᴰ.head (cc)
    second q qs e ih p (c, Memᴰ.tail k, f) = Memᴰ.tail (ih p (c, k, f))

is_schedule_iff : (d : FollowUpDecision) → (is_schedule d ≡ true) ↔ (d ≡ schedule)
is_schedule_iff schedule = (λ _. refl, λ _. refl)
is_schedule_iff wait = (λ e. cc, λ e. cc)
is_schedule_iff stop_replied = (λ e. cc, λ e. cc)
is_schedule_iff stop_exhausted = (λ e. cc, λ e. cc)
is_schedule_iff stop_unsubscribed = (λ e. cc, λ e. cc)
is_schedule_iff stop_paused = (λ e. cc, λ e. cc)
is_schedule_iff stop_closed = (λ e. cc, λ e. cc)
is_schedule_iff stop_not_contacted = (λ e. cc, λ e. cc)
is_schedule_iff stop_no_channel = (λ e. cc, λ e. cc)

due_no_later_trans :
    (a b c : FollowUpProposal)
    → due_no_later a b ≡ true
    → due_no_later b c ≡ true
    → due_no_later a c ≡ true
due_no_later_trans a b c h k = ground arith

due_no_later_total : (a b : FollowUpProposal) → due_no_later a b ≡ false → due_no_later b a ≡ true
due_no_later_total a b h = ground arith

scheduled-Due :
    (context : FollowUpContext) (now : ℕ) (p : FollowUpProposal)
    → plan_next_follow_up context now ≡ some p
    → (is_scheduled p ≡ true) ↔ Due context now
scheduled-Due context now p e =
    let (q, f, _, iff, _) = plan_next_follow_up-Decided context now in
    let same : p ≡ q = cc in
    (
      λ s. iff.0 ((is_schedule_iff q.decision).0 (rw same at s)),
      λ d. rw same ((is_schedule_iff q.decision).1 (iff.1 d)),
    )

-- The queue of due touches exists for any leads, has the earliest due first, and holds exactly the
-- proposals of the leads to whom a touch is due, in the sense of `Due`.
pub due_follow_ups-queue :
    (contexts : List FollowUpContext) (now : ℕ)
    → (queue : List FollowUpProposal) × (due_follow_ups contexts now ≡ some queue)
      × IsSortedBy due_no_later queue
      × ((p : FollowUpProposal)
          → Memᴰ p queue ↔ (
              (context : FollowUpContext) × Memᴰ context contexts
              × (plan_next_follow_up context now ≡ some p)
              × Due context now))
unfolding due_follow_ups
due_follow_ups-queue contexts now =
    let (ps, e, iff) = plan_all_total contexts now in
    (
      sort_by due_no_later (keep is_scheduled ps),
      rw e refl,
      sort_by-IsSortedBy due_no_later due_no_later_trans due_no_later_total (keep is_scheduled ps),
      λ p. (
        λ m.
            let (k, s) =
              mem-keep is_scheduled p ps (mem-sort_by due_no_later p (keep is_scheduled ps) m) in
            let (context, c, planned) = (iff p).0 k in
            (context, c, planned, (scheduled-Due context now p planned).0 s),
        λ (context, c, planned, due). sort_by-mem due_no_later p (keep is_scheduled ps) (
            keep-mem is_scheduled p ps ((iff p).1 (context, c, planned))
              ((scheduled-Due context now p planned).1 due)),
      ),
    )
