-- ===== src/MetaEvents/Repository/History.antt =====
-- Any sequence of the queue's statements, by any workers in any order.
use ai_client_acquisition_os.Common.{ℕ, ◌≡◌, refl, Bool, List, [], ◌∷◌, String, arith, ◌∙◌}
use ai_client_acquisition_os.Common.Rows.{Pairs, Pairs-refl}
use ai_client_acquisition_os.MetaEvents.Repository.{
  Status, pending, processing, sent, failed, dead_letter, MetaEventRow, ClaimInput, CompleteInput,
  RetryInput, DeadLetterInput, AmbiguousSendInput, claim, mark_sent, mark_for_retry,
  mark_dead_letter, record_ambiguous_send, release_expired_leases,
}
use ai_client_acquisition_os.MetaEvents.Repository.Keys.{UniqueIds}
use ai_client_acquisition_os.MetaEvents.Repository.Moves.{
  Arrow, stay, lease, deliver, back, bury, Move, SameEvent, claim-Moves, mark_sent-Moves,
  mark_for_retry-Moves, mark_dead_letter-Moves, record_ambiguous_send-Moves,
  release_expired_leases-Moves, UniqueIds-Moves,
}

-- One statement, with the arguments that some worker gave it.
pub data Statement : Type 0 where
  claims : (String → Bool) → ℕ → ClaimInput → Statement
  sends : CompleteInput → Statement
  retries : RetryInput → Statement
  buries : DeadLetterInput → Statement
  annotates : AmbiguousSendInput → Statement
  releases : ℕ → Statement

unfoldable pub execute : Statement → List MetaEventRow → List MetaEventRow
execute (claims locked db_now input) rows = (claim locked db_now input rows).0
execute (sends input) rows = (mark_sent input rows).0
execute (retries input) rows = (mark_for_retry input rows).0
execute (buries input) rows = (mark_dead_letter input rows).0
execute (annotates input) rows = (record_ambiguous_send input rows).0
execute (releases now) rows = (release_expired_leases now rows).0

unfoldable pub execute_all : List Statement → List MetaEventRow → List MetaEventRow
unfolding execute
execute_all [] rows = rows
execute_all (s ∷ statements) rows = execute_all statements (execute s rows)

execute-Moves :
    (s : Statement) (rows : List MetaEventRow) → UniqueIds rows → Pairs Move rows (execute s rows)
unfolding execute
execute-Moves (claims locked db_now input) rows u = claim-Moves locked db_now input rows u
execute-Moves (sends input) rows u = mark_sent-Moves input rows
execute-Moves (retries input) rows u = mark_for_retry-Moves input rows
execute-Moves (buries input) rows u = mark_dead_letter-Moves input rows
execute-Moves (annotates input) rows u = record_ambiguous_send-Moves input rows
execute-Moves (releases now) rows u = release_expired_leases-Moves now rows

-- SENT, FAILED and DEAD_LETTER.
abbrev pub IsTerminal : Status → Type 0
IsTerminal pending = ⊥
IsTerminal processing = ⊥
IsTerminal sent = Unit
IsTerminal failed = Unit
IsTerminal dead_letter = Unit

-- The event's own columns are as they were, and a terminal status stays.
pub record Settled (r s : MetaEventRow) : Type 0 where
  pub same : SameEvent r s
  pub final : IsTerminal r.status → s.status ≡ r.status

terminal-Arrow : {a b : Status} → Arrow a b → IsTerminal a → b ≡ a
terminal-Arrow stay t = refl
terminal-Arrow lease t = elim t [ ]
terminal-Arrow deliver t = elim t [ ]
terminal-Arrow back t = elim t [ ]
terminal-Arrow bury t = elim t [ ]

Settled-refl : (r : MetaEventRow) → Settled r r
Settled-refl r = record { same = ground arith; final = λ t. refl }

Settled-after : (r s t : MetaEventRow) → Move r s → Settled s t → Settled r t
Settled-after r s t mv later = record {
  same = ground arith;
  final = λ h. let kept = terminal-Arrow mv.arrow h in later.final (rw kept h) ∙ kept;
}

Settled-along :
    (rows mid final : List MetaEventRow)
    → Pairs Move rows mid
    → Pairs Settled mid final
    → Pairs Settled rows final
Settled-along [] [] [] p q = tt
Settled-along (x ∷ xs) (y ∷ ys) (z ∷ zs) p q =
    (Settled-after x y z p.0 q.0, Settled-along xs ys zs p.1 q.1)
Settled-along [] [] (z ∷ zs) p q = elim q [ ]
Settled-along [] (y ∷ ys) zs p q = elim p [ ]
Settled-along (x ∷ xs) [] zs p q = elim p [ ]
Settled-along (x ∷ xs) (y ∷ ys) [] p q = elim q [ ]

-- After any statements of any workers the table has the same rows in the same order, each with the
-- event that it had; a row that was SENT, FAILED or DEAD_LETTER still has that status. Ids are
-- unique.
pub execute_all-Settled :
    (statements : List Statement) (rows : List MetaEventRow)
    → UniqueIds rows
    → Pairs Settled rows (execute_all statements rows)
unfolding execute_all
execute_all-Settled [] rows u = Pairs-refl Settled Settled-refl rows
execute_all-Settled (s ∷ statements) rows u =
    let next = execute s rows in
    let moves = execute-Moves s rows u in
    Settled-along rows next _ moves
      (execute_all-Settled statements next (UniqueIds-Moves rows next moves u))
