-- ===== src/Common/Runs.antt =====
-- Runs of actions, and what must have happened before a state is cleared.
use mathlib.Core.Path.{◌≡◌, refl, ap}
use mathlib.Core.Bool.{Bool, true}
use mathlib.Core.Logic.{inl, inr, ◌⊎◌}
use mathlib.Core.List.{List, [], ◌∷◌, ◌++◌}

module _ {ℓ κ} {S : Type ℓ} {A : Type κ} (step : S → A → S) where
  unfoldable pub run : S → List A → S
  run s [] = s
  run s (action ∷ actions) = run (step s action) actions

module _ {ℓ κ} {S : Type ℓ} {A : Type κ} (step : S → A → S) (cleared : S → Bool)
    (Same : S → S → Type 0) (Granted : S → A → S → Type 0) where
  -- Some action of the run grants what the run ends in.
  abbrev pub GrantedIn : S → List A → S → Type κ
  GrantedIn s actions final =
      (earlier later : List A) × (action : A) × (actions ≡ earlier ++ (action ∷ later))
      × Granted (run step s earlier) action final

  granted_later :
      (s : S) (action : A) (actions : List A) (final : S)
      → GrantedIn (step s action) actions final
      → GrantedIn s (action ∷ actions) final
  unfolding run
  granted_later s action actions final (earlier, later, grant, split, granted) =
      (action ∷ earlier, later, grant, ap (λ rest. action ∷ rest) split, granted)

  -- A step that clears finds the state cleared and keeps it the same, or grants it.
  module _ (same_refl : (s : S) → Same s s)
      (same_trans : (s t u : S) → Same s t → Same t u → Same s u)
      (granted_same : (s : S) (a : A) (t u : S) → Granted s a t → Same t u → Granted s a u)
      (step_clears : (s : S) (a : A)
        → cleared (step s a) ≡ true
        → ((cleared s ≡ true) × Same s (step s a)) ⊎ Granted s a (step s a)) where
    pub run-GrantedIn :
        (s : S) (actions : List A)
        → cleared (run step s actions) ≡ true
        → ((cleared s ≡ true) × Same s (run step s actions))
          ⊎ GrantedIn s actions (run step s actions)
    unfolding run
    run-GrantedIn s [] c = inl (c, same_refl s)
    run-GrantedIn s (action ∷ actions) c =
        let next = step s action in
        let final = run step next actions in
        elim (run-GrantedIn next actions c) [
          | inr found ↦ inr (granted_later s action actions final found)
          | inl (there, same) ↦ elim (step_clears s action there) [
            | inl (before, kept) ↦ inl (before, same_trans s next final kept same)
            | inr grant ↦
                inr ([], actions, action, refl, granted_same s action next final grant same)
          ]
        ]
