-- ===== src/Host/Turns/Race.antt =====
-- Two starts of one session whose awaits interleave: `begin_turn` looks at the active turns at its
-- beginning and enters its own only at its end.
use meepo.Prelude.{
  ℕ, suc, ◌≡◌, refl, String, Bool, true, false, List, [], ◌∷◌, Result, ok, err, Bool-cases,
  Option-cases, inl, inr,
}
use meepo.Prelude.{is_some}
use meepo.Storage.{RootAdmissionRecord}
use meepo.Host.Turns.{
  TurnCoordinator, TurnError, TurnStarted, Texts, check_active, check_session, prepare, extend,
  activate, begin_turn, turn_of, admit,
}
use meepo.Host.Turns.Admission.{Admits}
use meepo.Prelude.Dict.{get}
use meepo.Storage.Catalog.{get_session}
use meepo.Storage.Admissions.{read_admission_tip}
use meepo.Host.Turns.{tip_poisoned}

-- where a call of `begin_turn` stands
pub data Stage : Type 0 where
  checking looking_up reading : Stage
  extending : RootAdmissionRecord → TurnStarted → Stage
  registering : TurnStarted → Stage
  running : TurnStarted → Stage
  refused : TurnError → Stage

abbrev proceed : Stage → Result (Unit {0}) TurnError → Stage
proceed next (ok u) = next
proceed next (err e) = refused e

abbrev prepared : Result (RootAdmissionRecord × TurnStarted) TurnError → Stage
prepared (ok p) = extending p.0 p.1
prepared (err e) = refused e

abbrev pub in_turns : List Bool
in_turns = true ∷ false ∷ true ∷ false ∷ true ∷ false ∷ true ∷ false ∷ true ∷ false ∷ []

abbrev pub ended : Stage → TurnCoordinator → Result (TurnCoordinator × TurnStarted) TurnError
ended (running t) k = ok (k, t)
ended (refused e) k = err e
ended stage k = err TurnError.session_busy

abbrev pub stages_of : Stage × Stage × TurnCoordinator → Stage × Stage
stages_of (a, b, k) = (a, b)

abbrev first_end :
    Stage × Stage × TurnCoordinator → Result (TurnCoordinator × TurnStarted) TurnError
first_end (a, b, k) = ended a k

abbrev alone : List Bool
alone = true ∷ true ∷ true ∷ true ∷ true ∷ []

module _ {V : Type 0} (texts : Texts V) where
  -- the call up to its next await
  unfoldable pub advance : ℕ → String → String → Stage → TurnCoordinator → Stage × TurnCoordinator
  unfolding check_active check_session prepare extend
  advance now sid content checking k = (proceed looking_up (check_active sid k), k)
  advance now sid content looking_up k = (proceed reading (check_session sid k), k)
  advance now sid content reading k = (prepared (prepare texts now sid content k), k)
  advance now sid content (extending rec t) k = (registering t, extend rec k)
  advance now sid content (registering t) k = (running t, activate sid k)
  advance now sid content stage k = (stage, k)

  -- Two calls; `true` lets the first go on.
  abbrev pub interleave :
      ℕ
      → String
      → String
      → String
      → List Bool
      → Stage × Stage × TurnCoordinator
      → Stage × Stage × TurnCoordinator
  interleave now sid content content' [] s = s
  interleave now sid content content' (true ∷ rest) (a, b, k) =
      let r = advance now sid content a k in interleave now sid content content' rest (r.0, b, r.1)
  interleave now sid content content' (false ∷ rest) (a, b, k) =
      let r = advance now sid content' b k in interleave now sid content content' rest (a, r.0, r.1)

  -- On a session that admits a turn, two starts that go on in turns are both admitted, to the same
  -- turn and run.
  pub interleave-both :
      (now : ℕ) (sid content content' : String) (k : TurnCoordinator)
      → Admits sid k
      → let t = turn_of sid (suc (k.messages sid)) in
        stages_of (interleave now sid content content' in_turns (checking, checking, k))
        ≡ (running t, running t)
  unfolding advance check_active check_session prepare extend
  interleave-both now sid content content' k a = rw (a.idle, a.found, a.live, a.sound) refl

  -- A start that nothing interrupts is `begin_turn`.
  interleave-begin_turn :
      (now : ℕ) (sid content content' : String) (b : Stage) (k : TurnCoordinator)
      → first_end (interleave now sid content content' alone (checking, b, k))
        ≡ begin_turn texts now sid content k
  unfolding advance begin_turn admit check_active check_session prepare extend
  interleave-begin_turn now sid content content' b k =
      elim (Bool-cases (is_some (get k.active sid))) [
        | inl h ↦ rw h refl
        | inr h ↦ rw h (elim (Option-cases (get_session k.store sid)) [
          | inl n ↦ rw n refl
          | inr (r, f) ↦ rw f (elim (Bool-cases r.is_archived) [
            | inl x ↦ rw x refl
            | inr x ↦ rw x (elim (Bool-cases (tip_poisoned (read_admission_tip k.store sid))) [
              | inl p ↦ rw p refl
              | inr p ↦ rw p refl
            ])
          ])
        ])
      ]
