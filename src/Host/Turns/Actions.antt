-- ===== src/Host/Turns/Actions.antt =====
-- Sequences of calls on the turn coordinator and ends of drain tasks: which of them touch the active turn of
-- a session.
use meepo.Prelude.{Result}
use meepo.Prelude.{
  ℕ, ◌≡◌, refl, String, Bool, true, false, List, [], ◌∷◌, is_some, ◌==◌, ◌⊎◌, All, ok, err,
  Bool-cases, Option-cases, inl, inr,
}
use meepo.Prelude.Dict.{get, insert, get-insert, get-remove}
use meepo.Storage.Catalog.{get_session}
use meepo.Storage.Admissions.{read_admission_tip}
use meepo.Host.Turns.{TurnError}
use meepo.Host.Turns.{
  prepare, extend, TurnCoordinator, Texts, check_active, check_session, tip_poisoned, admit,
  begin_turn, release, stop_turn,
}

pub data TurnAction : Type 0 where
  -- the clock, the session, the content
  start_action : ℕ → String → String → TurnAction
  stop_action release_action : String → TurnAction

abbrev state_of :
    {A : Type 0} → TurnCoordinator → Result (TurnCoordinator × A) TurnError → TurnCoordinator
state_of k (ok r) = r.0
state_of k (err e) = k

-- every action but a release of the session
abbrev pub Spares : String → TurnAction → Type 0
Spares sid (release_action j) = (j == sid) ≡ false
Spares sid a = Unit

insert-active :
    (active : List (String × Bool)) (j sid : String) (b : Bool)
    → is_some (get active sid) ≡ true
    → is_some (get (insert active j b) sid) ≡ true
insert-active active j sid b h = elim (Bool-cases (j == sid)) [
  | inl k ↦ rw (get-insert active j sid b, k) refl
  | inr k ↦ rw (get-insert active j sid b, k) h
]

module _ {V : Type 0} (texts : Texts V) where
  -- one call, or the end of a drain task; a call that is refused changes nothing
  abbrev pub act : TurnAction → TurnCoordinator → TurnCoordinator
  act (start_action now sid content) k = state_of k (begin_turn texts now sid content k)
  act (stop_action sid) k = state_of k (stop_turn sid k)
  act (release_action sid) k = release sid k

  abbrev pub act_all : List TurnAction → TurnCoordinator → TurnCoordinator
  act_all [] k = k
  act_all (a ∷ rest) k = act_all rest (act a k)

  -- a start leaves the active turns alone, or adds its own
  start-leaves :
      (now : ℕ) (j content : String) (k : TurnCoordinator)
      → ((act (start_action now j content) k).active ≡ k.active)
        ⊎ ((act (start_action now j content) k).active ≡ insert k.active j false)
  unfolding begin_turn check_active check_session admit prepare extend
  start-leaves now j content k = elim (Option-cases (get k.active j)) [
    | inr (c, e) ↦ rw e (inl refl)
    | inl e ↦ elim (Option-cases (get_session k.store j)) [
      | inl n ↦ rw (e, n) (inl refl)
      | inr (s, f) ↦ elim (Bool-cases s.is_archived) [
        | inl x ↦ rw (e, f, x) (inl refl)
        | inr x ↦ elim (Bool-cases (tip_poisoned (read_admission_tip k.store j))) [
          | inl p ↦ rw (e, f, x, p) (inl refl)
          | inr p ↦ rw (e, f, x, p) (inr refl)
        ]
      ]
    ]
  ]

  stop-leaves :
      (j : String) (k : TurnCoordinator)
      → ((act (stop_action j) k).active ≡ k.active)
        ⊎ ((act (stop_action j) k).active ≡ insert k.active j true)
  unfolding stop_turn
  stop-leaves j k = elim (Option-cases (get k.active j)) [
    | inl e ↦ rw e (inl refl)
    | inr (c, e) ↦ rw e (inr refl)
  ]

  -- the session stays active under every action but its own release
  act-active :
      (a : TurnAction) (k : TurnCoordinator) (sid : String)
      → Spares sid a
      → is_some (get k.active sid) ≡ true
      → is_some (get ((act a k).active) sid) ≡ true
  unfolding release
  act-active (start_action now j content) k sid n h = elim (start-leaves now j content k) [
    | inl e ↦ rw e h
    | inr e ↦ rw e (insert-active k.active j sid false h)
  ]
  act-active (stop_action j) k sid n h = elim (stop-leaves j k) [
    | inl e ↦ rw e h
    | inr e ↦ rw e (insert-active k.active j sid true h)
  ]
  act-active (release_action j) k sid n h = rw (get-remove k.active j sid, n) h

  pub act_all-active :
      (actions : List TurnAction) (k : TurnCoordinator) (sid : String)
      → All (Spares sid) actions
      → is_some (get k.active sid) ≡ true
      → is_some (get ((act_all actions k).active) sid) ≡ true
  act_all-active [] k sid n h = h
  act_all-active (a ∷ rest) k sid n h =
      act_all-active rest (act a k) sid n.1 (act-active a k sid n.0 h)
