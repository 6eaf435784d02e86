-- ===== src/Host/Turns/Admission.antt =====
-- One turn at a time, where the calls on a session follow one another: which starts are admitted, and
-- what an admission leaves.
use meepo.Prelude.{Result}
use meepo.Prelude.{
  ℕ, suc, ◌≡◌, refl, String, Bool, true, false, none, some, List, [], ◌∷◌, is_some, eq_iff, ◌≢◌,
  ◌++◌, All, Option, sym, subst, arith, ok, err, Bool-cases, Option-cases, inl, inr, eq_refl,
}
use meepo.Prelude.Dict.{get, insert, get-insert, get-remove}
use mathlib.Core.Option
use meepo.Prelude.Text.{join, show}
use meepo.Storage.{SessionRecord, RootAdmissionRecord}
use meepo.Storage.Table.{insert_or_replace}
use meepo.Storage.Catalog.{get_session}
use meepo.Storage.Admissions.{read_admission_tip, extend_admission_chain}
use meepo.Host.Turns.{TurnError}
use meepo.Host.Turns.{
  turn_of, tip_turn, prepare, extend, TurnCoordinator, TurnStarted, Texts, session_busy,
  check_active, check_session, tip_poisoned, admission_record, admit, activate, begin_turn, release,
}
use meepo.Host.Turns.Actions.{TurnAction, Spares, act_all, act_all-active}

-- what `begin_turn` demands of the state
pub record Admits (sid : String) (k : TurnCoordinator) : Type 0 where
  pub idle : get k.active sid ≡ none
  pub session : SessionRecord
  pub found : get_session k.store sid ≡ some session
  pub live : session.is_archived ≡ false
  pub sound : tip_poisoned (read_admission_tip k.store sid) ≡ false

registered :
    (active : List (String × Bool)) (sid : String) → get (insert active sid false) sid ≡ some false
registered active sid = rw (get-insert active sid sid false, eq_refl sid) refl

abbrev ok_start : TurnCoordinator × TurnStarted → Result (TurnCoordinator × TurnStarted) TurnError
ok_start r = ok r

same_start :
    {a : TurnCoordinator × TurnStarted} (r : TurnCoordinator × TurnStarted)
    → ok_start a ≡ ok_start r
    → r ≡ a
same_start r h = cc h

module _ {V : Type 0} (texts : Texts V) where
  -- the state behind an admitted turn
  abbrev pub admitted : ℕ → String → String → TurnCoordinator → TurnCoordinator
  admitted now sid content k = activate sid (record k {
    store =
        extend_admission_chain
          (admission_record texts now sid content (suc (k.messages sid))
            (read_admission_tip k.store sid))
          k.store;
  })

  begin_turn-admitted :
      (now : ℕ) (sid content : String) (k : TurnCoordinator)
      → Admits sid k
      → begin_turn texts now sid content k
        ≡ ok (admitted now sid content k, turn_of sid (suc (k.messages sid)))
  unfolding begin_turn check_active check_session admit prepare extend
  begin_turn-admitted now sid content k a = rw (a.idle, a.found, a.live, a.sound) refl

  begin_turn-busy :
      (now : ℕ) (sid content : String) (k : TurnCoordinator)
      → is_some (get k.active sid) ≡ true
      → begin_turn texts now sid content k ≡ err session_busy
  unfolding begin_turn check_active
  begin_turn-busy now sid content k h = rw h refl

  -- A start that finds the session live, idle and sound is admitted. Whatever starts, stops and releases
  -- of any session follow one after another, other than a release of this one, a start of the session is
  -- then refused as busy. A release makes this session idle again, and leaves the turns of the others as they are.
  pub begin_turn-exclusive :
      (now now' : ℕ) (sid content content' : String) (k : TurnCoordinator)
      (actions : List TurnAction)
      → Admits sid k
      → All (Spares sid) actions
      → (k1 : TurnCoordinator) × (begin_turn texts now sid content k
          ≡ ok (k1, turn_of sid (suc (k.messages sid))))
        × (begin_turn texts now' sid content' (act_all texts actions k1) ≡ err session_busy)
        × (get ((release sid (act_all texts actions k1)).active) sid ≡ none)
        × ((j : String)
            → sid ≢ j
            → get ((release sid (act_all texts actions k1)).active) j
              ≡ get ((act_all texts actions k1).active) j)
  unfolding release
  begin_turn-exclusive now now' sid content content' k actions a n =
      let k1 = admitted now sid content k in
      let k2 = act_all texts actions k1 in
      (
        k1,
        begin_turn-admitted now sid content k a,
        begin_turn-busy now' sid content' k2
            (act_all-active texts actions k1 sid n (rw (registered k.active sid) refl)),
        rw (get-remove k2.active sid sid, eq_refl sid) refl,
        λ j ne. ground (arith, get-remove k2.active sid j, eq_iff sid j, ne),
      )

  -- what an admission does
  pub record Extends (now : ℕ) (sid content : String) (k : TurnCoordinator)
      (r : TurnCoordinator × TurnStarted) : Type 0 where
    pub row : RootAdmissionRecord
    pub before : List RootAdmissionRecord
    -- the row is extended to the chain of the table, and names the turn that is answered
    pub extended : r.0.store ≡ extend_admission_chain row k.store
    pub chained : r.0.store.root_admission_chain ≡ before ++ row ∷ []
    pub session : row.session_id ≡ sid
    pub turn : row.turn_id ≡ r.1.turn_id
    pub run : row.run_id ≡ r.1.run_id
    pub time : row.admitted_at ≡ now
    pub content_kept :
        row.identity_json
        ≡ texts.identity_json row.turn_id row.run_id
            (join "inv-" (show (suc (k.messages sid))))
            content
    -- it follows the tip, and is sound
    pub follows :
        row.previous_root_turn_id ≡ Option.map (λ t. t.turn_id) (read_admission_tip k.store sid)
    pub unpoisoned : row.poisoned ≡ false
    -- the answer
    pub answered : r.1 ≡ record {
      session_id = sid;
      turn_id = join "turn-" (show (suc (k.messages sid)));
      run_id = join "run-" (show (suc (k.messages sid)));
      status = "running";
    }
    -- the turn is active, and the other sessions are as before
    pub active : get r.0.active sid ≡ some false
    pub others : (j : String) → sid ≢ j → get r.0.active j ≡ get k.active j

  tip_turn-map : (o : Option RootAdmissionRecord) → tip_turn o ≡ Option.map (λ t. t.turn_id) o
  tip_turn-map none = refl
  tip_turn-map (some t) = refl

  admitted-Extends :
      (now : ℕ) (sid content : String) (k : TurnCoordinator)
      → Extends now sid content k (admitted now sid content k, turn_of sid (suc (k.messages sid)))
  unfolding extend_admission_chain insert_or_replace
  admitted-Extends now sid content k = record {
    row =
        admission_record texts now sid content (suc (k.messages sid))
          (read_admission_tip k.store sid);
    before = _;
    extended = refl;
    chained = refl;
    session = refl;
    turn = refl;
    run = refl;
    time = refl;
    content_kept = refl;
    follows = tip_turn-map (read_admission_tip k.store sid);
    unpoisoned = refl;
    answered = refl;
    active = registered k.active sid;
    others = λ j ne. ground (arith, get-insert k.active sid j false, eq_iff sid j, ne);
  }

  -- A start that is admitted has found the session in the catalog, not archived, without an active turn,
  -- and with a tip of its admission chain that is not poisoned. It has put one row behind the chain,
  -- which carries the turn that it answers, follows the tip, and is not poisoned; its turn is active,
  -- and the turns of the other sessions are as before.
  pub begin_turn-Admits :
      (now : ℕ) (sid content : String) (k : TurnCoordinator) (r : TurnCoordinator × TurnStarted)
      → begin_turn texts now sid content k ≡ ok r
      → Admits sid k × Extends now sid content k r
  unfolding begin_turn check_active check_session admit prepare extend
  begin_turn-Admits now sid content k r h = elim (Option-cases (get k.active sid)) [
    | inr (c, e) ↦ cc (rw e at h)
    | inl e ↦ elim (Option-cases (get_session k.store sid)) [
      | inl n ↦ cc (rw (e, n) at h)
      | inr (s, f) ↦ elim (Bool-cases s.is_archived) [
        | inl x ↦ cc (rw (e, f, x) at h)
        | inr x ↦ elim (Bool-cases (tip_poisoned (read_admission_tip k.store sid))) [
          | inl p ↦ cc (rw (e, f, x, p) at h)
          | inr p ↦ (
            record { idle = e; session = s; found = f; live = x; sound = p },
            subst (Extends now sid content k) (sym (same_start r (rw (e, f, x, p) at h)))
                (admitted-Extends now sid content k),
          )
        ]
      ]
    ]
  ]
