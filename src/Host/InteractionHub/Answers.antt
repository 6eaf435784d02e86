-- ===== src/Host/InteractionHub/Answers.antt =====
-- Every prompt is answered once.
use meepo.Prelude.{
  ◌≡◌, ◌≢◌, refl, ◌∙◌, String, Option, none, some, List, [], ◌∷◌, ◌++◌, eq_iff, eq_refl, ok, err,
  arith, subst,
}
use meepo.Prelude.Dict
use meepo.Core.Interaction.{PermissionAnswer}
use meepo.Host.InteractionHub.{
  InteractionHub, PendingInteraction, AnswerError, answer, ask, publish_pending, take_entry,
  answer_entry,
}

removed :
    {V : Type 0} (m : List (String × PendingInteraction V)) (k : String)
    → Dict.get (Dict.remove m k) k ≡ none
removed m k = Dict.get-remove m k k ∙ rw (eq_refl k) refl

inserted :
    {V : Type 0} (m : List (String × PendingInteraction V)) (k : String) (p : PendingInteraction V)
    → Dict.get (Dict.insert m k p) k ≡ some p
inserted m k p = Dict.get-insert m k k p ∙ rw (eq_refl k) refl

-- A key that is inserted and removed again leaves the others.
other :
    {V : Type 0} (m : List (String × PendingInteraction V)) (k j : String)
    (p : PendingInteraction V)
    → k ≢ j
    → Dict.get (Dict.remove (Dict.insert m k p) k) j ≡ Dict.get m j
other m k j p n =
    ground (arith, n, eq_iff k j, Dict.get-remove (Dict.insert m k p) k j, Dict.get-insert m k j p)

module _ {V : Type 0} (show_answer : PermissionAnswer → String) where
  -- Once a prompt is answered, a second answer to it is refused, whatever the two are.
  pub answer-answer :
      (hub hub' : InteractionHub V) (id : String) (a b : PermissionAnswer)
      → answer show_answer hub id a ≡ ok hub'
      → answer show_answer hub' id b ≡ err (AnswerError.not_found id)
  unfolding answer publish_pending
  answer-answer hub hub' id a b h = go (Dict.get hub.pending id) h
    where
      go :
          (o : Option (PendingInteraction V))
          → answer_entry show_answer hub id a o ≡ ok hub'
          → answer_entry show_answer hub' id b (Dict.get hub'.pending id)
            ≡ err (AnswerError.not_found id)
      go none k = cc k
      go (some p) k =
          let q : publish_pending (take_entry show_answer hub id a p) p.ctx.session_id ≡ hub' =
            cc k in
          subst
            (λ h.
              answer_entry show_answer h id b (Dict.get h.pending id)
              ≡ err (AnswerError.not_found id))
            q (rw (removed hub.pending id) refl)

  -- An answer to a prompt that waits succeeds. It sends just that answer, leaves every other prompt
  -- waiting as it was, and takes its own away.
  pub answer-ask :
      (hub : InteractionHub V) (id : String) (p : PendingInteraction V) (a : PermissionAnswer)
      → (hub' : InteractionHub V) × (answer show_answer (ask hub id p) id a ≡ ok hub')
        × (hub'.answered ≡ hub.answered ++ (id, a) ∷ [])
        × (Dict.get hub'.pending id ≡ none)
        × ((j : String) → id ≢ j → Dict.get hub'.pending j ≡ Dict.get hub.pending j)
  unfolding answer ask publish_pending
  answer-ask hub id p a = (
    publish_pending (take_entry show_answer (ask hub id p) id a p) p.ctx.session_id,
    rw (inserted hub.pending id p) refl,
    refl,
    removed (Dict.insert hub.pending id p) id,
    λ j n. other hub.pending id j p n,
  )
