-- ===== src/Host/InteractionHub/Views.antt =====
-- What the continuity coordinator shows of the prompts.
use meepo.Prelude.{
  ◌≡◌, ◌≢◌, ◌⊎◌, refl, ◌∙◌, ap, sym, String, Bool, false, true, none, some, List, [], ◌∷◌, ◌++◌,
  ◌==◌, eq_iff, eq_refl, if◌then◌else◌, ok, arith, Bool-cases, inl, inr, is_some,
}
use meepo.Prelude.Dict
use meepo.Core.Interaction.{PermissionAnswer}
use meepo.Host.InteractionHub.{
  InteractionHub, PendingInteraction, answer, ask, publish_pending, take_entry, register, views,
  pending_for_session, set_pending, set_views,
}

module _ {V : Type 0} where
  -- Of each session that the coordinator keeps state of, it shows just the prompts that wait.
  abbrev pub IsCurrent : InteractionHub V → Type 0
  IsCurrent hub =
      (s : String) (vs : List V) → Dict.get hub.published s ≡ some vs → vs ≡ views hub.pending s

  push_view :
      (b : Bool) (v : V) (vs : List V) (w : V)
      → (if b then v ∷ vs ++ w ∷ [] else vs ++ w ∷ []) ≡ (if b then v ∷ vs else vs) ++ w ∷ []
  push_view true v vs w = refl
  push_view false v vs w = refl

  views-insert :
      (m : List (String × PendingInteraction V)) (id : String) (p : PendingInteraction V)
      (s : String)
      → Dict.get m id ≡ none
      → p.ctx.session_id ≢ s
      → views (Dict.insert m id p) s ≡ views m s
  unfolding views Dict.insert Dict.get
  views-insert [] id p s h n = ground (arith, n, eq_iff p.ctx.session_id s)
  views-insert ((j, q) ∷ m) id p s h n = elim (Bool-cases (j == id)) [
    | inl k ↦ cc (rw k at h)
    | inr k ↦ rw (k, views-insert m id p s (rw k at h) n) refl
  ]

  -- a prompt that is added and taken away again leaves the views
  views-remove :
      (m : List (String × PendingInteraction V)) (id : String) (p : PendingInteraction V)
      (s : String)
      → Dict.get m id ≡ none
      → views (Dict.remove (Dict.insert m id p) id) s ≡ views m s
  unfolding views Dict.remove Dict.insert Dict.get
  views-remove [] id p s h = rw (eq_refl id) refl
  views-remove ((j, q) ∷ m) id p s h = elim (Bool-cases (j == id)) [
    | inl k ↦ cc (rw k at h)
    | inr k ↦ rw (k, k, views-remove m id p s (rw k at h)) refl
  ]

  views-added :
      (m : List (String × PendingInteraction V)) (id : String) (p : PendingInteraction V)
      → Dict.get m id ≡ none
      → views (Dict.insert m id p) p.ctx.session_id ≡ views m p.ctx.session_id ++ p.view ∷ []
  unfolding views Dict.insert Dict.get
  views-added [] id p h = rw (eq_refl p.ctx.session_id) refl
  views-added ((j, q) ∷ m) id p h = elim (Bool-cases (j == id)) [
    | inl k ↦ cc (rw k at h)
    | inr k ↦
        rw (k, views-added m id p (rw k at h))
          (push_view (q.ctx.session_id == p.ctx.session_id) q.view (views m p.ctx.session_id)
            p.view)
  ]

  kept_some :
      (shown : List (String × List V)) (t s : String) (vs : List V)
      → t ≡ s
      → is_some (Dict.get shown t) ≡ false
      → Dict.get shown s ≡ some vs
      → ⊥
  kept_some shown t s vs q k h = cc

  -- what is shown of a session once the views of it, or of another, are set
  shown-set_views :
      (shown : List (String × List V)) (t s : String) (ws vs : List V)
      → Dict.get (set_views shown t ws) s ≡ some vs
      → ((t ≡ s) × (vs ≡ ws)) ⊎ (((t == s) ≡ false) × (Dict.get shown s ≡ some vs))
  unfolding set_views
  shown-set_views shown t s ws vs h = elim (Bool-cases (is_some (Dict.get shown t))) [
    | inl k ↦
        let h' = sym (Dict.get-insert shown t s ws) ∙ (rw k at h) in
        elim (Bool-cases (t == s)) [
          | inl e ↦ let g = (rw e at h') in inl ((eq_iff t s).0 e, sym (cc g))
          | inr e ↦ inr (e, rw e at h')
        ]
    | inr k ↦ elim (Bool-cases (t == s)) [
      | inl e ↦ let q = (eq_iff t s).0 e in absurd (kept_some shown t s vs q k (rw k at h))
      | inr e ↦ inr (e, rw k at h)
    ]
  ]

  set_views-same :
      (shown : List (String × List V)) (t : String) (ws : List V)
      → is_some (Dict.get shown t) ≡ true
      → Dict.get (set_views shown t ws) t ≡ some ws
  unfolding set_views
  set_views-same shown t ws k = rw (k, Dict.get-insert shown t t ws, eq_refl t) refl

  -- A new prompt, published with nothing in between, keeps the views current.
  pub ask-IsCurrent :
      (hub : InteractionHub V) (id : String) (p : PendingInteraction V)
      → Dict.get hub.pending id ≡ none
      → IsCurrent hub
      → IsCurrent (ask hub id p)
  unfolding ask publish_pending pending_for_session
  ask-IsCurrent hub id p h c = λ s vs e.
      elim (shown-set_views hub.published p.ctx.session_id s
        (views (Dict.insert hub.pending id p) p.ctx.session_id) vs e) [
          | inl (q, r) ↦ r ∙ ap (views (Dict.insert hub.pending id p)) q
          | inr (n, k) ↦
              c s vs k
              ∙ sym
                  (views-insert hub.pending id p s h (ground (arith, n, eq_iff p.ctx.session_id s)))
        ]

  -- the hub behind the answer of a prompt whose views are not yet set
  abbrev answered_hub :
      (PermissionAnswer → String)
      → InteractionHub V
      → String
      → PendingInteraction V
      → PermissionAnswer
      → InteractionHub V
  answered_hub show_answer hub id p a =
      publish_pending (take_entry show_answer (register hub id p) id a p) p.ctx.session_id

  -- Let the coordinator keep state of a session that no prompt waits in. A new prompt in it is answered between the moment when the views are read for its publication and the
  -- moment when they are set: then the coordinator goes on showing a prompt that is answered.
  pub stale_view :
      (show_answer : PermissionAnswer → String) (hub : InteractionHub V) (id : String)
      (p : PendingInteraction V) (a : PermissionAnswer)
      → Dict.get hub.pending id ≡ none
      → views hub.pending p.ctx.session_id ≡ []
      → is_some (Dict.get hub.published p.ctx.session_id) ≡ true
      → let read = pending_for_session (register hub id p) p.ctx.session_id in
        (hub' : InteractionHub V) × (answer show_answer (register hub id p) id a ≡ ok hub')
        × (views hub'.pending p.ctx.session_id ≡ [])
        × (Dict.get (set_pending hub' p.ctx.session_id read).published p.ctx.session_id
            ≡ some (p.view ∷ []))
  unfolding answer publish_pending pending_for_session
  stale_view show_answer hub id p a h e o = (
    answered_hub show_answer hub id p a,
    rw (Dict.get-insert hub.pending id id p, eq_refl id) refl,
    views-remove hub.pending id p p.ctx.session_id h ∙ e,
    (let t = p.ctx.session_id in
        let read = pending_for_session (register hub id p) t in
        let shown = set_views hub.published t in
        set_views-same (shown (views (Dict.remove (Dict.insert hub.pending id p) id) t)) t read
          (rw (set_views-same hub.published t _ o) refl)
        ∙ ap some (views-added hub.pending id p h ∙ rw e refl)),
  )
