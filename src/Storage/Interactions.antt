-- ===== src/Storage/Interactions.antt =====
-- crates/meepo-storage/src/lib.rs: the recorded permission requests and their outcomes, as the store's
-- `InteractionStore`.
use meepo.Prelude.{
  ◌≡◌, refl, ◌∙◌, String, Bool, true, List, [], ◌∷◌, ◌++◌, any, Bool-cases, inl, inr, arith, ◌==◌,
  eq_refl,
}
use meepo.Prelude.Int.{ℤ}
use meepo.Storage.{SqliteStore, InteractionRequestRow, InteractionOutcomeRow}
use meepo.Storage.Table.{insert_or_ignore, any-append}

abbrev same_request : InteractionRequestRow → InteractionRequestRow → Bool
same_request r s = r.request_id == s.request_id

abbrev same_outcome : InteractionOutcomeRow → InteractionOutcomeRow → Bool
same_outcome r s = r.request_id == s.request_id

-- The arguments follow the method's: session, run, turn, request, created_at, record.
abbrev request_row : String → String → String → String → ℤ → String → InteractionRequestRow
request_row sid rid tid request_id created_at request_json = record {
  request_id = request_id;
  session_id = sid;
  turn_id = tid;
  run_id = rid;
  request_kind = "permission";
  created_at = created_at;
  record_json = request_json;
}

abbrev outcome_row : String → String → InteractionOutcomeRow
outcome_row request_id outcome_json = record { request_id = request_id; record_json = outcome_json }

unfoldable pub record_permission :
    SqliteStore → String → String → String → String → ℤ → String → String → SqliteStore
unfolding insert_or_ignore
record_permission st sid rid tid request_id created_at request_json outcome_json = record st {
  interaction_requests =
      insert_or_ignore same_request (request_row sid rid tid request_id created_at request_json)
        st.interaction_requests;
  interaction_outcomes =
      insert_or_ignore same_outcome (outcome_row request_id outcome_json) st.interaction_outcomes;
}

module _ {R : Type 0} where
  any-same : (p q : R → Bool) (rows : List R) → ((x : R) → p x ≡ q x) → any p rows ≡ any q rows
  any-same p q [] h = refl
  any-same p q (x ∷ rows) h = rw (h x, any-same p q rows h) refl

  any-last : (p : R → Bool) (rows : List R) (r : R) → p r ≡ true → any p (rows ++ r ∷ []) ≡ true
  any-last p rows r h = ground (arith, any-append p rows (r ∷ []), h)

  ignore-ignore :
      (clash : R → R → Bool) (r s : R) (rows : List R)
      → clash r r ≡ true
      → ((x : R) → clash s x ≡ clash r x)
      → insert_or_ignore clash s (insert_or_ignore clash r rows) ≡ insert_or_ignore clash r rows
  unfolding insert_or_ignore
  ignore-ignore clash r s rows h k = elim (Bool-cases (any (clash r) rows)) [
    | inl a ↦ rw a (rw (any-same (clash s) (clash r) rows k, a) refl)
    | inr a ↦ rw a (rw (any-last (clash s) rows r (k r ∙ h)) refl)
  ]

-- The first publication of a request is authoritative: another with the same id, whatever it says,
-- leaves the database as it is.
pub record_permission-again :
    (st : SqliteStore) (request_id sid rid tid request_json outcome_json : String)
    (sid' rid' tid' request_json' outcome_json' : String) (at at' : ℤ)
    → let st1 = record_permission st sid rid tid request_id at request_json outcome_json in
      record_permission st1 sid' rid' tid' request_id at' request_json' outcome_json' ≡ st1
unfolding record_permission
record_permission-again st request_id sid rid tid request_json outcome_json sid' rid' tid'
      request_json' outcome_json' at at' =
    rw
      (
        ignore-ignore same_request (request_row sid rid tid request_id at request_json)
            (request_row sid' rid' tid' request_id at' request_json') st.interaction_requests
            (eq_refl request_id) (λ x. refl),
        ignore-ignore same_outcome (outcome_row request_id outcome_json)
            (outcome_row request_id outcome_json') st.interaction_outcomes (eq_refl request_id)
            (λ x. refl),
      )
      refl
