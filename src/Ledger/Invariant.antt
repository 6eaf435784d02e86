-- ===== src/Ledger/Invariant.antt =====
-- What holds of a scan between two events: the indices of its maps are in range, an operation without
-- a call is flagged, and the issues of an operation are issues of the scan.
use meepo.Prelude.{
  ℕ, zero, suc, ◌≤◌, ◌<◌, ◌≡◌, refl, String, true, Option, none, some, List, [], ◌∷◌, ◌++◌, is_some,
  is_empty, length, length-append, length-modify, get_elem?, All, All-append, is_empty-append,
  modify-append_last, All-map, All-modify, subst, sym, arith,
}
use meepo.Prelude.Dict
use meepo.Ledger.{
  ToolLedgerIssue, ToolLedgerScanOperation, Scan, at, add_issue, with_issue, push_issue, update,
  with_update, bind_operation, push_op, with_operation,
}

abbrev pub Below : ℕ → List (String × ℕ) → Type 0
Below n = All (λ p. p.1 < n)

Below-mono : {m n : ℕ} (d : List (String × ℕ)) → m ≤ n → Below m d → Below n d
Below-mono [] h b = tt
Below-mono (p ∷ d) h b = (omega arith, Below-mono d h b.1)

Below-insert :
    (n : ℕ) (d : List (String × ℕ)) (k : String) (i : ℕ)
    → i < n
    → Below n d
    → Below n (Dict.insert d k i)
unfolding Dict.insert
Below-insert n [] k i h b = (h, tt)
Below-insert n ((j, v) ∷ d) k i h b = ground (arith, Below-insert n d k i)

pub lt-of-get :
    (n : ℕ) (d : List (String × ℕ)) (k : String) (i : ℕ) → Below n d → Dict.get d k ≡ some i → i < n
unfolding Dict.get
lt-of-get n [] k i b h = cc
lt-of-get n ((j, v) ∷ d) k i b h = ground (arith, lt-of-get n d k i)

module _ {V : Type 0} where
  -- What an operation owes to the issues of the whole scan.
  pub record Sound (found : List ToolLedgerIssue) (op : ToolLedgerScanOperation V) : Type 0 where
    pub has_call : is_empty op.issues ≡ true → is_some op.call_event ≡ true
    pub reported : is_empty found ≡ true → is_empty op.issues ≡ true

  pub record Inv (s : Scan V) : Type 0 where
    pub calls : Below (length s.operations) s.by_call
    pub ops : Below (length s.operations) s.by_operation
    pub sound : All (Sound s.issues) s.operations

  -- The scan went on, to a state with `P`.
  abbrev pub Ok : (Scan V → Type 0) → Option (Scan V) → Type 0
  Ok P none = ⊥
  Ok P (some s) = P s

  pub Ok-at :
      (P : Scan V → Type 0) (os : List (ToolLedgerScanOperation V)) (i : ℕ)
      (k : ToolLedgerScanOperation V → Option (Scan V))
      → i < length os
      → ((op : ToolLedgerScanOperation V) → get_elem? os i ≡ some op → Ok P (k op))
      → Ok P (at os i k)
  Ok-at P [] i k h f = elim h [ ]
  Ok-at P (op ∷ os) zero k h f = f op refl
  Ok-at P (op ∷ os) (suc i) k h f = Ok-at P os i k (omega arith) f

  -- A lookup through a map whose indices are in range.
  pub Ok-with_operation :
      (P : Scan V → Type 0) (o : Option ℕ) (s : Scan V)
      (k : ℕ → ToolLedgerScanOperation V → Option (Scan V)) (n : Option (Scan V))
      → ((i : ℕ) → o ≡ some i → i < length s.operations)
      → ((i : ℕ) (op : ToolLedgerScanOperation V)
          → o ≡ some i
          → get_elem? s.operations i ≡ some op
          → Ok P (k i op))
      → (o ≡ none → Ok P n)
      → Ok P (with_operation o s k n)
  Ok-with_operation P none s k n b f h = h refl
  Ok-with_operation P (some i) s k n b f h =
      Ok-at P s.operations i (k i) (b i refl) (λ op e. f i op refl e)

  -- Setting slots of an operation that keep it sound.
  pub with_update-Inv :
      (i : ℕ) (f : ToolLedgerScanOperation V → ToolLedgerScanOperation V) (s : Scan V)
      → ((op : ToolLedgerScanOperation V) → Sound s.issues op → Sound s.issues (f op))
      → Inv s
      → Inv (with_update i f s)
  with_update-Inv i f s k v = record {
    calls = subst (λ n. Below n s.by_call) (sym (length-modify s.operations i f)) v.calls;
    ops = subst (λ n. Below n s.by_operation) (sym (length-modify s.operations i f)) v.ops;
    sound = All-modify (Sound s.issues) (Sound s.issues) f k (λ op h. h) s.operations i v.sound;
  }

  at-in :
      (os : List (ToolLedgerScanOperation V)) (i : ℕ) (o : Option (Scan V))
      → i < length os
      → at os i (λ _. o) ≡ o
  at-in [] i o h = elim h [ ]
  at-in (op ∷ os) zero o h = refl
  at-in (op ∷ os) (suc i) o h = at-in os i o (omega arith)

  pub update-in :
      (i : ℕ) (f : ToolLedgerScanOperation V → ToolLedgerScanOperation V) (s : Scan V)
      → i < length s.operations
      → update i f s ≡ some (with_update i f s)
  update-in i f s h = at-in s.operations i (some (with_update i f s)) h

  pub update-Inv :
      (i : ℕ) (f : ToolLedgerScanOperation V → ToolLedgerScanOperation V) (s : Scan V)
      → i < length s.operations
      → ((op : ToolLedgerScanOperation V) → Sound s.issues op → Sound s.issues (f op))
      → Inv s
      → Ok Inv (update i f s)
  update-Inv i f s h k v = subst (Ok Inv) (sym (update-in i f s h)) (with_update-Inv i f s k v)

  Sound-add_issue :
      (g : List ToolLedgerIssue) (x : ToolLedgerIssue) (op : ToolLedgerScanOperation V)
      → Sound (g ++ x ∷ []) (add_issue x op)
  Sound-add_issue g x op = record {
    has_call = λ h. ground (arith, is_empty-append op.issues x);
    reported = λ h. ground (arith, is_empty-append g x);
  }

  Sound-more :
      (g : List ToolLedgerIssue) (x : ToolLedgerIssue) (op : ToolLedgerScanOperation V)
      → Sound g op
      → Sound (g ++ x ∷ []) op
  Sound-more g x op h = record {
    has_call = h.has_call;
    reported = λ e. ground (arith, is_empty-append g x);
  }

  pub with_issue-Inv :
      (o : Option ℕ) (x : ToolLedgerIssue) (s : Scan V) → Inv s → Inv (with_issue o x s)
  with_issue-Inv none x s v = record {
    calls = v.calls;
    ops = v.ops;
    sound =
        All-map (Sound s.issues) (Sound (s.issues ++ x ∷ [])) (Sound-more s.issues x) s.operations
          v.sound;
  }
  with_issue-Inv (some i) x s v = record {
    calls =
        subst (λ n. Below n s.by_call) (sym (length-modify s.operations i (add_issue x))) v.calls;
    ops =
        subst (λ n. Below n s.by_operation) (sym (length-modify s.operations i (add_issue x)))
          v.ops;
    sound =
        All-modify (Sound s.issues) (Sound (s.issues ++ x ∷ [])) (add_issue x)
          (λ op h. Sound-add_issue s.issues x op) (Sound-more s.issues x) s.operations i v.sound;
  }

  pub push_issue-in :
      (i : ℕ) (x : ToolLedgerIssue) (s : Scan V)
      → i < length s.operations
      → push_issue (some i) x s ≡ some (with_issue (some i) x s)
  unfolding push_issue
  push_issue-in i x s h = at-in s.operations i (some (with_issue (some i) x s)) h

  abbrev pub InRange : Option ℕ → Scan V → Type 0
  InRange none s = Unit
  InRange (some i) s = i < length s.operations

  pub push_issue-Inv :
      (o : Option ℕ) (x : ToolLedgerIssue) (s : Scan V)
      → InRange o s
      → Inv s
      → Ok Inv (push_issue o x s)
  unfolding push_issue
  push_issue-Inv none x s b v = with_issue-Inv none x s v
  push_issue-Inv (some i) x s b v =
      Ok-at Inv s.operations i (λ _. some (with_issue (some i) x s)) b
        (λ op e. with_issue-Inv (some i) x s v)

  pub length-snoc :
      (os : List (ToolLedgerScanOperation V)) (op : ToolLedgerScanOperation V)
      → length (os ++ op ∷ []) ≡ suc (length os)
  length-snoc os op = omega (arith, length-append {0} os (op ∷ []))

  pub bind-Inv :
      (id : String) (i : ℕ) (s : Scan V)
      → i < length s.operations
      → Inv s
      → Inv (bind_operation id i s)
  bind-Inv id i s h v = record {
    calls = v.calls;
    ops = Below-insert _ s.by_operation id i h v.ops;
    sound = v.sound;
  }

  -- The map entries that stand when one operation more is there.
  push_op-calls :
      (key : String) (op : ToolLedgerScanOperation V) (s : Scan V)
      → Inv s
      → Below (length (s.operations ++ op ∷ [])) (Dict.insert s.by_call key (length s.operations))
  push_op-calls key op s v =
      subst (λ n. Below n (Dict.insert s.by_call key (length s.operations)))
        (sym (length-snoc s.operations op))
        (Below-insert _ s.by_call key (length s.operations) (omega arith)
          (Below-mono s.by_call (omega arith) v.calls))

  push_op-ops :
      (op : ToolLedgerScanOperation V) (s : Scan V)
      → Inv s
      → Below (length (s.operations ++ op ∷ [])) s.by_operation
  push_op-ops op s v =
      subst (λ n. Below n s.by_operation) (sym (length-snoc s.operations op))
        (Below-mono s.by_operation (omega arith) v.ops)

  pub push_op-Inv :
      (key : String) (op : ToolLedgerScanOperation V) (s : Scan V)
      → Sound s.issues op
      → Inv s
      → Inv (push_op key op s)
  push_op-Inv key op s h v = record {
    calls = push_op-calls key op s v;
    ops = push_op-ops op s v;
    sound = All-append (Sound s.issues) s.operations (op ∷ []) v.sound (h, tt);
  }

  -- An operation that is pushed and flagged at once need not have a call.
  pub orphan-kept :
      (key : String) (op : ToolLedgerScanOperation V) (x : ToolLedgerIssue) (s : Scan V)
      → Inv s
      → Inv (with_issue (some (length s.operations)) x (push_op key op s))
  orphan-kept key op x s v = rw (modify-append_last s.operations op (add_issue x)) (record {
    calls = push_op-calls key (add_issue x op) s v;
    ops = push_op-ops (add_issue x op) s v;
    sound =
        All-append (Sound (s.issues ++ x ∷ [])) s.operations (add_issue x op ∷ [])
          (All-map (Sound s.issues) (Sound (s.issues ++ x ∷ [])) (Sound-more s.issues x)
            s.operations v.sound)
          (Sound-add_issue s.issues x op, tt);
  })

  pub orphan-Inv :
      (key : String) (op : ToolLedgerScanOperation V) (x : ToolLedgerIssue) (s : Scan V)
      → Inv s
      → Ok Inv (push_issue (some (length s.operations)) x (push_op key op s))
  unfolding push_issue
  orphan-Inv key op x s v =
      Ok-at Inv (s.operations ++ op ∷ []) (length s.operations)
        (λ _. some (with_issue (some (length s.operations)) x (push_op key op s)))
        (omega (arith, length-snoc s.operations op)) (λ o e. orphan-kept key op x s v)
