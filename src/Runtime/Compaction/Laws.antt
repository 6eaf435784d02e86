-- ===== src/Runtime/Compaction/Laws.antt =====
-- What compaction keeps: the recent tail in order, no more messages than before, and no tool message
-- without a message that it can answer.
use meepo.Prelude.{
  ◌<◌, ℕ, ◌≤◌, ◌-◌, ◌≡◌, refl, ◌∙◌, ap, ◌⊎◌, inl, inr, String, Bool, true, false, ◌&&◌, ◌||◌,
  Option, none, some, List, [], ◌∷◌, ◌++◌, append_assoc, leb, length, length-drop, take, drop,
  take-append-drop, Bool-cases, arith, Result,
}
use meepo.Prelude.Text.{join}
use meepo.Core.Chat.{ChatMessage}
use meepo.Runtime.Compaction.{
  CompactResult, shift_tools, or_failure, roll_input, split_messages, total_chars,
  compact_if_needed_with,
}

module _ {V : Type 0} where
  abbrev pub starts_with_tool : List (ChatMessage V) → Bool
  starts_with_tool (ChatMessage.tool i c ∷ ms) = true
  starts_with_tool _ = false

  -- Each tool message stands right behind an assistant message or another tool message. `behind`
  -- says whether the list stands so.
  unfoldable pub is_wire_valid : Bool → List (ChatMessage V) → Bool
  is_wire_valid behind [] = true
  is_wire_valid behind (ChatMessage.user c ∷ ms) = is_wire_valid false ms
  is_wire_valid behind (ChatMessage.assistant c cs th ∷ ms) = is_wire_valid true ms
  is_wire_valid behind (ChatMessage.tool i c ∷ ms) = behind && is_wire_valid true ms

  shift_tools_lem :
      (p t : List (ChatMessage V))
      → ((shift_tools p t).0 ++ (shift_tools p t).1 ≡ p ++ t)
        × (starts_with_tool (shift_tools p t).1 ≡ false)
        × (length (shift_tools p t).1 ≤ length t)
  unfolding shift_tools
  shift_tools_lem p (ChatMessage.tool i c ∷ t) =
      let (e, f, g) = shift_tools_lem (p ++ ChatMessage.tool i c ∷ []) t in
      (e ∙ append_assoc p (ChatMessage.tool i c ∷ []) t, f, omega (arith, g))
  shift_tools_lem p [] = (refl, refl, omega arith)
  shift_tools_lem p (ChatMessage.user c ∷ t) = (refl, refl, omega arith)
  shift_tools_lem p (ChatMessage.assistant c cs th ∷ t) = (refl, refl, omega arith)

  split_messages_lem :
      (ms : List (ChatMessage V)) (k : ℕ)
      → ((split_messages ms k).0 ++ (split_messages ms k).1 ≡ ms)
        × (starts_with_tool (split_messages ms k).1 ≡ false)
        × (length (split_messages ms k).1 ≤ k)
  split_messages_lem ms k =
      let n = length ms - k in
      let (e, f, g) = shift_tools_lem (take n ms) (drop n ms) in
      (e ∙ take-append-drop n ms, f, omega (arith, g, length-drop n ms))

  is_wire_valid-tail :
      (b c : Bool) (p t : List (ChatMessage V))
      → starts_with_tool t ≡ false
      → is_wire_valid b (p ++ t) ≡ true
      → is_wire_valid c t ≡ true
  unfolding is_wire_valid
  is_wire_valid-tail b c [] [] f h = refl
  is_wire_valid-tail b c [] (ChatMessage.user x ∷ t) f h = h
  is_wire_valid-tail b c [] (ChatMessage.assistant x cs th ∷ t) f h = h
  is_wire_valid-tail b c [] (ChatMessage.tool i x ∷ t) f h = cc
  is_wire_valid-tail b c (ChatMessage.user x ∷ p) t f h = is_wire_valid-tail false c p t f h
  is_wire_valid-tail b c (ChatMessage.assistant x cs th ∷ p) t f h =
      is_wire_valid-tail true c p t f h
  is_wire_valid-tail b c (ChatMessage.tool i x ∷ p) t f h =
      is_wire_valid-tail true c p t f (ground arith)

  module _ (to_string : V → String) (compact_history : List (ChatMessage V) → Result String String)
      (ms : List (ChatMessage V)) (threshold k : ℕ) (previous : Option String) where
    abbrev result : CompactResult V
    result = compact_if_needed_with to_string compact_history ms threshold k previous

    -- Either nothing is folded, or the result is one summary message and a suffix of the history, of
    -- at most `k` messages, that does not begin with a tool message.
    pub compact_cases :
        ((result.messages ≡ ms) × (result.summary ≡ none))
        ⊎ ((prefix : List (ChatMessage V)) × (tail : List (ChatMessage V)) × (s : String) × (prefix
                ++ tail
              ≡ ms)
            × (starts_with_tool tail ≡ false)
            × (length tail ≤ k)
            × (k < length ms)
            × (result.messages ≡ ChatMessage.user (join "[conversation summary]\n" s) ∷ tail)
            × (result.summary ≡ some s))
    unfolding compact_if_needed_with
    compact_cases =
        elim (Bool-cases (leb (total_chars to_string ms) threshold || leb (length ms) k)) [
          | inl h ↦ inl (rw h, rw h)
          | inr h ↦
              let (e, f, g) = split_messages_lem ms k in
              inr (
                (split_messages ms k).0,
                (split_messages ms k).1,
                or_failure (compact_history (roll_input previous (split_messages ms k).0)),
                e,
                f,
                g,
                ground arith,
                rw h,
                rw h,
              )
        ]

    -- A compaction never makes the history longer.
    pub length-compact : length result.messages ≤ length ms
    length-compact = elim compact_cases [
      | inl (same, _) ↦ omega (arith, ap length same)
      | inr (p, t, s, e, f, g, h, m, z) ↦ omega (arith, ap length m)
    ]

    -- A history in which every tool message follows an assistant or a tool message stays so.
    pub is_wire_valid-compact :
        is_wire_valid false ms ≡ true → is_wire_valid false result.messages ≡ true
    unfolding is_wire_valid
    is_wire_valid-compact v = elim compact_cases [
      | inl (same, _) ↦ rw same v
      | inr (p, t, s, e, f, g, h, m, z) ↦ rw m (is_wire_valid-tail false false p t f (rw e v))
    ]
