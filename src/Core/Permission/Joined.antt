-- ===== src/Core/Permission/Joined.antt =====
-- Two statements on one command line: the segments of the line are those of both.
use Prim.Native.Nat.{ℕ, zero, suc}
use Prim.Native.Char.{Char}
use text.Mathlib.TextLemmas.{nil-append, cons-append}
use meepo.Prelude.{
  is_empty, ◌≡◌, refl, ap, ◌∙◌, sym, String, Bool, true, false, not, ◌||◌, List, [], ◌∷◌, ◌++◌, any,
  map, keep, append_assoc, arith, Bool-cases, inl, inr, if◌then◌else◌,
}
use meepo.Prelude.Text.{join, trim, is_empty_text}
use meepo.Prelude.Words.{prepend, is_char, any_char, one_of, filter_chars, split_at}
use meepo.Core.Permission.Shell.{
  scan_payload, nested_shell_payload, Regexes, ToolCategory, categorize_bash, visit, scan_segments,
  command_segments, all_segments, is_privileged_segment, normalize_segment_head,
}

-- no split is empty, so a character goes to the first piece of the left part
prepend-append :
    (c : Char) (xs ys : List String)
    → is_empty xs ≡ false
    → prepend c (xs ++ ys) ≡ prepend c xs ++ ys
prepend-append c [] ys h = cc h
prepend-append c (x ∷ xs) ys h = refl

is_empty-prepend : (c : Char) (xs : List String) → is_empty (prepend c xs) ≡ false
is_empty-prepend c [] = refl
is_empty-prepend c (x ∷ xs) = refl

is_empty-split_at : (p : Char → Bool) (s : String) → is_empty (split_at p s) ≡ false
unfolding split_at
is_empty-split_at p String.[] = refl
is_empty-split_at p (String.◌∷◌ c s) = elim (Bool-cases (p c)) [
  | inl h ↦ rw h refl
  | inr h ↦ rw h (is_empty-prepend c (split_at p s))
]

split_at-join :
    (p : Char → Bool) (s : String) (c : Char) (t : String)
    → p c ≡ true
    → split_at p (join s (String.◌∷◌ c t)) ≡ split_at p s ++ split_at p t
unfolding split_at
split_at-join p String.[] c t h = rw (nil-append (String.◌∷◌ c t)) (rw h refl)
split_at-join p (String.◌∷◌ d s) c t h = elim (Bool-cases (p d)) [
  | inl k ↦ rw (cons-append d s (String.◌∷◌ c t)) (rw (k, split_at-join p s c t h) refl)
  | inr k ↦ rw (cons-append d s (String.◌∷◌ c t)) (
      rw (k, split_at-join p s c t h)
        (prepend-append d (split_at p s) (split_at p t) (is_empty-split_at p s)))
]

keep-append : (p : String → Bool) (xs ys : List String) → keep p (xs ++ ys) ≡ keep p xs ++ keep p ys
keep-append p [] ys = refl
keep-append p (x ∷ xs) ys = elim (Bool-cases (p x)) [
  | inl k ↦ rw (k, keep-append p xs ys) refl
  | inr k ↦ rw (k, keep-append p xs ys) refl
]

map-append : (f : String → String) (xs ys : List String) → map f (xs ++ ys) ≡ map f xs ++ map f ys
map-append f [] ys = refl
map-append f (x ∷ xs) ys = ap (λ l. f x ∷ l) (map-append f xs ys)

join_semicolon : (b : String) → join ";" b ≡ String.◌∷◌ ";" b
join_semicolon b = cons-append ";" String.[] b ∙ ap (String.◌∷◌ ";") (nil-append b)

command_segments-join :
    (a b : String)
    → command_segments (join a (join ";" b)) ≡ command_segments a ++ command_segments b
unfolding command_segments any_char
command_segments-join a b =
    let p = one_of "|;&\n(){}`" in
    let q = λ (s : String). not (is_empty_text s) in
    ap (λ l. keep q (map trim (split_at p (join a l)))) (join_semicolon b)
    ∙ ap (λ l. keep q (map trim l)) (split_at-join p a ";" b refl)
    ∙ ap (keep q) (map-append trim (split_at p a) (split_at p b))
    ∙ keep-append q (map trim (split_at p a)) (map trim (split_at p b))

visit-append :
    (inner : String → List String) (xs ys : List String)
    → visit inner (xs ++ ys) ≡ visit inner xs ++ visit inner ys
unfolding visit
visit-append inner [] ys = refl
visit-append inner (x ∷ xs) ys =
    ap (λ l. normalize_segment_head x ∷ l)
      (rw (visit-append inner xs ys)
        (sym (append_assoc (inner (normalize_segment_head x)) (visit inner xs) (visit inner ys))))

scan_segments-join :
    (re : Regexes) (n : ℕ) (a b : String)
    → scan_segments re n (join a (join ";" b)) ≡ scan_segments re n a ++ scan_segments re n b
unfolding scan_segments
scan_segments-join re zero a b =
    rw (command_segments-join a b)
      (visit-append (λ s. []) (command_segments a) (command_segments b))
scan_segments-join re (suc n) a b = rw (command_segments-join a b) (
    visit-append (λ s. scan_payload (scan_segments re n) (nested_shell_payload re s))
      (command_segments a) (command_segments b))

any-append : (p : String → Bool) (xs ys : List String) → any p (xs ++ ys) ≡ (any p xs || any p ys)
any-append p [] ys = refl
any-append p (x ∷ xs) ys = elim (Bool-cases (p x)) [
  | inl k ↦ rw k refl
  | inr k ↦ rw k (any-append p xs ys)
]

filter_chars-join :
    (p : Char → Bool) (s t : String)
    → filter_chars p (join s t) ≡ join (filter_chars p s) (filter_chars p t)
unfolding filter_chars
filter_chars-join p String.[] t = rw (nil-append t, nil-append (filter_chars p t)) refl
filter_chars-join p (String.◌∷◌ c s) t = elim (Bool-cases (p c)) [
  | inl k ↦
      rw (cons-append c s t) (
        rw (k, filter_chars-join p s t) (sym (cons-append c (filter_chars p s) (filter_chars p t))))
  | inr k ↦ rw (cons-append c s t) (rw (k, filter_chars-join p s t) refl)
]

any_char-join :
    (p : Char → Bool) (s t : String) → any_char p s ≡ true → any_char p (join s t) ≡ true
unfolding any_char
any_char-join p String.[] t h = cc h
any_char-join p (String.◌∷◌ c s) t h = elim (Bool-cases (p c)) [
  | inl k ↦ rw (cons-append c s t) (rw k refl)
  | inr k ↦ rw (cons-append c s t) (rw k (any_char-join p s t (rw k at h)))
]

privileged_segments :
    (re : Regexes) (cmd : String)
    → categorize_bash re cmd ≡ ToolCategory.privileged
    → any (is_privileged_segment re) (all_segments re cmd) ≡ true
unfolding categorize_bash
privileged_segments re cmd h = ground (arith, h)

segments_privileged :
    (re : Regexes) (cmd : String)
    → any (is_privileged_segment re) (all_segments re cmd) ≡ true
    → categorize_bash re cmd ≡ ToolCategory.privileged
unfolding categorize_bash
segments_privileged re cmd h = rw h refl

-- whether a scan of the text, cut at backticks or with them removed, has a privileged segment
abbrev has_backtick : String → Bool
has_backtick = any_char (λ c. is_char c "`")

abbrev collapsed : String → String
collapsed = filter_chars (λ c. not (is_char c "`"))

abbrev found : Regexes → String → Bool
found re s = any (is_privileged_segment re) (scan_segments re 2 s)

found-join :
    (re : Regexes) (a b : String) → found re (join a (join ";" b)) ≡ (found re a || found re b)
found-join re a b =
    ap (any (is_privileged_segment re)) (scan_segments-join re 2 a b)
    ∙ any-append (is_privileged_segment re) (scan_segments re 2 a) (scan_segments re 2 b)

collapsed-join :
    (a b : String) → collapsed (join a (join ";" b)) ≡ join (collapsed a) (join ";" (collapsed b))
unfolding filter_chars
collapsed-join a b =
    filter_chars-join (λ c. not (is_char c "`")) a (join ";" b)
    ∙ ap (join (collapsed a)) (filter_chars-join (λ c. not (is_char c "`")) ";" b)

any-all_segments :
    (re : Regexes) (cmd : String)
    → any (is_privileged_segment re) (all_segments re cmd)
      ≡ (if has_backtick cmd then found re cmd || found re (collapsed cmd) else found re cmd)
unfolding all_segments
any-all_segments re cmd = elim (Bool-cases (has_backtick cmd)) [
  | inl k ↦ rw k (
      any-append (is_privileged_segment re) (scan_segments re 2 cmd)
        (scan_segments re 2 (collapsed cmd)))
  | inr k ↦ rw k refl
]

-- A command line that is privileged stays so when another statement follows it behind a semicolon,
-- whatever that is and whatever the regular expressions match.
pub categorize_bash-join :
    (re : Regexes) (a b : String)
    → categorize_bash re a ≡ ToolCategory.privileged
    → categorize_bash re (join a (join ";" b)) ≡ ToolCategory.privileged
categorize_bash-join re a b h =
    let ab = join a (join ";" b) in
    let e = any-all_segments re a in
    let f = any-all_segments re ab in
    let x = found-join re a b in
    let y = ap (found re) (collapsed-join a b) ∙ found-join re (collapsed a) (collapsed b) in
    let z = any_char-join (λ c. is_char c "`") a (join ";" b) in
    segments_privileged re ab (ground (arith, privileged_segments re a h, e, f, x, y, z))
