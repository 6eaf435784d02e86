-- ===== src/Prelude/Words.antt =====
-- Rust's `str` operations that cut a text: splitting at characters, filtering, prefixes and suffixes.
use Prim.Native.Nat.{ℕ, zero, suc}
use Prim.Native.Char.{Char, code}
use Prim.Native.String.{String}
use mathlib.Core.Bool.{Bool, true, false, ◌||◌, ◌&&◌}
use mathlib.Core.List.{List, [], ◌∷◌}
use mathlib.Core.Option.{Option, none, some}
use text.Mathlib.Text.{◌==◌}
use meepo.Prelude.Tests.{if◌then◌else◌, nat_eq}
use meepo.Prelude.Text.{is_whitespace, is_empty_text, trim_start}

abbrev pub is_char : Char → Char → Bool
is_char c d = nat_eq (code c) (code d)

-- `chars().count()`
abbrev pub chars : String → ℕ
chars String.[] = 0
chars (String.◌∷◌ c s) = suc (chars s)

-- `chars().any(p)`
unfoldable pub any_char : (Char → Bool) → String → Bool
any_char p String.[] = false
any_char p (String.◌∷◌ c s) = p c || any_char p s

-- whether a character is one of a text's
abbrev pub one_of : String → Char → Bool
one_of s c = any_char (is_char c) s

-- `chars().filter(p).collect()`
unfoldable pub filter_chars : (Char → Bool) → String → String
filter_chars p String.[] = String.[]
filter_chars p (String.◌∷◌ c s) =
    let rest = filter_chars p s in if p c then String.◌∷◌ c rest else rest

abbrev pub prepend : Char → List String → List String
prepend c [] = String.◌∷◌ c String.[] ∷ []
prepend c (s ∷ ss) = String.◌∷◌ c s ∷ ss

-- `split(p)`: the pieces between the characters of `p`, the empty ones included
unfoldable pub split_at : (Char → Bool) → String → List String
split_at p String.[] = String.[] ∷ []
split_at p (String.◌∷◌ c s) =
    let rest = split_at p s in if p c then String.[] ∷ rest else prepend c rest

-- the longest prefix with no character of `p`, and what follows it: `find(p)` and the two slices
unfoldable pub break_at : (Char → Bool) → String → String × String
break_at p String.[] = (String.[], String.[])
break_at p (String.◌∷◌ c s) =
    let (a, b) = break_at p s in if p c then (String.[], String.◌∷◌ c s) else (String.◌∷◌ c a, b)

-- the text behind the last character of `p`, and the text itself if there is none
unfoldable pub after_last : (Char → Bool) → String → String
after_last p String.[] = String.[]
after_last p (String.◌∷◌ c s) =
    let rest = after_last p s in if any_char p s then rest else if p c then s else String.◌∷◌ c s

-- what precedes the first suffix that `p` holds of, and the text itself if there is none
unfoldable pub cut_where : (String → Bool) → String → String
cut_where p String.[] = String.[]
cut_where p (String.◌∷◌ c s) =
    let rest = String.◌∷◌ c (cut_where p s) in if p (String.◌∷◌ c s) then String.[] else rest

abbrev translate : String → String → Char → Char
translate String.[] t c = c
translate (String.◌∷◌ a s) String.[] c = c
translate (String.◌∷◌ a s) (String.◌∷◌ b t) c = if is_char a c then b else translate s t c

unfoldable pub to_ascii_lowercase : String → String
to_ascii_lowercase String.[] = String.[]
to_ascii_lowercase (String.◌∷◌ c s) =
    String.◌∷◌ (translate "ABCDEFGHIJKLMNOPQRSTUVWXYZ" "abcdefghijklmnopqrstuvwxyz" c)
      (to_ascii_lowercase s)

-- `ends_with(t)`
unfoldable pub ends_with : String → String → Bool
ends_with String.[] t = String.[] == t
ends_with (String.◌∷◌ c s) t = (String.◌∷◌ c s == t) || ends_with s t

-- `split_whitespace().next()`
unfoldable pub first_word : String → Option String
unfolding trim_start is_whitespace break_at
first_word s =
    let (w, rest) = break_at (λ c. is_whitespace (code c)) (trim_start s) in
    if is_empty_text w then none else some w

-- `chars().take(n).collect()`
unfoldable pub take_chars : ℕ → String → String
take_chars zero s = ""
take_chars (suc n) String.[] = ""
take_chars (suc n) (String.◌∷◌ c s) = String.◌∷◌ c (take_chars n s)

-- `str::starts_with`
unfoldable pub starts_with : String → String → Bool
starts_with s String.[] = true
starts_with String.[] (String.◌∷◌ c p) = false
starts_with (String.◌∷◌ d s) (String.◌∷◌ c p) =
    (String.◌∷◌ d "" == String.◌∷◌ c "") && starts_with s p
