-- ===== src/Core/Permission/Shell.antt =====
-- crates/meepo-core/src/permission.rs, from `WRAPPER_COMMANDS` on: the category of a shell command.
use Prim.Native.Nat.{ℕ, zero, suc}
use Prim.Native.Char.{Char, code}
use Prim.Native.String.{len}
use text.Mathlib.Text.{starts_with}
use meepo.Prelude.{
  String, Bool, not, ◌||◌, ◌&&◌, Option, none, some, List, [], ◌∷◌, ◌++◌, any, map, keep, contains,
  leb, ◌==◌, if◌then◌else◌,
}
use meepo.Prelude.Text.{join, trim, trim_start, is_empty_text, is_whitespace}
use meepo.Prelude.Words.{
  chars, is_char, any_char, one_of, filter_chars, split_at, break_at, after_last, cut_where,
  to_ascii_lowercase, ends_with, first_word,
}

-- The order is the source's; the last four are the answers of `categorize_bash`, but for custom_tool.
pub data ToolCategory : Type 0 where
  read web_read file_write fs_destructive shell_unsafe git_destructive privileged : ToolCategory
  custom_tool : ToolCategory

-- The `regex` crate: whether a pattern matches in a text, and its first capture group there.
pub record Regexes : Type 0 where
  pub is_match : String → String → Bool
  pub capture : String → String → Option String

abbrev pub wrapper_commands : List String
wrapper_commands =
    "nohup" ∷ "nice" ∷ "time" ∷ "timeout" ∷ "env" ∷ "command" ∷ "exec" ∷ "stdbuf" ∷ []

abbrev pub privileged_prefixes : List String
privileged_prefixes =
    "sudo " ∷ "su " ∷ "chmod " ∷ "chown " ∷ "chgrp " ∷ "mount " ∷ "umount " ∷ "kill " ∷ "killall "
    ∷ "systemctl " ∷ "launchctl " ∷ "shutdown" ∷ "reboot" ∷ []

unfoldable pub command_segments : String → List String
unfolding split_at trim
command_segments cmd =
    keep (λ s. not (is_empty_text s)) (map trim (split_at (one_of "|;&\n(){}`") cmd))

-- the quoted form of `split_head`: the first token up to the closing quote
abbrev pub quoted_head : String × String → Option (String × String)
quoted_head (inner, String.[]) = none
quoted_head (String.[], String.◌∷◌ q tail) = none
quoted_head (String.◌∷◌ c s, String.◌∷◌ q tail) = some (String.◌∷◌ c s, trim_start tail)

abbrev head_of : String → Option (String × String)
head_of String.[] = none
head_of (String.◌∷◌ c s) =
    let (head, tail) = break_at (λ d. is_whitespace (code d)) (String.◌∷◌ c s) in
    if one_of "'\"" c then quoted_head (break_at (is_char c) s) else some (head, trim_start tail)

unfoldable pub split_head : String → Option (String × String)
unfolding break_at trim_start
split_head rest = head_of (trim_start rest)

abbrev is_digit : Char → Bool
is_digit c = leb 48 (code c) && leb (code c) 57

-- whether a wrapper skips the token: a flag, an assignment or a duration
unfoldable pub is_option_token : String → Bool
is_option_token token =
    (starts_with token "-" && leb 2 (len token))
    || any_char (λ c. is_char c "=") token
    || (not (any_char (λ c. not (is_digit c || one_of "smhd" c)) token) && any_char is_digit token)

-- `while let Some(token) = rest.split_whitespace().next()`, on fuel
unfoldable pub strip_fuel : ℕ → String → String
unfolding is_option_token break_at trim_start
strip_fuel zero rest = rest
strip_fuel (suc n) rest =
    let (token, tail) = break_at (λ c. is_whitespace (code c)) rest in
    let stripped = strip_fuel n (trim_start tail) in
    if not (is_empty_text token) && is_option_token token then stripped else rest

-- Each round takes a token, so as many rounds as characters are enough.
unfoldable pub strip_leading_options : String → String
unfolding strip_fuel
strip_leading_options tail = strip_fuel (chars tail) (trim_start tail)

abbrev unescape : String → String
unescape String.[] = String.[]
unescape (String.◌∷◌ c s) = if is_char c "\\" then s else String.◌∷◌ c s

-- the head without quotes, escape, path and `.exe`
unfoldable pub canonical_head : String → String
unfolding filter_chars after_last cut_where to_ascii_lowercase
canonical_head head =
    let h = after_last (one_of "/\\") (unescape (filter_chars (λ c. not (one_of "'\"^" c)) head)) in
    cut_where (λ s. to_ascii_lowercase s == ".exe") h

abbrev with_tail : String → String → String
with_tail h tail = if is_empty_text tail then h else join h (join " " tail)

-- one round: done with the head, or on with the rest behind a wrapper
abbrev normalize_head : (String → String) → String → Option (String × String) → String
normalize_head again rest none = rest
normalize_head again rest (some (head, tail)) =
    let h = canonical_head head in
    if contains wrapper_commands (to_ascii_lowercase h)
    then again (strip_leading_options tail)
    else with_tail h tail

-- `for _ in 0..n`
unfoldable pub normalize_rounds : ℕ → String → String
unfolding canonical_head strip_leading_options split_head
normalize_rounds zero rest = rest
normalize_rounds (suc n) rest = normalize_head (normalize_rounds n) rest (split_head rest)

unfoldable pub normalize_segment_head : String → String
unfolding normalize_rounds
normalize_segment_head segment = normalize_rounds 5 segment

-- the shells and the flag that takes a command, in the source's order
abbrev pub nested_shell : List (String × String)
nested_shell =
    ("^(sh|bash|zsh)$", "(?:^|\\s)-\\w*c\\s+([\\s\\S]+)$")
    ∷ ("(?i)^(pwsh|powershell)$", "(?i)\\s-c(?:ommand)?\\s+([\\s\\S]+)$")
    ∷ ("(?i)^cmd$", "(?i)\\s/[ck]\\s+([\\s\\S]+)$")
    ∷ []

-- the text between its first and its last character, if both are the same quote
abbrev is_last : Char → String → Bool
is_last q s = ends_with s (String.◌∷◌ q String.[])

unfoldable pub unquote : String → String
unfolding ends_with cut_where
unquote String.[] = String.[]
unquote (String.◌∷◌ c s) =
    if one_of "'\"" c && is_last c s
    then cut_where (λ t. t == String.◌∷◌ c String.[]) s
    else String.◌∷◌ c s

abbrev captured : Option String → Option String
captured none = none
captured (some payload) = some (unquote (trim payload))

-- the loop over `nested_shell`, where `head` is the segment's first word
unfoldable pub find_payload : Regexes → List (String × String) → String → String → Option String
unfolding unquote
find_payload re [] head segment = none
find_payload re ((head_re, flag_re) ∷ more) head segment =
    if re.is_match head_re head
    then captured (re.capture flag_re segment)
    else find_payload re more head segment

abbrev payload_of_head : Regexes → Option String → String → Option String
payload_of_head re none segment = none
payload_of_head re (some head) segment = find_payload re nested_shell head segment

unfoldable pub nested_shell_payload : Regexes → String → Option String
unfolding find_payload
nested_shell_payload re segment = payload_of_head re (first_word segment) segment

-- the loop over the segments of one command, where `inner` scans what a segment runs itself
unfoldable pub visit : (String → List String) → List String → List String
unfolding normalize_segment_head
visit inner [] = []
visit inner (raw ∷ raws) =
    let segment = normalize_segment_head raw in segment ∷ (inner segment ++ visit inner raws)

abbrev pub scan_payload : (String → List String) → Option String → List String
scan_payload scan none = []
scan_payload scan (some payload) = scan payload

unfoldable pub scan_segments : Regexes → ℕ → String → List String
unfolding visit command_segments nested_shell_payload
scan_segments re zero cmd = visit (λ s. []) (command_segments cmd)
scan_segments re (suc depth) cmd =
    visit (λ s. scan_payload (scan_segments re depth) (nested_shell_payload re s))
      (command_segments cmd)

abbrev pub matches_any : Regexes → List String → String → Bool
matches_any re ps s = any (λ p. re.is_match p s) ps

abbrev pub privileged_patterns : List String
privileged_patterns =
    "(?i)^(kill|stop-process|spps|taskkill)\\b" ∷ "(?i)(^|\\s)-verb\\s+runas\\b"
    ∷ "(?i)^((start|stop|restart|set|new|remove|suspend|resume)-service|sasv|spsv)\\b"
    ∷ "(?i)^sc\\s+(stop|start|pause|continue|delete|config|create|failure|sdset)\\b"
    ∷ "(?i)^net\\s+(stop|start|pause|continue)\\b" ∷ "(?i)^(stop-computer|restart-computer)\\b"
    ∷ "(?i)^(icacls|takeown|set-acl|runas)\\b" ∷ []

abbrev pub fs_destructive_patterns : List String
fs_destructive_patterns =
    "^dd\\s+" ∷ "^truncate\\b" ∷ "^shred\\b" ∷ "^mkfs\\b"
    ∷ "^git\\s+restore\\s+(\\.\\s*$|--\\s+\\S+)" ∷ "^git\\s+checkout\\s+--\\s+\\S+"
    ∷ "^find\\s+.*\\s-delete\\b" ∷ "^find\\s+.*\\s-exec\\s+.*\\b(rm|shred|truncate|dd)\\b"
    ∷ "^xargs\\s+.*\\b(rm|shred|truncate|dd)\\b" ∷ "(?i)^remove-item\\b"
    ∷ "(?i)^(rm|rmdir|ri|del|erase|rd)\\b" ∷ "(?i)^(clear-content|clc)\\b" ∷ []

abbrev pub pipe_destructive_patterns : List String
pipe_destructive_patterns =
    "\\|\\s*xargs\\b[^\\n;&|]*\\b(rm|shred|truncate|dd)\\b" ∷ "\\|\\s*(sh|bash|zsh)\\b" ∷ []

abbrev pub git_destructive_patterns : List String
git_destructive_patterns =
    "^git\\s+reset\\s+--hard\\b" ∷ "^git\\s+push\\s+(--force|-f)\\b" ∷ "^git\\s+branch\\s+-D\\b"
    ∷ "^git\\s+clean\\s+-fd?\\b" ∷ "^git\\s+checkout\\s+\\.\\s*$" ∷ "^git\\s+rebase\\s+-i\\b" ∷ []

unfoldable pub is_privileged_segment : Regexes → String → Bool
unfolding to_ascii_lowercase
is_privileged_segment re segment =
    any (λ pre. starts_with (to_ascii_lowercase segment) pre) privileged_prefixes
    || matches_any re privileged_patterns segment

-- the segments of the command and, if it has a backtick, of the command without them
unfoldable pub all_segments : Regexes → String → List String
unfolding scan_segments filter_chars
all_segments re cmd =
    let collapsed = filter_chars (λ c. not (is_char c "`")) cmd in
    if any_char (λ c. is_char c "`") cmd
    then scan_segments re 2 cmd ++ scan_segments re 2 collapsed
    else scan_segments re 2 cmd

unfoldable pub categorize_bash : Regexes → String → ToolCategory
unfolding all_segments is_privileged_segment
categorize_bash re cmd =
    let segments = all_segments re cmd in
    if any (is_privileged_segment re) segments
    then privileged
    else if any (matches_any re fs_destructive_patterns) segments
    then fs_destructive
    else if matches_any re pipe_destructive_patterns (trim cmd)
    then fs_destructive
    else if any (matches_any re git_destructive_patterns) segments
    then git_destructive
    else shell_unsafe
