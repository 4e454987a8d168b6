-- ===== src/Base/Texts.antt =====
-- The regular expressions that the programs match whole texts with.
use Prim.Native.Nat.{ℕ, zero, suc, ◌-◌, ◌/◌, ◌%◌}
use Prim.Native.Char.{code}
use Prim.Native.String.{String, ◌++◌}
use mathlib.Core.Path.{◌≡◌, ap, ◌∙◌}
use Prim.Native.String.append
use native.Mathlib.Omega.{arith}
use mathlib.Core.Option.{Option, none, some}
use mathlib.Core.Bool.{Bool, true, false, ◌&&◌, ◌||◌}
use mathlib.Core.List.{List, [], ◌∷◌}
use text.Mathlib.Text.{◌==◌ as str_eq, starts_with}
use tiny_agent.Base.Tests.{ltb, leb, ◌==◌, bytes_eq, if◌then◌else◌}
use tiny_agent.Base.Lists.{length, take, drop}

-- The code points of a text.
abbrev pub codes : String → List ℕ
codes String.[] = []
codes (String.◌∷◌ c s) = code c ∷ codes s

unfoldable pub every : (ℕ → Bool) → List ℕ → Bool
every p [] = true
every p (c ∷ cs) = p c && every p cs

-- [0-9a-f]
abbrev pub is_hex : ℕ → Bool
is_hex c = leb b'0' c && leb c b'9' || leb b'a' c && leb c b'f'

-- [0-9a-f]{size}
unfoldable pub is_hex_text : ℕ → List ℕ → Bool
unfolding every
is_hex_text size cs = length cs == size && every is_hex cs

-- [A-Za-z0-9]
abbrev pub is_alphanumeric : ℕ → Bool
is_alphanumeric c = leb b'A' c && leb c b'Z' || leb b'a' c && leb c b'z' || leb b'0' c && leb c b'9'

-- [class]+ and then the suffix
unfoldable pub is_name_with : (ℕ → Bool) → List ℕ → List ℕ → Bool
unfolding every bytes_eq
is_name_with allowed suffix cs =
    let stem = length cs - length suffix in
    ltb 0 stem && (every allowed (take stem cs) && bytes_eq (drop stem cs) suffix)

-- `whole.endswith(part)`
abbrev pub ends_with : String → String → Bool
ends_with String.[] part = str_eq "" part
ends_with (String.◌∷◌ c s) part = str_eq (String.◌∷◌ c s) part || ends_with s part

-- `part in whole`
abbrev pub occurs : String → String → Bool
occurs part String.[] = str_eq part ""
occurs part (String.◌∷◌ c s) = starts_with (String.◌∷◌ c s) part || occurs part s

-- What stands behind a beginning of a text.
abbrev pub strip_prefix : String → String → Option String
strip_prefix String.[] s = some s
strip_prefix (String.◌∷◌ c p) String.[] = none
strip_prefix (String.◌∷◌ c p) (String.◌∷◌ d s) =
    let rest = strip_prefix p s in if code c == code d then rest else none

pub strip_prefix-append : (p s : String) → strip_prefix p (p ++ s) ≡ some s
strip_prefix-append String.[] s = ap some (append.nil s)
strip_prefix-append (String.◌∷◌ c p) s =
    ap (strip_prefix (String.◌∷◌ c p)) (append.cons c p s) ∙ ground (arith, strip_prefix-append p s)

-- The characters that end a line for `splitlines`.
abbrev is_break : ℕ → Bool
is_break c = leb 10 c && leb c 13 || leb 28 c && leb c 30 || c == 133 || c == 8232 || c == 8233

abbrev starts_line_feed : String → Bool
starts_line_feed String.[] = false
starts_line_feed (String.◌∷◌ c s) = code c == 10

-- `text.splitlines()`, where "\r\n" is one end.
abbrev pub split_lines : String → List String
split_lines String.[] = []
split_lines (String.◌∷◌ c s) =
    let rest = split_lines s in
    if is_break (code c)
    then (if code c == 13 && starts_line_feed s then rest else "" ∷ rest)
    else (elim rest [ [] ↦ String.◌∷◌ c "" ∷ [] | head ∷ more ↦ String.◌∷◌ c head ∷ more ])

-- The white space of `str.split()`.
abbrev is_space : ℕ → Bool
is_space c =
    leb 9 c && leb c 13
    || leb 28 c && leb c 32
    || c == 133
    || c == 160
    || c == 5760
    || leb 8192 c && leb c 8202
    || c == 8232
    || c == 8233
    || c == 8239
    || c == 8287
    || c == 12288

abbrev push : String → List String → List String
push String.[] ws = ws
push (String.◌∷◌ c w) ws = String.◌∷◌ c w ∷ ws

-- The word that a text begins with, and those behind it.
abbrev read_words : String → String × List String
read_words String.[] = ("", [])
read_words (String.◌∷◌ c s) =
    let (word, more) = read_words s in
    if is_space (code c) then ("", push word more) else (String.◌∷◌ c word, more)

-- `text.split()`
abbrev pub words : String → List String
words s = let (word, more) = read_words s in push word more

-- `text.strip()`
abbrev strip_left : String → String
strip_left String.[] = ""
strip_left (String.◌∷◌ c s) = if is_space (code c) then strip_left s else String.◌∷◌ c s

abbrev strip_right : String → String
strip_right String.[] = ""
strip_right (String.◌∷◌ c s) =
    let rest = strip_right s in
    if str_eq rest "" && is_space (code c) then "" else String.◌∷◌ c rest

abbrev pub strip : String → String
strip s = strip_left (strip_right s)

-- `text.replace(old, new)` for one character and a text
abbrev pub replace_char : ℕ → String → String → String
replace_char old new String.[] = ""
replace_char old new (String.◌∷◌ c s) =
    let rest = replace_char old new s in if code c == old then new ++ rest else String.◌∷◌ c rest

abbrev text_at : ℕ → List String → String
text_at n [] = ""
text_at zero (t ∷ ts) = t
text_at (suc n) (t ∷ ts) = text_at n ts

abbrev digit : ℕ → String
digit n = text_at n ("0" ∷ "1" ∷ "2" ∷ "3" ∷ "4" ∷ "5" ∷ "6" ∷ "7" ∷ "8" ∷ "9" ∷ [])

-- On fuel: a number has no more digits than its value and one.
abbrev decimal_with : ℕ → ℕ → String
decimal_with zero n = ""
decimal_with (suc fuel) n =
    let rest = decimal_with fuel (n / 10) in if ltb n 10 then digit n else rest ++ digit (n % 10)

-- `str(n)`
abbrev pub decimal : ℕ → String
decimal n = decimal_with (suc n) n
