-- ===== src/Search.antt =====
-- ghidra_rpc/server/tools/search.py: byte patterns, from the user's text to Ghidra's regex.
-- A text is its list of characters, taken below 256; digits are the ASCII ones.
pub mod Patterns
pub mod Normalised
use ghidra_rpc_win.Common.{
  ℕ, ◌+◌, ◌-◌, ◌*◌, ◌/◌, ◌%◌, Bool, true, false, ◌&&◌, ◌||◌, Option, none, some, List, [], ◌∷◌,
  ◌++◌, ltb, leb, ◌==◌, if◌then◌else◌, length, is_empty,
}
use ghidra_rpc_win.Common.Text.{codes, strip, split, join, text_eq}
use ghidra_rpc_win.Common.Exec.{Result, ok, raise, value_error, ◌>>=◌}

-- The value of a hexadecimal digit.
unfoldable pub hex_digit : ℕ → Option ℕ
hex_digit c =
    if leb 48 c && leb c 57
    then some (c - 48)
    else if leb 97 c && leb c 102
    then some (c - 87)
    else if leb 65 c && leb c 70
    then some (c - 55)
    else none

-- The digits of `int(s, 16)`: single underscores stand between digits. The flag says that a digit
-- must come next.
unfoldable pub digits : Bool → ℕ → List ℕ → Option ℕ
unfolding hex_digit
digits due acc [] = if due then none else some acc
digits due acc (c ∷ t) =
    let after_underscore = digits true acc t in
    let after_digit = λ (d : ℕ). digits false (acc * 16 + d) t in
    if c == 95
    then (if due then none else after_underscore)
    else elim (hex_digit c) [ none ↦ none | some d ↦ after_digit d ]

-- An underscore may follow the prefix.
abbrev after_prefix : List ℕ → Option ℕ
after_prefix [] = none
after_prefix (c ∷ t) = if c == 95 then digits true 0 t else digits true 0 (c ∷ t)

abbrev pub unsigned : List ℕ → Option ℕ
unsigned (z ∷ x ∷ t) =
    if z == 48 && (x == 120 || x == 88) then after_prefix t else digits true 0 (z ∷ x ∷ t)
unsigned t = digits true 0 t

-- `val = int(tok, 16)` with `0 <= val <= 0xFF`; a negative number other than -0 is out of range.
abbrev in_byte : Option ℕ → Option ℕ
in_byte none = none
in_byte (some v) = if leb v 255 then some v else none

abbrev zero_only : Option ℕ → Option ℕ
zero_only none = none
zero_only (some v) = if v == 0 then some 0 else none

unfoldable pub byte_value : List ℕ → Option ℕ
unfolding digits
byte_value [] = none
byte_value (c ∷ t) =
    if c == 45
    then zero_only (unsigned t)
    else if c == 43
    then in_byte (unsigned t)
    else in_byte (unsigned (c ∷ t))

abbrev pub hex_char : ℕ → ℕ
hex_char d = if ltb d 10 then d + 48 else d + 87

-- `f"{val:02x}"`, for a byte
abbrev pub hex_byte : ℕ → List ℕ
hex_byte v = hex_char (v / 16) ∷ hex_char (v % 16) ∷ []

-- `tok in ("??", ".", "**", "xx")`
unfoldable pub is_wildcard : List ℕ → Bool
unfolding text_eq
is_wildcard tok =
    text_eq tok (codes "??")
    || text_eq tok (codes ".")
    || text_eq tok (codes "**")
    || text_eq tok (codes "xx")

abbrev dot : List ℕ
dot = 46 ∷ []

abbrev byte_token : Option ℕ → Result (List ℕ)
byte_token none = raise value_error ("Invalid byte pattern token" ∷ [])
byte_token (some v) = ok (hex_byte v)

unfoldable pub normalize_token : List ℕ → Result (List ℕ)
unfolding is_wildcard byte_value
normalize_token tok = if is_wildcard tok then ok dot else byte_token (byte_value tok)

unfoldable pub normalize_tokens : List (List ℕ) → Result (List (List ℕ))
unfolding normalize_token
normalize_tokens [] = ok []
normalize_tokens (tok ∷ toks) = do t ← normalize_token tok; ts ← normalize_tokens toks; ok (t ∷ ts)

-- `p[i:i+2] for i in range(0, len(p), 2)`
unfoldable pub pairs : List ℕ → List (List ℕ)
pairs [] = []
pairs (a ∷ []) = (a ∷ []) ∷ []
pairs (a ∷ b ∷ t) = (a ∷ b ∷ []) ∷ pairs t

unfoldable pub has_blank : List ℕ → Bool
has_blank [] = false
has_blank (c ∷ t) = c == 32 || has_blank t

-- `if " " not in p and len(p) > 2`
unfoldable pub spaced : List ℕ → List ℕ
unfolding pairs has_blank
spaced p = if has_blank p then p else if ltb 2 (length p) then join (32 ∷ []) (pairs p) else p

abbrev joined : List (List ℕ) → Result (List ℕ)
joined [] = raise value_error ("Empty byte pattern" ∷ [])
joined (t ∷ ts) = ok (join (32 ∷ []) (t ∷ ts))

unfoldable pub normalize_byte_pattern : List ℕ → Result (List ℕ)
unfolding spaced normalize_tokens
normalize_byte_pattern pattern = normalize_tokens (split (spaced (strip pattern))) >>= joined

-- `parts.append(".")`, or `"\\x" + tok`
abbrev regex_part : List ℕ → List ℕ
regex_part tok = if text_eq tok dot then dot else 92 ∷ 120 ∷ tok

unfoldable pub regex_parts : List (List ℕ) → List ℕ
unfolding text_eq
regex_parts [] = []
regex_parts (tok ∷ toks) = regex_part tok ++ regex_parts toks

unfoldable pub pattern_to_ghidra_regex : List ℕ → List ℕ
unfolding regex_parts
pattern_to_ghidra_regex normalized = regex_parts (split normalized)
