-- ===== src/Search/Patterns.antt =====
-- What a normalised byte pattern is, and what its regex matches.
use ghidra_rpc_win.Common.{
  ℕ, ◌+◌, ◌*◌, ◌/◌, ◌%◌, ◌<◌, ◌≡◌, refl, ◌∙◌, ap, false, Option, none, some, List, [], ◌∷◌, map,
  arith, ◌==◌, if◌then◌else◌, All, Bool-cases, Option-cases, inl, inr,
}
use ghidra_rpc_win.Common.Text.{strip, split, join, text_eq, is_space}
use ghidra_rpc_win.Common.Text.Words.{IsWord, split-join}
use ghidra_rpc_win.Common.Exec.{ok, >>=-ok}
use ghidra_rpc_win.Search.{
  hex_digit, hex_char, hex_byte, is_wildcard, byte_value, in_byte, zero_only, unsigned, dot,
  normalize_token, normalize_tokens, spaced, joined, normalize_byte_pattern, regex_part,
  regex_parts, pattern_to_ghidra_regex,
}

-- What a token asks of a byte of memory: a value, or nothing.
abbrev pub Item : Type 0
Item = Option ℕ

abbrev pub InByte : Item → Type 0
InByte none = Unit
InByte (some v) = v < 256

abbrev pub token_text : Item → List ℕ
token_text none = dot
token_text (some v) = hex_byte v

-- The item that the user's token stands for.
abbrev pub item_of : List ℕ → Option Item
item_of tok =
    if is_wildcard tok
    then some none
    else elim (byte_value tok) [ none ↦ none | some v ↦ some (some v) ]

abbrev pub cons_item : Option Item → Option (List Item) → Option (List Item)
cons_item (some i) (some is) = some (i ∷ is)
cons_item _ _ = none

pub items_of : List (List ℕ) → Option (List Item)
items_of [] = some []
items_of (tok ∷ toks) = cons_item (item_of tok) (items_of toks)

-- A reader of Ghidra's regex over bytes, for `.` and `\xNN`, one character at a time.
pub data Mode : Type 0 where
  start escape first : Mode
  second : ℕ → Mode

pub decode : Mode → List ℕ → Option (List Item)
decode start [] = some []
decode _ [] = none
decode start (c ∷ t) =
    let plain = cons_item (some none) (decode start t) in
    let escaped = decode escape t in if c == 46 then plain else if c == 92 then escaped else none
decode escape (c ∷ t) = let digits = decode first t in if c == 120 then digits else none
decode first (c ∷ t) =
    let rest = λ (d : ℕ). decode (second d) t in
    elim (hex_digit c) [ none ↦ none | some d ↦ rest d ]
decode (second x) (c ∷ t) =
    let rest = decode start t in
    elim (hex_digit c) [ none ↦ none | some d ↦ cons_item (some (some (x * 16 + d))) rest ]

in_byte-le : (o : Option ℕ) (v : ℕ) → in_byte o ≡ some v → v < 256
in_byte-le none v h = cc
in_byte-le (some n) v h = ground arith

zero_only-le : (o : Option ℕ) (v : ℕ) → zero_only o ≡ some v → v < 256
zero_only-le none v h = cc
zero_only-le (some n) v h = ground arith

byte_value-le : (tok : List ℕ) (v : ℕ) → byte_value tok ≡ some v → v < 256
unfolding byte_value
byte_value-le [] v h = cc
byte_value-le (c ∷ tok) v h = elim (Bool-cases (c == 45)) [
  | inl minus ↦ zero_only-le (unsigned tok) v (rw minus at h)
  | inr no_minus ↦ elim (Bool-cases (c == 43)) [
    | inl plus ↦ in_byte-le (unsigned tok) v (rw (no_minus, plus) at h)
    | inr no_plus ↦ in_byte-le (unsigned (c ∷ tok)) v (rw (no_minus, no_plus) at h)
  ]
]

hex_digit-hex_char : (d : ℕ) → d < 16 → hex_digit (hex_char d) ≡ some d
unfolding hex_digit
hex_digit-hex_char d h = ground arith

hex_char-no_space : (d : ℕ) → d < 16 → is_space (hex_char d) ≡ false
unfolding is_space
hex_char-no_space d h = ground arith

token_text-IsWord : (i : Item) → InByte i → IsWord (token_text i)
token_text-IsWord none h = record { some_char = refl; no_space = (unfold is_space in refl, tt) }
token_text-IsWord (some v) h = record {
  some_char = refl;
  no_space =
      (hex_char-no_space (v / 16) (omega arith), (hex_char-no_space (v % 16) (omega arith), tt));
}

regex_part-hex_byte : (v : ℕ) → regex_part (hex_byte v) ≡ 92 ∷ 120 ∷ hex_byte v
unfolding text_eq
regex_part-hex_byte v = ground arith

decode-regex_parts :
    (is : List Item) → All InByte is → decode start (regex_parts (map token_text is)) ≡ some is
unfolding decode regex_parts
decode-regex_parts [] h = refl
decode-regex_parts (none ∷ is) h = rw (decode-regex_parts is h.1)
decode-regex_parts (some v ∷ is) h =
    rw
      (
        regex_part-hex_byte v,
        hex_digit-hex_char (v / 16) (omega arith),
        hex_digit-hex_char (v % 16) (omega arith),
        decode-regex_parts is h.1,
      )
      (ap (λ (n : ℕ). some (some n ∷ is)) (omega arith))

-- A token that is accepted becomes the text of its item.
normalize_token-item :
    (tok t : List ℕ)
    → normalize_token tok ≡ ok t
    → (i : Item) × (item_of tok ≡ some i) × InByte i × (t ≡ token_text i)
unfolding normalize_token
normalize_token-item tok t h = elim (Bool-cases (is_wildcard tok)) [
  | inl wild ↦ (none, rw wild, tt, cc (rw wild at h))
  | inr plain ↦ elim (Option-cases (byte_value tok)) [
    | inl bad ↦ cc (rw (plain, bad) at h)
    | inr (v, good) ↦
        (some v, rw (plain, good), byte_value-le tok v good, cc (rw (plain, good) at h))
  ]
]

normalize_tokens-items :
    (toks ts : List (List ℕ))
    → normalize_tokens toks ≡ ok ts
    → (is : List Item) × (items_of toks ≡ some is) × All InByte is × (ts ≡ map token_text is)
unfolding normalize_tokens items_of
normalize_tokens-items [] ts h = ([], refl, tt, cc)
normalize_tokens-items (tok ∷ toks) ts h =
    let (t, et, rest) = >>=-ok (normalize_token tok) _ h in
    let (us, eu, last) = >>=-ok (normalize_tokens toks) _ rest in
    let (i, ei, bi, ti) = normalize_token-item tok t et in
    let (is, eis, bis, tis) = normalize_tokens-items toks us eu in
    (i ∷ is, rw (ei, eis), (bi, bis), cc)

joined-ok :
    (is : List Item) (n : List ℕ)
    → joined (map token_text is) ≡ ok n
    → (i : Item) × (rest : List Item) × (is ≡ i ∷ rest)
      × (n ≡ join (32 ∷ []) (map token_text (i ∷ rest)))
joined-ok [] n h = cc
joined-ok (i ∷ rest) n h = (i, rest, refl, cc)

-- The tokens of a pattern, as `normalize_byte_pattern` cuts them.
abbrev pub tokens : List ℕ → List (List ℕ)
tokens pattern = split (spaced (strip pattern))

-- A normalised pattern is the text of the items that its tokens stand for.
pub normalize_byte_pattern-items :
    (pattern n : List ℕ)
    → normalize_byte_pattern pattern ≡ ok n
    → (i : Item) × (is : List Item) × (items_of (tokens pattern) ≡ some (i ∷ is))
      × All InByte (i ∷ is)
      × (n ≡ join (32 ∷ []) (map token_text (i ∷ is)))
unfolding normalize_byte_pattern
normalize_byte_pattern-items pattern n h =
    let (ts, et, ej) = >>=-ok (normalize_tokens (tokens pattern)) joined h in
    let (all, ei, bytes, texts) = normalize_tokens-items (tokens pattern) ts et in
    let (i, is, split_all, en) = joined-ok all n (rw texts at ej) in
    (i, is, ei ∙ ap some split_all, rw split_all at bytes, en)

pub map-IsWord : (is : List Item) → All InByte is → All IsWord (map token_text is)
map-IsWord [] h = tt
map-IsWord (i ∷ is) h = (token_text-IsWord i h.0, map-IsWord is h.1)

-- The regex of a normalised pattern asks of each byte what the pattern's token asks.
pub decode-pattern_to_ghidra_regex :
    (pattern n : List ℕ)
    → normalize_byte_pattern pattern ≡ ok n
    → decode start (pattern_to_ghidra_regex n) ≡ items_of (tokens pattern)
unfolding pattern_to_ghidra_regex
decode-pattern_to_ghidra_regex pattern n h =
    let (i, is, ei, bytes, en) = normalize_byte_pattern-items pattern n h in
    rw (en, split-join (map token_text (i ∷ is)) (map-IsWord (i ∷ is) bytes), ei)
      (decode-regex_parts (i ∷ is) bytes)
