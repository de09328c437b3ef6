-- ===== src/VersionTracking/Normalise.antt =====
-- `_normalise_decompiled` and `_normalise_disassembly` of
-- ghidra_rpc/server/tools/version_tracking.py, for ASCII text. Each pattern has word boundaries at
-- both ends and only word characters between them, so it matches whole words: a substitution
-- replaces each word that the pattern matches.
use ghidra_rpc_win.Common.{
  ℕ, ◌+◌, String, Bool, true, false, ◌||◌, ◌&&◌, List, [], ◌∷◌, ◌++◌, leb, ◌==◌, if◌then◌else◌,
  length, drop,
}
use ghidra_rpc_win.Common.Text.{codes, starts_with}

abbrev pub is_digit : ℕ → Bool
is_digit c = leb 48 c && leb c 57

abbrev pub is_letter : ℕ → Bool
is_letter c = (leb 65 c && leb c 90) || (leb 97 c && leb c 122)

-- `[0-9a-fA-F]`
abbrev pub is_hex : ℕ → Bool
is_hex c = is_digit c || (leb 65 c && leb c 70) || (leb 97 c && leb c 102)

-- `\w`
abbrev pub is_word : ℕ → Bool
is_word c = is_digit c || is_letter c || c == 95

abbrev pub all_of : (ℕ → Bool) → List ℕ → Bool
all_of p [] = true
all_of p (c ∷ t) = p c && all_of p t

-- A pattern as a test of a word, and what replaces the word.
pub record Rule : Type 0 where
  pub matches : List ℕ → Bool
  pub replacement : List ℕ

-- The prefix, then at least so many characters of a class and nothing else.
unfoldable pub prefixed : String → (ℕ → Bool) → ℕ → List ℕ → Bool
unfolding starts_with
prefixed p class least w =
    starts_with (codes p) w
    && leb (length (codes p) + least) (length w)
    && all_of class (drop (length (codes p)) w)

-- `[a-zA-Z]Var[0-9]+`
unfoldable pub is_var : List ℕ → Bool
unfolding prefixed
is_var [] = false
is_var (c ∷ w) = is_letter c && prefixed "Var" is_digit 1 w

abbrev address_rule : Rule
unfolding prefixed
address_rule = record { matches = prefixed "0x" is_hex 6; replacement = codes "0xADDR" }

abbrev pub decompiled_rules : List Rule
unfolding prefixed is_var
decompiled_rules =
    record { matches = prefixed "local_" is_hex 1; replacement = codes "local_X" }
    ∷ record { matches = prefixed "param_" is_digit 1; replacement = codes "param_X" }
    ∷ record { matches = is_var; replacement = codes "xVarN" }
    ∷ record { matches = prefixed "FUN_" is_hex 1; replacement = codes "FUN_ADDR" }
    ∷ record { matches = prefixed "DAT_" is_hex 1; replacement = codes "DAT_ADDR" }
    ∷ record { matches = prefixed "LAB_" is_hex 1; replacement = codes "LAB_ADDR" }
    ∷ address_rule
    ∷ []

abbrev pub disassembly_rules : List Rule
unfolding prefixed
disassembly_rules =
    address_rule ∷ record { matches = prefixed "" is_hex 6; replacement = codes "ADDR" } ∷ []

-- The substitutions one after the other, on one word.
unfoldable pub rewrite : List Rule → List ℕ → List ℕ
rewrite [] w = w
rewrite (r ∷ rules) w = rewrite rules (if r.matches w then r.replacement else w)

-- The words of a text, one of which has been read in part.
unfoldable pub normalise : List Rule → List ℕ → List ℕ → List ℕ
unfolding rewrite
normalise rules w [] = rewrite rules w
normalise rules w (c ∷ t) =
    let longer = normalise rules (w ++ c ∷ []) t in
    let next = normalise rules [] t in if is_word c then longer else rewrite rules w ++ c ∷ next

unfoldable pub normalise_decompiled : List ℕ → List ℕ
unfolding normalise
normalise_decompiled code = normalise decompiled_rules [] code

unfoldable pub normalise_disassembly : List ℕ → List ℕ
unfolding normalise
normalise_disassembly code = normalise disassembly_rules [] code
