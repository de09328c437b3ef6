-- ===== src/Tests/Search.antt =====
-- Runs of the byte patterns.
use ghidra_rpc_win.Common.{◌≡◌, refl}
use ghidra_rpc_win.Common.Exec.{ok}
use ghidra_rpc_win.Common.Text.{codes, words, rstrip, lstrip, join, is_space}
use ghidra_rpc_win.Search.{normalize_byte_pattern, pattern_to_ghidra_regex}
use ghidra_rpc_win.Search.Patterns.{decode, start, items_of, tokens, decode-pattern_to_ghidra_regex}

spaced_pattern : normalize_byte_pattern (codes " 55 8B ?? 0xeC . ") ≡ ok (codes "55 8b . ec .")
unfolding normalize_byte_pattern rstrip lstrip words join is_space
spaced_pattern = refl

packed_pattern : normalize_byte_pattern (codes "558b??83ec") ≡ ok (codes "55 8b . 83 ec")
unfolding normalize_byte_pattern rstrip lstrip words join is_space
packed_pattern = refl

regex : pattern_to_ghidra_regex (codes "55 8b . ec") ≡ codes "\\x55\\x8b.\\xec"
unfolding pattern_to_ghidra_regex words is_space
regex = refl

tabs : normalize_byte_pattern (codes "55\t8b") ≡ ok (codes "55 08 0b")
unfolding normalize_byte_pattern rstrip lstrip words join is_space
tabs = refl

decode-pattern_to_ghidra_regex_example :
    decode start (pattern_to_ghidra_regex (codes "55 8b . ec ."))
    ≡ items_of (tokens (codes " 55 8B ?? 0xeC . "))
decode-pattern_to_ghidra_regex_example =
    decode-pattern_to_ghidra_regex (codes " 55 8B ?? 0xeC . ") (codes "55 8b . ec .") spaced_pattern
