-- ===== src/Memory.antt =====
-- ghidra_rpc/server/tools/memory.py: reading and writing bytes, and the hex dump.
-- A text is its list of characters. Addresses are numbers here.
pub mod Hex
pub mod Handlers
pub mod ReadBack
pub mod Lines
pub mod Dump
use ghidra_rpc_win.Common.{
  ℕ, zero, suc, ◌+◌, ◌-◌, ◌*◌, ◌/◌, ◌%◌, String, Bool, true, false, ◌&&◌, ◌||◌, Option, none, some,
  List, [], ◌∷◌, ◌++◌, map, ltb, leb, ◌==◌, if◌then◌else◌, length, take, drop, is_empty,
}
use ghidra_rpc_win.Common.Text.{strip, join, codes}
use ghidra_rpc_win.Common.Exec.{Exn, Result, ok, err, raise, value_error, reject_if, ◌>>=◌, ◌>>◌}
use ghidra_rpc_win.Search.{hex_digit, hex_char, hex_byte, digits, unsigned}

-- A Java byte: `nonneg n` is n, and `minus n` is -n.
pub data JavaByte : Type 0 where
  nonneg minus : ℕ → JavaByte

-- `b & 0xFF`
unfoldable pub to_unsigned : JavaByte → ℕ
to_unsigned (nonneg n) = n % 256
to_unsigned (minus n) = (256 - n % 256) % 256

-- `b if b < 128 else b - 256`
unfoldable pub to_signed : ℕ → JavaByte
to_signed b = if ltb b 128 then nonneg b else minus (256 - b)

-- `data.hex()`
unfoldable pub to_hex : List ℕ → List ℕ
to_hex [] = []
to_hex (b ∷ bs) = hex_byte b ++ to_hex bs

-- `bytes.fromhex`, which skips ASCII spaces between bytes.
abbrev is_ascii_space : ℕ → Bool
is_ascii_space c = (leb 9 c && leb c 13) || c == 32

abbrev pair_of : Option ℕ → Option ℕ → Option (List ℕ) → Option (List ℕ)
pair_of (some x) (some y) (some bs) = some ((x * 16 + y) ∷ bs)
pair_of _ _ _ = none

unfoldable pub from_hex : List ℕ → Option (List ℕ)
from_hex [] = some []
from_hex (a ∷ []) = if is_ascii_space a then some [] else none
from_hex (a ∷ b ∷ t) =
    let skipped = from_hex (b ∷ t) in
    let rest = from_hex t in
    if is_ascii_space a then skipped else pair_of (hex_digit a) (hex_digit b) rest

-- `s.replace(" ", "")`
unfoldable pub remove_spaces : List ℕ → List ℕ
remove_spaces [] = []
remove_spaces (c ∷ t) = let rest = remove_spaces t in if c == 32 then rest else c ∷ rest

abbrev pub max_read_bytes : ℕ
max_read_bytes = 65536

abbrev pub max_write_bytes : ℕ
max_write_bytes = 4096

abbrev decoded : Option (List ℕ) → Result (List ℕ)
decoded none = raise value_error ("Invalid hex string" ∷ [])
decoded (some bs) = ok bs

-- The checks of a write's hex argument, in their order.
unfoldable pub parse_hex : List ℕ → Result (List ℕ)
parse_hex hex_str = do
  reject_if (is_empty hex_str) ("Missing required argument: hex" ∷ [])
  let hex_clean = strip (remove_spaces hex_str)
  reject_if (length hex_clean % 2 == 1) ("Hex string must have an even number of characters" ∷ [])
  bs ← decoded (from_hex hex_clean)
  reject_if (ltb (length bs) 1) ("At least 1 byte is required" ∷ [])
  reject_if (ltb max_write_bytes (length bs)) ("Write size must be <= 4096 bytes" ∷ [])
  ok bs

-- The number of digits of a numeral is at most the number; the fuel is one more.
unfoldable pub hex_digits : ℕ → ℕ → List ℕ
hex_digits zero n = []
hex_digits (suc fuel) n =
    let rest = hex_digits fuel (n / 16) in
    if ltb n 16 then hex_char n ∷ [] else rest ++ hex_char (n % 16) ∷ []

unfoldable pub repeat : ℕ → ℕ → List ℕ
repeat zero c = []
repeat (suc n) c = c ∷ repeat n c

-- `format(n, "08x")`
unfoldable pub format_address : ℕ → List ℕ
unfolding hex_digits repeat
format_address n = let ds = hex_digits (n + 1) n in repeat (8 - length ds) 48 ++ ds

-- `" ".join(f"{b:02x}" for b in group).ljust(8 * 3 - 1)`
unfoldable pub hex_group : List ℕ → List ℕ
unfolding join repeat
hex_group group = let t = join (32 ∷ []) (map hex_byte group) in t ++ repeat (23 - length t) 32

-- `chr(b) if 0x20 <= b < 0x7F else "."`
abbrev pub ascii : ℕ → ℕ
ascii b = if leb 32 b && ltb b 127 then b else 46

abbrev two_spaces : List ℕ
two_spaces = 32 ∷ 32 ∷ []

unfoldable pub dump_line : ℕ → List ℕ → List ℕ
unfolding format_address hex_group
dump_line address chunk =
    format_address address
    ++ (two_spaces
        ++ (hex_group (take 8 chunk)
            ++ (two_spaces
                ++ (hex_group (drop 8 chunk)
                    ++ (two_spaces ++ (124 ∷ (map ascii chunk ++ 124 ∷ [])))))))

-- `for offset in range(0, len(data), width)`: the rounds are bounded by the number of bytes.
unfoldable pub dump_lines : ℕ → ℕ → List ℕ → List (List ℕ)
unfolding dump_line
dump_lines zero address bs = []
dump_lines (suc rounds) address [] = []
dump_lines (suc rounds) address (b ∷ bs) =
    dump_line address (take 16 (b ∷ bs)) ∷ dump_lines rounds (address + 16) (drop 16 (b ∷ bs))

-- `addr_str.lstrip("0") or "0"`
abbrev pub without_zeros : List ℕ → List ℕ
without_zeros [] = 48 ∷ []
without_zeros (c ∷ t) = let rest = without_zeros t in if c == 48 then rest else c ∷ t

-- `int(..., 16)` of an address's text, which has neither a sign nor white space
unfoldable pub base_of : List ℕ → Result ℕ
unfolding digits
base_of addr_str = elim (unsigned (without_zeros addr_str)) [
  | none ↦ raise value_error ("invalid literal for int() with base 16" ∷ [])
  | some n ↦ ok n
]

-- `_format_hexdump`, from the address as a number
unfoldable pub format_hexdump : ℕ → List ℕ → List ℕ
unfolding dump_lines join
format_hexdump address bs = join (10 ∷ []) (dump_lines (length bs) address bs)
