-- ===== src/Tests/Memory.antt =====
-- Runs of the memory handlers, on a memory that holds the bytes that were set last.
use ghidra_rpc_win.Common.{get_elem?, ℕ, ◌≡◌, refl, true, none, some, List, [], ◌∷◌, arith, All}
use ghidra_rpc_win.Common.Dict
use ghidra_rpc_win.Common.Dict.{Dict}
use ghidra_rpc_win.Common.Text.{codes, text_eq, in_text, lstrip, rstrip, join, is_space}
use ghidra_rpc_win.Common.Exec.{Result, ok}
use ghidra_rpc_win.Context.{ProgramInfo, get_program}
use ghidra_rpc_win.Search.{hex_digit}
use ghidra_rpc_win.Memory.{
  JavaByte, nonneg, minus, to_signed, to_unsigned, from_hex, remove_spaces, to_hex, base_of,
  dump_line, dump_lines,
}
use ghidra_rpc_win.Memory.Hex.{IsByte, from_hex-All}
use ghidra_rpc_win.Memory.Dump.{IsLine, get_elem?-dump_lines}
use ghidra_rpc_win.Memory.Handlers.{Ghidra, IsLawful, WriteResult, write_bytes}
use ghidra_rpc_win.Memory.ReadBack.{ReadsBack, read_bytes-write_bytes}

abbrev memory : Ghidra
memory = record {
  P = Unit;
  W = List JavaByte;
  Address = List ℕ;
  get_address = λ p t. some t;
  address_text = λ a. a;
  get_bytes = λ p a n w. ok w;
  set_bytes = λ p a bs w. (ok tt, bs);
  save = λ p w. (ok tt, w);
}

memory-IsLawful : IsLawful memory
memory-IsLawful = record {
  get_bytes-set_bytes = λ program addr bs w w' h. set_lem bs w' h;
  get_bytes-save = λ program addr n w w' h. save_lem w w' h;
}
  where
    set_lem :
        (bs w' : List JavaByte)
        → ◌≡◌ {A = Result (Unit {0}) × List JavaByte} (ok tt, bs) (ok tt, w')
        → ◌≡◌ {A = Result (List JavaByte)} (ok w') (ok bs)
    set_lem bs w' h = cc

    save_lem :
        (w w' : List JavaByte)
        → ◌≡◌ {A = Result (Unit {0}) × List JavaByte} (ok tt, w) (ok tt, w')
        → ◌≡◌ {A = Result (List JavaByte)} (ok w') (ok w)
    save_lem w w' h = cc

abbrev programs : Dict (ProgramInfo Unit)
programs =
    ("/ls", record { name = "ls"; program = tt; analysis_complete = true; file_path = none }) ∷ []

abbrev written : WriteResult memory
written = record { address = codes "00401000"; count = 3; hex = codes "90ff0a"; verified = true }

write :
    write_bytes memory "ls" "0x00401000" (codes "90 FF 0a") programs []
    ≡ (ok written, minus 112 ∷ minus 1 ∷ nonneg 10 ∷ [])
unfolding write_bytes get_program Dict.lookup in_text text_eq lstrip rstrip remove_spaces from_hex
    hex_digit to_signed to_unsigned to_hex is_space
write = refl

read_bytes-write_bytes_example :
    ReadsBack memory "ls" "0x00401000"
      (codes "90 FF 0a")
      programs
      (minus 112 ∷ minus 1 ∷ nonneg 10 ∷ [])
      4198400
      written
unfolding base_of
read_bytes-write_bytes_example =
    read_bytes-write_bytes memory memory-IsLawful "ls" "0x00401000" (codes "90 FF 0a") programs []
      (minus 112 ∷ minus 1 ∷ nonneg 10 ∷ []) written 4198400 write refl

abbrev twenty : List ℕ
twenty = codes "ABCDEFGHIJKLMNOPQRST"

last_line :
    dump_line 4112 (codes "QRST")
    ≡ codes "00001010  51 52 53 54                                       |QRST|"
unfolding dump_line join
last_line = refl

twenty-IsBytes : All IsByte twenty
unfolding from_hex hex_digit
twenty-IsBytes = from_hex-All (codes "4142434445464748494a4b4c4d4e4f5051525354") twenty refl

get_elem?-dump_lines_example : IsLine 4096 twenty 1 (get_elem? (dump_lines 20 4096 twenty) 1)
get_elem?-dump_lines_example = get_elem?-dump_lines 20 4096 twenty 1 (omega arith) twenty-IsBytes
