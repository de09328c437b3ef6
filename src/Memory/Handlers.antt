-- ===== src/Memory/Handlers.antt =====
-- `_handle_read_bytes` and `_handle_write_bytes` of ghidra_rpc/server/tools/memory.py. The length argument is a number or missing.
use ghidra_rpc_win.Common.{
  ℕ, String, str_eq, Bool, false, Option, none, some, List, [], ◌∷◌, map, ltb, length, ◌≡◌,
}
use ghidra_rpc_win.Common.Dict.{Dict}
use ghidra_rpc_win.Common.Text.{text_eq}
use ghidra_rpc_win.Common.Exec.{Result, ok, err, raise, value_error, reject_if, ◌>>=◌, ◌>>◌}
use ghidra_rpc_win.Context.{ProgramInfo, get_program, parse_address}
use ghidra_rpc_win.Memory.{
  JavaByte, to_unsigned, to_signed, to_hex, parse_hex, max_read_bytes, base_of, format_hexdump,
}

-- Ghidra's calls. `set_bytes` stands with its transaction, which is rolled back when it raises.
pub record Ghidra : Type 1 where
  pub P : Type 0
  pub W : Type 0
  pub Address : Type 0
  pub get_address : P → List ℕ → Option Address
  pub address_text : Address → List ℕ
  pub get_bytes : P → Address → ℕ → W → Result (List JavaByte)
  pub set_bytes : P → Address → List JavaByte → W → Result (Unit {0}) × W
  pub save : P → W → Result (Unit {0}) × W

abbrev length_or_error : Option ℕ → Result ℕ
length_or_error none = raise value_error ("Missing required argument: length" ∷ [])
length_or_error (some n) = ok n

-- `try: getBytes ... except Exception as e: raise ValueError`
abbrev pub bytes_or_error : Result (List JavaByte) → Result (List JavaByte)
bytes_or_error (err e) = raise value_error ("Memory read failed at " ∷ [])
bytes_or_error (ok bs) = ok bs

module _ (g : Ghidra) where
  open g use {P, W, Address, get_address, address_text, get_bytes, set_bytes, save}

  pub record ReadResult : Type 0 where
    pub address : Address
    pub count : ℕ
    pub hex : List ℕ
    pub hexdump : List ℕ

  pub record WriteResult : Type 0 where
    pub address : Address
    pub count : ℕ
    pub hex : List ℕ
    pub verified : Bool

  abbrev pub read_result : Address → List ℕ → ℕ → ReadResult
  read_result addr bs base = record {
    address = addr;
    count = length bs;
    hex = to_hex bs;
    hexdump = format_hexdump base bs;
  }

  unfoldable pub read_bytes :
      String → String → Option ℕ → Dict (ProgramInfo P) → W → Result ReadResult
  unfolding get_program parse_address
  read_bytes binary address_str length_arg programs w = do
    reject_if (str_eq address_str "") ("Missing required argument: address" ∷ [])
    n ← length_or_error length_arg
    reject_if (ltb n 1) ("length must be >= 1" ∷ [])
    reject_if (ltb max_read_bytes n) ("length must be <= 65536" ∷ [])
    pi ← get_program binary programs
    addr ← parse_address get_address pi.program address_str
    java_bytes ← bytes_or_error (get_bytes pi.program addr n w)
    base ← base_of (address_text addr)
    ok (read_result addr (map to_unsigned java_bytes) base)

  -- What is known before the write: the program, the address and the bytes.
  pub record Target : Type 0 where
    pub program : P
    pub addr : Address
    pub bytes : List ℕ

  unfoldable pub write_target : String → String → List ℕ → Dict (ProgramInfo P) → Result Target
  unfolding get_program parse_address parse_hex
  write_target binary address_str hex_str programs = do
    reject_if (str_eq address_str "") ("Missing required argument: address" ∷ [])
    bs ← parse_hex hex_str
    pi ← get_program binary programs
    addr ← parse_address get_address pi.program address_str
    ok (record { program = pi.program; addr = addr; bytes = bs })

  -- `verified`: false also when the reading back raises.
  abbrev pub same_bytes : List ℕ → Result (List JavaByte) → Bool
  same_bytes bs (err e) = false
  same_bytes bs (ok read_back) = text_eq (map to_unsigned read_back) bs

  abbrev pub write_result : Target → W → WriteResult
  write_result t w = record {
    address = t.addr;
    count = length t.bytes;
    hex = to_hex t.bytes;
    verified = same_bytes t.bytes (get_bytes t.program t.addr (length t.bytes) w);
  }

  abbrev pub after_save : WriteResult → Result (Unit {0}) × W → Result WriteResult × W
  after_save r (err e, w) = (err e, w)
  after_save r (ok u, w) = (ok r, w)

  abbrev pub after_set : Target → Result (Unit {0}) × W → Result WriteResult × W
  after_set t (err e, w) = (err e, w)
  after_set t (ok u, w) = after_save (write_result t w) (save t.program w)

  abbrev pub write_to : Result Target → W → Result WriteResult × W
  write_to (err e) w = (err e, w)
  write_to (ok t) w = after_set t (set_bytes t.program t.addr (map to_signed t.bytes) w)

  unfoldable pub write_bytes :
      String → String → List ℕ → Dict (ProgramInfo P) → W → Result WriteResult × W
  unfolding write_target
  write_bytes binary address_str hex_str programs w =
      write_to (write_target binary address_str hex_str programs) w

-- What is relied on: bytes that were set are read, also after saving.
pub record IsLawful (g : Ghidra) : Type 0 where
  pub get_bytes-set_bytes :
      (program : Ghidra.P g) (addr : Ghidra.Address g) (bs : List JavaByte) (w w' : Ghidra.W g)
      → Ghidra.set_bytes g program addr bs w ≡ (ok tt, w')
      → Ghidra.get_bytes g program addr (length bs) w' ≡ ok bs
  pub get_bytes-save :
      (program : Ghidra.P g) (addr : Ghidra.Address g) (n : ℕ) (w w' : Ghidra.W g)
      → Ghidra.save g program w ≡ (ok tt, w')
      → Ghidra.get_bytes g program addr n w' ≡ Ghidra.get_bytes g program addr n w
