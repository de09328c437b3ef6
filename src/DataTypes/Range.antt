-- ===== src/DataTypes/Range.antt =====
-- ghidra_rpc/server/tools/data_types.py: clearing a range, and stamping a type across it.
-- An address is its offset in the address space; the type that a request names is resolved as in
-- DataTypes.
use ghidra_rpc_win.Common.{
  ℕ, zero, suc, ◌+◌, ◌-◌, String, Bool, true, false, ◌||◌, Option, List, [], ◌∷◌, ltb, ◌==◌,
  if◌then◌else◌, str_eq,
}
use ghidra_rpc_win.Common.Dict.{Dict}
use ghidra_rpc_win.Common.Text.{codes}
use ghidra_rpc_win.Common.Exec.{Exn, Result, ok, err, reject_if, ◌>>=◌, ◌>>◌}
use ghidra_rpc_win.Context.{ProgramInfo, get_program, parse_address}
use ghidra_rpc_win.DataTypes.{TypeManager, resolve_data_type}

-- The listing of a program, its addresses up to the last one of the space, and its transactions. A
-- type of dynamic length has length 0.
pub record Listing (g : TypeManager) : Type 0 where
  pub get_address : TypeManager.P g → List ℕ → Option ℕ
  pub last_offset : TypeManager.P g → ℕ
  pub length_of : TypeManager.D g → ℕ
  pub clear_code_units :
      TypeManager.P g → ℕ → ℕ → TypeManager.W g → Result (Unit {0}) × TypeManager.W g
  pub create_data :
      TypeManager.P g → ℕ → TypeManager.D g → TypeManager.W g → Result (Unit {0}) × TypeManager.W g
  pub start_transaction : TypeManager.P g → TypeManager.W g → TypeManager.W g
  pub end_transaction : TypeManager.P g → Bool → TypeManager.W g → TypeManager.W g
  pub invalidate_all : TypeManager.P g → TypeManager.W g → TypeManager.W g
  pub save : TypeManager.P g → TypeManager.W g → Result (Unit {0}) × TypeManager.W g

module _ (g : TypeManager) (l : Listing g) where
  open g use {P, W, D}
  open l use {
    get_address, last_offset, length_of, clear_code_units, create_data, start_transaction,
    end_transaction, invalidate_all, save,
  }

  -- Two parsed addresses in order.
  pub record Bounds : Type 0 where
    pub program : P
    pub start_addr : ℕ
    pub end_addr : ℕ

  unfoldable pub parse_bounds : P → String → String → Result Bounds
  unfolding parse_address
  parse_bounds program start_str end_str = do
    start_addr ← parse_address get_address program start_str
    end_addr ← parse_address get_address program end_str
    reject_if (ltb end_addr start_addr) ("start must be <= end" ∷ [])
    ok (record { program = program; start_addr = start_addr; end_addr = end_addr })

  unfoldable pub range_request : String → String → String → Dict (ProgramInfo P) → Result Bounds
  unfolding get_program parse_bounds
  range_request binary start_str end_str programs = do
    reject_if (str_eq start_str "") ("Missing required argument: start" ∷ [])
    reject_if (str_eq end_str "") ("Missing required argument: end" ∷ [])
    pi ← get_program binary programs
    parse_bounds pi.program start_str end_str

  -- The end of a handler: the decompilers forget the program, and it is saved.
  abbrev finish : {R : Type 0} → P → R → W → Result R × W
  finish program r w = saved r (save program (invalidate_all program w))
    where
      saved : {R : Type 0} → R → Result (Unit {0}) × W → Result R × W
      saved r (err e, w) = (err e, w)
      saved r (ok u, w) = (ok r, w)

  abbrev after_clear : Bounds → Result (Unit {0}) × W → Result Bounds × W
  after_clear b (err e, w) = (err e, end_transaction b.program false w)
  after_clear b (ok u, w) = finish b.program b (end_transaction b.program true w)

  abbrev clear_bounds : Result Bounds → W → Result Bounds × W
  clear_bounds (err e) w = (err e, w)
  clear_bounds (ok b) w =
      after_clear b
        (clear_code_units b.program b.start_addr b.end_addr (start_transaction b.program w))

  unfoldable pub clear_data_range :
      String → String → String → Dict (ProgramInfo P) → W → Result Bounds × W
  unfolding range_request
  clear_data_range binary start_str end_str programs w =
      clear_bounds (range_request binary start_str end_str programs) w

  pub record Stamped : Type 0 where
    pub applied : ℕ
    pub errors : List (ℕ × Exn)
    pub world : W

  abbrev pub none_stamped : W → Stamped
  none_stamped w = record { applied = 0; errors = []; world = w }

  -- An address that cannot be typed is recorded, and the rest goes on.
  abbrev pub counted : ℕ → (W → Stamped) → Result (Unit {0}) × W → Stamped
  counted addr next (ok u, w) =
      let rest = next w in
      record { applied = rest.applied + 1; errors = rest.errors; world = rest.world }
  counted addr next (err e, w) =
      let rest = next w in
      record { applied = rest.applied; errors = (addr, e) ∷ rest.errors; world = rest.world }

  -- The next round, unless `addr.add` raised.
  abbrev pub go_on : Bool → (W → Stamped) → W → Stamped
  go_on true next w = none_stamped w
  go_on false next w = next w

  -- The loop, with the rounds that are left. `addr.add` raises behind the last address.
  unfoldable pub stamp_range : ℕ → P → D → ℕ → ℕ → ℕ → W → Stamped
  stamp_range zero program dt dt_len end_addr addr w = none_stamped w
  stamp_range (suc n) program dt dt_len end_addr addr w =
      let last_byte = addr + (dt_len - 1) in
      let here =
        counted addr
          (go_on (ltb (last_offset program) (addr + dt_len))
            (stamp_range n program dt dt_len end_addr (addr + dt_len)))
          (create_data program addr dt w) in
      if ltb (last_offset program) last_byte || ltb end_addr last_byte then none_stamped w else here

  pub record Applied : Type 0 where
    pub bounds : Bounds
    pub data_type : D
    pub type_size : ℕ
    pub applied_count : ℕ
    pub cleared : Bool
    pub errors : List (ℕ × Exn)

  -- One round for each byte of the range.
  abbrev stamp_bounds : Bounds → D → W → Stamped
  stamp_bounds b dt w =
      stamp_range (b.end_addr + 1 - b.start_addr) b.program dt (length_of dt) b.end_addr
        b.start_addr w

  abbrev after_stamps : Bounds → D → Bool → Stamped → Result Applied × W
  after_stamps b dt clear s =
      finish b.program
        (record {
          bounds = b;
          data_type = dt;
          type_size = length_of dt;
          applied_count = s.applied;
          cleared = clear;
          errors = s.errors;
        })
        (end_transaction b.program true s.world)

  abbrev stamp_cleared : Bounds → D → Result (Unit {0}) × W → Result Applied × W
  stamp_cleared b dt (err e, w) = (err e, end_transaction b.program false w)
  stamp_cleared b dt (ok u, w) = after_stamps b dt true (stamp_bounds b dt w)

  apply_bounds : Bounds → D → Bool → W → Result Applied × W
  unfolding stamp_range
  apply_bounds b dt true w =
      stamp_cleared b dt
        (clear_code_units b.program b.start_addr b.end_addr (start_transaction b.program w))
  apply_bounds b dt false w =
      after_stamps b dt false (stamp_bounds b dt (start_transaction b.program w))

  -- The range and its type, which must have a length.
  abbrev typed : String → W → Bounds → Result (Bounds × D)
  typed type_str w b = do
    dt ← resolve_data_type g b.program (codes type_str) w
    reject_if (length_of dt == 0) ("Data type has dynamic or zero length" ∷ [])
    ok (b, dt)

  abbrev apply_typed : Bool → Result (Bounds × D) → W → Result Applied × W
  apply_typed clear (err e) w = (err e, w)
  apply_typed clear (ok (b, dt)) w = apply_bounds b dt clear w

  unfoldable pub apply_data_type_range :
      String → String → String → String → Bool → Dict (ProgramInfo P) → W → Result Applied × W
  unfolding get_program parse_bounds resolve_data_type apply_bounds
  apply_data_type_range binary start_str end_str type_str clear programs w =
      apply_typed clear
        (do
          reject_if (str_eq start_str "") ("Missing required argument: start" ∷ [])
          reject_if (str_eq end_str "") ("Missing required argument: end" ∷ [])
          reject_if (str_eq type_str "") ("Missing required argument: data_type" ∷ [])
          pi ← get_program binary programs
          b ← parse_bounds pi.program start_str end_str
          typed type_str w b)
        w
