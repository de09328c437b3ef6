-- ===== src/VersionTracking/Handles.antt =====
-- ghidra_rpc/server/tools/version_tracking.py: the daemon's handles of the two programs are closed
-- for the time of a session, and `version_track` runs the correlators in it.
pub mod Actions
pub mod Gone
pub mod Kept
pub mod Restoring
pub mod Standing
pub mod Taken
use ghidra_rpc_win.Common.{
  ℕ, String, ◌<>◌, str_eq, Bool, true, false, ◌||◌, ◌&&◌, not, Option, none, some, List, [], ◌∷◌,
  ◌++◌, if◌then◌else◌,
}
use ghidra_rpc_win.Common.Dict
use ghidra_rpc_win.Common.Dict.{Dict}
use ghidra_rpc_win.Common.Exec.{
  Exn, Result, ok, err, raise, runtime_error, value_error, key_error, reject_if,
}
use ghidra_rpc_win.Context.{ProgramInfo, get_program}
use ghidra_rpc_win.Context.Loading.{Project, Context, Action, continue, on_world, lift, pure}
use ghidra_rpc_win.VersionTracking.{Scale, Options, Program, MatchSet, Report, track_report}

-- Ghidra's sessions and correlators. `same` is `is` on the daemon's records, and `make_correlator none`
-- the one of BSim.
pub record Tracker (g : Project) : Type 1 where
  pub V : Type 0
  pub C : Type 0
  pub same : ProgramInfo (Project.P g) → ProgramInfo (Project.P g) → Bool
  pub get_domain_object : String → Project.W g → Result (Project.P g) × Project.W g
  pub create_session : String → Project.P g → Project.P g → Project.W g → Result V × Project.W g
  pub release_session : V → Project.W g → Result (Unit {0}) × Project.W g
  pub release : Project.P g → Project.W g → Result (Unit {0}) × Project.W g
  pub make_correlator :
      Option (String × String) → Project.P g → Project.P g → Project.W g → Result C × Project.W g
  pub start_transaction : V → Project.W g → Result (Unit {0}) × Project.W g
  pub correlate : C → V → Project.W g → Result (Unit {0}) × Project.W g
  pub end_transaction : V → Bool → Project.W g → Project.W g
  pub match_sets : V → Project.W g → Result (List MatchSet)
  pub listing : Project.P g → Project.W g → Program

-- `_CORRELATOR_FACTORIES`, with the package apart from the class
abbrev factory_package : String
factory_package = "ghidra.feature.vt.api.correlator.program"

abbrev pub correlator_factories : List (String × String)
correlator_factories =
    (factory_package, "ExactMatchBytesProgramCorrelatorFactory")
    ∷ (factory_package, "ExactMatchInstructionsProgramCorrelatorFactory")
    ∷ (factory_package, "ExactMatchMnemonicsProgramCorrelatorFactory")
    ∷ (factory_package, "SymbolNameProgramCorrelatorFactory")
    ∷ (factory_package, "ExactDataMatchProgramCorrelatorFactory")
    ∷ (factory_package, "DuplicateFunctionMatchProgramCorrelatorFactory")
    ∷ (factory_package, "FunctionReferenceProgramCorrelatorFactory")
    ∷ (factory_package, "CombinedFunctionAndDataReferenceProgramCorrelatorFactory")
    ∷ []

module _ (g : Project) (t : Tracker g) where
  open g use {P, W, get_file, open_program, close_program, save}
  open t use {
    V, C, same, get_domain_object, create_session, release_session, release, make_correlator,
    start_transaction, correlate, end_transaction, match_sets, listing,
  }

  infixl 5 ◌>>=◌ ◌>>◌
  -- Shut where a chain is proved about as a chain.
  unfoldable pub ◌>>=◌ : {A B : Type 0} → Action g A → (A → Action g B) → Action g B
  ◌>>=◌ m next ctx = continue g next (m ctx)

  abbrev pub ◌>>◌ : {B : Type 0} → Action g (Unit {0}) → Action g B → Action g B
  m >> next = m >>= λ _. next

  -- The two programs by name, and their keys in `ctx.programs`.
  pub record Pair : Type 0 where
    pub src_name : String
    pub dst_name : String
    pub src_key : Option String
    pub dst_key : Option String

  -- The loop over all entries: the last one whose value is the record.
  unfoldable pub key_of : ProgramInfo P → Dict (ProgramInfo P) → Option String
  key_of info [] = none
  key_of info ((key, pi) ∷ programs) =
      let rest = key_of info programs in
      elim rest [ some last ↦ some last | none ↦ if same pi info then some key else none ]

  -- `if src_key`: neither None nor the empty text
  abbrev pub is_key : Option String → String → Bool
  is_key none key = false
  is_key (some k) key = str_eq k key && not (str_eq k "")

  -- The programs are looked up and saved.
  unfoldable pub find_programs : String → String → Action g (ProgramInfo P × ProgramInfo P)
  unfolding get_program
  find_programs binary1 binary2 = do
    pi_src ← λ ctx. (get_program binary1 ctx.programs, ctx)
    pi_dst ← λ ctx. (get_program binary2 ctx.programs, ctx)
    on_world g (save pi_src.program)
    on_world g (save pi_dst.program)
    pure g (pi_src, pi_dst)

  abbrev pub pair_of : ProgramInfo P → ProgramInfo P → Dict (ProgramInfo P) → Pair
  pair_of pi_src pi_dst programs = record {
    src_name = pi_src.name;
    dst_name = pi_dst.name;
    src_key = key_of pi_src programs;
    dst_key = key_of pi_dst programs;
  }

  -- `if key: del ctx.programs[key]`
  unfoldable pub delete : Option String → Action g (Unit {0})
  delete none ctx = (ok tt, ctx)
  delete (some key) ctx =
      if str_eq key ""
      then (ok tt, ctx)
      else if Dict.contains key ctx.programs
      then (ok tt, record ctx { programs = Dict.erase key ctx.programs })
      else (raise key_error (key ∷ []), ctx)

  unfoldable pub close_pair : Pair → P → P → Action g (Unit {0})
  unfolding delete
  close_pair pair src dst = do
    on_world g (close_program src)
    on_world g (close_program dst)
    delete pair.src_key
    delete pair.dst_key

  -- A program that is opened again; an exception is logged, and the program stays away.
  abbrev restored : String → String → Dict (ProgramInfo P) → Result P × W → Context g
  restored name key programs (err e, w) = record { programs = programs; world = w }
  restored name key programs (ok program, w) = record {
    programs =
        Dict.insert key
          (record { name = name; program = program; analysis_complete = true; file_path = none })
          programs;
    world = w;
  }

  unfoldable pub restore : String → Option String → Context g → Context g
  restore name none ctx = ctx
  restore name (some key) ctx =
      if str_eq key "" then ctx else restored name key ctx.programs (open_program name ctx.world)

  unfoldable pub restore_daemon_programs : Pair → Context g → Context g
  unfolding restore
  restore_daemon_programs pair ctx =
      restore pair.dst_name pair.dst_key (restore pair.src_name pair.src_key ctx)

  pub record Opened : Type 0 where
    pub src_prog : P
    pub dst_prog : P

  unfoldable pub open_files : Pair → Action g Opened
  open_files pair = do
    src_prog ← on_world g (get_domain_object pair.src_name)
    dst_prog ← on_world g (get_domain_object pair.dst_name)
    pure g (record { src_prog = src_prog; dst_prog = dst_prog })

  -- Without the two files in the project the handles are given back.
  unfoldable pub open_pair : Pair → Action g Opened
  unfolding restore_daemon_programs open_files
  open_pair pair ctx =
      let opened = open_files pair ctx in
      if get_file pair.src_name ctx.world && get_file pair.dst_name ctx.world then opened else (
        raise runtime_error ("Could not find program DomainFiles in project" ∷ []),
        restore_daemon_programs pair ctx,
      )

  unfoldable pub open_vt_programs : String → String → Action g (Pair × Opened)
  unfolding find_programs close_pair open_pair key_of
  open_vt_programs binary1 binary2 = do
    (pi_src, pi_dst) ← find_programs binary1 binary2
    pair ← λ ctx. (ok (pair_of pi_src pi_dst ctx.programs), ctx)
    close_pair pair pi_src.program pi_dst.program
    opened ← open_pair pair
    pure g (pair, opened)

  -- The `finally` of both handlers: an exception of a release keeps the rest from running.
  unfoldable pub release_all : V → Opened → Action g (Unit {0})
  release_all session opened = do
    on_world g (release_session session)
    on_world g (release opened.src_prog)
    on_world g (release opened.dst_prog)

  abbrev finished :
      {R : Type 0} → Pair → Result R → Result (Unit {0}) × Context g → Result R × Context g
  finished pair r (err e, ctx) = (err e, ctx)
  finished pair r (ok u, ctx) = (r, restore_daemon_programs pair ctx)

  unfoldable pub in_session : {R : Type 0} → Pair → Opened → V → Action g R → Action g R
  unfolding release_all restore_daemon_programs
  in_session pair opened session body ctx =
      let (r, ctx') = body ctx in finished pair r (release_all session opened ctx')

  -- The creation of the session stands before the `try`.
  unfoldable pub with_session :
      {R : Type 0} → (Pair → String) → String → String → (Opened → V → Action g R) → Action g R
  unfolding open_vt_programs in_session
  with_session session_name binary1 binary2 body = do
    (pair, opened) ← open_vt_programs binary1 binary2
    session ← on_world g (create_session (session_name pair) opened.src_prog opened.dst_prog)
    in_session pair opened session (body opened session)
