-- ===== src/Context/Loading.antt =====
-- `HeadlessContext.load_binary` and `HeadlessContext.close` of ghidra_rpc/server/context.py.
pub mod Reload
use ghidra_rpc_win.Common.{
  ℕ, String, ◌<>◌, str_eq, Bool, true, false, not, ◌&&◌, Option, none, some, List, [], ◌∷◌,
  if◌then◌else◌,
}
use ghidra_rpc_win.Common.Dict
use ghidra_rpc_win.Common.Dict.{Dict}
use ghidra_rpc_win.Common.Exec.{Exn, Result, ok, err, raise, runtime_error, file_not_found_error}
use ghidra_rpc_win.Context.{ProgramInfo, Analysis, run_analysis}

-- The Ghidra project and the file system: the handles, the state, and the calls that the context
-- makes. `unique_name` is `_gen_unique_bin_name`, and `analysis` how `analyzeAll` would run.
pub record Project : Type 1 where
  pub P : Type 0
  pub W : Type 0
  pub resolve : String → String
  pub exists : String → W → Bool
  pub unique_name : String → W → String
  pub file_name : String → String
  pub get_file : String → W → Bool
  pub open_program : String → W → Result P × W
  pub import_program : String → W → Result (Option P) × W
  pub save_as : P → String → W → Result (Unit {0}) × W
  pub close_program : P → W → Result (Unit {0}) × W
  pub save : P → W → Result (Unit {0}) × W
  pub is_analyzed : P → W → Bool
  pub analysis : P → W → Analysis × W
  pub mark_analyzed : P → W → W
  pub close_project : W → Result (Unit {0}) × W

module _ (g : Project) where
  open g use {
    P, W, resolve, exists, unique_name, file_name, get_file, open_program, import_program, save_as,
    close_program, save, is_analyzed, analysis, mark_analyzed, close_project,
  }

  pub record Context : Type 0 where
    pub programs : Dict (ProgramInfo P)
    pub world : W

  -- An action may raise; the context that it has reached stays.
  abbrev pub Action : Type 0 → Type 0
  Action A = Context → Result A × Context

  abbrev pub continue : {A B : Type 0} → (A → Action B) → Result A × Context → Result B × Context
  continue next (err e, ctx) = (err e, ctx)
  continue next (ok a, ctx) = next a ctx

  infixl 5 ◌>>=◌ ◌>>◌
  -- Shut where a chain is proved about as a chain.
  unfoldable pub ◌>>=◌ : {A B : Type 0} → Action A → (A → Action B) → Action B
  ◌>>=◌ m next ctx = continue next (m ctx)

  abbrev pub ◌>>◌ : {B : Type 0} → Action (Unit {0}) → Action B → Action B
  m >> next = m >>= λ _. next

  abbrev pub on_world : {A : Type 0} → (W → Result A × W) → Action A
  on_world f ctx = let (r, w) = f ctx.world in (r, record ctx { world = w })

  abbrev pub pure : {A : Type 0} → A → Action A
  pure a ctx = (ok a, ctx)

  abbrev pub lift : {A : Type 0} → Result A → Action A
  lift r ctx = (r, ctx)

  -- `self.programs[key] = pi`
  abbrev pub add_program : String → ProgramInfo P → Action (Unit {0})
  add_program key pi ctx = (ok tt, record ctx { programs = Dict.insert key pi ctx.programs })

  -- `for key, pi in self.programs.items(): if pi.name == program_name: return key`
  unfoldable pub find_loaded : String → Dict (ProgramInfo P) → Option String
  find_loaded name [] = none
  find_loaded name ((key, pi) ∷ programs) =
      let rest = find_loaded name programs in if str_eq pi.name name then some key else rest

  -- `_run_analysis`, and the flag that is set only when the analysis finished.
  analyze_program : P → Option ℕ → Action Bool
  analyze_program program timeout = do
    run ← on_world (λ w. let (a, w') = analysis program w in (ok a, w'))
    complete ← lift (run_analysis run timeout)
    on_world (λ w. (ok tt, if complete then mark_analyzed program w else w))
    pure complete

  analyze_if : Bool → P → Option ℕ → Bool → Action Bool
  unfolding analyze_program
  analyze_if true program timeout otherwise = analyze_program program timeout
  analyze_if false program timeout otherwise = pure otherwise

  -- The saved copy is opened; it is analysed and saved only if that was asked and not done before.
  reopen : String → String → Bool → Option ℕ → Action String
  unfolding analyze_if
  reopen path name analyze timeout = do
    program ← on_world (open_program name)
    already ← λ ctx. (ok (is_analyzed program ctx.world), ctx)
    complete ← analyze_if (analyze && not already) program timeout already
    on_world (if analyze && not already then save program else λ w. (ok tt, w))
    add_program ("/" <> name) (record {
      name = name;
      program = program;
      analysis_complete = complete;
      file_path = some path;
    })
    pure ("/" <> name)

  imported : String → Option P → Result P
  imported path none = raise runtime_error ("Failed to import binary: " ∷ path ∷ [])
  imported path (some program) = ok program

  import_binary : String → String → Bool → Option ℕ → Action String
  unfolding analyze_if imported
  import_binary path name analyze timeout = do
    found ← on_world (import_program path)
    draft ← lift (imported path found)
    on_world (save_as draft name)
    on_world (close_program draft)
    program ← on_world (open_program name)
    complete ← analyze_if analyze program timeout false
    on_world (save program)
    add_program ("/" <> name) (record {
      name = name;
      program = program;
      analysis_complete = complete;
      file_path = some path;
    })
    pure ("/" <> name)

  -- The name under which the project has the program, the bare file name being the second choice.
  stored_name : String → String → W → Option String
  stored_name path name w =
      if get_file name w
      then some name
      else if not (str_eq (file_name path) name) && get_file (file_name path) w
      then some (file_name path)
      else none

  load_new : String → String → Bool → Option ℕ → Option String → Action String
  unfolding reopen import_binary
  load_new path name analyze timeout (some stored) = reopen path stored analyze timeout
  load_new path name analyze timeout none = import_binary path name analyze timeout

  load_resolved : String → Bool → Option ℕ → Action String
  unfolding load_new stored_name
  load_resolved path analyze timeout ctx =
      let name = unique_name path ctx.world in
      let load = load_new path name analyze timeout (stored_name path name ctx.world) ctx in
      elim (find_loaded name ctx.programs) [ some key ↦ (ok key, ctx) | none ↦ load ]

  unfoldable pub load_binary : String → Bool → Option ℕ → Action String
  unfolding load_resolved
  load_binary binary_path analyze timeout ctx =
      let path = resolve binary_path in
      if exists path ctx.world
      then load_resolved path analyze timeout ctx
      else (raise file_not_found_error ("Binary not found: " ∷ path ∷ []), ctx)

  -- `close`: every program is saved, whatever that raises, its pool is disposed and it is closed; an
  -- exception of `project.close` ends the loop.
  unfoldable pub close_all : Dict (ProgramInfo P) → W → Result (Unit {0}) × W
  close_all [] w = (ok tt, w)
  close_all ((key, pi) ∷ programs) w =
      let (saved, w') = save pi.program w in
      let (closed, w'') = close_program pi.program w' in
      let rest = close_all programs w'' in elim closed [ ok u ↦ rest | err e ↦ (err e, w'') ]

  closed_context : Context → Result (Unit {0}) × W → Result (Unit {0}) × Context
  closed_context ctx (err e, w) = (err e, record ctx { world = w })
  closed_context ctx (ok u, w) =
      let (r, w') = close_project w in (r, record { programs = []; world = w' })

  unfoldable pub close : Action (Unit {0})
  unfolding close_all closed_context
  close ctx = closed_context ctx (close_all ctx.programs ctx.world)
