-- ===== src/Context/Loading/Reload.antt =====
-- What `load_binary` leaves in the context.
use ghidra_rpc_win.Common.{
  ℕ, String, ◌≡◌, refl, subst, eq_refl, Bool, true, Option, none, some, [], ◌∷◌, Bool-cases,
  Option-cases, inl, inr, arith, eq_iff,
}
use ghidra_rpc_win.Common.Dict
use ghidra_rpc_win.Common.Dict.{Dict, lookup-insert, contains-lookup}
use ghidra_rpc_win.Common.Exec.{Result, ok, err}
use ghidra_rpc_win.Context.{ProgramInfo, get_program}
use ghidra_rpc_win.Context.Loading.{
  Project, Context, Action, continue, ◌>>=◌, find_loaded, add_program, pure, reopen, import_binary,
  load_new, load_resolved, load_binary,
}

module _ (g : Project) where
  -- A load that returns a key has a program under it.
  abbrev pub Holds : Result String × Context g → Type 0
  Holds (err e, ctx) = Unit
  Holds (ok key, ctx) = Dict.contains key ctx.programs ≡ true

  record Ensures (m : Action g String) : Type 0 where
    at : (ctx : Context g) → Holds (m ctx)

  Holds-continue :
      {A : Type 0} (next : A → Action g String) (r : Result A × Context g)
      → ((a : A) → Ensures (next a))
      → Holds (continue g next r)
  Holds-continue next (err e, ctx) h = tt
  Holds-continue next (ok a, ctx) h = (h a).at ctx

  Ensures-bind :
      {A : Type 0} (m : Action g A) (next : A → Action g String)
      → ((a : A) → Ensures (next a))
      → Ensures (◌>>=◌ g m next)
  unfolding ◌>>=◌
  Ensures-bind m next h = record { at = λ ctx. Holds-continue next (m ctx) h }

  Ensures-add_program :
      (key : String) (pi : ProgramInfo (Project.P g))
      → Ensures (◌>>=◌ g (add_program g key pi) (λ _. pure g key))
  unfolding ◌>>=◌
  Ensures-add_program key pi = record { at = λ ctx. rw (contains-lookup, lookup-insert, eq_refl) }

  ruleset holds_rules = (Ensures-add_program, Ensures-bind)

  reopen-Ensures :
      (path name : String) (analyze : Bool) (timeout : Option ℕ)
      → Ensures (reopen g path name analyze timeout)
  unfolding reopen
  reopen-Ensures path name analyze timeout = search holds_rules depth 9

  import_binary-Ensures :
      (path name : String) (analyze : Bool) (timeout : Option ℕ)
      → Ensures (import_binary g path name analyze timeout)
  unfolding import_binary
  import_binary-Ensures path name analyze timeout = search holds_rules depth 12

  load_new-Ensures :
      (path name : String) (analyze : Bool) (timeout : Option ℕ) (stored : Option String)
      → Ensures (load_new g path name analyze timeout stored)
  unfolding load_new
  load_new-Ensures path name analyze timeout none = import_binary-Ensures path name analyze timeout
  load_new-Ensures path name analyze timeout (some stored) =
      reopen-Ensures path stored analyze timeout

  find_loaded-contains :
      (name key : String) (programs : Dict (ProgramInfo (Project.P g)))
      → find_loaded g name programs ≡ some key
      → Dict.contains key programs ≡ true
  unfolding find_loaded Dict.contains
  find_loaded-contains name key [] h = cc
  find_loaded-contains name key ((k, pi) ∷ programs) h =
      ground (arith, eq_iff k key, find_loaded-contains name key programs)

  load_resolved-Holds :
      (path : String) (analyze : Bool) (timeout : Option ℕ) (ctx : Context g)
      (found : Option String)
      → find_loaded g (Project.unique_name g path ctx.world) ctx.programs ≡ found
      → Holds (load_resolved g path analyze timeout ctx)
  unfolding load_resolved
  load_resolved-Holds path analyze timeout ctx none e =
      rw (e, load_resolved) ((load_new-Ensures path _ analyze timeout _).at ctx)
  load_resolved-Holds path analyze timeout ctx (some key) e =
      rw (e, load_resolved) (find_loaded-contains _ key ctx.programs e)

  load_binary-Holds :
      (binary_path : String) (analyze : Bool) (timeout : Option ℕ) (ctx : Context g)
      → Holds (load_binary g binary_path analyze timeout ctx)
  unfolding load_binary
  load_binary-Holds binary_path analyze timeout ctx =
      elim (Bool-cases (Project.exists g (Project.resolve g binary_path) ctx.world)) [
        | inl there ↦ rw there (load_resolved-Holds _ analyze timeout ctx _ refl)
        | inr gone ↦ rw gone tt
      ]

  get_program-contains :
      (key : String) (programs : Dict (ProgramInfo (Project.P g)))
      → Dict.contains key programs ≡ true
      → (pi : ProgramInfo (Project.P g)) × (get_program key programs ≡ ok pi)
  unfolding get_program
  get_program-contains key programs h = elim (Option-cases (Dict.lookup key programs)) [
    | inl missing ↦ absurd (ground (arith, contains-lookup key programs))
    | inr (pi, found) ↦ (pi, rw found)
  ]

  -- The key that a successful `load_binary` returns resolves to a program at once, whether the
  -- program was in memory, in the project or imported.
  pub get_program-load_binary :
      (binary_path : String) (analyze : Bool) (timeout : Option ℕ) (ctx ctx' : Context g)
      (key : String)
      → load_binary g binary_path analyze timeout ctx ≡ (ok key, ctx')
      → (pi : ProgramInfo (Project.P g)) × (get_program key ctx'.programs ≡ ok pi)
  get_program-load_binary binary_path analyze timeout ctx ctx' key h =
      get_program-contains key ctx'.programs
        (subst Holds h (load_binary-Holds binary_path analyze timeout ctx))
