-- ===== src/VersionTracking/Handles/Actions.antt =====
-- What chains of actions return, and which leave the loaded programs alone.
use ghidra_rpc_win.Common.{String, ◌≡◌, refl, sym, ◌∙◌, ap}
use ghidra_rpc_win.Common.Exec.{Result, ok, err}
use ghidra_rpc_win.Context.Loading.{Project, Context, Action, continue, on_world}
use ghidra_rpc_win.VersionTracking.Handles.{
  Tracker, ◌>>=◌, Pair, Opened, find_programs, open_files, release_all,
}

module _ (g : Project) (t : Tracker g) where
  pub >>=-returns :
      {A B : Type 0} (m : Action g A) (next : A → Action g B) {b : B} {ctx c : Context g}
      → ◌>>=◌ g t m next ctx ≡ (ok b, c)
      → (a : A) × (c1 : Context g) × (m ctx ≡ (ok a, c1)) × (next a c1 ≡ (ok b, c))
  unfolding ◌>>=◌
  >>=-returns m next {b} {ctx} {c} h = go next (m ctx) h
    where
      go :
          {A B : Type 0} (next : A → Action g B) (r : Result A × Context g) {b : B} {c : Context g}
          → continue g next r ≡ (ok b, c)
          → (a : A) × (c1 : Context g) × (r ≡ (ok a, c1)) × (next a c1 ≡ (ok b, c))
      go next (err e, c1) h = cc
      go next (ok a, c1) h = (a, c1, refl, h)

  pub ok_inj :
      {A : Type 0} {a b : A} {c d : Context g}
      → ◌≡◌ {A = Result A × Context g} (ok a, c) (ok b, d)
      → (a ≡ b) × (c ≡ d)
  ok_inj h = (cc, cc)

  -- An action that leaves the dict of programs alone, whether it raises or not.
  pub record Keeps {A : Type 0} (m : Action g A) : Type 0 where
    pub at : (ctx : Context g) → (m ctx).1.programs ≡ ctx.programs

  pub Keeps-bind :
      {A B : Type 0} {m : Action g A} {next : A → Action g B}
      → Keeps m
      → ((a : A) → Keeps (next a))
      → Keeps (◌>>=◌ g t m next)
  unfolding ◌>>=◌
  Keeps-bind {m} {next} h k = record { at = λ ctx. go next (m ctx) k ∙ h.at ctx }
    where
      go :
          {A B : Type 0} (next : A → Action g B) (r : Result A × Context g)
          → ((a : A) → Keeps (next a))
          → (continue g next r).1.programs ≡ r.1.programs
      go next (err e, c) k = refl
      go next (ok a, c) k = (k a).at c

  pub Keeps-on_world :
      {A : Type 0} (f : Project.W g → Result A × Project.W g) → Keeps (on_world g f)
  Keeps-on_world f = record { at = λ ctx. refl }

  pub Keeps-lift : {A : Type 0} (r : Context g → Result A) → Keeps (λ ctx. (r ctx, ctx))
  Keeps-lift r = record { at = λ ctx. refl }

  pub ruleset keeps_rules = (Keeps-on_world, Keeps-bind, Keeps-lift)

  pub Keeps-returns :
      {A : Type 0} {m : Action g A} {a : A} {ctx c : Context g}
      → Keeps m
      → m ctx ≡ (ok a, c)
      → c.programs ≡ ctx.programs
  Keeps-returns {A = A} {m} {a} {ctx} {c} h e =
      ap (λ (p : Result A × Context g). p.1.programs) (sym e) ∙ h.at ctx

  pub find_programs-Keeps : (b1 b2 : String) → Keeps (find_programs g t b1 b2)
  unfolding find_programs
  find_programs-Keeps b1 b2 = search keeps_rules depth 9

  pub open_files-Keeps : (pair : Pair g t) → Keeps (open_files g t pair)
  unfolding open_files
  open_files-Keeps pair = search keeps_rules depth 9

  pub release_all-Keeps :
      (session : Tracker.V t) (opened : Opened g t) → Keeps (release_all g t session opened)
  unfolding release_all
  release_all-Keeps session opened = search keeps_rules depth 9
