-- ===== src/VersionTracking/Handles/Restoring.antt =====
-- What opening the two programs again makes of the loaded programs.
use ghidra_rpc_win.Common.{
  String, str_eq, ◌≡◌, refl, ◌∙◌, ap, Bool, true, false, ◌&&◌, Option, none, some, if◌then◌else◌,
  Bool-cases, inl, inr, arith,
}
use ghidra_rpc_win.Common.Dict.{lookup-insert}
use ghidra_rpc_win.Common.Exec.{Result, ok, err}
use ghidra_rpc_win.Context.{ProgramInfo}
use ghidra_rpc_win.Context.Loading.{Project, Context}
use ghidra_rpc_win.VersionTracking.Handles.{
  Tracker, Pair, is_key, restored, restore, restore_daemon_programs,
}
use ghidra_rpc_win.VersionTracking.Handles.Actions.{}
use ghidra_rpc_win.VersionTracking.Handles.Standing.{loaded_at}

module _ (g : Project) (t : Tracker g) where
  -- A program under a key that was opened under its name.
  abbrev pub reopened : String → Project.P g → ProgramInfo (Project.P g)
  reopened name program = record {
    name = name;
    program = program;
    analysis_complete = true;
    file_path = none;
  }

  -- What the project and the sessions do when nothing goes wrong at the end.
  pub record IsGivenBack : Type 0 where
    pub release_session :
        (v : Tracker.V t) (w : Project.W g) → (Tracker.release_session t v w).0 ≡ ok tt
    pub release : (p : Project.P g) (w : Project.W g) → (Tracker.release t p w).0 ≡ ok tt
    pub open_program :
        (name : String) (w : Project.W g)
        → (p : Project.P g) × ((Project.open_program g name w).0 ≡ ok p)

  -- A program that the project gives under the name.
  pub record OpensAs (name : String) (p : Project.P g) : Type 0 where
    pub world : Project.W g
    pub opens : (Project.open_program g name world).0 ≡ ok p

  pub restore-lookup :
      (name : String) (key : Option String) (ctx : Context g)
      → IsGivenBack
      → (p : Project.P g) × OpensAs name p
        × ((k : String)
            → loaded_at g t k (restore g t name key ctx)
              ≡ (if is_key g t key k then some (reopened name p) else loaded_at g t k ctx))
  unfolding restore
  restore-lookup name key ctx back =
      let (p, e) = back.open_program name ctx.world in
      (p, record { world = ctx.world; opens = e }, at_key key p e)
    where
      opened_at :
          (key k : String) (p : Project.P g) (r : Result (Project.P g) × Project.W g)
          → r.0 ≡ ok p
          → loaded_at g t k (restored g t name key ctx.programs r)
            ≡ (if str_eq key k && true then some (reopened name p) else loaded_at g t k ctx)
      opened_at key k p (err e, w) h = cc
      opened_at key k p (ok q, w) h =
          lookup-insert key k (reopened name q) ctx.programs
          ∙ (widened _ _ (str_eq key k)
              ∙ ap
                  (λ x.
                    if str_eq key k && true then some (reopened name x) else loaded_at g t k ctx)
                  (same q p h))
        where
          widened :
              (x y : Option (ProgramInfo (Project.P g))) (b : Bool)
              → (if b then x else y) ≡ (if b && true then x else y)
          widened x y true = refl
          widened x y false = refl

          same : (q p : Project.P g) → ok q ≡ ok p → q ≡ p
          same q p h = cc

      at_key :
          (key : Option String) (p : Project.P g)
          → (Project.open_program g name ctx.world).0 ≡ ok p
          → (k : String)
          → loaded_at g t k (restore g t name key ctx)
            ≡ (if is_key g t key k then some (reopened name p) else loaded_at g t k ctx)
      at_key none p e k = refl
      at_key (some key) p e k = elim (Bool-cases (str_eq key "")) [
        | inl empty ↦ rw empty (ground arith)
        | inr given ↦ rw given (opened_at key k p (Project.open_program g name ctx.world) e)
      ]

  -- Under its key each of the two programs is a program that the project gives under its name.
  pub record Restored (pair : Pair g t) (before after : Context g) : Type 0 where
    pub src : Project.P g
    pub dst : Project.P g
    pub src_opens : OpensAs pair.src_name src
    pub dst_opens : OpensAs pair.dst_name dst
    pub loaded :
        (k : String)
        → loaded_at g t k after ≡ (
            if is_key g t pair.dst_key k
            then some (reopened pair.dst_name dst)
            else if is_key g t pair.src_key k
            then some (reopened pair.src_name src)
            else loaded_at g t k before)

  pub restore_daemon_programs-Restored :
      (pair : Pair g t) (ctx : Context g)
      → IsGivenBack
      → Restored pair ctx (restore_daemon_programs g t pair ctx)
  unfolding restore_daemon_programs
  restore_daemon_programs-Restored pair ctx back =
      let (src, src_opens, at_src) = restore-lookup pair.src_name pair.src_key ctx back in
      let (dst, dst_opens, at_dst) =
        restore-lookup pair.dst_name pair.dst_key (restore g t pair.src_name pair.src_key ctx)
          back in
      record {
        src = src;
        dst = dst;
        src_opens = src_opens;
        dst_opens = dst_opens;
        loaded = λ k.
            at_dst k
            ∙ ap (λ o. if is_key g t pair.dst_key k then some (reopened pair.dst_name dst) else o)
                (at_src k);
      }
