-- ===== src/VersionTracking/Handles/Taken.antt =====
-- What closing the two programs makes of the loaded programs.
use ghidra_rpc_win.Common.{
  String, str_eq, ◌≡◌, refl, sym, ◌∙◌, ap, subst, ◌&&◌, Option, none, some, if◌then◌else◌,
  Bool-cases, inl, inr, arith,
}
use ghidra_rpc_win.Common.Dict
use ghidra_rpc_win.Common.Dict.{Dict, NodupKeys, lookup-insert, lookup-erase}
use ghidra_rpc_win.Common.Exec.{Result, ok}
use ghidra_rpc_win.Context.{ProgramInfo, get_program}
use ghidra_rpc_win.Context.Loading.{Project, Context}
use ghidra_rpc_win.VersionTracking.Handles.{
  Tracker, Pair, Opened, key_of, is_key, pair_of, delete, close_pair, find_programs, open_pair,
  open_vt_programs,
}
use ghidra_rpc_win.VersionTracking.Handles.Actions.{
  >>=-returns, ok_inj, Keeps-on_world, Keeps-returns, find_programs-Keeps, open_files-Keeps,
}
use ghidra_rpc_win.VersionTracking.Handles.Standing.{
  loaded_at, IsIdentity, IsKeyed, StandsAt, key_of-StandsAt,
}

module _ (g : Project) (t : Tracker g) where
  pub delete-lookup :
      (key : Option String) (ctx c : Context g) (k : String)
      → delete g t key ctx ≡ (ok tt, c)
      → loaded_at g t k c ≡ (if is_key g t key k then none else loaded_at g t k ctx)
  unfolding delete
  delete-lookup none ctx c k h = rw (ok_inj g t h).1 refl
  delete-lookup (some key) ctx c k h = elim (Bool-cases (str_eq key "")) [
    | inl empty ↦ rw (sym (ok_inj g t (rw empty at h)).1) (rw empty (ground arith))
    | inr given ↦ elim (Bool-cases (Dict.contains key ctx.programs)) [
      | inl there ↦
          rw (sym (ok_inj g t (rw (given, there) at h)).1) (rw (given, lookup-erase) (ground arith))
      | inr missing ↦ cc (rw (given, missing) at h)
    ]
  ]

  pub close_pair-lookup :
      (pair : Pair g t) (src dst : Project.P g) (ctx c : Context g) (k : String)
      → close_pair g t pair src dst ctx ≡ (ok tt, c)
      → loaded_at g t k c ≡ (
          if is_key g t pair.dst_key k
          then none
          else if is_key g t pair.src_key k
          then none
          else loaded_at g t k ctx)
  unfolding close_pair
  close_pair-lookup pair src dst ctx c k h =
      let (_, c1, e1, h1) = >>=-returns g t _ _ h in
      let (_, c2, e2, h2) = >>=-returns g t _ _ h1 in
      let (_, c3, e3, h3) = >>=-returns g t _ _ h2 in
      delete-lookup pair.dst_key c3 c k h3
      ∙ ap (λ o. if is_key g t pair.dst_key k then none else o)
          (delete-lookup pair.src_key c2 c3 k e3
            ∙ ap (λ d. if is_key g t pair.src_key k then none else Dict.lookup k d)
                (Keeps-returns g t (Keeps-on_world g t (Project.close_program g dst)) e2
                  ∙ Keeps-returns g t (Keeps-on_world g t (Project.close_program g src)) e1))

  pub open_pair-Keeps :
      (pair : Pair g t) (opened : Opened g t) (ctx c : Context g)
      → open_pair g t pair ctx ≡ (ok opened, c)
      → c.programs ≡ ctx.programs
  unfolding open_pair
  open_pair-Keeps pair opened ctx c h =
      elim (Bool-cases (
        Project.get_file g pair.src_name ctx.world && Project.get_file g pair.dst_name ctx.world)) [
          | inl there ↦ Keeps-returns g t (open_files-Keeps g t pair) (rw there at h)
          | inr missing ↦ cc (rw missing at h)
        ]

  -- What a call of `open_vt_programs` that returns has done: the programs that the two names resolve
  -- to are loaded under the recorded keys before, and nothing is loaded under these afterwards.
  pub record Taken (b1 b2 : String) (pair : Pair g t) (before after : Context g) : Type 0 where
    pub src : ProgramInfo (Project.P g)
    pub dst : ProgramInfo (Project.P g)
    pub src_found : get_program b1 before.programs ≡ ok src
    pub dst_found : get_program b2 before.programs ≡ ok dst
    pub src_at : StandsAt g t src pair.src_key before.programs
    pub dst_at : StandsAt g t dst pair.dst_key before.programs
    pub src_named : pair.src_name ≡ src.name
    pub dst_named : pair.dst_name ≡ dst.name
    pub gone :
        (k : String)
        → loaded_at g t k after ≡ (
            if is_key g t pair.dst_key k
            then none
            else if is_key g t pair.src_key k
            then none
            else loaded_at g t k before)

  find_programs-found :
      (b1 b2 : String) (infos : ProgramInfo (Project.P g) × ProgramInfo (Project.P g))
      (ctx c : Context g)
      → find_programs g t b1 b2 ctx ≡ (ok infos, c)
      → (get_program b1 ctx.programs ≡ ok infos.0) × (get_program b2 ctx.programs ≡ ok infos.1)
  unfolding find_programs
  find_programs-found b1 b2 infos ctx c h =
      let (src, c1, e1, h1) = >>=-returns g t _ _ h in
      let (dst, c2, e2, h2) = >>=-returns g t _ _ h1 in
      let (_, c3, e3, h3) = >>=-returns g t _ _ h2 in
      let (_, c4, e4, h4) = >>=-returns g t _ _ h3 in
      let same = (ok_inj g t h4).0 in
      (
        result_of e1
            ∙ ap (λ (p : ProgramInfo (Project.P g) × ProgramInfo (Project.P g)). ok p.0) same,
        ap (λ (x : Context g). get_program b2 x.programs) (context_of e1)
            ∙ (result_of e2
                ∙ ap (λ (p : ProgramInfo (Project.P g) × ProgramInfo (Project.P g)). ok p.1) same),
      )
    where
      result_of :
          {r s : Result (ProgramInfo (Project.P g))} {x y : Context g}
          → ◌≡◌ {A = Result (ProgramInfo (Project.P g)) × Context g} (r, x) (s, y)
          → r ≡ s
      result_of e = cc

      context_of :
          {r s : Result (ProgramInfo (Project.P g))} {x y : Context g}
          → ◌≡◌ {A = Result (ProgramInfo (Project.P g)) × Context g} (r, x) (s, y)
          → x ≡ y
      context_of e = cc

  pub pair_of-Taken :
      IsIdentity g t
      → (b1 b2 : String) (src dst : ProgramInfo (Project.P g)) (opened : Opened g t)
        (ctx c2 c3 : Context g)
      → IsKeyed g t ctx.programs
      → get_program b1 ctx.programs ≡ ok src
      → get_program b2 ctx.programs ≡ ok dst
      → (programs : Dict (ProgramInfo (Project.P g))) → programs ≡ ctx.programs
      → (c1 : Context g) → c1.programs ≡ ctx.programs
      → close_pair g t (pair_of g t src dst programs) src.program dst.program c1 ≡ (ok tt, c2)
      → open_pair g t (pair_of g t src dst programs) c2 ≡ (ok opened, c3)
      → Taken b1 b2 (pair_of g t src dst programs) ctx c3
  pair_of-Taken law b1 b2 src dst opened ctx c2 c3 keyed e1 e2 programs same c1 same1 closed h =
      record {
        src = src;
        dst = dst;
        src_found = e1;
        dst_found = e2;
        src_at =
            subst (λ d. StandsAt g t src (key_of g t src d) ctx.programs) (sym same)
              (key_of-StandsAt g t law b1 src ctx.programs keyed e1);
        dst_at =
            subst (λ d. StandsAt g t dst (key_of g t dst d) ctx.programs) (sym same)
              (key_of-StandsAt g t law b2 dst ctx.programs keyed e2);
        src_named = refl;
        dst_named = refl;
        gone = λ k.
            ap (Dict.lookup k) (open_pair-Keeps (pair_of g t src dst programs) opened c2 c3 h)
            ∙ (close_pair-lookup (pair_of g t src dst programs) src.program dst.program c1 c2 k
                  closed
                ∙ ap
                    (λ d.
                      if is_key g t (key_of g t dst programs) k
                      then none
                      else if is_key g t (key_of g t src programs) k
                      then none
                      else Dict.lookup k d)
                    same1);
      }

  pub open_vt_programs-Taken :
      IsIdentity g t
      → (b1 b2 : String) (pair : Pair g t) (opened : Opened g t) (ctx c : Context g)
      → IsKeyed g t ctx.programs
      → open_vt_programs g t b1 b2 ctx ≡ (ok (pair, opened), c)
      → Taken b1 b2 pair ctx c
  unfolding open_vt_programs
  open_vt_programs-Taken law b1 b2 pair opened ctx c keyed h =
      let (infos, c1, e1, h1) = >>=-returns g t _ _ h in
      let (pair', c2, e2, h2) = >>=-returns g t _ _ h1 in
      let (_, c3, e3, h3) = >>=-returns g t _ _ h2 in
      let (opened', c4, e4, h4) = >>=-returns g t _ _ h3 in
      let p = ok_inj g t e2 in
      let q = ok_inj g t h4 in
      let (r1, r2) = find_programs-found b1 b2 infos ctx c1 e1 in
      let same = Keeps-returns g t (find_programs-Keeps g t b1 b2) e1 in
      subst (λ (x : Context g). Taken b1 b2 pair ctx x) q.1
        (subst (λ (x : Pair g t). Taken b1 b2 x ctx c4)
          (p.0 ∙ ap (λ (x : Pair g t × Opened g t). x.0) q.0)
          (pair_of-Taken law b1 b2 infos.0 infos.1 opened' ctx c3 c4 keyed r1 r2 c1.programs same c2
            (ap (λ (x : Context g). x.programs) (sym p.1) ∙ same)
            (subst
              (λ (x : Pair g t). close_pair g t x infos.0.program infos.1.program c2 ≡ (ok tt, c3))
              (sym p.0) e3)
            (subst (λ (x : Pair g t). open_pair g t x c3 ≡ (ok opened', c4)) (sym p.0) e4)))
