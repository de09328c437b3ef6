-- ===== src/VersionTracking/Paged.antt =====
-- What `decompile_all` reports of a page of functions.
use ghidra_rpc_win.Common.{
  ℕ, ◌+◌, ◌-◌, String, ◌≡◌, refl, ap, Bool, true, false, Option, none, some, List, [], ◌∷◌, map,
  length, take, drop, keep, length-map, length-take, length-drop, min, sym, ◌∙◌, Bool-cases, inl,
  inr, arith, if◌then◌else◌,
}
use ghidra_rpc_win.Common.Exec.{Result, ok, err}
use ghidra_rpc_win.VersionTracking.Bulk.{
  Decompiler, Decompiled, FunctionRow, own_functions, decompiled_row, code_row, has_error,
  decompile_each, funcs_to_decompile, decompile_program, is_message,
}

module _ (g : Decompiler) where
  code_row-address :
      (f : Decompiler.F g) (o : Option (String × String))
      → (code_row g f o).address ≡ Decompiler.entry_point g f
  code_row-address f none = refl
  code_row-address f (some (c, signature)) = refl

  decompiled_row-address :
      (f : Decompiler.F g) (r : Result Decompiled)
      → (decompiled_row g f r).address ≡ Decompiler.entry_point g f
  unfolding decompiled_row
  decompiled_row-address f (err e) = refl
  decompiled_row-address f (ok d) = elim (Bool-cases (is_message d.error_message)) [
    | inl failed ↦ rw failed refl
    | inr worked ↦ rw worked (code_row-address f d.c_and_signature)
  ]

  errors_cons :
      (b : Bool) (row : FunctionRow) (rows : List FunctionRow) (errors : ℕ)
      → errors ≡ length rows
      → (if b then errors + 1 else errors) ≡ length (if b then row ∷ rows else rows)
  errors_cons true row rows errors h = omega arith
  errors_cons false row rows errors h = h

  decompile_each-addresses :
      (program : Decompiler.P g) (timeout : ℕ) (fs : List (Decompiler.F g)) (w : Decompiler.W g)
      → (map (λ (row : FunctionRow). row.address) (decompile_each g program timeout fs w).0
          ≡ map (Decompiler.entry_point g) fs)
        × ((decompile_each g program timeout fs w).1
            ≡ length (keep (has_error g) (decompile_each g program timeout fs w).0))
  unfolding decompile_each
  decompile_each-addresses program timeout [] w = (refl, refl)
  decompile_each-addresses program timeout (f ∷ fs) w =
      let r = Decompiler.decompile g program f timeout w in
      let rest = decompile_each-addresses program timeout fs r.1 in
      (
        ap
              (λ (a : String).
                a
                ∷ map (λ (row : FunctionRow). row.address)
                    (decompile_each g program timeout fs r.1).0)
              (decompiled_row-address f r.0)
            ∙ ap (λ as'. Decompiler.entry_point g f ∷ as') rest.0,
        errors_cons (has_error g (decompiled_row g f r.0)) (decompiled_row g f r.0) _ _ rest.1,
      )

  length-funcs_to_decompile :
      (offset limit : ℕ) (fs : List (Decompiler.F g))
      → length (funcs_to_decompile g offset (some limit) fs) ≡ min limit (length fs - offset)
  length-funcs_to_decompile offset limit fs =
      length-take limit (drop offset fs) ∙ ap (min limit) (length-drop offset fs)

  -- A bulk decompilation has one row for each function of the page, in their order, whatever the
  -- decompiler does with each of them, at most as many as the limit; the errors are the rows with
  -- an error; and the total counts the functions that are neither external nor thunks.
  pub decompile_program-page :
      (offset limit timeout : ℕ) (program : Decompiler.P g) (w : Decompiler.W g)
      → let all_funcs = own_functions g (Decompiler.functions g program w) in
        let b = (decompile_program g offset (some limit) timeout program w).0 in
        (map (λ (row : FunctionRow). row.address) b.functions
          ≡ map (Decompiler.entry_point g) (take limit (drop offset all_funcs)))
        × (b.errors ≡ length (keep (has_error g) b.functions))
        × (b.count ≡ min limit (b.total - offset))
        × (b.total ≡ length all_funcs)
  decompile_program-page offset limit timeout program w =
      let all_funcs = own_functions g (Decompiler.functions g program w) in
      let page = funcs_to_decompile g offset (some limit) all_funcs in
      let rows = decompile_each-addresses program timeout page w in
      (
        rows.0,
        rows.1,
        sym (
              length-map (λ (row : FunctionRow). row.address)
                (decompile_each g program timeout page w).0)
            ∙ (ap length rows.0
                ∙ (length-map (Decompiler.entry_point g) page
                    ∙ length-funcs_to_decompile offset limit all_funcs)),
        refl,
      )
