-- ===== src/Functions/Resolve.antt =====
-- Which function a name stands for.
use ghidra_rpc_win.Common.{
  ℕ, ◌≡◌, refl, ◌↔◌, ◌⊎◌, inl, inr, Bool, false, not, ◌&&◌, List, [], ◌∷◌, keep, Bool-cases,
}
use ghidra_rpc_win.Common.Exec.{ok}
use ghidra_rpc_win.Functions.{
  FunctionManager, is_exact, is_part, find_matches, choose, looks_like_address, find_by_address,
  find_function,
}

module _ (g : FunctionManager) where
  -- A partial match is one that is not exact.
  abbrev pub is_partial : List ℕ → FunctionManager.W g → FunctionManager.Function g → Bool
  is_partial target w func = not (is_exact g target w func) && is_part g target w func

  find_matches-keep :
      (target : List ℕ) (w : FunctionManager.W g) (funcs : List (FunctionManager.Function g))
      → find_matches g target w funcs
        ≡ (keep (is_exact g target w) funcs, keep (is_partial target w) funcs)
  unfolding find_matches
  find_matches-keep target w [] = refl
  find_matches-keep target w (func ∷ funcs) = elim (Bool-cases (is_exact g target w func)) [
    | inl exact ↦ rw (exact, find_matches-keep target w funcs)
    | inr other ↦ elim (Bool-cases (is_part g target w func)) [
      | inl part ↦ rw (other, part, find_matches-keep target w funcs)
      | inr no_match ↦ rw (other, no_match, find_matches-keep target w funcs)
    ]
  ]

  choose-ok :
      (exact partial : List (FunctionManager.Function g)) (func : FunctionManager.Function g)
      → choose g exact partial ≡ ok func
      → (exact ≡ func ∷ []) ⊎ ((exact ≡ []) × (partial ≡ func ∷ []))
  choose-ok [] [] func h = cc
  choose-ok [] (a ∷ []) func h = inr (refl, cc)
  choose-ok [] (a ∷ b ∷ rest) func h = cc
  choose-ok (a ∷ []) partial func h = inl cc
  choose-ok (a ∷ b ∷ rest) partial func h = cc

  ok-choose :
      (exact partial : List (FunctionManager.Function g)) (func : FunctionManager.Function g)
      → (exact ≡ func ∷ []) ⊎ ((exact ≡ []) × (partial ≡ func ∷ []))
      → choose g exact partial ≡ ok func
  ok-choose exact partial func (inl e) = rw e
  ok-choose exact partial func (inr (e, p)) = rw (e, p)

  -- A name that does not look like an address stands for a function exactly when it is the only one
  -- of that name, in any case, or there is none and it is the only one whose name contains it.
  pub find_function_iff :
      (program : FunctionManager.P g) (target : List ℕ) (w : FunctionManager.W g)
      (func : FunctionManager.Function g)
      → looks_like_address g target ≡ false
      → (find_function g program target w ≡ ok func) ↔ (
          (keep (is_exact g target w) (FunctionManager.functions g program w) ≡ func ∷ [])
          ⊎ ((keep (is_exact g target w) (FunctionManager.functions g program w) ≡ [])
              × (keep (is_partial target w) (FunctionManager.functions g program w) ≡ func ∷ [])))
  unfolding find_function find_by_address
  find_function_iff program target w func named =
      rw (named, find_matches-keep target w (FunctionManager.functions g program w))
        (
          choose-ok (keep (is_exact g target w) (FunctionManager.functions g program w))
              (keep (is_partial target w) (FunctionManager.functions g program w)) func,
          ok-choose (keep (is_exact g target w) (FunctionManager.functions g program w))
              (keep (is_partial target w) (FunctionManager.functions g program w)) func,
        )
