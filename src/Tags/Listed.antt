-- ===== src/Tags/Listed.antt =====
-- What `functions_by_tag` lists.
use ghidra_rpc_win.Common.{
  ℕ, ◌≡◌, refl, sym, ◌∙◌, ap, String, map, min, take, keep, length, is_empty, List, [], ◌∷◌,
}
use ghidra_rpc_win.Common.Dict.{Dict}
use ghidra_rpc_win.Common.Exec.{ok, >>=-ok, reject_if-passed}
use ghidra_rpc_win.Context.{ProgramInfo, get_program}
use ghidra_rpc_win.Functions.{FunctionManager}
use ghidra_rpc_win.Listing.{Page}
use ghidra_rpc_win.Listing.Collect.{page_lem}
use ghidra_rpc_win.Tags.{TagManager, has_tag, functions_by_tag}

module _ (g : FunctionManager) (m : TagManager g) where
  map-same : (funcs : List (FunctionManager.Function g)) → map (λ func. func) funcs ≡ funcs
  map-same [] = refl
  map-same (func ∷ funcs) = ap (λ rest. func ∷ rest) (map-same funcs)

  -- The functions of a program that have a tag, in the program's order.
  abbrev pub having :
      List ℕ → FunctionManager.P g → FunctionManager.W g → List (FunctionManager.Function g)
  having tag program w =
      keep (λ func. has_tag tag (TagManager.tags m func w)) (FunctionManager.functions g program w)

  abbrev pub shows : ℕ → List (FunctionManager.Function g) → Page (FunctionManager.Function g)
  shows limit funcs = record {
    rows = take limit funcs;
    count = min limit (length funcs);
    total = length funcs;
  }

  -- A listing by tag has the first functions with the tag, up to the limit, and counts all of them.
  pub functions_by_tag-shows :
      (binary : String) (tag : List ℕ) (limit : ℕ)
      (programs : Dict (ProgramInfo (FunctionManager.P g))) (w : FunctionManager.W g)
      (listed : Page (FunctionManager.Function g))
      → functions_by_tag g m binary tag limit programs w ≡ ok listed
      → (pi : ProgramInfo (FunctionManager.P g)) × (get_program binary programs ≡ ok pi)
        × (listed ≡ shows limit (having tag pi.program w))
  unfolding functions_by_tag
  functions_by_tag-shows binary tag limit programs w listed h =
      let (_, h1) = reject_if-passed (is_empty tag) _ h in
      let (pi, found, e) = >>=-ok (get_program binary programs) _ h1 in
      (
        pi,
        found,
        sym (ok_inj _ listed e)
            ∙ page_lem (λ func. has_tag tag (TagManager.tags m func w)) (λ func. func) limit
                (FunctionManager.functions g pi.program w)
            ∙ ap
                (λ rows. record {
                  rows = take limit rows;
                  count = min limit (length (having tag pi.program w));
                  total = length (having tag pi.program w);
                })
                (map-same (having tag pi.program w)),
      )
    where
      ok_inj : (a b : Page (FunctionManager.Function g)) → ok a ≡ ok b → a ≡ b
      ok_inj a b e = cc
