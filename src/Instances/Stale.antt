-- ===== src/Instances/Stale.antt =====
-- Which registry entries are stale.
use ghidra_rpc_win.Common.{
  String, ◌≡◌, refl, ◌∙◌, Bool, true, false, Option, none, some, List, [], ◌∷◌, not, ◌&&◌, ◌||◌,
  str_eq, arith, if◌then◌else◌, map,
}
use ghidra_rpc_win.Common.Dict
use ghidra_rpc_win.Common.Dict.{Dict, lookup-erase}
use ghidra_rpc_win.Json.{Json, null, bool, num, str, arr, obj, to_dict, of_dict, truthy}
use ghidra_rpc_win.Client.{Reply, response, failed, get_or_default}
use ghidra_rpc_win.Session.{Session}
use ghidra_rpc_win.Session.Registry.View.{}
use ghidra_rpc_win.Instances.{Candidates, probe, is_null, stale}

-- The deletion of several keys, one after the other.
unfoldable pub erase_all : List String → Dict Json → Dict Json
erase_all [] d = d
erase_all (k ∷ ks) d = erase_all ks (Dict.erase k d)

-- Some entry of a dict passes a test.
unfoldable pub any_entry {ℓ} : {V : Type ℓ} → (String → V → Bool) → Dict V → Bool
any_entry p [] = false
any_entry p ((k, v) ∷ d) = p k v || any_entry p d

-- A reply that is a dict whose `ok` is true and whose result is not null.
abbrev answers_json : Json → Bool
answers_json (obj fs) =
    truthy (get_or_default "ok" (bool false) (to_dict fs))
    && not (is_null (get_or_default "result" (obj (of_dict [])) (to_dict fs)))
answers_json _ = false

abbrev answers : Reply → Bool
answers (failed f) = false
answers (response r) = answers_json r

-- A candidate of the registry, with this digest of its project, that is not there any more.
abbrev pub is_gone :
    (String → Reply) → (String → Bool) → (String → String) → String → String → Option Session → Bool
is_gone reply exists digest k path none = false
is_gone reply exists digest k path (some s) =
    not (exists path) && not (answers (reply path)) && str_eq (digest s.project_gpr) k

probe-answers : (r : Reply) → is_null (probe r) ≡ not (answers r)
unfolding probe truthy
probe-answers (failed f) = refl
probe-answers (response null) = refl
probe-answers (response (bool b)) = refl
probe-answers (response (num n)) = refl
probe-answers (response (str s)) = refl
probe-answers (response (arr vs)) = refl
probe-answers (response (obj fs)) =
    succeeded (Dict.lookup "ok" (to_dict fs)) (Dict.lookup "result" (to_dict fs))
  where
    succeeded :
        (o r : Option Json)
        → is_null (
            if (elim o [ none ↦ false | some v ↦ truthy v ])
            then (elim r [ none ↦ obj (of_dict []) | some v ↦ v ])
            else null)
          ≡ not (
              truthy (elim o [ none ↦ bool false | some v ↦ v ])
              && not (is_null (elim r [ none ↦ obj (of_dict []) | some v ↦ v ])))
    succeeded none r = refl
    succeeded (some v) r = ground arith

module _ (reply : String → Reply) (exists : String → Bool) (include_dead : Bool)
    (digest : String → String) (k : String) where
  pub lookup-erase_all :
      (found : Candidates) (d : Dict Json)
      → Dict.lookup k (erase_all (map digest (stale reply exists include_dead found)) d)
        ≡ (if any_entry (is_gone reply exists digest k) found then none else Dict.lookup k d)
  unfolding stale any_entry erase_all
  lookup-erase_all [] d = refl
  lookup-erase_all ((path, none) ∷ found) d = lookup-erase_all found d
  lookup-erase_all ((path, some s) ∷ found) d = rw (probe-answers (reply path)) (
      step (answers (reply path)) (exists path) (lookup-erase_all found d)
        (lookup-erase_all found (Dict.erase (digest s.project_gpr) d)))
    where
      step :
          (a e : Bool)
          → Dict.lookup k (erase_all (map digest (stale reply exists include_dead found)) d)
            ≡ (if any_entry (is_gone reply exists digest k) found then none else Dict.lookup k d)
          → Dict.lookup k (
              erase_all
                (map digest (stale reply exists include_dead found))
                (Dict.erase (digest s.project_gpr) d))
            ≡ (if any_entry (is_gone reply exists digest k) found
                then none
                else Dict.lookup k (Dict.erase (digest s.project_gpr) d))
          → Dict.lookup k (
              erase_all
                (map digest (
                  if not a && not e
                  then s.project_gpr ∷ stale reply exists include_dead found
                  else stale reply exists include_dead found))
                d)
            ≡ (if (not e && not a && str_eq (digest s.project_gpr) k)
                  || any_entry (is_gone reply exists digest k) found
                then none
                else Dict.lookup k d)
      step true true h k' = h
      step true false h k' = h
      step false true h k' = h
      step false false h k' = k' ∙ ground (arith, lookup-erase (digest s.project_gpr) k d)
