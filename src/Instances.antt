-- ===== src/Instances.antt =====
-- `_discover_instances` of ghidra_rpc/cli.py: the daemons that the registry and the endpoint files
-- name, and which of them answer a ping.
pub mod Candidates
pub mod Probing
pub mod Stale
use ghidra_rpc_win.Common.{
  String, Bool, true, false, not, ◌&&◌, ◌||◌, Option, none, some, List, [], ◌∷◌, if◌then◌else◌,
}
use ghidra_rpc_win.Common.Dict
use ghidra_rpc_win.Common.Dict.{Dict}
use ghidra_rpc_win.Common.Exec.{ExnType, Result, ok, err, raise, attribute_error, ◌>>=◌}
use ghidra_rpc_win.Json.{Json, null, bool, str, obj, to_dict, of_dict, truthy, Codec}
use ghidra_rpc_win.Client.{Reply, response, failed}
use ghidra_rpc_win.Session.{Host, Session}
use ghidra_rpc_win.Session.Registry.{Files, load_all, unregister}

-- A candidate, under the text of its endpoint: the session, if the registry has one.
abbrev pub Candidates : Type 0
Candidates = Dict (Option Session)

-- An entry of the registry takes the place of an earlier one with its endpoint.
unfoldable pub add_sessions : List Session → Candidates → Candidates
add_sessions [] found = found
add_sessions (s ∷ sessions) found = add_sessions sessions (Dict.insert s.socket_path (some s) found)

-- An endpoint file counts only if the registry does not have it.
unfoldable pub add_endpoints : List String → Candidates → Candidates
unfolding Dict.contains
add_endpoints [] found = found
add_endpoints (path ∷ paths) found =
    let known = add_endpoints paths found in
    let added = add_endpoints paths (Dict.insert path none found) in
    if Dict.contains path found then known else added

unfoldable pub candidates : List Session → List String → Candidates
unfolding add_sessions add_endpoints
candidates sessions paths = add_endpoints paths (add_sessions sessions [])

abbrev result_of : Dict Json → Json
result_of d = elim (Dict.lookup "result" d) [ none ↦ obj (of_dict []) | some v ↦ v ]

abbrev ok_of : Dict Json → Bool
ok_of d = elim (Dict.lookup "ok" d) [ none ↦ false | some v ↦ truthy v ]

-- `_probe`, from the reply to the ping; `null` stands for `None`.
unfoldable pub probe : Reply → Json
probe (failed f) = null
probe (response (obj fs)) = if ok_of (to_dict fs) then result_of (to_dict fs) else null
probe (response _) = null

abbrev pub is_null : Json → Bool
is_null null = true
is_null _ = false

pub record Entry : Type 0 where
  pub running : Bool
  pub socket : String
  pub project : Json
  pub mode : Json
  pub pid : Json

abbrev get_or_null : String → Dict Json → Json
get_or_null k d = elim (Dict.lookup k d) [ none ↦ null | some v ↦ v ]

-- What is known of an instance that does not describe itself.
abbrev pub from_session : Bool → String → Option Session → Entry
from_session alive path none = record {
  running = alive;
  socket = path;
  project = null;
  mode = null;
  pid = null;
}
from_session alive path (some s) = record {
  running = alive;
  socket = path;
  project = str s.project_gpr;
  mode = s.mode;
  pid = null;
}

-- `entry`, from the result of the ping.
unfoldable pub entry_of : String → Option Session → Json → Result Entry
entry_of path sess null = ok (from_session false path sess)
entry_of path sess (obj fs) =
    if truthy (obj fs)
    then ok (record {
      running = true;
      socket = path;
      project = get_or_null "project_gpr" (to_dict fs);
      mode = get_or_null "mode" (to_dict fs);
      pid = get_or_null "pid" (to_dict fs);
    })
    else ok (from_session true path sess)
entry_of path sess v =
    if truthy v then raise attribute_error [] else ok (from_session true path sess)

-- The project of a registry entry whose endpoint is gone.
abbrev pub stale_of : Bool → Option Session → List String → List String
stale_of gone none stale = stale
stale_of gone (some s) stale = if gone then s.project_gpr ∷ stale else stale

module _ (reply : String → Reply) (exists : String → Bool) (include_dead : Bool) where
  -- A candidate that does not answer.
  abbrev pub is_dead : String → Bool
  is_dead path = is_null (probe (reply path))

  unfoldable pub results : Candidates → Result (List Entry)
  unfolding entry_of probe
  results [] = ok []
  results ((path, sess) ∷ found) =
      let rest = results found in
      let listed = (do
        entry ← entry_of path sess (probe (reply path))
        entries ← rest
        ok (entry ∷ entries)) in
      if is_dead path && not include_dead then rest else listed

  unfoldable pub stale : Candidates → List String
  unfolding probe
  stale [] = []
  stale ((path, sess) ∷ found) = stale_of (is_dead path && not (exists path)) sess (stale found)

module _ (c : Codec) (h : Host) (can_open : Bool) where
  -- `for gpr in stale: session_mod.unregister(gpr)`
  abbrev pub then_next :
      Result (Unit {0}) × Files c h
      → (Files c h → Result (Unit {0}) × Files c h)
      → Result (Unit {0}) × Files c h
  then_next (err e, files) next = (err e, files)
  then_next (ok u, files) next = next files

  unfoldable pub prune : List String → Files c h → Result (Unit {0}) × Files c h
  prune [] files = (ok tt, files)
  prune (gpr ∷ gprs) files = then_next (unregister c h can_open gpr files) (prune gprs)

  abbrev pub returning : {A : Type 0} → A → Result (Unit {0}) × Files c h → Result A × Files c h
  returning a (err e, files) = (err e, files)
  returning a (ok u, files) = (ok a, files)

  abbrev pub prune_after :
      Result (List Entry) → List String → Files c h → Result (List Entry) × Files c h
  prune_after (err e) gprs files = (err e, files)
  prune_after (ok entries) gprs files = returning entries (prune gprs files)

  abbrev pub discover_with :
      (String → Reply)
      → (String → Bool)
      → Bool
      → List String
      → Result (List Session)
      → Files c h
      → Result (List Entry) × Files c h
  discover_with reply exists include_dead paths (err e) files = (err e, files)
  discover_with reply exists include_dead paths (ok sessions) files =
      let found = candidates sessions paths in
      prune_after (results reply exists include_dead found) (stale reply exists include_dead found)
        files

  unfoldable pub discover_instances :
      (String → Reply)
      → (String → Bool)
      → Bool
      → List String
      → Files c h
      → Result (List Entry) × Files c h
  unfolding candidates results stale prune
  discover_instances reply exists include_dead paths files =
      discover_with reply exists include_dead paths (load_all c h can_open files) files
