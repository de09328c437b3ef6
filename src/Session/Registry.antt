-- ===== src/Session/Registry.antt =====
-- The global registry of ghidra_rpc/session.py: one JSON object from project digests to entries.
-- An action runs with the lock held, so it is a function of the file system; it returns the file
-- system also when it raises. Its first argument is whether `open` succeeds, or raises an `OSError`.
pub mod View
pub mod Listing
use ghidra_rpc_win.Common.{
  String, str_eq, ◌||◌, Bool, true, false, Option, none, some, List, [], ◌∷◌, if◌then◌else◌,
}
use ghidra_rpc_win.Common.Dict
use ghidra_rpc_win.Common.Dict.{Dict}
use ghidra_rpc_win.Common.Exec.{
  ExnType, Result, ok, err, raise, type_error, key_error, attribute_error,
}
use ghidra_rpc_win.Common.Text.{codes, in_text}
use ghidra_rpc_win.Json.{Items, nil, cons, arr, Json, str, obj, to_dict, of_dict, Codec}
use ghidra_rpc_win.Session.{
  Platform, linux, darwin, nt, Host, ◌/◌, set_var, Session, dir_json, registry_entry, session_of,
}

module _ (h : Host) where
  open h use {platform, to_path, resolve, digest, home, state_dir, xdg_state_home, local_appdata}

  abbrev or_path : Option String → String → String
  or_path none fallback = fallback
  or_path (some p) fallback = to_path p

  base_dir : Platform → String
  base_dir darwin = home / "Library" / "Application Support" / "ghidra-rpc"
  base_dir nt = or_path (set_var local_appdata) (home / "AppData" / "Local") / "ghidra-rpc"
  base_dir linux = or_path (set_var xdg_state_home) (home / ".local" / "state") / "ghidra-rpc"

  unfoldable pub registry_path : String
  unfolding base_dir
  registry_path = or_path (set_var state_dir) (base_dir platform) / "sessions.json"

  unfoldable pub project_digest : String → String
  project_digest gpr = digest (resolve gpr)

-- `except (KeyError, TypeError): continue`
abbrev skipped : ExnType → Bool
skipped key_error = true
skipped type_error = true
skipped _ = false

module _ (c : Codec) (h : Host) where
  open c use {Text, empty, blank, loads, dumps}

  abbrev pub Files : Type 0
  Files = Dict Text

  -- `open(path, "a+")` creates an empty file.
  abbrev content : Option Text → Text
  content none = empty
  content (some t) = t

  -- `json.loads(content) if content.strip() else {}`; `none` is a `JSONDecodeError`.
  unfoldable pub parse_registry : Text → Option Json
  unfolding of_dict
  parse_registry t = if blank t then some (obj (of_dict [])) else loads t

  abbrev write_registry : Dict Json → Files → Files
  write_registry d files = Dict.insert (registry_path h) (dumps (obj (of_dict d))) files

  -- `registry[digest] = entry`, for what was parsed; a malformed text counts as `{}`.
  abbrev put_entry : String → Json → Option Json → Result (Dict Json)
  put_entry k entry none = ok (Dict.insert k entry [])
  put_entry k entry (some (obj fs)) = ok (Dict.insert k entry (to_dict fs))
  put_entry k entry (some _) = raise type_error []

  abbrev commit : Files → Result (Dict Json) → Result (Unit {0}) × Files
  commit files (ok d) = (ok tt, write_registry d files)
  commit files (err e) = (err e, files)

  abbrev opened : Option Text → Files → Files
  opened none files = Dict.insert (registry_path h) empty files
  opened (some t) files = files

  -- An `OSError` of `open` is swallowed.
  unfoldable pub register : Bool → Session → Files → Result (Unit {0}) × Files
  register can_open s files =
      if can_open
      then (let found = Dict.lookup (registry_path h) files in
          commit (opened found files) (
            put_entry (project_digest h s.project_gpr) (registry_entry h s)
              (parse_registry (content found))))
      else (ok tt, files)

  abbrev contains_item : String → Items → Bool
  contains_item k nil = false
  contains_item k (cons (str s) vs) = str_eq s k || contains_item k vs
  contains_item k (cons v vs) = contains_item k vs

  -- `if digest not in registry: return`, then `del registry[digest]`. `in` looks for an equal item
  -- of a list and for a part of a string, where `del` then raises; on other values `in` raises.
  abbrev del_entry : String → Option Json → Files → Result (Unit {0}) × Files
  del_entry k none files = (ok tt, files)
  del_entry k (some (obj fs)) files =
      if Dict.contains k (to_dict fs)
      then (ok tt, write_registry (Dict.erase k (to_dict fs)) files)
      else (ok tt, files)
  del_entry k (some (arr vs)) files =
      (if contains_item k vs then raise type_error [] else ok tt, files)
  del_entry k (some (str s)) files =
      (if in_text (codes k) (codes s) then raise type_error [] else ok tt, files)
  del_entry k (some _) files = (raise type_error [], files)

  abbrev unregister_found : Bool → String → Option Text → Files → Result (Unit {0}) × Files
  unregister_found can_open k none files = (ok tt, files)
  unregister_found can_open k (some t) files =
      if can_open then del_entry k (parse_registry t) files else (ok tt, files)

  unfoldable pub unregister : Bool → String → Files → Result (Unit {0}) × Files
  unregister can_open gpr files =
      unregister_found can_open (project_digest h gpr) (Dict.lookup (registry_path h) files) files

  abbrev push : Result Session → Result (List Session) → Result (List Session)
  push (ok s) (ok rest) = ok (s ∷ rest)
  push (ok s) (err e) = err e
  push (err e) rest = if skipped e.kind then rest else err e

  unfoldable pub sessions_of : List Json → Result (List Session)
  sessions_of [] = ok []
  sessions_of (entry ∷ entries) = push (session_of h entry) (sessions_of entries)

  abbrev load_parsed : Option Json → Result (List Session)
  load_parsed none = ok []
  load_parsed (some (obj fs)) = sessions_of (Dict.values (to_dict fs))
  load_parsed (some _) = raise attribute_error []

  abbrev load_found : Bool → Option Text → Result (List Session)
  load_found can_open none = ok []
  load_found can_open (some t) = if can_open then load_parsed (parse_registry t) else ok []

  unfoldable pub load_all : Bool → Files → Result (List Session)
  load_all can_open files = load_found can_open (Dict.lookup (registry_path h) files)
