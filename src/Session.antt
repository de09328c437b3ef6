-- ===== src/Session.antt =====
-- ghidra_rpc/session.py (the per-project file) and the endpoint path of ghidra_rpc/transport.py.
-- Paths are their strings; the file system is a dict from paths to texts.
pub mod Registry
pub mod RoundTrip
use ghidra_rpc_win.Common.{
  String, ◌<>◌, Bool, true, false, Option, none, some, [], ◌∷◌, str_eq, if◌then◌else◌,
}
use ghidra_rpc_win.Common.Dict
use ghidra_rpc_win.Common.Dict.{Dict}
use ghidra_rpc_win.Common.Exec.{
  Result, ok, err, raise, key_error, type_error, attribute_error, ◌>>=◌, ExnType, Exn,
}
use ghidra_rpc_win.Json.{Json, null, str, obj, truthy, to_dict, of_dict, Codec}

pub data Platform : Type 0 where
  linux darwin nt : Platform

-- What the module asks of Python's os, pathlib and hashlib: `to_path` is `str(Path(s))`, `resolve`
-- is `str(Path(s).resolve())`, `parent` is `str(Path(s).parent)`, `digest` the first eight digits
-- of SHA-256, and the rest the environment.
pub record Host : Type 0 where
  pub platform : Platform
  pub to_path : String → String
  pub resolve : String → String
  pub parent : String → String
  pub digest : String → String
  pub temp_dir : String
  pub home : String
  pub state_dir : Option String
  pub xdg_state_home : Option String
  pub local_appdata : Option String

-- `Path(p) / name`
infixl 65 ◌/◌
abbrev pub ◌/◌ : String → String → String
p / name = p <> "/" <> name

-- The mode is a string wherever the program makes a session; `load` takes what the file holds.
pub record Session : Type 0 where
  pub mode : Json
  pub project_gpr : String
  pub socket_path : String
  pub ghidra_install_dir : Option String

-- An environment variable that is set and not empty.
abbrev pub set_var : Option String → Option String
set_var none = none
set_var (some v) = if str_eq v "" then none else some v

abbrev pub dir_json : Option String → Json
dir_json none = null
dir_json (some d) = str d

-- The dict that `save` and `register` write.
module _ (h : Host) where
  open h use {platform, to_path, resolve, parent, digest, temp_dir, state_dir}

  unfoldable pub endpoint_path_for_project : String → String
  endpoint_path_for_project gpr = elim platform [
    | nt ↦ temp_dir / ("ghidra-rpc-" <> digest (resolve gpr) <> ".port")
    | _ ↦ "/tmp/ghidra-rpc-" <> digest (resolve gpr) <> ".sock"
  ]

  unfoldable pub session_file_path : String → String
  session_file_path gpr = elim (set_var state_dir) [
    | some d ↦ to_path d / (digest (resolve gpr) <> ".json")
    | none ↦ parent (resolve gpr) / (".ghidra-rpc-" <> digest (resolve gpr) <> ".json")
  ]

  unfoldable pub session_data : Session → Json
  unfolding of_dict
  session_data s = obj (
      of_dict (
        ("mode", s.mode)
        ∷ ("project_gpr", str (resolve s.project_gpr))
        ∷ ("socket_path", str s.socket_path)
        ∷ ("ghidra_install_dir", dir_json s.ghidra_install_dir)
        ∷ []))

  -- `entry` of `register`
  unfoldable pub registry_entry : Session → Json
  unfolding of_dict
  registry_entry s = obj (
      of_dict (
        ("project_gpr", str (resolve s.project_gpr))
        ∷ ("socket_path", str s.socket_path)
        ∷ ("mode", s.mode)
        ∷ ("ghidra_install_dir", dir_json s.ghidra_install_dir)
        ∷ []))

  -- `Path(v)`
  path_of : Json → Result String
  path_of (str s) = ok (to_path s)
  path_of _ = raise type_error []

  -- `data[k]`
  item : String → Dict Json → Result Json
  item k d = elim (Dict.lookup k d) [ some v ↦ ok v | none ↦ raise key_error (k ∷ []) ]

  -- `Path(v) if v else None`, where a missing key is `None`
  optional_path : Option Json → Result (Option String)
  optional_path none = ok none
  optional_path (some v) = if truthy v then (path_of v >>= λ p. ok (some p)) else ok none

  session_of_dict : Dict Json → Result Session
  session_of_dict d = do
    mode ← item "mode" d
    gpr ← item "project_gpr" d
    gpr_path ← path_of gpr
    sock ← item "socket_path" d
    sock_path ← path_of sock
    dir ← optional_path (Dict.lookup "ghidra_install_dir" d)
    ok (record {
      mode = mode;
      project_gpr = gpr_path;
      socket_path = sock_path;
      ghidra_install_dir = dir;
    })

  -- The session that a file's or a registry's entry describes.
  unfoldable pub session_of : Json → Result Session
  unfolding path_of item optional_path session_of_dict Dict.lookup truthy to_dict
  session_of (obj fs) = session_of_dict (to_dict fs)
  session_of _ = raise attribute_error []

module _ (c : Codec) (h : Host) where
  open c use {Text, loads, dumps}

  unfoldable pub save : Session → Dict Text → Dict Text
  save s files = Dict.insert (session_file_path h s.project_gpr) (dumps (session_data h s)) files

  -- `except (json.JSONDecodeError, KeyError): return None`
  abbrev session_or_none : Result Session → Result (Option Session)
  session_or_none (ok s) = ok (some s)
  session_or_none (err e) = elim e.kind [ ExnType.key_error ↦ ok none | _ ↦ err e ]

  -- `none` is a file that is not there.
  abbrev read_session : Option Text → Result (Option Session)
  read_session none = ok none
  read_session (some t) = elim (loads t) [
    | none ↦ ok none
    | some v ↦ session_or_none (session_of h v)
  ]

  unfoldable pub load : String → Dict Text → Result (Option Session)
  load gpr files = read_session (Dict.lookup (session_file_path h gpr) files)

  unfoldable pub remove : String → Dict Text → Dict Text
  remove gpr files = Dict.erase (session_file_path h gpr) files
