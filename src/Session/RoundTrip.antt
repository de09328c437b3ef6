-- ===== src/Session/RoundTrip.antt =====
-- The session file: a saved session is read back, and a removed one is gone.
use ghidra_rpc_win.Common.{
  String, ◌≡◌, refl, ◌≢◌, Option, none, some, str_eq, eq_refl, str_ne, Bool-cases, inl, inr,
  if◌then◌else◌,
}
use ghidra_rpc_win.Common.Dict.{Dict, lookup-insert, lookup-erase}
use ghidra_rpc_win.Common.Exec.{ok}
use ghidra_rpc_win.Json.{Codec, IsLawful, truthy}
use ghidra_rpc_win.Session.{
  Host, Session, save, load, remove, session_file_path, session_data, registry_entry, session_of,
  optional_path, path_of, dir_json,
}

-- Paths that pathlib has normalised.
abbrev pub IsPathOrNone : Host → Option String → Type 0
IsPathOrNone h none = Unit
IsPathOrNone h (some d) = (h.to_path d ≡ d) × (d ≢ "")

-- A session as `__post_init__` leaves it: its fields are paths.
pub record IsNormal (h : Host) (s : Session) : Type 0 where
  pub gpr : h.to_path (h.resolve s.project_gpr) ≡ h.resolve s.project_gpr
  pub socket : h.to_path s.socket_path ≡ s.socket_path
  pub dir : IsPathOrNone h s.ghidra_install_dir

abbrev pub resolved : Host → Session → Session
resolved h s = record s { project_gpr = h.resolve s.project_gpr }

optional_path-dir_json :
    (h : Host) (dir : Option String)
    → IsPathOrNone h dir
    → optional_path h (some (dir_json dir)) ≡ ok dir
unfolding optional_path truthy path_of
optional_path-dir_json h none n = refl
optional_path-dir_json h (some d) n = rw (str_ne d "" n.1, n.0)

session_of-session_data :
    (h : Host) (s : Session) → IsNormal h s → session_of h (session_data h s) ≡ ok (resolved h s)
unfolding session_of session_data
session_of-session_data h s n =
    rw (n.gpr, n.socket, optional_path-dir_json h s.ghidra_install_dir n.dir)

pub session_of-registry_entry :
    (h : Host) (s : Session) → IsNormal h s → session_of h (registry_entry h s) ≡ ok (resolved h s)
unfolding session_of registry_entry
session_of-registry_entry h s n =
    rw (n.gpr, n.socket, optional_path-dir_json h s.ghidra_install_dir n.dir)

module _ (c : Codec) (h : Host) where
  -- A session whose paths are normal, once saved, is loaded again, with its project path resolved.
  pub load-save :
      IsLawful c
      → (s : Session) (files : Dict (Codec.Text c)) → IsNormal h s
      → load c h s.project_gpr (save c h s files) ≡ ok (some (resolved h s))
  unfolding load save
  load-save law s files n =
      rw (lookup-insert, eq_refl, law.loads-dumps, session_of-session_data h s n)

  -- After `remove` a project whose session file was the removed one has no session, and any other
  -- project has the session that it had.
  pub load-remove :
      (gpr other : String) (files : Dict (Codec.Text c))
      → load c h other (remove c h gpr files) ≡ (
          if str_eq (session_file_path h gpr) (session_file_path h other)
          then ok none
          else load c h other files)
  unfolding load remove
  load-remove gpr other files =
      rw lookup-erase
        (elim (Bool-cases (str_eq (session_file_path h gpr) (session_file_path h other))) [
          | inl e ↦ rw e
          | inr e ↦ rw e
        ])
