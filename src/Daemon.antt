-- ===== src/Daemon.antt =====
-- ghidra_rpc/daemon.py: is a daemon responsive, the wait for one that was started, and the stop.
pub mod Waiting
pub mod Cleanup
use ghidra_rpc_win.Common.{
  ℕ, String, Bool, true, false, Option, none, some, List, [], ◌∷◌, if◌then◌else◌,
}
use ghidra_rpc_win.Common.Dict
use ghidra_rpc_win.Common.Dict.{Dict}
use ghidra_rpc_win.Common.Exec.{err, Result, ok, raise, runtime_error, timeout_error}
use ghidra_rpc_win.Session.{Host, Session, save, remove}
use ghidra_rpc_win.Session.Registry.{Files, register, unregister}
use ghidra_rpc_win.Json.{Codec, Json, bool, obj, to_dict, truthy}
use ghidra_rpc_win.Rpc.{Read, got, hung_up, broken, read_line, Parsed, value, Wire}
use ghidra_rpc_win.Client.{
  Exchange, refused, send_failed, received, Reply, response, failed, Failure, daemon_not_running,
  daemon_error, raised, get_or_default,
}

-- `resp.get("ok", False)`, as its callers test it. Whatever raises counts as not running.
abbrev pub pong : Parsed → Bool
pong (value (obj fs)) = truthy (get_or_default "ok" (bool false) (to_dict fs))
pong _ = false

module _ (wire : Wire) where
  abbrev after_read : Read → Bool
  after_read (got buf) = pong (Wire.parse wire buf)
  after_read (hung_up buf) = pong (Wire.parse wire buf)
  after_read broken = false

  -- The endpoint file exists or not, and what it does with a ping.
  unfoldable pub is_running : Bool → Exchange → Bool
  unfolding read_line
  is_running false x = false
  is_running true refused = false
  is_running true send_failed = false
  is_running true (received events) = after_read (read_line [] events)

-- One round of the wait of `start_background`: whether the daemon is responsive, and the exit code
-- of its process if it has ended.
pub record Poll : Type 0 where
  pub running : Bool
  pub exit_code : Option ℕ

-- The rounds that fit before the deadline, in order. The process's end raises at once.
unfoldable pub wait_until_running : List Poll → Result (Unit {0})
wait_until_running [] = raise timeout_error ("Daemon did not start within " ∷ [])
wait_until_running (poll ∷ polls) =
    let rest = wait_until_running polls in
    if poll.running then ok tt else elim poll.exit_code [
      | some code ↦ raise runtime_error ("Daemon process exited immediately with code " ∷ [])
      | none ↦ rest
    ]

-- `stop_daemon`, for the reply to its `stop` request: any other failure than a missing daemon counts
-- as stopped.
unfoldable pub stop_daemon : Reply → Bool
stop_daemon (response r) = true
stop_daemon (failed (daemon_not_running m)) = false
stop_daemon (failed _) = true

-- What the two starts do with the session file and the registry.
module _ (c : Codec) (h : Host) (can_open : Bool) where
  -- `save(session)`, then `register(session)`, which may raise.
  abbrev pub announce : Session → Files c h → Result (Unit {0}) × Files c h
  announce s files = register c h can_open s (save c h s files)

  -- `start_background`, from the announcement to the end of its wait.
  abbrev pub wait_after : List Poll → Result (Unit {0}) × Files c h → Result (Unit {0}) × Files c h
  wait_after polls (err e, files) = (err e, files)
  wait_after polls (ok u, files) = (wait_until_running polls, files)

  unfoldable pub start_background : Session → List Poll → Files c h → Result (Unit {0}) × Files c h
  start_background s polls files = wait_after polls (announce s files)

  -- The `finally` of `start_blocking`: when `ctx.close()` raises, nothing after it runs.
  abbrev removed :
      Session → Result (Unit {0}) → Result (Unit {0}) × Files c h → Result (Unit {0}) × Files c h
  removed s result (err e, files) = (err e, files)
  removed s result (ok u, files) = (result, remove c h s.project_gpr files)

  abbrev pub finish :
      Session → Result (Unit {0}) → Result (Unit {0}) → Files c h → Result (Unit {0}) × Files c h
  finish s result (err e) files = (err e, files)
  finish s result (ok u) files = removed s result (unregister c h can_open s.project_gpr files)

  -- The context is created before the `try`, so what it raises leaves the announcement in place.
  abbrev pub serve :
      Session
      → Result (Unit {0})
      → Result (Unit {0})
      → Result (Unit {0})
      → (Files c h → Files c h)
      → Result (Unit {0}) × Files c h
      → Result (Unit {0}) × Files c h
  serve s created result closed meanwhile (err e, files) = (err e, files)
  serve s (err e) result closed meanwhile (ok u, files) = (err e, files)
  serve s (ok v) result closed meanwhile (ok u, files) = finish s result closed (meanwhile files)

  -- The results of the context's creation, of `run_server` (with `KeyboardInterrupt` caught) and of
  -- `ctx.close()` are given, and what others make of the files while the server runs.
  unfoldable pub start_blocking :
      Session
      → Result (Unit {0})
      → Result (Unit {0})
      → Result (Unit {0})
      → (Files c h → Files c h)
      → Files c h
      → Result (Unit {0}) × Files c h
  start_blocking s created result closed meanwhile files =
      serve s created result closed meanwhile (announce s files)
