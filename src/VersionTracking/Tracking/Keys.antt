-- ===== src/VersionTracking/Tracking/Keys.antt =====
-- What `version_track` returns, and which programs are loaded after it.
use ghidra_rpc_win.Common.{String, str_eq, ◌≡◌, refl, false, ◌||◌}
use ghidra_rpc_win.Common.Exec.{ok}
use ghidra_rpc_win.Context.Loading.{Project, Context, on_world}
use ghidra_rpc_win.VersionTracking.{Scale, Options}
use ghidra_rpc_win.VersionTracking.Handles.{Tracker, Pair, Opened, open_vt_programs}
use ghidra_rpc_win.VersionTracking.Handles.Actions.{Keeps}
use ghidra_rpc_win.VersionTracking.Handles.Standing.{IsIdentity, IsKeyed}
use ghidra_rpc_win.VersionTracking.Handles.Restoring.{IsGivenBack}
use ghidra_rpc_win.VersionTracking.Handles.Kept.{SameProgram, with_session-Kept}
use ghidra_rpc_win.VersionTracking.Tracking.{track, vt_session_name, version_track}

module _ (g : Project) (t : Tracker g) where
  track-Keeps :
      (scale : Scale) (options : Options) (opened : Opened g t) (session : Tracker.V t)
      → Keeps g t (track g t scale options opened session)
  unfolding track
  track-Keeps scale options opened session = record { at = λ ctx. refl }

  -- Where each key of the loaded programs is used once and is not empty: when both names are given and
  -- their programs opened, the session was created, and releasing the handles and opening the programs
  -- again do not fail, then `version_track` has the result of its body, an exception too, and
  -- afterwards each key has what it had, or a program that the project gives under the name of the one
  -- that it had.
  pub version_track-SameProgram :
      (scale : Scale) (options : Options) (b1 b2 : String) (pair : Pair g t) (opened : Opened g t)
      (session : Tracker.V t) (ctx c c' : Context g)
      → IsIdentity g t
      → IsKeyed g t ctx.programs
      → (str_eq b1 "" || str_eq b2 "") ≡ false
      → open_vt_programs g t b1 b2 ctx ≡ (ok (pair, opened), c)
      → on_world g
          (Tracker.create_session t (vt_session_name g t pair) opened.src_prog opened.dst_prog)
          c
        ≡ (ok session, c')
      → IsGivenBack g t
      → ((version_track g t scale options b1 b2 ctx).0
          ≡ (track g t scale options opened session c').0)
        × ((k : String) → SameProgram g t k ctx (version_track g t scale options b1 b2 ctx).1)
  unfolding version_track
  version_track-SameProgram scale options b1 b2 pair opened session ctx c c' law keyed given h k
        back =
      rw given (
        with_session-Kept g t (vt_session_name g t) b1 b2 (track g t scale options) pair opened
          session ctx c c' law keyed h k back (track-Keeps scale options opened session))
