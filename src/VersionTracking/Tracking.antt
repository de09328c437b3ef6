-- ===== src/VersionTracking/Tracking.antt =====
-- `version_track` of ghidra_rpc/server/tools/version_tracking.py: the correlators' runs and the
-- handler as a whole.
pub mod Keys
use ghidra_rpc_win.Common.{
  String, ◌<>◌, str_eq, Bool, true, false, ◌||◌, Option, none, some, List, [], ◌∷◌, ◌++◌,
  if◌then◌else◌,
}
use ghidra_rpc_win.Common.Exec.{Result, ok, err, raise, value_error}
use ghidra_rpc_win.Context.Loading.{Project, Action}
use ghidra_rpc_win.VersionTracking.{Scale, Options, Report, track_report}
use ghidra_rpc_win.VersionTracking.Handles.{
  Tracker, Pair, Opened, correlator_factories, with_session,
}

pub record Tracked : Type 0 where
  pub report : Report
  pub bsim_used : Bool
  pub correlators_run : List String

module _ (g : Project) (t : Tracker g) where
  open g use {P, W}
  open t use {
    V, C, make_correlator, start_transaction, correlate, end_transaction, match_sets, listing,
  }

  -- The transaction is committed if the correlator does not raise.
  abbrev correlated : V → Result (Unit {0}) × W → Bool × W
  correlated session (ok u, w) = (true, end_transaction session true w)
  correlated session (err e, w) = (false, end_transaction session false w)

  abbrev started : C → V → Result (Unit {0}) × W → Bool × W
  started correlator session (err e, w) = (false, w)
  started correlator session (ok u, w) = correlated session (correlate correlator session w)

  abbrev made : V → Result C × W → Bool × W
  made session (err e, w) = (false, w)
  made session (ok correlator, w) = started correlator session (start_transaction session w)

  -- `_run_single_correlator` for a factory and `_run_bsim_correlator` for none
  unfoldable pub run_single_correlator : V → Opened g t → Option (String × String) → W → Bool × W
  run_single_correlator session opened factory w =
      made session (make_correlator factory opened.src_prog opened.dst_prog w)

  -- The class names of those that succeeded, in order.
  unfoldable pub run_correlators : V → Opened g t → List (String × String) → W → List String × W
  unfolding run_single_correlator
  run_correlators session opened [] w = ([], w)
  run_correlators session opened (factory ∷ factories) w =
      let (succeeded, w') = run_single_correlator session opened (some factory) w in
      let (names, w'') = run_correlators session opened factories w' in
      (if succeeded then factory.1 ∷ names else names, w'')

  abbrev tracked : Scale → Options → V → Opened g t → List String → Bool × W → Result Tracked × W
  tracked scale options session opened names (bsim, w) = elim (match_sets session w) [
    | err e ↦ (err e, w)
    | ok sets ↦ (
      ok (record {
        report =
            track_report scale options (listing opened.src_prog w) (listing opened.dst_prog w) sets;
        bsim_used = bsim;
        correlators_run = if bsim then names ++ "BSimProgramCorrelatorFactory" ∷ [] else names;
      }),
      w,
    )
  ]

  -- The body of the `try`.
  unfoldable pub track : Scale → Options → Opened g t → V → Action g Tracked
  unfolding run_correlators track_report
  track scale options opened session ctx =
      let (names, w) = run_correlators session opened correlator_factories ctx.world in
      let (r, w') =
        tracked scale options session opened names (run_single_correlator session opened none w) in
      (r, record ctx { world = w' })

  abbrev pub vt_session_name : Pair g t → String
  vt_session_name pair = "ghidra-rpc-vt-" <> pair.src_name <> "-vs-" <> pair.dst_name

  unfoldable pub version_track : Scale → Options → String → String → Action g Tracked
  unfolding with_session track
  version_track scale options binary1 binary2 ctx =
      let run = with_session g t vt_session_name binary1 binary2 (track scale options) ctx in
      if str_eq binary1 "" || str_eq binary2 ""
      then (
        raise value_error
            ("Missing required arguments: source (binary1) and destination (binary2)" ∷ []),
        ctx,
      )
      else run
