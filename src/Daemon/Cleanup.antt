-- ===== src/Daemon/Cleanup.antt =====
-- What a blocking start leaves behind.
use ghidra_rpc_win.Common.{◌≡◌, refl, ◌∙◌, ◌≢◌, none, eq_refl, true}
use ghidra_rpc_win.Common.Dict
use ghidra_rpc_win.Common.Exec.{Result, ok, err}
use ghidra_rpc_win.Json.{Codec, IsLawful}
use ghidra_rpc_win.Session.{
  Host, Session, save, load, remove, session_file_path, session_data, registry_entry,
}
use ghidra_rpc_win.Session.RoundTrip.{load-remove}
use ghidra_rpc_win.Session.Registry.{Files, unregister, registry_path, project_digest}
use ghidra_rpc_win.Session.Registry.View.{
  view, IsHealthy, view-register, view-unregister, register-ok, unregister-ok, view-insert_ne,
  view-erase_ne, insert_ne-IsHealthy,
}
use ghidra_rpc_win.Daemon.{announce, removed, start_blocking, serve, finish}

module _ (c : Codec) (h : Host) where
  serve-ok :
      (s : Session) (result : Result (Unit {0})) (meanwhile : Files c h → Files c h)
      (p : Result (Unit {0}) × Files c h)
      → p.0 ≡ ok tt
      → serve c h true s (ok tt) result (ok tt) meanwhile p
        ≡ finish c h true s result (ok tt) (meanwhile p.1)
  serve-ok s result meanwhile (ok u, files) e = refl
  serve-ok s result meanwhile (err x, files) e = cc

  removed-ok :
      (s : Session) (result : Result (Unit {0})) (p : Result (Unit {0}) × Files c h)
      → p.0 ≡ ok tt
      → removed c h true s result p ≡ (result, remove c h s.project_gpr p.1)
  removed-ok s result (ok u, files) e = refl
  removed-ok s result (err x, files) e = cc

  -- The files that the server finds, and those that it leaves, from the ones at its end.
  abbrev pub announced : Session → Files c h → Files c h
  announced s files = (announce c h true s files).1

  abbrev cleaned : Session → Files c h → Files c h
  cleaned s files = remove c h s.project_gpr (unregister c h true s.project_gpr files).1

  module _ (law : IsLawful c) (s : Session) (files : Files c h) (meanwhile : Files c h → Files c h)
      (apart : session_file_path h s.project_gpr ≢ registry_path h) (healthy : IsHealthy c h files)
      (still_healthy : IsHealthy c h (meanwhile (announced s files))) where
    saved-IsHealthy : IsHealthy c h (save c h s files)
    unfolding save
    saved-IsHealthy = insert_ne-IsHealthy c h _ _ files apart healthy

    start_blocking-cleaned :
        (result : Result (Unit {0}))
        → start_blocking c h true s (ok tt) result (ok tt) meanwhile files
          ≡ (result, cleaned s (meanwhile (announced s files)))
    unfolding start_blocking
    start_blocking-cleaned result =
        serve-ok s result meanwhile (announce c h true s files)
          (register-ok c h s (save c h s files) law saved-IsHealthy)
        ∙ removed-ok s result (unregister c h true s.project_gpr (meanwhile (announced s files)))
            (unregister-ok c h s.project_gpr _ still_healthy)

    gone : load c h s.project_gpr (cleaned s (meanwhile (announced s files))) ≡ ok none
    gone = rw (load-remove, eq_refl)

    view-announced :
        view c h (announced s files)
        ≡ Dict.insert (project_digest h s.project_gpr) (registry_entry h s) (view c h files)
    unfolding save
    view-announced = rw (view-register c h law s (save c h s files) saved-IsHealthy) (
        rw (
          view-insert_ne c h (session_file_path h s.project_gpr) (Codec.dumps c (session_data h s))
            files apart))

    view-cleaned :
        view c h (cleaned s (meanwhile (announced s files)))
        ≡ Dict.erase (project_digest h s.project_gpr) (view c h (meanwhile (announced s files)))
    unfolding remove
    view-cleaned =
        view-erase_ne c h _ _ apart ∙ view-unregister c h law s.project_gpr _ still_healthy

    -- A blocking start whose context is created and closed without an exception, on a registry that
    -- can be opened, is not the session file, and is healthy at the start and when the server ends, has
    -- added the project's
    -- entry to the registry that the server starts with. It ends as the server did, with the
    -- project's session file gone and its entry, and no other, gone from the registry that the
    -- server ends with.
    pub start_blocking_lem :
        (result : Result (Unit {0}))
        → let out = start_blocking c h true s (ok tt) result (ok tt) meanwhile files in
          (view c h (announced s files)
            ≡ Dict.insert (project_digest h s.project_gpr) (registry_entry h s) (view c h files))
          × (out.0 ≡ result)
          × (load c h s.project_gpr out.1 ≡ ok none)
          × (view c h out.1
              ≡ Dict.erase
                  (project_digest h s.project_gpr)
                  (view c h (meanwhile (announced s files))))
    start_blocking_lem result =
        rw (start_blocking-cleaned result) (view-announced, refl, gone, view-cleaned)
