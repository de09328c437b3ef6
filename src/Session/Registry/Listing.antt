-- ===== src/Session/Registry/Listing.antt =====
-- What `load_all` lists after `register` and `unregister`.
use ghidra_rpc_win.Common.{
  ◌≡◌, refl, ◌∙◌, sym, true, false, Option, none, some, List, [], ◌∷◌, ◌++◌, arith,
}
use ghidra_rpc_win.Common.Dict
use ghidra_rpc_win.Common.Exec.{Result, ok, err}
use ghidra_rpc_win.Json.{Json, obj, Codec, IsLawful}
use ghidra_rpc_win.Session.{Host, Session, registry_entry, session_of}
use ghidra_rpc_win.Session.RoundTrip.{IsNormal, resolved, session_of-registry_entry}
use ghidra_rpc_win.Session.Registry.{
  registry_path, project_digest, parse_registry, register, push, sessions_of, load_all, load_found,
  load_parsed, Files,
}
use ghidra_rpc_win.Session.Registry.View.{
  view, view_text, IsHealthy, NoOther, fields_of, NoOtherText, view-register, register-IsHealthy,
}

module _ (c : Codec) (h : Host) where
  load_parsed-fields_of :
      (p : Option Json)
      → NoOther c h p
      → load_parsed c h p ≡ sessions_of c h (Dict.values (fields_of c h p))
  load_parsed-fields_of none n = unfold sessions_of Dict.values in refl
  load_parsed-fields_of (some (obj fs)) n = refl
  load_parsed-fields_of (some v) n = absurd n

  load_found-view_text :
      (o : Option (Codec.Text c))
      → NoOtherText c h o
      → load_found c h true o ≡ sessions_of c h (Dict.values (view_text c h o))
  load_found-view_text none n = unfold sessions_of Dict.values in refl
  load_found-view_text (some t) n = load_parsed-fields_of (parse_registry c h t) n

  pub load_all-view :
      (files : Files c h)
      → IsHealthy c h files
      → load_all c h true files ≡ sessions_of c h (Dict.values (view c h files))
  unfolding load_all view IsHealthy
  load_all-view files healthy = load_found-view_text (Dict.lookup (registry_path h) files) healthy

  push-snoc :
      (r : Result Session) (rest rest' : Result (List Session)) (ss : List Session) (s : Session)
      → ((ts : List Session) → rest ≡ ok ts → rest' ≡ ok (ts ++ s ∷ []))
      → push c h r rest ≡ ok ss
      → push c h r rest' ≡ ok (ss ++ s ∷ [])
  push-snoc (ok t) (ok ts) rest' ss s ih e = ground (arith, ih ts)
  push-snoc (ok t) (err x) rest' ss s ih e = cc
  push-snoc (err x) rest rest' ss s ih e = ground (arith, ih ss)

  sessions_of-snoc :
      (vs : List Json) (v : Json) (ss : List Session) (s : Session)
      → session_of h v ≡ ok s
      → sessions_of c h vs ≡ ok ss
      → sessions_of c h (vs ++ v ∷ []) ≡ ok (ss ++ s ∷ [])
  unfolding sessions_of
  sessions_of-snoc [] v ss s e r = rw e (ground arith)
  sessions_of-snoc (w ∷ vs) v ss s e r =
      push-snoc (session_of h w) (sessions_of c h vs) (sessions_of c h (vs ++ v ∷ [])) ss s
        (λ ts. sessions_of-snoc vs v ts s e) r

  -- Once a session with normal paths is registered, under a digest that the registry had not, a
  -- registry that could be listed lists it last, behind all that it listed before.
  pub load_all-register :
      IsLawful c
      → (s : Session) (files : Files c h) (before : List Session) → IsNormal h s
      → IsHealthy c h files
      → Dict.contains (project_digest h s.project_gpr) (view c h files) ≡ false
      → load_all c h true files ≡ ok before
      → load_all c h true (register c h true s files).1 ≡ ok (before ++ resolved h s ∷ [])
  load_all-register law s files before n healthy fresh listed =
      load_all-view _ (register-IsHealthy c h law s files healthy)
      ∙ rw (view-register c h law s files healthy, Dict.values-insert_absent _ _ _ fresh)
          (sessions_of-snoc (Dict.values (view c h files)) (registry_entry h s) before
            (resolved h s) (session_of-registry_entry h s n)
            (sym (load_all-view files healthy) ∙ listed))
