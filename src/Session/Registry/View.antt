-- ===== src/Session/Registry/View.antt =====
-- The registry file implements a dict from project digests to entries.
use ghidra_rpc_win.Common.{
  arith, str_ne, ◌≢◌, String, ◌≡◌, refl, ◌∙◌, sym, true, Option, none, some, [], eq_refl,
  Bool-cases, inl, inr,
}
use ghidra_rpc_win.Common.Dict
use ghidra_rpc_win.Common.Dict.{Dict, lookup-insert, lookup-erase}
use ghidra_rpc_win.Common.Exec.{ok}
use ghidra_rpc_win.Json.{Json, obj, to_dict, of_dict, to_dict-of_dict, Codec, IsLawful}
use ghidra_rpc_win.Session.{Host, Session, registry_entry}
use ghidra_rpc_win.Session.Registry.{
  commit, opened, content, put_entry, del_entry, unregister_found, registry_path, project_digest,
  parse_registry, register, unregister, Files,
}

module _ (c : Codec) (h : Host) where
  abbrev pub fields_of : Option Json → Dict Json
  fields_of (some (obj fs)) = to_dict fs
  fields_of _ = []

  abbrev pub view_text : Option (Codec.Text c) → Dict Json
  view_text none = []
  view_text (some t) = fields_of (parse_registry c h t)

  -- The dict that the registry file stands for: empty where there is no readable object.
  unfoldable pub view : Files c h → Dict Json
  view files = view_text (Dict.lookup (registry_path h) files)

  abbrev pub NoOther : Option Json → Type 0
  NoOther none = Unit
  NoOther (some (obj fs)) = Unit
  NoOther (some _) = ⊥

  abbrev pub NoOtherText : Option (Codec.Text c) → Type 0
  NoOtherText none = Unit
  NoOtherText (some t) = NoOther (parse_registry c h t)

  -- The file is missing, malformed, or a JSON object.
  unfoldable pub IsHealthy : Files c h → Type 0
  IsHealthy files = NoOtherText (Dict.lookup (registry_path h) files)

  module _ (law : IsLawful c) where
    view-write :
        (d : Dict Json) (files : Files c h)
        → view (Dict.insert (registry_path h) (Codec.dumps c (obj (of_dict d))) files) ≡ d
    unfolding view parse_registry
    view-write d files =
        rw (lookup-insert, eq_refl, law.blank-dumps, law.loads-dumps, to_dict-of_dict)

    view-commit :
        (k : String) (entry : Json) (p : Option Json) (files : Files c h)
        → NoOther p
        → view (commit c h files (put_entry c h k entry p)).1 ≡ Dict.insert k entry (fields_of p)
    view-commit k entry none files n = view-write (Dict.insert k entry []) files
    view-commit k entry (some (obj fs)) files n =
        view-write (Dict.insert k entry (to_dict fs)) files
    view-commit k entry (some v) files n = absurd n

    parse-empty : parse_registry c h (Codec.empty c) ≡ some (obj (of_dict []))
    unfolding parse_registry
    parse-empty = rw law.blank-empty

    view-commit_file :
        (k : String) (entry : Json) (o : Option (Codec.Text c)) (files : Files c h)
        → NoOtherText o
        → view
            (commit c h
              (opened c h o files)
              (put_entry c h k entry (parse_registry c h (content c h o)))).1
          ≡ Dict.insert k entry (view_text o)
    unfolding to_dict of_dict
    view-commit_file k entry none files n =
        rw parse-empty (view-commit k entry (some (obj (of_dict []))) (opened c h none files) tt)
    view-commit_file k entry (some t) files n = view-commit k entry (parse_registry c h t) files n

    -- On a registry that is no other JSON value, and can be opened, `register` implements the
    -- insertion of the session's entry under its project's digest.
    pub view-register :
        (s : Session) (files : Files c h)
        → IsHealthy files
        → view (register c h true s files).1
          ≡ Dict.insert (project_digest h s.project_gpr) (registry_entry h s) (view files)
    unfolding register view IsHealthy
    view-register s files healthy =
        view-commit_file (project_digest h s.project_gpr) (registry_entry h s)
          (Dict.lookup (registry_path h) files) files healthy

    view-del_entry :
        (k : String) (files : Files c h) (p : Option Json)
        → view files ≡ fields_of p
        → NoOther p
        → view (del_entry c h k p files).1 ≡ Dict.erase k (fields_of p)
    unfolding Dict.erase
    view-del_entry k files none e n = e
    view-del_entry k files (some (obj fs)) e n = elim (Bool-cases (Dict.contains k (to_dict fs))) [
      | inl present ↦ rw present (view-write (Dict.erase k (to_dict fs)) files)
      | inr absent ↦ rw absent (e ∙ sym (Dict.erase-absent k (to_dict fs) absent))
    ]
    view-del_entry k files (some v) e n = absurd n

    view-unregister_found :
        (k : String) (files : Files c h) (o : Option (Codec.Text c))
        → view files ≡ view_text o
        → NoOtherText o
        → view (unregister_found c h true k o files).1 ≡ Dict.erase k (view_text o)
    unfolding Dict.erase
    view-unregister_found k files none e n = e
    view-unregister_found k files (some t) e n = view-del_entry k files (parse_registry c h t) e n

    -- On such a registry `unregister` implements the deletion of the project's entry.
    pub view-unregister :
        (gpr : String) (files : Files c h)
        → IsHealthy files
        → view (unregister c h true gpr files).1 ≡ Dict.erase (project_digest h gpr) (view files)
    unfolding unregister view IsHealthy
    view-unregister gpr files healthy =
        view-unregister_found (project_digest h gpr) files (Dict.lookup (registry_path h) files)
          (unfold view in refl) healthy

    write-IsHealthy :
        (d : Dict Json) (files : Files c h)
        → IsHealthy (Dict.insert (registry_path h) (Codec.dumps c (obj (of_dict d))) files)
    unfolding IsHealthy parse_registry
    write-IsHealthy d files = rw (lookup-insert, eq_refl, law.blank-dumps, law.loads-dumps) tt

    commit-IsHealthy :
        (k : String) (entry : Json) (p : Option Json) (files : Files c h)
        → NoOther p
        → IsHealthy (commit c h files (put_entry c h k entry p)).1
    commit-IsHealthy k entry none files n = write-IsHealthy (Dict.insert k entry []) files
    commit-IsHealthy k entry (some (obj fs)) files n =
        write-IsHealthy (Dict.insert k entry (to_dict fs)) files
    commit-IsHealthy k entry (some v) files n = absurd n

    register_found-IsHealthy :
        (k : String) (entry : Json) (o : Option (Codec.Text c)) (files : Files c h)
        → NoOtherText o
        → IsHealthy
            (commit c h
              (opened c h o files)
              (put_entry c h k entry (parse_registry c h (content c h o)))).1
    register_found-IsHealthy k entry none files n =
        rw parse-empty
          (commit-IsHealthy k entry (some (obj (of_dict []))) (opened c h none files) tt)
    register_found-IsHealthy k entry (some t) files n =
        commit-IsHealthy k entry (parse_registry c h t) files n

    pub register-IsHealthy :
        (s : Session) (files : Files c h)
        → IsHealthy files
        → IsHealthy (register c h true s files).1
    unfolding register
    register-IsHealthy s files healthy =
        register_found-IsHealthy (project_digest h s.project_gpr) (registry_entry h s)
          (Dict.lookup (registry_path h) files) files (unfold IsHealthy in healthy)

    del_entry-IsHealthy :
        (k : String) (files : Files c h) (p : Option Json)
        → NoOther p
        → IsHealthy files
        → IsHealthy (del_entry c h k p files).1
    del_entry-IsHealthy k files none n healthy = healthy
    del_entry-IsHealthy k files (some (obj fs)) n healthy =
        elim (Bool-cases (Dict.contains k (to_dict fs))) [
          | inl there ↦ rw there (write-IsHealthy (Dict.erase k (to_dict fs)) files)
          | inr gone ↦ rw gone healthy
        ]
    del_entry-IsHealthy k files (some v) n healthy = absurd n

    unregister_found-IsHealthy :
        (k : String) (files : Files c h) (o : Option (Codec.Text c))
        → NoOtherText o
        → IsHealthy files
        → IsHealthy (unregister_found c h true k o files).1
    unregister_found-IsHealthy k files none n healthy = healthy
    unregister_found-IsHealthy k files (some t) n healthy =
        del_entry-IsHealthy k files (parse_registry c h t) n healthy

    pub unregister-IsHealthy :
        (gpr : String) (files : Files c h)
        → IsHealthy files
        → IsHealthy (unregister c h true gpr files).1
    unfolding unregister
    unregister-IsHealthy gpr files healthy =
        unregister_found-IsHealthy (project_digest h gpr) files
          (Dict.lookup (registry_path h) files) (unfold IsHealthy in healthy) healthy

  put_entry-ok :
      (k : String) (entry : Json) (p : Option Json) (files : Files c h)
      → NoOther p
      → (commit c h files (put_entry c h k entry p)).0 ≡ ok tt
  put_entry-ok k entry none files n = refl
  put_entry-ok k entry (some (obj fs)) files n = refl
  put_entry-ok k entry (some v) files n = absurd n

  register_found-ok :
      (k : String) (entry : Json) (o : Option (Codec.Text c)) (files : Files c h)
      → IsLawful c
      → NoOtherText o
      → (commit c h
          (opened c h o files)
          (put_entry c h k entry (parse_registry c h (content c h o)))).0
        ≡ ok tt
  register_found-ok k entry none files law n =
      rw (parse-empty law) (put_entry-ok k entry (some (obj (of_dict []))) files tt)
  register_found-ok k entry (some t) files law n =
      put_entry-ok k entry (parse_registry c h t) files n

  -- On such a registry neither operation raises.
  pub register-ok :
      (s : Session) (files : Files c h)
      → IsLawful c
      → IsHealthy files
      → (register c h true s files).0 ≡ ok tt
  unfolding register IsHealthy
  register-ok s files law healthy =
      register_found-ok (project_digest h s.project_gpr) (registry_entry h s)
        (Dict.lookup (registry_path h) files) files law healthy

  del_entry-ok :
      (k : String) (files : Files c h) (p : Option Json)
      → NoOther p
      → (del_entry c h k p files).0 ≡ ok tt
  del_entry-ok k files none n = refl
  del_entry-ok k files (some (obj fs)) n = ground arith
  del_entry-ok k files (some v) n = absurd n

  unregister_found-ok :
      (k : String) (files : Files c h) (o : Option (Codec.Text c))
      → NoOtherText o
      → (unregister_found c h true k o files).0 ≡ ok tt
  unregister_found-ok k files none n = refl
  unregister_found-ok k files (some t) n = del_entry-ok k files (parse_registry c h t) n

  pub unregister-ok :
      (gpr : String) (files : Files c h)
      → IsHealthy files
      → (unregister c h true gpr files).0 ≡ ok tt
  unfolding unregister IsHealthy
  unregister-ok gpr files healthy =
      unregister_found-ok (project_digest h gpr) files (Dict.lookup (registry_path h) files) healthy

  -- What happens to another file than the registry is not seen in its view.
  pub view-insert_ne :
      (path : String) (t : Codec.Text c) (files : Files c h)
      → path ≢ registry_path h
      → view (Dict.insert path t files) ≡ view files
  unfolding view
  view-insert_ne path t files ne = rw (lookup-insert, str_ne path (registry_path h) ne)

  pub view-erase_ne :
      (path : String) (files : Files c h)
      → path ≢ registry_path h
      → view (Dict.erase path files) ≡ view files
  unfolding view
  view-erase_ne path files ne = rw (lookup-erase, str_ne path (registry_path h) ne)

  pub insert_ne-IsHealthy :
      (path : String) (t : Codec.Text c) (files : Files c h)
      → path ≢ registry_path h
      → IsHealthy files
      → IsHealthy (Dict.insert path t files)
  unfolding IsHealthy
  insert_ne-IsHealthy path t files ne healthy =
      rw (lookup-insert, str_ne path (registry_path h) ne) healthy
