-- ===== src/Bookmarks/Marking.antt =====
-- What setting a bookmark leaves for a later request.
use ghidra_rpc_win.Common.{
  String, str_eq, ◌≡◌, refl, sym, ◌∙◌, ap, Bool, true, false, ◌&&◌, none, some, List, [], ◌∷◌,
}
use ghidra_rpc_win.Common.Dict.{Dict}
use ghidra_rpc_win.Common.Exec.{Result, ok, err, reject_if, and_then}
use ghidra_rpc_win.Context.{ProgramInfo}
use ghidra_rpc_win.Bookmarks.{
  Manager, Place, place, SetResult, RemoveResult, updated, action_of, set_at, set_bookmark,
  remove_at, remove_bookmark, then_save,
}

-- What is relied on: a bookmark that was set is found, one that was removed is not, and saving
-- changes neither.
pub record IsLawful (g : Manager) : Type 0 where
  pub get-set :
      (program : Manager.P g) (addr : Manager.Address g) (bm_type cat text : String)
      (w w' : Manager.W g)
      → Manager.set_bookmark g program addr bm_type cat text w ≡ (ok tt, w')
      → (bm : Manager.Bookmark g) × (Manager.get_bookmark g program addr bm_type cat w' ≡ some bm)
  pub get-remove :
      (program : Manager.P g) (addr : Manager.Address g) (bm_type cat : String)
      (bm : Manager.Bookmark g) (w w' : Manager.W g)
      → Manager.get_bookmark g program addr bm_type cat w ≡ some bm
      → Manager.remove_bookmark g program bm w ≡ (ok tt, w')
      → Manager.get_bookmark g program addr bm_type cat w' ≡ none
  pub get-save :
      (program : Manager.P g) (addr : Manager.Address g) (bm_type cat : String) (w w' : Manager.W g)
      → Manager.save g program w ≡ (ok tt, w')
      → Manager.get_bookmark g program addr bm_type cat w'
        ≡ Manager.get_bookmark g program addr bm_type cat w

module _ (g : Manager) where
  -- A change that returns was made, and then saved.
  then_save-ok :
      {R : Type 0} (program : Manager.P g) (r r' : R)
      (change saved : Result (Unit {0}) × Manager.W g) (w' : Manager.W g)
      → Manager.save g program change.1 ≡ saved
      → then_save g program r change ≡ (ok r', w')
      → (change ≡ (ok tt, change.1)) × (saved ≡ (ok tt, w')) × (r ≡ r')
  then_save-ok program r r' (err e, w) saved w' es h = cc
  then_save-ok program r r' (ok u, w) (err e, v) w' es h = cc (rw es at h)
  then_save-ok program r r' (ok u, w) (ok u', v) w' es h = let h' = rw es at h in (refl, cc, cc)

  -- The place that a request for an address is about.
  abbrev place_of : String → String → String → Dict (ProgramInfo (Manager.P g)) → Result (Place g)
  place_of binary address_str bm_type programs =
      and_then (λ _. place g binary address_str bm_type programs)
        (reject_if (str_eq address_str "") ("Missing required argument: address" ∷ []))

  set_at-place :
      (cat text : String) (o : Result (Place g)) (w w' : Manager.W g) (r : SetResult g)
      → set_at g cat text o w ≡ (ok r, w')
      → (p : Place g) × (o ≡ ok p)
  set_at-place cat text (err e) w w' r h = cc
  set_at-place cat text (ok p) w w' r h = (p, refl)

  -- Setting needs all that removing does.
  passed :
      (test more : Bool) (m n : List String) (o : Result (Place g)) (p : Place g)
      → and_then (λ _. and_then (λ _. o) (reject_if more n)) (reject_if test m) ≡ ok p
      → and_then (λ _. o) (reject_if test m) ≡ ok p
  passed true more m n o p h = cc
  passed false true m n o p h = cc
  passed false false m n o p h = h

  is_found :
      (law : IsLawful g) (cat text : String) (p : Place g) (w w' : Manager.W g) (r : SetResult g)
      → set_at g cat text (ok p) w ≡ (ok r, w')
      → (bm : Manager.Bookmark g) × (Manager.get_bookmark g p.program p.addr p.bm_type cat w'
          ≡ some bm)
  is_found law cat text p w w' r h =
      let change = Manager.set_bookmark g p.program p.addr p.bm_type cat text w in
      let (e_change, e_save, er) =
        then_save-ok p.program _ r change (Manager.save g p.program change.1) w' refl h in
      let (bm, found) = law.get-set p.program p.addr p.bm_type cat text w change.1 e_change in
      (bm, law.get-save p.program p.addr p.bm_type cat change.1 w' e_save ∙ found)

  found_removed :
      (law : IsLawful g) (cat : String) (p : Place g) (bm : Manager.Bookmark g) (w w' : Manager.W g)
      (r : RemoveResult g)
      → Manager.get_bookmark g p.program p.addr p.bm_type cat w ≡ some bm
      → remove_at g cat (ok p) w ≡ (ok r, w')
      → (r.removed ≡ true) × (Manager.get_bookmark g p.program p.addr p.bm_type cat w' ≡ none)
  found_removed law cat p bm w w' r found h =
      let change = Manager.remove_bookmark g p.program bm w in
      let (e_change, e_save, er) =
        then_save-ok p.program _ r change (Manager.save g p.program change.1) w' refl
          (rw found at h) in
      (
        ap (λ (x : RemoveResult g). x.removed) (sym er),
        law.get-save p.program p.addr p.bm_type cat change.1 w' e_save
            ∙ law.get-remove p.program p.addr p.bm_type cat bm w change.1 found e_change,
      )

  missing_kept :
      (cat : String) (p : Place g) (w w' : Manager.W g) (r : RemoveResult g)
      (saved : Result (Unit {0}) × Manager.W g)
      → Manager.get_bookmark g p.program p.addr p.bm_type cat w ≡ none
      → Manager.save g p.program w ≡ saved
      → remove_at g cat (ok p) w ≡ (ok r, w')
      → r.removed ≡ false
  missing_kept cat p w w' r (err e, v) gone es h = cc (rw (gone, es) at h)
  missing_kept cat p w w' r (ok u, v) gone es h =
      let h' = rw (gone, es) at h in
      let e : record { address = p.addr; bm_type = p.bm_type; removed = false } ≡ r = cc in
      ap (λ (x : RemoveResult g). x.removed) (sym e)

  both_removals :
      (law : IsLawful g) (cat text : String) (o o' : Result (Place g)) (w w1 w2 w3 : Manager.W g)
      (r : SetResult g) (r1 r2 : RemoveResult g)
      → ((p : Place g) → o ≡ ok p → o' ≡ ok p)
      → set_at g cat text o w ≡ (ok r, w1)
      → remove_at g cat o' w1 ≡ (ok r1, w2)
      → remove_at g cat o' w2 ≡ (ok r2, w3)
      → (r1.removed ≡ true) × (r2.removed ≡ false)
  both_removals law cat text o o' w w1 w2 w3 r r1 r2 same h h1 h2 =
      let (p, e) = set_at-place cat text o w w1 r h in
      let (bm, found) = is_found law cat text p w w1 r (rw e at h) in
      let e' = same p e in
      let (removed, gone) = found_removed law cat p bm w1 w2 r1 found (rw e' at h1) in
      (removed, missing_kept cat p w2 w3 r2 (Manager.save g p.program w2) gone refl (rw e' at h2))

  -- A bookmark that was set is removed by the next request that removes it and returns, and the
  -- request after that finds none.
  pub remove_bookmark-set_bookmark :
      (law : IsLawful g) (binary address_str bm_type cat text : String)
      (programs : Dict (ProgramInfo (Manager.P g))) (w w1 w2 w3 : Manager.W g) (r : SetResult g)
      (r1 r2 : RemoveResult g)
      → set_bookmark g binary address_str bm_type cat text programs w ≡ (ok r, w1)
      → remove_bookmark g binary address_str bm_type cat programs w1 ≡ (ok r1, w2)
      → remove_bookmark g binary address_str bm_type cat programs w2 ≡ (ok r2, w3)
      → (r1.removed ≡ true) × (r2.removed ≡ false)
  unfolding set_bookmark remove_bookmark
  remove_bookmark-set_bookmark law binary address_str bm_type cat text programs w w1 w2 w3 r r1 r2 h
        h1 h2 =
      both_removals law cat text _ (place_of binary address_str bm_type programs) w w1 w2 w3 r r1 r2
        (λ p e.
          passed (str_eq address_str "") (str_eq text "" && str_eq cat "") _ _
            (place g binary address_str bm_type programs) p e)
        h h1 h2

  action-updated :
      (cat text : String) (p : Place g) (bm : Manager.Bookmark g) (w w' : Manager.W g)
      (r : SetResult g)
      → Manager.get_bookmark g p.program p.addr p.bm_type cat w ≡ some bm
      → set_at g cat text (ok p) w ≡ (ok r, w')
      → r.action ≡ updated
  action-updated cat text p bm w w' r found h =
      let change = Manager.set_bookmark g p.program p.addr p.bm_type cat text w in
      let (e_change, e_save, er) =
        then_save-ok p.program _ r change (Manager.save g p.program change.1) w' refl h in
      ap (λ (x : SetResult g). x.action) (sym er) ∙ ap action_of found

  both_sets :
      (law : IsLawful g) (cat text more : String) (o o' : Result (Place g)) (w w1 w2 : Manager.W g)
      (r r1 : SetResult g)
      → ((p q : Place g) → o ≡ ok p → o' ≡ ok q → p ≡ q)
      → set_at g cat text o w ≡ (ok r, w1)
      → set_at g cat more o' w1 ≡ (ok r1, w2)
      → r1.action ≡ updated
  both_sets law cat text more o o' w w1 w2 r r1 same h h1 =
      let (p, e) = set_at-place cat text o w w1 r h in
      let (q, e') = set_at-place cat more o' w1 w2 r1 h1 in
      let (bm, found) = is_found law cat text p w w1 r (rw e at h) in
      action-updated cat more p bm w1 w2 r1 found (rw (e' ∙ ap ok (sym (same p q e e'))) at h1)

  -- Setting a bookmark of a type and category again at an address, with any comment, is an update.
  pub set_bookmark-set_bookmark :
      (law : IsLawful g) (binary address_str bm_type cat text more : String)
      (programs : Dict (ProgramInfo (Manager.P g))) (w w1 w2 : Manager.W g) (r r1 : SetResult g)
      → set_bookmark g binary address_str bm_type cat text programs w ≡ (ok r, w1)
      → set_bookmark g binary address_str bm_type cat more programs w1 ≡ (ok r1, w2)
      → r1.action ≡ updated
  unfolding set_bookmark
  set_bookmark-set_bookmark law binary address_str bm_type cat text more programs w w1 w2 r r1 h
        h1 =
      both_sets law cat text more _ _ w w1 w2 r r1
        (λ p q e e'. ok_inj p q (
          sym (
            passed (str_eq address_str "") (str_eq text "" && str_eq cat "") _ _
              (place g binary address_str bm_type programs) p e)
          ∙ passed (str_eq address_str "") (str_eq more "" && str_eq cat "") _ _
              (place g binary address_str bm_type programs) q e'))
        h h1
    where
      ok_inj : (p q : Place g) → ok p ≡ ok q → p ≡ q
      ok_inj p q e = cc
