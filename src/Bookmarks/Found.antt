-- ===== src/Bookmarks/Found.antt =====
-- Which bookmarks a listing shows.
use ghidra_rpc_win.Common.{
  ℕ, String, str_eq, ◌≡◌, refl, ap, ◌∙◌, true, not, List, [], ◌∷◌, map, min, take, keep, length,
  if◌then◌else◌, Bool-cases, inl, inr,
}
use ghidra_rpc_win.Common.Exec.{Result, ok, err, and_then}
use ghidra_rpc_win.Context.{parse_address}
use ghidra_rpc_win.Listing.{Page, page}
use ghidra_rpc_win.Listing.Collect.{page_lem}
use ghidra_rpc_win.Bookmarks.{Manager, Row, row, of_type, at_address, do_list}

module _ (g : Manager) where
  -- The bookmarks that a request asks for: those of the type at the address, of the type, or all.
  abbrev pub asked :
      Manager.P g → String → String → Manager.W g → Result (List (Manager.Bookmark g))
  asked program bm_type address_str w =
      if not (str_eq address_str "")
      then and_then (λ addr. ok (keep (of_type g bm_type) (Manager.bookmarks_at g program addr w)))
          (parse_address (Manager.get_address g) program address_str)
      else if not (str_eq bm_type "")
      then ok (Manager.bookmarks_of g program bm_type w)
      else ok (Manager.all_bookmarks g program w)

  abbrev pub shows : ℕ → List (Manager.Bookmark g) → Page (Row g)
  shows limit bms = record {
    rows = take limit (map (row g) bms);
    count = min limit (length bms);
    total = length bms;
  }

  keep-true : (bms : List (Manager.Bookmark g)) → keep (λ bm. true) bms ≡ bms
  keep-true [] = refl
  keep-true (bm ∷ bms) = ap (λ rest. bm ∷ rest) (keep-true bms)

  page-all :
      (limit : ℕ) (bms : List (Manager.Bookmark g))
      → page (λ bm. true) (row g) limit bms ≡ shows limit bms
  page-all limit bms = page_lem (λ bm. true) (row g) limit bms ∙ ap (shows limit) (keep-true bms)

  at_address-shows :
      (program : Manager.P g) (bm_type : String) (limit : ℕ) (w : Manager.W g)
      (addr : Result (Manager.Address g))
      → at_address g program bm_type limit w addr
        ≡ and_then
            (λ bms. ok (shows limit bms))
            (and_then
              (λ a. ok (keep (of_type g bm_type) (Manager.bookmarks_at g program a w)))
              addr)
  at_address-shows program bm_type limit w (err e) = refl
  at_address-shows program bm_type limit w (ok a) =
      ap ok (page_lem (of_type g bm_type) (row g) limit (Manager.bookmarks_at g program a w))

  -- A listing shows the first of the bookmarks that it is asked for, up to the limit, and counts
  -- all of them; an address that cannot be read is the only error.
  pub do_list-asked :
      (program : Manager.P g) (bm_type address_str : String) (limit : ℕ) (w : Manager.W g)
      → do_list g program bm_type address_str limit w
        ≡ and_then (λ bms. ok (shows limit bms)) (asked program bm_type address_str w)
  unfolding do_list
  do_list-asked program bm_type address_str limit w = elim (Bool-cases (str_eq address_str "")) [
    | inl every ↦ elim (Bool-cases (str_eq bm_type "")) [
      | inl any ↦ rw (every, any) (ap ok (page-all limit (Manager.all_bookmarks g program w)))
      | inr typed ↦
          rw (every, typed) (ap ok (page-all limit (Manager.bookmarks_of g program bm_type w)))
    ]
    | inr given ↦ rw given (
        at_address-shows program bm_type limit w
          (parse_address (Manager.get_address g) program address_str))
  ]
