-- ===== src/Listing/Collect.antt =====
-- What a page holds.
use ghidra_rpc_win.Common.{
  ℕ, zero, suc, ◌+◌, ◌-◌, ◌≡◌, refl, ◌∙◌, ap, min, Bool, true, false, List, [], ◌∷◌, ◌++◌, map, ltb,
  length, take, keep, arith, Bool-cases, inl, inr, length-append, length-take, length-map,
  append-nil, append_assoc,
}
use ghidra_rpc_win.Listing.{Page, add_row, collect, page}

module _ {A Row : Type 0} (passes : A → Bool) (row : A → Row) (limit : ℕ) where
  abbrev pub page_of : List Row → ℕ → Page Row
  page_of rows total = record { rows = rows; count = length rows; total = total }

  take_room :
      (l : ℕ) (x : Row) (xs : List Row)
      → ltb l limit ≡ true
      → take (limit - l) (x ∷ xs) ≡ x ∷ take (limit - (l + 1)) xs
  take_room l x xs h =
      ap (λ (n : ℕ). take n (x ∷ xs)) {x = limit - l} {y = suc (limit - (l + 1))} (ground arith)

  take_full : (l : ℕ) (xs : List Row) → ltb l limit ≡ false → take (limit - l) xs ≡ []
  take_full l xs h = ap (λ (n : ℕ). take n xs) {x = limit - l} {y = 0} (ground arith)

  take_nil : (n : ℕ) → take {A = Row} n [] ≡ []
  take_nil zero = refl
  take_nil (suc n) = refl

  -- The rows that are added are those for which there is room.
  abbrev filled : List Row → List Row → List Row
  filled rows more = rows ++ take (limit - length rows) more

  filled-add_row :
      (rows : List Row) (a : A) (more : List Row)
      → filled (add_row passes row limit a rows) more ≡ filled rows (row a ∷ more)
  filled-add_row rows a more = elim (Bool-cases (ltb (length rows) limit)) [
    | inl room ↦
        rw (room, length-append rows (row a ∷ []), take_room (length rows) (row a) more room)
          (append_assoc rows (row a ∷ []) (take (limit - (length rows + 1)) more))
    | inr full ↦
        rw (full, take_full (length rows) more full, take_full (length rows) (row a ∷ more) full)
  ]

  collect-filled :
      (items : List A) (rows : List Row) (total : ℕ)
      → collect passes row limit items rows total
        ≡ page_of (filled rows (map row (keep passes items))) (total + length (keep passes items))
  unfolding collect
  collect-filled [] rows total =
      rw (take_nil (limit - length rows), append-nil rows)
        (ap (page_of rows) {x = total} {y = total + 0} (omega arith))
  collect-filled (a ∷ items) rows total = elim (Bool-cases (passes a)) [
    | inl passed ↦
        rw
          (
            passed,
            collect-filled items (add_row passes row limit a rows) (total + 1),
            filled-add_row rows a (map row (keep passes items)),
          )
          (ap (page_of (filled rows (row a ∷ map row (keep passes items))))
            {x = total + 1 + length (keep passes items)}
            {y = total + suc (length (keep passes items))} (omega arith))
    | inr left_out ↦ rw left_out (collect-filled items rows total)
  ]

  -- A page has the rows of the first items that pass the test, as many as the limit allows, and the
  -- number of all that pass.
  pub page_lem :
      (items : List A)
      → page passes row limit items ≡ record {
        rows = take limit (map row (keep passes items));
        count = min limit (length (keep passes items));
        total = length (keep passes items);
      }
  unfolding page
  page_lem items =
      collect-filled items [] 0
      ∙ ap
          (λ (n : ℕ).
            page_of (take n (map row (keep passes items))) (0 + length (keep passes items)))
          {x = limit - 0} {y = limit} (omega arith)
      ∙ counted
    where
      shown :
          length (take limit (map row (keep passes items))) ≡ min limit (length (keep passes items))
      shown =
          length-take limit (map row (keep passes items))
          ∙ ap (min limit) (length-map row (keep passes items))

      counted :
          page_of (take limit (map row (keep passes items))) (0 + length (keep passes items))
          ≡ record {
            rows = take limit (map row (keep passes items));
            count = min limit (length (keep passes items));
            total = length (keep passes items);
          }
      counted = rw shown (
          ap
            (λ (n : ℕ). record {
              rows = take limit (map row (keep passes items));
              count = min limit (length (keep passes items));
              total = n;
            })
            {x = 0 + length (keep passes items)} {y = length (keep passes items)} (omega arith))
