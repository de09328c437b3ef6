-- ===== src/VersionTracking/Ranked.antt =====
-- The report of a comparison: its order, its length and its counts.
use ghidra_rpc_win.Common.{
  ℕ, zero, suc, ◌+◌, ◌≤◌, ◌≡◌, ◌⊎◌, refl, Bool, true, false, not, ◌&&◌, ltb, leb, ◌==◌, List, [],
  ◌∷◌, length, take, keep, length-take, if◌then◌else◌, All, Bool-cases, inl, inr, arith,
}
use ghidra_rpc_win.Common.Dict
use ghidra_rpc_win.VersionTracking.{
  Entry, Scale, Options, Program, MatchSet, rank, ranked, see, best_matches, limited, is_changed,
  report, track_report, collect_matches,
}

abbrev pub AtMost : ℕ → List Entry → Type 0
AtMost n = All (λ e. leb e.similarity n ≡ true)

-- From the most similar one down.
abbrev pub IsDescending : List Entry → Type 0
IsDescending [] = Unit
IsDescending (e ∷ es) = AtMost e.similarity es × IsDescending es

AtMost-up : (a b : ℕ) (es : List Entry) → leb a b ≡ true → AtMost a es → AtMost b es
AtMost-up a b [] h k = tt
AtMost-up a b (e ∷ es) h k = (ground arith, AtMost-up a b es h k.1)

rank-AtMost :
    (n : ℕ) (e : Entry) (es : List Entry)
    → leb e.similarity n ≡ true
    → AtMost n es
    → AtMost n (rank e es)
unfolding rank
rank-AtMost n e [] h k = (h, tt)
rank-AtMost n e (x ∷ es) h k = elim (Bool-cases (leb x.similarity e.similarity)) [
  | inl first ↦ rw first (h, k)
  | inr later ↦ rw later (k.0, rank-AtMost n e es h k.1)
]

rank-IsDescending : (e : Entry) (es : List Entry) → IsDescending es → IsDescending (rank e es)
unfolding rank
rank-IsDescending e [] k = (tt, tt)
rank-IsDescending e (x ∷ es) k = elim (Bool-cases (leb x.similarity e.similarity)) [
  | inl first ↦ rw first ((first, AtMost-up x.similarity e.similarity es first k.0), k)
  | inr later ↦
      rw later (rank-AtMost x.similarity e es (ground arith) k.0, rank-IsDescending e es k.1)
]

ranked-IsDescending : (es : List Entry) → IsDescending (ranked es)
unfolding ranked
ranked-IsDescending [] = tt
ranked-IsDescending (e ∷ es) = rank-IsDescending e (ranked es) (ranked-IsDescending es)

best_matches-IsDescending : (entries : List Entry) → IsDescending (best_matches entries)
unfolding best_matches
best_matches-IsDescending entries = ranked-IsDescending (Dict.values (see entries []))

keep-AtMost : (p : Entry → Bool) (n : ℕ) (es : List Entry) → AtMost n es → AtMost n (keep p es)
keep-AtMost p n [] k = tt
keep-AtMost p n (e ∷ es) k = elim (Bool-cases (p e)) [
  | inl kept ↦ rw kept (k.0, keep-AtMost p n es k.1)
  | inr dropped ↦ rw dropped (keep-AtMost p n es k.1)
]

keep-IsDescending :
    (p : Entry → Bool) (es : List Entry) → IsDescending es → IsDescending (keep p es)
keep-IsDescending p [] k = tt
keep-IsDescending p (e ∷ es) k = elim (Bool-cases (p e)) [
  | inl kept ↦ rw kept (keep-AtMost p e.similarity es k.0, keep-IsDescending p es k.1)
  | inr dropped ↦ rw dropped (keep-IsDescending p es k.1)
]

take-AtMost : (m n : ℕ) (es : List Entry) → AtMost n es → AtMost n (take m es)
take-AtMost zero n es k = tt
take-AtMost (suc m) n [] k = tt
take-AtMost (suc m) n (e ∷ es) k = (k.0, take-AtMost m n es k.1)

take-IsDescending : (m : ℕ) (es : List Entry) → IsDescending es → IsDescending (take m es)
take-IsDescending zero es k = tt
take-IsDescending (suc m) [] k = tt
take-IsDescending (suc m) (e ∷ es) k =
    (take-AtMost m e.similarity es k.0, take-IsDescending m es k.1)

limited-IsDescending :
    (limit : ℕ) (es : List Entry) → IsDescending es → IsDescending (limited limit es)
unfolding limited
limited-IsDescending limit es k = elim (Bool-cases (not (limit == 0) && ltb limit (length es))) [
  | inl cut ↦ rw cut (take-IsDescending limit es k)
  | inr whole ↦ rw whole k
]

length-limited : (limit : ℕ) (es : List Entry) → (limit ≡ 0) ⊎ (length (limited limit es) ≤ limit)
unfolding limited
length-limited limit es = elim (Bool-cases (limit == 0)) [
  | inl unlimited ↦ inl (ground arith)
  | inr given ↦ elim (Bool-cases (ltb limit (length es))) [
    | inl cut ↦ inr (rw (given, cut) (omega (arith, length-take limit es)))
    | inr whole ↦ inr (rw (given, whole) (ground arith))
  ]
]

length-keep :
    (p : Entry → Bool) (es : List Entry)
    → length (keep p es) + length (keep (λ e. not (p e)) es) ≡ length es
length-keep p [] = refl
length-keep p (e ∷ es) = ground (arith, length-keep p es)

-- The matches of a report are in descending order of similarity; there are at most as many as a
-- limit other than zero says; and the three counts are those of the best matches, of those with a
-- lower similarity than one, and of the others, whatever the limit and the filter leave out.
pub track_report-IsDescending :
    (scale : Scale) (options : Options) (source destination : Program) (sets : List MatchSet)
    → let r = track_report scale options source destination sets in
      let best = best_matches (collect_matches scale options source destination sets) in
      IsDescending r.matched
      × ((options.limit ≡ 0) ⊎ (length r.matched ≤ options.limit))
      × (r.source_functions_matched ≡ length best)
      × (r.changed_functions ≡ length (keep (is_changed scale) best))
      × (r.identical_functions ≡ length (keep (λ e. not (is_changed scale e)) best))
unfolding track_report report
track_report-IsDescending scale options source destination sets =
    let best = best_matches (collect_matches scale options source destination sets) in
    (
      limited-IsDescending options.limit _ (
          chosen options.changed_only best
            (best_matches-IsDescending (collect_matches scale options source destination sets))),
      length-limited options.limit _,
      refl,
      refl,
      (let both = length-keep (is_changed scale) best in omega arith),
    )
  where
    chosen :
        (b : Bool) (es : List Entry)
        → IsDescending es
        → IsDescending (if b then keep (is_changed scale) es else es)
    chosen true es k = keep-IsDescending (is_changed scale) es k
    chosen false es k = k
