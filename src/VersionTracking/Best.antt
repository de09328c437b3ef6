-- ===== src/VersionTracking/Best.antt =====
-- Of each source address the best match is kept.
use ghidra_rpc_win.Common.{
  ℕ, ◌≡◌, refl, sym, ◌∙◌, ap, subst, String, str_eq, eq_iff, Bool, true, false, ◌&&◌, leb, Option,
  none, some, List, [], ◌∷◌, get_elem?, if◌then◌else◌, All, Bool-cases, inl, inr, arith, ◌++◌,
  length, All-append, get_elem?-append, get_elem?-last, append-nil, snoc_append,
}
use ghidra_rpc_win.Common.Dict
use ghidra_rpc_win.Common.Dict.{Dict, lookup-insert, insert-NodupKeys, NodupKeys}
use ghidra_rpc_win.VersionTracking.{Entry, is_better, beats, see, rank, ranked, best_matches}

-- The entry found for a source address is one of them, and none of them is better; where none is
-- found there is none.
abbrev pub IsBest : String → List Entry → Option Entry → Type 0
IsBest addr entries none = All (λ e. str_eq e.source_address addr ≡ false) entries
IsBest addr entries (some best) =
    ((i : ℕ) × (get_elem? entries i ≡ some best))
    × (str_eq best.source_address addr ≡ true)
    × All (λ e. (str_eq e.source_address addr && is_better e best) ≡ false) entries

abbrev pub find_source : String → List Entry → Option Entry
find_source addr [] = none
find_source addr (e ∷ es) = if str_eq e.source_address addr then some e else find_source addr es

-- The best of what was seen for the address and the entries that are left.
best_from : String → Option Entry → List Entry → Option Entry
best_from addr seen [] = seen
best_from addr seen (e ∷ es) =
    best_from addr (if str_eq e.source_address addr && beats e seen then some e else seen) es

lookup-guarded :
    (k j : String) (b : Bool) (v : Entry) (d : Dict Entry)
    → Dict.lookup k (if b then Dict.insert j v d else d)
      ≡ (if str_eq j k && b then some v else Dict.lookup k d)
lookup-guarded k j b v d = ground (arith, lookup-insert j k v d)

lookup-see_step :
    (addr : String) (e : Entry) (d : Dict Entry)
    → Dict.lookup addr
        (if beats e (Dict.lookup e.source_address d) then Dict.insert e.source_address e d else d)
      ≡ (if str_eq e.source_address addr && beats e (Dict.lookup addr d)
          then some e
          else Dict.lookup addr d)
lookup-see_step addr e d = elim (Bool-cases (str_eq e.source_address addr)) [
  | inl same ↦
      lookup-guarded addr e.source_address (beats e (Dict.lookup e.source_address d)) e d
      ∙ ap
          (λ k.
            if str_eq e.source_address addr && beats e (Dict.lookup k d)
            then some e
            else Dict.lookup addr d)
          ((eq_iff e.source_address addr).0 same)
  | inr other ↦
      lookup-guarded addr e.source_address (beats e (Dict.lookup e.source_address d)) e d
      ∙ rw other refl
]

lookup-see :
    (addr : String) (entries : List Entry) (d : Dict Entry)
    → Dict.lookup addr (see entries d) ≡ best_from addr (Dict.lookup addr d) entries
unfolding see best_from
lookup-see addr [] d = refl
lookup-see addr (e ∷ es) d =
    lookup-see addr es _ ∙ ap (λ o. best_from addr o es) (lookup-see_step addr e d)

All-map : {P Q : Entry → Type 0} (es : List Entry) → ((e : Entry) → P e → Q e) → All P es → All Q es
All-map [] f h = tt
All-map (e ∷ es) f h = (f e h.0, All-map es f h.1)

is_better_trans :
    (x b e : Entry) (s : Bool)
    → (s && is_better x b) ≡ false
    → is_better e b ≡ true
    → (s && is_better x e) ≡ false
is_better_trans x b e s h k = ground arith

is_better_irrefl : (e : Entry) (s : Bool) → (s && is_better e e) ≡ false
is_better_irrefl e s = ground arith

skip-IsBest :
    (addr : String) (before : List Entry) (e : Entry) (seen : Option Entry)
    → (str_eq e.source_address addr && beats e seen) ≡ false
    → IsBest addr before seen
    → IsBest addr (before ++ e ∷ []) seen
skip-IsBest addr before e none h best =
    All-append (λ x. str_eq x.source_address addr ≡ false) before (e ∷ []) best (ground arith, tt)
skip-IsBest addr before e (some b) h ((i, at), same, rest) = (
  (i, get_elem?-append before e i b at),
  same,
  All-append (λ x. (str_eq x.source_address addr && is_better x b) ≡ false) before (e ∷ []) rest
      (h, tt),
)

take-IsBest :
    (addr : String) (before : List Entry) (e : Entry) (seen : Option Entry)
    → str_eq e.source_address addr ≡ true
    → beats e seen ≡ true
    → IsBest addr before seen
    → IsBest addr (before ++ e ∷ []) (some e)
take-IsBest addr before e none same h best = (
  (length before, get_elem?-last before e),
  same,
  All-append (λ x. (str_eq x.source_address addr && is_better x e) ≡ false) before (e ∷ [])
      (All-map before (λ x g. rw g refl) best)
      (is_better_irrefl e (str_eq e.source_address addr), tt),
)
take-IsBest addr before e (some b) same h (at, same_b, rest) = (
  (length before, get_elem?-last before e),
  same,
  All-append (λ x. (str_eq x.source_address addr && is_better x e) ≡ false) before (e ∷ [])
      (All-map before (λ x g. is_better_trans x b e (str_eq x.source_address addr) g h) rest)
      (is_better_irrefl e (str_eq e.source_address addr), tt),
)

step-IsBest :
    (addr : String) (before : List Entry) (e : Entry) (seen : Option Entry)
    → IsBest addr before seen
    → IsBest addr
        (before ++ e ∷ [])
        (if str_eq e.source_address addr && beats e seen then some e else seen)
step-IsBest addr before e seen best =
    elim (Bool-cases (str_eq e.source_address addr && beats e seen)) [
      | inl taken ↦ rw taken (take-IsBest addr before e seen (ground arith) (ground arith) best)
      | inr skipped ↦ rw skipped (skip-IsBest addr before e seen skipped best)
    ]

best_from-IsBest :
    (addr : String) (before es : List Entry) (seen : Option Entry)
    → IsBest addr before seen
    → IsBest addr (before ++ es) (best_from addr seen es)
unfolding best_from
best_from-IsBest addr before [] seen best =
    subst (λ es. IsBest addr es seen) (sym (append-nil before)) best
best_from-IsBest addr before (e ∷ es) seen best =
    subst
      (λ all.
        IsBest addr all (
          best_from addr (if str_eq e.source_address addr && beats e seen then some e else seen)
            es))
      (snoc_append before e es)
      (best_from-IsBest addr (before ++ e ∷ []) es _ (step-IsBest addr before e seen best))

see-IsBest :
    (entries : List Entry) (addr : String) → IsBest addr entries (Dict.lookup addr (see entries []))
unfolding Dict.lookup
see-IsBest entries addr =
    subst (IsBest addr entries) (sym (lookup-see addr entries []))
      (best_from-IsBest addr [] entries none tt)

-- Every entry stands under its own source address.
abbrev Filed : Dict Entry → Type 0
Filed = All (λ (p : String × Entry). p.0 ≡ p.1.source_address)

insert-Filed : (e : Entry) (d : Dict Entry) → Filed d → Filed (Dict.insert e.source_address e d)
unfolding Dict.insert
insert-Filed e [] h = (refl, tt)
insert-Filed e ((k, v) ∷ d) h = elim (Bool-cases (str_eq k e.source_address)) [
  | inl same ↦ rw same ((eq_iff k e.source_address).0 same, h.1)
  | inr other ↦ rw other (h.0, insert-Filed e d h.1)
]

see-Filed :
    (entries : List Entry) (d : Dict Entry)
    → Filed d
    → NodupKeys d
    → Filed (see entries d) × NodupKeys (see entries d)
unfolding see
see-Filed [] d filed nodup = (filed, nodup)
see-Filed (e ∷ es) d filed nodup = elim (Bool-cases (beats e (Dict.lookup e.source_address d))) [
  | inl wins ↦ rw wins (
      see-Filed es (Dict.insert e.source_address e d) (insert-Filed e d filed)
        (insert-NodupKeys e.source_address e d nodup))
  | inr loses ↦ rw loses (see-Filed es d filed nodup)
]

find_source-values :
    (addr : String) (d : Dict Entry)
    → Filed d
    → find_source addr (Dict.values d) ≡ Dict.lookup addr d
unfolding Dict.values Dict.lookup
find_source-values addr [] h = refl
find_source-values addr ((k, v) ∷ d) h =
    ap (λ s. if str_eq s addr then some v else find_source addr (Dict.values d)) (sym h.0)
    ∙ ap (λ o. if str_eq k addr then some v else o) (find_source-values addr d h.1)

-- At most one entry for a source address.
abbrev pub NodupSources : List Entry → Type 0
NodupSources [] = Unit
NodupSources (e ∷ es) = (find_source e.source_address es ≡ none) × NodupSources es

values-NodupSources : (d : Dict Entry) → Filed d → NodupKeys d → NodupSources (Dict.values d)
unfolding Dict.values
values-NodupSources [] h k = tt
values-NodupSources ((k, v) ∷ d) h nodup = (
  find_source-values v.source_address d h.1 ∙ (ap (λ s. Dict.lookup s d) (sym h.0) ∙ nodup.0),
  values-NodupSources d h.1 nodup.1,
)

find_source-rank :
    (addr : String) (e : Entry) (es : List Entry)
    → find_source e.source_address es ≡ none
    → find_source addr (rank e es)
      ≡ (if str_eq e.source_address addr then some e else find_source addr es)
unfolding rank
find_source-rank addr e [] h = refl
find_source-rank addr e (x ∷ es) h = ground (
  arith,
  eq_iff e.source_address addr,
  eq_iff x.source_address addr,
  eq_iff x.source_address e.source_address,
  find_source-rank addr e es,
)

other_source :
    (e x : Entry) (es : List Entry)
    → find_source e.source_address (x ∷ es) ≡ none
    → (str_eq e.source_address x.source_address ≡ false) × (find_source e.source_address es ≡ none)
other_source e x es h = elim (Bool-cases (str_eq x.source_address e.source_address)) [
  | inl same ↦ cc (rw same at h)
  | inr other ↦ (
    ground
        (arith, eq_iff e.source_address x.source_address, eq_iff x.source_address e.source_address),
    rw other at h,
  )
]

rank-NodupSources :
    (e : Entry) (es : List Entry)
    → find_source e.source_address es ≡ none
    → NodupSources es
    → NodupSources (rank e es)
unfolding rank
rank-NodupSources e [] h nodup = (refl, tt)
rank-NodupSources e (x ∷ es) h nodup = elim (Bool-cases (leb x.similarity e.similarity)) [
  | inl first ↦ rw first (h, nodup)
  | inr later ↦
      let (apart, absent) = other_source e x es h in
      rw later (
        find_source-rank x.source_address e es absent ∙ (rw apart nodup.0),
        rank-NodupSources e es absent nodup.1,
      )
]

ranked-NodupSources :
    (es : List Entry)
    → NodupSources es
    → NodupSources (ranked es)
      × ((addr : String) → find_source addr (ranked es) ≡ find_source addr es)
unfolding ranked
ranked-NodupSources [] nodup = (tt, λ addr. refl)
ranked-NodupSources (e ∷ es) nodup =
    let rest = ranked-NodupSources es nodup.1 in
    let absent = rest.1 e.source_address ∙ nodup.0 in
    (
      rank-NodupSources e (ranked es) absent rest.0,
      λ addr.
          find_source-rank addr e (ranked es) absent
          ∙ ap (λ o. if str_eq e.source_address addr then some e else o) (rest.1 addr),
    )

-- Of the matches that were collected, the list has for each source address at most one, and it has
-- one that no other of that address is better than, in similarity and then in confidence; it has
-- none only where none was collected.
pub best_matches-IsBest :
    (entries : List Entry)
    → NodupSources (best_matches entries)
      × ((addr : String) → IsBest addr entries (find_source addr (best_matches entries)))
unfolding best_matches
best_matches-IsBest entries =
    let kept = see-Filed entries [] tt tt in
    let sources = values-NodupSources (see entries []) kept.0 kept.1 in
    let found = ranked-NodupSources (Dict.values (see entries [])) sources in
    (
      found.0,
      λ addr.
          subst (IsBest addr entries)
            (sym (found.1 addr ∙ find_source-values addr (see entries []) kept.0))
            (see-IsBest entries addr),
    )
