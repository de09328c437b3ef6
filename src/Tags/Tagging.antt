-- ===== src/Tags/Tagging.antt =====
-- A tag that was added is there to be removed, under its stripped text.
use ghidra_rpc_win.Common.{ℕ, ◌≡◌, refl, ◌∙◌, sym, ap, true, List, Bool-cases, inl, inr, subst}
use ghidra_rpc_win.Common.Text.{strip}
use ghidra_rpc_win.Common.Exec.{Result, ok, err}
use ghidra_rpc_win.Functions.{FunctionManager, is_ok, ghidra_transaction}
use ghidra_rpc_win.Tags.{
  TagManager, TagResult, UntagResult, has_tag, sorted, tag_body, after_create, tagged, do_tag,
  untagged, do_untag, after_save,
}

-- What is relied on: an added tag is among the function's tags, and neither a commit nor a save
-- changes the tags.
pub record IsLawful (g : FunctionManager) (m : TagManager g) : Type 0 where
  pub tags-add_tag :
      (func : FunctionManager.Function g) (tag : List ℕ) (w w' : FunctionManager.W g)
      → TagManager.add_tag m func tag w ≡ (ok tt, w')
      → has_tag tag (TagManager.tags m func w') ≡ true
  pub tags-commit :
      (program : FunctionManager.P g) (func : FunctionManager.Function g) (w : FunctionManager.W g)
      → TagManager.tags m func (FunctionManager.end_transaction g program true w)
        ≡ TagManager.tags m func w
  pub tags-save :
      (program : FunctionManager.P g) (func : FunctionManager.Function g)
      (w w' : FunctionManager.W g)
      → TagManager.save m program w ≡ (ok tt, w')
      → TagManager.tags m func w' ≡ TagManager.tags m func w

module _ (g : FunctionManager) (m : TagManager g) where
  -- A state in which the function has the tag.
  abbrev Tagged : FunctionManager.Function g → List ℕ → FunctionManager.W g → Type 0
  Tagged func tag w = has_tag tag (TagManager.tags m func w) ≡ true

  -- A step that returns leaves the function tagged.
  abbrev Leaves :
      {R : Type 0} → FunctionManager.Function g → List ℕ → Result R × FunctionManager.W g → Type 0
  Leaves func tag (err e, w) = Unit
  Leaves func tag (ok r, w) = Tagged func tag w

  add_tag-Leaves :
      (law : IsLawful g m) (func : FunctionManager.Function g) (tag : List ℕ)
      (w : FunctionManager.W g) (added : Result (Unit {0}) × FunctionManager.W g)
      → TagManager.add_tag m func tag w ≡ added
      → Leaves func tag added
  add_tag-Leaves law func tag w (err e, w') h = tt
  add_tag-Leaves law func tag w (ok u, w') h = law.tags-add_tag func tag w w' h

  after_create-Leaves :
      (law : IsLawful g m) (func : FunctionManager.Function g) (tag : List ℕ)
      (made : Result (Unit {0}) × FunctionManager.W g)
      → Leaves func (strip tag) (after_create g m func tag made)
  after_create-Leaves law func tag (err e, w) = tt
  after_create-Leaves law func tag (ok u, w) = add_tag-Leaves law func (strip tag) w _ refl

  tag_body-Leaves :
      (law : IsLawful g m) (program : FunctionManager.P g) (func : FunctionManager.Function g)
      (tag : List ℕ) (w : FunctionManager.W g)
      → Leaves func (strip tag) (tag_body g m program func tag w)
  unfolding tag_body
  tag_body-Leaves law program func tag w =
      elim (Bool-cases (TagManager.has_function_tag m program tag w)) [
        | inl there ↦ rw there (add_tag-Leaves law func (strip tag) w _ refl)
        | inr new ↦
            rw new
              (after_create-Leaves law func tag (TagManager.create_function_tag m program tag w))
      ]

  commit-Leaves :
      (law : IsLawful g m) (program : FunctionManager.P g) (func : FunctionManager.Function g)
      (tag : List ℕ) (r : Result (Unit {0})) (w : FunctionManager.W g)
      → Leaves func tag (r, w)
      → Leaves func tag (r, FunctionManager.end_transaction g program (is_ok r) w)
  commit-Leaves law program func tag (err e) w h = tt
  commit-Leaves law program func tag (ok u) w h =
      ap (has_tag tag) (law.tags-commit program func w) ∙ h

  save-Leaves :
      {R : Type 0} (law : IsLawful g m) (program : FunctionManager.P g)
      (func : FunctionManager.Function g) (tag : List ℕ) (r : R) (w : FunctionManager.W g)
      (saved : Result (Unit {0}) × FunctionManager.W g)
      → Tagged func tag w
      → TagManager.save m program w ≡ saved
      → Leaves func tag (after_save g m r saved)
  save-Leaves law program func tag r w (err e, w') h es = tt
  save-Leaves law program func tag r w (ok u, w') h es =
      ap (has_tag tag) (law.tags-save program func w w' es) ∙ h

  tagged-Leaves :
      (law : IsLawful g m) (program : FunctionManager.P g) (func : FunctionManager.Function g)
      (tag t : List ℕ) (change : Result (Unit {0}) × FunctionManager.W g)
      → Leaves func t change
      → Leaves func t (tagged g m program func tag change)
  tagged-Leaves law program func tag t (err e, w) h = tt
  tagged-Leaves law program func tag t (ok u, w) h = save-Leaves law program func t _ w _ h refl

  do_tag-Leaves :
      (law : IsLawful g m) (program : FunctionManager.P g) (func : FunctionManager.Function g)
      (tag : List ℕ) (w : FunctionManager.W g)
      → Leaves func (strip tag) (do_tag g m program tag w (ok func))
  unfolding ghidra_transaction
  do_tag-Leaves law program func tag w =
      let done = tag_body g m program func tag (FunctionManager.start_transaction g program w) in
      tagged-Leaves law program func tag (strip tag)
        (ghidra_transaction g program (tag_body g m program func tag) w)
        (commit-Leaves law program func (strip tag) done.0 done.1
          (tag_body-Leaves law program func tag (FunctionManager.start_transaction g program w)))

  untagged-removed :
      (program : FunctionManager.P g) (func : FunctionManager.Function g) (tag : List ℕ)
      (change saved : Result (Unit {0}) × FunctionManager.W g) (r : UntagResult g m)
      (w' : FunctionManager.W g)
      → TagManager.save m program change.1 ≡ saved
      → untagged g m program func tag change ≡ (ok r, w')
      → r.removed ≡ true
  untagged-removed program func tag (err e, w) saved r w' es h = cc
  untagged-removed program func tag (ok u, w) (err e, v) r w' es h = cc (rw es at h)
  untagged-removed program func tag (ok u, w) (ok u', v) r w' es h =
      let h' = rw es at h in
      let e : record {
        func = func;
        tag = tag;
        removed = true;
        tags_after = sorted (TagManager.tags m func w);
      }
          ≡ r =
        cc in
      ap (λ (x : UntagResult g m). x.removed) (sym e)

  -- After a function was tagged, untagging it with the stripped tag, where it returns, has found
  -- the tag.
  pub do_untag-do_tag :
      (law : IsLawful g m) (program : FunctionManager.P g) (func : FunctionManager.Function g)
      (tag : List ℕ) (w w1 w2 : FunctionManager.W g) (r : TagResult g m) (r' : UntagResult g m)
      → do_tag g m program tag w (ok func) ≡ (ok r, w1)
      → do_untag g m program func (strip tag) w1 ≡ (ok r', w2)
      → r'.removed ≡ true
  unfolding do_untag
  do_untag-do_tag law program func tag w w1 w2 r r' h h' =
      let there : Tagged func (strip tag) w1 =
        subst (Leaves func (strip tag)) h (do_tag-Leaves law program func tag w) in
      let change = ghidra_transaction g program (TagManager.remove_tag m func (strip tag)) w1 in
      untagged-removed program func (strip tag) change (TagManager.save m program change.1) r' w2
        refl (rw there at h')
