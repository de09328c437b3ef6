-- ===== src/Memory/Dump.antt =====
-- The lines of the hex dump.
use ghidra_rpc_win.Common.{
  get_elem?, ℕ, zero, suc, ◌+◌, ◌-◌, ◌*◌, ◌≤◌, ◌<◌, ◌≡◌, refl, sym, ◌∙◌, ap, true, false, Option,
  none, some, List, [], ◌∷◌, length, length-drop, length-take, subst, All, Bool-cases, inl, inr,
  take, drop, arith, ltb, if◌then◌else◌,
}
use ghidra_rpc_win.Memory.{dump_line, dump_lines}
use ghidra_rpc_win.Memory.Hex.{IsByte}
use ghidra_rpc_win.Memory.Lines.{Shows, dump_line-Shows, All-take, All-drop}

abbrev line_at : ℕ → List ℕ → ℕ → Option (List ℕ)
line_at address bs i =
    if ltb (16 * i) (length bs)
    then some (dump_line (address + 16 * i) (take 16 (drop (16 * i) bs)))
    else none

past_end : (i : ℕ) → ltb (16 * i) 0 ≡ false
past_end i = ground arith

drop-nil : (m : ℕ) → drop {A = ℕ} m [] ≡ []
drop-nil zero = refl
drop-nil (suc m) = refl

drop-drop : (m n : ℕ) (xs : List ℕ) → drop m (drop n xs) ≡ drop (n + m) xs
drop-drop m zero xs = ap (λ (k : ℕ). drop k xs) {x = m} {y = 0 + m} (omega arith)
drop-drop m (suc n) [] = drop-nil m ∙ sym (drop-nil (suc n + m))
drop-drop m (suc n) (x ∷ xs) =
    drop-drop m n xs
    ∙ ap (λ (k : ℕ). drop k (x ∷ xs)) {x = suc (n + m)} {y = suc n + m} (omega arith)

ltb-next : (i n : ℕ) → ltb (16 * i) (n - 15) ≡ ltb (16 * suc i) (suc n)
ltb-next i n = ground arith

drop-next : (b : ℕ) (bs : List ℕ) (i : ℕ) → drop (16 * i) (drop 15 bs) ≡ drop (16 * suc i) (b ∷ bs)
drop-next b bs i =
    drop-drop (16 * i) 16 (b ∷ bs)
    ∙ ap (λ (k : ℕ). drop k (b ∷ bs)) {x = 16 + 16 * i} {y = 16 * suc i} (omega arith)

address-next : (address i : ℕ) → address + 16 + 16 * i ≡ address + 16 * suc i
address-next address i = omega arith

line_at-next :
    (address b : ℕ) (bs : List ℕ) (i : ℕ)
    → line_at (address + 16) (drop 15 bs) i ≡ line_at address (b ∷ bs) (suc i)
line_at-next address b bs i =
    rw (length-drop 15 bs, ltb-next i (length bs), drop-next b bs i, address-next address i)

line_at-zero :
    (address b : ℕ) (bs : List ℕ)
    → line_at address (b ∷ bs) 0 ≡ some (dump_line address (take 16 (b ∷ bs)))
line_at-zero address b bs = rw (starts b bs) (
    ap (λ (a : ℕ). some (dump_line a (take 16 (b ∷ bs)))) {x = address + 16 * 0} {y = address}
      (omega arith))
  where
    starts : (b : ℕ) (bs : List ℕ) → ltb (16 * 0) (length (b ∷ bs)) ≡ true
    starts b bs = ground arith

dump_lines-line_at :
    (rounds address : ℕ) (bs : List ℕ) (i : ℕ)
    → length bs ≤ rounds
    → get_elem? (dump_lines rounds address bs) i ≡ line_at address bs i
unfolding dump_lines
dump_lines-line_at zero address [] i h = rw (past_end i)
dump_lines-line_at zero address (b ∷ bs) i h = absurd (omega arith)
dump_lines-line_at (suc rounds) address [] i h = rw (past_end i)
dump_lines-line_at (suc rounds) address (b ∷ bs) zero h = sym (line_at-zero address b bs)
dump_lines-line_at (suc rounds) address (b ∷ bs) (suc i) h =
    dump_lines-line_at rounds (address + 16) (drop 15 bs) i (omega (arith, length-drop 15 bs))
    ∙ line_at-next address b bs i

-- What stands in place i of the dump: a line that shows its bytes at their address, or nothing
-- behind the last byte.
abbrev pub IsLine : ℕ → List ℕ → ℕ → Option (List ℕ) → Type 0
IsLine address bs i none = length bs ≤ 16 * i
IsLine address bs i (some line) =
    (16 * i < length bs) × Shows (address + 16 * i) (take 16 (drop (16 * i) bs)) line

line_at-IsLine :
    (address : ℕ) (bs : List ℕ) (i : ℕ) → All IsByte bs → IsLine address bs i (line_at address bs i)
line_at-IsLine address bs i h = elim (Bool-cases (ltb (16 * i) (length bs))) [
  | inl there ↦ rw there (
    lt (16 * i) (length bs) there,
    dump_line-Shows (address + 16 * i) (take 16 (drop (16 * i) bs))
        (ground (arith, length-take 16 (drop (16 * i) bs)))
        (All-take 16 (drop (16 * i) bs) (All-drop (16 * i) bs h)),
  )
  | inr past ↦ rw past (ge (16 * i) (length bs) past)
]
  where
    lt : (m n : ℕ) → ltb m n ≡ true → m < n
    lt m n e = ground arith

    ge : (m n : ℕ) → ltb m n ≡ false → n ≤ m
    ge m n e = ground arith

-- Line i of the dump of bytes starts with the address of byte 16 * i as format_address prints it, has
-- 48 columns that read as the sixteen bytes from there on, or the rest of them, and ends with their
-- ASCII characters; there is a line exactly where there is such a byte.
pub get_elem?-dump_lines :
    (rounds address : ℕ) (bs : List ℕ) (i : ℕ)
    → length bs ≤ rounds
    → All IsByte bs
    → IsLine address bs i (get_elem? (dump_lines rounds address bs) i)
get_elem?-dump_lines rounds address bs i h bytes =
    subst (IsLine address bs i) (sym (dump_lines-line_at rounds address bs i h))
      (line_at-IsLine address bs i bytes)
