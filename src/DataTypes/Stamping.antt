-- ===== src/DataTypes/Stamping.antt =====
-- Which addresses of a range are stamped.
use ghidra_rpc_win.Common.{
  ℕ, zero, suc, ◌+◌, ◌-◌, ◌*◌, ◌≤◌, ◌<◌, ◌≡◌, refl, ◌∙◌, ap, Bool, true, false, ◌||◌, List, [], ◌∷◌,
  ltb, length, Bool-cases, inl, inr, arith,
}
use ghidra_rpc_win.Common.Exec.{Result, ok, err}
use ghidra_rpc_win.DataTypes.{TypeManager}
use ghidra_rpc_win.DataTypes.Range.{Listing, Stamped, none_stamped, counted, stamp_range}

-- So many addresses, a type's length apart.
abbrev pub targets : ℕ → ℕ → ℕ → List ℕ
targets zero dt_len addr = []
targets (suc k) dt_len addr = addr ∷ targets k dt_len (addr + dt_len)

module _ (g : TypeManager) (l : Listing g) where
  -- Stamping at each address of a list.
  abbrev pub stamp_all : List ℕ → TypeManager.P g → TypeManager.D g → TypeManager.W g → Stamped g l
  stamp_all [] program dt w = none_stamped g l w
  stamp_all (addr ∷ addrs) program dt w =
      counted g l addr (stamp_all addrs program dt) (Listing.create_data l program addr dt w)

  counted-length :
      (addr k : ℕ) (next : TypeManager.W g → Stamped g l) (r : Result (Unit {0}) × TypeManager.W g)
      → ((w : TypeManager.W g) → (next w).applied + length (next w).errors ≡ k)
      → (counted g l addr next r).applied + length (counted g l addr next r).errors ≡ suc k
  counted-length addr k next (ok u, w) h = let e = h w in omega arith
  counted-length addr k next (err x, w) h = let e = h w in omega arith

  length-stamp_all :
      (addrs : List ℕ) (program : TypeManager.P g) (dt : TypeManager.D g) (w : TypeManager.W g)
      → (stamp_all addrs program dt w).applied + length (stamp_all addrs program dt w).errors
        ≡ length addrs
  length-stamp_all [] program dt w = refl
  length-stamp_all (addr ∷ addrs) program dt w =
      counted-length addr (length addrs) (stamp_all addrs program dt)
        (Listing.create_data l program addr dt w) (length-stamp_all addrs program dt)

  length-targets : (k dt_len addr : ℕ) → length (targets k dt_len addr) ≡ k
  length-targets zero dt_len addr = refl
  length-targets (suc k) dt_len addr = ap suc (length-targets k dt_len (addr + dt_len))

  counted-ext :
      (addr : ℕ) (next other : TypeManager.W g → Stamped g l)
      (r : Result (Unit {0}) × TypeManager.W g)
      → ((w : TypeManager.W g) → next w ≡ other w)
      → counted g l addr next r ≡ counted g l addr other r
  counted-ext addr next other (ok u, w) h =
      ap
        (λ (s : Stamped g l). record {
          applied = s.applied + 1;
          errors = s.errors;
          world = s.world;
        })
        (h w)
  counted-ext addr next other (err e, w) h =
      ap
        (λ (s : Stamped g l). record {
          applied = s.applied;
          errors = (addr, e) ∷ s.errors;
          world = s.world;
        })
        (h w)

  stamp_range-targets :
      (n k : ℕ) (program : TypeManager.P g) (dt : TypeManager.D g) (dt_len end_addr addr : ℕ)
      (w : TypeManager.W g)
      → 1 ≤ dt_len
      → end_addr ≤ Listing.last_offset l program
      → end_addr + 1 ≤ addr + n
      → addr + dt_len * k ≤ end_addr + 1
      → end_addr + 1 < addr + dt_len * k + dt_len
      → stamp_range g l n program dt dt_len end_addr addr w
        ≡ stamp_all (targets k dt_len addr) program dt w
  unfolding stamp_range
  stamp_range-targets zero zero program dt dt_len end_addr addr w some_len inside fuel least most =
      refl
  stamp_range-targets zero (suc k) program dt dt_len end_addr addr w some_len inside fuel least
        most =
      absurd (omega arith)
  stamp_range-targets (suc n) zero program dt dt_len end_addr addr w some_len inside fuel least
        most =
      rw
        (over (ltb (Listing.last_offset l program) (addr + (dt_len - 1)))
          (ltb end_addr (addr + (dt_len - 1))) (ground arith))
        refl
    where
      over : (a b : Bool) → b ≡ true → a || b ≡ true
      over a b h = ground arith
  stamp_range-targets (suc n) (suc k) program dt dt_len end_addr addr w some_len inside fuel least
        most =
      rw
        (not_over (ltb (Listing.last_offset l program) (addr + (dt_len - 1)))
          (ltb end_addr (addr + (dt_len - 1))) (ground arith) (ground arith))
        (counted-ext addr _ (stamp_all (targets k dt_len (addr + dt_len)) program dt)
          (Listing.create_data l program addr dt w)
          (λ w'. elim (Bool-cases (ltb (Listing.last_offset l program) (addr + dt_len))) [
            | inl beyond ↦ rw beyond (last_one k (ground arith) w')
            | inr room ↦ rw room (
                stamp_range-targets n k program dt dt_len end_addr (addr + dt_len) w' some_len
                  inside (omega arith) (omega arith) (omega arith))
          ]))
    where
      not_over : (a b : Bool) → a ≡ false → b ≡ false → a || b ≡ false
      not_over a b h k = ground arith

      last_one :
          (k : ℕ)
          → dt_len * k ≡ 0
          → (w' : TypeManager.W g)
          → none_stamped g l w' ≡ stamp_all (targets k dt_len (addr + dt_len)) program dt w'
      last_one zero h w' = refl
      last_one (suc k) h w' = absurd (omega arith)

  -- Stamping a range that lies in the address space stamps the addresses from its start on, a
  -- type's length apart, as many as the type fits into the range, in order; each of them is counted
  -- as applied or recorded as an error, and the rounds are enough.
  pub stamp_range_lem :
      (k : ℕ) (program : TypeManager.P g) (dt : TypeManager.D g) (dt_len start_addr end_addr : ℕ)
      (w : TypeManager.W g)
      → 1 ≤ dt_len
      → start_addr ≤ end_addr
      → end_addr ≤ Listing.last_offset l program
      → dt_len * k ≤ end_addr + 1 - start_addr
      → end_addr + 1 - start_addr < dt_len * k + dt_len
      → let s =
          stamp_range g l (end_addr + 1 - start_addr) program dt dt_len end_addr start_addr w in
        (s ≡ stamp_all (targets k dt_len start_addr) program dt w)
        × (s.applied + length s.errors ≡ k)
  stamp_range_lem k program dt dt_len start_addr end_addr w some_len ordered inside least most =
      let same =
        stamp_range-targets (end_addr + 1 - start_addr) k program dt dt_len end_addr start_addr w
          some_len inside (omega arith) (omega arith) (omega arith) in
      (
        same,
        ap (λ (s : Stamped g l). s.applied + length s.errors) same
            ∙ (length-stamp_all (targets k dt_len start_addr) program dt w
                ∙ length-targets k dt_len start_addr),
      )
