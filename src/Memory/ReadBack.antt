-- ===== src/Memory/ReadBack.antt =====
-- What has been written is read: write_bytes, and then read_bytes.
use ghidra_rpc_win.Common.{
  ℕ, ◌%◌, length-map, ◌≡◌, refl, sym, ap, ◌∙◌, subst, String, str_eq, true, false, Option, none,
  some, List, map, length, arith, ltb, ◌==◌, All, is_empty,
}
use ghidra_rpc_win.Common.Dict.{Dict}
use ghidra_rpc_win.Common.Text.{strip, text_eq, text_eq_iff}
use ghidra_rpc_win.Common.Exec.{Result, ok, err, >>=-ok, reject_if-passed}
use ghidra_rpc_win.Context.{ProgramInfo, get_program, parse_address}
use ghidra_rpc_win.Memory.{
  to_signed, to_hex, from_hex, parse_hex, decoded, remove_spaces, base_of, max_read_bytes,
  max_write_bytes,
}
use ghidra_rpc_win.Memory.Hex.{IsByte, from_hex-All, from_hex-to_hex, map-to_unsigned-to_signed}
use ghidra_rpc_win.Memory.Handlers.{
  Ghidra, IsLawful, WriteResult, Target, read_result, read_bytes, write_target, write_result,
  write_bytes, write_to, after_set, same_bytes,
}

decoded-ok : (o : Option (List ℕ)) (bs : List ℕ) → decoded o ≡ ok bs → o ≡ some bs
decoded-ok none bs h = cc
decoded-ok (some cs) bs h = cc

-- What the hex argument of a write may be: bytes, at least one, at most 4096.
pub record IsWritable (bs : List ℕ) : Type 0 where
  pub bytes : All IsByte bs
  pub some_byte : ltb (length bs) 1 ≡ false
  pub bounded : ltb max_write_bytes (length bs) ≡ false

pub parse_hex-IsWritable : (t bs : List ℕ) → parse_hex t ≡ ok bs → IsWritable bs
unfolding parse_hex
parse_hex-IsWritable t bs h =
    let (_, h1) = reject_if-passed (is_empty t) _ h in
    let (_, h2) = reject_if-passed (length (strip (remove_spaces t)) % 2 == 1) _ h1 in
    let (cs, e, h3) = >>=-ok (decoded (from_hex (strip (remove_spaces t)))) _ h2 in
    let (some_byte, h4) = reject_if-passed (ltb (length cs) 1) _ h3 in
    let (bounded, h5) = reject_if-passed (ltb max_write_bytes (length cs)) _ h4 in
    subst IsWritable (ok_inj cs bs h5) (record {
      bytes =
          from_hex-All (strip (remove_spaces t)) cs
            (decoded-ok (from_hex (strip (remove_spaces t))) cs e);
      some_byte = some_byte;
      bounded = bounded;
    })
  where
    ok_inj : (cs bs : List ℕ) → ok cs ≡ ok bs → cs ≡ bs
    ok_inj cs bs h = cc

-- What is written is what the argument spells out.
parse_hex-from_hex :
    (t bs : List ℕ) → parse_hex t ≡ ok bs → from_hex (strip (remove_spaces t)) ≡ some bs
unfolding parse_hex
parse_hex-from_hex t bs h =
    let (_, h1) = reject_if-passed (is_empty t) _ h in
    let (_, h2) = reject_if-passed (length (strip (remove_spaces t)) % 2 == 1) _ h1 in
    let (cs, e, h3) = >>=-ok (decoded (from_hex (strip (remove_spaces t)))) _ h2 in
    let (_, h4) = reject_if-passed (ltb (length cs) 1) _ h3 in
    let (_, h5) = reject_if-passed (ltb max_write_bytes (length cs)) _ h4 in
    decoded-ok (from_hex (strip (remove_spaces t))) cs e ∙ same cs bs h5
  where
    same : (cs bs : List ℕ) → ok cs ≡ ok bs → some cs ≡ some bs
    same cs bs h = cc

text_eq_refl : (t : List ℕ) → text_eq t t ≡ true
text_eq_refl t = (text_eq_iff t t).1 refl

module _ (g : Ghidra) where
  -- What a write knows before it starts.
  record Aims (binary address_str : String) (hex_str : List ℕ)
      (programs : Dict (ProgramInfo (Ghidra.P g))) (t : Target g) : Type 0 where
    named : str_eq address_str "" ≡ false
    pi : ProgramInfo (Ghidra.P g)
    found : get_program binary programs ≡ ok pi
    parsed : parse_address (Ghidra.get_address g) pi.program address_str ≡ ok t.addr
    opened : pi.program ≡ t.program
    writable : IsWritable t.bytes
    meant : from_hex (strip (remove_spaces hex_str)) ≡ some t.bytes

  write_target-Aims :
      (binary address_str : String) (hex_str : List ℕ) (programs : Dict (ProgramInfo (Ghidra.P g)))
      (t : Target g)
      → write_target g binary address_str hex_str programs ≡ ok t
      → Aims binary address_str hex_str programs t
  unfolding write_target
  write_target-Aims binary address_str hex_str programs t h =
      let (named, h1) = reject_if-passed (str_eq address_str "") _ h in
      let (bs, eb, h2) = >>=-ok (parse_hex hex_str) _ h1 in
      let (pi, found, h3) = >>=-ok (get_program binary programs) _ h2 in
      let (addr, parsed, h4) =
        >>=-ok (parse_address (Ghidra.get_address g) pi.program address_str) _ h3 in
      subst (Aims binary address_str hex_str programs) (ok_inj _ t h4) (record {
        named = named;
        pi = pi;
        found = found;
        parsed = parsed;
        opened = refl;
        writable = parse_hex-IsWritable hex_str bs eb;
        meant = parse_hex-from_hex hex_str bs eb;
      })
    where
      ok_inj : (s t : Target g) → ok s ≡ ok t → s ≡ t
      ok_inj s t h = cc

  -- A write that returns has set the bytes and saved.
  write_to-ok :
      (t : Target g) (w w' : Ghidra.W g) (r : WriteResult g)
      (set saved : Result (Unit {0}) × Ghidra.W g)
      → Ghidra.set_bytes g t.program t.addr (map to_signed t.bytes) w ≡ set
      → Ghidra.save g t.program set.1 ≡ saved
      → after_set g t set ≡ (ok r, w')
      → (set ≡ (ok tt, set.1)) × (saved ≡ (ok tt, w')) × (r ≡ write_result g t set.1)
  write_to-ok t w w' r (err e, v) saved es ev h = cc
  write_to-ok t w w' r (ok u, v) (err e, v') es ev h = cc (rw ev at h)
  write_to-ok t w w' r (ok u, v) (ok u', v') es ev h =
      let h' = rw ev at h in (refl, cc, same v v' h')
    where
      same :
          (v v' : Ghidra.W g)
          → ◌≡◌ {A = Result (WriteResult g) × Ghidra.W g} (ok (write_result g t v), v') (ok r, w')
          → r ≡ write_result g t v
      same v v' e = cc

  read_bytes_lem :
      (binary address_str : String) (programs : Dict (ProgramInfo (Ghidra.P g))) (w : Ghidra.W g)
      (pi : ProgramInfo (Ghidra.P g)) (addr : Ghidra.Address g) (bs : List ℕ) (n base : ℕ)
      → str_eq address_str "" ≡ false
      → get_program binary programs ≡ ok pi
      → parse_address (Ghidra.get_address g) pi.program address_str ≡ ok addr
      → ltb n 1 ≡ false
      → ltb max_read_bytes n ≡ false
      → All IsByte bs
      → Ghidra.get_bytes g pi.program addr n w ≡ ok (map to_signed bs)
      → base_of (Ghidra.address_text g addr) ≡ ok base
      → read_bytes g binary address_str (some n) programs w ≡ ok (read_result g addr bs base)
  unfolding read_bytes
  read_bytes_lem binary address_str programs w pi addr bs n base named found parsed low high bytes
        read based =
      rw (named, low, high, found, parsed, read, based, map-to_unsigned-to_signed bs bytes)

  abbrev good_result : Target g → WriteResult g
  good_result t = record {
    address = t.addr;
    count = length t.bytes;
    hex = to_hex t.bytes;
    verified = true;
  }

  -- What a write that returns leaves behind.
  aimed_write :
      (law : IsLawful g) (t : Target g) (w w' : Ghidra.W g) (r : WriteResult g)
      → IsWritable t.bytes
      → write_to g (ok t) w ≡ (ok r, w')
      → (r ≡ good_result t)
        × (Ghidra.get_bytes g t.program t.addr (length t.bytes) w' ≡ ok (map to_signed t.bytes))
  aimed_write law t w w' r writable h =
      let set = Ghidra.set_bytes g t.program t.addr (map to_signed t.bytes) w in
      let (e_set, e_save, er) =
        write_to-ok t w w' r set (Ghidra.save g t.program set.1) refl refl h in
      let now : Ghidra.get_bytes g t.program t.addr (length t.bytes) set.1
          ≡ ok (map to_signed t.bytes) =
        subst (λ n. Ghidra.get_bytes g t.program t.addr n set.1 ≡ ok (map to_signed t.bytes))
          (length-map to_signed t.bytes)
          (law.get_bytes-set_bytes t.program t.addr (map to_signed t.bytes) w set.1 e_set) in
      (
        er
            ∙ ap
                (λ b. record {
                  address = t.addr;
                  count = length t.bytes;
                  hex = to_hex t.bytes;
                  verified = b;
                })
                (ap (same_bytes g t.bytes) now
                  ∙ ap (λ bs. text_eq bs t.bytes) (map-to_unsigned-to_signed t.bytes writable.bytes)
                  ∙ text_eq_refl t.bytes),
        law.get_bytes-save t.program t.addr (length t.bytes) set.1 w' e_save ∙ now,
      )

  -- The result of a write of `bs`, and what a read of them returns.
  pub record ReadsBack (binary address_str : String) (hex_str : List ℕ)
      (programs : Dict (ProgramInfo (Ghidra.P g))) (w : Ghidra.W g) (base : ℕ) (r : WriteResult g)
      : Type 0 where
    pub written : List ℕ
    pub meant : from_hex (strip (remove_spaces hex_str)) ≡ some written
    pub counted : r.count ≡ length written
    pub shown : from_hex r.hex ≡ some written
    pub verified : r.verified ≡ true
    pub read :
        read_bytes g binary address_str (some r.count) programs w
        ≡ ok (read_result g r.address written base)

  high_enough : (n : ℕ) → ltb max_write_bytes n ≡ false → ltb max_read_bytes n ≡ false
  high_enough n h = ground arith

  landed :
      (law : IsLawful g) (binary address_str : String) (hex_str : List ℕ)
      (programs : Dict (ProgramInfo (Ghidra.P g))) (target : Result (Target g)) (w w' : Ghidra.W g)
      (r : WriteResult g) (base : ℕ)
      → ((t : Target g) → target ≡ ok t → Aims binary address_str hex_str programs t)
      → write_to g target w ≡ (ok r, w')
      → base_of (Ghidra.address_text g r.address) ≡ ok base
      → ReadsBack binary address_str hex_str programs w' base r
  landed law binary address_str hex_str programs (err e) w w' r base aimed h based = cc
  landed law binary address_str hex_str programs (ok t) w w' r base aimed h based =
      let aims = aimed t refl in
      let (er, later) = aimed_write law t w w' r aims.writable h in
      let based' =
        subst (λ (x : WriteResult g). base_of (Ghidra.address_text g x.address) ≡ ok base) er
          based in
      let later' =
        subst (λ p. Ghidra.get_bytes g p t.addr (length t.bytes) w' ≡ ok (map to_signed t.bytes))
          (sym aims.opened) later in
      subst (ReadsBack binary address_str hex_str programs w' base) (sym er) (record {
        written = t.bytes;
        meant = aims.meant;
        counted = refl;
        shown = from_hex-to_hex t.bytes aims.writable.bytes;
        verified = refl;
        read =
            read_bytes_lem binary address_str programs w' aims.pi t.addr t.bytes (length t.bytes)
              base aims.named aims.found aims.parsed aims.writable.some_byte
              (high_enough (length t.bytes) aims.writable.bounded) aims.writable.bytes later'
              based';
      })

  -- A write that returns says `verified`, and where the text of its address is a hexadecimal number, a
  -- read of as many bytes at the same address returns the bytes that the hex argument spells out.
  pub read_bytes-write_bytes :
      (law : IsLawful g) (binary address_str : String) (hex_str : List ℕ)
      (programs : Dict (ProgramInfo (Ghidra.P g))) (w w' : Ghidra.W g) (r : WriteResult g)
      (base : ℕ)
      → write_bytes g binary address_str hex_str programs w ≡ (ok r, w')
      → base_of (Ghidra.address_text g r.address) ≡ ok base
      → ReadsBack binary address_str hex_str programs w' base r
  unfolding write_bytes
  read_bytes-write_bytes law binary address_str hex_str programs w w' r base h based =
      landed law binary address_str hex_str programs
        (write_target g binary address_str hex_str programs) w w' r base
        (write_target-Aims binary address_str hex_str programs) h based
