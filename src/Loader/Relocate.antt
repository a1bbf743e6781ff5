-- ===== src/Loader/Relocate.antt =====
-- The relocations of a loaded program: each writes the address that its addend has in memory.
use wasabi.Base.{
  ℕ, ◌+◌, ◌-◌, ◌%◌, ◌^◌, ◌≤◌, ◌<◌, ◌≡◌, refl, ap, ◌∙◌, arith, List, [], ◌∷◌, ◌&&◌, ◌||◌, leb, ltb,
  Bool, true, false, if◌then◌else◌, length, get_or, ok,
}
use wasabi.Base.Bytes.{to_le_bytes, length-to_le_bytes}
use wasabi.Loader.Memory.{AddressRange, contains, offset_of, copy_at, add64}
use wasabi.Loader.Headers.{SegmentHeader, RelocationEntry, vaddr_range, r_386_relative}
use wasabi.Loader.Image.{LoadedElf, resolve_in, write_le_u64_at_vaddr, relocate, relocate_all}
use wasabi.Loader.Place.{length-copy_at, get_or-copy_at}

-- Whether an address lies in one of the segments.
abbrev pub in_segments : List SegmentHeader → ℕ → Bool
in_segments [] vaddr = false
in_segments (s ∷ segments) vaddr = contains (vaddr_range s) vaddr || in_segments segments vaddr

-- An entry of the kind that is supported, with its addend in a segment and its place in the range.
pub record IsRelocation (app : AddressRange) (segments : List SegmentHeader) (e : RelocationEntry)
    : Type 0 where
  pub kind : e.info % 2 ^ 32 ≡ r_386_relative
  pub addend_found : in_segments segments e.addend ≡ true
  pub addend_low : app.start ≤ e.addend
  pub addend_high : e.addend < app.end
  pub place_low : app.start ≤ e.address
  pub place_high : e.address + 8 ≤ app.end

abbrev pub AllRelocations : AddressRange → List SegmentHeader → List RelocationEntry → Type 0
AllRelocations app segments [] = Unit
AllRelocations app segments (e ∷ entries) =
    IsRelocation app segments e × AllRelocations app segments entries

-- The address in memory of an address of the program
abbrev pub in_memory : ℕ → AddressRange → ℕ → ℕ
in_memory phys_addr app vaddr = add64 phys_addr (vaddr - app.start)

-- The byte at an address after the relocations, in order, where `old` was there.
abbrev pub relocated : ℕ → AddressRange → List RelocationEntry → ℕ → ℕ → ℕ
relocated phys_addr app [] addr old = old
relocated phys_addr app (e ∷ entries) addr old = relocated phys_addr app entries addr (
    if leb e.address addr && ltb addr (e.address + 8)
    then get_or (to_le_bytes 8 (in_memory phys_addr app e.addend)) (addr - e.address) 0
    else old)

resolve_in_lem :
    (l : LoadedElf) (segments : List SegmentHeader) (vaddr : ℕ)
    → in_segments segments vaddr ≡ true
    → l.app_vaddr_range.start ≤ vaddr
    → vaddr < l.app_vaddr_range.end
    → resolve_in l segments vaddr ≡ ok (in_memory l.region.phys_addr l.app_vaddr_range vaddr)
unfolding offset_of
resolve_in_lem l [] vaddr found low high = cc
resolve_in_lem l (s ∷ segments) vaddr found low high =
    ground (arith, resolve_in_lem l segments vaddr)

module _ (l : LoadedElf) (e : RelocationEntry)
    (r : IsRelocation l.app_vaddr_range l.loaded_segments e) (top : l.app_vaddr_range.end < 2 ^ 64)
    (room : l.app_vaddr_range.end ≤ l.app_vaddr_range.start + length l.region.bytes) where
  abbrev app : AddressRange
  app = l.app_vaddr_range

  abbrev word : List ℕ
  word = to_le_bytes 8 (in_memory l.region.phys_addr app e.addend)

  abbrev done : LoadedElf
  done = record l {
    region = record l.region { bytes = copy_at l.region.bytes (e.address - app.start) word };
  }

  write_lem :
      write_le_u64_at_vaddr l e.address (in_memory l.region.phys_addr app e.addend) ≡ ok done
  unfolding write_le_u64_at_vaddr
  write_lem = ground (arith, length-to_le_bytes 8 (in_memory l.region.phys_addr app e.addend))

  relocate_lem : relocate l e ≡ ok done
  unfolding relocate
  relocate_lem = ground (
    arith,
    write_lem,
    r.kind,
    resolve_in_lem l l.loaded_segments e.addend r.addend_found r.addend_low r.addend_high,
  )

  relocate_byte :
      (addr : ℕ)
      → app.start ≤ addr
      → get_or done.region.bytes (addr - app.start) 0 ≡ (
          if leb e.address addr && ltb addr (e.address + 8)
          then get_or word (addr - e.address) 0
          else get_or l.region.bytes (addr - app.start) 0)
  relocate_byte addr h = ground (
    arith,
    get_or-copy_at l.region.bytes (e.address - app.start) word (addr - app.start)
        (omega (arith, length-to_le_bytes 8 (in_memory l.region.phys_addr app e.addend), room)),
    length-to_le_bytes 8 (in_memory l.region.phys_addr app e.addend),
    ap (λ k. get_or word k 0)
        (let eq : addr - app.start - (e.address - app.start) ≡ addr - e.address = omega arith in
          eq),
  )

-- Where every relocation is of the supported kind, has its addend in a loaded segment and its eight
-- bytes in the range of the program, and the pages hold that range: relocate_all succeeds, does not
-- move the pages, and each address holds the byte of the last relocation in order that reaches it,
-- which is of the address in memory of its addend, or what was there.
pub relocate_all_lem :
    (l : LoadedElf) (entries : List RelocationEntry)
    → AllRelocations l.app_vaddr_range l.loaded_segments entries
    → l.app_vaddr_range.end < 2 ^ 64
    → l.app_vaddr_range.end ≤ l.app_vaddr_range.start + length l.region.bytes
    → (l' : LoadedElf) × (relocate_all l entries ≡ ok l')
      × (l'.region.phys_addr ≡ l.region.phys_addr)
      × ((addr : ℕ)
          → l.app_vaddr_range.start ≤ addr
          → get_or l'.region.bytes (addr - l.app_vaddr_range.start) 0
            ≡ relocated l.region.phys_addr l.app_vaddr_range entries addr
                (get_or l.region.bytes (addr - l.app_vaddr_range.start) 0))
unfolding relocate_all
relocate_all_lem l [] rs top room = (l, refl, refl, λ addr h. refl)
relocate_all_lem l (e ∷ entries) (r, rs) top room =
    let mid = done l e r top room in
    let size =
      length-copy_at l.region.bytes (e.address - l.app_vaddr_range.start)
        (to_le_bytes 8 (in_memory l.region.phys_addr l.app_vaddr_range e.addend)) in
    let (l', run, at, byte_of) = relocate_all_lem mid entries rs top (omega (arith, room, size)) in
    (
      l',
      rw (relocate_lem l e r top room) run,
      at,
      λ addr h.
          byte_of addr h
          ∙ ap (relocated l.region.phys_addr l.app_vaddr_range entries addr)
              (relocate_byte l e r top room addr h),
    )
