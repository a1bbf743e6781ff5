-- ===== src/Paging/Identity.antt =====
-- A new page table, and the identity mapping that `disable_cache` makes for a device's memory.
use wasabi.Base.{
  ℕ, ◌+◌, ◌-◌, ◌*◌, ◌/◌, ◌%◌, ◌^◌, ◌≤◌, ◌<◌, ◌≡◌, refl, ap, sym, ◌∙◌, arith, true, false, ok, err,
  if◌then◌else◌, ◌&&◌, ltb, leb, page_not_found, bit_and, ◌⊎◌, ◌>>=◌, false, ==_refl, lt→ltb,
}
use wasabi.Paging.{
  Boxes, Heap, is_present, bits, read_write_io, box_new, zeroed, translate, page_mapped_4k,
  disable_cache, expect_mapping, address_mask,
}
use wasabi.Paging.Words.{is_present_lem, high_bits}
use wasabi.Paging.Tree.{absent-table, walk, translate-walk}
use wasabi.Paging.Mapping.{IsPageTable, create_mapping-walk}
use wasabi.Paging.Rounds.{found}

-- `PML4::new()` as the first box: a tree of one table, in which nothing is mapped.
pub box_new-IsPageTable :
    (b : Boxes) (garbage : ℕ → ℕ → ℕ)
    → 0 < b.capacity
    → (s' : Heap) × (box_new b (record { count = 0; value = garbage }) ≡ (s', ok (b.address 0)))
      × IsPageTable b (b.address 0) s'
      × ((v : ℕ) → translate s' (b.address 0) v ≡ err page_not_found)
unfolding box_new zeroed translate
box_new-IsPageTable b garbage room = (
  record { count = 1; value = zeroed garbage (b.address 0) },
  rw (lt→ltb 0 b.capacity room),
  (
    record { height = λ _. 3; region = λ _. 0 },
    record {
      tree = record {
        room = omega arith;
        child = λ n t i live h there. absurd (present_nowhere t i live there);
      };
      live = (0, omega arith, refl);
      height = refl;
      region = refl;
    },
  ),
  λ v. rw (==_refl (b.address 0), absent-table 0 (is_present_lem 0)) refl,
)
  where
    empty : (i : ℕ) → zeroed garbage (b.address 0) (b.address 0) i ≡ 0
    empty i = rw (==_refl (b.address 0))

    ff : true ≡ false → ⊥
    ff h = cc

    present_nowhere :
        (t i : ℕ)
        → (k : ℕ) × (k < 1) × (t ≡ b.address k)
        → is_present (zeroed garbage (b.address 0) t i) ≡ true
        → ⊥
    present_nowhere t i (k, small, at) there =
        let first : k ≡ 0 = omega arith in
        ff (
          sym there
          ∙ ap (λ u. is_present (zeroed garbage (b.address 0) u i)) (at ∙ ap b.address first)
          ∙ ap is_present (empty i)
          ∙ is_present_lem 0)

-- The entry that serves an address of the memory of a device: its page, with the bits for a page that is present (1), writable (2), written through (8) and not cached (16)
abbrev pub uncached_entry : ℕ → ℕ
uncached_entry v = v / 4096 * 4096 + (1 + 2 + 8 + 16)

uncached : bits read_write_io ≡ 27
unfolding bits
uncached = refl

-- Memory of a device, in whole pages below 2 ^ 48, stays at its address: disable_cache does not panic
-- while boxes are left, three for each page being enough; afterwards each address of the memory
-- translates to its own page, and the entry of this is present, writable, written through and not
-- cached, for the kernel alone; every other address below 2 ^ 48 translates as before.
pub disable_cache_identity :
    (b : Boxes) (root vstart size : ℕ) (s : Heap)
    → IsPageTable b root s
    → vstart % 4096 ≡ 0
    → size % 4096 ≡ 0
    → vstart + size ≤ 2 ^ 48
    → s.count + 3 * (size / 4096) ≤ b.capacity
    → (s' : Heap) × (disable_cache b root vstart size s ≡ (s', ok tt))
      × IsPageTable b root s'
      × ((v : ℕ)
          → vstart ≤ v
          → v < vstart + size
          → (walk 3 s' root v ≡ ok (uncached_entry v))
            × (translate s' root v ≡ ok (page_mapped_4k (v / 4096 * 4096))))
      × ((v : ℕ)
          → v < 2 ^ 48
          → (v < vstart) ⊎ (vstart + size ≤ v)
          → translate s' root v ≡ translate s root v)
unfolding disable_cache
disable_cache_identity b root vstart size s valid h1 h2 low room =
    let (s', runs, valid', after) =
      create_mapping-walk b root vstart ((vstart + size) % 2 ^ 64) vstart read_write_io s valid h1
        (omega arith) h1 (omega arith) (omega arith) (omega arith) (omega arith) in
    (
      s',
      ap expect_mapping runs,
      valid',
      (λ v h k.
          let entry = after v (omega arith) ∙ at_home v h k in
          (entry, translated s' v (omega arith) entry)),
      (λ v h out.
          translate-walk s' root v
          ∙ ap (λ r. r >>= λ value. ok (page_mapped_4k (bit_and value address_mask)))
              (after v h ∙ elsewhere v out)
          ∙ sym (translate-walk s root v)),
    )
  where
    in_range :
        (v : ℕ)
        → vstart ≤ v
        → v < vstart + size
        → (leb vstart v && ltb v ((vstart + size) % 2 ^ 64)) ≡ true
    in_range v h k = ground arith

    elsewhere :
        (v : ℕ)
        → (v < vstart) ⊎ (vstart + size ≤ v)
        → (if leb vstart v && ltb v ((vstart + size) % 2 ^ 64)
            then found (vstart + (v / 4096 * 4096 - vstart)) read_write_io
            else walk 3 s root v)
          ≡ walk 3 s root v
    elsewhere v out =
        let outside : (leb vstart v && ltb v ((vstart + size) % 2 ^ 64)) ≡ false = ground arith in
        rw outside refl

    at_home :
        (v : ℕ)
        → vstart ≤ v
        → v < vstart + size
        → (if leb vstart v && ltb v ((vstart + size) % 2 ^ 64)
            then found (vstart + (v / 4096 * 4096 - vstart)) read_write_io
            else walk 3 s root v)
          ≡ ok (uncached_entry v)
    at_home v h k =
        let entry : vstart + (v / 4096 * 4096 - vstart) + 27 ≡ uncached_entry v = omega arith in
        rw (in_range v h k, is_present_lem (bits read_write_io), uncached) (ap ok entry)

    translated :
        (s' : Heap) (v : ℕ)
        → v < 2 ^ 48
        → walk 3 s' root v ≡ ok (uncached_entry v)
        → translate s' root v ≡ ok (page_mapped_4k (v / 4096 * 4096))
    translated s' v h entry =
        let address : bit_and (uncached_entry v) address_mask ≡ v / 4096 * 4096 =
          high_bits (uncached_entry v) (omega arith) ∙ omega arith in
        translate-walk s' root v ∙ rw (entry, address) refl
