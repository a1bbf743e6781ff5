-- ===== src/Paging.antt =====
-- The page tables of os/src/x86_64/paging.rs: entries, tables, mapping and translation.
-- A table is a heap box of 512 entry values, named by its address; the processor registers and
-- the cached references of the source are not modelled.
mod Words
pub mod Tree
mod Populate
mod Descend
mod Leaf
mod Page
pub mod Rounds
pub mod Mapping
pub mod Identity
use wasabi.Base.{
  ℕ, zero, suc, ◌+◌, ◌-◌, ◌*◌, ◌/◌, ◌%◌, ◌^◌, ◌<◌, ◌≡◌, bit_and, bit_or, Bool, true, false, not,
  ◌&&◌, ◌==◌, ◌/=◌, ltb, if◌then◌else◌, Result, ok, err, panic, failed, page_not_found, ◌>>=◌,
}

abbrev pub page_size : ℕ
page_size = 4096

-- ATTR_MASK, and its complement in a u64
abbrev pub attr_mask : ℕ
attr_mask = 0xFFF

abbrev pub address_mask : ℕ
address_mask = 0xFFFFFFFFFFFFF000

pub data PageAttr : Type 0 where
  not_present : PageAttr
  read_write_kernel : PageAttr
  read_write_user : PageAttr
  read_write_io : PageAttr

-- `attr as u64`
unfoldable pub bits : PageAttr → ℕ
bits not_present = 0
bits read_write_kernel = bit_or 1 2
bits read_write_user = bit_or (bit_or 1 2) 4
bits read_write_io = bit_or (bit_or (bit_or 1 2) 8) 16

-- What `Box::new` of a page-aligned type relies on: the allocator has room for `capacity` boxes,
-- at addresses that are aligned, distinct and fit a u64.
pub record Boxes : Type 0 where
  pub capacity : ℕ
  pub address : ℕ → ℕ
  pub aligned : (k : ℕ) → k < capacity → address k % 4096 ≡ 0
  pub fits : (k : ℕ) → k < capacity → address k < 2 ^ 64
  pub distinct : (j k : ℕ) → j < capacity → k < capacity → address j ≡ address k → j ≡ k

-- The boxes given out so far, and the entry values of the table at an address.
pub record Heap : Type 0 where
  pub count : ℕ
  pub value : ℕ → ℕ → ℕ

unfoldable pub update : (ℕ → ℕ → ℕ) → ℕ → ℕ → ℕ → ℕ → ℕ → ℕ
update f t i v u j = if (t == u) && (i == j) then v else f u j

unfoldable pub zeroed : (ℕ → ℕ → ℕ) → ℕ → ℕ → ℕ → ℕ
zeroed f t u j = if t == u then 0 else f u j

-- `?` on an operation that changes the heap
abbrev pub bind : {A B : Type 0} → Heap × Result A → (Heap → A → Heap × Result B) → Heap × Result B
bind (s, ok a) f = f s a
bind (s, err e) f = (s, err e)
bind (s, panic) f = (s, panic)

-- Entries, by their value.
unfoldable pub is_present : ℕ → Bool
is_present value = bit_and value 1 /= 0

unfoldable pub is_writable : ℕ → Bool
is_writable value = bit_and value 2 /= 0

unfoldable pub is_user : ℕ → Bool
is_user value = bit_and value 4 /= 0

-- `table` and `table_mut`: the address of the table that the entry refers to
unfoldable pub table : ℕ → Result ℕ
table value = if is_present value then ok (bit_and value address_mask) else err page_not_found

unfoldable pub page : ℕ → Result ℕ
page value = if is_present value then ok (bit_and value address_mask) else err page_not_found

unfoldable pub set_page : Heap → ℕ → ℕ → ℕ → PageAttr → Heap × Result (Unit {0})
set_page s t i phys attr =
    if bit_and phys attr_mask /= 0
    then (s, err (failed "phys is not aligned"))
    else (record s { value = update s.value t i (bit_or phys (bits attr)) }, ok tt)

unfoldable pub calc_index : ℕ → ℕ → ℕ
calc_index shift addr = bit_and (addr / 2 ^ shift) 0x1FF

-- `.expect("Failed to create mapping")`
abbrev pub expect_mapping : Heap × Result (Unit {0}) → Heap × Result (Unit {0})
expect_mapping (s, ok u) = (s, ok u)
expect_mapping (s, err e) = (s, panic)
expect_mapping (s, panic) = (s, panic)

module _ (b : Boxes) where
  -- `Box::new(zeroed)`; the allocation error handler panics.
  unfoldable pub box_new : Heap → Heap × Result ℕ
  box_new s =
      if ltb s.count b.capacity
      then (
        record s { count = s.count + 1; value = zeroed s.value (b.address s.count) },
        ok (b.address s.count),
      )
      else (s, panic)

  unfoldable pub populate : Heap → ℕ → ℕ → Heap × Result (Unit {0})
  populate s t i =
      if is_present (s.value t i)
      then (s, err (failed "Page is already populated"))
      else bind (box_new s) λ s' next.
        (record s' { value = update s'.value t i (bit_or next (bits read_write_user)) }, ok tt)

  unfoldable pub ensure_populated : Heap → ℕ → ℕ → Heap × Result (Unit {0})
  ensure_populated s t i = if is_present (s.value t i) then (s, ok tt) else populate s t i

  -- `table.entry[index].ensure_populated()?.table_mut()?`
  unfoldable pub descend : ℕ → ℕ → Heap → ℕ → Heap × Result ℕ
  descend shift addr s t =
      bind (ensure_populated s t (calc_index shift addr))
        λ s' _. (s', table (s'.value t (calc_index shift addr)))

  module _ (root virt_start phys : ℕ) (attr : PageAttr) where
    -- One round of the loop of `create_mapping`.
    unfoldable pub map_page : ℕ → Heap → Heap × Result (Unit {0})
    map_page addr s = bind (descend 39 addr s root) λ s1 pdpt.
        bind (descend 30 addr s1 pdpt) λ s2 pd. bind (descend 21 addr s2 pd) λ s3 pt.
          set_page s3 pt (calc_index 12 addr)
            (((phys + addr) % 2 ^ 64 + 2 ^ 64 - virt_start) % 2 ^ 64) attr

    -- The loop, by the rounds left.
    unfoldable pub map_pages : ℕ → ℕ → Heap → Heap × Result (Unit {0})
    map_pages zero addr s = (s, ok tt)
    map_pages (suc rounds) addr s =
        bind (map_page addr s) λ s' _. map_pages rounds (addr + page_size) s'

  -- `(virt_start..virt_end).step_by(PAGE_SIZE)` makes one round for each page begun.
  unfoldable pub create_mapping : ℕ → ℕ → ℕ → ℕ → PageAttr → Heap → Heap × Result (Unit {0})
  create_mapping root virt_start virt_end phys attr s =
      if bit_and virt_start attr_mask /= 0
      then (s, err (failed "Invalid virt_start"))
      else if bit_and virt_end attr_mask /= 0
      then (s, err (failed "Invalid virt_end"))
      else if bit_and phys attr_mask /= 0
      then (s, err (failed "Invalid phys"))
      else map_pages root virt_start phys attr
          ((virt_end - virt_start + (page_size - 1)) / page_size) virt_start s

  -- `disable_cache` of a box of `size` bytes at `vstart`: the mapping must succeed.
  unfoldable pub disable_cache : ℕ → ℕ → ℕ → Heap → Heap × Result (Unit {0})
  disable_cache root vstart size s =
      expect_mapping (create_mapping root vstart ((vstart + size) % 2 ^ 64) vstart read_write_io s)

pub data TranslationResult : Type 0 where
  page_mapped_4k : ℕ → TranslationResult
  page_mapped_2m : ℕ → TranslationResult
  page_mapped_1g : ℕ → TranslationResult

unfoldable pub translate : Heap → ℕ → ℕ → Result TranslationResult
translate s root virt = do
  pdpt ← table (s.value root (calc_index 39 virt))
  pd ← table (s.value pdpt (calc_index 30 virt))
  pt ← table (s.value pd (calc_index 21 virt))
  phys ← page (s.value pt (calc_index 12 virt))
  ok (page_mapped_4k phys)
