-- ===== src/Paging/Mapping.antt =====
-- `create_mapping` followed by `translate`, over the whole range and outside it.
use wasabi.Base.{
  ℕ, ◌+◌, ◌-◌, ◌*◌, ◌/◌, ◌%◌, ◌^◌, ◌≤◌, ◌<◌, ◌≡◌, ◌≢◌, refl, ap, sym, ◌∙◌, arith, bit_and, Result,
  ok, err, if◌then◌else◌, Bool-cases, ◌⊎◌, inl, inr, ◌>>=◌, ◌&&◌, ltb, leb, ◌/=◌, ◌%◌,
  page_not_found, failed,
}
use wasabi.Paging.{
  Boxes, Heap, is_present, map_pages, create_mapping, translate, bits, PageAttr, address_mask,
  TranslationResult, page_mapped_4k,
}
use wasabi.Paging.Words.{bits-lt, address_part, joined, low_bits}
use wasabi.Paging.Tree.{Labels, walk, translate-walk}
use wasabi.Paging.Page.{Rooted}
use wasabi.Paging.Rounds.{found, Mapped, map_pages_lem}

-- A heap in which `root` is a page table of the top level, its tables a tree.
abbrev pub IsPageTable : Boxes → ℕ → Heap → Type 0
IsPageTable b root s = (l : Labels) × Rooted b root s l

-- What `translate` gives for an address of a range that was mapped.
abbrev pub translation : ℕ → PageAttr → Result TranslationResult
translation phys attr =
    if is_present (bits attr) then ok (page_mapped_4k phys) else err page_not_found

found-translation :
    (phys : ℕ) (attr : PageAttr)
    → phys % 4096 ≡ 0
    → phys < 2 ^ 64
    → (found phys attr >>= λ value. ok (page_mapped_4k (bit_and value address_mask)))
      ≡ translation phys attr
found-translation phys attr aligned fits = elim (Bool-cases (is_present (bits attr))) [
  | inl e ↦
      let small : bits attr < 4096 = omega (arith, bits-lt attr) in
      let address : bit_and (phys + bits attr) address_mask ≡ phys =
        ap (λ k. bit_and k address_mask) (sym (joined phys (bits attr) aligned small))
        ∙ address_part phys aligned fits (bits attr) small in
      rw (e, address) refl
  | inr e ↦ rw e refl
]

module _ (b : Boxes) (root virt_start virt_end phys : ℕ) (attr : PageAttr) where
  aligned_runs :
      (s : Heap)
      → virt_start % 4096 ≡ 0
      → virt_end % 4096 ≡ 0
      → phys % 4096 ≡ 0
      → virt_start ≤ virt_end
      → create_mapping b root virt_start virt_end phys attr s
        ≡ map_pages b root virt_start phys attr ((virt_end - virt_start) / 4096) virt_start s
  unfolding create_mapping
  aligned_runs s h1 h2 h3 le =
      rw (low_bits virt_start, low_bits virt_end, low_bits phys, h1, h2, h3)
        (ap (λ r. map_pages b root virt_start phys attr r virt_start s) (omega arith))

  -- The entries that serve the addresses below 2 ^ 48, after a mapping of an aligned range
  pub create_mapping-walk :
      (s : Heap)
      → IsPageTable b root s
      → virt_start % 4096 ≡ 0
      → virt_end % 4096 ≡ 0
      → phys % 4096 ≡ 0
      → virt_start ≤ virt_end
      → virt_end ≤ 2 ^ 48
      → phys + (virt_end - virt_start) ≤ 2 ^ 64
      → s.count + 3 * ((virt_end - virt_start) / 4096) ≤ b.capacity
      → (s' : Heap) × (create_mapping b root virt_start virt_end phys attr s ≡ (s', ok tt))
        × IsPageTable b root s'
        × ((v : ℕ)
            → v < 2 ^ 48
            → walk 3 s' root v ≡ (
                if leb virt_start v && ltb v virt_end
                then found (phys + (v / 4096 * 4096 - virt_start)) attr
                else walk 3 s root v))
  create_mapping-walk s (l, rooted) h1 h2 h3 le low fits room =
      (out.heap, aligned_runs s h1 h2 h3 le ∙ out.runs, (out.labels, out.rooted), out.walks)
    where
      out :
          Mapped b root virt_start phys attr h1 h3 virt_start virt_end s
            (map_pages b root virt_start phys attr ((virt_end - virt_start) / 4096) virt_start s)
      out =
          map_pages_lem b root virt_start phys attr h1 h3 ((virt_end - virt_start) / 4096)
            virt_start virt_end s l rooted room h1 (omega arith) (omega arith) low (omega arith)

  -- A mapping of an aligned range below 2 ^ 48 to aligned physical addresses that fit 64 bits succeeds
  -- while boxes are left, three for each page being enough. Afterwards an address of the range is
  -- served by an entry with the matching page and the attributes, and translates to this page, or to
  -- PageNotFound if the attributes say so; every other address below 2 ^ 48 has its entry and its
  -- translation as before, and the tables are a tree again.
  pub create_mapping-translate :
      (s : Heap)
      → IsPageTable b root s
      → virt_start % 4096 ≡ 0
      → virt_end % 4096 ≡ 0
      → phys % 4096 ≡ 0
      → virt_start ≤ virt_end
      → virt_end ≤ 2 ^ 48
      → phys + (virt_end - virt_start) ≤ 2 ^ 64
      → s.count + 3 * ((virt_end - virt_start) / 4096) ≤ b.capacity
      → (s' : Heap) × (create_mapping b root virt_start virt_end phys attr s ≡ (s', ok tt))
        × IsPageTable b root s'
        × ((v : ℕ)
            → v < 2 ^ 48
            → (walk 3 s' root v ≡ (
                if leb virt_start v && ltb v virt_end
                then found (phys + (v / 4096 * 4096 - virt_start)) attr
                else walk 3 s root v))
              × (translate s' root v ≡ (
                  if leb virt_start v && ltb v virt_end
                  then translation (phys + (v / 4096 * 4096 - virt_start)) attr
                  else translate s root v)))
  create_mapping-translate s valid h1 h2 h3 le low fits room =
      let (s', runs, valid', walks) = create_mapping-walk s valid h1 h2 h3 le low fits room in
      (
        s',
        runs,
        valid',
        λ v h. (
          walks v h,
          translate-walk s' root v
              ∙ ap (λ r. r >>= λ value. ok (page_mapped_4k (bit_and value address_mask)))
                  (walks v h)
              ∙ by_range v,
        ),
      )
    where
      by_range :
          (v : ℕ)
          → ((if leb virt_start v && ltb v virt_end
                then found (phys + (v / 4096 * 4096 - virt_start)) attr
                else walk 3 s root v)
              >>= λ value. ok (page_mapped_4k (bit_and value address_mask)))
            ≡ (if leb virt_start v && ltb v virt_end
                then translation (phys + (v / 4096 * 4096 - virt_start)) attr
                else translate s root v)
      by_range v = elim (Bool-cases (leb virt_start v && ltb v virt_end)) [
        | inl e ↦
            let aligned : (phys + (v / 4096 * 4096 - virt_start)) % 4096 ≡ 0 = ground (arith, e) in
            let inside : phys + (v / 4096 * 4096 - virt_start) < 2 ^ 64 = ground (arith, e) in
            rw e (found-translation (phys + (v / 4096 * 4096 - virt_start)) attr aligned inside)
        | inr e ↦ rw e (sym (translate-walk s root v))
      ]

  -- A bound that is not a multiple of the page size is refused, and nothing is written.
  pub create_mapping_misaligned :
      (s : Heap)
      → (virt_start % 4096 ≢ 0) ⊎ (virt_end % 4096 ≢ 0) ⊎ (phys % 4096 ≢ 0)
      → create_mapping b root virt_start virt_end phys attr s ≡ (
        s,
        err (
            failed (
              if virt_start % 4096 /= 0
              then "Invalid virt_start"
              else if virt_end % 4096 /= 0
              then "Invalid virt_end"
              else "Invalid phys")),
      )
  unfolding create_mapping
  create_mapping_misaligned s h =
      rw (low_bits virt_start, low_bits virt_end, low_bits phys) (ground arith)
