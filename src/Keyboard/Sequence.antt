-- ===== src/Keyboard/Sequence.antt =====
-- Descriptors that stand one behind the other are collected as they are.
use wasabi.Base.{
  ℕ, zero, suc, ◌+◌, ◌*◌, ◌%◌, ◌/◌, ◌^◌, ◌<◌, ◌≡◌, ◌≢◌, refl, ap, ◌∙◌, subst, arith, List, [], ◌∷◌,
  ◌++◌, append_assoc, length, length-append, drop-append, leb, le→leb, none, some, ok, false,
}
use wasabi.Keyboard.{UsbDescriptor, config, interface, endpoint, unknown}
use wasabi.Keyboard.Descriptors.{next, next_from, collect}

-- A descriptor and the bytes behind its fields, which its length counts too
abbrev pub Item : Type 0
Item = UsbDescriptor × List ℕ

abbrev pub item_bytes : Item → List ℕ
item_bytes (config c, extra) =
    c.desc_length
    ∷ c.desc_type
    ∷ c.total_length % 256
    ∷ c.total_length / 256
    ∷ c.num_of_interfaces
    ∷ c.config_value
    ∷ c.config_string_index
    ∷ c.attribute
    ∷ c.max_power
    ∷ extra
item_bytes (interface i, extra) =
    i.desc_length ∷ i.desc_type ∷ i.interface_number ∷ i.alt_setting ∷ i.num_of_endpoints
    ∷ i.interface_class ∷ i.interface_subclass ∷ i.interface_protocol ∷ i.interface_index ∷ extra
item_bytes (endpoint e, extra) =
    e.desc_length
    ∷ e.desc_type
    ∷ e.endpoint_address
    ∷ e.attributes
    ∷ e.max_packet_size % 256
    ∷ e.max_packet_size / 256
    ∷ e.interval
    ∷ extra
item_bytes (unknown l t, extra) = l ∷ t ∷ extra
item_bytes (UsbDescriptor.device, extra) = extra
item_bytes (UsbDescriptor.string, extra) = extra

-- The type and the length of each descriptor are right; the iterator yields no other kinds.
abbrev pub IsItem : Item → Type 0
IsItem (config c, extra) = (c.desc_type ≡ 2) × (c.desc_length ≡ 9 + length extra)
IsItem (interface i, extra) = (i.desc_type ≡ 4) × (i.desc_length ≡ 9 + length extra)
IsItem (endpoint e, extra) = (e.desc_type ≡ 5) × (e.desc_length ≡ 7 + length extra)
IsItem (unknown l t, extra) = (t ≢ 2) × (t ≢ 4) × (t ≢ 5) × (l ≡ 2 + length extra)
IsItem (UsbDescriptor.device, extra) = ⊥
IsItem (UsbDescriptor.string, extra) = ⊥

abbrev pub AllItems : List Item → Type 0
AllItems [] = Unit
AllItems (i ∷ items) = IsItem i × AllItems items

abbrev pub items_bytes : List Item → List ℕ
items_bytes [] = []
items_bytes (i ∷ items) = item_bytes i ++ items_bytes items

abbrev pub descs : List Item → List UsbDescriptor
descs [] = []
descs ((d, extra) ∷ items) = d ∷ descs items

join_bytes : (v : ℕ) → v % 256 + 256 * (v / 256) ≡ v
join_bytes v = omega arith

next_from_item :
    (index : ℕ) (i : Item) (rest : List ℕ)
    → IsItem i
    → next_from index (item_bytes i ++ rest)
      ≡ ok (some i.0, (index + length (item_bytes i)) % 2 ^ 64)
unfolding next_from
next_from_item index (config c, extra) rest (t, l) = ground (arith, join_bytes c.total_length)
next_from_item index (interface i, extra) rest (t, l) = ground arith
next_from_item index (endpoint e, extra) rest (t, l) = ground (arith, join_bytes e.max_packet_size)
next_from_item index (unknown l t, extra) rest h = ground arith
next_from_item index (UsbDescriptor.device, extra) rest h = absurd h
next_from_item index (UsbDescriptor.string, extra) rest h = absurd h

length-item_pos : (i : Item) → IsItem i → 0 < length (item_bytes i)
length-item_pos (config c, extra) h = omega arith
length-item_pos (interface i, extra) h = omega arith
length-item_pos (endpoint e, extra) h = omega arith
length-item_pos (unknown l t, extra) h = omega arith
length-item_pos (UsbDescriptor.device, extra) h = absurd h
length-item_pos (UsbDescriptor.string, extra) h = absurd h

next_end : (front : List ℕ) → next (front ++ []) (length front) ≡ ok (none, length front)
unfolding next
next_end front =
    rw (le→leb (length (front ++ [])) (length front) (omega (arith, length-append front []))) refl

next_item :
    (front : List ℕ) (i : Item) (rest : List ℕ)
    → IsItem i
    → length (front ++ (item_bytes i ++ rest)) < 2 ^ 64
    → next (front ++ (item_bytes i ++ rest)) (length front)
      ≡ ok (some i.0, length (front ++ item_bytes i))
unfolding next
next_item front i rest h size =
    let sizes = length-append front (item_bytes i ++ rest) in
    let more : leb (length (front ++ (item_bytes i ++ rest))) (length front) ≡ false =
      ground (arith, sizes, length-append (item_bytes i) rest, length-item_pos i h) in
    rw (more, drop-append front (item_bytes i ++ rest))
      (next_from_item (length front) i rest h
        ∙ ap (λ n. ok (some i.0, n))
            (omega (
              arith,
              sizes,
              size,
              length-append (item_bytes i) rest,
              length-append front (item_bytes i),
            )))

-- The collection, from the index where the items that are left stand
collect_from :
    (fuel : ℕ) (front : List ℕ) (items : List Item)
    → AllItems items
    → length items < fuel
    → length (front ++ items_bytes items) < 2 ^ 64
    → collect fuel (front ++ items_bytes items) (length front) ≡ some (ok (descs items))
unfolding collect
collect_from zero front items h k size = absurd (omega arith)
collect_from (suc fuel) front [] h k size = rw (next_end front) refl
collect_from (suc fuel) front (i ∷ items) (h, hs) k size =
    let shape : (front ++ item_bytes i) ++ items_bytes items
        ≡ front ++ (item_bytes i ++ items_bytes items) =
      append_assoc front (item_bytes i) (items_bytes items) in
    let rest =
      collect_from fuel (front ++ item_bytes i) items hs (omega arith)
        (omega (arith, ap length shape, size)) in
    let rest' : collect fuel (front ++ (item_bytes i ++ items_bytes items))
          (length (front ++ item_bytes i))
        ≡ some (ok (descs items)) =
      subst (λ t. collect fuel t (length (front ++ item_bytes i)) ≡ some (ok (descs items))) shape
        rest in
    rw (next_item front i (items_bytes items) h size) (rw rest' refl)

-- For a buffer below `2 ^ 64` bytes that holds configuration, interface, endpoint and unknown
-- descriptors one behind the other, each with its type and with a length that counts its bytes, the
-- iterator yields exactly these descriptors in order and then ends, within one call of next more
-- than there are descriptors.
pub collect-items_bytes :
    (items : List Item) (fuel : ℕ)
    → AllItems items
    → length items < fuel
    → length (items_bytes items) < 2 ^ 64
    → collect fuel (items_bytes items) 0 ≡ some (ok (descs items))
collect-items_bytes items fuel h k size = collect_from fuel [] items h k size

next-zero_length :
    (t : ℕ) (rest : List ℕ)
    → t ≢ 2
    → t ≢ 4
    → t ≢ 5
    → next (0 ∷ t ∷ rest) 0 ≡ ok (some (unknown 0 t), 0)
unfolding next
next-zero_length t rest a b c = ground arith

-- A descriptor of length 0 at the front, of a kind that is not known, is yielded for ever: the
-- collection ends with no amount of fuel.
pub collect-zero_length :
    (fuel t : ℕ) (rest : List ℕ) → t ≢ 2 → t ≢ 4 → t ≢ 5 → collect fuel (0 ∷ t ∷ rest) 0 ≡ none
unfolding collect
collect-zero_length zero t rest a b c = refl
collect-zero_length (suc fuel) t rest a b c =
    rw (next-zero_length t rest a b c) (rw (collect-zero_length fuel t rest a b c) refl)
