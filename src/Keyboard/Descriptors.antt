-- ===== src/Keyboard/Descriptors.antt =====
-- The iterator of os/src/usb/descriptor.rs over the descriptors of a device, and what it yields for
-- descriptors that stand one behind the other.
use wasabi.Base.{
  ℕ, zero, suc, ◌+◌, ◌*◌, ◌%◌, ◌^◌, List, [], ◌∷◌, length, drop, leb, ◌==◌, if◌then◌else◌, Option,
  none, some, Result, ok, err, panic, ◌>>=◌,
}
use mathlib.Core.Option as Opt
use wasabi.Keyboard.{
  ConfigDescriptor, InterfaceDescriptor, EndpointDescriptor, UsbDescriptor, config, interface,
  endpoint, unknown,
}

-- `copy_from_slice`: the struct at the front of the bytes, if they are enough
unfoldable pub read_config : List ℕ → Option ConfigDescriptor
read_config (l ∷ t ∷ n0 ∷ n1 ∷ i ∷ v ∷ s ∷ a ∷ p ∷ rest) = some (record {
  desc_length = l;
  desc_type = t;
  total_length = n0 + 256 * n1;
  num_of_interfaces = i;
  config_value = v;
  config_string_index = s;
  attribute = a;
  max_power = p;
})
read_config _ = none

unfoldable pub read_interface : List ℕ → Option InterfaceDescriptor
read_interface (l ∷ t ∷ n ∷ a ∷ e ∷ c ∷ s ∷ p ∷ i ∷ rest) = some (record {
  desc_length = l;
  desc_type = t;
  interface_number = n;
  alt_setting = a;
  num_of_endpoints = e;
  interface_class = c;
  interface_subclass = s;
  interface_protocol = p;
  interface_index = i;
})
read_interface _ = none

unfoldable pub read_endpoint : List ℕ → Option EndpointDescriptor
read_endpoint (l ∷ t ∷ e ∷ a ∷ m0 ∷ m1 ∷ i ∷ rest) = some (record {
  desc_length = l;
  desc_type = t;
  endpoint_address = e;
  attributes = a;
  max_packet_size = m0 + 256 * m1;
  interval = i;
})
read_endpoint _ = none

-- The descriptor at the front, by its type; `none` ends the iteration.
unfoldable pub read_desc : ℕ → ℕ → List ℕ → Option UsbDescriptor
unfolding read_config read_interface read_endpoint
read_desc desc_len desc_type buf =
    if desc_type == 2
    then Opt.map config (read_config buf)
    else if desc_type == 4
    then Opt.map interface (read_interface buf)
    else if desc_type == 5
    then Opt.map endpoint (read_endpoint buf)
    else some (unknown desc_len desc_type)

-- `next`, for the bytes from the index on: they are not empty. It panics if there is only one.
unfoldable pub next_from : ℕ → List ℕ → Result (Option UsbDescriptor × ℕ)
unfolding read_desc
next_from index (desc_len ∷ desc_type ∷ rest) =
    elim (read_desc desc_len desc_type (desc_len ∷ desc_type ∷ rest)) [
      | none ↦ ok (none, index)
      | some desc ↦ ok (some desc, (index + desc_len) % 2 ^ 64)
    ]
next_from index (desc_len ∷ []) = panic
next_from index [] = panic

unfoldable pub next : List ℕ → ℕ → Result (Option UsbDescriptor × ℕ)
unfolding next_from
next buf index =
    if leb (length buf) index then ok (none, index) else next_from index (drop index buf)

-- The rounds of a collection, by what `next` gives
abbrev collect_next :
    (ℕ → Option (Result (List UsbDescriptor)))
    → Result (Option UsbDescriptor × ℕ)
    → Option (Result (List UsbDescriptor))
collect_next more (ok (none, index)) = some (ok [])
collect_next more (ok (some desc, index)) =
    Opt.map (λ r. r >>= λ descs. ok (desc ∷ descs)) (more index)
collect_next more (err e) = some (err e)
collect_next more panic = some panic

-- All that the iterator yields from an index on, where `none` says that the fuel ran out.
unfoldable pub collect : ℕ → List ℕ → ℕ → Option (Result (List UsbDescriptor))
collect zero buf index = none
collect (suc fuel) buf index = collect_next (collect fuel buf) (next buf index)
