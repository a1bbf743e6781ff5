-- ===== src/Keyboard.antt =====
-- os/src/usb_hid_keyboard.rs, with the descriptors of os/src/usb/descriptor.rs and the key events
-- of os/src/input.rs: how the interface of a keyboard is chosen, and how its reports become input.
-- A character is its code.
pub mod Keys
pub mod Reports
pub mod Descriptors
pub mod Sequence
use wasabi.Base.{
  ℕ, zero, suc, ◌+◌, ◌-◌, ◌*◌, ◌/◌, ◌%◌, ◌^◌, List, [], ◌∷◌, ◌++◌, Option, none, some, drop, length,
}
use wasabi.Base.{
  Bool, true, false, not, ◌&&◌, ◌==◌, leb, if◌then◌else◌, Result, ok, err, panic, failed, ok_or,
}
use wasabi.BitSet
use wasabi.BitSet.{BitSet}

pub record ConfigDescriptor : Type 0 where
  pub desc_length : ℕ
  pub desc_type : ℕ
  pub total_length : ℕ
  pub num_of_interfaces : ℕ
  pub config_value : ℕ
  pub config_string_index : ℕ
  pub attribute : ℕ
  pub max_power : ℕ

pub record InterfaceDescriptor : Type 0 where
  pub desc_length : ℕ
  pub desc_type : ℕ
  pub interface_number : ℕ
  pub alt_setting : ℕ
  pub num_of_endpoints : ℕ
  pub interface_class : ℕ
  pub interface_subclass : ℕ
  pub interface_protocol : ℕ
  pub interface_index : ℕ

pub record EndpointDescriptor : Type 0 where
  pub desc_length : ℕ
  pub desc_type : ℕ
  pub endpoint_address : ℕ
  pub attributes : ℕ
  pub max_packet_size : ℕ
  pub interval : ℕ

-- `UsbDescriptor`; nothing reads the fields of a device descriptor here.
pub data UsbDescriptor : Type 0 where
  device string : UsbDescriptor
  config : ConfigDescriptor → UsbDescriptor
  interface : InterfaceDescriptor → UsbDescriptor
  endpoint : EndpointDescriptor → UsbDescriptor
  unknown : ℕ → ℕ → UsbDescriptor

-- `let (3, 1, 1) = e.triple()`
abbrev pub is_boot_keyboard : InterfaceDescriptor → Bool
is_boot_keyboard e =
    e.interface_class == 3 && e.interface_subclass == 1 && e.interface_protocol == 1

-- The variables of `pick_config`
pub record Picked : Type 0 where
  pub last_config : Option ConfigDescriptor
  pub boot_keyboard_interface : Option InterfaceDescriptor
  pub ep_desc_list : List EndpointDescriptor

-- Its loop, which ends at the configuration behind the one that has been chosen.
unfoldable pub pick_loop : Picked → List UsbDescriptor → Picked
pick_loop k [] = k
pick_loop k (config e ∷ ds) =
    let rest = pick_loop (record k { last_config = some e; ep_desc_list = [] }) ds in
    elim k.boot_keyboard_interface [ some i ↦ k | none ↦ rest ]
pick_loop k (interface e ∷ ds) =
    pick_loop (if is_boot_keyboard e then record k { boot_keyboard_interface = some e } else k) ds
pick_loop k (endpoint e ∷ ds) =
    pick_loop (record k { ep_desc_list = k.ep_desc_list ++ (e ∷ []) }) ds
pick_loop k (_ ∷ ds) = pick_loop k ds

unfoldable pub pick_config :
    List UsbDescriptor → Result (ConfigDescriptor × InterfaceDescriptor × List EndpointDescriptor)
pick_config descriptors =
    let k =
      pick_loop (record { last_config = none; boot_keyboard_interface = none; ep_desc_list = [] })
        descriptors in
    elim k.last_config [
      | none ↦ err (failed "No USB KBD Boot config found")
      | some config_desc ↦ elim k.boot_keyboard_interface [
        | none ↦ err (failed "No USB KBD Boot interface found")
        | some interface_desc ↦ ok (config_desc, interface_desc, k.ep_desc_list)
      ]
    ]

pub data KeyEvent : Type 0 where
  no_event : KeyEvent
  char : ℕ → KeyEvent
  enter : KeyEvent

abbrev pub to_char : KeyEvent → Option ℕ
to_char (char c) = some c
to_char enter = some 10
to_char no_event = none

unfoldable pub usage_id_to_char : ℕ → Result KeyEvent
usage_id_to_char usage_id =
    if usage_id == 0
    then ok no_event
    else if leb 4 usage_id && leb usage_id 29
    then ok (char (97 + usage_id - 4))
    else if leb 30 usage_id && leb usage_id 39
    then ok (char (48 + (usage_id + 1) % 10))
    else if usage_id == 40
    then ok enter
    else if usage_id == 42
    then ok (char 0x08)
    else if usage_id == 44
    then ok (char 32)
    else if usage_id == 45
    then ok (char 45)
    else if usage_id == 51
    then ok (char 58)
    else if usage_id == 54
    then ok (char 44)
    else if usage_id == 55
    then ok (char 46)
    else if usage_id == 56
    then ok (char 47)
    else err (failed "Unhandled USB HID Keyboard Usage ID")

-- `for value in keycodes { next_pressed_keys.insert(*value as usize).unwrap(); }`
unfoldable pub press_all : BitSet → List ℕ → Result BitSet
press_all s [] = ok s
press_all s (value ∷ values) = elim (BitSet.insert 32 s value) [
  | BitSet.ok t ↦ press_all t values
  | BitSet.err e ↦ panic
]

-- `prev_pressed_keys.get(id).unwrap_or(false)`
abbrev pub is_pressed : BitSet → ℕ → Bool
is_pressed s id = elim (BitSet.get 32 s id) [ BitSet.ok b ↦ b | BitSet.err e ↦ false ]

-- What a key that has changed adds to the input: its character, when it was not pressed before.
unfoldable pub typed_by : BitSet → ℕ → List ℕ
typed_by prev_pressed_keys id = elim (usage_id_to_char id) [
  | err e ↦ []
  | panic ↦ []
  | ok c ↦
      if is_pressed prev_pressed_keys id
      then []
      else elim (to_char c) [ none ↦ [] | some value ↦ value ∷ [] ]
]

-- `for id in change.iter()`
unfoldable pub typed : BitSet → List ℕ → List ℕ
typed prev_pressed_keys [] = []
typed prev_pressed_keys (id ∷ ids) = typed_by prev_pressed_keys id ++ typed prev_pressed_keys ids

-- The part of the main loop that handles a report: the keys that are pressed now, and the input.
unfoldable pub handle_report : BitSet → List ℕ → Result (BitSet × List ℕ)
handle_report prev_pressed_keys report = elim (press_all (BitSet.new 32) (drop 2 report)) [
  | err e ↦ err e
  | panic ↦ panic
  | ok next_pressed_keys ↦
      let change = BitSet.symmetric_difference 32 prev_pressed_keys next_pressed_keys in
      ok (next_pressed_keys, typed prev_pressed_keys (BitSet.iter 32 change))
]
