-- ===== src/Xhci.antt =====
-- os/src/xhci/ring.rs and the entries of os/src/xhci/trb.rs: the rings through which the driver
-- and the controller exchange transfer request blocks. The bits of a field are read and written
-- as in os/src/volatile.rs. An index is always below the number of entries, since it advances
-- modulo it; a read past the end, which would panic, gives the default entry here.
pub mod Command
pub mod Push
pub mod Events
pub mod Delivery
pub mod Transfer
pub mod Waiters
pub mod Wakeups
pub mod Waits
pub mod Received
use wasabi.Base.{
  ℕ, zero, suc, ◌+◌, ◌-◌, ◌*◌, ◌/◌, ◌%◌, ◌^◌, bit_or, List, [], ◌∷◌, ◌++◌, Option, none, some,
  get_or, set, length, replicate, map,
}
use wasabi.Base.{
  Bool, true, false, not, xor, ◌==◌, ◌/=◌, ltb, if◌then◌else◌, Result, ok, err, panic, failed,
}

-- `GenericTrbEntry { data: u64, option: u32, control: u32 }`
pub record GenericTrbEntry : Type 0 where
  pub content : ℕ
  pub option : ℕ
  pub control : ℕ

abbrev pub default_trb : GenericTrbEntry
default_trb = record { content = 0; option = 0; control = 0 }

unfoldable pub cycle_state : GenericTrbEntry → Bool
cycle_state t = t.control % 2 /= 0

unfoldable pub set_cycle_state : Bool → GenericTrbEntry → GenericTrbEntry
set_cycle_state cycle t = record t { control = t.control / 2 * 2 + (if cycle then 1 else 0) }

unfoldable pub trb_type : GenericTrbEntry → ℕ
trb_type t = t.control / 2 ^ 10 % 2 ^ 6

-- `TrbType::Link`
abbrev pub link : ℕ
link = 6

-- `trb_link`, for a ring at that address: the type is Link, and the toggle bit is set.
abbrev pub trb_link : ℕ → GenericTrbEntry
trb_link phys_addr = record { content = phys_addr; option = 0; control = link * 2 ^ 10 + 2 }

-- `TrbRing`, with the address of its first entry
pub record TrbRing : Type 0 where
  pub phys_addr : ℕ
  pub trb : List GenericTrbEntry
  pub current_index : ℕ

abbrev pub num_trb : ℕ
num_trb = 16

abbrev pub trb_at : TrbRing → ℕ → GenericTrbEntry
trb_at r i = get_or r.trb i default_trb

abbrev pub current : TrbRing → GenericTrbEntry
current r = trb_at r r.current_index

abbrev pub trb_ptr : TrbRing → ℕ → ℕ
trb_ptr r i = r.phys_addr + 16 * i

abbrev pub current_ptr : TrbRing → ℕ
current_ptr r = trb_ptr r r.current_index

unfoldable pub reset : TrbRing → TrbRing
reset r = record r { current_index = 0; trb = map (set_cycle_state false) r.trb }

-- `write`
unfoldable pub write : TrbRing → ℕ → GenericTrbEntry → TrbRing × Result (Unit {0})
write r i t =
    if ltb i num_trb
    then (record r { trb = set r.trb i t }, ok tt)
    else (r, err (failed "TrbRing Out of Range"))

abbrev pub next_index : TrbRing → ℕ
next_index r = (r.current_index + 1) % num_trb

unfoldable pub advance_index : TrbRing → Bool → TrbRing × Result (Unit {0})
advance_index r new_cycle =
    if not (xor (cycle_state (current r)) new_cycle)
    then (r, err (failed "cycle state does not change"))
    else (
      record r {
        trb = set r.trb r.current_index (set_cycle_state new_cycle (current r));
        current_index = next_index r;
      },
      ok tt,
    )

unfoldable pub advance_index_notoggle : TrbRing → Bool → TrbRing × Result (Unit {0})
advance_index_notoggle r cycle_ours =
    if xor (cycle_state (current r)) cycle_ours
    then (r, err (failed "cycle state mismatch"))
    else (record r { current_index = next_index r }, ok tt)

-- `CommandRing`; the fields of `TransferRingInner` that its operations share with it.
pub record CommandRing : Type 0 where
  pub ring : TrbRing
  pub cycle_state_ours : Bool

abbrev pub new_command_ring : ℕ → CommandRing
new_command_ring phys_addr = record {
  ring = record {
    phys_addr = phys_addr;
    trb = set (replicate num_trb default_trb) (num_trb - 1) (trb_link phys_addr);
    current_index = 0;
  };
  cycle_state_ours = false;
}

unfoldable pub reset_command_ring : CommandRing → CommandRing
unfolding reset
reset_command_ring c = record { ring = reset c.ring; cycle_state_ours = false }

-- The index has advanced past the link: the cycle is toggled.
abbrev pub toggle : CommandRing → TrbRing × Result (Unit {0}) → CommandRing × Result (Unit {0})
toggle c (r, ok u) = (record { ring = r; cycle_state_ours = not c.cycle_state_ours }, ok tt)
toggle c (r, err e) = (record c { ring = r }, err e)
toggle c (r, panic) = (record c { ring = r }, panic)

-- The index has advanced: where it has reached the link, that is skipped.
abbrev pub skip_link : CommandRing → TrbRing × Result (Unit {0}) → CommandRing × Result (Unit {0})
skip_link c (r, ok u) =
    let toggled = toggle c (advance_index r (not c.cycle_state_ours)) in
    if trb_type (current r) == link then toggled else (record c { ring = r }, ok tt)
skip_link c (r, err e) = (record c { ring = r }, err e)
skip_link c (r, panic) = (record c { ring = r }, panic)

-- The end of `push` and of `dequeue_trb`.
unfoldable pub advance_past_link : CommandRing → CommandRing × Result (Unit {0})
advance_past_link c = skip_link c (advance_index c.ring (not c.cycle_state_ours))

-- The address that `push` returns, if the index has advanced.
abbrev pub pushed_at : ℕ → CommandRing × Result (Unit {0}) → CommandRing × Result ℕ
pushed_at ptr (c, ok u) = (c, ok ptr)
pushed_at ptr (c, err e) = (c, err e)
pushed_at ptr (c, panic) = (c, panic)

-- `write_current`, which expects the write to succeed, and what follows it.
abbrev pub push_written : CommandRing → ℕ → TrbRing × Result (Unit {0}) → CommandRing × Result ℕ
push_written c ptr (r, ok u) = pushed_at ptr (advance_past_link (record c { ring = r }))
push_written c ptr (r, err e) = (record c { ring = r }, panic)
push_written c ptr (r, panic) = (record c { ring = r }, panic)

-- `CommandRing::push`
unfoldable pub push : CommandRing → GenericTrbEntry → CommandRing × Result ℕ
push c src =
    let written =
      push_written c (current_ptr c.ring)
        (write c.ring c.ring.current_index (set_cycle_state c.cycle_state_ours src)) in
    if xor (cycle_state (current c.ring)) c.cycle_state_ours
    then (c, err (failed "Command Ring is Full"))
    else written

-- `TransferRingInner`, less its buffers, which are allocated once
pub record TransferRingInner : Type 0 where
  pub shared : CommandRing
  pub dequeue_index : ℕ

-- `TrbType::Normal`, with an interrupt on completion and on a short packet
abbrev pub normal : ℕ
normal = 1

-- `NormalTrb::new`
unfoldable pub normal_trb : ℕ → ℕ → GenericTrbEntry
normal_trb buf size = record {
  content = buf;
  option = size;
  control = bit_or (bit_or (normal * 2 ^ 10) (2 ^ 5)) (2 ^ 2);
}

-- `.expect("failed to write a link trb")`
abbrev pub expect_written : TrbRing × Result (Unit {0}) → TrbRing × Result (Unit {0})
expect_written (r, ok u) = (r, ok u)
expect_written (r, err e) = (r, panic)
expect_written (r, panic) = (r, panic)

abbrev pub then_write :
    TrbRing × Result (Unit {0})
    → (TrbRing → TrbRing × Result (Unit {0}))
    → TrbRing × Result (Unit {0})
then_write (r, ok u) f = f r
then_write (r, err e) f = (r, err e)
then_write (r, panic) f = (r, panic)

-- The loop of `TransferRingInner::new`, over the buffers that the allocator returned.
unfoldable pub write_buffers : ℕ → ℕ → List ℕ → TrbRing → TrbRing × Result (Unit {0})
write_buffers size i [] r = (r, ok tt)
write_buffers size i (v ∷ vs) r =
    then_write (expect_written (write r i (normal_trb v size)))
      λ r'. write_buffers size (i + 1) vs r'

abbrev pub from_ring : TrbRing × Result (Unit {0}) → Result TransferRingInner
from_ring (r, ok u) =
    ok (record { shared = record { ring = r; cycle_state_ours = false }; dequeue_index = 0 })
from_ring (r, err e) = err e
from_ring (r, panic) = panic

-- `TransferRingInner::new`, for a ring at `phys_addr`
unfoldable pub new_transfer_ring : ℕ → ℕ → List ℕ → Result TransferRingInner
new_transfer_ring phys_addr size buffers = from_ring (
    then_write
      (expect_written (
        write
          (record { phys_addr = phys_addr; trb = replicate num_trb default_trb; current_index = 0 })
          (num_trb - 1) (trb_link phys_addr)))
      λ r. write_buffers (size % 2 ^ 16) 0 buffers r)

-- What follows `advance_index(...)?` in the loop of `fill_ring`.
abbrev pub fill_on :
    (TransferRingInner → TransferRingInner × Option (Result (Unit {0})))
    → TransferRingInner
    → TrbRing × Result (Unit {0})
    → TransferRingInner × Option (Result (Unit {0}))
fill_on again t (r, ok u) = again (record t { shared = record t.shared { ring = r } })
fill_on again t (r, err e) = (record t { shared = record t.shared { ring = r } }, some (err e))
fill_on again t (r, panic) = (record t { shared = record t.shared { ring = r } }, some panic)

-- `fill_ring`, with fuel: the loop ends where the next index is 12.
unfoldable pub fill_ring : ℕ → TransferRingInner → TransferRingInner × Option (Result (Unit {0}))
fill_ring zero t = (t, none)
fill_ring (suc fuel) t =
    let rest =
      fill_on (fill_ring fuel) t (advance_index t.shared.ring (not t.shared.cycle_state_ours)) in
    if (t.shared.ring.current_index + 1) % (num_trb - 1) == num_trb - 4
    then (t, some (ok tt))
    else rest

-- `dequeue_trb`
unfoldable pub dequeue_trb : TransferRingInner → ℕ → TransferRingInner × Result (Unit {0})
dequeue_trb t ptr =
    if trb_ptr t.shared.ring t.dequeue_index /= ptr
    then (t, err (failed "unexpected trb ptr"))
    else let next = t.dequeue_index + 1 in
      let wrapped = if next == num_trb - 1 then 0 else next in
      let (c, advanced) = advance_past_link t.shared in
      (record { shared = c; dequeue_index = wrapped }, advanced)
