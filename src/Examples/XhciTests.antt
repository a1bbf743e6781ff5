-- ===== src/Examples/XhciTests.antt =====
-- os/src/xhci/ring.rs at concrete inputs.
use wasabi.Base.{
  ℕ, ◌*◌, ◌+◌, ◌%◌, ◌≡◌, ◌≢◌, refl, arith, false, true, ◌<◌, ok, err, failed, ◌==◌, List, [], ◌∷◌,
  ◌++◌, some, replicate,
}
use wasabi.Xhci.{GenericTrbEntry, CommandRing, new_command_ring, push, trb_type, link, trb_at}
use wasabi.Xhci.{cycle_state, TransferRingInner, new_transfer_ring, fill_ring, dequeue_trb, trb_ptr}
use wasabi.Xhci.Events.{EventRing, pop}
use wasabi.Xhci.Delivery.{
  Run, begin, posts, post, next, head, new_event_ring, set_erdp, new_controller, events_delivered,
}
use wasabi.Xhci.Transfer.{IsFilled, fill_ring-new, dequeue_trb_lem}
use wasabi.Xhci.Command.{InOrder, new_command_ring-InOrder}
use wasabi.Xhci.Push.{push_lem, pushed}

-- An Enable Slot command
abbrev enable_slot : GenericTrbEntry
enable_slot = record { content = 0; option = 0; control = 9 * 1024 }

enable_slot_type : (trb_type enable_slot == link) ≡ false
unfolding trb_type
enable_slot_type = refl

push_lem_example :
    (c' : CommandRing) × (push (new_command_ring 0x2000) enable_slot ≡ (c', ok 0x2000))
    × InOrder c'
    × (trb_at c'.ring 0 ≡ pushed enable_slot true)
    × ((i : ℕ) → i < 15 → i ≢ 0 → trb_at c'.ring i ≡ trb_at (new_command_ring 0x2000).ring i)
    × (c'.ring.current_index ≡ 1)
push_lem_example =
    push_lem (new_command_ring 0x2000) enable_slot (new_command_ring-InOrder 0x2000)
      enable_slot_type

-- One event, posted by the controller and popped by the driver.
abbrev event : GenericTrbEntry
event = record { content = 0x2000; option = 0; control = 33 * 1024 + 1 }

posted_Run :
    Run
      (set_erdp (new_event_ring 0x4000) 0)
      new_controller
      (post (set_erdp (new_event_ring 0x4000) 0) 0 event)
      (next new_controller)
      (event ∷ [])
      []
unfolding cycle_state
posted_Run = posts event begin refl (omega arith)

events_delivered_example :
    (rest : List GenericTrbEntry) × (e' : EventRing) × (event ∷ [] ≡ [] ++ rest)
    × (pop (post (set_erdp (new_event_ring 0x4000) 0) 0 event) ≡ (e', ok (head rest)))
events_delivered_example = events_delivered 0x4000 0 posted_Run

-- Fifteen buffers of a page each
abbrev buffers : List ℕ
buffers = replicate 15 0x10000

fill_ring-new_example :
    (t t' : TransferRingInner) × (new_transfer_ring 0x3000 8 buffers ≡ ok t)
    × (fill_ring 12 t ≡ (t', some (ok tt)))
    × IsFilled t'
fill_ring-new_example = fill_ring-new 0x3000 8 buffers refl

-- The ring that the code makes and fills.
made :
    (t t' : TransferRingInner) × (new_transfer_ring 0x3000 8 buffers ≡ ok t)
    × (fill_ring 12 t ≡ (t', some (ok tt)))
    × IsFilled t'
made = fill_ring-new 0x3000 8 buffers refl

abbrev filled : TransferRingInner
filled = made.1

dequeue_trb_lem_example :
    ((t' : TransferRingInner) × (dequeue_trb filled
          (trb_ptr filled.shared.ring filled.dequeue_index)
        ≡ (t', ok tt))
      × IsFilled t'
      × (t'.dequeue_index ≡ (filled.dequeue_index + 1) % 15)
      × (t'.shared.ring.phys_addr ≡ filled.shared.ring.phys_addr))
    × ((ptr : ℕ)
        → ptr ≢ trb_ptr filled.shared.ring filled.dequeue_index
        → dequeue_trb filled ptr ≡ (filled, err (failed "unexpected trb ptr")))
dequeue_trb_lem_example = dequeue_trb_lem filled made.4
