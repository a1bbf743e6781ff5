-- ===== src/Examples/WaitersTests.antt =====
-- os/src/xhci/future.rs at concrete inputs.
use wasabi.Base.{◌*◌, ◌+◌, ◌^◌, ◌<◌, ◌≡◌, refl, arith, true, false, ok, List, [], ◌∷◌, ◌++◌}
use wasabi.Xhci.{GenericTrbEntry, cycle_state, trb_type}
use wasabi.Xhci.Events.{EventRing, pop, Holds}
use wasabi.Xhci.Delivery.{
  head, post, new_event_ring, set_erdp, new_controller, post-Holds, new-Holds,
}
use wasabi.Xhci.Waiters.{
  Driver, matches, slot_id, on_slot, on_trb, transfer_event_on_slot, command_completion_on_slot,
  new, drop, register_waiter, poll, poll_future, poll_rounds,
}
use wasabi.Xhci.Wakeups.{matching}
use wasabi.Xhci.Waits.{Waits, popped_events, new_lem}
use wasabi.Xhci.Received.{Runs, start, posts, polls, makes, drops, poll_future_lem, poll_rounds_lem}

-- The completion of the command at 0x2000, for slot 3
abbrev completion : GenericTrbEntry
completion = record { content = 0x2000; option = 0; control = 3 * 2 ^ 24 + 33 * 1024 + 1 }

matches_trb : matches (on_trb 0x2000) completion ≡ true
unfolding matches
matches_trb = refl

matches_slot : matches (command_completion_on_slot 3) completion ≡ true
unfolding matches slot_id trb_type
matches_slot = refl

matches_not : matches (transfer_event_on_slot 3) completion ≡ false
unfolding matches slot_id trb_type
matches_not = refl

-- A ring that holds the completion
abbrev ring : EventRing
ring = post (set_erdp (new_event_ring 0x4000) 0) 0 completion

ring-Holds : Holds ring (completion ∷ [])
unfolding cycle_state
ring-Holds =
    post-Holds (set_erdp (new_event_ring 0x4000) 0) [] new_controller completion
      (new-Holds 0x4000 0) (record { at = refl; bit = refl }) refl (omega arith)

-- No waiter yet
abbrev idle : EventRing → Driver
idle e = record {
  events = e;
  infos = λ w. record { cond = on_trb 0; trbs = []; strong_count = 0 };
  next = 0;
  wait_list = [];
}

-- A future for the completion is made, another one is made and dropped, the event arrives, and the
-- ring is polled.
abbrev made : Driver
made = (new (idle (set_erdp (new_event_ring 0x4000) 0)) (on_trb 0x2000)).0

abbrev arrived : Driver
arrived = record (drop (new made (on_slot 3)).0 1) { events = ring }

owned : 0 < ((drop (new made (on_slot 3)).0 1).infos 0).strong_count
unfolding new drop register_waiter
owned = omega arith

one : (new (idle (set_erdp (new_event_ring 0x4000) 0)) (on_trb 0x2000)).1 ≡ 0
unfolding new
one = refl

arrived-Runs :
    Runs made
      (new (idle (set_erdp (new_event_ring 0x4000) 0)) (on_trb 0x2000)).1
      (poll arrived).0
      ([] ++ popped_events (pop arrived.events))
      []
unfolding new
arrived-Runs = polls (posts ring (drops 1 owned (makes (on_slot 3) start)))

poll_future_lem_example :
    (rest : List GenericTrbEntry) × (matching
        (on_trb 0x2000)
        ([] ++ popped_events (pop arrived.events))
      ≡ [] ++ rest)
    × ((poll_future
          (poll arrived).0
          (new (idle (set_erdp (new_event_ring 0x4000) 0)) (on_trb 0x2000)).1).1
        ≡ head rest)
poll_future_lem_example =
    poll_future_lem (idle (set_erdp (new_event_ring 0x4000) 0)) (on_trb 0x2000) refl arrived-Runs

-- A future that waits while the ring holds the completion
abbrev waiting : Driver
waiting = (new (idle ring) (on_trb 0x2000)).0

waiting-Holds : Holds waiting.events (completion ∷ [])
unfolding new register_waiter
waiting-Holds = ring-Holds

poll_rounds_lem_example :
    (d' : Driver) × (poll_rounds 1 waiting ≡ (d', ok tt))
    × Holds d'.events []
    × Waits d' 0 (on_trb 0x2000) ([] ++ matching (on_trb 0x2000) (completion ∷ []))
poll_rounds_lem_example =
    poll_rounds_lem waiting 0 (on_trb 0x2000) (completion ∷ []) [] waiting-Holds
      (new_lem (idle ring) (on_trb 0x2000) refl)
