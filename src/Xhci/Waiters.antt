-- ===== src/Xhci/Waiters.antt =====
-- os/src/xhci/future.rs, with `poll` and `register_waiter` of the event ring in os/src/xhci/ring.rs: the
-- futures that wait for events. What an `Rc<EventWaitInfo>` points to is the entry of `infos` at a
-- number, with the count of its owners; a `Weak` is that number, and upgrades while there is one.
use wasabi.Base.{
  ℕ, zero, suc, ◌-◌, ◌/◌, ◌%◌, ◌^◌, List, [], ◌∷◌, ◌++◌, Option, none, some, Bool, true, ◌&&◌, ◌==◌,
  if◌then◌else◌, Result, ok, err, panic,
}
use wasabi.Xhci.{GenericTrbEntry, trb_type}
use wasabi.Xhci.Events.{EventRing, pop}

unfoldable pub slot_id : GenericTrbEntry → ℕ
slot_id t = t.control / 2 ^ 24 % 2 ^ 8

pub record EventWaitCond : Type 0 where
  pub trb_type : Option ℕ
  pub trb_addr : Option ℕ
  pub slot : Option ℕ

-- With the number of futures that share it
pub record EventWaitInfo : Type 0 where
  pub cond : EventWaitCond
  pub trbs : List GenericTrbEntry
  pub strong_count : ℕ

-- A part of the condition that is there must be equal to the field.
abbrev pub field_matches : Option ℕ → ℕ → Bool
field_matches none field = true
field_matches (some wanted) field = field == wanted

unfoldable pub matches : EventWaitCond → GenericTrbEntry → Bool
matches cond t =
    field_matches cond.trb_type (trb_type t)
    && field_matches cond.slot (slot_id t)
    && field_matches cond.trb_addr t.content

abbrev pub resolve : EventWaitInfo → GenericTrbEntry → EventWaitInfo
resolve w t = record w { trbs = w.trbs ++ (t ∷ []) }

-- The event ring, the memory of the waiters with the next free number, and the wait list
pub record Driver : Type 0 where
  pub events : EventRing
  pub infos : ℕ → EventWaitInfo
  pub next : ℕ
  pub wait_list : List ℕ

abbrev pub update : (ℕ → EventWaitInfo) → ℕ → EventWaitInfo → ℕ → EventWaitInfo
update infos w info v = if v == w then info else infos v

unfoldable pub register_waiter : Driver → ℕ → Driver
register_waiter d w = record d { wait_list = d.wait_list ++ (w ∷ []) }

-- `EventFuture::new`; the future is the number of what it waits on.
unfoldable pub new : Driver → EventWaitCond → Driver × ℕ
unfolding register_waiter
new d cond =
    let info : EventWaitInfo = record { cond = cond; trbs = []; strong_count = 1 } in
    (
      register_waiter (record d { infos = update d.infos d.next info; next = suc d.next }) d.next,
      d.next,
    )

abbrev pub on_slot : ℕ → EventWaitCond
on_slot slot = record { trb_type = none; trb_addr = none; slot = some slot }

abbrev pub command_completion_on_slot : ℕ → EventWaitCond
command_completion_on_slot slot = record { trb_type = some 33; trb_addr = none; slot = some slot }

abbrev pub transfer_event_on_slot : ℕ → EventWaitCond
transfer_event_on_slot slot = record { trb_type = some 32; trb_addr = none; slot = some slot }

abbrev pub on_trb : ℕ → EventWaitCond
on_trb trb_addr = record { trb_type = none; trb_addr = some trb_addr; slot = none }

-- `EventFuture::clone` and the drop of one
unfoldable pub clone : Driver → ℕ → Driver
clone d w =
    let info = d.infos w in
    record d { infos = update d.infos w (record info { strong_count = suc info.strong_count }) }

unfoldable pub drop : Driver → ℕ → Driver
drop d w =
    let info = d.infos w in
    record d { infos = update d.infos w (record info { strong_count = info.strong_count - 1 }) }

abbrev pub pop_front : Driver → ℕ → List GenericTrbEntry → Driver × Option GenericTrbEntry
pop_front d w [] = (d, none)
pop_front d w (t ∷ ts) =
    (record d { infos = update d.infos w (record (d.infos w) { trbs = ts }) }, some t)

-- `EventFuture::poll`: an event is `Ready`, none is `Pending`.
unfoldable pub poll_future : Driver → ℕ → Driver × Option GenericTrbEntry
poll_future d w = pop_front d w (d.infos w).trbs

-- What a round of the loop over the wait list makes of a waiter: `upgrade`, `matches`, `resolve`
abbrev pub offer : GenericTrbEntry → EventWaitInfo → EventWaitInfo
offer t w = if w.strong_count == 0 then w else if matches w.cond t then resolve w t else w

unfoldable pub deliver : GenericTrbEntry → (ℕ → EventWaitInfo) → List ℕ → ℕ → EventWaitInfo
deliver t infos [] = infos
deliver t infos (w ∷ ws) = deliver t (update infos w (offer t (infos w))) ws

-- The indices of the waiters without an owner, from the back
unfoldable pub stale_waiter_indices : (ℕ → EventWaitInfo) → ℕ → List ℕ → List ℕ
stale_waiter_indices infos i [] = []
stale_waiter_indices infos i (w ∷ ws) =
    stale_waiter_indices infos (suc i) ws ++ (if (infos w).strong_count == 0 then i ∷ [] else [])

-- `VecDeque::remove`
abbrev pub remove_at : List ℕ → ℕ → List ℕ
remove_at [] k = []
remove_at (w ∷ ws) zero = ws
remove_at (w ∷ ws) (suc k) = w ∷ remove_at ws k

unfoldable pub remove_all : List ℕ → List ℕ → List ℕ
remove_all ws [] = ws
remove_all ws (k ∷ ks) = remove_all (remove_at ws k) ks

-- What `poll` does with the result of `pop`.
abbrev pub on_event :
    Driver → EventRing × Result (Option GenericTrbEntry) → Driver × Result (Unit {0})
on_event d (e, ok (some t)) =
    let infos = deliver t d.infos d.wait_list in
    (
      record {
        events = e;
        infos = infos;
        next = d.next;
        wait_list = remove_all d.wait_list (stale_waiter_indices infos 0 d.wait_list);
      },
      ok tt,
    )
on_event d (e, ok none) = (record d { events = e }, ok tt)
on_event d (e, err x) = (record d { events = e }, err x)
on_event d (e, panic) = (record d { events = e }, panic)

-- `EventRing::poll`
unfoldable pub poll : Driver → Driver × Result (Unit {0})
poll d = on_event d (pop d.events)

abbrev pub then_poll :
    (Driver → Driver × Result (Unit {0})) → Driver × Result (Unit {0}) → Driver × Result (Unit {0})
then_poll next (d, ok u) = next d
then_poll next (d, err x) = (d, err x)
then_poll next (d, panic) = (d, panic)

-- Rounds of the loop that the driver spawns, as far as no poll fails (os/src/xhci/driver.rs)
unfoldable pub poll_rounds : ℕ → Driver → Driver × Result (Unit {0})
poll_rounds zero d = (d, ok tt)
poll_rounds (suc n) d = then_poll (poll_rounds n) (poll d)
