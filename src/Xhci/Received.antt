-- ===== src/Xhci/Received.antt =====
-- A future of os/src/xhci/future.rs, from `new` on: it is given every event that it waits for, once
-- and in order, whatever the other futures do.
use wasabi.Base.{
  subst, length, ℕ, ◌<◌, ◌≡◌, ◌≢◌, refl, ap, sym, ◌∙◌, List, [], ◌∷◌, ◌++◌, some, append-nil,
  append_assoc, ok,
}
use wasabi.Xhci.{GenericTrbEntry}
use wasabi.Xhci.Events.{EventRing, pop, Holds, pop_next}
use wasabi.Xhci.Delivery.{head}
use wasabi.Xhci.Waiters.{
  poll_rounds, EventWaitCond, Driver, on_event, poll, poll_future, new, clone, drop,
}
use wasabi.Xhci.Wakeups.{count, matching, matching-append}
use wasabi.Xhci.Waits.{
  listed, popped_events, Waits, ring-Waits, on_event-Waits, clone-Waits, drop-Waits, new-Waits,
  awaits_other-Waits, poll_future-Waits, new_lem,
}

-- What happens after a given state, with the events that the polls of the ring have popped, and those
-- that the polls of the future `w` have returned. The events of the ring change at any time. Other
-- futures are made, cloned, dropped and polled; so is `w`, as long as there is one left.
pub data Runs (d0 : Driver) (w : ℕ)
    : Driver → List GenericTrbEntry → List GenericTrbEntry → Type 0 where
  start : Runs d0 w d0 [] []
  posts :
      {d : Driver} {ps qs : List GenericTrbEntry} (e : EventRing)
      → Runs d0 w d ps qs
      → Runs d0 w (record d { events = e }) ps qs
  polls :
      {d : Driver} {ps qs : List GenericTrbEntry}
      → Runs d0 w d ps qs
      → Runs d0 w (poll d).0 (ps ++ popped_events (pop d.events)) qs
  awaits :
      {d : Driver} {ps qs : List GenericTrbEntry}
      → Runs d0 w d ps qs
      → Runs d0 w (poll_future d w).0 ps (qs ++ listed (poll_future d w).1)
  awaits_other :
      {d : Driver} {ps qs : List GenericTrbEntry} (v : ℕ)
      → v ≢ w
      → Runs d0 w d ps qs
      → Runs d0 w (poll_future d v).0 ps qs
  makes :
      {d : Driver} {ps qs : List GenericTrbEntry} (cond : EventWaitCond)
      → Runs d0 w d ps qs
      → Runs d0 w (new d cond).0 ps qs
  clones :
      {d : Driver} {ps qs : List GenericTrbEntry} (v : ℕ)
      → Runs d0 w d ps qs
      → Runs d0 w (clone d v) ps qs
  drops :
      {d : Driver} {ps qs : List GenericTrbEntry} (v : ℕ)
      → 0 < ((drop d v).infos w).strong_count
      → Runs d0 w d ps qs
      → Runs d0 w (drop d v) ps qs

-- The events of the waiter and those that its future has returned
abbrev Received : Driver → ℕ → EventWaitCond → List GenericTrbEntry → List GenericTrbEntry → Type 0
Received d w cond ps qs =
    (rest : List GenericTrbEntry) × (matching cond ps ≡ qs ++ rest) × Waits d w cond rest

Runs-Received :
    {d0 : Driver} {w : ℕ} {d : Driver} {ps qs : List GenericTrbEntry} (cond : EventWaitCond)
    → Waits d0 w cond []
    → Runs d0 w d ps qs
    → Received d w cond ps qs
unfolding poll
Runs-Received cond h0 start = ([], refl, h0)
Runs-Received {w = w} cond h0 (posts {d} {ps} {qs} e r) =
    let (rest, order, h) = Runs-Received cond h0 r in
    (rest ++ [], order ∙ ap (λ x. qs ++ x) (sym (append-nil rest)), ring-Waits d w cond e rest h)
Runs-Received {w = w} cond h0 (polls {d} {ps} {qs} r) =
    let (rest, order, h) = Runs-Received cond h0 r in
    let now = matching cond (popped_events (pop d.events)) in
    (
      rest ++ now,
      matching-append cond ps (popped_events (pop d.events))
          ∙ ap (λ xs. xs ++ now) order
          ∙ append_assoc qs rest now,
      on_event-Waits d w cond (pop d.events) rest h,
    )
Runs-Received {w = w} cond h0 (awaits {d} {ps} {qs} r) =
    let (rest, order, h) = Runs-Received cond h0 r in
    let (first, (rest', split, h')) = poll_future-Waits d w cond rest h in
    (
      rest',
      order ∙ ap (λ xs. qs ++ xs) split ∙ sym (append_assoc qs (listed (poll_future d w).1) rest'),
      h',
    )
Runs-Received {w = w} cond h0 (awaits_other {d} v other r) =
    let (rest, order, h) = Runs-Received cond h0 r in
    (rest, order, awaits_other-Waits d w cond v rest other h)
Runs-Received {w = w} cond h0 (makes {d} new_cond r) =
    let (rest, order, h) = Runs-Received cond h0 r in
    (rest, order, new-Waits d w cond new_cond rest h)
Runs-Received {w = w} cond h0 (clones {d} v r) =
    let (rest, order, h) = Runs-Received cond h0 r in (rest, order, clone-Waits d w cond v rest h)
Runs-Received {w = w} cond h0 (drops {d} v owned r) =
    let (rest, order, h) = Runs-Received cond h0 r in
    (rest, order, drop-Waits d w cond v rest owned h)

-- For a future that waits for a condition, made when its number was not on the wait list: in every
-- sequence of events arriving, of polls of the ring and of the future, and of other futures being
-- made, cloned, polled and dropped, as long as the future keeps an owner, the events that its polls
-- have returned are the first of the events popped since it was made that match the condition, in
-- order; its next poll returns the first of the others, or is pending if there are none.
pub poll_future_lem :
    (d0 : Driver) {d : Driver} {ps qs : List GenericTrbEntry} (cond : EventWaitCond)
    → count d0.next d0.wait_list ≡ 0
    → Runs (new d0 cond).0 (new d0 cond).1 d ps qs
    → (rest : List GenericTrbEntry) × (matching cond ps ≡ qs ++ rest)
      × ((poll_future d (new d0 cond).1).1 ≡ head rest)
unfolding new
poll_future_lem d0 {d} cond fresh r =
    let (rest, order, h) = Runs-Received cond (new_lem d0 cond fresh) r in
    (rest, order, (poll_future-Waits d d0.next cond rest h).0)

-- From a state whose ring holds some events, as many rounds of the driver's loop do not fail, and
-- leave the ring empty; a waiter that is on the wait list, with an owner, has been given those of the events that
-- match its condition, behind the ones it had, in order.
pub poll_rounds_lem :
    (d : Driver) (w : ℕ) (cond : EventWaitCond) (events rest : List GenericTrbEntry)
    → Holds d.events events
    → Waits d w cond rest
    → (d' : Driver) × (poll_rounds (length events) d ≡ (d', ok tt))
      × Holds d'.events []
      × Waits d' w cond (rest ++ matching cond events)
unfolding poll_rounds poll
poll_rounds_lem d w cond [] rest h v = (d, refl, h, rw (append-nil rest) v)
poll_rounds_lem d w cond (t ∷ ts) rest h v =
    let (e, run, h', index, cycles) = pop_next d.events t ts h in
    let v' = on_event-Waits d w cond (e, ok (some t)) rest v in
    let (d', runs, empty, v'') =
      poll_rounds_lem (on_event d (e, ok (some t))).0 w cond ts (rest ++ matching cond (t ∷ [])) h'
        v' in
    (
      d',
      rw run runs,
      empty,
      subst (λ r. Waits d' w cond r)
          (append_assoc rest (matching cond (t ∷ [])) (matching cond ts)
            ∙ ap (λ r. rest ++ r) (sym (matching-append cond (t ∷ []) ts)))
          v'',
    )
