-- ===== src/Xhci/Waits.antt =====
-- The waiter behind a future of os/src/xhci/future.rs: what each operation makes of the events that
-- its future has not returned yet.
use wasabi.Base.{
  ℕ, suc, ◌-◌, ◌<◌, ◌≡◌, ◌≢◌, refl, ap, sym, ◌∙◌, arith, List, [], ◌∷◌, ◌++◌, Option, none, some,
  false, append-nil, ◌==◌, Result, ok, err, panic, Bool-cases, inl, inr, ==_refl, ==_ne, ==_iff,
}
use wasabi.Xhci.{GenericTrbEntry}
use wasabi.Xhci.Events.{EventRing}
use wasabi.Xhci.Delivery.{head}
use wasabi.Xhci.Waiters.{
  EventWaitCond, EventWaitInfo, Driver, update, deliver, offer, on_event, pop_front, poll_future,
  register_waiter, new, clone, drop,
}
use wasabi.Xhci.Wakeups.{
  count, count-append, count-live, remove_all-stale, iterate, deliver-at, offer_lem, matching,
}

abbrev pub listed : Option GenericTrbEntry → List GenericTrbEntry
listed none = []
listed (some t) = t ∷ []

-- The event that a `pop` has returned, if it has
abbrev pub popped_events : EventRing × Result (Option GenericTrbEntry) → List GenericTrbEntry
popped_events (e, ok o) = listed o
popped_events (e, err x) = []
popped_events (e, panic) = []

-- The waiter `w` is on the wait list, with these events that its future has not returned yet.
pub record Waits (d : Driver) (w : ℕ) (cond : EventWaitCond) (rest : List GenericTrbEntry)
    : Type 0 where
  pub owned : 0 < (d.infos w).strong_count
  pub once : count w d.wait_list ≡ 1
  pub known : w < d.next
  pub condition : (d.infos w).cond ≡ cond
  pub queue : (d.infos w).trbs ≡ rest

update_self :
    (infos : ℕ → EventWaitInfo) (w : ℕ) (info : EventWaitInfo) → update infos w info w ≡ info
update_self infos w info = rw (==_refl w) refl

update_other :
    (infos : ℕ → EventWaitInfo) (v w : ℕ) (info : EventWaitInfo)
    → v ≢ w
    → update infos v info w ≡ infos w
update_other infos v w info h = rw (==_ne w v (λ e. h (sym e))) refl

-- Only the memory changes, and in it the waiter keeps its condition.
module _ (d : Driver) (w : ℕ) (cond : EventWaitCond) where
  Waits-infos :
      (infos : ℕ → EventWaitInfo) (info : EventWaitInfo) (rest rest' : List GenericTrbEntry)
      → Waits d w cond rest
      → infos w ≡ info
      → 0 < info.strong_count
      → info.cond ≡ (d.infos w).cond
      → info.trbs ≡ rest'
      → Waits (record d { infos = infos }) w cond rest'
  Waits-infos infos info rest rest' h at owned same queue = record {
    owned = rw at owned;
    once = h.once;
    known = h.known;
    condition = rw at (same ∙ h.condition);
    queue = rw at queue;
  }

  pub ring-Waits :
      (e : EventRing) (rest : List GenericTrbEntry)
      → Waits d w cond rest
      → Waits (record d { events = e }) w cond (rest ++ [])
  ring-Waits e rest h = rw (append-nil rest) (record {
    owned = h.owned;
    once = h.once;
    known = h.known;
    condition = h.condition;
    queue = h.queue;
  })

  deliver-Waits :
      (t : GenericTrbEntry)
      → 0 < (d.infos w).strong_count
      → count w d.wait_list ≡ 1
      → deliver t d.infos d.wait_list w
        ≡ record (d.infos w) { trbs = (d.infos w).trbs ++ matching (d.infos w).cond (t ∷ []) }
  deliver-Waits t owned once =
      deliver-at t d.infos d.wait_list w
      ∙ ap (λ n. iterate n (offer t) (d.infos w)) once
      ∙ offer_lem t (d.infos w) owned

  pub on_event-Waits :
      (r : EventRing × Result (Option GenericTrbEntry)) (rest : List GenericTrbEntry)
      → Waits d w cond rest
      → Waits (on_event d r).0 w cond (rest ++ matching cond (popped_events r))
  on_event-Waits (e, ok (some t)) rest h =
      let at = deliver-Waits t h.owned h.once in
      let infos = deliver t d.infos d.wait_list in
      record {
        owned = rw at h.owned;
        once =
            ap (count w) (remove_all-stale infos d.wait_list)
            ∙ count-live infos w d.wait_list (rw at h.owned)
            ∙ h.once;
        known = h.known;
        condition = rw at h.condition;
        queue = rw (at, h.condition, h.queue) refl;
      }
  on_event-Waits (e, ok none) rest h = ring-Waits e rest h
  on_event-Waits (e, err x) rest h = ring-Waits e rest h
  on_event-Waits (e, panic) rest h = ring-Waits e rest h

  set_count-Waits :
      (v n : ℕ) (rest : List GenericTrbEntry)
      → 0 < (update d.infos v (record (d.infos v) { strong_count = n }) w).strong_count
      → Waits d w cond rest
      → Waits
          (record d { infos = update d.infos v (record (d.infos v) { strong_count = n }) })
          w
          cond
          rest
  set_count-Waits v n rest owned h =
      let infos = update d.infos v (record (d.infos v) { strong_count = n }) in
      let kept : (infos w).cond ≡ (d.infos w).cond × (infos w).trbs ≡ (d.infos w).trbs =
        elim (Bool-cases (w == v)) [
          | inl s ↦
              let same : v ≡ w = sym ((==_iff w v).0 s) in
              rw s (ap (λ u. (d.infos u).cond) same, ap (λ u. (d.infos u).trbs) same)
          | inr s ↦ rw s (refl, refl)
        ] in
      Waits-infos infos (infos w) rest rest h refl owned kept.0 (kept.1 ∙ h.queue)

  pub clone-Waits :
      (v : ℕ) (rest : List GenericTrbEntry) → Waits d w cond rest → Waits (clone d v) w cond rest
  unfolding clone
  clone-Waits v rest h =
      set_count-Waits v (suc (d.infos v).strong_count) rest
        (elim (Bool-cases (w == v)) [ inl s ↦ rw s (omega arith) | inr s ↦ rw s h.owned ]) h

  pub drop-Waits :
      (v : ℕ) (rest : List GenericTrbEntry)
      → 0 < ((drop d v).infos w).strong_count
      → Waits d w cond rest
      → Waits (drop d v) w cond rest
  unfolding drop
  drop-Waits v rest owned h = set_count-Waits v ((d.infos v).strong_count - 1) rest owned h

  pub new-Waits :
      (other : EventWaitCond) (rest : List GenericTrbEntry)
      → Waits d w cond rest
      → Waits (new d other).0 w cond rest
  unfolding new register_waiter
  new-Waits other rest h =
      let info : EventWaitInfo = record { cond = other; trbs = []; strong_count = 1 } in
      let fresh : (w == d.next) ≡ false =
        ==_ne w d.next (λ e. absurd (omega (arith, e, h.known))) in
      let at : update d.infos d.next info w ≡ d.infos w = rw fresh refl in
      record {
        owned = rw at h.owned;
        once = count-append w d.wait_list (d.next ∷ []) ∙ rw fresh (omega (arith, h.once));
        known = omega (arith, h.known);
        condition = rw at h.condition;
        queue = rw at h.queue;
      }

  pop_front-Waits :
      (v : ℕ) (ts rest : List GenericTrbEntry)
      → v ≢ w
      → Waits d w cond rest
      → Waits (pop_front d v ts).0 w cond rest
  pop_front-Waits v [] rest other h = h
  pop_front-Waits v (t ∷ ts) rest other h =
      let info = record (d.infos v) { trbs = ts } in
      Waits-infos (update d.infos v info) (d.infos w) rest rest h
        (update_other d.infos v w info other) h.owned refl h.queue

  pub awaits_other-Waits :
      (v : ℕ) (rest : List GenericTrbEntry)
      → v ≢ w
      → Waits d w cond rest
      → Waits (poll_future d v).0 w cond rest
  unfolding poll_future
  awaits_other-Waits v rest other h = pop_front-Waits v (d.infos v).trbs rest other h

  pop_front_own :
      (rest : List GenericTrbEntry)
      → Waits d w cond rest
      → ((pop_front d w rest).1 ≡ head rest)
        × ((rest' : List GenericTrbEntry) × (rest ≡ listed (pop_front d w rest).1 ++ rest')
            × Waits (pop_front d w rest).0 w cond rest')
  pop_front_own [] h = (refl, ([], refl, h))
  pop_front_own (t ∷ ts) h =
      let info = record (d.infos w) { trbs = ts } in
      (
        refl,
        (
          ts,
          refl,
          Waits-infos (update d.infos w info) info (t ∷ ts) ts h (update_self d.infos w info)
              h.owned refl refl,
        ),
      )

  -- A poll of the future returns the first of its events.
  pub poll_future-Waits :
      (rest : List GenericTrbEntry)
      → Waits d w cond rest
      → ((poll_future d w).1 ≡ head rest)
        × ((rest' : List GenericTrbEntry) × (rest ≡ listed (poll_future d w).1 ++ rest')
            × Waits (poll_future d w).0 w cond rest')
  unfolding poll_future
  poll_future-Waits rest h = rw h.queue (pop_front_own rest h)

-- The state that `new` leaves, if its number was not on the wait list.
pub new_lem :
    (d : Driver) (cond : EventWaitCond)
    → count d.next d.wait_list ≡ 0
    → Waits (new d cond).0 d.next cond []
unfolding new register_waiter
new_lem d cond fresh =
    let info : EventWaitInfo = record { cond = cond; trbs = []; strong_count = 1 } in
    let at : update d.infos d.next info d.next ≡ info = update_self d.infos d.next info in
    record {
      owned = rw at (omega arith);
      once =
          count-append d.next d.wait_list (d.next ∷ [])
          ∙ rw (==_refl d.next) (omega (arith, fresh));
      known = omega arith;
      condition = rw at refl;
      queue = rw at refl;
    }
