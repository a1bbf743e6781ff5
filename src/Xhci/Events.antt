-- ===== src/Xhci/Events.antt =====
-- The event ring of os/src/xhci/ring.rs: the controller produces, the driver consumes. The dequeue
-- pointer is a register of the controller; `erdp` is its content, if its address has been set.
use wasabi.Base.{
  ℕ, suc, ◌+◌, ◌%◌, ◌≤◌, ◌<◌, ◌≡◌, refl, ap, sym, ◌∙◌, arith, List, [], ◌∷◌, Option, none, some,
  get_or, length, bit_and, bit_or, Bool, true, false, not, ◌==◌, if◌then◌else◌, Result, ok, err,
  panic, Bool-cases, inl, inr, ltb,
}
use mathlib.Core.Bool.{xor, not-not}
use wasabi.Xhci.{
  GenericTrbEntry, TrbRing, num_trb, trb_at, current, current_ptr, cycle_state,
  advance_index_notoggle, default_trb,
}

pub record EventRing : Type 0 where
  pub ring : TrbRing
  pub cycle_state_ours : Bool
  pub erdp : Option ℕ

unfoldable pub has_next_event : EventRing → Bool
has_next_event e = not (xor (cycle_state (current e.ring)) e.cycle_state_ours)

-- The rest of `pop`, once the index has advanced from the entry at `eptr`.
abbrev pub popped :
    EventRing
    → GenericTrbEntry
    → ℕ
    → TrbRing × Result (Unit {0})
    → Option ℕ
    → EventRing × Result (Option GenericTrbEntry)
popped e event eptr (r, ok u) (some old) = (
  record {
    ring = r;
    cycle_state_ours = if r.current_index == 0 then not e.cycle_state_ours else e.cycle_state_ours;
    erdp = some (bit_or eptr (bit_and old 15));
  },
  ok (some event),
)
popped e event eptr (r, ok u) none = (record e { ring = r }, panic)
popped e event eptr (r, err x) old = (record e { ring = r }, err x)
popped e event eptr (r, panic) old = (record e { ring = r }, panic)

unfoldable pub pop : EventRing → EventRing × Result (Option GenericTrbEntry)
unfolding has_next_event
pop e =
    if not (has_next_event e)
    then (e, ok none)
    else popped e (current e.ring) (current_ptr e.ring)
        (advance_index_notoggle e.ring e.cycle_state_ours) e.erdp

-- The cycle bit of the entry `k` places past the consumer, when it holds an event.
abbrev pub cycle_ahead : EventRing → ℕ → Bool
cycle_ahead e k =
    if ltb (e.ring.current_index + k) num_trb then e.cycle_state_ours else not e.cycle_state_ours

abbrev pub entry_ahead : EventRing → ℕ → GenericTrbEntry
entry_ahead e k = trb_at e.ring ((e.ring.current_index + k) % num_trb)

-- The ring holds these events, the next one first, and then entries that are not the driver's yet.
pub record Holds (e : EventRing) (events : List GenericTrbEntry) : Type 0 where
  pub size : length e.ring.trb ≡ num_trb
  pub index : e.ring.current_index < num_trb
  pub register : (v : ℕ) × (e.erdp ≡ some v)
  pub room : length events < num_trb
  pub pending :
      (k : ℕ)
      → k < length events
      → (entry_ahead e k ≡ get_or events k default_trb)
        × (cycle_state (get_or events k default_trb) ≡ cycle_ahead e k)
  pub free :
      (k : ℕ)
      → length events ≤ k
      → k < num_trb
      → cycle_state (entry_ahead e k) ≡ not (cycle_ahead e k)

-- The first entry is at the current index, with the cycle bit that tells whether it is an event.
entry_first : (e : EventRing) → e.ring.current_index < num_trb → entry_ahead e 0 ≡ current e.ring
entry_first e h = ap (trb_at e.ring) (omega arith)

cycle_first :
    (e : EventRing) → e.ring.current_index < num_trb → cycle_ahead e 0 ≡ e.cycle_state_ours
cycle_first e h = ground arith

xor_same : (a b : Bool) → a ≡ b → xor a b ≡ false
unfolding xor
xor_same a b h = ground arith

xor-not : (a b : Bool) → a ≡ not b → xor a b ≡ true
unfolding xor
xor-not a b h = ground arith

-- With no event in the ring, there is none to pop, and nothing changes.
pub pop_empty : (e : EventRing) → Holds e [] → pop e ≡ (e, ok none)
unfolding pop
pop_empty e h = rw none_pending refl
  where
    none_pending : xor (cycle_state (current e.ring)) e.cycle_state_ours ≡ true
    none_pending = xor-not (cycle_state (current e.ring)) e.cycle_state_ours (
        sym (ap cycle_state (entry_first e h.index))
        ∙ h.free 0 (omega arith) (omega arith)
        ∙ ap not (cycle_first e h.index))

-- The ring after its first event has been popped.
abbrev popped_ring : EventRing → ℕ → EventRing
popped_ring e v = record {
  ring = record e.ring { current_index = (e.ring.current_index + 1) % num_trb };
  cycle_state_ours =
      if (e.ring.current_index + 1) % num_trb == 0
      then not e.cycle_state_ours
      else e.cycle_state_ours;
  erdp = some (bit_or (current_ptr e.ring) (bit_and v 15));
}

module _ (e : EventRing) (v : ℕ) (index : e.ring.current_index < num_trb) where
  entry_shift : (k : ℕ) → k < 15 → entry_ahead (popped_ring e v) k ≡ entry_ahead e (suc k)
  entry_shift k h = ap (trb_at e.ring) (omega arith)

  cycle_shift : (k : ℕ) → k < 15 → cycle_ahead (popped_ring e v) k ≡ cycle_ahead e (suc k)
  cycle_shift k h = ground arith

  entry_last : entry_ahead (popped_ring e v) 15 ≡ current e.ring
  entry_last = ap (trb_at e.ring) (omega arith)

  cycle_last : cycle_ahead (popped_ring e v) 15 ≡ not e.cycle_state_ours
  cycle_last = ground arith

module _ (e : EventRing) (event : GenericTrbEntry) (events : List GenericTrbEntry)
    (h : Holds e (event ∷ events)) where
  first_event : current e.ring ≡ event
  first_event = sym (entry_first e h.index) ∙ (h.pending 0 (omega arith)).0

  first_cycle : cycle_state (current e.ring) ≡ e.cycle_state_ours
  first_cycle = ap cycle_state first_event ∙ (h.pending 0 (omega arith)).1 ∙ cycle_first e h.index

  popped_free :
      (v k : ℕ)
      → length events ≤ k
      → k < num_trb
      → cycle_state (entry_ahead (popped_ring e v) k) ≡ not (cycle_ahead (popped_ring e v) k)
  popped_free v k lo hi = elim (Bool-cases (k == 15)) [
    | inl last ↦
        let at : k ≡ 15 = ground arith in
        rw at (
          ap cycle_state (entry_last e v h.index)
          ∙ first_cycle
          ∙ sym (ap not (cycle_last e v h.index) ∙ not-not e.cycle_state_ours))
    | inr more ↦
        let small : k < 15 = ground arith in
        ap cycle_state (entry_shift e v h.index k small)
        ∙ h.free (suc k) (omega arith) (omega arith)
        ∙ sym (ap not (cycle_shift e v h.index k small))
  ]

  popped-Holds : (v : ℕ) → Holds (popped_ring e v) events
  popped-Holds v = record {
    size = h.size;
    index = omega arith;
    register = (bit_or (current_ptr e.ring) (bit_and v 15), refl);
    room = omega (arith, h.room);
    pending = λ k small.
        let (at, cycle) = h.pending (suc k) (omega arith) in
        (
          entry_shift e v h.index k (omega (arith, h.room)) ∙ at,
          cycle ∙ sym (cycle_shift e v h.index k (omega (arith, h.room))),
        );
    free = popped_free v;
  }

  advances :
      advance_index_notoggle e.ring e.cycle_state_ours
      ≡ (record e.ring { current_index = (e.ring.current_index + 1) % num_trb }, ok tt)
  unfolding advance_index_notoggle
  advances = rw (xor_same (cycle_state (current e.ring)) e.cycle_state_ours first_cycle) refl

  has_next : has_next_event e ≡ true
  unfolding has_next_event
  has_next = ap not (xor_same (cycle_state (current e.ring)) e.cycle_state_ours first_cycle)

  -- The first event is popped, and the places of the others move by one.
  pub pop_next :
      (e' : EventRing) × (pop e ≡ (e', ok (some event)))
      × Holds e' events
      × (e'.ring.current_index ≡ (e.ring.current_index + 1) % num_trb)
      × ((k : ℕ) → k < 15 → cycle_ahead e' k ≡ cycle_ahead e (suc k))
  unfolding pop
  pop_next = (
    popped_ring e h.register.0,
    rw (has_next, advances, h.register.1)
        (ap (λ t. (popped_ring e h.register.0, ok (some t))) first_event),
    popped-Holds h.register.0,
    refl,
    cycle_shift e h.register.0 h.index,
  )
