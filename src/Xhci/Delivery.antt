-- ===== src/Xhci/Delivery.antt =====
-- The event ring between the controller and the driver: every event arrives once, in order.
-- The controller is hardware: it writes an event with its own cycle bit at its enqueue index, unless
-- the next index is the driver's, and toggles the bit when it wraps.
use wasabi.Base.{
  ℕ, zero, suc, ◌+◌, ◌%◌, ◌<◌, ◌≡◌, ◌≢◌, refl, ap, sym, ◌∙◌, arith, List, [], ◌∷◌, ◌++◌, Option,
  none, some, get_or, set, length, length-set, get_or-set_self, get_or-set_ne, Bool, true, not,
  ◌==◌, if◌then◌else◌, ok, Bool-cases, inl, inr, length-append, append_assoc, replicate,
  length-replicate, get_or-replicate,
}
use wasabi.Xhci.{GenericTrbEntry, num_trb, cycle_state, default_trb}
use wasabi.Xhci.Events.{EventRing, pop, Holds, cycle_ahead, entry_ahead, pop_empty, pop_next}

abbrev pub head : List GenericTrbEntry → Option GenericTrbEntry
head [] = none
head (t ∷ ts) = some t

abbrev pub tail : List GenericTrbEntry → List GenericTrbEntry
tail [] = []
tail (t ∷ ts) = ts

-- On a ring that holds events, `pop` succeeds, gives the first one, if there is one, and leaves the
-- others.
pub pop-Holds :
    (e : EventRing) (events : List GenericTrbEntry)
    → Holds e events
    → (e' : EventRing) × (pop e ≡ (e', ok (head events))) × Holds e' (tail events)
pop-Holds e [] h = (e, pop_empty e h, h)
pop-Holds e (t ∷ ts) h = let r = pop_next e t ts h in (r.0, r.1, r.2)

pub record Controller : Type 0 where
  pub enqueue_index : ℕ
  pub cycle : Bool

abbrev pub post : EventRing → ℕ → GenericTrbEntry → EventRing
post e i t = record e { ring = record e.ring { trb = set e.ring.trb i t } }

abbrev pub next : Controller → Controller
next c = record {
  enqueue_index = (c.enqueue_index + 1) % num_trb;
  cycle = if (c.enqueue_index + 1) % num_trb == 0 then not c.cycle else c.cycle;
}

-- Where the controller stands, if the ring holds `n` events.
pub record Stands (e : EventRing) (n : ℕ) (c : Controller) : Type 0 where
  pub at : c.enqueue_index ≡ (e.ring.current_index + n) % num_trb
  pub bit : c.cycle ≡ cycle_ahead e n

get_or-append :
    (xs : List GenericTrbEntry) (t : GenericTrbEntry)
    → get_or (xs ++ t ∷ []) (length xs) default_trb ≡ t
get_or-append [] t = refl
get_or-append (x ∷ xs) t = get_or-append xs t

get_or-append_old :
    (xs : List GenericTrbEntry) (t : GenericTrbEntry) (k : ℕ)
    → k < length xs
    → get_or (xs ++ t ∷ []) k default_trb ≡ get_or xs k default_trb
get_or-append_old [] t k h = absurd (omega arith)
get_or-append_old (x ∷ xs) t zero h = refl
get_or-append_old (x ∷ xs) t (suc k) h = get_or-append_old xs t k (omega arith)

module _ (e : EventRing) (events : List GenericTrbEntry) (c : Controller) (t : GenericTrbEntry)
    (h : Holds e events) (s : Stands e (length events) c) (bit : cycle_state t ≡ c.cycle)
    (space : (c.enqueue_index + 1) % num_trb ≢ e.ring.current_index) where
  abbrev after : EventRing
  after = post e c.enqueue_index t

  room : length events + 1 < num_trb
  room = omega (arith, h.room, h.index, s.at, space)

  entry_other : (k : ℕ) → k < num_trb → k ≢ length events → entry_ahead after k ≡ entry_ahead e k
  entry_other k small other =
      get_or-set_ne e.ring.trb c.enqueue_index ((e.ring.current_index + k) % num_trb) t default_trb
        (λ same. other (omega (arith, s.at, h.index, room)))

  entry_new : entry_ahead after (length events) ≡ t
  entry_new =
      ap (λ i. get_or (set e.ring.trb c.enqueue_index t) i default_trb) (sym s.at)
      ∙ get_or-set_self e.ring.trb c.enqueue_index t default_trb (omega (arith, h.size, s.at))

  size_append : length (events ++ t ∷ []) ≡ length events + 1
  size_append = length-append events (t ∷ []) ∙ omega arith

  pending_after :
      (k : ℕ)
      → k < length (events ++ t ∷ [])
      → (entry_ahead after k ≡ get_or (events ++ t ∷ []) k default_trb)
        × (cycle_state (get_or (events ++ t ∷ []) k default_trb) ≡ cycle_ahead after k)
  pending_after k small = elim (Bool-cases (k == length events)) [
    | inl last ↦
        let same : k ≡ length events = ground arith in
        rw same (
          entry_new ∙ sym (get_or-append events t),
          ap cycle_state (get_or-append events t) ∙ bit ∙ s.bit,
        )
    | inr old ↦
        let other : k ≢ length events = ground arith in
        let below : k < length events = omega (arith, size_append) in
        let (at, cycle) = h.pending k below in
        (
          entry_other k (omega (arith, room)) other ∙ at ∙ sym (get_or-append_old events t k below),
          ap cycle_state (get_or-append_old events t k below) ∙ cycle,
        )
  ]

  pub post-Holds : Holds after (events ++ t ∷ [])
  post-Holds = record {
    size = length-set e.ring.trb c.enqueue_index t ∙ h.size;
    index = h.index;
    register = h.register;
    room = omega (arith, size_append, room);
    pending = pending_after;
    free = λ k lo hi.
        let more : length events < k = omega (arith, size_append) in
        ap cycle_state (entry_other k hi (omega arith)) ∙ h.free k (omega arith) hi;
  }

  post-Stands : Stands after (length (events ++ t ∷ [])) (next c)
  post-Stands = record {
    at = omega (arith, s.at, size_append);
    bit = ground (arith, s.at, s.bit, size_append, h.index, room);
  }

-- What the controller and the driver do in turn, from a given state, with the events posted and the
-- events that `pop` returned.
pub data Run (e0 : EventRing) (c0 : Controller)
    : EventRing → Controller → List GenericTrbEntry → List GenericTrbEntry → Type 0 where
  begin : Run e0 c0 e0 c0 [] []
  posts :
      {e : EventRing} {c : Controller} {ps qs : List GenericTrbEntry} (t : GenericTrbEntry)
      → Run e0 c0 e c ps qs
      → cycle_state t ≡ c.cycle
      → (c.enqueue_index + 1) % num_trb ≢ e.ring.current_index
      → Run e0 c0 (post e c.enqueue_index t) (next c) (ps ++ t ∷ []) qs
  takes :
      {e e' : EventRing} {c : Controller} {ps qs : List GenericTrbEntry} {t : GenericTrbEntry}
      → Run e0 c0 e c ps qs
      → pop e ≡ (e', ok (some t))
      → Run e0 c0 e' c ps (qs ++ t ∷ [])

-- The events that are posted and not yet popped are those that the ring holds.
abbrev Outstanding : EventRing → Controller → List GenericTrbEntry → List GenericTrbEntry → Type 0
Outstanding e c ps qs =
    (rest : List GenericTrbEntry) × (ps ≡ qs ++ rest) × Holds e rest × Stands e (length rest) c

take_Outstanding :
    (e e' : EventRing) (c : Controller) (ps qs rest : List GenericTrbEntry) (t : GenericTrbEntry)
    → ps ≡ qs ++ rest
    → Holds e rest
    → Stands e (length rest) c
    → pop e ≡ (e', ok (some t))
    → Outstanding e' c ps (qs ++ t ∷ [])
take_Outstanding e e' c ps qs [] t order h s popped = absurd (ground (arith, pop_empty e h))
take_Outstanding e e' c ps qs (u ∷ rest) t order h s popped =
    let (e1, runs, h1, index, cycles) = pop_next e u rest h in
    let same : e1 ≡ e' = cc in
    let event : u ≡ t = cc in
    (
      rest,
      rw (← event) (order ∙ sym (append_assoc qs (u ∷ []) rest)),
      rw (← same) h1,
      rw (← same) (record {
        at = omega (arith, s.at, index);
        bit = s.bit ∙ sym (cycles (length rest) (omega (arith, h.room)));
      }),
    )

Run-Outstanding :
    {e0 : EventRing} {c0 : Controller} {e : EventRing} {c : Controller}
    {ps qs : List GenericTrbEntry}
    → Holds e0 []
    → Stands e0 0 c0
    → Run e0 c0 e c ps qs
    → Outstanding e c ps qs
Run-Outstanding h0 s0 begin = ([], refl, h0, s0)
Run-Outstanding h0 s0 (posts {e} {c} {ps} {qs} t r bit space) =
    let (rest, order, h, s) = Run-Outstanding h0 s0 r in
    (
      rest ++ t ∷ [],
      ap (λ xs. xs ++ t ∷ []) order ∙ append_assoc qs rest (t ∷ []),
      post-Holds e rest c t h s bit space,
      post-Stands e rest c t h s bit space,
    )
Run-Outstanding h0 s0 (takes {e} {e'} {c} {ps} {qs} {t} r popped) =
    let (rest, order, h, s) = Run-Outstanding h0 s0 r in
    take_Outstanding e e' c ps qs rest t order h s popped

-- `EventRing::new`, for a ring at `phys_addr`: the address of the register is not known yet.
abbrev pub new_event_ring : ℕ → EventRing
new_event_ring phys_addr = record {
  ring = record { phys_addr = phys_addr; trb = replicate num_trb default_trb; current_index = 0 };
  cycle_state_ours = true;
  erdp = none;
}

-- `set_erdp`, with the address of a register whose content is `v`
abbrev pub set_erdp : EventRing → ℕ → EventRing
set_erdp e v = record e { erdp = some v }

abbrev pub new_controller : Controller
new_controller = record { enqueue_index = 0; cycle = true }

pub new-Holds : (phys_addr v : ℕ) → Holds (set_erdp (new_event_ring phys_addr) v) []
unfolding cycle_state
new-Holds phys_addr v = record {
  size = length-replicate num_trb default_trb;
  index = omega arith;
  register = (v, refl);
  room = omega arith;
  pending = λ k h. absurd (omega arith);
  free = λ k lo hi.
      ap cycle_state (get_or-replicate num_trb default_trb ((0 + k) % num_trb)) ∙ ground arith;
}

-- From a new event ring whose register has been set by set_erdp, in every sequence of posts by the
-- controller (which writes an event with its cycle bit at its enqueue index unless the next index is
-- the one of the driver) and of pops, the events popped are the first of the events posted, in the
-- same order; the next pop succeeds and gives the first of the others, or nothing if there are none.
pub events_delivered :
    (phys_addr v : ℕ) {e : EventRing} {c : Controller} {ps qs : List GenericTrbEntry}
    → Run (set_erdp (new_event_ring phys_addr) v) new_controller e c ps qs
    → (rest : List GenericTrbEntry) × (e' : EventRing) × (ps ≡ qs ++ rest)
      × (pop e ≡ (e', ok (head rest)))
events_delivered phys_addr v {e} r =
    let (rest, order, h, s) =
      Run-Outstanding (new-Holds phys_addr v) (record { at = refl; bit = refl }) r in
    let (e', runs, h') = pop-Holds e rest h in (rest, e', order, runs)
