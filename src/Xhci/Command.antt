-- ===== src/Xhci/Command.antt =====
-- The command ring: on a ring whose cycle bits are in order, advancing past an entry never fails and
-- keeps them so.
use wasabi.Base.{ℕ, ◌+◌, ◌%◌, ◌<◌, ◌≡◌, ◌≢◌, refl, ap, ◌∙◌, sym, arith, List, subst}
use wasabi.Base.{
  Bool, true, false, not, ◌==◌, ltb, if◌then◌else◌, Result, ok, err, failed, get_or, set, length,
  length-set, get_or-set_self, get_or-set_ne, lt→ltb, le→ltb, ==_iff, ==_ne,
}
use wasabi.Xhci.{
  GenericTrbEntry, cycle_state, set_cycle_state, trb_type, link, TrbRing, num_trb, trb_at, current,
  default_trb,
}
use wasabi.Base.{replicate, get_or-replicate}
use wasabi.Xhci.{new_command_ring, trb_link}
use wasabi.Xhci.{advance_index, CommandRing, advance_past_link, skip_link, toggle}
use native.Mathlib.Decide.{ℕ_discrete, dec_lt}
use mathlib.Core.Bool.{xor}

pub cycle_state-set_cycle_state :
    (c : Bool) (t : GenericTrbEntry) → cycle_state (set_cycle_state c t) ≡ c
unfolding cycle_state set_cycle_state
cycle_state-set_cycle_state c t = ground arith

pub trb_type-set_cycle_state :
    (c : Bool) (t : GenericTrbEntry) → trb_type (set_cycle_state c t) ≡ trb_type t
unfolding trb_type set_cycle_state
trb_type-set_cycle_state c t = ground arith

-- The last entry alone is the link; the entries before the current one have been handed over, by
-- the cycle bit that is not ours; the others are ours.
pub record InOrder (c : CommandRing) : Type 0 where
  pub size : length c.ring.trb ≡ num_trb
  pub index : c.ring.current_index < 15
  pub links : (i : ℕ) → i < 16 → (trb_type (trb_at c.ring i) == link) ≡ (i == 15)
  pub cycles :
      (i : ℕ)
      → i < 16
      → cycle_state (trb_at c.ring i)
        ≡ (if ltb i c.ring.current_index then not c.cycle_state_ours else c.cycle_state_ours)

-- A ring after its current entry has been handed over.
abbrev pub marked : TrbRing → Bool → TrbRing
marked r ours = record r {
  trb = set r.trb r.current_index (set_cycle_state (not ours) (current r));
  current_index = (r.current_index + 1) % num_trb;
}

pub advance_lem :
    (r : TrbRing) (ours : Bool)
    → cycle_state (current r) ≡ ours
    → advance_index r (not ours) ≡ (marked r ours, ok tt)
unfolding advance_index xor
advance_lem r ours e = rw (advance_index, e) (differ ours)
  where
    differ :
        (b : Bool)
        → ◌≡◌ {A = TrbRing × Result (Unit {0})}
            (if not (xor b (not b))
              then (r, err (failed "cycle state does not change"))
              else (marked r b, ok tt))
            (marked r b, ok tt)
    differ true = refl
    differ false = refl

-- What holds of the new entry at its place and of the old ones elsewhere holds after `set`.
pub set-pointwise :
    (P : ℕ → GenericTrbEntry → Type 0) (xs : List GenericTrbEntry) (k : ℕ) (v : GenericTrbEntry)
    → k < length xs
    → P k v
    → (i : ℕ) → (i ≢ k → P i (get_or xs i default_trb))
    → P i (get_or (set xs k v) i default_trb)
set-pointwise P xs k v h new i old = elim (ℕ_discrete i k) [
  | yes e ↦
      subst (λ j. P j (get_or (set xs k v) j default_trb)) (sym e)
        (subst (P k) (sym (get_or-set_self xs k v default_trb h)) new)
  | no n ↦ subst (P i) (sym (get_or-set_ne xs k i v default_trb (λ e. n (sym e)))) (old n)
]

-- The cycle bits, for a current index.
Cycle : CommandRing → ℕ → ℕ → GenericTrbEntry → Type 0
Cycle c index i t =
    cycle_state t ≡ (if ltb i index then not c.cycle_state_ours else c.cycle_state_ours)

abbrev pub Linked : ℕ → GenericTrbEntry → Type 0
Linked i t = (trb_type t == link) ≡ (i == 15)

-- A ring in order after the current entry is overwritten by one of our own that is no link.
pub write-InOrder :
    (c : CommandRing) (t : GenericTrbEntry)
    → InOrder c
    → cycle_state t ≡ c.cycle_state_ours
    → (trb_type t == link) ≡ false
    → InOrder (record c { ring = record c.ring { trb = set c.ring.trb c.ring.current_index t } })
unfolding Cycle
write-InOrder c t o e n = record {
  size = length-set c.ring.trb k t ∙ o.size;
  index = o.index;
  links = λ i h.
      set-pointwise Linked c.ring.trb k t (omega (arith, o.index, o.size))
        (n ∙ sym (==_ne k 15 (omega (arith, o.index)))) i (λ _. o.links i h);
  cycles = λ i h.
      set-pointwise (Cycle c k) c.ring.trb k t (omega (arith, o.index, o.size))
        (e
          ∙ sym (
              ap (λ b. if b then not c.cycle_state_ours else c.cycle_state_ours)
                (le→ltb k k (omega arith))))
        i (λ _. o.cycles i h);
}
  where
    k : ℕ
    k = c.ring.current_index

-- Where the next entry is not the link, and where it is.
module _ (c : CommandRing) (o : InOrder c) where
  pub current_ours : cycle_state (current c.ring) ≡ c.cycle_state_ours
  current_ours =
      o.cycles c.ring.current_index (omega (arith, o.index))
      ∙ ap (λ b. if b then not c.cycle_state_ours else c.cycle_state_ours)
          (le→ltb c.ring.current_index c.ring.current_index (omega arith))

  marked_cycles :
      (i : ℕ)
      → i < 16
      → Cycle c (c.ring.current_index + 1) i (trb_at (marked c.ring c.cycle_state_ours) i)
  unfolding Cycle
  marked_cycles i h =
      set-pointwise (Cycle c (k + 1)) c.ring.trb k
        (set_cycle_state (not c.cycle_state_ours) (current c.ring)) (omega (arith, o.index, o.size))
        (cycle_state-set_cycle_state (not c.cycle_state_ours) (current c.ring)
          ∙ sym (
              ap (λ b. if b then not c.cycle_state_ours else c.cycle_state_ours)
                (lt→ltb k (k + 1) (omega arith))))
        i
        (λ n.
          o.cycles i h
          ∙ ap (λ b. if b then not c.cycle_state_ours else c.cycle_state_ours)
              (let e : i ≢ k → ltb i k ≡ ltb i (k + 1) = λ m. ground arith in e n))
    where
      k : ℕ
      k = c.ring.current_index

  marked_links : (i : ℕ) → i < 16 → Linked i (trb_at (marked c.ring c.cycle_state_ours) i)
  marked_links i h =
      set-pointwise Linked c.ring.trb k (set_cycle_state (not c.cycle_state_ours) (current c.ring))
        (omega (arith, o.index, o.size))
        (ap (λ y. y == link) (trb_type-set_cycle_state (not c.cycle_state_ours) (current c.ring))
          ∙ o.links k (omega (arith, o.index)))
        i (λ n. o.links i h)
    where
      k : ℕ
      k = c.ring.current_index

  -- The ring after its current entry is handed over, where the next is not the link.
  pub plain :
      c.ring.current_index < 14
      → (advance_past_link c ≡ (record c { ring = marked c.ring c.cycle_state_ours }, ok tt))
        × InOrder (record c { ring = marked c.ring c.cycle_state_ours })
  unfolding advance_past_link Cycle
  plain small = (
    ap (skip_link c) (advance_lem c.ring c.cycle_state_ours current_ours) ∙ rw (no_link) refl,
    record {
      size = length-set c.ring.trb c.ring.current_index _ ∙ o.size;
      index = omega arith;
      links = marked_links;
      cycles = λ i h.
          subst (λ j. Cycle c j i (trb_at (marked c.ring c.cycle_state_ours) i)) (sym next)
            (marked_cycles i h);
    },
  )
    where
      next : (c.ring.current_index + 1) % num_trb ≡ c.ring.current_index + 1
      next = omega arith

      no_link : (trb_type (current (marked c.ring c.cycle_state_ours)) == link) ≡ false
      no_link =
          marked_links ((c.ring.current_index + 1) % num_trb) (omega arith)
          ∙ ==_ne ((c.ring.current_index + 1) % num_trb) 15 (omega arith)

  -- Where it is the link, that is handed over too, and the cycle is toggled.
  unfoldable pub toggled : CommandRing
  toggled = record {
    ring = marked (marked c.ring c.cycle_state_ours) c.cycle_state_ours;
    cycle_state_ours = not c.cycle_state_ours;
  }

  pub past_link :
      c.ring.current_index ≡ 14 → (advance_past_link c ≡ (toggled, ok tt)) × InOrder toggled
  unfolding advance_past_link toggled Cycle
  past_link e = (
    ap (skip_link c) (advance_lem c.ring c.cycle_state_ours current_ours)
        ∙ rw (is_link) (ap (toggle c) (advance_lem r c.cycle_state_ours ours)),
    record {
      size =
          length-set r.trb r.current_index _
          ∙ length-set c.ring.trb c.ring.current_index _
          ∙ o.size;
      index = omega arith;
      links = λ i h.
          set-pointwise Linked r.trb r.current_index
            (set_cycle_state (not c.cycle_state_ours) (current r)) inside
            (ap (λ y. y == link) (trb_type-set_cycle_state (not c.cycle_state_ours) (current r))
              ∙ marked_links r.current_index (omega arith))
            i (λ n. marked_links i h);
      cycles = λ i h.
          set-pointwise (λ j t. cycle_state t ≡ not c.cycle_state_ours) r.trb r.current_index
            (set_cycle_state (not c.cycle_state_ours) (current r)) inside
            (cycle_state-set_cycle_state (not c.cycle_state_ours) (current r)) i
            (λ n. marked_cycles i h ∙ pick (lt→ltb i (c.ring.current_index + 1) (omega (arith, n))))
          ∙ sym (pick' (le→ltb i ((r.current_index + 1) % num_trb) (omega arith)));
    },
  )
    where
      r : TrbRing
      r = marked c.ring c.cycle_state_ours

      at_link : r.current_index ≡ 15
      at_link = omega arith

      inside : r.current_index < length r.trb
      inside = omega (
        arith,
        length-set c.ring.trb c.ring.current_index
            (set_cycle_state (not c.cycle_state_ours) (current c.ring)),
        o.size,
      )

      is_link : (trb_type (current r) == link) ≡ true
      is_link = marked_links r.current_index (omega arith) ∙ (==_iff r.current_index 15).1 at_link

      pick :
          {b : Bool}
          → b ≡ true
          → (if b then not c.cycle_state_ours else c.cycle_state_ours) ≡ not c.cycle_state_ours
      pick e = ap (λ b. if b then not c.cycle_state_ours else c.cycle_state_ours) e

      pick' :
          {b : Bool}
          → b ≡ false
          → (if b then not (not c.cycle_state_ours) else not c.cycle_state_ours)
            ≡ not c.cycle_state_ours
      pick' e = ap (λ b. if b then not (not c.cycle_state_ours) else not c.cycle_state_ours) e

      ours : cycle_state (current r) ≡ c.cycle_state_ours
      ours =
          marked_cycles r.current_index (omega arith)
          ∙ ap (λ b. if b then not c.cycle_state_ours else c.cycle_state_ours)
              (le→ltb r.current_index (c.ring.current_index + 1) (omega arith))

-- The current entry has been handed over, and the entries between the others and the link are kept.
pub record Handed (c c' : CommandRing) : Type 0 where
  pub entry :
      trb_at c'.ring c.ring.current_index
      ≡ set_cycle_state (not c.cycle_state_ours) (current c.ring)
  pub others : (i : ℕ) → i < 15 → i ≢ c.ring.current_index → trb_at c'.ring i ≡ trb_at c.ring i
  pub place : c'.ring.phys_addr ≡ c.ring.phys_addr
  pub next : c'.ring.current_index ≡ (c.ring.current_index + 1) % 15

module _ (c : CommandRing) (o : InOrder c) where
  marked-entry :
      trb_at (marked c.ring c.cycle_state_ours) c.ring.current_index
      ≡ set_cycle_state (not c.cycle_state_ours) (current c.ring)
  marked-entry =
      get_or-set_self c.ring.trb c.ring.current_index _ default_trb (omega (arith, o.index, o.size))

  marked_other :
      (i : ℕ)
      → i ≢ c.ring.current_index
      → trb_at (marked c.ring c.cycle_state_ours) i ≡ trb_at c.ring i
  marked_other i n = get_or-set_ne c.ring.trb c.ring.current_index i _ default_trb (λ e. n (sym e))

  plain-Handed :
      c.ring.current_index < 14 → Handed c (record c { ring = marked c.ring c.cycle_state_ours })
  plain-Handed small = record {
    entry = marked-entry;
    others = λ i h n. marked_other i n;
    place = refl;
    next = omega arith;
  }

  -- Handing the link over leaves the entries before it as they were.
  before_link :
      c.ring.current_index ≡ 14
      → (i : ℕ) → i < 15
      → trb_at (toggled c o).ring i ≡ trb_at (marked c.ring c.cycle_state_ours) i
  unfolding toggled
  before_link e i h =
      get_or-set_ne (marked c.ring c.cycle_state_ours).trb
        (marked c.ring c.cycle_state_ours).current_index i _ default_trb (λ f. absurd (omega arith))

  past_link-Handed : c.ring.current_index ≡ 14 → Handed c (toggled c o)
  unfolding toggled
  past_link-Handed e = record {
    entry = before_link e c.ring.current_index (omega arith) ∙ marked-entry;
    others = λ i h n. before_link e i h ∙ marked_other i n;
    place = refl;
    next = omega arith;
  }

-- Advancing a ring in order never fails, hands over its current entry, and leaves a ring in order.
pub advance_past_link_lem :
    (c : CommandRing)
    → InOrder c
    → (c' : CommandRing) × (advance_past_link c ≡ (c', ok tt)) × InOrder c' × Handed c c'
advance_past_link_lem c o = elim (dec_lt c.ring.current_index 14) [
  | yes p ↦ (_, (plain c o p).0, (plain c o p).1, plain-Handed c o p)
  | no p ↦
      let e : c.ring.current_index ≡ 14 = omega (arith, o.index) in
      (_, (past_link c o e).0, (past_link c o e).1, past_link-Handed c o e)
]

-- A new ring is in order.
pub new_command_ring-InOrder : (phys_addr : ℕ) → InOrder (new_command_ring phys_addr)
unfolding Cycle trb_type cycle_state
new_command_ring-InOrder phys_addr = record {
  size = refl;
  index = omega arith;
  links = λ i h.
      set-pointwise Linked (replicate num_trb default_trb) 15 (trb_link phys_addr) (omega arith)
        refl i (λ n. ap (λ t. trb_type t == link) (default_at i) ∙ sym (==_ne i 15 n));
  cycles = λ i h.
      set-pointwise (Cycle (new_command_ring phys_addr) 0) (replicate num_trb default_trb) 15
        (trb_link phys_addr) (omega arith) refl i
        (λ n.
          ap cycle_state (default_at i)
          ∙ sym (ap (λ b. if b then true else false) (le→ltb i 0 (omega arith))));
}
  where
    default_at : (i : ℕ) → get_or (replicate num_trb default_trb) i default_trb ≡ default_trb
    default_at i = get_or-replicate num_trb default_trb i
