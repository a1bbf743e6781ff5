-- ===== src/Xhci/Transfer.antt =====
-- The transfer ring: once filled, it stays filled, and never runs into its own tail.
use wasabi.Base.{
  ℕ, zero, suc, ◌+◌, ◌-◌, ◌%◌, ◌^◌, ◌≤◌, ◌<◌, ◌≡◌, ◌≢◌, refl, ap, sym, ◌∙◌, arith, List, [], ◌∷◌,
  some, set, length, length-set, true, false, ◌==◌, ◌/=◌, if◌then◌else◌, ok, err, failed, ==_ne,
  lt→ltb, le→ltb,
}
use native.Mathlib.Decide.{dec_lt}
use wasabi.Xhci.{
  GenericTrbEntry, TrbRing, CommandRing, TransferRingInner, num_trb, trb_at, trb_ptr, cycle_state,
  trb_type, advance_past_link, fill_ring, fill_on, dequeue_trb, write, write_buffers,
  new_transfer_ring, from_ring, new_command_ring, normal_trb,
}
use wasabi.Xhci.Command.{
  InOrder, Linked, marked, advance_lem, current_ours, plain, past_link, toggled, set-pointwise,
  new_command_ring-InOrder,
}

-- Where a ring in order stands after it has advanced.
advance_past_link_next :
    (c : CommandRing)
    → InOrder c
    → (c' : CommandRing) × (advance_past_link c ≡ (c', ok tt))
      × InOrder c'
      × (c'.ring.current_index ≡ (c.ring.current_index + 1) % 15)
      × (c'.ring.phys_addr ≡ c.ring.phys_addr)
unfolding toggled
advance_past_link_next c o = elim (dec_lt c.ring.current_index 14) [
  | yes p ↦ (_, (plain c o p).0, (plain c o p).1, omega arith, refl)
  | no p ↦
      let e : c.ring.current_index ≡ 14 = omega (arith, o.index) in
      (_, (past_link c o e).0, (past_link c o e).1, omega arith, refl)
]

-- The ring is in order, eleven of its fifteen entries are the controller's, from the one that is
-- dequeued next on, and the others are the driver's.
pub record IsFilled (t : TransferRingInner) : Type 0 where
  pub order : InOrder t.shared
  pub dequeue : t.dequeue_index < 15
  pub ahead : t.shared.ring.current_index ≡ (t.dequeue_index + 11) % 15

-- Filling, from any index below 11.
fill_ring_from :
    (fuel : ℕ) (t : TransferRingInner)
    → InOrder t.shared
    → t.shared.ring.current_index ≤ 11
    → 11 < t.shared.ring.current_index + fuel
    → (t' : TransferRingInner) × (fill_ring fuel t ≡ (t', some (ok tt)))
      × InOrder t'.shared
      × (t'.shared.ring.current_index ≡ 11)
      × (t'.dequeue_index ≡ t.dequeue_index)
      × (t'.shared.ring.phys_addr ≡ t.shared.ring.phys_addr)
unfolding fill_ring
fill_ring_from zero t o low enough = absurd (omega arith)
fill_ring_from (suc fuel) t o low enough = elim (dec_lt t.shared.ring.current_index 11) [
  | yes p ↦
      let (t', runs, o', at, d, a) =
        fill_ring_from fuel
          (record t {
            shared = record t.shared { ring = marked t.shared.ring t.shared.cycle_state_ours };
          })
          (plain t.shared o (omega arith)).1 (omega arith) (omega arith) in
      (
        t',
        rw (==_ne ((t.shared.ring.current_index + 1) % (num_trb - 1)) (num_trb - 4) (omega arith)) (
            ap (fill_on (fill_ring fuel) t)
              (advance_lem t.shared.ring t.shared.cycle_state_ours (current_ours t.shared o))
            ∙ runs),
        o',
        at,
        d,
        a,
      )
  | no p ↦
      (t, rw (==_at t.shared.ring.current_index (omega arith)) refl, o, omega arith, refl, refl)
]
  where
    ==_at : (i : ℕ) → i ≡ 11 → ((i + 1) % (num_trb - 1) == num_trb - 4) ≡ true
    ==_at i e = ground arith

-- The entries before `i` are overwritten by ones that are not links and not handed over.
IsFresh : TrbRing → Type 0
IsFresh r =
    (length r.trb ≡ num_trb)
    × (r.current_index ≡ 0)
    × ((i : ℕ) → i < 16 → Linked i (trb_at r i) × (cycle_state (trb_at r i) ≡ false))

write-IsFresh :
    (r : TrbRing) (k : ℕ) (t : GenericTrbEntry)
    → IsFresh r
    → k < 16
    → Linked k t
    → cycle_state t ≡ false
    → (r' : TrbRing) × (write r k t ≡ (r', ok tt)) × IsFresh r'
unfolding write IsFresh
write-IsFresh r k t (size, zero_index, entries) small linked cycle = (
  record r { trb = set r.trb k t },
  rw (lt→ltb k num_trb small) refl,
  (
    length-set r.trb k t ∙ size,
    zero_index,
    λ i h.
        set-pointwise (λ j e. Linked j e × (cycle_state e ≡ false)) r.trb k t (omega (arith, size))
          (linked, cycle) i (λ n. entries i h),
  ),
)

write_buffers-IsFresh :
    (size i : ℕ) (buffers : List ℕ) (r : TrbRing)
    → IsFresh r
    → i + length buffers ≤ 15
    → (r' : TrbRing) × (write_buffers size i buffers r ≡ (r', ok tt)) × IsFresh r'
unfolding write_buffers normal_trb cycle_state trb_type
write_buffers-IsFresh size i [] r f h = (r, refl, f)
write_buffers-IsFresh size i (v ∷ vs) r f h =
    let (r1, runs1, f1) =
      write-IsFresh r i (normal_trb v size) f (omega arith) (sym (==_ne i 15 (omega arith))) refl in
    let (r2, runs2, f2) = write_buffers-IsFresh size (i + 1) vs r1 f1 (omega arith) in
    (r2, rw runs1 runs2, f2)

fresh-InOrder : (r : TrbRing) → IsFresh r → InOrder (record { ring = r; cycle_state_ours = false })
unfolding IsFresh
fresh-InOrder r (size, at, entries) = record {
  size = size;
  index = omega arith;
  links = λ i h. (entries i h).0;
  cycles = λ i h.
      (entries i h).1
      ∙ sym (ap (λ b. if b then true else false) (le→ltb i r.current_index (omega arith)));
}

linked-IsFresh : (phys_addr : ℕ) → IsFresh (new_command_ring phys_addr).ring
unfolding IsFresh
linked-IsFresh phys_addr =
    let o = new_command_ring-InOrder phys_addr in
    (
      o.size,
      refl,
      λ i h. (
        o.links i h,
        o.cycles i h ∙ ap (λ b. if b then true else false) (le→ltb i 0 (omega arith)),
      ),
    )

-- A new transfer ring over fifteen buffers is made without an error, and filling it ends with
-- success, in at most twelve rounds, with eleven entries handed over.
pub fill_ring-new :
    (phys_addr size : ℕ) (buffers : List ℕ)
    → length buffers ≡ 15
    → (t t' : TransferRingInner) × (new_transfer_ring phys_addr size buffers ≡ ok t)
      × (fill_ring 12 t ≡ (t', some (ok tt)))
      × IsFilled t'
unfolding new_transfer_ring write IsFresh
fill_ring-new phys_addr size buffers full =
    let (r, runs, fresh) =
      write_buffers-IsFresh (size % 2 ^ 16) 0 buffers (new_command_ring phys_addr).ring
        (linked-IsFresh phys_addr) (omega arith) in
    let t : TransferRingInner = record {
      shared = record { ring = r; cycle_state_ours = false };
      dequeue_index = 0;
    } in
    let (t', fills, o, at, d, a) =
      fill_ring_from 12 t (fresh-InOrder r fresh) (fresh_low r fresh) (omega arith) in
    (
      t,
      t',
      ap from_ring runs,
      fills,
      record { order = o; dequeue = omega (arith, d); ahead = omega (arith, at, d) },
    )
  where
    fresh_low : (r : TrbRing) → IsFresh r → r.current_index ≤ 11
    fresh_low r f = omega (arith, f.1)

-- On a filled ring, `dequeue_trb` of the address of the next entry succeeds, moves to the entry
-- after it and leaves the ring filled; any other address is refused, and nothing changes.
pub dequeue_trb_lem :
    (t : TransferRingInner)
    → IsFilled t
    → ((t' : TransferRingInner) × (dequeue_trb t (trb_ptr t.shared.ring t.dequeue_index)
          ≡ (t', ok tt))
        × IsFilled t'
        × (t'.dequeue_index ≡ (t.dequeue_index + 1) % 15)
        × (t'.shared.ring.phys_addr ≡ t.shared.ring.phys_addr))
      × ((ptr : ℕ)
          → ptr ≢ trb_ptr t.shared.ring t.dequeue_index
          → dequeue_trb t ptr ≡ (t, err (failed "unexpected trb ptr")))
unfolding dequeue_trb
dequeue_trb_lem t f =
    let (c, runs, o, at, a) = advance_past_link_next t.shared f.order in
    let next : ℕ = if t.dequeue_index + 1 == num_trb - 1 then 0 else t.dequeue_index + 1 in
    let step : next ≡ (t.dequeue_index + 1) % 15 = ground (arith, f.dequeue) in
    (
      (
        record { shared = c; dequeue_index = next },
        rw (/=_self (trb_ptr t.shared.ring t.dequeue_index), runs) refl,
        record {
          order = o;
          dequeue = omega (arith, step);
          ahead = omega (arith, at, step, f.ahead);
        },
        step,
        a,
      ),
      λ ptr other.
          rw (/=_other (trb_ptr t.shared.ring t.dequeue_index) ptr (λ e. other (sym e))) refl,
    )
  where
    /=_self : (a : ℕ) → (a /= a) ≡ false
    /=_self a = ground arith

    /=_other : (a b : ℕ) → a ≢ b → (a /= b) ≡ true
    /=_other a b h = ground arith
