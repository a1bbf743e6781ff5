-- ===== src/Xhci/Push.antt =====
-- Pushes to a command ring: on a ring in order, a push never fails and keeps it so.
use wasabi.Base.{
  ℕ, ◌+◌, ◌*◌, ◌/◌, ◌%◌, ◌≢◌, sym, not, if◌then◌else◌, length, get_or-set_self, get_or-set_ne, ◌<◌,
  ◌≡◌, refl, ap, ◌∙◌, arith,
}
use wasabi.Base.{Bool, true, false, ◌==◌, ok, set, lt→ltb}
use wasabi.Xhci.{
  GenericTrbEntry, cycle_state, set_cycle_state, trb_type, link, TrbRing, num_trb, current,
  current_ptr, trb_at, default_trb,
}
use wasabi.Xhci.{CommandRing, push, write, push_written, pushed_at}
use mathlib.Core.Bool.{xor}
use wasabi.Xhci.Command.{
  InOrder, cycle_state-set_cycle_state, trb_type-set_cycle_state, write-InOrder, current_ours,
  advance_past_link_lem,
}

xor_self : (b : Bool) → xor b b ≡ false
unfolding xor
xor_self true = refl
xor_self false = refl

write_lem :
    (r : TrbRing) (t : GenericTrbEntry)
    → r.current_index < 16
    → write r r.current_index t ≡ (record r { trb = set r.trb r.current_index t }, ok tt)
unfolding write
write_lem r t h = rw (lt→ltb r.current_index num_trb h) refl

-- An entry as it was pushed, with the cycle bit that hands it over
abbrev pub pushed : GenericTrbEntry → Bool → GenericTrbEntry
pushed src cycle = record {
  content = src.content;
  option = src.option;
  control = src.control / 2 * 2 + (if cycle then 1 else 0);
}

handed_over :
    (a b : Bool) (src : GenericTrbEntry) → set_cycle_state a (set_cycle_state b src) ≡ pushed src a
unfolding set_cycle_state
handed_over a b src = ap (λ q. record src { control = q * 2 + (if a then 1 else 0) }) half
  where
    half : (src.control / 2 * 2 + (if b then 1 else 0)) / 2 ≡ src.control / 2
    half = ground arith

-- Pushing an entry that is not a link to a ring in order never fails, not even when the controller has
-- consumed nothing: the entry stands in the ring at the index that was current, with the cycle bit
-- that hands it over, and its address is returned; the entries in front of the link and at other
-- indices are as they were, the index moves to the next one that is not the link, and the ring is in
-- order.
pub push_lem :
    (c : CommandRing) (src : GenericTrbEntry)
    → InOrder c
    → (trb_type src == link) ≡ false
    → (c' : CommandRing) × (push c src ≡ (c', ok (c.ring.phys_addr + 16 * c.ring.current_index)))
      × InOrder c'
      × (trb_at c'.ring c.ring.current_index ≡ pushed src (not c.cycle_state_ours))
      × ((i : ℕ) → i < 15 → i ≢ c.ring.current_index → trb_at c'.ring i ≡ trb_at c.ring i)
      × (c'.ring.current_index ≡ (c.ring.current_index + 1) % 15)
unfolding push
push_lem c src o n =
    let t = set_cycle_state c.cycle_state_ours src in
    let inside : c.ring.current_index < length c.ring.trb = omega (arith, o.index, o.size) in
    let (c', e, o', h) =
      advance_past_link_lem
        (record c { ring = record c.ring { trb = set c.ring.trb c.ring.current_index t } })
        (write-InOrder c t o (cycle_state-set_cycle_state c.cycle_state_ours src)
          (ap (λ y. y == link) (trb_type-set_cycle_state c.cycle_state_ours src) ∙ n)) in
    (
      c',
      rw (ours, push)
          (ap (push_written c (current_ptr c.ring)) (write_lem c.ring t (omega (arith, o.index)))
            ∙ ap (pushed_at (current_ptr c.ring)) e),
      o',
      h.entry
          ∙ ap (set_cycle_state (not c.cycle_state_ours))
              (get_or-set_self c.ring.trb c.ring.current_index t default_trb inside)
          ∙ handed_over (not c.cycle_state_ours) c.cycle_state_ours src,
      λ i small other.
          h.others i small other
          ∙ get_or-set_ne c.ring.trb c.ring.current_index i t default_trb (λ e. other (sym e)),
      h.next,
    )
  where
    ours : xor (cycle_state (current c.ring)) c.cycle_state_ours ≡ false
    ours = ap (λ b. xor b c.cycle_state_ours) (current_ours c o) ∙ xor_self c.cycle_state_ours
