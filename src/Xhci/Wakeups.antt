-- ===== src/Xhci/Wakeups.antt =====
-- Which events reach the futures of os/src/xhci/future.rs that wait for them.
use wasabi.Base.{
  ℕ, zero, suc, ◌+◌, ◌<◌, ◌≡◌, refl, ap, sym, ◌∙◌, arith, List, [], ◌∷◌, ◌++◌, map, append-nil,
  false, ◌==◌, if◌then◌else◌, Bool-cases, inl, inr, ==_ne, ==_iff,
}
use mathlib.Core.List.{map-append}
use wasabi.Xhci.{GenericTrbEntry}
use wasabi.Xhci.Waiters.{
  EventWaitCond, EventWaitInfo, matches, update, offer, deliver, stale_waiter_indices, remove_at,
  remove_all,
}

-- How often a waiter stands in a list
abbrev pub count : ℕ → List ℕ → ℕ
count w [] = 0
count w (v ∷ vs) = let rest = count w vs in if w == v then suc rest else rest

pub count-append : (w : ℕ) (vs us : List ℕ) → count w (vs ++ us) ≡ count w vs + count w us
count-append w [] us = omega arith
count-append w (v ∷ vs) us = ground (arith, count-append w vs us)

-- The waiters that still have an owner
abbrev pub live : (ℕ → EventWaitInfo) → List ℕ → List ℕ
live infos [] = []
live infos (w ∷ ws) =
    let rest = live infos ws in if (infos w).strong_count == 0 then rest else w ∷ rest

stale-suc :
    (infos : ℕ → EventWaitInfo) (ws : List ℕ) (i : ℕ)
    → stale_waiter_indices infos (suc i) ws ≡ map suc (stale_waiter_indices infos i ws)
unfolding stale_waiter_indices
stale-suc infos [] i = refl
stale-suc infos (w ∷ ws) i = elim (Bool-cases ((infos w).strong_count == 0)) [
  | inl s ↦
      rw (s, map-append suc (stale_waiter_indices infos (suc i) ws) (i ∷ []))
        (ap (λ xs. xs ++ (suc i ∷ [])) (stale-suc infos ws (suc i)))
  | inr s ↦
      rw
        (
          s,
          append-nil (stale_waiter_indices infos (suc (suc i)) ws),
          append-nil (stale_waiter_indices infos (suc i) ws),
        )
        (stale-suc infos ws (suc i))
]

remove_all-suc : (w : ℕ) (ws ks : List ℕ) → remove_all (w ∷ ws) (map suc ks) ≡ w ∷ remove_all ws ks
unfolding remove_all
remove_all-suc w ws [] = refl
remove_all-suc w ws (k ∷ ks) = remove_all-suc w (remove_at ws k) ks

remove_all-append :
    (ws ks js : List ℕ) → remove_all ws (ks ++ js) ≡ remove_all (remove_all ws ks) js
unfolding remove_all
remove_all-append ws [] js = refl
remove_all-append ws (k ∷ ks) js = remove_all-append (remove_at ws k) ks js

-- Removing the stale indices from the back leaves the waiters that have an owner, in order.
pub remove_all-stale :
    (infos : ℕ → EventWaitInfo) (ws : List ℕ)
    → remove_all ws (stale_waiter_indices infos 0 ws) ≡ live infos ws
unfolding remove_all stale_waiter_indices
remove_all-stale infos [] = refl
remove_all-stale infos (w ∷ ws) =
    let others : remove_all (w ∷ ws) (stale_waiter_indices infos 1 ws) ≡ w ∷ live infos ws =
      ap (remove_all (w ∷ ws)) (stale-suc infos ws 0)
      ∙ remove_all-suc w ws (stale_waiter_indices infos 0 ws)
      ∙ ap (λ r. w ∷ r) (remove_all-stale infos ws) in
    elim (Bool-cases ((infos w).strong_count == 0)) [
      | inl s ↦ rw s (
          remove_all-append (w ∷ ws) (stale_waiter_indices infos 1 ws) (0 ∷ [])
          ∙ ap (λ r. remove_all r (0 ∷ [])) others)
      | inr s ↦
          rw s (ap (remove_all (w ∷ ws)) (append-nil (stale_waiter_indices infos 1 ws)) ∙ others)
    ]

pub count-live :
    (infos : ℕ → EventWaitInfo) (w : ℕ) (ws : List ℕ)
    → 0 < (infos w).strong_count
    → count w (live infos ws) ≡ count w ws
count-live infos w [] h = refl
count-live infos w (v ∷ vs) h = elim (Bool-cases ((infos v).strong_count == 0)) [
  | inl s ↦
      let other : (w == v) ≡ false = ==_ne w v (λ e. absurd (
        omega
          (arith, ap (λ u. (infos u).strong_count) e, (==_iff (infos v).strong_count 0).0 s))) in
      rw (s, other) (count-live infos w vs h)
  | inr s ↦ rw s (ap (λ n. if w == v then suc n else n) (count-live infos w vs h))
]

abbrev pub iterate : {A : Type 0} → ℕ → (A → A) → A → A
iterate zero f a = a
iterate (suc n) f a = iterate n f (f a)

-- Every waiter is offered the event as often as it stands in the list.
pub deliver-at :
    (t : GenericTrbEntry) (infos : ℕ → EventWaitInfo) (ws : List ℕ) (w : ℕ)
    → deliver t infos ws w ≡ iterate (count w ws) (offer t) (infos w)
unfolding deliver
deliver-at t infos [] w = refl
deliver-at t infos (v ∷ vs) w =
    deliver-at t (update infos v (offer t (infos v))) vs w ∙ elim (Bool-cases (w == v)) [
      | inl s ↦
          rw s
            (ap (λ u. iterate (count w vs) (offer t) (offer t (infos u))) (sym ((==_iff w v).0 s)))
      | inr s ↦ rw s refl
    ]

-- The events that match a condition, in order
abbrev pub matching : EventWaitCond → List GenericTrbEntry → List GenericTrbEntry
matching cond [] = []
matching cond (t ∷ ts) = let rest = matching cond ts in if matches cond t then t ∷ rest else rest

pub matching-append :
    (cond : EventWaitCond) (ts us : List GenericTrbEntry)
    → matching cond (ts ++ us) ≡ matching cond ts ++ matching cond us
matching-append cond [] us = refl
matching-append cond (t ∷ ts) us = elim (Bool-cases (matches cond t)) [
  | inl m ↦ rw m (ap (λ r. t ∷ r) (matching-append cond ts us))
  | inr m ↦ rw m (matching-append cond ts us)
]

pub offer_lem :
    (t : GenericTrbEntry) (w : EventWaitInfo)
    → 0 < w.strong_count
    → offer t w ≡ record w { trbs = w.trbs ++ matching w.cond (t ∷ []) }
offer_lem t w h =
    let owned : (w.strong_count == 0) ≡ false = ground arith in
    elim (Bool-cases (matches w.cond t)) [
      | inl m ↦ rw (owned, m) refl
      | inr m ↦ rw (owned, m) (ap (λ ts. record w { trbs = ts }) (sym (append-nil w.trbs)))
    ]
