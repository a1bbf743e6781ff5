-- ===== src/Net/Manager/Ports.antt =====
-- `pick_unused_dynamic_tcp_port`: it finds an unused port whenever there is one.
use wasabi.Base.{ℕ, zero, suc, ◌+◌, ◌-◌, ◌≤◌, ◌<◌, ◌≡◌, refl, arith, List}
use native.Mathlib.Decide.{dec_lt}
use wasabi.Base.{
  subst, true, false, not, ◌⊎◌, inl, inr, Bool-cases, if◌then◌else◌, Result, ok, err, failed,
}
use wasabi.Net.Tcp.Socket.{TcpSocket}
use wasabi.Net.Manager.{Network, contains_key, in_range, scan, pick_unused_dynamic_tcp_port}

-- Where a scan stops: at a port that is unused or past the range, with every port before it used.
scan_lem :
    {V : Type 0} (table : List (ℕ × V)) (fuel port : ℕ)
    → fuel + port ≡ 65535
    → 49152 ≤ port
    → (port ≤ scan table fuel port)
      × (scan table fuel port ≤ 65535)
      × (scan table fuel port < 65535 → contains_key table (scan table fuel port) ≡ false)
      × ((k : ℕ) → port ≤ k → k < scan table fuel port → contains_key table k ≡ true)
unfolding scan
scan_lem table zero port e low =
    (omega arith, omega arith, λ h. absurd (omega arith), λ k a b. absurd (omega arith))
scan_lem table (suc fuel) port e low = elim (Bool-cases (contains_key table port)) [
  | inr n ↦ rw (within, n, scan) (omega arith, omega arith, λ h. n, λ k a b. absurd (omega arith))
  | inl y ↦
      let (a, b, free, used) = scan_lem table fuel (port + 1) (omega arith) (omega arith) in
      rw (within, y, scan) (omega (arith, a), b, free, λ k p q. before y used k p q)
]
  where
    within : in_range port ≡ true
    within = ground arith

    before :
        contains_key table port ≡ true
        → ((k : ℕ) → port + 1 ≤ k → k < scan table fuel (port + 1) → contains_key table k ≡ true)
        → (k : ℕ) → port ≤ k
        → k < scan table fuel (port + 1)
        → contains_key table k ≡ true
    before y used k p q = elim (dec_lt port k) [
      | yes r ↦ used k (omega arith) q
      | no r ↦ subst (λ j. contains_key table j ≡ true) (let e : port ≡ k = omega arith in e) y
    ]

-- The port that is picked is between 49152 and 65534, and no socket of the table has it; there is
-- an error only when every one of these ports is in use. The call never panics.
pub pick_unused_dynamic_tcp_port_lem :
    (n : Network)
    → ((port : ℕ) × (pick_unused_dynamic_tcp_port n ≡ ok port)
        × (49152 ≤ port)
        × (port < 65535)
        × (contains_key n.tcp_socket_table port ≡ false))
      ⊎ ((pick_unused_dynamic_tcp_port n ≡ err (failed "No more available TCP port"))
          × ((port : ℕ)
              → 49152 ≤ port
              → port < 65535
              → contains_key n.tcp_socket_table port ≡ true))
unfolding pick_unused_dynamic_tcp_port
pick_unused_dynamic_tcp_port_lem n =
    chosen (scan table (65535 - from) from) (scan table (65535 - 49152) 49152)
      (scan_lem table (65535 - from) from (omega (arith, from_bounds)) (omega (arith, from_bounds)))
      (scan_lem table (65535 - 49152) 49152 refl (omega arith))
  where
    table : List (ℕ × TcpSocket)
    table = n.tcp_socket_table

    from : ℕ
    from = if not (in_range n.tcp_dynamic_port_hint) then 49152 else n.tcp_dynamic_port_hint

    from_bounds : (49152 ≤ from) × (from ≤ 65535)
    from_bounds = ground arith

    Stops : ℕ → ℕ → Type 0
    Stops first port =
        (first ≤ port)
        × (port ≤ 65535)
        × (port < 65535 → contains_key table port ≡ false)
        × ((k : ℕ) → first ≤ k → k < port → contains_key table k ≡ true)

    result : ℕ → ℕ → Result ℕ
    result port again =
        if in_range port
        then ok port
        else if in_range again
        then ok again
        else err (failed "No more available TCP port")

    chosen :
        (port again : ℕ)
        → Stops from port
        → Stops 49152 again
        → ((p : ℕ) × (result port again ≡ ok p)
            × (49152 ≤ p)
            × (p < 65535)
            × (contains_key table p ≡ false))
          ⊎ ((result port again ≡ err (failed "No more available TCP port"))
              × ((k : ℕ) → 49152 ≤ k → k < 65535 → contains_key table k ≡ true))
    chosen port again (a, b, c, d) (a', b', c', d') = elim (dec_lt port 65535) [
      | yes p ↦ inl (
        port,
        rw (let e : in_range port ≡ true = ground (arith, a, from_bounds, p) in e) refl,
        omega (arith, a, from_bounds),
        p,
        c p,
      )
      | no p ↦ elim (dec_lt again 65535) [
        | yes q ↦ inl (
          again,
          rw
              (
                let e : in_range port ≡ false = ground arith in e,
                let e : in_range again ≡ true = ground arith in e,
              )
              refl,
          a',
          q,
          c' q,
        )
        | no q ↦ inr (
          rw
              (
                let e : in_range port ≡ false = ground arith in e,
                let e : in_range again ≡ false = ground arith in e,
              )
              refl,
          λ k x y. d' k x (omega arith),
        )
      ]
    ]
