-- ===== src/Process/Handles.antt =====
-- The handles of a process's sockets count up from 0.
use wasabi.Base.{
  ℕ, zero, suc, ◌+◌, ◌-◌, ◌<◌, ◌^◌, ◌≡◌, refl, ap, ◌∙◌, arith, List, [], ◌∷◌, true, some, ok, ◌==◌,
  ==_ne, if◌then◌else◌,
}
use wasabi.Base.Int.{pos, pos_part, max_ℤ, add64, wrap64_nonneg}
use wasabi.Process.{Sockets, tcp_socket, is_vacant, take_handle, create_tcp_socket}

max_zero : (n : ℕ) → pos_part (max_ℤ (pos 0) (pos n)) ≡ n
unfolding max_ℤ
max_zero n = ground arith

add_one : (n : ℕ) → n + 1 < 2 ^ 63 → add64 (pos n) (pos 1) ≡ pos (n + 1)
unfolding add64
add_one n h = wrap64_nonneg (n + 1) 0 (omega arith) (omega arith) ∙ ap pos (omega arith)

module _ {Socket : Type 0} where
  abbrev pub AllBelow : ℕ → List (ℕ × Socket) → Type 0
  AllBelow n [] = Unit
  AllBelow n ((h, sock) ∷ sockets) = (h < n) × AllBelow n sockets

  -- The next handle is above all that are taken.
  abbrev pub IsOrdered : ℕ → Sockets Socket → Type 0
  IsOrdered n s = (s.next_tcp_socket_handle ≡ pos n) × AllBelow n s.tcp_sockets

  AllBelow-vacant :
      (n : ℕ) (sockets : List (ℕ × Socket)) → AllBelow n sockets → is_vacant sockets n ≡ true
  AllBelow-vacant n [] h = refl
  AllBelow-vacant n ((i, sock) ∷ sockets) (b, h) =
      rw (==_ne i n (λ e. absurd (omega arith))) (AllBelow-vacant n sockets h)

  AllBelow-suc :
      (n : ℕ) (sockets : List (ℕ × Socket)) → AllBelow n sockets → AllBelow (n + 1) sockets
  AllBelow-suc n [] h = tt
  AllBelow-suc n ((i, sock) ∷ sockets) (b, h) = (omega arith, AllBelow-suc n sockets h)

  abbrev taken : ℕ → Socket → Sockets Socket → Sockets Socket
  taken n sock s = record {
    tcp_sockets = (n, sock) ∷ s.tcp_sockets;
    next_tcp_socket_handle = add64 s.next_tcp_socket_handle (pos 1);
  }

  take_handle_first :
      (rounds n : ℕ) (sock : Socket) (s : Sockets Socket)
      → 0 < rounds
      → is_vacant s.tcp_sockets n ≡ true
      → take_handle rounds n sock s ≡ ok (taken n sock s, n)
  unfolding take_handle
  take_handle_first zero n sock s h free = absurd (omega arith)
  take_handle_first (suc rounds) n sock s h free = rw free refl

  -- Where the next handle n is above all that are taken and below `2 ^ 63 - 1`, a socket that the
  -- network has opened gets the handle n, the sockets of the other handles are as before, and the
  -- next handle is n + 1, above all that are taken again.
  pub create_tcp_socket_lem :
      (n : ℕ) (sock : Socket) (s : Sockets Socket)
      → IsOrdered n s
      → n + 1 < 2 ^ 63
      → (s' : Sockets Socket) × (create_tcp_socket (ok sock) s ≡ ok (s', n))
        × ((h : ℕ)
            → tcp_socket s'.tcp_sockets h
              ≡ (if n == h then some sock else tcp_socket s.tcp_sockets h))
        × IsOrdered (n + 1) s'
  unfolding create_tcp_socket
  create_tcp_socket_lem n sock s (next, below) room =
      let first : pos_part (max_ℤ (pos 0) s.next_tcp_socket_handle) ≡ n =
        ap (λ z. pos_part (max_ℤ (pos 0) z)) next ∙ max_zero n in
      (
        taken n sock s,
        rw first (
            take_handle_first (2 ^ 63 - n) n sock s (omega (arith, room))
              (AllBelow-vacant n s.tcp_sockets below)),
        λ h. refl,
        (
          ap (λ z. add64 z (pos 1)) next ∙ add_one n room,
          (omega arith, AllBelow-suc n s.tcp_sockets below),
        ),
      )
