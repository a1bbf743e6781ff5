-- ===== src/Examples/ProcessTests.antt =====
-- Tests and instances for the scheduler. The registers are a number.
use wasabi.Base.{ℕ, ◌≡◌, refl, arith, [], ◌∷◌, false, true, some, ok, panic, ◌==◌, if◌then◌else◌}
use wasabi.Base.Int.{pos}
use wasabi.Process.{
  ProcessContext, Machine, Cell, ready, switch_process, exit_current_process, poll, Sockets,
  tcp_socket, create_tcp_socket,
}
use wasabi.Process.Rotation.{turns, switches, switches_lem}
use wasabi.Process.Lives.{IsSound, Absent, Reach, Step, switch_process-Reach, poll-exit}
use wasabi.Process.Handles.{IsOrdered, create_tcp_socket_lem}

abbrev alive : ℕ → Cell
alive c = record { exited = false; exit_code = pos 0 }

abbrev proc : ℕ → ℕ → ProcessContext ℕ
proc regs cell = record { context = regs; cell = cell }

-- Process 1 runs with registers 70; the others wait.
abbrev three : Machine ℕ
three = record { queue = proc 0 1 ∷ proc 20 2 ∷ proc 30 3 ∷ []; cells = alive; cpu = 70 }

switches_lem_example :
    (m' : Machine ℕ) × (switches 2 three ≡ ok m')
    × (turns m' ≡ (30, 3) ∷ (70, 1) ∷ (20, 2) ∷ [])
    × (m'.cells ≡ three.cells)
switches_lem_example =
    switches_lem three ((70, 1) ∷ (20, 2) ∷ []) ((30, 3) ∷ []) refl (refl, (refl, (refl, tt)))

abbrev after_exit : Machine ℕ
after_exit = record {
  queue = proc 20 2 ∷ proc 30 3 ∷ [];
  cells = λ i. if i == 1 then record { exited = true; exit_code = pos 7 } else alive i;
  cpu = 20;
}

exits : exit_current_process (pos 7) three ≡ ok after_exit
unfolding exit_current_process
exits = refl

sound : IsSound three
sound = ground arith

switch_process-Reach_example : (t : Machine ℕ) × (switch_process after_exit ≡ ok t)
switch_process-Reach_example =
    switch_process-Reach three after_exit sound
      (Reach.next Reach.here (Step.exit three after_exit (pos 7) exits))

poll-exit_example :
    (poll 1 (record after_exit { cpu = 21 }) ≡ ok (record after_exit { cpu = 21 }, ready (pos 7)))
    × Absent 1 (record after_exit { cpu = 21 }).queue
poll-exit_example =
    poll-exit three after_exit (record after_exit { cpu = 21 }) (proc 0 1)
      (proc 20 2 ∷ proc 30 3 ∷ []) (pos 7) sound refl exits
      (Reach.next Reach.here (Step.run after_exit 21))

-- The last process cannot exit.
last_exit : exit_current_process (pos 0) (record three { queue = proc 0 1 ∷ [] }) ≡ panic
unfolding exit_current_process
last_exit = refl

abbrev two_sockets : Sockets ℕ
two_sockets = record { tcp_sockets = (1, 81) ∷ (0, 80) ∷ []; next_tcp_socket_handle = pos 2 }

create_tcp_socket_lem_example :
    (s' : Sockets ℕ) × (create_tcp_socket (ok 82) two_sockets ≡ ok (s', 2))
    × ((h : ℕ)
        → tcp_socket s'.tcp_sockets h
          ≡ (if 2 == h then some 82 else tcp_socket two_sockets.tcp_sockets h))
    × IsOrdered 3 s'
create_tcp_socket_lem_example =
    create_tcp_socket_lem 2 82 two_sockets (refl, omega arith) (omega arith)
