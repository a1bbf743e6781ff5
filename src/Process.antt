-- ===== src/Process.antt =====
-- os/src/process.rs: the scheduler, which switches between processes in turn, the future that waits
-- for the exit of one, and the handles of TCP sockets. A context switch saves and loads the
-- registers, which are of the type `Regs`; `exited` and `exit_code`, which a process shares with those
-- that wait for it, are a cell that both know by its number.
pub mod Rotation
pub mod Lives
pub mod Handles
use wasabi.Base.{
  ℕ, zero, suc, ◌+◌, ◌-◌, ◌^◌, List, [], ◌∷◌, ◌++◌, Bool, true, false, leb, ltb, ◌==◌,
  if◌then◌else◌, Option, none, some, Result, ok, err, panic, failed, ◌>>=◌, length, max,
}
use wasabi.Base.Int.{ℤ, pos, pos_part, max_ℤ, add64}

pub record Cell : Type 0 where
  pub exited : Bool
  pub exit_code : ℤ

pub data Poll : Type 0 where
  ready : ℤ → Poll
  pending : Poll

module _ (Regs : Type 0) where
  -- `ProcessContext`, as far as the scheduler reads it
  pub record ProcessContext : Type 0 where
    pub context : Regs
    pub cell : ℕ

  -- The scheduler's queue, the first element being the current process, with the shared cells and
  -- the registers of the CPU
  pub record Machine : Type 0 where
    pub queue : List ProcessContext
    pub cells : ℕ → Cell
    pub cpu : Regs

-- `exited.store(true)` and `exit_code.store(code)`
abbrev pub store_exit : (ℕ → Cell) → ℕ → ℤ → ℕ → Cell
store_exit cells cell code i =
    if i == cell then record { exited = true; exit_code = code } else cells i

module _ {Regs : Type 0} where
  unfoldable pub schedule : ProcessContext Regs → Machine Regs → Machine Regs
  schedule proc m = record m { queue = m.queue ++ (proc ∷ []) }

  unfoldable pub clear_queue : Machine Regs → Machine Regs
  clear_queue m = record m { queue = [] }

  abbrev pub exit_from : Machine Regs → ℤ → List (ProcessContext Regs) → Result (Machine Regs)
  exit_from m code (from ∷ to ∷ rest) =
      ok (record { queue = to ∷ rest; cells = store_exit m.cells from.cell code; cpu = to.context })
  exit_from m code (from ∷ []) = panic
  exit_from m code [] = panic

  -- `exit_current_process`: it panics if no other process is left.
  unfoldable pub exit_current_process : ℤ → Machine Regs → Result (Machine Regs)
  exit_current_process code m = exit_from m code m.queue

  abbrev pub switch_from : Machine Regs → List (ProcessContext Regs) → Result (Machine Regs)
  switch_from m (from ∷ to ∷ rest) =
      if (m.cells to.cell).exited
      then panic
      else ok (record m {
        queue = to ∷ (rest ++ (record from { context = m.cpu } ∷ []));
        cpu = to.context;
      })
  switch_from m (from ∷ []) = ok m
  switch_from m [] = ok m

  -- `switch_process`: the queue is rotated; the registers are saved in the process that is left, and
  -- loaded from the one that is next.
  unfoldable pub switch_process : Machine Regs → Result (Machine Regs)
  switch_process m = switch_from m m.queue

  -- `ProcessCompletionFuture::poll`, for the process with this cell
  unfoldable pub poll : ℕ → Machine Regs → Result (Machine Regs × Poll)
  unfolding switch_process
  poll cell m =
      let switched = switch_process m >>= λ m'. ok (m', pending) in
      if (m.cells cell).exited then ok (m, ready (m.cells cell).exit_code) else switched

-- The sockets of a process, by their handles, the last one first
module _ {Socket : Type 0} where
  abbrev pub tcp_socket : List (ℕ × Socket) → ℕ → Option Socket
  tcp_socket [] handle = none
  tcp_socket ((h, sock) ∷ sockets) handle =
      if h == handle then some sock else tcp_socket sockets handle

  abbrev pub is_vacant : List (ℕ × Socket) → ℕ → Bool
  is_vacant [] handle = true
  is_vacant ((h, sock) ∷ sockets) handle = if h == handle then false else is_vacant sockets handle

-- `tcp_sockets` and `next_tcp_socket_handle` of a process
pub record Sockets (Socket : Type 0) : Type 0 where
  pub tcp_sockets : List (ℕ × Socket)
  pub next_tcp_socket_handle : ℤ

-- The loop over the handles, with the rounds left
unfoldable pub take_handle :
    {Socket : Type 0} → ℕ → ℕ → Socket → Sockets Socket → Result (Sockets Socket × ℕ)
take_handle zero handle sock s = err (failed "No more tcp_socket handle available")
take_handle (suc rounds) handle sock s =
    let later = take_handle rounds (suc handle) sock s in
    if is_vacant s.tcp_sockets handle
    then ok (
      record {
        tcp_sockets = (handle, sock) ∷ s.tcp_sockets;
        next_tcp_socket_handle = add64 s.next_tcp_socket_handle (pos 1);
      },
      handle,
    )
    else later

-- `create_tcp_socket`, where `opened` is what the network's `open_tcp_socket` returns: the handles
-- from `max(0, next)` up to `i64::MAX` are tried.
unfoldable pub create_tcp_socket :
    {Socket : Type 0} → Result Socket → Sockets Socket → Result (Sockets Socket × ℕ)
unfolding take_handle
create_tcp_socket opened s = do
  sock ← opened
  let first = pos_part (max_ℤ (pos 0) s.next_tcp_socket_handle)
  take_handle (2 ^ 63 - first) first sock s
