-- ===== src/Process/Lives.antt =====
-- Which processes are in the queue, over any sequence of what they do.
use wasabi.Base.{
  ℕ, ◌≡◌, ◌≢◌, refl, ap, ◌∙◌, sym, subst, List, [], ◌∷◌, ◌++◌, true, false, ok, ◌==◌, ==_ne,
  ==_refl,
}
use wasabi.Base.Int.{ℤ}
use wasabi.Process.{
  ProcessContext, Machine, Cell, ready, switch_process, switch_from, exit_current_process,
  exit_from, schedule, poll, store_exit,
}

ok_injective : {A : Type 0} {a b : A} → ok a ≡ ok b → a ≡ b
ok_injective e = cc

cons_injective : {A : Type 0} {a b : A} {ax bs : List A} → a ∷ ax ≡ b ∷ bs → a ≡ b
cons_injective e = cc

module _ {Regs : Type 0} where
  -- No process of the queue has this cell.
  abbrev pub Absent : ℕ → List (ProcessContext Regs) → Type 0
  Absent cell [] = Unit
  Absent cell (p ∷ queue) = (p.cell ≢ cell) × Absent cell queue

  -- The processes of the queue have not exited, and no two share their cell.
  abbrev pub AllRunning : (ℕ → Cell) → List (ProcessContext Regs) → Type 0
  AllRunning cells [] = Unit
  AllRunning cells (p ∷ queue) =
      ((cells p.cell).exited ≡ false) × Absent p.cell queue × AllRunning cells queue

  -- What the current process does, and the scheduling of a new one.
  pub data Step : Machine Regs → Machine Regs → Type 0 where
    run : (m : Machine Regs) (cpu : Regs) → Step m (record m { cpu = cpu })
    spawn :
        (m : Machine Regs) (p : ProcessContext Regs)
        → (m.cells p.cell).exited ≡ false
        → Absent p.cell m.queue
        → Step m (schedule p m)
    switch : (m m' : Machine Regs) → switch_process m ≡ ok m' → Step m m'
    exit : (m m' : Machine Regs) (code : ℤ) → exit_current_process code m ≡ ok m' → Step m m'

  pub data Reach (m : Machine Regs) : Machine Regs → Type 0 where
    here : Reach m m
    next : {t u : Machine Regs} → Reach m t → Step t u → Reach m u

  Absent-append :
      (cell : ℕ) (queue : List (ProcessContext Regs)) (p : ProcessContext Regs)
      → Absent cell queue
      → p.cell ≢ cell
      → Absent cell (queue ++ (p ∷ []))
  Absent-append cell [] p h k = (k, tt)
  Absent-append cell (q ∷ queue) p (a, h) k = (a, Absent-append cell queue p h k)

  -- A process that is new to the queue joins it at the end.
  AllRunning-append :
      (cells : ℕ → Cell) (queue : List (ProcessContext Regs)) (p : ProcessContext Regs)
      → AllRunning cells queue
      → (cells p.cell).exited ≡ false
      → Absent p.cell queue
      → AllRunning cells (queue ++ (p ∷ []))
  AllRunning-append cells [] p h k new = (k, tt, tt)
  AllRunning-append cells (q ∷ queue) p (a, absent, h) k (new, others) = (
    a,
    Absent-append q.cell queue p absent (λ e. new (sym e)),
    AllRunning-append cells queue p h k others,
  )

  -- The exit of a process that is not in the queue changes nothing there.
  AllRunning-store_exit :
      (cells : ℕ → Cell) (queue : List (ProcessContext Regs)) (cell : ℕ) (code : ℤ)
      → Absent cell queue
      → AllRunning cells queue
      → AllRunning (store_exit cells cell code) queue
  AllRunning-store_exit cells [] cell code new h = tt
  AllRunning-store_exit cells (p ∷ queue) cell code (new, others) (a, absent, h) =
      (rw (==_ne p.cell cell new) a, absent, AllRunning-store_exit cells queue cell code others h)

  abbrev pub IsSound : Machine Regs → Type 0
  IsSound m = AllRunning m.cells m.queue

  switch_total :
      (m : Machine Regs) (queue : List (ProcessContext Regs))
      → m.queue ≡ queue
      → AllRunning m.cells queue
      → (m' : Machine Regs) × (switch_from m queue ≡ ok m') × IsSound m' × (m'.cells ≡ m.cells)
  switch_total m [] e h = (m, refl, subst (AllRunning m.cells) (sym e) h, refl)
  switch_total m (from ∷ []) e h = (m, refl, subst (AllRunning m.cells) (sym e) h, refl)
  switch_total m (from ∷ to ∷ rest) e (a, absent, h) = (
    record m { queue = to ∷ (rest ++ (record from { context = m.cpu } ∷ [])); cpu = to.context },
    rw h.0 refl,
    AllRunning-append m.cells (to ∷ rest) (record from { context = m.cpu }) h a absent,
    refl,
  )

  -- Where the processes of the queue run, an exit is that of the first.
  exit_lem :
      (m m' : Machine Regs) (code : ℤ) (queue : List (ProcessContext Regs))
      → AllRunning m.cells queue
      → exit_from m code queue ≡ ok m'
      → (p : ProcessContext Regs) × (rest : List (ProcessContext Regs)) × (queue ≡ p ∷ rest)
        × (m'.queue ≡ rest)
        × (m'.cells ≡ store_exit m.cells p.cell code)
        × IsSound m'
  exit_lem m m' code [] h e = cc
  exit_lem m m' code (from ∷ []) h e = cc
  exit_lem m m' code (from ∷ to ∷ rest) (a, absent, h) e =
      subst
        (λ t.
          (p : ProcessContext Regs) × (tail : List (ProcessContext Regs)) × (from ∷ to ∷ rest
            ≡ p ∷ tail)
          × (t.queue ≡ tail)
          × (t.cells ≡ store_exit m.cells p.cell code)
          × IsSound t)
        (ok_injective e)
        (
          from,
          to ∷ rest,
          refl,
          refl,
          refl,
          AllRunning-store_exit m.cells (to ∷ rest) from.cell code absent h,
        )

  -- What has exited stays so, with its code.
  abbrev Keeps : Machine Regs → Machine Regs → Type 0
  Keeps m m' = (c : ℕ) → (m.cells c).exited ≡ true → m'.cells c ≡ m.cells c

  -- The first process of the queue is not one that has exited.
  not_exited :
      (cells : ℕ → Cell) (queue rest : List (ProcessContext Regs)) (p : ProcessContext Regs) (c : ℕ)
      → queue ≡ p ∷ rest
      → AllRunning cells queue
      → (cells c).exited ≡ true
      → c ≢ p.cell
  not_exited cells queue rest p c e h gone same =
      let first = subst (AllRunning cells) e h in
      let here_too : (cells p.cell).exited ≡ true = ap (λ i. (cells i).exited) (sym same) ∙ gone in
      cc first.0

  Step-IsSound : {m m' : Machine Regs} → Step m m' → IsSound m → IsSound m' × Keeps m m'
  Step-IsSound (run m cpu) h = (h, λ c e. refl)
  Step-IsSound (spawn m p alive new) h =
      unfold schedule in (AllRunning-append m.cells m.queue p h alive new, λ c e. refl)
  Step-IsSound (switch m m' e) h =
      let (t, went, sound, same) = switch_total m m.queue refl h in
      let went' : switch_process m ≡ ok t = unfold switch_process in went in
      subst (λ u. IsSound u × Keeps m u) (ok_injective (sym went' ∙ e))
        (sound, λ c gone. ap (λ f. f c) same)
  Step-IsSound (exit m m' code e) h =
      let e' : exit_from m code m.queue ≡ ok m' = unfold exit_current_process in e in
      let (p, rest, queue, queue', cells, sound) = exit_lem m m' code m.queue h e' in
      (
        sound,
        λ c gone.
            ap (λ f. f c) cells
            ∙ rw (==_ne c p.cell (not_exited m.cells m.queue rest p c queue h gone)) refl,
      )

  Reach-IsSound : {m m' : Machine Regs} → IsSound m → Reach m m' → IsSound m' × Keeps m m'
  Reach-IsSound h here = (h, λ c e. refl)
  Reach-IsSound h (next r st) =
      let (sound, keeps) = Reach-IsSound h r in
      let (sound', keeps') = Step-IsSound st sound in
      (sound', λ c e. keeps' c (ap (λ t. t.exited) (keeps c e) ∙ e) ∙ keeps c e)

  exited-Absent :
      (cells : ℕ → Cell) (queue : List (ProcessContext Regs)) (c : ℕ)
      → AllRunning cells queue
      → (cells c).exited ≡ true
      → Absent c queue
  exited-Absent cells [] c h gone = tt
  exited-Absent cells (p ∷ queue) c (a, absent, h) gone = (
    λ same.
        let here_too : (cells p.cell).exited ≡ true = ap (λ i. (cells i).exited) same ∙ gone in
        cc a,
    exited-Absent cells queue c h gone,
  )

  -- From a queue of processes that run, each with its own cell, no sequence of steps (a process runs,
  -- schedules a new one with a cell of its own, switches or exits) leads to a state where
  -- switch_process panics.
  pub switch_process-Reach :
      (m m' : Machine Regs)
      → IsSound m
      → Reach m m'
      → (t : Machine Regs) × (switch_process m' ≡ ok t)
  unfolding switch_process
  switch_process-Reach m m' h r =
      let (t, went, sound, same) = switch_total m' m'.queue refl (Reach-IsSound h r).0 in (t, went)

  -- From such a queue, once its first process has exited with a code, every later poll for it, after
  -- any sequence of steps, is ready with that code and switches to no other process, and the process
  -- is not in the queue again.
  pub poll-exit :
      (m m' m'' : Machine Regs) (p : ProcessContext Regs) (rest : List (ProcessContext Regs))
      (code : ℤ)
      → IsSound m
      → m.queue ≡ p ∷ rest
      → exit_current_process code m ≡ ok m'
      → Reach m' m''
      → (poll p.cell m'' ≡ ok (m'', ready code)) × Absent p.cell m''.queue
  unfolding poll
  poll-exit m m' m'' p rest code h q e r =
      let e' : exit_from m code m.queue ≡ ok m' = unfold exit_current_process in e in
      let (p', rest', queue, queue', cells, sound) = exit_lem m m' code m.queue h e' in
      let same : p' ≡ p = cons_injective (sym queue ∙ q) in
      let stored : m'.cells p.cell ≡ record { exited = true; exit_code = code } =
        ap (λ f. f p.cell) cells ∙ rw (ap (λ t. p.cell == t.cell) same ∙ ==_refl p.cell) refl in
      let (sound', keeps) = Reach-IsSound sound r in
      let kept : m''.cells p.cell ≡ record { exited = true; exit_code = code } =
        keeps p.cell (ap (λ t. t.exited) stored) ∙ stored in
      (rw kept refl, exited-Absent m''.cells m''.queue p.cell sound' (ap (λ t. t.exited) kept))
