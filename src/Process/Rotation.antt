-- ===== src/Process/Rotation.antt =====
-- Switching in turn: the registers of the processes, and the turns that they get.
use wasabi.Base.{
  ℕ, zero, suc, ◌≡◌, refl, ap, ◌∙◌, sym, subst, List, [], ◌∷◌, ◌++◌, false, Result, ok, ◌>>=◌,
  length, append_assoc, append-nil,
}
use wasabi.Process.{ProcessContext, Machine, Cell, switch_process, switch_from}

-- A process as it would go on: its registers and its cell
abbrev pub Turn : Type 0 → Type 0
Turn Regs = Regs × ℕ

module _ {Regs : Type 0} where
  abbrev pub saved : List (ProcessContext Regs) → List (Turn Regs)
  saved [] = []
  saved (p ∷ queue) = (p.context, p.cell) ∷ saved queue

  -- The registers of the current process are those of the CPU.
  abbrev pub turns_of : Regs → List (ProcessContext Regs) → List (Turn Regs)
  turns_of cpu [] = []
  turns_of cpu (p ∷ queue) = (cpu, p.cell) ∷ saved queue

  abbrev pub turns : Machine Regs → List (Turn Regs)
  turns m = turns_of m.cpu m.queue

  -- No process has exited.
  abbrev pub AllAlive : (ℕ → Cell) → List (Turn Regs) → Type 0
  AllAlive cells [] = Unit
  AllAlive cells ((r, cell) ∷ rest) = ((cells cell).exited ≡ false) × AllAlive cells rest

  abbrev rotate : List (Turn Regs) → List (Turn Regs)
  rotate [] = []
  rotate (t ∷ rest) = rest ++ (t ∷ [])

  saved-append :
      (queue : List (ProcessContext Regs)) (p : ProcessContext Regs)
      → saved (queue ++ (p ∷ [])) ≡ saved queue ++ ((p.context, p.cell) ∷ [])
  saved-append [] p = refl
  saved-append (q ∷ queue) p = ap (λ t. (q.context, q.cell) ∷ t) (saved-append queue p)

  switch_from_lem :
      (m : Machine Regs) (queue : List (ProcessContext Regs))
      → m.queue ≡ queue
      → AllAlive m.cells (turns_of m.cpu queue)
      → (m' : Machine Regs) × (switch_from m queue ≡ ok m')
        × (turns m' ≡ rotate (turns_of m.cpu queue))
        × (m'.cells ≡ m.cells)
  switch_from_lem m [] e alive = (m, refl, ap (turns_of m.cpu) e, refl)
  switch_from_lem m (from ∷ []) e alive = (m, refl, ap (turns_of m.cpu) e, refl)
  switch_from_lem m (from ∷ to ∷ rest) e (a, (b, alive)) = (
    record m { queue = to ∷ (rest ++ (record from { context = m.cpu } ∷ [])); cpu = to.context },
    rw b refl,
    ap (λ t. (to.context, to.cell) ∷ t) (saved-append rest (record from { context = m.cpu })),
    refl,
  )

  unfoldable pub switches : ℕ → Machine Regs → Result (Machine Regs)
  switches zero m = ok m
  switches (suc n) m = switch_process m >>= switches n

  AllAlive-append :
      (cells : ℕ → Cell) (xs : List (Turn Regs)) (t : Turn Regs)
      → (cells t.1).exited ≡ false
      → AllAlive cells xs
      → AllAlive cells (xs ++ (t ∷ []))
  AllAlive-append cells [] t a alive = (a, tt)
  AllAlive-append cells (x ∷ xs) t a (b, alive) = (b, AllAlive-append cells xs t a alive)

  -- Where no process in the queue has exited and the ones in front are `xs`, as many switches as
  -- these succeed and bring the others to the front, those of `xs` behind them in the same order, and
  -- each process has its own registers, whether in the CPU or saved; the exits are as before.
  pub switches_lem :
      (m : Machine Regs) (xs ys : List (Turn Regs))
      → turns m ≡ xs ++ ys
      → AllAlive m.cells (xs ++ ys)
      → (m' : Machine Regs) × (switches (length xs) m ≡ ok m')
        × (turns m' ≡ ys ++ xs)
        × (m'.cells ≡ m.cells)
  unfolding switches
  switches_lem m [] ys e alive = (m, refl, e ∙ sym (append-nil ys), refl)
  switches_lem m (x ∷ xs) ys e (a, alive) =
      let (mid, run, turned, same) =
        switch_from_lem m m.queue refl (subst (AllAlive m.cells) (sym e) (a, alive)) in
      let next : turns mid ≡ xs ++ (ys ++ (x ∷ [])) =
        turned ∙ ap rotate e ∙ append_assoc xs ys (x ∷ []) in
      let still : AllAlive mid.cells (xs ++ (ys ++ (x ∷ []))) =
        subst (λ c. AllAlive c (xs ++ (ys ++ (x ∷ [])))) (sym same)
          (subst (AllAlive m.cells) (append_assoc xs ys (x ∷ []))
            (AllAlive-append m.cells (xs ++ ys) x a alive)) in
      let (m', rest, turned', same') = switches_lem mid xs (ys ++ (x ∷ [])) next still in
      (
        m',
        ap (λ r. r >>= switches (length xs))
              (let run' : switch_process m ≡ ok mid = unfold switch_process in run in run')
            ∙ rest,
        turned' ∙ append_assoc ys (x ∷ []) xs,
        same' ∙ same,
      )
