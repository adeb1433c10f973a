-- ===== src/Graph/Runner/Budget.antt =====
-- The step budget: how many rounds a run makes, and the path that it reports.
use red_team_agent_orchestra.Common.{
  ℕ, zero, suc, ◌+◌, ◌≤◌, String, ◌≡◌, refl, Bool-cases, Option, [], ◌∷◌, Result, ok, throw, Post,
  arith, inl, inr, length, length-append, is_some,
}
use red_team_agent_orchestra.Graph.Schema.{Dict}
use red_team_agent_orchestra.Graph.Runner.{
  Config, Round, go_on, pause, Outcome, completed, interrupted, failed, Setup, round, loop, finish,
  run_graph, begin, follow, at_end,
}
use red_team_agent_orchestra.Graph.Runner.Trace.{Leads, Counted, round-Counted}

-- The configuration that a run stops in, however it stops.
abbrev pub final : {W : Type 0} → Outcome W → Config W
final (completed c) = c
final (interrupted c prompt) = c
final (failed e c) = c

-- The nodes of the path, as far as they are counted: `END` closes the path of a completed run.
abbrev pub IsTallied : {W : Type 0} → Outcome W → Type 0
IsTallied (completed c) = length c.path ≡ c.steps + 1
IsTallied (interrupted c prompt) = length c.path ≡ c.steps
IsTallied (failed e c) = length c.path ≡ c.steps

module _ {W : Type 0} (setup : Setup W) where
  abbrev IsBounded : ℕ → Outcome W → Type 0
  IsBounded n o = ((final o).steps ≤ n) × IsTallied o

  finish-IsBounded :
      {n : ℕ} (c : Config W) → c.steps ≤ n → length c.path ≡ c.steps → IsBounded n (finish setup c)
  unfolding finish
  finish-IsBounded c l h = (l, omega (arith, length-append {0} c.path ("END" ∷ [])))

  follow-IsBounded :
      (rest : Config W → Outcome W) (fuel : ℕ) (c : Config W) (r : Result (Round W))
      → ((d : Config W) → length d.path ≡ d.steps → IsBounded (d.steps + fuel) (rest d))
      → length c.path ≡ c.steps
      → Post (Leads (Counted setup c)) r
      → IsBounded (c.steps + suc fuel) (follow setup rest c r)
  unfolding follow
  follow-IsBounded rest fuel c (throw e) k h p = (omega arith, h)
  follow-IsBounded rest fuel c (ok (pause d prompt)) k h (p, q) = (omega arith, omega arith)
  follow-IsBounded rest fuel c (ok (go_on d)) k h (p, q) =
      let (a, b) = k d (omega arith) in (omega arith, b)

  loop-IsBounded :
      (fuel : ℕ) (c : Config W)
      → length c.path ≡ c.steps
      → IsBounded (c.steps + fuel) (loop setup fuel c)
  unfolding loop
  loop-IsBounded zero c h = elim (Bool-cases (at_end setup c.current)) [
    | inl e ↦ rw e (finish-IsBounded c (omega arith) h)
    | inr e ↦ rw e (omega arith, h)
  ]
  loop-IsBounded (suc fuel) c h = elim (Bool-cases (at_end setup c.current)) [
    | inl e ↦ rw (e, loop) (finish-IsBounded c (omega arith) h)
    | inr e ↦
        rw (e, loop)
          (follow-IsBounded (loop setup fuel) fuel c (round setup c) (loop-IsBounded fuel) h
            (round-Counted setup c))
  ]

  -- A run that has its options in `setup`, from any start, makes at most `maxSteps` steps, whether it
  -- completes, is interrupted or fails, and its path names one node for each step (and then END, if
  -- it completes).
  pub run_graph_bounded :
      (start : Option String) (initial : Option Dict) (world : W)
      → ((final (run_graph setup start initial world)).steps ≤ setup.max_steps)
        × IsTallied (run_graph setup start initial world)
  unfolding run_graph begin
  run_graph_bounded start initial world =
      let c = begin setup start initial world in
      elim (Bool-cases (is_some c.current)) [
        | inl e ↦ let (a, b) = loop-IsBounded setup.max_steps c refl in rw e (omega arith, b)
        | inr e ↦ rw e (omega arith, refl)
      ]
