-- ===== src/Graph/Runner/Resume.antt =====
-- Resuming an interrupted run, from its last checkpoint and with a decision.
use red_team_agent_orchestra.Common.{
  ℕ, zero, suc, ◌≤◌, String, ◌≡◌, refl, ◌≢◌, ap, eq→path, ◌==◌, Bool, true, Bool-cases, Option,
  none, some, List, [], Result, ok, throw, Post, arith, inl, inr, is_some,
}
use red_team_agent_orchestra.Graph.Schema.{Dict}
use red_team_agent_orchestra.Graph.Runner.{
  Config, Checkpoint, Round, go_on, pause, Setup, round, loop, follow, finish, at_end, Outcome,
  completed, interrupted, begin, run_graph, or_value, non_blank,
}
use red_team_agent_orchestra.Graph.Runner.Simulation.{rebook, Sim, round-Sim}
use red_team_agent_orchestra.Graph.Runner.Pause.{PausedAt, round-PausedAt}

-- `o` is a completed run that ends in the state and the world of `t`.
abbrev pub CompletesAs : {W : Type 0} → Config W → Outcome W → Type 0
CompletesAs t (completed d) = (d.state ≡ t.state) × (d.world ≡ t.world)
CompletesAs t _ = ⊥

or_value-some :
    (o b : Option String) → is_some o ≡ true → o ≢ some "" → or_value (non_blank o) b ≡ o
or_value-some none b h n = cc
or_value-some (some a) b h n = elim (Bool-cases (a == "")) [
  | inl e ↦ absurd (n (ap some (eq→path a "" e)))
  | inr e ↦ rw e refl
]

module _ {W : Type 0} (setup : Setup W) where
  follow-CompletesAs :
      (rest rest' : Config W → Outcome W) (c c' : Config W) (r r' : Result (Round W)) {t : Config W}
      → Sim r r'
      → ((p : List String) (k : ℕ) (cs : List Checkpoint) (d : Config W)
          → rest d ≡ completed t
          → CompletesAs t (rest' (rebook p k cs d)))
      → follow setup rest c r ≡ completed t
      → CompletesAs t (follow setup rest' c' r')
  unfolding follow
  follow-CompletesAs rest rest' c c' (throw e) r' sim k h = cc
  follow-CompletesAs rest rest' c c' (ok (pause d prompt)) r' sim k h = cc
  follow-CompletesAs rest rest' c c' (ok (go_on d)) r' (p, n, cs, e) k h = rw e (k p n cs d h)

  -- What a run completes with depends on the node, the state and the world that it starts from, and
  -- on no more budget than it takes.
  loop-CompletesAs :
      (fuel fuel' : ℕ) (p : List String) (k : ℕ) (cs : List Checkpoint) (c : Config W)
      {t : Config W}
      → fuel ≤ fuel'
      → loop setup fuel c ≡ completed t
      → CompletesAs t (loop setup fuel' (rebook p k cs c))
  unfolding loop finish
  loop-CompletesAs zero zero p k cs c l h = ground arith
  loop-CompletesAs zero (suc g) p k cs c l h = ground arith
  loop-CompletesAs (suc f) zero p k cs c l h = absurd (omega arith)
  loop-CompletesAs (suc f) (suc g) p k cs c {t} l h = elim (Bool-cases (at_end setup c.current)) [
    | inl e ↦ ground arith
    | inr e ↦
        rw (e, loop)
          (follow-CompletesAs (loop setup f) (loop setup g) c (rebook p k cs c) (round setup c)
            (round setup (rebook p k cs c))
            (round-Sim setup setup.decision setup.decision p k cs c (inr refl))
            (λ p' k' cs' d q. loop-CompletesAs f g p' k' cs' d (omega arith) q) (rw (e, loop) at h))
  ]

module _ {W : Type 0} (setup : Setup W) (decision : Bool) where
  -- the run that waits for a decision, and the run that has it
  abbrev asking : Setup W
  asking = record setup { decision = none }

  abbrev told : Setup W
  told = record setup { decision = some decision }

  follow-resumed :
      (fuel fuel' : ℕ) (p : List String) (k : ℕ) (cs : List Checkpoint) (c : Config W)
      (r r' : Result (Round W)) {d t : Config W} {prompt : Option String}
      → Post (PausedAt c) r
      → Sim r r'
      → ((q : List String) (n : ℕ) (es : List Checkpoint) (e : Config W)
          → loop asking fuel e ≡ interrupted d prompt
          → loop told fuel (rebook q n es e) ≡ completed t
          → CompletesAs t (loop told fuel' (rebook p k cs d)) × (is_some d.current ≡ true))
      → (CompletesAs t (loop told fuel' (rebook p k cs c)))
      → follow asking (loop asking fuel) c r ≡ interrupted d prompt
      → (rest : Config W) → follow told (loop told fuel) rest r' ≡ completed t
      → CompletesAs t (loop told fuel' (rebook p k cs d)) × (is_some d.current ≡ true)
  unfolding follow
  follow-resumed fuel fuel' p k cs c (throw e) r' stopped sim ih now h rest g = cc
  follow-resumed fuel fuel' p k cs c (ok (pause e asked)) r' {d} stopped sim ih now h rest g =
      let paused : e ≡ d = ground arith in
      let same : rebook p k cs d ≡ rebook p k cs c = rw (← paused) (ground arith) in
      (rw same now, rw (← paused) stopped.3)
  follow-resumed fuel fuel' p k cs c (ok (go_on e)) r' stopped (q, n, es, same) ih now h rest g =
      ih q n es e h (rw same at g)

  loop-resumed :
      (fuel fuel' : ℕ) (p q : List String) (k n : ℕ) (cs es : List Checkpoint) (c : Config W)
      {d t : Config W} {prompt : Option String}
      → fuel ≤ fuel'
      → loop asking fuel c ≡ interrupted d prompt
      → loop told fuel (rebook q n es c) ≡ completed t
      → CompletesAs t (loop told fuel' (rebook p k cs d)) × (is_some d.current ≡ true)
  unfolding loop finish
  loop-resumed zero fuel' p q k n cs es c l h g = ground arith
  loop-resumed (suc f) fuel' p q k n cs es c {d} {t} {prompt} l h g =
      elim (Bool-cases (at_end setup c.current)) [
        | inl e ↦ ground arith
        | inr e ↦
            follow-resumed f fuel' p k cs c (round asking c) (round told (rebook q n es c))
              (round-PausedAt asking c) (round-Sim setup none (some decision) q n es c (inl refl))
              (λ q' n' es' c' a b. loop-resumed f fuel' p q' k n' cs es' c' (omega arith) a b)
              (loop-CompletesAs told (suc f) fuel' p k cs (rebook q n es c) l g) (rw (e, loop) at h)
              (rebook q n es c) (rw (e, loop) at g)
      ]

  -- If a run that waits for a decision is interrupted, and the run that has the decision from the
  -- start completes, then the interrupted run, resumed at the node and in the state of its
  -- interruption with that decision, completes too, in the same state and the same world. The node's
  -- id is not "", at which no run starts.
  pub resume-CompletesAs :
      (start : Option String) (initial : Option Dict) (world : W) (d t : Config W)
      (prompt : Option String)
      → run_graph asking start initial world ≡ interrupted d prompt
      → run_graph told start initial world ≡ completed t
      → d.current ≢ some ""
      → CompletesAs t (run_graph told d.current (some d.state) d.world)
  unfolding run_graph begin
  resume-CompletesAs start initial world d t prompt h g named =
      let c = begin asking start initial world in
      elim (Bool-cases (is_some c.current)) [
        | inl e ↦
            let (done, here) =
              loop-resumed setup.max_steps setup.max_steps [] [] 0 0 [] [] c (omega arith)
                (rw e at h) (rw e at g) in
            rw (or_value-some d.current _ here named, here) done
        | inr e ↦ let stopped : ⊥ = cc (rw e at h) in absurd stopped
      ]
