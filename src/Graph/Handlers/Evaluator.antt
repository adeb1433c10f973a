-- ===== src/Graph/Handlers/Evaluator.antt =====
-- One pass of the default evaluator of tools/graph/run-graph.mjs, and what the router behind it
-- chooses.
use red_team_agent_orchestra.Common.{
  ℕ, ◌+◌, ◌<◌, String, ◌≡◌, refl, ◌↔◌, some, lookup, insert, lookup-insert, ok, ◌==◌, eq_iff, arith,
  ap, ◌∙◌, if◌then◌else◌,
}
use red_team_agent_orchestra.Js.{Value, num, obj, get, read, arr, nil, prop, end}
use red_team_agent_orchestra.Graph.Schema.{Channel, Graph, Dict, at}
use red_team_agent_orchestra.Graph.State.{apply_write, apply_results, write_to, write_by, reducer}
use red_team_agent_orchestra.Graph.Reducers.{last}
use red_team_agent_orchestra.Graph.Routing.{num_or, route_after_evaluate}
use red_team_agent_orchestra.Graph.Handlers.{critique_writes}

-- A channel that keeps its last write.
abbrev pub KeepsLast : Graph → String → Type 0
KeepsLast graph name =
    (ch : Channel) × (lookup name graph.channels ≡ some ch) × (ch.reducer ≡ "last")

apply_write-last :
    (graph : Graph) (state : Dict) (name : String) (v : Value)
    → KeepsLast graph name
    → apply_write graph state name v ≡ ok (insert name v state)
unfolding apply_write write_to write_by reducer last
apply_write-last graph state name v (ch, found, kind) = rw (found, kind)

at-insert :
    (k j : String) (v : Value) (d : Dict) → at (insert k v d) j ≡ (if k == j then v else at d j)
unfolding at
at-insert k j v d = ground (arith, lookup-insert k j v d)

num_or-num : (d n : ℕ) → num_or d (num n) ≡ n
unfolding num_or
num_or-num d n = refl

quality-get :
    (quality : ℕ)
    → num_or 100 (get (obj (prop "quality" (num quality) (prop "notes" (arr nil) end))) "quality")
      ≡ quality
unfolding num_or get read
quality-get quality = refl

route_refine :
    (state params : Dict)
    → (route_after_evaluate state params ≡ "refine") ↔ (
        (num_or 0 (at state "revision") < num_or 0 (at params "max_revisions"))
        × (num_or 100 (get (at state "critique") "quality")
            < num_or 0 (at params "quality_threshold")))
unfolding route_after_evaluate
route_refine state params = ground (arith, eq_iff "proceed" "refine")

-- After the default evaluator, where both channels keep their last write, the revision is one more
-- than before, and the router asks for another refinement exactly when that revision is below
-- max_revisions and the quality is below the threshold.
pub evaluate-refine :
    (graph : Graph) (state params : Dict) (quality : ℕ)
    → KeepsLast graph "critique"
    → KeepsLast graph "revision"
    → (next : Dict) × (apply_results graph state (critique_writes quality state) ≡ ok next)
      × (num_or 0 (at next "revision") ≡ num_or 0 (at state "revision") + 100)
      × ((route_after_evaluate next params ≡ "refine") ↔ (
          (num_or 0 (at state "revision") + 100 < num_or 0 (at params "max_revisions"))
          × (quality < num_or 0 (at params "quality_threshold"))))
unfolding apply_results critique_writes
evaluate-refine graph state params quality hc hr =
    let rev = num_or 0 (at state "revision") + 100 in
    let critique = obj (prop "quality" (num quality) (prop "notes" (arr nil) end)) in
    let mid = insert "critique" critique state in
    let next = insert "revision" (num rev) mid in
    let revised : at next "revision" ≡ num rev = at-insert "revision" "revision" _ mid in
    let judged : at next "critique" ≡ critique =
      at-insert "revision" "critique" _ mid ∙ at-insert "critique" "critique" _ state in
    let wrote : apply_results graph state (critique_writes quality state) ≡ ok next =
      rw (apply_write-last graph state "critique" critique hc)
        (rw (apply_write-last graph mid "revision" (num rev) hr)) in
    let rev_is : num_or 0 (at next "revision") ≡ rev = ap (num_or 0) revised ∙ num_or-num 0 rev in
    let quality_is : num_or 100 (get (at next "critique") "quality") ≡ quality =
      ap (λ v. num_or 100 (get v "quality")) judged ∙ quality-get quality in
    (next, wrote, rev_is, rw (rev_is, quality_is) at (route_refine next params))
