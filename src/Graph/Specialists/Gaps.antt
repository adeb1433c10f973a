-- ===== src/Graph/Specialists/Gaps.antt =====
-- The coverage gaps that the fan-out of `runGraphAsync` (tools/graph/run-graph.mjs) records, where
-- folding the answers succeeds.
use red_team_agent_orchestra.Common.{
  ℕ, String, ◌≡◌, sym, ap, ◌∙◌, false, Option, none, some, List, [], ◌∷◌, ◌++◌, append_assoc,
  append-nil, All, lookup, insert, lookup-insert, keys, includes, ok, >>=-eq-ok, ◌==◌, arith,
  eq_refl, or-false,
}
use red_team_agent_orchestra.Js.{Value, arr, cons, nil, items, elements, elements-of_list}
use red_team_agent_orchestra.Graph.Schema.{Channel, RosterItem, Graph, Dict, at}
use red_team_agent_orchestra.Graph.State.{
  Writes, apply_write, apply_results, write_to, write_by, reducer,
}
use red_team_agent_orchestra.Graph.Reducers.{append, as_list}
use red_team_agent_orchestra.Graph.Specialists.{
  Answer, answered, late, broken, coverage_gap, deadline_reason, gap_writes, result_of,
  apply_answers, ◌<>◌,
}

abbrev pub gaps : String
gaps = "coverage_gaps"

-- The channel of the gaps appends what is written to it.
abbrev pub IsAppended : Graph → Type 0
IsAppended graph = (ch : Channel) × (lookup gaps graph.channels ≡ some ch) × (ch.reducer ≡ "append")

-- the gaps that the answers leave, in roster order
abbrev pub gaps_of : Value → ℕ → List (RosterItem × Answer) → List Value
gaps_of scope timeout [] = []
gaps_of scope timeout ((item, answered writes) ∷ rest) = gaps_of scope timeout rest
gaps_of scope timeout ((item, late) ∷ rest) =
    coverage_gap scope item "partial" (deadline_reason timeout) ∷ gaps_of scope timeout rest
gaps_of scope timeout ((item, broken message) ∷ rest) =
    coverage_gap scope item "failed" ("specialist failed: " <> message) ∷ gaps_of scope timeout rest

-- An answer writes no gap itself.
abbrev pub writes_of : Answer → Writes
writes_of (answered writes) = writes
writes_of _ = []

held_gaps : Dict → List Value
held_gaps state = elements (at state gaps)

at-insert_other :
    (name : String) (v : Value) (state : Dict)
    → (name == gaps) ≡ false
    → at (insert name v state) gaps ≡ at state gaps
unfolding at
at-insert_other name v state h = ground (arith, lookup-insert name gaps v state, h)

at-insert-gaps : (v : Value) (state : Dict) → at (insert gaps v state) gaps ≡ v
unfolding at
at-insert-gaps v state = ground (arith, lookup-insert gaps gaps v state, eq_refl gaps)

write_by-others :
    (f : Option (Value → Value → Value)) (ch : Channel) (state : Dict) (name : String) (v : Value)
    {t : Dict}
    → (name == gaps) ≡ false
    → write_by f ch state name v ≡ ok t
    → at t gaps ≡ at state gaps
unfolding write_by
write_by-others none ch state name v h e = absurd (cc)
write_by-others (some f) ch state name v {t} h e =
    let made : insert name (f (at state name) v) state ≡ t = cc in
    rw (sym made) (at-insert_other name (f (at state name) v) state h)

write-others :
    (graph : Graph) (state : Dict) (name : String) (v : Value) {t : Dict}
    → (name == gaps) ≡ false
    → apply_write graph state name v ≡ ok t
    → at t gaps ≡ at state gaps
unfolding apply_write
write-others graph state name v {t} h e = by_channel (lookup name graph.channels) e
  where
    by_channel :
        (found : Option Channel) → write_to found state name v ≡ ok t → at t gaps ≡ at state gaps
    by_channel none e = absurd (unfold write_to in cc)
    by_channel (some ch) e =
        write_by-others (reducer ch.reducer) ch state name v h (unfold write_to in e)

results-others :
    (graph : Graph) (state : Dict) (writes : Writes) {t : Dict}
    → includes (keys writes) gaps ≡ false
    → apply_results graph state writes ≡ ok t
    → at t gaps ≡ at state gaps
unfolding apply_results keys
results-others graph state [] {t} h e = let same : state ≡ t = cc in ap (λ s. at s gaps) (sym same)
results-others graph state ((name, v) ∷ rest) h e =
    let (s, wrote, others) = >>=-eq-ok (apply_write graph state name v) _ e in
    let (first, more) = or-false (name == gaps) (includes (keys rest) gaps) h in
    results-others graph s rest more others ∙ write-others graph state name v first wrote

appended-one : (v gap : Value) → elements (append v (arr (cons gap nil))) ≡ elements v ++ gap ∷ []
unfolding append as_list items elements
appended-one v gap = elements-of_list (elements v ++ gap ∷ [])

write-gap :
    (graph : Graph) (state : Dict) (gap : Value) {t : Dict}
    → IsAppended graph
    → apply_results graph state (gap_writes gap) ≡ ok t
    → elements (at t gaps) ≡ elements (at state gaps) ++ gap ∷ []
unfolding apply_results apply_write write_to write_by reducer
write-gap graph state gap {t} (ch, found, kind) e =
    let made : insert gaps (append (at state gaps) (arr (cons gap nil))) state ≡ t =
      cc (rw (found, kind) at e) in
    ap (λ s. elements (at s gaps)) (sym made)
    ∙ ap elements (at-insert-gaps (append (at state gaps) (arr (cons gap nil))) state)
    ∙ appended-one (at state gaps) gap

-- When the answers of a fan-out are folded without error, where the gaps' channel appends and no
-- answer writes that channel itself, the channel has what it had before, and then one gap for each
-- specialist that was late or failed, in roster order.
pub apply_answers-gaps :
    (graph : Graph) (scope : Value) (timeout : ℕ) (answers : List (RosterItem × Answer))
    (state : Dict) {t : Dict}
    → IsAppended graph
    → All (λ a. includes (keys (writes_of a.1)) gaps ≡ false) answers
    → apply_answers graph scope timeout answers state ≡ ok t
    → elements (at t gaps) ≡ elements (at state gaps) ++ gaps_of scope timeout answers
unfolding apply_answers result_of
apply_answers-gaps graph scope timeout [] state {t} h a e =
    let same : state ≡ t = cc in ap (λ s. elements (at s gaps)) (sym same) ∙ sym (append-nil _)
apply_answers-gaps graph scope timeout ((item, answer) ∷ rest) state {t} h a e =
    let (s, folded, others) =
      >>=-eq-ok (apply_results graph state (result_of scope timeout item answer)) _ e in
    apply_answers-gaps graph scope timeout rest s h a.1 others ∙ by_answer answer a.0 folded
  where
    one_gap :
        (gap : Value) {s : Dict}
        → apply_results graph state (gap_writes gap) ≡ ok s
        → elements (at s gaps) ++ gaps_of scope timeout rest
          ≡ elements (at state gaps) ++ gap ∷ gaps_of scope timeout rest
    one_gap gap e =
        ap (λ l. l ++ gaps_of scope timeout rest) (write-gap graph state gap h e)
        ∙ append_assoc (elements (at state gaps)) (gap ∷ []) (gaps_of scope timeout rest)

    by_answer :
        (answer : Answer) {s : Dict}
        → includes (keys (writes_of answer)) gaps ≡ false
        → apply_results graph state (result_of scope timeout item answer) ≡ ok s
        → elements (at s gaps) ++ gaps_of scope timeout rest
          ≡ elements (at state gaps) ++ gaps_of scope timeout ((item, answer) ∷ rest)
    by_answer (answered writes) k e =
        ap (λ v. elements v ++ gaps_of scope timeout rest) (results-others graph state writes k e)
    by_answer late k e = one_gap (coverage_gap scope item "partial" (deadline_reason timeout)) e
    by_answer (broken message) k e =
        one_gap (coverage_gap scope item "failed" ("specialist failed: " <> message)) e
