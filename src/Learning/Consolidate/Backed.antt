-- ===== src/Learning/Consolidate/Backed.antt =====
-- What `consolidateMethodology` of tools/graph/self-improve.mjs adds to the store.
use red_team_agent_orchestra.Common.{
  ℕ, ◌≤◌, ◌≡◌, refl, sym, ap, ◌∙◌, false, Bool-cases, inl, inr, Option, none, some, List, [], ◌∷◌,
  ◌++◌, append_assoc, append-nil, All, length, ltb, Result, ok, ◌>>=◌, arith,
}
use red_team_agent_orchestra.Js.{Value, str, bool, get, read, elements, elements-of_list}
use red_team_agent_orchestra.Learning.Firewall.{methodology}
use red_team_agent_orchestra.Learning.Store.{Store, held}
use red_team_agent_orchestra.Learning.Store.Laws.{
  appended, append-methodology, held-appended, load-methodology,
}
use red_team_agent_orchestra.Learning.Promotion.{required_runs}
use red_team_agent_orchestra.Learning.Consolidate.{
  Group, knowledge, learnt_of, promote_groups, consolidate_methodology, previous_of, is_known,
  with_learnt, record_learnt, groups_of, Locale, distinct_runs, sort_runs, sort_groups,
}
use red_team_agent_orchestra.Learning.Consolidate.Groups.{IsSupported, sort_groups-IsSupported}
use red_team_agent_orchestra.Learning.Consolidate.RunIds.{HasNoRepeat, runs-All, runs-HasNoRepeat}

-- Inert knowledge on an agent, a signature and an outcome. It names its runs once each, two at least
-- and as many as asked for, and each of them has an experience among the entries with the same agent,
-- signature and outcome.
pub record IsBacked (entries : List Value) (least : ℕ) (k : Value) : Type 0 where
  pub group : Group
  pub runs : List Value
  pub agent : get k "agent_id" ≡ str group.agent
  pub signature : get k "signature" ≡ str group.signature
  pub outcome : get k "outcome" ≡ str group.outcome
  pub named : elements (get k "run_ids") ≡ runs
  pub lived : IsSupported entries group runs
  pub once : HasNoRepeat runs
  pub at_least_two : 2 ≤ length runs
  pub at_least_asked : least ≤ length runs
  pub inert : get k "executable" ≡ bool false

module _ (locale : Locale) (entries : List Value) (least : ℕ) where
  knowledge-IsBacked :
      (g : Group)
      → IsSupported entries g g.runs
      → required_runs least ≤ length (sort_runs locale (distinct_runs g.runs))
      → IsBacked entries least (knowledge g (sort_runs locale (distinct_runs g.runs)))
  unfolding knowledge get read
  knowledge-IsBacked g supported h = record {
    group = g;
    runs = sort_runs locale (distinct_runs g.runs);
    agent = refl;
    signature = refl;
    outcome = refl;
    named = elements-of_list (sort_runs locale (distinct_runs g.runs));
    lived = runs-All locale _ g.runs supported;
    once = runs-HasNoRepeat locale g.runs;
    at_least_two = ground arith;
    at_least_asked = ground arith;
    inert = refl;
  }

  learnt-IsBacked :
      (g : Group)
      → IsSupported entries g g.runs
      → All (IsBacked entries least) (with_learnt (learnt_of locale least entries g) [])
  unfolding learnt_of
  learnt-IsBacked g supported =
      let runs = sort_runs locale (distinct_runs g.runs) in
      elim (Bool-cases (ltb (length runs) (required_runs least))) [
        | inl e ↦ rw e tt
        | inr e ↦ elim (Bool-cases (is_known runs (previous_of g entries none))) [
          | inl k ↦ rw (e, k) tt
          | inr k ↦ rw (e, k) (knowledge-IsBacked g supported (ground arith), tt)
        ]
      ]

-- A result that adds backed knowledge to the entries of the store `s`, and nothing else.
abbrev Adds : List Value → ℕ → Store → Result (Store × List Value) → Type 0
Adds entries least s r =
    (t : Store) × (ks : List Value) × (r ≡ ok (t, ks))
    × (held methodology t ≡ held methodology s ++ ks)
    × All (IsBacked entries least) ks

record_learnt-Adds :
    (entries : List Value) (least : ℕ) (s : Store) (rest : Store → Result (Store × List Value))
    → ((u : Store) → Adds entries least u (rest u))
    → (o : Option Value) → All (IsBacked entries least) (with_learnt o [])
    → Adds entries least s (record_learnt o s >>= λ u. rest u >>= λ r. ok (r.0, with_learnt o r.1))
record_learnt-Adds entries least s rest f none b =
    let (t, ks, e, h, backed) = f s in (t, ks, rw e refl, h, backed)
record_learnt-Adds entries least s rest f (some k) b =
    let (t, ks, e, h, backed) = f (appended methodology k s) in
    (
      t,
      k ∷ ks,
      rw (append-methodology k s, e) refl,
      h
          ∙ ap (λ l. l ++ ks) (held-appended methodology k s)
          ∙ append_assoc (held methodology s) (k ∷ []) ks,
      (b.0, backed),
    )

-- The groups' knowledge is added to the store, in their order.
promote_groups-Adds :
    (locale : Locale) (least : ℕ) (entries : List Value) (gs : List Group)
    → All (λ g. IsSupported entries g g.runs) gs
    → (s : Store) → Adds entries least s (promote_groups locale least entries gs s)
unfolding promote_groups
promote_groups-Adds locale least entries [] h s = (s, [], refl, sym (append-nil _), tt)
promote_groups-Adds locale least entries (g ∷ gs) h s =
    record_learnt-Adds entries least s (promote_groups locale least entries gs)
      (promote_groups-Adds locale least entries gs h.1) (learnt_of locale least entries g)
      (learnt-IsBacked locale entries least g h.0)

-- Whatever the locale, consolidation ends without error. The store then holds what it held and the
-- promoted knowledge after it. Each piece of knowledge is inert and names runs that are not repeated,
-- two at least and as many as asked for; and each of these runs is truthy and is the run of an
-- experience that the store held, inert, and with the agent, the signature and the outcome of that
-- knowledge.
pub consolidate_methodology-adds :
    (locale : Locale) (least : ℕ) (s : Store)
    → (t : Store) × (ks : List Value) × (consolidate_methodology locale least s ≡ ok (t, ks))
      × (held methodology t ≡ held methodology s ++ ks)
      × All (IsBacked (held methodology s) least) ks
unfolding consolidate_methodology
consolidate_methodology-adds locale least s = rw (load-methodology s) (
    promote_groups-Adds locale least (held methodology s)
      (sort_groups locale (groups_of (held methodology s) []))
      (sort_groups-IsSupported (held methodology s) locale) s)
