-- ===== src/Learning/Consolidate/Groups.antt =====
-- The groups of experiences in `consolidateMethodology` of tools/graph/self-improve.mjs.
use mathlib.Core.Path.{subst}
use red_team_agent_orchestra.Common.{
  ◌≡◌, refl, true, false, Bool-cases, inl, inr, List, [], ◌∷◌, ◌++◌, All, All-mono, All-append, Any,
  Any-mono, sym, and-split, includes,
}
use red_team_agent_orchestra.Js.{Value, str, bool, get, same-true, truthy}
use red_team_agent_orchestra.Learning.Params.{is_kind}
use red_team_agent_orchestra.Learning.Candidate.{is_text, text_of}
use red_team_agent_orchestra.Learning.Consolidate.{
  Group, Locale, outcomes, is_experience, is_of, add_experience, groups_of, key_of, insert_group,
  sort_groups,
}

-- An experience of the run `run`, from which a group's agent, signature and outcome come.
pub record IsExperience (g : Group) (run : Value) (e : Value) : Type 0 where
  pub kind : get e "kind" ≡ str "experience"
  pub inert : get e "executable" ≡ bool false
  pub agent : get e "agent_id" ≡ str g.agent
  pub signature : get e "signature" ≡ str g.signature
  pub outcome : get e "outcome" ≡ str g.outcome
  pub run_id : get e "run_id" ≡ run
  pub attributed : truthy run ≡ true

-- Every run of a group has an experience among the entries.
abbrev pub IsSupported : List Value → Group → List Value → Type 0
IsSupported entries g runs = All (λ run. Any (IsExperience g run) entries) runs

is_text-text_of : (v : Value) → is_text v ≡ true → v ≡ str (text_of v)
unfolding is_text text_of
is_text-text_of (str s) h = refl
is_text-text_of _ h = absurd (cc)

outcome-text_of : (v : Value) → includes outcomes (text_of v) ≡ true → v ≡ str (text_of v)
unfolding text_of
outcome-text_of (str s) h = refl
outcome-text_of _ h = absurd (cc)

module _ (e : Value) (h : is_experience e ≡ true) where
  record Parts : Type 0 where
    kind : get e "kind" ≡ str "experience"
    inert : get e "executable" ≡ bool false
    run : truthy (get e "run_id") ≡ true
    agent : get e "agent_id" ≡ str (text_of (get e "agent_id"))
    signature : get e "signature" ≡ str (text_of (get e "signature"))
    outcome : get e "outcome" ≡ str (text_of (get e "outcome"))

  parts : Parts
  unfolding is_experience is_kind
  parts =
      let (a, outcome) = and-split _ _ h in
      let (b, signature) = and-split _ _ a in
      let (c, agent) = and-split _ _ b in
      let (d, attributed) = and-split _ _ c in
      let (f, run) = and-split _ _ d in
      let (i, inert) = and-split _ _ f in
      let (j, commit) = and-split _ _ i in
      let (kind, contract) = and-split _ _ j in
      record {
        kind = same-true _ _ kind;
        inert = same-true _ _ inert;
        run = run;
        agent = is_text-text_of _ agent;
        signature = is_text-text_of _ signature;
        outcome = outcome-text_of _ outcome;
      }

  own-IsExperience :
      IsExperience
        (record {
          agent = text_of (get e "agent_id");
          signature = text_of (get e "signature");
          outcome = text_of (get e "outcome");
          runs = get e "run_id" ∷ [];
        })
        (get e "run_id")
        e
  own-IsExperience = record {
    kind = parts.kind;
    inert = parts.inert;
    agent = parts.agent;
    signature = parts.signature;
    outcome = parts.outcome;
    run_id = refl;
    attributed = parts.run;
  }

  of-IsExperience : (g : Group) → is_of g e ≡ true → IsExperience g (get e "run_id") e
  unfolding is_of
  of-IsExperience g k =
      let (a, outcome) = and-split _ _ k in
      let (agent, signature) = and-split _ _ a in
      record {
        kind = parts.kind;
        inert = parts.inert;
        agent = same-true _ _ agent;
        signature = same-true _ _ signature;
        outcome = same-true _ _ outcome;
        run_id = refl;
        attributed = parts.run;
      }

-- The agent, the signature and the outcome of a group say what its experiences are, not its runs.
regrouped :
    (g : Group) (runs : List Value) (run e : Value)
    → IsExperience g run e
    → IsExperience (record g { runs = runs }) run e
regrouped g runs run e h = record {
  kind = h.kind;
  inert = h.inert;
  agent = h.agent;
  signature = h.signature;
  outcome = h.outcome;
  run_id = h.run_id;
  attributed = h.attributed;
}

module _ (entries : List Value) where
  there :
      (g : Group) (run e : Value)
      → IsExperience g run e
      → Any (λ x. x ≡ e) entries
      → Any (IsExperience g run) entries
  there g run e h k = Any-mono entries (λ x same. subst (IsExperience g run) (sym same) h) k

  add_experience-IsSupported :
      (e : Value) (gs : List Group)
      → is_experience e ≡ true
      → Any (λ x. x ≡ e) entries
      → All (λ g. IsSupported entries g g.runs) gs
      → All (λ g. IsSupported entries g g.runs) (add_experience e gs)
  unfolding add_experience
  add_experience-IsSupported e [] h k gs =
      ((there _ (get e "run_id") e (own-IsExperience e h) k, tt), tt)
  add_experience-IsSupported e (g ∷ gs) h k all = elim (Bool-cases (is_of g e)) [
    | inl o ↦
        let runs = g.runs ++ get e "run_id" ∷ [] in
        let old : IsSupported entries (record g { runs = runs }) g.runs =
          All-mono g.runs (λ run found. Any-mono entries (λ x. regrouped g runs run x) found)
            all.0 in
        rw o (
          All-append _ g.runs (get e "run_id" ∷ []) old (
            there (record g { runs = runs }) (get e "run_id") e
                (regrouped g runs (get e "run_id") e (of-IsExperience e h g o)) k,
            tt,
          ),
          all.1,
        )
    | inr o ↦ rw o (all.0, add_experience-IsSupported e gs h k all.1)
  ]

  groups_of-IsSupported :
      (es : List Value) (gs : List Group)
      → All (λ e. Any (λ x. x ≡ e) entries) es
      → All (λ g. IsSupported entries g g.runs) gs
      → All (λ g. IsSupported entries g g.runs) (groups_of es gs)
  unfolding groups_of
  groups_of-IsSupported [] gs k all = all
  groups_of-IsSupported (e ∷ es) gs k all = elim (Bool-cases (is_experience e)) [
    | inl h ↦ rw h (
        groups_of-IsSupported es (add_experience e gs) k.1
          (add_experience-IsSupported e gs h k.0 all))
    | inr h ↦ rw h (groups_of-IsSupported es gs k.1 all)
  ]

  self-Any : (es : List Value) → All (λ e. Any (λ x. x ≡ e) es) es
  self-Any [] = tt
  self-Any (e ∷ es) = (inl refl, All-mono es (λ x h. inr h) (self-Any es))

  insert_group-All :
      (P : Group → Type 0) (locale : Locale) (g : Group) (gs : List Group)
      → P g
      → All P gs
      → All P (insert_group locale g gs)
  unfolding insert_group
  insert_group-All P locale g [] p ps = (p, tt)
  insert_group-All P locale g (h ∷ hs) p ps =
      elim (Bool-cases (locale.before (key_of h) (key_of g))) [
        | inl e ↦ rw e (ps.0, insert_group-All P locale g hs p ps.1)
        | inr e ↦ rw e (p, ps)
      ]

  sort_groups-All :
      (P : Group → Type 0) (locale : Locale) (gs : List Group)
      → All P gs
      → All P (sort_groups locale gs)
  unfolding sort_groups
  sort_groups-All P locale [] ps = tt
  sort_groups-All P locale (g ∷ gs) ps =
      insert_group-All P locale g (sort_groups locale gs) ps.0 (sort_groups-All P locale gs ps.1)

  pub sort_groups-IsSupported :
      (locale : Locale)
      → All (λ g. IsSupported entries g g.runs) (sort_groups locale (groups_of entries []))
  sort_groups-IsSupported locale =
      sort_groups-All (λ g. IsSupported entries g g.runs) locale (groups_of entries [])
        (groups_of-IsSupported entries [] (self-Any entries) tt)
