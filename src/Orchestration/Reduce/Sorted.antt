-- ===== src/Orchestration/Reduce/Sorted.antt =====
-- `sort` in `cmdReduce` of tools/orchestration/manifest.mjs: its order, and the items it keeps.
use red_team_agent_orchestra.Common.{
  ℕ, suc, ◌≤◌, Any, length, ◌≡◌, refl, ap, ◌∙◌, true, false, Bool-cases, inl, inr, List, [], ◌∷◌,
  All, All-mono, arith,
}
use red_team_agent_orchestra.Js.{Value}
use red_team_agent_orchestra.Graph.Reducers.{Entries, values}
use red_team_agent_orchestra.Orchestration.Reduce.{
  Source, severity_of, severity_rank, is_before, insert_finding, sort_findings,
}

abbrev rank : Value → ℕ
rank f = severity_rank (severity_of f)

-- The findings are in order of severity, the most severe first.
abbrev pub IsOrdered : List Value → Type 0
IsOrdered [] = Unit
IsOrdered (f ∷ fs) = All (λ g. rank f ≤ rank g) fs × IsOrdered fs

module _ (source : Source) where
  before-rank : (f g : Value) → is_before source f g ≡ true → rank f ≤ rank g
  unfolding is_before
  before-rank f g e = ground (arith, e)

  after-rank : (f g : Value) → is_before source f g ≡ false → rank g ≤ rank f
  unfolding is_before
  after-rank f g e = ground (arith, e)

  insert_finding-All :
      (n : ℕ) (f : Value) (gs : List Value)
      → n ≤ rank f
      → All (λ g. n ≤ rank g) gs
      → All (λ g. n ≤ rank g) (insert_finding source f gs)
  unfolding insert_finding
  insert_finding-All n f [] h hs = (h, tt)
  insert_finding-All n f (g ∷ gs) h hs = elim (Bool-cases (is_before source g f)) [
    | inl e ↦ rw e (hs.0, insert_finding-All n f gs h hs.1)
    | inr e ↦ rw e (h, hs)
  ]

  insert_finding-IsOrdered :
      (f : Value) (gs : List Value) → IsOrdered gs → IsOrdered (insert_finding source f gs)
  unfolding insert_finding
  insert_finding-IsOrdered f [] h = (tt, tt)
  insert_finding-IsOrdered f (g ∷ gs) h = elim (Bool-cases (is_before source g f)) [
    | inl e ↦ rw e (
      insert_finding-All (rank g) f gs (before-rank g f e) h.0,
      insert_finding-IsOrdered f gs h.1,
    )
    | inr e ↦
        let low : rank f ≤ rank g = after-rank g f e in
        rw e ((low, All-mono gs (λ x k. omega (arith, low, k)) h.0), h)
  ]

  pub sort_findings-IsOrdered : (fs : List Value) → IsOrdered (sort_findings source fs)
  unfolding sort_findings
  sort_findings-IsOrdered [] = tt
  sort_findings-IsOrdered (f ∷ fs) =
      insert_finding-IsOrdered f (sort_findings source fs) (sort_findings-IsOrdered fs)

-- The two lists have the same items, whatever their order.
abbrev pub HasSameItems : List Value → Entries → Type 0
HasSameItems out m =
    All (λ e. Any (λ g. g ≡ e.1) out) m
    × All (λ g. Any (λ e. e.1 ≡ g) m) out
    × (length out ≡ length m)

module _ (source : Source) (P : Value → Type 0) where
  insert_finding-Each :
      (f : Value) (gs : List Value) → P f → All P gs → All P (insert_finding source f gs)
  unfolding insert_finding
  insert_finding-Each f [] p ps = (p, tt)
  insert_finding-Each f (g ∷ gs) p ps = elim (Bool-cases (is_before source g f)) [
    | inl e ↦ rw e (ps.0, insert_finding-Each f gs p ps.1)
    | inr e ↦ rw e (p, ps)
  ]

  sort_findings-Each : (fs : List Value) → All P fs → All P (sort_findings source fs)
  unfolding sort_findings
  sort_findings-Each [] ps = tt
  sort_findings-Each (f ∷ fs) ps =
      insert_finding-Each f (sort_findings source fs) ps.0 (sort_findings-Each fs ps.1)

  insert_finding-Any :
      (f : Value) (gs : List Value) → Any P (f ∷ gs) → Any P (insert_finding source f gs)
  unfolding insert_finding
  insert_finding-Any f [] h = h
  insert_finding-Any f (g ∷ gs) h = elim (Bool-cases (is_before source g f)) [
    | inr e ↦ rw e h
    | inl e ↦ rw e (elim h [
      | inl p ↦ inr (insert_finding-Any f gs (inl p))
      | inr (inl p) ↦ inl p
      | inr (inr q) ↦ inr (insert_finding-Any f gs (inr q))
    ])
  ]

  sort_findings-Any : (fs : List Value) → Any P fs → Any P (sort_findings source fs)
  unfolding sort_findings
  sort_findings-Any [] h = h
  sort_findings-Any (f ∷ fs) (inl p) = insert_finding-Any f (sort_findings source fs) (inl p)
  sort_findings-Any (f ∷ fs) (inr h) =
      insert_finding-Any f (sort_findings source fs) (inr (sort_findings-Any fs h))

length-insert_finding :
    (source : Source) (f : Value) (gs : List Value)
    → length (insert_finding source f gs) ≡ suc (length gs)
unfolding insert_finding
length-insert_finding source f [] = refl
length-insert_finding source f (g ∷ gs) = elim (Bool-cases (is_before source g f)) [
  | inl e ↦ rw e (ap suc (length-insert_finding source f gs))
  | inr e ↦ rw e refl
]

length-sort_findings :
    (source : Source) (fs : List Value) → length (sort_findings source fs) ≡ length fs
unfolding sort_findings
length-sort_findings source [] = refl
length-sort_findings source (f ∷ fs) =
    length-insert_finding source f (sort_findings source fs)
    ∙ ap suc (length-sort_findings source fs)

length-values : (m : Entries) → length (values m) ≡ length m
unfolding values
length-values [] = refl
length-values (e ∷ m) = ap suc (length-values m)

values-Any : (m : Entries) → All (λ e. Any (λ g. g ≡ e.1) (values m)) m
unfolding values
values-Any [] = tt
values-Any ((k, v) ∷ m) = (inl refl, All-mono m (λ e h. inr h) (values-Any m))

entries-Any : (m : Entries) → All (λ g. Any (λ e. e.1 ≡ g) m) (values m)
unfolding values
entries-Any [] = tt
entries-Any ((k, v) ∷ m) = (inl refl, All-mono (values m) (λ g h. inr h) (entries-Any m))

pub sorted-HasSameItems :
    (source : Source) (m : Entries) → HasSameItems (sort_findings source (values m)) m
sorted-HasSameItems source m = (
  All-mono m (λ e h. sort_findings-Any source (λ g. g ≡ e.1) (values m) h) (values-Any m),
  sort_findings-Each source (λ g. Any (λ e. e.1 ≡ g) m) (values m) (entries-Any m),
  length-sort_findings source (values m) ∙ length-values m,
)
