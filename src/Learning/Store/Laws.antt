-- ===== src/Learning/Store/Laws.antt =====
-- `append` and `rollbackLast` of `makeProceduralStore` (tools/graph/self-improve.mjs): the namespaces
-- that are held, and what rollbacks restore.
use red_team_agent_orchestra.Common.{
  ℕ, zero, suc, String, ◌≡◌, refl, sym, ap, ◌∙◌, Bool-cases, inl, inr, List, [], ◌∷◌, ◌++◌, length,
  All, All-append, map, lookup, insert, lookup-insert, Result, ok, ◌>>=◌, >>=-eq-ok, ◌==◌, eq_iff,
  eq_refl, arith, if◌then◌else◌,
}
use red_team_agent_orchestra.Learning.Firewall.{
  assert_methodology_namespace, IsMethodology, assert-IsMethodology, assert-methodology,
  methodology,
}
use red_team_agent_orchestra.Js.{Value, obj}
use red_team_agent_orchestra.Learning.Store.{
  Store, Snapshot, copied, held, load, append, seeded, rollback_last, restore, entries_or_nil,
}

-- Whatever is held, or can be restored, is in a methodology namespace.
pub record IsFirewalled (s : Store) : Type 0 where
  pub mem_only : All (λ e. IsMethodology e.0) s.mem
  pub history_only : All (λ snap. IsMethodology snap.ns) s.history

unfoldable pub appended : String → Value → Store → Store
appended ns entry s = record {
  mem = insert ns (held ns s ++ entry ∷ []) s.mem;
  history = record { ns = ns; entries = map copied (held ns s) } ∷ s.history;
}

-- what an append gives
append_lem :
    (ns : String) (entry : Value) (s : Store) {t : Store}
    → append ns entry s ≡ ok t
    → IsMethodology ns × (t ≡ appended ns entry s)
unfolding append load appended
append_lem ns entry s h =
    let (_, m, k) = >>=-eq-ok (assert_methodology_namespace ns) _ h in
    let (before, l, k') = >>=-eq-ok (load ns s) _ k in
    let (_, _, e) = >>=-eq-ok (assert_methodology_namespace ns) _ l in
    (assert-IsMethodology ns m, cc)

pub load-methodology : (s : Store) → load methodology s ≡ ok (held methodology s)
unfolding load
load-methodology s = rw assert-methodology refl

pub append-methodology :
    (entry : Value) (s : Store) → append methodology entry s ≡ ok (appended methodology entry s)
unfolding append appended
append-methodology entry s = rw (assert-methodology, load-methodology s) refl

abbrev empty_store : Store
empty_store = record { mem = []; history = [] }

-- The stores that seeds, appends and rollbacks make.
pub data IsReached : Store → Type 0 where
  start :
      (seeds : List (String × List Value)) {s : Store}
      → seeded seeds empty_store ≡ ok s
      → IsReached s
  grown :
      (ns : String) (entry : Value) {s t : Store}
      → IsReached s
      → append ns entry s ≡ ok t
      → IsReached t
  undone : {s : Store} → IsReached s → IsReached (rollback_last s).0

insert-allowed :
    (ns : String) (l : List Value) (m : List (String × List Value))
    → IsMethodology ns
    → All (λ e. IsMethodology e.0) m
    → All (λ e. IsMethodology e.0) (insert ns l m)
unfolding insert
insert-allowed ns l [] h f = (h, tt)
insert-allowed ns l ((k, l') ∷ m) h f = elim (Bool-cases (k == ns)) [
  | inl e ↦ rw e (f.0, f.1)
  | inr e ↦ rw e (f.0, insert-allowed ns l m h f.1)
]

appended-IsFirewalled :
    (ns : String) (entry : Value) (s : Store)
    → IsMethodology ns
    → IsFirewalled s
    → IsFirewalled (appended ns entry s)
unfolding appended
appended-IsFirewalled ns entry s h f = record {
  mem_only = insert-allowed ns _ s.mem h f.mem_only;
  history_only = (h, f.history_only);
}

append-IsFirewalled :
    (ns : String) (entry : Value) {s t : Store}
    → append ns entry s ≡ ok t
    → IsFirewalled s
    → IsFirewalled t
append-IsFirewalled ns entry {s} h f =
    let (m, e) = append_lem ns entry s h in rw e (appended-IsFirewalled ns entry s m f)

seeded-IsFirewalled :
    (seeds : List (String × List Value)) (s : Store) {t : Store}
    → seeded seeds s ≡ ok t
    → IsFirewalled s
    → IsFirewalled t
unfolding seeded
seeded-IsFirewalled [] s {t} h f = let e : t ≡ s = cc in rw e f
seeded-IsFirewalled ((ns, l) ∷ rest) s h f =
    let (_, m, k) = >>=-eq-ok (assert_methodology_namespace ns) _ h in
    seeded-IsFirewalled rest (record s { mem = insert ns l s.mem }) k
      (record {
        mem_only = insert-allowed ns l s.mem (assert-IsMethodology ns m) f.mem_only;
        history_only = f.history_only;
      })

rollback-IsFirewalled : (s : Store) → IsFirewalled s → IsFirewalled (rollback_last s).0
unfolding rollback_last
rollback-IsFirewalled s f = by_history s.history f.history_only
  where
    by_history :
        (hist : List Snapshot)
        → All (λ snap. IsMethodology snap.ns) hist
        → IsFirewalled (restore hist s).0
    by_history [] h = f
    by_history (snap ∷ rest) h = record {
      mem_only = insert-allowed snap.ns snap.entries s.mem h.0 f.mem_only;
      history_only = h.1;
    }

empty-IsFirewalled : IsFirewalled empty_store
empty-IsFirewalled = record { mem_only = tt; history_only = tt }

-- Every store that seeds, appends and rollbacks make holds entries under namespaces whose first
-- part is `methodology` and that are no guardrail's, and its snapshots are of such namespaces.
pub reached-IsFirewalled : {s : Store} → IsReached s → IsFirewalled s
reached-IsFirewalled (start seeds h) = seeded-IsFirewalled seeds _ h empty-IsFirewalled
reached-IsFirewalled (grown ns entry r h) = append-IsFirewalled ns entry h (reached-IsFirewalled r)
reached-IsFirewalled (undone {s} r) = rollback-IsFirewalled s (reached-IsFirewalled r)

-- Two stores that hold the same entries and have the same snapshots.
pub record IsSame (s t : Store) : Type 0 where
  pub holds : (ns : String) → held ns s ≡ held ns t
  pub histories : s.history ≡ t.history

unfoldable pub appends : List (String × Value) → Store → Result Store
appends [] s = ok s
appends ((ns, e) ∷ rest) s = append ns e s >>= appends rest

unfoldable pub rollbacks : ℕ → Store → Store
rollbacks zero s = s
rollbacks (suc n) s = (rollback_last (rollbacks n s)).0

held-insert :
    (k ns : String) (l : List Value) (m : List (String × List Value)) (hist : List Snapshot)
    → held ns (record { mem = insert k l m; history = hist })
      ≡ (if k == ns then l else entries_or_nil (lookup ns m))
unfolding held
held-insert k ns l m hist = elim (Bool-cases (k == ns)) [
  | inl e ↦ rw (lookup-insert k ns l m, e) refl
  | inr e ↦ rw (lookup-insert k ns l m, e) refl
]

held_lem : (k : String) (s : Store) → entries_or_nil (lookup k s.mem) ≡ held k s
unfolding held
held_lem k s = refl

insert-IsSame :
    (x y : Snapshot) (m n : List (String × List Value)) (a b : List Snapshot)
    → x ≡ y
    → a ≡ b
    → ((ns : String) → entries_or_nil (lookup ns m) ≡ entries_or_nil (lookup ns n))
    → IsSame
        (record { mem = insert x.ns x.entries m; history = a })
        (record { mem = insert y.ns y.entries n; history = b })
insert-IsSame x y m n a b e h f = record { holds = λ ns. at_ns ns; histories = h }
  where
    at_ns :
        (ns : String)
        → held ns (record { mem = insert x.ns x.entries m; history = a })
          ≡ held ns (record { mem = insert y.ns y.entries n; history = b })
    at_ns ns =
        held-insert x.ns ns x.entries m a
        ∙ ap (λ z. if z.ns == ns then z.entries else entries_or_nil (lookup ns m)) e
        ∙ ap (λ z. if y.ns == ns then y.entries else z) (f ns)
        ∙ sym (held-insert y.ns ns y.entries n b)

rollback-IsSame : (s t : Store) → IsSame s t → IsSame (rollback_last s).0 (rollback_last t).0
unfolding rollback_last held
rollback-IsSame s t h = by_history s.history t.history h.histories
  where
    agree : (ns : String) → entries_or_nil (lookup ns s.mem) ≡ entries_or_nil (lookup ns t.mem)
    agree ns = h.holds ns

    by_history : (a b : List Snapshot) → a ≡ b → IsSame (restore a s).0 (restore b t).0
    by_history [] [] e = h
    by_history [] (x ∷ b) e = absurd cc
    by_history (x ∷ a) [] e = absurd cc
    by_history (x ∷ a) (y ∷ b) e =
        let heads : x ≡ y = cc in
        let tails : a ≡ b = cc in insert-IsSame x y s.mem t.mem a b heads tails agree

abbrev pub IsObject : Value → Type 0
IsObject (obj ps) = Unit
IsObject _ = ⊥

copied-IsObject : (v : Value) → IsObject v → copied v ≡ v
unfolding copied
copied-IsObject (obj ps) h = refl
copied-IsObject _ h = absurd h

-- A copy of objects is the same objects, their properties being values.
map-copied : (vs : List Value) → All IsObject vs → map copied vs ≡ vs
map-copied [] h = refl
map-copied (v ∷ vs) h = rw (copied-IsObject v h.0, map-copied vs h.1) refl

undo_append :
    (ns : String) (entry : Value) (s : Store)
    → All IsObject (held ns s)
    → IsSame (rollback_last (appended ns entry s)).0 s
unfolding rollback_last appended held
undo_append ns entry s objects =
    rw (map-copied (held ns s) objects) (record { holds = λ k. at_key k; histories = refl })
  where
    at_key :
        (k : String)
        → entries_or_nil
            (lookup k (insert ns (held ns s) (insert ns (held ns s ++ entry ∷ []) s.mem)))
          ≡ held k s
    at_key k = ground (
      arith,
      eq_iff ns k,
      lookup-insert ns k (held ns s) (insert ns (held ns s ++ entry ∷ []) s.mem),
      lookup-insert ns k (held ns s ++ entry ∷ []) s.mem,
    )

IsSame-trans : (s t u : Store) → IsSame s t → IsSame t u → IsSame s u
IsSame-trans s t u h k = record {
  holds = λ ns. h.holds ns ∙ k.holds ns;
  histories = h.histories ∙ k.histories;
}

held-appended_in :
    (ns k : String) (entry : Value) (s : Store)
    → held k (appended ns entry s) ≡ (if ns == k then held ns s ++ entry ∷ [] else held k s)
unfolding appended
held-appended_in ns k entry s =
    held-insert ns k (held ns s ++ entry ∷ []) s.mem _
    ∙ ap (λ l. if ns == k then held ns s ++ entry ∷ [] else l) (held_lem k s)

appended-objects :
    (ns k : String) (entry : Value) (s : Store)
    → IsObject entry
    → ((j : String) → All IsObject (held j s))
    → All IsObject (held k (appended ns entry s))
appended-objects ns k entry s new old = elim (Bool-cases (ns == k)) [
  | inl e ↦
      rw (held-appended_in ns k entry s, e)
        (All-append IsObject (held ns s) (entry ∷ []) (old ns) (new, tt))
  | inr e ↦ rw (held-appended_in ns k entry s, e) (old k)
]

-- Once a list of objects has been appended, under any of the allowed namespaces, to a store that
-- holds objects, as many rollbacks leave the store with the entries it held in every namespace, and
-- with its snapshots.
pub rollbacks-appends :
    (ops : List (String × Value)) (s : Store) {t : Store}
    → ((ns : String) → All IsObject (held ns s))
    → All (λ op. IsObject op.1) ops
    → appends ops s ≡ ok t
    → IsSame (rollbacks (length ops) t) s
unfolding appends rollbacks
rollbacks-appends [] s {t} old new h =
    let e : t ≡ s = cc in rw e (record { holds = λ ns. refl; histories = refl })
rollbacks-appends ((ns, e) ∷ rest) s {t} old new h =
    let (u, m, k) = >>=-eq-ok (append ns e s) (appends rest) h in
    let inner : IsSame (rollbacks (length rest) t) u =
      rollbacks-appends rest u
        (λ k. rw (append_lem ns e s m).1 (appended-objects ns k e s new.0 old)) new.1 k in
    let one : IsSame (rollback_last u).0 s =
      rw (append_lem ns e s m).1 (undo_append ns e s (old ns)) in
    IsSame-trans _ _ _ (rollback-IsSame _ _ inner) one

pub held-appended :
    (ns : String) (entry : Value) (s : Store)
    → held ns (appended ns entry s) ≡ held ns s ++ entry ∷ []
unfolding appended
held-appended ns entry s =
    held-insert ns ns (held ns s ++ entry ∷ []) s.mem _
    ∙ ap (λ b. if b then held ns s ++ entry ∷ [] else entries_or_nil (lookup ns s.mem)) (eq_refl ns)
