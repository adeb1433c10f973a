-- ===== src/Orchestration/Reduce/Keys.antt =====
-- The map of findings in `cmdReduce` of tools/orchestration/manifest.mjs: its keys.
use red_team_agent_orchestra.Common.{
  String, ◌≡◌, refl, ap, ◌∙◌, Bool, true, false, Bool-cases, inl, inr, Option, none, some, List, [],
  ◌∷◌, All, is_some, eq_refl, arith,
}
use red_team_agent_orchestra.Js.{
  Value, str, undefined, null, bool, num, arr, obj, same, same-true, same-apart,
}
use red_team_agent_orchestra.Graph.Reducers.{
  Entries, get_entry, set_entry, copy_finding, merge_finding,
}
use red_team_agent_orchestra.Orchestration.Tasks.Queue.{get_entry-set}
use red_team_agent_orchestra.Orchestration.Reduce.{
  reduce_key, merged_at, reduce_finding, reduce_findings,
}

-- No key is there twice.
abbrev pub HasUniqueKeys : Entries → Type 0
HasUniqueKeys [] = Unit
HasUniqueKeys ((k, v) ∷ m) = (is_some (get_entry k m) ≡ false) × HasUniqueKeys m

set_entry-absent :
    (j k v : Value) (m : Entries)
    → same k j ≡ false
    → is_some (get_entry j m) ≡ false
    → is_some (get_entry j (set_entry k v m)) ≡ false
unfolding get_entry set_entry
set_entry-absent j k v [] e h = rw e refl
set_entry-absent j k v ((i, w) ∷ m) e h = elim (Bool-cases (same i k)) [
  | inl f ↦
      let apart : same i j ≡ false = ap (λ x. same x j) (same-true i k f) ∙ e in
      rw (f, apart, get_entry) (rw (apart, get_entry) at h)
  | inr f ↦ elim (Bool-cases (same i j)) [
    | inl g ↦ absurd (cc (rw (g, get_entry) at h))
    | inr g ↦ rw (f, g, get_entry) (set_entry-absent j k v m e (rw (g, get_entry) at h))
  ]
]

set_entry-HasUniqueKeys :
    (k v : Value) (m : Entries) → HasUniqueKeys m → HasUniqueKeys (set_entry k v m)
unfolding set_entry get_entry
set_entry-HasUniqueKeys k v [] h = (refl, tt)
set_entry-HasUniqueKeys k v ((j, w) ∷ m) h = elim (Bool-cases (same j k)) [
  | inl e ↦ rw e h
  | inr e ↦
      rw e (set_entry-absent j k v m (same-apart j k e) h.0, set_entry-HasUniqueKeys k v m h.1)
]

merged_at-HasUniqueKeys :
    (o : Option Value) (k f : Value) (m : Entries)
    → HasUniqueKeys m
    → HasUniqueKeys (merged_at o k f m)
merged_at-HasUniqueKeys none k f m h = set_entry-HasUniqueKeys k (copy_finding f) m h
merged_at-HasUniqueKeys (some g) k f m h = set_entry-HasUniqueKeys k (merge_finding g f) m h

pub reduce_findings-HasUniqueKeys :
    (fs : List Value) (m : Entries) → HasUniqueKeys m → HasUniqueKeys (reduce_findings fs m)
unfolding reduce_findings reduce_finding
reduce_findings-HasUniqueKeys [] m h = h
reduce_findings-HasUniqueKeys (f ∷ fs) m h =
    reduce_findings-HasUniqueKeys fs _
      (merged_at-HasUniqueKeys (get_entry (reduce_key f) m) (reduce_key f) f m h)

-- A key that is a text is there.
abbrev pub is_kept : Value → Entries → Bool
is_kept (str k) m = is_some (get_entry (str k) m)
is_kept v m = true

set_entry-kept :
    (k v : Value) (s : String) (m : Entries)
    → is_kept (str s) m ≡ true
    → is_kept (str s) (set_entry k v m) ≡ true
unfolding get_entry set_entry
set_entry-kept k v s [] h = absurd (cc)
set_entry-kept k v s ((j, w) ∷ m) h = elim (Bool-cases (same j (str s))) [
  | inl e ↦ elim (Bool-cases (same j k)) [
    | inl f ↦ rw (f, e, get_entry) refl
    | inr f ↦ rw (f, e, get_entry) refl
  ]
  | inr e ↦ elim (Bool-cases (same j k)) [
    | inl f ↦ rw (f, e, get_entry) (rw (e, get_entry) at h)
    | inr f ↦ rw (f, e, get_entry) (set_entry-kept k v s m (rw (e, get_entry) at h))
  ]
]

set_entry-kept_self : (k v : Value) (m : Entries) → is_kept k (set_entry k v m) ≡ true
set_entry-kept_self (str s) v m = ground (arith, eq_refl s, get_entry-set m s s v)
set_entry-kept_self undefined v m = refl
set_entry-kept_self null v m = refl
set_entry-kept_self (bool b) v m = refl
set_entry-kept_self (num n) v m = refl
set_entry-kept_self (arr vs) v m = refl
set_entry-kept_self (obj ps) v m = refl

merged_at-kept :
    (o : Option Value) (k f : Value) (s : String) (m : Entries)
    → is_kept (str s) m ≡ true
    → is_kept (str s) (merged_at o k f m) ≡ true
merged_at-kept none k f s m h = set_entry-kept k (copy_finding f) s m h
merged_at-kept (some g) k f s m h = set_entry-kept k (merge_finding g f) s m h

merged_at-kept_self :
    (o : Option Value) (k f : Value) (m : Entries) → is_kept k (merged_at o k f m) ≡ true
merged_at-kept_self none k f m = set_entry-kept_self k (copy_finding f) m
merged_at-kept_self (some g) k f m = set_entry-kept_self k (merge_finding g f) m

reduce_findings-kept :
    (k : Value) (fs : List Value) (m : Entries)
    → is_kept k m ≡ true
    → is_kept k (reduce_findings fs m) ≡ true
unfolding reduce_findings reduce_finding
reduce_findings-kept k [] m h = h
reduce_findings-kept (str s) (f ∷ fs) m h =
    reduce_findings-kept (str s) fs _
      (merged_at-kept (get_entry (reduce_key f) m) (reduce_key f) f s m h)
reduce_findings-kept undefined (f ∷ fs) m h = refl
reduce_findings-kept null (f ∷ fs) m h = refl
reduce_findings-kept (bool b) (f ∷ fs) m h = refl
reduce_findings-kept (num n) (f ∷ fs) m h = refl
reduce_findings-kept (arr vs) (f ∷ fs) m h = refl
reduce_findings-kept (obj ps) (f ∷ fs) m h = refl

pub reduce_findings-AllKept :
    (fs : List Value) (m : Entries)
    → All (λ f. is_kept (reduce_key f) (reduce_findings fs m) ≡ true) fs
unfolding reduce_findings reduce_finding
reduce_findings-AllKept [] m = tt
reduce_findings-AllKept (f ∷ fs) m = (
  reduce_findings-kept (reduce_key f) fs _
      (merged_at-kept_self (get_entry (reduce_key f) m) (reduce_key f) f m),
  reduce_findings-AllKept fs _,
)
