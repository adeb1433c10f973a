-- ===== src/Learning/Promotion/Earned.antt =====
-- What `promoteLearningCandidate` of tools/graph/self-improve.mjs asks for, and what it writes.
use red_team_agent_orchestra.Common.{
  String, ◌≡◌, refl, sym, ap, ◌∙◌, Bool, true, Bool-cases, inl, inr, List, [], ◌∷◌, map, keep, All,
  Any, includes, ◌==◌, eq_iff, eq_refl, arith,
}
use red_team_agent_orchestra.Js.{Value, undefined, null, num, str, bool, arr, obj, get}
use red_team_agent_orchestra.Learning.Candidate.{is_attributed, is_text, text_of}
use red_team_agent_orchestra.Learning.Promotion.{is_peer, peers_of, runs_of, pluck}
use red_team_agent_orchestra.Learning.Promotion.Runs.{
  IsOnce, distinct-IsOnce, sort-IsOnce, includes-sort, includes-distinct,
}

includes_self : (ss : List String) → All (λ s. includes ss s ≡ true) ss
includes_self [] = tt
includes_self (s ∷ ss) = (ground (arith, eq_refl s), widen ss (includes_self ss))
  where
    widen :
        (ts : List String)
        → All (λ t. includes ss t ≡ true) ts
        → All (λ t. includes (s ∷ ss) t ≡ true) ts
    widen [] h = tt
    widen (t ∷ ts) h = (ground (arith, h.0), widen ts h.1)

plucked :
    (key r : String) (es : List Value)
    → includes (map text_of (pluck key es)) r ≡ true
    → Any (λ e. text_of (get e key) ≡ r) es
plucked key r [] h = absurd (cc)
plucked key r (e ∷ es) h = elim (Bool-cases (text_of (get e key) == r)) [
  | inl k ↦ inl ((eq_iff _ r).0 k)
  | inr k ↦ inr (plucked key r es (ground arith))
]

Any-keep :
    (p : Value → Bool) (P : Value → Type 0) (es : List Value)
    → Any P (keep p es)
    → Any (λ e. (p e ≡ true) × P e) es
Any-keep p P [] h = h
Any-keep p P (e ∷ es) h = elim (Bool-cases (p e)) [
  | inl k ↦ elim (rw k at h) [ inl x ↦ inl (k, x) | inr y ↦ inr (Any-keep p P es y) ]
  | inr k ↦ inr (Any-keep p P es (rw k at h))
]

module _ (sha256 : String → String) (c : Value) where
  -- A stored candidate of another run, or of this one, that supports `c` under the run id `r`.
  pub Supports : String → Value → Type 0
  Supports r e = (is_peer sha256 c e ≡ true) × (text_of (get e "run_id") ≡ r)

  run-supported :
      (entries : List Value) (r : String)
      → includes (runs_of (peers_of sha256 c entries)) r ≡ true
      → Any (Supports r) entries
  unfolding runs_of peers_of Supports
  run-supported entries r h =
      Any-keep (is_peer sha256 c) (λ e. text_of (get e "run_id") ≡ r) entries
        (plucked "run_id" r (keep (is_peer sha256 c) entries)
          (sym (includes-sort r _ ∙ includes-distinct r _) ∙ h))

  pub runs-supported :
      (entries : List Value)
      → All (λ r. Any (Supports r) entries) (runs_of (peers_of sha256 c entries))
  runs-supported entries = each _ (includes_self (runs_of (peers_of sha256 c entries)))
    where
      each :
          (rs : List String)
          → All (λ r. includes (runs_of (peers_of sha256 c entries)) r ≡ true) rs
          → All (λ r. Any (Supports r) entries) rs
      each [] h = tt
      each (r ∷ rs) h = (run-supported entries r h.0, each rs h.1)

  pub runs-IsOnce : (entries : List Value) → IsOnce (runs_of (peers_of sha256 c entries))
  unfolding runs_of
  runs-IsOnce entries = sort-IsOnce _ (distinct-IsOnce _)

  attributed-text :
      (v : Value) (r : String)
      → is_attributed v ≡ true
      → text_of v ≡ r
      → is_attributed (str r) ≡ true
  unfolding is_attributed is_text text_of
  attributed-text (str s) r h e = rw (sym e) h
  attributed-text undefined r h e = absurd (cc)
  attributed-text null r h e = absurd (cc)
  attributed-text (bool b) r h e = absurd (cc)
  attributed-text (num n) r h e = absurd (cc)
  attributed-text (arr vs) r h e = absurd (cc)
  attributed-text (obj ps) r h e = absurd (cc)

  pub Supports-attributed :
      (entries : List Value) (r : String) → Any (Supports r) entries → is_attributed (str r) ≡ true
  unfolding Supports is_peer
  Supports-attributed [] r h = absurd h
  Supports-attributed (e ∷ es) r (inl h) =
      attributed-text (get e "run_id") r (ground (arith, h.0)) h.1
  Supports-attributed (e ∷ es) r (inr h) = Supports-attributed es r h

pub kept-texts :
    (rs : List String)
    → All (λ r. is_attributed (str r) ≡ true) rs
    → map text_of (keep is_attributed (map str rs)) ≡ rs
unfolding text_of
kept-texts [] h = refl
kept-texts (r ∷ rs) h = rw h.0 (ap (λ z. r ∷ z) (kept-texts rs h.1))
