-- ===== src/Guards/Commands/Gathered.antt =====
-- The texts that `gatherCommandTexts` of guardrails/core/guardrails-core.mjs finds.
use mathlib.Core.Path.{subst}
use red_team_agent_orchestra.Common.{
  ℕ, zero, suc, String, ◌≡◌, refl, true, false, Bool-cases, inl, inr, or-split, eq→path, ◌||◌, List,
  [], ◌∷◌, ◌++◌, All, All-append, All-each, includes, ◌==◌, eq_iff, eq_refl, or-false, arith,
}
use red_team_agent_orchestra.Learning.Promotion.Runs.{IsOnce}
use red_team_agent_orchestra.Guards.Host.{Host}
use red_team_agent_orchestra.Guards.Commands.{
  extract_inner, visit, visit_all, reversed, gather_command_texts,
}

includes-append :
    (ss ts : List String) (t : String) → includes (ss ++ ts) t ≡ (includes ss t || includes ts t)
includes-append [] ts t = refl
includes-append (s ∷ ss) ts t = ground (arith, includes-append ss ts t)

includes-reversed :
    (ss out : List String) (t : String)
    → includes (reversed ss out) t ≡ (includes ss t || includes out t)
unfolding reversed
includes-reversed [] out t = refl
includes-reversed (s ∷ ss) out t = ground (arith, includes-reversed ss (s ∷ out) t)

-- No text is there twice, and none is "".
abbrev pub IsClean : List String → Type 0
IsClean texts = IsOnce texts × All (λ t. (t == "") ≡ false) texts

append-IsOnce :
    (out : List String) (c : String) → IsOnce out → includes out c ≡ false → IsOnce (out ++ c ∷ [])
append-IsOnce [] c h e = (refl, tt)
append-IsOnce (s ∷ out) c h e =
    let parts : ((s == c) ≡ false) × (includes out c ≡ false) = or-false _ _ e in
    (
      ground (arith, includes-append out (c ∷ []) s, eq_iff c s, eq_iff s c, h.0, parts.0),
      append-IsOnce out c h.1 parts.1,
    )

append-IsClean :
    (out : List String) (c : String)
    → IsClean out
    → (c == "" || includes out c) ≡ false
    → IsClean (out ++ c ∷ [])
append-IsClean out c h e =
    let (full, fresh) = or-false _ _ e in
    (append-IsOnce out c h.0 fresh, All-append (λ t. (t == "") ≡ false) out (c ∷ []) h.1 (full, tt))

-- What visits keep, one keeps after the other.
visit_all-keeps :
    (P : List String → Type 0) (one : String → List String → List String) (ss out : List String)
    → ((c : String) (texts : List String) → P texts → P (one c texts))
    → P out
    → P (visit_all one ss out)
unfolding visit_all
visit_all-keeps P one [] out k h = h
visit_all-keeps P one (s ∷ ss) out k h = visit_all-keeps P one ss (one s out) k (k s out h)

-- What holds of the texts holds after a visit, if it still holds with a new command at their end.
visit-keeps :
    (P : List String → Type 0) (host : Host) (depth : ℕ) (command : String) (out : List String)
    → ((c : String) (texts : List String)
        → (c == "" || includes texts c) ≡ false
        → P texts
        → P (texts ++ c ∷ []))
    → P out
    → P (visit host depth command out)
unfolding visit
visit-keeps P host zero command out k h =
    elim (Bool-cases (command == "" || includes out command)) [
      | inl e ↦ rw e h
      | inr e ↦ rw e (k command out e h)
    ]
visit-keeps P host (suc depth) command out k h =
    elim (Bool-cases (command == "" || includes out command)) [
      | inl e ↦ rw e h
      | inr e ↦ rw e (
          visit_all-keeps P (visit host depth) (reversed (extract_inner host command) [])
            (out ++ command ∷ []) (λ c texts p. visit-keeps P host depth c texts k p)
            (k command out e h))
    ]

-- It is "" or found.
abbrev pub Found : String → List String → Type 0
Found t texts = (t == "" || includes texts t) ≡ true

append-Found : (t c : String) (texts : List String) → Found t texts → Found t (texts ++ c ∷ [])
append-Found t c texts h = ground (arith, includes-append texts (c ∷ []) t)

append-Found_self : (c : String) (texts : List String) → Found c (texts ++ c ∷ [])
append-Found_self c texts = ground (arith, includes-append texts (c ∷ []) c, eq_refl c)

-- What was found stays found.
visit-Found_still :
    (host : Host) (depth : ℕ) (t command : String) (out : List String)
    → Found t out
    → Found t (visit host depth command out)
visit-Found_still host depth t command out h =
    visit-keeps (Found t) host depth command out (λ c texts e p. append-Found t c texts p) h

visit-Found :
    (host : Host) (depth : ℕ) (command : String) (out : List String)
    → Found command (visit host depth command out)
unfolding visit
visit-Found host zero command out = elim (Bool-cases (command == "" || includes out command)) [
  | inl e ↦ rw e e
  | inr e ↦ rw e (append-Found_self command out)
]
visit-Found host (suc depth) command out =
    elim (Bool-cases (command == "" || includes out command)) [
      | inl e ↦ rw e e
      | inr e ↦ rw e (
          visit_all-keeps (Found command) (visit host depth)
            (reversed (extract_inner host command) []) (out ++ command ∷ [])
            (λ c texts p. visit-Found_still host depth command c texts p)
            (append-Found_self command out))
    ]

visit_all-Found :
    (host : Host) (depth : ℕ) (ss out : List String) (t : String)
    → includes ss t ≡ true
    → Found t (visit_all (visit host depth) ss out)
unfolding visit_all
visit_all-Found host depth [] out t h = absurd (cc)
visit_all-Found host depth (s ∷ ss) out t h = elim (or-split _ _ h) [
  | inl e ↦
      visit_all-keeps (Found t) (visit host depth) ss (visit host depth s out)
        (λ c texts p. visit-Found_still host depth t c texts p)
        (subst (λ u. Found u (visit host depth s out)) (eq→path s t e)
          (visit-Found host depth s out))
  | inr e ↦ visit_all-Found host depth ss (visit host depth s out) t e
]

visit-inner :
    (host : Host) (depth : ℕ) (command t : String) (out : List String)
    → (command == "" || includes out command) ≡ false
    → includes (extract_inner host command) t ≡ true
    → Found t (visit host (suc depth) command out)
unfolding visit
visit-inner host depth command t out e h = rw e (
    visit_all-Found host depth (reversed (extract_inner host command) []) (out ++ command ∷ []) t
      (ground (arith, includes-reversed (extract_inner host command) [] t, h)))

-- A command that is not "" is among the texts, and so is every text that is directly within it,
-- unless that is "". No text is "", and none is there twice.
pub gather_command_texts-IsWhole :
    (host : Host) (command : String)
    → (command == "") ≡ false
    → (includes (gather_command_texts host command) command ≡ true)
      × All (λ t. Found t (gather_command_texts host command)) (extract_inner host command)
      × IsClean (gather_command_texts host command)
unfolding gather_command_texts
gather_command_texts-IsWhole host command full =
    let fresh : (command == "" || includes [] command) ≡ false = ground (arith, full) in
    let there : Found command (visit host 3 command []) = visit-Found host 3 command [] in
    (
      ground (arith, full, there),
      All-each (λ t. Found t (visit host 3 command [])) (extract_inner host command)
          (λ t h. visit-inner host 2 command t [] fresh h),
      visit-keeps IsClean host 3 command [] (λ c texts e p. append-IsClean texts c p e) (tt, tt),
    )
