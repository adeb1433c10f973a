-- ===== src/Learning/Judge/Learns.antt =====
-- What `judgeFindings` of tools/graph/self-improve.mjs confirms, and what it suppresses.
use red_team_agent_orchestra.Common.{
  ◌≡◌, refl, sym, Bool, true, false, Bool-cases, inl, inr, ◌&&◌, List, [], ◌∷◌, keep, append-nil,
  All-keep, and-split, eq_refl, All, arith, ok,
}
use red_team_agent_orchestra.Js.{Value, undefined, null, bool, num, str, arr, obj, same, elements}
use red_team_agent_orchestra.Learning.Firewall.{methodology}
use red_team_agent_orchestra.Learning.Store.{Store, held}
use red_team_agent_orchestra.Learning.Store.Laws.{load-methodology}
use red_team_agent_orchestra.Learning.Candidate.{is_text}
use red_team_agent_orchestra.Learning.Judge.{
  fp_signature, has, suppressions, load_fp_suppressions, is_marked, Gate, opened, judge_findings,
}
use red_team_agent_orchestra.Learning.Judge.Kept.{
  IsKept, next, nexts, has-append, judge_each-nexts, nexts-IsKept,
}

next-grows :
    (f : Value) (g : Gate) (q : Value)
    → has g.suppressed q ≡ true
    → has (next f g).suppressed q ≡ true
unfolding next
next-grows f g q h = ground (arith, h, has-append g.suppressed (fp_signature f ∷ []) q)

nexts-grows :
    (fs : List Value) (g : Gate) (q : Value)
    → has g.suppressed q ≡ true
    → has (nexts fs g).suppressed q ≡ true
unfolding nexts
nexts-grows [] g q h = h
nexts-grows (f ∷ fs) g q h = nexts-grows fs (next f g) q (next-grows f g q h)

-- The marked findings whose signature is a text.
unfoldable pub is_learned : Value → Bool
is_learned f = is_marked f && is_text (fp_signature f)

same_self : (v : Value) → is_text v ≡ true → same v v ≡ true
unfolding same is_text
same_self (str s) h = eq_refl s
same_self undefined h = absurd (cc)
same_self null h = absurd (cc)
same_self (bool b) h = absurd (cc)
same_self (num n) h = absurd (cc)
same_self (arr vs) h = absurd (cc)
same_self (obj ps) h = absurd (cc)

self-in : (v : Value) → is_text v ≡ true → has (v ∷ []) v ≡ true
unfolding has
self-in v h = ground (arith, same_self v h)

next-learns :
    (f : Value) (g : Gate) → is_learned f ≡ true → has (next f g).suppressed (fp_signature f) ≡ true
unfolding next is_learned
next-learns f g h = elim (Bool-cases (has g.suppressed (fp_signature f))) [
  | inl e ↦ rw e e
  | inr e ↦
      let (marked, texted) = and-split (is_marked f) (is_text (fp_signature f)) h in
      rw (e, marked, has-append g.suppressed (fp_signature f ∷ []) (fp_signature f))
        (ground (arith, self-in (fp_signature f) texted))
]

nexts-learns :
    (fs : List Value) (g : Gate)
    → All (λ f. has (nexts fs g).suppressed (fp_signature f) ≡ true) (keep is_learned fs)
unfolding nexts
nexts-learns [] g = tt
nexts-learns (f ∷ fs) g = elim (Bool-cases (is_learned f)) [
  | inl e ↦
      rw e
        (nexts-grows fs (next f g) (fp_signature f) (next-learns f g e), nexts-learns fs (next f g))
  | inr e ↦ rw e (nexts-learns fs (next f g))
]

learned-stored :
    (sigs : List Value) (g : Gate) (fs : List Value)
    → IsKept sigs g
    → All (λ f. is_learned f ≡ true) fs
    → All (λ f. has g.suppressed (fp_signature f) ≡ true) fs
    → All (λ f. has (suppressions (held methodology g.store)) (fp_signature f) ≡ true) fs
unfolding is_learned
learned-stored sigs g [] h l s = tt
learned-stored sigs g (f ∷ fs) h l s =
    (ground (arith, h.in_store (fp_signature f), l.0, s.0), learned-stored sigs g fs h l.1 s.1)

-- What the gate makes of a list of candidates.
pub record IsJudged (candidates : Value) (s : Store) (g : Gate) : Type 0 where
  pub unknown :
      All
        (λ f.
          (is_marked f ≡ false)
          × (has (suppressions (held methodology s)) (fp_signature f) ≡ false))
        g.confirmed
  pub learned :
      All
        (λ f. has (suppressions (held methodology g.store)) (fp_signature f) ≡ true)
        (keep is_learned (elements candidates))

-- The gate ends without error on any candidates and store. No finding that it confirms carries a
-- false-positive mark or has a signature among the store's suppressions; and the signature of every
-- candidate that carries a mark, if it is a text, is among the suppressions of the store it leaves.
pub judge_findings-IsJudged :
    (candidates : Value) (s : Store)
    → (g : Gate) × (judge_findings candidates s ≡ ok g) × IsJudged candidates s g
unfolding judge_findings load_fp_suppressions
judge_findings-IsJudged candidates s =
    let sigs = suppressions (held methodology s) in
    let fs = elements candidates in
    let first : IsKept sigs (opened s sigs) = record {
      in_store = λ q. refl;
      grown = sym (append-nil sigs);
      unknown = tt;
    } in
    let kept = nexts-IsKept sigs fs (opened s sigs) first in
    (
      nexts fs (opened s sigs),
      rw (load-methodology s) (judge_each-nexts fs (opened s sigs)),
      record {
        unknown = kept.unknown;
        learned =
            learned-stored sigs (nexts fs (opened s sigs)) (keep is_learned fs) kept
              (All-keep is_learned fs) (nexts-learns fs (opened s sigs));
      },
    )
