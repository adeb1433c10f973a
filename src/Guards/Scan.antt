-- ===== src/Guards/Scan.antt =====
-- The loop that the three evaluators share: every segment of every text of a command is examined,
-- in order, until one is objected to. What is found names the segment.
use mathlib.Core.Path.{subst}
use red_team_agent_orchestra.Common.{
  String, ◌≡◌, refl, sym, ap, ◌∙◌, Option, none, some, List, [], ◌∷◌, All, Any, inl, inr,
  Option-cases, Bool-cases, or-split, eq→path, ◌==◌, All-includes, Result, throw, ok, All-mono,
  All-out, Any-mono, Any-out,
}
use red_team_agent_orchestra.Js.Text.{trim, is_space}
use red_team_agent_orchestra.Js.Regex.{
  prefix, text_length, find_group, is_line_end, is_digit, is_alpha, is_word, where_true, match_one,
  match_text, repeat, run, match_at, up_to, exactly, text, one_of, among,
}
use red_team_agent_orchestra.Js.Regex.Search.{
  first_from, exec, test, captured, replace_from, replace, split_from, split_by, all_from,
  all_matches,
}
use red_team_agent_orchestra.Guards.Host.{Host}
use red_team_agent_orchestra.Guards.Commands.{split_segments, extract_inner, gather_command_texts}
use red_team_agent_orchestra.Guards.Commands.Gathered.{Found, gather_command_texts-IsWhole}

pub record Finding (Reason : Type 0) : Type 0 where
  pub segment : String
  pub reason : Reason

-- the first thing found in a list, in order
unfoldable pub first_of : {Item Found : Type 0} → (Item → Option Found) → List Item → Option Found
first_of examine [] = none
first_of examine (x ∷ xs) = elim (examine x) [
  | some found ↦ some found
  | none ↦ first_of examine xs
]

module _ {Reason : Type 0} where
  abbrev pub found_at : String → Option Reason → Option (Finding Reason)
  found_at segment none = none
  found_at segment (some reason) = some (record { segment = segment; reason = reason })

  unfoldable pub scan_text : (String → Option Reason) → String → Option (Finding Reason)
  scan_text examine text = first_of (λ s. found_at s (examine s)) (split_segments text)

  -- A command that is "" has no text.
  unfoldable pub scan : Host → (String → Option Reason) → String → Option (Finding Reason)
  scan host examine command = first_of (scan_text examine) (gather_command_texts host command)

abbrev settled : {Reason : Type 0} → String → Result Reason → Result (Option (Finding Reason))
settled segment (throw problem) = throw problem
settled segment (ok reason) = ok (some (record { segment = segment; reason = reason }))

-- What a scan found; where examining a segment threw, the scan throws.
unfoldable pub outcome :
    {Reason : Type 0} → Option (Finding (Result Reason)) → Result (Option (Finding Reason))
outcome none = ok none
outcome (some found) = settled found.segment found.reason

-- A segment of a command: of its text, or of a text within it.
abbrev pub InCommand : Host → String → String → Type 0
InCommand host command segment =
    Any (λ text. Any (λ s. s ≡ segment) (split_segments text)) (gather_command_texts host command)

-- What holds of all segments of a text.
abbrev Within : (String → Type 0) → String → Type 0
Within P text = All P (split_segments text)

-- What holds of all segments of a command, of all segments of each text directly within it, and of
-- all segments of each text that is gathered from it.
abbrev pub Throughout : Host → String → (String → Type 0) → Type 0
Throughout host command P =
    Within P command
    × All (Within P) (extract_inner host command)
    × All (Within P) (gather_command_texts host command)

pub Throughout-mono :
    {P Q : String → Type 0} (host : Host) (command : String)
    → ((s : String) → P s → Q s)
    → Throughout host command P
    → Throughout host command Q
Throughout-mono {P} {Q} host command f (own, inner, all) =
    let within : (text : String) → Within P text → Within Q text =
      λ text h. All-mono (split_segments text) f h in
    (
      within command own,
      All-mono (extract_inner host command) within inner,
      All-mono (gather_command_texts host command) within all,
    )

no_segments : split_segments "" ≡ []
unfolding split_segments trim is_space prefix text_length find_group is_line_end is_digit is_alpha
    is_word where_true match_one match_text repeat run match_at up_to exactly text one_of among
    first_from exec test captured replace_from replace split_from split_by all_from all_matches
no_segments = refl

none_within : (host : Host) → extract_inner host "" ≡ []
unfolding extract_inner trim is_space prefix text_length find_group is_line_end is_digit is_alpha
    is_word where_true match_one match_text repeat run match_at up_to exactly text one_of among
    first_from exec test captured replace_from replace split_from split_by all_from all_matches
none_within host = refl

-- What holds of the segments of all texts that are gathered holds of those of one that was found.
found-Within :
    (P : String → Type 0) (texts : List String) (t : String)
    → All (Within P) texts
    → Found t texts
    → Within P t
found-Within P texts t h found = elim (or-split _ _ found) [
  | inl e ↦ subst (Within P) (sym (eq→path t "" e)) (rw no_segments tt)
  | inr e ↦ All-includes (Within P) texts t e h
]

gathered-Throughout :
    (P : String → Type 0) (host : Host) (command : String)
    → All (Within P) (gather_command_texts host command)
    → Throughout host command P
gathered-Throughout P host command h = elim (Bool-cases (command == "")) [
  | inl e ↦
      subst (λ c. All (Within P) (gather_command_texts host c) → Throughout host c P)
        (sym (eq→path command "" e)) (λ k. (rw no_segments tt, rw (none_within host) tt, k)) h
  | inr e ↦
      let (there, inner, clean) = gather_command_texts-IsWhole host command e in
      (
        All-includes (Within P) (gather_command_texts host command) command there h,
        All-mono (extract_inner host command)
            (λ t found. found-Within P (gather_command_texts host command) t h found) inner,
        h,
      )
]

pub Throughout-at :
    (P : String → Type 0) (host : Host) (command segment : String)
    → Throughout host command P
    → InCommand host command segment
    → P segment
Throughout-at P host command segment h there =
    All-out (gather_command_texts host command)
      (λ text ps here. All-out (split_segments text) (λ s p same. subst P same p) ps here) h.2 there

pub first_of-none :
    {Item Found : Type 0} (examine : Item → Option Found) (xs : List Item)
    → first_of examine xs ≡ none
    → All (λ x. examine x ≡ none) xs
unfolding first_of
first_of-none examine [] e = tt
first_of-none examine (x ∷ xs) e = elim (Option-cases (examine x)) [
  | inl h ↦ (h, first_of-none examine xs (rw (h, first_of) at e))
  | inr (found, h) ↦ absurd (cc (rw (h, first_of) at e))
]

pub first_of-some :
    {Item Found : Type 0} (examine : Item → Option Found) (xs : List Item) (found : Found)
    → first_of examine xs ≡ some found
    → Any (λ x. examine x ≡ some found) xs
unfolding first_of
first_of-some examine [] found e = absurd (cc)
first_of-some examine (x ∷ xs) found e = elim (Option-cases (examine x)) [
  | inl h ↦ inr (first_of-some examine xs found (rw (h, first_of) at e))
  | inr (other, h) ↦ inl (h ∙ (rw (h, first_of) at e))
]

module _ {Reason : Type 0} (host : Host) (examine : String → Option Reason) (command : String) where
  found_at-none : (s : String) (o : Option Reason) → found_at s o ≡ none → o ≡ none
  found_at-none s none e = refl
  found_at-none s (some reason) e = absurd (cc)

  found_at-some :
      (s : String) (o : Option Reason) (found : Finding Reason)
      → found_at s o ≡ some found
      → (s ≡ found.segment) × (o ≡ some found.reason)
  found_at-some s none found e = absurd (cc)
  found_at-some s (some reason) found e =
      let same : record { segment = s; reason = reason } ≡ found = cc in
      (ap (λ f. f.segment) same, ap (λ f. some f.reason) same)

  pub scan-none : scan host examine command ≡ none → Throughout host command (λ s. examine s ≡ none)
  unfolding scan scan_text
  scan-none e =
      gathered-Throughout (λ s. examine s ≡ none) host command
        (All-mono (gather_command_texts host command)
          (λ text h.
            All-mono (split_segments text) (λ s n. found_at-none s (examine s) n)
              (first_of-none (λ s. found_at s (examine s)) (split_segments text) h))
          (first_of-none (scan_text examine) (gather_command_texts host command) e))

  found_in :
      (found : Finding Reason) (text : String)
      → scan_text examine text ≡ some found
      → Any (λ s. (s ≡ found.segment) × (examine s ≡ some found.reason)) (split_segments text)
  unfolding scan_text
  found_in found text e =
      Any-mono (split_segments text) (λ s h. found_at-some s (examine s) found h)
        (first_of-some (λ s. found_at s (examine s)) (split_segments text) found e)

  pub scan-some :
      (found : Finding Reason)
      → scan host examine command ≡ some found
      → InCommand host command found.segment × (examine found.segment ≡ some found.reason)
  unfolding scan
  scan-some found e =
      let texts = first_of-some (scan_text examine) (gather_command_texts host command) found e in
      (
        Any-mono (gather_command_texts host command)
            (λ text h. Any-mono (split_segments text) (λ s k. k.0) (found_in found text h)) texts,
        Any-out (gather_command_texts host command)
            (λ text h.
              Any-out (split_segments text) (λ s k. ap examine (sym k.0) ∙ k.1)
                (found_in found text h))
            texts,
      )

settled-none :
    {Reason : Type 0} (segment : String) (r : Result Reason) → settled segment r ≡ ok none → ⊥
settled-none segment (throw problem) e = cc
settled-none segment (ok reason) e = cc

pub outcome-none :
    {Reason : Type 0} (o : Option (Finding (Result Reason))) → outcome o ≡ ok none → o ≡ none
unfolding outcome
outcome-none none e = refl
outcome-none (some found) e = absurd (settled-none found.segment found.reason e)
