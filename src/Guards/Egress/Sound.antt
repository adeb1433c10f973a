-- ===== src/Guards/Egress/Sound.antt =====
-- What `evaluateEgress` of guardrails/core/egress-core.mjs lets pass.
use red_team_agent_orchestra.Common.{
  String, ◌≡◌, refl, inl, inr, true, false, Bool-cases, ◌&&◌, ◌||◌, Option, none, some,
  Option-cases, List, [], ◌∷◌, All, All-mono, find-none, ◌==◌, eq→path, ◌⊎◌, Result, throw, ok,
}
use red_team_agent_orchestra.Js.{Value}
use red_team_agent_orchestra.Js.Text.{trim, begins_with}
use red_team_agent_orchestra.Guards.Host.{Host}
use red_team_agent_orchestra.Guards.Scan.{
  Throughout, Throughout-mono, scan-none, outcome-none, first_of-none,
}
use red_team_agent_orchestra.Guards.Commands.{extract_command}
use red_team_agent_orchestra.Guards.Engagement.{lines_of}
use red_team_agent_orchestra.Guards.Engagement.Gate.{
  Gate, closed, opened, is_empty, gate_of-opened, Authorized, unauthorized-none,
}
use red_team_agent_orchestra.Guards.Hosts.{Target, classify_candidate}
use red_team_agent_orchestra.Guards.Egress.{Probe, parse_probe_segment}
use red_team_agent_orchestra.Guards.Egress.Allowlist.{
  Allowlist, vacant, external_testing_gate, load_allowlist, read_external_testing_config,
  FileReason, check_line, check_lines, verify_target_file, on_allowlist,
}
use red_team_agent_orchestra.Guards.Egress.Lock.{
  file_at, check_scope, check_gate, check_probe, check_segment, evaluate_egress,
}

-- A line of a list of targets names no host of the internet, or one on the list.
abbrev pub IsLineInScope : Host → Allowlist → String → Type 0
IsLineInScope host list line =
    ((trim line == "" || begins_with (trim line) "#") ≡ true)
    ⊎ (classify_candidate host (trim line) ≡ none)
    ⊎ ((t : Target) × (classify_candidate host (trim line) ≡ some t)
        × (on_allowlist t.host list ≡ true))

-- A list of targets is the allowlist's own file, or a file that can be read and has no host beyond
-- the list.
abbrev pub IsFileInScope : Host → Allowlist → String → Type 0
IsFileInScope host list path =
    (path ≡ list.path)
    ⊎ ((content : String) × (host.file path ≡ some content)
        × All (IsLineInScope host list) (lines_of content))

check_line-none :
    (host : Host) (path : String) (list : Allowlist) (line : String)
    → check_line host path list line ≡ none
    → IsLineInScope host list line
unfolding check_line
check_line-none host path list line e =
    elim (Bool-cases (trim line == "" || begins_with (trim line) "#")) [
      | inl h ↦ inl h
      | inr h ↦ elim (Option-cases (classify_candidate host (trim line))) [
        | inl n ↦ inr (inl n)
        | inr (t, found) ↦ elim (Bool-cases (on_allowlist t.host list)) [
          | inl on ↦ inr (inr (t, found, on))
          | inr off ↦ absurd (cc (rw (h, found, off) at e))
        ]
      ]
    ]

check_lines-none :
    (host : Host) (path : String) (list : Allowlist) (lines : List String)
    → check_lines host path list lines ≡ none
    → All (IsLineInScope host list) lines
unfolding check_lines
check_lines-none host path list [] e = tt
check_lines-none host path list (l ∷ ls) e = elim (Option-cases (check_line host path list l)) [
  | inl h ↦ (
    check_line-none host path list l h,
    check_lines-none host path list ls (rw (h, check_lines) at e),
  )
  | inr (reason, h) ↦ absurd (cc (rw (h, check_lines) at e))
]

verify_target_file-none :
    (host : Host) (path : String) (list : Allowlist)
    → verify_target_file host path list ≡ none
    → IsFileInScope host list path
unfolding verify_target_file
verify_target_file-none host path list e = elim (Bool-cases (path == list.path)) [
  | inl same ↦ inl (eq→path path list.path same)
  | inr other ↦ elim (Option-cases (host.file path)) [
    | inl n ↦ absurd (cc (rw (other, n) at e))
    | inr (content, found) ↦ inr (
      content,
      found,
      check_lines-none host path list (lines_of content) (rw (other, found) at e),
    )
  ]
]

-- The engagement is authorized, the session's allowlist is not empty, every target is on it, and
-- every file of targets is within it.
pub record InScope (host : Host) (cwd : String) (p : Probe) : Type 0 where
  pub list : Allowlist
  pub is_authorized :
      Authorized host "external-active-testing" (read_external_testing_config host cwd)
  pub is_loaded : load_allowlist host cwd ≡ ok (some list)
  pub is_filled : vacant list ≡ false
  pub has_targets : All (λ target. on_allowlist target list ≡ true) p.targets
  pub has_files : All (λ file. IsFileInScope host list (file_at host cwd file)) p.files

-- What may be done with a probe: nothing is reached that is not in scope.
abbrev pub IsHarmless : Host → String → Option (String × Probe) → Type 0
IsHarmless host cwd none = Unit
IsHarmless host cwd (some (tool, p)) =
    ((is_empty p.targets && is_empty p.files) ≡ true) ⊎ InScope host cwd p

check_scope-none :
    (tool : String) (file : Option FileReason) (target : Option String)
    → check_scope tool file target ≡ none
    → (file ≡ none) × (target ≡ none)
unfolding check_scope
check_scope-none tool none none e = (refl, refl)
check_scope-none tool none (some target) e = absurd (cc)
check_scope-none tool (some reason) target e = absurd (cc)

-- A probe that reaches something passes only through an open gate.
check_gate-opened :
    (host : Host) (cwd tool : String) (p : Probe) (gate : Result (Gate Allowlist))
    → check_gate host cwd tool p gate ≡ none
    → (list : Allowlist) × (gate ≡ ok (opened list))
      × All (λ target. on_allowlist target list ≡ true) p.targets
      × All (λ file. IsFileInScope host list (file_at host cwd file)) p.files
unfolding check_gate
check_gate-opened host cwd tool p (throw problem) e = absurd (cc)
check_gate-opened host cwd tool p (ok (closed reason)) e = absurd (cc)
check_gate-opened host cwd tool p (ok (opened list)) e =
    let (files, targets) = check_scope-none tool _ _ e in
    (
      list,
      refl,
      find-none (λ target. on_allowlist target list) p.targets targets,
      All-mono p.files (λ f h. verify_target_file-none host (file_at host cwd f) list h)
          (first_of-none (λ f. verify_target_file host (file_at host cwd f) list) p.files files),
    )

check_probe-none :
    (host : Host) (cwd : String) (probe : Option (String × Probe))
    → check_probe host cwd probe ≡ none
    → IsHarmless host cwd probe
unfolding check_probe external_testing_gate
check_probe-none host cwd none e = tt
check_probe-none host cwd (some (tool, p)) e =
    elim (Bool-cases (is_empty p.targets && is_empty p.files)) [
      | inl h ↦ inl h
      | inr h ↦
          let (list, open_to, on_list, files) =
            check_gate-opened host cwd tool p (external_testing_gate host cwd) (rw h at e) in
          let (passed, loaded, filled) = gate_of-opened vacant _ _ list open_to in
          inr (record {
            list = list;
            is_authorized = unauthorized-none host "external-active-testing" _ passed;
            is_loaded = loaded;
            is_filled = filled;
            has_targets = on_list;
            has_files = files;
          })
    ]

-- The scope lock lets a command pass only if each segment of it, of the texts directly within it, and
-- of the texts that are gathered from it, is no probe, is a probe in which the lock sees neither a
-- target nor a file of targets, or is in scope: the engagement is
-- authorized for external active testing, the session's allowlist is loaded and not empty, every
-- target is on it, and every file of targets is that list's own file or can be read and names no
-- other host of the internet.
pub evaluate_egress-IsHarmless :
    (host : Host) (args : Value) (cwd tool : String)
    → evaluate_egress host args cwd tool ≡ ok none
    → Throughout host
        (extract_command args tool)
        (λ segment. IsHarmless host cwd (parse_probe_segment host segment))
unfolding evaluate_egress check_segment
evaluate_egress-IsHarmless host args cwd tool e =
    Throughout-mono host (extract_command args tool)
      (λ s k. check_probe-none host cwd (parse_probe_segment host s) k)
      (scan-none host (check_segment host cwd) (extract_command args tool) (outcome-none _ e))
