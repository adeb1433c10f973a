-- ===== src/Guards/Azure/Sound.antt =====
-- What `evaluate` of guardrails/core/guardrails-core.mjs lets pass, and what it stops.
use red_team_agent_orchestra.Common.{
  String, ◌≡◌, refl, ◌⊎◌, inl, inr, Bool, true, false, Bool-cases, Option, none, some, includes,
  ◌==◌, eq→path, arith,
}
use red_team_agent_orchestra.Js.{Value}
use red_team_agent_orchestra.Js.Regex.Search.{test}
use red_team_agent_orchestra.Guards.Host.{Host}
use red_team_agent_orchestra.Guards.Scan.{
  Finding, scan, InCommand, Throughout, Throughout-mono, scan-none, scan-some,
}
use red_team_agent_orchestra.Guards.Commands.{extract_command, engagement_mode}
use red_team_agent_orchestra.Guards.Azure.{
  az_benign, az_read_op, ps_benign, ps_read_verbs, is_az_invocation, is_az_pwsh_invocation, strip,
  first_token, operation_token, words,
}
use red_team_agent_orchestra.Guards.Azure.Rest.{az_rest_method, has_body_flag, iarm_method}
use red_team_agent_orchestra.Guards.Azure.Verdict.{
  Reason, az_rest, invoke_rest, verb_of, rest_violation, az_violation, cmdlet_violation,
  pwsh_violation, violation, Verdict, allow, ask, deny, verdict_of, evaluate,
}

-- A request that reads: its method is GET, or it has neither a method nor a body.
abbrev pub IsGet : Option String → Bool → Type 0
IsGet (some method) body = method ≡ "GET"
IsGet none body = body ≡ false

abbrev pub IsAzRead : String → Type 0
IsAzRead s =
    (test az_benign (strip s) ≡ true)
    ⊎ ((test az_rest (strip s) ≡ true)
        × IsGet (az_rest_method (words (strip s))) (has_body_flag (words (strip s))))
    ⊎ (test az_read_op (operation_token s) ≡ true)

abbrev pub IsPwshRead : String → Type 0
IsPwshRead s =
    (test ps_benign (first_token s) ≡ true)
    ⊎ ((test invoke_rest (first_token s) ≡ true) × IsGet (iarm_method (words s)) false)
    ⊎ (includes ps_read_verbs (verb_of (first_token s)) ≡ true)

-- A segment that is no Azure command, or is recognized: it reads, or it is of the session and of
-- the local machine.
abbrev pub IsRecognized : String → Type 0
IsRecognized s =
    ((is_az_invocation s ≡ false) × (is_az_pwsh_invocation s ≡ false))
    ⊎ ((is_az_invocation s ≡ true) × IsAzRead s)
    ⊎ ((is_az_pwsh_invocation s ≡ true) × IsPwshRead s)

rest_violation-none :
    (method : Option String) (body : Bool) → rest_violation method body ≡ none → IsGet method body
unfolding rest_violation
rest_violation-none (some method) body e = elim (Bool-cases (method == "GET")) [
  | inl h ↦ eq→path method "GET" h
  | inr h ↦ absurd (cc (rw h at e))
]
rest_violation-none none body e = ground arith

cmdlet_violation-none :
    (method : Option String) → cmdlet_violation method ≡ none → IsGet method false
unfolding cmdlet_violation
cmdlet_violation-none (some method) e = elim (Bool-cases (method == "GET")) [
  | inl h ↦ eq→path method "GET" h
  | inr h ↦ absurd (cc (rw h at e))
]
cmdlet_violation-none none e = refl

az_violation-none : (s : String) → az_violation s ≡ none → IsAzRead s
unfolding az_violation
az_violation-none s e = elim (Bool-cases (test az_benign (strip s))) [
  | inl h ↦ inl h
  | inr h ↦ elim (Bool-cases (test az_rest (strip s))) [
    | inl r ↦ inr (inl (r, rest_violation-none _ _ (rw (h, r) at e)))
    | inr r ↦ elim (Bool-cases (test az_read_op (operation_token s))) [
      | inl o ↦ inr (inr o)
      | inr o ↦ absurd (cc (rw (h, r, o) at e))
    ]
  ]
]

pwsh_violation-none : (s : String) → pwsh_violation s ≡ none → IsPwshRead s
unfolding pwsh_violation
pwsh_violation-none s e = elim (Bool-cases (test ps_benign (first_token s))) [
  | inl h ↦ inl h
  | inr h ↦ elim (Bool-cases (test invoke_rest (first_token s))) [
    | inl r ↦ inr (inl (r, cmdlet_violation-none _ (rw (h, r) at e)))
    | inr r ↦ elim (Bool-cases (includes ps_read_verbs (verb_of (first_token s)))) [
      | inl o ↦ inr (inr o)
      | inr o ↦ absurd (cc (rw (h, r, o) at e))
    ]
  ]
]

violation-none : (s : String) → violation s ≡ none → IsRecognized s
unfolding violation
violation-none s e = elim (Bool-cases (is_az_invocation s)) [
  | inl a ↦ inr (inl (a, az_violation-none s (rw a at e)))
  | inr a ↦ elim (Bool-cases (is_az_pwsh_invocation s)) [
    | inl p ↦ inr (inr (p, pwsh_violation-none s (rw (a, p) at e)))
    | inr p ↦ inl (a, p)
  ]
]

abbrev pub Stopped : Host → String → Finding Reason → Type 0
Stopped host command found =
    InCommand host command found.segment × (violation found.segment ≡ some found.reason)

-- What a verdict on a command says, in an engagement mode.
abbrev pub IsJust : Host → String → String → Verdict → Type 0
IsJust host mode command allow = Throughout host command IsRecognized
IsJust host mode command (ask found) = (mode ≡ "controlled-validation") × Stopped host command found
IsJust host mode command (deny found) =
    ((mode == "controlled-validation") ≡ false) × Stopped host command found

verdict_of-IsJust :
    (host : Host) (mode command : String) (o : Option (Finding Reason))
    → scan host violation command ≡ o
    → IsJust host mode command (verdict_of mode o)
unfolding verdict_of
verdict_of-IsJust host mode command none e =
    Throughout-mono host command violation-none (scan-none host violation command e)
verdict_of-IsJust host mode command (some found) e =
    elim (Bool-cases (mode == "controlled-validation")) [
      | inl m ↦ rw m (eq→path mode _ m, scan-some host violation command found e)
      | inr m ↦ rw m (m, scan-some host violation command found e)
    ]

-- A tool call is allowed only if every segment of its command, of the texts directly within it, and
-- of the texts gathered from it, is no Azure command or a recognized read or session command.
-- Otherwise the verdict names a segment of the command and
-- the objection to it; it asks in the mode controlled-validation, and denies in all others.
pub evaluate-IsJust :
    (host : Host) (args : Value) (cwd tool : String)
    → IsJust host
        (engagement_mode host cwd)
        (extract_command args tool)
        (evaluate host args cwd tool)
unfolding evaluate
evaluate-IsJust host args cwd tool =
    verdict_of-IsJust host (engagement_mode host cwd) (extract_command args tool) _ refl
