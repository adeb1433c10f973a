-- ===== src/Guards/Engagement/Gate.antt =====
-- The authorization that both scope locks ask for, before their allowlists: `clusterTestingGate` of
-- guardrails/core/cluster-core.mjs and `externalTestingGate` of guardrails/core/egress-core.mjs.
use red_team_agent_orchestra.Common.{
  ℕ, String, ◌≡◌, refl, ap, Bool, true, false, Bool-cases, inl, inr, ◌&&◌, ◌||◌, not, Option, none,
  some, List, [], ◌∷◌, All, ltb, ◌==◌, eq→path, or-false, not-false, if◌then◌else◌, Result, throw,
  ok, ◌>>=◌,
}
use red_team_agent_orchestra.Guards.Host.{Host}
use red_team_agent_orchestra.Guards.Engagement.{Config}

pub data GateReason : Type 0 where
  wrong_mode : String → GateReason
  not_enabled : GateReason
  not_authorized : GateReason
  not_started : String → GateReason
  expired : String → GateReason
  no_allowlist : GateReason
  empty_allowlist : GateReason

-- A text that is there and not "".
abbrev pub is_given : Option String → Bool
is_given none = false
is_given (some s) = not (s == "")

abbrev text_of : Option String → String
text_of none = ""
text_of (some s) = s

abbrev after : ℕ → Option ℕ → Bool
after now none = false
after now (some t) = ltb now t

abbrev before : ℕ → Option ℕ → Bool
before now none = false
before now (some t) = ltb t now

-- A date that does not parse bounds nothing.
unfoldable pub is_early : Host → Option String → Bool
is_early host start = is_given start && after host.now (host.parse_date (text_of start))

unfoldable pub is_late : Host → Option String → Bool
is_late host stop = is_given stop && before host.now (host.parse_date (text_of stop))

-- The first of the checks that fails.
unfoldable pub first_failed : List (Bool × GateReason) → Option GateReason
first_failed [] = none
first_failed ((true, reason) ∷ checks) = some reason
first_failed ((false, reason) ∷ checks) = first_failed checks

unfoldable pub unauthorized : Host → String → Config → Option GateReason
unauthorized host mode cfg = first_failed (
    (not (cfg.mode == mode), wrong_mode cfg.mode)
    ∷ (not cfg.enabled, not_enabled)
    ∷ (not (is_given cfg.attested_by) || not (is_given cfg.attestation_id), not_authorized)
    ∷ (is_early host cfg.window_start, not_started (text_of cfg.window_start))
    ∷ (is_late host cfg.window_end, expired (text_of cfg.window_end))
    ∷ [])

-- A gate is open to an allowlist, or closed.
pub data Gate (Allowlist : Type 0) : Type 0 where
  closed : GateReason → Gate Allowlist
  opened : Allowlist → Gate Allowlist

abbrev pub is_empty : List String → Bool
is_empty [] = true
is_empty (s ∷ ss) = false

module _ {Allowlist : Type 0} (vacant : Allowlist → Bool) where
  abbrev gate_on : Option Allowlist → Gate Allowlist
  gate_on none = closed no_allowlist
  gate_on (some list) = if vacant list then closed empty_allowlist else opened list

  -- The gate after the checks, given what loading the allowlist gives.
  unfoldable pub gate_of : Option GateReason → Result (Option Allowlist) → Result (Gate Allowlist)
  gate_of (some reason) loaded = ok (closed reason)
  gate_of none loaded = loaded >>= λ list. ok (gate_on list)

-- The engagement is in the mode, with the switch on, attested by name and by id, and within its
-- window.
pub record Authorized (host : Host) (mode : String) (cfg : Config) : Type 0 where
  pub in_mode : cfg.mode ≡ mode
  pub is_on : cfg.enabled ≡ true
  pub is_attested : is_given cfg.attested_by ≡ true
  pub is_identified : is_given cfg.attestation_id ≡ true
  pub has_begun : is_early host cfg.window_start ≡ false
  pub is_open : is_late host cfg.window_end ≡ false

first_failed-none :
    (checks : List (Bool × GateReason))
    → first_failed checks ≡ none
    → All (λ check. check.0 ≡ false) checks
unfolding first_failed
first_failed-none [] e = tt
first_failed-none ((true, reason) ∷ checks) e = absurd (cc)
first_failed-none ((false, reason) ∷ checks) e = (refl, first_failed-none checks e)

pub unauthorized-none :
    (host : Host) (mode : String) (cfg : Config)
    → unauthorized host mode cfg ≡ none
    → Authorized host mode cfg
unfolding unauthorized
unauthorized-none host mode cfg e =
    let (m, (on, (signed, (early, (late, none_left))))) = first_failed-none _ e in
    let (by, id) = or-false _ _ signed in
    record {
      in_mode = eq→path cfg.mode mode (not-false _ m);
      is_on = not-false _ on;
      is_attested = not-false _ by;
      is_identified = not-false _ id;
      has_begun = early;
      is_open = late;
    }

pub gate_of-opened :
    {Allowlist : Type 0} (vacant : Allowlist → Bool) (failed : Option GateReason)
    (loaded : Result (Option Allowlist)) (list : Allowlist)
    → gate_of vacant failed loaded ≡ ok (opened list)
    → (failed ≡ none) × (loaded ≡ ok (some list)) × (vacant list ≡ false)
unfolding gate_of
gate_of-opened vacant (some reason) loaded list e = absurd (cc)
gate_of-opened vacant none (throw problem) list e = absurd (cc)
gate_of-opened vacant none (ok none) list e = absurd (cc)
gate_of-opened vacant none (ok (some other)) list e = elim (Bool-cases (vacant other)) [
  | inl h ↦ absurd (cc (rw h at e))
  | inr h ↦
      let open_to : ok (opened other) ≡ ok (opened list) = rw h at e in
      let same : other ≡ list = cc in (refl, ap (λ l. ok (some l)) same, rw same at h)
]
