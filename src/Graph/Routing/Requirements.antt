-- ===== src/Graph/Routing/Requirements.antt =====
-- assertActiveRequirements: what a gated active lane needs before it can be entered.
use red_team_agent_orchestra.Common.{
  String, ◌≡◌, refl, ◌⊎◌, inl, inr, Bool, true, false, Bool-cases, and-split, not-false, ◌&&◌,
  Option, none, some, List, [], ◌∷◌, All, All-includes, keep, includes, ◌==◌, eq_iff, eq_refl,
  arith, ok,
}
use red_team_agent_orchestra.Js.{Value}
use red_team_agent_orchestra.Graph.Schema.{Graph}
use red_team_agent_orchestra.Graph.Routing.{
  Lane, lane_of, is_missing, is_blank, is_true, get_path, assert_none_missing, assert_requirements,
  assert_active_requirements, requirements_for,
}

keep-nil {ℓ} :
    {A : Type ℓ} (p : A → Bool) (xs : List A) → keep p xs ≡ [] → All (λ x. p x ≡ false) xs
keep-nil p [] h = tt
keep-nil p (x ∷ xs) h = elim (Bool-cases (p x)) [
  | inl e ↦ cc (rw e at h)
  | inr e ↦ (e, keep-nil p xs (rw e at h))
]

-- The scope switches the lane on, and an attestation is named; the requirements hold the paths of
-- both, and nothing else.
pub record IsAttested (scope : Value) (lane : Lane) (requirements : List String) : Type 0 where
  pub enabled : is_true (get_path scope lane.enabled_path) ≡ true
  pub attested : is_blank (get_path scope lane.attestation_path) ≡ false
  pub has_enabled : includes requirements lane.enabled_path ≡ true
  pub has_attestation : includes requirements lane.attestation_path ≡ true
  pub known : All (λ path. (path ≡ lane.enabled_path) ⊎ (path ≡ lane.attestation_path)) requirements

none_missing :
    (mode : String) (missing : List String)
    → assert_none_missing mode missing ≡ ok tt
    → missing ≡ []
unfolding assert_none_missing
none_missing mode [] h = refl
none_missing mode (m ∷ ms) h = cc

module _ (scope : Value) (lane : Lane)
    (apart : (lane.attestation_path == lane.enabled_path) ≡ false) where
  known_path :
      (path : String)
      → is_missing scope lane path ≡ false
      → (path ≡ lane.enabled_path) ⊎ (path ≡ lane.attestation_path)
  unfolding is_missing
  known_path path h =
      ground (arith, eq_iff path lane.enabled_path, eq_iff path lane.attestation_path)

  at_enabled :
      is_missing scope lane lane.enabled_path ≡ false
      → is_true (get_path scope lane.enabled_path) ≡ true
  unfolding is_missing
  at_enabled h = not-false _ (rw (eq_refl lane.enabled_path) at h)

  at_attestation :
      is_missing scope lane lane.attestation_path ≡ false
      → is_blank (get_path scope lane.attestation_path) ≡ false
  unfolding is_missing
  at_attestation h = rw (apart, eq_refl lane.attestation_path) at h

  assert_requirements-IsAttested :
      (requirements : Option (List String))
      → assert_requirements scope lane requirements ≡ ok tt
      → (rs : List String) × (requirements ≡ some rs) × IsAttested scope lane rs
  unfolding assert_requirements
  assert_requirements-IsAttested none h = cc
  assert_requirements-IsAttested (some rs) h =
      elim (Bool-cases (includes rs lane.enabled_path && includes rs lane.attestation_path)) [
        | inr e ↦ cc (rw e at h)
        | inl e ↦
            let (a, b) = and-split _ _ e in
            let found = keep-nil (is_missing scope lane) rs (none_missing _ _ (rw e at h)) in
            (
              rs,
              refl,
              record {
                enabled = at_enabled (All-includes _ rs _ a found);
                attested = at_attestation (All-includes _ rs _ b found);
                has_enabled = a;
                has_attestation = b;
                known = All-map rs found;
              },
            )
      ]
    where
      All-map :
          (xs : List String)
          → All (λ path. is_missing scope lane path ≡ false) xs
          → All (λ path. (path ≡ lane.enabled_path) ⊎ (path ≡ lane.attestation_path)) xs
      All-map [] a = tt
      All-map (x ∷ xs) (p, a) = (known_path x p, All-map xs a)

lanes_apart :
    (name : String) → ((lane_of name).attestation_path == (lane_of name).enabled_path) ≡ false
unfolding lane_of
lanes_apart name = elim (Bool-cases (name == "external_active")) [ inl e ↦ rw e | inr e ↦ rw e ]

-- The gate of an active lane lets a run through only if some node is gated by the lane's mode, its
-- requirements hold the switch and the attestation and nothing else, the scope's switch is `true`
-- and the attestation is a text that is not blank.
pub assert_active_requirements-IsAttested :
    (graph : Graph) (scope : Value) (name : String)
    → assert_active_requirements graph scope name ≡ ok tt
    → (rs : List String) × (requirements_for graph.nodes (lane_of name).mode ≡ some rs)
      × IsAttested scope (lane_of name) rs
unfolding assert_active_requirements
assert_active_requirements-IsAttested graph scope name h =
    assert_requirements-IsAttested scope (lane_of name) (lanes_apart name) _ h
