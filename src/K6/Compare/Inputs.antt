-- ===== src/K6/Compare/Inputs.antt =====
-- The inputs that two runs of k6/compare_bank_krr_runs.py have to share.
use practical_project.Base.{◌≡◌, refl, Bool, true, false, List, [], ◌∷◌, ◌++◌, Option, All}
use practical_project.Base.Classes.{Eq, nat_eq, ◌==◌}
use practical_project.Base.Equality.{list_eq, list_beq_iff, option_eq, option_beq_iff}
use practical_project.Float.{Floats}
use practical_project.K6.{
  EquivalenceKey, application_image, loadgen_image, scenario_config, db_state_id, autoscaling,
  node_pool, Report,
}
use practical_project.K6.Compare.{
  Mismatch, is_nil, noted_unless, key_mismatches, equivalence_keys, equivalence_mismatches,
}

is_nil-append :
    (left right : List Mismatch)
    → is_nil (left ++ right) ≡ true
    → (is_nil left ≡ true) × (is_nil right ≡ true)
is_nil-append [] right h = (refl, h)
is_nil-append (m ∷ left) right h = cc h

is_nil-noted_unless : (b : Bool) (m : Mismatch) → is_nil (noted_unless b m) ≡ true → b ≡ true
is_nil-noted_unless true m h = refl
is_nil-noted_unless false m h = cc h

noted :
    (b : Bool) (m : Mismatch) (rest : List Mismatch)
    → is_nil (noted_unless b m ++ rest) ≡ true
    → (b ≡ true) × (is_nil rest ≡ true)
noted b m rest h =
    let (here, behind) = is_nil-append (noted_unless b m) rest h in
    (is_nil-noted_unless b m here, behind)

every_key : (P : EquivalenceKey → Type 0) → All P equivalence_keys → (key : EquivalenceKey) → P key
every_key P h application_image = h.0
every_key P h loadgen_image = h.1.0
every_key P h scenario_config = h.1.1.0
every_key P h db_state_id = h.1.1.1.0
every_key P h autoscaling = h.1.1.1.1.0
every_key P h node_pool = h.1.1.1.1.1.0

module _ {F V : Type 0} (fl : Floats F) ⦃v_eq : Eq V⦄ where
  -- The same scenario, with the same text, for as long, of the same commit, with the same metadata.
  pub record SameInputs (pre post : Report F V) : Type 0 where
    pub scenario_lem : pre.scenario ≡ post.scenario
    pub scenario_sha256_lem : pre.scenario_sha256 ≡ post.scenario_sha256
    pub duration_lem : fl.eq pre.duration_seconds post.duration_seconds ≡ true
    pub commit_lem : pre.application_commit ≡ post.application_commit
    pub equivalence_lem : (key : EquivalenceKey) → pre.equivalence key ≡ post.equivalence key

  key_mismatches-All :
      (before after : EquivalenceKey → Option V) (keys : List EquivalenceKey)
      → is_nil (key_mismatches fl before after keys) ≡ true
      → All (λ (key : EquivalenceKey). before key ≡ after key) keys
  key_mismatches-All before after [] h = tt
  key_mismatches-All before after (key ∷ keys) h =
      let (same, behind) =
        noted (before key == after key) (Mismatch.equivalence key)
          (key_mismatches fl before after keys) h in
      (
        (option_beq_iff (before key) (after key)).0 same,
        key_mismatches-All before after keys behind,
      )

  pub equivalence_mismatches-SameInputs :
      (pre post : Report F V)
      → is_nil (equivalence_mismatches fl pre post) ≡ true
      → SameInputs pre post
  unfolding equivalence_mismatches
  equivalence_mismatches-SameInputs pre post h =
      let keys = key_mismatches fl pre.equivalence post.equivalence equivalence_keys in
      let commit =
        noted_unless (pre.application_commit == post.application_commit) Mismatch.application_commit
        ++ keys in
      let duration =
        noted_unless (fl.eq pre.duration_seconds post.duration_seconds) Mismatch.duration_seconds
        ++ commit in
      let hash =
        noted_unless (pre.scenario_sha256 == post.scenario_sha256) Mismatch.scenario_sha256
        ++ duration in
      let (a, h1) = noted (pre.scenario == post.scenario) Mismatch.scenario hash h in
      let (b, h2) =
        noted (pre.scenario_sha256 == post.scenario_sha256) Mismatch.scenario_sha256 duration h1 in
      let (c, h3) =
        noted (fl.eq pre.duration_seconds post.duration_seconds) Mismatch.duration_seconds commit
          h2 in
      let (d, h4) =
        noted (pre.application_commit == post.application_commit) Mismatch.application_commit keys
          h3 in
      record {
        scenario_lem = (list_beq_iff pre.scenario post.scenario).0 a;
        scenario_sha256_lem = (list_beq_iff pre.scenario_sha256 post.scenario_sha256).0 b;
        duration_lem = c;
        commit_lem = (list_beq_iff pre.application_commit post.application_commit).0 d;
        equivalence_lem =
            every_key (λ (key : EquivalenceKey). pre.equivalence key ≡ post.equivalence key)
              (key_mismatches-All pre.equivalence post.equivalence equivalence_keys h4);
      }
