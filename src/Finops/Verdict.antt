-- ===== src/Finops/Verdict.antt =====
-- The judgement of `PolicyEngine.evaluate_optimization` in finops/app/engine.py: the risk, the limits,
-- the costs and the result.
pub mod Limits
pub mod Outcomes
pub mod Refusal
use practical_project.Base.{
  ℕ, Bool, true, false, ◌&&◌, ◌||◌, List, [], ◌∷◌, ◌++◌, Option, none, some, leb, if◌then◌else◌,
}
use practical_project.Float.{Floats, lit}
use practical_project.Float.Literal.{is_empty}
use practical_project.Finops.{
  ResourceSpec, PolicyResult, RuleStatus, pass, warn, fail, PrometheusMetrics, ChronosForecast,
  RecommendationData, Risk, safe, medium, high,
}
use practical_project.Finops.Quantity.{parse_cpu, parse_memory, format_cpu, format_memory}
use practical_project.Finops.Engine.{Inputs, Draft, noted, with_current, judged}

pub record Request (F : Type 0) : Type 0 where
  pub current_res : ResourceSpec
  pub krr_res : ResourceSpec
  pub metrics : Option (PrometheusMetrics F)
  pub forecast : Option (ChronosForecast F)
  pub cpu_missing : Bool
  pub mem_missing : Bool
  pub cpu_limit_str : Option (List ℕ)
  pub memory_limit_str : Option (List ℕ)

-- The tuple that the method returns.
pub record Evaluation (F : Type 0) : Type 0 where
  pub risk_score : Risk
  pub overall_status : RuleStatus
  pub recommendations : RecommendationData
  pub policy_evals : List PolicyResult
  pub cost_change_pct : F
  pub cost_savings_amount : F
  pub current_cost : F
  pub final_cost : F

unfoldable pub risk_of : ℕ → Risk
risk_of score = if leb 70 score then high else if leb 35 score then medium else safe

unfoldable pub status_of : ℕ → RuleStatus
status_of score = if leb 70 score then fail else pass

abbrev pub with_both {ℓ κ} :
    {A : Type ℓ} {B : Type κ} → Option A → Option A → (A → A → B) → Option B
with_both none second f = none
with_both (some a) none f = none
with_both (some a) (some b) f = some (f a b)

module _ {F : Type 0} where
  -- `parse(text) if text else None`
  abbrev pub parsed_limit : (List ℕ → F) → Option (List ℕ) → Option F
  parsed_limit parse none = none
  parsed_limit parse (some text) = if is_empty text then none else some (parse text)

  abbrev pub is_given : Option F → Bool
  is_given none = false
  is_given (some _) = true

  -- What a failed verdict restores.
  unfoldable pub restored : Inputs F → Draft F → Draft F
  restored i d = if leb 70 d.score then with_current i d else d

module _ {F : Type 0} (fl : Floats F) where
  open fl use {add, sub, mul, div, lt, le, round_to}

  unfoldable pub inputs : Request F → Inputs F
  unfolding parse_cpu parse_memory
  inputs r = record {
    curr_cpu = parse_cpu fl r.current_res.cpu;
    curr_mem = parse_memory fl r.current_res.memory;
    krr_cpu = parse_cpu fl r.krr_res.cpu;
    krr_mem = parse_memory fl r.krr_res.memory;
    prom_metrics = r.metrics;
    chronos_forecast = r.forecast;
    cpu_data_insufficient = r.cpu_missing;
    mem_data_insufficient = r.mem_missing;
    cpu_limit = parsed_limit (parse_cpu fl) r.cpu_limit_str;
    memory_limit = parsed_limit (parse_memory fl) r.memory_limit_str;
  }

  abbrev pub exceeds : Option F → F → Bool
  exceeds none v = false
  exceeds (some limit) v = lt (lit fl 0 0) limit && lt limit v

  unfoldable pub capped : Option F → F → F
  capped none v = v
  capped (some limit) v = if lt (lit fl 0 0) limit && lt limit v then limit else v

  unfoldable pub rule_08 : Inputs F → Draft F → Draft F
  unfolding capped
  rule_08 i d =
      let over = exceeds i.cpu_limit d.final_cpu || exceeds i.memory_limit d.final_mem in
      let status =
        if over
        then warn
        else if is_given i.cpu_limit || is_given i.memory_limit
        then pass
        else warn in
      noted 0 "RULE_08" status (record d {
        final_cpu = capped i.cpu_limit d.final_cpu;
        final_mem = capped i.memory_limit d.final_mem;
      })

  -- The values, the score and the rules when all rules are done.
  unfoldable pub decided : Inputs F → Draft F
  unfolding judged restored rule_08
  decided i = rule_08 i (restored i (judged fl i))

  unfoldable pub cost : F → F → F
  cost cpu mem = add (mul cpu (lit fl 25 0)) (mul (div mem (lit fl 1024 0)) (lit fl 4 0))

  unfoldable pub cost_change : ℕ → F → F → F × F
  cost_change score before after =
      if leb 70 score || le before (lit fl 0 0)
      then (lit fl 0 0, lit fl 0 0)
      else (mul (div (sub before after) before) (lit fl 100 0), sub before after)

  abbrev pub evaluation : Request F → Draft F → List ℕ → List ℕ → Evaluation F
  evaluation r d cpu memory =
      let i = inputs r in
      let before = cost i.curr_cpu i.curr_mem in
      let after = cost d.final_cpu d.final_mem in
      let (change, savings) = cost_change d.score before after in
      record {
        risk_score = risk_of d.score;
        overall_status = status_of d.score;
        recommendations = record {
          current = r.current_res;
          krr = r.krr_res;
          final = record { cpu = cpu; memory = memory };
          krr_cpu_data_insufficient = r.cpu_missing;
          krr_memory_data_insufficient = r.mem_missing;
        };
        policy_evals = d.policy_evals;
        cost_change_pct = round_to 1 change;
        cost_savings_amount = round_to 2 savings;
        current_cost = round_to 2 before;
        final_cost = round_to 2 after;
      }

  -- `none` where the formatting of a value that is not finite raises.
  unfoldable pub evaluate_optimization : Request F → Option (Evaluation F)
  unfolding inputs decided format_cpu format_memory cost cost_change risk_of status_of
  evaluate_optimization r =
      let d = decided (inputs r) in
      with_both (format_cpu fl d.final_cpu) (format_memory fl d.final_mem) (evaluation r d)
