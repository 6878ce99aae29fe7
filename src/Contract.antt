-- ===== src/Contract.antt =====
-- The recovery contract (packages/shared/src/recovery-contract.ts): what "recoverable" means for a
-- system, and how far it has drifted. A flag that a contract leaves out is `false`, since every
-- use is `=== true` or a truth test; so are an absent list and an absent healthcheck URL.
use revenant_cloud.Base.{ℕ, String, Bool, true, false, Option, none, some, List, []}

pub record Required : Type 0 where
  pub database : Bool
  pub schema : Bool
  pub critical_queries : Bool
  pub api : Bool
  pub healthcheck : Bool

pub record Contract : Type 0 where
  pub rto : String
  pub rpo : String
  pub required : Required
  pub dependencies : List String
  -- `application?.healthcheck`
  pub app_healthcheck : Option String
  pub max_verification_age_hours : Option ℕ

pub data DriftSeverity : Type 0 where
  stable minor_drift recovery_at_risk recovery_invalidated : DriftSeverity

unfoldable pub default_contract : Contract
default_contract = record {
  rto = "15m";
  rpo = "5m";
  required = record {
    database = true;
    schema = true;
    critical_queries = true;
    api = false;
    healthcheck = false;
  };
  dependencies = [];
  app_healthcheck = none;
  max_verification_age_hours = some 168;
}
