-- ===== src/Node/Policy.antt =====
-- The stabilization and execution policies of core-rs/src/node.rs.
use pgress.Prelude.{ℕ}

pub data RewriteStrategy : Type 0 where
  full_l3 : RewriteStrategy
  restricted : ℕ → RewriteStrategy

pub data StabilizationDomain : Type 0 where
  local_only federated inherit : StabilizationDomain

pub record RewriteBudget : Type 0 where
  pub max_iterations : ℕ

pub data ConvergencePolicy : Type 0 where
  canonical witness budget_exhausted : ConvergencePolicy

pub record StabilizationConfig : Type 0 where
  pub strategy : RewriteStrategy
  pub domain : StabilizationDomain
  pub budget : RewriteBudget
  pub convergence_policy : ConvergencePolicy

abbrev pub default_stabilization : StabilizationConfig
default_stabilization = record {
  strategy = full_l3;
  domain = inherit;
  budget = record { max_iterations = 256 };
  convergence_policy = canonical;
}

pub data QueuePriority : Type 0 where
  normal high low : QueuePriority

pub data RetryPolicy : Type 0 where
  fail : RetryPolicy
  retry : ℕ → RetryPolicy

pub record ExecutionPolicy : Type 0 where
  pub queue_priority : QueuePriority
  pub retry_policy : RetryPolicy

abbrev pub default_execution : ExecutionPolicy
default_execution = record { queue_priority = normal; retry_policy = fail }
