-- ===== src/MetaEvents/Worker/Config.antt =====
-- Which configurations the worker accepts.
use ai_client_acquisition_os.Common.{◌≡◌, ◌↔◌, none, arith}
use ai_client_acquisition_os.Common.Int.{pos, ◌≤ℤ◌, ◌<ℤ◌}
use ai_client_acquisition_os.MetaEvents.Worker.{
  Deps, resolve_max_attempts, lease_ms, timeout_of, assert_worker_config,
}

-- The configuration is accepted exactly when the attempt budget is between 1 and 20, the timeout of a
-- request is positive, and it is strictly below the lease.
pub assert_worker_config_iff :
    (deps : Deps)
    → (assert_worker_config deps ≡ none) ↔ (
        (pos 1 ≤ℤ resolve_max_attempts deps)
        × (resolve_max_attempts deps ≤ℤ pos 20)
        × (pos 0 <ℤ timeout_of deps)
        × (timeout_of deps <ℤ lease_ms deps))
unfolding assert_worker_config
assert_worker_config_iff deps = (λ h. ground arith, λ h. ground arith)
