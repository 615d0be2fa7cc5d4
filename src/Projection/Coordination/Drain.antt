-- ===== src/Projection/Coordination/Drain.antt =====
-- While an exclusive operation has its turn, no further operation shares.
use event_sourced_core_banki.Base.{ℕ, ◌+◌, ◌≤◌, ◌≡◌, true, arith}
use event_sourced_core_banki.Projection.Coordination.{
  Coordination, Call, run_shared, run_exclusive, Step, shared_checks, shared_enters, shared_ends,
  exclusive_requests, exclusive_checks, exclusive_enters, exclusive_ends, check_shared,
  check_exclusive, notify_waiters,
}

-- The operations that share, running or past their check.
abbrev pub sharing : Coordination → ℕ
sharing s = s.active_shared_operations + s.shared_checked

-- Calls and steps during which the exclusive operation stays requested.
pub data During : Coordination → Coordination → Type 0 where
  now : (s : Coordination) → During s s
  after_call :
      {s s' s'' : Coordination}
      → During s s'
      → s'.exclusive_operation_requested ≡ true
      → Call s' s''
      → During s s''
  after_step :
      {s s' s'' : Coordination}
      → During s s'
      → s'.exclusive_operation_requested ≡ true
      → Step s' s''
      → During s s''

-- A check while an exclusive operation is requested lets no operation share.
check_shared-sharing :
    (s : Coordination)
    → s.exclusive_operation_requested ≡ true
    → sharing (check_shared s) ≤ sharing s
unfolding check_shared
check_shared-sharing s requested = ground arith

Call-sharing :
    {s s' : Coordination}
    → s.exclusive_operation_requested ≡ true
    → Call s s'
    → sharing s' ≤ sharing s
Call-sharing requested (run_shared s) = check_shared-sharing s requested
Call-sharing requested (run_exclusive s) = omega arith

Step-sharing :
    {s s' : Coordination}
    → s.exclusive_operation_requested ≡ true
    → Step s s'
    → sharing s' ≤ sharing s
unfolding check_exclusive notify_waiters
Step-sharing requested (shared_checks s n _) =
    check_shared-sharing (record s { shared_woken = n }) requested
Step-sharing requested (shared_enters s n e) = omega (arith, e)
Step-sharing requested (shared_ends s n e) = omega (arith, e)
Step-sharing requested (exclusive_requests s n _ _) = omega arith
Step-sharing requested (exclusive_checks s _) = omega arith
Step-sharing requested (exclusive_enters s _) = omega arith
Step-sharing requested (exclusive_ends s _) = omega arith

-- As long as an exclusive operation stays requested, the number of live projections that run or
-- have passed their check never grows, whatever calls and steps interleave.
pub exclusive_drains : (s s' : Coordination) → During s s' → sharing s' ≤ sharing s
exclusive_drains s s' (now _) = omega arith
exclusive_drains s s' (after_call d requested c) =
    omega (arith, Call-sharing requested c, exclusive_drains s _ d)
exclusive_drains s s' (after_step d requested t) =
    omega (arith, Step-sharing requested t, exclusive_drains s _ d)
