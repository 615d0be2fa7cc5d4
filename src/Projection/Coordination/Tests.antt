-- ===== src/Projection/Coordination/Tests.antt =====
-- A schedule in which a rebuild and a live projection run at once, one in which a rebuild waits, and
-- the theorems at states of them.
use event_sourced_core_banki.Base.{◌≤◌, refl, true, inr}
use event_sourced_core_banki.Projection.Coordination.{
  Coordination, running, checked, waiting, woken, new_coordination, run_shared, run_exclusive, Step,
  shared_enters, shared_ends, exclusive_requests, exclusive_enters, check_shared, check_exclusive,
  notify_waiters, wake, Reachable, start, called, stepped,
}
use event_sourced_core_banki.Projection.Coordination.Progress.{Pending, no_deadlock}
use event_sourced_core_banki.Projection.Coordination.Drain.{
  sharing, now, after_step, exclusive_drains,
}

-- One live projection has passed its check.
abbrev one_called : Coordination
one_called = record new_coordination { shared_checked = 1 }

one_called-Reachable : Reachable one_called
unfolding check_shared
one_called-Reachable = called start (run_shared new_coordination)

-- A rebuild is called and gets its turn before the projection is counted: its check holds.
abbrev requested : Coordination
requested = record one_called { exclusive_operation_requested = true; turn = checked }

requested-Reachable : Reachable requested
unfolding check_exclusive notify_waiters wake
requested-Reachable =
    stepped (called one_called-Reachable (run_exclusive one_called))
      (exclusive_requests (record one_called { exclusive_queue = 1 }) 0 refl refl)

-- Then both run.
abbrev both_running : Coordination
both_running = record requested {
  active_shared_operations = 1;
  shared_checked = 0;
  exclusive_operation_in_progress = true;
  turn = running;
}

both_running-Reachable : Reachable both_running
both_running-Reachable =
    stepped (stepped requested-Reachable (shared_enters requested 0 refl)) (
      exclusive_enters (record requested { shared_checked = 0; active_shared_operations = 1 }) refl)

-- A rebuild that is called once the projection is counted leaves its resolver.
abbrev parked : Coordination
parked = record new_coordination {
  active_shared_operations = 1;
  exclusive_operation_requested = true;
  turn = waiting;
}

parked-Reachable : Reachable parked
unfolding check_exclusive notify_waiters wake
parked-Reachable =
    stepped
      (called (stepped one_called-Reachable (shared_enters one_called 0 refl))
        (run_exclusive (record new_coordination { active_shared_operations = 1 })))
      (exclusive_requests
        (record new_coordination { active_shared_operations = 1; exclusive_queue = 1 }) 0 refl refl)

-- The end of the projection calls the resolver.
abbrev called_back : Coordination
called_back = record parked { active_shared_operations = 0; turn = woken }

called_back-Reachable : Reachable called_back
unfolding notify_waiters wake
called_back-Reachable = stepped parked-Reachable (shared_ends parked 0 refl)

no_deadlock_example : (s' : Coordination) × Step called_back s'
unfolding Pending
no_deadlock_example = no_deadlock called_back called_back-Reachable (inr (λ e. cc))

exclusive_drains_example :
    sharing (record requested { active_shared_operations = 1; shared_checked = 0 })
    ≤ sharing requested
exclusive_drains_example =
    exclusive_drains requested
      (record requested { active_shared_operations = 1; shared_checked = 0 })
      (after_step (now requested) refl (shared_enters requested 0 refl))
