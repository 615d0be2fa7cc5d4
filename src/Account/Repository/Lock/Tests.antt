-- ===== src/Account/Repository/Lock/Tests.antt =====
-- The theorem about the lock at an account with one call that runs and one that waits.
use event_sourced_core_banki.Base.{none, some, true, false, [], ◌∷◌, refl}
use event_sourced_core_banki.Account.Repository.Lock.{
  Task, Lock, new_lock, is_resolved, registers, enters, Reachable, start, called, stepped,
}
use event_sourced_core_banki.Account.Repository.Lock.Service.{Serves, Reachable-Serves}

abbrev first : Task
first = record { ticket = 0; previous = none; is_running = false }

abbrev second : Task
second = record { ticket = 1; previous = some 0; is_running = false }

abbrev two_calls : Lock
two_calls = record { entry = some 1; next_ticket = 2; tasks = first ∷ second ∷ [] }

abbrev one_runs : Lock
one_runs = record two_calls { tasks = record first { is_running = true } ∷ second ∷ [] }

one_runs-Reachable : Reachable one_runs
unfolding is_resolved
one_runs-Reachable =
    stepped
      (called (called start (registers new_lock))
        (registers (record { entry = some 0; next_ticket = 1; tasks = first ∷ [] })))
      (enters two_calls [] (second ∷ []) first refl refl refl)

Reachable-Serves_example : Serves one_runs
Reachable-Serves_example = Reachable-Serves one_runs one_runs-Reachable
