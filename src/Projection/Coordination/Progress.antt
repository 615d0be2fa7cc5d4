-- ===== src/Projection/Coordination/Progress.antt =====
-- The flags follow the turns, no wake-up is lost, and pending operations are never stuck.
use event_sourced_core_banki.Base.{
  ℕ, zero, suc, ◌+◌, ◌≤◌, ◌≡◌, ◌≢◌, refl, sym, ap, ◌∙◌, Bool, true, false, if◌then◌else◌, ◌⊎◌, inl,
  inr, Bool-cases, arith,
}
use event_sourced_core_banki.Projection.Coordination.{
  Turn, idle, waiting, woken, checked, running, Coordination, may_share, may_exclude, wake,
  notify_waiters, check_shared, check_exclusive, Call, run_shared, run_exclusive, Step,
  shared_checks, shared_enters, shared_ends, exclusive_requests, exclusive_checks, exclusive_enters,
  exclusive_ends, Reachable, start, called, stepped,
}

-- `exclusiveOperationRequested` and `exclusiveOperationInProgress`, from the turn.
unfoldable pub is_taken : Turn → Bool
is_taken idle = false
is_taken _ = true

unfoldable pub is_running : Turn → Bool
is_running running = true
is_running _ = false

-- The flags follow the turn, and who waits has something to wait for: a shared operation for the
-- exclusive one that has its turn, the exclusive one for a shared one that is active.
pub record IsConsistent (s : Coordination) : Type 0 where
  pub requested : s.exclusive_operation_requested ≡ is_taken s.turn
  pub in_progress : s.exclusive_operation_in_progress ≡ is_running s.turn
  pub shared_waits : 1 ≤ s.shared_waiting → is_taken s.turn ≡ true
  pub exclusive_waits : s.turn ≡ waiting → 1 ≤ s.active_shared_operations

wake-is_taken : (t : Turn) → is_taken (wake t) ≡ is_taken t
unfolding wake is_taken
wake-is_taken idle = refl
wake-is_taken waiting = refl
wake-is_taken woken = refl
wake-is_taken checked = refl
wake-is_taken running = refl

wake-is_running : (t : Turn) → is_running (wake t) ≡ is_running t
unfolding wake is_running
wake-is_running idle = refl
wake-is_running waiting = refl
wake-is_running woken = refl
wake-is_running checked = refl
wake-is_running running = refl

wake-waiting : (t : Turn) → wake t ≢ waiting
unfolding wake
wake-waiting idle = λ e. cc
wake-waiting waiting = λ e. cc
wake-waiting woken = λ e. cc
wake-waiting checked = λ e. cc
wake-waiting running = λ e. cc

-- When the flags follow the turn, waking everyone leaves nobody who waits.
notify_waiters-IsConsistent :
    (s : Coordination)
    → s.exclusive_operation_requested ≡ is_taken s.turn
    → s.exclusive_operation_in_progress ≡ is_running s.turn
    → IsConsistent (notify_waiters s)
unfolding notify_waiters
notify_waiters-IsConsistent s h k = record {
  requested = h ∙ sym (wake-is_taken s.turn);
  in_progress = k ∙ sym (wake-is_running s.turn);
  shared_waits = λ one. absurd (omega arith);
  exclusive_waits = λ e. absurd (wake-waiting s.turn e);
}

idle-calm : (t : Turn) → is_taken t ≡ false → is_running t ≡ false
unfolding is_taken is_running
idle-calm idle h = refl
idle-calm waiting h = refl
idle-calm woken h = refl
idle-calm checked h = refl
idle-calm running h = cc

-- A check that fails finds an exclusive operation that has its turn.
share_refused : (s : Coordination) → IsConsistent s → may_share s ≡ false → is_taken s.turn ≡ true
share_refused s c refused = elim (Bool-cases (is_taken s.turn)) [
  | inl e ↦ e
  | inr e ↦ let calm = idle-calm s.turn e in ground (arith, c.requested, c.in_progress)
]

if_shared-IsConsistent :
    (s : Coordination) (b : Bool)
    → IsConsistent s
    → (b ≡ false → is_taken s.turn ≡ true)
    → IsConsistent (
        if b
        then record s { shared_checked = s.shared_checked + 1 }
        else record s { shared_waiting = s.shared_waiting + 1 })
if_shared-IsConsistent s true c h = record {
  requested = c.requested;
  in_progress = c.in_progress;
  shared_waits = c.shared_waits;
  exclusive_waits = c.exclusive_waits;
}
if_shared-IsConsistent s false c h = record {
  requested = c.requested;
  in_progress = c.in_progress;
  shared_waits = λ _. h refl;
  exclusive_waits = c.exclusive_waits;
}

check_shared-IsConsistent : (s : Coordination) → IsConsistent s → IsConsistent (check_shared s)
unfolding check_shared
check_shared-IsConsistent s c = if_shared-IsConsistent s (may_share s) c (share_refused s c)

if_exclusive-IsConsistent :
    (s : Coordination) (b : Bool)
    → s.exclusive_operation_requested ≡ true
    → s.exclusive_operation_in_progress ≡ false
    → (b ≡ false → 1 ≤ s.active_shared_operations)
    → IsConsistent (record s { turn = if b then checked else waiting })
unfolding is_taken is_running
if_exclusive-IsConsistent s true taken calm h = record {
  requested = taken;
  in_progress = calm;
  shared_waits = λ _. refl;
  exclusive_waits = λ e. cc;
}
if_exclusive-IsConsistent s false taken calm h = record {
  requested = taken;
  in_progress = calm;
  shared_waits = λ _. refl;
  exclusive_waits = λ _. h refl;
}

exclude_refused :
    (s : Coordination)
    → s.exclusive_operation_in_progress ≡ false
    → may_exclude s ≡ false
    → 1 ≤ s.active_shared_operations
exclude_refused s calm refused = ground arith

check_exclusive-IsConsistent :
    (s : Coordination)
    → s.exclusive_operation_requested ≡ true
    → s.exclusive_operation_in_progress ≡ false
    → IsConsistent (check_exclusive s)
unfolding check_exclusive
check_exclusive-IsConsistent s taken calm =
    if_exclusive-IsConsistent s (may_exclude s) taken calm (exclude_refused s calm)

-- The exclusive operation that gets its turn: the flag, the wake-ups and the first check.
requests-IsConsistent :
    (s : Coordination)
    → s.exclusive_operation_in_progress ≡ false
    → IsConsistent
        (check_exclusive (notify_waiters (record s { exclusive_operation_requested = true })))
unfolding notify_waiters
requests-IsConsistent s calm = check_exclusive-IsConsistent _ refl calm

Call-IsConsistent : {s s' : Coordination} → Call s s' → IsConsistent s → IsConsistent s'
Call-IsConsistent (run_shared s) c = check_shared-IsConsistent s c
Call-IsConsistent (run_exclusive s) c = record {
  requested = c.requested;
  in_progress = c.in_progress;
  shared_waits = c.shared_waits;
  exclusive_waits = c.exclusive_waits;
}

Step-IsConsistent : {s s' : Coordination} → Step s s' → IsConsistent s → IsConsistent s'
unfolding is_taken is_running
Step-IsConsistent (shared_checks s n _) c =
    check_shared-IsConsistent (record s { shared_woken = n })
      (record {
        requested = c.requested;
        in_progress = c.in_progress;
        shared_waits = c.shared_waits;
        exclusive_waits = c.exclusive_waits;
      })
Step-IsConsistent (shared_enters s n _) c = record {
  requested = c.requested;
  in_progress = c.in_progress;
  shared_waits = c.shared_waits;
  exclusive_waits = λ e. omega (arith, c.exclusive_waits e);
}
Step-IsConsistent (shared_ends s n _) c =
    notify_waiters-IsConsistent (record s { active_shared_operations = n }) c.requested
      c.in_progress
Step-IsConsistent (exclusive_requests s n _ turn) c =
    requests-IsConsistent (record s { exclusive_queue = n }) (c.in_progress ∙ ap is_running turn)
Step-IsConsistent (exclusive_checks s turn) c =
    check_exclusive-IsConsistent s (c.requested ∙ ap is_taken turn)
      (c.in_progress ∙ ap is_running turn)
Step-IsConsistent (exclusive_enters s turn) c = record {
  requested = c.requested ∙ ap is_taken turn;
  in_progress = refl;
  shared_waits = λ _. refl;
  exclusive_waits = λ e. cc;
}
Step-IsConsistent (exclusive_ends s turn) c = notify_waiters-IsConsistent _ refl refl

pub Reachable-IsConsistent : {s : Coordination} → Reachable s → IsConsistent s
unfolding is_taken is_running
Reachable-IsConsistent start = record {
  requested = refl;
  in_progress = refl;
  shared_waits = λ one. absurd (omega arith);
  exclusive_waits = λ e. cc;
}
Reachable-IsConsistent (called r c) = Call-IsConsistent c (Reachable-IsConsistent r)
Reachable-IsConsistent (stepped r t) = Step-IsConsistent t (Reachable-IsConsistent r)

-- Some operation has been called and has not ended.
unfoldable pub Pending : Coordination → Type 0
Pending s =
    (1
      ≤ s.shared_waiting + s.shared_woken + s.shared_checked + s.active_shared_operations
        + s.exclusive_queue)
    ⊎ (s.turn ≢ idle)

zero_or_suc : (n : ℕ) → (n ≡ 0) ⊎ ((m : ℕ) × (n ≡ suc m))
zero_or_suc zero = inl refl
zero_or_suc (suc m) = inr (m, refl)

-- No operation that shares is under way, and none has been woken.
step_from_turn :
    (s : Coordination)
    → IsConsistent s
    → s.active_shared_operations ≡ 0
    → (t : Turn) → s.turn ≡ t
    → (s.turn ≢ idle) ⊎ (1 ≤ s.shared_waiting + s.exclusive_queue)
    → (s' : Coordination) × Step s s'
unfolding is_taken
step_from_turn s c none_active waiting e p =
    absurd (omega (arith, c.exclusive_waits e, none_active))
step_from_turn s c none_active woken e p = (_, exclusive_checks s e)
step_from_turn s c none_active checked e p = (_, exclusive_enters s e)
step_from_turn s c none_active running e p = (_, exclusive_ends s e)
step_from_turn s c none_active idle e p = elim (zero_or_suc s.exclusive_queue) [
  | inr (m, some_queued) ↦ (_, exclusive_requests s m some_queued e)
  | inl none_queued ↦ elim p [
    | inl busy ↦ absurd (busy e)
    | inr more ↦
        let taken : is_taken idle ≡ true =
          ap is_taken (sym e) ∙ c.shared_waits (omega (arith, more, none_queued)) in
        absurd cc
  ]
]

-- In every reachable state of the coordination in which a shared or an exclusive operation is
-- pending, some operation can take a step.
pub no_deadlock : (s : Coordination) → Reachable s → Pending s → (s' : Coordination) × Step s s'
unfolding Pending
no_deadlock s r p = elim (zero_or_suc s.active_shared_operations) [
  | inr (m, some_active) ↦ (_, shared_ends s m some_active)
  | inl none_active ↦ elim (zero_or_suc s.shared_checked) [
    | inr (m, some_checked) ↦ (_, shared_enters s m some_checked)
    | inl none_checked ↦ elim (zero_or_suc s.shared_woken) [
      | inr (m, some_woken) ↦ (_, shared_checks s m some_woken)
      | inl none_woken ↦
          step_from_turn s (Reachable-IsConsistent r) none_active s.turn refl (elim p [
            | inl more ↦ inr (omega (arith, more, none_active, none_checked, none_woken))
            | inr busy ↦ inl busy
          ])
    ]
  ]
]
