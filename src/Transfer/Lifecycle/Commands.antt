-- ===== src/Transfer/Lifecycle/Commands.antt =====
-- Every command follows the edges, and no command is accepted in a final phase.
use event_sourced_core_banki.Base.{
  ◌+◌, ◌≡◌, ◌≢◌, refl, sym, subst, none, some, Bool, true, false, arith, Text, is_truthy, ◌==◌,
  eq_iff, ℤ, pos, leb_ℤ, ◌≤ℤ◌, inl, inr,
}
use event_sourced_core_banki.Common.Result.{ok, >>=-eq-ok, throw_if}
use event_sourced_core_banki.Common.Optional.{is_set}
use event_sourced_core_banki.Common.Event.{CommandContext, Stamp, transfer_initiated}
use event_sourced_core_banki.Common.Aggregate.{Aggregate}
use event_sourced_core_banki.Common.Aggregate.Raising.{apply-state, throw_if-ok}
use event_sourced_core_banki.Common.Money.{
  MoneyInput, parse_money_to_minor_units, format_minor_units_to_money,
}
use event_sourced_core_banki.Common.Money.RoundTrip.{parse-format}
use event_sourced_core_banki.Transfer.Aggregate.{
  TransferState, initiated, when, make_event, initiate,
}
use event_sourced_core_banki.Transfer.Lifecycle.{
  Phase, phase, phase_of, is_edge, Raises, SameTerms, Advances, IsAgreed, IsWell,
  IsAgreed-SameTerms, done, failed_debit, refunded,
}
use event_sourced_core_banki.Transfer.Command.{
  TransferCommand, initiate_transfer, start_debit_transfer, mark_transfer_debited,
  start_credit_transfer, complete_transfer, fail_transfer, start_transfer_compensation,
  complete_transfer_compensation, run_command,
}
use event_sourced_core_banki.Transfer.Lifecycle.Advance.{
  apply-Raises, start_debit-Advances, mark_debited-Advances, start_credit-Advances,
  complete-Advances, fail-Advances, start_compensation-Advances, mark_compensated-Advances,
}

is_set-truthy : (id : Text) → is_truthy id ≡ true → is_set (some id) ≡ true
is_set-truthy id h = h

when-initiated :
    (s : TransferState) (id source destination : Text) (z : ℤ) (currency : Text)
    (context : CommandContext) (stamp : Stamp)
    → when
        (make_event s
          (transfer_initiated id source destination (format_minor_units_to_money z) currency)
          context
          stamp)
        s
      ≡ ok (record s {
        transfer_id = some id;
        source_account_id = some source;
        destination_account_id = some destination;
        amount_minor_units = z;
        currency = some currency;
        status = some initiated;
        version = s.version + 1;
        failure_reason = none;
        failure_stage = none;
        created_at = some stamp.now;
        updated_at = some stamp.now;
      })
unfolding when make_event
when-initiated s id source destination z currency context stamp = rw (parse-format z)

contradict : {b : Bool} → b ≡ true → b ≡ false → ⊥
contradict p q = cc

at_least_one : (z : ℤ) → leb_ℤ z (pos 0) ≡ false → pos 1 ≤ℤ z
at_least_one z h = ground arith

different : (s t : Text) → (s == t) ≡ false → s ≢ t
different s t h e = cc ((eq_iff s t).1 e)

-- What holds after a command that succeeded.
pub record Follows (a a' : Aggregate TransferState) : Type 0 where
  pub edge : is_edge (phase a.state) (phase a'.state) ≡ true
  pub raises : Raises a a'
  pub well : IsWell a'.state
  pub kept : IsAgreed a.state → SameTerms a.state a'.state

waiting_edge :
    (s : TransferState) (id : Text)
    → IsWell s
    → is_set s.transfer_id ≡ false
    → is_edge (phase s) (phase_of (some initiated) none) ≡ true
unfolding phase_of is_edge
waiting_edge s id (inl (e, _)) h = rw e
waiting_edge s id (inr g) h = cc (g.has_id)

initiate-Follows :
    (id source destination : Text) (amount : MoneyInput) (currency : Text)
    (context : CommandContext) (stamp : Stamp) (a : Aggregate TransferState)
    {a' : Aggregate TransferState}
    → IsWell a.state
    → is_truthy id ≡ true
    → initiate id source destination amount currency context stamp a ≡ ok a'
    → Follows a a'
unfolding initiate
initiate-Follows id source destination amount currency context stamp a well named h =
    let (_, fresh, h1) = >>=-eq-ok (throw_if (is_set a.state.transfer_id) _) _ h in
    let (_, apart, h2) = >>=-eq-ok (throw_if (source == destination) _) _ h1 in
    let (z, parsed, h3) = >>=-eq-ok (parse_money_to_minor_units amount) _ h2 in
    let (_, above, h4) = >>=-eq-ok (throw_if (leb_ℤ z (pos 0)) _) _ h3 in
    let unset = throw_if-ok _ _ fresh in
    let e =
      apply-state when a _ (when-initiated a.state id source destination z currency context stamp)
        h4 in
    record {
      edge =
          subst (λ t. is_edge (phase a.state) (phase t) ≡ true) (sym e)
            (waiting_edge a.state id well unset);
      raises = apply-Raises _ context stamp a h4;
      well = subst IsWell (sym e) (
          inr (record {
            source = source;
            destination = destination;
            has_source = refl;
            has_destination = refl;
            distinct = different source destination (throw_if-ok _ _ apart);
            positive = at_least_one z (throw_if-ok _ _ above);
            has_id = is_set-truthy id named;
          }));
      kept = λ g. absurd (contradict g.has_id unset);
    }

Advances-Follows : (a a' : Aggregate TransferState) → IsWell a.state → Advances a a' → Follows a a'
unfolding phase_of
Advances-Follows a a' (inl (e, _)) v = absurd (
    contradict
      (subst (λ t. is_edge (phase_of t a.state.failure_stage) (phase a'.state) ≡ true) e v.edge)
      v.later)
Advances-Follows a a' (inr g) v = record {
  edge = v.edge;
  raises = v.raises;
  well = inr (IsAgreed-SameTerms v.terms g);
  kept = λ _. v.terms;
}

-- The identifier that an initiation brings is not empty.
unfoldable pub IsNamed : TransferCommand → Type 0
IsNamed (initiate_transfer id _ _ _ _ _) = is_truthy id ≡ true
IsNamed _ = Unit

-- Every command (whose initiation names a transfer) that succeeds on a well-formed transfer moves
-- the transfer along an edge of the life-cycle diagram, raises exactly one event with the next
-- version, keeps parties, amount and currency once agreed, and leaves distinct parties and a
-- positive amount.
pub run_command-Follows :
    (command : TransferCommand) (stamp : Stamp) (a a' : Aggregate TransferState)
    → IsWell a.state
    → IsNamed command
    → run_command command stamp a ≡ ok a'
    → Follows a a'
unfolding run_command IsNamed
run_command-Follows (initiate_transfer id source destination amount currency context) stamp a a' w n
      h =
    initiate-Follows id source destination amount currency context stamp a w n h
run_command-Follows (start_debit_transfer _ t context) stamp a a' w n h =
    Advances-Follows a a' w (start_debit-Advances context stamp a t h)
run_command-Follows (mark_transfer_debited _ context) stamp a a' w n h =
    Advances-Follows a a' w (mark_debited-Advances context stamp a h)
run_command-Follows (start_credit_transfer _ t context) stamp a a' w n h =
    Advances-Follows a a' w (start_credit-Advances context stamp a t h)
run_command-Follows (complete_transfer _ context) stamp a a' w n h =
    Advances-Follows a a' w (complete-Advances context stamp a h)
run_command-Follows (fail_transfer _ reason stage context) stamp a a' w n h =
    Advances-Follows a a' w (fail-Advances context stamp a reason stage h)
run_command-Follows (start_transfer_compensation _ t context) stamp a a' w n h =
    Advances-Follows a a' w (start_compensation-Advances context stamp a t h)
run_command-Follows (complete_transfer_compensation _ context) stamp a a' w n h =
    Advances-Follows a a' w (mark_compensated-Advances context stamp a h)

-- The phases that no edge leaves.
unfoldable pub is_final : Phase → Bool
is_final done = true
is_final failed_debit = true
is_final refunded = true
is_final _ = false

no_edge : (p q : Phase) → is_final p ≡ true → is_edge p q ≡ false
unfolding is_final is_edge
no_edge p q h = ground arith

-- A well-formed transfer that is completed, failed in the debit or compensated accepts no further
-- command (whose initiation names a transfer).
pub final_refuses :
    (command : TransferCommand) (stamp : Stamp) (a a' : Aggregate TransferState)
    → IsWell a.state
    → IsNamed command
    → is_final (phase a.state) ≡ true
    → run_command command stamp a ≢ ok a'
final_refuses command stamp a a' w n final h =
    contradict (run_command-Follows command stamp a a' w n h).edge
      (no_edge (phase a.state) (phase a'.state) final)
