-- ===== src/Transfer/Initiation.antt =====
-- modules/transfers/application/handlers/transfer-command.handlers.ts: `InitiateTransferHandler`,
-- which reads both accounts before the transfer is initiated.
mod Tests
use event_sourced_core_banki.Base.{
  ℕ, ◌≡◌, refl, sym, ◌∙◌, ap, Option, none, some, Bool, true, false, not, ◌||◌, [], ◌++◌, arith,
  Text, text, ◌==◌, eq_iff, eq_refl, ◌↔◌, ◌⊎◌, inl, inr,
}
use event_sourced_core_banki.Common.Result.{
  Error, Result, ok, err, bad_request, ◌>>=◌, ◌>>◌, throw_if, >>=-eq-ok, ok-injective,
}
use event_sourced_core_banki.Common.Event.{CommandContext, Stamp}
use event_sourced_core_banki.Common.Aggregate.{Aggregate, replay, with_state}
use event_sourced_core_banki.Common.Aggregate.Raising.{throw_if-ok}
use event_sourced_core_banki.Common.Optional.{is_set, differs}
use event_sourced_core_banki.Common.Money.{MoneyInput}
use event_sourced_core_banki.Account.Aggregate.{AccountState, when, new_state}
use event_sourced_core_banki.Account.Repository
use event_sourced_core_banki.Account.Repository.{AccountStores}
use event_sourced_core_banki.Account.Repository.Consistency.{
  IsConsistent, account_events, get_by_id-replay,
}
use event_sourced_core_banki.Transfer.Aggregate.{initiate}
use event_sourced_core_banki.Transfer.Repository.{Others, execute_with_retry}
use event_sourced_core_banki.Infrastructure.EventStore.{EventStore}

-- The checks of the handler, before it runs the operation.
unfoldable pub check_accounts : Text → Text → Text → AccountStores → Result (Unit {0})
check_accounts source_account_id destination_account_id currency stores = do
  source ← Repository.get_by_id source_account_id stores
  destination ← Repository.get_by_id destination_account_id stores
  throw_if (not (is_set source.state.account_id))
      (bad_request (text "Source account " ++ (source_account_id ++ text " not found")))
  throw_if (not (is_set destination.state.account_id))
      (bad_request (text "Destination account " ++ (destination_account_id ++ text " not found")))
  throw_if (differs source.state.currency currency || differs destination.state.currency currency)
      (bad_request (text "Transfer currency must match both accounts"))

-- The transfers stand in the same event store as the accounts.
unfoldable pub after_check :
    Result (Unit {0})
    → (EventStore → Result (Unit {0}) × EventStore)
    → AccountStores
    → Result (Unit {0}) × AccountStores
after_check (err e) run stores = (err e, stores)
after_check (ok _) run stores =
    let (answer, event_store) = run stores.event_store in
    (answer, record stores { event_store = event_store })

unfoldable pub execute_initiation :
    Text
    → Text
    → Text
    → MoneyInput
    → Text
    → CommandContext
    → (ℕ → Stamp)
    → Others
    → AccountStores
    → Result (Unit {0}) × AccountStores
unfolding after_check
execute_initiation transfer_id source destination amount currency context stamps others stores =
    after_check (check_accounts source destination currency stores)
      (execute_with_retry transfer_id
        (λ n. initiate transfer_id source destination amount currency context (stamps n)) others)
      stores

-- An account of the stores that was created in this currency.
pub record IsOpen (stores : AccountStores) (account_id currency : Text) : Type 0 where
  pub state : AccountState
  pub replayed : replay when (account_events stores account_id) new_state ≡ ok state
  pub created : is_set state.account_id ≡ true
  pub same : state.currency ≡ some currency

not-differs : (c : Option Text) (currency : Text) → differs c currency ≡ false → c ≡ some currency
not-differs none currency h = cc
not-differs (some c) currency h = ground (arith, eq_iff c currency)

module _ (stores : AccountStores) (c : IsConsistent stores) (account_id : Text)
    (a : Aggregate AccountState) (loaded : Repository.get_by_id account_id stores ≡ ok a) where
  loaded-replay : replay when (account_events stores account_id) new_state ≡ ok a.state
  loaded-replay =
      let (s, r, _) = c.replays account_id in
      let e = sym (ap (with_state []) r) ∙ sym (get_by_id-replay stores account_id c) ∙ loaded in
      r ∙ ap (λ (b : Aggregate AccountState). ok b.state) (ok-injective e)

orb_false : (b d : Bool) → (b || d) ≡ false → (b ≡ false) × (d ≡ false)
orb_false b d h = (ground arith, ground arith)

negated : (b : Bool) → not b ≡ false → b ≡ true
negated b h = ground arith

passed :
    (source destination currency : Text) (stores : AccountStores)
    → IsConsistent stores
    → check_accounts source destination currency stores ≡ ok tt
    → IsOpen stores source currency × IsOpen stores destination currency
unfolding check_accounts
passed source destination currency stores c h =
    let (a, loaded_a, h1) = >>=-eq-ok (Repository.get_by_id source stores) _ h in
    let (b, loaded_b, h2) = >>=-eq-ok (Repository.get_by_id destination stores) _ h1 in
    let (_, here_a, h3) = >>=-eq-ok (throw_if (not (is_set a.state.account_id)) _) _ h2 in
    let (_, here_b, h4) = >>=-eq-ok (throw_if (not (is_set b.state.account_id)) _) _ h3 in
    let same = orb_false _ _ (throw_if-ok _ _ h4) in
    (
      record {
        state = a.state;
        replayed = loaded-replay stores c source a loaded_a;
        created = negated _ (throw_if-ok _ _ here_a);
        same = not-differs a.state.currency currency same.0;
      },
      record {
        state = b.state;
        replayed = loaded-replay stores c destination b loaded_b;
        created = negated _ (throw_if-ok _ _ here_b);
        same = not-differs b.state.currency currency same.1;
      },
    )

refuted : {x : Error} → ◌≡◌ {A = Result (Unit {0})} (err x) (ok tt) → ⊥
refuted h = cc

same-differs : (c : Option Text) (currency : Text) → c ≡ some currency → differs c currency ≡ false
same-differs c currency e = rw (e, eq_refl currency) refl

passes :
    (source destination currency : Text) (stores : AccountStores)
    → IsConsistent stores
    → IsOpen stores source currency
    → IsOpen stores destination currency
    → check_accounts source destination currency stores ≡ ok tt
unfolding check_accounts
passes source destination currency stores c a b =
    rw
      (
        get_by_id-replay stores source c,
        get_by_id-replay stores destination c,
        a.replayed,
        b.replayed,
        a.created,
        b.created,
        same-differs a.state.currency currency a.same,
        same-differs b.state.currency currency b.same,
      )
      refl

-- What an initiation comes to: `done` for both accounts there, or an error for not both there.
abbrev pub Decides :
    AccountStores
    → Text
    → Text
    → Text
    → Result (Unit {0}) × AccountStores
    → Result (Unit {0}) × AccountStores
    → Type 0
Decides stores source destination currency done outcome =
    ((IsOpen stores source currency × IsOpen stores destination currency) × (outcome ≡ done))
    ⊎ ((IsOpen stores source currency × IsOpen stores destination currency → ⊥)
        × ((e : Error) × (outcome ≡ (err e, stores))))

check_accounts-Decides :
    (source destination currency : Text) (run : EventStore → Result (Unit {0}) × EventStore)
    (stores : AccountStores) (r : Result (Unit {0}))
    → IsConsistent stores
    → check_accounts source destination currency stores ≡ r
    → Decides stores source destination currency
        (after_check (ok tt) run stores)
        (after_check r run stores)
unfolding after_check
check_accounts-Decides source destination currency run stores (ok tt) c e =
    inl (passed source destination currency stores c e, refl)
check_accounts-Decides source destination currency run stores (err x) c e = inr (
  (λ h. let p = sym e ∙ passes source destination currency stores c h.0 h.1 in refuted p),
  (x, refl),
)

-- In consistent stores, an initiation between accounts that exist and have the transfer's currency
-- ends as the transfer's repository ends it; any other initiation is refused and leaves the stores
-- as they are.
pub initiation_outcome :
    (transfer_id source destination : Text) (amount : MoneyInput) (currency : Text)
    (context : CommandContext) (stamps : ℕ → Stamp) (others : Others) (stores : AccountStores)
    → IsConsistent stores
    → Decides stores source destination currency
        (after_check
          (ok tt)
          (execute_with_retry transfer_id
            (λ n. initiate transfer_id source destination amount currency context (stamps n))
            others)
          stores)
        (execute_initiation transfer_id source destination amount currency context stamps others
          stores)
unfolding execute_initiation
initiation_outcome transfer_id source destination amount currency context stamps others stores c =
    check_accounts-Decides source destination currency
      (execute_with_retry transfer_id
        (λ n. initiate transfer_id source destination amount currency context (stamps n)) others)
      stores (check_accounts source destination currency stores) c refl
