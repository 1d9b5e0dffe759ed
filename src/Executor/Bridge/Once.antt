-- ===== src/Executor/Bridge/Once.antt =====
-- Replay protection of `execute_bridge_deposit` in crates/vtt-executor/src/lib.rs.
use vtt.Prelude.{ℕ, ◌≡◌, ◌≢◌, sym, ap, ◌∙◌, true, false, not, arith, ◌==◌}
use vtt.Prelude.Keys.{pair_key, nat_key}
use vtt.Prelude.Sets.{contains-set_insert}
use vtt.Prelude.Outcome.{ok, err}
use vtt.Prelude.Action.{after-eq-ok, reject_if-eq-ok}
use vtt.Primitives.{zero_address}
use vtt.State.Db.{StateDb}
use vtt.State.Params.{bridge_deposit_processed, mark_bridge_deposit_processed}
use vtt.Executor.Transactions.{ExecutionError}
use vtt.Executor.Bridge.{credit_deposit, execute_bridge_deposit}

processed_once_marked :
    (chain hash : ℕ) (s : StateDb)
    → bridge_deposit_processed chain hash (mark_bridge_deposit_processed chain hash s) ≡ true
unfolding bridge_deposit_processed mark_bridge_deposit_processed
processed_once_marked chain hash s =
    ground (arith, contains-set_insert (chain, hash) (chain, hash) s.params.bridge_processed)

refused_when_processed :
    (sender hash chain to token x : ℕ) (s : StateDb)
    → bridge_deposit_processed chain hash s ≡ true
    → execute_bridge_deposit sender hash chain to token x s ≡ (err ExecutionError.custom, s)
unfolding execute_bridge_deposit
refused_when_processed sender hash chain to token x s h = ground arith

-- A deposit of another chain is credited only by the relayer, while the bridge is not paused, and
-- once: after a deposit has succeeded, every further one for the same chain and transaction fails
-- and changes nothing, whoever sends it and whatever it would credit.
pub execute_bridge_deposit-once :
    (sender hash chain to token amount : ℕ) (s : StateDb) {s' : StateDb}
    → execute_bridge_deposit sender hash chain to token amount s ≡ (ok tt, s')
    → (s.params.bridge_paused ≡ false)
      × (sender ≡ s.params.bridge_relayer)
      × (sender ≢ zero_address)
      × ((other to' token' more : ℕ)
          → execute_bridge_deposit other hash chain to' token' more s'
            ≡ (err ExecutionError.custom, s'))
unfolding execute_bridge_deposit
execute_bridge_deposit-once sender hash chain to token amount s {s'} h =
    let (running, h1) = reject_if-eq-ok s.params.bridge_paused _ s _ h in
    let (set, h2) = reject_if-eq-ok (s.params.bridge_relayer == zero_address) _ s _ h1 in
    let (relayed, h3) = reject_if-eq-ok (not (sender == s.params.bridge_relayer)) _ s _ h2 in
    let (new, h4) = reject_if-eq-ok (bridge_deposit_processed chain hash s) _ s _ h3 in
    let (some_, h5) = reject_if-eq-ok (amount == 0) _ s _ h4 in
    let (_, t, credited, last) = after-eq-ok (credit_deposit to token amount s) _ h5 in
    let marked : mark_bridge_deposit_processed chain hash t ≡ s' = ap (λ x. x.1) last in
    (
      running,
      ground arith,
      ground arith,
      λ other to' token' more. refused_when_processed other hash chain to' token' more s' (
          ap (bridge_deposit_processed chain hash) (sym marked)
          ∙ processed_once_marked chain hash t),
    )
