-- ===== src/State/Oracle.antt =====
-- crates/vtt-state/src/oracle.rs
pub mod Median
use vtt.Prelude.{
  ℕ, zero, suc, ◌+◌, ◌/◌, ◌%◌, List, [], ◌∷◌, ◌++◌, Bool, true, false, not, ◌&&◌, Option, none,
  some, ltb, leb, ◌==◌, if◌then◌else◌, max, length, map, get_elem?, u64_mod,
}
use vtt.Prelude.Keys.{nat_key}
use vtt.Prelude.Sets.{contains}
use vtt.Primitives.{Text}
use vtt.Primitives.Amount.{Amount}

-- `enum OracleFeedType`
pub data OracleFeedType : Type 0 where
  asset_valuation : ℕ → OracleFeedType
  market_price interest_rate custom : Text → OracleFeedType

-- `struct OracleSubmission`
pub record OracleSubmission : Type 0 where
  pub source : ℕ
  pub value : Amount
  pub timestamp : ℕ

-- `struct OracleFeed`
pub record OracleFeed : Type 0 where
  pub feed_id : ℕ
  pub name : Text
  pub feed_type : OracleFeedType
  pub authorized_sources : List ℕ
  pub quorum : ℕ
  pub max_staleness_ms : ℕ
  pub latest_value : Option Amount
  pub decimals : ℕ
  pub updated_at : ℕ
  pub pending_submissions : List OracleSubmission
  pub created_at : ℕ

-- `OracleFeed::new_with_decimals`
unfoldable pub new_with_decimals : ℕ → Text → OracleFeedType → List ℕ → ℕ → ℕ → ℕ → OracleFeed
new_with_decimals feed_id name feed_type authorized_sources quorum max_staleness_ms decimals =
    record {
      feed_id = feed_id;
      name = name;
      feed_type = feed_type;
      authorized_sources = authorized_sources;
      quorum = max quorum 1;
      max_staleness_ms = max_staleness_ms;
      latest_value = none;
      decimals = decimals;
      updated_at = 0;
      pending_submissions = [];
      created_at = 0;
    }

-- `values.sort()`
unfoldable pub insert_sorted : Amount → List Amount → List Amount
insert_sorted v [] = v ∷ []
insert_sorted v (w ∷ ws) = if leb v w then v ∷ w ∷ ws else w ∷ insert_sorted v ws

unfoldable pub sort : List Amount → List Amount
sort [] = []
sort (v ∷ vs) = insert_sorted v (sort vs)

-- The values that are pending.
unfoldable pub values_of : List OracleSubmission → List Amount
values_of [] = []
values_of (s ∷ ss) = s.value ∷ values_of ss

-- The latest of the timestamps, 0 for none.
unfoldable pub latest_of : List OracleSubmission → ℕ
latest_of [] = 0
latest_of (s ∷ ss) = max s.timestamp (latest_of ss)

-- `values[values.len() / 2]`
unfoldable pub median : List Amount → Option Amount
unfolding sort
median values = get_elem? (sort values) (length values / 2)

-- `aggregate`
unfoldable pub aggregate : OracleFeed → OracleFeed
unfolding median values_of latest_of
aggregate feed = elim feed.pending_submissions [
  | [] ↦ feed
  | _ ∷ _ ↦ record feed {
    latest_value = median (values_of feed.pending_submissions);
    updated_at = latest_of feed.pending_submissions;
    pending_submissions = [];
  }
]

-- `retain(|s| s.source != source)`
unfoldable pub without_source : ℕ → List OracleSubmission → List OracleSubmission
without_source source [] = []
without_source source (s ∷ ss) =
    if s.source == source then without_source source ss else s ∷ without_source source ss

-- The submissions once a source has submitted.
unfoldable pub submitted : ℕ → Amount → ℕ → List OracleSubmission → List OracleSubmission
unfolding without_source
submitted source value timestamp ss =
    without_source source ss
    ++ record { source = source; value = value; timestamp = timestamp } ∷ []

-- `OracleFeed::submit`, with whether the quorum was reached.
unfoldable pub submit : ℕ → Amount → ℕ → OracleFeed → Bool × OracleFeed
submit source value timestamp feed =
    let feed' = record feed {
      pending_submissions = submitted source value timestamp feed.pending_submissions;
    } in
    if not (contains source feed.authorized_sources)
    then (false, feed)
    else if leb feed.quorum (length feed'.pending_submissions)
    then (true, aggregate feed')
    else (false, feed')

-- `OracleFeed::read`
unfoldable pub read : ℕ → OracleFeed → Option (Amount × ℕ)
read current_time feed = elim feed.latest_value [
  | none ↦ none
  | some value ↦
      if ltb 0 feed.max_staleness_ms
        && ltb ((feed.updated_at + feed.max_staleness_ms) % u64_mod) current_time
      then none
      else some (value, feed.updated_at)
]

-- `is_authorized`
abbrev pub is_authorized : ℕ → OracleFeed → Bool
is_authorized source feed = contains source feed.authorized_sources
