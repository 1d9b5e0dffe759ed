-- ===== src/State/Oracle/Median.antt =====
-- The median that `OracleFeed::submit` of crates/vtt-state/src/oracle.rs takes at the quorum.
use vtt.Prelude.{
  ℕ, zero, suc, ◌/◌, ◌≡◌, ◌≤◌, ◌<◌, refl, subst, sym, ap, ◌∙◌, List, [], ◌∷◌, ◌++◌, Bool, true,
  false, Option, none, arith, some, if◌then◌else◌, ◌==◌, ltb, leb, length, get_elem?, length-append,
}
use vtt.Prelude.Keys.{nat_key}
use vtt.Prelude.Sets.{contains, count, IsNodup, append-IsNodup}
use vtt.State.Oracle.{
  OracleFeed, OracleSubmission, insert_sorted, sort, values_of, median, aggregate, submitted,
  submit, without_source,
}

abbrev pub below : ℕ → ℕ → Bool
below v w = ltb w v

abbrev pub at_most : ℕ → ℕ → Bool
at_most v w = leb w v

IsSorted : List ℕ → Type 0
IsSorted [] = Unit
IsSorted (x ∷ xs) = (count (below x) xs ≡ 0) × IsSorted xs

count-insert_sorted :
    (p : ℕ → Bool) (v : ℕ) (ws : List ℕ) → count p (insert_sorted v ws) ≡ count p (v ∷ ws)
unfolding count insert_sorted
count-insert_sorted p v [] = refl
count-insert_sorted p v (w ∷ ws) = ground (arith, count-insert_sorted p v ws)

count-sort : (p : ℕ → Bool) (vs : List ℕ) → count p (sort vs) ≡ count p vs
unfolding count sort
count-sort p [] = refl
count-sort p (v ∷ vs) = omega (arith, count-insert_sorted p v (sort vs), count-sort p vs)

length-insert_sorted : (v : ℕ) (ws : List ℕ) → length (insert_sorted v ws) ≡ suc (length ws)
unfolding insert_sorted
length-insert_sorted v [] = refl
length-insert_sorted v (w ∷ ws) = ground (arith, length-insert_sorted v ws)

length-sort : (vs : List ℕ) → length (sort vs) ≡ length vs
unfolding sort
length-sort [] = refl
length-sort (v ∷ vs) = omega (arith, length-insert_sorted v (sort vs), length-sort vs)

below_less : (x y : ℕ) (ws : List ℕ) → x ≤ y → count (below x) ws ≤ count (below y) ws
unfolding count
below_less x y [] le = omega arith
below_less x y (w ∷ ws) le = ground (arith, below_less x y ws le)

insert_sorted-IsSorted : (v : ℕ) (ws : List ℕ) → IsSorted ws → IsSorted (insert_sorted v ws)
unfolding IsSorted insert_sorted count
insert_sorted-IsSorted v [] h = (refl, tt)
insert_sorted-IsSorted v (w ∷ ws) h =
    ground (
      arith,
      insert_sorted-IsSorted v ws h.1,
      count-insert_sorted (below w) v ws,
      below_less v w ws,
    )

sort-IsSorted : (vs : List ℕ) → IsSorted (sort vs)
unfolding sort IsSorted
sort-IsSorted [] = tt
sort-IsSorted (v ∷ vs) = insert_sorted-IsSorted v (sort vs) (sort-IsSorted vs)

-- A value that is found in a list is at least what bounds the list from below.
above_bound :
    (x : ℕ) (xs : List ℕ) (k : ℕ) {v : ℕ} → count (below x) xs ≡ 0 → get_elem? xs k ≡ some v → x ≤ v
unfolding count
above_bound x [] k h e = cc
above_bound x (y ∷ xs) zero h e = ground arith
above_bound x (y ∷ xs) (suc k) {v} h e = ground (arith, above_bound x xs k {v = v})

sorted_splits :
    (xs : List ℕ) (k : ℕ) {v : ℕ}
    → IsSorted xs
    → get_elem? xs k ≡ some v
    → (count (below v) xs ≤ k) × (k < count (at_most v) xs)
unfolding count IsSorted
sorted_splits [] k h e = cc
sorted_splits (x ∷ xs) zero h e = (ground arith, ground arith)
sorted_splits (x ∷ xs) (suc k) {v} h e =
    let rest = sorted_splits xs k {v = v} h.1 e in
    let bound = above_bound x xs k {v = v} h.0 e in
    (ground (arith, rest), ground (arith, rest, bound))

found_at : (xs : List ℕ) (k : ℕ) → k < length xs → (v : ℕ) × (get_elem? xs k ≡ some v)
found_at [] k h = absurd (omega arith)
found_at (x ∷ xs) zero h = (x, refl)
found_at (x ∷ xs) (suc k) h = found_at xs k (omega arith)

median_splits :
    (vs : List ℕ)
    → 0 < length vs
    → (v : ℕ) × (median vs ≡ some v)
      × (count (below v) vs ≤ length vs / 2)
      × (length vs / 2 < count (at_most v) vs)
unfolding median
median_splits vs some_ =
    let (v, e) = found_at (sort vs) (length vs / 2) (omega (arith, length-sort vs)) in
    let halves = sorted_splits (sort vs) (length vs / 2) (sort-IsSorted vs) e in
    (
      v,
      e,
      omega (arith, halves, count-sort (below v) vs),
      omega (arith, halves, count-sort (at_most v) vs),
    )

length-values_of : (ss : List OracleSubmission) → length (values_of ss) ≡ length ss
unfolding values_of
length-values_of [] = refl
length-values_of (s ∷ ss) = omega (arith, length-values_of ss)

submitted_some :
    (source value timestamp : ℕ) (ss : List OracleSubmission)
    → 0 < length (submitted source value timestamp ss)
unfolding submitted
submitted_some source value timestamp ss =
    let one : OracleSubmission = record { source = source; value = value; timestamp = timestamp } in
    omega (arith, length-append (without_source source ss) (one ∷ []))

aggregated :
    (ss : List OracleSubmission) (feed : OracleFeed)
    → 0 < length ss
    → let feed' = aggregate (record feed { pending_submissions = ss }) in
      (feed'.latest_value ≡ median (values_of ss)) × (feed'.pending_submissions ≡ [])
unfolding aggregate
aggregated [] feed some_ = absurd (omega arith)
aggregated (s ∷ ss) feed some_ = (refl, refl)

unfoldable pub sources_of : List OracleSubmission → List ℕ
sources_of [] = []
sources_of (s ∷ ss) = s.source ∷ sources_of ss

-- What a source has submitted.
unfoldable pub value_from : ℕ → List OracleSubmission → Option ℕ
value_from who [] = none
value_from who (s ∷ ss) = if s.source == who then some s.value else value_from who ss

value_from-submitted :
    (who source value timestamp : ℕ) (ss : List OracleSubmission)
    → value_from who (submitted source value timestamp ss)
      ≡ (if source == who then some value else value_from who ss)
unfolding value_from submitted without_source
value_from-submitted who source value timestamp [] = refl
value_from-submitted who source value timestamp (s ∷ ss) =
    ground (arith, value_from-submitted who source value timestamp ss)

contains-sources_of :
    (who source : ℕ) (ss : List OracleSubmission)
    → contains who (sources_of (without_source source ss))
      ≡ (if who == source then false else contains who (sources_of ss))
unfolding contains sources_of without_source
contains-sources_of who source [] = ground arith
contains-sources_of who source (s ∷ ss) = ground (arith, contains-sources_of who source ss)

without_source-IsNodup :
    (source : ℕ) (ss : List OracleSubmission)
    → IsNodup (sources_of ss)
    → IsNodup (sources_of (without_source source ss))
unfolding sources_of without_source
without_source-IsNodup source [] h = tt
without_source-IsNodup source (s ∷ ss) h =
    let rest = without_source-IsNodup source ss h.1 in
    ground (arith, rest, h.0, contains-sources_of s.source source ss)

sources_of-append :
    (ss : List OracleSubmission) (s : OracleSubmission)
    → sources_of (ss ++ s ∷ []) ≡ sources_of ss ++ s.source ∷ []
unfolding sources_of
sources_of-append [] s = refl
sources_of-append (x ∷ ss) s = ap (λ xs. x.source ∷ xs) (sources_of-append ss s)

-- What is pending stays one submission for each source.
submitted-IsNodup :
    (source value timestamp : ℕ) (ss : List OracleSubmission)
    → IsNodup (sources_of ss)
    → IsNodup (sources_of (submitted source value timestamp ss))
unfolding submitted
submitted-IsNodup source value timestamp ss h =
    let one : OracleSubmission = record { source = source; value = value; timestamp = timestamp } in
    let fresh : contains source (sources_of (without_source source ss)) ≡ false =
      ground (arith, contains-sources_of source source ss) in
    subst IsNodup (sym (sources_of-append (without_source source ss) one)) (
      append-IsNodup source (sources_of (without_source source ss))
        (without_source-IsNodup source ss h) fresh)

-- An authorized submission that reaches the quorum closes the round. What counts is one value for each
-- source, where that held before: the new value of the sender, in place of an earlier one, and of every
-- other source what was pending from it. The new value of the feed is a median of these, at most half
-- of them are below it and more than half are not above it, and nothing stays pending.
pub submit_takes_median :
    (source value timestamp : ℕ) (feed : OracleFeed)
    → contains source feed.authorized_sources ≡ true
    → IsNodup (sources_of feed.pending_submissions)
    → let ss = submitted source value timestamp feed.pending_submissions in
      feed.quorum ≤ length ss
      → (v : ℕ) × (feed' : OracleFeed) × (submit source value timestamp feed ≡ (true, feed'))
        × (feed'.latest_value ≡ some v)
        × (feed'.pending_submissions ≡ [])
        × IsNodup (sources_of ss)
        × ((who : ℕ)
            → value_from who ss
              ≡ (if source == who then some value else value_from who feed.pending_submissions))
        × (count (below v) (values_of ss) ≤ length ss / 2)
        × (length ss / 2 < count (at_most v) (values_of ss))
unfolding submit
submit_takes_median source value timestamp feed allowed single enough =
    let ss = submitted source value timestamp feed.pending_submissions in
    let some_ = submitted_some source value timestamp feed.pending_submissions in
    let same = length-values_of ss in
    let (v, is, less, more) = median_splits (values_of ss) (omega (arith, some_, same)) in
    let closed = aggregated ss feed some_ in
    (
      v,
      aggregate (record feed { pending_submissions = ss }),
      ground arith,
      closed.0 ∙ is,
      closed.1,
      submitted-IsNodup source value timestamp feed.pending_submissions single,
      λ who. value_from-submitted who source value timestamp feed.pending_submissions,
      subst (λ n. count (below v) (values_of ss) ≤ n / 2) same less,
      subst (λ n. n / 2 < count (at_most v) (values_of ss)) same more,
    )
