-- ===== src/Outbox/Reports.antt =====
-- What the operators' reports say of the table.
use mathlib.Core.Option
use native.Mathlib.Nat.{le_trans}
use coes_platform.Base.{
  leb→le, ℕ, Bool, ◌&&◌, ◌||◌, ◌==◌, ltb, any, ap, sym, ◌∙◌, ◌+◌, ◌≤◌, true, false, Option, none,
  some, [], ◌∷◌, ◌≡◌, leb, Bool-cases, inl, inr, select, length, least_by, pick_least, arith, All,
  All-map, refl,
}
use coes_platform.Outbox.{
  OutboxEvent, OutboxEventStatus, is_retryable, Events, oldest_first, insert_by_age,
}
use coes_platform.Outbox.Summary.{
  OutboxStatusCounts, OutboxOperationsSummary, count_statuses, count_one, get_operations_summary,
  retryable,
}

-- The statuses, told apart.
abbrev pub has_status : OutboxEventStatus → OutboxEventStatus → Bool
has_status OutboxEventStatus.pending OutboxEventStatus.pending = true
has_status OutboxEventStatus.dispatched OutboxEventStatus.dispatched = true
has_status OutboxEventStatus.failed OutboxEventStatus.failed = true
has_status OutboxEventStatus.dead_letter OutboxEventStatus.dead_letter = true
has_status _ _ = false

same_retryable :
    (status : OutboxEventStatus)
    → is_retryable status
      ≡ (has_status OutboxEventStatus.pending status || has_status OutboxEventStatus.failed status)
same_retryable OutboxEventStatus.pending = refl
same_retryable OutboxEventStatus.dispatched = refl
same_retryable OutboxEventStatus.failed = refl
same_retryable OutboxEventStatus.dead_letter = refl

module _ {Payload : Type 0} where
  abbrev pub rows_with : OutboxEventStatus → Events Payload → ℕ
  rows_with status table = length (select (λ e. has_status status e.status) table)

  module _ (p : OutboxEvent Payload → Bool) where
    count-insert_by_age :
        (e : OutboxEvent Payload) (xs : Events Payload)
        → length (select p (insert_by_age e xs)) ≡ length (select p (e ∷ xs))
    unfolding insert_by_age
    count-insert_by_age e [] = refl
    count-insert_by_age e (x ∷ xs) = let rest = count-insert_by_age e xs in ground arith

    -- To sort the rows by age changes no count.
    count-oldest_first :
        (xs : Events Payload) → length (select p (oldest_first xs)) ≡ length (select p xs)
    unfolding oldest_first
    count-oldest_first [] = refl
    count-oldest_first (x ∷ xs) =
        let placed = count-insert_by_age x (oldest_first xs) in
        let rest = count-oldest_first xs in ground arith

    any-insert_by_age :
        (e : OutboxEvent Payload) (xs : Events Payload)
        → any p (insert_by_age e xs) ≡ any p (e ∷ xs)
    unfolding insert_by_age
    any-insert_by_age e [] = refl
    any-insert_by_age e (x ∷ xs) = let rest = any-insert_by_age e xs in ground arith

    any-oldest_first : (xs : Events Payload) → any p (oldest_first xs) ≡ any p xs
    unfolding oldest_first
    any-oldest_first [] = refl
    any-oldest_first (x ∷ xs) =
        let placed = any-insert_by_age x (oldest_first xs) in
        let rest = any-oldest_first xs in ground arith

  -- A row that is pending or failed and has attempts left.
  abbrev awaits_retry : OutboxEvent Payload → Bool
  awaits_retry e =
      (has_status OutboxEventStatus.pending e.status
        || has_status OutboxEventStatus.failed e.status)
      && ltb e.attempts e.max_attempts

  -- Each count of the summary is the number of the rows that it is about.
  abbrev pub IsCounted : Events Payload → OutboxOperationsSummary → Type 0
  IsCounted table r =
      (r.counts.pending ≡ rows_with OutboxEventStatus.pending table)
      × (r.counts.dispatched ≡ rows_with OutboxEventStatus.dispatched table)
      × (r.counts.failed ≡ rows_with OutboxEventStatus.failed table)
      × (r.counts.dead_letter ≡ rows_with OutboxEventStatus.dead_letter table)
      × (r.retryable_count ≡ length (select awaits_retry table))

  abbrev Adds : Events Payload → OutboxStatusCounts → OutboxStatusCounts → Type 0
  Adds xs c n =
      (n.pending ≡ c.pending + rows_with OutboxEventStatus.pending xs)
      × (n.dispatched ≡ c.dispatched + rows_with OutboxEventStatus.dispatched xs)
      × (n.failed ≡ c.failed + rows_with OutboxEventStatus.failed xs)
      × (n.dead_letter ≡ c.dead_letter + rows_with OutboxEventStatus.dead_letter xs)

  Adds-cons :
      (x : OutboxEvent Payload) (status : OutboxEventStatus) (xs : Events Payload)
      (c n : OutboxStatusCounts)
      → x.status ≡ status
      → Adds xs (count_one status c) n
      → Adds (x ∷ xs) c n
  Adds-cons x OutboxEventStatus.pending xs c n e h = ground arith
  Adds-cons x OutboxEventStatus.dispatched xs c n e h = ground arith
  Adds-cons x OutboxEventStatus.failed xs c n e h = ground arith
  Adds-cons x OutboxEventStatus.dead_letter xs c n e h = ground arith

  count_statuses-Adds :
      (xs : Events Payload) (c : OutboxStatusCounts) → Adds xs c (count_statuses xs c)
  unfolding count_statuses
  count_statuses-Adds [] c = (omega arith, omega arith, omega arith, omega arith)
  count_statuses-Adds (x ∷ xs) c =
      Adds-cons x x.status xs c (count_statuses xs (count_one x.status c)) refl
        (count_statuses-Adds xs (count_one x.status c))

  select-awaits_retry : (xs : Events Payload) → select retryable xs ≡ select awaits_retry xs
  select-awaits_retry [] = refl
  select-awaits_retry (x ∷ xs) =
      let own = same_retryable x.status in let rest = select-awaits_retry xs in ground arith

  -- Each of the four counts of the summary is the number of the rows of the table with that status,
  -- and the number of retryable rows is that of the pending and failed rows with attempts left.
  pub get_operations_summary-IsCounted :
      (table : Events Payload) → IsCounted table (get_operations_summary table)
  unfolding get_operations_summary
  get_operations_summary-IsCounted table =
      let sorted = oldest_first table in
      let none_yet : OutboxStatusCounts = record {
        pending = 0;
        dispatched = 0;
        failed = 0;
        dead_letter = 0;
      } in
      let counted = count_statuses-Adds sorted none_yet in
      let same : (status : OutboxEventStatus) → rows_with status sorted ≡ rows_with status table =
        λ status. count-oldest_first (λ e. has_status status e.status) table in
      (
        omega (arith, counted.0, same OutboxEventStatus.pending),
        omega (arith, counted.1, same OutboxEventStatus.dispatched),
        omega (arith, counted.2, same OutboxEventStatus.failed),
        omega (arith, counted.3, same OutboxEventStatus.dead_letter),
        count-oldest_first retryable table ∙ ap length (select-awaits_retry table),
      )

  module _ (P : OutboxEvent Payload → Type 0) where
    insert_by_age-All :
        (e : OutboxEvent Payload) (xs : Events Payload)
        → All P (insert_by_age e xs)
        → P e × All P xs
    unfolding insert_by_age
    insert_by_age-All e [] h = h
    insert_by_age-All e (x ∷ xs) h = elim (Bool-cases (leb e.created_at x.created_at)) [
      | inl t ↦ rw t at h
      | inr f ↦
          let both : P x × All P (insert_by_age e xs) = rw f at h in
          let (he, rest) = insert_by_age-All e xs both.1 in (he, (both.0, rest))
    ]

    oldest_first-All : (xs : Events Payload) → All P (oldest_first xs) → All P xs
    unfolding oldest_first
    oldest_first-All [] h = tt
    oldest_first-All (x ∷ xs) h =
        let (hx, rest) = insert_by_age-All x (oldest_first xs) h in (hx, oldest_first-All xs rest)

  -- The time of the next retry is that of a retryable row, and no retryable row is available
  -- sooner; there is none only if no row is retryable.
  abbrev pub IsNextRetry : Events Payload → Option ℕ → Type 0
  IsNextRetry table none = All (λ e. retryable e ≡ false) table
  IsNextRetry table (some t) =
      (any (λ e. retryable e && e.available_at == t) table ≡ true)
      × All (λ e. retryable e ≡ true → t ≤ e.available_at) table

  earliest : Option (OutboxEvent Payload) → Option ℕ
  earliest o = Option.map (λ (e : OutboxEvent Payload). e.available_at) o

  IsNextRetry-skip :
      (x : OutboxEvent Payload) (xs : Events Payload) (o : Option ℕ)
      → retryable x ≡ false
      → IsNextRetry xs o
      → IsNextRetry (x ∷ xs) o
  IsNextRetry-skip x xs none f h = (f, h)
  IsNextRetry-skip x xs (some t) f h = (let there = h.0 in ground arith, ((λ r. cc), h.1))

  IsNextRetry-pick :
      (x : OutboxEvent Payload) (xs : Events Payload) (o : Option (OutboxEvent Payload))
      → retryable x ≡ true
      → IsNextRetry xs (earliest o)
      → IsNextRetry (x ∷ xs) (earliest (pick_least (λ e. e.available_at) x o))
  unfolding earliest
  IsNextRetry-pick x xs none t h =
      (ground arith, ((λ r. omega arith), All-map _ _ (λ e f r. cc) xs h))
  IsNextRetry-pick x xs (some y) t h = elim (Bool-cases (leb x.available_at y.available_at)) [
    | inl first ↦
        let sooner = leb→le x.available_at y.available_at first in
        rw first (
          ground arith,
          ((λ r. omega arith), All-map _ _ (λ e later r. le_trans sooner (later r)) xs h.1),
        )
    | inr f ↦ rw f (let there = h.0 in ground arith, ((λ r. ground arith), h.1))
  ]

  next_retry :
      (xs : Events Payload)
      → IsNextRetry xs (earliest (least_by (λ e. e.available_at) (select retryable xs)))
  unfolding earliest
  next_retry [] = tt
  next_retry (x ∷ xs) = elim (Bool-cases (retryable x)) [
    | inl t ↦ rw t (
        IsNextRetry-pick x xs (least_by (λ e. e.available_at) (select retryable xs)) t
          (next_retry xs))
    | inr f ↦ rw f (IsNextRetry-skip x xs _ f (next_retry xs))
  ]

  IsNextRetry-oldest_first :
      (table : Events Payload) (o : Option ℕ)
      → IsNextRetry (oldest_first table) o
      → IsNextRetry table o
  IsNextRetry-oldest_first table none h = oldest_first-All (λ e. retryable e ≡ false) table h
  IsNextRetry-oldest_first table (some t) h = (
    sym (any-oldest_first (λ e. retryable e && e.available_at == t) table) ∙ h.0,
    oldest_first-All (λ e. retryable e ≡ true → t ≤ e.available_at) table h.1,
  )

  -- The next retry is the time at which some retryable row is available, none is available sooner,
  -- and there is no next retry only if no row is retryable.
  pub get_operations_summary-IsNextRetry :
      (table : Events Payload) → IsNextRetry table (get_operations_summary table).next_retry_at
  unfolding get_operations_summary earliest
  get_operations_summary-IsNextRetry table =
      IsNextRetry-oldest_first table _ (next_retry (oldest_first table))
