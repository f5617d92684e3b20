-- ===== src/Sync/Settles.antt =====
-- What a synchronization and the execution around it do with their task.
use cresora.Prelude.{
  ℕ, ◌^◌, ◌+◌, ◌<◌, ◌≤◌, ◌≡◌, ◌≢◌, ◌⊎◌, refl, true, false, Option, none, some, List, [], ◌∷◌, ℤ,
  pos, pos_part, OnSome, arith,
}
use cresora.Prelude.Result.{Result, ok, err}
use cresora.Sync.{
  Failure, Call, Ports, Backoffs, Ending, returned, revalidates, fetches, finished, panicked,
  reported, fetched, revalidated, retry_after, settle, conclude, execute, sync, backoff,
}
use cresora.Sync.Backoff.{DrawsBelow, IsDelay, flood_backoff-IsDelay, backoff-IsDelay}

abbrev ending_calls : Call → ℕ
ending_calls revalidates = 0
ending_calls (fetches t) = 0
ending_calls c = 1

-- How many calls of a list would end the task.
abbrev pub count_ends : List Call → ℕ
count_ends [] = 0
count_ends (c ∷ cs) = ending_calls c + count_ends cs

-- A synchronization that succeeds has ended its task by one call, and the execution adds none. After
-- one that fails the execution adds one call, or none if the lease is lost; it does not panic.
abbrev pub EndsOnce : List Call × Option Failure → List Call × Ending → Type 0
EndsOnce (calls, none) (more, ending) = (count_ends calls ≡ 1) × (more ≡ []) × (ending ≡ finished)
EndsOnce (calls, some f) (more, ending) =
    (count_ends calls ≤ 1)
    × (ending ≢ panicked)
    × (((f.lease_lost ≡ true) × (more ≡ [])) ⊎ ((f.lease_lost ≡ false) × (count_ends more ≡ 1)))

-- The floor and the backoff are positive, and they and the wait are no longer than 2 ^ 62.
pub record IsSane (c : Backoffs) (f : Failure) : Type 0 where
  pub floor : ℕ
  pub retry : ℕ
  pub is_floor : c.flood_floor ≡ pos floor
  pub is_retry : c.retry_backoff ≡ pos retry
  pub positive : (0 < floor) × (0 < retry)
  pub fits : (floor ≤ 2 ^ 62) × (retry ≤ 2 ^ 62)
  pub wait_fits : OnSome (λ d. pos_part d ≤ 2 ^ 62) f.flood_wait

abbrev Ended : List Call × Ending → Type 0
Ended (calls, ending) = (count_ends calls ≡ 1) × (ending ≢ panicked)

reported_lem : (o : Option Failure) → reported o ≢ panicked
reported_lem none = ground arith
reported_lem (some f) = ground arith

retry_after-Ended :
    (p : Ports) (f : Failure) (base : ℕ) (max : ℤ) (delay : Option ℤ)
    → IsDelay base max delay
    → Ended (retry_after p f delay)
retry_after-Ended p f base max delay d = rw d.same (refl, reported_lem (p.retry (pos d.length)))

settle-Ended :
    (p : Ports) (c : Backoffs) (f : Failure) (o : Option ℤ)
    → DrawsBelow p
    → IsSane c f
    → OnSome (λ d. pos_part d ≤ 2 ^ 62) o
    → Ended (settle p c f o)
unfolding settle
settle-Ended p c f (some server) draws s b =
    retry_after-Ended p f _ _ _
      (flood_backoff-IsDelay p c server s.floor draws s.is_floor s.positive.0 s.fits.0 b)
settle-Ended p c f none draws s b =
    let waits =
      retry_after-Ended p f s.retry c.max_backoff (backoff p c c.retry_backoff)
        (backoff-IsDelay p c s.retry draws s.is_retry s.positive.1 s.fits.1) in
    ground (arith, waits, reported_lem p.fail)

conclude_lem :
    (p : Ports) (c : Backoffs) (f : Failure)
    → DrawsBelow p
    → IsSane c f
    → ((conclude p c (some f)).1 ≢ panicked)
      × (((f.lease_lost ≡ true) × ((conclude p c (some f)).0 ≡ []))
          ⊎ ((f.lease_lost ≡ false) × (count_ends (conclude p c (some f)).0 ≡ 1)))
unfolding conclude
conclude_lem p c f draws s = ground (arith, settle-Ended p c f f.flood_wait draws s s.wait_fits)

fetched_lem :
    (p : Ports) (r : Result Failure ℕ)
    → (count_ends (fetched p r).0 ≤ 1) × (((fetched p r).1 ≡ none) → count_ends (fetched p r).0 ≡ 1)
fetched_lem p (ok dialogs) = ground arith
fetched_lem p (err f) = ground arith

revalidated_lem :
    (p : Ports) (r : Result Failure ℕ)
    → (count_ends (revalidated p r).0 ≤ 1)
      × (((revalidated p r).1 ≡ none) → count_ends (revalidated p r).0 ≡ 1)
revalidated_lem p (ok target) = ground (arith, fetched_lem p (p.fetch target))
revalidated_lem p (err f) = ground arith

sync_lem :
    (p : Ports) → (count_ends (sync p).0 ≤ 1) × (((sync p).1 ≡ none) → count_ends (sync p).0 ≡ 1)
unfolding sync
sync_lem p = ground (arith, revalidated_lem p p.revalidate)

ends_of :
    (p : Ports) (c : Backoffs) (calls : List Call) (o : Option Failure)
    → DrawsBelow p
    → OnSome (IsSane c) o
    → count_ends calls ≤ 1
    → (o ≡ none → count_ends calls ≡ 1)
    → EndsOnce (calls, o) (execute p c (returned o))
unfolding execute conclude
ends_of p c calls none draws s b h = (h refl, refl, refl)
ends_of p c calls (some f) draws s b h =
    let (steady, once) = conclude_lem p c f draws s in (b, steady, once)

-- If the random source keeps its bound, and the floor and the backoff are positive and they and the
-- wait are no longer than 2 ^ 62 nanoseconds: a synchronization that succeeds has ended its task by
-- one call, and the execution adds none; after one that fails, which has made one such call at most,
-- the execution adds exactly one, or none if the lease is lost, and does not panic.
pub execute-EndsOnce :
    (p : Ports) (c : Backoffs)
    → DrawsBelow p
    → OnSome (IsSane c) (sync p).1
    → EndsOnce (sync p) (execute p c (returned (sync p).1))
execute-EndsOnce p c draws s =
    let (b, h) = sync_lem p in ends_of p c (sync p).0 (sync p).1 draws s b h
