-- ===== src/Owner/Fences.antt =====
-- accountowner/fence.go: the bounded memory of the versions that were stopped. A key is whatever the
-- registry's maps are keyed by. Which of two fences with one stamp goes first is not said by the code;
-- here it is the first in the list.
pub mod Answers
pub mod Memory
pub mod Trim
use cresora.Prelude.{
  ℕ, ◌+◌, ◌-◌, ◌%◌, ◌^◌, Bool, true, false, ◌||◌, ◌&&◌, not, Option, none, some, List, [], ◌∷◌, Eq,
  ltb, leb, zero, suc, length, ◌==◌, if◌then◌else◌,
}
use cresora.Prelude.Maps.{Map, lookup, insert, delete}
use cresora.Prelude.Result.{Result, ok, err}

pub data FenceError : Type 0 where
  stale_admission fence_capacity : FenceError

pub record StoppedFence : Type 0 where
  pub version : ℕ
  pub stamp : ℕ
  pub protected : Bool

-- A limit below zero acts like zero.
pub record FenceSet (K : Type 0) : Type 0 where
  pub records : Map K StoppedFence
  pub clock : ℕ
  pub limit : ℕ

module _ {K : Type 0} where
  abbrev pub new_fence_set : ℕ → FenceSet K
  new_fence_set limit = record { records = []; clock = 0; limit = limit }

  -- The loop of `oldEvictableFence`: the older of the best so far and the next.
  unfoldable pub older : Option (K × ℕ) → K → StoppedFence → Option (K × ℕ)
  older none k f = if f.protected then none else some (k, f.stamp)
  older (some (j, s)) k f = if f.protected || leb s f.stamp then some (j, s) else some (k, f.stamp)

  unfoldable pub oldest_of : Option (K × ℕ) → Map K StoppedFence → Option (K × ℕ)
  oldest_of best [] = best
  oldest_of best ((k, f) ∷ m) = oldest_of (older best k f) m

  abbrev key_of : Option (K × ℕ) → Option K
  key_of none = none
  key_of (some (k, s)) = some k

  unfoldable pub old_evictable_fence : FenceSet K → Option K
  old_evictable_fence fs = key_of (oldest_of none fs.records)

module _ {K : Type 0} ⦃e : Eq K⦄ where
  unfoldable pub unprotect_found : FenceSet K → K → ℕ → Option StoppedFence → FenceSet K
  unprotect_found fs key version none = fs
  unprotect_found fs key version (some f) =
      if not (f.version == version)
      then fs
      else record fs { records = insert key (record f { protected = false }) fs.records }

  unfoldable pub unprotect : FenceSet K → K → ℕ → FenceSet K
  unprotect fs key version = unprotect_found fs key version (lookup key fs.records)

  -- The clock is a uint64; the fence is stamped and stored.
  unfoldable pub stamped : FenceSet K → K → StoppedFence → FenceSet K
  stamped fs key f =
      let clock = (fs.clock + 1) % (2 ^ 64) in
      record fs { clock = clock; records = insert key (record f { stamp = clock }) fs.records }

  unfoldable pub evicted : FenceSet K → Option K → K → StoppedFence → Result FenceError (FenceSet K)
  evicted fs none key f = err fence_capacity
  evicted fs (some k) key f = ok (stamped (record fs { records = delete k fs.records }) key f)

  -- A fence for a key that has none yet.
  unfoldable pub record_new : FenceSet K → K → StoppedFence → Result FenceError (FenceSet K)
  record_new fs key f =
      if fs.limit == 0
      then err fence_capacity
      else if leb fs.limit (length fs.records)
      then evicted fs (old_evictable_fence fs) key f
      else ok (stamped fs key f)

  unfoldable pub record_found :
      FenceSet K → K → ℕ → Bool → Option StoppedFence → Result FenceError (FenceSet K)
  record_found fs key version protected none =
      record_new fs key (record { version = version; stamp = 0; protected = protected })
  record_found fs key version protected (some f) =
      if ltb version f.version
      then err stale_admission
      else ok (
          stamped fs key (record f {
            version = if ltb f.version version then version else f.version;
            protected = f.protected || protected;
          }))

  -- `recordFence`.
  unfoldable pub record_fence : FenceSet K → K → ℕ → Bool → Result FenceError (FenceSet K)
  record_fence fs key version protected =
      record_found fs key version protected (lookup key fs.records)

  -- `trimFenceRecords`: every turn that goes on deletes one record, so that as many turns as there
  -- are records are enough.
  unfoldable pub trim_turns : ℕ → FenceSet K → FenceSet K
  trim_turns zero fs = fs
  trim_turns (suc n) fs = elim (ltb fs.limit (length fs.records)) [
    | false ↦ fs
    | true ↦ elim (old_evictable_fence fs) [
      | none ↦ fs
      | some k ↦ trim_turns n (record fs { records = delete k fs.records })
    ]
  ]

  unfoldable pub trim_fence_records : FenceSet K → FenceSet K
  trim_fence_records fs = trim_turns (length fs.records) fs

  -- `unprotectFence`.
  unfoldable pub unprotect_fence : FenceSet K → K → ℕ → FenceSet K
  unprotect_fence fs key version = trim_fence_records (unprotect fs key version)
