-- ===== src/Owner/Fences/Answers.antt =====
-- What `recordFence` answers, and what it has stored.
use cresora.Prelude.{ℕ, ◌<◌, ◌≤◌, ◌≡◌, Bool, true, not, ◌||◌, Option, none, some, Eq, length, ◌⊎◌}
use cresora.Prelude.Maps.{lookup}
use cresora.Prelude.Result.{Result, ok, err}
use cresora.Owner.Fences.{
  FenceError, stale_admission, fence_capacity, StoppedFence, FenceSet, old_evictable_fence,
}

-- A fence of exactly this version, protected if that was asked for.
abbrev Holds : ℕ → Bool → Option StoppedFence → Type 0
Holds version b none = ⊥
Holds version b (some f) = (f.version ≡ version) × ((not b || f.protected) ≡ true)

-- A fence of a later version.
abbrev Supersedes : ℕ → Option StoppedFence → Type 0
Supersedes version none = ⊥
Supersedes version (some f) = version < f.version

module _ {K : Type 0} ⦃e : Eq K⦄ where
  -- The reason of an error, or what is stored.
  abbrev pub Answers : FenceSet K → K → ℕ → Bool → Result FenceError (FenceSet K) → Type 0
  Answers fs key version b (err stale_admission) = Supersedes version (lookup key fs.records)
  Answers fs key version b (err fence_capacity) =
      (lookup key fs.records ≡ none)
      × (fs.limit ≤ length fs.records)
      × ((fs.limit ≡ 0) ⊎ (old_evictable_fence fs ≡ none))
  Answers fs key version b (ok after) = Holds version b (lookup key after.records)
