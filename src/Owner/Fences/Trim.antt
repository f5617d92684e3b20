-- ===== src/Owner/Fences/Trim.antt =====
-- What trimming the memory achieves.
use cresora.Prelude.{◌≤◌, ◌≡◌, none, Eq, length, ◌⊎◌}
use cresora.Owner.Fences.{FenceSet, old_evictable_fence}

module _ {K : Type 0} ⦃e : Eq K⦄ where
  -- Within the limit, or full of protected fences.
  abbrev pub IsTrimmed : FenceSet K → Type 0
  IsTrimmed fs = (length fs.records ≤ fs.limit) ⊎ (old_evictable_fence fs ≡ none)

  -- Nothing is deleted, or there is still as much as the limit allows.
  abbrev pub IsSpared : FenceSet K → FenceSet K → Type 0
  IsSpared fs after = (length after.records ≡ length fs.records) ⊎ (fs.limit ≤ length after.records)
