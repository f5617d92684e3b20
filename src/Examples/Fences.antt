-- ===== src/Examples/Fences.antt =====
-- The memory of stopped versions: internal/transport/telegram/accountowner/fence.go.
use cresora.Prelude.{ℕ, ◌≡◌, refl, true, false, some, [], ◌∷◌, nat_eq, arith}
use cresora.Prelude.Maps.{lookup, insert, delete}
use cresora.Prelude.Result.{ok}
use cresora.Owner.Fences.{
  FenceSet, record_fence, record_found, record_new, evicted, stamped, old_evictable_fence,
  oldest_of, older,
}
use cresora.Owner.Fences.Answers.{Answers}
use cresora.Owner.Fences.Memory.{IsUnique, Remembers, record_fence-Remembers}

-- A protected fence and a loose one, and no room for a third.
abbrev full_set : FenceSet ℕ
full_set = record {
  records =
      (1, record { version = 3; stamp = 1; protected = true })
      ∷ (2, record { version = 5; stamp = 2; protected = false })
      ∷ [];
  clock = 2;
  limit = 2;
}

full_set-IsUnique : IsUnique full_set.records
unfolding IsUnique lookup
full_set-IsUnique = (refl, (refl, tt))

-- The loose fence makes room, and no other.
record_fence_test :
    record_fence full_set 7 4 true
    ≡ ok (record {
      records =
          (1, record { version = 3; stamp = 1; protected = true })
          ∷ (7, record { version = 4; stamp = 3; protected = true })
          ∷ [];
      clock = 3;
      limit = 2;
    })
unfolding record_fence record_found record_new evicted stamped old_evictable_fence oldest_of older
    lookup insert delete
record_fence_test = refl

-- A memory without a protected fence, and one more than its limit.
abbrev loose_set : FenceSet ℕ
loose_set = record {
  records =
      (1, record { version = 3; stamp = 1; protected = false })
      ∷ (2, record { version = 5; stamp = 2; protected = false })
      ∷ [];
  clock = 2;
  limit = 1;
}

record_fence-Remembers_example : Remembers 1 (some 3) (record_fence full_set 7 4 true)
unfolding lookup
record_fence-Remembers_example =
    record_fence-Remembers full_set 7 1 4 true (full_set-IsUnique, omega arith)
