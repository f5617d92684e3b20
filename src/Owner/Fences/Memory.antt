-- ===== src/Owner/Fences/Memory.antt =====
-- What the memory of the stopped versions keeps, and how large it gets.
use cresora.Prelude.{
  ℕ, ◌+◌, ◌≤◌, ◌≡◌, refl, subst, sym, Bool, true, false, Option, none, some, [], ◌∷◌, Eq, arith,
  length, Some, Bool-cases, inl, inr, ◌⊎◌, ◌||◌, ltb, if◌then◌else◌, ◌==◌, leb, ◌%◌, ◌^◌,
}
use cresora.Prelude.Maps.{
  Map, lookup, insert, delete, lookup-insert, lookup-delete, length-insert, length-delete,
}
use cresora.Prelude.Result.{Result, ok, err}
use cresora.Owner.Fences.{
  FenceError, StoppedFence, FenceSet, older, oldest_of, old_evictable_fence, key_of, stamped,
  evicted, record_new, record_found, record_fence,
}

abbrev pub Loose : Option StoppedFence → Type 0
Loose none = ⊥
Loose (some f) = f.protected ≡ false

-- A protected fence of at least this version, if one is asked for.
abbrev pub Guards : Option ℕ → Option StoppedFence → Type 0
Guards none o = Unit
Guards (some v) none = ⊥
Guards (some v) (some f) = (v ≤ f.version) × (f.protected ≡ true)

-- What must not get lost: the version of a protected fence.
abbrev pub guarded : Option StoppedFence → Option ℕ
guarded none = none
guarded (some f) = if f.protected then some f.version else none

protected_Guards :
    (f : StoppedFence) (b : Bool)
    → f.protected ≡ b
    → Guards (if b then some f.version else none) (some f)
protected_Guards f true h = (omega arith, h)
protected_Guards f false h = tt

pub guarded-Guards : (o : Option StoppedFence) → Guards (guarded o) o
guarded-Guards none = tt
guarded-Guards (some f) = protected_Guards f f.protected refl

-- A stop of the same key makes a fence no weaker.
raised_Guards :
    (v : Option ℕ) (version : ℕ) (f : StoppedFence) (b : Bool)
    → Guards v (some f)
    → Guards v (
        some (record f {
          version = if ltb f.version version then version else f.version;
          protected = f.protected || b;
        }))
raised_Guards none version f b g = tt
raised_Guards (some v) version f b g = ground arith

-- Its stamp does not matter.
stamp_Guards :
    (v : Option ℕ) (f : StoppedFence) (s : ℕ)
    → Guards v (some f)
    → Guards v (some (record f { stamp = s }))
stamp_Guards none f s g = tt
stamp_Guards (some v) f s g = g

-- A fence is either loose or a guard.
clash_lem : (v : ℕ) (o : Option StoppedFence) → Loose o → Guards (some v) o → ⊥
clash_lem v none h g = h
clash_lem v (some f) h g = cc

module _ {K : Type 0} where
  -- An entry for this key that may be evicted.
  abbrev pub IsLoose : K → K × StoppedFence → Type 0
  IsLoose k (j, f) = (j ≡ k) × (f.protected ≡ false)

  older-from :
      (best : Option (K × ℕ)) (j k : K) (f : StoppedFence) (s : ℕ)
      → older best j f ≡ some (k, s)
      → (best ≡ some (k, s)) ⊎ ((j ≡ k) × (f.protected ≡ false))
  unfolding older
  older-from none j k f s h = ground arith
  older-from (some (i, r)) j k f s h = ground arith

  oldest_of-from :
      (best : Option (K × ℕ)) (m : Map K StoppedFence) (k : K) (s : ℕ)
      → oldest_of best m ≡ some (k, s)
      → (best ≡ some (k, s)) ⊎ Some (IsLoose k) m
  unfolding oldest_of
  oldest_of-from best [] k s h = inl h
  oldest_of-from best ((j, f) ∷ m) k s h = elim (oldest_of-from (older best j f) m k s h) [
    | inr x ↦ inr (inr x)
    | inl x ↦ elim (older-from best j k f s x) [ inl y ↦ inl y | inr y ↦ inr (inl y) ]
  ]

  some_lem : (j k : K) → some j ≡ some k → j ≡ k
  some_lem j k h = cc

  pub evictable_at :
      (m : Map K StoppedFence) (k : K) (best : Option (K × ℕ))
      → oldest_of none m ≡ best
      → key_of best ≡ some k
      → Some (IsLoose k) m
  evictable_at m k none e h = cc
  evictable_at m k (some (j, s)) e h = elim (oldest_of-from none m j s e) [
    | inl x ↦ cc
    | inr x ↦ subst (λ (i : K). Some (IsLoose i) m) (some_lem j k h) x
  ]

module _ {K : Type 0} ⦃e : Eq K⦄ where
  -- One entry for each key.
  unfoldable pub IsUnique : Map K StoppedFence → Type 0
  IsUnique [] = Unit
  IsUnique ((k, f) ∷ m) = (lookup k m ≡ none) × IsUnique m

  absent_lem :
      (m : Map K StoppedFence) (j k : K) → j ≡ k → lookup j m ≡ none → Loose (lookup k m) → ⊥
  absent_lem m j k q gone h =
      subst (λ (o : Option StoppedFence). Loose o) gone
        (subst (λ (i : K). Loose (lookup i m)) (sym q) h)

  pub loose_lem :
      (m : Map K StoppedFence) (k : K) → IsUnique m → Some (IsLoose k) m → Loose (lookup k m)
  unfolding lookup IsUnique
  loose_lem [] k u h = h
  loose_lem ((j, f) ∷ m) k u (inl (q, p)) = rw ((e.beq_iff j k).1 q) p
  loose_lem ((j, f) ∷ m) k u (inr h) = elim (Bool-cases (e.beq j k)) [
    | inr n ↦ rw n (loose_lem m k u.1 h)
    | inl y ↦ absurd (absent_lem m j k ((e.beq_iff j k).0 y) u.0 (loose_lem m k u.1 h))
  ]

  insert-IsUnique :
      (k : K) (f : StoppedFence) (m : Map K StoppedFence) → IsUnique m → IsUnique (insert k f m)
  unfolding insert IsUnique lookup
  insert-IsUnique k f [] u = (refl, tt)
  insert-IsUnique k f ((j, g) ∷ m) u = elim (Bool-cases (e.beq j k)) [
    | inl y ↦ rw y (rw (← (e.beq_iff j k).0 y) u.0, u.1)
    | inr n ↦ rw n (
      rw (lookup-insert k j f m) (ground (arith, n, e.beq_iff k j, e.beq_iff j k, u.0)),
      insert-IsUnique k f m u.1,
    )
  ]

  pub delete-IsUnique : (k : K) (m : Map K StoppedFence) → IsUnique m → IsUnique (delete k m)
  unfolding delete IsUnique
  delete-IsUnique k [] u = tt
  delete-IsUnique k ((j, g) ∷ m) u = elim (Bool-cases (e.beq j k)) [
    | inl y ↦ rw y (delete-IsUnique k m u.1)
    | inr n ↦ rw n (rw (lookup-delete k j m) (ground (arith, u.0)), delete-IsUnique k m u.1)
  ]

  stamped-Guards :
      (fs : FenceSet K) (key j : K) (f : StoppedFence) (v : Option ℕ)
      → (e.beq key j ≡ true → Guards v (some f))
      → (e.beq key j ≡ false → Guards v (lookup j fs.records))
      → Guards v (lookup j (stamped fs key f).records)
  unfolding stamped
  stamped-Guards fs key j f v here there = elim (Bool-cases (e.beq key j)) [
    | inl y ↦
        rw (lookup-insert key j (record f { stamp = (fs.clock + 1) % (2 ^ 64) }) fs.records)
          (rw y (stamp_Guards v f ((fs.clock + 1) % (2 ^ 64)) (here y)))
    | inr n ↦
        rw (lookup-insert key j (record f { stamp = (fs.clock + 1) % (2 ^ 64) }) fs.records)
          (rw n (there n))
  ]

  length-insert-found :
      (k : K) (f g : StoppedFence) (m : Map K StoppedFence)
      → lookup k m ≡ some f
      → length (insert k g m) ≡ length m
  unfolding lookup insert
  length-insert-found k f g [] h = cc
  length-insert-found k f g ((j, x) ∷ m) h = ground (arith, length-insert-found k f g m)

  -- One entry for each key, and no more than the limit.
  abbrev pub IsBounded : FenceSet K → Type 0
  IsBounded fs = IsUnique fs.records × (length fs.records ≤ fs.limit)

  -- If a fence set results, it is bounded and guards the key `j` up to the version `v`.
  abbrev pub Remembers : K → Option ℕ → Result FenceError (FenceSet K) → Type 0
  Remembers j v (err x) = Unit
  Remembers j v (ok fs) = IsBounded fs × Guards v (lookup j fs.records)

  stamped-Remembers :
      (fs : FenceSet K) (key j : K) (f : StoppedFence) (v : Option ℕ)
      → IsUnique fs.records
      → length (insert key (record f { stamp = (fs.clock + 1) % (2 ^ 64) }) fs.records) ≤ fs.limit
      → (e.beq key j ≡ true → Guards v (some f))
      → (e.beq key j ≡ false → Guards v (lookup j fs.records))
      → Remembers j v (ok (stamped fs key f))
  unfolding stamped
  stamped-Remembers fs key j f v u small here there = (
    (insert-IsUnique key (record f { stamp = (fs.clock + 1) % (2 ^ 64) }) fs.records u, small),
    unfold stamped in stamped-Guards fs key j f v here there,
  )

  same_key_lem :
      (v : Option ℕ) (j k : K) (m : Map K StoppedFence) (o : Option StoppedFence)
      → lookup k m ≡ o
      → Guards v (lookup j m)
      → e.beq k j ≡ true
      → Guards v o
  same_key_lem v j k m o h g y =
      subst (λ (x : Option StoppedFence). Guards v x) h
        (subst (λ (i : K). Guards v (lookup i m)) (sym ((e.beq_iff k j).0 y)) g)

  found-Remembers :
      (fs : FenceSet K) (key j : K) (version : ℕ) (b : Bool) (f : StoppedFence) (v : Option ℕ)
      → IsBounded fs
      → lookup key fs.records ≡ some f
      → Guards v (lookup j fs.records)
      → Remembers j v (record_found fs key version b (some f))
  unfolding record_found
  found-Remembers fs key j version b f v bounded h g =
      let r : StoppedFence = record f {
        version = if ltb f.version version then version else f.version;
        protected = f.protected || b;
      } in
      let r' : StoppedFence = record r { stamp = (fs.clock + 1) % (2 ^ 64) } in
      let small : length (insert key r' fs.records) ≤ fs.limit =
        omega (arith, length-insert-found key f r' fs.records h, bounded.1) in
      let here = λ (y : e.beq key j ≡ true).
        raised_Guards v version f b (same_key_lem v j key fs.records (some f) h g y) in
      elim (Bool-cases (ltb version f.version)) [
        | inl y ↦ rw y tt
        | inr n ↦ rw n (stamped-Remembers fs key j r v bounded.0 small here (λ x. g))
      ]

  evicted-small :
      (k key : K) (f : StoppedFence) (m : Map K StoppedFence) (o : Option StoppedFence)
      → lookup k m ≡ o
      → Loose o
      → length (insert key f (delete k m)) ≤ length m
  evicted-small k key f m none h loose = absurd loose
  evicted-small k key f m (some x) h loose =
      omega (arith, length-insert key f (delete k m), length-delete k x m h)

  -- No fence is guarded at a key that has none.
  missing_Guards :
      (v : Option ℕ) (j key : K) (f : StoppedFence) (m : Map K StoppedFence)
      → lookup key m ≡ none
      → Guards v (lookup j m)
      → e.beq key j ≡ true
      → Guards v (some f)
  missing_Guards none j key f m new g y = tt
  missing_Guards (some v) j key f m new g y = absurd (same_key_lem (some v) j key m none new g y)

  pub kept_Guards :
      (v : Option ℕ) (j k : K) (m : Map K StoppedFence)
      → Loose (lookup k m)
      → Guards v (lookup j m)
      → Guards v (lookup j (delete k m))
  kept_Guards none j k m loose g = tt
  kept_Guards (some v) j k m loose g = elim (Bool-cases (e.beq k j)) [
    | inl y ↦
        absurd (clash_lem v (lookup k m) loose (same_key_lem (some v) j k m (lookup k m) refl g y))
    | inr n ↦ rw (lookup-delete k j m) (rw n g)
  ]

  evicted-Remembers :
      (fs : FenceSet K) (k : Option K) (key j : K) (f : StoppedFence) (v : Option ℕ)
      → old_evictable_fence fs ≡ k
      → IsBounded fs
      → lookup key fs.records ≡ none
      → Guards v (lookup j fs.records)
      → Remembers j v (evicted fs k key f)
  unfolding evicted old_evictable_fence
  evicted-Remembers fs none key j f v h bounded new g = tt
  evicted-Remembers fs (some k) key j f v h bounded new g =
      let m = fs.records in
      let loose = loose_lem m k bounded.0 (evictable_at m k (oldest_of none m) refl h) in
      let old : FenceSet K = record fs { records = delete k m } in
      let f' : StoppedFence = record f { stamp = (fs.clock + 1) % (2 ^ 64) } in
      let small : length (insert key f' (delete k m)) ≤ fs.limit =
        omega (arith, evicted-small k key f' m (lookup k m) refl loose, bounded.1) in
      stamped-Remembers old key j f v (delete-IsUnique k m bounded.0) small
        (missing_Guards v j key f m new g) (λ x. kept_Guards v j k m loose g)

  new-Remembers :
      (fs : FenceSet K) (key j : K) (f : StoppedFence) (v : Option ℕ)
      → IsBounded fs
      → lookup key fs.records ≡ none
      → Guards v (lookup j fs.records)
      → Remembers j v (record_new fs key f)
  unfolding record_new
  new-Remembers fs key j f v bounded new g =
      let m = fs.records in
      let f' : StoppedFence = record f { stamp = (fs.clock + 1) % (2 ^ 64) } in
      let here = missing_Guards v j key f m new g in
      elim (Bool-cases (fs.limit == 0)) [
        | inl z ↦ rw z tt
        | inr z ↦ elim (Bool-cases (leb fs.limit (length m))) [
          | inl full ↦
              rw z (
                rw full
                  (evicted-Remembers fs (old_evictable_fence fs) key j f v refl bounded new g))
          | inr room ↦ rw z (
              rw room (
                stamped-Remembers fs key j f v bounded.0
                  (ground (arith, length-insert key f' m, room)) here (λ x. g)))
        ]
      ]

  found_cases :
      (fs : FenceSet K) (key j : K) (version : ℕ) (b : Bool) (o : Option StoppedFence)
      (v : Option ℕ)
      → lookup key fs.records ≡ o
      → IsBounded fs
      → Guards v (lookup j fs.records)
      → Remembers j v (record_found fs key version b o)
  unfolding record_found
  found_cases fs key j version b none v h bounded g =
      new-Remembers fs key j (record { version = version; stamp = 0; protected = b }) v bounded h g
  found_cases fs key j version b (some f) v h bounded g =
      found-Remembers fs key j version b f v bounded h g

  -- In a memory with one fence for each key and within its limit, whether it has protected fences
  -- or not, recording a stop that is not refused leaves one fence for each key and no more than the
  -- limit, and whatever it evicts, a fence that was protected is still there, protected, and its
  -- version no lower.
  pub record_fence-Remembers :
      (fs : FenceSet K) (key j : K) (version : ℕ) (b : Bool)
      → IsBounded fs
      → Remembers j (guarded (lookup j fs.records)) (record_fence fs key version b)
  unfolding record_fence
  record_fence-Remembers fs key j version b bounded =
      found_cases fs key j version b (lookup key fs.records) (guarded (lookup j fs.records)) refl
        bounded (guarded-Guards (lookup j fs.records))
