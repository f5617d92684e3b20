-- ===== src/Auth/Registry/Resume.antt =====
-- What `Prepare` answers for a target that has a live challenge, and for an actor whose challenge is
-- for another target.
use cresora.Prelude.{
  ℕ, ◌≡◌, ◌≢◌, refl, ◌∙◌, ap, subst, false, none, some, List, arith, nat_eq, ltb, if◌then◌else◌,
}
use Prim.Native.Nat.{min}
use cresora.Prelude.Maps.{lookup}
use cresora.Auth.Errors.{background, runtime_context_error, runtime_challenge_expired}
use cresora.Auth.Challenge.{Text, AuthTarget, target_eq}
use cresora.Auth.Registry.{
  Registry, store, cleanup, live_at, resume, existing, admit, bad_preparation, prepare,
}
use cresora.Auth.Registry.Invariant.{Inv}

-- The registry in which the challenge at `p` expires no later than `e`.
abbrev pub brought_forward : Registry → ℕ → ℕ → Registry
brought_forward g p e =
    if ltb e (g.heap p).expires then store g p (record (g.heap p) { expires = e }) else g

-- In it no other record differs, and the expiry is the sooner of the two.
pub expires-brought_forward :
    (g : Registry) (p e q : ℕ)
    → (((brought_forward g p e).heap p).expires ≡ min e (g.heap p).expires)
      × (q ≢ p → (brought_forward g p e).heap q ≡ g.heap q)
unfolding store
expires-brought_forward g p e q = ground arith

expires-brought_forward_self :
    (g : Registry) (p e : ℕ) → ((brought_forward g p e).heap p).expires ≡ min e (g.heap p).expires
expires-brought_forward_self g p e = (expires-brought_forward g p e p).0

resumes :
    (now : ℕ) (g : Registry) (p e : ℕ)
    → (resume now g p e) ≡ (
      brought_forward g p e,
      existing (brought_forward g p e) p,
      if ltb now (min e (g.heap p).expires) then none else some runtime_challenge_expired,
    )
unfolding resume
resumes now g p e = rw (← expires-brought_forward_self g p e) refl

admit-found :
    (now : ℕ) (g : Registry) (t : AuthTarget) (phone : Text) (e : ℕ) (drawn : List ℕ) (p : ℕ)
    → live_at g (lookup t g.target_slots) ≡ some p
    → admit now g t phone e drawn ≡ some (resume now g p e)
admit-found now g t phone e drawn p h = unfold admit in rw (h, admit)

prepare-admit :
    (c now : ℕ) (g : Registry) (t : AuthTarget) (phone : Text) (e : ℕ) (drawn : List ℕ)
    → g.closed ≡ false
    → bad_preparation t phone e ≡ false
    → prepare background c now g t phone e drawn ≡ admit now (cleanup c g) t phone e drawn
unfolding prepare runtime_context_error
prepare-admit c now g t phone e drawn unclosed good = simp (good, unclosed)

-- A live challenge for exactly this target is handed out again: no record is created, no map but the
-- terminal results changes, and its expiry is the sooner of its own and the durable one; the call
-- reports an expired challenge exactly if that expiry has passed.
pub prepare_resumes :
    (c now : ℕ) (g : Registry) (t : AuthTarget) (phone : Text) (e : ℕ) (drawn : List ℕ) (id p : ℕ)
    → Inv g
    → g.closed ≡ false
    → bad_preparation t phone e ≡ false
    → lookup id g.challenges ≡ some p
    → (g.heap p).target ≡ t
    → let h = brought_forward (cleanup c g) p e in
      prepare background c now g t phone e drawn
      ≡ some (
        h,
        existing h p,
        if ltb now (min e (g.heap p).expires) then none else some runtime_challenge_expired,
      )
prepare_resumes c now g t phone e drawn id p v unclosed good there target =
    prepare-admit c now g t phone e drawn unclosed good
    ∙ admit-found now (cleanup c g) t phone e drawn p found
    ∙ ap some (unfold cleanup in resumes now (cleanup c g) p e)
  where
    found : live_at (cleanup c g) (lookup t (cleanup c g).target_slots) ≡ some p
    found =
        unfold live_at cleanup in
        rw (subst (λ s. lookup s g.target_slots ≡ some id) target ((v.live id p there).target_slot))
          there
