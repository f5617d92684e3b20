-- ===== src/Delivery/Reconcile.antt =====
-- commands/delivery/reconcile.go: the terminal status of a run from the states of its deliveries.
use mathlib.Core.List.{Perm, Permᴰ}
use mathlib.Core.Logic.{∥∥₁_elim}
use cresora.Prelude.{
  ◌∙◌, ℕ, ◌≡◌, ◌≢◌, ◌↔◌, ◌⊎◌, Bool, true, false, ◌||◌, Option, none, some, List, [], ◌∷◌, arith,
  refl, if◌then◌else◌, All, Some,
}

-- `unlisted` numbers the states that this consumer does not know.
pub data DeliveryState : Type 0 where
  pending sending sent skipped failed unknown : DeliveryState
  unlisted : ℕ → DeliveryState

pub data RunTerminalStatus : Type 0 where
  run_completed run_failed : RunTerminalStatus

-- The loop, with the two flags that it keeps. `none` is `("", false)`.
unfoldable pub scan : List DeliveryState → Bool → Bool → Option RunTerminalStatus
scan [] seen_failed seen_unknown =
    if seen_unknown || seen_failed then some run_failed else some run_completed
scan (pending ∷ states) seen_failed seen_unknown = none
scan (sending ∷ states) seen_failed seen_unknown = none
scan (unknown ∷ states) seen_failed seen_unknown = scan states seen_failed true
scan (failed ∷ states) seen_failed seen_unknown = scan states true seen_unknown
scan (sent ∷ states) seen_failed seen_unknown = scan states seen_failed seen_unknown
scan (skipped ∷ states) seen_failed seen_unknown = scan states seen_failed seen_unknown
scan (unlisted n ∷ states) seen_failed seen_unknown = none

unfoldable pub terminal_run_status : List DeliveryState → Option RunTerminalStatus
unfolding scan
terminal_run_status [] = none
terminal_run_status (state ∷ states) = scan (state ∷ states) false false

-- What a state means for its run.
abbrev pub IsTerminal : DeliveryState → Type 0
IsTerminal pending = ⊥
IsTerminal sending = ⊥
IsTerminal (unlisted n) = ⊥
IsTerminal _ = Unit

abbrev pub IsBad : DeliveryState → Type 0
IsBad failed = Unit
IsBad unknown = Unit
IsBad _ = ⊥

abbrev pub IsHarmless : DeliveryState → Type 0
IsHarmless sent = Unit
IsHarmless skipped = Unit
IsHarmless _ = ⊥

scan-completed :
    (states : List DeliveryState) (f u : Bool)
    → (scan states f u ≡ some run_completed) ↔ (All IsHarmless states × (f ≡ false) × (u ≡ false))
unfolding scan
scan-completed [] f u = ground arith
scan-completed (unknown ∷ states) f u = ground (arith, scan-completed states f true)
scan-completed (failed ∷ states) f u = ground (arith, scan-completed states true u)
scan-completed (s ∷ states) f u = ground (arith, scan-completed states f u)

scan-failed :
    (states : List DeliveryState) (f u : Bool)
    → (scan states f u ≡ some run_failed)
      ↔ (All IsTerminal states × (((f ≡ true) ⊎ (u ≡ true)) ⊎ Some IsBad states))
unfolding scan
scan-failed [] f u = ground arith
scan-failed (unknown ∷ states) f u = ground (arith, scan-failed states f true)
scan-failed (failed ∷ states) f u = ground (arith, scan-failed states true u)
scan-failed (s ∷ states) f u = ground (arith, scan-failed states f u)

-- A run completes exactly when it has deliveries and each of them was sent or skipped; it fails
-- exactly when every delivery is terminal and one of them failed or is unknown; a pending, sending
-- or unlisted state, or an empty set, leaves it open.
pub terminal_run_status_iff :
    (states : List DeliveryState)
    → ((terminal_run_status states ≡ some run_completed) ↔ ((states ≢ []) × All IsHarmless states))
      × ((terminal_run_status states ≡ some run_failed)
          ↔ (All IsTerminal states × Some IsBad states))
unfolding terminal_run_status
terminal_run_status_iff [] = ground arith
terminal_run_status_iff (s ∷ states) =
    ground (arith, scan-completed (s ∷ states) false false, scan-failed (s ∷ states) false false)

scan-swap :
    (a b : DeliveryState) (states : List DeliveryState) (f u : Bool)
    → scan (a ∷ b ∷ states) f u ≡ scan (b ∷ a ∷ states) f u
unfolding scan
scan-swap pending b states f u = ground arith
scan-swap a b states f u = ground arith

scan-cons :
    (a : DeliveryState) (xs ys : List DeliveryState)
    → ((f u : Bool) → scan xs f u ≡ scan ys f u)
    → (f u : Bool) → scan (a ∷ xs) f u ≡ scan (a ∷ ys) f u
unfolding scan
scan-cons pending xs ys h f u = refl
scan-cons unknown xs ys h f u = h f true
scan-cons failed xs ys h f u = h true u
scan-cons sent xs ys h f u = h f u
scan-cons skipped xs ys h f u = h f u
scan-cons _ xs ys h f u = refl

scan-perm : {xs ys : List DeliveryState} → Permᴰ xs ys → (f u : Bool) → scan xs f u ≡ scan ys f u
scan-perm Permᴰ.nil f u = refl
scan-perm (Permᴰ.cons {a} {l₁} {l₂} e p) f u = rw (← e) (scan-cons a l₁ l₂ (scan-perm p) f u)
scan-perm (Permᴰ.swap {a} {b} {l} e e') f u = rw (← e, ← e') (scan-swap a b l f u)
scan-perm (Permᴰ.trans p q) f u = scan-perm p f u ∙ scan-perm q f u

terminal-permᴰ :
    {xs ys : List DeliveryState} → Permᴰ xs ys → terminal_run_status xs ≡ terminal_run_status ys
unfolding terminal_run_status
terminal-permᴰ Permᴰ.nil = refl
terminal-permᴰ (Permᴰ.cons e p) = scan-perm (Permᴰ.cons e p) false false
terminal-permᴰ (Permᴰ.swap e e') = scan-perm (Permᴰ.swap e e') false false
terminal-permᴰ (Permᴰ.trans p q) = terminal-permᴰ p ∙ terminal-permᴰ q

status_set : IsSet (Option RunTerminalStatus)
status_set = hlevel

-- The order in which the deliveries are read does not matter.
terminal_run_status-perm :
    (xs ys : List DeliveryState) → Perm xs ys → terminal_run_status xs ≡ terminal_run_status ys
terminal_run_status-perm xs ys p = ∥∥₁_elim p (status_set _ _) terminal-permᴰ
