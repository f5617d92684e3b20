-- ===== src/Worker/Tracker.antt =====
-- deliveryworker/worker.go: the counter of active executions. A channel is an index into the list of
-- the channels made so far, which says whether it is closed.
use cresora.Prelude.{
  ℕ, zero, suc, ◌<◌, ◌≡◌, refl, Bool, true, false, none, some, List, [], ◌∷◌, ◌++◌, ℤ, pos, negsuc,
  is_zero, ◌+ℤ◌, length, get_elem?, set, length-append, if◌then◌else◌, arith,
}

-- `panicked` says that a closed channel was closed again.
pub record Tracker : Type 0 where
  pub count : ℤ
  pub stopped : Bool
  pub done_ch : ℕ
  pub channels : List Bool
  pub panicked : Bool

-- Its first channel is closed: nothing is active.
abbrev pub new_active_tracker : Tracker
new_active_tracker = record {
  count = pos 0;
  stopped = false;
  done_ch = 0;
  channels = true ∷ [];
  panicked = false;
}

abbrev pub is_closed : List Bool → ℕ → Bool
is_closed cs ch = elim (get_elem? cs ch) [ none ↦ false | some b ↦ b ]

-- `make` and `close` of a channel.
unfoldable pub make_channel : Tracker → Tracker
make_channel t = record t { done_ch = length t.channels; channels = t.channels ++ (false ∷ []) }

unfoldable pub close_channel : Tracker → Tracker
close_channel t =
    if is_closed t.channels t.done_ch
    then record t { panicked = true }
    else record t { channels = set t.channels t.done_ch true }

-- The new tracker, and whether the execution may start.
unfoldable pub add : Tracker → Tracker × Bool
unfolding make_channel
add t =
    if t.stopped
    then (t, false)
    else let opened = if is_zero t.count then make_channel t else t in
      (record opened { count = opened.count +ℤ pos 1 }, true)

unfoldable pub done_one : Tracker → Tracker
unfolding close_channel
done_one t =
    let left = record t { count = t.count +ℤ negsuc 0 } in
    if is_zero left.count then close_channel left else left

unfoldable pub stop : Tracker → Tracker
stop t = record t { stopped = true }

abbrev pub done : Tracker → ℕ
done t = t.done_ch

-- The tracker stands for `n` active executions: its channel is closed exactly when `n` is zero.
pub record Tracks (n : ℕ) (t : Tracker) : Type 0 where
  pub counted : t.count ≡ pos n
  pub made : t.done_ch < length t.channels
  pub closed : is_closed t.channels t.done_ch ≡ is_zero (pos n)
  pub calm : t.panicked ≡ false

is_closed-append : (cs : List Bool) → is_closed (cs ++ (false ∷ [])) (length cs) ≡ false
is_closed-append [] = refl
is_closed-append (b ∷ cs) = is_closed-append cs

is_closed-set : (cs : List Bool) (i : ℕ) → i < length cs → is_closed (set cs i true) i ≡ true
is_closed-set [] i h = absurd (omega arith)
is_closed-set (b ∷ cs) zero h = refl
is_closed-set (b ∷ cs) (suc i) h = is_closed-set cs i (omega arith)

length-set : (cs : List Bool) (i : ℕ) (v : Bool) → length (set cs i v) ≡ length cs
length-set [] i v = refl
length-set (b ∷ cs) zero v = refl
length-set (b ∷ cs) (suc i) v = omega (arith, length-set cs i v)

pub new_active_tracker-Tracks : Tracks 0 new_active_tracker
new_active_tracker-Tracks = record {
  counted = refl;
  made = omega arith;
  closed = refl;
  calm = refl;
}

-- A tracker that is not stopped counts one more; a stopped one refuses and stays as it is.
pub add-Tracks :
    (n : ℕ) (t : Tracker) → Tracks n t → Tracks (if (add t).1 then suc n else n) (add t).0
unfolding add
add-Tracks n t k =
    ground (arith, is_closed-append t.channels, length-append t.channels (false ∷ []))

pub done_one-Tracks : (n : ℕ) (t : Tracker) → Tracks (suc n) t → Tracks n (done_one t)
unfolding done_one
done_one-Tracks n t k =
    ground (arith, is_closed-set t.channels t.done_ch, length-set t.channels t.done_ch true)

pub stop-Tracks : (n : ℕ) (t : Tracker) → Tracks n t → Tracks n (stop t)
unfolding stop
stop-Tracks n t k = record { counted = k.counted; made = k.made; closed = k.closed; calm = k.calm }
