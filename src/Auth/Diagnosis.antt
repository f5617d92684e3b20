-- ===== src/Auth/Diagnosis.antt =====
-- operatoraccountauth/errors.go and provider_failure.go: the errors of the provider and their
-- classification.
use cresora.Prelude.{
  ℕ, ◌+◌, ◌≡◌, Bool, true, false, ◌||◌, not, Option, none, some, List, [], ◌∷◌, ℤ, pos, negsuc, ◌<◌,
  ◌≤◌, is_positive, sub_ℕ, min_ℤ, arith, ◌≢◌, ◌⊎◌, refl, pos_part, Some, All, Bool-cases, inl, inr,
  if◌then◌else◌,
}
use cresora.Prelude.Result.{Result, ok, err}
use cresora.Auth.Errors.{
  AuthError, failure_is, invalid_input, invalid_retry_after, challenge_expired, invalid_code,
  invalid_password, password_required, unauthorized, session_unavailable, provider_unavailable,
  provider_transient, flood_wait, context_canceled, context_deadline_exceeded,
}

-- `unknown` is the empty text, and `unlisted` numbers the texts that are no constant.
pub data ProviderFailureKind : Type 0 where
  unknown configuration_rejected phone_rejected runtime_capacity protocol : ProviderFailureKind
  remote_rejected remote_failure transport_unknown : ProviderFailureKind
  unlisted : ℕ → ProviderFailureKind

unfoldable pub valid_provider_failure_kind : ProviderFailureKind → Bool
valid_provider_failure_kind unknown = false
valid_provider_failure_kind (unlisted _) = false
valid_provider_failure_kind _ = true

-- One error of a tree: a sentinel, a `RetryAfterError` with its duration, or a
-- `ProviderFailureError` with its kind.
pub data Cause : Type 0 where
  sentinel : AuthError → Cause
  retry_after : ℤ → Cause
  provider_failure : ProviderFailureKind → Cause

unfoldable pub new_retry_after_error : ℤ → Result AuthError Cause
new_retry_after_error after =
    if not (is_positive after) then err invalid_retry_after else ok (retry_after after)

unfoldable pub new_provider_failure_error : ProviderFailureKind → Result AuthError Cause
new_provider_failure_error kind =
    if not (valid_provider_failure_kind kind) then err invalid_input else ok (provider_failure kind)

-- The sentinel that `errors.Is` meets, by `Unwrap` for the two types.
abbrev pub unwrap_kind : ProviderFailureKind → AuthError
unwrap_kind protocol = provider_unavailable
unwrap_kind _ = provider_transient

unfoldable pub class_of_cause : Cause → AuthError
class_of_cause (sentinel e) = e
class_of_cause (retry_after _) = flood_wait
class_of_cause (provider_failure kind) = unwrap_kind kind

unfoldable pub classes_of : List Cause → List AuthError
classes_of [] = []
classes_of (c ∷ cs) = class_of_cause c ∷ classes_of cs

-- `errors.Is`.
abbrev pub caused_by : AuthError → List Cause → Bool
caused_by target cs = failure_is target (classes_of cs)

-- `errors.AsType[*RetryAfterError]`: the first one's duration.
unfoldable pub as_retry_after : List Cause → Option ℤ
as_retry_after [] = none
as_retry_after (retry_after d ∷ cs) = some d
as_retry_after (_ ∷ cs) = as_retry_after cs

-- `errors.As` with a `*ProviderFailureError`: the first one's kind.
unfoldable pub as_provider_failure : List Cause → Option ProviderFailureKind
as_provider_failure [] = none
as_provider_failure (provider_failure k ∷ cs) = some k
as_provider_failure (_ ∷ cs) = as_provider_failure cs

unfoldable pub is_abort_provider_failure : List Cause → Bool
is_abort_provider_failure cs =
    caused_by unauthorized cs
    || caused_by session_unavailable cs
    || caused_by provider_unavailable cs

-- The switch over the sentinels, in the order of its cases.
unfoldable pub classify_class : List Cause → AuthError
classify_class cs =
    if caused_by invalid_code cs
    then invalid_code
    else if caused_by invalid_password cs
    then invalid_password
    else if caused_by password_required cs
    then password_required
    else if caused_by unauthorized cs
    then unauthorized
    else if caused_by session_unavailable cs
    then session_unavailable
    else if caused_by provider_unavailable cs
    then provider_unavailable
    else if caused_by provider_transient cs
    then provider_transient
    else if caused_by flood_wait cs
    then flood_wait
    else provider_transient

abbrev bounded_retry : Result AuthError Cause → Cause
bounded_retry (ok c) = c
bounded_retry (err _) = sentinel flood_wait

unfoldable pub classify_retry : ℤ → ℤ → Cause
classify_retry after remaining =
    if not (is_positive remaining)
    then sentinel challenge_expired
    else bounded_retry (new_retry_after_error (min_ℤ after remaining))

unfoldable pub classify_provider : Option ProviderFailureKind → List Cause → Cause
classify_provider none cs = sentinel (classify_class cs)
classify_provider (some kind) cs =
    if valid_provider_failure_kind kind then provider_failure kind else sentinel (classify_class cs)

-- The end of `classifyProviderFailure`, by the retry hint, if there is one.
unfoldable pub classify_hint : Option ℤ → List Cause → ℕ → ℕ → Cause
classify_hint none cs expires_at now = classify_provider (as_provider_failure cs) cs
classify_hint (some after) cs expires_at now = classify_retry after (sub_ℕ expires_at now)

-- `classifyProviderFailure` of an error that is not nil.
unfoldable pub classify_provider_failure : List Cause → ℕ → ℕ → Cause
classify_provider_failure cs expires_at now =
    if caused_by context_canceled cs
    then sentinel context_canceled
    else if caused_by context_deadline_exceeded cs
    then sentinel context_deadline_exceeded
    else classify_hint (as_retry_after cs) cs expires_at now

-- The sentinels that an answer may repeat from the error.
abbrev pub repeated : List AuthError
repeated =
    invalid_code ∷ invalid_password ∷ password_required ∷ unauthorized ∷ session_unavailable
    ∷ provider_unavailable ∷ provider_transient ∷ flood_wait ∷ []

-- A sentinel that the error has, among these.
abbrev pub Repeats : List Cause → List AuthError → AuthError → Type 0
Repeats cs listed e = Some (λ x. x ≡ e) listed × (caused_by e cs ≡ true)

-- A transient failure where the error has no sentinel that could be repeated, or a challenge that has
-- expired when the error gives a hint.
abbrev pub Stands : List Cause → ℕ → ℕ → AuthError → Type 0
Stands cs expires_at now e =
    ((e ≡ provider_transient) × All (λ x. caused_by x cs ≡ false) repeated)
    ⊎ ((e ≡ challenge_expired) × (expires_at ≤ now) × (as_retry_after cs ≢ none))

-- The hint is at least this long.
abbrev pub Hints : ℕ → Option ℤ → Type 0
Hints d none = ⊥
Hints d (some after) = d ≤ pos_part after

-- A cause that may be shown to the operator: a retry hint is positive, no longer than that of the
-- error, and ends with the challenge; a diagnostic is that of the error and of a listed kind; a
-- sentinel is one of the error's own, or stands for what it lacks.
abbrev pub IsSafe : List Cause → ℕ → ℕ → Cause → Type 0
IsSafe cs expires_at now (retry_after (pos d)) =
    (0 < d) × (now + d ≤ expires_at) × Hints d (as_retry_after cs)
IsSafe cs expires_at now (retry_after (negsuc _)) = ⊥
IsSafe cs expires_at now (provider_failure kind) =
    (valid_provider_failure_kind kind ≡ true) × (as_provider_failure cs ≡ some kind)
IsSafe cs expires_at now (sentinel e) =
    Repeats cs (context_canceled ∷ context_deadline_exceeded ∷ repeated) e
    ⊎ Stands cs expires_at now e

-- A hint is an error that is a flood wait.
hint-flood_wait :
    (cs : List Cause) (after : ℤ) → as_retry_after cs ≡ some after → caused_by flood_wait cs ≡ true
unfolding as_retry_after classes_of class_of_cause failure_is
hint-flood_wait [] after h = cc
hint-flood_wait (retry_after d ∷ cs) after h = refl
hint-flood_wait (sentinel e ∷ cs) after h = ground (arith, hint-flood_wait cs after h)
hint-flood_wait (provider_failure k ∷ cs) after h = ground (arith, hint-flood_wait cs after h)

classify_retry-IsSafe :
    (cs : List Cause) (after : ℤ) (expires_at now : ℕ)
    → as_retry_after cs ≡ some after
    → IsSafe cs expires_at now (classify_retry after (sub_ℕ expires_at now))
unfolding classify_retry new_retry_after_error
classify_retry-IsSafe cs (pos a) expires_at now h = ground (arith, h, hint-flood_wait cs (pos a) h)
classify_retry-IsSafe cs (negsuc a) expires_at now h =
    ground (arith, h, hint-flood_wait cs (negsuc a) h)

classify_class-IsSafe :
    (cs : List Cause) (expires_at now : ℕ) → IsSafe cs expires_at now (sentinel (classify_class cs))
unfolding classify_class
classify_class-IsSafe cs expires_at now = ground arith

classify_provider-IsSafe :
    (kind : Option ProviderFailureKind) (cs : List Cause) (expires_at now : ℕ)
    → as_provider_failure cs ≡ kind
    → IsSafe cs expires_at now (classify_provider kind cs)
unfolding classify_provider
classify_provider-IsSafe none cs expires_at now h = classify_class-IsSafe cs expires_at now
classify_provider-IsSafe (some kind) cs expires_at now h =
    elim (Bool-cases (valid_provider_failure_kind kind)) [
      | inl y ↦ rw y (y, h)
      | inr n ↦ rw n (classify_class-IsSafe cs expires_at now)
    ]

classify_hint-IsSafe :
    (hint : Option ℤ) (cs : List Cause) (expires_at now : ℕ)
    → as_retry_after cs ≡ hint
    → IsSafe cs expires_at now (classify_hint hint cs expires_at now)
unfolding classify_hint
classify_hint-IsSafe none cs expires_at now h =
    classify_provider-IsSafe (as_provider_failure cs) cs expires_at now refl
classify_hint-IsSafe (some after) cs expires_at now h =
    classify_retry-IsSafe cs after expires_at now h

-- Whatever the provider fails with, `classifyProviderFailure` answers with a retry hint that is
-- positive, no longer than that of the error, and ends no later than the challenge; with the
-- error's own diagnostic, of a listed kind; with a context error or one of eight listed sentinels
-- that the error has; with a transient failure if it has none of the eight; or with an expired
-- challenge, if it has a hint and the challenge has expired.
pub classify_provider_failure-IsSafe :
    (cs : List Cause) (expires_at now : ℕ)
    → IsSafe cs expires_at now (classify_provider_failure cs expires_at now)
unfolding classify_provider_failure
classify_provider_failure-IsSafe cs expires_at now =
    elim (Bool-cases (caused_by context_canceled cs)) [
      | inl h ↦ rw h (inl (inl refl, h))
      | inr h ↦ elim (Bool-cases (caused_by context_deadline_exceeded cs)) [
        | inl k ↦ rw h (rw k (inl (inr (inl refl), k)))
        | inr k ↦ rw h (rw k (classify_hint-IsSafe (as_retry_after cs) cs expires_at now refl))
      ]
    ]
