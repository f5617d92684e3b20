-- ===== src/Examples/Phones.antt =====
-- Phone numbers: internal/application/operatoraccountauth/validation.go.
use Prim.Native.Char.{code}
use Prim.Native.String.{String}
use cresora.Prelude.{ℕ, ◌≡◌, some, none, List, [], ◌∷◌, refl}
use cresora.Auth.Phone.{
  normalize_phone, trim_space, keep_digits, finish, cut_zeros, add_plus, check_digits, is_separator,
}
use cresora.Auth.Phone.Normal.{IsE164, normalize_phone-IsE164}
use cresora.Auth.Phone.Digits.{digits_of, drop_zeros, digits-normalize_phone}

abbrev codes : String → List ℕ
codes String.[] = []
codes (String.◌∷◌ c s) = code c ∷ codes s

normalize_runs : normalize_phone (codes " 0044 (20) 7946-0958 ") ≡ some (codes "+442079460958")
unfolding normalize_phone trim_space keep_digits finish cut_zeros add_plus check_digits is_separator
normalize_runs = refl

normalize_refuses : normalize_phone (codes "(+44) 20 7946 0958") ≡ none
unfolding normalize_phone trim_space keep_digits finish cut_zeros add_plus check_digits is_separator
normalize_refuses = refl

normalize_phone-IsE164_example : IsE164 (codes "+442079460958")
normalize_phone-IsE164_example =
    normalize_phone-IsE164 (codes " 0044 (20) 7946-0958 ") (codes "+442079460958") normalize_runs

digits-normalize_phone_example :
    digits_of (codes "+442079460958") ≡ drop_zeros (digits_of (codes " 0044 (20) 7946-0958 "))
digits-normalize_phone_example =
    digits-normalize_phone (codes " 0044 (20) 7946-0958 ") (codes "+442079460958") normalize_runs
