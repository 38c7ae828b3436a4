-- ===== src/Options/Found/Last.antt =====
-- publisher.go, `optionsLookup`: which options count.
use bunmq.Base.{
  ℕ, String, ◌≡◌, refl, ap, ◌∙◌, Option, none, some, List, [], ◌∷◌, arith, ◌==◌, eq_iff,
  if◌then◌else◌,
}
use bunmq.Amqp.Table.{Table, empty}
use bunmq.Options.{
  OptionValue, byte, headers, PublishOption, option_delivery_mode_key, option_headers_key,
}
use bunmq.Options.Found.{Found, take_option, options_from, options_lookup}

-- The delivery mode that an option gives, and the headers.
abbrev pub mode_in : String → OptionValue → Option ℕ
mode_in k (byte n) = if k == option_delivery_mode_key then some n else none
mode_in k _ = none

abbrev pub headers_in : String → OptionValue → Option (Option Table)
headers_in k (headers h) = if k == option_headers_key then some h else none
headers_in k _ = none

abbrev pub of_option :
    {A : Type 0} → (String → OptionValue → Option A) → Option PublishOption → Option A
of_option f none = none
of_option f (some o) = f o.key o.value

-- The last entry of a list that gives a value, or the default.
abbrev pub last_or :
    {A : Type 0} → A → (Option PublishOption → Option A) → List (Option PublishOption) → A
last_or d f [] = d
last_or d f (o ∷ os) = last_or (elim (f o) [ none ↦ d | some a ↦ a ]) f os

take_option-parts :
    (o : Option PublishOption) (f : Found)
    → ((take_option o f).delivery_mode
        ≡ elim (of_option mode_in o) [ none ↦ f.delivery_mode | some n ↦ n ])
      × ((take_option o f).headers
          ≡ elim (of_option headers_in o) [ none ↦ f.headers | some h ↦ h ])
take_option-parts none f = (refl, refl)
take_option-parts (some o) f = ground (
  arith,
  eq_iff o.key option_delivery_mode_key,
  eq_iff o.key option_headers_key,
  eq_iff option_delivery_mode_key option_headers_key,
)

options_from-last :
    (os : List (Option PublishOption)) (f : Found)
    → ((options_from os f).delivery_mode ≡ last_or f.delivery_mode (of_option mode_in) os)
      × ((options_from os f).headers ≡ last_or f.headers (of_option headers_in) os)
unfolding options_from
options_from-last [] f = (refl, refl)
options_from-last (o ∷ os) f =
    let (mode, hdrs) = options_from-last os (take_option o f) in
    let (m, h) = take_option-parts o f in
    (
      mode ∙ ap (λ d. last_or d (of_option mode_in) os) m,
      hdrs ∙ ap (λ d. last_or d (of_option headers_in) os) h,
    )

-- The delivery mode is that of the last option under its key that holds a byte, or 0, and the
-- headers are those of the last option under theirs that holds a map, or a new map; a nil option,
-- an unknown key and a value of another type count for nothing.
pub options_lookup-last :
    (os : List (Option PublishOption))
    → ((options_lookup os).delivery_mode ≡ last_or 0 (of_option mode_in) os)
      × ((options_lookup os).headers ≡ last_or (some empty) (of_option headers_in) os)
unfolding options_lookup
options_lookup-last os = options_from-last os (record { delivery_mode = 0; headers = some empty })
