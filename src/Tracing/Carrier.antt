-- ===== src/Tracing/Carrier.antt =====
-- tracing.go: what is set in a carrier is what is got from it.
use bunmq.Base.{String, ◌≡◌, refl, Option, none, some, List, [], ◌∷◌, arith, ◌==◌, if◌then◌else◌}
use bunmq.Amqp.Table.{Table, str, insert, lookup-insert}
use bunmq.Tracing.{to_lower, set, get, inject}

-- In a map that is not nil, a key reads as the value that was set under it, in any spelling that
-- differs only in case, and every other key reads as before.
pub get-set :
    (k j v : String) (h : Table)
    → (t : Table) × (set k v (some h) ≡ some t)
      × (get j t ≡ (if to_lower k == to_lower j then v else get j h))
unfolding set get
get-set k j v h = (
  insert (to_lower k) (str v) h,
  refl,
  ground (arith, lookup-insert (to_lower k) (to_lower j) (str v) h),
)

-- The value of the last field that is set under a key, in any case.
abbrev pub last_set : String → List (String × String) → Option String
last_set j [] = none
last_set j ((k, v) ∷ fields) = elim (last_set j fields) [
  | some w ↦ some w
  | none ↦ if to_lower k == to_lower j then some v else none
]

abbrev pub get_or : String → Option String → String
get_or s none = s
get_or s (some v) = v

-- Injecting fields into a map that is not nil does not panic, and a key then reads as the last
-- field that was set under it, or as before.
pub get-inject :
    (fields : List (String × String)) (h : Table)
    → (t : Table) × (inject fields (some h) ≡ some t)
      × ((j : String) → get j t ≡ get_or (get j h) (last_set j fields))
unfolding inject
get-inject [] h = (h, refl, λ j. refl)
get-inject ((k, v) ∷ fields) h =
    let (t, e, reads) = get-inject fields (insert (to_lower k) (str v) h) in
    (t, e, λ j. ground (arith, reads j, (get-set k j v h).2))

-- Injecting anything into a nil map panics.
pub inject-nil :
    (f : String × String) (fields : List (String × String)) → inject (f ∷ fields) none ≡ none
unfolding inject
inject-nil (k, v) [] = refl
inject-nil (k, v) (f ∷ fields) = inject-nil f fields
