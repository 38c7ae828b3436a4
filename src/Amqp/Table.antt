-- ===== src/Amqp/Table.antt =====
-- Go's dynamic values (`any`) as far as the code inspects them, and `amqp.Table`, a map from
-- strings to such values. A nil map reads as an empty one.
use bunmq.Base.{ℕ, String, ◌≡◌, refl, Option, none, some, arith, ◌==◌, eq_iff}
use bunmq.Base.{if◌then◌else◌}
use bunmq.Base.Int.{ℤ}

mutual
  -- `other` is a value of any dynamic type that the code never asserts.
  pub data Value : Type 0 where
    str : String → Value
    int64 : ℤ → Value
    uint8 : ℕ → Value
    array : Values → Value
    table : Table → Value
    other : ℕ → Value

  pub data Values : Type 0 where
    nil : Values
    cons : Value → Values → Values

  pub data Table : Type 0 where
    empty : Table
    entry : String → Value → Table → Table

abbrev pub lookup : String → Table → Option Value
lookup k empty = none
lookup k (entry j v t) = if j == k then some v else lookup k t

abbrev pub insert : String → Value → Table → Table
insert k v empty = entry k v empty
insert k v (entry j w t) = if j == k then entry k v t else entry j w (insert k v t)

abbrev pub erase : String → Table → Table
erase k empty = empty
erase k (entry j w t) = let rest = erase k t in if j == k then rest else entry j w rest

-- The comma-ok assertions whose second result is dropped: the zero value of the type on failure.
abbrev pub as_table : Value → Table
as_table (table t) = t
as_table _ = empty

abbrev pub as_values : Value → Values
as_values (array vs) = vs
as_values _ = nil

-- Such an assertion on a map's value: a missing key gives the nil interface, which fails it.
abbrev pub as_string : Option Value → String
as_string (some (str s)) = s
as_string _ = ""

abbrev pub last_or : Value → Values → Value
last_or v nil = v
last_or v (cons w ws) = last_or w ws

pub lookup-insert :
    (k j : String) (v : Value) (t : Table)
    → lookup j (insert k v t) ≡ (if k == j then some v else lookup j t)
lookup-insert k j v empty = refl
lookup-insert k j v (entry i w t) =
    ground (arith, eq_iff k j, eq_iff i k, eq_iff i j, lookup-insert k j v t)

pub lookup-erase :
    (k j : String) (t : Table) → lookup j (erase k t) ≡ (if k == j then none else lookup j t)
lookup-erase k j empty = ground arith
lookup-erase k j (entry i w t) =
    ground (arith, eq_iff k j, eq_iff i k, eq_iff i j, lookup-erase k j t)
