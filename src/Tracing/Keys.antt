-- ===== src/Tracing/Keys.antt =====
-- tracing.go, `AMQPHeader.Keys`: the keys of the carrier, sorted.
use Prim.Native.Char.{code}
use Prim.Native.String.{[], ◌∷◌}
use mathlib.Core.List.{Perm}
use mathlib.Core.List.Perm
use bunmq.Base.{String, Bool, true, false, ◌≡◌, refl, List, arith, if◌then◌else◌, ltb, eqb, if_lem}
use bunmq.Amqp.Table.{Table, empty, entry}

-- Go's order of strings, by bytes; in UTF-8 that is the order of the code points.
unfoldable pub leb_text : String → String → Bool
leb_text [] t = true
leb_text (c ∷ s) [] = false
leb_text (c ∷ s) (d ∷ t) =
    let rest = leb_text s t in
    if ltb (code c) (code d) then true else if eqb (code c) (code d) then rest else false

abbrev pub table_keys : Table → List String
table_keys empty = List.[]
table_keys (entry k v t) = List.◌∷◌ k (table_keys t)

-- `sort.Strings`, by insertion.
place : String → List String → List String
unfolding leb_text
place k List.[] = List.◌∷◌ k List.[]
place k (List.◌∷◌ j js) =
    let rest = place k js in if leb_text k j then List.◌∷◌ k (List.◌∷◌ j js) else List.◌∷◌ j rest

sort : List String → List String
unfolding place
sort List.[] = List.[]
sort (List.◌∷◌ k ks) = place k (sort ks)

unfoldable pub keys : Table → List String
unfolding sort
keys h = sort (table_keys h)

leb_total : (s t : String) → leb_text s t ≡ false → leb_text t s ≡ true
unfolding leb_text
leb_total [] t e = cc
leb_total (c ∷ s) [] e = refl
leb_total (c ∷ s) (d ∷ t) e = ground (arith, leb_total s t)

abbrev pub HeadLe : String → List String → Type 0
HeadLe k List.[] = Unit
HeadLe k (List.◌∷◌ j js) = leb_text k j ≡ true

abbrev pub IsSorted : List String → Type 0
IsSorted List.[] = Unit
IsSorted (List.◌∷◌ k ks) = HeadLe k ks × IsSorted ks

place-HeadLe :
    (i k : String) (ks : List String) → leb_text i k ≡ true → HeadLe i ks → HeadLe i (place k ks)
unfolding place
place-HeadLe i k List.[] e h = e
place-HeadLe i k (List.◌∷◌ j js) e h = if_lem (HeadLe i) (leb_text k j) (λ p. e) (λ p. h)

place-IsSorted : (k : String) (ks : List String) → IsSorted ks → IsSorted (place k ks)
unfolding place
place-IsSorted k List.[] v = (tt, tt)
place-IsSorted k (List.◌∷◌ j js) v =
    if_lem IsSorted (leb_text k j) (λ p. (p, v))
      (λ p. (place-HeadLe j k js (leb_total k j p) v.0, place-IsSorted k js v.1))

place-perm : (k : String) (ks : List String) → Perm (place k ks) (List.◌∷◌ k ks)
unfolding place
place-perm k List.[] = Perm.refl _
place-perm k (List.◌∷◌ j js) =
    if_lem (λ l. Perm l (List.◌∷◌ k (List.◌∷◌ j js))) (leb_text k j) (λ p. Perm.refl _)
      (λ p. Perm.trans (Perm.cons j (place-perm k js)) (Perm.swap k j js))

sort-sorts : (ks : List String) → IsSorted (sort ks) × Perm (sort ks) ks
unfolding sort
sort-sorts List.[] = (tt, Perm.refl _)
sort-sorts (List.◌∷◌ k ks) =
    let (ordered, same) = sort-sorts ks in
    (place-IsSorted k (sort ks) ordered, Perm.trans (place-perm k (sort ks)) (Perm.cons k same))

-- `Keys` returns the keys of the map, each as often as it is there, in ascending order.
pub keys-sorts : (h : Table) → IsSorted (keys h) × Perm (keys h) (table_keys h)
unfolding keys
keys-sorts h = sort-sorts (table_keys h)
