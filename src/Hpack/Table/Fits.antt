-- ===== src/Hpack/Table/Fits.antt =====
-- Eviction from the tail, and a specification of what stays.
use http_request_client.Prelude.{
  ℕ, zero, suc, ◌+◌, ◌-◌, ◌≤◌, ◌<◌, ◌≡◌, refl, sym, ap, ◌∙◌, inl, inr, List, [], ◌∷◌, arith, ltb,
  leb, if◌then◌else◌, Bool-cases, length, drop_last, lt→ltb, ltb→lt,
}
use http_request_client.Hpack.Table.Static.{HpackTableEntry}
use http_request_client.Hpack.Table.{
  HpackContext, dynamic_table_size, hpack_entry_size, sum_sizes, hpack_dynamic_table_used_size,
  last_entry, evict_all, evict_to_max, evict_for, make_room, add_to_dynamic_table,
  update_table_size,
}

-- The longest run of the first entries whose sizes add up to at most `budget`.
abbrev pub fitting : ℕ → List HpackTableEntry → List HpackTableEntry
fitting budget [] = []
fitting budget (e ∷ es) =
    if leb (hpack_entry_size e) budget then e ∷ fitting (budget - hpack_entry_size e) es else []

fitting_all :
    (budget : ℕ) (es : List HpackTableEntry) → sum_sizes es ≤ budget → fitting budget es ≡ es
fitting_all budget [] h = refl
fitting_all budget (e ∷ es) h = ground (arith, fitting_all (budget - hpack_entry_size e) es)

fitting-drop_last :
    (budget : ℕ) (es : List HpackTableEntry)
    → budget < sum_sizes es
    → fitting budget es ≡ fitting budget (drop_last es)
fitting-drop_last budget [] h = refl
fitting-drop_last budget (e ∷ []) h = ground arith
fitting-drop_last budget (e ∷ f ∷ es) h =
    ground (arith, fitting-drop_last (budget - hpack_entry_size e) (f ∷ es))

pub sum_sizes-fitting :
    (budget : ℕ) (es : List HpackTableEntry) → sum_sizes (fitting budget es) ≤ budget
sum_sizes-fitting budget [] = omega arith
sum_sizes-fitting budget (e ∷ es) =
    ground (arith, sum_sizes-fitting (budget - hpack_entry_size e) es)

pub length-fitting :
    (budget : ℕ) (es : List HpackTableEntry) → length (fitting budget es) ≤ length es
length-fitting budget [] = omega arith
length-fitting budget (e ∷ es) = ground (arith, length-fitting (budget - hpack_entry_size e) es)

length-drop_last :
    (e : HpackTableEntry) (es : List HpackTableEntry) → length (drop_last (e ∷ es)) ≡ length es
length-drop_last e [] = refl
length-drop_last e (f ∷ es) = ap suc (length-drop_last f es)

sum_sizes-drop_last :
    (e : HpackTableEntry) (es : List HpackTableEntry)
    → sum_sizes (e ∷ es) ≡ sum_sizes (drop_last (e ∷ es)) + hpack_entry_size (last_entry (e ∷ es))
sum_sizes-drop_last e [] = omega arith
sum_sizes-drop_last e (f ∷ es) = omega (arith, sum_sizes-drop_last f es)

abbrev pub context : List HpackTableEntry → ℕ → ℕ → HpackContext
context es capacity max_size = record {
  dynamic_table = es;
  dynamic_table_capacity = capacity;
  dynamic_table_max_size = max_size;
}

pub evict_all_lem :
    (rounds : ℕ) (es : List HpackTableEntry) (c m : ℕ)
    → length es ≤ rounds
    → evict_all rounds (context es c m) ≡ context [] c m
unfolding evict_all
evict_all_lem zero [] c m h = refl
evict_all_lem zero (e ∷ es) c m h = absurd (omega arith)
evict_all_lem (suc rounds) [] c m h = refl
evict_all_lem (suc rounds) (e ∷ es) c m h =
    rw (lt→ltb 0 (suc (length es)) (omega arith))
      (evict_all_lem rounds (drop_last (e ∷ es)) c m (omega (arith, length-drop_last e es)))

-- One round either leaves a table that fits or evicts an entry that cannot stay.
evict_to_max_lem :
    (rounds : ℕ) (es : List HpackTableEntry) (c m : ℕ)
    → length es ≤ rounds
    → evict_to_max rounds (context es c m) ≡ context (fitting m es) c m
unfolding evict_to_max
evict_to_max_lem zero [] c m h = refl
evict_to_max_lem zero (e ∷ es) c m h = absurd (omega arith)
evict_to_max_lem (suc rounds) [] c m h = refl
evict_to_max_lem (suc rounds) (e ∷ es) c m h =
    rw (lt→ltb 0 (suc (length es)) (omega arith)) (elim (Bool-cases (ltb m (sum_sizes (e ∷ es)))) [
      | inl over ↦ rw over (
          evict_to_max_lem rounds (drop_last (e ∷ es)) c m (omega (arith, length-drop_last e es))
          ∙ ap (λ t. context t c m) (sym (fitting-drop_last m (e ∷ es) (ltb→lt _ _ over))))
      | inr fits ↦ rw fits (ap (λ t. context t c m) (sym (fitting_all m (e ∷ es) (ground arith))))
    ])

pub evict_for_lem :
    (rounds : ℕ) (es : List HpackTableEntry) (c m size : ℕ)
    → length es ≤ rounds
    → size ≤ m
    → evict_for rounds (sum_sizes es) size (context es c m) ≡ context (fitting (m - size) es) c m
unfolding evict_for
evict_for_lem zero [] c m size h k = refl
evict_for_lem zero (e ∷ es) c m size h k = absurd (omega arith)
evict_for_lem (suc rounds) [] c m size h k = refl
evict_for_lem (suc rounds) (e ∷ es) c m size h k =
    rw (lt→ltb 0 (suc (length es)) (omega arith))
      (elim (Bool-cases (ltb m (sum_sizes (e ∷ es) + size))) [
        | inl over ↦
            let left = sum_sizes-drop_last e es in
            let used : sum_sizes (e ∷ es) - hpack_entry_size (last_entry (e ∷ es))
                ≡ sum_sizes (drop_last (e ∷ es)) =
              omega arith in
            let p = ltb→lt m (sum_sizes (e ∷ es) + size) over in
            rw over (
              ap (λ (t : ℕ). evict_for rounds t size (context (drop_last (e ∷ es)) c m)) used
              ∙ evict_for_lem rounds (drop_last (e ∷ es)) c m size
                  (omega (arith, length-drop_last e es)) k
              ∙ ap (λ t. context t c m) (sym (fitting-drop_last (m - size) (e ∷ es) (omega arith))))
        | inr fits ↦
            rw fits (ap (λ t. context t c m) (sym (fitting_all (m - size) (e ∷ es) (ground arith))))
      ])

make_room-table : (ctx : HpackContext) → (make_room ctx).dynamic_table ≡ ctx.dynamic_table
unfolding make_room
make_room-table ctx = elim (Bool-cases (leb ctx.dynamic_table_capacity (dynamic_table_size ctx))) [
  | inl full ↦ rw full refl
  | inr room ↦ rw room refl
]

-- A size update keeps the longest run of the newest entries that fits the new maximum, and nothing
-- else changes.
pub update_table_size_lem :
    (ctx : HpackContext) (max_size : ℕ)
    → update_table_size ctx max_size ≡ record ctx {
      dynamic_table = fitting max_size ctx.dynamic_table;
      dynamic_table_max_size = max_size;
    }
unfolding update_table_size
update_table_size_lem ctx max_size =
    evict_to_max_lem (dynamic_table_size ctx) ctx.dynamic_table ctx.dynamic_table_capacity max_size
      (omega arith)

-- An insertion puts the new entry before the longest run of the newest entries that fits beside it;
-- an entry larger than the maximum empties the table.
pub add_to_dynamic_table_lem :
    (ctx : HpackContext) (e : HpackTableEntry)
    → (add_to_dynamic_table ctx e).dynamic_table ≡ (
        if ltb ctx.dynamic_table_max_size (hpack_entry_size e)
        then []
        else e ∷ fitting (ctx.dynamic_table_max_size - hpack_entry_size e) ctx.dynamic_table)
unfolding add_to_dynamic_table
add_to_dynamic_table_lem ctx e =
    elim (Bool-cases (ltb ctx.dynamic_table_max_size (hpack_entry_size e))) [
      | inl large ↦ rw large (
          ap (λ (t : HpackContext). t.dynamic_table)
            (evict_all_lem (dynamic_table_size ctx) ctx.dynamic_table ctx.dynamic_table_capacity
              ctx.dynamic_table_max_size (omega arith)))
      | inr fits ↦ rw fits (
          ap (λ t. e ∷ t)
            (make_room-table (
                evict_for (dynamic_table_size ctx) (hpack_dynamic_table_used_size ctx)
                  (hpack_entry_size e) ctx)
              ∙ ap (λ (t : HpackContext). t.dynamic_table)
                  (evict_for_lem (dynamic_table_size ctx) ctx.dynamic_table
                    ctx.dynamic_table_capacity ctx.dynamic_table_max_size (hpack_entry_size e)
                    (omega arith) (ground arith))))
    ]
