-- ===== src/Hpack/Table/Bounds.antt =====
-- The invariant of the dynamic table: the entries fit the maximum, and the array its capacity.
use http_request_client.Prelude.{
  ℕ, suc, ◌+◌, ◌-◌, ◌≤◌, inl, inr, List, arith, ltb, leb, Bool-cases, length,
}
use http_request_client.Hpack.Table.Static.{HpackTableEntry}
use http_request_client.Hpack.Table.{
  HpackContext, dynamic_table_size, hpack_entry_size, sum_sizes, hpack_dynamic_table_used_size,
  make_room, push_front, add_to_dynamic_table, update_table_size,
}
use http_request_client.Hpack.Table.Fits.{
  fitting, sum_sizes-fitting, length-fitting, evict_all_lem, evict_for_lem, update_table_size_lem,
  context,
}

pub record IsBounded (ctx : HpackContext) : Type 0 where
  pub within_max : hpack_dynamic_table_used_size ctx ≤ ctx.dynamic_table_max_size
  pub within_capacity : dynamic_table_size ctx ≤ ctx.dynamic_table_capacity

-- A size update of a bounded table keeps the entries within the new maximum and the array within
-- its capacity.
pub update_table_size-IsBounded :
    (ctx : HpackContext) (max_size : ℕ) → IsBounded ctx → IsBounded (update_table_size ctx max_size)
update_table_size-IsBounded ctx max_size h = rw update_table_size_lem (record {
  within_max = sum_sizes-fitting max_size ctx.dynamic_table;
  within_capacity = omega (arith, length-fitting max_size ctx.dynamic_table, h.within_capacity);
})

-- After `make_room` the array can take one more entry.
make_room-fits :
    (ctx : HpackContext)
    → dynamic_table_size ctx ≤ ctx.dynamic_table_capacity
    → suc (dynamic_table_size ctx) ≤ (make_room ctx).dynamic_table_capacity
unfolding make_room
make_room-fits ctx h = ground arith

push_front-IsBounded :
    (es : List HpackTableEntry) (c m : ℕ) (e : HpackTableEntry)
    → length es ≤ c
    → sum_sizes es + hpack_entry_size e ≤ m
    → IsBounded (push_front (make_room (context es c m)) e)
unfolding push_front make_room
push_front-IsBounded es c m e room fits = elim (Bool-cases (leb c (length es))) [
  | inl full ↦ rw full (record { within_max = omega arith; within_capacity = ground arith })
  | inr space ↦ rw space (record { within_max = omega arith; within_capacity = ground arith })
]

-- An insertion into a bounded table keeps the entries within the maximum and the array within its
-- capacity, whether the entry is stored or empties the table.
pub add_to_dynamic_table-IsBounded :
    (ctx : HpackContext) (e : HpackTableEntry)
    → IsBounded ctx
    → IsBounded (add_to_dynamic_table ctx e)
unfolding add_to_dynamic_table
add_to_dynamic_table-IsBounded ctx e h =
    elim (Bool-cases (ltb ctx.dynamic_table_max_size (hpack_entry_size e))) [
      | inl large ↦
          rw
            (
              large,
              evict_all_lem (dynamic_table_size ctx) ctx.dynamic_table ctx.dynamic_table_capacity
                  ctx.dynamic_table_max_size (omega arith),
            )
            (omega arith)
      | inr fits ↦
          let k : hpack_entry_size e ≤ ctx.dynamic_table_max_size = ground arith in
          let left = fitting (ctx.dynamic_table_max_size - hpack_entry_size e) ctx.dynamic_table in
          rw
            (
              fits,
              evict_for_lem (dynamic_table_size ctx) ctx.dynamic_table ctx.dynamic_table_capacity
                  ctx.dynamic_table_max_size (hpack_entry_size e) (omega arith) k,
            )
            (push_front-IsBounded left ctx.dynamic_table_capacity ctx.dynamic_table_max_size e
              (omega (
                arith,
                length-fitting (ctx.dynamic_table_max_size - hpack_entry_size e) ctx.dynamic_table,
                h.within_capacity,
              ))
              (omega (
                arith,
                sum_sizes-fitting (ctx.dynamic_table_max_size - hpack_entry_size e)
                    ctx.dynamic_table,
              )))
    ]
