-- ===== src/Hpack/Table.antt =====
-- The HPACK tables of src/Http2ResponseHandler.c: look-up, eviction and insertion. Allocations
-- succeed. The array and its size are one list, the newest entry first.
pub mod Static
pub mod Fits
pub mod Bounds
use http_request_client.Prelude.{
  ℕ, zero, suc, ◌+◌, ◌-◌, ◌*◌, List, [], ◌∷◌, Option, none, some, Bool, ltb, leb, ◌==◌, ◌&&◌,
  if◌then◌else◌, length, drop_last, get_elem?,
}
use http_request_client.Prelude.Text.{codes}
use Static.{HpackTableEntry, response_header_static_table}

pub record HpackContext : Type 0 where
  pub dynamic_table : List HpackTableEntry
  pub dynamic_table_capacity : ℕ
  pub dynamic_table_max_size : ℕ

abbrev pub dynamic_table_size : HpackContext → ℕ
dynamic_table_size ctx = length ctx.dynamic_table

-- `sizeof(responseHeaderStaticTable) / sizeof(responseHeaderStaticTable[0])`; the entry 0 is unused.
abbrev pub static_table_count : ℕ
static_table_count = 62

abbrev pub entry_or : Option HpackTableEntry → HpackTableEntry → HpackTableEntry
entry_or none other = other
entry_or (some e) other = e

unfoldable pub get_header_from_table : ℕ → HpackContext → HpackTableEntry
unfolding response_header_static_table
get_header_from_table index ctx =
    if index == 0
    then record { name = []; value = [] }
    else if leb index (static_table_count - 1)
    then entry_or (get_elem? response_header_static_table index) (record { name = []; value = [] })
    else entry_or (get_elem? ctx.dynamic_table (index - (static_table_count - 1) - 1))
        (record { name = codes "error"; value = codes "invalid index" })

abbrev pub hpack_entry_size : HpackTableEntry → ℕ
hpack_entry_size e = length e.name + length e.value + 32

abbrev pub sum_sizes : List HpackTableEntry → ℕ
sum_sizes [] = 0
sum_sizes (e ∷ es) = hpack_entry_size e + sum_sizes es

abbrev pub hpack_dynamic_table_used_size : HpackContext → ℕ
hpack_dynamic_table_used_size ctx = sum_sizes ctx.dynamic_table

unfoldable pub hpack_evict_from_tail : HpackContext → HpackContext
hpack_evict_from_tail ctx = record ctx { dynamic_table = drop_last ctx.dynamic_table }

-- The last entry; the default stands for an empty table, which the callers exclude.
abbrev pub last_entry : List HpackTableEntry → HpackTableEntry
last_entry [] = record { name = []; value = [] }
last_entry (e ∷ []) = e
last_entry (e ∷ f ∷ es) = last_entry (f ∷ es)

-- `while (dynamicTableSize > 0) { hpackEvictFromTail(ctx); }`
unfoldable pub evict_all : ℕ → HpackContext → HpackContext
unfolding hpack_evict_from_tail
evict_all zero ctx = ctx
evict_all (suc rounds) ctx =
    let more = evict_all rounds (hpack_evict_from_tail ctx) in
    if ltb 0 (dynamic_table_size ctx) then more else ctx

-- The loop of a size update: the used size is computed anew in each round.
unfoldable pub evict_to_max : ℕ → HpackContext → HpackContext
unfolding hpack_evict_from_tail
evict_to_max zero ctx = ctx
evict_to_max (suc rounds) ctx =
    let more = evict_to_max rounds (hpack_evict_from_tail ctx) in
    if ltb 0 (dynamic_table_size ctx)
      && ltb ctx.dynamic_table_max_size (hpack_dynamic_table_used_size ctx)
    then more
    else ctx

-- The loop of an insertion: `used` is carried along and reduced by each evicted entry.
unfoldable pub evict_for : ℕ → ℕ → ℕ → HpackContext → HpackContext
unfolding hpack_evict_from_tail
evict_for zero used entry_size ctx = ctx
evict_for (suc rounds) used entry_size ctx =
    let more =
      evict_for rounds (used - hpack_entry_size (last_entry ctx.dynamic_table)) entry_size
        (hpack_evict_from_tail ctx) in
    if ltb 0 (dynamic_table_size ctx) && ltb ctx.dynamic_table_max_size (used + entry_size)
    then more
    else ctx

-- `realloc` to twice the capacity when the array is full.
unfoldable pub make_room : HpackContext → HpackContext
make_room ctx =
    if leb ctx.dynamic_table_capacity (dynamic_table_size ctx)
    then record ctx {
      dynamic_table_capacity =
          (if ctx.dynamic_table_capacity == 0 then 8 else 2 * ctx.dynamic_table_capacity);
    }
    else ctx

unfoldable pub push_front : HpackContext → HpackTableEntry → HpackContext
push_front ctx e = record ctx { dynamic_table = e ∷ ctx.dynamic_table }

-- Each loop has as many rounds as the table has entries.
unfoldable pub add_to_dynamic_table : HpackContext → HpackTableEntry → HpackContext
unfolding evict_all evict_for make_room push_front
add_to_dynamic_table ctx e =
    let entry_size = hpack_entry_size e in
    let evicted =
      evict_for (dynamic_table_size ctx) (hpack_dynamic_table_used_size ctx) entry_size ctx in
    if ltb ctx.dynamic_table_max_size entry_size
    then evict_all (dynamic_table_size ctx) ctx
    else push_front (make_room evicted) e

-- RFC 7541 6.3: the new maximum, and the evictions it asks for.
unfoldable pub update_table_size : HpackContext → ℕ → HpackContext
unfolding evict_to_max
update_table_size ctx max_size =
    evict_to_max (dynamic_table_size ctx) (record ctx { dynamic_table_max_size = max_size })
