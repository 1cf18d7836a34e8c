-- ===== src/Services/Memstore.antt =====
-- src/services/history_memstore.c: the history store that keeps its points in one array.
pub mod Delete
pub mod Refine
pub mod Paging
mod Tests
use muc_opcua.Common.{
  ℕ, zero, suc, ◌+◌, ◌-◌, ◌%◌, ◌^◌, List, [], ◌∷◌, Option, none, some, Bool, true, false, not, ◌&&◌,
  ltb, leb, ◌==◌, ◌/=◌, if◌then◌else◌, length, get_elem?, set, take,
}
use muc_opcua.Status.{
  good, bad_out_of_memory, bad_entry_exists, bad_no_entry_exists, bad_invalid_argument,
}

-- MU_MEMSTORE_MAX_POINTS.
abbrev pub max_points : ℕ
max_points = 64

-- `mu_historical_data_point_t`: the times are patterns of an int64; the value is only copied.
pub record Point (V : Type 0) : Type 0 where
  pub source_timestamp : ℕ
  pub server_timestamp : ℕ
  pub status : ℕ
  pub value : V

-- `mu_history_memstore_t`: all slots of the array, and how many are in use.
pub record Memstore (V : Type 0) : Type 0 where
  pub points : List (Point V)
  pub count : ℕ

-- `a <= b` on the patterns of two int64.
abbrev pub int64_le : ℕ → ℕ → Bool
int64_le a b = leb ((a + 2 ^ 63) % 2 ^ 64) ((b + 2 ^ 63) % 2 ^ 64)

-- The points on a page: at most those asked for, if any, and those that the buffer holds.
abbrev pub page_size : ℕ → ℕ → ℕ
page_size num_values_per_node max_data_points =
    if ltb 0 num_values_per_node && ltb num_values_per_node max_data_points
    then num_values_per_node
    else max_data_points

module _ {V : Type 0} where
  unfoldable pub point_in_range : ℕ → ℕ → Point V → Bool
  point_in_range start_time end_time p =
      int64_le start_time p.source_timestamp && int64_le p.source_timestamp end_time

  -- The loop over the first `n` slots; the count if none has the timestamp.
  abbrev pub find_in : List (Point V) → ℕ → ℕ → ℕ
  find_in points zero ts = 0
  find_in [] (suc n) ts = suc n
  find_in (p ∷ ps) (suc n) ts =
      let rest = find_in ps n ts in if p.source_timestamp == ts then 0 else suc rest

  unfoldable pub find_timestamp : Memstore V → ℕ → ℕ
  find_timestamp s ts = find_in s.points s.count ts

  -- One round of the loop of mu_memstore_update_data: its result and the store behind it.
  unfoldable pub update_point : Memstore V → ℕ → Point V → ℕ × Memstore V
  update_point s mode p =
      let existing = find_timestamp s p.source_timestamp in
      if mode == 1
      then (if ltb existing s.count
          then (bad_entry_exists, s)
          else if leb max_points s.count
          then (bad_out_of_memory, s)
          else (good, record { points = set s.points s.count p; count = s.count + 1 }))
      else if mode == 2
      then (if ltb existing s.count
          then (good, record s { points = set s.points existing p })
          else (bad_no_entry_exists, s))
      else (bad_invalid_argument, s)

  -- The results of all rounds, and the store; the call itself returns MU_STATUS_GOOD.
  unfoldable pub update_data : Memstore V → ℕ → List (Point V) → List ℕ × Memstore V
  update_data s mode [] = ([], s)
  update_data s mode (p ∷ ps) =
      let (result, s') = update_point s mode p in
      let (results, s'') = update_data s' mode ps in (result ∷ results, s'')

  -- The loop of mu_memstore_delete_raw_modified, with `n` slots from `i` on to look at: the array
  -- and the number of points that are kept.
  unfoldable pub delete_loop : ℕ → ℕ → ℕ → ℕ → ℕ → List (Point V) → List (Point V) × ℕ
  delete_loop start_time end_time zero i write points = (points, write)
  delete_loop start_time end_time (suc n) i write points = elim (get_elem? points i) [
    | none ↦ (points, write)
    | some p ↦
        let moved = if write /= i then set points write p else points in
        let dropped = delete_loop start_time end_time n (suc i) write points in
        let kept = delete_loop start_time end_time n (suc i) (suc write) moved in
        if point_in_range start_time end_time p then dropped else kept
  ]

  unfoldable pub delete_raw_modified : Memstore V → ℕ → ℕ → Memstore V
  delete_raw_modified s start_time end_time =
      let (points, count) = delete_loop start_time end_time s.count 0 0 s.points in
      record { points = points; count = count }

  -- The loop of mu_memstore_read_raw_modified, with `n` slots from `scan` on and `room` points
  -- left on the page: the points written, and where it stopped.
  unfoldable pub read_loop : ℕ → ℕ → ℕ → ℕ → ℕ → List (Point V) → List (Point V) × ℕ
  read_loop start_time end_time zero scan room points = ([], scan)
  read_loop start_time end_time (suc n) scan zero points = ([], scan)
  read_loop start_time end_time (suc n) scan (suc room) points = elim (get_elem? points scan) [
    | none ↦ ([], scan)
    | some p ↦
        let (page, stop) = read_loop start_time end_time n (suc scan) room points in
        let skipped = read_loop start_time end_time n (suc scan) (suc room) points in
        if point_in_range start_time end_time p then (p ∷ page, stop) else skipped
  ]

  -- A page: its points, and the continuation point if there is one. `cp_in` is the number in the
  -- continuation point of the request, `none` where that is missing or not of the size of a size_t;
  -- the caller passes a buffer for the next one.
  unfoldable pub read_raw_modified :
      Memstore V → ℕ → ℕ → ℕ → Option ℕ → ℕ → List (Point V) × Option ℕ
  read_raw_modified s start_time end_time num_values_per_node cp_in max_data_points =
      let skip = skip_of cp_in in
      let per_page = page_size num_values_per_node max_data_points in
      let (page, scan) = read_loop start_time end_time (s.count - skip) skip per_page s.points in
      (page, (if length page == per_page && ltb scan s.count then some scan else none))
    where
      skip_of : Option ℕ → ℕ
      skip_of none = 0
      skip_of (some n) = n
