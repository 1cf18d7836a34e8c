-- ===== src/Services/Memstore/Tests.antt =====
-- The history store's theorems at concrete values.
use muc_opcua.Common.{ℕ, ◌≡◌, refl, [], ◌∷◌, some, none, replicate, filter, arith}
use muc_opcua.Services.Memstore.{Point, Memstore, update_data, delete_raw_modified}
use muc_opcua.Services.Memstore.Refine.{live, Valid, update_entries, update_data-Refines}
use muc_opcua.Services.Memstore.Delete.{outside, delete_raw_modified-Refines}
use muc_opcua.Services.Memstore.Paging.{inside, read_pages, read_pages_lem}

abbrev point : ℕ → ℕ → Point ℕ
point at v = record { source_timestamp = at; server_timestamp = at; status = 0; value = v }

abbrev two_points : Memstore ℕ
two_points = record { points = point 10 1 ∷ point 20 2 ∷ replicate 62 (point 0 0); count = 2 }

two_points-Valid : Valid two_points
two_points-Valid = record { size = refl; count_small = omega arith; unique = ((tt, refl), refl) }

update_data-Refines_example :
    ((update_data two_points 1 (point 20 7 ∷ point 30 3 ∷ [])).0
      ≡ (update_entries 1 (point 20 7 ∷ point 30 3 ∷ []) (live two_points)).0)
    × (live (update_data two_points 1 (point 20 7 ∷ point 30 3 ∷ [])).1
        ≡ (update_entries 1 (point 20 7 ∷ point 30 3 ∷ []) (live two_points)).1)
    × Valid (update_data two_points 1 (point 20 7 ∷ point 30 3 ∷ [])).1
update_data-Refines_example =
    update_data-Refines two_points 1 (point 20 7 ∷ point 30 3 ∷ []) two_points-Valid

delete_raw_modified-Refines_example :
    (live (delete_raw_modified two_points 5 15) ≡ filter (outside 5 15) (live two_points))
    × Valid (delete_raw_modified two_points 5 15)
delete_raw_modified-Refines_example = delete_raw_modified-Refines 5 15 two_points two_points-Valid

read_pages_example :
    read_pages 5 25 two_points 1 8 3 none ≡ some (filter (inside 5 25) (live two_points))
read_pages_example = read_pages_lem 5 25 two_points 1 8 two_points-Valid (omega arith)
