-- ===== src/Services/Memstore/Delete.antt =====
-- Deleting a range compacts the array in place.
use muc_opcua.Common.{
  ℕ, zero, suc, ◌+◌, ◌≤◌, ◌<◌, ◌≡◌, refl, sym, ap₂, ◌∙◌, List, [], ◌∷◌, ◌++◌, some, Bool, true,
  false, subst, not, ◌/=◌, if◌then◌else◌, if_cases, length, get_elem?, set, take, drop, filter,
  arith, length-set, append_nil, append_assoc, get_elem?-lt, drop-get, take-get, take-set_end,
  drop-set_before,
}
use muc_opcua.Services.Memstore.{
  Point, Memstore, max_points, point_in_range, delete_loop, delete_raw_modified,
}
use muc_opcua.Services.Memstore.Refine.{live, Valid}
use muc_opcua.Services.Memstore.Refine.Entries.{Unique, Unique-filter}

module _ {V : Type 0} (start_time end_time : ℕ) where
  abbrev pub outside : Point V → Bool
  outside p = not (point_in_range start_time end_time p)

  -- What is kept before slot `i`, and what is still to come.
  record Compacted (n i w : ℕ) (pts : List (Point V)) (r : List (Point V) × ℕ) : Type 0 where
    kept : take r.1 r.0 ≡ take w pts ++ filter outside (take n (drop i pts))
    same_length : length r.0 ≡ length pts
    small : r.1 ≤ i + n

  -- A kept point goes to the first free slot, which it may already stand in.
  moved_take :
      (i w : ℕ) (pts : List (Point V)) (p : Point V)
      → get_elem? pts i ≡ some p
      → w ≤ i
      → i < length pts
      → take (suc w) (if w /= i then set pts w p else pts) ≡ take w pts ++ (p ∷ [])
  moved_take i w pts p e le inside =
      if_cases (λ qs. take (suc w) qs ≡ take w pts ++ (p ∷ [])) (w /= i) (set pts w p) pts
        (λ _. take-set_end pts w p (omega arith))
        (λ same. let here : w ≡ i = ground arith in take-get pts w p (rw here e))

  moved_drop :
      (i w : ℕ) (pts : List (Point V)) (p : Point V)
      → w ≤ i
      → drop (suc i) (if w /= i then set pts w p else pts) ≡ drop (suc i) pts
  moved_drop i w pts p le =
      if_cases (λ qs. drop (suc i) qs ≡ drop (suc i) pts) (w /= i) (set pts w p) pts
        (λ _. drop-set_before pts (suc i) w p (omega arith)) (λ _. refl)

  moved_length :
      (i w : ℕ) (pts : List (Point V)) (p : Point V)
      → length (if w /= i then set pts w p else pts) ≡ length pts
  moved_length i w pts p =
      if_cases (λ qs. length qs ≡ length pts) (w /= i) (set pts w p) pts (λ _. length-set pts w p)
        (λ _. refl)

  dropped_step :
      (n i w : ℕ) (pts : List (Point V)) (p : Point V) (r : List (Point V) × ℕ)
      → get_elem? pts i ≡ some p
      → point_in_range start_time end_time p ≡ true
      → Compacted n (suc i) w pts r
      → Compacted (suc n) i w pts r
  dropped_step n i w pts p r e hit c =
      let small : r.1 ≤ suc i + n = c.small in
      record {
        kept = rw (drop-get pts i p e, hit) c.kept;
        same_length = c.same_length;
        small = omega arith;
      }

  kept_step :
      (n i w : ℕ) (pts qs : List (Point V)) (p : Point V) (r : List (Point V) × ℕ)
      → get_elem? pts i ≡ some p
      → point_in_range start_time end_time p ≡ false
      → take (suc w) qs ≡ take w pts ++ (p ∷ [])
      → drop (suc i) qs ≡ drop (suc i) pts
      → length qs ≡ length pts
      → Compacted n (suc i) (suc w) qs r
      → Compacted (suc n) i w pts r
  kept_step n i w pts qs p r e miss front back len c =
      let small : r.1 ≤ suc i + n = c.small in
      record {
        kept =
            c.kept
            ∙ ap₂ (λ xs ys. xs ++ filter outside (take n ys)) front back
            ∙ append_assoc (take w pts) (p ∷ []) (filter outside (take n (drop (suc i) pts)))
            ∙ rw (drop-get pts i p e, miss) refl;
        same_length = c.same_length ∙ len;
        small = omega arith;
      }

  delete_loop-Compacted :
      (n i w : ℕ) (pts : List (Point V))
      → w ≤ i
      → i + n ≤ length pts
      → Compacted n i w pts (delete_loop start_time end_time n i w pts)
  unfolding delete_loop
  delete_loop-Compacted zero i w pts le inside = record {
    kept = sym (append_nil (take w pts));
    same_length = refl;
    small = omega arith;
  }
  delete_loop-Compacted (suc n) i w pts le inside =
      let (p, e) = get_elem?-lt pts i (omega arith) in
      let qs : List (Point V) = if w /= i then set pts w p else pts in
      let len : length qs ≡ length pts = moved_length i w pts p in
      rw (e, delete_loop)
        (if_cases (Compacted (suc n) i w pts) (point_in_range start_time end_time p)
          (delete_loop start_time end_time n (suc i) w pts)
          (delete_loop start_time end_time n (suc i) (suc w) qs)
          (λ hit.
            dropped_step n i w pts p _ e hit
              (delete_loop-Compacted n (suc i) w pts (omega arith) (omega arith)))
          (λ miss.
            kept_step n i w pts qs p _ e miss (moved_take i w pts p e le (omega arith))
              (moved_drop i w pts p le) len
              (delete_loop-Compacted n (suc i) (suc w) qs (omega arith) (omega arith))))

  -- On a valid store, mu_memstore_delete_raw_modified leaves the points outside the range, all of
  -- them and in their order, and the store is valid again.
  pub delete_raw_modified-Refines :
      (s : Memstore V)
      → Valid s
      → (live (delete_raw_modified s start_time end_time) ≡ filter outside (live s))
        × Valid (delete_raw_modified s start_time end_time)
  unfolding delete_raw_modified
  delete_raw_modified-Refines s v =
      let size : length s.points ≡ max_points = v.size in
      let room : s.count ≤ max_points = v.count_small in
      let c : Compacted s.count 0 0 s.points
          (delete_loop start_time end_time s.count 0 0 s.points) =
        delete_loop-Compacted s.count 0 0 s.points (omega arith) (omega arith) in
      let small : (delete_loop start_time end_time s.count 0 0 s.points).1 ≤ 0 + s.count =
        c.small in
      (
        c.kept,
        record {
          size = c.same_length ∙ size;
          count_small = omega arith;
          unique = subst Unique (sym c.kept) (Unique-filter outside (live s) v.unique);
        },
      )
