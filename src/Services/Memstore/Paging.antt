-- ===== src/Services/Memstore/Paging.antt =====
-- Reading page by page, each request with the continuation point of the page before.
use muc_opcua.Common.{
  ℕ, zero, suc, ◌+◌, ◌-◌, ◌≤◌, ◌<◌, ◌≡◌, refl, sym, ap, ◌∙◌, inl, inr, List, [], ◌∷◌, ◌++◌, Option,
  none, some, Bool, true, false, subst, ◌&&◌, ltb, ◌==◌, if◌then◌else◌, if_cases, Bool-cases,
  length, get_elem?, take, drop, filter, arith, get_elem?-lt, drop-get, append_nil,
}
use muc_opcua.Services.Memstore.{
  Point, Memstore, max_points, point_in_range, read_loop, page_size, read_raw_modified,
}
use muc_opcua.Services.Memstore.Refine.{live, Valid}

module _ {V : Type 0} (start_time end_time : ℕ) where
  abbrev pub inside : Point V → Bool
  inside p = point_in_range start_time end_time p

  abbrev prepend : List (Point V) → Option (List (Point V)) → Option (List (Point V))
  prepend page none = none
  prepend page (some rest) = some (page ++ rest)

  -- A page of the slots from `scan` on: it holds the points of the slots that it passed, stops
  -- early only when it is full, and moves if there is room.
  record Page (n scan room : ℕ) (pts : List (Point V)) (r : List (Point V) × ℕ) : Type 0 where
    split :
        filter inside (take n (drop scan pts))
        ≡ r.0 ++ filter inside (take ((scan + n) - r.1) (drop r.1 pts))
    forward : scan ≤ r.1
    bounded : r.1 ≤ scan + n
    early : r.1 < scan + n → length r.0 ≡ room
    moves : 0 < room → 0 < n → scan < r.1

  Page-end :
      (n scan room : ℕ) (pts : List (Point V))
      → (0 < n → room ≡ 0)
      → Page n scan room pts ([], scan)
  Page-end n scan room pts full =
      let rest : (scan + n) - scan ≡ n = omega arith in
      record {
        split = rw rest refl;
        forward = omega arith;
        bounded = omega arith;
        early = λ h. sym (full (omega arith));
        moves = λ some_room more. let none_left : room ≡ 0 = full more in absurd (omega arith);
      }

  Page-skip :
      (n scan room : ℕ) (pts : List (Point V)) (p : Point V) (r : List (Point V) × ℕ)
      → get_elem? pts scan ≡ some p
      → inside p ≡ false
      → Page n (suc scan) room pts r
      → Page (suc n) scan room pts r
  Page-skip n scan room pts p r e miss c =
      let forward : suc scan ≤ r.1 = c.forward in
      let bounded : r.1 ≤ suc scan + n = c.bounded in
      let same : (scan + suc n) - r.1 ≡ (suc scan + n) - r.1 = omega arith in
      record {
        split = rw (drop-get pts scan p e, miss, same) c.split;
        forward = omega arith;
        bounded = omega arith;
        early = λ h. c.early (omega arith);
        moves = λ a b. omega arith;
      }

  Page-take :
      (n scan room : ℕ) (pts : List (Point V)) (p : Point V) (r : List (Point V) × ℕ)
      → get_elem? pts scan ≡ some p
      → inside p ≡ true
      → Page n (suc scan) room pts r
      → Page (suc n) scan (suc room) pts (p ∷ r.0, r.1)
  Page-take n scan room pts p r e hit c =
      let forward : suc scan ≤ r.1 = c.forward in
      let bounded : r.1 ≤ suc scan + n = c.bounded in
      let same : (scan + suc n) - r.1 ≡ (suc scan + n) - r.1 = omega arith in
      record {
        split = rw (drop-get pts scan p e, hit, same) (ap (λ xs. p ∷ xs) c.split);
        forward = omega arith;
        bounded = omega arith;
        early = λ h. ap suc (c.early (omega arith));
        moves = λ a b. omega arith;
      }

  read_loop-Page :
      (n scan room : ℕ) (pts : List (Point V))
      → scan + n ≤ length pts
      → Page n scan room pts (read_loop start_time end_time n scan room pts)
  unfolding read_loop
  read_loop-Page zero scan room pts h = Page-end zero scan room pts (λ more. absurd (omega arith))
  read_loop-Page (suc n) scan zero pts h = Page-end (suc n) scan zero pts (λ more. refl)
  read_loop-Page (suc n) scan (suc room) pts h =
      let (p, e) = get_elem?-lt pts scan (omega arith) in
      let page : List (Point V) × ℕ = read_loop start_time end_time n (suc scan) room pts in
      rw (e, read_loop)
        (if_cases (Page (suc n) scan (suc room) pts) (point_in_range start_time end_time p)
          (p ∷ page.0, page.1) (read_loop start_time end_time n (suc scan) (suc room) pts)
          (λ hit.
            Page-take n scan room pts p page e hit
              (read_loop-Page n (suc scan) room pts (omega arith)))
          (λ miss.
            Page-skip n scan (suc room) pts p _ e miss
              (read_loop-Page n (suc scan) (suc room) pts (omega arith))))

  module _ (s : Memstore V) (num_values_per_node max_data_points : ℕ) where
    -- A client's requests: at most `n` of them, each with the last continuation point, until a page
    -- comes without one; `none` if that does not happen.
    unfoldable pub read_pages : ℕ → Option ℕ → Option (List (Point V))
    read_pages zero cp = none
    read_pages (suc n) cp =
        let page = read_raw_modified s start_time end_time num_values_per_node cp max_data_points in
        elim page.1 [ none ↦ some page.0 | some next ↦ prepend page.0 (read_pages n (some next)) ]

    abbrev per_page : ℕ
    per_page = page_size num_values_per_node max_data_points

    abbrev remaining : ℕ → List (Point V)
    remaining skip = filter inside (take (s.count - skip) (drop skip s.points))

    -- A page without a continuation point ends the array.
    last-Page :
        (skip : ℕ) (r : List (Point V) × ℕ)
        → skip ≤ s.count
        → Page (s.count - skip) skip per_page s.points r
        → (length r.0 == per_page && ltb r.1 s.count) ≡ false
        → r.0 ≡ remaining skip
    last-Page skip r le c done =
        let bounded : r.1 ≤ skip + (s.count - skip) = c.bounded in
        let whole : skip + (s.count - skip) ≡ s.count = omega arith in
        let stop : r.1 ≡ s.count = ground (arith, c.early) in
        let nothing : (skip + (s.count - skip)) - r.1 ≡ 0 = omega arith in
        sym (c.split ∙ rw nothing (append_nil r.0))

    next-Page :
        (skip : ℕ) (r : List (Point V) × ℕ)
        → skip ≤ s.count
        → Page (s.count - skip) skip per_page s.points r
        → r.0 ++ remaining r.1 ≡ remaining skip
    next-Page skip r le c =
        let whole : (skip + (s.count - skip)) - r.1 ≡ s.count - r.1 = omega arith in
        sym (c.split ∙ rw whole refl)

    -- One request, and the rest of the requests if it gave a continuation point.
    page_step :
        (n skip : ℕ)
        → (let r = read_loop start_time end_time (s.count - skip) skip per_page s.points in
            read_pages (suc n) (some skip) ≡ (
              if length r.0 == per_page && ltb r.1 s.count
              then prepend r.0 (read_pages n (some r.1))
              else some r.0))
    unfolding read_pages read_raw_modified
    page_step n skip =
        let r : List (Point V) × ℕ =
          read_loop start_time end_time (s.count - skip) skip per_page s.points in
        by_test (length r.0 == per_page && ltb r.1 s.count) r.1 (some r.0)
          (λ next. prepend r.0 (read_pages n (some next)))
      where
        by_test :
            (b : Bool) (x : ℕ) (last : Option (List (Point V))) (more : ℕ → Option (List (Point V)))
            → elim (if b then some x else none) [ none ↦ last | some next ↦ more next ]
              ≡ (if b then more x else last)
        by_test true x last more = refl
        by_test false x last more = refl

    read_pages_from :
        (n skip : ℕ)
        → Valid s
        → 0 < per_page
        → skip ≤ s.count
        → s.count - skip < n
        → read_pages n (some skip) ≡ some (remaining skip)
    read_pages_from zero skip v room le fuel = absurd (omega arith)
    read_pages_from (suc n) skip v room le fuel =
        let size : length s.points ≡ max_points = v.size in
        let small : s.count ≤ max_points = v.count_small in
        let r : List (Point V) × ℕ =
          read_loop start_time end_time (s.count - skip) skip per_page s.points in
        let c : Page (s.count - skip) skip per_page s.points r =
          read_loop-Page (s.count - skip) skip per_page s.points (omega arith) in
        elim (Bool-cases (length r.0 == per_page && ltb r.1 s.count)) [
          | inl more ↦
              let inside_count : r.1 < s.count = ground arith in
              let forward : skip ≤ r.1 = c.forward in
              let moved : skip < r.1 = c.moves room (omega arith) in
              page_step n skip
              ∙ rw (more, read_pages_from n r.1 v room (omega arith) (omega arith))
                  (ap some (next-Page skip r le c))
          | inr done ↦ page_step n skip ∙ rw done (ap some (last-Page skip r le c done))
        ]

    -- Where a page has room for a point, a client that follows the continuation points of a valid
    -- store gets, in at most one request more than there are points, a last page, and on the pages
    -- together every point of the range once and in order.
    pub read_pages_lem :
        Valid s → 0 < per_page → read_pages (suc s.count) none ≡ some (filter inside (live s))
    unfolding read_pages read_raw_modified
    read_pages_lem v room =
        let all : s.count - 0 ≡ s.count = omega arith in
        subst (λ k. read_pages (suc s.count) none ≡ some (filter inside (take k s.points))) all
          (read_pages_from (suc s.count) 0 v room (omega arith) (omega arith))
