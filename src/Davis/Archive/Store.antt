-- ===== src/Davis/Archive/Store.antt =====
-- What `store` hands to the database, and the time that it leaves as the most recent.
use meteodata_server.Base.{
  ◌≡◌, refl, sym, ap, ap₂, ◌∙◌, ◌↔◌, map, Bool, true, false, not, ◌&&◌, arith, List, [], ◌∷◌, ◌++◌,
  take, inl, inr, Bool-cases, if◌then◌else◌, All, All-append,
}
use mathlib.Core.Bool.{false≢true}
use mathlib.Core.Path.{transport}
use meteodata_server.Base.Int.{ℤ, ◌≤ℤ◌, ltb_ℤ}
use meteodata_server.Time.{DateLib, TimezoneInfo}
use meteodata_server.Davis.Archive.{
  ArchiveDataPoint, ArchivePage, Inserts, inserts_point, inserts_batch, all_bytes, point_timestamp,
  page_points, store_point, store_points, store,
}

and_true : (a b : Bool) → (a && b) ≡ true → (a ≡ true) × (b ≡ true)
and_true a b h = ground arith

map-append {ℓ κ} :
    {A : Type ℓ} {B : Type κ} (f : A → B) (xs ys : List A) → map f (xs ++ ys) ≡ map f xs ++ map f ys
map-append f [] ys = refl
map-append f (x ∷ xs) ys = ap (◌∷◌ (f x)) (map-append f xs ys)

module _ (lib : DateLib) (info : TimezoneInfo) (now : ℤ) where
  -- The points that a download is after: later than the page's beginning, in the past, and
  -- neither erased (all ones) nor never written (all zeros).
  abbrev pub is_wanted : ℤ → ArchiveDataPoint → Bool
  is_wanted beginning p =
      not (all_bytes 255 (take 4 p.raw))
      && not (all_bytes 0 (take 4 p.raw))
      && ltb_ℤ beginning (point_timestamp lib info p)
      && ltb_ℤ (point_timestamp lib info p) now

  abbrev pub wanted_points : ℤ → List ArchiveDataPoint → List ArchiveDataPoint
  wanted_points beginning [] = []
  wanted_points beginning (p ∷ ps) =
      if is_wanted beginning p then p ∷ wanted_points beginning ps else wanted_points beginning ps

  -- No point is later than a time.
  abbrev pub AllUntil : ℤ → List ArchiveDataPoint → Type 0
  AllUntil time = All (λ p. point_timestamp lib info p ≤ℤ time)

  AllUntil-mono : (s t : ℤ) (ps : List ArchiveDataPoint) → s ≤ℤ t → AllUntil s ps → AllUntil t ps
  AllUntil-mono s t [] h a = tt
  AllUntil-mono s t (p ∷ ps) h a = (omega arith, AllUntil-mono s t ps h a.1)

  wanted_points-cons :
      (beginning : ℤ) (p : ArchiveDataPoint) (ps : List ArchiveDataPoint)
      → wanted_points beginning (p ∷ ps)
        ≡ wanted_points beginning (p ∷ []) ++ wanted_points beginning ps
  wanted_points-cons beginning p ps = elim (Bool-cases (is_wanted beginning p)) [
    | inl w ↦ rw w
    | inr n ↦ rw n
  ]

  module _ (db : Inserts) where
    -- The database accepts each of some points.
    abbrev pub Accepted : List ArchiveDataPoint → Type 0
    Accepted = All (λ p. db.insert_v2_data_point p ≡ true)

    -- One point.
    store_point_lem :
        (page : ArchivePage) (p : ArchiveDataPoint)
        → let (page', calls, inserted, ret) = store_point lib info now db page p in
          (page'.beginning ≡ page.beginning)
          × (page'.page ≡ page.page)
          × (page.most_recent ≤ℤ page'.most_recent)
          × (page.most_recent ≤ℤ now → page'.most_recent ≤ℤ now)
          × (inserted ≡ wanted_points page.beginning (p ∷ []))
          × AllUntil page'.most_recent inserted
          × (calls ≡ map inserts_point inserted)
    unfolding store_point
    store_point_lem page p = ground arith

    -- The loop over the points of a page keeps the page and its beginning, its most recent time only
    -- grows and does not pass the current time, no point handed to the database is later than it,
    -- and if every insertion succeeds the points handed over are the wanted ones, in their order.
    pub store_points_lem :
        (page : ArchivePage) (ps : List ArchiveDataPoint)
        → let (page', calls, inserted, ret) = store_points lib info now db page ps in
          (page'.beginning ≡ page.beginning)
          × (page'.page ≡ page.page)
          × (page.most_recent ≤ℤ page'.most_recent)
          × (page.most_recent ≤ℤ now → page'.most_recent ≤ℤ now)
          × (ret ≡ true → inserted ≡ wanted_points page.beginning ps)
          × AllUntil page'.most_recent inserted
          × (calls ≡ map inserts_point inserted)
    unfolding store_points
    store_points_lem page [] = (refl, refl, omega arith, λ h. h, λ h. refl, tt, refl)
    store_points_lem page (p ∷ ps) =
        let (page', calls, inserted, ret) = store_point lib info now db page p in
        let one = store_point_lem page p in
        let rest = store_points_lem (store_point lib info now db page p).0 ps in
        elim (Bool-cases (store_point lib info now db page p).3) [
          | inl ok ↦ rw ok (
            rest.0 ∙ one.0,
            rest.1 ∙ one.1,
            omega (arith, one.2, rest.2),
            (λ h. rest.3 (one.3 h)),
            (λ h.
                ap₂ ◌++◌ one.4 (rest.4 h ∙ ap (λ b. wanted_points b ps) one.0)
                ∙ sym (wanted_points-cons page.beginning p ps)),
            All-append _ inserted _ (AllUntil-mono _ _ inserted rest.2 one.5) rest.5,
            ap₂ ◌++◌ one.6 rest.6 ∙ sym (map-append inserts_point inserted _),
          )
          | inr failed ↦
              rw failed (one.0, one.1, one.2, one.3, (λ h. absurd (false≢true h)), one.5, one.6)
        ]

    store_point_inserted :
        (page : ArchivePage) (p : ArchiveDataPoint)
        → (store_point lib info now db page p).3 ≡ true
        → Accepted (store_point lib info now db page p).2
    unfolding store_point
    store_point_inserted page p h = ground arith

    store_points_inserted :
        (page : ArchivePage) (ps : List ArchiveDataPoint)
        → (store_points lib info now db page ps).3 ≡ true
        → Accepted (store_points lib info now db page ps).2
    unfolding store_points
    store_points_inserted page [] h = tt
    store_points_inserted page (p ∷ ps) h =
        elim (Bool-cases (store_point lib info now db page p).3) [
          | inl ok ↦ rw ok (
              All-append _ (store_point lib info now db page p).2 _ (store_point_inserted page p ok)
                (store_points_inserted (store_point lib info now db page p).0 ps (rw ok at h)))
          | inr failed ↦ absurd (false≢true (rw failed at h))
        ]

    -- A point succeeds if the database accepts it or it is not wanted.
    store_point_succeeds :
        (page : ArchivePage) (p : ArchiveDataPoint)
        → Accepted (wanted_points page.beginning (p ∷ []))
        → (store_point lib info now db page p).3 ≡ true
    unfolding store_point
    store_point_succeeds page p h = ground arith

    Accepted-cons :
        (beginning : ℤ) (p : ArchiveDataPoint) (ps : List ArchiveDataPoint)
        → Accepted (wanted_points beginning (p ∷ ps))
        → Accepted (wanted_points beginning (p ∷ [])) × Accepted (wanted_points beginning ps)
    Accepted-cons beginning p ps h = elim (Bool-cases (is_wanted beginning p)) [
      | inl w ↦ let (first, later) = rw w at h in rw w ((first, tt), later)
      | inr n ↦ rw n (tt, rw n at h)
    ]

    store_points_succeeds :
        (page : ArchivePage) (ps : List ArchiveDataPoint)
        → Accepted (wanted_points page.beginning ps)
        → (store_points lib info now db page ps).3 ≡ true
    unfolding store_points
    store_points_succeeds page [] h = refl
    store_points_succeeds page (p ∷ ps) h =
        let (first, later) = Accepted-cons page.beginning p ps h in
        let same = (store_point_lem page p).0 in
        rw (store_point_succeeds page p first) (
          store_points_succeeds (store_point lib info now db page p).0 ps
            (transport (ap (λ b. Accepted (wanted_points b ps)) (sym same)) later))

    -- What `store` does when its loop succeeds, and when it fails.
    store_done :
        (page : ArchivePage)
        → let (page', calls, obs, ret) =
            store_points lib info now db page (page_points page.page) in
          ret ≡ true
          → store lib info now db page ≡ (
            page',
            calls ++ (inserts_batch obs ∷ []),
            db.insert_v2_data_points_in_timescale_db obs,
          )
    unfolding store
    store_done page h = rw h refl

    store_failed :
        (page : ArchivePage)
        → let (page', calls, obs, ret) =
            store_points lib info now db page (page_points page.page) in
          ret ≡ false → store lib info now db page ≡ (page', calls, false)
    unfolding store
    store_failed page h = rw h refl

    -- On a page whose most recent time is not in the future, `store` keeps the beginning, and the most
    -- recent time only grows and does not pass the current time. It returns true exactly when the
    -- database accepts each wanted point of the page and the batch of them; then the calls of the
    -- database are one for each wanted point, in their order, and one for the batch of them, and none
    -- is later than the most recent time.
    pub store-wanted :
        (page : ArchivePage)
        → page.most_recent ≤ℤ now
        → let (page', calls, ret) = store lib info now db page in
          let wanted = wanted_points page.beginning (page_points page.page) in
          (page'.beginning ≡ page.beginning)
          × (page.most_recent ≤ℤ page'.most_recent)
          × (page'.most_recent ≤ℤ now)
          × ((ret ≡ true)
              ↔ (Accepted wanted × (db.insert_v2_data_points_in_timescale_db wanted ≡ true)))
          × (ret ≡ true
              → (calls ≡ map inserts_point wanted ++ (inserts_batch wanted ∷ []))
                × AllUntil page'.most_recent wanted)
    store-wanted page h =
        let points = page_points page.page in
        let run = store_points lib info now db page points in
        let loop = store_points_lem page points in
        elim (Bool-cases run.3) [
          | inl ok ↦
              let same = loop.4 ok in
              let accepted = store_points_inserted page points ok in
              rw (store_done page ok, loop.6, same)
                (
                  loop.0,
                  loop.2,
                  loop.3 h,
                  ((λ r. (rw same at accepted, r)), (λ a. a.1)),
                  (λ r. (refl, rw same at loop.5)),
                )
          | inr failed ↦ rw (store_failed page failed) (
            loop.0,
            loop.2,
            loop.3 h,
            (
              (λ r. absurd (false≢true r)),
              (λ a. absurd (false≢true (sym failed ∙ store_points_succeeds page points a.0))),
            ),
            (λ r. absurd (false≢true r)),
          )
        ]

    -- A database that accepts everything makes `store` succeed.
    pub store_accepted :
        (page : ArchivePage)
        → ((p : ArchiveDataPoint) → db.insert_v2_data_point p ≡ true)
        → ((ps : List ArchiveDataPoint) → db.insert_v2_data_points_in_timescale_db ps ≡ true)
        → (store lib info now db page).2 ≡ true
    store_accepted page each all =
        rw
          (store_done page (
            store_points_succeeds page (page_points page.page)
              (all_accepted (wanted_points page.beginning (page_points page.page)))))
          (all (store_points lib info now db page (page_points page.page)).2)
      where
        all_accepted : (ps : List ArchiveDataPoint) → Accepted ps
        all_accepted [] = tt
        all_accepted (p ∷ ps) = (each p, all_accepted ps)
