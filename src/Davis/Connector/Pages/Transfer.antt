-- ===== src/Davis/Connector/Pages/Transfer.antt =====
-- A whole download, from the reception of a page to the end, with the pages sent again.
use meteodata_server.Base.{
  ℕ, zero, suc, ◌+◌, ◌≤◌, ◌<◌, ◌≡◌, ◌≢◌, ◌⊎◌, inl, inr, refl, Bool, true, false, arith, List, [],
  ◌∷◌, Bytes, Bool-cases, sym,
}
use mathlib.Core.Bool.{false≢true}
use meteodata_server.Base.{if◌then◌else◌, ap}
use meteodata_server.Time.{DateLib}
use meteodata_server.Davis.Connector.State.{
  waiting_next_measure_tick, waiting_archive_page, sending_wake_up_settime, success,
  into_archive_page, reading_data, Connector, World,
}
use meteodata_server.Davis.Connector.Machine.{Input, io_completes, step}
use meteodata_server.Base.{◌∙◌, ◌%◌}
use meteodata_server.Base.Int.{ℤ, ◌≤ℤ◌}
use meteodata_server.Davis.Crc.{validate_crc}
use meteodata_server.Davis.Connector.Machine.{run}
use meteodata_server.Davis.Connector.Pages.{AcceptsAll, page_answer, after_answer}

-- A page that arrives, with what the environment answers then and when the answer has been written.
pub record Attempt : Type 0 where
  pub received : World
  pub sent : World
  pub bytes : Bytes

abbrev pub transfer : List Attempt → List (World × Input)
transfer [] = []
transfer (a ∷ others) =
    (a.received, io_completes success a.bytes) ∷ (a.sent, io_completes success []) ∷ transfer others

-- The database accepts what is stored of each attempt.
abbrev pub AllAccepted : List Attempt → Type 0
AllAccepted [] = Unit
AllAccepted (a ∷ others) = AcceptsAll a.received.inserts × AllAccepted others

-- The attempts end with the last of the `n` pages, each valid one counting for a page.
abbrev pub finishes : ℕ → List Attempt → Bool
finishes zero [] = true
finishes zero (a ∷ others) = false
finishes (suc n) [] = false
finishes (suc n) (a ∷ others) =
    let accepted = finishes n others in
    let refused = finishes (suc n) others in if validate_crc a.bytes then accepted else refused

abbrev pub refused : List Attempt → ℕ
refused [] = 0
refused (a ∷ others) = let rest = refused others in if validate_crc a.bytes then rest else rest + 1

-- What a connector waits for between two pages.
record AwaitsPage (n e k : ℕ) (oldest newest : ℤ) (c : Connector) : Type 0 where
  pub state : c.state ≡ waiting_archive_page
  pub io : c.io ≡ reading_data into_archive_page
  pub opened : c.sock_open ≡ true
  pub left : c.pages_left ≡ n
  pub errors : c.transmission_errors ≡ e
  pub downloads : c.nb_downloads ≡ k
  pub newer : newest ≤ℤ c.newest_archive
  pub older : c.oldest_archive ≤ℤ oldest

-- A download that has ended, the `k + 1`-th.
pub record IsDone (k : ℕ) (oldest newest : ℤ) (c : Connector) : Type 0 where
  pub opened : c.sock_open ≡ true
  pub left : c.pages_left ≡ 0
  pub downloads : c.nb_downloads ≡ k + 1
  pub last : c.last_archive ≡ c.newest_archive
  pub newer : newest ≤ℤ c.newest_archive
  pub older : c.oldest_archive ≤ℤ oldest
  pub state : (c.state ≡ waiting_next_measure_tick) ⊎ (c.state ≡ sending_wake_up_settime)

less : (n : ℕ) → suc n < 65536 → (suc n + 65535) % 65536 ≡ n
less n b = ground arith

module _ (lib : DateLib) (a : Attempt) (c : Connector) where
  abbrev answered : Connector
  answered = step lib a.received (io_completes success a.bytes) c

  abbrev after_attempt : Connector
  after_attempt = step lib a.sent (io_completes success []) answered

  attempt_valid :
      {n e k : ℕ} {oldest newest : ℤ}
      → AwaitsPage (suc n) e k oldest newest c
      → suc n < 65536
      → AcceptsAll a.received.inserts
      → validate_crc a.bytes ≡ true
      → (n ≢ 0) × AwaitsPage n e k oldest newest after_attempt
        ⊎ (n ≡ 0) × IsDone k oldest newest after_attempt
  attempt_valid {n} h b acc v = elim (page_answer lib a.received c a.bytes h.state h.io) [
    | inl (_, s, i, l, t, d, p, q, kept) ↦
        let (l', p', q', o', ends) = after_answer lib a.sent answered s i in
        let one_less = l ∙ (ap (λ m. (m + 65535) % 65536) h.left ∙ less n b) in
        elim ends [
          | inl (more, s', i', t', d') ↦ inl (
            (λ z. more (one_less ∙ z)),
            record {
              state = s';
              io = i';
              opened = o' ∙ (kept acc ∙ h.opened);
              left = l' ∙ one_less;
              errors = t' ∙ (t ∙ h.errors);
              downloads = d' ∙ (d ∙ h.downloads);
              newer = rw p' (omega (arith, h.newer, p));
              older = rw q' (omega (arith, h.older, q));
            },
          )
          | inr (none_left, d', last, s') ↦ inr (
            sym one_less ∙ none_left,
            record {
              opened = o' ∙ (kept acc ∙ h.opened);
              left = l' ∙ none_left;
              downloads = d' ∙ ap (λ m. m + 1) (d ∙ h.downloads);
              last = last ∙ sym p';
              newer = rw p' (omega (arith, h.newer, p));
              older = rw q' (omega (arith, h.older, q));
              state = s';
            },
          )
        ]
    | inr (w, _, _, _, _, _, _, _, _) ↦ absurd (false≢true (sym w ∙ v))
  ]

  attempt_invalid :
      {n e k : ℕ} {oldest newest : ℤ}
      → AwaitsPage (suc n) e k oldest newest c
      → e < 100
      → validate_crc a.bytes ≡ false
      → AwaitsPage (suc n) (suc e) k oldest newest after_attempt
  attempt_invalid h b v = elim (page_answer lib a.received c a.bytes h.state h.io) [
    | inl (w, _, _, _, _, _, _, _, _) ↦ absurd (false≢true (sym v ∙ w))
    | inr (_, i, l, t, _, d, p, q, goes) ↦ elim goes [
      | inr (many, _) ↦ absurd (omega (arith, h.errors))
      | inl (_, s, o) ↦
          let (l', p', q', o', ends) = after_answer lib a.sent answered s i in
          elim ends [
            | inr (none_left, _, _, _) ↦ absurd (omega (arith, l, h.left))
            | inl (_, s', i', t', d') ↦ record {
              state = s';
              io = i';
              opened = o' ∙ (o ∙ h.opened);
              left = l' ∙ (l ∙ h.left);
              errors = t' ∙ (t ∙ (ap (λ m. m + 1) h.errors ∙ omega arith));
              downloads = d' ∙ (d ∙ h.downloads);
              newer = rw (p' ∙ p) h.newer;
              older = rw (q' ∙ q) h.older;
            }
          ]
    ]
  ]

finishes-zero : (attempts : List Attempt) → finishes 0 attempts ≡ true → attempts ≡ []
finishes-zero [] f = refl
finishes-zero (a ∷ others) f = absurd (false≢true f)

module _ (lib : DateLib) where
  transfer_ends :
      (n : ℕ) (attempts : List Attempt) (c : Connector) {e k : ℕ} {oldest newest : ℤ}
      → n ≢ 0
      → AwaitsPage n e k oldest newest c
      → n < 65536
      → AllAccepted attempts
      → finishes n attempts ≡ true
      → e + refused attempts ≤ 100
      → IsDone k oldest newest (run lib (transfer attempts) c)
  unfolding run
  transfer_ends zero attempts c z h b acc f e = absurd (z refl)
  transfer_ends (suc n) [] c z h b acc f e = absurd (false≢true f)
  transfer_ends (suc n) (a ∷ others) c z h b acc f e = elim (Bool-cases (validate_crc a.bytes)) [
    | inl v ↦ elim (attempt_valid lib a c h b acc.0 v) [
      | inl (more, h') ↦
          transfer_ends n others (after_attempt lib a c) more h' (omega arith) acc.1 (rw v at f)
            (rw v at e)
      | inr (last, done) ↦
          rw (finishes-zero others (ap (λ m. finishes m others) (sym last) ∙ rw v at f)) done
    ]
    | inr v ↦
        let e' = rw v at e in
        transfer_ends (suc n) others (after_attempt lib a c) z
          (attempt_invalid lib a c h (omega (arith, e')) v) b acc.1 (rw v at f) (omega (arith, e'))
  ]

  -- A download completes: when the socket of a connector that waits for the first of its pages is open, and
  -- it receives pages until the last of them has arrived intact, each damaged one being sent again,
  -- with at most 100 transmission errors in all, the database accepting everything that it is given,
  -- the connector ends with the socket open, no page left, one more download counted, and the start of
  -- the next one set to the newest archive, itself no older than before; and it waits for the next
  -- measure or sets the time of the station.
  pub download_completes :
      (attempts : List Attempt) (c : Connector)
      → c.state ≡ waiting_archive_page
      → c.io ≡ reading_data into_archive_page
      → c.sock_open ≡ true
      → c.pages_left ≢ 0
      → c.pages_left < 65536
      → AllAccepted attempts
      → finishes c.pages_left attempts ≡ true
      → c.transmission_errors + refused attempts ≤ 100
      → IsDone c.nb_downloads c.oldest_archive c.newest_archive (run lib (transfer attempts) c)
  download_completes attempts c s i o z b acc f e =
      transfer_ends c.pages_left attempts c z
        (record {
          state = s;
          io = i;
          opened = o;
          left = refl;
          errors = refl;
          downloads = refl;
          newer = omega arith;
          older = omega arith;
        })
        b acc f e
