-- ===== src/Auth/Throttle/Agree.antt =====
-- The table of login attempts against the history: it counts, from a cutoff on, what the history
-- counts, although failures are purged, and cleared only if some were counted.
use trutina.Base.{
  ℕ, suc, ◌-◌, ◌≤◌, ◌<◌, ◌≡◌, refl, ap, ap₂, subst, same→eq, same_sym, ◌∙◌, Bool, true, false, ◌&&◌,
  List, [], ◌∷◌, ◌++◌, arith, Text, same, if◌then◌else◌, leb,
}
use trutina.Auth.State.{Runtime, LoginAttemptRow}
use trutina.Auth.Attempts.{count_rows, clear_rows, purge_rows}
use trutina.Auth.Attempts.Count.{
  count_rows-append, count_rows-clear_rows, count_rows-clear_rows_other, count_rows-purge_rows,
  count_rows-antitone,
}
use trutina.Auth.Throttle.{Throttle, window}
use trutina.Auth.Throttle.History.{failed, succeeded, History, recent}

abbrev pub attempt_row : Text → Text → ℕ → LoginAttemptRow
attempt_row ip key at = record { ip = ip; email_key = key; attempted_at = at }

pair_eq :
    (ip key ip' key' : Text) → (same ip ip' && same key key') ≡ true → (ip ≡ ip') × (key ≡ key')
pair_eq ip key ip' key' h = (same→eq ip ip' (ground arith), same→eq key key' (ground arith))

if-le : (b c : Bool) (m n : ℕ) → (b ≡ true → suc m ≤ n) → m ≤ n → (if b && c then suc m else m) ≤ n
if-le true true m n h k = h refl
if-le true false m n h k = k
if-le false c m n h k = k

if-zero : (b : Bool) (m n : ℕ) → (b ≡ true → m ≡ 0) → (b ≡ false → m ≡ n) → m ≡ (if b then 0 else n)
if-zero true m n h k = h refl
if-zero false m n h k = k refl

if-zero_le : (b : Bool) (m n : ℕ) → m ≤ n → (if b then 0 else m) ≤ n
if-zero_le true m n h = omega arith
if-zero_le false m n h = h

module _ ⦃r : Runtime⦄ (t : Throttle) where
  -- The clock does not go back.
  abbrev pub Monotone : Type 0
  Monotone = (m n : ℕ) → m ≤ n → r.now m ≤ r.now n

  pub record Agrees (draws : ℕ) (rows : List LoginAttemptRow) (h : History) : Type 0 where
    pub cutoff : ℕ
    pub ahead : (n : ℕ) → draws ≤ n → cutoff ≤ r.now n - window t
    pub agree :
        (ip key : Text) (since : ℕ)
        → cutoff ≤ since
        → count_rows ip key since rows ≡ recent ip key since h
    pub bound :
        (ip key : Text) (since : ℕ) → cutoff ≤ since → recent ip key since h ≤ t.max_failures

  pub Agrees-empty : (draws : ℕ) → Agrees draws [] []
  unfolding count_rows recent
  Agrees-empty draws = record {
    cutoff = 0;
    ahead = λ n h. omega arith;
    agree = λ ip key since h. refl;
    bound = λ ip key since h. omega arith;
  }

  pub Agrees-later :
      (d d' : ℕ) (rows : List LoginAttemptRow) (h : History)
      → d ≤ d'
      → Agrees d rows h
      → Agrees d' rows h
  Agrees-later d d' rows h le a = record {
    cutoff = a.cutoff;
    ahead = λ n k. a.ahead n (omega arith);
    agree = a.agree;
    bound = a.bound;
  }

  -- From the cutoff on, the history counts less the later the count starts.
  recent-antitone :
      {d : ℕ} {rows : List LoginAttemptRow} {h : History} (a : Agrees d rows h) (ip key : Text)
      (early late : ℕ)
      → a.cutoff ≤ early
      → early ≤ late
      → recent ip key late h ≤ recent ip key early h
  recent-antitone {rows = rows} a ip key early late k le = omega (
    arith,
    a.agree ip key early k,
    a.agree ip key late (omega arith),
    count_rows-antitone ip key early late rows le,
  )

  module _ (monotone : Monotone) (start d : ℕ) (from : start ≤ d) where
    -- A failure is recorded and the table purged.
    pub Agrees-failed :
        (rows : List LoginAttemptRow) (h : History) (ip key : Text)
        → Agrees start rows h
        → recent ip key (r.now start - window t) h < t.max_failures
        → Agrees
            (suc d)
            (purge_rows (r.now d - window t) (rows ++ attempt_row ip key (r.now d) ∷ []))
            (failed ip key (r.now d) ∷ h)
    unfolding recent
    Agrees-failed rows h ip key a below = record {
      cutoff = r.now d - window t;
      ahead = λ n k. omega (arith, monotone d n (omega arith));
      agree = λ ip' key' since k.
          count_rows-purge_rows ip' key' (r.now d - window t) since
            (rows ++ attempt_row ip key (r.now d) ∷ []) k
          ∙ count_rows-append ip' key' since rows (attempt_row ip key (r.now d))
          ∙ ap (λ m. if (same ip ip' && same key key') && leb since (r.now d) then suc m else m)
              (a.agree ip' key' since (old since k));
      bound = λ ip' key' since k.
          if-le (same ip ip' && same key key') (leb since (r.now d)) (recent ip' key' since h)
            t.max_failures (λ e. one_more ip' key' since (old_start since k) e)
            (a.bound ip' key' since (old since k));
    }
      where
        old : (since : ℕ) → r.now d - window t ≤ since → a.cutoff ≤ since
        old since k = omega (arith, a.ahead d from)

        old_start : (since : ℕ) → r.now d - window t ≤ since → r.now start - window t ≤ since
        old_start since k = omega (arith, monotone start d from)

        one_more :
            (ip' key' : Text) (since : ℕ)
            → r.now start - window t ≤ since
            → (same ip ip' && same key key') ≡ true
            → suc (recent ip' key' since h) ≤ t.max_failures
        one_more ip' key' since k e =
            let (p, q) = pair_eq ip key ip' key' e in
            let fewer =
              recent-antitone a ip key (r.now start - window t) since (a.ahead start (omega arith))
                k in
            subst (λ x. suc (recent x key' since h) ≤ t.max_failures) p
              (subst (λ x. suc (recent ip x since h) ≤ t.max_failures) q
                (omega (arith, fewer, below)))

    -- A success behind a count of zero clears nothing.
    pub Agrees-unfailed :
        (rows : List LoginAttemptRow) (h : History) (ip key : Text)
        → Agrees start rows h
        → recent ip key (r.now start - window t) h ≡ 0
        → Agrees d rows (succeeded ip key ∷ h)
    unfolding recent
    Agrees-unfailed rows h ip key a none_failed = record {
      cutoff = r.now start - window t;
      ahead = λ n k. omega (arith, monotone start n (omega arith));
      agree = λ ip' key' since k.
          if-zero (same ip ip' && same key key') (count_rows ip' key' since rows)
            (recent ip' key' since h) (nothing ip' key' since k)
            (λ e. a.agree ip' key' since (old since k));
      bound = λ ip' key' since k.
          if-zero_le (same ip ip' && same key key') (recent ip' key' since h) t.max_failures
            (a.bound ip' key' since (old since k));
    }
      where
        old : (since : ℕ) → r.now start - window t ≤ since → a.cutoff ≤ since
        old since k = omega (arith, a.ahead start (omega arith))

        nothing :
            (ip' key' : Text) (since : ℕ)
            → r.now start - window t ≤ since
            → (same ip ip' && same key key') ≡ true
            → count_rows ip' key' since rows ≡ 0
        nothing ip' key' since k e =
            let (p, q) = pair_eq ip key ip' key' e in
            let fewer =
              recent-antitone a ip key (r.now start - window t) since (a.ahead start (omega arith))
                k in
            subst (λ x. count_rows x key' since rows ≡ 0) p
              (subst (λ x. count_rows ip x since rows ≡ 0) q
                (omega (arith, fewer, none_failed, a.agree ip key since (old since k))))

    -- A success clears the pair.
    pub Agrees-cleared :
        (rows : List LoginAttemptRow) (h : History) (ip key : Text)
        → Agrees start rows h
        → Agrees d (clear_rows ip key rows) (succeeded ip key ∷ h)
    unfolding recent
    Agrees-cleared rows h ip key a = record {
      cutoff = a.cutoff;
      ahead = λ n k. a.ahead n (omega arith);
      agree = λ ip' key' since k.
          if-zero (same ip ip' && same key key')
            (count_rows ip' key' since (clear_rows ip key rows)) (recent ip' key' since h)
            (gone ip' key' since)
            (λ e.
              count_rows-clear_rows_other ip' key' ip key since rows (swap ip' key' e)
              ∙ a.agree ip' key' since k);
      bound = λ ip' key' since k.
          if-zero_le (same ip ip' && same key key') (recent ip' key' since h) t.max_failures
            (a.bound ip' key' since k);
    }
      where
        gone :
            (ip' key' : Text) (since : ℕ)
            → (same ip ip' && same key key') ≡ true
            → count_rows ip' key' since (clear_rows ip key rows) ≡ 0
        gone ip' key' since e =
            let (p, q) = pair_eq ip key ip' key' e in
            subst (λ x. count_rows x key' since (clear_rows ip key rows) ≡ 0) p
              (subst (λ x. count_rows ip x since (clear_rows ip key rows) ≡ 0) q
                (count_rows-clear_rows ip key since rows))

        swap :
            (ip' key' : Text)
            → (same ip ip' && same key key') ≡ false
            → (same ip' ip && same key' key) ≡ false
        swap ip' key' e = ap₂ ◌&&◌ (same_sym ip' ip) (same_sym key' key) ∙ e
