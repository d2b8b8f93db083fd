-- ===== src/Auth/Attempts/Count.antt =====
-- How recording, clearing and purging change what `count_failures` counts.
use trutina.Base.{
  ℕ, suc, ◌≤◌, ◌≡◌, refl, ap₂, ◌∙◌, true, false, List, [], ◌∷◌, ◌++◌, arith, inl, inr, Bool-cases,
  Text, same, same→eq, if◌then◌else◌, ◌&&◌,
}
use trutina.Auth.State.{LoginAttemptRow}
use trutina.Auth.Attempts.{of_pair, counted, count_rows, clear_rows, purge_rows}

module _ (ip key : Text) where
  pub count_rows-append :
      (since : ℕ) (rows : List LoginAttemptRow) (row : LoginAttemptRow)
      → count_rows ip key since (rows ++ row ∷ []) ≡ (
          if counted ip key since row
          then suc (count_rows ip key since rows)
          else count_rows ip key since rows)
  unfolding count_rows
  count_rows-append since [] row = ground arith
  count_rows-append since (a ∷ rows) row = ground (arith, count_rows-append since rows row)

  -- Clearing a pair leaves no failure of it, …
  pub count_rows-clear_rows :
      (since : ℕ) (rows : List LoginAttemptRow)
      → count_rows ip key since (clear_rows ip key rows) ≡ 0
  unfolding count_rows clear_rows
  count_rows-clear_rows since [] = refl
  count_rows-clear_rows since (a ∷ rows) = ground (arith, count_rows-clear_rows since rows)

  -- … and those of another pair.
  pub count_rows-clear_rows_other :
      (ip' key' : Text) (since : ℕ) (rows : List LoginAttemptRow)
      → (same ip ip' && same key key') ≡ false
      → count_rows ip key since (clear_rows ip' key' rows) ≡ count_rows ip key since rows
  unfolding count_rows clear_rows
  count_rows-clear_rows_other ip' key' since [] other = refl
  count_rows-clear_rows_other ip' key' since (a ∷ rows) other =
      let rest = count_rows-clear_rows_other ip' key' since rows other in
      elim (Bool-cases (of_pair ip key a)) [
        | inl here ↦ rw (not_both a here) (ground (arith, rest, here))
        | inr there ↦ elim (Bool-cases (of_pair ip' key' a)) [
          | inl gone ↦ rw (gone, there) rest
          | inr kept ↦ rw (kept, there) rest
        ]
      ]
    where
      not_both : (a : LoginAttemptRow) → of_pair ip key a ≡ true → of_pair ip' key' a ≡ false
      not_both a here =
          let e = same→eq a.ip ip (ground arith) in
          let f = same→eq a.email_key key (ground arith) in
          ap₂ (λ x y. same x ip' && same y key') e f ∙ other

  -- A purge up to where the count starts changes no count.
  pub count_rows-purge_rows :
      (cutoff since : ℕ) (rows : List LoginAttemptRow)
      → cutoff ≤ since
      → count_rows ip key since (purge_rows cutoff rows) ≡ count_rows ip key since rows
  unfolding count_rows purge_rows
  count_rows-purge_rows cutoff since [] h = refl
  count_rows-purge_rows cutoff since (a ∷ rows) h =
      ground (arith, count_rows-purge_rows cutoff since rows h)

  pub count_rows-antitone :
      (early late : ℕ) (rows : List LoginAttemptRow)
      → early ≤ late
      → count_rows ip key late rows ≤ count_rows ip key early rows
  unfolding count_rows
  count_rows-antitone early late [] h = omega arith
  count_rows-antitone early late (a ∷ rows) h =
      ground (arith, count_rows-antitone early late rows h)
