-- ===== src/Caches/Windows.antt =====
-- storage/read_cache.py, storage/denied_reads.py: what a session remembers, and for how long.
use cognikernel.Prelude.{
  ℕ, ◌+◌, ◌-◌, ◌≡◌, ◌≤◌, refl, ap, sym, ◌∙◌, String, false, Option, none, some, List, [], ◌∷◌, ◌++◌,
  ok, arith, leb, if◌then◌else◌, eq_refl, any, first_where, first_where-upsert,
  first_where-delete_where, update_where,
}
use cognikernel.Caches.Sessions.{
  ReadCacheEntry, DeniedRead, is_read_of, read_again, first_read, record_read, get_read,
  is_denial_of, denied_again, first_denial, record_denied, was_denied_within, clear_denied,
}

abbrev pub count_of : Option ReadCacheEntry → ℕ
count_of none = 0
count_of (some e) = e.read_count

module _ (project session path outcome : String) (now : ℕ) (rows rows' : List ReadCacheEntry) where
  after :
      (o : Option ReadCacheEntry)
      → first_where (is_read_of project session path) rows'
        ≡ some (elim o [
          | none ↦ first_read project session path outcome now
          | some r ↦ read_again outcome now r
        ])
      → (e : ReadCacheEntry) × (first_where (is_read_of project session path) rows' ≡ some e)
        × (e.last_read_at ≡ now)
        × (e.last_read_outcome ≡ outcome)
        × (e.read_count ≡ count_of o + 1)
  after none h =
      (_, h, unfold first_read in refl, unfold first_read in refl, unfold first_read in refl)
  after (some r) h =
      (_, h, unfold read_again in refl, unfold read_again in refl, unfold read_again in refl)

  -- A read that is recorded is found with its time and outcome, and with one read more than before
  -- (with one, where the file was not known).
  pub record_read-get_read :
      record_read project session path outcome now rows ≡ ok rows'
      → (e : ReadCacheEntry) × (get_read project session path rows' ≡ some e)
        × (e.last_read_at ≡ now)
        × (e.last_read_outcome ≡ outcome)
        × (e.read_count ≡ count_of (get_read project session path rows) + 1)
  unfolding record_read get_read
  record_read-get_read h =
      let p = is_read_of project session path in
      let stored =
        if any p rows
        then update_where p (read_again outcome now) rows
        else rows ++ first_read project session path outcome now ∷ [] in
      let same : stored ≡ rows' = ground arith in
      let found =
        ap (first_where p) (sym same)
        ∙ (first_where-upsert p (read_again outcome now)
            (first_read project session path outcome now) rows
            (λ x. unfold is_read_of read_again in refl)
            (unfold is_read_of first_read in
              ground (arith, eq_refl project, eq_refl session, eq_refl path))) in
      after (first_where p rows) found

module _ (project session path : String) (rows : List DeniedRead) where
  denied_after :
      (reason : String) (denied : ℕ) (rows' : List DeniedRead) (o : Option DeniedRead)
      → first_where (is_denial_of project session path) rows'
        ≡ some (elim o [
          | none ↦ first_denial project session path reason denied
          | some d ↦ denied_again reason denied d
        ])
      → (d : DeniedRead) × (first_where (is_denial_of project session path) rows' ≡ some d)
        × (d.denied_at ≡ denied)
  denied_after reason denied rows' none h = (_, h, unfold first_denial in refl)
  denied_after reason denied rows' (some d) h = (_, h, unfold denied_again in refl)

  within :
      (denied window now : ℕ) → denied ≤ now → leb (now - denied) window ≡ leb now (denied + window)
  within denied window now later = ground arith

  -- A denial that is recorded holds for the window from its time on, and for no longer; once it is
  -- cleared it does not hold at all.
  pub record_denied-window :
      (reason : String) (denied window now : ℕ) (rows' : List DeniedRead)
      → record_denied project session path reason denied rows ≡ ok rows'
      → denied ≤ now
      → (was_denied_within project session path window now rows' ≡ leb now (denied + window))
        × (was_denied_within project session path window now
              (clear_denied project session path rows').0
            ≡ false)
  unfolding was_denied_within
  record_denied-window reason denied window now rows' h later =
      let p = is_denial_of project session path in
      let row = first_denial project session path reason denied in
      let stored =
        if any p rows then update_where p (denied_again reason denied) rows else rows ++ row ∷ [] in
      let same : stored ≡ rows' = unfold record_denied in ground arith in
      let found =
        ap (first_where p) (sym same)
        ∙ (first_where-upsert p (denied_again reason denied) row rows
            (λ x. unfold is_denial_of denied_again in refl)
            (unfold is_denial_of first_denial in
              ground (arith, eq_refl project, eq_refl session, eq_refl path))) in
      let (d, hit, at) = denied_after reason denied rows' (first_where p rows) found in
      (
        rw (hit, was_denied_within) (rw at (within denied window now later)),
        unfold clear_denied in rw (first_where-delete_where p rows', was_denied_within) refl,
      )
