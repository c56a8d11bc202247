-- ===== src/Caches/Stale.antt =====
-- storage/grep_cache.py: a result that is found is the last one stored, and none that a change may have
-- made stale is found.
use cognikernel.Prelude.{
  first_where-update_where, first_where-append_one, any-first_where-none, ℕ, ◌≡◌, refl, ap, String,
  Bool, some, List, arith, eq_refl, any-first_where, first_where, Option-cases, inl, inr,
}
use cognikernel.Caches.Covers.{Covers}
use cognikernel.Caches.Grep.{
  GrepEntry, is_entry, cache_key_of, lookup_grep_result, stored_entry, fresh_entry,
  store_grep_result, invalidate_project_cache,
}

module _ (digest24 : List ℕ → String) (fnmatch : String → String → Bool) (project changed : String)
    (rows : List GrepEntry) where
  abbrev left : List GrepEntry
  left = (invalidate_project_cache digest24 fnmatch project (some changed) rows).0

module _ (digest24 : List ℕ → String) (fnmatch : String → String → Bool)
    (project pattern path glob text : String) (now : ℕ) (rows : List GrepEntry) where
  found-stored :
      (e : GrepEntry) × (first_where
          (is_entry project (cache_key_of digest24 fnmatch pattern path glob))
          (store_grep_result digest24 fnmatch project pattern path glob text now rows)
        ≡ some e)
      × (e.result_text ≡ text)
  unfolding store_grep_result
  found-stored =
      let key = cache_key_of digest24 fnmatch pattern path glob in
      let p = is_entry project key in
      elim (Option-cases (first_where p rows)) [
        | inr (r, h) ↦ (
          stored_entry digest24 fnmatch text now r,
          rw (any-first_where p rows r h, store_grep_result)
              (first_where-update_where p (stored_entry digest24 fnmatch text now) rows r
                (λ x. unfold is_entry stored_entry in refl) h),
          unfold stored_entry in refl,
        )
        | inl h ↦ (
          fresh_entry digest24 fnmatch project pattern path glob text now,
          rw (any-first_where-none p rows h, store_grep_result)
              (first_where-append_one p _ rows (any-first_where-none p rows h)
                (unfold is_entry fresh_entry in ground (arith, eq_refl project, eq_refl key))),
          unfold fresh_entry in refl,
        )
      ]

  -- What is stored for a search is what the next lookup of the same search returns.
  pub store_grep-lookup :
      (lookup_grep_result digest24 fnmatch project pattern path glob
        (store_grep_result digest24 fnmatch project pattern path glob text now rows)).1
      ≡ some text
  unfolding lookup_grep_result
  store_grep-lookup =
      let (e, found, same) = found-stored in rw (found, lookup_grep_result) (ap (λ x. some x) same)
