-- ===== src/Join/Build.antt =====
-- The build phase gives a table that serves every probe, or finds that there are no keys.
use sigmod_runtime_engine.Base.{
  ℕ, ◌-◌, ◌^◌, ◌<◌, ◌≡◌, refl, sym, ap, ◌∙◌, ◌⊎◌, inl, inr, Bool, Option, none, some, List, [], ◌∷◌,
  arith, ◌==◌, ==→eq, Bool-cases, length, get_or,
}
use sigmod_runtime_engine.Pages.{Column}
use sigmod_runtime_engine.Unchained.{HashEntry, FlatTable, new}
use sigmod_runtime_engine.Unchained.Phases.{build_from_entries}
use sigmod_runtime_engine.Unchained.Sizing.{new-WellSized, reserve-WellSized}
use sigmod_runtime_engine.Columnar.{ColumnT}
use sigmod_runtime_engine.Columnar.Source.{IsOffsets, all_values}
use sigmod_runtime_engine.Join.{paged_source, build_copied, build_from, build, probe_key}
use sigmod_runtime_engine.Join.Keys.{
  Keys, row_join, matching_rows, key_entries, length-key_entries, row_ids-key_entries,
}
use sigmod_runtime_engine.Join.Matches.{probe_key-row_join}
use sigmod_runtime_engine.Join.Columns.{
  copied_keys, present, keys_from, keys_of, ReadableFrom, Readable, length-copied_keys,
  length-present, length-all_values, build_from_zero_copy_int32-numbered,
  copied_entries-key_entries, numbered-key_entries,
}

module _ (hash : ℕ → ℕ) (build_left : Bool) where
  -- Every probe of the table gives the pairs of its row.
  abbrev pub Serves : Keys → FlatTable → Type 0
  Serves ks t =
      (key j : ℕ)
      → j < 2 ^ 32
      → probe_key hash t build_left key j ≡ row_join build_left ks j (some key)

  -- What the build may come to.
  abbrev pub Builds : Keys → Option (Option FlatTable) → Type 0
  Builds ks result =
      ((result ≡ some none) × ((j : ℕ) (k : Option ℕ) → row_join build_left ks j k ≡ []))
      ⊎ ((t : FlatTable) × (result ≡ some (some t)) × Serves ks t)

  no_entries :
      (ks : Keys) (j : ℕ) (k : Option ℕ)
      → length ks < 2 ^ 32
      → key_entries 0 ks ≡ []
      → row_join build_left ks j k ≡ []
  unfolding row_join
  no_entries ks j none few empty = refl
  no_entries ks j (some key) few empty =
      let listed = row_ids-key_entries 0 ks key (omega arith) in
      let nothing : [] ≡ matching_rows 0 ks key = rw empty at listed in rw (sym nothing)

  none_of_length : (es : List HashEntry) → length es ≡ 0 → es ≡ []
  none_of_length [] h = refl
  none_of_length (e ∷ es) h = absurd (omega arith)

  Builds-copied :
      (c : ColumnT) (n : ℕ) → n < 2 ^ 32 → Builds (copied_keys c 0 n) (build_copied hash c n)
  unfolding build_copied
  Builds-copied c n few =
      let ks = copied_keys c 0 n in
      let all : length ks < 2 ^ 32 = omega (arith, length-copied_keys c 0 n) in
      let short = length-key_entries 0 ks in
      rw (copied_entries-key_entries c 0 n) (elim (Bool-cases (length (key_entries 0 ks) == 0)) [
        | inl empty ↦
            let nothing = none_of_length _ (==→eq _ _ empty) in
            inl (rw empty refl, λ j k. no_entries ks j k all nothing)
        | inr full ↦
            let (t, made, sized, _, _, _) =
              reserve-WellSized (length (key_entries 0 ks)) (new 10) (omega arith)
                (new-WellSized 10 (omega arith)) in
            inr (
              build_from_entries hash (key_entries 0 ks) t,
              rw (full, made),
              λ key j row. probe_key-row_join hash t build_left ks key j sized all row,
            )
      ])

  Builds-paged :
      (c : ColumnT) (n : ℕ) (column : Column)
      → n < 2 ^ 32
      → IsOffsets c.page_offsets
      → n ≡ get_or c.page_offsets (length c.page_offsets - 1) 0
      → Builds
          (present (all_values column.pages c.page_offsets))
          (build_from hash c n (some column))
  unfolding build_from
  Builds-paged c n column few offs rows =
      let vs = all_values column.pages c.page_offsets in
      let many : length vs ≡ n = length-all_values column.pages c.page_offsets offs ∙ sym rows in
      let all : length (present vs) < 2 ^ 32 = omega (arith, length-present vs) in
      let whole = build_from_zero_copy_int32-numbered hash column c.page_offsets n in
      let (t, made, sized, _, _, _) =
        reserve-WellSized n (new 10) (omega arith) (new-WellSized 10 (omega arith)) in
      inr (
        build_from_entries hash (key_entries 0 (present vs)) t,
        rw made (
            ap (λ r. some (some r))
              (whole t offs rows (omega arith)
                ∙ ap (λ es. build_from_entries hash es t) (numbered-key_entries 0 vs))),
        λ key j row. probe_key-row_join hash t build_left (present vs) key j sized all row,
      )

  Builds-from :
      (c : ColumnT) (n : ℕ) (o : Option Column)
      → n < 2 ^ 32
      → ReadableFrom c n o
      → Builds (keys_from c n o) (build_from hash c n o)
  unfolding keys_from build_from ReadableFrom
  Builds-from c n none few h = Builds-copied c n few
  Builds-from c n (some column) few h = Builds-paged c n column few h.0 h.1

  pub build-Builds :
      (c : ColumnT) (n : ℕ) → n < 2 ^ 32 → Readable c n → Builds (keys_of c n) (build hash c n)
  unfolding build keys_of Readable
  build-Builds c n few h = Builds-from c n (paged_source c) few h
