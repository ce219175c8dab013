-- ===== src/Migrations/Ledger.antt =====
-- Applying the migrations of src/vera_mmu/migrations.py twice is applying them once.
use mathlib.Core.List.{append-nil, append_assoc}
use vera_mmu.Common.{
  ℕ, suc, ◌<◌, String, Bool, true, ◌&&◌, ◌==◌, text_Eq, text_iff, nat_eq, nat_eq_iff, ◌≡◌, refl,
  sym, ap, subst, ◌∙◌, Option, none, some, Option-cases, List, [], ◌∷◌, ◌++◌, find, Result, ok, err,
  All, All-append, All-map, arith, Bool-cases, inl, inr, find-append_some, find-append_none,
}
use vera_mmu.Migrations.{
  Migration, MigrationError, Applied, applied_row, applied_rows, row_fits, Database, File,
  apply_one, apply_all, apply, apply_next, then_apply, counts_from, discover, with_inventory,
  outcome, sorted_and_checked, checked, read_files, sort_migrations, sort_files, starts_at_one,
}

abbrev version_is : ℕ → Applied → Bool
version_is v a = nat_eq a.version v

abbrev matches : Applied → Migration → Bool
matches a m = a.name == m.name && a.checksum == m.checksum

-- the ledger has the migration, as it is now
record IsApplied (ledger : List Applied) (m : Migration) : Type 0 where
  row : Applied
  recorded : find (version_is m.version) ledger ≡ some row
  unchanged : matches row m ≡ true

IsApplied-append :
    (ledger more : List Applied) (m : Migration) → IsApplied ledger m → IsApplied (ledger ++ more) m
IsApplied-append ledger more m a = record {
  row = a.row;
  recorded = find-append_some (version_is m.version) ledger more a.row a.recorded;
  unchanged = a.unchanged;
}

older-unfound :
    (v : ℕ) (new : List Applied) → All (λ a. a.version < v) new → find (version_is v) new ≡ none
unfolding find
older-unfound v [] h = refl
older-unfound v (a ∷ new) h = ground (arith, older-unfound v new h.1, h.0)

applied_row-IsApplied :
    (applied new : List Applied) (m : Migration)
    → find (version_is m.version) applied ≡ none
    → All (λ a. a.version < m.version) new
    → IsApplied ((applied ++ new) ++ applied_row m ∷ []) m
unfolding find
applied_row-IsApplied applied new m free older = record {
  row = applied_row m;
  recorded =
      find-append_none (version_is m.version) (applied ++ new) (applied_row m ∷ []) (
        find-append_none (version_is m.version) applied new free
        ∙ older-unfound m.version new older)
      ∙ ground (arith);
  unchanged = ground (arith, text_iff m.name m.name, text_iff m.checksum m.checksum);
}

module _ {D : Type 0} (run : String → Database D → Option (Database D)) where
  -- The script of a migration leaves the rows of the ledger as they are; it may create the table.
  abbrev pub KeepsRows : Migration → Type 0
  KeepsRows m = (db d : Database D) → run m.sql db ≡ some d → applied_rows d ≡ applied_rows db

  -- the loop leaves a longer ledger, with every migration in it
  record Leaves (ms : List Migration) (before after : Database D) : Type 0 where
    more : List Applied
    longer : applied_rows after ≡ applied_rows before ++ more
    complete : All (IsApplied (applied_rows after)) ms

  Leaves-cons :
      (m : Migration) (ms : List Migration) (before middle after : Database D)
      (first : List Applied)
      → applied_rows middle ≡ applied_rows before ++ first
      → IsApplied (applied_rows middle) m
      → Leaves ms middle after
      → Leaves (m ∷ ms) before after
  Leaves-cons m ms before middle after first step here rest = record {
    more = first ++ rest.more;
    longer =
        rest.longer
        ∙ ap (λ l. l ++ rest.more) step
        ∙ append_assoc (applied_rows before) first rest.more;
    complete = (
      subst (λ l. IsApplied l m) (sym rest.longer)
          (IsApplied-append (applied_rows middle) rest.more m here),
      rest.complete,
    );
  }

  -- a migration that is applied adds its row, and only that
  apply_one-adds :
      (m : Migration) (db next : Database D)
      → KeepsRows m
      → apply_one run m db ≡ (ok tt, next)
      → applied_rows next ≡ applied_rows db ++ applied_row m ∷ []
  unfolding apply_one
  apply_one-adds m db next keeps h = elim (Option-cases (run m.sql db)) [
    | inl failed ↦ ground (arith, h, failed)
    | inr (d, ran) ↦ elim (Option-cases d.ledger) [
      | inl missing ↦ ground (arith, h, ran, missing)
      | inr (rows, there) ↦ elim (Bool-cases (row_fits rows (applied_row m))) [
        | inr clash ↦ ground (arith, h, ran, there, clash)
        | inl fits ↦ ground (arith, h, ran, there, fits, keeps db d ran)
      ]
    ]
  ]

  apply_all-Leaves :
      (applied new : List Applied) (n : ℕ) (ms : List Migration) (db after : Database D)
      → All KeepsRows ms
      → counts_from n ms ≡ true
      → applied_rows db ≡ applied ++ new
      → All (λ a. a.version < n) new
      → apply_all run applied ms db ≡ (ok tt, after)
      → Leaves ms db after
  unfolding counts_from apply_all
  apply_all-Leaves applied new n [] db after keep c l older h = record {
    more = [];
    longer =
        ap (λ (r : Result MigrationError Unit × Database D). applied_rows r.1) (sym h)
        ∙ sym (append-nil (applied_rows db));
    complete = tt;
  }
  apply_all-Leaves applied new n (m ∷ ms) db after keep c l older h =
      let version : m.version ≡ n = (nat_eq_iff m.version n).0 (ground (arith, c)) in
      let rest : counts_from (suc n) ms ≡ true = ground (arith, c) in
      let older' =
        All-map (λ a. a.version < n) (λ a. a.version < suc n) new (λ a q. omega (arith, q)) older in
      elim (Option-cases (find (version_is m.version) applied)) [
        | inr (a, found) ↦ elim (Bool-cases (matches a m)) [
          | inl same ↦
              Leaves-cons m ms db db after [] (sym (append-nil (applied_rows db)))
                (subst (λ k. IsApplied k m) (sym l)
                  (IsApplied-append applied new m
                    (record { row = a; recorded = found; unchanged = same })))
                (apply_all-Leaves applied new (suc n) ms db after keep.1 rest l older'
                  (sym (skip a found same) ∙ h))
          | inr changed ↦ ground (arith, h, found, changed)
        ]
        | inl free ↦
            step free (subst (λ k. All (λ a. a.version < k) new) (sym version) older)
              (λ next grown h'.
                apply_all-Leaves applied (new ++ applied_row m ∷ []) (suc n) ms next after keep.1
                  rest grown
                  (All-append _ new (applied_row m ∷ []) older' (omega (arith, version), tt)) h')
              (apply_one run m db) refl (ap (λ o. apply_rest o) (sym free) ∙ h)
      ]
    where
      apply_rest : Option Applied → Result MigrationError Unit × Database D
      apply_rest o = then_apply run (apply_next run o m db) (apply_all run applied ms)

      skip :
          (a : Applied)
          → find (version_is m.version) applied ≡ some a
          → matches a m ≡ true
          → apply_all run applied (m ∷ ms) db ≡ apply_all run applied ms db
      skip a found same = rw (found, same)

      step :
          find (version_is m.version) applied ≡ none
          → All (λ a. a.version < m.version) new
          → ((next : Database D)
              → applied_rows next ≡ applied ++ (new ++ applied_row m ∷ [])
              → apply_all run applied ms next ≡ (ok tt, after)
              → Leaves ms next after)
          → (x : Result MigrationError Unit × Database D) → apply_one run m db ≡ x
          → then_apply run x (apply_all run applied ms) ≡ (ok tt, after)
          → Leaves (m ∷ ms) db after
      step free older recurse (err e, next) one h = cc
      step free older recurse (ok u, next) one h =
          let added = apply_one-adds m db next keep.0 one in
          let grown : applied_rows next ≡ (applied ++ new) ++ applied_row m ∷ [] =
            added ∙ ap (λ k. k ++ applied_row m ∷ []) l in
          Leaves-cons m ms db next after (applied_row m ∷ []) added
            (subst (λ k. IsApplied k m) (sym grown)
              (applied_row-IsApplied applied new m free older))
            (recurse next (grown ∙ append_assoc applied new (applied_row m ∷ [])) h)

  -- where all is applied, the loop changes nothing
  apply_all-again :
      (ms : List Migration) (db : Database D)
      → All (IsApplied (applied_rows db)) ms
      → (k : List Applied) → k ≡ applied_rows db
      → apply_all run k ms db ≡ (ok tt, db)
  unfolding apply_all
  apply_all-again [] db h k e = refl
  apply_all-again (m ∷ ms) db h k e =
      let found : find (version_is m.version) k ≡ some h.0.row =
        ap (find (version_is m.version)) e ∙ h.0.recorded in
      rw (found, h.0.unchanged) (apply_all-again ms db h.1 k e)

-- an inventory counts its versions from one
checked-counts :
    (sha256 : String → String) (ms out : List Migration)
    → checked sha256 ms ≡ ok out
    → counts_from 1 out ≡ true
checked-counts sha256 ms out h = elim (Bool-cases (starts_at_one ms)) [
  | inr late ↦ ground (arith, h, late)
  | inl first ↦ elim (Bool-cases (counts_from 1 ms)) [
    | inr gap ↦ ground (arith, h, first, gap)
    | inl counted ↦
        let same : ms ≡ out = ground (arith, h, first, counted) in
        subst (λ l. counts_from 1 l ≡ true) same counted
  ]
]

sorted-counts :
    (sha256 : String → String) (r : Result MigrationError (List Migration)) (out : List Migration)
    → sorted_and_checked sha256 r ≡ ok out
    → counts_from 1 out ≡ true
sorted-counts sha256 (err e) out h = cc
sorted-counts sha256 (ok ms) out h = checked-counts sha256 (sort_migrations ms) out h

discover-counts :
    (sha256 : String → String) (files : Option (List File)) (out : List Migration)
    → discover sha256 files ≡ ok out
    → counts_from 1 out ≡ true
unfolding discover
discover-counts sha256 none out h = cc
discover-counts sha256 (some files) out h =
    sorted-counts sha256 (read_files sha256 [] (sort_files files)) out h

module _ {D : Type 0} (run : String → Database D → Option (Database D)) where
  abbrev finished :
      Database D → List Migration → Result MigrationError (List Migration) × Database D
  finished d ms = (ok ms, d)

  inventory_twice :
      (r : Result MigrationError (List Migration)) (db after : Database D) (ms : List Migration)
      → ((out : List Migration) → r ≡ ok out → counts_from 1 out ≡ true)
      → All (KeepsRows run) ms
      → with_inventory run r db ≡ (ok ms, after)
      → with_inventory run r after ≡ (ok ms, after)
  inventory_twice (err e) db after ms counted keep h = cc
  inventory_twice (ok out) db after ms counted keep h =
      let (done, same) = ran (apply_all run (applied_rows db) out db) h in
      let leaves =
        apply_all-Leaves run (applied_rows db) [] 1 out db after
          (subst (All (KeepsRows run)) (sym same) keep) (counted out refl)
          (sym (append-nil (applied_rows db))) tt done in
      let again = apply_all-again run out after leaves.complete (applied_rows after) refl in
      ap (outcome run out) again ∙ ap (finished after) same
    where
      ran :
          (x : Result MigrationError Unit × Database D)
          → outcome run out x ≡ (ok ms, after)
          → (x ≡ (ok tt, after)) × (out ≡ ms)
      ran (ok u, d) q = (cc, cc)
      ran (err e, d) q = cc

-- Once `apply` has returned, and where no script of the inventory changes a row of the ledger, a second
-- call runs no script: it returns the same inventory and leaves the database and its ledger as they are.
pub apply_twice :
    {D : Type 0} (run : String → Database D → Option (Database D)) (sha256 : String → String)
    (files : Option (List File)) (db after : Database D) (ms : List Migration)
    → All (KeepsRows run) ms
    → apply run sha256 files db ≡ (ok ms, after)
    → apply run sha256 files after ≡ (ok ms, after)
unfolding apply
apply_twice run sha256 files db after ms keep h =
    inventory_twice run (discover sha256 files) db after ms (discover-counts sha256 files) keep h
