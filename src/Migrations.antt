-- ===== src/Migrations.antt =====
-- `MigrationRunner` of src/vera_mmu/migrations.py: the inventory of numbered SQL files, and the ledger of
-- those that were applied. SQLite is the parameter `run`: what a script makes of the whole database, the
-- ledger's table included, or nothing when it fails. A script begins and ends no transaction itself.
pub mod Ledger
use Prim.Native.Char.{code}
use vera_mmu.Common.{
  ℕ, zero, suc, ◌+◌, ◌*◌, ◌-◌, String, Bool, true, false, not, ◌&&◌, ◌||◌, ◌==◌, text_Eq, nat_Eq,
  nat_eq, leb, ltb, Option, none, some, List, [], ◌∷◌, ◌++◌, find, is_some, contains, map, any,
  Result, ok, err, if◌then◌else◌,
}
use vera_mmu.Common.Order.{text_le}
use vera_mmu.Common.Text.{sqlite_length}

pub data MigrationError : Type 0 where
  missing_directory invalid_name duplicate_version initial_required not_contiguous : MigrationError
  checksum_changed migration_failed : MigrationError

-- a file of the directory that ends in `.sql`
pub record File : Type 0 where
  pub name : String
  pub content : String

pub record Migration : Type 0 where
  pub version : ℕ
  pub name : String
  pub sql : String
  pub checksum : String

is_name_code : ℕ → Bool
is_name_code c = leb 97 c && leb c 122 || leb 48 c && leb c 57 || nat_eq c 95 || nat_eq c 45

-- `[a-z0-9_-]*` before `.sql`
stem_of : String → Option String
unfolding is_name_code
stem_of String.[] = none
stem_of (String.◌∷◌ c s) =
    let rest = stem_of s in
    if String.◌∷◌ c s == ".sql"
    then some String.[]
    else if is_name_code (code c)
    then elim rest [ none ↦ none | some r ↦ some (String.◌∷◌ c r) ]
    else none

-- the name starts with a letter or a digit
starts_name : Option String → Bool
unfolding is_name_code
starts_name none = false
starts_name (some String.[]) = false
starts_name (some (String.◌∷◌ c s)) =
    is_name_code (code c) && not (nat_eq (code c) 95) && not (nat_eq (code c) 45)

abbrev numbered : ℕ → Option String → Option (ℕ × String)
numbered v none = none
numbered v (some s) = if leb 1 v && starts_name (some s) then some (v, s) else none

-- `MIGRATION_RE.fullmatch`: digits that are not all zero, an underscore, the name
parse_from : ℕ → String → Option (ℕ × String)
unfolding stem_of starts_name
parse_from v String.[] = none
parse_from v (String.◌∷◌ c s) =
    let rest = parse_from (v * 10 + (code c - 48)) s in
    if leb 48 (code c) && leb (code c) 57
    then rest
    else if nat_eq (code c) 95
    then numbered v (stem_of s)
    else none

unfoldable pub parse_name : String → Option (ℕ × String)
unfolding parse_from
parse_name s = parse_from 0 s

unfoldable pub insert_file : File → List File → List File
insert_file f [] = f ∷ []
insert_file f (g ∷ gs) =
    let rest = insert_file f gs in if text_le f.name g.name then f ∷ g ∷ gs else g ∷ rest

-- `sorted(self.schema_dir.glob("*.sql"))`
unfoldable pub sort_files : List File → List File
unfolding insert_file
sort_files [] = []
sort_files (f ∷ fs) = insert_file f (sort_files fs)

unfoldable pub insert_migration : Migration → List Migration → List Migration
insert_migration m [] = m ∷ []
insert_migration m (n ∷ ns) =
    let rest = insert_migration m ns in if leb m.version n.version then m ∷ n ∷ ns else n ∷ rest

-- `sorted(migrations, key=lambda item: item.version)`
unfoldable pub sort_migrations : List Migration → List Migration
unfolding insert_migration
sort_migrations [] = []
sort_migrations (m ∷ ms) = insert_migration m (sort_migrations ms)

-- the versions count up from `n`
unfoldable pub counts_from : ℕ → List Migration → Bool
counts_from n [] = true
counts_from n (m ∷ ms) = nat_eq m.version n && counts_from (suc n) ms

abbrev pub starts_at_one : List Migration → Bool
starts_at_one [] = false
starts_at_one (m ∷ ms) = nat_eq m.version 1

module _ (sha256 : String → String) where
  abbrev add_file :
      Option (ℕ × String)
      → File
      → List ℕ
      → Result MigrationError (List Migration)
      → Result MigrationError (List Migration)
  add_file none f seen rest = err invalid_name
  add_file (some (v, s)) f seen (err e) = if contains seen v then err duplicate_version else err e
  add_file (some (v, s)) f seen (ok ms) =
      if contains seen v
      then err duplicate_version
      else ok (record { version = v; name = s; sql = f.content; checksum = sha256 f.content } ∷ ms)

  abbrev seen_after : Option (ℕ × String) → List ℕ → List ℕ
  seen_after none seen = seen
  seen_after (some (v, s)) seen = v ∷ seen

  -- the loop of `discover`
  unfoldable pub read_files : List ℕ → List File → Result MigrationError (List Migration)
  unfolding parse_name contains
  read_files seen [] = ok []
  read_files seen (f ∷ fs) =
      add_file (parse_name f.name) f seen (read_files (seen_after (parse_name f.name) seen) fs)

  abbrev pub checked : List Migration → Result MigrationError (List Migration)
  checked ms =
      if not (starts_at_one ms)
      then err initial_required
      else if not (counts_from 1 ms)
      then err not_contiguous
      else ok ms

  abbrev pub sorted_and_checked :
      Result MigrationError (List Migration) → Result MigrationError (List Migration)
  sorted_and_checked (err e) = err e
  sorted_and_checked (ok ms) = checked (sort_migrations ms)

  -- `discover`; a directory that is missing has no listing
  unfoldable pub discover : Option (List File) → Result MigrationError (List Migration)
  unfolding read_files sort_files sort_migrations counts_from
  discover none = err missing_directory
  discover (some files) = sorted_and_checked (read_files [] (sort_files files))

-- a row of `schema_migrations`
pub record Applied : Type 0 where
  pub version : ℕ
  pub name : String
  pub checksum : String

-- A database: the table `schema_migrations`, which the first script creates, and the rest of it.
pub record Database (D : Type 0) : Type 0 where
  pub content : D
  pub ledger : Option (List Applied)

abbrev pub rows_of : Option (List Applied) → List Applied
rows_of none = []
rows_of (some rows) = rows

-- `_applied`: no row where there is no table
abbrev pub applied_rows : {D : Type 0} → Database D → List Applied
applied_rows db = rows_of db.ledger

abbrev pub applied_row : Migration → Applied
applied_row m = record { version = m.version; name = m.name; checksum = m.checksum }

-- the table takes the row: `PRIMARY KEY CHECK (version > 0)`, `UNIQUE`, `CHECK (length(checksum) = 64)`
abbrev pub row_fits : List Applied → Applied → Bool
row_fits rows a =
    leb 1 a.version
    && not (any (λ (b : Applied). nat_eq b.version a.version || b.name == a.name) rows)
    && nat_eq (sqlite_length a.checksum) 64

module _ {D : Type 0} (run : String → Database D → Option (Database D)) where
  -- the row of a migration, in the table that its script leaves; without the table, or where the row
  -- does not fit, the transaction is rolled back to the database before the script
  abbrev add_row :
      Database D
      → Migration
      → Database D
      → Option (List Applied)
      → Result MigrationError Unit × Database D
  add_row before m db none = (err migration_failed, before)
  add_row before m db (some rows) =
      if row_fits rows (applied_row m)
      then (ok tt, record { content = db.content; ledger = some (rows ++ applied_row m ∷ []) })
      else (err migration_failed, before)

  -- `_apply_one`: the script and its row of the ledger, or neither
  unfoldable pub apply_one : Migration → Database D → Result MigrationError Unit × Database D
  apply_one m db = elim (run m.sql db) [
    | none ↦ (err migration_failed, db)
    | some d ↦ add_row db m d d.ledger
  ]

  abbrev pub apply_next :
      Option Applied → Migration → Database D → Result MigrationError Unit × Database D
  apply_next none m db = apply_one m db
  apply_next (some a) m db =
      if a.name == m.name && a.checksum == m.checksum
      then (ok tt, db)
      else (err checksum_changed, db)

  abbrev pub then_apply :
      Result MigrationError Unit × Database D
      → (Database D → Result MigrationError Unit × Database D)
      → Result MigrationError Unit × Database D
  then_apply (err e, db) rest = (err e, db)
  then_apply (ok u, db) rest = rest db

  -- The loop of `apply`. `applied` is the ledger read before the loop; no version occurs twice in the
  -- inventory, so that the rows added by the loop do not matter.
  unfoldable pub apply_all :
      List Applied → List Migration → Database D → Result MigrationError Unit × Database D
  unfolding apply_one
  apply_all applied [] db = (ok tt, db)
  apply_all applied (m ∷ ms) db =
      then_apply (apply_next (find (λ a. nat_eq a.version m.version) applied) m db)
        (λ next. apply_all applied ms next)

  abbrev pub outcome :
      List Migration
      → Result MigrationError Unit × Database D
      → Result MigrationError (List Migration) × Database D
  outcome ms (ok u, db) = (ok ms, db)
  outcome ms (err e, db) = (err e, db)

  abbrev pub with_inventory :
      Result MigrationError (List Migration)
      → Database D
      → Result MigrationError (List Migration) × Database D
  with_inventory (err e) db = (err e, db)
  with_inventory (ok ms) db = outcome ms (apply_all (applied_rows db) ms db)

  -- `MigrationRunner.apply`
  unfoldable pub apply :
      (String → String)
      → Option (List File)
      → Database D
      → Result MigrationError (List Migration) × Database D
  unfolding apply_all discover
  apply sha256 files db = with_inventory (discover sha256 files) db
