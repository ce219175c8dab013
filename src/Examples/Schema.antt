-- ===== src/Examples/Schema.antt =====
-- Two migrations applied to an empty database.
use mathlib.Core.Option.{some-injective}
use vera_mmu.Common.{
  ◌≡◌, refl, sym, ap, ◌∙◌, String, Option, none, some, List, [], ◌∷◌, ok, find, any, contains,
}
use vera_mmu.Common.Text.{sqlite_length}
use vera_mmu.Common.Order.{text_le}
use vera_mmu.Migrations.{
  File, Migration, Applied, Database, applied_rows, rows_of, apply, parse_name,
}
use vera_mmu.Migrations.Ledger.{KeepsRows, apply_twice}

-- a script is kept, and the first one creates the table of the ledger
abbrev created : Option (List Applied) → Option (List Applied)
created none = some []
created (some rows) = some rows

abbrev keep : String → Database (List String) → Option (Database (List String))
keep script db = some (record { content = script ∷ db.content; ledger = created db.ledger })

-- a text of the length of a digest
abbrev digest : String → String
digest s = "0123456789abcdef0123456789abcdef0123456789abcdef0123456789abcdef"

abbrev files : Option (List File)
files = some (
    record { name = "002_entities.sql"; content = "second" }
    ∷ record { name = "001_core.sql"; content = "first" }
    ∷ [])

abbrev fresh : Database (List String)
fresh = record { content = []; ledger = none }

abbrev migrated : Database (List String)
migrated = (apply keep digest files fresh).1

in_order : migrated.content ≡ "second" ∷ "first" ∷ []
unfolding apply parse_name find contains text_le any sqlite_length
in_order = refl

abbrev core_migration : Migration
core_migration = record { version = 1; name = "core"; sql = "first"; checksum = digest "first" }

abbrev entities_migration : Migration
entities_migration = record {
  version = 2;
  name = "entities";
  sql = "second";
  checksum = digest "second";
}

abbrev inventory : List Migration
inventory = core_migration ∷ entities_migration ∷ []

keep-KeepsRows : (m : Migration) → KeepsRows keep m
keep-KeepsRows m db d h = ap applied_rows (sym (some-injective _ _ h)) ∙ same db.ledger
  where
    same : (l : Option (List Applied)) → rows_of (created l) ≡ rows_of l
    same none = refl
    same (some rows) = refl

apply_twice_example : apply keep digest files migrated ≡ (ok inventory, migrated)
unfolding apply parse_name find contains text_le any sqlite_length
apply_twice_example =
    apply_twice keep digest files fresh migrated inventory
      (keep-KeepsRows core_migration, (keep-KeepsRows entities_migration, tt)) refl
