-- ===== src/Policies/Once.antt =====
-- A policy is declared once, whichever of the four it is.
use vera_mmu.Common.{String, true, some, List, ◌≡◌, err, ◌>>=◌}
use vera_mmu.Common.Text.{is_canonical_text}
use vera_mmu.Store.{Tables, Store, raised, integrity_error, insert}
use vera_mmu.Store.Rows.{Policy, Value}
use vera_mmu.Store.Keeps.{atomic_row-refused}
use vera_mmu.Policies.{
  PolicyTable, already_declared, unreadable, declare_in, declare_in_rows, insert_row,
}

declare_in_rows-refused :
    {M : Type 0} (table : PolicyTable M) (payload : List (String × Value)) (mode : M)
    (actor now : String) (t : Tables) (p : Policy M)
    → table.row t ≡ some p
    → (declare_in_rows table payload mode actor now t).0 ≡ err integrity_error
unfolding declare_in_rows insert_row ◌>>=◌ insert
declare_in_rows-refused table payload mode actor now t p h = rw h

-- Once a policy is declared, no later declaration replaces it: with a mode of the catalogue and a
-- canonical actor, the call raises and the store is as it was.
pub declare_in_once :
    {M : Type 0} (table : PolicyTable M) (payload : List (String × Value)) (mode : M)
    (actor now : String) (s : Store) (p : Policy M)
    → is_canonical_text 256 actor ≡ true
    → table.row s.tables ≡ some p
    → declare_in table payload (some mode) actor now s ≡ (err (raised already_declared), s)
unfolding declare_in ◌>>=◌
declare_in_once table payload mode actor now s p canonical declared = rw canonical (
    atomic_row-refused already_declared unreadable (declare_in_rows table payload mode actor now) s
      (declare_in_rows-refused table payload mode actor now s.tables p declared))
