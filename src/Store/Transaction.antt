-- ===== src/Store/Transaction.antt =====
-- `MemoryStore.transaction` is atomic, also when it is nested in another one.
use vera_mmu.Common.{Bool, ◌≡◌, List, ◌∷◌, Result, ok, err, arith}
use vera_mmu.Store.{Store, Tables, Method, Raised, transaction, begin, finish, in_transaction}

-- the block closes every savepoint that it opens
abbrev pub IsBalanced : {E A : Type 0} → Method E A → Type 0
IsBalanced body = (s : Store) → (body s).1.saved ≡ s.saved

-- the tables that a call leaves: those of the block if it returned, the old ones if it raised
abbrev pub settle : {E A : Type 0} → Tables → Result E A → Tables → Tables
settle old (ok _) new = new
settle old (err _) new = old

finish-saved :
    {E A : Type 0} (nested : Bool) (old : Tables) (rest : List Tables) (r : Result (Raised E) A)
    (s : Store)
    → s.saved ≡ old ∷ rest
    → let (r', s') = finish nested (r, s) in
      (r' ≡ r) × (s'.saved ≡ rest) × (s'.tables ≡ settle old r s.tables)
unfolding finish
finish-saved nested old rest (ok a) s h = ground arith
finish-saved nested old rest (err x) s h = ground arith

-- A block that closes its own savepoints is run whole or not at all: a transaction around it
-- returns what the block returns, leaves the open savepoints as they were, and leaves the tables
-- of the block if the block returned, or the tables from before it if the block raised.
pub transaction_atomic :
    {E A : Type 0} (body : Method E A) (s : Store)
    → IsBalanced body
    → let (r, s') = transaction body s in
      (r ≡ (body (begin s)).0)
      × (s'.saved ≡ s.saved)
      × (s'.tables ≡ settle s.tables (body (begin s)).0 (body (begin s)).1.tables)
unfolding transaction
transaction_atomic body s balanced =
    let (r, s1) = body (begin s) in
    finish-saved (in_transaction s) s.tables s.saved r s1 (unfold begin in balanced (begin s))

-- So transactions nest: one is itself a block that closes its own savepoints.
pub transaction-IsBalanced :
    {E A : Type 0} (body : Method E A) → IsBalanced body → IsBalanced (transaction body)
transaction-IsBalanced body balanced s = (transaction_atomic body s balanced).1
