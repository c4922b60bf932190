-- ===== src/Ledger/Store.antt =====
-- `get` and `put` of `TxContext`, packages/domain/index.ts. A call that throws is rolled back by the
-- adapter, so a command returns the new store only when it succeeds.
use knowledger.Base.{Option, none, some, if◌then◌else◌}
use knowledger.Fault.{Result, ok, err, DomainError, ◌>>=◌}
use knowledger.Json.{Json, present}
use knowledger.Json.Canonical.{clone_canonical}
use knowledger.Ledger.Keys.{Key, key_eq}

pub record Store : Type 0 where
  pub at : Key → Option Json

abbrev pub empty : Store
empty = record { at = λ k. none }

-- `await ctx.get(key)`, with null taken for undefined, as every caller does.
unfoldable pub read : Key → Store → Option Json
read k s = present (s.at k)

-- `if (value === undefined || value === null) fail(...)`
unfoldable pub read_or : DomainError → Key → Store → Result Json
read_or e k s = elim (read k s) [ none ↦ err e | some v ↦ ok v ]

-- `await ctx.put(key, value)`
unfoldable pub put : Key → Json → Store → Store
put k v s = record { at = λ j. if key_eq k j then some v else s.at j }

-- `await ctx.put(key, cloneCanonical(value))`
unfoldable pub put_clone : Key → Json → Store → Result Store
put_clone k v s = do c ← clone_canonical v; ok (put k c s)
