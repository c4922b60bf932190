-- ===== src/State/Chain.antt =====
-- The journal and the state of packages/storage/local-ledger.ts: what a commit keeps.
use knowledger.Base.{
  ℕ, Bool, true, ◌&&◌, List, [], ◌∷◌, ◌++◌, Option, none, some, Bool-cases, inl, inr, Text, text,
  text_eq_refl, text_eq→eq, ◌≡◌, refl, ap, ◌∙◌, sym, arith, and_parts,
}
use knowledger.Fault.{ok, Result-cases}
use knowledger.Json.{Json}
use knowledger.Json.Canonical.{canonicalize, same_json, same_texts}
use knowledger.Ledger.Keys.{Key, key_eq}
use knowledger.Ledger.Laws.{key_eq→eq, at-put}
use knowledger.Ledger.Store.{Store, put}
use knowledger.State.Writes.{is_immutable}
use knowledger.State.Journal.{
  UnsignedEvent, LedgerEvent, JournalRow, WriteSet, zero_hash, valid_writes, valid_row,
  validate_journal_rows, next_number, next_hash, unsigned_event, committed_row, tip,
  keeps_immutable, apply_writes,
}

both : {a b : Bool} → a ≡ true → b ≡ true → (a && b) ≡ true
both h k = ground arith

module _ (sha256 : List ℕ → Text) (hash_record : UnsignedEvent → Text)
    (channel tx_id timestamp : Text) (writes : WriteSet)
    (valid : valid_writes sha256 hash_record writes ≡ true) where
  committed_row-valid :
      (previous : Option LedgerEvent)
      → valid_row sha256 hash_record channel
          (next_hash sha256 hash_record previous)
          (next_number sha256 hash_record previous)
          (committed_row sha256 hash_record channel previous tx_id timestamp writes)
        ≡ true
  unfolding valid_row committed_row unsigned_event
  committed_row-valid previous = ground (
    arith,
    text_eq_refl channel,
    text_eq_refl (next_hash sha256 hash_record previous),
    text_eq_refl
        (hash_record (unsigned_event sha256 hash_record channel previous tx_id timestamp writes)),
    text_eq_refl (text "VALID"),
  )

  row_number :
      (previous : Option LedgerEvent) (row : JournalRow)
      → valid_row sha256 hash_record channel
          (next_hash sha256 hash_record previous)
          (next_number sha256 hash_record previous)
          row
        ≡ true
      → row.event.unsigned.block_number ≡ next_number sha256 hash_record previous
  unfolding valid_row
  row_number previous row h = ground arith

  validate_journal_rows-append :
      (previous : Option LedgerEvent) (rows : List JournalRow)
      → validate_journal_rows sha256 hash_record channel
          (next_hash sha256 hash_record previous)
          (next_number sha256 hash_record previous)
          rows
        ≡ true
      → validate_journal_rows sha256 hash_record channel
          (next_hash sha256 hash_record previous)
          (next_number sha256 hash_record previous)
          (rows
            ++ committed_row sha256 hash_record channel
                (tip sha256 hash_record previous rows)
                tx_id
                timestamp
                writes
              ∷ [])
        ≡ true
  unfolding validate_journal_rows tip next_hash next_number
  validate_journal_rows-append previous [] h = ground (arith, committed_row-valid previous)
  validate_journal_rows-append previous (row ∷ rows) h =
      let (first, rest) = and_parts _ _ h in
      let numbered : row.event.unsigned.block_number ≡ next_number sha256 hash_record previous =
        row_number previous row first in
      let later = validate_journal_rows-append (some row.event) rows (rw (sym numbered) at rest) in
      both first (rw (← numbered) later)

  -- A journal that verifies still verifies with the row that a transaction of accepted writes
  -- appends after its last event.
  pub validate_journal_rows-committed_row :
      (rows : List JournalRow)
      → validate_journal_rows sha256 hash_record channel zero_hash 1 rows ≡ true
      → validate_journal_rows sha256 hash_record channel zero_hash 1 (
          rows
          ++ committed_row sha256 hash_record channel
              (tip sha256 hash_record none rows)
              tx_id
              timestamp
              writes
            ∷ [])
        ≡ true
  unfolding next_hash next_number
  validate_journal_rows-committed_row rows h = validate_journal_rows-append none rows h

same_json_eq : (v w : Json) → same_json v w ≡ true → canonicalize v ≡ canonicalize w
unfolding same_json same_texts
same_json_eq v w h = elim (Result-cases (canonicalize v)) [
  | inl (e, p) ↦ absurd (ground (arith, p))
  | inr (t, p) ↦ elim (Result-cases (canonicalize w)) [
    | inl (e, q) ↦ absurd (ground (arith, p, q))
    | inr (u, q) ↦ p ∙ ap ok (text_eq→eq t u (ground (arith, p, q))) ∙ sym q
  ]
]

module _ (sha256 : List ℕ → Text) (hash_record : UnsignedEvent → Text) (k : Key)
    (kind : is_immutable k.prefix ≡ true) where
  keeps_immutable-same :
      (key : Key) (v : Json) (s : Store) (u : Json)
      → keeps_immutable sha256 hash_record key v s ≡ true
      → key ≡ k
      → s.at k ≡ some u
      → canonicalize v ≡ canonicalize u
  unfolding keeps_immutable
  keeps_immutable-same key v s u h same held =
      let here : s.at key ≡ some u = rw same held in
      let immutable : is_immutable key.prefix ≡ true = rw same kind in
      sym (same_json_eq u v (ground (arith, here, immutable)))

  apply_writes-step :
      (key : Key) (v : Json) (ws : WriteSet) (s : Store) {t : Store}
      → apply_writes sha256 hash_record ((key, v) ∷ ws) s ≡ some t
      → (keeps_immutable sha256 hash_record key v s ≡ true)
        × (apply_writes sha256 hash_record ws (put key v s) ≡ some t)
  unfolding apply_writes
  apply_writes-step key v ws s h = (ground arith, ground arith)

  -- The writes of a commit leave what is stored under an immutable key in its canonical form.
  pub apply_writes-keeps :
      (ws : WriteSet) (s : Store) (u : Json) {t : Store}
      → apply_writes sha256 hash_record ws s ≡ some t
      → s.at k ≡ some u
      → (v : Json) × (t.at k ≡ some v) × (canonicalize v ≡ canonicalize u)
  unfolding apply_writes
  apply_writes-keeps [] s u h held = (u, ground (arith, held), refl)
  apply_writes-keeps ((key, v) ∷ ws) s u h held =
      let (kept, rest) = apply_writes-step key v ws s h in
      elim (Bool-cases (key_eq key k)) [
        | inl e ↦
            let same = keeps_immutable-same key v s u kept (key_eq→eq key k e) held in
            let (w, stored, canonical) =
              apply_writes-keeps ws (put key v s) v rest (at-put key k v s ∙ rw e refl) in
            (w, stored, canonical ∙ same)
        | inr e ↦ apply_writes-keeps ws (put key v s) u rest (at-put key k v s ∙ rw e held)
      ]
