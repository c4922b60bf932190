-- ===== src/Contracts/SlotKeys.antt =====
-- `slotKey` of packages/domain/index.ts tells slots apart: no identifier holds the bar that joins the
-- fields. The slots of validated records have keys.
use knowledger.Base.{◌≡◌, ◌≢◌, refl, sym, ◌∙◌, true, [], ◌∷◌, ◌++◌, Text, All, all, arith}
use knowledger.Fault.{ok, ok_eq, invalid, require, >>=-eq-ok}
use knowledger.Contracts.Identifiers.{is_id, is_id_char, repeated}
use knowledger.Contracts.Slot.{Slot, is_slot, slot_text, slot_key}

abbrev NoBar : Text → Type 0
NoBar t = All (λ c. c ≢ b'|') t

chars-NoBar : (t : Text) → all is_id_char t ≡ true → NoBar t
unfolding all
chars-NoBar [] h = tt
chars-NoBar (c ∷ cs) h = (λ e. ground (arith, e), chars-NoBar cs (ground arith))

is_id-NoBar : (t : Text) → is_id t ≡ true → NoBar t
unfolding is_id repeated
is_id-NoBar [] h = tt
is_id-NoBar (c ∷ cs) h = (λ e. ground (arith, e), chars-NoBar cs (ground arith))

-- The text before the first bar, and the one behind it.
before_bar :
    (a b rest others : Text)
    → NoBar a
    → NoBar b
    → a ++ b'|' ∷ rest ≡ b ++ b'|' ∷ others
    → (a ≡ b) × (rest ≡ others)
before_bar [] [] rest others hs ks h = (refl, cc)
before_bar [] (c ∷ cs) rest others hs ks h = absurd (ks.0 cc)
before_bar (c ∷ cs) [] rest others hs ks h = absurd (hs.0 cc)
before_bar (c ∷ cs) (d ∷ ds) rest others hs ks h =
    let tails = before_bar cs ds rest others hs.1 ks.1 cc in
    let heads : c ≡ d = cc in (rw (heads, tails.0), tails.1)

slot_eq_of :
    (a b : Slot)
    → a.channel_id ≡ b.channel_id
    → a.document_id ≡ b.document_id
    → a.context_id ≡ b.context_id
    → a.scope_id ≡ b.scope_id
    → a.usage_scope ≡ b.usage_scope
    → a ≡ b
slot_eq_of a b h1 h2 h3 h4 h5 = cc

pub slot_text-injective :
    (a b : Slot) → is_slot a ≡ true → is_slot b ≡ true → slot_text a ≡ slot_text b → a ≡ b
unfolding slot_text is_slot
slot_text-injective a b ha hb h =
    let first =
      before_bar a.channel_id b.channel_id _ _ (is_id-NoBar a.channel_id (ground arith))
        (is_id-NoBar b.channel_id (ground arith)) h in
    let second =
      before_bar a.document_id b.document_id _ _ (is_id-NoBar a.document_id (ground arith))
        (is_id-NoBar b.document_id (ground arith)) first.1 in
    let third =
      before_bar a.context_id b.context_id _ _ (is_id-NoBar a.context_id (ground arith))
        (is_id-NoBar b.context_id (ground arith)) second.1 in
    let fourth =
      before_bar a.scope_id b.scope_id _ _ (is_id-NoBar a.scope_id (ground arith))
        (is_id-NoBar b.scope_id (ground arith)) third.1 in
    slot_eq_of a b first.0 second.0 third.0 fourth.0 fourth.1

-- Slots with the same key are the same slot.
pub slot_key-injective : (a b : Slot) (t : Text) → slot_key a ≡ ok t → slot_key b ≡ ok t → a ≡ b
unfolding slot_key
slot_key-injective a b t ha hb =
    let (u, ka, ea) = >>=-eq-ok (require (is_slot a) invalid) _ ha in
    let (v, kb, eb) = >>=-eq-ok (require (is_slot b) invalid) _ hb in
    slot_text-injective a b (ground arith) (ground arith) (ok_eq (ea ∙ sym eb))
