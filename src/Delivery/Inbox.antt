-- ===== src/Delivery/Inbox.antt =====
-- The inbox of packages/storage/review-delivery-store.ts: `receive` stores a packet once, and answers a
-- repeated delivery with the receipt of the first one.
use knowledger.Base.{
  ℕ, ◌≡◌, refl, ◌∙◌, sym, ap, subst, inl, inr, Bool, true, ◌&&◌, List, [], ◌∷◌, ◌++◌, Option, none,
  some, Text, text_eq, text_eq_refl, find, Option-cases, arith,
}
use knowledger.Fault.{
  Result, ok, failure, delivery_store_corrupt, delivery_id_conflict, invalid_delivery_packet,
  require, ◌>>=◌, ◌>>◌, >>=-eq-ok, ok_eq,
}
use knowledger.Json.{Json}
use knowledger.State.Writes.{accepted}
use knowledger.Delivery.Packet.{
  ReviewPerson, ReviewPacket, ReviewReceipt, same_person, delivery_iso, packet_of, is_packet,
  validate_review_packet, validate_review_receipt,
}

-- A row of `review_delivery_inbox`.
pub record InboxRow : Type 0 where
  pub source_id : Text
  pub delivery_id : Text
  pub payload_digest : Text
  pub recipient : ReviewPerson
  pub packet : Json
  pub receipt : ReviewReceipt

-- `WHERE source_id=? AND delivery_id=?`
unfoldable pub is_from : ReviewPacket → InboxRow → Bool
is_from m r = text_eq r.source_id m.source_id && text_eq r.delivery_id m.delivery_id

unfoldable pub new_receipt : ReviewPacket → Text → ReviewReceipt
new_receipt packet received_at = record {
  delivery_id = packet.delivery_id;
  payload_digest = packet.payload_digest;
  received_at = received_at;
}

unfoldable pub inbox_row : ReviewPacket → ReviewReceipt → InboxRow
inbox_row packet receipt = record {
  source_id = packet.source_id;
  delivery_id = packet.delivery_id;
  payload_digest = packet.payload_digest;
  recipient = packet.recipient;
  packet = packet.value;
  receipt = receipt;
}

module _ (sha256 : List ℕ → Text) where
  unfoldable pub is_received : InboxRow → Bool
  is_received r = accepted (validate_review_packet sha256 r.packet) (λ packet.
      text_eq packet.source_id r.source_id
      && text_eq packet.delivery_id r.delivery_id
      && text_eq packet.payload_digest r.payload_digest
      && same_person packet.recipient r.recipient
      && accepted (validate_review_receipt r.receipt packet) (λ x. true))

  -- `received(row)`, the receipt of it.
  unfoldable pub received : InboxRow → Result ReviewReceipt
  received r = do require (is_received r) (failure delivery_store_corrupt 503); ok r.receipt

  -- The row under the source and the delivery, if there is one.
  unfoldable pub receive_at :
      Option InboxRow → ReviewPacket → Text → List InboxRow → Result (ReviewReceipt × List InboxRow)
  receive_at (some r) packet received_at rows = do
    require (text_eq r.payload_digest packet.payload_digest) (failure delivery_id_conflict 409)
    receipt ← received r
    ok (receipt, rows)
  receive_at none packet received_at rows =
      let receipt = new_receipt packet received_at in
      ok (receipt, rows ++ (inbox_row packet receipt ∷ []))

  -- `receive(packet)`, at the time that the clock gives.
  unfoldable pub receive : Json → Text → List InboxRow → Result (ReviewReceipt × List InboxRow)
  receive value received_at rows = do
    packet ← validate_review_packet sha256 value
    receive_at (find (is_from packet) rows) packet received_at rows

  find-last :
      (p : InboxRow → Bool) (rows : List InboxRow) (r : InboxRow)
      → find p rows ≡ none
      → p r ≡ true
      → find p (rows ++ (r ∷ [])) ≡ some r
  unfolding find
  find-last p [] r h k = ground arith
  find-last p (x ∷ rows) r h k = ground (arith, find-last p rows r)

  value-packet_of : (value : Json) → (packet_of value).value ≡ value
  unfolding packet_of
  value-packet_of value = refl

  new_row-received :
      (value : Json) (received_at : Text)
      → is_packet sha256 value ≡ true
      → delivery_iso received_at ≡ true
      → is_received (inbox_row (packet_of value) (new_receipt (packet_of value) received_at)) ≡ true
  unfolding is_received inbox_row new_receipt validate_review_packet validate_review_receipt
      same_person accepted
  new_row-received value received_at valid iso = rw (
    value-packet_of value,
    valid,
    text_eq_refl (packet_of value).source_id,
    text_eq_refl (packet_of value).delivery_id,
    text_eq_refl (packet_of value).payload_digest,
    text_eq_refl (packet_of value).recipient.org_id,
    text_eq_refl (packet_of value).recipient.actor_id,
    iso,
  )

  validated :
      (value : Json) {packet : ReviewPacket}
      → validate_review_packet sha256 value ≡ ok packet
      → (is_packet sha256 value ≡ true) × (packet_of value ≡ packet)
  unfolding validate_review_packet
  validated value h =
      let (u, checked, rest) =
        >>=-eq-ok (require (is_packet sha256 value) (failure invalid_delivery_packet 400)) _ h in
      (ground arith, ok_eq rest)

  -- A row that was found is not changed.
  receive_at-some :
      (r : InboxRow) (packet : ReviewPacket) (first second : Text) (rows next : List InboxRow)
      (receipt : ReviewReceipt)
      → receive_at (some r) packet first rows ≡ ok (receipt, next)
      → (next ≡ rows) × (receive_at (some r) packet second rows ≡ ok (receipt, next))
  unfolding receive_at
  receive_at-some r packet first second rows next receipt h =
      let (u, e1, h1) =
        >>=-eq-ok
          (require (text_eq r.payload_digest packet.payload_digest)
            (failure delivery_id_conflict 409))
          _ h in
      let (held, e2, h2) = >>=-eq-ok (received r) _ h1 in
      (ap (λ (p : ReviewReceipt × List InboxRow). p.1) (sym (ok_eq h2)), h)

  receive_at-new :
      (value : Json) (first second : Text) (rows : List InboxRow)
      → is_packet sha256 value ≡ true
      → delivery_iso first ≡ true
      → let row = inbox_row (packet_of value) (new_receipt (packet_of value) first) in
        receive_at (some row) (packet_of value) second (rows ++ (row ∷ []))
        ≡ ok (new_receipt (packet_of value) first, rows ++ (row ∷ []))
  unfolding receive_at received inbox_row new_receipt text_eq
  receive_at-new value first second rows valid iso =
      rw (new_row-received value first valid iso, text_eq_refl (packet_of value).payload_digest)

  is_from-own :
      (packet : ReviewPacket) (receipt : ReviewReceipt)
      → is_from packet (inbox_row packet receipt) ≡ true
  unfolding is_from inbox_row
  is_from-own packet receipt = rw (text_eq_refl packet.source_id, text_eq_refl packet.delivery_id)

  receive-new :
      (value : Json) (packet : ReviewPacket) (first second : Text) (rows : List InboxRow)
      → validate_review_packet sha256 value ≡ ok packet
      → find (is_from packet) rows ≡ none
      → delivery_iso first ≡ true
      → receive value second (rows ++ (inbox_row packet (new_receipt packet first) ∷ []))
        ≡ ok (new_receipt packet first, rows ++ (inbox_row packet (new_receipt packet first) ∷ []))
  unfolding receive
  receive-new value packet first second rows valid absent iso =
      let (passed, same) = validated value valid in
      let row = inbox_row packet (new_receipt packet first) in
      rw
        (
          valid,
          find-last (is_from packet) rows row absent
              (is_from-own packet (new_receipt packet first)),
        )
        (subst
          (λ p.
            receive_at (some (inbox_row p (new_receipt p first))) p second
              (rows ++ (inbox_row p (new_receipt p first) ∷ []))
            ≡ ok (new_receipt p first, rows ++ (inbox_row p (new_receipt p first) ∷ [])))
          same (receive_at-new value first second rows passed iso))

  -- A packet that was received is received again without a change, and with the receipt of the first
  -- time, when the clock gives a time of the standard form.
  pub receive-receive :
      (value : Json) (first second : Text) (rows next : List InboxRow) (receipt : ReviewReceipt)
      → delivery_iso first ≡ true
      → receive value first rows ≡ ok (receipt, next)
      → receive value second next ≡ ok (receipt, next)
  unfolding receive receive_at
  receive-receive value first second rows next receipt iso h =
      let (packet, valid, h1) = >>=-eq-ok (validate_review_packet sha256 value) _ h in
      elim (Option-cases (find (is_from packet) rows)) [
        | inl absent ↦
            subst (λ (p : ReviewReceipt × List InboxRow). receive value second p.1 ≡ ok p)
              (ok_eq (rw absent at h1))
              (receive-new value packet first second rows valid absent iso)
        | inr (r, found) ↦
            let same = receive_at-some r packet first second rows next receipt (rw found at h1) in
            rw (valid, same.0, found) (same.1 ∙ rw same.0)
      ]
