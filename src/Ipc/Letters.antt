-- ===== src/Ipc/Letters.antt =====
-- A message in the table that is still to be acknowledged, apart from what delivery writes on it.
use aurium.Base.{
  ◌≡◌, refl, ap, ◌∙◌, Bool, true, false, not, some, List, [], ◌∷◌, ◌++◌, Text, text_eq, any, map,
  arith,
}
use aurium.Db.Keeps.{Keeps, modify-Keeps, ignored-Keeps}
use aurium.Ipc.Table.{
  queued, acked, status_eq, Message, Note, Desk, IpcError, message_at, note, update, nudge_row,
  hand_over,
}

abbrev pub letter : Message → Message
letter m = record m { status = queued; delivered_at = []; acked_at = []; nudged_at = [] }

abbrev pub is_unacked : Message → Bool
is_unacked m = not (status_eq m.status acked)

found_id :
    (id : Text) (ms : List Message) (m : Message)
    → message_at id ms ≡ some m
    → text_eq id m.id ≡ true
found_id id [] m e = cc
found_id id (x ∷ ms) m e = ground (arith, found_id id ms m)

message_at-append :
    (id : Text) (ms xs : List Message) (m : Message)
    → message_at id ms ≡ some m
    → message_at id (ms ++ xs) ≡ some m
message_at-append id [] xs m e = cc
message_at-append id (x ∷ ms) xs m e = ground (arith, message_at-append id ms xs m)

pub message_at-append_new :
    (id : Text) (ms : List Message) (m : Message)
    → any (λ (x : Message). text_eq id x.id) ms ≡ false
    → text_eq id m.id ≡ true
    → message_at id (ms ++ m ∷ []) ≡ some m
message_at-append_new id [] m f e = ground arith
message_at-append_new id (x ∷ ms) m f e = ground (arith, message_at-append_new id ms m)

module _ (f : Message → Message) (same : (m : Message) → letter (f m) ≡ letter m) where
  message_at-map :
      (id : Text) (ms : List Message) (m : Message)
      → message_at id ms ≡ some m
      → message_at id (map f ms) ≡ some (f m)
  message_at-map id [] m e = cc
  message_at-map id (x ∷ ms) m e =
      let id_same : (f x).id ≡ x.id = ap (λ (y : Message). y.id) (same x) in
      ground (arith, message_at-map id ms m)

-- The message `l`, under its id, is in the table and not acknowledged.
pub record Holds (id : Text) (l : Message) (d : Desk) : Type 0 where
  pub row : Message
  pub found : message_at id d.messages ≡ some row
  pub same : letter row ≡ l
  pub unacked : is_unacked row ≡ true

pub deliver_status : (m : Message) → status_eq m.status queued ≡ true → is_unacked m ≡ true
unfolding status_eq
deliver_status m h = ground arith

module _ (id : Text) (l : Message) where
  pub update-Holds :
      (f : Message → Message)
      → ((m : Message) → letter (f m) ≡ letter m)
      → ((m : Message) → text_eq id m.id ≡ true → is_unacked m ≡ true → is_unacked (f m) ≡ true)
      → (d : Desk) → Holds id l d
      → Holds id l (record d { messages = map f d.messages })
  update-Holds f same kept d h = record {
    row = f h.row;
    found = message_at-map f same id d.messages h.row h.found;
    same = same h.row ∙ h.same;
    unacked = kept h.row (found_id id d.messages h.row h.found) h.unacked;
  }

  pub append-Holds :
      (m : Message) (d : Desk)
      → Holds id l d
      → Holds id l (record d { messages = d.messages ++ m ∷ [] })
  append-Holds m d h = record {
    row = h.row;
    found = message_at-append id d.messages (m ∷ []) h.row h.found;
    same = h.same;
    unacked = h.unacked;
  }

  -- What does not touch the messages.
  pub other-Holds : (d t : Desk) → t.messages ≡ d.messages → Holds id l d → Holds id l t
  other-Holds d t e h = record {
    row = h.row;
    found = ap (message_at id) e ∙ h.found;
    same = h.same;
    unacked = h.unacked;
  }

  pub note-Holds : (n : Note) → Keeps IpcError (Holds id l) (note n)
  note-Holds n =
      ignored-Keeps IpcError (Holds id l) _
        (modify-Keeps IpcError (Holds id l) _ (λ d h. other-Holds d _ refl h))

  nudge_row-open :
      (i now : Text) (m : Message) → is_unacked m ≡ true → is_unacked (nudge_row i now m) ≡ true
  nudge_row-open i now m h = ground arith

  pub nudge_row-letter : (i now : Text) (m : Message) → letter (nudge_row i now m) ≡ letter m
  nudge_row-letter i now m = ground arith

  pub nudged-Holds : (i now : Text) → Keeps IpcError (Holds id l) (update (nudge_row i now))
  nudged-Holds i now =
      modify-Keeps IpcError (Holds id l) _ (
        update-Holds (nudge_row i now) (nudge_row-letter i now) (λ m _ h. nudge_row-open i now m h))

  pub hand_over-Holds : (c t : Text) → Keeps IpcError (Holds id l) (hand_over c t)
  hand_over-Holds c t d fs h = other-Holds d _ refl h
