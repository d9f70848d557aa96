-- ===== src/Ipc/Delivery/Handed.antt =====
-- What `Inbox` hands over.
use aurium.Base.{
  ◌≡◌, refl, ap, ◌∙◌, ℕ, zero, suc, ◌≤◌, Bool, true, false, not, ◌&&◌, some, List, [], ◌∷◌, Text,
  text_eq, any, map, select, take, length, sort_by, any-sort_by, length-sort_by, All-sort_by,
  All-take, All-select, All, arith, if◌then◌else◌, and_true,
}
use aurium.Db.{Result, ok, Faults, pure, raise, ◌>>=◌, ◌>>◌, query, modify, statement}
use aurium.Db.Rules.{Post, statement_rule, query_rule, bind_rule, Post-mono}
use aurium.Ipc.Table.{
  Status, queued, delivered, acked, status_eq, Addr, Message, message_delivered, Desk, IpcError,
  no_recipient, message_at, note, update,
}
use aurium.Ipc.Send.{has_recipient}
use aurium.Ipc.Delivery.{
  is_for, is_open, is_before, inbox, inbox_rows, or_20, deliver_row, hand_one, hand_each,
}
use aurium.Ipc.Letters.{Holds}

-- A message in hand: addressed to the reader, and delivered.
abbrev pub Handed : Addr → Message → Type 0
Handed a m = (is_for a m ≡ true) × (m.status ≡ delivered)

length-take : (n : ℕ) (ms : List Message) → length (take n ms) ≤ n
length-take zero ms = omega arith
length-take (suc n) [] = omega arith
length-take (suc n) (m ∷ ms) = omega (arith, length-take n ms)

module _ (a : Addr) (now : Text) (d : Desk) where
  abbrev pub Run : {A : Type 0} → (A → Desk → Type 0) → Result IpcError A × Desk × Faults → Type 0
  Run Q = Post Q (λ _ t. t ≡ d) (λ _. Unit {0})

  written : (f : Desk → Desk) (t : Desk) (fs : Faults) → Run (λ _ _. Unit {0}) (modify f t fs)
  written f t fs = statement_rule (λ _ _. Unit {0}) (λ _ t. t ≡ d) (λ _. Unit {0}) _ t fs tt tt

  open_status :
      (x : Status) → status_eq x queued ≡ false → not (status_eq x acked) ≡ true → x ≡ delivered
  unfolding status_eq
  open_status queued q h = cc
  open_status delivered q h = refl
  open_status acked q h = cc

  hand_one-Handed :
      (m : Message) (t : Desk) (fs : Faults)
      → (is_for a m && is_open m) ≡ true
      → Run (λ x _. Handed a x) (hand_one now m t fs)
  hand_one-Handed m t fs h = pick (status_eq m.status queued) refl
    where
      pick :
          (b : Bool)
          → status_eq m.status queued ≡ b
          → Run
              (λ x _. Handed a x)
              ((if b
                  then (update (deliver_row m.id now)
                      >> (note (message_delivered m.id)
                          >> pure (record m { status = delivered; delivered_at = now })))
                  else pure m)
                t fs)
      pick true e =
          bind_rule _ _ _ (λ _ _. Unit {0}) (update (deliver_row m.id now)) _ t fs (written _ t fs)
            (λ _ t fs _. ((and_true (is_for a m) (is_open m) h).0, refl))
      pick false e =
          let o = and_true (is_for a m) (is_open m) h in (o.0, open_status m.status e o.1)

  hand_each-Handed :
      (ms : List Message) (t : Desk) (fs : Faults)
      → All (λ m. (is_for a m && is_open m) ≡ true) ms
      → Run (λ xs _. (length xs ≡ length ms) × All (Handed a) xs) (hand_each now ms t fs)
  unfolding hand_each
  hand_each-Handed [] t fs h = (refl, tt)
  hand_each-Handed (m ∷ ms) t fs h =
      bind_rule _ _ _ (λ x _. Handed a x) (hand_one now m) _ t fs (hand_one-Handed m t fs h.0)
        (λ x t fs hx.
          bind_rule _ _ _ (λ xs _. (length xs ≡ length ms) × All (Handed a) xs) (hand_each now ms) _
            t fs (hand_each-Handed ms t fs h.1) (λ xs t fs hs. (ap suc hs.0, (hx, hs.1))))

  -- Whatever statements the database refuses: the messages that Inbox returns are no more than the limit
  -- (20 if none is given), each is addressed to the reader and marked delivered in the reader's hands;
  -- and when Inbox ends in an error of its own, no table was touched.
  pub inbox_lem :
      (limit : ℕ) (fs : Faults)
      → Run (λ ms _. (length ms ≤ or_20 limit) × All (Handed a) ms) (inbox now a limit d fs)
  unfolding inbox
  inbox_lem limit fs = pick (has_recipient a)
    where
      wanted : Message → Bool
      wanted m = is_for a m && is_open m

      rows : All (λ m. wanted m ≡ true) (inbox_rows a limit d)
      rows =
          All-take (λ m. wanted m ≡ true) (or_20 limit) _
            (All-sort_by is_before (λ m. wanted m ≡ true) _ (All-select wanted d.messages))

      Listed : List Message → Desk → Type 0
      Listed ms _ = (length ms ≤ or_20 limit) × All (λ m. wanted m ≡ true) ms

      pick :
          (b : Bool)
          → Run
              (λ ms _. (length ms ≤ or_20 limit) × All (Handed a) ms)
              ((if b then query (inbox_rows a limit) >>= hand_each now else raise no_recipient) d
                fs)
      pick true =
          bind_rule _ _ _ Listed (query (inbox_rows a limit)) (hand_each now) d fs
            (query_rule Listed (λ _ t. t ≡ d) (λ _. Unit {0}) (inbox_rows a limit) d fs tt
              (length-take (or_20 limit) _, rows))
            (λ ms t fs h.
              Post-mono (hand_each now ms t fs) (λ xs _ k. (omega (arith, h.0, k.0), k.1))
                (λ _ _ k. k) (λ _ k. k) (hand_each-Handed ms t fs h.1))
      pick false = refl

-- With nothing refused, each message is handed over as it was or with the clock.
abbrev given : Text → Message → Message
given now m =
    if status_eq m.status queued then record m { status = delivered; delivered_at = now } else m

hand_one_value :
    (now : Text) (m : Message) (d : Desk)
    → (t : Desk) × (hand_one now m d [] ≡ (ok (given now m), t, []))
unfolding statement
hand_one_value now m d = pick (status_eq m.status queued)
  where
    given_by : Bool → Message
    given_by b = if b then record m { status = delivered; delivered_at = now } else m

    pick :
        (b : Bool)
        → (t : Desk) × (((if b
                then (update (deliver_row m.id now)
                    >> (note (message_delivered m.id)
                        >> pure (record m { status = delivered; delivered_at = now })))
                else pure m)
              d [])
            ≡ (ok (given_by b), t, []))
    pick true = (_, refl)
    pick false = (_, refl)

hand_each_value :
    (now : Text) (ms : List Message) (d : Desk)
    → (t : Desk) × (hand_each now ms d [] ≡ (ok (map (given now) ms), t, []))
unfolding hand_each
hand_each_value now [] d = (d, refl)
hand_each_value now (m ∷ ms) d =
    let (s, e) = hand_one_value now m d in let (t, f) = hand_each_value now ms s in (t, simp (e, f))

any-given :
    (id now : Text) (ms : List Message)
    → any (λ (m : Message). text_eq id m.id) (map (given now) ms)
      ≡ any (λ (m : Message). text_eq id m.id) ms
any-given id now [] = refl
any-given id now (m ∷ ms) = ground (arith, any-given id now ms)

any-select :
    (id : Text) (p : Message → Bool) (ms : List Message) (m : Message)
    → message_at id ms ≡ some m
    → p m ≡ true
    → any (λ (x : Message). text_eq id x.id) (select p ms) ≡ true
any-select id p [] m e h = cc
any-select id p (x ∷ ms) m e h = ground (arith, any-select id p ms m)

zero_not : (n : ℕ) → ¬ (suc n ≤ 0)
zero_not n = omega arith

take-all : (n : ℕ) (ms : List Message) → length ms ≤ n → take n ms ≡ ms
take-all zero [] h = refl
take-all zero (m ∷ ms) h = elim (zero_not (length ms) h) [ ]
take-all (suc n) [] h = refl
take-all (suc n) (m ∷ ms) h = ap (λ (xs : List Message). m ∷ xs) (take-all n ms (omega arith))

inbox_value :
    (now : Text) (a : Addr) (limit : ℕ) (d t : Desk)
    → has_recipient a ≡ true
    → hand_each now (inbox_rows a limit d) d []
      ≡ (ok (map (given now) (inbox_rows a limit d)), t, [])
    → inbox now a limit d [] ≡ (ok (map (given now) (inbox_rows a limit d)), t, [])
unfolding inbox statement
inbox_value now a limit d t r e = simp (r, e)

-- A reader who is named, and the message that waits for it among no more than the limit: with nothing
-- refused, Inbox returns, and what it returns has the message of that id.
pub inbox-Handed :
    (id : Text) (l : Message) (now : Text) (a : Addr) (limit : ℕ) (d : Desk)
    → Holds id l d
    → is_for a l ≡ true
    → has_recipient a ≡ true
    → length (select (λ m. is_for a m && is_open m) d.messages) ≤ or_20 limit
    → (ms : List Message) × (t : Desk) × ((inbox now a limit d [] ≡ (ok ms, t, []))
        × (any (λ (m : Message). text_eq id m.id) ms ≡ true))
unfolding inbox
inbox-Handed id l now a limit d h f r n =
    let is_it = λ (m : Message). text_eq id m.id in
    let wanted = λ (m : Message). is_for a m && is_open m in
    let rows : List Message = select wanted d.messages in
    let (t, e) = hand_each_value now (inbox_rows a limit d) d in
    let fits : take (or_20 limit) (sort_by is_before rows) ≡ sort_by is_before rows =
      take-all (or_20 limit) (sort_by is_before rows)
        (omega (arith, n, length-sort_by is_before rows)) in
    let mine : is_for a h.row ≡ true = ap (is_for a) h.same ∙ f in
    (
      map (given now) (inbox_rows a limit d),
      t,
      (
        inbox_value now a limit d t r e,
        any-given id now (inbox_rows a limit d)
            ∙ ap (any is_it) fits
            ∙ any-sort_by is_before is_it rows
            ∙ any-select id wanted d.messages h.row h.found (simp (mine, h.unacked)),
      ),
    )
