-- ===== src/Ipc/Send/Posted.antt =====
-- What a message that `Send` accepts is, and what `Send` does to the others.
use aurium.Base.{
  ◌≡◌, refl, subst, arith, Bool, true, false, not, ◌&&◌, ◌||◌, [], ◌∷◌, ◌++◌, Text, text_eq,
  text_eq_refl, is_empty, any, if◌then◌else◌, ◌⊎◌, inl, inr,
}
use aurium.Db.{Result, ok, failed, Faults, pure, raise, ◌>>=◌, ◌>>◌, ignored, modify, statement}
use aurium.Db.Rules.{Post, Reply, statement_rule, bind_rule, Post-mono}
use aurium.Db.Keeps.{
  Keeps, bind-Keeps, modify-Keeps, ignored-Keeps, statement-Keeps, if-Keeps, if-state,
}
use aurium.Ipc.Table.{
  MessageType, request, response, information, warning, blocked, approval_required, artifact,
  dependency, conflict, other_type, status_eq, Message, message_sent, Desk, IpcError, no_type,
  no_content, no_recipient, no_priority, Priority, unset, normal, high, other_priority, queued,
  Action, note, update, nudge_row, hand_over,
}
use aurium.Ipc.Send.{
  is_type, is_blank, has_recipient, for_human, or_normal, is_priority, posted, insert_message,
  block_agent, block_task, side_effects, nudge, store_message, send,
}
use aurium.Ipc.Letters.{
  letter, message_at-append_new, Holds, append-Holds, other-Holds, note-Holds, nudged-Holds,
  hand_over-Holds,
}

module _ (id : Text) (l : Message) where
  abbrev Kept : {A : Type 0} → Action A → Type 0
  Kept = Keeps IpcError (Holds id l)

  guarded-Holds : (b : Bool) (m : Action (Unit {0})) → Kept m → Kept (if b then pure tt else m)
  guarded-Holds true m k d fs h = h
  guarded-Holds false m k d fs h = k d fs h

  other-Kept : (f : Desk → Desk) → ((d : Desk) → (f d).messages ≡ d.messages) → Kept (modify f)
  other-Kept f e = modify-Keeps IpcError (Holds id l) f (λ d h. other-Holds id l d (f d) (e d) h)

  side_effects-Holds : (art : Text) (t : MessageType) (m : Message) → Kept (side_effects art t m)
  side_effects-Holds art blocked m =
      bind-Keeps IpcError (Holds id l) (block_agent m.sender.agent_id) (λ _. block_task m.refs.task)
        (guarded-Holds (is_empty m.sender.agent_id) _
          (ignored-Keeps IpcError (Holds id l) _ (other-Kept _ (λ d. refl))))
        (λ _.
          guarded-Holds (is_empty m.refs.task) _
            (ignored-Keeps IpcError (Holds id l) _ (other-Kept _ (λ d. refl))))
  side_effects-Holds art artifact m =
      guarded-Holds (is_empty m.refs.artifact && is_empty m.refs.branch) _
        (other-Kept _ (λ d. refl))
  side_effects-Holds art dependency m =
      guarded-Holds
        (is_empty m.sender.agent_id || (is_empty m.to.agent_id || is_empty m.refs.context_key)) _
        (other-Kept _ (λ d. refl))
  side_effects-Holds art request m = λ d fs h. h
  side_effects-Holds art response m = λ d fs h. h
  side_effects-Holds art information m = λ d fs h. h
  side_effects-Holds art warning m = λ d fs h. h
  side_effects-Holds art approval_required m = λ d fs h. h
  side_effects-Holds art conflict m = λ d fs h. h
  side_effects-Holds art (other_type t) m = λ d fs h. h

  nudge-Holds : (now : Text) (m : Message) → Kept (nudge now m)
  nudge-Holds now m = guarded-Holds (is_empty m.to.container_id) _ (
      bind-Keeps IpcError (Holds id l) (hand_over m.to.container_id _)
        (λ _. ignored (update (nudge_row m.id now))) (hand_over-Holds id l m.to.container_id _)
        (λ _.
          ignored-Keeps IpcError (Holds id l) (update (nudge_row m.id now))
            (nudged-Holds id l m.id now)))

  -- What `Send` does once the row is there.
  abbrev tail : Text → Text → Message → Action Message
  tail art now m = do side_effects art m.type_ m; note (message_sent m.id); nudge now m; pure m

  tail-Holds : (art now : Text) (m : Message) → Kept (tail art now m)
  tail-Holds art now m =
      bind-Keeps IpcError (Holds id l) (side_effects art m.type_ m)
        (λ _. note (message_sent m.id) >> (nudge now m >> pure m))
        (side_effects-Holds art m.type_ m)
        (λ _.
          bind-Keeps IpcError (Holds id l) (note (message_sent m.id)) (λ _. nudge now m >> pure m)
            (note-Holds id l (message_sent m.id))
            (λ _.
              bind-Keeps IpcError (Holds id l) (nudge now m) (λ _. pure m) (nudge-Holds now m)
                (λ _ d fs h. h)))

  insert_message-Holds : (m : Message) (d : Desk) → Holds id l d → Holds id l (insert_message m d).1
  insert_message-Holds m d h =
      if-state IpcError (Holds id l) _ (failed, d) _ h (append-Holds id l m d h)

  store_message-Holds : (art now : Text) (m : Message) → Kept (store_message art now m)
  unfolding store_message
  store_message-Holds art now m =
      bind-Keeps IpcError (Holds id l) (statement (insert_message m)) (λ _. tail art now m)
        (statement-Keeps IpcError (Holds id l) (insert_message m) (insert_message-Holds m))
        (λ _. tail-Holds art now m)

  -- Nothing that `Send` does loses a message that was there.
  pub send-Keeps : (new art now : Text) (m : Message) → Kept (send new art now m)
  unfolding send
  send-Keeps new art now m =
      if-Keeps IpcError (Holds id l) (not (is_type m.type_)) _ _ (λ d fs h. h)
        (if-Keeps IpcError (Holds id l) (is_blank m.content) _ _ (λ d fs h. h)
          (if-Keeps IpcError (Holds id l) (not (has_recipient m.to)) _ _ (λ d fs h. h)
            (if-Keeps IpcError (Holds id l) (not (is_priority (or_normal m.priority))) _ _
              (λ d fs h. h) (store_message-Holds art now (posted new now m)))))

-- Whether a message of this type reaches a human, when its sender did or did not ask for it.
abbrev pub reaches_human : MessageType → Bool → Bool
reaches_human approval_required asked = true
reaches_human blocked asked = true
reaches_human _ asked = asked

-- The priority that a message is stored with: the empty one is the normal one.
abbrev pub stored_priority : Priority → Priority
stored_priority unset = normal
stored_priority normal = normal
stored_priority high = high
stored_priority (other_priority t) = other_priority t

-- The message that is to be stored, field by field.
abbrev pub accepted : Text → Text → Message → Message
accepted new now m = record {
  id = new;
  ts = now;
  project_id = m.project_id;
  sender = m.sender;
  to = record {
    agent_id = m.to.agent_id;
    container_id = m.to.container_id;
    is_human = reaches_human m.type_ m.to.is_human;
  };
  type_ = m.type_;
  priority = stored_priority m.priority;
  content = m.content;
  refs = m.refs;
  in_reply_to = m.in_reply_to;
  status = queued;
  delivered_at = [];
  acked_at = [];
  nudged_at = [];
}

for_human-reaches : (t : MessageType) (b : Bool) → (b || for_human t) ≡ reaches_human t b
for_human-reaches t b = ground arith

or_normal-stored : (p : Priority) → or_normal p ≡ stored_priority p
or_normal-stored unset = refl
or_normal-stored normal = refl
or_normal-stored high = refl
or_normal-stored (other_priority t) = refl

posted-accepted : (new now : Text) (m : Message) → posted new now m ≡ accepted new now m
posted-accepted new now m =
    rw (for_human-reaches m.type_ m.to.is_human, or_normal-stored m.priority) refl

-- What a run of `Send` may end in, with the message as it is stored.
abbrev pub Stores : Text → Message → Desk → Result IpcError Message × Desk × Faults → Type 0
Stores new p s =
    Post (λ r t. (r ≡ p) × Holds new (letter p) t) (λ _ t. (t ≡ s) ⊎ Holds new (letter p) t)
      (λ t. (t ≡ s) ⊎ Holds new (letter p) t)

abbrev pub Sent :
    (new now : Text) (m : Message) (s : Desk) → Result IpcError Message × Desk × Faults → Type 0
Sent new now m s = Stores new (accepted new now m) s

module _ (new art now : Text) (m : Message) (s : Desk) where
  abbrev p : Message
  p = posted new now m

  abbrev There : Desk → Type 0
  There = Holds new (letter p)

  abbrev Ends : {A : Type 0} (Q : A → Desk → Type 0) → Result IpcError A × Desk × Faults → Type 0
  Ends Q = Post Q (λ _ t. (t ≡ s) ⊎ There t) (λ t. (t ≡ s) ⊎ There t)

  fresh_Reply :
      (b c : Bool) (t : Desk)
      → (b ≡ false → There t)
      → Reply {E = IpcError} {A = Unit {0}}
          (λ _ t. There t)
          (λ _ t. (t ≡ s) ⊎ There t)
          (λ t. (t ≡ s) ⊎ There t)
          (if b || c then (failed, s) else (ok tt, t))
  fresh_Reply true c t h = inl refl
  fresh_Reply false true t h = inl refl
  fresh_Reply false false t h = h refl

  there :
      any (λ (x : Message). text_eq new x.id) s.messages ≡ false
      → There (record s { messages = s.messages ++ p ∷ [] })
  unfolding status_eq
  there e = record {
    row = p;
    found = message_at-append_new new s.messages p e (text_eq_refl new);
    same = refl;
    unacked = refl;
  }

  abbrev Done : Message → Desk → Type 0
  Done r t = (r ≡ p) × There t

  kept :
      {A : Type 0} (x : Action A)
      → Kept new (letter p) x
      → (t : Desk) (fs : Faults) → There t
      → Ends (λ _ t. There t) (x t fs)
  kept x k t fs h = Post-mono (x t fs) (λ _ _ h. h) (λ _ _ h. inr h) (λ _ h. inr h) (k t fs h)

  bind_Ends :
      {A B : Type 0} (Q : B → Desk → Type 0) (x : Action A) (f : A → Action B)
      → ((t : Desk) (fs : Faults) → There t → Ends (λ _ t. There t) (x t fs))
      → ((a : A) (t : Desk) (fs : Faults) → There t → Ends Q (f a t fs))
      → (t : Desk) (fs : Faults) → There t
      → Ends Q ((x >>= f) t fs)
  bind_Ends Q x f hx hf t fs h =
      bind_rule Q (λ _ t. (t ≡ s) ⊎ There t) (λ t. (t ≡ s) ⊎ There t) (λ _ t. There t) x f t fs
        (hx t fs h) hf

  tail-Done : (t : Desk) (fs : Faults) → There t → Ends Done (tail new (letter p) art now p t fs)
  tail-Done =
      bind_Ends Done (side_effects art p.type_ p)
        (λ _. note (message_sent new) >> (nudge now p >> pure p))
        (kept (side_effects art p.type_ p) (side_effects-Holds new (letter p) art p.type_ p))
        (λ _.
          bind_Ends Done (note (message_sent new)) (λ _. nudge now p >> pure p)
            (kept (note (message_sent new)) (note-Holds new (letter p) (message_sent new)))
            (λ _.
              bind_Ends Done (nudge now p) (λ _. pure p)
                (kept (nudge now p) (nudge-Holds new (letter p) now p)) (λ _ t fs h. (refl, h))))

  store_message-Done : (fs : Faults) → Ends Done (store_message art now p s fs)
  unfolding store_message
  store_message-Done fs =
      bind_rule Done (λ _ t. (t ≡ s) ⊎ There t) (λ t. (t ≡ s) ⊎ There t) (λ _ t. There t)
        (statement (insert_message p)) (λ _. tail new (letter p) art now p) s fs
        (statement_rule (λ _ t. There t) (λ _ t. (t ≡ s) ⊎ There t) (λ t. (t ≡ s) ⊎ There t)
          (insert_message p) s fs (inl refl)
          (fresh_Reply (any (λ (x : Message). text_eq new x.id) s.messages) _ _ there))
        (λ _ t fs. tail-Done t fs)

  if_Ends :
      (b : Bool) (e : IpcError) (x : Action Message) (fs : Faults)
      → Ends Done (x s fs)
      → Ends Done ((if b then raise e else x) s fs)
  if_Ends true e x fs h = inl refl
  if_Ends false e x fs h = h

  send-Stores : (fs : Faults) → Stores new p s (send new art now m s fs)
  unfolding send
  send-Stores fs = if_Ends (not (is_type m.type_)) no_type _ fs (
      if_Ends (is_blank m.content) no_content _ fs (
        if_Ends (not (has_recipient m.to)) no_recipient _ fs (
          if_Ends (not (is_priority (or_normal m.priority))) no_priority _ fs
            (store_message-Done fs))))

  pub send_lem : (fs : Faults) → Sent new now m s (send new art now m s fs)
  send_lem fs =
      subst (λ q. Stores new q s (send new art now m s fs)) (posted-accepted new now m)
        (send-Stores fs)
