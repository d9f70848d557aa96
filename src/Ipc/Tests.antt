-- ===== src/Ipc/Tests.antt =====
-- Messages on a small desk.
use aurium.Base.{
  ◌≡◌, refl, true, false, [], ◌∷◌, codes, text_eq, arith, List, length, any, All, ◌≤◌,
}
use aurium.Db.{ok}
use aurium.Ipc.Table.{request, unset, queued, Addr, Refs, Message, Desk, status_eq}
use aurium.Ipc.Send.{posted}
use aurium.Ipc.Delivery.{inbox, or_20}
use aurium.Ipc.Delivery.Outstanding.{sends, reads, acknowledges, run_all, run_all-Holds}
use aurium.Ipc.Delivery.Handed.{Run, Handed, inbox_lem, inbox-Handed}
use aurium.Ipc.Letters.{Holds}

abbrev ann : Addr
ann = record { agent_id = codes "ann"; container_id = []; is_human = false }

abbrev bob : Addr
bob = record { agent_id = codes "bob"; container_id = codes "box"; is_human = false }

abbrev no_refs : Refs
no_refs = record { task = []; artifact = []; context_key = []; branch = []; files = [] }

abbrev question : Message
question = record {
  id = [];
  ts = [];
  project_id = codes "p";
  sender = ann;
  to = bob;
  type_ = request;
  priority = unset;
  content = codes "why?";
  refs = no_refs;
  in_reply_to = [];
  status = queued;
  delivered_at = [];
  acked_at = [];
  nudged_at = [];
}

abbrev asked : Message
asked = posted (codes "m1") (codes "1") question

abbrev bare_desk : Desk
bare_desk = record {
  projects = codes "p" ∷ [];
  messages = [];
  agents = [];
  tasks = [];
  artifacts = [];
  dependencies = [];
  notes = [];
  nudges = [];
}

abbrev desk : Desk
desk = record bare_desk { messages = asked ∷ [] }

asked-Holds : Holds (codes "m1") asked desk
unfolding status_eq text_eq
asked-Holds = record { row = asked; found = refl; same = refl; unacked = refl }

run_all-Holds_example : Holds (codes "m1") asked (
    run_all
      (reads (codes "2") bob 0
        ∷ acknowledges (codes "3") (codes "m2" ∷ [])
        ∷ sends (codes "m3") [] (codes "4") question
        ∷ [])
      desk
      (false ∷ false ∷ true ∷ []))
unfolding text_eq
run_all-Holds_example =
    run_all-Holds (codes "m1") asked
      (reads (codes "2") bob 0
        ∷ acknowledges (codes "3") (codes "m2" ∷ [])
        ∷ sends (codes "m3") [] (codes "4") question
        ∷ [])
      desk (false ∷ false ∷ true ∷ []) (refl, (refl, (refl, tt))) asked-Holds

inbox_lem_example :
    Run bob
      (codes "2")
      desk
      (λ ms _. (length ms ≤ or_20 0) × All (Handed bob) ms)
      (inbox (codes "2") bob 0 desk (false ∷ true ∷ []))
inbox_lem_example = inbox_lem bob (codes "2") desk 0 (false ∷ true ∷ [])

inbox-Handed_example :
    (ms : List Message) × (t : Desk) × ((inbox (codes "2") bob 3 desk [] ≡ (ok ms, t, []))
      × (any (λ (m : Message). text_eq (codes "m1") m.id) ms ≡ true))
unfolding text_eq status_eq or_20
inbox-Handed_example =
    inbox-Handed (codes "m1") asked (codes "2") bob 3 desk asked-Holds refl refl (omega arith)
