-- ===== src/Gateway/Calls/Hidden.antt =====
-- Which calls are answered as calls of a tool that does not exist.
use aurium.Base.{
  ◌≡◌, refl, ap, ◌∙◌, Bool, true, false, Option, none, some, List, [], ◌∷◌, Text, codes, text_eq,
  any, select, if◌then◌else◌,
}
use aurium.Db.{Result, ok, Faults, Sql, statement}
use aurium.Gateway.Grants.{
  Mode, allow, deny, approve, Level, Grants, at_level, match_from, found_or, resolve_levels, levels,
  resolve,
}
use aurium.Gateway.Grants.Strictest.{
  is_mode, mode_of, mode_or, strictest, match_from-strictest, verdict,
}
use aurium.Gateway.Registry.{Integration, named}
use aurium.Gateway.Approvals.{Approval, Message}
use aurium.Gateway.Hub.{Caller, Hub, Step}
use aurium.Gateway.Calls.{
  Answer, unknown_tool, not_connected, cut, has_prefix, answer_of, execute, run_call, held, by_mode,
  by_integration, by_parts, call_tool,
}

found_or_value :
    (found : Option (Mode × Text)) (o : Option Mode) (m : Mode) (gs : Grants)
    (next : Sql Text Grants Mode)
    → mode_of found ≡ o
    → next gs [] ≡ (ok m, gs, [])
    → found_or found next gs [] ≡ (ok (mode_or o m), gs, [])
found_or_value none o m gs next e h = h ∙ ap (λ (o : Option Mode). (ok (mode_or o m), gs, [])) e
found_or_value (some (a, g)) o m gs next e h =
    ap (λ (o : Option Mode). (ok (mode_or o m), gs, [])) e

pub resolve_levels_value :
    (i c : Text) (gs : Grants) (ls : List (Level × Text))
    → resolve_levels i c ls gs [] ≡ (ok (verdict i c gs ls), gs, [])
unfolding resolve_levels statement
resolve_levels_value i c gs [] = refl
resolve_levels_value i c gs ((level, []) ∷ rest) = resolve_levels_value i c gs rest
resolve_levels_value i c gs ((level, x ∷ subject) ∷ rest) =
    let rows = select (at_level i level (x ∷ subject)) gs in
    found_or_value (match_from c none rows) (strictest c rows) (verdict i c gs rest) gs
      (resolve_levels i c rest) (match_from-strictest c rows) (resolve_levels_value i c gs rest)

-- The verdict for a tool's name; a deny where the name has no "_" or names no integration.
abbrev pub row_verdict : {W M : Type 0} → Hub W M → Caller → Text → Option Integration → Mode
row_verdict h c capability none = deny
row_verdict h c capability (some i) = verdict i.id capability h.grants (levels c.subject)

abbrev pub parts_verdict : {W M : Type 0} → Hub W M → Caller → Option (Text × Text) → Mode
parts_verdict h c none = deny
parts_verdict h c (some (i, capability)) =
    row_verdict h c capability (named c.subject.project_id i h.registry)

abbrev pub is_unknown : Result Text Answer → Bool
is_unknown (ok (unknown_tool _)) = true
is_unknown _ = false

module _ {W M : Type 0} (call : Text → Text → Text → W → (Bool × Text) × W)
    (send : Message → M → Option Text × M) (digest : Text → Text)
    (native : Caller → Text → Text → Step W M Answer) (id now expires : Text) (c : Caller)
    (name args : Text) (h : Hub W M) where
  -- The answer is that of a tool that does not exist exactly for a deny, and then nothing changed.
  abbrev pub Says : Mode → Result Text Answer × Hub W M × Faults → Type 0
  Says m r =
      (is_unknown r.0 ≡ is_mode deny m)
      × (is_mode deny m ≡ true → r ≡ (ok (unknown_tool name), h, []))

  answer-Says :
      (capability : Text) (r : Bool × Text)
      → is_unknown (ok (answer_of call send digest native capability r)) ≡ false
  answer-Says capability (true, t) = refl
  answer-Says capability (false, t) = refl

  held-Says :
      (o : Option Approval) (t : Hub W M) (fs : Faults)
      → is_unknown (held call send digest native o t fs).0 ≡ false
  held-Says none t fs = refl
  held-Says (some a) t fs = refl

  execute-Says :
      (i : Integration) (capability : Text)
      → is_unknown (execute call send digest native c i capability args h []).0 ≡ false
  execute-Says i capability = pick (any (text_eq i.id) h.gate.upstreams)
    where
      pick :
          (b : Bool)
          → is_unknown
              (if b
                then run_call call send digest native c i capability args h []
                else (ok (not_connected i.name), h, [])).0
            ≡ false
      pick true = answer-Says capability (call i.id capability args h.gate.world).0
      pick false = refl

  by_mode-Says :
      (i : Integration) (capability : Text) (m : Mode)
      → Says m
          (by_mode call send digest native id now expires c name i capability args (some m) h [])
  by_mode-Says i capability deny = (refl, λ e. refl)
  by_mode-Says i capability allow = (execute-Says i capability, λ e. cc)
  by_mode-Says i capability approve = (held-Says _ _ _, λ e. cc)

  row-Says :
      (capability : Text) (o : Option Integration)
      → Says (row_verdict h c capability o) (
          by_integration call send digest native id now expires c name capability args
            (some o)
            h
            [])
  unfolding resolve
  row-Says capability none = (refl, λ e. refl)
  row-Says capability (some i) =
      rw (resolve_levels_value i.id capability h.grants (levels c.subject))
        (by_mode-Says i capability (verdict i.id capability h.grants (levels c.subject)))

  parts-Says :
      (o : Option (Text × Text))
      → Says
          (parts_verdict h c o)
          (by_parts call send digest native id now expires c name args o h [])
  unfolding statement
  parts-Says none = (refl, λ e. refl)
  parts-Says (some (i, capability)) = row-Says capability (named c.subject.project_id i h.registry)

  -- With no statement refused, a call of a tool that is not native is answered with the error for a
  -- tool that does not exist exactly when the name has no "_", or its part before the first "_" names
  -- no integration of the caller's project, or the verdict of the caller's grants is deny; and in each
  -- of these cases the answer holds nothing but the name that was called, and nothing has changed.
  pub call_tool-unknown :
      has_prefix (codes "aurium_") name ≡ false
      → Says
          (parts_verdict h c (cut name))
          (call_tool call send digest native id now expires c name args h [])
  unfolding call_tool
  call_tool-unknown n = pick (has_prefix (codes "aurium_") name) n
    where
      pick :
          (b : Bool)
          → b ≡ false
          → Says (parts_verdict h c (cut name)) (
              (if b
                  then native c name args
                  else by_parts call send digest native id now expires c name args (cut name))
                h [])
      pick true n = cc
      pick false n = parts-Says (cut name)
