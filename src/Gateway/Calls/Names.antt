-- ===== src/Gateway/Calls/Names.antt =====
-- The names of tools: `ToolsFor` joins them and `CallTool` cuts them.
use aurium.Base.{
  ◌≡◌, refl, Bool, true, false, Option, some, [], ◌∷◌, ◌++◌, Text, codes, text_eq, any, arith, ◌==◌,
}
use aurium.Db.{Result, ok, Faults, statement}
use aurium.Gateway.Approvals.{Message, underscore}
use aurium.Gateway.Grants.{allow, levels}
use aurium.Gateway.Grants.Strictest.{verdict}
use aurium.Gateway.Registry.{Integration, Capability, named}
use aurium.Gateway.Hub.{Caller, Hub, Step}
use aurium.Gateway.Offers.{tool_name}
use aurium.Gateway.Calls.{Answer, cut, has_prefix, answer_of, call_tool}
use aurium.Gateway.Calls.Hidden.{resolve_levels_value}

cut-join :
    (name c : Text)
    → any (λ x. x == underscore) name ≡ false
    → cut (name ++ underscore ∷ c) ≡ some (name, c)
unfolding cut
cut-join [] c h = refl
cut-join (x ∷ name) c h = ground (arith, cut-join name c)

abbrev pub HasNoUnderscore : Text → Type 0
HasNoUnderscore s = any (λ x. x == underscore) s ≡ false

-- Two names without a "_" that differ, each with a "_" behind it: the one does not begin the other.
prefix-other :
    (p name c : Text)
    → HasNoUnderscore p
    → HasNoUnderscore name
    → text_eq p name ≡ false
    → has_prefix (p ++ underscore ∷ []) (name ++ underscore ∷ c) ≡ false
unfolding has_prefix text_eq
prefix-other [] [] c h k e = cc
prefix-other [] (x ∷ name) c h k e = ground arith
prefix-other (y ∷ p) [] c h k e = ground arith
prefix-other (y ∷ p) (x ∷ name) c h k e = ground (arith, prefix-other p name c)

module _ {W M : Type 0} (call : Text → Text → Text → W → (Bool × Text) × W)
    (send : Message → M → Option Text × M) (digest : Text → Text)
    (native : Caller → Text → Text → Step W M Answer) (id now expires : Text) (c : Caller)
    (args : Text) (h : Hub W M) where
  -- What a call ended in: this answer, and this state of the upstreams.
  abbrev pub Ran : Text → (Bool × Text) × W → Result Text Answer × Hub W M × Faults → Type 0
  Ran capability r o =
      (o.0 ≡ ok (answer_of call send digest native capability r.0)) × (o.1.gate.world ≡ r.1)

  -- With nothing refused, a call under the name that ToolsFor gives to a capability of an integration
  -- reaches that integration's upstream, with that capability and the arguments, once: the answer is
  -- the upstream's. The conditions: the integration's name has no "_" and is not "aurium", it is the
  -- row of its name in the caller's project, the verdict of the grants is allow, and the upstream is
  -- connected.
  pub call_tool-tool_name :
      (i : Integration) (capability : Capability)
      → HasNoUnderscore i.name
      → text_eq (codes "aurium") i.name ≡ false
      → named c.subject.project_id i.name h.registry ≡ some i
      → verdict i.id capability.name h.grants (levels c.subject) ≡ allow
      → any (text_eq i.id) h.gate.upstreams ≡ true
      → Ran capability.name
          (call i.id capability.name args h.gate.world)
          (call_tool call send digest native id now expires c (tool_name i capability) args h [])
  unfolding call_tool statement
  call_tool-tool_name i capability plain other row allowed connected =
      rw
        (
          prefix-other (codes "aurium") i.name capability.name refl plain other,
          cut-join i.name capability.name plain,
        )
        (rw row (
          rw (resolve_levels_value i.id capability.name h.grants (levels c.subject))
            (rw (allowed, connected) (refl, refl))))
