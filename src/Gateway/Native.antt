-- ===== src/Gateway/Native.antt =====
-- internal/gateway/native.go: the native tools that read and write shared context.
--
-- What a tool tells the other agents, `NotifyContextChange` and `Send`, is a parameter, as is
-- `fmt.Sscanf` of a number; the sentences of errors are left out. A number is a natural number.
pub mod Permitted
use aurium.Base.{
  ℕ, Bool, true, false, Option, none, some, List, [], ◌∷◌, ◌++◌, Text, codes, text_eq, is_empty,
  if◌then◌else◌,
}
use aurium.Db.{Result, ok, failed, err, Faults, Sql, pure, ◌>>=◌, ◌>>◌, answered}
use aurium.Context.Store.{
  Scope, project, container, agent, Ref, Item, Proposal, Store, Perm, read, append, write,
  ContextError, stale,
}
use aurium.Context.Store
use aurium.Context.Proposals.{propose}
use aurium.Context.Engine.{get, write_item, append_item}
use aurium.Context.Grants.{Subject, Access, require}

-- A value of the arguments: elements of a list that are no texts are none.
pub data Value : Type 0 where
  text_value : Text → Value
  number_value : ℕ → Value
  flag_value : Bool → Value
  list_value : List (Option Text) → Value

abbrev pub Args : Type 0
Args = List (Text × Value)

abbrev pub value_of : Args → Text → Option Value
value_of [] key = none
value_of ((k, v) ∷ rest) key = if text_eq k key then some v else value_of rest key

abbrev pub as_text : Option Value → Text
as_text (some (text_value t)) = t
as_text _ = []

-- `argStr`
abbrev pub arg_str : Args → Text → Text
arg_str args key = as_text (value_of args key)

abbrev pub or_default : ℕ → Option ℕ → ℕ
or_default d none = d
or_default d (some n) = n

-- `argInt`
abbrev pub as_number : (Text → Option ℕ) → ℕ → Option Value → ℕ
as_number scan d (some (number_value n)) = n
as_number scan d (some (text_value t)) = or_default d (scan t)
as_number scan d _ = d

abbrev pub arg_int : (Text → Option ℕ) → Args → Text → ℕ → ℕ
arg_int scan args key d = as_number scan d (value_of args key)

-- `argBool`
abbrev pub as_flag : Option Value → Bool
as_flag (some (flag_value b)) = b
as_flag (some (text_value t)) = text_eq t (codes "true")
as_flag _ = false

abbrev pub arg_bool : Args → Text → Bool
arg_bool args key = as_flag (value_of args key)

-- `argStrings`
abbrev pub texts_in : List (Option Text) → List Text
texts_in [] = []
texts_in (none ∷ vs) = texts_in vs
texts_in (some t ∷ vs) = t ∷ texts_in vs

abbrev pub as_texts : Option Value → List Text
as_texts (some (list_value vs)) = texts_in vs
as_texts (some (text_value t)) = t ∷ []
as_texts _ = []

abbrev pub arg_strings : Args → Text → List Text
arg_strings args key = as_texts (value_of args key)

-- `scopeFor`
abbrev pub scope_named : Subject → Text → Scope × Text
scope_named c t =
    if text_eq t (codes "project")
    then (project, c.project_id)
    else if text_eq t (codes "agent")
    then (agent, c.agent_id)
    else (container, c.container_id)

abbrev pub or_scope : Text → Text → Text
or_scope [] d = d
or_scope (x ∷ s) d = x ∷ s

unfoldable pub scope_for : Subject → Args → Text → Scope × Text
scope_for c args d = scope_named c (or_scope (arg_str args (codes "scope")) d)

-- `refFor`
unfoldable pub ref_for : Subject → Args → Text → Ref
unfolding scope_for
ref_for c args d =
    let s = scope_for c args d in
    record { scope = s.0; scope_id = s.1; key = arg_str args (codes "key") }

-- `callerActor` of gateway.go; the two texts are those of internal/events.
abbrev pub caller_actor : Subject → Text
caller_actor c =
    if c.is_human
    then codes "human"
    else if is_empty c.agent_id
    then codes "daemon"
    else codes "agent:" ++ c.agent_id

-- What the tools touch; `N` is where messages go.
pub record Shared (N : Type 0) : Type 0 where
  pub store : Store
  pub access : Access
  pub mail : N

-- The results of the tools.
pub data NativeAnswer : Type 0 where
  got : Item → NativeAnswer
  changed : Text → ℕ → NativeAnswer
  stale_now : ℕ → Text → NativeAnswer
  proposed : Proposal → NativeAnswer
  refused : NativeAnswer

abbrev pub Tool : Type 0 → Type 0
Tool N = Sql ContextError (Shared N) NativeAnswer

-- The reference of the second look of aurium_context_get.
abbrev pub project_ref : Subject → Ref → Ref
project_ref c r = record r { scope = project; scope_id = c.project_id }

module _ {N : Type 0} where
  abbrev pub on_store :
      {A : Type 0} → Sql ContextError Store A → Sql ContextError (Shared N) (Result ContextError A)
  on_store = answered (λ (d : Shared N). d.store) (λ s d. record d { store = s })

  abbrev pub on_access :
      {A : Type 0} → Sql ContextError Access A → Sql ContextError (Shared N) (Result ContextError A)
  on_access = answered (λ (d : Shared N). d.access) (λ a d. record d { access = a })

  -- What follows `Require`: any error of it is the answer.
  abbrev pub if_permitted : Tool N → Result ContextError (Unit {0}) → Tool N
  if_permitted m (ok _) = m
  if_permitted m _ = pure refused

  -- aurium_context_get: the item, or else that of the project's scope under the same key.
  abbrev pub or_refused : Result ContextError Item → Tool N
  or_refused (ok it) = pure (got it)
  or_refused _ = pure refused

  abbrev pub or_project : Subject → Ref → Result ContextError Item → Tool N
  or_project c r (ok it) = pure (got it)
  or_project c r _ = on_store (get (project_ref c r)) >>= or_refused

  abbrev pub read_item : Subject → Ref → Tool N
  read_item c r = on_store (get r) >>= or_project c r

  unfoldable pub context_get : Subject → Args → Tool N
  unfolding get require ref_for
  context_get c args =
      let r = ref_for c args [] in on_access (require c r read) >>= if_permitted (read_item c r)

  -- aurium_context_append
  abbrev pub appended : Result ContextError Item → Tool N
  appended (ok it) = pure (changed it.ref.key it.version)
  appended _ = pure refused

  -- The id of a new row and the clock are arguments, as in the engine.
  unfoldable pub context_append : (id now : Text) → Subject → Args → Tool N
  unfolding append_item require ref_for
  context_append id now c args =
      let r = ref_for c args (codes "container") in
      on_access (require c r append)
      >>= if_permitted (
          on_store (append_item r (caller_actor c) id now (arg_str args (codes "text")))
          >>= appended)

  module _ (scan : Text → Option ℕ) (notify : (project key : Text) → ℕ → N → N)
      (tell_human : Subject → Ref → Proposal → N → N) where
    abbrev pub mailed : (N → N) → NativeAnswer → Tool N
    mailed f a d fs = (ok a, record d { mail = f d.mail }, fs)

    -- aurium_context_write
    abbrev pub written : Subject → Result ContextError Item → Tool N
    written c (ok it) =
        mailed (notify c.project_id it.ref.key it.version) (changed it.ref.key it.version)
    written c (err (stale r base current content)) = pure (stale_now current content)
    written c _ = pure refused

    unfoldable pub context_write : (id now : Text) → Subject → Args → Tool N
    unfolding write_item require ref_for
    context_write id now c args =
        let r = ref_for c args (codes "container") in
        on_access (require c r write)
        >>= if_permitted (
            on_store (
              write_item r (caller_actor c) id now (arg_int scan args (codes "base_version") 0)
                (arg_str args (codes "content")) (arg_str args (codes "reason")))
            >>= written c)

    -- aurium_context_propose
    abbrev pub put_forward : Subject → Ref → Result ContextError Proposal → Tool N
    put_forward c r (ok p) = mailed (tell_human c r p) (proposed p)
    put_forward c r _ = pure refused

    unfoldable pub context_propose : (id now : Text) → Subject → Args → Tool N
    unfolding propose require ref_for
    context_propose id now c args =
        let r = ref_for c args (codes "project") in
        on_access (require c r Store.Perm.propose)
        >>= if_permitted (
            on_store (
              propose r (arg_int scan args (codes "base_version") 0)
                (arg_str args (codes "content")) (caller_actor c) (arg_str args (codes "reason")) id
                now)
            >>= put_forward c r)
