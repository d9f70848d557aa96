-- ===== src/Tokens.antt =====
-- internal/store/tokens.go: bearer tokens.
--
-- SHA-256 is a parameter, `hash`, and the random bytes of a token are an argument. The comparison of
-- the hash with itself is left out: the row was found by it.
pub mod Auth
pub mod Scopes
mod Tests
use aurium.Base.{
  ℕ, zero, suc, Bool, true, false, not, ◌&&◌, ◌||◌, Option, none, some, List, [], ◌∷◌, ◌++◌, Text,
  codes, text_eq, is_empty, any, find, map, ◌==◌, if◌then◌else◌,
}
use aurium.Base.Int.{ℤ, pos, negsuc, ◌+ℤ◌, ltb_ℤ}
use aurium.Db.{
  Result, ok, failed, err, Faults, Sql, pure, raise, ◌>>=◌, ◌>>◌, query, statement, modify,
}
use aurium.Lease.{Stamp, at, corrupt}

-- `TokenInfo`
pub record TokenInfo : Type 0 where
  pub id : Text
  pub container_id : Text
  pub agent_id : Text
  pub scopes : List Text
  pub expires_at : Option Stamp

-- A row of `tokens`. A container or an agent that is NULL is empty, as `nullable` stores an empty one;
-- an expiry that is NULL is none.
pub record Row : Type 0 where
  pub id : Text
  pub hash : Text
  pub container_id : Text
  pub agent_id : Text
  pub scopes : Text
  pub expires_at : Option Stamp
  pub is_revoked : Bool

pub record Tables : Type 0 where
  pub tokens : List Row
  pub containers : List Text
  pub agents : List Text

-- `ErrUnauthorized`
pub data AuthError : Type 0 where
  unauthorized : AuthError

abbrev pub comma : ℕ
comma = b','

abbrev pub colon : ℕ
colon = b':'

-- `strings.Join(scopes, ",")`
unfoldable pub join_scopes : List Text → Text
join_scopes [] = []
join_scopes (s ∷ []) = s
join_scopes (s ∷ t ∷ rest) = s ++ comma ∷ join_scopes (t ∷ rest)

abbrev pub onto_first : ℕ → List Text → List Text
onto_first c [] = (c ∷ []) ∷ []
onto_first c (s ∷ rest) = (c ∷ s) ∷ rest

-- `strings.Split(scopes, ",")`
unfoldable pub split_scopes : Text → List Text
split_scopes [] = [] ∷ []
split_scopes (c ∷ s) =
    let rest = split_scopes s in if c == comma then [] ∷ rest else onto_first c rest

abbrev pub put_before : ℕ → Option Text → Option Text
put_before c none = none
put_before c (some t) = some (c ∷ t)

-- What stands before the first colon, if there is one.
unfoldable pub before_colon : Text → Option Text
before_colon [] = none
before_colon (c ∷ s) =
    let rest = before_colon s in if c == colon then some [] else put_before c rest

abbrev pub prefix_covers : Text → Option Text → Bool
prefix_covers got none = false
prefix_covers got (some p) = text_eq got (p ++ codes ":*")

-- Whether a scope is a prefix with `:*` behind it, or the scope itself, or the administrator's.
unfoldable pub covers : Text → Text → Bool
unfolding before_colon
covers got want =
    text_eq got want || (text_eq got (codes "admin:*") || prefix_covers got (before_colon want))

-- `Has`
unfoldable pub has : List Text → Text → Bool
unfolding covers
has scopes want = any (λ got. covers got want) scopes

-- The expiry of a new token: only a time to live of 0 means none.
abbrev pub expiry : ℤ → ℤ → Option Stamp
expiry (pos zero) now = none
expiry (pos (suc n)) now = some (at (now +ℤ pos (suc n)))
expiry (negsuc n) now = some (at (now +ℤ negsuc n))

-- A foreign key: NULL, or the id of a row.
abbrev pub refers : Text → List Text → Bool
refers id ids = is_empty id || any (text_eq id) ids

-- The INSERT: the id is the primary key, the hash is unique, and the container and the agent are rows.
abbrev pub insert_row : Row → Tables → Result AuthError (Unit {0}) × Tables
insert_row r t =
    if any (λ (x : Row). text_eq r.id x.id || text_eq r.hash x.hash) t.tokens
    then (failed, t)
    else if not (refers r.container_id t.containers && refers r.agent_id t.agents)
    then (failed, t)
    else (ok tt, record t { tokens = r ∷ t.tokens })

abbrev pub with_hash : Text → List Row → Option Row
with_hash h = find (λ (r : Row). text_eq h r.hash)

-- The WHERE clause: a container that is NULL equals nothing.
abbrev pub is_held_in : Text → Row → Bool
is_held_in c r = not (is_empty r.container_id) && text_eq c r.container_id

abbrev pub revoke_row : Text → Row → Row
revoke_row c r = if is_held_in c r then record r { is_revoked = true } else r

-- `RevokeTokensForContainer`
unfoldable pub revoke_tokens_for_container : Text → Sql AuthError Tables (Unit {0})
revoke_tokens_for_container c =
    modify (λ (t : Tables). record t { tokens = map (revoke_row c) t.tokens })

abbrev pub has_expired : ℤ → Option Stamp → Bool
has_expired now none = false
has_expired now (some (corrupt _)) = true
has_expired now (some (at e)) = ltb_ℤ e now

abbrev pub info_of : Row → TokenInfo
info_of r = record {
  id = r.id;
  container_id = r.container_id;
  agent_id = r.agent_id;
  scopes = split_scopes r.scopes;
  expires_at = r.expires_at;
}

abbrev pub refused :
    {A : Type 0} → Result AuthError A × Tables × Faults → Result AuthError A × Tables × Faults
refused (ok a, t, fs) = (ok a, t, fs)
refused (failed, t, fs) = (err unauthorized, t, fs)
refused (err e, t, fs) = (err unauthorized, t, fs)

-- Any error of the database is `ErrUnauthorized` too.
abbrev pub or_unauthorized : {A : Type 0} → Sql AuthError Tables A → Sql AuthError Tables A
or_unauthorized m t fs = refused (m t fs)

abbrev pub stands : Row → Bool → Sql AuthError Tables TokenInfo
stands r true = pure (info_of r)
stands r false = raise unauthorized

-- The container of the token has to be there still.
abbrev pub check_container : Row → Sql AuthError Tables TokenInfo
check_container r =
    if is_empty r.container_id
    then pure (info_of r)
    else (or_unauthorized (query (λ (t : Tables). any (text_eq r.container_id) t.containers))
        >>= stands r)

abbrev pub check_row : ℤ → Option Row → Sql AuthError Tables TokenInfo
check_row now none = raise unauthorized
check_row now (some r) =
    if r.is_revoked
    then raise unauthorized
    else if has_expired now r.expires_at
    then raise unauthorized
    else check_container r

module _ (hash : Text → Text) where
  -- `CreateToken`, with the random part of the token, the new id and the clock.
  unfoldable pub create_token :
      Text → Text → ℤ → Text → Text → List Text → ℤ → Sql AuthError Tables (Text × TokenInfo)
  unfolding join_scopes
  create_token raw id now container agent scopes ttl = do
    let plaintext = codes "aur_" ++ raw
    let info : TokenInfo = record {
      id = id;
      container_id = container;
      agent_id = agent;
      scopes = scopes;
      expires_at = expiry ttl now;
    }
    statement (
        insert_row (record {
          id = id;
          hash = hash plaintext;
          container_id = container;
          agent_id = agent;
          scopes = join_scopes scopes;
          expires_at = expiry ttl now;
          is_revoked = false;
        }))
    pure (plaintext, info)

  -- `AuthenticateToken`, with the clock.
  unfoldable pub authenticate_token : ℤ → Text → Sql AuthError Tables TokenInfo
  unfolding split_scopes
  authenticate_token now plaintext =
      if is_empty plaintext
      then raise unauthorized
      else (or_unauthorized (query (λ (t : Tables). with_hash (hash plaintext) t.tokens))
          >>= check_row now)
